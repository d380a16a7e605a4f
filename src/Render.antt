-- ===== src/Render.antt =====
-- render.go: the renderers, and `normalizeNewlines`, on ASCII text.
--
-- A template of Go's library is what `Execute` writes and the text of its error, if there is one.
pub mod Requests
use failmail.Base.{
  ℕ, ◌≡◌, refl, Bool, true, false, not, ◌&&◌, Option, none, some, [], ◌∷◌, arith, ◌==◌,
  if◌then◌else◌, Str, List, ◌++◌, bytes,
}
use failmail.Summary.{SummaryMessage}
use failmail.Summary.Text.{Formats, contents}
use failmail.Upstream.{Outgoing}

-- `i > 0 && s[i-1] != '\r'`, of the byte before, if there is one.
abbrev pub is_bare : Option ℕ → Bool
is_bare none = false
is_bare (some c) = not (c == 13)

unfoldable pub normalize_from : Option ℕ → Str → Str
normalize_from prev [] = []
normalize_from prev (c ∷ s) =
    let rest = normalize_from (some c) s in
    if c == 10 && is_bare prev then 13 ∷ 10 ∷ rest else c ∷ rest

-- `normalizeNewlines`
unfoldable pub normalize_newlines : Str → Str
unfolding normalize_from
normalize_newlines s = normalize_from none s

abbrev pub Template : Type 0
Template = SummaryMessage → Str × Option Str

-- `NoRenderer` and `TemplateRenderer`.
pub data Renderer : Type 0 where
  no_renderer : Renderer
  template_renderer : Template → Renderer

-- What the buffer has once an error was printed into it.
abbrev pub executed : Str × Option Str → Str
executed (buf, none) = buf
executed (buf, some err) = buf ++ (10 ∷ (bytes "Error rendering message: " ++ (err ++ 10 ∷ [])))

-- `Render`
unfoldable pub render : Formats → Renderer → SummaryMessage → Outgoing
unfolding contents normalize_newlines bytes
render F no_renderer s = record { sender = s.from; recipients = s.to; contents = contents F s }
render F (template_renderer execute) s = record {
  sender = s.from;
  recipients = s.to;
  contents = normalize_newlines (executed (execute s));
}

-- Every newline but one at the start of the text comes behind a carriage return.
abbrev pub crlf_from : Option ℕ → Str → Bool
crlf_from prev [] = true
crlf_from prev (c ∷ s) = not (c == 10 && is_bare prev) && crlf_from (some c) s

normalize_from-crlf : (prev : Option ℕ) (s : Str) → crlf_from prev (normalize_from prev s) ≡ true
unfolding normalize_from
normalize_from-crlf prev [] = refl
normalize_from-crlf prev (c ∷ s) = ground (arith, normalize_from-crlf (some c) s)

normalize_from-fixed :
    (prev : Option ℕ) (s : Str) → crlf_from prev s ≡ true → normalize_from prev s ≡ s
unfolding normalize_from
normalize_from-fixed prev [] h = refl
normalize_from-fixed prev (c ∷ s) h =
    let ih = normalize_from-fixed (some c) s (ground arith) in ground arith

-- In what `normalizeNewlines` returns, every newline but one at the start comes behind a carriage
-- return, and normalizing it again changes nothing.
pub normalize_newlines_lem :
    (s : Str)
    → (crlf_from none (normalize_newlines s) ≡ true)
      × (normalize_newlines (normalize_newlines s) ≡ normalize_newlines s)
unfolding normalize_newlines
normalize_newlines_lem s =
    let crlf = normalize_from-crlf none s in
    (crlf, normalize_from-fixed none (normalize_from none s) crlf)
