-- ===== src/Session/Reply.antt =====
-- session.go: `Response.WriteTo`, on a writer that may fail.
use failmail.Base.{
  ℕ, Bool, true, false, List, [], ◌∷◌, ◌++◌, if◌then◌else◌, Str, bytes, split, trim_space, decimal,
}
use failmail.Session.{Response}

-- A `stringWriter`: what was written, and for each coming call whether it fails.
pub record Writer : Type 0 where
  pub written : Str
  pub failures : List Bool

abbrev pub crlf : Str
crlf = 13 ∷ 10 ∷ []

abbrev first_failure : List Bool → Bool
first_failure [] = false
first_failure (b ∷ bs) = b

abbrev later_failures : List Bool → List Bool
later_failures [] = []
later_failures (b ∷ bs) = bs

-- `WriteString`: whether it failed, and the writer after it.
unfoldable pub write_string : Writer → Str → Bool × Writer
write_string w t =
    let next = later_failures w.failures in
    if first_failure w.failures
    then (true, record w { failures = next })
    else (false, record w { written = w.written ++ t; failures = next })

unfoldable pub flush : Writer → Bool × Writer
flush w = (first_failure w.failures, record w { failures = later_failures w.failures })

abbrev pub reply_line : ℕ → Str → Str → Str
reply_line code mark line = decimal code ++ mark ++ line ++ crlf

-- The lines of a reply as they are sent: all but the last with a dash behind the code.
unfoldable pub reply_lines : ℕ → List Str → List Str
unfolding bytes
reply_lines code [] = []
reply_lines code (l ∷ []) = reply_line code (bytes " ") l ∷ []
reply_lines code (l ∷ m ∷ ls) = reply_line code (bytes "-") l ∷ reply_lines code (m ∷ ls)

-- The loop over the lines: it stops at the first failure.
unfoldable pub write_lines : Writer → List Str → Bool × Writer
unfolding write_string flush
write_lines w [] = flush w
write_lines w (l ∷ ls) =
    let (failed, w') = write_string w l in
    let rest = write_lines w' ls in if failed then (true, w') else rest

-- A reply of one line is written with the text as it is, not trimmed.
abbrev pub reply_texts : Str → List Str → List Str
reply_texts whole (l ∷ m ∷ ls) = l ∷ m ∷ ls
reply_texts whole _ = whole ∷ []

unfoldable pub write_response : Writer → Response → Bool × Writer
unfolding write_lines reply_lines split trim_space decimal
write_response w r =
    write_lines w (reply_lines r.code (reply_texts r.text (split (trim_space r.text) crlf)))
