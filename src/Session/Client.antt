-- ===== src/Session/Client.antt =====
-- session.go: what a client reads of a reply.
use failmail.Base.{
  ℕ, ◌+◌, ◌-◌, ◌*◌, ◌/◌, ◌%◌, ◌≤◌, ◌<◌, ◌==◌, ◌≡◌, refl, ap, sym, ◌∙◌, true, false, Option, none,
  some, List, [], ◌∷◌, ◌++◌, arith, if◌then◌else◌, Str, bytes, split, trim_space, decimal_three,
  three_digits, lacks, lacks-append, split-at, All, append_assoc, append-nil,
}
use failmail.Session.{Response}
use failmail.Session.Reply.{
  Writer, crlf, reply_line, reply_lines, write_lines, write_string, flush, reply_texts,
  write_response,
}

-- The text of a line, without the return at its end.
abbrev pub drop_return : Str → Str
drop_return [] = []
drop_return (c ∷ []) = []
drop_return (c ∷ d ∷ s) = c ∷ drop_return (d ∷ s)

abbrev pub digit : ℕ → ℕ
digit c = c - 48

-- The lines up to the first one that has a space behind its code.
abbrev pub read_lines : List Str → Option (ℕ × List Str)
read_lines ((a ∷ b ∷ c ∷ mark ∷ text) ∷ ls) =
    let code = digit a * 100 + digit b * 10 + digit c in
    let rest = read_lines ls in
    if mark == b' '
    then some (code, drop_return text ∷ [])
    else elim rest [ none ↦ none | some (later, ts) ↦ some (code, drop_return text ∷ ts) ]
read_lines _ = none

-- A client that follows RFC 5321, section 4.2.1.
abbrev pub read_reply : Str → Option (ℕ × List Str)
read_reply wire = read_lines (split wire (10 ∷ []))

drop_return-append : (t : Str) → drop_return (t ++ 13 ∷ []) ≡ t
drop_return-append [] = refl
drop_return-append (c ∷ []) = refl
drop_return-append (c ∷ d ∷ t) = ap (c ∷◌) (drop_return-append (d ∷ t))

abbrev pub concat : List Str → Str
concat [] = []
concat (l ∷ ls) = l ++ concat ls

-- A text that fits on a line.
abbrev pub IsLine : Str → Type 0
IsLine t = lacks 10 t ≡ true

-- A line of a reply with these digits.
abbrev reply_line_of : Str → ℕ → Str → Str
reply_line_of d mark text = d ++ mark ∷ [] ++ text ++ crlf

shape :
    (d : Str) (mark : ℕ) (text rest : Str)
    → reply_line_of d mark text ++ rest ≡ (d ++ mark ∷ (text ++ 13 ∷ [])) ++ 10 ∷ rest
shape d mark text rest = simp append_assoc

module _ (code : ℕ) (low : 100 ≤ code) (high : code < 1000) where
  -- A line as it is sent, but for its line feed.
  abbrev sent : ℕ → Str → Str
  sent mark text = three_digits code ++ mark ∷ (text ++ 13 ∷ [])

  lacks-sent :
      (mark : ℕ) (text : Str)
      → IsLine text
      → (mark == 10) ≡ false
      → lacks 10 (sent mark text) ≡ true
  lacks-sent mark text h m = ground (arith, lacks-append 10 text (13 ∷ []))

  split-sent :
      (mark : ℕ) (text rest : Str)
      → IsLine text
      → (mark == 10) ≡ false
      → split (reply_line code (mark ∷ []) text ++ rest) (10 ∷ [])
        ≡ sent mark text ∷ split rest (10 ∷ [])
  split-sent mark text rest h m =
      ap (λ s. split s (10 ∷ []))
        (ap (λ d. reply_line_of d mark text ++ rest) (decimal_three code low high)
          ∙ shape (three_digits code) mark text rest)
      ∙ split-at 10 (sent mark text) rest (lacks-sent mark text h m)

  spelled :
      digit (48 + code / 100) * 100 + digit (48 + code / 10 % 10) * 10 + digit (48 + code % 10)
      ≡ code
  spelled = omega arith

  read_lines-reply_lines :
      (text : Str) (texts : List Str)
      → All IsLine (text ∷ texts)
      → (rest : Str)
      → read_lines (split (concat (reply_lines code (text ∷ texts)) ++ rest) (10 ∷ []))
        ≡ some (code, text ∷ texts)
  unfolding reply_lines bytes
  read_lines-reply_lines text [] (h, _) rest =
      ap (λ s. read_lines (split (s ++ rest) (10 ∷ [])))
        (append-nil (reply_line code (b' ' ∷ []) text))
      ∙ ap read_lines (split-sent b' ' text rest h refl)
      ∙ rw (drop_return-append text) (ap (λ (n : ℕ). some (n, text ∷ [])) spelled)
  read_lines-reply_lines text (next ∷ texts) (h, hs) rest =
      let wire = concat (reply_lines code (next ∷ texts)) in
      ap (λ s. read_lines (split s (10 ∷ [])))
        (append_assoc (reply_line code (b'-' ∷ []) text) wire rest)
      ∙ ap read_lines (split-sent b'-' text (wire ++ rest) h refl)
      ∙ rw (read_lines-reply_lines next texts hs rest, drop_return-append text)
          (ap (λ (n : ℕ). some (n, text ∷ next ∷ texts)) spelled)

abbrev pub writing : Str → Writer
writing out = record { written = out; failures = [] }

-- The loop over the lines, on a writer that does not fail.
write_lines-concat :
    (out : Str) (ls : List Str) → write_lines (writing out) ls ≡ (false, writing (out ++ concat ls))
unfolding write_lines write_string flush
write_lines-concat out [] = ap (λ o. (false, writing o)) (sym (append-nil out))
write_lines-concat out (l ∷ ls) =
    write_lines-concat (out ++ l) ls ∙ ap (λ o. (false, writing o)) (append_assoc out l (concat ls))

-- The lines of a response.
abbrev pub texts_of : Response → List Str
texts_of r = reply_texts r.text (split (trim_space r.text) crlf)

-- A client reads from what `WriteTo` writes, where no write fails, the code and the lines of the
-- response, when the code has three digits and no line holds a line feed.
pub write_response-read_reply :
    (out : Str) (r : Response)
    → 100 ≤ r.code
    → r.code < 1000
    → All IsLine (texts_of r)
    → (wire : Str) × (write_response (writing out) r ≡ (false, writing (out ++ wire)))
      × (read_reply wire ≡ some (r.code, texts_of r))
unfolding write_response
write_response-read_reply out r low high h = go (split (trim_space r.text) crlf) h
  where
    sent_wire : List Str → Str
    sent_wire ts = concat (reply_lines r.code ts)

    reads :
        (t : Str) (ts : List Str)
        → All IsLine (t ∷ ts)
        → read_reply (concat (reply_lines r.code (t ∷ ts))) ≡ some (r.code, t ∷ ts)
    reads t ts h =
        ap read_reply (sym (append-nil (concat (reply_lines r.code (t ∷ ts)))))
        ∙ read_lines-reply_lines r.code low high t ts h []

    go :
        (pieces : List Str)
        → All IsLine (reply_texts r.text pieces)
        → (wire : Str) × (write_lines (writing out) (reply_lines r.code (reply_texts r.text pieces))
            ≡ (false, writing (out ++ wire)))
          × (read_reply wire ≡ some (r.code, reply_texts r.text pieces))
    go [] h = (
      sent_wire (r.text ∷ []),
      write_lines-concat out (reply_lines r.code (r.text ∷ [])),
      reads r.text [] h,
    )
    go (l ∷ []) h = (
      sent_wire (r.text ∷ []),
      write_lines-concat out (reply_lines r.code (r.text ∷ [])),
      reads r.text [] h,
    )
    go (l ∷ m ∷ ls) h = (
      sent_wire (l ∷ m ∷ ls),
      write_lines-concat out (reply_lines r.code (l ∷ m ∷ ls)),
      reads l (m ∷ ls) h,
    )
