-- ===== src/Session/Data.antt =====
-- session.go: what `ReadData` makes of the lines of a message.
use failmail.Base.{
  ◌≡◌, refl, ap, sym, ◌∙◌, Bool, true, false, ◌||◌, Option, none, some, List, [], ◌∷◌, ◌++◌, arith,
  if◌then◌else◌, Str, bytes, eq_str, append-nil, append_assoc,
}
use failmail.Message.{Mail, Received, blank}
use failmail.Session.{
  Session, Response, reply, incomplete, deliver, set_data, collect, read_data, out_of_sequence,
}

-- A single dot.
abbrev pub end_line : Str
end_line = b'.' ∷ 13 ∷ 10 ∷ []

abbrev pub concat : List Str → Str
concat [] = []
concat (l ∷ ls) = l ++ concat ls

abbrev pub has_end : List Str → Bool
has_end [] = false
has_end (l ∷ ls) = eq_str l end_line || has_end ls

collect-end :
    (acc : Str) (ls rest : List Str)
    → has_end ls ≡ false
    → collect acc (ls ++ end_line ∷ rest) ≡ (some (acc ++ concat ls), rest)
unfolding collect eq_str
collect-end acc [] rest h = ap (λ x. (some x, rest)) (sym (append-nil acc))
collect-end acc (l ∷ ls) rest h =
    let e : eq_str l end_line ≡ false = ground arith in
    rw e (
      collect-end (acc ++ l) ls rest (ground arith)
      ∙ ap (λ x. (some x, rest)) (append_assoc acc l (concat ls)))

collect-no_end : (acc : Str) (ls : List Str) → has_end ls ≡ false → collect acc ls ≡ (none, [])
unfolding collect
collect-no_end acc [] h = refl
collect-no_end acc (l ∷ ls) h =
    let e : eq_str l end_line ≡ false = ground arith in
    rw e (collect-no_end (acc ++ l) ls (ground arith))

-- What a session answers to a text, by what it has of an envelope and whether the text is a message.
abbrev pub answer_to : Session → Str → Bool → Option Mail → Session × Response × Option Received
answer_to s text true m = (s, out_of_sequence, none)
answer_to s text false none = (s, reply 451 (bytes "Failed to parse data"), none)
answer_to s text false (some mail) = (
  record s { received = blank },
  reply 250 (bytes "Got the data"),
  some (record s.received { payload = text; parsed = some mail }),
)

-- `ReadData` reads up to the first line that is a single dot, and leaves what is behind it. The lines
-- before it are the text, unchanged: where the envelope is complete and the text is a message, this
-- message is returned in its envelope and the session starts over; else the session stays as it is.
-- Where no such line comes, all lines are read, and the session stays as it is.
pub read_data_lem :
    (read_message : Str → Option Mail) (s : Session) (ls rest : List Str)
    → has_end ls ≡ false
    → (read_data read_message s (ls ++ end_line ∷ rest)
        ≡ (answer_to s (concat ls) (incomplete s.received) (read_message (concat ls)), rest))
      × (read_data read_message s ls ≡ ((s, reply 451 (bytes "Failed to read data"), none), []))
unfolding read_data set_data
read_data_lem read_message s ls rest h = (
  rw (collect-end [] ls rest h)
      (ap (λ x. (x, rest)) (go (incomplete s.received) (read_message (concat ls)))),
  rw (collect-no_end [] ls h) refl,
)
  where
    go :
        (b : Bool) (m : Option Mail)
        → (if b then (s, out_of_sequence, none) else deliver s (concat ls) m)
          ≡ answer_to s (concat ls) b m
    go true m = refl
    go false none = refl
    go false (some mail) = refl
