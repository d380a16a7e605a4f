-- ===== src/Smtp/Commands.antt =====
-- What the parser of SMTP lines promises to the session: the children that a node has.
use failmail.Base.{
  ℕ, zero, suc, ◌≡◌, refl, ◌∙◌, inl, inr, arith, Bool-cases, not, ◌&&◌, Bool, true, false, ◌||◌,
  none, some, List, [], ◌∷◌, Str, bytes, eq_str, to_lower,
}
use failmail.Parse.{
  Heap, Parser, Parsers, done, then_by, parse_any, and_then, Outcome, Node, text_of, children_of,
  find_child, parse,
}
use failmail.Parse.Labels.{gives, parse_finds}
use failmail.Parse.Words.{allows, parse_spells}
use failmail.Smtp.{commands, smtp, smtp_heap, smtp_fuel, smtp_parser}

abbrev pub one_of_words : List Str → Str → Bool
one_of_words [] w = false
one_of_words (v ∷ vs) w = eq_str w v || one_of_words vs w

-- The commands of the grammar.
unfoldable pub is_verb : Str → Bool
unfolding bytes eq_str
is_verb = one_of_words (
    bytes "helo"
    ∷ bytes "mail"
    ∷ bytes "rcpt"
    ∷ bytes "data"
    ∷ bytes "rset"
    ∷ bytes "noop"
    ∷ bytes "quit"
    ∷ bytes "ehlo"
    ∷ bytes "vrfy"
    ∷ bytes "auth"
    ∷ bytes "starttls"
    ∷ [])

abbrev pub is_path_verb : Str → Bool
is_path_verb w = eq_str w (bytes "mail") || eq_str w (bytes "rcpt")

abbrev pub is_auth : Str → Bool
is_auth w = eq_str w (bytes "auth")

abbrev pub command_key : Str
command_key = bytes "command"

-- A node with a known command, and with the children that the session reads for that command.
pub record IsCommand (n : Node) : Type 0 where
  pub verb : Node
  pub verb_found : find_child (bytes "command") (children_of n) ≡ some verb
  pub known : is_verb (to_lower (text_of verb)) ≡ true
  pub path_found :
      is_path_verb (to_lower (text_of verb)) ≡ true
      → (c : Node) × (find_child (bytes "path") (children_of n) ≡ some c)
  pub type_found :
      is_auth (to_lower (text_of verb)) ≡ true
      → (c : Node) × (find_child (bytes "type") (children_of n) ≡ some c)

-- Either the command is none of `verbs`, or the child `l` is there.
abbrev provides : (Str → Bool) → Str → Parser → Bool
provides verbs l p = allows (bytes "command") (λ w. not (verbs w)) p || gives l p

abbrev is_command_parser : Parser → Bool
is_command_parser p =
    gives (bytes "command") p
    && allows (bytes "command") is_verb p
    && provides is_path_verb (bytes "path") p
    && provides is_auth (bytes "type") p

abbrev are_command_parsers : Parsers → Bool
are_command_parsers done = true
are_command_parsers (then_by p ps) = is_command_parser p && are_command_parsers ps

module _ (f : ℕ) (heap : Heap) where
  provided :
      (verbs : Str → Bool) (l : Str) (p : Parser) (s : Str) {rest : Str} {n c : Node}
      → provides verbs l p ≡ true
      → parse f heap p s ≡ some (rest, some n)
      → find_child (bytes "command") (children_of n) ≡ some c
      → verbs (to_lower (text_of c)) ≡ true
      → (d : Node) × (find_child l (children_of n) ≡ some d)
  provided verbs l p s w h e v =
      elim (Bool-cases (allows (bytes "command") (λ w. not (verbs w)) p)) [
        | inl y ↦
            absurd
              (ground (arith, parse_spells (bytes "command") (λ w. not (verbs w)) f heap p s y h e))
        | inr y ↦ parse_finds l f heap p s (ground arith) h
      ]

  parsed-IsCommand :
      (p : Parser) (s : Str) {rest : Str} {n : Node}
      → is_command_parser p ≡ true
      → parse f heap p s ≡ some (rest, some n)
      → IsCommand n
  parsed-IsCommand p s w h =
      let (c, e) = parse_finds (bytes "command") f heap p s (ground arith) h in
      record {
        verb = c;
        verb_found = e;
        known = parse_spells (bytes "command") is_verb f heap p s (ground arith) h e;
        path_found = provided is_path_verb (bytes "path") p s (ground arith) h e;
        type_found = provided is_auth (bytes "type") p s (ground arith) h e;
      }

  any-IsCommand :
      (ps : Parsers) (s : Str) {rest : Str} {n : Node}
      → are_command_parsers ps ≡ true
      → parse_any (parse f heap) ps s ≡ some (rest, some n)
      → IsCommand n
  unfolding parse_any
  any-IsCommand done s w h = cc
  any-IsCommand (then_by p ps) s {rest} {n} w h =
      go (parse f heap p s) refl h λ k. any-IsCommand ps s (ground arith) k
    where
      go :
          (o : Outcome)
          → parse f heap p s ≡ o
          → and_then o
              (λ r m. elim m [ some x ↦ some (r, some x) | none ↦ parse_any (parse f heap) ps s ])
            ≡ some (rest, some n)
          → (parse_any (parse f heap) ps s ≡ some (rest, some n) → IsCommand n)
          → IsCommand n
      go none e k next = cc
      go (some (r, some m)) e k next = parsed-IsCommand p s (ground arith) (e ∙ k)
      go (some (r, none)) e k next = next k

smtp_commands :
    (f : ℕ) (s : Str) {rest : Str} {n : Node}
    → parse f smtp_heap smtp s ≡ some (rest, some n)
    → IsCommand n
unfolding commands smtp parse to_lower is_verb bytes eq_str
smtp_commands zero s h = cc
smtp_commands (suc f) s h = any-IsCommand f smtp_heap commands s refl h

-- A line that the SMTP parser accepts has a known command under "command", a path where the command
-- is MAIL or RCPT, and an authentication type where it is AUTH.
pub smtp_parser-IsCommand : (s : Str) {n : Node} → smtp_parser s ≡ some (some n) → IsCommand n
unfolding smtp_parser
smtp_parser-IsCommand s {n} h = go (parse (smtp_fuel s) smtp_heap smtp s) refl h
  where
    go :
        (o : Outcome)
        → parse (smtp_fuel s) smtp_heap smtp s ≡ o
        → (elim o [ none ↦ none | some (rest, m) ↦ some m ]) ≡ some (some n)
        → IsCommand n
    go none e k = cc
    go (some (r, none)) e k = cc
    go (some (r, some m)) e k = smtp_commands (smtp_fuel s) s {rest = r} cc
