-- ===== src/Parse/Consume.antt =====
-- What an answer of `parse` says of the text: a failure gives all of it back, a success splits it.
use failmail.Base.{
  ℕ, zero, suc, ◌≡◌, refl, sym, ap, ◌∙◌, Bool, true, false, not, ◌&&◌, Option, none, some, List, [],
  ◌∷◌, ◌++◌, append_assoc, arith, Str, length, take, take-append-drop, if◌then◌else◌, Bool-cases,
  Option-cases, inl, inr, has_prefix, to_lower,
}
use mathlib.Core.Path.{subst}
use failmail.Regex.{Re, longest_match}
use failmail.Parse.{
  Node, Children, children_of, text_of, Parser, Parsers, done, then_by, any, longest, series, omit,
  zero_or_more, label, literal, regexp, ref, Heap, Answer, Outcome, Run, and_then, is_longer, merge,
  cut, parse_any, parse_longest, parse_series, parse_many, parse_literal, parse_regexp, parse_step,
  parse,
}

abbrev is_some_parser : Parsers → Bool
is_some_parser done = false
is_some_parser (then_by p ps) = true

-- Every `Longest` has an alternative; where `keep` is true, nothing is omitted either.
abbrev mutual
  pub fits : Bool → Parser → Bool
  fits keep (any ps) = fits_all keep ps
  fits keep (longest ps) = is_some_parser ps && fits_all keep ps
  fits keep (series ps) = fits_all keep ps
  fits keep (omit p) = not keep && fits keep p
  fits keep (zero_or_more p) = fits keep p
  fits keep (label l p) = fits keep p
  fits keep (literal lit b) = true
  fits keep (regexp re) = true
  fits keep (ref i) = true

  pub fits_all : Bool → Parsers → Bool
  fits_all keep done = true
  fits_all keep (then_by p ps) = fits keep p && fits_all keep ps

abbrev pub Splits : Bool → Str → Answer → Type 0
Splits keep s (rest, none) = rest ≡ s
Splits keep s (rest, some n) = (c : Str) × (s ≡ c ++ rest) × (keep ≡ true → text_of n ≡ c)

abbrev pub Holds : (Answer → Type 0) → Outcome → Type 0
Holds P none = Unit
Holds P (some a) = P a

pub and_then-Holds :
    (P Q : Answer → Type 0) (o : Outcome) (f : Str → Option Node → Outcome)
    → Holds P o
    → ((rest : Str) (n : Option Node) → P (rest, n) → Holds Q (f rest n))
    → Holds Q (and_then o f)
and_then-Holds P Q none f h next = tt
and_then-Holds P Q (some (rest, n)) f h next = next rest n h

cut-Splits : (keep : Bool) (s : Str) (n : ℕ) → Holds (Splits keep s) (cut s n)
cut-Splits keep s n = (take n s, sym (take-append-drop n s), λ _. refl)

-- One more piece read: `c` of the text was read, and then `d`.
splits_on :
    {keep : Bool} {s c rest d t u : Str} (rest' : Str)
    → s ≡ c ++ rest
    → (keep ≡ true → t ≡ c)
    → rest ≡ d ++ rest'
    → (keep ≡ true → u ≡ d)
    → (s ≡ (c ++ d) ++ rest') × (keep ≡ true → t ++ u ≡ c ++ d)
splits_on {c = c} {d = d} rest' e h e' h' =
    (e ∙ ap (λ x. c ++ x) e' ∙ sym (append_assoc c d rest'), λ k. cc (h k, h' k))

choose-Splits :
    (keep : Bool) (s : Str) (b : Bool) (r t : Str) (n m : Option Node)
    → Splits keep s (r, n)
    → Splits keep s (t, m)
    → Splits keep s (if b then r else t, if b then n else m)
choose-Splits keep s true r t n m h k = h
choose-Splits keep s false r t n m h k = k

literal-Splits :
    (keep : Bool) (lit : Str) (b : Bool) (s : Str) → Holds (Splits keep s) (parse_literal lit b s)
unfolding parse_literal
literal-Splits keep lit b s = elim (Bool-cases (has_prefix (if b then s else to_lower s) lit)) [
  | inl e ↦ rw e (cut-Splits keep s (length lit))
  | inr e ↦ rw e refl
]

regexp-Splits : (keep : Bool) (re : Re) (s : Str) → Holds (Splits keep s) (parse_regexp re s)
unfolding parse_regexp
regexp-Splits keep re s = elim (Option-cases (longest_match re s)) [
  | inl e ↦ rw (e, parse_regexp) refl
  | inr (n, e) ↦ rw (e, parse_regexp) (cut-Splits keep s n)
]

module _ (keep : Bool) where
  abbrev RunSplits : Run → Type 0
  RunSplits run = (p : Parser) (s : Str) → fits keep p ≡ true → Holds (Splits keep s) (run p s)

  module _ (run : Run) (ok : RunSplits run) where
    any-Splits :
        (ps : Parsers) (s : Str)
        → fits_all keep ps ≡ true
        → Holds (Splits keep s) (parse_any run ps s)
    unfolding parse_any
    any-Splits done s w = refl
    any-Splits (then_by p ps) s w =
        and_then-Holds _ _ (run p s) _ (ok p s (ground arith))
          λ rest. elim [ none ↦ λ h. any-Splits ps s (ground arith) | some n ↦ λ h. h ]

    longest-Splits :
        (ps : Parsers) (s t : Str) (m : Option Node)
        → fits_all keep ps ≡ true
        → Splits keep s (t, m)
        → Holds (Splits keep s) (parse_longest run ps s t m)
    unfolding parse_longest
    longest-Splits done s t m w h = h
    longest-Splits (then_by p ps) s t m w h =
        and_then-Holds _ _ (run p s) _ (ok p s (ground arith)) λ rest n k.
          longest-Splits ps s _ _ (ground arith)
            (choose-Splits keep s (is_longer rest n t m) rest t n m k h)

    series-Splits :
        (ps : Parsers) (s c rest t : Str) (cs : Children)
        → fits_all keep ps ≡ true
        → s ≡ c ++ rest
        → (keep ≡ true → t ≡ c)
        → Holds (Splits keep s) (parse_series run ps s rest t cs)
    unfolding parse_series
    series-Splits done s c rest t cs w e h = (c, e, h)
    series-Splits (then_by p ps) s c rest t cs w e h =
        and_then-Holds _ _ (run p rest) _ (ok p rest (ground arith)) λ rest'. elim [
          | none ↦ λ k. refl
          | some n ↦ λ k.
              let next = splits_on rest' e h k.1 k.2 in
              series-Splits ps s (c ++ k.0) rest' (t ++ text_of n) (merge cs (children_of n))
                (ground arith) next.0 next.1
        ]

    many-Splits :
        (f : ℕ) (p : Parser) (s c rest t : Str) (cs : Children) (chain : List Node)
        → fits keep p ≡ true
        → s ≡ c ++ rest
        → (keep ≡ true → t ≡ c)
        → Holds (Splits keep s) (parse_many run f p rest t cs chain)
    unfolding parse_many
    many-Splits zero p s c rest t cs chain w e h = tt
    many-Splits (suc f) p s c rest t cs chain w e h =
        and_then-Holds _ _ (run p rest) _ (ok p rest w) λ rest'. elim [
          | none ↦ λ k. (c, cc, h)
          | some n ↦ λ k.
              let next = splits_on rest' e h k.1 k.2 in
              many-Splits f p s (c ++ k.0) rest' (t ++ text_of n) (merge cs (children_of n))
                (chain ++ n ∷ []) w next.0 next.1
        ]

    step-Splits :
        (f : ℕ) (heap : Heap) (all : (i : ℕ) → fits keep (heap i) ≡ true) (p : Parser) (s : Str)
        → fits keep p ≡ true
        → Holds (Splits keep s) (parse_step run f heap p s)
    unfolding parse_step
    step-Splits f heap all (any ps) s w = any-Splits ps s w
    step-Splits f heap all (longest done) s w = cc
    step-Splits f heap all (longest (then_by p ps)) s w =
        and_then-Holds _ _ (run p s) _ (ok p s (ground arith))
          λ rest n k. longest-Splits ps s rest n (ground arith) k
    step-Splits f heap all (series ps) s w = series-Splits ps s [] s [] _ w refl (λ _. refl)
    step-Splits f heap all (omit p) s w =
        and_then-Holds _ _ (run p s) _ (ok p s (ground arith))
          λ rest. elim [ none ↦ λ k. refl | some n ↦ λ k. (k.0, k.1, ground arith) ]
    step-Splits f heap all (zero_or_more p) s w = many-Splits f p s [] s [] _ [] w refl (λ _. refl)
    step-Splits f heap all (label l p) s w =
        and_then-Holds _ _ (run p s) _ (ok p s w)
          λ rest. elim [ none ↦ λ k. refl | some n ↦ λ k. k ]
    step-Splits f heap all (literal lit b) s w = literal-Splits keep lit b s
    step-Splits f heap all (regexp re) s w = regexp-Splits keep re s
    step-Splits f heap all (ref i) s w = ok (heap i) s (all i)

  parse-Holds :
      (f : ℕ) (heap : Heap) (all : (i : ℕ) → fits keep (heap i) ≡ true) → RunSplits (parse f heap)
  unfolding parse
  parse-Holds zero heap all p s w = tt
  parse-Holds (suc f) heap all p s w =
      step-Splits (parse f heap) (parse-Holds f heap all) f heap all p s w

-- A failed `Parse` gives the whole text back; a successful one gives back what is left of the text
-- after a piece at its start, and where nothing is omitted the node's text is that piece.
pub parse-Splits :
    (keep : Bool) (f : ℕ) (heap : Heap) (p : Parser) (s : Str) {a : Answer}
    → ((i : ℕ) → fits keep (heap i) ≡ true)
    → fits keep p ≡ true
    → parse f heap p s ≡ some a
    → Splits keep s a
parse-Splits keep f heap p s all w h =
    subst (Holds (Splits keep s)) h (parse-Holds keep f heap all p s w)
