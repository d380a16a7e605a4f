-- ===== src/Parse/Eats.antt =====
-- How much of a text `Parse` takes.
use failmail.Base.{
  ℕ, zero, suc, ◌-◌, ◌≤◌, ◌<◌, ◌≡◌, refl, ap, Bool, true, false, not, ◌&&◌, ◌||◌, Option, none,
  some, [], ◌∷◌, ◌++◌, arith, Str, Bool-cases, Option-cases, inl, inr, drop, length, length-append,
  has_prefix, to_lower, if◌then◌else◌, is_empty,
}
use mathlib.Core.Path.{subst}
use failmail.Regex.{Re, nullable, longest_match, longest_match-le, longest_match_pos}
use failmail.Parse.{
  Node, Children, no_children, children_of, text_of, merge, Parser, Parsers, done, then_by, any,
  longest, series, omit, zero_or_more, label, literal, regexp, ref, Heap, Answer, Outcome,
  parse_any, parse_series, parse_label, parse_literal, parse_regexp, parse_omit, parse_step, parse,
}
use failmail.Parse.Consume.{fits, fits_all, Splits, parse-Splits, Holds, and_then-Holds}

length-drop : (n : ℕ) (s : Str) → length (drop n s) ≡ length s - n
length-drop zero s = omega arith
length-drop (suc n) [] = omega arith
length-drop (suc n) (c ∷ s) = omega (arith, length-drop n s)

-- A regular expression that does not match the empty text shortens the text.
pub regexp-shorter :
    (re : Re) (s : Str) {rest : Str} {n : Node}
    → nullable re ≡ false
    → parse_regexp re s ≡ some (rest, some n)
    → length rest < length s
unfolding parse_regexp
regexp-shorter re s w h = elim (Option-cases (longest_match re s)) [
  | inl e ↦ absurd (ground arith)
  | inr (zero, e) ↦ absurd (longest_match_pos re s w e)
  | inr (suc m, e) ↦ ground (arith, longest_match-le re s e, length-drop (suc m) s)
]

shorter : (rest s : Str) (n : Option Node) → Splits false s (rest, n) → length rest ≤ length s
shorter rest s none h = rw h (omega arith)
shorter rest s (some n) (c, e, _) = omega (arith, ap length e, length-append c rest)

-- The parser takes at least a byte wherever it succeeds.
abbrev mutual
  pub eats : Parser → Bool
  eats (any ps) = eats_each ps
  eats (longest ps) = false
  eats (series ps) = eats_some ps
  eats (omit p) = eats p
  eats (zero_or_more p) = false
  eats (label l p) = eats p
  eats (literal lit b) = not (is_empty lit)
  eats (regexp re) = not (nullable re)
  eats (ref i) = false

  pub eats_each : Parsers → Bool
  eats_each done = true
  eats_each (then_by p ps) = eats p && eats_each ps

  pub eats_some : Parsers → Bool
  eats_some done = false
  eats_some (then_by p ps) = eats p || eats_some ps

-- A success leaves at most `n` bytes, and fewer where `b` is true.
abbrev pub Leaves : Bool → ℕ → Answer → Type 0
Leaves b n (rest, none) = Unit
Leaves b n (rest, some m) = (length rest ≤ n) × (b ≡ true → length rest < n)

has_prefix_nil : (x : ℕ) (l : Str) → has_prefix [] (x ∷ l) ≡ false
unfolding has_prefix
has_prefix_nil x l = refl

length-to_lower : (s : Str) → length (to_lower s) ≡ length s
unfolding to_lower
length-to_lower [] = refl
length-to_lower (c ∷ s) = ap suc (length-to_lower s)

literal-Leaves :
    (lit : Str) (c : Bool) (s : Str)
    → Holds (Leaves (not (is_empty lit)) (length s)) (parse_literal lit c s)
unfolding parse_literal
literal-Leaves lit c s = elim (Bool-cases (has_prefix (if c then s else to_lower s) lit)) [
  | inr e ↦ rw e tt
  | inl e ↦ rw e (
    omega (arith, length-drop (length lit) s),
    λ h. go lit s h (starts (if c then s else to_lower s) lit e) (same c s),
  )
]
  where
    starts : (t l : Str) → has_prefix t l ≡ true → not (is_empty l) ≡ true → 0 < length t
    starts [] [] e h = cc
    starts [] (x ∷ l) e h = ground (arith, has_prefix_nil x l)
    starts (x ∷ t) l e h = omega arith

    same : (c : Bool) (s : Str) → length (if c then s else to_lower s) ≡ length s
    same true s = refl
    same false s = length-to_lower s

    go :
        {n : ℕ} (lit s : Str)
        → not (is_empty lit) ≡ true
        → (not (is_empty lit) ≡ true → 0 < n)
        → n ≡ length s
        → length (drop (length lit) s) < length s
    go [] s h k e = cc
    go (x ∷ lit) s h k e = omega (arith, length-drop (length (x ∷ lit)) s, k h)

regexp-Leaves :
    (re : Re) (s : Str)
    → not (nullable re) ≡ true
    → Holds (Leaves true (length s)) (parse_regexp re s)
regexp-Leaves re s e = go (parse_regexp re s) refl
  where
    go : (o : Outcome) → parse_regexp re s ≡ o → Holds (Leaves true (length s)) o
    go none h = tt
    go (some (rest, none)) h = tt
    go (some (rest, some n)) h =
        let less = regexp-shorter re s (ground arith) h in (omega (arith, less), λ _. less)

module _ (heap : Heap) (well : (i : ℕ) → fits false (heap i) ≡ true) where
  -- `Parse` never gives back more than it was given.
  pub parse_le :
      (f : ℕ) (p : Parser) (s : Str) {rest : Str} {n : Option Node}
      → fits false p ≡ true
      → parse f heap p s ≡ some (rest, n)
      → length rest ≤ length s
  parse_le f p s {rest} {n} w h = shorter rest s n (parse-Splits false f heap p s well w h)

  abbrev Takes : ℕ → Type 0
  Takes f =
      (p : Parser) (s : Str)
      → fits false p ≡ true
      → eats p ≡ true
      → Holds (Leaves true (length s)) (parse f heap p s)

  any-Leaves :
      (f : ℕ)
      → Takes f
      → (ps : Parsers) (s : Str) → fits_all false ps ≡ true
      → eats_each ps ≡ true
      → Holds (Leaves true (length s)) (parse_any (parse f heap) ps s)
  unfolding parse_any
  any-Leaves f takes done s w e = tt
  any-Leaves f takes (then_by p ps) s w e =
      and_then-Holds (Leaves true (length s)) (Leaves true (length s)) (parse f heap p s) _
        (takes p s (ground arith) (ground arith))
        λ rest. elim [
          | none ↦ λ l. any-Leaves f takes ps s (ground arith) (ground arith)
          | some n ↦ λ l. l
        ]

  taken :
      (p : Parser) (s : Str) (o : Outcome)
      → ((rest : Str) (n : Option Node) → o ≡ some (rest, n) → length rest ≤ length s)
      → (eats p ≡ true → Holds (Leaves true (length s)) o)
      → Holds (Leaves (eats p) (length s)) o
  taken p s none le takes = tt
  taken p s (some (rest, none)) le takes = tt
  taken p s (some (rest, some n)) le takes = (le rest (some n) refl, λ e. (takes e).1 refl)

  piece-Leaves :
      (f : ℕ)
      → Takes f
      → (p : Parser) (s : Str) → fits false p ≡ true
      → Holds (Leaves (eats p) (length s)) (parse f heap p s)
  piece-Leaves f takes p s w =
      taken p s (parse f heap p s) (λ rest n h. parse_le f p s w h) (λ e. takes p s w e)

  series-Leaves :
      (f : ℕ)
      → Takes f
      → (ps : Parsers) (n : ℕ) (b : Bool) (s rest t : Str) (cs : Children)
      → fits_all false ps ≡ true
      → length rest ≤ n
      → (b ≡ true → length rest < n)
      → (b || eats_some ps) ≡ true
      → Holds (Leaves true n) (parse_series (parse f heap) ps s rest t cs)
  unfolding parse_series
  series-Leaves f takes done n b s rest t cs w h k e =
      let l : length rest < n = k (ground arith) in (h, λ _. l)
  series-Leaves f takes (then_by p ps) n b s rest t cs w h k e =
      and_then-Holds (Leaves (eats p) (length rest)) (Leaves true n) (parse f heap p rest) _
        (piece-Leaves f takes p rest (ground arith))
        λ rest'. elim [
          | none ↦ λ l. tt
          | some c ↦ λ l.
              series-Leaves f takes ps n (b || eats p) s rest' (t ++ text_of c)
                (merge cs (children_of c)) (ground arith) (omega (arith, l.0))
                (λ d. strict (b) (eats p) d k l h) (ground arith)
        ]
    where
      strict :
          {m r : ℕ} (b e : Bool)
          → (b || e) ≡ true
          → (b ≡ true → r < n)
          → (m ≤ r) × (e ≡ true → m < r)
          → r ≤ n
          → m < n
      strict true e d k l h = omega (arith, k refl, l.0)
      strict false true d k l h = omega (arith, l.1 refl)
      strict false false d k l h = cc

  -- A parser of that kind does take a byte.
  pub parse-Leaves : (f : ℕ) → Takes f
  unfolding parse parse_step parse_omit parse_label
  parse-Leaves zero p s w e = tt
  parse-Leaves (suc f) (any ps) s w e = any-Leaves f (parse-Leaves f) ps s w e
  parse-Leaves (suc f) (longest ps) s w e = cc
  parse-Leaves (suc f) (series ps) s w e =
      series-Leaves f (parse-Leaves f) ps (length s) false s s [] no_children w (omega arith)
        (λ d. cc) e
  parse-Leaves (suc f) (omit p) s w e =
      and_then-Holds (Leaves true (length s)) (Leaves true (length s)) (parse f heap p s) _
        (parse-Leaves f p s w e) λ rest. elim [ none ↦ λ l. tt | some n ↦ λ l. l ]
  parse-Leaves (suc f) (label l p) s w e =
      and_then-Holds (Leaves true (length s)) (Leaves true (length s)) (parse f heap p s) _
        (parse-Leaves f p s w e) λ rest. elim [ none ↦ λ l. tt | some n ↦ λ l. l ]
  parse-Leaves (suc f) (zero_or_more p) s w e = cc
  parse-Leaves (suc f) (ref i) s w e = cc
  parse-Leaves (suc f) (literal lit c) s w e =
      subst (λ b. Holds (Leaves b (length s)) (parse_literal lit c s)) e (literal-Leaves lit c s)
  parse-Leaves (suc f) (regexp re) s w e = regexp-Leaves re s e
