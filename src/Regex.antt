-- ===== src/Regex.antt =====
-- Go's package `regexp`, as far as `Regexp` of parse/parse.go uses it: the length of the longest
-- match at the start of a text (`"^" + re` after `Longest()`), by derivatives of the expression.
pub mod Matches
pub mod Runs
use failmail.Base.{
  ℕ, suc, ◌≤◌, ◌≡◌, ◌≢◌, inl, inr, Bool, true, false, ◌&&◌, ◌||◌, Option, none, some, List, [], ◌∷◌,
  arith, ◌==◌, leb, if◌then◌else◌, Str, length, Option-cases,
}

pub data Re : Type 0 where
  never : Re
  empty : Re
  class : (ℕ → Bool) → Re
  seq alt : Re → Re → Re
  star : Re → Re

unfoldable pub nullable : Re → Bool
nullable never = false
nullable empty = true
nullable (class p) = false
nullable (seq a b) = nullable a && nullable b
nullable (alt a b) = nullable a || nullable b
nullable (star a) = true

-- Concatenation and choice that drop dead branches.
unfoldable pub join : Re → Re → Re
join never b = never
join empty b = b
join a b = seq a b

unfoldable pub choose : Re → Re → Re
choose never b = b
choose a never = a
choose a b = alt a b

-- What is left to match after one byte.
unfoldable pub derive : ℕ → Re → Re
unfolding join choose nullable
derive c never = never
derive c empty = never
derive c (class p) = if p c then empty else never
derive c (seq a b) =
    let first = join (derive c a) b in
    let second = derive c b in if nullable a then choose first second else first
derive c (alt a b) = choose (derive c a) (derive c b)
derive c (star a) = join (derive c a) (star a)

unfoldable pub longest_match : Re → Str → Option ℕ
unfolding derive
longest_match r [] = if nullable r then some 0 else none
longest_match r (c ∷ s) = elim (longest_match (derive c r) s) [
  | some n ↦ some (suc n)
  | none ↦ if nullable r then some 0 else none
]

pub longest_match-le : (r : Re) (s : Str) {n : ℕ} → longest_match r s ≡ some n → n ≤ length s
unfolding longest_match
longest_match-le r [] h = ground arith
longest_match-le r (c ∷ s) h = elim (Option-cases (longest_match (derive c r) s)) [
  | inl e ↦ ground arith
  | inr (m, e) ↦ ground (arith, longest_match-le (derive c r) s e)
]

-- An expression that does not match the empty text never matches with length 0.
pub longest_match_pos : (r : Re) (s : Str) → nullable r ≡ false → longest_match r s ≢ some 0
unfolding longest_match
longest_match_pos r [] h = ground arith
longest_match_pos r (c ∷ s) h = ground arith

abbrev pub one_of : List ℕ → ℕ → Bool
one_of [] c = false
one_of (b ∷ bs) c = c == b || one_of bs c

abbrev pub within : ℕ → ℕ → ℕ → Bool
within lo hi c = leb lo c && leb c hi

abbrev pub plus : Re → Re
plus r = seq r (star r)

abbrev pub optional : Re → Re
optional r = alt r empty
