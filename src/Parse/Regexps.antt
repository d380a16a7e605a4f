-- ===== src/Parse/Regexps.antt =====
-- parse/parse.go: `parseRegexp` and the language of its expression.
use failmail.Base.{
  ℕ, zero, suc, ◌≤◌, ◌≡◌, ◌↔◌, ◌⊎◌, inl, inr, refl, Bool, true, false, Option, none, some, [], ◌∷◌,
  arith, if◌then◌else◌, Str, take, drop, length,
}
use mathlib.Core.Path.{subst}
use failmail.Regex.Matches.{Matches, nullable-Matches, derive-Matches}
use failmail.Parse.{Outcome, leaf, cut, parse_regexp}
use failmail.Regex.{Re, nullable, derive, longest_match}

-- The longest match is a match, and none is longer; where there is none, nothing matches.
abbrev pub IsLongest : Re → Str → Option ℕ → Type 0
IsLongest r s none = (m : ℕ) → ¬ Matches r (take m s)
IsLongest r s (some n) =
    (n ≤ length s) × Matches r (take n s) × ((m : ℕ) → m ≤ length s → Matches r (take m s) → m ≤ n)

take_nil : (m : ℕ) → take {A = ℕ} m [] ≡ []
take_nil zero = refl
take_nil (suc m) = refl

nil-IsLongest :
    (r : Re) (null : Bool)
    → (null ≡ true) ↔ Matches r []
    → IsLongest r [] (if null then some 0 else none)
nil-IsLongest r true empty_too = (omega arith, empty_too.0 refl, λ m le h. le)
nil-IsLongest r false empty_too =
    λ m h. let n : false ≡ true = empty_too.1 (subst (Matches r) (take_nil m) h) in cc

module _ (r : Re) (c : ℕ) (s : Str) where
  derive-longer :
      (n m : ℕ)
      → ((k : ℕ) → k ≤ length s → Matches (derive c r) (take k s) → k ≤ n)
      → m ≤ suc (length s)
      → Matches r (take m (c ∷ s))
      → m ≤ suc n
  derive-longer n zero h le x = omega arith
  derive-longer n (suc m) h le x =
      omega (arith, h m (omega (arith, le)) ((derive-Matches c r (take m s)).1 x))

  derive-none :
      (m : ℕ) → ((k : ℕ) → ¬ Matches (derive c r) (take k s)) → Matches r (take (suc m) (c ∷ s)) → ⊥
  derive-none m h x = h m ((derive-Matches c r (take m s)).1 x)

  cons-IsLongest :
      (o : Option ℕ)
      → IsLongest (derive c r) s o
      → (null : Bool) → (null ≡ true) ↔ Matches r []
      → IsLongest r (c ∷ s) (elim o as (λ _. Option ℕ) [
        | some n ↦ some (suc n)
        | none ↦ if null then some 0 else none
      ])
  cons-IsLongest (some n) (le, x, most) null empty_too = (
    omega (arith, le),
    (derive-Matches c r (take n s)).0 x,
    λ m le' h. derive-longer n m most le' h,
  )
  cons-IsLongest none h true empty_too = (omega arith, empty_too.0 refl, go)
    where
      go : (m : ℕ) → m ≤ suc (length s) → Matches r (take m (c ∷ s)) → m ≤ 0
      go zero le x = omega arith
      go (suc m) le x = absurd (derive-none m h x)
  cons-IsLongest none h false empty_too = go
    where
      go : (m : ℕ) → ¬ Matches r (take m (c ∷ s))
      go zero x = let n : false ≡ true = empty_too.1 x in cc
      go (suc m) x = derive-none m h x

longest_match-IsLongest : (r : Re) (s : Str) → IsLongest r s (longest_match r s)
unfolding longest_match
longest_match-IsLongest r [] = nil-IsLongest r (nullable r) (nullable-Matches r)
longest_match-IsLongest r (c ∷ s) =
    cons-IsLongest r c s (longest_match (derive c r) s) (longest_match-IsLongest (derive c r) s)
      (nullable r) (nullable-Matches r)

-- The parser of a regular expression reads the longest piece at the start of the text that is in the
-- language of the expression; it fails, and reads nothing, where no piece is.
pub parse_regexp_lem :
    (r : Re) (s : Str)
    → (((m : ℕ) → ¬ Matches r (take m s)) × (parse_regexp r s ≡ some (s, none)))
      ⊎ ((n : ℕ) × (n ≤ length s)
          × Matches r (take n s)
          × ((m : ℕ) → m ≤ length s → Matches r (take m s) → m ≤ n)
          × (parse_regexp r s ≡ some (drop n s, some (leaf (take n s)))))
unfolding parse_regexp
parse_regexp_lem r s = go (longest_match r s) (longest_match-IsLongest r s)
  where
    go :
        (o : Option ℕ)
        → IsLongest r s o
        → (((m : ℕ) → ¬ Matches r (take m s))
            × (elim o as (λ _. Outcome) [ none ↦ some (s, none) | some n ↦ cut s n ]
                ≡ some (s, none)))
          ⊎ ((n : ℕ) × (n ≤ length s)
              × Matches r (take n s)
              × ((m : ℕ) → m ≤ length s → Matches r (take m s) → m ≤ n)
              × (elim o as (λ _. Outcome) [ none ↦ some (s, none) | some n ↦ cut s n ]
                  ≡ some (drop n s, some (leaf (take n s)))))
    go none h = inl (h, refl)
    go (some n) (le, x, most) = inr (n, le, x, most, refl)
