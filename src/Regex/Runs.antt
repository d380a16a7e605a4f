-- ===== src/Regex/Runs.antt =====
-- The longest match of an expression that repeats a class of bytes.
use failmail.Base.{
  ℕ, suc, ◌≡◌, refl, Bool, true, false, not, ◌&&◌, none, some, [], ◌∷◌, ◌++◌, arith, Str, length,
}
use failmail.Regex.{never, class, star, plus, longest_match, derive, join}

-- All bytes of the text are in the class.
abbrev pub all_in : (ℕ → Bool) → Str → Bool
all_in p [] = true
all_in p (c ∷ s) = p c && all_in p s

-- The text does not go on with a byte of the class.
abbrev pub stops : (ℕ → Bool) → Str → Bool
stops p [] = true
stops p (c ∷ s) = not (p c)

pub longest_match-never : (s : Str) → longest_match never s ≡ none
unfolding longest_match
longest_match-never [] = refl
longest_match-never (c ∷ s) = rw (longest_match-never s) refl

pub longest_match-star :
    (p : ℕ → Bool) (u rest : Str)
    → all_in p u ≡ true
    → stops p rest ≡ true
    → longest_match (star (class p)) (u ++ rest) ≡ some (length u)
unfolding longest_match derive join
longest_match-star p [] [] h k = refl
longest_match-star p [] (c ∷ rest) h k =
    let no : p c ≡ false = ground arith in rw (no, longest_match-never rest) refl
longest_match-star p (c ∷ u) rest h k =
    let yes : p c ≡ true = ground arith in
    rw (yes, longest_match-star p u rest (ground arith) k) refl

pub longest_match-plus :
    (p : ℕ → Bool) (c : ℕ) (u rest : Str)
    → p c ≡ true
    → all_in p u ≡ true
    → stops p rest ≡ true
    → longest_match (plus (class p)) (c ∷ u ++ rest) ≡ some (suc (length u))
unfolding longest_match derive join
longest_match-plus p c u rest here h k = rw (here, longest_match-star p u rest h k) refl
