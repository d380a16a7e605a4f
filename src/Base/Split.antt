-- ===== src/Base/Split.antt =====
-- Texts that are split at a single byte.
use Prim.Native.Nat.{ℕ}
use mathlib.Core.Path.{◌≡◌, refl, sym, ap, ◌∙◌}
use mathlib.Core.Bool.{true, false}
use mathlib.Core.Logic.{inl, inr}
use mathlib.Core.List.{List, [], ◌∷◌, ◌++◌, append-nil, append_assoc}
use native.Mathlib.Omega.{arith}
use failmail.Base.Tests.{◌==◌, if◌then◌else◌, Bool-cases}
use failmail.Base.Text.{Str, split_from, split, has_prefix}
use failmail.Base.Lists.{All}
use failmail.Base.Decimal.{lacks}

has_prefix_byte : (c x : ℕ) (s : Str) → has_prefix (x ∷ s) (c ∷ []) ≡ (x == c)
unfolding has_prefix
has_prefix_byte c x [] = ground arith
has_prefix_byte c x (y ∷ s) = ground arith

lacks-snoc :
    (c x : ℕ) (s : Str) → lacks c s ≡ true → (x == c) ≡ false → lacks c (s ++ x ∷ []) ≡ true
lacks-snoc c x [] h k = ground arith
lacks-snoc c x (y ∷ s) h k = let ih = lacks-snoc c x s (ground arith) k in ground arith

split_from-step :
    (c x : ℕ) (piece s : Str)
    → split_from (c ∷ []) 0 piece (x ∷ s) ≡ (
        if x == c
        then piece ∷ split_from (c ∷ []) 0 [] s
        else split_from (c ∷ []) 0 (piece ++ x ∷ []) s)
unfolding split_from
split_from-step c x piece s = let e = has_prefix_byte c x s in ground (arith, e)

-- The first piece ends at the first such byte.
split_from-at :
    (c : ℕ) (piece a b : Str)
    → lacks c a ≡ true
    → split_from (c ∷ []) 0 piece (a ++ c ∷ b) ≡ (piece ++ a) ∷ split_from (c ∷ []) 0 [] b
unfolding split_from
split_from-at c piece [] b h =
    let same : (c == c) ≡ true = ground arith in
    rw (split_from-step c c piece b, same)
      (ap (λ p. p ∷ split_from (c ∷ []) 0 [] b) (sym (append-nil piece)))
split_from-at c piece (x ∷ a) b h =
    let other : (x == c) ≡ false = ground arith in
    rw (split_from-step c x piece (a ++ c ∷ b), other)
      (split_from-at c (piece ++ x ∷ []) a b (ground arith)
        ∙ ap (λ p. p ∷ split_from (c ∷ []) 0 [] b) (append_assoc piece (x ∷ []) a))

split_from-end :
    (c : ℕ) (piece a : Str) → lacks c a ≡ true → split_from (c ∷ []) 0 piece a ≡ (piece ++ a) ∷ []
unfolding split_from
split_from-end c piece [] h = ap (λ p. p ∷ []) (sym (append-nil piece))
split_from-end c piece (x ∷ a) h =
    let other : (x == c) ≡ false = ground arith in
    rw (split_from-step c x piece a, other)
      (split_from-end c (piece ++ x ∷ []) a (ground arith)
        ∙ ap (λ p. p ∷ []) (append_assoc piece (x ∷ []) a))

pub split-at :
    (c : ℕ) (a b : Str) → lacks c a ≡ true → split (a ++ c ∷ b) (c ∷ []) ≡ a ∷ split b (c ∷ [])
unfolding split
split-at c a b h = split_from-at c [] a b h

pub split-end : (c : ℕ) (a : Str) → lacks c a ≡ true → split a (c ∷ []) ≡ a ∷ []
unfolding split
split-end c a h = split_from-end c [] a h

-- Each piece behind the byte.
abbrev pub separated : ℕ → List Str → Str
separated c [] = []
separated c (p ∷ ps) = c ∷ (p ++ separated c ps)

separated-split_from :
    (c : ℕ) (piece s : Str) → separated c (split_from (c ∷ []) 0 piece s) ≡ c ∷ (piece ++ s)
unfolding split_from
separated-split_from c piece [] = refl
separated-split_from c piece (x ∷ s) = elim (Bool-cases (x == c)) [
  | inl same ↦
      rw (split_from-step c x piece s, same)
        (ap (λ t. c ∷ (piece ++ t)) (separated-split_from c [] s)
          ∙ ap (λ (y : ℕ). c ∷ (piece ++ y ∷ s)) (ground arith))
  | inr other ↦
      rw (split_from-step c x piece s, other)
        (separated-split_from c (piece ++ x ∷ []) s ∙ ap (c ∷◌) (append_assoc piece (x ∷ []) s))
]

lacks-split_from :
    (c : ℕ) (piece s : Str)
    → lacks c piece ≡ true
    → All (λ p. lacks c p ≡ true) (split_from (c ∷ []) 0 piece s)
unfolding split_from
lacks-split_from c piece [] h = (h, tt)
lacks-split_from c piece (x ∷ s) h = elim (Bool-cases (x == c)) [
  | inl same ↦ rw (split_from-step c x piece s, same) (h, lacks-split_from c [] s refl)
  | inr other ↦
      rw (split_from-step c x piece s, other)
        (lacks-split_from c (piece ++ x ∷ []) s (lacks-snoc c x piece h other))
]

-- The pieces, with the byte between them, spell the text, and none holds the byte.
pub separated-split : (c : ℕ) (s : Str) → separated c (split s (c ∷ [])) ≡ c ∷ s
unfolding split
separated-split c s = separated-split_from c [] s

pub lacks-split : (c : ℕ) (s : Str) → All (λ p. lacks c p ≡ true) (split s (c ∷ []))
unfolding split
lacks-split c s = lacks-split_from c [] s refl
