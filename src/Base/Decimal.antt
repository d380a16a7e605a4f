-- ===== src/Base/Decimal.antt =====
-- Numbers as texts: `decimal` has only digits, and no two numbers have the same.
use Prim.Native.Nat.{ℕ, zero, suc, ◌+◌, ◌-◌, ◌*◌, ◌/◌, ◌%◌, ◌<◌, ◌≤◌}
use mathlib.Core.Path.{◌≡◌, refl, sym, ap, ◌∙◌}
use mathlib.Core.Bool.{Bool, true, false, not, ◌&&◌}
use mathlib.Core.Logic.{inl, inr}
use mathlib.Core.List.{[], ◌∷◌, ◌++◌}
use native.Mathlib.Omega.{arith}
use failmail.Base.Tests.{ltb, leb, ◌==◌, Bool-cases}
use failmail.Base.Text.{Str, digits, decimal}

-- The byte does not occur in the text.
abbrev pub lacks : ℕ → Str → Bool
lacks c [] = true
lacks c (a ∷ s) = not (a == c) && lacks c s

-- Two texts that are cut at the first such byte.
pub cut_unique :
    (c : ℕ) (a a' b b' : Str)
    → lacks c a ≡ true
    → lacks c a' ≡ true
    → a ++ c ∷ b ≡ a' ++ c ∷ b'
    → (a ≡ a') × (b ≡ b')
cut_unique c [] [] b b' h h' e = ground (arith, e)
cut_unique c [] (x ∷ a') b b' h h' e = ground (arith, e)
cut_unique c (x ∷ a) [] b b' h h' e = ground (arith, e)
cut_unique c (x ∷ a) (y ∷ a') b b' h h' e =
    let ih = cut_unique c a a' b b' (ground arith) (ground arith) (ground (arith, e)) in
    ground (arith, e, ih)

abbrev pub is_digit_byte : ℕ → Bool
is_digit_byte c = leb 48 c && leb c 57

lacks-digits :
    (c f n : ℕ) (acc : Str)
    → is_digit_byte c ≡ false
    → lacks c acc ≡ true
    → lacks c (digits f n acc) ≡ true
unfolding digits
lacks-digits c zero n acc d h = h
lacks-digits c (suc f) n acc d h = elim (Bool-cases (ltb n 10)) [
  | inl small ↦ rw small (ground arith)
  | inr large ↦ rw large (lacks-digits c f (n / 10) _ d (ground arith))
]

pub lacks-decimal : (c n : ℕ) → is_digit_byte c ≡ false → lacks c (decimal n) ≡ true
unfolding decimal
lacks-decimal c n d = lacks-digits c (suc n) n [] d refl

-- The number that digits spell behind one that was read.
abbrev value : ℕ → Str → ℕ
value n [] = n
value n (c ∷ s) = value (n * 10 + (c - 48)) s

value-digits : (f n : ℕ) (acc : Str) → n < f → value 0 (digits f n acc) ≡ value n acc
unfolding digits
value-digits zero n acc h = elim h [ ]
value-digits (suc f) n acc h = elim (Bool-cases (ltb n 10)) [
  | inl small ↦ rw small (ap (λ (k : ℕ). value k acc) (omega arith))
  | inr large ↦
      rw large
        (value-digits f (n / 10) _ (ground arith) ∙ ap (λ (k : ℕ). value k acc) (omega arith))
]

pub decimal_injective : (n k : ℕ) → decimal n ≡ decimal k → n ≡ k
unfolding decimal
decimal_injective n k e =
    sym (value-digits (suc n) n [] (omega arith))
    ∙ ap (value 0) e
    ∙ value-digits (suc k) k [] (omega arith)

pub lacks-append : (c : ℕ) (s t : Str) → lacks c (s ++ t) ≡ (lacks c s && lacks c t)
lacks-append c [] t = refl
lacks-append c (x ∷ s) t = ground (arith, lacks-append c s t)

-- The digits of a number below 1000 that has three.
abbrev pub three_digits : ℕ → Str
three_digits n = (48 + n / 100) ∷ (48 + n / 10 % 10) ∷ (48 + n % 10) ∷ []

digits_three : (f n : ℕ) → 100 ≤ n → n < 1000 → digits (suc (suc (suc f))) n [] ≡ three_digits n
unfolding digits
digits_three f n h k =
    let a : ltb n 10 ≡ false = ground arith in
    let b : ltb (n / 10) 10 ≡ false = ground arith in
    let c : ltb (n / 10 / 10) 10 ≡ true = ground arith in
    rw (a, b, c) (ap (λ (x : ℕ). (48 + x) ∷ (48 + n / 10 % 10) ∷ (48 + n % 10) ∷ []) (omega arith))

pub decimal_three : (n : ℕ) → 100 ≤ n → n < 1000 → decimal n ≡ three_digits n
unfolding decimal
decimal_three n h k =
    let e : suc n ≡ suc (suc (suc (n - 2))) = omega arith in
    ap (λ (f : ℕ). digits f n []) e ∙ digits_three (n - 2) n h k
