-- ===== src/Smtp/Octets.antt =====
-- The numbers of an address literal.
use failmail.Base.{
  ℕ, suc, ◌+◌, ◌*◌, ◌-◌, ◌≤◌, ◌≡◌, ◌⊎◌, inl, inr, refl, ap, sym, ◌∙◌, Bool, true, Option, none,
  some, [], ◌∷◌, ◌++◌, ◌==◌, arith, if◌then◌else◌, Str, take, drop, length,
}
use mathlib.Core.Path.{subst}
use failmail.Regex.{class, seq, within}
use failmail.Regex.Matches.{Matches}
use failmail.Parse.{Heap, leaf, parse, parse_step}
use failmail.Parse.Regexps.{parse_regexp_lem}
use failmail.Smtp.{is_digit, octet, snum}

abbrev digits_from : ℕ → Str → Option ℕ
digits_from n [] = some n
digits_from n (c ∷ s) = if is_digit c then digits_from (10 * n + (c - 48)) s else none

-- The number that a text spells, if all its bytes are digits.
abbrev pub number_of : Str → Option ℕ
number_of s = digits_from 0 s

-- A number of one to three digits, up to 255.
abbrev pub IsOctet : Str → Type 0
IsOctet s = (n : ℕ) × (number_of s ≡ some n) × (n ≤ 255) × (1 ≤ length s) × (length s ≤ 3)

one_digit : (c : ℕ) → is_digit c ≡ true → IsOctet (c ∷ [])
one_digit c h = (c - 48, rw h (ground arith), ground arith, omega arith, omega arith)

two_digits : (c d : ℕ) → is_digit c ≡ true → is_digit d ≡ true → IsOctet (c ∷ d ∷ [])
two_digits c d h k =
    (10 * (10 * 0 + (c - 48)) + (d - 48), rw (h, k) refl, ground arith, omega arith, omega arith)

three_digits :
    (c d e : ℕ)
    → is_digit c ≡ true
    → is_digit d ≡ true
    → is_digit e ≡ true
    → 10 * (10 * (10 * 0 + (c - 48)) + (d - 48)) + (e - 48) ≤ 255
    → IsOctet (c ∷ d ∷ e ∷ [])
three_digits c d e h k l le = (
  10 * (10 * (10 * 0 + (c - 48)) + (d - 48)) + (e - 48),
  rw (h, k, l) refl,
  le,
  omega arith,
  omega arith,
)

-- Three bytes, one for each class.
record Three (p q r : ℕ → Bool) (s : Str) : Type 0 where
  first : ℕ
  second : ℕ
  third : ℕ
  spelled : s ≡ first ∷ second ∷ third ∷ []
  first_in : p first ≡ true
  second_in : q second ≡ true
  third_in : r third ≡ true

seq-Three :
    (p q r : ℕ → Bool) (s : Str)
    → Matches (seq (class p) (seq (class q) (class r))) s
    → Three p q r s
seq-Three p q r s (u, v, e, (c, h, eu), (x, y, e', (d, k, ex), (f, l, ey))) = record {
  first = c;
  second = d;
  third = f;
  spelled =
      e ∙ ap (λ z. z ++ v) eu ∙ ap (λ z. c ∷ z) (e' ∙ ap (λ z. z ++ y) ex ∙ ap (λ z. d ∷ z) ey);
  first_in = h;
  second_in = k;
  third_in = l;
}

Three-IsOctet :
    (p q r : ℕ → Bool) (s : Str) (m : Three p q r s)
    → ((c d e : ℕ)
        → p c ≡ true
        → q d ≡ true
        → r e ≡ true
        → (is_digit c ≡ true)
          × (is_digit d ≡ true)
          × (is_digit e ≡ true)
          × (10 * (10 * (10 * 0 + (c - 48)) + (d - 48)) + (e - 48) ≤ 255))
    → IsOctet s
Three-IsOctet p q r s m k =
    let (a, b, c, le) = k m.first m.second m.third m.first_in m.second_in m.third_in in
    subst IsOctet (sym m.spelled) (three_digits m.first m.second m.third a b c le)

octet-IsOctet : (s : Str) → Matches octet s → IsOctet s
octet-IsOctet s (inl (c, h, e)) = subst IsOctet (sym e) (one_digit c h)
octet-IsOctet s (inr (inl (u, v, e, (c, h, eu), (d, k, ev)))) =
    subst IsOctet (sym (e ∙ ap (λ x. x ++ v) eu ∙ ap (λ x. c ∷ x) ev)) (two_digits c d h k)
octet-IsOctet s (inr (inr (inl m))) =
    Three-IsOctet (λ c. c == b'1') is_digit is_digit s (seq-Three _ _ _ s m)
      (λ c d e h k l. (ground arith, k, l, ground arith))
octet-IsOctet s (inr (inr (inr (inl m)))) =
    Three-IsOctet (λ c. c == b'2') (within b'0' b'4') is_digit s (seq-Three _ _ _ s m)
      (λ c d e h k l. (ground arith, ground arith, l, ground arith))
octet-IsOctet s (inr (inr (inr (inr m)))) =
    Three-IsOctet (λ c. c == b'2') (λ c. c == b'5') (within b'0' b'5') s (seq-Three _ _ _ s m)
      (λ c d e h k l. (ground arith, ground arith, ground arith, ground arith))

-- The parser of a number in an address literal fails and reads nothing, or it reads one to three
-- digits, whose number is at most 255; it reads as many as it can.
pub snum-IsOctet :
    (fuel : ℕ) (heap : Heap) (s : Str)
    → (parse (suc fuel) heap snum s ≡ some (s, none))
      ⊎ ((n : ℕ) × (parse (suc fuel) heap snum s ≡ some (drop n s, some (leaf (take n s))))
          × IsOctet (take n s)
          × ((m : ℕ) → m ≤ length s → Matches octet (take m s) → m ≤ n))
unfolding snum parse parse_step
snum-IsOctet fuel heap s = elim (parse_regexp_lem octet s) [
  | inl (none_there, fails) ↦ inl fails
  | inr (n, le, found, most, reads) ↦ inr (n, reads, octet-IsOctet (take n s) found, most)
]
