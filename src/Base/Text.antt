-- ===== src/Base/Text.antt =====
-- Go strings and byte slices as lists of bytes, with the functions of package `strings` that the
-- program calls. Texts are read as ASCII: `to_lower` maps the bytes A-Z and leaves the others.
use Prim.Native.Nat.{ℕ, zero, suc, pred, ◌+◌, ◌/◌, ◌%◌}
use Prim.Native.Char.{code}
use Prim.Native.String.{String}
use mathlib.Core.Path.{◌≡◌, refl}
use mathlib.Core.Logic.{◌↔◌}
use mathlib.Core.Bool.{Bool, true, false, ◌&&◌, ◌||◌}
use mathlib.Core.List.{List, [], ◌∷◌, ◌++◌, map}
use native.Mathlib.Omega.{arith}
use failmail.Base.Lists.{length}
use failmail.Base.Tests.{leb, ltb, ◌==◌, if◌then◌else◌, Eq}

abbrev pub Str : Type 0
Str = List ℕ

-- The bytes of a literal of the source.
unfoldable pub bytes : String → Str
bytes String.[] = []
bytes (String.◌∷◌ c s) = code c ∷ bytes s

unfoldable pub eq_str : Str → Str → Bool
eq_str [] [] = true
eq_str (a ∷ s) (b ∷ t) = a == b && eq_str s t
eq_str _ _ = false

pub eq_str_iff : (s t : Str) → (eq_str s t ≡ true) ↔ (s ≡ t)
unfolding eq_str
eq_str_iff (a ∷ s) (b ∷ t) = ground (arith, eq_str_iff s t)
eq_str_iff _ _ = ground arith

pub eq_str_refl : (s : Str) → eq_str s s ≡ true
eq_str_refl s = (eq_str_iff s s).1 refl

instance abbrev pub str_eq : Eq Str
str_eq = record { beq = eq_str; beq_iff = eq_str_iff }

abbrev pub is_empty {ℓ} : {A : Type ℓ} → List A → Bool
is_empty [] = true
is_empty (x ∷ xs) = false

abbrev pub lower_byte : ℕ → ℕ
lower_byte c = if leb b'A' c && leb c b'Z' then c + 32 else c

-- `strings.ToLower`
unfoldable pub to_lower : Str → Str
to_lower = map lower_byte

-- `strings.HasPrefix(s, prefix)`
unfoldable pub has_prefix : Str → Str → Bool
has_prefix s [] = true
has_prefix [] (b ∷ p) = false
has_prefix (a ∷ s) (b ∷ p) = a == b && has_prefix s p

-- `strings.Contains(s, substr)`
unfoldable pub contains : Str → Str → Bool
unfolding has_prefix
contains [] t = has_prefix [] t
contains (a ∷ s) t = has_prefix (a ∷ s) t || contains s t

-- The loop of `strings.Split(s, sep)` for a separator that is not empty: `skip` bytes belong to a
-- separator that was found, `piece` is what was read since the last one.
unfoldable pub split_from : Str → ℕ → Str → Str → List Str
unfolding has_prefix
split_from sep skip piece [] = piece ∷ []
split_from sep (suc skip) piece (c ∷ s) = split_from sep skip piece s
split_from sep zero piece (c ∷ s) = elim (has_prefix (c ∷ s) sep) [
  | true ↦ piece ∷ split_from sep (pred (length sep)) [] s
  | false ↦ split_from sep zero (piece ++ c ∷ []) s
]

-- `strings.Split(s, sep)`
unfoldable pub split : Str → Str → List Str
unfolding split_from
split s sep = split_from sep 0 [] s

abbrev pub is_blank : ℕ → Bool
is_blank c = (leb 9 c && leb c 13) || c == 32

unfoldable pub trim_left : Str → Str
trim_left [] = []
trim_left (c ∷ s) = let rest = trim_left s in if is_blank c then rest else c ∷ s

unfoldable pub trim_right : Str → Str
trim_right [] = []
trim_right (c ∷ s) = elim (trim_right s) [
  | [] ↦ if is_blank c then [] else c ∷ []
  | d ∷ t ↦ c ∷ d ∷ t
]

-- `strings.TrimSpace`
unfoldable pub trim_space : Str → Str
unfolding trim_left trim_right
trim_space s = trim_right (trim_left s)

unfoldable pub digits : ℕ → ℕ → Str → Str
digits zero n acc = acc
digits (suc f) n acc =
    let rest = digits f (n / 10) ((48 + n % 10) ∷ acc) in if ltb n 10 then (48 + n) ∷ acc else rest

-- `%d` of a number that is not negative; every round divides it by ten.
unfoldable pub decimal : ℕ → Str
unfolding digits
decimal n = digits (suc n) n []
