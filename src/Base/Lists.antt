-- ===== src/Base/Lists.antt =====
-- Lists measured by native numbers, under the library's names, and predicates on their members.
use Prim.Native.Nat.{ℕ, zero, suc, ◌+◌}
use mathlib.Core.Path.{◌≡◌, refl, ap}
use mathlib.Core.List.{List, [], ◌∷◌, ◌++◌}
use mathlib.Core.Option.{Option, none, some}
use native.Mathlib.Omega.{arith}

module _ {ℓ} {A : Type ℓ} where
  abbrev pub length : List A → ℕ
  length [] = 0
  length (x ∷ xs) = suc (length xs)

  abbrev pub get_elem? : List A → ℕ → Option A
  get_elem? [] i = none
  get_elem? (x ∷ xs) zero = some x
  get_elem? (x ∷ xs) (suc i) = get_elem? xs i

  abbrev pub take : ℕ → List A → List A
  take zero xs = []
  take (suc n) [] = []
  take (suc n) (x ∷ xs) = x ∷ take n xs

  abbrev pub drop : ℕ → List A → List A
  drop zero xs = xs
  drop (suc n) [] = []
  drop (suc n) (x ∷ xs) = drop n xs

  pub length-append : (xs ys : List A) → length (xs ++ ys) ≡ length xs + length ys
  length-append [] ys = omega arith
  length-append (x ∷ xs) ys = omega (arith, length-append xs ys)

  pub take-append-drop : (n : ℕ) (xs : List A) → take n xs ++ drop n xs ≡ xs
  take-append-drop zero xs = refl
  take-append-drop (suc n) [] = refl
  take-append-drop (suc n) (x ∷ xs) = ap (◌∷◌ x) (take-append-drop n xs)

pub take-length {ℓ} : {A : Type ℓ} (xs ys : List A) → take (length xs) (xs ++ ys) ≡ xs
take-length [] ys = refl
take-length (x ∷ xs) ys = ap (◌∷◌ x) (take-length xs ys)

pub drop-length {ℓ} : {A : Type ℓ} (xs ys : List A) → drop (length xs) (xs ++ ys) ≡ ys
drop-length [] ys = refl
drop-length (x ∷ xs) ys = drop-length xs ys

abbrev pub All {ℓ κ} : {A : Type ℓ} → (A → Type κ) → List A → Type κ
All P [] = Unit
All P (x ∷ xs) = P x × All P xs

pub All-map {ℓ κ μ} :
    {A : Type ℓ} {P : A → Type κ} {Q : A → Type μ} (xs : List A)
    → ((x : A) → P x → Q x)
    → All P xs
    → All Q xs
All-map [] f h = tt
All-map (x ∷ xs) f h = (f x h.0, All-map xs f h.1)

pub All-append {ℓ κ} :
    {A : Type ℓ} (P : A → Type κ) (xs ys : List A) → All P xs → All P ys → All P (xs ++ ys)
All-append P [] ys hx hy = hy
All-append P (x ∷ xs) ys hx hy = (hx.0, All-append P xs ys hx.1 hy)

-- `a` is an element of the list, at some index.
pub record In {ℓ} {A : Type ℓ} (a : A) (l : List A) : Type ℓ where
  pub index : ℕ
  pub found : get_elem? l index ≡ some a

pub there {ℓ} : {A : Type ℓ} {a b : A} {l : List A} → In a l → In a (b ∷ l)
there h = record { index = suc h.index; found = h.found }

get_elem?-append {ℓ} :
    {A : Type ℓ} (l k : List A) (i : ℕ) {a : A}
    → get_elem? l i ≡ some a
    → get_elem? (l ++ k) i ≡ some a
get_elem?-append [] k i h = cc
get_elem?-append (b ∷ l) k zero h = h
get_elem?-append (b ∷ l) k (suc i) h = get_elem?-append l k i h

pub In-append_left {ℓ} : {A : Type ℓ} {a : A} (l k : List A) → In a l → In a (l ++ k)
In-append_left l k h = record { index = h.index; found = get_elem?-append l k h.index h.found }

pub In-append_right {ℓ} : {A : Type ℓ} {a : A} (l k : List A) → In a k → In a (l ++ k)
In-append_right [] k h = h
In-append_right (b ∷ l) k h = there (In-append_right l k h)
