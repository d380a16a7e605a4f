-- ===== src/Rewriter/Ordered.antt =====
-- addresses.go: `RewriteAll`, the order of a map and the order of the addresses.
use failmail.Base.{
  ℕ, zero, suc, ◌<◌, ◌≡◌, refl, sym, ap, ◌∙◌, Bool, true, false, ◌&&◌, ◌||◌, List, [], ◌∷◌, map,
  if◌then◌else◌, Str, insert, str_eq, eq_str, eq_str_iff, ltb, ◌==◌, All, arith, inl, inr,
  Bool-cases,
}
use mathlib.Core.Path.{subst}
use failmail.Config.{AddressRewriter}
use failmail.Rewriter.{Regexp, Rewritten, Sorting, rewrite, rewrite_each, rewrite_all}

-- How often a text is in a list.
unfoldable pub count : Str → List Str → ℕ
count x [] = 0
count x (y ∷ ys) = let rest = count x ys in if eq_str y x then suc rest else rest

-- The order of the bytes.
unfoldable pub str_le : Str → Str → Bool
str_le [] t = true
str_le (a ∷ s) [] = false
str_le (a ∷ s) (b ∷ t) = ltb a b || (a == b && str_le s t)

str_le_antisymm : (s t : Str) → str_le s t ≡ true → str_le t s ≡ true → s ≡ t
unfolding str_le
str_le_antisymm [] [] h k = refl
str_le_antisymm [] (b ∷ t) h k = cc
str_le_antisymm (a ∷ s) [] h k = cc
str_le_antisymm (a ∷ s) (b ∷ t) h k = ground (arith, str_le_antisymm s t)

str_le_refl : (s : Str) → str_le s s ≡ true
unfolding str_le
str_le_refl [] = refl
str_le_refl (a ∷ s) = ground (arith, str_le_refl s)

abbrev pub IsSorted : List Str → Type 0
IsSorted [] = Unit
IsSorted (x ∷ xs) = All (λ y. str_le x y ≡ true) xs × IsSorted xs

abbrev pub keys : Rewritten → List Str
keys = map (λ e. e.0)

-- A map is visited once at each key, and `sort.Strings` sorts in place, in the order of the bytes.
pub record IsLawful (o : Sorting) : Type 0 where
  pub visits : (m : Rewritten) (x : Str) → count x (keys (o.visit m)) ≡ count x (keys m)
  pub keeps : (xs : List Str) (x : Str) → count x (o.strings xs) ≡ count x xs
  pub sorts : (xs : List Str) → IsSorted (o.strings xs)

count_self : (x : Str) (xs : List Str) → 0 < count x (x ∷ xs)
unfolding count
count_self x xs = ground (arith, (eq_str_iff x x).1 refl)

All-count : (P : Str → Type 0) (x : Str) (xs : List Str) → All P xs → 0 < count x xs → P x
unfolding count
All-count P x [] a h = absurd (omega arith)
All-count P x (y ∷ ys) a h = elim (Bool-cases (eq_str y x)) [
  | inl e ↦ subst P ((eq_str_iff y x).0 e) a.0
  | inr e ↦ All-count P x ys a.1 (ground arith)
]

sorted_unique :
    (xs ys : List Str) → IsSorted xs → IsSorted ys → ((z : Str) → count z xs ≡ count z ys) → xs ≡ ys
unfolding count
sorted_unique [] [] h k e = refl
sorted_unique [] (y ∷ ys) h k e = absurd (omega (arith, count_self y ys, e y))
sorted_unique (x ∷ xs) [] h k e = absurd (omega (arith, count_self x xs, e x))
sorted_unique (x ∷ xs) (y ∷ ys) h k e =
    let below = λ (z : Str) (g : 0 < count z (x ∷ xs)).
      All-count (λ t. str_le x t ≡ true) z (x ∷ xs) (str_le_refl x, h.0) g in
    let above = λ (z : Str) (g : 0 < count z (y ∷ ys)).
      All-count (λ t. str_le y t ≡ true) z (y ∷ ys) (str_le_refl y, k.0) g in
    let same : x ≡ y =
      str_le_antisymm x y (below y (omega (arith, count_self y ys, e y)))
        (above x (omega (arith, count_self x xs, e x))) in
    rw same (ap (◌∷◌ y) (sorted_unique xs ys h.1 k.1 λ z. ground (arith, e z)))

count-insert :
    (x k : Str) (m : Rewritten)
    → count x (keys (insert k true m))
      ≡ (if eq_str k x && (count x (keys m) == 0) then 1 else count x (keys m))
unfolding count insert
count-insert x k [] = ground arith
count-insert x k ((j, b) ∷ m) =
    ground (arith, count-insert x k m, eq_str_iff j k, eq_str_iff k x, eq_str_iff j x)

-- Whether a text is in a list, as a number.
abbrev pub once : ℕ → ℕ
once zero = 0
once (suc n) = 1

module _ (R : Regexp) (r : AddressRewriter) where
  count-rewrite_each :
      (x : Str) (m : Rewritten) (addresses : List Str)
      → count x (keys (rewrite_each R r m addresses)) ≡ (
          if count x (keys m) == 0
          then once (count x (map (rewrite R r) addresses))
          else count x (keys m))
  unfolding count rewrite_each
  count-rewrite_each x m [] = ground arith
  count-rewrite_each x m (a ∷ as') = ground (
    arith,
    count-rewrite_each x (insert (rewrite R r a) true m) as',
    count-insert x (rewrite R r a) m,
  )

  -- `RewriteAll` has each rewritten address once, in the order of the bytes.
  pub rewrite_all-IsSorted :
      (o : Sorting) (law : IsLawful o) (addresses : List Str)
      → IsSorted (rewrite_all R o r addresses)
        × ((x : Str)
            → count x (rewrite_all R o r addresses) ≡ once (count x (map (rewrite R r) addresses)))
  unfolding rewrite_all count
  rewrite_all-IsSorted o law addresses =
      let m = rewrite_each R r [] addresses in
      (
        law.sorts (keys (o.visit m)),
        λ x. law.keeps (keys (o.visit m)) x ∙ law.visits m x ∙ count-rewrite_each x [] addresses,
      )

  -- `RewriteAll` gives the same list for addresses that are rewritten to the same texts, in whichever
  -- order they come, however often, and in whichever order the map is visited.
  pub rewrite_all_unique :
      (o o' : Sorting) (law : IsLawful o) (law' : IsLawful o') (addresses addresses' : List Str)
      → ((x : Str)
          → once (count x (map (rewrite R r) addresses))
            ≡ once (count x (map (rewrite R r) addresses')))
      → rewrite_all R o r addresses ≡ rewrite_all R o' r addresses'
  rewrite_all_unique o o' law law' addresses addresses' same =
      let (sorted, counted) = rewrite_all-IsSorted o law addresses in
      let (sorted', counted') = rewrite_all-IsSorted o' law' addresses' in
      sorted_unique _ _ sorted sorted' λ x. counted x ∙ same x ∙ sym (counted' x)
