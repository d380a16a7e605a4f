-- ===== src/Tests/Rewriters.antt =====
-- A rewriter with an expression that matches one address, and an insertion sort.
use failmail.Base.{
  ◌≡◌, refl, true, false, some, List, [], ◌∷◌, if◌then◌else◌, Str, bytes, eq_str, All, arith,
  Bool-cases, inl, inr,
}
use failmail.Config.{AddressRewriter}
use failmail.Rewriter.{Regexp, Sorting, rewrite, rewrite_all}
use failmail.Rewriter.Ordered.{count, str_le, IsSorted, IsLawful, rewrite_all_unique}

str_le_total : (s t : Str) → str_le s t ≡ false → str_le t s ≡ true
unfolding str_le
str_le_total [] t h = cc
str_le_total (a ∷ s) [] h = refl
str_le_total (a ∷ s) (b ∷ t) h = ground (arith, str_le_total s t)

str_le_trans : (s t u : Str) → str_le s t ≡ true → str_le t u ≡ true → str_le s u ≡ true
unfolding str_le
str_le_trans [] t u h k = refl
str_le_trans (a ∷ s) [] u h k = cc
str_le_trans (a ∷ s) (b ∷ t) [] h k = cc
str_le_trans (a ∷ s) (b ∷ t) (c ∷ u) h k = ground (arith, str_le_trans s t u)

unfoldable put_in_order : Str → List Str → List Str
unfolding str_le
put_in_order x [] = x ∷ []
put_in_order x (y ∷ ys) =
    let rest = put_in_order x ys in if str_le x y then x ∷ y ∷ ys else y ∷ rest

unfoldable insertion_sort : List Str → List Str
unfolding put_in_order
insertion_sort [] = []
insertion_sort (x ∷ xs) = put_in_order x (insertion_sort xs)

count-put_in_order : (z x : Str) (ys : List Str) → count z (put_in_order x ys) ≡ count z (x ∷ ys)
unfolding count put_in_order
count-put_in_order z x [] = refl
count-put_in_order z x (y ∷ ys) = ground (arith, count-put_in_order z x ys)

count-insertion_sort : (xs : List Str) (z : Str) → count z (insertion_sort xs) ≡ count z xs
unfolding count insertion_sort
count-insertion_sort [] z = refl
count-insertion_sort (x ∷ xs) z =
    ground (arith, count-put_in_order z x (insertion_sort xs), count-insertion_sort xs z)

All-put_in_order :
    (P : Str → Type 0) (x : Str) (ys : List Str) → P x → All P ys → All P (put_in_order x ys)
unfolding put_in_order
All-put_in_order P x [] p a = (p, tt)
All-put_in_order P x (y ∷ ys) p a = elim (Bool-cases (str_le x y)) [
  | inl e ↦ rw e (p, a)
  | inr e ↦ rw e (a.0, All-put_in_order P x ys p a.1)
]

All-str_le :
    (x y : Str) (ys : List Str)
    → str_le x y ≡ true
    → All (λ z. str_le y z ≡ true) ys
    → All (λ z. str_le x z ≡ true) ys
All-str_le x y [] h a = tt
All-str_le x y (z ∷ zs) h a = (str_le_trans x y z h a.0, All-str_le x y zs h a.1)

put_in_order-IsSorted : (x : Str) (ys : List Str) → IsSorted ys → IsSorted (put_in_order x ys)
unfolding put_in_order
put_in_order-IsSorted x [] s = (tt, tt)
put_in_order-IsSorted x (y ∷ ys) s = elim (Bool-cases (str_le x y)) [
  | inl e ↦ rw e ((e, All-str_le x y ys e s.0), s)
  | inr e ↦ rw e (
    All-put_in_order (λ z. str_le y z ≡ true) x ys (str_le_total x y e) s.0,
    put_in_order-IsSorted x ys s.1,
  )
]

insertion_sort-IsSorted : (xs : List Str) → IsSorted (insertion_sort xs)
unfolding insertion_sort
insertion_sort-IsSorted [] = tt
insertion_sort-IsSorted (x ∷ xs) =
    put_in_order-IsSorted x (insertion_sort xs) (insertion_sort-IsSorted xs)

abbrev sorting : Sorting
sorting = record { visit = λ m. m; strings = insertion_sort }

abbrev sorting-IsLawful : IsLawful sorting
sorting-IsLawful = record {
  visits = λ m x. refl;
  keeps = count-insertion_sort;
  sorts = insertion_sort-IsSorted;
}

-- An expression matches itself, once.
abbrev expressions : Regexp
expressions = record {
  Match = Unit;
  matches = eq_str;
  find_all = λ source address. tt ∷ [];
  expand = λ source res dest address s. dest;
}

abbrev rewriter : AddressRewriter
rewriter = record { source = some (bytes "b@x"); dest = bytes "a@x" }

abbrev addresses : List Str
addresses = bytes "c@x" ∷ bytes "b@x" ∷ bytes "a@x" ∷ []

rewrites : rewrite_all expressions sorting rewriter addresses ≡ bytes "a@x" ∷ bytes "c@x" ∷ []
unfolding rewrite_all insertion_sort bytes eq_str
rewrites = refl

rewrite_all_unique_example :
    rewrite_all expressions sorting rewriter (bytes "a@x" ∷ [])
    ≡ rewrite_all expressions sorting rewriter (bytes "a@x" ∷ bytes "b@x" ∷ [])
unfolding count rewrite bytes eq_str
rewrite_all_unique_example =
    rewrite_all_unique expressions rewriter sorting sorting sorting-IsLawful sorting-IsLawful
      (bytes "a@x" ∷ []) (bytes "a@x" ∷ bytes "b@x" ∷ []) (λ x. ground arith)
