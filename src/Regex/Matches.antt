-- ===== src/Regex/Matches.antt =====
-- The texts that a regular expression matches.
use failmail.Base.{
  ℕ, ◌≡◌, ◌↔◌, ◌⊎◌, inl, inr, refl, ap, sym, ◌∙◌, Bool, true, false, List, [], ◌∷◌, ◌++◌, arith,
  if◌then◌else◌, Str, All, Bool-cases,
}
use mathlib.Core.Path.{subst}
use failmail.Regex.{Re, never, empty, class, seq, alt, star, nullable, join, choose, derive}

-- The texts of the parts, one behind the other.
abbrev pub joined : List Str → Str
joined [] = []
joined (u ∷ us) = u ++ joined us

-- The language of an expression.
abbrev pub Matches : Re → Str → Type 0
Matches never s = ⊥
Matches empty s = s ≡ []
Matches (class p) s = (c : ℕ) × (p c ≡ true) × (s ≡ c ∷ [])
Matches (seq a b) s = (u : Str) × (v : Str) × (s ≡ u ++ v) × Matches a u × Matches b v
Matches (alt a b) s = Matches a s ⊎ Matches b s
Matches (star a) s = (us : List Str) × (s ≡ joined us) × All (Matches a) us

append_nil_left : (u v : Str) → [] ≡ u ++ v → u ≡ []
append_nil_left [] v h = refl
append_nil_left (c ∷ u) v h = cc

pub nullable-Matches : (r : Re) → (nullable r ≡ true) ↔ Matches r []
unfolding nullable
nullable-Matches never = (λ h. cc, λ h. absurd h)
nullable-Matches empty = (λ h. refl, λ h. refl)
nullable-Matches (class p) = (λ h. cc, λ (c, h, e). cc)
nullable-Matches (seq a b) = (
  λ h. ([], [], refl, (nullable-Matches a).0 (ground arith), (nullable-Matches b).0 (ground arith)),
  λ (u, v, e, x, y).
      let left = append_nil_left u v e in
      let right : v ≡ [] = sym (e ∙ ap (λ t. t ++ v) left) in
      ground (
        arith,
        (nullable-Matches a).1 (subst (Matches a) left x),
        (nullable-Matches b).1 (subst (Matches b) right y),
      ),
)
nullable-Matches (alt a b) = (
  λ h. elim (Bool-cases (nullable a)) [
    | inl y ↦ inl ((nullable-Matches a).0 y)
    | inr n ↦ inr ((nullable-Matches b).0 (ground arith))
  ],
  λ m. elim m [
    | inl x ↦ ground (arith, (nullable-Matches a).1 x)
    | inr y ↦ ground (arith, (nullable-Matches b).1 y)
  ],
)
nullable-Matches (star a) = (λ h. ([], refl, tt), λ h. refl)

join-Matches : (a b : Re) (s : Str) → Matches (join a b) s ↔ Matches (seq a b) s
unfolding join
join-Matches never b s = (λ h. absurd h, λ (u, v, e, x, y). absurd x)
join-Matches empty b s = (
  λ h. ([], s, refl, refl, h),
  λ (u, v, e, x, y). subst (Matches b) (sym (e ∙ ap (λ t. t ++ v) x)) y,
)
join-Matches (class p) b s = (λ h. h, λ h. h)
join-Matches (seq a c) b s = (λ h. h, λ h. h)
join-Matches (alt a c) b s = (λ h. h, λ h. h)
join-Matches (star a) b s = (λ h. h, λ h. h)

choose-Matches : (a b : Re) (s : Str) → Matches (choose a b) s ↔ Matches (alt a b) s
unfolding choose
choose-Matches never b s = (inr, λ m. elim m [ inl x ↦ absurd x | inr y ↦ y ])
choose-Matches a never s = (inl, λ m. elim m [ inl x ↦ x | inr y ↦ absurd y ])
choose-Matches a b s = (λ h. h, λ h. h)

-- A text that starts with `c`, cut in two, where the first part is empty or starts with `c`.
cons-split :
    (c : ℕ) (s u v : Str)
    → c ∷ s ≡ u ++ v
    → ((u ≡ []) × (c ∷ s ≡ v)) ⊎ ((u' : Str) × (u ≡ c ∷ u') × (s ≡ u' ++ v))
cons-split c s [] v h = inl (refl, h)
cons-split c s (d ∷ u) v h = inr (u, cc, cc)

-- The first part of a star that is not empty.
star-cons :
    (a : Re) (c : ℕ) (s : Str) (us : List Str)
    → c ∷ s ≡ joined us
    → All (Matches a) us
    → (u : Str) × (v : Str) × (s ≡ u ++ v) × Matches a (c ∷ u) × Matches (star a) v
star-cons a c s [] h all = cc
star-cons a c s (u ∷ us) h (first, rest) = elim (cons-split c s u (joined us) h) [
  | inl (e, later) ↦ star-cons a c s us later rest
  | inr (u', e, later) ↦ (u', joined us, later, subst (Matches a) e first, (us, refl, rest))
]

derived_class :
    (passes : Bool) (s : Str)
    → Matches (if passes then empty else never) s ↔ ((passes ≡ true) × (s ≡ []))
derived_class true s = (λ h. (refl, h), λ (h, e). e)
derived_class false s = (λ h. absurd h, λ (h, e). cc)

module _ (c : ℕ) (a b : Re) (s : Str)
    (left : (u : Str) → Matches (derive c a) u ↔ Matches a (c ∷ u))
    (right : (u : Str) → Matches (derive c b) u ↔ Matches b (c ∷ u)) where
  derived_first : Matches (join (derive c a) b) s → Matches (seq a b) (c ∷ s)
  derived_first h =
      let (u, v, e, x, y) = (join-Matches (derive c a) b s).0 h in
      (c ∷ u, v, ap (◌∷◌ c) e, (left u).0 x, y)

  -- What matches after the byte, in the first expression or in the second.
  derived_cases :
      Matches (seq a b) (c ∷ s)
      → (Matches a [] × Matches (derive c b) s) ⊎ Matches (join (derive c a) b) s
  derived_cases (u, v, e, x, y) = elim (cons-split c s u v e) [
    | inl (gone, later) ↦
        inl (subst (Matches a) gone x, (right s).1 (subst (Matches b) (sym later) y))
    | inr (u', first, later) ↦ inr (
        (join-Matches (derive c a) b s).1
          (u', v, later, (left u').1 (subst (Matches a) first x), y))
  ]

  derived_seq :
      (null : Bool)
      → (null ≡ true) ↔ Matches a []
      → Matches (if null then choose (join (derive c a) b) (derive c b) else join (derive c a) b) s
        ↔ Matches (seq a b) (c ∷ s)
  derived_seq true empty_too = (
    λ h. elim ((choose-Matches (join (derive c a) b) (derive c b) s).0 h) [
      | inl x ↦ derived_first x
      | inr y ↦ ([], c ∷ s, refl, empty_too.0 refl, (right s).0 y)
    ],
    λ h.
        (choose-Matches (join (derive c a) b) (derive c b) s).1
          (elim (derived_cases h) [ inl (x, y) ↦ inr y | inr x ↦ inl x ]),
  )
  derived_seq false empty_too = (
    derived_first,
    λ h. elim (derived_cases h) [
      | inl (x, y) ↦ let n : false ≡ true = empty_too.1 x in cc
      | inr x ↦ x
    ],
  )

pub derive-Matches : (c : ℕ) (r : Re) (s : Str) → Matches (derive c r) s ↔ Matches r (c ∷ s)
unfolding derive
derive-Matches c never s = (λ h. h, λ h. h)
derive-Matches c empty s = (λ h. absurd h, λ h. cc)
derive-Matches c (class p) s =
    let byte = derived_class (p c) s in
    (
      λ h. let (y, is) = byte.0 h in (c, y, ap (◌∷◌ c) is),
      λ (d, h, e). let same : c ≡ d = cc in byte.1 (ap p same ∙ h, cc),
    )
derive-Matches c (seq a b) s =
    derived_seq c a b s (derive-Matches c a) (derive-Matches c b) (nullable a) (nullable-Matches a)
derive-Matches c (alt a b) s = (
  λ h. elim ((choose-Matches (derive c a) (derive c b) s).0 h) [
    | inl x ↦ inl ((derive-Matches c a s).0 x)
    | inr y ↦ inr ((derive-Matches c b s).0 y)
  ],
  λ m. (choose-Matches (derive c a) (derive c b) s).1 (elim m [
    | inl x ↦ inl ((derive-Matches c a s).1 x)
    | inr y ↦ inr ((derive-Matches c b s).1 y)
  ]),
)
derive-Matches c (star a) s = (
  λ h.
      let (u, v, e, x, (us, e', all)) = (join-Matches (derive c a) (star a) s).0 h in
      ((c ∷ u) ∷ us, ap (λ t. c ∷ t) (e ∙ ap (λ t. u ++ t) e'), ((derive-Matches c a u).0 x, all)),
  λ (us, e, all).
      let (u, v, e', x, rest) = star-cons a c s us e all in
      (join-Matches (derive c a) (star a) s).1 (u, v, e', (derive-Matches c a u).1 x, rest),
)
