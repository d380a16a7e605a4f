-- ===== src/Configure/Sets.antt =====
-- configure/configure.go: `VisitAll` and the types of the options.
use failmail.Base.{
  ◌≡◌, refl, sym, ap, Bool, true, not, ◌&&◌, Option, none, some, List, [], ◌∷◌, ◌++◌, map, arith,
  Str, eq_str, eq_str_iff, eq_str_refl, if◌then◌else◌, All, All-map, Bool-cases, Option-cases, inl,
  inr,
}
use mathlib.Core.Path.{subst, ◌∙◌}
use mathlib.Core.Option.{some-injective}
use failmail.Configure.{Value, Kind, kind_of, Field, flag_name}
use failmail.Configure.Args.{Flag, value_of, set_named, visit_all}
use failmail.Configure.Binds.{shape}
use failmail.Configure.Visits.{flag_shape, named_shape}

abbrev pub absent : Str → List (Str × Kind) → Bool
absent n [] = true
absent n ((m, k) ∷ ts) = not (eq_str m n) && absent n ts

-- No two flags have the same name.
abbrev pub has_once : List (Str × Kind) → Bool
has_once [] = true
has_once ((n, k) ∷ ts) = absent n ts && has_once ts

-- The type of the last one of a name.
abbrev kind_at : Str → List (Str × Kind) → Option Kind
kind_at n [] = none
kind_at n ((m, k) ∷ ts) = elim (kind_at n ts) [
  | some j ↦ some j
  | none ↦ if eq_str m n then some k else none
]

kind_at-absent : (n : Str) (ts : List (Str × Kind)) → absent n ts ≡ true → kind_at n ts ≡ none
kind_at-absent n [] h = refl
kind_at-absent n ((m, k) ∷ ts) h = let ih = kind_at-absent n ts (ground arith) in ground arith

kind_at-once :
    (ts : List (Str × Kind)) → has_once ts ≡ true → All (λ t. kind_at t.0 ts ≡ some t.1) ts
kind_at-once [] d = tt
kind_at-once ((n, k) ∷ ts) h = (
  rw (kind_at-absent n ts (ground arith), eq_str_refl n) refl,
  All-map ts (λ t e. rw e refl) (kind_at-once ts (ground arith)),
)

kind_at-append :
    (us es : List (Str × Kind)) (n : Str) (k : Kind)
    → has_once (us ++ es) ≡ true
    → kind_at n us ≡ some k
    → kind_at n (us ++ es) ≡ some k
kind_at-append [] es n k d h = absurd (ground arith)
kind_at-append ((m, j) ∷ us) es n k d h = elim (Option-cases (kind_at n us)) [
  | inl none_there ↦
      let (same, kind) : (eq_str m n ≡ true) × (j ≡ k) = ground arith in
      let name : m ≡ n = (eq_str_iff m n).0 same in
      let first : absent m (us ++ es) ≡ true = ground arith in
      let gone = kind_at-absent n (us ++ es) (subst (λ x. absent x (us ++ es) ≡ true) name first) in
      rw (gone, same, kind) refl
  | inr (i, there) ↦
      let later = kind_at-append us es n i (ground arith) there in
      let kind : i ≡ k = ground arith in rw (later, kind) refl
]

-- A flag has the type of the option that `values` has under its name.
abbrev pub HasKind : List (Str × Kind) → Str × Kind → Type 0
HasKind us (n, k) = (j : Kind) → kind_at n us ≡ some j → k ≡ j

pub once-HasKind :
    (us es : List (Str × Kind)) → has_once (us ++ es) ≡ true → All (HasKind us) (us ++ es)
once-HasKind us es d =
    All-map (us ++ es) (λ t e j h. some-injective _ _ (sym e ∙ kind_at-append us es t.0 j d h))
      (kind_at-once (us ++ es) d)

abbrev kind_in : Option Value → Option Kind
kind_in none = none
kind_in (some v) = some (kind_of v)

kind_at-value_of :
    (n : Str) (fs : List Field)
    → kind_at n (map named_shape (map shape fs)) ≡ kind_in (value_of n fs)
unfolding value_of
kind_at-value_of n [] = refl
kind_at-value_of n (f ∷ fs) = ground (arith, kind_at-value_of n fs)

-- `Set` with a value of the option's type keeps every name and type.
set_named-shape :
    (n : Str) (v : Value) (fs : List Field)
    → ((j : Kind) → kind_in (value_of n fs) ≡ some j → kind_of v ≡ j)
    → map shape (set_named n v fs) ≡ map shape fs
unfolding set_named value_of
set_named-shape n v [] typed = refl
set_named-shape n v (f ∷ fs) typed = elim (Option-cases (value_of n fs)) [
  | inl e ↦ elim (Bool-cases (eq_str (flag_name f) n)) [
    | inl same ↦
        let kind : kind_of v ≡ kind_of f.value = typed (kind_of f.value) (rw (e, same) refl) in
        rw (e, same, kind, set_named) refl
    | inr other ↦ rw (e, other, set_named) refl
  ]
  | inr (w, e) ↦
      let ih =
        set_named-shape n v fs (λ j h. typed j (rw e (subst (λ o. kind_in o ≡ some j) e h))) in
      rw (e, set_named) (ap (λ ss. shape f ∷ ss) ih)
]

pub visit_all-shape :
    (ss : List (Str × Kind)) (gs : List Flag) (fs : List Field)
    → map shape fs ≡ ss
    → All (HasKind (map named_shape ss)) (map flag_shape gs)
    → map shape (visit_all gs fs) ≡ ss
unfolding visit_all
visit_all-shape ss [] fs same typed = same
visit_all-shape ss (g ∷ gs) fs same (typed, later) =
    visit_all-shape ss gs (set_named g.name g.value fs)
      (set_named-shape g.name g.value fs
          (λ j h. typed j (rw (sym same, kind_at-value_of g.name fs) h))
        ∙ same)
      later
