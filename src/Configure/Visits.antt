-- ===== src/Configure/Visits.antt =====
-- What `VisitAll` leaves in each option, from the flags as they were parsed.
use failmail.Base.{
  ◌≡◌, refl, ap, Bool, true, false, ◌&&◌, Option, none, some, List, [], ◌∷◌, ◌++◌, map, arith, Str,
  if◌then◌else◌, eq_str, eq_str_iff,
}
use failmail.Configure.{
  Value, string_value, bool_value, float_value, int_value, duration_value, other_value, Kind,
  other_kind, kind_of, Field, flag_name, normalize_flag,
}
use failmail.Configure.Args.{
  Flag, value_of, set_named, visit_all, flag_of, define_flag, field_flags,
}
use failmail.Configure.Binds.{shape, each_value}

abbrev pub chosen : Option Value → Value → Value
chosen none v = v
chosen (some w) v = w

pub value_of-set_named :
    (n m : Str) (v : Value) (fs : List Field)
    → value_of n (set_named m v fs)
      ≡ (if eq_str m n then each_value (λ _. v) (value_of n fs) else value_of n fs)
unfolding value_of set_named
value_of-set_named n m v [] = ground arith
value_of-set_named n m v (f ∷ fs) = ground (
  arith,
  value_of-set_named n m v fs,
  eq_str_iff m n,
  eq_str_iff (flag_name f) n,
  eq_str_iff (flag_name f) m,
)

-- The value of the last flag of a name.
abbrev pub last_value : Str → List Flag → Option Value
last_value n [] = none
last_value n (g ∷ gs) = elim (last_value n gs) [
  | some v ↦ some v
  | none ↦ if eq_str g.name n then some g.value else none
]

pub value_of-visit_all :
    (n : Str) (gs : List Flag) (fs : List Field)
    → value_of n (visit_all gs fs) ≡ each_value (chosen (last_value n gs)) (value_of n fs)
unfolding visit_all
value_of-visit_all n [] fs = ground arith
value_of-visit_all n (g ∷ gs) fs = ground (
  arith,
  value_of-visit_all n gs (set_named g.name g.value fs),
  value_of-set_named n g.name g.value fs,
)

abbrev pub set_given : (Str → Option Value) → Flag → Flag
set_given given g = record g { value = chosen (given g.name) g.value }

pub last_value-set_given :
    (given : Str → Option Value) (n : Str) (gs : List Flag)
    → last_value n (map (set_given given) gs) ≡ each_value (chosen (given n)) (last_value n gs)
last_value-set_given given n [] = refl
last_value-set_given given n (g ∷ gs) =
    ground (arith, last_value-set_given given n gs, eq_str_iff g.name n)

-- Every option is of a type that has a flag.
abbrev pub has_flag : Kind → Bool
has_flag other_kind = false
has_flag _ = true

abbrev pub all_flags : List (Str × Kind) → Bool
all_flags [] = true
all_flags ((n, k) ∷ ss) = has_flag k && all_flags ss

define_flag-has_flag :
    (v : Value) (g : Flag) (gs : List Flag)
    → has_flag (kind_of v) ≡ true
    → define_flag v g gs ≡ g ∷ gs
define_flag-has_flag (string_value s) g gs h = refl
define_flag-has_flag (bool_value b) g gs h = refl
define_flag-has_flag (float_value m) g gs h = refl
define_flag-has_flag (int_value m) g gs h = refl
define_flag-has_flag (duration_value m) g gs h = refl
define_flag-has_flag (other_value m) g gs h = cc

pub last_value-field_flags :
    (n : Str) (fs : List Field) (gs : List Flag)
    → all_flags (map shape fs) ≡ true
    → last_value n gs ≡ none
    → last_value n (field_flags fs ++ gs) ≡ value_of n fs
unfolding value_of field_flags
last_value-field_flags n [] gs h e = e
last_value-field_flags n (f ∷ fs) gs h e =
    let all : all_flags (map shape fs) ≡ true = ground arith in
    rw (define_flag-has_flag f.value (flag_of f) (field_flags fs) (ground arith)) (
      ap
        (λ o. elim o [
          | some v ↦ some v
          | none ↦ if eq_str (flag_name f) n then some f.value else none
        ])
        (last_value-field_flags n fs gs all e))

abbrev pub flag_shape : Flag → Str × Kind
flag_shape g = (g.name, kind_of g.value)

-- The names and types of the flags of such options.
abbrev pub named_shape : Str × Kind → Str × Kind
named_shape (n, k) = (normalize_flag n, k)

pub field_flags-shape :
    (fs : List Field)
    → all_flags (map shape fs) ≡ true
    → map flag_shape (field_flags fs) ≡ map named_shape (map shape fs)
unfolding field_flags
field_flags-shape [] h = refl
field_flags-shape (f ∷ fs) h =
    let all : all_flags (map shape fs) ≡ true = ground arith in
    rw (define_flag-has_flag f.value (flag_of f) (field_flags fs) (ground arith))
      (ap (λ ss. named_shape (shape f) ∷ ss) (field_flags-shape fs all))
