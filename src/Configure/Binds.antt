-- ===== src/Configure/Binds.antt =====
-- What `bind` leaves in each option.
use failmail.Base.{
  ◌≡◌, refl, ap, Bool, false, Option, none, some, List, [], ◌∷◌, map, arith, Str, is_empty,
  Option-cases, Bool-cases, inl, inr, if◌then◌else◌, eq_str, eq_str_iff, str_eq, lookup,
}
use mathlib.Core.Path.{subst}
use failmail.Configure.{
  Value, Kind, string_kind, bool_kind, float_kind, int_kind, duration_kind, other_kind, kind_of,
  Field, set_value, flag_name, Strconv, parse_config_value, found, bind_field, bind, Settings,
}
use failmail.Configure.Args.{value_of}

-- The name of an option and its type.
abbrev pub shape : Field → Str × Kind
shape f = (f.name, kind_of f.value)

-- A value is read as one of the type that the option has: `Set` does not panic.
pub parse_config_value-kind_of :
    (c : Strconv) (k : Kind) (s : Str) (v : Value)
    → parse_config_value c k s ≡ some v
    → kind_of v ≡ k
unfolding parse_config_value
parse_config_value-kind_of c string_kind s v h = ground arith
parse_config_value-kind_of c bool_kind s v h = elim (Option-cases (c.parse_bool s)) [
  | inl e ↦ ground arith
  | inr (a, e) ↦ ground arith
]
parse_config_value-kind_of c float_kind s v h = elim (Option-cases (c.parse_float s)) [
  | inl e ↦ ground arith
  | inr (a, e) ↦ ground arith
]
parse_config_value-kind_of c int_kind s v h = elim (Option-cases (c.parse_int s)) [
  | inl e ↦ ground arith
  | inr (a, e) ↦ ground arith
]
parse_config_value-kind_of c duration_kind s v h = elim (Option-cases (c.parse_duration s)) [
  | inl e ↦ ground arith
  | inr (a, e) ↦ ground arith
]
parse_config_value-kind_of c other_kind s v h = cc

found-kind_of :
    (c : Strconv) (k : Kind) (o : Option Str) (v : Value)
    → found c k o ≡ some (some v)
    → kind_of v ≡ k
found-kind_of c k none v h = cc
found-kind_of c k (some s) v h = elim (Bool-cases (is_empty s)) [
  | inl e ↦ ground arith
  | inr e ↦ parse_config_value-kind_of c k s v (ground arith)
]

bind_field-shape :
    (c : Strconv) (s : Option Str) (f : Field) (fs : List Field) (rest : List Field × Bool)
    (o : Option (Option Value))
    → found c (kind_of f.value) s ≡ o
    → map shape rest.0 ≡ map shape fs
    → map shape (bind_field f o fs rest).0 ≡ map shape (f ∷ fs)
bind_field-shape c s f fs rest none h ih = ap (λ ss. shape f ∷ ss) ih
bind_field-shape c s f fs rest (some none) h ih = refl
bind_field-shape c s f fs rest (some (some v)) h ih =
    let same = found-kind_of c (kind_of f.value) s v h in rw (ih, same) refl

-- `bind` changes no name and no type, whether or not it fails.
pub bind-shape :
    (c : Strconv) (settings : Settings) (fs : List Field)
    → map shape (bind c settings fs).0 ≡ map shape fs
unfolding bind
bind-shape c settings [] = refl
bind-shape c settings (f ∷ fs) =
    bind_field-shape c (lookup (flag_name f) settings) f fs _ _ refl (bind-shape c settings fs)

-- What an option is after it was bound: the setting where there is one that is not empty.
abbrev pub bound : Strconv → Option Str → Value → Value
bound c o v = elim (found c (kind_of v) o) [ some (some w) ↦ w | _ ↦ v ]

abbrev pub each_value : (Value → Value) → Option Value → Option Value
each_value f none = none
each_value f (some v) = some (f v)

-- One field more, changed as the others are.
each_value-value_of :
    (g : Value → Value) (n : Str) (e f : Field) (es fs : List Field)
    → e.name ≡ f.name
    → (flag_name f ≡ n → e.value ≡ g f.value)
    → value_of n es ≡ each_value g (value_of n fs)
    → value_of n (e ∷ es) ≡ each_value g (value_of n (f ∷ fs))
unfolding value_of
each_value-value_of g n e f es fs name same ih = rw ih (go (value_of n fs))
  where
    go :
        (o : Option Value)
        → (elim (each_value g o) [
          | some v ↦ some v
          | none ↦ if eq_str (flag_name e) n then some e.value else none
        ])
          ≡ each_value g (elim o [
            | some v ↦ some v
            | none ↦ if eq_str (flag_name f) n then some f.value else none
          ])
    go none = elim (Bool-cases (eq_str (flag_name f) n)) [
      | inl h ↦ rw (name, h) (ap some (same ((eq_str_iff (flag_name f) n).0 h)))
      | inr h ↦ rw (name, h) refl
    ]
    go (some v) = refl

bind_field-value_of :
    (c : Strconv) (settings : Settings) (n : Str) (f : Field) (fs : List Field)
    (rest : List Field × Bool) (o : Option (Option Value))
    → found c (kind_of f.value) (lookup (flag_name f) settings) ≡ o
    → (rest.1 ≡ false
        → value_of n rest.0 ≡ each_value (bound c (lookup n settings)) (value_of n fs))
    → (bind_field f o fs rest).1 ≡ false
    → value_of n (bind_field f o fs rest).0
      ≡ each_value (bound c (lookup n settings)) (value_of n (f ∷ fs))
bind_field-value_of c settings n f fs rest none h ih ok =
    each_value-value_of _ n f f rest.0 fs refl
      (λ same.
        let h' : found c (kind_of f.value) (lookup n settings) ≡ none =
          subst (λ m. found c (kind_of f.value) (lookup m settings) ≡ none) same h in
        rw (bound, h') refl)
      (ih ok)
bind_field-value_of c settings n f fs rest (some none) h ih ok = cc
bind_field-value_of c settings n f fs rest (some (some v)) h ih ok =
    each_value-value_of _ n (set_value f v) f rest.0 fs refl
      (λ same.
        let h' : found c (kind_of f.value) (lookup n settings) ≡ some (some v) =
          subst (λ m. found c (kind_of f.value) (lookup m settings) ≡ some (some v)) same h in
        rw (bound, h') refl)
      (ih ok)

-- Where `bind` has no error, every option is what its setting says, or what it was before.
pub bind-value_of :
    (c : Strconv) (settings : Settings) (fs : List Field) (n : Str)
    → (bind c settings fs).1 ≡ false
    → value_of n (bind c settings fs).0 ≡ each_value (bound c (lookup n settings)) (value_of n fs)
unfolding bind value_of
bind-value_of c settings [] n ok = refl
bind-value_of c settings (f ∷ fs) n ok =
    bind_field-value_of c settings n f fs _ _ refl (bind-value_of c settings fs n) ok
