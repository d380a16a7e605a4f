-- ===== src/Configure/Typed.antt =====
-- configure/configure.go: `ParseArgs` and the types of the options.
use failmail.Base.{
  ◌≡◌, refl, sym, ap, Bool, true, false, Option, none, some, List, [], ◌∷◌, ◌++◌, map, Str, bytes,
  Bool-cases, inl, inr,
}
use mathlib.Core.Path.{subst, ◌∙◌}
use failmail.Session.Reply.{Writer}
use failmail.Configure.{Field, Strconv, write_config}
use failmail.Configure.Args.{
  Flag, FlagSets, visit_all, file_flags, build_flag_set, Files, flag_text, Parsed, panics, exits,
  returned, written, write_to, finish, second_parse, parse_again, after_file, read_file, from_file,
  parse_args,
}
use failmail.Configure.Binds.{shape}
use failmail.Configure.Visits.{all_flags, flag_shape, named_shape}
use failmail.Configure.Reads.{read_config_lem}
use failmail.Configure.Precedence.{flags_of, flags_of-shape}
use failmail.Configure.Sets.{has_once, once-HasKind, visit_all-shape}

-- Package flag defines no name twice, and whether it defines the flags and whether the arguments are
-- in error depends on their names and types; `Parse` changes neither.
pub record KeepsTypes (F : FlagSets) : Type 0 where
  pub once : (gs : List Flag) → F.accepts gs ≡ true → has_once (map flag_shape gs) ≡ true
  pub keeps :
      (gs : List Flag) (args : List Str) → map flag_shape (F.parse gs args).0 ≡ map flag_shape gs
  pub accepts_alike :
      (gs hs : List Flag) → map flag_shape gs ≡ map flag_shape hs → F.accepts gs ≡ F.accepts hs
  pub fails_alike :
      (gs hs : List Flag) (args : List Str)
      → map flag_shape gs ≡ map flag_shape hs
      → (F.parse gs args).1 ≡ (F.parse hs args).1

-- What is known of what `ParseArgs` does.
abbrev pub HasParsed : FlagSets → List Str → List Field → Parsed → Type 0
HasParsed F args fs panics = F.accepts (flags_of fs) ≡ false
HasParsed F args fs exits = (F.parse (flags_of fs) args).1 ≡ true
HasParsed F args fs (returned wrote error w gs) = map shape gs ≡ map shape fs

module _ (F : FlagSets) (law : KeepsTypes F) (C : Strconv) (X : Files) (args : List Str)
    (fs : List Field) (all : all_flags (map shape fs) ≡ true) where
  finish-HasParsed :
      (hs : List Field) (path : Str)
      → map shape hs ≡ map shape fs
      → HasParsed F args fs (finish F C X hs path)
  finish-HasParsed hs [] same = same
  finish-HasParsed hs (c ∷ path) same = go (X.create_file (c ∷ path))
    where
      go_written : (r : Bool × Writer) → HasParsed F args fs (written F C X hs r)
      go_written (true, w) = same
      go_written (false, w) = same

      go : (o : Option Writer) → HasParsed F args fs (write_to F C X hs o)
      go none = same
      go (some w) = go_written (write_config C w hs)

  flags_alike :
      (hs : List Field)
      → map shape hs ≡ map shape fs
      → map flag_shape (flags_of hs) ≡ map flag_shape (flags_of fs)
  flags_alike hs same =
      flags_of-shape hs (rw same all)
      ∙ ap (λ ss. map named_shape ss ++ map flag_shape file_flags) same
      ∙ sym (flags_of-shape fs all)

  -- The second `Parse` and `VisitAll`.
  second_parse-HasParsed :
      (hs : List Field) (r : List Flag × Bool)
      → map shape hs ≡ map shape fs
      → F.accepts (flags_of hs) ≡ true
      → F.parse (flags_of hs) args ≡ r
      → HasParsed F args fs (second_parse F C X hs r)
  second_parse-HasParsed hs (gs, true) same ok e =
      law.fails_alike (flags_of fs) (flags_of hs) args (sym (flags_alike hs same)) ∙ ap (λ r. r.1) e
  second_parse-HasParsed hs (gs, false) same ok e =
      let shapes : map flag_shape gs ≡ map named_shape (map shape fs) ++ map flag_shape file_flags =
        ap (λ r. map flag_shape r.0) (sym e)
        ∙ law.keeps (flags_of hs) args
        ∙ flags_alike hs same
        ∙ flags_of-shape fs all in
      let once : has_once (map named_shape (map shape fs) ++ map flag_shape file_flags) ≡ true =
        subst (λ ss. has_once ss ≡ true) (flags_alike hs same ∙ flags_of-shape fs all)
          (law.once (flags_of hs) ok) in
      finish-HasParsed (visit_all gs hs) _ (
        visit_all-shape (map shape fs) gs hs same (
          rw shapes
            (once-HasKind (map named_shape (map shape fs)) (map flag_shape file_flags) once)))

  parse_again-HasParsed :
      (hs : List Field)
      → map shape hs ≡ map shape fs
      → HasParsed F args fs (parse_again F C X args hs (build_flag_set F hs))
  unfolding build_flag_set
  parse_again-HasParsed hs same = elim (Bool-cases (F.accepts (flags_of hs))) [
    | inl e ↦ rw e (second_parse-HasParsed hs (F.parse (flags_of hs) args) same e refl)
    | inr e ↦ rw e (law.accepts_alike (flags_of fs) (flags_of hs) (sym (flags_alike hs same)) ∙ e)
  ]

  -- `ReadConfig` on the file of `-config` comes to an end, and keeps the types.
  from_file-shape :
      (path : Str)
      → (r : List Field × Bool) × (from_file F C X fs path ≡ some r)
        × (map shape r.0 ≡ map shape fs)
  unfolding from_file
  from_file-shape [] = ((fs, false), refl, refl)
  from_file-shape (c ∷ path) = go (X.open_file (c ∷ path))
    where
      go :
          (o : Option (Option Str))
          → (r : List Field × Bool) × (read_file F C X fs o ≡ some r)
            × (map shape r.0 ≡ map shape fs)
      go none = ((fs, true), refl, refl)
      go (some text) = let (r, e, kept) = read_config_lem C text fs in (r, e, kept.0)

  after_file-HasParsed :
      (r : List Field × Bool)
      → map shape r.0 ≡ map shape fs
      → (p : Parsed) × (after_file F C X args (some r) ≡ some p) × HasParsed F args fs p
  after_file-HasParsed (hs, true) same = (returned false true none hs, refl, same)
  after_file-HasParsed (hs, false) same = (_, refl, parse_again-HasParsed hs same)

  -- Where every option has a type that flags have, `ParseArgs` comes to an end, whatever the
  -- arguments and the configuration file are. It panics only if the flags of the options cannot be
  -- defined, leaves the program only if the arguments are in error, and else every option has the
  -- name and the type that it had, also after an error.
  pub parse_args-HasParsed :
      (p : Parsed) × (parse_args F C X args fs ≡ some p) × HasParsed F args fs p
  unfolding parse_args build_flag_set
  parse_args-HasParsed = elim (Bool-cases (F.accepts (flags_of fs))) [
    | inl e ↦
        let (r, read, kept) =
          from_file-shape (flag_text (bytes "config") (F.parse (flags_of fs) args).0) in
        rw (e, read) (after_file-HasParsed r kept)
    | inr e ↦ (panics, rw e refl, e)
  ]
