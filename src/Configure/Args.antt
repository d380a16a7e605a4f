-- ===== src/Configure/Args.antt =====
-- configure/configure.go: `buildFlagSet` and `ParseArgs`.
--
-- `FlagSets` stands for package flag: whether a set of flags can be defined (a name that is there
-- twice panics), and what `Parse` makes of the arguments, with whether it has an error.
use failmail.Base.{
  Bool, true, false, Option, none, some, List, [], ◌∷◌, ◌++◌, if◌then◌else◌, Str, bytes, is_empty,
  eq_str,
}
use failmail.Session.Reply.{Writer}
use failmail.Configure.{
  Value, string_value, other_value, Field, set_value, flag_name, normalize_flag, Strconv,
  read_config, write_config,
}

-- A `flag.Flag`, with the value that its variable has.
pub record Flag : Type 0 where
  pub name : Str
  pub help : Str
  pub value : Value

pub record FlagSets : Type 0 where
  pub accepts : List Flag → Bool
  pub parse : List Flag → List Str → List Flag × Bool

-- `values[name]`, the field that was put there last.
unfoldable pub value_of : Str → List Field → Option Value
unfolding normalize_flag
value_of name [] = none
value_of name (f ∷ fs) = elim (value_of name fs) [
  | some v ↦ some v
  | none ↦ if eq_str (flag_name f) name then some f.value else none
]

-- `values[name].Set(v)`, on the field that `values` has.
unfoldable pub set_named : Str → Value → List Field → List Field
unfolding value_of normalize_flag
set_named name v [] = []
set_named name v (f ∷ fs) =
    let rest = set_named name v fs in
    elim (value_of name fs) [
      | some w ↦ f ∷ rest
      | none ↦ if eq_str (flag_name f) name then set_value f v ∷ fs else f ∷ fs
    ]

abbrev pub flag_of : Field → Flag
flag_of f = record { name = flag_name f; help = f.help; value = f.value }

-- The `switch` of `buildFlagSet`: a field of another type has no flag.
abbrev pub define_flag : Value → Flag → List Flag → List Flag
define_flag (other_value n) g gs = gs
define_flag v g gs = g ∷ gs

unfoldable pub field_flags : List Field → List Flag
unfolding normalize_flag
field_flags [] = []
field_flags (f ∷ fs) = define_flag f.value (flag_of f) (field_flags fs)

abbrev string_flag : Str → Str → Flag
string_flag name help = record { name = name; help = help; value = string_value [] }

abbrev pub file_flags : List Flag
file_flags =
    string_flag (bytes "config") (bytes "path to a config file")
    ∷ string_flag (bytes "write-config") (bytes "path to output a config file")
    ∷ []

-- `buildFlagSet`; `none` is a panic.
unfoldable pub build_flag_set : FlagSets → List Field → Option (List Flag)
unfolding field_flags bytes
build_flag_set F fs =
    let flags = field_flags fs ++ file_flags in if F.accepts flags then some flags else none

unfoldable pub flag_value : Str → List Flag → Option Value
flag_value name [] = none
flag_value name (g ∷ gs) = if eq_str g.name name then some g.value else flag_value name gs

-- The text of a string variable of the flag set.
unfoldable pub flag_text : Str → List Flag → Str
unfolding flag_value
flag_text name gs = elim (flag_value name gs) [ some (string_value s) ↦ s | _ ↦ [] ]

-- `VisitAll`, in the order of definition: a name is defined once, so that the order does not matter.
unfoldable pub visit_all : List Flag → List Field → List Field
unfolding set_named
visit_all [] fs = fs
visit_all (g ∷ gs) fs = visit_all gs (set_named g.name g.value fs)

-- The files: what opening one gives (`none` fails) and what reading that gives, and the writer of a
-- file that is created.
pub record Files : Type 0 where
  pub open_file : Str → Option (Option Str)
  pub create_file : Str → Option Writer

-- What `ParseArgs` does: it panics, leaves the program, or returns whether it wrote a file and
-- whether there was an error, with what it wrote to and the options after it.
pub data Parsed : Type 0 where
  panics exits : Parsed
  returned : Bool → Bool → Option Writer → List Field → Parsed

module _ (F : FlagSets) (C : Strconv) (X : Files) where
  abbrev pub written : List Field → Bool × Writer → Parsed
  written fs (true, w) = returned false true (some w) fs
  written fs (false, w) = returned true false (some w) fs

  abbrev pub write_to : List Field → Option Writer → Parsed
  write_to fs none = returned false true none fs
  write_to fs (some w) = written fs (write_config C w fs)

  abbrev pub finish : List Field → Str → Parsed
  finish fs path =
      if is_empty path then returned false false none fs else write_to fs (X.create_file path)

  abbrev pub second_parse : List Field → List Flag × Bool → Parsed
  second_parse fs (gs, true) = exits
  second_parse fs (gs, false) = finish (visit_all gs fs) (flag_text (bytes "write-config") gs)

  -- From the second `buildFlagSet` on.
  abbrev pub parse_again : List Str → List Field → Option (List Flag) → Parsed
  parse_again args fs none = panics
  parse_again args fs (some flags) = second_parse fs (F.parse flags args)

  abbrev pub after_file : List Str → Option (List Field × Bool) → Option Parsed
  after_file args none = none
  after_file args (some (fs, true)) = some (returned false true none fs)
  after_file args (some (fs, false)) = some (parse_again args fs (build_flag_set F fs))

  abbrev pub read_file : List Field → Option (Option Str) → Option (List Field × Bool)
  read_file fs none = some (fs, true)
  read_file fs (some text) = read_config C text fs

  -- `if *configFile != "" { … }`
  unfoldable pub from_file : List Field → Str → Option (List Field × Bool)
  unfolding read_config
  from_file fs path = if is_empty path then some (fs, false) else read_file fs (X.open_file path)

  abbrev pub first_parse : List Str → List Field → Option (List Flag) → Option Parsed
  first_parse args fs none = some panics
  first_parse args fs (some flags) =
      after_file args (from_file fs (flag_text (bytes "config") (F.parse flags args).0))

  -- `ParseArgs`, with `args` behind the name of the program; `none` is fuel that ran out.
  unfoldable pub parse_args : List Str → List Field → Option Parsed
  unfolding build_flag_set from_file flag_text visit_all write_config bytes
  parse_args args fs = first_parse args fs (build_flag_set F fs)
