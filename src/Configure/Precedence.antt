-- ===== src/Configure/Precedence.antt =====
-- configure/configure.go: the arguments, the configuration file and the defaults in `ParseArgs`.
use failmail.Base.{
  ◌≡◌, ap, true, Option, none, some, List, [], ◌∷◌, ◌++◌, map, Str, bytes, if◌then◌else◌, All,
  is_empty, lookup, str_eq,
}
use mathlib.Core.Path.{◌∙◌}
use mathlib.Core.List.{map-append}
use failmail.Configure.{Value, Kind, Field, Strconv, Settings}
use failmail.Configure.Args.{Flag, FlagSets, value_of, field_flags, file_flags, flag_text, Files}
use failmail.Configure.Binds.{shape, bound, each_value}
use failmail.Configure.Entries.{Entries, file_of, is_entry}
use failmail.Configure.Reads.{text_settings}
use failmail.Configure.Visits.{
  chosen, set_given, all_flags, flag_shape, named_shape, field_flags-shape,
}

-- `Parse` of package flag gives a flag the value that the arguments say, or leaves its default; what
-- the arguments say depends on the names and the types of the flags.
pub record IsLawful (F : FlagSets) : Type 0 where
  pub given : List (Str × Kind) → List Str → Str → Option Value
  pub sets :
      (gs : List Flag) (args : List Str)
      → (F.parse gs args).0 ≡ map (set_given (given (map flag_shape gs) args)) gs

-- The settings of a file.
abbrev opened_settings : Option (Option Str) → Settings
opened_settings none = []
opened_settings (some text) = text_settings text

abbrev pub file_settings : Files → Str → Settings
file_settings X path = if is_empty path then [] else opened_settings (X.open_file path)

abbrev pub flags_of : List Field → List Flag
flags_of fs = field_flags fs ++ file_flags

abbrev pub config_path : FlagSets → List Str → List Field → Str
config_path F args fs = flag_text (bytes "config") (F.parse (flags_of fs) args).0

-- What is known of the options once the file was read.
abbrev FromFile : Strconv → Settings → List Field → List Field → Type 0
FromFile C settings fs hs =
    (map shape hs ≡ map shape fs)
    × ((n : Str) → value_of n hs ≡ each_value (bound C (lookup n settings)) (value_of n fs))

-- What `ParseArgs` leaves in an option that was `v`, when the configuration file has this text for it.
abbrev pub option_after :
    (F : FlagSets) → IsLawful F → Strconv → Option Str → List Str → List Field → Str → Value → Value
option_after F law C text args fs n v =
    chosen (law.given (map named_shape (map shape fs) ++ map flag_shape file_flags) args n)
      (bound C text v)

-- The second flag set has the names and types of the options as they were before the file.
pub flags_of-shape :
    (hs : List Field)
    → all_flags (map shape hs) ≡ true
    → map flag_shape (flags_of hs) ≡ map named_shape (map shape hs) ++ map flag_shape file_flags
flags_of-shape hs all =
    map-append flag_shape (field_flags hs) file_flags
    ∙ ap (λ ss. ss ++ map flag_shape file_flags) (field_flags-shape hs all)

-- The configuration file has these lines, or none is given.
abbrev pub Says : Files → Str → Entries → Type 0
Says X [] es = es ≡ []
Says X (c ∷ path) es =
    (X.open_file (c ∷ path) ≡ some (some (file_of es))) × All (λ e. is_entry e ≡ true) es
