-- ===== src/Tests/Configures.antt =====
-- A configuration file and arguments, read by concrete libraries.
use failmail.Base.{
  to_lower, trim_space, All, ◌≡◌, refl, ap, ◌%◌, ◌==◌, true, false, Option, none, some, List, [],
  ◌∷◌, ◌++◌, map, Str, bytes, length, eq_str, if◌then◌else◌,
}
use failmail.Configure.{
  parse_config_value, Value, string_value, bool_value, float_value, int_value, duration_value,
  other_value, kind_of, Kind, Field, Strconv, read_config, write_config, normalize_flag,
  read_config, hyphenate, replace_byte,
}
use failmail.Session.Reply.{Writer}
use failmail.Configure.Args.{Flag, Parsed, FlagSets, Files, returned, parse_args}
use failmail.Configure.Sets.{has_once}
use failmail.Configure.Typed.{KeepsTypes, HasParsed, parse_args-HasParsed}
use failmail.Configure.Entries.{Entries, file_of}
use failmail.Configure.Written.{IsWritable, overlay, write_config-read_config}
use failmail.Configure.Visits.{set_given, flag_shape}
use failmail.Configure.Precedence.{IsLawful}

abbrev strconv : Strconv
strconv = record {
  parse_bool = λ s. some (eq_str s (bytes "true"));
  parse_float = λ s. some (length s);
  parse_int = λ s. if eq_str s (bytes "x") then none else some (length s);
  parse_duration = λ s. some (length s);
  print = elim [ string_value s ↦ s | _ ↦ bytes "?" ];
}

abbrev options : List Field
options =
    record { name = bytes "BindAddr"; help = []; value = string_value (bytes "localhost") }
    ∷ record { name = bytes "Poll"; help = []; value = duration_value 5 }
    ∷ []

abbrev lines : Entries
lines = (bytes "bind_addr", bytes "x") ∷ (bytes "poll", bytes "12") ∷ []

abbrev file_text : Str
file_text = file_of lines

-- Arguments in pairs of a flag and a text.
abbrev argument : List (Str × Kind) → List Str → Str → Option Value
argument ks [] n = none
argument ks (a ∷ []) n = none
argument ks (a ∷ b ∷ args) n =
    if eq_str a (b'-' ∷ n) then some (string_value b) else argument ks args n

abbrev flag_sets : FlagSets
flag_sets = record {
  accepts = λ gs. true;
  parse = λ gs args. (map (set_given (argument (map flag_shape gs) args)) gs, false);
}

abbrev flag_sets-IsLawful : IsLawful flag_sets
flag_sets-IsLawful = record { given = argument; sets = λ gs args. refl }

abbrev files : Files
files = record { open_file = λ path. some (some file_text); create_file = λ path. none }

abbrev arguments : List Str
arguments = bytes "-config" ∷ bytes "f" ∷ bytes "-bind-addr" ∷ bytes "y" ∷ []

abbrev options_after : List Field
options_after =
    record { name = bytes "BindAddr"; help = []; value = string_value (bytes "y") }
    ∷ record { name = bytes "Poll"; help = []; value = duration_value 2 }
    ∷ []

skips_comment :
    read_config strconv (some (bytes "# c" ++ 10 ∷ bytes "poll=12" ++ 10 ∷ [])) options
    ≡ read_config strconv (some (file_of ((bytes "poll", bytes "12") ∷ []))) options
unfolding read_config bytes eq_str
skips_comment = refl

abbrev written_options : List Field
written_options =
    record { name = bytes "BindAddr"; help = []; value = string_value (bytes "localhost") }
    ∷ record { name = bytes "Poll"; help = []; value = duration_value 1 }
    ∷ []

options-IsWritable : All (IsWritable strconv) written_options
unfolding normalize_flag hyphenate replace_byte to_lower bytes trim_space eq_str parse_config_value
options-IsWritable = (
  record {
    flag_bytes = refl;
    named = refl;
    one_line = refl;
    unpadded = refl;
    trimmed = refl;
    read_back = λ h. refl;
  },
  (
    record {
      flag_bytes = refl;
      named = refl;
      one_line = refl;
      unpadded = refl;
      trimmed = refl;
      read_back = λ h. refl;
    },
    tt,
  ),
)

write_config-read_config_example :
    (w : Writer) × (write_config strconv (record { written = []; failures = [] }) written_options
      ≡ (false, w))
    × (read_config strconv (some w.written) options
        ≡ some (overlay strconv written_options options, false))
unfolding normalize_flag hyphenate replace_byte to_lower bytes eq_str
write_config-read_config_example =
    write_config-read_config strconv written_options options options-IsWritable refl refl

-- Flags with different names, of which the texts are set; an odd number of arguments is an error.
abbrev text_argument : List Str → Str → Option Str
text_argument [] n = none
text_argument (a ∷ []) n = none
text_argument (a ∷ b ∷ args) n = if eq_str a (b'-' ∷ n) then some b else text_argument args n

abbrev with_text : Option Str → Value → Value
with_text (some s) (string_value t) = string_value s
with_text _ v = v

abbrev give : List Str → Flag → Flag
give args g = record g { value = with_text (text_argument args g.name) g.value }

with_text-kind_of : (o : Option Str) (v : Value) → kind_of (with_text o v) ≡ kind_of v
with_text-kind_of none v = refl
with_text-kind_of (some s) (string_value t) = refl
with_text-kind_of (some s) (bool_value b) = refl
with_text-kind_of (some s) (float_value n) = refl
with_text-kind_of (some s) (int_value n) = refl
with_text-kind_of (some s) (duration_value n) = refl
with_text-kind_of (some s) (other_value n) = refl

give-flag_shape :
    (args : List Str) (gs : List Flag) → map flag_shape (map (give args) gs) ≡ map flag_shape gs
give-flag_shape args [] = refl
give-flag_shape args (g ∷ gs) =
    rw (give-flag_shape args gs, with_text-kind_of (text_argument args g.name) g.value) refl

abbrev text_flag_sets : FlagSets
text_flag_sets = record {
  accepts = λ gs. has_once (map flag_shape gs);
  parse = λ gs args. (map (give args) gs, length args % 2 == 1);
}

abbrev text_flag_sets-KeepsTypes : KeepsTypes text_flag_sets
text_flag_sets-KeepsTypes = record {
  once = λ gs h. h;
  keeps = λ gs args. give-flag_shape args gs;
  accepts_alike = λ gs hs e. ap has_once e;
  fails_alike = λ gs hs args e. refl;
}

-- The file is read, and then the address is the argument's.
parse_args-HasParsed_example :
    (p : Parsed) × (parse_args text_flag_sets strconv files arguments options ≡ some p)
    × HasParsed text_flag_sets arguments options p
parse_args-HasParsed_example =
    parse_args-HasParsed text_flag_sets text_flag_sets-KeepsTypes strconv files arguments options
      refl

parses_text_args :
    parse_args text_flag_sets strconv files arguments options
    ≡ some (returned false false none options_after)
unfolding parse_args bytes eq_str
parses_text_args = refl
