-- ===== src/Configure.antt =====
-- configure/configure.go: the grammar of the configuration file, and what `ReadConfig`, `Write` and
-- `ParseArgs` do with a struct of options.
--
-- A struct is the list of its fields. An `int`, a `float64` and a `time.Duration` are their 64 bits;
-- `Strconv` stands for the package that reads them and for `%v` of package fmt.
pub mod Args
pub mod Binds
pub mod Precedence
pub mod Entries
pub mod Lines
pub mod Written
pub mod Reads
pub mod Files
pub mod Visits
pub mod Sets
pub mod Typed
use failmail.Base.{
  ℕ, ◌+◌, ◌*◌, Bool, true, false, not, ◌&&◌, ◌||◌, Option, none, some, List, [], ◌∷◌, ◌++◌, ◌==◌,
  map, if◌then◌else◌, Str, bytes, length, is_empty, to_lower, trim_space, lookup, insert, str_eq,
}
use failmail.Regex.{Re, class, seq, star, one_of, within, plus}
use failmail.Parse.{
  Node, node, text_of, Children, Next, nil, next, find_child, Parser, Parsers, any, done, series,
  omit, zero_or_more, label, regexp, Heap, Outcome, parse,
}
use failmail.Parse.Build.{parsers, exactly}
use failmail.Session.Reply.{Writer, write_string}

abbrev pub char : ℕ → Re
char b = class (λ c. c == b)

-- `[^\n]*`, and `.*`
abbrev pub to_newline : Re
to_newline = star (class (λ c. not (c == 10)))

-- `[ \t]*`
abbrev pub blanks : Re
blanks = star (class (one_of (32 ∷ 9 ∷ [])))

abbrev pub is_word : ℕ → Bool
is_word c = within b'a' b'z' c || within b'A' b'Z' c || within b'0' b'9' c || c == b'_'

-- `[ \t]*#.*\n`
unfoldable pub comment : Parser
comment = omit (regexp (seq blanks (seq (char b'#') (seq to_newline (char 10)))))

-- `[ \t]*\n`
unfoldable pub blank : Parser
blank = omit (regexp (seq blanks (char 10)))

unfoldable pub continuation_line : Parser
unfolding parsers exactly bytes
continuation_line = series (
    parsers
      (exactly (bytes "> ") ∷ label (bytes "cont") (regexp to_newline) ∷ exactly (10 ∷ []) ∷ []))

unfoldable pub line : Parser
unfolding continuation_line parsers exactly bytes
line = series (
    parsers (
      label (bytes "key") (regexp (plus (class is_word)))
      ∷ regexp (seq blanks (seq (char b'=') blanks))
      ∷ label (bytes "value") (regexp to_newline)
      ∷ exactly (10 ∷ [])
      ∷ zero_or_more continuation_line
      ∷ []))

unfoldable pub config_parser : Parser
unfolding comment blank line parsers
config_parser = zero_or_more (any (parsers (comment ∷ blank ∷ line ∷ [])))

-- The grammar does not refer to itself.
abbrev pub no_refs : Heap
no_refs i = any done

abbrev pub config_fuel : Str → ℕ
config_fuel s = 20 + 3 * length s

-- `ReplaceAllString(field, "$1-$2")` for `([a-z])([A-Z])`
unfoldable pub hyphenate : Str → Str
hyphenate [] = []
hyphenate (c ∷ []) = c ∷ []
hyphenate (c ∷ d ∷ s) =
    let rest = hyphenate (d ∷ s) in
    if within b'a' b'z' c && within b'A' b'Z' d then c ∷ b'-' ∷ rest else c ∷ rest

-- `strings.Replace` of one byte by another
unfoldable pub replace_byte : ℕ → ℕ → Str → Str
replace_byte old new = map (λ c. if c == old then new else c)

unfoldable pub normalize_flag : Str → Str
unfolding hyphenate replace_byte to_lower
normalize_flag field = to_lower (hyphenate (replace_byte b'_' b'-' field))

abbrev pub Settings : Type 0
Settings = List (Str × Str)

abbrev pub put_setting : Settings → Str → Option Node → Settings
put_setting settings key none = settings
put_setting settings key (some value) =
    insert (normalize_flag key) (trim_space (text_of value)) settings

abbrev pub setting : Settings → Option Node → Option Node → Settings
setting settings none value = settings
setting settings (some key) value =
    if is_empty (text_of key) then settings else put_setting settings (text_of key) value

-- The loop of `walk`, from an item on.
unfoldable pub walk : Settings → Next → Settings
unfolding insert normalize_flag trim_space bytes find_child
walk settings nil = settings
walk settings (next (node t cs n)) =
    walk (setting settings (find_child (bytes "key") cs) (find_child (bytes "value") cs)) n

pub data Kind : Type 0 where
  string_kind bool_kind float_kind int_kind duration_kind other_kind : Kind

pub data Value : Type 0 where
  string_value : Str → Value
  bool_value : Bool → Value
  float_value int_value duration_value other_value : ℕ → Value

abbrev pub kind_of : Value → Kind
kind_of (string_value s) = string_kind
kind_of (bool_value b) = bool_kind
kind_of (float_value n) = float_kind
kind_of (int_value n) = int_kind
kind_of (duration_value n) = duration_kind
kind_of (other_value n) = other_kind

-- `field`: the name and the tag of its definition, and its value, which says its type.
pub record Field : Type 0 where
  pub name : Str
  pub help : Str
  pub value : Value

abbrev pub set_value : Field → Value → Field
set_value f v = record f { value = v }

abbrev pub flag_name : Field → Str
flag_name f = normalize_flag f.name

pub record Strconv : Type 0 where
  pub parse_bool : Str → Option Bool
  pub parse_float : Str → Option ℕ
  pub parse_int : Str → Option ℕ
  pub parse_duration : Str → Option ℕ
  pub print : Value → Str

abbrev made {ℓ} : {A : Type ℓ} → (A → Value) → Option A → Option Value
made f none = none
made f (some a) = some (f a)

-- `parseConfigValue`; `none` is an error.
unfoldable pub parse_config_value : Strconv → Kind → Str → Option Value
parse_config_value c string_kind s = some (string_value s)
parse_config_value c bool_kind s = made bool_value (c.parse_bool s)
parse_config_value c float_kind s = made float_value (c.parse_float s)
parse_config_value c int_kind s = made int_value (c.parse_int s)
parse_config_value c duration_kind s = made duration_value (c.parse_duration s)
parse_config_value c other_kind s = none

-- What `bind` finds for a field: no setting, or what its text is read as.
abbrev pub found : Strconv → Kind → Option Str → Option (Option Value)
found c k none = none
found c k (some s) = if is_empty s then none else some (parse_config_value c k s)

abbrev pub bind_field :
    Field → Option (Option Value) → List Field → List Field × Bool → List Field × Bool
bind_field f none fs (gs, error) = (f ∷ gs, error)
bind_field f (some none) fs rest = (f ∷ fs, true)
bind_field f (some (some v)) fs (gs, error) = (set_value f v ∷ gs, error)

-- `bind`: the fields after it, and whether it returned an error.
unfoldable pub bind : Strconv → Settings → List Field → List Field × Bool
unfolding parse_config_value lookup normalize_flag
bind c settings [] = ([], false)
bind c settings (f ∷ fs) =
    let rest = bind c settings fs in
    bind_field f (found c (kind_of f.value) (lookup (flag_name f) settings)) fs rest

-- The rest of `ReadConfig`, after the parser; a nil node is dereferenced, and recovered from.
abbrev pub bind_parsed : Strconv → List Field → Outcome → Option (List Field × Bool)
bind_parsed c fs none = none
bind_parsed c fs (some (rest, none)) = some (fs, true)
bind_parsed c fs (some (rest, some (node t cs n))) = some (bind c (walk [] n) fs)

abbrev pub run_config : Str → Outcome
run_config text = parse (config_fuel text) no_refs config_parser text

-- `ReadConfig`, on what `ReadAll` returns; the outer `none` is fuel that ran out.
unfoldable pub read_config : Strconv → Option Str → List Field → Option (List Field × Bool)
unfolding parse config_parser walk bind
read_config c none fs = some (fs, true)
read_config c (some text) fs = bind_parsed c fs (run_config text)

abbrev pub config_line : Strconv → Field → Str
config_line c f = replace_byte b'-' b'_' (flag_name f) ++ bytes " = " ++ c.print f.value ++ 10 ∷ []

-- `Write`: whether it failed, and the writer after it.
unfoldable pub write_config : Strconv → Writer → List Field → Bool × Writer
unfolding write_string normalize_flag replace_byte bytes
write_config c w [] = (false, w)
write_config c w (f ∷ fs) =
    let (failed, w') = write_string w (config_line c f) in
    let rest = write_config c w' fs in if failed then (true, w') else rest
