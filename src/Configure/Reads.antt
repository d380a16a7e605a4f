-- ===== src/Configure/Reads.antt =====
-- configure/configure.go: `ReadConfig` on any file.
use failmail.Base.{
  ℕ, zero, suc, ◌≡◌, refl, Bool, true, false, Option, none, some, List, [], arith, Str, map, lookup,
  str_eq,
}
use failmail.Regex.{nullable}
use failmail.Parse.{Outcome, node, ref, parse, parse_any}
use failmail.Parse.Consume.{fits}
use failmail.Parse.Total.{Answers, Total, parse-Answers}
use failmail.Configure.Args.{value_of}
use failmail.Configure.Binds.{shape, bound, each_value, bind-shape, bind-value_of}
use failmail.Configure.{
  config_parser, no_refs, config_fuel, run_config, Strconv, Field, Settings, walk, bind,
  bind_parsed, read_config,
}

no_refs-well : (i : ℕ) → fits false (no_refs i) ≡ true
no_refs-well i = refl

no_refs-Total : (i : ℕ) → Total no_refs 2 (ref i)
unfolding parse parse_any
no_refs-Total i zero s h = absurd (omega arith)
no_refs-Total i (suc zero) s h = absurd (omega arith)
no_refs-Total i (suc (suc f)) s h = tt

config-Answers : (text : Str) → Answers (run_config text)
unfolding config_parser nullable
config-Answers text =
    parse-Answers no_refs no_refs-well 2 no_refs-Total (config_fuel text) config_parser text refl
      refl (omega arith)

-- The settings of a file, from what `ReadAll` returns.
abbrev pub parsed_settings : Outcome → Settings
parsed_settings (some (rest, some (node t cs n))) = walk [] n
parsed_settings _ = []

abbrev pub text_settings : Option Str → Settings
text_settings none = []
text_settings (some text) = parsed_settings (run_config text)

-- What `ReadConfig` did to the options: no name and no type changes, and without an error each option
-- is what its setting says, or what it was.
abbrev pub HasRead : Strconv → Settings → List Field → List Field × Bool → Type 0
HasRead c settings fs (gs, error) =
    (map shape gs ≡ map shape fs)
    × ((n : Str)
        → error ≡ false
        → value_of n gs ≡ each_value (bound c (lookup n settings)) (value_of n fs))

-- `ReadConfig` returns on every file, whatever its lines are. It keeps the name and the type of every
-- option; without an error each option is what its last setting says, read as its type, or what it
-- was where the file has no setting of its name or an empty one.
pub read_config_lem :
    (c : Strconv) (text : Option Str) (fs : List Field)
    → (r : List Field × Bool) × (read_config c text fs ≡ some r)
      × HasRead c (text_settings text) fs r
unfolding read_config
read_config_lem c none fs = ((fs, true), refl, (refl, λ n e. cc))
read_config_lem c (some text) fs = go (run_config text) (config-Answers text)
  where
    go :
        (o : Outcome)
        → Answers o
        → (r : List Field × Bool) × (bind_parsed c fs o ≡ some r)
          × HasRead c (parsed_settings o) fs r
    go none a = absurd a
    go (some (rest, none)) a = ((fs, true), refl, (refl, λ n e. cc))
    go (some (rest, some (node t cs n))) a =
        let values = bind-value_of c (walk [] n) fs in
        (bind c (walk [] n) fs, refl, (bind-shape c (walk [] n) fs, values))
