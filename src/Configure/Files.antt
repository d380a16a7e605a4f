-- ===== src/Configure/Files.antt =====
-- configure/configure.go: `ReadConfig` on a file of settings.
use failmail.Base.{◌≡◌, ap, ◌∙◌, true, false, Bool, some, List, Str, All, map, lookup, str_eq}
use failmail.Configure.{Strconv, Field}
use failmail.Configure.Args.{value_of}
use failmail.Configure.Binds.{shape, bound, each_value}
use failmail.Configure.Entries.{
  Entries, file_of, is_entry, last_text, lookup-last_text, run_config-file_of,
}
use failmail.Configure.Reads.{parsed_settings, text_settings}

-- The settings that are read are those that the lines say.
pub text_settings-file_of :
    (es : Entries) (n : Str)
    → All (λ e. is_entry e ≡ true) es
    → lookup n (text_settings (some (file_of es))) ≡ last_text n es
text_settings-file_of es n ok =
    let (t, cs, first, parses, walks) = run_config-file_of es ok in
    ap (λ o. lookup n (parsed_settings o)) parses ∙ ap (lookup n) walks ∙ lookup-last_text n es

-- What `ReadConfig` did to the options: no name and no type changes, and without an error each option
-- is what the last line with its name says, or what it was.
abbrev pub HasSettings : Strconv → Entries → List Field → List Field × Bool → Type 0
HasSettings c es fs (gs, error) =
    (map shape gs ≡ map shape fs)
    × ((n : Str)
        → error ≡ false
        → value_of n gs ≡ each_value (bound c (last_text n es)) (value_of n fs))
