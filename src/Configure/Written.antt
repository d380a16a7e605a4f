-- ===== src/Configure/Written.antt =====
-- configure/configure.go: `ReadConfig` on a configuration file that `Write` has written.
use failmail.Base.{
  ℕ, ◌≡◌, refl, ap, sym, ◌∙◌, Bool, true, false, not, ◌&&◌, ◌||◌, some, List, [], ◌∷◌, ◌++◌, ◌==◌,
  arith, if◌then◌else◌, Str, lacks, is_empty, trim_space, to_lower, lookup, lookup-insert, str_eq,
  eq_str, eq_str_iff, append_assoc, append-nil, All, map, Bool-cases, inl, inr,
}
use failmail.Regex.{one_of, within}
use failmail.Session.Reply.{Writer, write_string}
use failmail.Configure.{
  Settings, kind_of, Field, set_value, flag_name, Strconv, parse_config_value, found, bind_field,
  bind, bind_parsed, read_config, config_line, write_config, normalize_flag, hyphenate,
  replace_byte, is_word,
}
use failmail.Configure.Binds.{shape}
use failmail.Regex.Runs.{all_in, stops}
use failmail.Configure.Entries.{file_of, is_entry, settings_from, run_config-file_of}

-- A byte of the name of a flag: a small letter, a digit or a dash.
abbrev pub is_flag_byte : ℕ → Bool
is_flag_byte c = within b'a' b'z' c || within b'0' b'9' c || c == b'-'

abbrev key_of : Str → Str
key_of = replace_byte b'-' b'_'

key_of-words : (s : Str) → all_in is_flag_byte s ≡ true → all_in is_word (key_of s) ≡ true
unfolding replace_byte
key_of-words [] h = refl
key_of-words (c ∷ s) h = ground (arith, key_of-words s)

replace_byte-key_of :
    (s : Str) → all_in is_flag_byte s ≡ true → replace_byte b'_' b'-' (key_of s) ≡ s
unfolding replace_byte
replace_byte-key_of [] h = refl
replace_byte-key_of (c ∷ s) h = ground (arith, replace_byte-key_of s)

hyphenate-flag : (s : Str) → all_in is_flag_byte s ≡ true → hyphenate s ≡ s
unfolding hyphenate
hyphenate-flag [] h = refl
hyphenate-flag (c ∷ []) h = refl
hyphenate-flag (c ∷ d ∷ s) h = let ih = hyphenate-flag (d ∷ s) (ground arith) in ground arith

to_lower-flag : (s : Str) → all_in is_flag_byte s ≡ true → to_lower s ≡ s
unfolding to_lower
to_lower-flag [] h = refl
to_lower-flag (c ∷ s) h = let ih = to_lower-flag s (ground arith) in ground arith

-- The name in the file stands for the flag.
normalize_flag-key_of : (s : Str) → all_in is_flag_byte s ≡ true → normalize_flag (key_of s) ≡ s
unfolding normalize_flag
normalize_flag-key_of s h =
    ap (λ t. to_lower (hyphenate t)) (replace_byte-key_of s h)
    ∙ ap to_lower (hyphenate-flag s h)
    ∙ to_lower-flag s h

module _ (c : Strconv) where
  -- An option that can be written: what it prints is on one line, without blanks around it, and is read
  -- as the same value, where it is not empty.
  pub record IsWritable (f : Field) : Type 0 where
    pub flag_bytes : all_in is_flag_byte (flag_name f) ≡ true
    pub named : is_empty (flag_name f) ≡ false
    pub one_line : lacks 10 (c.print f.value) ≡ true
    pub unpadded : stops (one_of (32 ∷ 9 ∷ [])) (c.print f.value) ≡ true
    pub trimmed : trim_space (c.print f.value) ≡ c.print f.value
    pub read_back :
        is_empty (c.print f.value) ≡ false
        → parse_config_value c (kind_of f.value) (c.print f.value) ≡ some f.value

  abbrev entry_of : Field → Str × Str
  entry_of f = (key_of (flag_name f), c.print f.value)

  entry_of-ok : (f : Field) → IsWritable f → is_entry (entry_of f) ≡ true
  unfolding replace_byte
  entry_of-ok f ok = go (flag_name f) ok.flag_bytes ok.named
    where
      go :
          (s : Str)
          → all_in is_flag_byte s ≡ true
          → is_empty s ≡ false
          → is_entry (key_of s, c.print f.value) ≡ true
      go [] h k = cc
      go (b ∷ s) h k =
          let words : all_in is_word (key_of (b ∷ s)) ≡ true = key_of-words (b ∷ s) h in
          ground (arith, words, ok.one_line, ok.unpadded)

  entries-ok :
      (fs : List Field) → All IsWritable fs → All (λ e. is_entry e ≡ true) (map entry_of fs)
  entries-ok [] ok = tt
  entries-ok (f ∷ fs) (h, ok) = (entry_of-ok f h, entries-ok fs ok)

  write_config-file_of :
      (t : Str) (fs : List Field)
      → write_config c (record { written = t; failures = [] }) fs
        ≡ (false, record { written = t ++ file_of (map entry_of fs); failures = [] })
  unfolding write_config write_string
  write_config-file_of t [] =
      ap (λ x. (false, record { written = x; failures = [] })) (sym (append-nil t))
  write_config-file_of t (f ∷ fs) =
      write_config-file_of (t ++ config_line c f) fs
      ∙ ap (λ x. (false, record { written = x; failures = [] })) (simp append_assoc)

  -- The names of the flags are different.
  abbrev lacks_flag : Str → List Field → Bool
  lacks_flag n [] = true
  lacks_flag n (f ∷ fs) = not (eq_str (flag_name f) n) && lacks_flag n fs

  abbrev pub distinct_flags : List Field → Bool
  distinct_flags [] = true
  distinct_flags (f ∷ fs) = lacks_flag (flag_name f) fs && distinct_flags fs

  lookup-settings_from :
      (fs : List Field) (n : Str) (settings : Settings)
      → All IsWritable fs
      → lacks_flag n fs ≡ true
      → lookup n (settings_from settings (map entry_of fs)) ≡ lookup n settings
  lookup-settings_from [] n settings ok h = refl
  lookup-settings_from (f ∷ fs) n settings (w, ok) h =
      let other : eq_str (flag_name f) n ≡ false = ground arith in
      lookup-settings_from fs n _ ok (ground arith)
      ∙ rw (normalize_flag-key_of (flag_name f) w.flag_bytes, lookup-insert, other) refl

  settings_from-has :
      (fs : List Field) (settings : Settings)
      → All IsWritable fs
      → distinct_flags fs ≡ true
      → All
          (λ f.
            lookup (flag_name f) (settings_from settings (map entry_of fs))
            ≡ some (c.print f.value))
          fs
  settings_from-has [] settings ok h = tt
  settings_from-has (f ∷ fs) settings (w, ok) h =
      let same : eq_str (flag_name f) (flag_name f) ≡ true =
        (eq_str_iff (flag_name f) (flag_name f)).1 refl in
      (
        lookup-settings_from fs (flag_name f) _ ok (ground arith)
            ∙ rw (normalize_flag-key_of (flag_name f) w.flag_bytes, lookup-insert, same, w.trimmed)
                refl,
        settings_from-has fs _ ok (ground arith),
      )

  -- What each option is after it was read back: what was written, but where that prints as nothing.
  abbrev pub overlay : List Field → List Field → List Field
  overlay (f ∷ fs) (g ∷ gs) =
      (if is_empty (c.print f.value) then g else set_value g f.value) ∷ overlay fs gs
  overlay _ gs = gs

  bind_field-read :
      (f g : Field) (fs gs hs : List Field)
      → IsWritable f
      → kind_of g.value ≡ kind_of f.value
      → bind_field g (found c (kind_of g.value) (some (c.print f.value))) gs (hs, false)
        ≡ ((if is_empty (c.print f.value) then g else set_value g f.value) ∷ hs, false)
  bind_field-read f g fs gs hs w same = elim (Bool-cases (is_empty (c.print f.value))) [
    | inl e ↦ rw e refl
    | inr e ↦ rw (e, same, w.read_back e) refl
  ]

  bind-overlay :
      (settings : Settings) (fs gs : List Field)
      → All IsWritable fs
      → All (λ f. lookup (flag_name f) settings ≡ some (c.print f.value)) fs
      → map shape gs ≡ map shape fs
      → bind c settings gs ≡ (overlay fs gs, false)
  unfolding bind
  bind-overlay settings [] [] ok has h = refl
  bind-overlay settings (f ∷ fs) [] ok has h = cc
  bind-overlay settings [] (g ∷ gs) ok has h = cc
  bind-overlay settings (f ∷ fs) (g ∷ gs) (w, ok) (there_is, has) h =
      let name : g.name ≡ f.name = cc in
      let kind : kind_of g.value ≡ kind_of f.value = cc in
      let rest : map shape gs ≡ map shape fs = cc in
      let setting : lookup (flag_name g) settings ≡ some (c.print f.value) =
        ap (λ n. lookup (normalize_flag n) settings) name ∙ there_is in
      ap (λ r. bind_field g (found c (kind_of g.value) (lookup (flag_name g) settings)) gs r)
        (bind-overlay settings fs gs ok has rest)
      ∙ ap (λ o. bind_field g (found c (kind_of g.value) o) gs (overlay fs gs, false)) setting
      ∙ bind_field-read f g fs gs (overlay fs gs) w kind

-- What `Write` writes of options with different flags, each of which prints on one line and is read as
-- what was printed, is read back by `ReadConfig`, without an error, into options of the same names and
-- types: each gets the value that was written, but for those that print as nothing, which stay.
pub write_config-read_config :
    (c : Strconv) (fs gs : List Field)
    → All (IsWritable c) fs
    → distinct_flags c fs ≡ true
    → map shape gs ≡ map shape fs
    → (w : Writer) × (write_config c (record { written = []; failures = [] }) fs ≡ (false, w))
      × (read_config c (some w.written) gs ≡ some (overlay c fs gs, false))
unfolding read_config
write_config-read_config c fs gs ok distinct same =
    let es = map (entry_of c) fs in
    let (t, cs, n, parses, walks) = run_config-file_of es (entries-ok c fs ok) in
    (
      record { written = file_of es; failures = [] },
      write_config-file_of c [] fs,
      ap (bind_parsed c gs) parses
          ∙ ap (λ s. some (bind c s gs)) walks
          ∙ ap some (
              bind-overlay c (settings_from [] es) fs gs ok (settings_from-has c fs [] ok distinct)
                same),
    )
