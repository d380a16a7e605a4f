-- ===== src/Configure/Entries.antt =====
-- What `ReadConfig` takes from the lines that `Write` has written.
use failmail.Base.{
  ℕ, zero, suc, Option, eq_str, lookup, lookup-insert, if◌then◌else◌, Bool-cases, inl, inr, ◌+◌,
  ◌*◌, ◌≤◌, ◌<◌, ◌≡◌, refl, ap, sym, ◌∙◌, Bool, true, false, ◌&&◌, none, some, List, [], ◌∷◌, ◌++◌,
  ◌==◌, arith, Str, bytes, length, length-append, lacks, trim_space, insert, str_eq, append_assoc,
  append-nil, All,
}
use failmail.Parse.{
  Node, node, leaf, nil, next, Next, text_of, children_of, next_of, find_child, Children,
  no_children, Outcome, Run, Parser, parse, parse_many, link, merge,
}
use failmail.Configure.{
  Settings, walk, normalize_flag, no_refs, config_parser, config_fuel, run_config, is_word,
}
use failmail.Regex.{one_of}
use failmail.Regex.Runs.{all_in, stops}
use failmail.Configure.Lines.{line_of, item, parse-item, parse-no_item}

-- The lines of a file, as pairs of a name and a text.
abbrev pub Entries : Type 0
Entries = List (Str × Str)

abbrev pub file_of : Entries → Str
file_of [] = []
file_of ((key, value) ∷ es) = line_of key value (file_of es)

-- A name of the grammar, and a text on one line that does not start with a blank.
abbrev pub is_entry : Str × Str → Bool
is_entry ([], value) = false
is_entry (k ∷ ks, value) =
    (is_word k && all_in is_word ks) && (lacks 10 value && stops (one_of (32 ∷ 9 ∷ [])) value)

abbrev pub settings_from : Settings → Entries → Settings
settings_from settings [] = settings
settings_from settings ((key, value) ∷ es) =
    settings_from (insert (normalize_flag key) (trim_space value) settings) es

-- A node of a line.
record IsLine (n : Node) (key value : Str) : Type 0 where
  last : next_of n ≡ nil
  key_found : find_child (bytes "key") (children_of n) ≡ some (leaf key)
  value_found : find_child (bytes "value") (children_of n) ≡ some (leaf value)

abbrev AreLines : List Node → Entries → Type 0
AreLines [] [] = Unit
AreLines [] (e ∷ es) = ⊥
AreLines (n ∷ ns) [] = ⊥
AreLines (n ∷ ns) ((key, value) ∷ es) = IsLine n key value × AreLines ns es

walk-setting :
    (settings : Settings) (cs : Children) (t : Str) (n : Next) (k : ℕ) (ks value : Str)
    → find_child (bytes "key") cs ≡ some (leaf (k ∷ ks))
    → find_child (bytes "value") cs ≡ some (leaf value)
    → walk settings (next (node t cs n))
      ≡ walk (insert (normalize_flag (k ∷ ks)) (trim_space value) settings) n
unfolding walk
walk-setting settings cs t n k ks value key found = rw (key, found) refl

-- `walk` goes through the lines in their order.
walk-link :
    (settings : Settings) (ns : List Node) (es : Entries)
    → All (λ e. is_entry e ≡ true) es
    → AreLines ns es
    → walk settings (link ns) ≡ settings_from settings es
unfolding link walk
walk-link settings [] [] ok lines = refl
walk-link settings [] (e ∷ es) ok lines = absurd lines
walk-link settings (n ∷ ns) [] ok lines = absurd lines
walk-link settings (node t cs n ∷ []) (([], value) ∷ []) ok lines = cc (ok.0)
walk-link settings (node t cs n ∷ []) ((k ∷ ks, value) ∷ []) ok (l, rest) =
    walk-setting settings cs t n k ks value l.key_found l.value_found
    ∙ ap (walk (insert (normalize_flag (k ∷ ks)) (trim_space value) settings)) l.last
walk-link settings (node t cs n ∷ []) ((key, value) ∷ e ∷ es) ok lines = absurd (lines.1)
walk-link settings (node t cs n ∷ m ∷ ns) (([], value) ∷ es) ok lines = cc (ok.0)
walk-link settings (node t cs n ∷ m ∷ ns) ((k ∷ ks, value) ∷ es) ok (l, rest) =
    walk-setting settings cs t (link (m ∷ ns)) k ks value l.key_found l.value_found
    ∙ walk-link (insert (normalize_flag (k ∷ ks)) (trim_space value) settings) (m ∷ ns) es ok.1 rest

many-step :
    (run : Run) (g : ℕ) (p : Parser) (s rest t : Str) (cs : Children) (chain : List Node) (c : Node)
    → run p s ≡ some (rest, some c)
    → parse_many run (suc g) p s t cs chain
      ≡ parse_many run g p rest (t ++ text_of c) (merge cs (children_of c)) (chain ++ c ∷ [])
unfolding parse_many
many-step run g p s rest t cs chain c h = rw h refl

many-end :
    (run : Run) (g : ℕ) (p : Parser) (s t : Str) (cs : Children) (chain : List Node)
    → run p s ≡ some (s, none)
    → parse_many run (suc g) p s t cs chain ≡ some (s, some (node t cs (link chain)))
unfolding parse_many
many-end run g p s t cs chain h = rw h refl

-- What the loop over the lines leaves: nodes for all of them.
record FileRead (o : Outcome) (chain : List Node) (es : Entries) : Type 0 where
  text : Str
  children : Children
  nodes : List Node
  lines : AreLines nodes es
  reads : o ≡ some ([], some (node text children (link (chain ++ nodes))))

stops-file :
    (es : Entries) → All (λ e. is_entry e ≡ true) es → stops (λ c. c == b'>') (file_of es) ≡ true
stops-file [] ok = refl
stops-file (([], value) ∷ es) ok = cc (ok.0)
stops-file ((k ∷ ks, value) ∷ es) ok = ground (arith, ok.0)

-- A line more in front.
add-line :
    (run : Run) (g : ℕ) (s t : Str) (cs : Children) (chain : List Node) (c : Node) (key value : Str)
    (es : Entries)
    → run item s ≡ some (file_of es, some c)
    → IsLine c key value
    → FileRead
        (parse_many run g item
          (file_of es)
          (t ++ text_of c)
          (merge cs (children_of c))
          (chain ++ c ∷ []))
        (chain ++ c ∷ [])
        es
    → FileRead (parse_many run (suc g) item s t cs chain) chain ((key, value) ∷ es)
add-line run g s t cs chain c key value es read line rest = record {
  text = rest.text;
  children = rest.children;
  nodes = c ∷ rest.nodes;
  lines = (line, rest.lines);
  reads =
      many-step run g item s (file_of es) t cs chain c read
      ∙ rest.reads
      ∙ ap (λ l. some ([], some (node rest.text rest.children (link l))))
          (append_assoc chain (c ∷ []) rest.nodes);
}

many-entries :
    (n g : ℕ) (es : Entries) (t : Str) (cs : Children) (chain : List Node)
    → All (λ e. is_entry e ≡ true) es
    → length es < g
    → FileRead
        (parse_many
          (parse (suc (suc (suc (suc (suc (suc n)))))) no_refs)
          g
          item
          (file_of es)
          t
          cs
          chain)
        chain
        es
many-entries n zero es t cs chain ok less = absurd (omega (arith, less))
many-entries n (suc g) [] t cs chain ok less = record {
  text = t;
  children = cs;
  nodes = [];
  lines = tt;
  reads =
      many-end (parse (suc (suc (suc (suc (suc (suc n)))))) no_refs) g item [] t cs chain
        (parse-no_item n)
      ∙ ap (λ l. some ([], some (node t cs (link l)))) (sym (append-nil chain));
}
many-entries n (suc g) (([], value) ∷ es) t cs chain ok less = cc (ok.0)
many-entries n (suc g) ((k ∷ ks, value) ∷ es) t cs chain ok less =
    let line =
      parse-item n k ks value (file_of es) (ground (arith, ok.0)) (ground (arith, ok.0))
        (ground (arith, ok.0)) (ground (arith, ok.0)) (stops-file es ok.1) in
    let c = line.found in
    add-line (parse (suc (suc (suc (suc (suc (suc n)))))) no_refs) g
      (line_of (k ∷ ks) value (file_of es)) t cs chain c (k ∷ ks) value es line.reads
      (record { last = line.last; key_found = line.key_found; value_found = line.value_found })
      (many-entries n g es (t ++ text_of c) (merge cs (children_of c)) (chain ++ c ∷ []) ok.1
        (omega (arith, less)))

length-file_of : (es : Entries) → All (λ e. is_entry e ≡ true) es → length es ≤ length (file_of es)
unfolding bytes
length-file_of [] ok = omega arith
length-file_of (([], value) ∷ es) ok = cc (ok.0)
length-file_of ((k ∷ ks, value) ∷ es) ok =
    let ih = length-file_of es ok.1 in
    omega (
      arith,
      ih,
      length-append ks (bytes " = " ++ (value ++ 10 ∷ file_of es)),
      length-append value (10 ∷ file_of es),
    )

-- The parser reads the whole file, and `walk` puts its lines into the settings, in their order.
pub run_config-file_of :
    (es : Entries)
    → All (λ e. is_entry e ≡ true) es
    → (t : Str) × (cs : Children) × (n : Next) × (run_config (file_of es)
        ≡ some ([], some (node t cs n)))
      × (walk [] n ≡ settings_from [] es)
unfolding parse config_parser
run_config-file_of es ok =
    let len = length (file_of es) in
    let fuel : config_fuel (file_of es) ≡ suc (suc (suc (suc (suc (suc (suc (13 + 3 * len))))))) =
      omega arith in
    let r =
      many-entries (13 + 3 * len) (suc (suc (suc (suc (suc (suc (13 + 3 * len))))))) es []
        no_children [] ok (omega (arith, length-file_of es ok)) in
    (
      r.text,
      r.children,
      link r.nodes,
      ap (λ f. parse f no_refs config_parser (file_of es)) fuel ∙ r.reads,
      walk-link [] r.nodes es ok r.lines,
    )

-- What a file of such lines says of a setting: the text of the last line with its name.
abbrev pub last_text : Str → Entries → Option Str
last_text n [] = none
last_text n ((key, value) ∷ es) = elim (last_text n es) [
  | some text ↦ some text
  | none ↦ if eq_str (normalize_flag key) n then some (trim_space value) else none
]

abbrev or_before : Option Str → Option Str → Option Str
or_before (some text) before = some text
or_before none before = before

lookup-settings_from :
    (n : Str) (settings : Settings) (es : Entries)
    → lookup n (settings_from settings es) ≡ or_before (last_text n es) (lookup n settings)
lookup-settings_from n settings [] = refl
lookup-settings_from n settings ((key, value) ∷ es) =
    lookup-settings_from n (insert (normalize_flag key) (trim_space value) settings) es
    ∙ go (last_text n es)
  where
    go :
        (o : Option Str)
        → or_before o (lookup n (insert (normalize_flag key) (trim_space value) settings))
          ≡ or_before
              (elim o as (λ _. Option Str) [
                | some text ↦ some text
                | none ↦ if eq_str (normalize_flag key) n then some (trim_space value) else none
              ])
              (lookup n settings)
    go (some text) = refl
    go none = elim (Bool-cases (eq_str (normalize_flag key) n)) [
      | inl y ↦ rw (lookup-insert, y) refl
      | inr m ↦ rw (lookup-insert, m) refl
    ]

or_before-none : (o : Option Str) → or_before o none ≡ o
or_before-none none = refl
or_before-none (some text) = refl

pub lookup-last_text : (n : Str) (es : Entries) → lookup n (settings_from [] es) ≡ last_text n es
unfolding lookup
lookup-last_text n es = lookup-settings_from n [] es ∙ or_before-none (last_text n es)
