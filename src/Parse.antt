-- ===== src/Parse.antt =====
-- parse/parse.go: nodes, the parser objects and their `Parse` methods.
--
-- A parser object is a value of `Parser`; a pointer to a parser that is completed later (a
-- recursive grammar) is `ref i`, an address of a `Heap`. `parse` runs on fuel: `none` means that the
-- fuel ran out, `some (rest, none)` is the pair `rest, nil` of the source. A nil map of children and
-- an empty one are read alike by `Get`, and are one value here.
pub mod Build
pub mod Regexps
pub mod Consume
pub mod Eats
pub mod Fuel
pub mod Labels
pub mod Total
pub mod Words
use failmail.Base.{
  ℕ, zero, suc, Bool, true, false, not, ◌&&◌, ◌||◌, Option, none, some, List, [], ◌∷◌, ◌++◌, ltb,
  is_none, if◌then◌else◌, Str, length, take, drop, eq_str, to_lower, has_prefix,
}
use failmail.Regex.{Re, longest_match}

mutual
  pub data Node : Type 0 where
    node : Str → Children → Next → Node

  -- `map[string]*Node`
  pub data Children : Type 0 where
    no_children : Children
    child : Str → Node → Children → Children

  -- The `Next` pointer.
  pub data Next : Type 0 where
    nil : Next
    next : Node → Next

abbrev pub text_of : Node → Str
text_of (node t cs n) = t

abbrev pub children_of : Node → Children
children_of (node t cs n) = cs

abbrev pub next_of : Node → Next
next_of (node t cs n) = n

abbrev pub set_next : Node → Next → Node
set_next (node t cs n) m = node t cs m

-- `Children[token]`
unfoldable pub find_child : Str → Children → Option Node
find_child k no_children = none
find_child k (child j n cs) = if eq_str j k then some n else find_child k cs

-- `Children[key] = value`
unfoldable pub put_child : Str → Node → Children → Children
put_child k v no_children = child k v no_children
put_child k v (child j n cs) = if eq_str j k then child j v cs else child j n (put_child k v cs)

-- `for key, value := range child.Children { node.Children[key] = value }`
unfoldable pub merge : Children → Children → Children
unfolding put_child
merge cs no_children = cs
merge cs (child k v ds) = merge (put_child k v cs) ds

abbrev pub get : Node → Str → Option Node
get n token = find_child token (children_of n)

mutual
  pub data Parser : Type 0 where
    any longest series : Parsers → Parser
    omit zero_or_more : Parser → Parser
    label : Str → Parser → Parser
    literal : Str → Bool → Parser
    regexp : Re → Parser
    ref : ℕ → Parser

  pub data Parsers : Type 0 where
    done : Parsers
    then_by : Parser → Parsers → Parsers

abbrev pub Heap : Type 0
Heap = ℕ → Parser

abbrev pub Answer : Type 0
Answer = Str × Option Node

abbrev pub Outcome : Type 0
Outcome = Option Answer

abbrev pub Run : Type 0
Run = Parser → Str → Outcome

abbrev pub and_then : Outcome → (Str → Option Node → Outcome) → Outcome
and_then none f = none
and_then (some (rest, n)) f = f rest n

abbrev pub leaf : Str → Node
leaf t = node t no_children nil

-- `parseAny.Parse`
unfoldable pub parse_any : Run → Parsers → Str → Outcome
parse_any run done s = some (s, none)
parse_any run (then_by p ps) s =
    and_then (run p s)
      λ rest n. elim n [ some found ↦ some (rest, some found) | none ↦ parse_any run ps s ]

-- The test of `parseLongest.Parse`.
abbrev pub is_longer : Str → Option Node → Str → Option Node → Bool
is_longer rest n longest_rest longest_node =
    is_none longest_node || (not (is_none n) && ltb (length rest) (length longest_rest))

-- The loop of `parseLongest.Parse`.
unfoldable pub parse_longest : Run → Parsers → Str → Str → Option Node → Outcome
parse_longest run done s longest_rest longest_node = some (longest_rest, longest_node)
parse_longest run (then_by p ps) s longest_rest longest_node = and_then (run p s) λ rest n.
    let better = is_longer rest n longest_rest longest_node in
    parse_longest run ps s (if better then rest else longest_rest)
      (if better then n else longest_node)

-- The loop of `parseSeries.Parse`, with the text and the children gathered so far.
unfoldable pub parse_series : Run → Parsers → Str → Str → Str → Children → Outcome
unfolding merge
parse_series run done s rest t cs = some (rest, some (node t cs nil))
parse_series run (then_by p ps) s rest t cs = and_then (run p rest) λ rest' n. elim n [
  | none ↦ some (s, none)
  | some c ↦ parse_series run ps s rest' (t ++ text_of c) (merge cs (children_of c))
]

-- The chain of `Next` pointers from a list of children; the last keeps its own pointer.
unfoldable pub link : List Node → Next
link [] = nil
link (c ∷ []) = next c
link (c ∷ d ∷ cs) = next (set_next c (link (d ∷ cs)))

-- The loop of `parseZeroOrMore.Parse`; `fuel` bounds its rounds.
unfoldable pub parse_many : Run → ℕ → Parser → Str → Str → Children → List Node → Outcome
unfolding merge link
parse_many run zero p rest t cs chain = none
parse_many run (suc fuel) p rest t cs chain = and_then (run p rest) λ rest' n. elim n [
  | none ↦ some (rest', some (node t cs (link chain)))
  | some c ↦
      parse_many run fuel p rest' (t ++ text_of c) (merge cs (children_of c)) (chain ++ c ∷ [])
]

-- `parseOmit.Parse` and `parseLabel.Parse`, after the inner parser.
unfoldable pub parse_omit : Outcome → Str → Outcome
parse_omit o s =
    and_then o λ rest n. elim n [ none ↦ some (s, none) | some c ↦ some (rest, some (leaf [])) ]

unfoldable pub parse_label : Str → Outcome → Str → Outcome
parse_label l o s = and_then o λ rest n. elim n [
  | none ↦ some (s, none)
  | some c ↦ some (rest, some (node (text_of c) (child l c no_children) nil))
]

-- `str[len:]` and `str[:len]`
abbrev pub cut : Str → ℕ → Outcome
cut s n = some (drop n s, some (leaf (take n s)))

-- `parseLiteral.Parse`
unfoldable pub parse_literal : Str → Bool → Str → Outcome
unfolding to_lower has_prefix
parse_literal lit case_sensitive s =
    let check = if case_sensitive then s else to_lower s in
    if not (has_prefix check lit) then some (s, none) else cut s (length lit)

-- `parseRegexp.Parse`
unfoldable pub parse_regexp : Re → Str → Outcome
unfolding longest_match
parse_regexp re s = elim (longest_match re s) [ none ↦ some (s, none) | some n ↦ cut s n ]

-- One call of a `Parse` method, with `run` for the calls that it makes.
unfoldable pub parse_step : Run → ℕ → Heap → Parser → Str → Outcome
unfolding parse_any parse_longest parse_series parse_many parse_omit parse_label parse_literal
    parse_regexp
parse_step run fuel heap (any ps) s = parse_any run ps s
parse_step run fuel heap (longest ps) s = parse_longest run ps s [] none
parse_step run fuel heap (series ps) s = parse_series run ps s s [] no_children
parse_step run fuel heap (omit p) s = parse_omit (run p s) s
parse_step run fuel heap (zero_or_more p) s = parse_many run fuel p s [] no_children []
parse_step run fuel heap (label l p) s = parse_label l (run p s) s
parse_step run fuel heap (literal lit case_sensitive) s = parse_literal lit case_sensitive s
parse_step run fuel heap (regexp re) s = parse_regexp re s
parse_step run fuel heap (ref i) s = run (heap i) s

unfoldable pub parse : ℕ → Heap → Parser → Str → Outcome
unfolding parse_step
parse zero heap p s = none
parse (suc fuel) heap p s = parse_step (parse fuel heap) fuel heap p s
