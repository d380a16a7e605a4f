-- ===== src/Parse/Fuel.antt =====
-- parse/parse.go: the answers of `parse` with more fuel.
use failmail.Base.{ℕ, zero, suc, ◌+◌, ◌≡◌, refl, Option, none, some, List, [], ◌∷◌, ◌++◌, Str}
use native.Mathlib.Nat.{zero-add, suc-add}
use failmail.Parse.{
  Node, Children, children_of, text_of, Parser, Parsers, done, then_by, any, longest, series, omit,
  zero_or_more, label, literal, regexp, ref, Heap, Answer, Outcome, Run, and_then, merge, parse_any,
  parse_longest, parse_series, parse_many, parse_step, parse,
}

-- Whatever `o` answers, `o'` answers too.
abbrev pub Keeps : Outcome → Outcome → Type 0
Keeps o o' = (r : Answer) → o ≡ some r → o' ≡ some r

abbrev pub RunKeeps : Run → Run → Type 0
RunKeeps run run' = (p : Parser) (s : Str) → Keeps (run p s) (run' p s)

and_then-Keeps :
    (o o' : Outcome) (f f' : Str → Option Node → Outcome)
    → Keeps o o'
    → ((rest : Str) (n : Option Node) → Keeps (f rest n) (f' rest n))
    → Keeps (and_then o f) (and_then o' f')
and_then-Keeps none o' f f' keep next r h = cc
and_then-Keeps (some (rest, n)) o' f f' keep next r h = rw (keep (rest, n) refl) (next rest n r h)

module _ {run run' : Run} (keep : RunKeeps run run') where
  parse_any-Keeps : (ps : Parsers) (s : Str) → Keeps (parse_any run ps s) (parse_any run' ps s)
  unfolding parse_any
  parse_any-Keeps done s = λ r h. h
  parse_any-Keeps (then_by p ps) s =
      and_then-Keeps _ _ _ _ (keep p s)
        λ rest. elim [ none ↦ parse_any-Keeps ps s | some found ↦ λ r h. h ]

  parse_longest-Keeps :
      (ps : Parsers) (s t : Str) (n : Option Node)
      → Keeps (parse_longest run ps s t n) (parse_longest run' ps s t n)
  unfolding parse_longest
  parse_longest-Keeps done s t n = λ r h. h
  parse_longest-Keeps (then_by p ps) s t n =
      and_then-Keeps _ _ _ _ (keep p s) λ rest m. parse_longest-Keeps ps s _ _

  parse_series-Keeps :
      (ps : Parsers) (s rest t : Str) (cs : Children)
      → Keeps (parse_series run ps s rest t cs) (parse_series run' ps s rest t cs)
  unfolding parse_series
  parse_series-Keeps done s rest t cs = λ r h. h
  parse_series-Keeps (then_by p ps) s rest t cs = and_then-Keeps _ _ _ _ (keep p rest) λ rest'.
      elim [
        | none ↦ λ r h. h
        | some c ↦ parse_series-Keeps ps s rest' (t ++ text_of c) (merge cs (children_of c))
      ]

  parse_many-Keeps :
      (f : ℕ) (p : Parser) (rest t : Str) (cs : Children) (chain : List Node)
      → Keeps (parse_many run f p rest t cs chain) (parse_many run' (suc f) p rest t cs chain)
  unfolding parse_many
  parse_many-Keeps zero p rest t cs chain = λ r h. cc
  parse_many-Keeps (suc f) p rest t cs chain = and_then-Keeps _ _ _ _ (keep p rest) λ rest'. elim [
    | none ↦ λ r h. h
    | some c ↦
        parse_many-Keeps f p rest' (t ++ text_of c) (merge cs (children_of c)) (chain ++ c ∷ [])
  ]

  parse_step-Keeps :
      (f : ℕ) (heap : Heap) (p : Parser) (s : Str)
      → Keeps (parse_step run f heap p s) (parse_step run' (suc f) heap p s)
  unfolding parse_step
  parse_step-Keeps f heap (any ps) s = parse_any-Keeps ps s
  parse_step-Keeps f heap (longest ps) s = parse_longest-Keeps ps s [] none
  parse_step-Keeps f heap (series ps) s = parse_series-Keeps ps s s [] _
  parse_step-Keeps f heap (omit p) s = and_then-Keeps _ _ _ _ (keep p s) λ rest n r h. h
  parse_step-Keeps f heap (zero_or_more p) s = parse_many-Keeps f p s [] _ []
  parse_step-Keeps f heap (label l p) s = and_then-Keeps _ _ _ _ (keep p s) λ rest n r h. h
  parse_step-Keeps f heap (literal lit b) s = λ r h. h
  parse_step-Keeps f heap (regexp re) s = λ r h. h
  parse_step-Keeps f heap (ref i) s = keep (heap i) s

pub parse-Keeps : (f : ℕ) (heap : Heap) → RunKeeps (parse f heap) (parse (suc f) heap)
unfolding parse
parse-Keeps zero heap p s = λ r h. cc
parse-Keeps (suc f) heap p s = parse_step-Keeps (parse-Keeps f heap) f heap p s

-- An answer that `parse` gives on some fuel is its answer on any more fuel.
pub parse_more_fuel :
    (k f : ℕ) (heap : Heap) (p : Parser) (s : Str) {r : Answer}
    → parse f heap p s ≡ some r
    → parse (k + f) heap p s ≡ some r
parse_more_fuel zero f heap p s h = rw zero-add h
parse_more_fuel (suc k) f heap p s {r} h =
    rw suc-add (parse-Keeps (k + f) heap p s r (parse_more_fuel k f heap p s h))
