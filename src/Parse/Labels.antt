-- ===== src/Parse/Labels.antt =====
-- Which labels the node of a successful `Parse` is sure to have among its children, and what holds
-- of the nodes under a label.
use failmail.Base.{
  ℕ, zero, suc, ◌≡◌, refl, Bool, true, false, ◌&&◌, ◌||◌, Option, none, some, [], ◌++◌, arith, Str,
  eq_str, eq_str_iff, if◌then◌else◌, Bool-cases, ◌⊎◌, inl, inr,
}
use mathlib.Core.Path.{subst}
use failmail.Parse.{
  Node, Children, no_children, child, children_of, text_of, find_child, put_child, merge, Parser,
  Parsers, done, then_by, any, longest, series, omit, zero_or_more, label, literal, regexp, ref,
  Heap, Answer, Outcome, Run, is_longer, parse_any, parse_longest, parse_series, parse_label,
  parse_step, parse,
}
use failmail.Parse.Consume.{Holds, and_then-Holds}

unfoldable pub has : Str → Children → Bool
has l no_children = false
has l (child k n cs) = eq_str k l || has l cs

pub has-find_child :
    (l : Str) (cs : Children) → has l cs ≡ true → (n : Node) × (find_child l cs ≡ some n)
unfolding has find_child
has-find_child l no_children h = cc
has-find_child l (child k n cs) h = elim (Bool-cases (eq_str k l)) [
  | inl e ↦ (n, rw e refl)
  | inr e ↦ let (m, found) = has-find_child l cs (ground arith) in (m, rw e found)
]

has-put_child :
    (l k : Str) (v : Node) (cs : Children) → has l (put_child k v cs) ≡ (eq_str k l || has l cs)
unfolding has put_child
has-put_child l k v no_children = refl
has-put_child l k v (child j n cs) = ground (arith, has-put_child l k v cs, eq_str_iff j k)

has-merge : (l : Str) (cs ds : Children) → has l (merge cs ds) ≡ (has l cs || has l ds)
unfolding has merge
has-merge l cs no_children = ground arith
has-merge l cs (child k v ds) =
    ground (arith, has-merge l (put_child k v cs) ds, has-put_child l k v cs)

-- Every successful `Parse` of such a parser gives a node with a child `l`.
abbrev mutual
  pub gives : Str → Parser → Bool
  gives l (any ps) = gives_each l ps
  gives l (longest ps) = gives_each l ps
  gives l (series ps) = gives_some l ps
  gives l (omit p) = false
  gives l (zero_or_more p) = false
  gives l (label k p) = eq_str k l
  gives l (literal lit b) = false
  gives l (regexp re) = false
  gives l (ref i) = false

  pub gives_each : Str → Parsers → Bool
  gives_each l done = true
  gives_each l (then_by p ps) = gives l p && gives_each l ps

  pub gives_some : Str → Parsers → Bool
  gives_some l done = false
  gives_some l (then_by p ps) = gives l p || gives_some l ps

abbrev pub Gives : Str → Answer → Type 0
Gives l (rest, none) = Unit
Gives l (rest, some n) = has l (children_of n) ≡ true

pub trivially : (o : Outcome) → Holds (λ _. Unit {0}) o
trivially none = tt
trivially (some a) = tt

choose-Gives :
    (l : Str) (b : Bool) (r t : Str) (n m : Option Node)
    → Gives l (r, n)
    → Gives l (t, m)
    → Gives l (if b then r else t, if b then n else m)
choose-Gives l true r t n m h k = h
choose-Gives l false r t n m h k = k

module _ (l : Str) (run : Run)
    (ok : (p : Parser) (s : Str) → gives l p ≡ true → Holds (Gives l) (run p s)) where
  any-Gives :
      (ps : Parsers) (s : Str) → gives_each l ps ≡ true → Holds (Gives l) (parse_any run ps s)
  unfolding parse_any
  any-Gives done s w = tt
  any-Gives (then_by p ps) s w =
      and_then-Holds _ _ (run p s) _ (ok p s (ground arith))
        λ rest. elim [ none ↦ λ h. any-Gives ps s (ground arith) | some n ↦ λ h. h ]

  longest-Gives :
      (ps : Parsers) (s t : Str) (m : Option Node)
      → gives_each l ps ≡ true
      → Gives l (t, m)
      → Holds (Gives l) (parse_longest run ps s t m)
  unfolding parse_longest
  longest-Gives done s t m w h = h
  longest-Gives (then_by p ps) s t m w h =
      and_then-Holds _ _ (run p s) _ (ok p s (ground arith)) λ rest n k.
        longest-Gives ps s _ _ (ground arith) (choose-Gives l (is_longer rest n t m) rest t n m k h)

  series-Gives :
      (ps : Parsers) (s rest t : Str) (cs : Children)
      → (has l cs ≡ true) ⊎ (gives_some l ps ≡ true)
      → Holds (Gives l) (parse_series run ps s rest t cs)
  unfolding parse_series
  series-Gives done s rest t cs w = ground arith
  series-Gives (then_by p ps) s rest t cs w = elim (Bool-cases (gives l p)) [
    | inl e ↦ and_then-Holds _ _ (run p rest) _ (ok p rest e) λ rest'. elim [
      | none ↦ λ k. tt
      | some n ↦ λ k.
          series-Gives ps s rest' (t ++ text_of n) (merge cs (children_of n))
            (inl (ground (arith, has-merge l cs (children_of n))))
    ]
    | inr e ↦ and_then-Holds _ _ (run p rest) _ (trivially (run p rest)) λ rest'. elim [
      | none ↦ λ k. tt
      | some n ↦ λ k.
          series-Gives ps s rest' (t ++ text_of n) (merge cs (children_of n))
            (ground (arith, has-merge l cs (children_of n)))
    ]
  ]

  label-Gives :
      (k : Str) (p : Parser) (s : Str)
      → gives l (label k p) ≡ true
      → Holds (Gives l) (parse_label k (run p s) s)
  unfolding parse_label has
  label-Gives k p s w =
      and_then-Holds _ _ (run p s) _ (trivially (run p s))
        λ rest. elim [ none ↦ λ h. tt | some n ↦ λ h. ground arith ]

  step-Gives :
      (f : ℕ) (heap : Heap) (p : Parser) (s : Str)
      → gives l p ≡ true
      → Holds (Gives l) (parse_step run f heap p s)
  unfolding parse_step
  step-Gives f heap (any ps) s w = any-Gives ps s w
  step-Gives f heap (longest ps) s w = longest-Gives ps s [] none w tt
  step-Gives f heap (series ps) s w = series-Gives ps s s [] _ (inr w)
  step-Gives f heap (label k p) s w = label-Gives k p s w
  step-Gives f heap (omit p) s w = cc
  step-Gives f heap (zero_or_more p) s w = cc
  step-Gives f heap (literal lit b) s w = cc
  step-Gives f heap (regexp re) s w = cc
  step-Gives f heap (ref i) s w = cc

pub parse-Gives :
    (l : Str) (f : ℕ) (heap : Heap) (p : Parser) (s : Str)
    → gives l p ≡ true
    → Holds (Gives l) (parse f heap p s)
unfolding parse
parse-Gives l zero heap p s w = tt
parse-Gives l (suc f) heap p s w = step-Gives l (parse f heap) (parse-Gives l f heap) f heap p s w

-- A parser that `gives` a label never succeeds without a child under it: `Children[label]` is not
-- nil in the node that it returns.
pub parse_finds :
    (l : Str) (f : ℕ) (heap : Heap) (p : Parser) (s : Str) {rest : Str} {n : Node}
    → gives l p ≡ true
    → parse f heap p s ≡ some (rest, some n)
    → (c : Node) × (find_child l (children_of n) ≡ some c)
parse_finds l f heap p s {n = n} w h =
    has-find_child l (children_of n) (subst (Holds (Gives l)) h (parse-Gives l f heap p s w))
