-- ===== src/Parse/Words.antt =====
-- What holds of the nodes that stand under a label: the words that the grammar allows there.
use mathlib.Core.Path.{subst}
use failmail.Base.{
  ℕ, zero, suc, ◌≡◌, refl, Bool, true, false, not, ◌&&◌, ◌||◌, Option, none, some, List, [], ◌∷◌,
  ◌++◌, arith, Str, eq_str, eq_str_iff, if◌then◌else◌, Bool-cases, Option-cases, inl, inr, take,
  length, has_prefix, to_lower,
}
use failmail.Regex.{Re, longest_match}
use failmail.Parse.{
  Node, Children, no_children, child, children_of, text_of, find_child, put_child, merge, Parser,
  Parsers, done, then_by, any, longest, series, omit, zero_or_more, label, literal, regexp, ref,
  Heap, Answer, Run, is_longer, parse_any, parse_longest, parse_series, parse_many, parse_label,
  parse_literal, parse_regexp, parse_omit, parse_step, parse,
}
use failmail.Parse.Consume.{Holds, and_then-Holds}
use failmail.Parse.Labels.{trivially}

-- `test` spells a set of words, in lower case; the text under `l` is one of them.
module _ (l : Str) (test : Str → Bool) where
  abbrev pub IsWord : Node → Type 0
  IsWord n = test (to_lower (text_of n)) ≡ true

  -- Every child under `l` is a word.
  abbrev pub Every : Children → Type 0
  Every no_children = Unit
  Every (child k n cs) = (eq_str k l ≡ true → IsWord n) × Every cs

  pub Every-find_child : (cs : Children) {n : Node} → Every cs → find_child l cs ≡ some n → IsWord n
  unfolding find_child
  Every-find_child no_children h e = cc
  Every-find_child (child k m cs) h e = elim (Bool-cases (eq_str k l)) [
    | inl same ↦ ground (arith, h.0 same)
    | inr other ↦ Every-find_child cs h.1 (rw other at e)
  ]

  Every-put_child :
      (k : Str) (v : Node) (cs : Children)
      → (eq_str k l ≡ true → IsWord v)
      → Every cs
      → Every (put_child k v cs)
  unfolding put_child
  Every-put_child k v no_children h hs = (h, tt)
  Every-put_child k v (child j n cs) h hs = elim (Bool-cases (eq_str j k)) [
    | inl same ↦ rw same (λ e. h (ground (arith, eq_str_iff j k)), hs.1)
    | inr other ↦ rw other (hs.0, Every-put_child k v cs h hs.1)
  ]

  Every-merge : (cs ds : Children) → Every cs → Every ds → Every (merge cs ds)
  unfolding merge
  Every-merge cs no_children h k = h
  Every-merge cs (child j v ds) h k =
      Every-merge (put_child j v cs) ds (Every-put_child j v cs k.0 h) k.1

  abbrev pub spelled : Parser → Bool
  spelled (literal lit false) = test lit
  spelled _ = false

  -- Only words stand under `l` in the nodes of such a parser.
  abbrev mutual
    pub allows : Parser → Bool
    allows (any ps) = allows_each ps
    allows (longest ps) = allows_each ps
    allows (series ps) = allows_each ps
    allows (omit p) = true
    allows (zero_or_more p) = allows p
    allows (label k p) = not (eq_str k l) || spelled p
    allows (literal lit b) = true
    allows (regexp re) = true
    allows (ref i) = false

    pub allows_each : Parsers → Bool
    allows_each done = true
    allows_each (then_by p ps) = allows p && allows_each ps

  abbrev pub Allows : Answer → Type 0
  Allows (rest, none) = Unit
  Allows (rest, some n) = Every (children_of n)

  abbrev Spells : Answer → Type 0
  Spells (rest, none) = Unit
  Spells (rest, some n) = IsWord n

  -- A literal in lower case that starts the lower case of a text is the lower case of that start.
  lower_take :
      (lit s : Str) → has_prefix (to_lower s) lit ≡ true → to_lower (take (length lit) s) ≡ lit
  unfolding has_prefix to_lower
  lower_take [] s h = refl
  lower_take (b ∷ lit) [] h = cc
  lower_take (b ∷ lit) (c ∷ s) h = ground (arith, lower_take lit s)

  parse-Spells :
      (f : ℕ) (heap : Heap) (p : Parser) (s : Str)
      → spelled p ≡ true
      → Holds Spells (parse f heap p s)
  unfolding parse parse_literal
  parse-Spells zero heap p s w = tt
  parse-Spells (suc f) heap (literal lit false) s w =
      elim (Bool-cases (has_prefix (to_lower s) lit)) [
        | inl e ↦ rw e (rw (lower_take lit s e) w)
        | inr e ↦ rw e tt
      ]
  parse-Spells (suc f) heap _ s w = cc

  literal-Allows : (lit : Str) (b : Bool) (s : Str) → Holds Allows (parse_literal lit b s)
  unfolding parse_literal
  literal-Allows lit b s = elim (Bool-cases (has_prefix (if b then s else to_lower s) lit)) [
    | inl e ↦ rw e tt
    | inr e ↦ rw e tt
  ]

  regexp-Allows : (re : Re) (s : Str) → Holds Allows (parse_regexp re s)
  unfolding parse_regexp
  regexp-Allows re s = elim (Option-cases (longest_match re s)) [
    | inl e ↦ rw (e, parse_regexp) tt
    | inr (n, e) ↦ rw (e, parse_regexp) tt
  ]

  choose-Allows :
      (b : Bool) (r t : Str) (n m : Option Node)
      → Allows (r, n)
      → Allows (t, m)
      → Allows (if b then r else t, if b then n else m)
  choose-Allows true r t n m h k = h
  choose-Allows false r t n m h k = k

  module _ (run : Run) (ok : (p : Parser) (s : Str) → allows p ≡ true → Holds Allows (run p s))
      (spell : (p : Parser) (s : Str) → spelled p ≡ true → Holds Spells (run p s)) where
    any-Allows :
        (ps : Parsers) (s : Str) → allows_each ps ≡ true → Holds Allows (parse_any run ps s)
    unfolding parse_any
    any-Allows done s w = tt
    any-Allows (then_by p ps) s w =
        and_then-Holds _ _ (run p s) _ (ok p s (ground arith))
          λ rest. elim [ none ↦ λ h. any-Allows ps s (ground arith) | some n ↦ λ h. h ]

    longest-Allows :
        (ps : Parsers) (s t : Str) (m : Option Node)
        → allows_each ps ≡ true
        → Allows (t, m)
        → Holds Allows (parse_longest run ps s t m)
    unfolding parse_longest
    longest-Allows done s t m w h = h
    longest-Allows (then_by p ps) s t m w h =
        and_then-Holds _ _ (run p s) _ (ok p s (ground arith)) λ rest n k.
          longest-Allows ps s _ _ (ground arith)
            (choose-Allows (is_longer rest n t m) rest t n m k h)

    series-Allows :
        (ps : Parsers) (s rest t : Str) (cs : Children)
        → allows_each ps ≡ true
        → Every cs
        → Holds Allows (parse_series run ps s rest t cs)
    unfolding parse_series
    series-Allows done s rest t cs w h = h
    series-Allows (then_by p ps) s rest t cs w h =
        and_then-Holds _ _ (run p rest) _ (ok p rest (ground arith)) λ rest'. elim [
          | none ↦ λ k. tt
          | some n ↦ λ k.
              series-Allows ps s rest' (t ++ text_of n) (merge cs (children_of n)) (ground arith)
                (Every-merge cs (children_of n) h k)
        ]

    many-Allows :
        (f : ℕ) (p : Parser) (rest t : Str) (cs : Children) (chain : List Node)
        → allows p ≡ true
        → Every cs
        → Holds Allows (parse_many run f p rest t cs chain)
    unfolding parse_many
    many-Allows zero p rest t cs chain w h = tt
    many-Allows (suc f) p rest t cs chain w h =
        and_then-Holds _ _ (run p rest) _ (ok p rest w) λ rest'. elim [
          | none ↦ λ k. h
          | some n ↦ λ k.
              many-Allows f p rest' (t ++ text_of n) (merge cs (children_of n)) (chain ++ n ∷ []) w
                (Every-merge cs (children_of n) h k)
        ]

    label-Allows :
        (k : Str) (p : Parser) (s : Str)
        → allows (label k p) ≡ true
        → Holds Allows (parse_label k (run p s) s)
    unfolding parse_label
    label-Allows k p s w = elim (Bool-cases (eq_str k l)) [
      | inl e ↦
          and_then-Holds _ _ (run p s) _ (spell p s (ground arith))
            λ rest. elim [ none ↦ λ h. tt | some n ↦ λ h. (λ _. h, tt) ]
      | inr e ↦
          and_then-Holds _ _ (run p s) _ (trivially (run p s))
            λ rest. elim [ none ↦ λ h. tt | some n ↦ λ h. (λ e'. cc, tt) ]
    ]

    step-Allows :
        (f : ℕ) (heap : Heap) (p : Parser) (s : Str)
        → allows p ≡ true
        → Holds Allows (parse_step run f heap p s)
    unfolding parse_step parse_literal parse_regexp parse_omit
    step-Allows f heap (any ps) s w = any-Allows ps s w
    step-Allows f heap (longest ps) s w = longest-Allows ps s [] none w tt
    step-Allows f heap (series ps) s w = series-Allows ps s s [] no_children w tt
    step-Allows f heap (label k p) s w = label-Allows k p s w
    step-Allows f heap (omit p) s w =
        and_then-Holds _ _ (run p s) _ (trivially (run p s))
          λ rest. elim [ none ↦ λ h. tt | some n ↦ λ h. tt ]
    step-Allows f heap (zero_or_more p) s w = many-Allows f p s [] no_children [] w tt
    step-Allows f heap (literal lit b) s w = literal-Allows lit b s
    step-Allows f heap (regexp re) s w = regexp-Allows re s
    step-Allows f heap (ref i) s w = cc

  parse-Allows :
      (f : ℕ) (heap : Heap) (p : Parser) (s : Str)
      → allows p ≡ true
      → Holds Allows (parse f heap p s)
  unfolding parse
  parse-Allows zero heap p s w = tt
  parse-Allows (suc f) heap p s w =
      step-Allows (parse f heap) (parse-Allows f heap) (parse-Spells f heap) f heap p s w

  -- The child that a successful `Parse` has under `l` is spelled like one of the words, but for the
  -- case of its letters.
  pub parse_spells :
      (f : ℕ) (heap : Heap) (p : Parser) (s : Str) {rest : Str} {n c : Node}
      → allows p ≡ true
      → parse f heap p s ≡ some (rest, some n)
      → find_child l (children_of n) ≡ some c
      → IsWord c
  parse_spells f heap p s {n = n} w h e =
      Every-find_child (children_of n) (subst (Holds Allows) h (parse-Allows f heap p s w)) e
