-- ===== src/Parse/Total.antt =====
-- The fuel of `parse`: the depth of the parser and a multiple of the length of the text.
use Prim.Native.Nat.{max}
use failmail.Base.{
  ℕ, zero, suc, List, ◌+◌, ◌*◌, ◌≤◌, ◌<◌, ◌≡◌, refl, Bool, true, false, ◌&&◌, Option, none, some,
  [], ◌∷◌, ◌++◌, arith, Str, Bool-cases, Option-cases, inl, inr, length, has_prefix, to_lower,
  if◌then◌else◌,
}
use mathlib.Core.Path.{subst}
use failmail.Regex.{Re, longest_match}
use failmail.Parse.{
  Node, Children, no_children, parse_many, children_of, text_of, merge, Parser, Parsers, done,
  then_by, any, longest, series, omit, zero_or_more, label, literal, regexp, ref, Heap, Answer,
  Outcome, and_then, parse_any, parse_longest, parse_series, parse_label, parse_literal,
  parse_regexp, parse_omit, parse_step, parse,
}
use failmail.Parse.Consume.{fits, fits_all, Holds, Splits, parse-Splits}
use failmail.Parse.Eats.{eats, Leaves, parse_le, parse-Leaves}

abbrev pub Answers : Outcome → Type 0
Answers none = ⊥
Answers (some a) = Unit

pub Answers-some : (o : Outcome) → Answers o → (a : Answer) × (o ≡ some a)
Answers-some none h = absurd h
Answers-some (some a) h = (a, refl)

pub and_then-Answers :
    (o : Outcome) (f : Str → Option Node → Outcome)
    → Answers o
    → ((rest : Str) (n : Option Node) → o ≡ some (rest, n) → Answers (f rest n))
    → Answers (and_then o f)
and_then-Answers none f h next = h
and_then-Answers (some (rest, n)) f h next = next rest n refl

pub literal-Answers : (lit : Str) (b : Bool) (s : Str) → Answers (parse_literal lit b s)
unfolding parse_literal
literal-Answers lit b s = elim (Bool-cases (has_prefix (if b then s else to_lower s) lit)) [
  | inl e ↦ rw e tt
  | inr e ↦ rw e tt
]

pub regexp-Answers : (re : Re) (s : Str) → Answers (parse_regexp re s)
unfolding parse_regexp
regexp-Answers re s = elim (Option-cases (longest_match re s)) [
  | inl e ↦ rw (e, parse_regexp) tt
  | inr (n, e) ↦ rw (e, parse_regexp) tt
]

-- What a `ZeroOrMore` repeats takes at least a byte.
abbrev mutual
  pub bounded : Parser → Bool
  bounded (any ps) = bounded_all ps
  bounded (longest ps) = bounded_all ps
  bounded (series ps) = bounded_all ps
  bounded (omit p) = bounded p
  bounded (zero_or_more p) = bounded p && eats p
  bounded (label l p) = bounded p
  bounded (literal lit b) = true
  bounded (regexp re) = true
  bounded (ref i) = true

  pub bounded_all : Parsers → Bool
  bounded_all done = true
  bounded_all (then_by p ps) = bounded p && bounded_all ps

-- How deep calls of `Parse` nest, when `d` says how deep they do at an address.
abbrev mutual
  pub depth : ℕ → Parser → ℕ
  depth d (any ps) = suc (depth_all d ps)
  depth d (longest ps) = suc (depth_all d ps)
  depth d (series ps) = suc (depth_all d ps)
  depth d (omit p) = suc (depth d p)
  depth d (zero_or_more p) = suc (depth d p)
  depth d (label l p) = suc (depth d p)
  depth d (literal lit b) = 1
  depth d (regexp re) = 1
  depth d (ref i) = d

  pub depth_all : ℕ → Parsers → ℕ
  depth_all d done = 0
  depth_all d (then_by p ps) = max (depth d p) (depth_all d ps)

-- A parser that takes a byte is no address.
depth_pos : (d : ℕ) (p : Parser) → eats p ≡ true → 0 < depth d p
depth_pos d (any ps) e = omega arith
depth_pos d (longest ps) e = omega arith
depth_pos d (series ps) e = omega arith
depth_pos d (omit p) e = omega arith
depth_pos d (zero_or_more p) e = omega arith
depth_pos d (label l p) e = omega arith
depth_pos d (literal lit b) e = omega arith
depth_pos d (regexp re) e = omega arith
depth_pos d (ref i) e = cc

abbrev pub Total : Heap → ℕ → Parser → Type 0
Total heap k p = (f : ℕ) (s : Str) → k + 3 * length s ≤ f → Answers (parse f heap p s)

module _ (heap : Heap) (well : (i : ℕ) → fits false (heap i) ≡ true) where
  abbrev Enough : ℕ → ℕ → Type 0
  Enough d f =
      (p : Parser) (s : Str)
      → fits false p ≡ true
      → bounded p ≡ true
      → depth d p + 3 * length s ≤ f
      → Answers (parse f heap p s)

  module _ (d f : ℕ) (run : Enough d f) where
    any-Answers :
        (ps : Parsers) (s : Str)
        → fits_all false ps ≡ true
        → bounded_all ps ≡ true
        → depth_all d ps + 3 * length s ≤ f
        → Answers (parse_any (parse f heap) ps s)
    unfolding parse_any
    any-Answers done s w b h = tt
    any-Answers (then_by p ps) s w b h =
        and_then-Answers (parse f heap p s) _ (run p s (ground arith) (ground arith) (omega arith))
          λ rest. elim [
            | none ↦ λ e. any-Answers ps s (ground arith) (ground arith) (omega arith)
            | some n ↦ λ e. tt
          ]

    longest-Answers :
        (ps : Parsers) (s t : Str) (m : Option Node)
        → fits_all false ps ≡ true
        → bounded_all ps ≡ true
        → depth_all d ps + 3 * length s ≤ f
        → Answers (parse_longest (parse f heap) ps s t m)
    unfolding parse_longest
    longest-Answers done s t m w b h = tt
    longest-Answers (then_by p ps) s t m w b h =
        and_then-Answers (parse f heap p s) _ (run p s (ground arith) (ground arith) (omega arith))
          λ rest n e. longest-Answers ps s _ _ (ground arith) (ground arith) (omega arith)

    series-Answers :
        (ps : Parsers) (s rest t : Str) (cs : Children)
        → fits_all false ps ≡ true
        → bounded_all ps ≡ true
        → depth_all d ps + 3 * length rest ≤ f
        → Answers (parse_series (parse f heap) ps s rest t cs)
    unfolding parse_series
    series-Answers done s rest t cs w b h = tt
    series-Answers (then_by p ps) s rest t cs w b h =
        let w' : fits false p ≡ true = ground arith in
        and_then-Answers (parse f heap p rest) _ (run p rest w' (ground arith) (omega arith))
          λ rest'. elim [
            | none ↦ λ e. tt
            | some n ↦ λ e.
                series-Answers ps s rest' (t ++ text_of n) (merge cs (children_of n)) (ground arith)
                  (ground arith) (omega (arith, parse_le heap well f p rest w' e))
          ]

    unary-Answers :
        (p : Parser) (s : Str) (g : Str → Option Node → Outcome)
        → fits false p ≡ true
        → bounded p ≡ true
        → depth d p + 3 * length s ≤ f
        → ((rest : Str) (n : Option Node) → Answers (g rest n))
        → Answers (and_then (parse f heap p s) g)
    unary-Answers p s g w b h k =
        and_then-Answers (parse f heap p s) g (run p s w b h) λ rest n e. k rest n

    many-Answers :
        (rounds : ℕ) (p : Parser) (s t : Str) (cs : Children) (chain : List Node)
        → fits false p ≡ true
        → bounded p ≡ true
        → eats p ≡ true
        → depth d p + 3 * length s ≤ f
        → length s < rounds
        → Answers (parse_many (parse f heap) rounds p s t cs chain)
    unfolding parse_many
    many-Answers zero p s t cs chain w b e h k = absurd (omega arith)
    many-Answers (suc rounds) p s t cs chain w b e h k =
        and_then-Answers (parse f heap p s) _ (run p s w b h) λ rest. elim [
          | none ↦ λ g. tt
          | some n ↦ λ g.
              let less =
                (subst (Holds (Leaves true (length s))) g (parse-Leaves heap well f p s w e)).1
                  refl in
              many-Answers rounds p rest (t ++ text_of n) (merge cs (children_of n))
                (chain ++ n ∷ []) w b e (omega (arith, less)) (omega (arith, less))
        ]

  module _ (d : ℕ) (refs : (i : ℕ) → Total heap d (ref i)) where
    pub parse-Answers : (f : ℕ) → Enough d f
    unfolding parse parse_step parse_omit parse_label
    parse-Answers f (ref i) s w b h = refs i f s h
    parse-Answers zero p s w b h = absurd (omega arith)
    parse-Answers (suc f) (any ps) s w b h =
        any-Answers d f (parse-Answers f) ps s w b (omega arith)
    parse-Answers (suc f) (longest ps) s w b h =
        longest-Answers d f (parse-Answers f) ps s [] none (ground arith) b (omega arith)
    parse-Answers (suc f) (series ps) s w b h =
        series-Answers d f (parse-Answers f) ps s s [] no_children w b (omega arith)
    parse-Answers (suc f) (omit p) s w b h =
        unary-Answers d f (parse-Answers f) p s _ w b (omega arith)
          λ rest. elim [ none ↦ tt | some n ↦ tt ]
    parse-Answers (suc f) (label l p) s w b h =
        unary-Answers d f (parse-Answers f) p s _ w b (omega arith)
          λ rest. elim [ none ↦ tt | some n ↦ tt ]
    parse-Answers (suc f) (zero_or_more p) s w b h =
        many-Answers d f (parse-Answers f) f p s [] no_children [] w (ground arith) (ground arith)
          (omega arith) (omega (arith, depth_pos d p (ground arith)))
    parse-Answers (suc f) (literal lit c) s w b h = literal-Answers lit c s
    parse-Answers (suc f) (regexp re) s w b h = regexp-Answers re s

-- `Parse` returns, with fuel for the depth of the parser and three calls for each byte, where every
-- `Longest` has an alternative, what is repeated takes at least a byte, and the parsers that are referred
-- to return. When it fails it gives the whole text back; when it succeeds it gives back what is left
-- behind a piece at the start, and where nothing is omitted the node's text is that piece.
pub parse_lem :
    (keep : Bool) (heap : Heap) (d f : ℕ) (p : Parser) (s : Str)
    → ((i : ℕ) → fits keep (heap i) ≡ true)
    → ((i : ℕ) → fits false (heap i) ≡ true)
    → ((i : ℕ) → Total heap d (ref i))
    → fits keep p ≡ true
    → fits false p ≡ true
    → bounded p ≡ true
    → depth d p + 3 * length s ≤ f
    → (a : Answer) × (parse f heap p s ≡ some a) × Splits keep s a
parse_lem keep heap d f p s all well refs fit fit' bound fuel =
    let (a, e) = Answers-some _ (parse-Answers heap well d refs f p s fit' bound fuel) in
    (a, e, parse-Splits keep f heap p s all fit e)
