-- ===== src/Rewriter.antt =====
-- addresses.go: `AddressRewriter`.
--
-- `Regexp` stands for package regexp, `Sorting` for the order in which a Go map is visited and for
-- `sort.Strings`.
pub mod Ordered
use failmail.Base.{
  ℕ, Bool, true, false, not, Option, none, some, List, [], ◌∷◌, map, if◌then◌else◌, Str, insert,
  str_eq,
}
use failmail.Config.{AddressRewriter}

-- The methods `MatchString`, `FindAllStringSubmatchIndex` and `ExpandString` of an expression.
pub record Regexp : Type 1 where
  pub Match : Type 0
  pub matches : Str → Str → Bool
  pub find_all : Str → Str → List Match
  pub expand : Str → Str → Str → Str → Match → Str

abbrev pub Rewritten : Type 0
Rewritten = List (Str × Bool)

pub record Sorting : Type 0 where
  pub visit : Rewritten → Rewritten
  pub strings : List Str → List Str

module _ (R : Regexp) where
  -- The loop of `Rewrite`.
  unfoldable pub expand_all : Str → Str → Str → Str → List R.Match → Str
  expand_all res source dest address [] = res
  expand_all res source dest address (s ∷ ss) =
      expand_all (R.expand source res dest address s) source dest address ss

  unfoldable pub rewrite : AddressRewriter → Str → Str
  unfolding expand_all
  rewrite r address = elim r.source [
    | none ↦ address
    | some source ↦
        if not (R.matches source address)
        then address
        else expand_all [] source r.dest address (R.find_all source address)
  ]

  -- The first loop of `RewriteAll`.
  unfoldable pub rewrite_each : AddressRewriter → Rewritten → List Str → Rewritten
  unfolding insert rewrite
  rewrite_each r rewritten [] = rewritten
  rewrite_each r rewritten (addr ∷ addresses) =
      rewrite_each r (insert (rewrite r addr) true rewritten) addresses

  unfoldable pub rewrite_all : Sorting → AddressRewriter → List Str → List Str
  unfolding rewrite_each
  rewrite_all o r addresses = o.strings (map (λ e. e.0) (o.visit (rewrite_each r [] addresses)))
