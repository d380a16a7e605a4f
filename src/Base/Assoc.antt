-- ===== src/Base/Assoc.antt =====
-- Go maps as association lists: at most one entry is read for each key.
use mathlib.Core.Path.{◌≡◌, refl}
use mathlib.Core.List.{List, [], ◌∷◌}
use mathlib.Core.Option.{Option, none, some}
use native.Mathlib.Omega.{arith}
use failmail.Base.Tests.{if◌then◌else◌, Eq}

module _ {ℓ κ} {K : Type ℓ} {V : Type κ} ⦃e : Eq K⦄ where
  -- `m[k]` with its presence
  unfoldable pub lookup : K → List (K × V) → Option V
  lookup k [] = none
  lookup k ((j, v) ∷ m) = if e.beq j k then some v else lookup k m

  -- `m[k] = v`
  unfoldable pub insert : K → V → List (K × V) → List (K × V)
  insert k v [] = (k, v) ∷ []
  insert k v ((j, w) ∷ m) = if e.beq j k then (j, v) ∷ m else (j, w) ∷ insert k v m

  -- `delete(m, k)`
  unfoldable pub remove : K → List (K × V) → List (K × V)
  remove k [] = []
  remove k ((j, w) ∷ m) = let rest = remove k m in if e.beq j k then rest else (j, w) ∷ rest

  pub lookup-insert :
      (k j : K) (v : V) (m : List (K × V))
      → lookup j (insert k v m) ≡ (if e.beq k j then some v else lookup j m)
  unfolding lookup insert
  lookup-insert k j v [] = refl
  lookup-insert k j v ((i, w) ∷ m) =
      ground (arith, e.beq_iff k j, e.beq_iff i k, e.beq_iff i j, lookup-insert k j v m)

  pub lookup-remove :
      (k j : K) (m : List (K × V))
      → lookup j (remove k m) ≡ (if e.beq k j then none else lookup j m)
  unfolding lookup remove
  lookup-remove k j [] = ground arith
  lookup-remove k j ((i, w) ∷ m) =
      ground (arith, lookup-remove k j m, e.beq_iff i k, e.beq_iff i j, e.beq_iff k j)

pub ruleset assoc_laws = (lookup-insert, lookup-remove)
