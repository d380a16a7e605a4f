-- ===== src/Store/TimeOrdered.antt =====
-- message_stores.go: the methods of `TimeOrdered` that package container/heap calls.
--
-- `none` is a panic: an index that is out of range.
use failmail.Base.{
  ℕ, zero, suc, ◌≡◌, ◌≢◌, ◌∙◌, sym, refl, ap, Bool, Option, none, some, List, [], ◌∷◌, ◌++◌, leb,
  length, get_elem?,
}
use failmail.Buffer.{Stored}

-- `Len`
abbrev pub size : List Stored → ℕ
size t = length t

abbrev newer : Option Stored → Option Stored → Option Bool
newer (some a) (some b) = some (leb b.received a.received)
newer _ _ = none

-- `Less`: the newer message comes first.
unfoldable pub less : List Stored → ℕ → ℕ → Option Bool
less t i j = newer (get_elem? t i) (get_elem? t j)

-- `t[i] = m`
abbrev pub set_at : List Stored → ℕ → Stored → List Stored
set_at [] i m = []
set_at (a ∷ t) zero m = m ∷ t
set_at (a ∷ t) (suc i) m = a ∷ set_at t i m

abbrev swapped : List Stored → ℕ → ℕ → Option Stored → Option Stored → Option (List Stored)
swapped t i j (some a) (some b) = some (set_at (set_at t i b) j a)
swapped t i j _ _ = none

-- `Swap`
unfoldable pub swap : List Stored → ℕ → ℕ → Option (List Stored)
swap t i j = swapped t i j (get_elem? t i) (get_elem? t j)

-- `Push`
unfoldable pub push_last : List Stored → Stored → List Stored
push_last t m = t ++ m ∷ []

abbrev behind_first : Stored → Option (Stored × List Stored) → Option (Stored × List Stored)
behind_first a none = none
behind_first a (some (m, t)) = some (m, a ∷ t)

-- `Pop`
unfoldable pub pop_last : List Stored → Option (Stored × List Stored)
pop_last [] = none
pop_last (m ∷ []) = some (m, [])
pop_last (a ∷ b ∷ t) = behind_first a (pop_last (b ∷ t))

-- `Pop` takes off what `Push` has put on.
pop_last-push_last : (t : List Stored) (m : Stored) → pop_last (push_last t m) ≡ some (m, t)
unfolding push_last pop_last
pop_last-push_last [] m = refl
pop_last-push_last (a ∷ []) m = refl
pop_last-push_last (a ∷ b ∷ t) m = ap (behind_first a) (pop_last-push_last (b ∷ t) m)

get_elem?-set_at :
    (t : List Stored) (i : ℕ) (a m : Stored)
    → get_elem? t i ≡ some a
    → get_elem? (set_at t i m) i ≡ some m
get_elem?-set_at [] i a m h = cc
get_elem?-set_at (x ∷ t) zero a m h = refl
get_elem?-set_at (x ∷ t) (suc i) a m h = get_elem?-set_at t i a m h

length-set_at : (t : List Stored) (i : ℕ) (m : Stored) → length (set_at t i m) ≡ length t
length-set_at [] i m = refl
length-set_at (a ∷ t) zero m = refl
length-set_at (a ∷ t) (suc i) m = ap suc (length-set_at t i m)

get_elem?-other :
    (t : List Stored) (i j : ℕ) (m : Stored) → i ≢ j → get_elem? (set_at t j m) i ≡ get_elem? t i
get_elem?-other [] i j m h = refl
get_elem?-other (x ∷ t) zero zero m h = absurd (h refl)
get_elem?-other (x ∷ t) zero (suc j) m h = refl
get_elem?-other (x ∷ t) (suc i) zero m h = refl
get_elem?-other (x ∷ t) (suc i) (suc j) m h = get_elem?-other t i j m (λ e. h (ap suc e))

-- `Swap` at two indices in range exchanges the messages there, and keeps the others and the length.
swap_lem :
    (t : List Stored) (i j : ℕ) (a b : Stored)
    → get_elem? t i ≡ some a
    → get_elem? t j ≡ some b
    → i ≢ j
    → (u : List Stored) × (swap t i j ≡ some u)
      × (get_elem? u i ≡ some b)
      × (get_elem? u j ≡ some a)
      × ((k : ℕ) → k ≢ i → k ≢ j → get_elem? u k ≡ get_elem? t k)
      × (length u ≡ length t)
unfolding swap
swap_lem t i j a b first second apart = (
  set_at (set_at t i b) j a,
  rw (first, second) refl,
  get_elem?-other (set_at t i b) i j a apart ∙ get_elem?-set_at t i a b first,
  get_elem?-set_at (set_at t i b) j b a (get_elem?-other t j i b (λ e. apart (sym e)) ∙ second),
  λ k ki kj. get_elem?-other (set_at t i b) k j a kj ∙ get_elem?-other t k i b ki,
  length-set_at (set_at t i b) j a ∙ length-set_at t i b,
)
