-- ===== src/Summary/Tally.antt =====
-- What `Compact` makes of a batch: its groups, how many messages each has, and their dates.
use failmail.Base.{
  ℕ, suc, ◌+◌, ◌≡◌, refl, ap, sym, ◌∙◌, Option, none, some, List, [], ◌∷◌, arith, if◌then◌else◌,
  Str, eq_str, eq_str_iff, Bool-cases, inl, inr,
}
use failmail.Message.{Mail}
use failmail.Summary.{UniqueMessage, fresh_unique, open_unique, update, earlier, later, stamp, fill}

-- `uniques[key]`
unfoldable pub find_unique : Str → List UniqueMessage → Option UniqueMessage
find_unique k [] = none
find_unique k (u ∷ us) = let rest = find_unique k us in if eq_str u.template k then some u else rest

abbrev or_fresh : Str → Option UniqueMessage → UniqueMessage
or_fresh k none = fresh_unique k
or_fresh k (some u) = u

abbrev change : (UniqueMessage → UniqueMessage) → Option UniqueMessage → Option UniqueMessage
change f none = none
change f (some u) = some (f u)

find_unique-open_unique :
    (k j : Str) (us : List UniqueMessage)
    → find_unique j (open_unique k us)
      ≡ (if eq_str k j then some (or_fresh k (find_unique k us)) else find_unique j us)
unfolding find_unique open_unique
find_unique-open_unique k j [] = ground arith
find_unique-open_unique k j (u ∷ us) = ground (
  arith,
  find_unique-open_unique k j us,
  eq_str_iff u.template k,
  eq_str_iff u.template j,
  eq_str_iff k j,
)

find_unique-update :
    (f : UniqueMessage → UniqueMessage) (k j : Str) (us : List UniqueMessage)
    → ((u : UniqueMessage) → (f u).template ≡ u.template)
    → find_unique j (update f k us)
      ≡ (if eq_str k j then change f (find_unique k us) else find_unique j us)
unfolding find_unique update
find_unique-update f k j [] same = ground arith
find_unique-update f k j (u ∷ us) same = ground (
  arith,
  find_unique-update f k j us same,
  same u,
  eq_str_iff u.template k,
  eq_str_iff u.template j,
  eq_str_iff k j,
)

stamp_template : (date : Option ℕ) (u : UniqueMessage) → (stamp date u).template ≡ u.template
stamp_template none u = refl
stamp_template (some d) u = refl

stamp_count : (date : Option ℕ) (u : UniqueMessage) → (stamp date u).count ≡ u.count
stamp_count none u = refl
stamp_count (some d) u = refl

-- What `Compact` does to its list for a message of group `key`.
abbrev pub absorb : Mail → Str → Str → List UniqueMessage → List UniqueMessage
absorb mail body key us =
    update (fill mail body) key (update (stamp mail.date) key (open_unique key us))

find_unique-absorb :
    (mail : Mail) (body key j : Str) (us : List UniqueMessage)
    → find_unique j (absorb mail body key us) ≡ (
        if eq_str key j
        then some (fill mail body (stamp mail.date (or_fresh key (find_unique key us))))
        else find_unique j us)
find_unique-absorb mail body key j us =
    let opened = open_unique key us in
    rw
      (
        find_unique-update (fill mail body) key j (update (stamp mail.date) key opened) (λ _. refl),
        find_unique-update (stamp mail.date) key j opened (stamp_template mail.date),
        find_unique-update (stamp mail.date) key key opened (stamp_template mail.date),
        find_unique-open_unique key key us,
        find_unique-open_unique key j us,
        (eq_str_iff key key).1 refl,
      )
      (ground arith)

abbrev count_of : Option UniqueMessage → ℕ
count_of none = 0
count_of (some u) = u.count

abbrev times_of : Option UniqueMessage → ℕ × ℕ
times_of none = (0, 0)
times_of (some u) = (u.start, u.end)

-- The count, and the earliest and the latest date, of the group of a key.
abbrev pub count_at : Str → List UniqueMessage → ℕ
count_at k us = count_of (find_unique k us)

abbrev pub times_at : Str → List UniqueMessage → ℕ × ℕ
times_at k us = times_of (find_unique k us)

abbrev pub extend : ℕ × ℕ → Option ℕ → ℕ × ℕ
extend t none = t
extend (s, e) (some date) = (earlier s date, later e date)

times_of-fill :
    (mail : Mail) (body key : Str) (o : Option UniqueMessage)
    → times_of (some (fill mail body (stamp mail.date (or_fresh key o))))
      ≡ extend (times_of o) mail.date
times_of-fill mail body key o = go mail.date o
  where
    go :
        (date : Option ℕ) (o : Option UniqueMessage)
        → times_of (some (stamp date (or_fresh key o))) ≡ extend (times_of o) date
    go none none = refl
    go none (some u) = refl
    go (some d) none = refl
    go (some d) (some u) = refl

count_of-fill :
    (mail : Mail) (body key : Str) (o : Option UniqueMessage)
    → count_of (some (fill mail body (stamp mail.date (or_fresh key o)))) ≡ suc (count_of o)
count_of-fill mail body key none = ap suc (stamp_count mail.date (fresh_unique key))
count_of-fill mail body key (some u) = ap suc (stamp_count mail.date u)

abbrev pub templates : List UniqueMessage → List Str
templates [] = []
templates (u ∷ us) = u.template ∷ templates us

-- A key, behind those before it unless it is one of them.
abbrev pub add_key : Str → List Str → List Str
add_key k [] = k ∷ []
add_key k (j ∷ js) = let rest = add_key k js in if eq_str j k then j ∷ js else j ∷ rest

templates-open_unique :
    (k : Str) (us : List UniqueMessage) → templates (open_unique k us) ≡ add_key k (templates us)
unfolding open_unique
templates-open_unique k [] = refl
templates-open_unique k (u ∷ us) = ground (arith, templates-open_unique k us)

templates-update :
    (f : UniqueMessage → UniqueMessage) (k : Str) (us : List UniqueMessage)
    → ((u : UniqueMessage) → (f u).template ≡ u.template)
    → templates (update f k us) ≡ templates us
unfolding update
templates-update f k [] same = refl
templates-update f k (u ∷ us) same = ground (arith, templates-update f k us same, same u)

-- The sum of the counts.
abbrev pub total : List UniqueMessage → ℕ
total [] = 0
total (u ∷ us) = u.count + total us

total-open_unique : (k : Str) (us : List UniqueMessage) → total (open_unique k us) ≡ total us
unfolding open_unique
total-open_unique k [] = refl
total-open_unique k (u ∷ us) = ground (arith, total-open_unique k us)

total-stamp :
    (date : Option ℕ) (k : Str) (us : List UniqueMessage)
    → total (update (stamp date) k us) ≡ total us
unfolding update
total-stamp date k [] = refl
total-stamp date k (u ∷ us) = ground (arith, total-stamp date k us, stamp_count date u)

total-fill :
    (mail : Mail) (body k : Str) (us : List UniqueMessage) (u : UniqueMessage)
    → find_unique k us ≡ some u
    → total (update (fill mail body) k us) ≡ suc (total us)
unfolding update find_unique
total-fill mail body k [] u h = cc
total-fill mail body k (v ∷ us) u h =
    ground (arith, λ (g : find_unique k us ≡ some u). total-fill mail body k us u g)

pub count_at-absorb :
    (mail : Mail) (body key j : Str) (us : List UniqueMessage)
    → count_at j (absorb mail body key us)
      ≡ (if eq_str key j then suc (count_at j us) else count_at j us)
count_at-absorb mail body key j us = elim (Bool-cases (eq_str key j)) [
  | inl y ↦
      rw (find_unique-absorb mail body key j us, y, sym ((eq_str_iff key j).0 y))
        (count_of-fill mail body key (find_unique key us))
  | inr n ↦ rw (find_unique-absorb mail body key j us, n) refl
]

pub times_at-absorb :
    (mail : Mail) (body key j : Str) (us : List UniqueMessage)
    → times_at j (absorb mail body key us)
      ≡ (if eq_str key j then extend (times_at j us) mail.date else times_at j us)
times_at-absorb mail body key j us = elim (Bool-cases (eq_str key j)) [
  | inl y ↦
      rw (find_unique-absorb mail body key j us, y, sym ((eq_str_iff key j).0 y))
        (times_of-fill mail body key (find_unique key us))
  | inr n ↦ rw (find_unique-absorb mail body key j us, n) refl
]

pub templates-absorb :
    (mail : Mail) (body key : Str) (us : List UniqueMessage)
    → templates (absorb mail body key us) ≡ add_key key (templates us)
templates-absorb mail body key us =
    templates-update (fill mail body) key _ (λ _. refl)
    ∙ templates-update (stamp mail.date) key _ (stamp_template mail.date)
    ∙ templates-open_unique key us

pub total-absorb :
    (mail : Mail) (body key : Str) (us : List UniqueMessage)
    → total (absorb mail body key us) ≡ suc (total us)
total-absorb mail body key us =
    let opened = open_unique key us in
    let old = or_fresh key (find_unique key us) in
    let found : find_unique key (update (stamp mail.date) key opened) ≡ some (stamp mail.date old) =
      rw
        (
          find_unique-update (stamp mail.date) key key opened (stamp_template mail.date),
          find_unique-open_unique key key us,
          (eq_str_iff key key).1 refl,
        )
        refl in
    total-fill mail body key _ (stamp mail.date old) found
    ∙ ap suc (total-stamp mail.date key opened ∙ total-open_unique key us)
