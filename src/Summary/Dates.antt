-- ===== src/Summary/Dates.antt =====
-- The first and the last date of a group, as `Compact` keeps them.
use failmail.Base.{
  ℕ, zero, suc, ◌≤◌, ◌⊎◌, ◌≡◌, refl, Option, none, some, List, [], ◌∷◌, arith, In, All, ltb,
  get_elem?, Bool-cases, inl, inr,
}
use failmail.Message.{Mail}
use failmail.Buffer.{Stored}
use failmail.Summary.{earlier, later}
use failmail.Summary.Tally.{extend}

abbrev pub date_of : Option Mail → Option ℕ
date_of none = none
date_of (some mail) = mail.date

abbrev add_date : Option ℕ → List ℕ → List ℕ
add_date none ds = ds
add_date (some d) ds = d ∷ ds

-- The dates of messages, of those that have one.
abbrev pub dates : List Stored → List ℕ
dates [] = []
dates (s ∷ ss) = add_date (date_of s.message.parsed) (dates ss)

-- A date is not Go's zero time, by which `Compact` knows that there is no date yet.
abbrev pub IsDated : Option ℕ → Type 0
IsDated none = Unit
IsDated (some d) = 1 ≤ d

-- The earliest and the latest of some dates; zero where there is none.
abbrev pub IsEarliest : ℕ → List ℕ → Type 0
IsEarliest t [] = t ≡ 0
IsEarliest t (d ∷ ds) = In t (d ∷ ds) × All (λ x. t ≤ x) (d ∷ ds)

abbrev pub IsLatest : ℕ → List ℕ → Type 0
IsLatest t [] = t ≡ 0
IsLatest t (d ∷ ds) = In t (d ∷ ds) × All (λ x. x ≤ t) (d ∷ ds)

abbrev pub span : ℕ × ℕ → List Stored → ℕ × ℕ
span t [] = t
span t (s ∷ ss) = span (extend t (date_of s.message.parsed)) ss

In-split : (r m s d : ℕ) (ds : List ℕ) → In r (m ∷ ds) → (m ≡ s) ⊎ (m ≡ d) → In r (s ∷ d ∷ ds)
In-split r m s d ds h which = go h.index h.found which
  where
    go : (i : ℕ) → get_elem? (m ∷ ds) i ≡ some r → (m ≡ s) ⊎ (m ≡ d) → In r (s ∷ d ∷ ds)
    go zero e (inl f) = record { index = 0; found = cc }
    go zero e (inr f) = record { index = 1; found = cc }
    go (suc i) e which = record { index = suc (suc i); found = e }

earlier-least :
    (s d : ℕ)
    → 1 ≤ s
    → 1 ≤ d
    → (1 ≤ earlier s d)
      × (earlier s d ≤ s)
      × (earlier s d ≤ d)
      × ((earlier s d ≡ s) ⊎ (earlier s d ≡ d))
earlier-least s d h k = elim (Bool-cases (ltb d s)) [
  | inl e ↦ (ground arith, ground arith, ground arith, inr (ground arith))
  | inr e ↦ (ground arith, ground arith, ground arith, inl (ground arith))
]

later-greatest :
    (s d : ℕ)
    → 1 ≤ s
    → 1 ≤ d
    → (1 ≤ later s d) × (s ≤ later s d) × (d ≤ later s d) × ((later s d ≡ s) ⊎ (later s d ≡ d))
later-greatest s d h k = elim (Bool-cases (ltb s d)) [
  | inl e ↦ (ground arith, ground arith, ground arith, inr (ground arith))
  | inr e ↦ (ground arith, ground arith, ground arith, inl (ground arith))
]

-- From a first date on.
span-extremes :
    (ss : List Stored) (s e : ℕ)
    → 1 ≤ s
    → 1 ≤ e
    → All (λ x. IsDated (date_of x.message.parsed)) ss
    → IsEarliest (span (s, e) ss).0 (s ∷ dates ss) × IsLatest (span (s, e) ss).1 (e ∷ dates ss)
span-extremes [] s e hs he dated = (
  (record { index = 0; found = refl }, (omega arith, tt)),
  (record { index = 0; found = refl }, (omega arith, tt)),
)
span-extremes (x ∷ ss) s e hs he (d, dated) =
    go (λ a b ha hb. span-extremes ss a b ha hb dated) (date_of x.message.parsed) d
  where
    go :
        ((a b : ℕ)
          → 1 ≤ a
          → 1 ≤ b
          → IsEarliest (span (a, b) ss).0 (a ∷ dates ss)
            × IsLatest (span (a, b) ss).1 (b ∷ dates ss))
        → (o : Option ℕ) → IsDated o
        → IsEarliest (span (extend (s, e) o) ss).0 (s ∷ add_date o (dates ss))
          × IsLatest (span (extend (s, e) o) ss).1 (e ∷ add_date o (dates ss))
    go ih none d = ih s e hs he
    go ih (some t) d =
        let (pos, below, below', which) = earlier-least s t hs d in
        let (pos', above, above', which') = later-greatest e t he d in
        let ((there, (first, least)), (there', (last, greatest))) =
          ih (earlier s t) (later e t) pos pos' in
        (
          (In-split _ _ s t (dates ss) there which, (omega arith, (omega arith, least))),
          (In-split _ _ e t (dates ss) there' which', (omega arith, (omega arith, greatest))),
        )

-- The dates of a group are the earliest and the latest of its messages.
pub span-IsEarliest :
    (ss : List Stored)
    → All (λ x. IsDated (date_of x.message.parsed)) ss
    → IsEarliest (span (0, 0) ss).0 (dates ss) × IsLatest (span (0, 0) ss).1 (dates ss)
span-IsEarliest [] dated = (refl, refl)
span-IsEarliest (x ∷ ss) (d, dated) =
    go (span-IsEarliest ss dated) (λ t ht. span-extremes ss t t ht ht dated)
      (date_of x.message.parsed) d
  where
    go :
        IsEarliest (span (0, 0) ss).0 (dates ss) × IsLatest (span (0, 0) ss).1 (dates ss)
        → ((t : ℕ)
            → 1 ≤ t
            → IsEarliest (span (t, t) ss).0 (t ∷ dates ss)
              × IsLatest (span (t, t) ss).1 (t ∷ dates ss))
        → (o : Option ℕ) → IsDated o
        → IsEarliest (span (extend (0, 0) o) ss).0 (add_date o (dates ss))
          × IsLatest (span (extend (0, 0) o) ss).1 (add_date o (dates ss))
    go ih first none d = ih
    go ih first (some t) d = first t d
