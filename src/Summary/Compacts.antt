-- ===== src/Summary/Compacts.antt =====
-- `Compact` and `Stats` on a batch whose messages can be grouped and read.
use failmail.Base.{
  ℕ, ◌+◌, ◌≡◌, refl, ap, sym, ◌∙◌, false, Option, none, some, List, [], ◌∷◌, ◌++◌, arith,
  if◌then◌else◌, Str, eq_str, Bool-cases, inl, inr, length, All,
}
use failmail.Message.{Mail, Received}
use failmail.Buffer.{Stored, mem_id}
use failmail.Summary.{
  UniqueMessage, Readers, open_unique, update, stamp, Compacting, done, failed, panicked,
  finish_one, compact_parsed, compact_keyed, compact_from, compact, read_body, Summarized,
  summarize, SummaryStats, tally_stats, stats_from, stats,
}
use failmail.Summary.Dates.{date_of, dates, IsDated, IsEarliest, IsLatest, span, span-IsEarliest}
use mathlib.Core.Path.{subst}
use failmail.Summary.Tally.{
  find_unique, count_at, times_at, templates, add_key, total, count_at-absorb, times_at-absorb,
  templates-absorb, total-absorb, absorb,
}

abbrev key_or : Option Str → Str
key_or none = []
key_or (some k) = k

module _ (group : Received → Option Str) where
  abbrev pub key_of : Stored → Str
  key_of s = key_or (group s.message)

  -- The group expression gives a key, the message was parsed, the body can be read, and the date is not
  -- the zero time.
  pub record Readable (s : Stored) : Type 0 where
    pub key : Str
    pub mail : Mail
    pub text : Str
    pub keyed : group s.message ≡ some key
    pub parsed : s.message.parsed ≡ some mail
    pub readable : mail.body ≡ some text
    pub dated : IsDated mail.date

  -- The messages of a group, in their order.
  abbrev pub of_key : Str → List Stored → List Stored
  of_key k [] = []
  of_key k (s ∷ ss) = let rest = of_key k ss in if eq_str (key_of s) k then s ∷ rest else rest

  -- The keys of the messages, each once, in the order of their first messages.
  abbrev pub keys_seen : List Str → List Stored → List Str
  keys_seen ks [] = ks
  keys_seen ks (s ∷ ss) = keys_seen (add_key (key_of s) ks) ss

  record Absorbed (c c' : Compacting) (ss : List Stored) : Type 0 where
    groups : templates c'.result ≡ keys_seen (templates c.result) ss
    counts : (k : Str) → count_at k c'.result ≡ count_at k c.result + length (of_key k ss)
    times : (k : Str) → times_at k c'.result ≡ span (times_at k c.result) (of_key k ss)
    all_counted : total c'.result ≡ total c.result + length ss

  read_body-Readable :
      (read : Readers) (s : Stored) → Readable s → (body : Str) × (read_body read s ≡ some body)
  unfolding read_body
  read_body-Readable read s r = rw (r.parsed) (elim (Bool-cases (mem_id s.id read)) [
    | inl y ↦ ([], rw y refl)
    | inr n ↦ (r.text, rw n r.readable)
  ])

  compact_keyed-Readable :
      (c : Compacting) (s : Stored) (r : Readable s)
      → (body : Str) × (compact_keyed c s (group s.message)
          ≡ done (record { result = absorb r.mail body r.key c.result; read = s.id ∷ c.read }))
  compact_keyed-Readable c s r =
      let (body, e) = read_body-Readable c.read s r in
      let stamped = update (stamp r.mail.date) r.key (open_unique r.key c.result) in
      (
        body,
        ap (compact_keyed c s) r.keyed
            ∙ ap (compact_parsed c r.key s) r.parsed
            ∙ ap (finish_one (record c { result = stamped }) r.key s r.mail) e,
      )

  absorb-Absorbed :
      (c : Compacting) (s : Stored) (ss : List Stored) (r : Readable s) (body : Str)
      (c' : Compacting)
      → Absorbed (record { result = absorb r.mail body r.key c.result; read = s.id ∷ c.read }) c' ss
      → Absorbed c c' (s ∷ ss)
  absorb-Absorbed c s ss r body c' a = record {
    groups = a.groups ∙ rw (templates-absorb r.mail body r.key c.result, r.keyed) refl;
    counts =
        λ k. a.counts k ∙ rw (count_at-absorb r.mail body r.key k c.result, r.keyed) (ground arith);
    times = λ k. elim (Bool-cases (eq_str r.key k)) [
      | inl y ↦
          a.times k ∙ rw (times_at-absorb r.mail body r.key k c.result, r.keyed, y, r.parsed) refl
      | inr n ↦ a.times k ∙ rw (times_at-absorb r.mail body r.key k c.result, r.keyed, n) refl
    ];
    all_counted = a.all_counted ∙ rw (total-absorb r.mail body r.key c.result) (omega arith);
  }

  compact_from-Absorbs :
      (c : Compacting) (ss : List Stored)
      → All Readable ss
      → (c' : Compacting) × (compact_from group c ss ≡ done c') × Absorbed c c' ss
  unfolding compact_from
  compact_from-Absorbs c [] h = (
    c,
    refl,
    record {
      groups = refl;
      counts = λ k. omega arith;
      times = λ k. refl;
      all_counted = omega arith;
    },
  )
  compact_from-Absorbs c (s ∷ ss) (r, rs) =
      let (body, e) = compact_keyed-Readable c s r in
      let (c', done_there, a) =
        compact_from-Absorbs
          (record { result = absorb r.mail body r.key c.result; read = s.id ∷ c.read }) ss rs in
      (c', rw e done_there, absorb-Absorbed c s ss r body c' a)

  -- `Compact` gets past messages that are readable.
  compact_from-append :
      (c : Compacting) (ss rest : List Stored)
      → All Readable ss
      → (c' : Compacting) × (compact_from group c (ss ++ rest) ≡ compact_from group c' rest)
  unfolding compact_from
  compact_from-append c [] rest h = (c, refl)
  compact_from-append c (s ∷ ss) rest (r, rs) =
      let (body, e) = compact_keyed-Readable c s r in
      let (c', same) =
        compact_from-append
          (record { result = absorb r.mail body r.key c.result; read = s.id ∷ c.read }) ss rest
          rs in
      (c', rw e same)

  -- Where the group expression has an error on the first message behind such ones, `Compact` has it.
  pub compact-no_key :
      (read : Readers) (ss : List Stored) (s : Stored) (rest : List Stored)
      → All Readable ss
      → group s.message ≡ none
      → (c : Compacting) × (compact group read (ss ++ s ∷ rest) ≡ failed c)
  unfolding compact compact_from
  compact-no_key read ss s rest h e =
      let (c, same) = compact_from-append (record { result = []; read = read }) ss (s ∷ rest) h in
      (c, same ∙ rw e refl)

  -- Where this message has a key, and was not parsed, `Compact` panics.
  pub compact-not_parsed :
      (read : Readers) (ss : List Stored) (s : Stored) (rest : List Stored) (key : Str)
      → All Readable ss
      → group s.message ≡ some key
      → s.message.parsed ≡ none
      → compact group read (ss ++ s ∷ rest) ≡ panicked
  unfolding compact compact_from
  compact-not_parsed read ss s rest key h e absent =
      let (c, same) = compact_from-append (record { result = []; read = read }) ss (s ∷ rest) h in
      same ∙ rw (e, absent) refl

  -- What `Compact` returns.
  pub record IsCompaction (ss : List Stored) (us : List UniqueMessage) : Type 0 where
    pub groups : templates us ≡ keys_seen [] ss
    pub counts : (k : Str) → count_at k us ≡ length (of_key k ss)
    pub earliest : (k : Str) → IsEarliest (times_at k us).0 (dates (of_key k ss))
    pub latest : (k : Str) → IsLatest (times_at k us).1 (dates (of_key k ss))
    pub all_counted : total us ≡ length ss

  of_key-IsDated :
      (k : Str) (ss : List Stored)
      → All Readable ss
      → All (λ s. IsDated (date_of s.message.parsed)) (of_key k ss)
  of_key-IsDated k [] h = tt
  of_key-IsDated k (s ∷ ss) (r, rs) = elim (Bool-cases (eq_str (key_of s) k)) [
    | inl y ↦ rw y (subst (λ o. IsDated (date_of o)) (sym r.parsed) r.dated, of_key-IsDated k ss rs)
    | inr n ↦ rw n (of_key-IsDated k ss rs)
  ]

  -- `Compact` returns without an error or a panic on messages that are parsed, that can be read, whose
  -- dates are not the zero time, and that the group expression has a key for. Its result has one entry for each key, in the order in
  -- which the keys first occur, with the number of the messages of the group and their earliest and
  -- latest dates, and the counts of all entries add up to the number of the messages.
  pub compact-IsCompaction :
      (read : Readers) (ss : List Stored)
      → All Readable ss
      → (c : Compacting) × (compact group read ss ≡ done c) × IsCompaction ss c.result
  unfolding compact find_unique
  compact-IsCompaction read ss h =
      let (c, e, a) = compact_from-Absorbs (record { result = []; read = read }) ss h in
      (
        c,
        e,
        record {
          groups = a.groups;
          counts = λ k. a.counts k ∙ omega arith;
          earliest = λ k.
              subst (λ t. IsEarliest t.0 (dates (of_key k ss))) (sym (a.times k))
                (span-IsEarliest (of_key k ss) (of_key-IsDated k ss h)).0;
          latest = λ k.
              subst (λ t. IsLatest t.1 (dates (of_key k ss))) (sym (a.times k))
                (span-IsEarliest (of_key k ss) (of_key-IsDated k ss h)).1;
          all_counted = a.all_counted ∙ omega arith;
        },
      )

stats_from-total :
    (t : SummaryStats) (us : List UniqueMessage)
    → (stats_from t us).total_messages ≡ t.total_messages + total us
unfolding stats_from
stats_from-total t [] = omega arith
stats_from-total t (u ∷ us) = stats_from-total (tally_stats t u) us ∙ omega arith

stats-total : (us : List UniqueMessage) → (stats us).total_messages ≡ total us
unfolding stats
stats-total us =
    stats_from-total (record { total_messages = 0; first_message_time = 0; last_message_time = 0 })
      us
    ∙ omega arith

-- A summary without an error, for one recipient, of all these messages.
pub Summarizes : Str → List Stored → Option Summarized → Type 0
Summarizes to ss none = ⊥
Summarizes to ss (some (m, err, read)) =
    (err ≡ false)
    × (m.to ≡ to ∷ [])
    × (m.stored_messages ≡ ss)
    × ((stats m.unique_messages).total_messages ≡ length ss)

-- `Summarize` returns, without an error or a panic, on messages that are parsed, that can be read,
-- and that the group expression has a key for. The summary is for the recipient alone, holds these
-- messages, and its `Stats` say how many they are.
pub summarize-Summarizes :
    (group : Received → Option Str) (read : Readers) (from to : Str) (now : ℕ) (ss : List Stored)
    → All (Readable group) ss
    → Summarizes to ss (summarize group read from to now ss)
unfolding Summarizes summarize
summarize-Summarizes group read from to now ss h =
    let (c, e, a) = compact-IsCompaction group read ss h in
    rw e (refl, refl, refl, stats-total c.result ∙ a.all_counted)
