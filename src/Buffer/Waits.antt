-- ===== src/Buffer/Waits.antt =====
-- When a batch is sent: the limits of `NeedsFlush`, over the loop of `MessageBuffer.Run`.
use failmail.Base.{
  ℕ, ◌+◌, ◌≤◌, ◌<◌, ◌⊎◌, ◌≡◌, refl, sym, ap, ◌∙◌, Bool, true, false, ◌&&◌, Option, none, some, List,
  [], ◌∷◌, ◌++◌, arith, All, All-append, is_none, lookup, Bool-cases, inl, inr, if◌then◌else◌,
}
use mathlib.Core.Path.{subst}
use failmail.Buffer.{
  RecipientKey, key_eq, Stored, Batches, Limits, needs_flush, Pass, answered, Flusher, visit,
  send_due, Expressions, Buffer, Effects, flush, flush_stored, gather,
}
use failmail.Buffer.Removes.{is_due}
use failmail.Buffer.Due.{distinct, mem_key, leaves, send_due_lem}
use failmail.Buffer.Kept.{
  IsKept, has_some, last_received, gather-IsKept, answered-IsKept, needs_flush_lem,
}
use failmail.Buffer.Run.{
  Meeting, Wake, ticked, Running, flusher_at, flushed, flush_at, run_buffer, goes_on,
  run_buffer-append, run_buffer-IsKept,
}

-- The first message of a batch was received at least the hard limit ago, or the last one at least the
-- soft limit ago.
abbrev pub IsOverdue : Limits → ℕ → List Stored → Type 0
IsOverdue limits now [] = ⊥
IsOverdue limits now (s ∷ ss) =
    (s.received + limits.hard_limit ≤ now) ⊎ (last_received s ss + limits.soft_limit ≤ now)

-- Every request so far is for such a batch.
record SendsDue (f : Flusher) (p : Pass) : Type 0 where
  kept : IsKept p.batches
  due : All (λ q. IsOverdue f.limits f.now q.batch) p.sent

due-IsOverdue :
    (f : Flusher) (b : Batches) (key : RecipientKey) (msgs : List Stored)
    → IsKept b
    → lookup key b.messages ≡ some msgs
    → needs_flush f.limits b f.now key ≡ true
    → IsOverdue f.limits f.now msgs
due-IsOverdue f b key [] h e due =
    let nonempty : has_some (some []) ≡ true = subst (λ o. has_some o ≡ true) e (h.not_empty key) in
    absurd (ground arith)
due-IsOverdue f b key (s ∷ ss) h e due = (needs_flush_lem f.limits b f.now key s ss h e).0 due

answered-SendsDue :
    (f : Flusher) (p : Pass) (key : RecipientKey) (msgs : List Stored) (b : Bool)
    → SendsDue f p
    → IsOverdue f.limits f.now msgs
    → SendsDue f (answered p key msgs b)
answered-SendsDue f p key msgs true h due = record {
  kept = h.kept;
  due = All-append _ p.sent _ h.due (due, tt);
}
answered-SendsDue f p key msgs false h due = record {
  kept = answered-IsKept p key msgs false h.kept;
  due = All-append _ p.sent _ h.due (due, tt);
}

visit-SendsDue :
    (f : Flusher) (p : Pass) (key : RecipientKey) (o : Option (List Stored))
    → f.force ≡ false
    → SendsDue f p
    → lookup key p.batches.messages ≡ o
    → SendsDue f (visit f p key o)
visit-SendsDue f p key none unforced h e = h
visit-SendsDue f p key (some msgs) unforced h e = elim (Bool-cases (is_due f p.batches key)) [
  | inl due ↦
      let late : needs_flush f.limits p.batches f.now key ≡ true = ground arith in
      rw due (answered-SendsDue f p key msgs _ h (due-IsOverdue f p.batches key msgs h.kept e late))
  | inr later ↦ rw later h
]

send_due-SendsDue :
    (f : Flusher) (p : Pass) (order : List RecipientKey)
    → f.force ≡ false
    → SendsDue f p
    → SendsDue f (send_due f p order)
unfolding send_due
send_due-SendsDue f p [] unforced h = h
send_due-SendsDue f p (key ∷ order) unforced h =
    send_due-SendsDue f (visit f p key (lookup key p.batches.messages)) order unforced
      (visit-SendsDue f p key (lookup key p.batches.messages) unforced h refl)

-- A batch that is left is not due, or its request was answered with an error.
abbrev pub IsLeft : Flusher → RecipientKey → Option (List Stored) → Type 0
IsLeft f k none = Unit
IsLeft f k (some []) = ⊥
IsLeft f k (some (s ∷ ss)) =
    ((f.now < s.received + f.limits.hard_limit)
      × (f.now < last_received s ss + f.limits.soft_limit))
    ⊎ (f.fails (record { recipient = k; batch = s ∷ ss }) ≡ true)

kept-IsLeft :
    (f : Flusher) (b : Batches) (k : RecipientKey) (o : Option (List Stored))
    → f.force ≡ false
    → IsKept b
    → lookup k b.messages ≡ o
    → leaves f b k o ≡ false
    → IsLeft f k o
kept-IsLeft f b k none unforced h e stays = tt
kept-IsLeft f b k (some []) unforced h e stays =
    let nonempty : has_some (some []) ≡ true = subst (λ o. has_some o ≡ true) e (h.not_empty k) in
    ground arith
kept-IsLeft f b k (some (s ∷ ss)) unforced h e stays =
    let (_, early) = needs_flush_lem f.limits b f.now k s ss h e in
    elim (Bool-cases (f.fails (record { recipient = k; batch = s ∷ ss }))) [
      | inl failed ↦ inr failed
      | inr sent ↦
          let soon : needs_flush f.limits b f.now k ≡ false = ground arith in
          inl (ground (arith, early))
    ]

visited-IsLeft :
    (f : Flusher) (b : Batches) (k : RecipientKey) (o : Option (List Stored)) (visited : Bool)
    → f.force ≡ false
    → IsKept b
    → lookup k b.messages ≡ o
    → (is_none o ≡ false → visited ≡ true)
    → IsLeft f k (if visited && leaves f b k o then none else o)
visited-IsLeft f b k none visited unforced h e v = ground arith
visited-IsLeft f b k (some msgs) visited unforced h e v =
    rw (v refl) (elim (Bool-cases (leaves f b k (some msgs))) [
      | inl goes ↦ rw goes tt
      | inr stays ↦ rw stays (kept-IsLeft f b k (some msgs) unforced h e stays)
    ])

flush_stored-waits :
    (e : Expressions) (f : Flusher) (order : List RecipientKey) (b : Buffer) (stored : List Stored)
    → f.force ≡ false
    → IsKept b.batches
    → distinct order ≡ true
    → ((k : RecipientKey)
        → is_none (lookup k (gather e b.batches stored).messages) ≡ false
        → mem_key k order ≡ true)
    → All (λ q. IsOverdue f.limits f.now q.batch) (flush_stored e f order b stored).1.sent
      × ((k : RecipientKey)
          → IsLeft f k (lookup k (flush_stored e f order b stored).0.batches.messages))
unfolding flush_stored
flush_stored-waits e f order b stored unforced kept once visited =
    let start : Pass = record {
      batches = gather e b.batches stored;
      to_remove = [];
      to_keep = [];
      sent = [];
    } in
    let kept' = gather-IsKept e b.batches stored kept in
    (
      (send_due-SendsDue f start order unforced (record { kept = kept'; due = tt })).due,
      λ k. subst (IsLeft f k) (sym (send_due_lem f start k order once)) (
          visited-IsLeft f start.batches k (lookup k start.batches.messages) (mem_key k order)
            unforced kept' refl (visited k)),
    )

-- What one tick does at which the store answers, after whatever ticks and reloads, in whichever order
-- the batches are visited, each once, when the batches were well formed at first. A request is sent
-- for a batch only when its first message was received at least the hard limit ago, or its last one at
-- least the soft limit ago; and no such batch is left, but for one whose request was answered with an
-- error.
pub run_buffer-tick :
    (e : Expressions) (limits : Limits) (ws : List Wake) (r : Running) (m : Meeting)
    (stored : List Stored)
    → IsKept r.buffer.batches
    → goes_on ws ≡ true
    → m.stored ≡ some stored
    → distinct m.order ≡ true
    → ((k : RecipientKey)
        → is_none (lookup k (gather e (run_buffer e limits r ws).buffer.batches stored).messages)
          ≡ false
        → mem_key k m.order ≡ true)
    → let end = run_buffer e limits r (ws ++ ticked m ∷ []) in
      (done : Effects) × (end.effects ≡ (run_buffer e limits r ws).effects ++ done ∷ [])
      × All (λ q. IsOverdue limits m.now q.batch) done.sent
      × ((k : RecipientKey)
          → IsLeft (flusher_at limits false m) k (lookup k end.buffer.batches.messages))
unfolding run_buffer flush_at flush
run_buffer-tick e limits ws r m stored kept on answers once visited =
    let mid = run_buffer e limits r ws in
    let f = flusher_at limits false m in
    let (sent, left) =
      flush_stored-waits e f m.order mid.buffer stored refl (run_buffer-IsKept e limits ws r kept)
        once visited in
    let done = (flush_stored e f m.order mid.buffer stored).1 in
    subst
      (λ (end : Running).
        (done : Effects) × (end.effects ≡ mid.effects ++ done ∷ [])
        × All (λ q. IsOverdue limits m.now q.batch) done.sent
        × ((k : RecipientKey) → IsLeft f k (lookup k end.buffer.batches.messages)))
      (sym (
        run_buffer-append e limits ws (ticked m ∷ []) r on
        ∙ ap (λ o. flushed mid (flush e f m.order mid.buffer o)) answers))
      (done, refl, sent, left)
