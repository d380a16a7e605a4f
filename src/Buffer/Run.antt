-- ===== src/Buffer/Run.antt =====
-- messages.go: the loop of `MessageBuffer.Run`.
--
-- A `Wake` is what its `select` receives, with what the `Flush` that follows meets: the time, the
-- answer of the store, the order in which the batches are visited, and the answers of the sender.
use failmail.Base.{
  ℕ, ◌≡◌, refl, sym, Bool, true, false, Option, none, some, List, [], ◌∷◌, ◌++◌, lookup, is_none,
}
use mathlib.Core.Path.{subst}
use failmail.Listen.{TerminationRequest, graceful_shutdown, reload}
use failmail.Buffer.{
  RecipientKey, key_eq, Stored, Limits, Request, Flusher, Expressions, Buffer, Effects, gather,
  flush,
}
use failmail.Buffer.Kept.{IsKept, flush_stored-IsKept}
use failmail.Buffer.Due.{distinct, mem_key, flush_forced}

pub record Meeting : Type 0 where
  pub now : ℕ
  pub stored : Option (List Stored)
  pub order : List RecipientKey
  pub fails : Request → Bool

pub data Wake : Type 0 where
  ticked : Meeting → Wake
  requested : TerminationRequest → Meeting → Wake

-- The buffer, what the calls of `Flush` did, and whether `outgoing` is closed and the loop has ended.
pub record Running : Type 0 where
  pub buffer : Buffer
  pub effects : List Effects
  pub closed : Bool

abbrev pub flusher_at : Limits → Bool → Meeting → Flusher
flusher_at limits force m = record { limits = limits; now = m.now; force = force; fails = m.fails }

-- An error of `Flush` is only logged.
abbrev pub flushed : Running → Option (Buffer × Effects) → Running
flushed r none = r
flushed r (some (b, done)) = record r { buffer = b; effects = r.effects ++ done ∷ [] }

unfoldable pub flush_at : Expressions → Limits → Bool → Running → Meeting → Running
unfolding flush
flush_at e limits force r m =
    flushed r (flush e (flusher_at limits force m) m.order r.buffer m.stored)

unfoldable pub run_buffer : Expressions → Limits → Running → List Wake → Running
unfolding flush_at
run_buffer e limits r [] = r
run_buffer e limits r (ticked m ∷ ws) = run_buffer e limits (flush_at e limits false r m) ws
run_buffer e limits r (requested graceful_shutdown m ∷ ws) = record (flush_at e limits true r m) {
  closed = true;
}
run_buffer e limits r (requested reload m ∷ ws) = run_buffer e limits r ws

flush_at-IsKept :
    (e : Expressions) (limits : Limits) (force : Bool) (r : Running) (m : Meeting)
    → IsKept r.buffer.batches
    → IsKept (flush_at e limits force r m).buffer.batches
unfolding flush_at flush
flush_at-IsKept e limits force r m h = go m.stored
  where
    go :
        (o : Option (List Stored))
        → IsKept (flushed r (flush e (flusher_at limits force m) m.order r.buffer o)).buffer.batches
    go none = h
    go (some stored) = flush_stored-IsKept e (flusher_at limits force m) m.order r.buffer stored h

pub run_buffer-IsKept :
    (e : Expressions) (limits : Limits) (ws : List Wake) (r : Running)
    → IsKept r.buffer.batches
    → IsKept (run_buffer e limits r ws).buffer.batches
unfolding run_buffer
run_buffer-IsKept e limits [] r h = h
run_buffer-IsKept e limits (ticked m ∷ ws) r h =
    run_buffer-IsKept e limits ws (flush_at e limits false r m)
      (flush_at-IsKept e limits false r m h)
run_buffer-IsKept e limits (requested graceful_shutdown m ∷ ws) r h =
    flush_at-IsKept e limits true r m h
run_buffer-IsKept e limits (requested reload m ∷ ws) r h = run_buffer-IsKept e limits ws r h

-- No request to shut down gracefully is among them.
abbrev pub goes_on : List Wake → Bool
goes_on [] = true
goes_on (requested graceful_shutdown m ∷ ws) = false
goes_on (w ∷ ws) = goes_on ws

pub run_buffer-append :
    (e : Expressions) (limits : Limits) (ws vs : List Wake) (r : Running)
    → goes_on ws ≡ true
    → run_buffer e limits r (ws ++ vs) ≡ run_buffer e limits (run_buffer e limits r ws) vs
unfolding run_buffer
run_buffer-append e limits [] vs r h = refl
run_buffer-append e limits (ticked m ∷ ws) vs r h =
    run_buffer-append e limits ws vs (flush_at e limits false r m) h
run_buffer-append e limits (requested graceful_shutdown m ∷ ws) vs r h = cc
run_buffer-append e limits (requested reload m ∷ ws) vs r h = run_buffer-append e limits ws vs r h

-- After whatever ticks and reloads, a graceful shutdown ends the loop and closes the channel; when the
-- batches were well formed, the store answers, all the batches are visited, each once, and every
-- request is answered without an error, no batch is left. The batches are still well formed.
pub run_buffer-shutdown :
    (e : Expressions) (limits : Limits) (ws after : List Wake) (r : Running) (m : Meeting)
    (stored : List Stored)
    → IsKept r.buffer.batches
    → goes_on ws ≡ true
    → m.stored ≡ some stored
    → ((q : Request) → m.fails q ≡ false)
    → distinct m.order ≡ true
    → ((k : RecipientKey)
        → is_none (lookup k (gather e (run_buffer e limits r ws).buffer.batches stored).messages)
          ≡ false
        → mem_key k m.order ≡ true)
    → let end = run_buffer e limits r (ws ++ requested graceful_shutdown m ∷ after) in
      (end.closed ≡ true)
      × ((k : RecipientKey) → lookup k end.buffer.batches.messages ≡ none)
      × IsKept end.buffer.batches
unfolding run_buffer flush_at flush
run_buffer-shutdown e limits ws after r m stored kept on answers sends once visited =
    let mid = run_buffer e limits r ws in
    let f = flusher_at limits true m in
    subst
      (λ end.
        (end.closed ≡ true)
        × ((k : RecipientKey) → lookup k end.buffer.batches.messages ≡ none)
        × IsKept end.buffer.batches)
      (sym (run_buffer-append e limits ws (requested graceful_shutdown m ∷ after) r on))
      (
        refl,
        λ k.
            subst
              (λ o.
                lookup k (flushed mid (flush e f m.order mid.buffer o)).buffer.batches.messages
                ≡ none)
              (sym answers)
              (flush_forced e f m.order mid.buffer stored k refl sends once (visited k)),
        flush_at-IsKept e limits true mid m (run_buffer-IsKept e limits ws r kept),
      )
