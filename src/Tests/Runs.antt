-- ===== src/Tests/Runs.antt =====
-- A loop of `MessageBuffer.Run` that is ticked, reloaded and shut down.
use failmail.Base.{
  ◌≡◌, refl, true, false, none, some, List, [], ◌∷◌, ◌++◌, lookup, insert, arith, eq_str, bytes,
  is_none, All,
}
use failmail.Message.{recipients}
use failmail.Listen.{graceful_shutdown, reload}
use failmail.Buffer.{RecipientKey, key_eq, key_beq, gather, Effects}
use failmail.Buffer.Kept.{IsKept, new_batches-IsKept}
use failmail.Buffer.Due.{mem_key}
use failmail.Buffer.Run.{
  Meeting, Wake, ticked, requested, Running, run_buffer, flush_at, flusher_at, run_buffer-shutdown,
}
use failmail.Buffer.Waits.{IsOverdue, IsLeft, run_buffer-tick}
use failmail.Tests.Buffers.{expressions, flusher, buffer, stored, key_a, key_b}

abbrev pub meeting : Meeting
meeting = record { now = 150; stored = some stored; order = key_a ∷ key_b ∷ []; fails = λ r. false }

abbrev pub running : Running
running = record { buffer = buffer; effects = []; closed = false }

-- The store fails at the tick.
abbrev before : List Wake
before = ticked (record meeting { stored = none }) ∷ requested reload meeting ∷ []

all_visited :
    (k : RecipientKey)
    → is_none (
        lookup k
          (gather expressions
            (run_buffer expressions flusher.limits running before).buffer.batches
            stored).messages)
      ≡ false
    → mem_key k meeting.order ≡ true
unfolding run_buffer flush_at gather lookup insert recipients eq_str bytes
all_visited k h = ground arith

run_buffer-shutdown_example :
    let end =
      run_buffer expressions flusher.limits running
        (before ++ requested graceful_shutdown meeting ∷ []) in
    (end.closed ≡ true)
    × ((k : RecipientKey) → lookup k end.buffer.batches.messages ≡ none)
    × IsKept end.buffer.batches
unfolding key_beq eq_str bytes
run_buffer-shutdown_example =
    run_buffer-shutdown expressions flusher.limits before [] running meeting stored
      new_batches-IsKept refl refl (λ q. refl) refl all_visited

run_buffer-tick_example :
    let end = run_buffer expressions flusher.limits running (before ++ ticked meeting ∷ []) in
    (done : Effects) × (end.effects
      ≡ (run_buffer expressions flusher.limits running before).effects ++ done ∷ [])
    × All (λ q. IsOverdue flusher.limits 150 q.batch) done.sent
    × ((k : RecipientKey)
        → IsLeft (flusher_at flusher.limits false meeting) k (lookup k end.buffer.batches.messages))
unfolding key_beq eq_str bytes
run_buffer-tick_example =
    run_buffer-tick expressions flusher.limits before running meeting stored new_batches-IsKept refl
      refl refl all_visited
