-- ===== src/Buffer/Stats.antt =====
-- messages.go: `MessageBuffer.Stats`, which the HTTP status prints.
use failmail.Base.{
  ℕ, suc, ◌+◌, ◌≤◌, ◌≡◌, refl, Bool, true, false, List, [], ◌∷◌, arith, ltb, if◌then◌else◌, lookup,
  length, All,
}
use failmail.Buffer.{RecipientKey, key_eq, Stored, Batches, Limits, needs_flush, time_or_zero}

pub record BufferStats : Type 0 where
  pub active_batches : ℕ
  pub active_messages : ℕ
  pub last_received : ℕ

module _ (limits : Limits) (b : Batches) (now : ℕ) where
  abbrev pub last_of : RecipientKey → ℕ
  last_of key = time_or_zero (lookup key b.last)

  -- One round of `for key, msgs := range b.messages`.
  abbrev pub count_batch : BufferStats → RecipientKey → List Stored → BufferStats
  count_batch st key msgs = record {
    active_batches = suc st.active_batches;
    active_messages =
        if needs_flush limits b now key
        then st.active_messages
        else st.active_messages + length msgs;
    last_received = if ltb st.last_received (last_of key) then last_of key else st.last_received;
  }

  unfoldable pub stats_from : BufferStats → List (RecipientKey × List Stored) → BufferStats
  unfolding needs_flush lookup
  stats_from st [] = st
  stats_from st ((key, msgs) ∷ entries) = stats_from (count_batch st key msgs) entries

  -- `Stats`; the order in which the map is visited does not change a count or a maximum.
  unfoldable pub buffer_stats : BufferStats
  unfolding stats_from
  buffer_stats =
      stats_from (record { active_batches = 0; active_messages = 0; last_received = 0 }) b.messages

  -- The messages of the batches that are not due, and of those that are.
  abbrev pub waiting : Bool → List (RecipientKey × List Stored) → ℕ
  waiting due [] = 0
  waiting true ((key, msgs) ∷ es) =
      (if needs_flush limits b now key then length msgs else 0) + waiting true es
  waiting false ((key, msgs) ∷ es) =
      (if needs_flush limits b now key then 0 else length msgs) + waiting false es

  stats_from-counts :
      (st : BufferStats) (es : List (RecipientKey × List Stored))
      → ((stats_from st es).active_batches ≡ st.active_batches + length es)
        × ((stats_from st es).active_messages ≡ st.active_messages + waiting false es)
        × (st.last_received ≤ (stats_from st es).last_received)
        × All (λ e. last_of e.0 ≤ (stats_from st es).last_received) es
  unfolding stats_from
  stats_from-counts st [] = (omega arith, omega arith, omega arith, tt)
  stats_from-counts st ((key, msgs) ∷ es) =
      let (batches, messages, grows, all) = stats_from-counts (count_batch st key msgs) es in
      (ground arith, ground arith, ground arith, (ground arith, all))

  abbrev pub total : List (RecipientKey × List Stored) → ℕ
  total [] = 0
  total ((key, msgs) ∷ es) = length msgs + total es

  total-waiting :
      (es : List (RecipientKey × List Stored)) → total es ≡ waiting true es + waiting false es
  total-waiting [] = refl
  total-waiting ((key, msgs) ∷ es) = ground (arith, total-waiting es)

  -- `Stats` counts every batch, and the messages of the batches that are not due: all the messages
  -- but those of the due batches, so never more than there are. No batch was last received later
  -- than it says.
  pub buffer_stats_bounds :
      (buffer_stats.active_batches ≡ length b.messages)
      × (buffer_stats.active_messages + waiting true b.messages ≡ total b.messages)
      × (buffer_stats.active_messages ≤ total b.messages)
      × All (λ e. last_of e.0 ≤ buffer_stats.last_received) b.messages
  unfolding buffer_stats
  buffer_stats_bounds =
      let (batches, messages, grows, all) =
        stats_from-counts (record { active_batches = 0; active_messages = 0; last_received = 0 })
          b.messages in
      (
        omega arith,
        omega (arith, total-waiting b.messages),
        omega (arith, total-waiting b.messages),
        all,
      )
