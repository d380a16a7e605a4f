-- ===== src/Tests/Buffers.antt =====
-- Buffers on concrete messages.
use failmail.Base.{
  to_lower, ◌≡◌, refl, true, false, not, ◌&&◌, none, some, List, [], ◌∷◌, ◌++◌, Str, bytes, eq_str,
  lookup, insert, remove, if◌then◌else◌,
}
use failmail.Message.{Received, recipients}
use failmail.Buffer.{
  normalize_address, RecipientKey, Stored, Pass, Flusher, Expressions, Buffer, counter, id_beq,
  new_batches, gather, send_due, mem_id, removals, flush_stored, key_beq, needs_flush, remove_batch,
  key_eq,
}
use failmail.Buffer.Gather.{batch_of, arrivals, batch_of-gather, new_batches-IsAligned}
use failmail.Buffer.Kept.{IsKept, new_batches-IsKept, gather-IsKept}
use failmail.Buffer.Removes.{in_request, flush_removes}
use failmail.Buffer.Due.{mem_key, leaves, send_due_lem}

abbrev letter : Str → List Str → Received
letter from to = record {
  from = from;
  to = to;
  payload = bytes "x";
  parsed = none;
  redirected_to = [];
}

abbrev pub expressions : Expressions
expressions = record { batch = λ r. some r.from; normalize = λ a. a }

abbrev pub key_a : RecipientKey
key_a = record { key = bytes "s"; recipient = bytes "a" }

abbrev pub key_b : RecipientKey
key_b = record { key = bytes "s"; recipient = bytes "b" }

abbrev first_message : Stored
first_message = record {
  id = counter 1;
  received = 100;
  message = letter (bytes "s") (bytes "a" ∷ bytes "b" ∷ []);
}

abbrev second_message : Stored
second_message = record {
  id = counter 2;
  received = 130;
  message = letter (bytes "s") (bytes "b" ∷ []);
}

abbrev pub stored : List Stored
stored = first_message ∷ second_message ∷ []

-- At time 150, with limits of 30 and 60, only the batch for `a` is due.
abbrev pub flusher : Flusher
flusher = record {
  limits = record { soft_limit = 30; hard_limit = 60 };
  now = 150;
  force = false;
  fails = λ r. false;
}

-- The request for `b` fails.
abbrev failing : Flusher
failing = record flusher { force = true; fails = λ r. eq_str r.recipient.recipient (bytes "b") }

abbrev collected : Pass
collected = record {
  batches = gather expressions new_batches stored;
  to_remove = [];
  to_keep = [];
  sent = [];
}

abbrev pub buffer : Buffer
buffer = record { batches = new_batches; last_flush = 0 }

not_due :
    lookup key_b (send_due flusher collected (key_a ∷ key_b ∷ [])).batches.messages ≡ some stored
unfolding send_due gather lookup insert remove needs_flush remove_batch recipients eq_str bytes
    key_beq
not_due = refl

-- The first message has a request that failed, so it stays in the store.
kept : (flush_stored expressions failing (key_a ∷ key_b ∷ []) buffer stored).1.removed ≡ []
unfolding flush_stored send_due gather lookup insert remove needs_flush remove_batch recipients
    eq_str bytes key_beq removals mem_id id_beq
kept = refl

batch_of-gather_example :
    batch_of key_b (gather expressions new_batches stored)
    ≡ batch_of key_b new_batches ++ arrivals expressions key_b stored
batch_of-gather_example = batch_of-gather expressions new_batches stored key_b new_batches-IsAligned

flush_removes_example :
    let effects = (flush_stored expressions failing (key_a ∷ key_b ∷ []) buffer stored).1 in
    mem_id (counter 1) effects.removed ≡ (
      in_request failing.fails false (counter 1) effects.sent
      && not (in_request failing.fails true (counter 1) effects.sent))
flush_removes_example =
    flush_removes expressions failing (key_a ∷ key_b ∷ []) buffer stored (counter 1)

send_due_lem_example :
    lookup key_b (send_due flusher collected (key_a ∷ key_b ∷ [])).batches.messages ≡ (
      if mem_key key_b (key_a ∷ key_b ∷ [])
        && leaves flusher collected.batches key_b (lookup key_b collected.batches.messages)
      then none
      else lookup key_b collected.batches.messages)
unfolding key_beq eq_str bytes
send_due_lem_example = send_due_lem flusher collected key_b (key_a ∷ key_b ∷ []) refl

abbrev closing : Flusher
closing = record flusher { force = true }

-- The batch for `b`, with both messages.
abbrev two_messages : IsKept collected.batches
two_messages = gather-IsKept expressions new_batches stored new_batches-IsKept

-- An address that is not one stays as it is; another is folded to small letters.
folds_address : normalize_address (λ a. some (bytes "A@B")) (bytes "x <A@B>") ≡ bytes "a@b"
unfolding to_lower bytes
folds_address = refl

keeps_text : normalize_address (λ a. none) (bytes "X") ≡ bytes "X"
keeps_text = refl
