-- ===== src/Buffer/Kept.antt =====
-- The times that `batches` keeps beside the messages of a batch.
use failmail.Base.{
  ℕ, ◌+◌, ◌≤◌, ◌↔◌, ◌⊎◌, ◌≡◌, refl, ap, sym, ◌∙◌, Bool, true, false, Option, none, some, List, [],
  ◌∷◌, ◌++◌, arith, if◌then◌else◌, is_none, Str, lookup, lookup-remove, Bool-cases, inl, inr,
}
use failmail.Message.{recipients}
use failmail.Buffer.{
  RecipientKey, key_beq, key_beq_iff, key_eq, Stored, Batches, Limits, new_batches, add,
  remove_batch, needs_flush, Expressions, add_recipients, gather_one, gather, Pass, answered,
  Flusher, visit, send_due, Buffer, flush_stored, slice_or_nil,
}
use failmail.Buffer.Gather.{IsAligned, messages-add, first-add, last-add}
use failmail.Buffer.Removes.{is_due}

abbrev pub last_received : Stored → List Stored → ℕ
last_received s [] = s.received
last_received s (t ∷ ts) = last_received t ts

abbrev first_time : Option (List Stored) → Option ℕ
first_time none = none
first_time (some []) = some 0
first_time (some (s ∷ ss)) = some s.received

abbrev last_time : Option (List Stored) → Option ℕ
last_time none = none
last_time (some []) = some 0
last_time (some (s ∷ ss)) = some (last_received s ss)

abbrev pub has_some : Option (List Stored) → Bool
has_some none = true
has_some (some []) = false
has_some (some (s ∷ ss)) = true

-- No batch is empty, and the times of a batch are those of its first and of its last message.
pub record IsKept (b : Batches) : Type 0 where
  pub not_empty : (k : RecipientKey) → has_some (lookup k b.messages) ≡ true
  pub first_kept : (k : RecipientKey) → lookup k b.first ≡ first_time (lookup k b.messages)
  pub last_kept : (k : RecipientKey) → lookup k b.last ≡ last_time (lookup k b.messages)

pub new_batches-IsKept : IsKept new_batches
unfolding lookup
new_batches-IsKept = record { not_empty = λ k. refl; first_kept = λ k. refl; last_kept = λ k. refl }

is_none-first_time : (o : Option (List Stored)) → is_none (first_time o) ≡ is_none o
is_none-first_time none = refl
is_none-first_time (some []) = refl
is_none-first_time (some (s ∷ ss)) = refl

is_none-last_time : (o : Option (List Stored)) → is_none (last_time o) ≡ is_none o
is_none-last_time none = refl
is_none-last_time (some []) = refl
is_none-last_time (some (s ∷ ss)) = refl

pub kept-IsAligned : {b : Batches} → IsKept b → IsAligned b
kept-IsAligned {b} h = record {
  first_aligned = λ k. ap is_none (h.first_kept k) ∙ is_none-first_time (lookup k b.messages);
  last_aligned = λ k. ap is_none (h.last_kept k) ∙ is_none-last_time (lookup k b.messages);
}

has_some-append :
    (o : Option (List Stored)) (s : Stored) → has_some (some (slice_or_nil o ++ s ∷ [])) ≡ true
has_some-append none s = refl
has_some-append (some []) s = refl
has_some-append (some (t ∷ ts)) s = refl

last_received-append :
    (t : Stored) (ts : List Stored) (s : Stored) → last_received t (ts ++ s ∷ []) ≡ s.received
last_received-append t [] s = refl
last_received-append t (u ∷ ts) s = last_received-append u ts s

last_time-append :
    (o : Option (List Stored)) (s : Stored)
    → last_time (some (slice_or_nil o ++ s ∷ [])) ≡ some s.received
last_time-append none s = refl
last_time-append (some []) s = refl
last_time-append (some (t ∷ ts)) s = ap some (last_received-append t ts s)

first_time-append :
    (o : Option (List Stored)) (s : Stored)
    → has_some o ≡ true
    → first_time (some (slice_or_nil o ++ s ∷ []))
      ≡ (if is_none o then some s.received else first_time o)
first_time-append none s h = refl
first_time-append (some []) s h = cc
first_time-append (some (t ∷ ts)) s h = refl

pub add-IsKept : (b : Batches) (key : RecipientKey) (s : Stored) → IsKept b → IsKept (add b key s)
add-IsKept b key s h =
    let a = kept-IsAligned h in
    let o = lookup key b.messages in
    record {
      not_empty =
          λ k. rw (messages-add b key s k a) (ground (arith, has_some-append o s, h.not_empty k));
      first_kept = λ k. elim (Bool-cases (key_beq key k)) [
        | inl y ↦
            first-add b key s k
            ∙ rw (messages-add b key s k a, y, a.first_aligned key)
                (rw
                  (
                    first_time-append o s (h.not_empty key),
                    sym ((key_beq_iff key k).0 y),
                    h.first_kept key,
                  )
                  refl)
        | inr n ↦ first-add b key s k ∙ rw (messages-add b key s k a, n) (h.first_kept k)
      ];
      last_kept = λ k. elim (Bool-cases (key_beq key k)) [
        | inl y ↦ last-add b key s k ∙ rw (messages-add b key s k a, y) (sym (last_time-append o s))
        | inr n ↦ last-add b key s k ∙ rw (messages-add b key s k a, n) (h.last_kept k)
      ];
    }

remove_batch-IsKept : (b : Batches) (key : RecipientKey) → IsKept b → IsKept (remove_batch b key)
unfolding remove_batch
remove_batch-IsKept b key h = record {
  not_empty = λ k. rw (lookup-remove key k b.messages) (ground (arith, h.not_empty k));
  first_kept = λ k. elim (Bool-cases (key_beq key k)) [
    | inl y ↦ rw (lookup-remove key k b.messages, lookup-remove key k b.first, y) refl
    | inr n ↦ rw (lookup-remove key k b.messages, lookup-remove key k b.first, n) (h.first_kept k)
  ];
  last_kept = λ k. elim (Bool-cases (key_beq key k)) [
    | inl y ↦ rw (lookup-remove key k b.messages, lookup-remove key k b.last, y) refl
    | inr n ↦ rw (lookup-remove key k b.messages, lookup-remove key k b.last, n) (h.last_kept k)
  ];
}

add_recipients-IsKept :
    (e : Expressions) (b : Batches) (key : Str) (s : Stored) (tos : List Str)
    → IsKept b
    → IsKept (add_recipients e b key s tos)
unfolding add_recipients
add_recipients-IsKept e b key s [] h = h
add_recipients-IsKept e b key s (to ∷ tos) h =
    let to_key : RecipientKey = record { key = key; recipient = e.normalize to } in
    add_recipients-IsKept e (add b to_key s) key s tos (add-IsKept b to_key s h)

gather_one-IsKept :
    (e : Expressions) (b : Batches) (s : Stored) (o : Option Str)
    → IsKept b
    → IsKept (gather_one e b s o)
gather_one-IsKept e b s none h = h
gather_one-IsKept e b s (some key) h = add_recipients-IsKept e b key s (recipients s.message) h

pub gather-IsKept :
    (e : Expressions) (b : Batches) (ss : List Stored) → IsKept b → IsKept (gather e b ss)
unfolding gather
gather-IsKept e b [] h = h
gather-IsKept e b (s ∷ ss) h =
    gather-IsKept e (gather_one e b s (e.batch s.message)) ss
      (gather_one-IsKept e b s (e.batch s.message) h)

pub answered-IsKept :
    (p : Pass) (key : RecipientKey) (msgs : List Stored) (b : Bool)
    → IsKept p.batches
    → IsKept (answered p key msgs b).batches
answered-IsKept p key msgs true h = h
answered-IsKept p key msgs false h = remove_batch-IsKept p.batches key h

visit-IsKept :
    (f : Flusher) (p : Pass) (key : RecipientKey) (o : Option (List Stored))
    → IsKept p.batches
    → IsKept (visit f p key o).batches
visit-IsKept f p key none h = h
visit-IsKept f p key (some msgs) h = elim (Bool-cases (is_due f p.batches key)) [
  | inl e ↦ rw e (answered-IsKept p key msgs _ h)
  | inr e ↦ rw e h
]

send_due-IsKept :
    (f : Flusher) (p : Pass) (order : List RecipientKey)
    → IsKept p.batches
    → IsKept (send_due f p order).batches
unfolding send_due
send_due-IsKept f p [] h = h
send_due-IsKept f p (key ∷ order) h =
    send_due-IsKept f (visit f p key (lookup key p.batches.messages)) order
      (visit-IsKept f p key (lookup key p.batches.messages) h)

-- `Flush` keeps the batches well formed: none is empty, and the times of each are those of its first
-- and of its last message.
pub flush_stored-IsKept :
    (e : Expressions) (f : Flusher) (order : List RecipientKey) (b : Buffer) (stored : List Stored)
    → IsKept b.batches
    → IsKept (flush_stored e f order b stored).0.batches
unfolding flush_stored
flush_stored-IsKept e f order b stored h =
    send_due-IsKept f
      (record { batches = gather e b.batches stored; to_remove = []; to_keep = []; sent = [] })
      order (gather-IsKept e b.batches stored h)

-- A batch is due exactly when its first message was received at least the hard limit ago, or its last
-- one at least the soft limit ago.
pub needs_flush_lem :
    (limits : Limits) (b : Batches) (now : ℕ) (k : RecipientKey) (s : Stored) (ss : List Stored)
    → IsKept b
    → lookup k b.messages ≡ some (s ∷ ss)
    → (needs_flush limits b now k ≡ true)
      ↔ ((s.received + limits.hard_limit ≤ now) ⊎ (last_received s ss + limits.soft_limit ≤ now))
unfolding needs_flush
needs_flush_lem limits b now k s ss h there =
    let first = h.first_kept k ∙ ap first_time there in
    let last = h.last_kept k ∙ ap last_time there in rw (first, last) (ground arith)
