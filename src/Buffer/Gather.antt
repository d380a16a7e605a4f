-- ===== src/Buffer/Gather.antt =====
-- What `Add` and the first loop of `Flush` put into the batches.
use failmail.Base.{
  ◌≡◌, refl, ap, sym, ◌∙◌, true, ◌&&◌, Option, none, some, List, [], ◌∷◌, ◌++◌, arith,
  if◌then◌else◌, Str, lookup, lookup-insert, Bool-cases, Option-cases, inl, inr, is_none,
  append-nil, append_assoc,
}
use failmail.Message.{recipients}
use failmail.Buffer.{
  RecipientKey, key_beq, key_beq_iff, key_eq, Stored, Batches, slice_or_nil, add, Expressions,
  add_recipients, gather_one, gather, new_batches,
}

is_none-eq {ℓ} : {A : Type ℓ} {o : Option A} → is_none o ≡ true → o ≡ none
is_none-eq {o = none} h = refl
is_none-eq {o = some a} h = cc

abbrev pub batch_of : RecipientKey → Batches → List Stored
batch_of k b = slice_or_nil (lookup k b.messages)

-- The three maps have the same keys.
pub record IsAligned (b : Batches) : Type 0 where
  pub first_aligned :
      (k : RecipientKey) → is_none (lookup k b.first) ≡ is_none (lookup k b.messages)
  pub last_aligned : (k : RecipientKey) → is_none (lookup k b.last) ≡ is_none (lookup k b.messages)

pub new_batches-IsAligned : IsAligned new_batches
unfolding lookup
new_batches-IsAligned = record { first_aligned = λ k. refl; last_aligned = λ k. refl }

aligned_messages :
    {b : Batches} (key : RecipientKey)
    → IsAligned b
    → lookup key b.first ≡ none
    → lookup key b.messages ≡ none
aligned_messages {b} key a e = is_none-eq (sym (a.first_aligned key) ∙ ap is_none e)

-- `Add` appends the message to the batch of its key, and to no other.
pub messages-add :
    (b : Batches) (key : RecipientKey) (s : Stored) (j : RecipientKey)
    → IsAligned b
    → lookup j (add b key s).messages
      ≡ (if key_beq key j then some (batch_of key b ++ s ∷ []) else lookup j b.messages)
unfolding add
messages-add b key s j a = elim (Option-cases (lookup key b.first)) [
  | inl e ↦
      let none_there = aligned_messages key a e in
      rw e (simp lookup-insert (ground (arith, none_there, key_beq_iff key key, key_beq_iff key j)))
  | inr (t, e) ↦ rw e (simp lookup-insert)
]

pub first-add :
    (b : Batches) (key : RecipientKey) (s : Stored) (j : RecipientKey)
    → lookup j (add b key s).first ≡ (
        if key_beq key j && is_none (lookup key b.first) then some s.received else lookup j b.first)
unfolding add
first-add b key s j = elim (Option-cases (lookup key b.first)) [
  | inl e ↦ rw e (simp lookup-insert (ground arith))
  | inr (t, e) ↦ rw e (ground arith)
]

pub last-add :
    (b : Batches) (key : RecipientKey) (s : Stored) (j : RecipientKey)
    → lookup j (add b key s).last ≡ (if key_beq key j then some s.received else lookup j b.last)
unfolding add
last-add b key s j = elim (Option-cases (lookup key b.first)) [
  | inl e ↦ rw e (simp lookup-insert)
  | inr (t, e) ↦ rw e (simp lookup-insert)
]

pub add-IsAligned :
    (b : Batches) (key : RecipientKey) (s : Stored) → IsAligned b → IsAligned (add b key s)
add-IsAligned b key s a = record {
  first_aligned = λ j.
      rw (first-add b key s j, messages-add b key s j a)
        (ground (arith, a.first_aligned j, key_beq_iff key j));
  last_aligned =
      λ j. rw (last-add b key s j, messages-add b key s j a) (ground (arith, a.last_aligned j));
}

-- The copies of a message that belong to batch `k`, one for each recipient that is cleaned up to it.
abbrev pub copies : Expressions → RecipientKey → Str → Stored → List Str → List Stored
copies e k key s [] = []
copies e k key s (to ∷ tos) =
    if key_beq (record { key = key; recipient = e.normalize to }) k
    then s ∷ copies e k key s tos
    else copies e k key s tos

abbrev pub copies_of : Expressions → RecipientKey → Stored → Option Str → List Stored
copies_of e k s none = []
copies_of e k s (some key) = copies e k key s (recipients s.message)

-- What stored messages add to batch `k`, in their order.
abbrev pub arrivals : Expressions → RecipientKey → List Stored → List Stored
arrivals e k [] = []
arrivals e k (s ∷ ss) = copies_of e k s (e.batch s.message) ++ arrivals e k ss

pub batch_of-add :
    (b : Batches) (key : RecipientKey) (s : Stored) (k : RecipientKey)
    → IsAligned b
    → batch_of k (add b key s) ≡ (if key_beq key k then batch_of k b ++ s ∷ [] else batch_of k b)
batch_of-add b key s k a = rw (messages-add b key s k a) (ground (arith, key_beq_iff key k))

-- A state of the buffer, and what it has got for each batch.
record Gains (b : Batches) (b' : Batches) (gain : RecipientKey → List Stored) : Type 0 where
  aligned : IsAligned b'
  gains : (k : RecipientKey) → batch_of k b' ≡ batch_of k b ++ gain k

add_recipients-Gains :
    (e : Expressions) (b : Batches) (key : Str) (s : Stored) (tos : List Str)
    → IsAligned b
    → Gains b (add_recipients e b key s tos) (λ k. copies e k key s tos)
unfolding add_recipients
add_recipients-Gains e b key s [] a = record { aligned = a; gains = λ k. sym (append-nil _) }
add_recipients-Gains e b key s (to ∷ tos) a =
    let to_key : RecipientKey = record { key = key; recipient = e.normalize to } in
    let ih = add_recipients-Gains e (add b to_key s) key s tos (add-IsAligned b to_key s a) in
    record {
      aligned = ih.aligned;
      gains = λ k. elim (Bool-cases (key_beq to_key k)) [
        | inl y ↦ ih.gains k ∙ rw (batch_of-add b to_key s k a, y) (rw append_assoc)
        | inr n ↦ ih.gains k ∙ rw (batch_of-add b to_key s k a, n) refl
      ];
    }

gather_one-Gains :
    (e : Expressions) (b : Batches) (s : Stored) (o : Option Str)
    → IsAligned b
    → Gains b (gather_one e b s o) (λ k. copies_of e k s o)
gather_one-Gains e b s none a = record { aligned = a; gains = λ k. sym (append-nil _) }
gather_one-Gains e b s (some key) a = add_recipients-Gains e b key s (recipients s.message) a

gather-Gains :
    (e : Expressions) (b : Batches) (ss : List Stored)
    → IsAligned b
    → Gains b (gather e b ss) (λ k. arrivals e k ss)
unfolding gather
gather-Gains e b [] a = record { aligned = a; gains = λ k. sym (append-nil _) }
gather-Gains e b (s ∷ ss) a =
    let one = gather_one-Gains e b s (e.batch s.message) a in
    let rest = gather-Gains e (gather_one e b s (e.batch s.message)) ss one.aligned in
    record {
      aligned = rest.aligned;
      gains = λ k.
          rest.gains k
          ∙ ap (λ x. x ++ arrivals e k ss) (one.gains k)
          ∙ append_assoc (batch_of k b) _ _;
    }

pub gather-IsAligned :
    (e : Expressions) (b : Batches) (ss : List Stored) → IsAligned b → IsAligned (gather e b ss)
gather-IsAligned e b ss a = (gather-Gains e b ss a).aligned

-- The first loop of `Flush` appends to each batch, in their order, the messages whose batch
-- expression gives its key, once for each of their recipients whose address it is for.
pub batch_of-gather :
    (e : Expressions) (b : Batches) (ss : List Stored) (k : RecipientKey)
    → IsAligned b
    → batch_of k (gather e b ss) ≡ batch_of k b ++ arrivals e k ss
batch_of-gather e b ss k a = (gather-Gains e b ss a).gains k
