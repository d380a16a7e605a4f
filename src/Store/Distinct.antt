-- ===== src/Store/Distinct.antt =====
-- The messages of a `MemoryStore` by their ids.
use failmail.Base.{
  ℕ, zero, suc, ◌+◌, ◌≤◌, ◌↔◌, ◌≡◌, refl, sym, ap, ◌∙◌, Bool, true, false, Option, none, some, List,
  [], ◌∷◌, arith, if◌then◌else◌, get_elem?, Option-cases, inl, inr, Bool-cases, ◌==◌,
}
use failmail.Message.{Received}
use failmail.Buffer.{MessageId, counter, id_beq, id_beq_iff, Stored}
use failmail.Store.{HeapOps, MemoryStore, new_memory_store, add_message, index_of, remove_message}

-- How many messages of an id there are.
unfoldable pub count_id : MessageId → List Stored → ℕ
unfolding id_beq
count_id i [] = 0
count_id i (m ∷ ms) = (if id_beq m.id i then 1 else 0) + count_id i ms

abbrev pub weight : MessageId → Option Stored → ℕ
weight i none = 0
weight i (some m) = if id_beq m.id i then 1 else 0

-- How many messages pass a test.
unfoldable pub count_if : (Stored → Bool) → List Stored → ℕ
count_if f [] = 0
count_if f (m ∷ ms) = (if f m then 1 else 0) + count_if f ms

abbrev pub weight_if : (Stored → Bool) → Option Stored → ℕ
weight_if f none = 0
weight_if f (some m) = if f m then 1 else 0

abbrev pub has_id : MessageId → Stored → Bool
has_id i m = id_beq m.id i

pub count_if-has_id : (i : MessageId) (l : List Stored) → count_if (has_id i) l ≡ count_id i l
unfolding count_if count_id
count_if-has_id i [] = refl
count_if-has_id i (m ∷ ms) = ap (λ n. (if id_beq m.id i then 1 else 0) + n) (count_if-has_id i ms)

-- `heap.Push` adds the message, and `heap.Remove` takes out the one at the index: as many messages
-- pass a test as before, but for this one.
pub record HeapLaws (h : HeapOps) : Type 0 where
  pub push_counts :
      (l : List Stored) (m : Stored) (f : Stored → Bool)
      → count_if f (h.push l m) ≡ weight_if f (some m) + count_if f l
  pub remove_counts :
      (l : List Stored) (n : ℕ) (f : Stored → Bool)
      → weight_if f (get_elem? l n) + count_if f (h.remove_at l n) ≡ count_if f l

weight_if-has_id : (i : MessageId) (o : Option Stored) → weight_if (has_id i) o ≡ weight i o
weight_if-has_id i none = refl
weight_if-has_id i (some m) = refl

module _ (h : HeapOps) (laws : HeapLaws h) where
  push_ids :
      (l : List Stored) (m : Stored) (i : MessageId)
      → count_id i (h.push l m) ≡ weight i (some m) + count_id i l
  push_ids l m i =
      omega (
        arith,
        laws.push_counts l m (has_id i),
        count_if-has_id i (h.push l m),
        count_if-has_id i l,
      )

  pub remove_ids :
      (l : List Stored) (n : ℕ) (i : MessageId)
      → weight i (get_elem? l n) + count_id i (h.remove_at l n) ≡ count_id i l
  remove_ids l n i = omega (
    arith,
    laws.remove_counts l n (has_id i),
    weight_if-has_id i (get_elem? l n),
    count_if-has_id i (h.remove_at l n),
    count_if-has_id i l,
  )

-- Each id is that of one message at most, and the ids to come of none.
pub record IsDistinct (s : MemoryStore) : Type 0 where
  pub once : (i : MessageId) → count_id i s.messages ≤ 1
  pub fresh : (n : ℕ) → s.next_id ≤ n → count_id (counter n) s.messages ≡ 0

pub new_memory_store-IsDistinct : IsDistinct new_memory_store
unfolding count_id
new_memory_store-IsDistinct = record { once = λ i. omega arith; fresh = λ n h. refl }

pub index_of-weight :
    (i : MessageId) (l : List Stored) (n : ℕ) → index_of i l ≡ some n → weight i (get_elem? l n) ≡ 1
unfolding index_of
index_of-weight i [] n h = cc
index_of-weight i (m ∷ ms) zero h = ground arith
index_of-weight i (m ∷ ms) (suc n) h =
    let ih : index_of i ms ≡ some n → weight i (get_elem? ms n) ≡ 1 = index_of-weight i ms n in
    ground (arith, ih)

pub index_of-none : (i : MessageId) (l : List Stored) → index_of i l ≡ none → count_id i l ≡ 0
unfolding index_of count_id
index_of-none i [] h = refl
index_of-none i (m ∷ ms) h =
    let ih : index_of i ms ≡ none → count_id i ms ≡ 0 = index_of-none i ms in ground (arith, ih)

weight-other :
    (i j : MessageId) (o : Option Stored) → weight i o ≡ 1 → id_beq i j ≡ false → weight j o ≡ 0
weight-other i j none w h = refl
weight-other i j (some m) w h = ground (arith, id_beq_iff m.id i, id_beq_iff m.id j, id_beq_iff i j)

id_beq-counter : (a b : ℕ) → id_beq (counter a) (counter b) ≡ (a == b)
unfolding id_beq
id_beq-counter a b = refl

-- In a store whose ids are distinct, `Add` gives the message an id that no message has, keeps every
-- other message, and keeps the ids distinct.
pub add_message-IsDistinct :
    (h : HeapOps) (s : MemoryStore) (now : ℕ) (msg : Received)
    → HeapLaws h
    → IsDistinct s
    → IsDistinct (add_message h s now msg).0
      × (count_id (add_message h s now msg).1 s.messages ≡ 0)
      × ((i : MessageId)
          → count_id i (add_message h s now msg).0.messages
            ≡ (if id_beq (add_message h s now msg).1 i then 1 else count_id i s.messages))
unfolding add_message
add_message-IsDistinct h s now msg laws d =
    let here = d.fresh s.next_id (omega arith) in
    let m : Stored = record { id = counter s.next_id; received = now; message = msg } in
    let counts : (i : MessageId)
        → count_id i (h.push s.messages m)
          ≡ (if id_beq (counter s.next_id) i then 1 else count_id i s.messages) =
      λ i. push_ids h laws s.messages m i ∙ go i (id_beq_iff (counter s.next_id) i) here in
    (
      record {
        once = λ i. rw (counts i) (ground (arith, d.once i));
        fresh = λ n later.
            rw (counts (counter n))
              (ground (arith, id_beq-counter s.next_id n, d.fresh n (omega arith)));
      },
      here,
      counts,
    )
  where
    go :
        (i : MessageId)
        → (id_beq (counter s.next_id) i ≡ true) ↔ (counter s.next_id ≡ i)
        → count_id (counter s.next_id) s.messages ≡ 0
        → (if id_beq (counter s.next_id) i then 1 else 0) + count_id i s.messages
          ≡ (if id_beq (counter s.next_id) i then 1 else count_id i s.messages)
    go i same none_here = elim (Bool-cases (id_beq (counter s.next_id) i)) [
      | inl y ↦ rw (y, sym (same.0 y), none_here) (omega arith)
      | inr n ↦ rw n (omega arith)
    ]

-- In a store whose ids are distinct, `Remove` takes out the message of the id, if there is one, keeps
-- every other message, and keeps the ids distinct.
pub remove_message-IsDistinct :
    (h : HeapOps) (s : MemoryStore) (i : MessageId)
    → HeapLaws h
    → IsDistinct s
    → IsDistinct (remove_message h s i)
      × ((j : MessageId)
          → count_id j (remove_message h s i).messages
            ≡ (if id_beq i j then 0 else count_id j s.messages))
unfolding remove_message
remove_message-IsDistinct h s i laws d = elim (Option-cases (index_of i s.messages)) [
  | inl absent ↦
      let gone = index_of-none i s.messages absent in
      rw absent (
        d,
        λ j. elim (Bool-cases (id_beq i j)) [
          | inl y ↦ rw (y, sym ((id_beq_iff i j).0 y), gone) refl
          | inr n ↦ rw n refl
        ],
      )
  | inr (n, found) ↦
      let there = index_of-weight i s.messages n found in
      rw found (
        record {
          once = λ j. omega (arith, remove_ids h laws s.messages n j, d.once j);
          fresh =
              λ k later. omega (arith, remove_ids h laws s.messages n (counter k), d.fresh k later);
        },
        λ j. elim (Bool-cases (id_beq i j)) [
          | inl y ↦
              rw (y, sym ((id_beq_iff i j).0 y))
                (omega (arith, there, remove_ids h laws s.messages n i, d.once i))
          | inr other ↦ rw other (
              omega (
                arith,
                weight-other i j (get_elem? s.messages n) there other,
                remove_ids h laws s.messages n j,
              ))
        ],
      )
]
