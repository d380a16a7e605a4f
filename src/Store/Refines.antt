-- ===== src/Store/Refines.antt =====
-- A `MemoryStore` over a sequence of calls, as the set of the ids that are in it.
use failmail.Base.{
  ℕ, suc, ◌+◌, ◌≤◌, ◌≡◌, refl, ap, sym, get_elem?, Option, none, some, ◌∙◌, Bool, not, ◌&&◌, List,
  [], ◌∷◌, arith, if◌then◌else◌, Option-cases, inl, inr,
}
use failmail.Message.{Received}
use failmail.Buffer.{MessageId, counter, Stored}
use failmail.Store.{HeapOps, MemoryStore, new_memory_store, add_message, index_of, remove_message}
use failmail.Store.Distinct.{
  count_if, weight, weight_if, has_id, count_if-has_id, remove_ids, index_of-weight, index_of-none,
  HeapLaws, IsDistinct, new_memory_store-IsDistinct, add_message-IsDistinct,
  remove_message-IsDistinct,
}

pub data StoreCall : Type 0 where
  add_call : ℕ → Received → StoreCall
  remove_call : MessageId → StoreCall

-- A store after calls of `Add` and `Remove`.
unfoldable pub run_memory : HeapOps → MemoryStore → List StoreCall → MemoryStore
unfolding add_message remove_message
run_memory h s [] = s
run_memory h s (add_call now msg ∷ calls) = run_memory h (add_message h s now msg).0 calls
run_memory h s (remove_call i ∷ calls) = run_memory h (remove_message h s i) calls

-- What a client knows: the number of the next id, and the messages that are stored.
pub record Known : Type 0 where
  pub next : ℕ
  pub held : List Stored

-- The messages but those of an id.
abbrev pub without : MessageId → List Stored → List Stored
without j [] = []
without j (m ∷ ms) = if has_id j m then without j ms else m ∷ without j ms

unfoldable pub run_known : Known → List StoreCall → Known
run_known k [] = k
run_known k (add_call now msg ∷ calls) =
    run_known
      (record {
        next = suc k.next;
        held = record { id = counter k.next; received = now; message = msg } ∷ k.held;
      })
      calls
run_known k (remove_call j ∷ calls) = run_known (record k { held = without j k.held }) calls

abbrev pub nothing_known : Known
nothing_known = record { next = 0; held = [] }

-- The store has the messages that are known, each as often as it is known, in some order: as many of
-- them pass a test, whatever the test is. No two have the same id, and none has one to come.
pub record Refines (s : MemoryStore) (k : Known) : Type 0 where
  pub distinct : IsDistinct s
  pub same_next : s.next_id ≡ k.next
  pub same_messages : (f : Stored → Bool) → count_if f s.messages ≡ count_if f k.held

abbrev but_id : MessageId → (Stored → Bool) → Stored → Bool
but_id j f m = not (has_id j m) && f m

abbrev with_id : MessageId → (Stored → Bool) → Stored → Bool
with_id j f m = has_id j m && f m

-- A message passes a test with the id or without it.
count_if-split :
    (j : MessageId) (f : Stored → Bool) (l : List Stored)
    → count_if f l ≡ count_if (but_id j f) l + count_if (with_id j f) l
unfolding count_if
count_if-split j f [] = refl
count_if-split j f (m ∷ ms) = let ih = count_if-split j f ms in ground arith

count_if-with_id :
    (j : MessageId) (f : Stored → Bool) (l : List Stored)
    → count_if (with_id j f) l ≤ count_if (has_id j) l
unfolding count_if
count_if-with_id j f [] = omega arith
count_if-with_id j f (m ∷ ms) = let ih = count_if-with_id j f ms in ground arith

count_if-without :
    (j : MessageId) (f : Stored → Bool) (l : List Stored)
    → count_if f (without j l) ≡ count_if (but_id j f) l
unfolding count_if
count_if-without j f [] = refl
count_if-without j f (m ∷ ms) = let ih = count_if-without j f ms in ground arith

weight_if-but_id :
    (j : MessageId) (f : Stored → Bool) (o : Option Stored)
    → weight j o ≡ 1
    → weight_if (but_id j f) o ≡ 0
weight_if-but_id j f none h = refl
weight_if-but_id j f (some m) h = ground arith

module _ (h : HeapOps) (laws : HeapLaws h) where
  add_message-Refines :
      (s : MemoryStore) (k : Known) (now : ℕ) (msg : Received)
      → Refines s k
      → Refines (add_message h s now msg).0 (record {
        next = suc k.next;
        held = record { id = counter k.next; received = now; message = msg } ∷ k.held;
      })
  unfolding add_message count_if
  add_message-Refines s k now msg r =
      let (distinct, fresh, counts) = add_message-IsDistinct h s now msg laws r.distinct in
      let m : ℕ → Stored = λ n. record { id = counter n; received = now; message = msg } in
      record {
        distinct = distinct;
        same_next = ap suc r.same_next;
        same_messages = λ f.
            laws.push_counts s.messages (m s.next_id) f
            ∙ ap (λ n. (if f (m n) then 1 else 0) + count_if f s.messages) r.same_next
            ∙ ap (λ n. (if f (m k.next) then 1 else 0) + n) (r.same_messages f);
      }

  next_id-remove_message :
      (s : MemoryStore) (j : MessageId) → (remove_message h s j).next_id ≡ s.next_id
  unfolding remove_message
  next_id-remove_message s j = elim (Option-cases (index_of j s.messages)) [
    | inl e ↦ rw e refl
    | inr (n, e) ↦ rw e refl
  ]

  -- Only the messages of the id are taken out.
  messages-remove_message :
      (s : MemoryStore) (j : MessageId) (f : Stored → Bool)
      → IsDistinct s
      → count_if f (remove_message h s j).messages ≡ count_if (but_id j f) s.messages
  unfolding remove_message
  messages-remove_message s j f d = elim (Option-cases (index_of j s.messages)) [
    | inl absent ↦
        let gone = index_of-none j s.messages absent in
        rw absent (
          omega (
            arith,
            gone,
            count_if-split j f s.messages,
            count_if-with_id j f s.messages,
            count_if-has_id j s.messages,
          ))
    | inr (n, found) ↦
        let there = index_of-weight j s.messages n found in
        let rest = h.remove_at s.messages n in
        rw found (
          omega (
            arith,
            there,
            d.once j,
            weight_if-but_id j f (get_elem? s.messages n) there,
            laws.remove_counts s.messages n (but_id j f),
            remove_ids h laws s.messages n j,
            count_if-split j f rest,
            count_if-with_id j f rest,
            count_if-has_id j rest,
          ))
  ]

  remove_message-Refines :
      (s : MemoryStore) (k : Known) (j : MessageId)
      → Refines s k
      → Refines (remove_message h s j) (record k { held = without j k.held })
  remove_message-Refines s k j r =
      let (distinct, counts) = remove_message-IsDistinct h s j laws r.distinct in
      record {
        distinct = distinct;
        same_next = next_id-remove_message s j ∙ r.same_next;
        same_messages = λ f.
            messages-remove_message s j f r.distinct
            ∙ r.same_messages (but_id j f)
            ∙ sym (count_if-without j f k.held);
      }

  run_memory-Refines_at :
      (calls : List StoreCall) (s : MemoryStore) (k : Known)
      → Refines s k
      → Refines (run_memory h s calls) (run_known k calls)
  unfolding run_memory run_known
  run_memory-Refines_at [] s k r = r
  run_memory-Refines_at (add_call now msg ∷ calls) s k r =
      run_memory-Refines_at calls _ _ (add_message-Refines s k now msg r)
  run_memory-Refines_at (remove_call j ∷ calls) s k r =
      run_memory-Refines_at calls _ _ (remove_message-Refines s k j r)

-- Over every sequence of `Add` and `Remove` on a new MemoryStore, its messages are exactly those that
-- were added and not removed since, each once, with the time and the contents that it was added with
-- and an id of its own, in some order; and the next id is the number of calls of `Add` so far, which
-- no message has.
pub run_memory-Refines :
    (h : HeapOps) (calls : List StoreCall)
    → HeapLaws h
    → Refines (run_memory h new_memory_store calls) (run_known nothing_known calls)
unfolding count_if
run_memory-Refines h calls laws =
    run_memory-Refines_at h laws calls new_memory_store nothing_known (record {
      distinct = new_memory_store-IsDistinct;
      same_next = refl;
      same_messages = λ f. refl;
    })
