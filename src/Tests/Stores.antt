-- ===== src/Tests/Stores.antt =====
-- A store on a concrete heap, which keeps the messages in the order in which they come.
use failmail.Base.{
  ℕ, zero, suc, ◌+◌, ◌≡◌, refl, Bool, List, [], ◌∷◌, arith, if◌then◌else◌, length, get_elem?,
}
use failmail.Message.{blank}
use failmail.Buffer.{counter, Stored}
use failmail.Store.{HeapOps, MemoryStore, new_memory_store, add_message, messages_newer_than}
use failmail.Store.Distinct.{
  count_if, weight_if, HeapLaws, IsDistinct, new_memory_store-IsDistinct, add_message-IsDistinct,
}
use failmail.Store.Refines.{
  StoreCall, add_call, remove_call, run_memory, run_known, nothing_known, Refines,
  run_memory-Refines,
}

abbrev remove_nth : List Stored → ℕ → List Stored
remove_nth [] n = []
remove_nth (m ∷ ms) zero = ms
remove_nth (m ∷ ms) (suc n) = m ∷ remove_nth ms n

abbrev search_from : ℕ → ℕ → (ℕ → Bool) → ℕ
search_from i zero f = i
search_from i (suc n) f = let rest = search_from (suc i) n f in if f i then i else rest

abbrev newest_first : HeapOps
newest_first = record {
  push = λ l m. m ∷ l;
  remove_at = remove_nth;
  search = λ n f. search_from 0 n f;
}

remove_nth-counts :
    (l : List Stored) (n : ℕ) (f : Stored → Bool)
    → weight_if f (get_elem? l n) + count_if f (remove_nth l n) ≡ count_if f l
unfolding count_if
remove_nth-counts [] n i = omega arith
remove_nth-counts (m ∷ ms) zero i = refl
remove_nth-counts (m ∷ ms) (suc n) i = omega (arith, remove_nth-counts ms n i)

newest_first-HeapLaws : HeapLaws newest_first
unfolding count_if
newest_first-HeapLaws = record { push_counts = λ l m i. refl; remove_counts = remove_nth-counts }

abbrev one_message : MemoryStore
one_message = (add_message newest_first new_memory_store 10 blank).0

abbrev one_message-IsDistinct : IsDistinct one_message
one_message-IsDistinct =
    (add_message-IsDistinct newest_first new_memory_store 10 blank newest_first-HeapLaws
      new_memory_store-IsDistinct).0

abbrev two_messages : MemoryStore
two_messages = (add_message newest_first one_message 20 blank).0

newer_than_ten : length (messages_newer_than newest_first two_messages 10) ≡ 1
unfolding messages_newer_than add_message
newer_than_ten = refl

-- The second message is taken out, and another one comes.
abbrev store_calls : List StoreCall
store_calls =
    add_call 10 blank ∷ add_call 20 blank ∷ remove_call (counter 1) ∷ add_call 30 blank ∷ []

run_memory-Refines_example :
    Refines
      (run_memory newest_first new_memory_store store_calls)
      (run_known nothing_known store_calls)
run_memory-Refines_example = run_memory-Refines newest_first store_calls newest_first-HeapLaws
