-- ===== src/Store.antt =====
-- message_stores.go: `MemoryStore`.
--
-- `HeapOps` stands for container/heap on a `TimeOrdered` (`heap.Push`, `heap.Remove`), whose methods
-- are in Store/TimeOrdered, and for `sort.Search`; `HeapLaws` says of the former that they add one message and take one out, in
-- whatever order the rest is then.
pub mod Distinct
pub mod Refines
pub mod TimeOrdered
use failmail.Base.{
  ℕ, zero, suc, ◌+◌, ◌<◌, ◌≡◌, Bool, true, false, not, Option, none, some, List, [], ◌∷◌,
  if◌then◌else◌, length, take, get_elem?, ltb,
}
use failmail.Message.{Received}
use failmail.Buffer.{MessageId, counter, id_beq, Stored}

pub record HeapOps : Type 0 where
  pub push : List Stored → Stored → List Stored
  pub remove_at : List Stored → ℕ → List Stored
  pub search : ℕ → (ℕ → Bool) → ℕ

pub record MemoryStore : Type 0 where
  pub messages : List Stored
  pub next_id : ℕ

-- `NewMemoryStore`
abbrev pub new_memory_store : MemoryStore
new_memory_store = record { messages = []; next_id = 0 }

-- `MemoryStore.Add`
unfoldable pub add_message : HeapOps → MemoryStore → ℕ → Received → MemoryStore × MessageId
add_message h s now msg =
    let m : Stored = record { id = counter s.next_id; received = now; message = msg } in
    (record { messages = h.push s.messages m; next_id = suc s.next_id }, m.id)

abbrev pub behind : Option ℕ → Option ℕ
behind none = none
behind (some n) = some (suc n)

-- The first index `i` with `m.Id == id`.
unfoldable pub index_of : MessageId → List Stored → Option ℕ
unfolding id_beq
index_of i [] = none
index_of i (m ∷ ms) = let rest = index_of i ms in if id_beq m.id i then some 0 else behind rest

abbrev pub remove_found : HeapOps → MemoryStore → Option ℕ → MemoryStore
remove_found h s none = s
remove_found h s (some n) = record s { messages = h.remove_at s.messages n }

-- `MemoryStore.Remove`
unfoldable pub remove_message : HeapOps → MemoryStore → MessageId → MemoryStore
unfolding index_of
remove_message h s i = remove_found h s (index_of i s.messages)

abbrev pub not_newer : ℕ → Option Stored → Bool
not_newer t none = true
not_newer t (some m) = not (ltb t m.received)

-- `MemoryStore.MessagesNewerThan`
unfoldable pub messages_newer_than : HeapOps → MemoryStore → ℕ → List Stored
messages_newer_than h s t =
    take (h.search (length s.messages) (λ k. not_newer t (get_elem? s.messages k))) s.messages
