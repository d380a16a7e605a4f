-- ===== src/Buffer.antt =====
-- messages.go: `batches` and `MessageBuffer`, which collects stored messages into a batch for each
-- recipient and decides when a batch is summarized and sent.
--
-- A `time.Time` is the number of nanoseconds since Go's zero time, which is 0. The limits are
-- durations that are not negative. The order in which `range` visits a map is a parameter, `order`.
-- The channel to the sender with its channel of errors is the parameter `fails`: whether the answer
-- to a request is an error. The group expression and the clean-up of addresses are `batch` and
-- `normalize` (a template of the user, and `mail.ParseAddress`); what the summary says does not
-- change what `Flush` does, since an error of `Summarize` is only logged.
mod Keys
pub mod Gather
pub mod Arrives
pub mod Removes
pub mod Stats
pub mod Run
pub mod Kept
pub mod Due
pub mod Sends
pub mod Waits
unfoldable pub use Keys.*
use failmail.Base.{
  ℕ, ◌+◌, Bool, true, false, not, ◌&&◌, ◌||◌, Option, none, some, List, [], ◌∷◌, ◌++◌, ltb,
  if◌then◌else◌, Str, to_lower, lookup, insert, remove, Eq,
}
use failmail.Message.{Received, recipients}

pub record Batches : Type 0 where
  pub first : List (RecipientKey × ℕ)
  pub last : List (RecipientKey × ℕ)
  pub messages : List (RecipientKey × List Stored)

-- `NewBatches`
abbrev pub new_batches : Batches
new_batches = record { first = []; last = []; messages = [] }

-- `m[k]` of a map of times, zero where the key is missing.
abbrev pub time_or_zero : Option ℕ → ℕ
time_or_zero none = 0
time_or_zero (some t) = t

-- `m[k]` of a map of slices, nil where the key is missing.
abbrev pub slice_or_nil {ℓ} : {A : Type ℓ} → Option (List A) → List A
slice_or_nil none = []
slice_or_nil (some l) = l

-- `if _, ok := b.first[key]; !ok { … }`
abbrev pub open_batch : Option ℕ → Batches → RecipientKey → Stored → Batches
open_batch (some t) b key s = b
open_batch none b key s = record b {
  first = insert key s.received b.first;
  messages = insert key [] b.messages;
}

-- `batches.Add`
unfoldable pub add : Batches → RecipientKey → Stored → Batches
add b key s =
    let opened = open_batch (lookup key b.first) b key s in
    record opened {
      last = insert key s.received opened.last;
      messages = insert key (slice_or_nil (lookup key opened.messages) ++ s ∷ []) opened.messages;
    }

-- `batches.Remove`
unfoldable pub remove_batch : Batches → RecipientKey → Batches
remove_batch b key = record {
  messages = remove key b.messages;
  first = remove key b.first;
  last = remove key b.last;
}

pub record Limits : Type 0 where
  pub soft_limit : ℕ
  pub hard_limit : ℕ

-- `now.Sub(t) < limit`, for a limit that is not negative.
abbrev pub sub_lt : ℕ → ℕ → ℕ → Bool
sub_lt now t limit = ltb now (t + limit)

-- `NeedsFlush`
unfoldable pub needs_flush : Limits → Batches → ℕ → RecipientKey → Bool
needs_flush limits b now key = not (
    sub_lt now (time_or_zero (lookup key b.first)) limits.hard_limit
    && sub_lt now (time_or_zero (lookup key b.last)) limits.soft_limit)

-- `NormalizeAddress`, on what `mail.ParseAddress` returns; `none` is an error.
abbrev pub normalize_address : (Str → Option Str) → Str → Str
normalize_address parse_address email = elim (parse_address email) [
  | none ↦ email
  | some address ↦ to_lower address
]

-- The user's batch expression, none where it fails, and `NormalizeAddress`.
pub record Expressions : Type 0 where
  pub batch : Received → Option Str
  pub normalize : Str → Str

-- `for _, to := range s.Recipients() { … }`
unfoldable pub add_recipients : Expressions → Batches → Str → Stored → List Str → Batches
unfolding add
add_recipients e b key s [] = b
add_recipients e b key s (to ∷ tos) =
    add_recipients e (add b (record { key = key; recipient = e.normalize to }) s) key s tos

abbrev pub gather_one : Expressions → Batches → Stored → Option Str → Batches
gather_one e b s none = b
gather_one e b s (some key) = add_recipients e b key s (recipients s.message)

-- `for _, s := range stored { … }`
unfoldable pub gather : Expressions → Batches → List Stored → Batches
unfolding add_recipients recipients
gather e b [] = b
gather e b (s ∷ ss) = gather e (gather_one e b s (e.batch s.message)) ss

-- A `SendRequest`: the summary of these messages for this recipient.
pub record Request : Type 0 where
  pub recipient : RecipientKey
  pub batch : List Stored

-- The variables of `Flush` while it goes through the batches.
pub record Pass : Type 0 where
  pub batches : Batches
  pub to_remove : List MessageId
  pub to_keep : List MessageId
  pub sent : List Request

abbrev pub ids : List Stored → List MessageId
ids [] = []
ids (s ∷ ss) = s.id ∷ ids ss

abbrev pub answered : Pass → RecipientKey → List Stored → Bool → Pass
answered p key msgs true = record p {
  to_keep = p.to_keep ++ ids msgs;
  sent = p.sent ++ (record { recipient = key; batch = msgs }) ∷ [];
}
answered p key msgs false = record p {
  to_remove = p.to_remove ++ ids msgs;
  batches = remove_batch p.batches key;
  sent = p.sent ++ (record { recipient = key; batch = msgs }) ∷ [];
}

pub record Flusher : Type 0 where
  pub limits : Limits
  pub now : ℕ
  pub force : Bool
  pub fails : Request → Bool

-- One round of `for key, msgs := range b.messages`; a key that is gone is not visited.
abbrev pub visit : Flusher → Pass → RecipientKey → Option (List Stored) → Pass
visit f p key none = p
visit f p key (some msgs) =
    if f.force || needs_flush f.limits p.batches f.now key
    then answered p key msgs (f.fails (record { recipient = key; batch = msgs }))
    else p

unfoldable pub send_due : Flusher → Pass → List RecipientKey → Pass
unfolding needs_flush remove_batch
send_due f p [] = p
send_due f p (key ∷ order) = send_due f (visit f p key (lookup key p.batches.messages)) order

unfoldable pub mem_id : MessageId → List MessageId → Bool
unfolding id_beq
mem_id i [] = false
mem_id i (j ∷ is) = id_beq j i || mem_id i is

-- The ids of `toRemove` that `b.Store.Remove` is called for, each once; an error of the store is only logged.
unfoldable pub removals : List MessageId → List MessageId → List MessageId
unfolding mem_id
removals keep [] = []
removals keep (i ∷ is) =
    let rest = removals keep is in if mem_id i keep || mem_id i rest then rest else i ∷ rest

pub record Buffer : Type 0 where
  pub batches : Batches
  pub last_flush : ℕ

-- What `Flush` does besides: the requests it sends and the messages it removes from the store.
pub record Effects : Type 0 where
  pub sent : List Request
  pub removed : List MessageId

-- `Flush`, with the messages that the store has.
unfoldable pub flush_stored :
    Expressions → Flusher → List RecipientKey → Buffer → List Stored → Buffer × Effects
unfolding gather send_due removals
flush_stored e f order b stored =
    let p =
      send_due f
        (record { batches = gather e b.batches stored; to_remove = []; to_keep = []; sent = [] })
        order in
    (
      record { batches = p.batches; last_flush = f.now },
      record { sent = p.sent; removed = removals p.to_keep p.to_remove },
    )

-- `Flush`, on the answer of `b.Store.MessagesNewerThan(b.lastFlush)`; `none` is its error.
unfoldable pub flush :
    Expressions
    → Flusher
    → List RecipientKey
    → Buffer
    → Option (List Stored)
    → Option (Buffer × Effects)
unfolding flush_stored
flush e f order b none = none
flush e f order b (some stored) = some (flush_stored e f order b stored)
