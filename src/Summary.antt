-- ===== src/Summary.antt =====
-- messages.go: `Compact`, `Summarize` and `Stats`, which roll the messages of a batch into a summary.
--
-- The map `uniques` of `Compact` and its slice `result` hold the same objects, each under its own
-- `Template`: they are one list, searched by the template. `group` is the user's expression, and
-- `none` its error. A `time.Time` is a number of nanoseconds since Go's zero time, which is 0.
-- The body of a message is a reader, empty once it has been read to its end: `Readers` has the ids of
-- the messages whose body was read.
pub mod Tally
pub mod Dates
pub mod Compacts
pub mod Text
use failmail.Base.{
  ℕ, zero, suc, ◌+◌, ◌==◌, Bool, true, false, not, ◌&&◌, ◌||◌, Option, none, some, List, [], ◌∷◌,
  ◌++◌, ltb, if◌then◌else◌, Str, bytes, eq_str, decimal, length,
}
use failmail.Message.{Mail, Received}
use failmail.Buffer.{MessageId, Stored, mem_id}

pub record UniqueMessage : Type 0 where
  pub start : ℕ
  pub end : ℕ
  pub body : Str
  pub subject : Str
  pub template : Str
  pub count : ℕ

abbrev pub Readers : Type 0
Readers = List MessageId

abbrev pub read_parsed : Readers → MessageId → Option Mail → Option Str
read_parsed read i none = some (bytes "[no message body]")
read_parsed read i (some mail) = if mem_id i read then some [] else mail.body

-- `ReadBody`; `none` is its error.
unfoldable pub read_body : Readers → Stored → Option Str
unfolding mem_id
read_body read s = read_parsed read s.id s.message.parsed

-- `&UniqueMessage{Template: key}`
abbrev pub fresh_unique : Str → UniqueMessage
fresh_unique key = record { start = 0; end = 0; body = []; subject = []; template = key; count = 0 }

-- `if _, ok := uniques[key]; !ok { … }`
unfoldable pub open_unique : Str → List UniqueMessage → List UniqueMessage
open_unique key [] = fresh_unique key ∷ []
open_unique key (u ∷ us) =
    let rest = open_unique key us in if eq_str u.template key then u ∷ us else u ∷ rest

-- A change of the object that `uniques[key]` points to.
unfoldable pub update :
    (UniqueMessage → UniqueMessage) → Str → List UniqueMessage → List UniqueMessage
update f key [] = []
update f key (u ∷ us) =
    let rest = update f key us in if eq_str u.template key then f u ∷ us else u ∷ rest

-- `t.IsZero() || date.Before(t)` and `t.IsZero() || date.After(t)`
abbrev pub earlier : ℕ → ℕ → ℕ
earlier t date = if t == 0 || ltb date t then date else t

abbrev pub later : ℕ → ℕ → ℕ
later t date = if t == 0 || ltb t date then date else t

abbrev pub stamp : Option ℕ → UniqueMessage → UniqueMessage
stamp none u = u
stamp (some date) u = record u { start = earlier u.start date; end = later u.end date }

abbrev pub fill : Mail → Str → UniqueMessage → UniqueMessage
fill mail body u = record u {
  body = body;
  subject = mail.header (bytes "subject");
  count = suc u.count;
}

pub record Compacting : Type 0 where
  pub result : List UniqueMessage
  pub read : Readers

-- How `Compact` ends, or one round of its loop.
pub data Outcome : Type 0 where
  panicked : Outcome
  failed done : Compacting → Outcome

abbrev pub finish_one : Compacting → Str → Stored → Mail → Option Str → Outcome
finish_one c key s mail none = failed c
finish_one c key s mail (some body) =
    done (record { result = update (fill mail body) key c.result; read = s.id ∷ c.read })

-- `msg.Parsed` is a nil pointer where the message was not parsed.
abbrev pub compact_parsed : Compacting → Str → Stored → Option Mail → Outcome
compact_parsed c key s none = panicked
compact_parsed c key s (some mail) =
    let stamped = update (stamp mail.date) key (open_unique key c.result) in
    finish_one (record c { result = stamped }) key s mail (read_body c.read s)

abbrev pub compact_keyed : Compacting → Stored → Option Str → Outcome
compact_keyed c s none = failed c
compact_keyed c s (some key) = compact_parsed c key s s.message.parsed

abbrev pub and_then : Outcome → (Compacting → Outcome) → Outcome
and_then panicked f = panicked
and_then (failed c) f = failed c
and_then (done c) f = f c

-- The loop of `Compact`.
unfoldable pub compact_from : (Received → Option Str) → Compacting → List Stored → Outcome
unfolding read_body open_unique update
compact_from group c [] = done c
compact_from group c (s ∷ ss) =
    and_then (compact_keyed c s (group s.message)) (λ c'. compact_from group c' ss)

-- `Compact`
unfoldable pub compact : (Received → Option Str) → Readers → List Stored → Outcome
unfolding compact_from
compact group read ss = compact_from group (record { result = []; read = read }) ss

pub record SummaryStats : Type 0 where
  pub total_messages : ℕ
  pub first_message_time : ℕ
  pub last_message_time : ℕ

abbrev pub tally_stats : SummaryStats → UniqueMessage → SummaryStats
tally_stats t u = record {
  total_messages = t.total_messages + u.count;
  first_message_time = earlier t.first_message_time u.start;
  last_message_time = later t.last_message_time u.end;
}

-- The loop of `Stats`.
unfoldable pub stats_from : SummaryStats → List UniqueMessage → SummaryStats
stats_from t [] = t
stats_from t (u ∷ us) = stats_from (tally_stats t u) us

-- `SummaryMessage.Stats`
unfoldable pub stats : List UniqueMessage → SummaryStats
unfolding stats_from
stats us =
    stats_from (record { total_messages = 0; first_message_time = 0; last_message_time = 0 }) us

-- `Plural`
unfoldable pub plural : ℕ → Str → Str → Str
unfolding decimal
plural count singular many = decimal count ++ (b' ' ∷ (if count == 1 then singular else many))

pub record SummaryMessage : Type 0 where
  pub from : Str
  pub to : List Str
  pub subject : Str
  pub date : ℕ
  pub stored_messages : List Stored
  pub unique_messages : List UniqueMessage

abbrev summary_subject : ℕ → List UniqueMessage → Str
summary_subject n (u ∷ []) =
    bytes "[failmail] "
    ++ plural n (bytes "instance") (bytes "instances")
    ++ bytes ": "
    ++ u.subject
summary_subject n us =
    bytes "[failmail] "
    ++ plural n (bytes "instance") (bytes "instances")
    ++ bytes " of "
    ++ plural (length us) (bytes "message") (bytes "messages")

abbrev pub Summarized : Type 0
Summarized = SummaryMessage × Bool × Readers

abbrev empty_summary : SummaryMessage
empty_summary = record {
  from = [];
  to = [];
  subject = [];
  date = 0;
  stored_messages = [];
  unique_messages = [];
}

abbrev pub summary_of : Str → Str → ℕ → List Stored → Outcome → Option Summarized
summary_of from to now ss panicked = none
summary_of from to now ss (failed c) = some (empty_summary, true, c.read)
summary_of from to now ss (done c) = some (
  record {
    from = from;
    to = to ∷ [];
    subject = summary_subject (length ss) c.result;
    date = now;
    stored_messages = ss;
    unique_messages = c.result;
  },
  false,
  c.read,
)

-- `Summarize` at the time `now`: the summary, whether there was an error, and the bodies read by
-- then. A panic is `none`.
unfoldable pub summarize :
    (Received → Option Str) → Readers → Str → Str → ℕ → List Stored → Option Summarized
unfolding compact plural bytes
summarize group read from to now ss = summary_of from to now ss (compact group read ss)
