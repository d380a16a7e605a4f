-- ===== src/Tests/Summaries.antt =====
-- Summaries of concrete batches.
use failmail.Base.{
  decimal, ℕ, ◌≤◌, arith, ◌≡◌, refl, Option, some, List, [], ◌∷◌, Str, bytes, eq_str, map, All,
}
use failmail.Message.{Mail, Received}
use failmail.Buffer.{Stored, counter, mem_id, id_beq}
use failmail.Summary.{
  Compacting, Outcome, done, compact, compact_from, read_body, open_unique, update,
}
use failmail.Buffer.{Request}
use failmail.Summary.{SummaryMessage}
use failmail.Summary.Text.{Formats}
use failmail.Render.{no_renderer}
use failmail.Render.Requests.{Summaries, readable}
use failmail.Summary.Compacts.{Readable, IsCompaction, compact-IsCompaction}

abbrev mail_at : ℕ → Str → Mail
mail_at date text = record { header = λ k. text; date = some date; body = some text }

abbrev report : ℕ → ℕ → Str → Stored
report n date text = record {
  id = counter n;
  received = date;
  message = record {
    from = text;
    to = bytes "a" ∷ [];
    payload = text;
    parsed = some (mail_at date text);
    redirected_to = [];
  };
}

abbrev by_sender : Received → Option Str
by_sender r = some r.from

abbrev batch : List Stored
batch = report 1 30 (bytes "x") ∷ report 2 20 (bytes "y") ∷ report 3 10 (bytes "x") ∷ []

abbrev report-Readable :
    (n date : ℕ) (text : Str) → 1 ≤ date → Readable by_sender (report n date text)
report-Readable n date text dated = record {
  key = text;
  mail = mail_at date text;
  text = text;
  keyed = refl;
  parsed = refl;
  readable = refl;
  dated = dated;
}

abbrev batch-Readable : All (Readable by_sender) batch
batch-Readable = (
  report-Readable 1 30 (bytes "x") (omega arith),
  (
    report-Readable 2 20 (bytes "y") (omega arith),
    (report-Readable 3 10 (bytes "x") (omega arith), tt),
  ),
)

compact-IsCompaction_example :
    (c : Compacting) × (compact by_sender [] batch ≡ done c) × IsCompaction by_sender batch c.result
compact-IsCompaction_example = compact-IsCompaction by_sender [] batch batch-Readable

abbrev bodies : Outcome → List Str
bodies (done c) = map (λ u. u.body) c.result
bodies _ = []

-- The body of a message that was read for another summary is empty.
read_twice : bodies (compact by_sender (counter 1 ∷ []) (report 1 30 (bytes "x") ∷ [])) ≡ [] ∷ []
unfolding compact compact_from open_unique update read_body eq_str bytes mem_id id_beq
read_twice = refl

abbrev formats : Formats
formats = record { rfc822 = decimal; rfc1123z = decimal; quoted = λ t. t }

abbrev summaries : Summaries
summaries = record {
  group = by_sender;
  from = bytes "f";
  formats = formats;
  renderer = no_renderer;
}

abbrev request : Request
request = record { recipient = record { key = bytes "s"; recipient = bytes "a" }; batch = batch }

abbrev summary : SummaryMessage
summary = record {
  from = bytes "f";
  to = bytes "a" ∷ bytes "b" ∷ [];
  subject = bytes "s";
  date = 7;
  stored_messages = [];
  unique_messages = [];
}
