-- ===== src/Render/Requests.antt =====
-- The requests that `Flush` makes: a batch is summarized, and its summary is rendered.
use failmail.Base.{ℕ, ◌≡◌, Option, none, some, List, [], ◌∷◌, ◌++◌, Str, All}
use failmail.Message.{Received}
use failmail.Buffer.{RecipientKey, Request, Stored}
use failmail.Summary.{Outcome, panicked, failed, done, Readers, Summarized, summarize}
use failmail.Summary.Compacts.{Readable}
use failmail.Summary.Text.{Formats}
use failmail.Render.{Renderer, render}
use failmail.Upstream.{Outgoing}

-- What a `MessageBuffer` needs for its summaries.
pub record Summaries : Type 0 where
  pub group : Received → Option Str
  pub from : Str
  pub formats : Formats
  pub renderer : Renderer

-- What is rendered after `Summarize`: an error is only logged.
abbrev pub rendered : Summaries → Option Summarized → Option (Outgoing × Readers)
rendered b none = none
rendered b (some (summary, error, read)) = some (render b.formats b.renderer summary, read)

-- The message of a `SendRequest`, and the bodies that were read by then; `none` is a panic.
unfoldable pub outgoing_message : Summaries → Readers → ℕ → Request → Option (Outgoing × Readers)
unfolding summarize render
outgoing_message b read now r =
    rendered b (summarize b.group read b.from r.recipient.recipient now r.batch)

-- The envelope of a message.
abbrev pub Envelope : Str → List Str → Option (Outgoing × Readers) → Type 0
Envelope from to none = ⊥
Envelope from to (some (m, read)) = (m.sender ≡ from) × (m.recipients ≡ to)

-- What becomes of a batch, by how `Compact` ends on it.
abbrev ByOutcome : Summaries → RecipientKey → Outcome → Option (Outgoing × Readers) → Type 0
ByOutcome b key panicked m = m ≡ none
ByOutcome b key (failed c) m = Envelope [] [] m
ByOutcome b key (done c) m = Envelope b.from (key.recipient ∷ []) m

-- What the messages of a batch are: all can be read; or the first that cannot has no key, or has one
-- and was not parsed.
pub data Batch (group : Received → Option Str) (batch : List Stored) : Type 0 where
  readable : All (Readable group) batch → Batch group batch
  no_key :
      (ss : List Stored) (s : Stored) (rest : List Stored)
      → batch ≡ ss ++ s ∷ rest
      → All (Readable group) ss
      → group s.message ≡ none
      → Batch group batch
  not_parsed :
      (ss : List Stored) (s : Stored) (rest : List Stored) (key : Str)
      → batch ≡ ss ++ s ∷ rest
      → All (Readable group) ss
      → group s.message ≡ some key
      → s.message.parsed ≡ none
      → Batch group batch

-- The envelope that such a batch gets.
abbrev pub Addressed :
    (b : Summaries)
    → RecipientKey
    → (ss : List Stored) → Batch b.group ss
    → Option (Outgoing × Readers)
    → Type 0
Addressed b key ss (readable h) m = Envelope b.from (key.recipient ∷ []) m
Addressed b key ss (no_key _ _ _ _ _ _) m = Envelope [] [] m
Addressed b key ss (not_parsed _ _ _ _ _ _ _ _) m = m ≡ none
