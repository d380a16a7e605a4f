-- ===== src/Main/Status.antt =====
-- http.go: what the handler of `ListenHTTP` answers.
--
-- `marshal` stands for encoding/json on `BufferStats`; `none` is an error.
use failmail.Base.{ℕ, Option, none, some, [], ◌∷◌, ◌++◌, Str, bytes}
use failmail.Buffer.{Limits, Batches}
use failmail.Buffer.Stats.{BufferStats, buffer_stats}

pub record HttpAnswer : Type 0 where
  pub status : ℕ
  pub body : Str

abbrev pub answer_with : Option Str → HttpAnswer
answer_with none = record { status = 500; body = bytes "{}" ++ 10 ∷ [] }
answer_with (some text) = record { status = 200; body = text ++ 10 ∷ [] }

-- The handler.
unfoldable pub serve_status : (BufferStats → Option Str) → Limits → Batches → ℕ → HttpAnswer
unfolding buffer_stats bytes
serve_status marshal limits b now = answer_with (marshal (buffer_stats limits b now))
