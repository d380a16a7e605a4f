-- ===== src/Message.antt =====
-- messages.go: received messages. Of a parsed `*mail.Message` the program reads header fields, the
-- date (an error is `none`) and the body (unreadable is `none`).
use failmail.Base.{ℕ, Option, none, List, [], ◌∷◌, Str}

pub record Mail : Type 0 where
  pub header : Str → Str
  pub date : Option ℕ
  pub body : Option Str

-- `ReceivedMessage` with the embedded `message`.
pub record Received : Type 0 where
  pub from : Str
  pub to : List Str
  pub payload : Str
  pub parsed : Option Mail
  pub redirected_to : List Str

abbrev pub blank : Received
blank = record { from = []; to = []; payload = []; parsed = none; redirected_to = [] }

abbrev pub choose_recipients : List Str → List Str → List Str
choose_recipients to [] = to
choose_recipients to (a ∷ as') = a ∷ as'

-- `ReceivedMessage.Recipients`
unfoldable pub recipients : Received → List Str
recipients r = choose_recipients r.to r.redirected_to
