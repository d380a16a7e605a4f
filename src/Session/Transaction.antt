-- ===== src/Session/Transaction.antt =====
-- session.go: `setFrom`, `addTo` and `setData` as mail transactions.
use failmail.Base.{
  ℕ, ◌≡◌, refl, ap, ◌∙◌, Bool, true, false, Option, none, some, List, [], ◌∷◌, ◌++◌, arith,
  if◌then◌else◌, Str, is_empty, All,
}
use failmail.Message.{Mail, Received}
use failmail.Session.{Session, set_from, add_to, set_data}
use failmail.Session.Valid.{IsValid, set_from-IsValid, add_to-IsValid, set_data-IsValid}

-- The specification. There is no transaction, or one with a sender and the recipients so far.
abbrev pub Transaction : Type 0
Transaction = Option (Str × List Str)

pub data Event : Type 0 where
  mail_from rcpt_to data_text : Str → Event

-- What the client and the storage see of an event: the code, and a message with its envelope.
pub record Seen : Type 0 where
  pub code : ℕ
  pub message : Option (Str × List Str × Str)

abbrev pub seen_as : ℕ → Seen
seen_as code = record { code = code; message = none }

module _ (parses : Str → Bool) where
  abbrev pub specified : Transaction → Event → Transaction × Seen
  specified none (mail_from from) = (some (from, []), seen_as 250)
  specified none (rcpt_to to) = (none, seen_as 503)
  specified none (data_text text) = (none, seen_as 503)
  specified (some t) (mail_from from) = (some t, seen_as 503)
  specified (some (from, tos)) (rcpt_to to) = (some (from, tos ++ to ∷ []), seen_as 250)
  specified (some (from, [])) (data_text text) = (some (from, []), seen_as 503)
  specified (some (from, to ∷ tos)) (data_text text) =
      if parses text
      then (none, record { code = 250; message = some (from, to ∷ tos, text) })
      else (some (from, to ∷ tos), seen_as 451)

  unfoldable pub run_specified : Transaction → List Event → Transaction × List Seen
  run_specified t [] = (t, [])
  run_specified t (e ∷ es) =
      let (t', seen) = specified t e in
      let (last, later) = run_specified t' es in (last, seen ∷ later)

abbrev pub parsed_by : (Str → Option Mail) → Str → Bool
parsed_by read_message text = elim (read_message text) [ none ↦ false | some mail ↦ true ]

abbrev handed : Option Received → Option (Str × List Str × Str)
handed none = none
handed (some m) = some (m.from, m.to, m.payload)

module _ (read_message : Str → Option Mail) where
  abbrev pub handle : Session → Event → Session × Seen
  handle s (mail_from from) = let (s', r) = set_from s from in (s', seen_as r.code)
  handle s (rcpt_to to) = let (s', r) = add_to s to in (s', seen_as r.code)
  handle s (data_text text) =
      let (s', r, m) = set_data read_message s text in
      (s', record { code = r.code; message = handed m })

  unfoldable pub run_session : Session → List Event → Session × List Seen
  unfolding set_from add_to set_data
  run_session s [] = (s, [])
  run_session s (e ∷ es) =
      let (s', seen) = handle s e in let (last, later) = run_session s' es in (last, seen ∷ later)

abbrev transaction_of : Str → List Str → Transaction
transaction_of [] tos = none
transaction_of (c ∷ from) tos = some (c ∷ from, tos)

-- The transaction that a session stands for.
abbrev pub view : Session → Transaction
view s = transaction_of s.received.from s.received.to

-- The sender of a MAIL command is not empty: the empty path is `<>`.
abbrev pub IsNamed : Event → Type 0
IsNamed (mail_from from) = is_empty from ≡ false
IsNamed (rcpt_to to) = Unit
IsNamed (data_text text) = Unit

module _ (read_message : Str → Option Mail) where
  abbrev spec : Transaction → Event → Transaction × Seen
  spec = specified (parsed_by read_message)

  handle-specified :
      (s : Session) (e : Event)
      → IsValid s
      → IsNamed e
      → (view (handle read_message s e).0, (handle read_message s e).1) ≡ spec (view s) e
  unfolding set_from add_to set_data
  handle-specified s (mail_from from) v named = ground (arith, v.no_payload, v.sender_first)
  handle-specified s (rcpt_to to) v named = ground (arith, v.no_payload, v.sender_first)
  handle-specified s (data_text text) v named = ground (arith, v.no_payload, v.sender_first)

  handle-IsValid : (s : Session) (e : Event) → IsValid s → IsValid (handle read_message s e).0
  handle-IsValid s (mail_from from) v = set_from-IsValid v from
  handle-IsValid s (rcpt_to to) v = add_to-IsValid v to
  handle-IsValid s (data_text text) v = set_data-IsValid v read_message text

  -- A valid session refines the specification: on every sequence of MAIL with a sender, RCPT and
  -- message texts it answers with the same codes, hands on the same messages with the same
  -- envelopes, and ends in the same transaction.
  pub run_session-run_specified :
      (s : Session) (es : List Event)
      → IsValid s
      → All IsNamed es
      → (view (run_session read_message s es).0, (run_session read_message s es).1)
        ≡ run_specified (parsed_by read_message) (view s) es
  unfolding run_session run_specified
  run_session-run_specified s [] v named = refl
  run_session-run_specified s (e ∷ es) v (named, later) =
      let s' = (handle read_message s e).0 in
      let seen = (handle read_message s e).1 in
      let rest = run_session-run_specified s' es (handle-IsValid s e v) later in
      let follow : Transaction × Seen → Transaction × List Seen = λ x. (
        (run_specified (parsed_by read_message) x.0 es).0,
        x.1 ∷ (run_specified (parsed_by read_message) x.0 es).1,
      ) in
      ap (λ (x : Transaction × List Seen). (x.0, seen ∷ x.1)) rest
      ∙ ap follow (handle-specified s e v named)
