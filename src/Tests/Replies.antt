-- ===== src/Tests/Replies.antt =====
-- Replies on the wire, and a transaction.
use failmail.Base.{
  ◌≡◌, refl, false, Option, none, some, List, [], ◌∷◌, ◌++◌, arith, Str, bytes, split, All,
  trim_space, split_from, has_prefix, trim_left, trim_right,
}
use failmail.Message.{Mail}
use failmail.Session.{Session, Response, reply, unencrypted, start}
use failmail.Session.Reply.{write_response, crlf}
use failmail.Session.Client.{read_reply, writing, IsLine, texts_of, write_response-read_reply}
use failmail.Session.Valid.{start-IsValid}
use failmail.Session.Transaction.{
  Event, mail_from, rcpt_to, data_text, IsNamed, view, parsed_by, run_session, run_specified,
  run_session-run_specified,
}

abbrev hello : Response
hello = reply 250 (bytes "Hello" ++ crlf ++ bytes "AUTH PLAIN")

hello_fits : All IsLine (texts_of hello)
unfolding bytes split split_from has_prefix trim_space trim_left trim_right
hello_fits = (refl, (refl, tt))

write_response-read_reply_example :
    (wire : Str) × (write_response (writing []) hello ≡ (false, writing ([] ++ wire)))
    × (read_reply wire ≡ some (250, texts_of hello))
write_response-read_reply_example =
    write_response-read_reply [] hello (omega arith) (omega arith) hello_fits

abbrev session : Session
session = (start none none unencrypted).0

abbrev reads_all : Str → Option Mail
reads_all t = some (record { header = λ k. []; date = none; body = some t })

abbrev client : List Event
client =
    rcpt_to (bytes "c")
    ∷ mail_from (bytes "a")
    ∷ rcpt_to (bytes "c")
    ∷ data_text (bytes "hi")
    ∷ data_text (bytes "hi")
    ∷ []

client-IsNamed : All IsNamed client
unfolding bytes
client-IsNamed = (tt, (refl, (tt, (tt, (tt, tt)))))

run_session-run_specified_example :
    (view (run_session reads_all session client).0, (run_session reads_all session client).1)
    ≡ run_specified (parsed_by reads_all) (view session) client
run_session-run_specified_example =
    run_session-run_specified reads_all session client (start-IsValid none none unencrypted)
      client-IsNamed
