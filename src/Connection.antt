-- ===== src/Connection.antt =====
-- downstream.go: `handleConnection`, the loop that reads the commands of one client.
--
-- The two ends of the loop that are not under the program's control are part of `Conn`: the lines
-- that the client sends (`lines`, and `tls_lines` once the connection has been upgraded, when the
-- reader is reset) and the calls of the writer that fail. `answers` says what becomes of each message
-- that is put on the channel, by how many were put there before. `rewrite_all` is the method
-- `RewriteAll` of the listener's rewriter.
pub mod Handed
pub mod Sound
use failmail.Base.{
  ℕ, zero, suc, ◌+◌, Bool, true, false, Option, none, some, List, [], ◌∷◌, ◌++◌, if◌then◌else◌, Str,
  length,
}
use failmail.Message.{Mail, Received}
use failmail.Session.{
  Session, Response, reply, Security, tls_post_starttls, PlainAuth, Decode, start, read_command,
  read_data, read_auth_response, is_close, needs_data, needs_auth_response, starts_tls, Read,
}
use failmail.Session.Reply.{Writer, write_response}

pub record Conn : Type 0 where
  pub session : Session
  pub lines : List Str
  pub tls_lines : List Str
  pub net_conn : Bool
  pub writer : Writer
  pub stored : List Received

-- What the channel of messages and the storage do with one: they answer it, with an error or none;
-- they take it, and never answer; nobody takes it; or the channel is closed, and the send panics.
pub data StorageAnswer : Type 0 where
  answered : Option Str → StorageAnswer
  unanswered untaken closed : StorageAnswer

-- What stays the same on a connection.
pub record Server : Type 0 where
  pub decode : Decode
  pub read_message : Str → Option Mail
  pub rewrite_all : List Str → List Str
  pub answers : ℕ → StorageAnswer

-- How a round of the loop ends: with another round, with the return of the function, or not at all,
-- since it waits for the channel or for the storage.
pub data Round : Type 0 where
  again finished blocked : Conn → Round

-- How the function ends: it returns, or waits for ever.
pub data End : Type 0 where
  returned waits : Conn → End

-- A failed write inside the switch leaves the switch, not the loop.
unfoldable pub send : Conn → Response → Conn
unfolding write_response
send c r = record c { writer = (write_response c.writer r).1 }

abbrev pub storage_reply : Response → Option Str → Response
storage_reply r none = r
storage_reply r (some err) = reply 451 err

-- `received <- request`, the answer of the storage, and the reply to it; `none` is a panic.
abbrev pub hand_over : Conn → Response → Received → StorageAnswer → Option Round
hand_over c r kept (answered err) =
    some (again (send (record c { stored = c.stored ++ kept ∷ [] }) (storage_reply r err)))
hand_over c r kept unanswered = some (blocked (record c { stored = c.stored ++ kept ∷ [] }))
hand_over c r kept untaken = some (blocked c)
hand_over c r kept closed = none

-- Without a message there is no reply.
unfoldable pub store_message : Server → Conn → Response → Option Received → Option Round
unfolding send
store_message server c r none = some (again c)
store_message server c r (some msg) =
    hand_over c r (record msg { redirected_to = server.rewrite_all msg.to })
      (server.answers (length c.stored))

-- `case resp.NeedsData()`
unfoldable pub handle_data : Server → Conn → Option Round
unfolding read_data store_message
handle_data server c =
    let ((s, r, msg), rest) = read_data server.read_message c.session c.lines in
    store_message server (record c { session = s; lines = rest }) r msg

abbrev after_auth : Conn → Option Read → Option Conn
after_auth c none = none
after_auth c (some ((s, r), failed, rest)) = some (send (record c { session = s; lines = rest }) r)

-- `case resp.NeedsAuthResponse()`
unfoldable pub handle_auth : Server → Conn → Option Conn
unfolding read_auth_response send
handle_auth server c = after_auth c (read_auth_response server.decode c.session c.lines)

-- Whether `conn` is a `net.Conn`.
abbrev pub upgrade : Bool → Conn → Round
upgrade true c = again (record c {
  session = record c.session { security = tls_post_starttls };
  lines = c.tls_lines;
  tls_lines = [];
})
upgrade false c = finished c

-- `case resp.StartsTLS()`
unfoldable pub handle_starttls : Conn → Round
handle_starttls c = upgrade c.net_conn c

abbrev resume : Option Conn → Option Round
resume none = none
resume (some c) = some (again c)

-- The switch on the response.
unfoldable pub handle_response : Server → Conn → Response → Option Round
unfolding handle_data handle_auth handle_starttls is_close needs_data needs_auth_response starts_tls
handle_response server c r =
    if is_close r
    then some (finished c)
    else if needs_data r
    then handle_data server c
    else if needs_auth_response r
    then resume (handle_auth server c)
    else if starts_tls r
    then some (handle_starttls c)
    else some (again c)

abbrev after_command : Server → Conn → Option Read → Option Round
after_command server c none = none
after_command server c (some ((s, r), failed, rest)) =
    let read = record c { session = s; lines = rest } in
    let (broken, w) = write_response c.writer r in
    if failed
    then some (finished read)
    else if broken
    then some (finished (record read { writer = w }))
    else handle_response server (record read { writer = w }) r

-- One round of the loop.
unfoldable pub round : Server → Conn → Option Round
unfolding read_command handle_response write_response
round server c = after_command server c (read_command server.decode c.session c.lines)

abbrev pub next_round : (Conn → Option End) → Option Round → Option End
next_round rest none = none
next_round rest (some (finished c)) = some (returned c)
next_round rest (some (blocked c)) = some (waits c)
next_round rest (some (again c)) = rest c

-- The loop, on fuel: `none` is a panic or fuel that ran out.
unfoldable pub loop : ℕ → Server → Conn → Option End
unfolding round
loop zero server c = none
loop (suc fuel) server c = next_round (loop fuel server) (round server c)

-- A round reads a line.
abbrev pub rounds : Conn → ℕ
rounds c = length c.lines + length c.tls_lines

unfoldable pub greet : Conn → Option PlainAuth → Security → Option Str → Bool × Conn
unfolding start write_response
greet c auth security host =
    let (s, r) = start host auth security in
    let (failed, w) = write_response c.writer r in (failed, record c { session = s; writer = w })

-- `handleConnection`
unfoldable pub handle_connection :
    Server → Conn → Option PlainAuth → Security → Option Str → Option End
unfolding loop greet
handle_connection server c auth security host =
    let (failed, c') = greet c auth security host in
    if failed then some (returned c') else loop (suc (rounds c')) server c'
