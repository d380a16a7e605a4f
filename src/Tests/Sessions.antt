-- ===== src/Tests/Sessions.antt =====
-- Sessions and connections on concrete input.
use failmail.Base.{
  ◌≡◌, refl, true, Option, none, some, List, [], ◌∷◌, ◌++◌, map, Str, bytes, eq_str,
}
use failmail.Parse.{Node, node, no_children, child, nil, find_child}
use failmail.Smtp.{smtp_parser}
use failmail.Message.{Mail, blank}
use failmail.Session.{
  Session, PlainAuth, Decode, unencrypted, start, advance, read_command, read_data, incomplete,
  reply,
}
use failmail.Session.Data.{end_line, concat, answer_to, read_data_lem}
use failmail.Session.Valid.{Reads, start-IsValid, read_command-Reads}
use failmail.Session.Gate.{AllPass, advance-Passes}
use failmail.Connection.{Conn, Server, End, returned, waits, answered, handle_connection}

abbrev crlf : Str
crlf = 13 ∷ 10 ∷ []

abbrev user : PlainAuth
user = record { username = bytes "u"; password = bytes "p"; allow_unencrypted_auth = true }

-- Credentials as they are, and every text a message without headers.
abbrev plain : Decode
plain s = some s

abbrev any_mail : Str → Option Mail
any_mail t = some (record { header = λ k. []; date = none; body = some t })

abbrev server : Server
server = record {
  decode = plain;
  read_message = any_mail;
  rewrite_all = λ to. to;
  answers = λ i. answered none;
}

abbrev begin : Option PlainAuth → Session
begin auth = (start none auth unencrypted).0

read_command-Reads_example :
    Reads plain
      (start-IsValid none (some user) unencrypted)
      ((bytes "MAIL FROM:<a@b>" ++ crlf) ∷ [])
      (read_command plain (begin (some user)) ((bytes "MAIL FROM:<a@b>" ++ crlf) ∷ []))
read_command-Reads_example =
    read_command-Reads plain (start-IsValid none (some user) unencrypted)
      ((bytes "MAIL FROM:<a@b>" ++ crlf) ∷ [])

-- The node of `AUTH PLAIN` with credentials.
abbrev auth_command : Node
auth_command =
    node (bytes "AUTH PLAIN x")
      (child (bytes "command") (node (bytes "AUTH") no_children nil) (
        child (bytes "type") (node (bytes "PLAIN") no_children nil)
          (child (bytes "payload") (node (0 ∷ 117 ∷ 0 ∷ 112 ∷ []) no_children nil) no_children)))
      nil

advance-Passes_example :
    AllPass plain (begin (some user)) (advance plain (begin (some user)) (some auth_command))
advance-Passes_example = advance-Passes plain (begin (some user)) (some auth_command)

abbrev client : List Str
client =
    (bytes "MAIL FROM:<a@b>" ++ crlf)
    ∷ (bytes "RCPT TO:<c@d>" ++ crlf)
    ∷ (bytes "DATA" ++ crlf)
    ∷ (bytes "hello" ++ crlf)
    ∷ (bytes "." ++ crlf)
    ∷ (bytes "QUIT" ++ crlf)
    ∷ []

abbrev connect : List Str → Conn
connect lines = record {
  session = begin none;
  lines = lines;
  tls_lines = [];
  net_conn = true;
  writer = record { written = []; failures = [] };
  stored = [];
}

abbrev payloads : Option End → List (Str × Str × List Str)
payloads none = []
payloads (some (waits c)) = []
payloads (some (returned c)) = map (λ m. (m.payload, m.from, m.redirected_to)) c.stored

-- One message is stored.
stores_one :
    payloads (handle_connection server (connect client) none unencrypted none)
    ≡ (bytes "hello" ++ crlf, bytes "a@b", bytes "c@d" ∷ []) ∷ []
unfolding handle_connection bytes smtp_parser eq_str find_child
stores_one = refl

-- The same lines, where the client must authenticate first.
stores_none : payloads (handle_connection server (connect client) (some user) unencrypted none) ≡ []
unfolding handle_connection bytes smtp_parser eq_str find_child
stores_none = refl

-- An envelope with a sender and a recipient.
abbrev addressed : Session
addressed = record (begin none) {
  received = record blank { from = bytes "a@b"; to = bytes "c@d" ∷ [] };
}

read_data_lem_example :
    (read_data any_mail addressed ((bytes "hi" ++ crlf) ∷ end_line ∷ bytes "QUIT" ∷ []) ≡ (
      answer_to addressed
          (concat ((bytes "hi" ++ crlf) ∷ []))
          (incomplete addressed.received)
          (any_mail (concat ((bytes "hi" ++ crlf) ∷ []))),
      bytes "QUIT" ∷ [],
    ))
    × (read_data any_mail addressed ((bytes "hi" ++ crlf) ∷ [])
        ≡ ((addressed, reply 451 (bytes "Failed to read data"), none), []))
unfolding eq_str bytes
read_data_lem_example =
    read_data_lem any_mail addressed ((bytes "hi" ++ crlf) ∷ []) (bytes "QUIT" ∷ []) refl
