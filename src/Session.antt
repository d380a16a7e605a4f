-- ===== src/Session.antt =====
-- session.go: the state of an SMTP session and the methods that advance it.
--
-- A result `none` is a run-time panic (a nil pointer), or fuel of the parser that ran out. `decode`
-- stands for `base64.StdEncoding.DecodeString` and `read_message` for `mail.ReadMessage`. A reader is
-- the list of the lines that `ReadString('\n')` returns in turn; after the last one it returns an
-- error.
pub mod Reply
pub mod Valid
pub mod Client
pub mod Credentials
pub mod Transaction
pub mod Gate
pub mod Data
use failmail.Base.{
  ℕ, Bool, true, false, not, ◌&&◌, ◌||◌, Option, none, some, List, [], ◌∷◌, ◌++◌, ◌==◌,
  if◌then◌else◌, Str, bytes, eq_str, is_empty, to_lower, split,
}
use failmail.Parse.{Node, text_of, get}
use failmail.Message.{Mail, Received, blank}
use failmail.Smtp.{smtp_parser}

pub data Security : Type 0 where
  unencrypted tls_pre_starttls tls_post_starttls ssl : Security

unfoldable pub is_encrypted : Security → Bool
is_encrypted tls_post_starttls = true
is_encrypted ssl = true
is_encrypted _ = false

unfoldable pub allow_starttls : Security → Bool
allow_starttls tls_pre_starttls = true
allow_starttls _ = false

pub data AuthState : Type 0 where
  not_permitted required authenticated : AuthState

pub record Response : Type 0 where
  pub code : ℕ
  pub text : Str

abbrev pub reply : ℕ → Str → Response
reply c t = record { code = c; text = t }

unfoldable pub is_close : Response → Bool
is_close r = r.code == 221

unfoldable pub needs_auth_response : Response → Bool
needs_auth_response r = r.code == 334

unfoldable pub needs_data : Response → Bool
needs_data r = r.code == 354

unfoldable pub starts_tls : Response → Bool
starts_tls r = eq_str r.text (bytes "Ready to switch to TLS")

-- `SingleUserPlainAuth`, the one implementation of `Auth`.
pub record PlainAuth : Type 0 where
  pub username : Str
  pub password : Str
  pub allow_unencrypted_auth : Bool

unfoldable pub is_permitted : PlainAuth → Security → Bool
unfolding is_encrypted
is_permitted a security = is_encrypted security || a.allow_unencrypted_auth

abbrev pub check_parts : PlainAuth → List Str → Option Bool
check_parts a (z ∷ u ∷ p ∷ []) = some (eq_str u a.username && eq_str p a.password)
check_parts a _ = none

-- `ValidCredentials`, with `none` for the error.
unfoldable pub valid_credentials : PlainAuth → Str → Option Bool
unfolding split
valid_credentials a token = check_parts a (split token (0 ∷ []))

pub record Session : Type 0 where
  pub received : Received
  pub hostname : Str
  pub auth : Option PlainAuth
  pub auth_state : AuthState
  pub security : Security

abbrev initial_auth_state : Option PlainAuth → AuthState
initial_auth_state none = not_permitted
initial_auth_state (some a) = required

-- `initHostname`, on what `hostGetter` returns.
unfoldable pub init_hostname : Option Str → Str
unfolding bytes
init_hostname none = bytes "localhost"
init_hostname (some host) = host

-- `Start`
unfoldable pub start : Option Str → Option PlainAuth → Security → Session × Response
unfolding init_hostname
start host auth security = (
  record {
    received = blank;
    hostname = init_hostname host;
    auth = auth;
    auth_state = initial_auth_state auth;
    security = security;
  },
  reply 220 (init_hostname host ++ bytes " Hi there"),
)

abbrev pub out_of_sequence : Response
out_of_sequence = reply 503 (bytes "Command out of sequence")

abbrev pub with_received : Session → Received → Session
with_received s r = record s { received = r }

-- The tests of `setFrom` and of `addTo`.
abbrev begun : Received → Bool
begun r = not (is_empty r.from) || not (is_empty r.to) || not (is_empty r.payload)

abbrev no_sender : Received → Bool
no_sender r = is_empty r.from || not (is_empty r.payload)

unfoldable pub set_from : Session → Str → Session × Response
set_from s from =
    if begun s.received
    then (s, out_of_sequence)
    else (with_received s (record s.received { from = from }), reply 250 (bytes "OK"))

unfoldable pub add_to : Session → Str → Session × Response
add_to s to = if no_sender s.received then (s, out_of_sequence) else (
  with_received s (record s.received { to = s.received.to ++ to ∷ [] }),
  reply 250 (bytes "OK"),
)

-- The test of `setData`.
abbrev pub incomplete : Received → Bool
incomplete r = is_empty r.from || is_empty r.to || not (is_empty r.payload)

abbrev pub deliver : Session → Str → Option Mail → Session × Response × Option Received
deliver s payload none = (s, reply 451 (bytes "Failed to parse data"), none)
deliver s payload (some mail) = (
  with_received s blank,
  reply 250 (bytes "Got the data"),
  some (record s.received { payload = payload; parsed = some mail }),
)

unfoldable pub set_data : (Str → Option Mail) → Session → Str → Session × Response × Option Received
set_data read_message s payload =
    if incomplete s.received
    then (s, out_of_sequence, none)
    else deliver s payload (read_message payload)

-- The loop of `ReadData`: the text up to a line with a single dot, and the lines behind it.
unfoldable pub collect : Str → List Str → Option Str × List Str
collect acc [] = (none, [])
collect acc (l ∷ ls) =
    if eq_str l (b'.' ∷ 13 ∷ 10 ∷ []) then (some acc, ls) else collect (acc ++ l) ls

abbrev pub finish_data :
    (Str → Option Mail) → Session → Option Str → Session × Response × Option Received
finish_data read_message s none = (s, reply 451 (bytes "Failed to read data"), none)
finish_data read_message s (some payload) = set_data read_message s payload

unfoldable pub read_data :
    (Str → Option Mail) → Session → List Str → (Session × Response × Option Received) × List Str
unfolding collect set_data
read_data read_message s reader =
    let (text, rest) = collect [] reader in (finish_data read_message s text, rest)

-- The cases of `switch strings.ToLower(command.Text)`, in `authRequired` and `Advance`.
pub data Verb : Type 0 where
  quit helo ehlo noop rcpt mail vrfy data_verb auth_verb starttls rset unknown : Verb

unfoldable pub verb_of : Str → Verb
verb_of w =
    if eq_str w (bytes "quit")
    then quit
    else if eq_str w (bytes "helo")
    then helo
    else if eq_str w (bytes "ehlo")
    then ehlo
    else if eq_str w (bytes "noop")
    then noop
    else if eq_str w (bytes "rcpt")
    then rcpt
    else if eq_str w (bytes "mail")
    then mail
    else if eq_str w (bytes "vrfy")
    then vrfy
    else if eq_str w (bytes "data")
    then data_verb
    else if eq_str w (bytes "auth")
    then auth_verb
    else if eq_str w (bytes "starttls")
    then starttls
    else if eq_str w (bytes "rset")
    then rset
    else unknown

abbrev pub is_required : AuthState → Bool
is_required required = true
is_required _ = false

unfoldable pub auth_required : Session → Verb → Bool
auth_required s quit = false
auth_required s helo = false
auth_required s ehlo = false
auth_required s rset = false
auth_required s noop = false
auth_required s auth_verb = false
auth_required s starttls = false
auth_required s _ = is_required s.auth_state

abbrev pub Decode : Type 0
Decode = Str → Option Str

abbrev pub judge : Session → Option Bool → Session × Response
judge s none = (s, reply 501 (bytes "Error validating credentials"))
judge s (some false) = (s, reply 535 (bytes "Authentication failed"))
judge s (some true) =
    (record s { auth_state = authenticated }, reply 235 (bytes "Authentication successful"))

-- The credentials are asked for through a nil pointer where there is no `auth`.
abbrev pub check_token : Session → Option PlainAuth → Str → Option (Session × Response)
check_token s none token = none
check_token s (some a) token = some (judge s (valid_credentials a token))

abbrev pub check_decoded : Session → Option Str → Option (Session × Response)
check_decoded s none = some (s, reply 501 (bytes "Error decoding credentials"))
check_decoded s (some token) = check_token s s.auth token

unfoldable pub check_credentials : Decode → Session → Str → Option (Session × Response)
unfolding valid_credentials
check_credentials decode s payload = check_decoded s (decode payload)

unfoldable pub authenticate : Decode → Session → Str → Str → Option (Session × Response)
unfolding check_credentials
authenticate decode s method payload =
    if not (eq_str method (bytes "PLAIN"))
    then some (s, reply 504 (bytes "Unrecognized authentication type"))
    else if is_empty payload
    then some (s, reply 334 [])
    else check_credentials decode s payload

-- `node.Children[key].Text`: a missing child is a nil pointer.
abbrev pub text_at : Option Node → Option Str
text_at none = none
text_at (some c) = some (text_of c)

abbrev pub child_text : Node → Str → Option Str
child_text n key = text_at (get n key)

abbrev pub with_text {ℓ} : {A : Type ℓ} → Option Str → (Str → A) → Option A
with_text none f = none
with_text (some t) f = some (f t)

abbrev text_or_empty : Option Str → Str
text_or_empty none = []
text_or_empty (some t) = t

abbrev authenticate_as : Decode → Session → Option Str → Str → Option (Session × Response)
authenticate_as decode s none payload = none
authenticate_as decode s (some method) payload = authenticate decode s method payload

-- `case "auth"`
unfoldable pub advance_auth :
    Decode → Session → Node → AuthState → Option PlainAuth → Option (Session × Response)
unfolding is_permitted authenticate
advance_auth decode s n required none = none
advance_auth decode s n required (some a) =
    if not (is_permitted a s.security)
    then some (s, reply 502 (bytes "An encrypted connection is required for authentication"))
    else authenticate_as decode s (child_text n (bytes "type"))
        (text_or_empty (child_text n (bytes "payload")))
advance_auth decode s n authenticated a = some (s, reply 503 (bytes "Already authenticated"))
advance_auth decode s n not_permitted a =
    some (s, reply 502 (bytes "Authentication is not supported"))

-- `case "starttls"`
unfoldable pub advance_starttls : Security → Response
unfolding allow_starttls
advance_starttls tls_post_starttls = reply 500 (bytes "Already using TLS")
advance_starttls security =
    if not (allow_starttls security)
    then reply 500 (bytes "STARTTLS not supported")
    else reply 220 (bytes "Ready to switch to TLS")

abbrev hello_text : Security → Str
hello_text security =
    bytes "Hello"
    ++ (13 ∷ 10 ∷ bytes "AUTH PLAIN")
    ++ (if allow_starttls security then 13 ∷ 10 ∷ bytes "STARTTLS" else [])

-- The second switch of `Advance`.
unfoldable pub dispatch : Decode → Session → Node → Verb → Option (Session × Response)
unfolding set_from add_to advance_auth advance_starttls
dispatch decode s n quit = some (s, reply 221 (s.hostname ++ bytes " See ya"))
dispatch decode s n helo = some (s, reply 250 (bytes "Hello"))
dispatch decode s n ehlo = some (s, reply 250 (hello_text s.security))
dispatch decode s n noop = some (s, reply 250 (bytes "Noop"))
dispatch decode s n rcpt = with_text (child_text n (bytes "path")) (add_to s)
dispatch decode s n mail = with_text (child_text n (bytes "path")) (set_from s)
dispatch decode s n vrfy = some (s, reply 252 (bytes "Maybe"))
dispatch decode s n data_verb = some (s, reply 354 (bytes "Go"))
dispatch decode s n auth_verb = advance_auth decode s n s.auth_state s.auth
dispatch decode s n starttls = some (s, advance_starttls s.security)
dispatch decode s n rset = some (s, reply 502 (bytes "Not implemented"))
dispatch decode s n unknown = some (s, reply 502 (bytes "Not implemented"))

abbrev pub parse_error : Response
parse_error = reply 500 (bytes "Parse error")

unfoldable pub advance_command : Decode → Session → Node → Verb → Option (Session × Response)
unfolding auth_required dispatch
advance_command decode s n v =
    if auth_required s v
    then some (s, reply 530 (bytes "Authentication required"))
    else dispatch decode s n v

abbrev advance_word : Decode → Session → Node → Option Str → Option (Session × Response)
advance_word decode s n none = some (s, parse_error)
advance_word decode s n (some word) = advance_command decode s n (verb_of (to_lower word))

-- `Advance`
unfoldable pub advance : Decode → Session → Option Node → Option (Session × Response)
unfolding advance_command verb_of
advance decode s none = some (s, parse_error)
advance decode s (some n) = advance_word decode s n (child_text n (bytes "command"))

abbrev pub Read : Type 0
Read = (Session × Response) × Bool × List Str

abbrev pub after_line : List Str → Option (Session × Response) → Option Read
after_line ls none = none
after_line ls (some answer) = some (answer, false, ls)

abbrev pub advance_line : Decode → Session → List Str → Option (Option Node) → Option Read
advance_line decode s ls none = none
advance_line decode s ls (some n) = after_line ls (advance decode s n)

-- `ReadCommand`: the response, and whether the line could not be read.
unfoldable pub read_command : Decode → Session → List Str → Option Read
unfolding advance
read_command decode s [] = some ((s, parse_error), true, [])
read_command decode s (l ∷ ls) = advance_line decode s ls (smtp_parser l)

-- `ReadAuthResponse`
unfoldable pub read_auth_response : Decode → Session → List Str → Option Read
unfolding check_credentials
read_auth_response decode s [] = some ((s, parse_error), true, [])
read_auth_response decode s (l ∷ ls) = after_line ls (check_credentials decode s l)
