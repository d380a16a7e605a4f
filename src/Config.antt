-- ===== src/Config.antt =====
-- config.go: `Config` and the parts of the program that are made from it.
--
-- A duration is a number of nanoseconds, and `socket_fd` the descriptor, 0 for one that is negative,
-- since only `SocketFd > 0` is asked. `Setup` stands for what opens sockets, loads certificates, and
-- compiles expressions and templates (`template.Must` and `regexp.MustCompile` panic where it says
-- `false`). A result `none` is a panic.
pub mod Make
pub mod Receiver
pub mod Secure
use failmail.Base.{
  ℕ, ◌*◌, Bool, true, false, not, ◌&&◌, ◌||◌, ltb, Option, none, some, List, [], ◌∷◌, ◌++◌, ◌==◌,
  if◌then◌else◌, Str, bytes, is_empty, eq_str,
}
use failmail.Session.{
  Security, unencrypted, tls_pre_starttls, tls_post_starttls, ssl, PlainAuth, init_hostname,
}

pub record Config : Type 0 where
  pub bind_addr : Str
  pub socket_fd : ℕ
  pub credentials : Str
  pub tls_cert : Str
  pub tls_key : Str
  pub use_ssl : Bool
  pub shutdown_timeout : ℕ
  pub debug_receiver : Bool
  pub rewrite_src : Str
  pub rewrite_dest : Str
  pub allow_unencrypted_auth : Bool
  pub memory_store : Bool
  pub message_store : Str
  pub from : Str
  pub wait_period : ℕ
  pub max_wait : ℕ
  pub poll : ℕ
  pub batch_expr : Str
  pub group_expr : Str
  pub summary_template : Str
  pub relay_addr : Str
  pub relay_user : Str
  pub relay_password : Str
  pub fail_dir : Str
  pub all_dir : Str
  pub receiver : Bool
  pub sender : Bool
  pub bind_http : Str
  pub pidfile : Str
  pub version : Bool

-- `DefaultFromAddress`, on what `hostGetter` returns.
unfoldable pub default_from_address : Option Str → Str → Str
unfolding init_hostname
default_from_address host name = name ++ b'@' ∷ init_hostname host

abbrev second : ℕ
second = 1000000000

-- `Defaults`
unfoldable pub defaults : Option Str → Config
unfolding bytes default_from_address
defaults host = record {
  bind_addr = bytes "localhost:2525";
  socket_fd = 0;
  credentials = [];
  tls_cert = [];
  tls_key = [];
  use_ssl = false;
  shutdown_timeout = 5 * second;
  debug_receiver = false;
  rewrite_src = [];
  rewrite_dest = [];
  allow_unencrypted_auth = false;
  memory_store = false;
  message_store = bytes "incoming";
  from = default_from_address host (bytes "failmail");
  wait_period = 30 * second;
  max_wait = 300 * second;
  poll = 5 * second;
  batch_expr = bytes "{{.Header.Get \"X-Failmail-Split\"}}";
  group_expr = bytes "{{.Header.Get \"Subject\"}}";
  summary_template = [];
  relay_addr = bytes "localhost:25";
  relay_user = [];
  relay_password = [];
  fail_dir = bytes "failed";
  all_dir = [];
  receiver = false;
  sender = false;
  bind_http = bytes "localhost:8025";
  pidfile = [];
  version = false;
}

-- The errors; `outside` is one of a library.
pub data Error : Type 0 where
  credentials_format rewrite_together no_store outside : Error

pub data Result {ℓ} (A : Type ℓ) : Type ℓ where
  ok : A → Result A
  err : Error → Result A

infixl 5 ◌>>=◌
abbrev pub ◌>>=◌ {ℓ κ} : {A : Type ℓ} {B : Type κ} → Result A → (A → Result B) → Result B
ok a >>= f = f a
err e >>= f = err e

-- `strings.SplitN(s, ":", 2)`: what is before the first colon and behind it, `none` without one.
unfoldable pub split_colon : Str → Option (Str × Str)
split_colon [] = none
split_colon (c ∷ s) =
    let rest = split_colon s in
    if c == b':'
    then some ([], s)
    else elim rest [ none ↦ none | some (before, behind) ↦ some (c ∷ before, behind) ]

abbrev pub auth_parts : Bool → Option (Str × Str) → Result (Option PlainAuth)
auth_parts allow none = err credentials_format
auth_parts allow (some (user, password)) =
    ok (some (record { username = user; password = password; allow_unencrypted_auth = allow }))

-- `Auth`
unfoldable pub config_auth : Config → Result (Option PlainAuth)
unfolding split_colon
config_auth c =
    if is_empty c.credentials
    then ok none
    else auth_parts c.allow_unencrypted_auth (split_colon c.credentials)

-- A certificate with its key, in a `tls.Config`.
pub record TlsConfig : Type 0 where
  pub certificate : Str

pub data ServerSocket : Type 0 where
  tcp_server : Str → ServerSocket
  file_server : ℕ → ServerSocket
  ssl_server : ServerSocket → Option TlsConfig → ServerSocket

pub record Setup : Type 0 where
  pub load_key_pair : Str → Str → Option Str
  pub opens : ServerSocket → Bool
  pub compiles : Str → Bool
  pub parses_template : Str → Bool

abbrev pub secured : Bool → Option Str → Result (Security × Option TlsConfig)
secured use_ssl none = err outside
secured true (some cert) = ok (ssl, some (record { certificate = cert }))
secured false (some cert) = ok (tls_pre_starttls, some (record { certificate = cert }))

-- `TLSConfig`
unfoldable pub tls_config : Setup → Config → Result (Security × Option TlsConfig)
tls_config u c =
    if is_empty c.tls_cert || is_empty c.tls_key
    then ok (unencrypted, none)
    else secured c.use_ssl (u.load_key_pair c.tls_cert c.tls_key)

abbrev pub opened : Setup → ServerSocket → Result ServerSocket
opened u s = if u.opens s then ok s else err outside

-- `SocketWithoutTLS`
unfoldable pub socket_without_tls : Setup → Config → Result ServerSocket
socket_without_tls u c =
    opened u (if ltb 0 c.socket_fd then file_server c.socket_fd else tcp_server c.bind_addr)

abbrev pub wrap_socket : ServerSocket → Security × Option TlsConfig → ServerSocket
wrap_socket s (ssl, conf) = ssl_server s conf
wrap_socket s (_, conf) = s

-- `Socket`
unfoldable pub config_socket : Setup → Config → Result ServerSocket
unfolding socket_without_tls tls_config
config_socket u c = socket_without_tls u c >>= λ s.
    if not c.use_ssl then ok s else tls_config u c >>= λ t. ok (wrap_socket s t)

-- An `AddressRewriter`: its pattern, where it has one, and its replacement.
pub record AddressRewriter : Type 0 where
  pub source : Option Str
  pub dest : Str

-- `none` is a panic of `regexp.MustCompile`.
unfoldable pub config_rewriter : Setup → Config → Option (Result AddressRewriter)
config_rewriter u c =
    if not (is_empty c.rewrite_src) && not (is_empty c.rewrite_dest)
    then if u.compiles c.rewrite_src
      then some (ok (record { source = some c.rewrite_src; dest = c.rewrite_dest }))
      else none
    else if not (is_empty c.rewrite_src) || not (is_empty c.rewrite_dest)
    then some (err rewrite_together)
    else some (ok (record { source = none; dest = [] }))

pub record Listener : Type 0 where
  pub socket : ServerSocket
  pub auth : Option PlainAuth
  pub security : Security
  pub tls : Option TlsConfig
  pub debug : Bool
  pub rewriter : AddressRewriter

abbrev pub listen_on :
    Config
    → Option PlainAuth
    → Security × Option TlsConfig
    → AddressRewriter
    → ServerSocket
    → Listener
listen_on c auth (security, tls) rewriter socket = record {
  socket = socket;
  auth = auth;
  security = security;
  tls = tls;
  debug = c.debug_receiver;
  rewriter = rewriter;
}

abbrev pub with_rewriter :
    Setup
    → Config
    → Option PlainAuth
    → Security × Option TlsConfig
    → Option (Result AddressRewriter)
    → Option (Result Listener)
with_rewriter u c auth tls none = none
with_rewriter u c auth tls (some r) =
    some (r >>= λ rewriter. config_socket u c >>= λ s. ok (listen_on c auth tls rewriter s))

abbrev pub with_tls :
    Setup
    → Config
    → Option PlainAuth
    → Result (Security × Option TlsConfig)
    → Option (Result Listener)
with_tls u c auth (err e) = some (err e)
with_tls u c auth (ok tls) = with_rewriter u c auth tls (config_rewriter u c)

abbrev pub with_auth : Setup → Config → Result (Option PlainAuth) → Option (Result Listener)
with_auth u c (err e) = some (err e)
with_auth u c (ok auth) = with_tls u c auth (tls_config u c)

-- `MakeReceiver`
unfoldable pub make_receiver : Setup → Config → Option (Result Listener)
unfolding config_auth tls_config config_rewriter config_socket
make_receiver u c = with_auth u c (config_auth c)
