-- ===== src/Config/Receiver.antt =====
-- config.go: when `MakeReceiver` makes a listener, and how it is secured.
use failmail.Base.{
  ◌≡◌, refl, sym, Bool, true, false, not, ◌&&◌, ◌||◌, ltb, Option, some, arith, if◌then◌else◌,
  is_empty, is_none,
}
use failmail.Session.{Security, PlainAuth}
use failmail.Config.{
  Config, Result, ok, err, split_colon, config_auth, TlsConfig, tcp_server, file_server, Setup,
  tls_config, socket_without_tls, config_socket, config_rewriter, with_rewriter, with_tls,
  with_auth, make_receiver,
}

abbrev pub is_ok {ℓ} : {A : Type ℓ} → Option (Result A) → Bool
is_ok (some (ok a)) = true
is_ok _ = false

-- The checks that `MakeReceiver` makes: each of them is needed.
abbrev pub good_credentials : Config → Bool
good_credentials c = is_empty c.credentials || not (is_none (split_colon c.credentials))

abbrev pub good_certificate : Setup → Config → Bool
good_certificate u c =
    is_empty c.tls_cert
    || is_empty c.tls_key
    || not (is_none (u.load_key_pair c.tls_cert c.tls_key))

abbrev pub good_rewriting : Setup → Config → Bool
good_rewriting u c =
    (is_empty c.rewrite_src && is_empty c.rewrite_dest)
    || (not (is_empty c.rewrite_src) && not (is_empty c.rewrite_dest) && u.compiles c.rewrite_src)

abbrev pub good_socket : Setup → Config → Bool
good_socket u c =
    u.opens (if ltb 0 c.socket_fd then file_server c.socket_fd else tcp_server c.bind_addr)

abbrev tls_is_ok : Result (Security × Option TlsConfig) → Bool
tls_is_ok (ok t) = true
tls_is_ok (err e) = false

abbrev good_tls : Setup → Config → Bool
good_tls u c = tls_is_ok (tls_config u c)

tls_config-ok : (u : Setup) (c : Config) → good_tls u c ≡ good_certificate u c
unfolding tls_config
tls_config-ok u c = ground arith

config_socket-ok :
    (u : Setup) (c : Config)
    → good_tls u c ≡ true
    → is_ok (some (config_socket u c)) ≡ good_socket u c
unfolding config_socket socket_without_tls
config_socket-ok u c h = ground arith

with_rewriter-ok :
    (u : Setup) (c : Config) (auth : Option PlainAuth) (t : Security × Option TlsConfig)
    → good_tls u c ≡ true
    → is_ok (with_rewriter u c auth t (config_rewriter u c))
      ≡ (good_rewriting u c && good_socket u c)
unfolding config_rewriter
with_rewriter-ok u c auth t h = let socket = config_socket-ok u c h in ground (arith, socket)

with_tls-ok :
    (u : Setup) (c : Config) (auth : Option PlainAuth) (r : Result (Security × Option TlsConfig))
    → tls_is_ok r ≡ good_tls u c
    → is_ok (with_tls u c auth r) ≡ (good_tls u c && good_rewriting u c && good_socket u c)
with_tls-ok u c auth (err e) h = rw (sym h) refl
with_tls-ok u c auth (ok t) h = rw (sym h) (with_rewriter-ok u c auth t (sym h))

with_auth-ok :
    (u : Setup) (c : Config) (good : Bool) (r : Result (Option PlainAuth))
    → is_ok (some r) ≡ good
    → is_ok (with_auth u c r)
      ≡ (good && good_certificate u c && good_rewriting u c && good_socket u c)
with_auth-ok u c good (err e) h = rw (sym h) refl
with_auth-ok u c good (ok auth) h =
    rw (sym h, sym (tls_config-ok u c)) (with_tls-ok u c auth (tls_config u c) refl)

config_auth-ok : (c : Config) → is_ok (some (config_auth c)) ≡ good_credentials c
unfolding config_auth
config_auth-ok c = ground arith

-- `MakeReceiver` returns a listener exactly where the credentials, if there are any, have a colon; the
-- certificate, if it is given with its key, can be loaded; the pattern and the replacement of the
-- rewriter are both given, and the pattern compiles, or neither is; and the socket can be opened.
pub make_receiver-ok :
    (u : Setup) (c : Config)
    → is_ok (make_receiver u c)
      ≡ (good_credentials c && good_certificate u c && good_rewriting u c && good_socket u c)
unfolding make_receiver
make_receiver-ok u c = with_auth-ok u c (good_credentials c) (config_auth c) (config_auth-ok c)
