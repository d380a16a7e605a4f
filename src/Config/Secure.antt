-- ===== src/Config/Secure.antt =====
-- config.go: the security and the credentials of the listener that `MakeReceiver` makes.
use failmail.Base.{
  ◌≡◌, refl, ap, sym, ◌↔◌, Bool, true, false, Option, none, some, [], ◌∷◌, ◌++◌, arith, Str,
  is_none, lacks,
}
use mathlib.Core.Path.{subst}
use failmail.Session.{
  Security, unencrypted, tls_post_starttls, PlainAuth, is_encrypted, valid_credentials,
}
use failmail.Session.Credentials.{login, valid_credentials_lem}
use failmail.Config.{
  Config, Result, ok, err, split_colon, config_auth, TlsConfig, ServerSocket, ssl_server, Setup,
  secured, tls_config, socket_without_tls, config_socket, AddressRewriter, config_rewriter,
  Listener, listen_on, with_rewriter, with_tls, with_auth, make_receiver, ◌>>=◌,
}

abbrev pub is_ssl : ServerSocket → Bool
is_ssl (ssl_server s conf) = true
is_ssl _ = false

abbrev pub is_unencrypted : Security → Bool
is_unencrypted unencrypted = true
is_unencrypted _ = false

abbrev pub is_upgraded : Security → Bool
is_upgraded tls_post_starttls = true
is_upgraded _ = false

-- Sessions start as encrypted exactly on a socket that does TLS, and there is a certificate unless
-- they are unencrypted.
pub record IsSecured (l : Listener) : Type 0 where
  pub socket_matches : is_encrypted l.security ≡ is_ssl l.socket
  pub certified : is_none l.tls ≡ is_unencrypted l.security
  pub not_upgraded : is_upgraded l.security ≡ false

-- The security that `TLSConfig` gives, and the socket that `Socket` makes from it.
socket-Secured :
    (u : Setup) (c : Config) (auth : Option PlainAuth) (r : AddressRewriter)
    (t : Security × Option TlsConfig) (s : ServerSocket)
    → tls_config u c ≡ ok t
    → config_socket u c ≡ ok s
    → IsSecured (listen_on c auth t r s)
unfolding config_socket socket_without_tls tls_config is_encrypted
socket-Secured u c auth r t s h k = ground arith

rewriter-Secured :
    (u : Setup) (c : Config) (auth : Option PlainAuth) (t : Security × Option TlsConfig)
    (r : Option (Result AddressRewriter)) (l : Listener)
    → tls_config u c ≡ ok t
    → with_rewriter u c auth t r ≡ some (ok l)
    → IsSecured l × (l.auth ≡ auth)
rewriter-Secured u c auth t none l h e = cc
rewriter-Secured u c auth t (some (err x)) l h e = cc
rewriter-Secured u c auth t (some (ok r)) l h e = go (config_socket u c) refl e
  where
    go :
        (o : Result ServerSocket)
        → config_socket u c ≡ o
        → ◌≡◌ {A = Option (Result Listener)}
            (some (o >>= λ s. ok (listen_on c auth t r s)))
            (some (ok l))
        → IsSecured l × (l.auth ≡ auth)
    go (err x) k e = cc
    go (ok s) k e =
        let made : listen_on c auth t r s ≡ l = cc in
        (subst IsSecured made (socket-Secured u c auth r t s h k), sym (ap (λ x. x.auth) made))

tls-Secured :
    (u : Setup) (c : Config) (auth : Option PlainAuth) (o : Result (Security × Option TlsConfig))
    (l : Listener)
    → tls_config u c ≡ o
    → with_tls u c auth o ≡ some (ok l)
    → IsSecured l × (l.auth ≡ auth)
tls-Secured u c auth (err x) l h e = cc
tls-Secured u c auth (ok t) l h e = rewriter-Secured u c auth t (config_rewriter u c) l h e

auth-Secured :
    (u : Setup) (c : Config) (o : Result (Option PlainAuth)) (l : Listener)
    → with_auth u c o ≡ some (ok l)
    → IsSecured l × (o ≡ ok l.auth)
auth-Secured u c (err x) l e = cc
auth-Secured u c (ok auth) l e =
    let (secured, same) = tls-Secured u c auth (tls_config u c) l refl e in
    (secured, ap ok (sym same))

-- The sessions of a listener that `MakeReceiver` makes start as encrypted exactly where its socket
-- does TLS; there is a certificate unless they are unencrypted; none starts as upgraded. Its
-- credentials are those of `Auth`.
pub make_receiver-IsSecured :
    (u : Setup) (c : Config) (l : Listener)
    → make_receiver u c ≡ some (ok l)
    → IsSecured l × (config_auth c ≡ ok l.auth)
unfolding make_receiver
make_receiver-IsSecured u c l e = auth-Secured u c (config_auth c) l e

split_colon-at :
    (user password : Str)
    → lacks b':' user ≡ true
    → split_colon (user ++ b':' ∷ password) ≡ some (user, password)
unfolding split_colon
split_colon-at [] password h = refl
split_colon-at (x ∷ user) password h =
    let ih = split_colon-at user password (ground arith) in ground (arith, ih)

-- The configured credentials.
abbrev pub configured : Config → Str → Str → PlainAuth
configured c user password = record {
  username = user;
  password = password;
  allow_unencrypted_auth = c.allow_unencrypted_auth;
}

-- With `user:password` as the credentials, where the user name has no colon and neither has a zero
-- byte, the listener has credentials, and they accept a token exactly where it is an authorization
-- identity, this user name and this password, with a zero byte between them.
pub config_auth-valid_credentials :
    (c : Config) (user password : Str)
    → c.credentials ≡ user ++ b':' ∷ password
    → lacks b':' user ≡ true
    → lacks 0 user ≡ true
    → lacks 0 password ≡ true
    → (config_auth c ≡ ok (some (configured c user password)))
      × ((token : Str)
          → (valid_credentials (configured c user password) token ≡ some true)
            ↔ ((z : Str) × (lacks 0 z ≡ true) × (token ≡ login (configured c user password) z)))
unfolding config_auth
config_auth-valid_credentials c user password e colon hu hp =
    (go user e colon, λ token. valid_credentials_lem (configured c user password) token hu hp)
  where
    go :
        (name : Str)
        → c.credentials ≡ name ++ b':' ∷ password
        → lacks b':' name ≡ true
        → config_auth c ≡ ok (some (configured c name password))
    go [] e h = rw e refl
    go (x ∷ name) e h = rw (e, split_colon-at (x ∷ name) password h) refl
