-- ===== src/Tests/Configs.antt =====
-- Listeners from concrete configurations.
use failmail.Base.{◌≡◌, ◌↔◌, refl, true, false, ◌&&◌, none, some, [], ◌∷◌, ◌++◌, Str, bytes, lacks}
use failmail.Session.{ssl, valid_credentials}
use failmail.Session.Credentials.{login}
use failmail.Config.{
  Config, defaults, ok, config_auth, Setup, Listener, ssl_server, tcp_server, make_receiver,
  split_colon,
}
use failmail.Config.Receiver.{
  is_ok, good_credentials, good_certificate, good_rewriting, good_socket, make_receiver-ok,
}
use failmail.Config.Secure.{
  IsSecured, make_receiver-IsSecured, configured, config_auth-valid_credentials,
}

abbrev pub setup : Setup
setup = record {
  load_key_pair = λ cert key. some cert;
  opens = λ s. true;
  compiles = λ e. true;
  parses_template = λ e. true;
}

-- Over TLS from the start, with credentials.
abbrev secure : Config
secure = record (defaults none) {
  credentials = bytes "u" ++ b':' ∷ bytes "p";
  tls_cert = bytes "c";
  tls_key = bytes "k";
  use_ssl = true;
}

abbrev listener : Listener
listener = record {
  socket =
      ssl_server (tcp_server (bytes "localhost:2525")) (some (record { certificate = bytes "c" }));
  auth =
      some (record { username = bytes "u"; password = bytes "p"; allow_unencrypted_auth = false });
  security = ssl;
  tls = some (record { certificate = bytes "c" });
  debug = false;
  rewriter = record { source = none; dest = [] };
}

makes_listener : make_receiver setup secure ≡ some (ok listener)
unfolding make_receiver defaults bytes split_colon
makes_listener = refl

make_receiver-ok_example : is_ok (make_receiver setup secure) ≡ (
    good_credentials secure
    && good_certificate setup secure
    && good_rewriting setup secure
    && good_socket setup secure)
make_receiver-ok_example = make_receiver-ok setup secure

make_receiver-IsSecured_example : IsSecured listener × (config_auth secure ≡ ok listener.auth)
make_receiver-IsSecured_example = make_receiver-IsSecured setup secure listener makes_listener

config_auth-valid_credentials_example :
    (config_auth secure ≡ ok (some (configured secure (bytes "u") (bytes "p"))))
    × ((token : Str)
        → (valid_credentials (configured secure (bytes "u") (bytes "p")) token ≡ some true) ↔ (
            (z : Str) × (lacks 0 z ≡ true)
            × (token ≡ login (configured secure (bytes "u") (bytes "p")) z)))
unfolding bytes
config_auth-valid_credentials_example =
    config_auth-valid_credentials secure (bytes "u") (bytes "p") refl refl refl refl
