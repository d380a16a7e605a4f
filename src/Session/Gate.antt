-- ===== src/Session/Gate.antt =====
-- session.go: what a response of `Advance` lets a client do.
use failmail.Base.{
  ◌≡◌, refl, ap, sym, ◌∙◌, Bool, true, false, Option, none, some, List, [], ◌∷◌, Str, bytes, eq_str,
  is_empty, Bool-cases, inl, inr,
}
use mathlib.Core.Path.{subst}
use mathlib.Core.Option.{some-injective}
use failmail.Parse.{Node}
use failmail.Session.{
  Security, tls_pre_starttls, AuthState, not_permitted, required, authenticated, PlainAuth,
  Response, Session, Decode, Verb, rcpt, mail, data_verb, auth_verb, starttls, is_permitted,
  valid_credentials, judge, check_token, check_decoded, Read, after_line, advance_line,
  read_command, read_auth_response, begun, no_sender, authenticate_as, with_text, advance_word,
  set_from, add_to, check_credentials, authenticate, advance_auth, advance_starttls, dispatch,
  needs_data, needs_auth_response, auth_required, advance_command, advance, is_required,
}

-- Valid credentials were given for `auth`, over a connection that permits it.
pub record Proved (decode : Decode) (s : Session) : Type 0 where
  pub auth : PlainAuth
  pub payload : Str
  pub token : Str
  pub configured : s.auth ≡ some auth
  pub decoded : decode payload ≡ some token
  pub accepted : valid_credentials auth token ≡ some true
  pub permitted : is_permitted auth s.security ≡ true

-- Credentials are permitted on the connection.
abbrev pub Permits : Session → Type 0
Permits s = (a : PlainAuth) → s.auth ≡ some a → is_permitted a s.security ≡ true

pub permits :
    (s : Session) (a : PlainAuth) → s.auth ≡ some a → is_permitted a s.security ≡ true → Permits s
permits s a e perm b f =
    subst (λ x. is_permitted x s.security ≡ true) (some-injective a b (sym e ∙ f)) perm

module _ (decode : Decode) (s : Session) where
  -- From session `s` a call went to session `s'` with response `r`.
  pub record Passes (s' : Session) (r : Response) : Type 0 where
    pub same_auth : s'.auth ≡ s.auth
    pub same_security : s'.security ≡ s.security
    pub stays_authenticated : s.auth_state ≡ authenticated → s'.auth_state ≡ authenticated
    pub never_back : is_required s'.auth_state ≡ true → is_required s.auth_state ≡ true
    pub kept : is_required s.auth_state ≡ true → s'.received ≡ s.received
    pub proved :
        is_required s.auth_state ≡ true → is_required s'.auth_state ≡ false → Proved decode s
    pub data_open : needs_data r ≡ true → is_required s'.auth_state ≡ false
    pub auth_asked :
        needs_auth_response r ≡ true
        → (is_required s'.auth_state ≡ true)
          × (a : PlainAuth) × (s.auth ≡ some a)
          × (is_permitted a s.security ≡ true)

  -- A response with another code, and nothing else changed but the envelope of an open session.
  abbrev IsPlain : Response → Type 0
  IsPlain r = (needs_data r ≡ false) × (needs_auth_response r ≡ false)

  stays : (r : Response) → IsPlain r → Passes s r
  stays r p = record {
    same_auth = refl;
    same_security = refl;
    stays_authenticated = λ h. h;
    never_back = λ h. h;
    kept = λ _. refl;
    proved = λ h k. cc;
    data_open = λ h. cc;
    auth_asked = λ h. cc;
  }

  abbrev pub AllPass : Option (Session × Response) → Type 0
  AllPass none = Unit
  AllPass (some (s', r)) = Passes s' r

  judge-Passes :
      (a : PlainAuth) (payload token : Str)
      → Permits s
      → s.auth ≡ some a
      → decode payload ≡ some token
      → (o : Option Bool) → valid_credentials a token ≡ o
      → Passes (judge s o).0 (judge s o).1
  unfolding needs_data needs_auth_response
  judge-Passes a payload token perm e d none v = stays _ (refl, refl)
  judge-Passes a payload token perm e d (some false) v = stays _ (refl, refl)
  judge-Passes a payload token perm e d (some true) v = record {
    same_auth = refl;
    same_security = refl;
    stays_authenticated = λ h. refl;
    never_back = λ h. cc;
    kept = λ _. refl;
    proved = λ _ _. record {
      auth = a;
      payload = payload;
      token = token;
      configured = e;
      decoded = d;
      accepted = v;
      permitted = perm a e;
    };
    data_open = λ h. cc;
    auth_asked = λ h. cc;
  }

  token-Passes :
      (payload token : Str) (o : Option PlainAuth)
      → Permits s
      → s.auth ≡ o
      → decode payload ≡ some token
      → AllPass (check_token s o token)
  token-Passes payload token none perm e d = tt
  token-Passes payload token (some a) perm e d =
      judge-Passes a payload token perm e d (valid_credentials a token) refl

  decoded-Passes :
      (payload : Str) (o : Option Str)
      → Permits s
      → decode payload ≡ o
      → AllPass (check_decoded s o)
  unfolding needs_data needs_auth_response
  decoded-Passes payload none perm d = stays _ (refl, refl)
  decoded-Passes payload (some token) perm d = token-Passes payload token s.auth perm refl d

  pub check_credentials-Passes :
      (payload : Str) → Permits s → AllPass (check_credentials decode s payload)
  unfolding check_credentials
  check_credentials-Passes payload perm = decoded-Passes payload (decode payload) perm refl

  -- A reply that changes the envelope, where no authentication is called for.
  enveloped :
      (s' : Session) (r : Response)
      → s'.auth ≡ s.auth
      → s'.security ≡ s.security
      → s'.auth_state ≡ s.auth_state
      → is_required s.auth_state ≡ false
      → IsPlain r
      → Passes s' r
  enveloped s' r a sec st f p = record {
    same_auth = a;
    same_security = sec;
    stays_authenticated = λ h. st ∙ h;
    never_back = λ h. cc (h, ap is_required st);
    kept = λ h. cc;
    proved = λ h k. cc;
    data_open = λ h. cc;
    auth_asked = λ h. cc;
  }

  set_from-Passes :
      (from : Str)
      → is_required s.auth_state ≡ false
      → Passes (set_from s from).0 (set_from s from).1
  unfolding set_from needs_data needs_auth_response
  set_from-Passes from f = elim (Bool-cases (begun s.received)) [
    | inl e ↦ rw e (stays _ (refl, refl))
    | inr e ↦ rw e (enveloped _ _ refl refl refl f (refl, refl))
  ]

  add_to-Passes :
      (to : Str) → is_required s.auth_state ≡ false → Passes (add_to s to).0 (add_to s to).1
  unfolding add_to needs_data needs_auth_response
  add_to-Passes to f = elim (Bool-cases (no_sender s.received)) [
    | inl e ↦ rw e (stays _ (refl, refl))
    | inr e ↦ rw e (enveloped _ _ refl refl refl f (refl, refl))
  ]

  authenticate-Passes :
      (a : PlainAuth) (method payload : Str)
      → s.auth ≡ some a
      → is_required s.auth_state ≡ true
      → is_permitted a s.security ≡ true
      → AllPass (authenticate decode s method payload)
  unfolding authenticate needs_data needs_auth_response
  authenticate-Passes a method payload e st perm =
      elim (Bool-cases (eq_str method (bytes "PLAIN"))) [
        | inl m ↦ elim (Bool-cases (is_empty payload)) [
          | inl p ↦ rw m (
              rw p (record {
                same_auth = refl;
                same_security = refl;
                stays_authenticated = λ h. h;
                never_back = λ h. h;
                kept = λ _. refl;
                proved = λ h k. cc;
                data_open = λ h. cc;
                auth_asked = λ h. (st, a, e, perm);
              }))
          | inr p ↦ rw m (rw p (check_credentials-Passes payload (permits s a e perm)))
        ]
        | inr m ↦ rw m (stays _ (refl, refl))
      ]

  authenticate_as-Passes :
      (a : PlainAuth) (method : Option Str) (payload : Str)
      → s.auth ≡ some a
      → is_required s.auth_state ≡ true
      → is_permitted a s.security ≡ true
      → AllPass (authenticate_as decode s method payload)
  authenticate_as-Passes a none payload e st perm = tt
  authenticate_as-Passes a (some method) payload e st perm =
      authenticate-Passes a method payload e st perm

  auth-Passes :
      (n : Node) (st : AuthState) (o : Option PlainAuth)
      → s.auth_state ≡ st
      → s.auth ≡ o
      → AllPass (advance_auth decode s n st o)
  unfolding advance_auth needs_data needs_auth_response
  auth-Passes n not_permitted o e a = stays _ (refl, refl)
  auth-Passes n authenticated o e a = stays _ (refl, refl)
  auth-Passes n required none e a = tt
  auth-Passes n required (some p) e a = elim (Bool-cases (is_permitted p s.security)) [
    | inl perm ↦ rw perm (authenticate_as-Passes p _ _ a (ap is_required e) perm)
    | inr perm ↦ rw perm (stays _ (refl, refl))
  ]

  starttls-IsPlain : (security : Security) → IsPlain (advance_starttls security)
  unfolding advance_starttls needs_data needs_auth_response
  starttls-IsPlain tls_pre_starttls = (refl, refl)
  starttls-IsPlain _ = (refl, refl)

  with_text-Passes :
      (o : Option Str) (f : Str → Session × Response)
      → ((t : Str) → Passes (f t).0 (f t).1)
      → AllPass (with_text o f)
  with_text-Passes none f h = tt
  with_text-Passes (some t) f h = h t

  dispatch-Passes :
      (n : Node) (c : Verb) → auth_required s c ≡ false → AllPass (dispatch decode s n c)
  unfolding dispatch auth_required needs_data needs_auth_response
  dispatch-Passes n rcpt h = with_text-Passes _ _ λ t. add_to-Passes t h
  dispatch-Passes n mail h = with_text-Passes _ _ λ t. set_from-Passes t h
  dispatch-Passes n auth_verb h = auth-Passes n s.auth_state s.auth refl refl
  dispatch-Passes n starttls h = stays _ (starttls-IsPlain s.security)
  dispatch-Passes n data_verb h = record {
    same_auth = refl;
    same_security = refl;
    stays_authenticated = λ k. k;
    never_back = λ k. k;
    kept = λ _. refl;
    proved = λ k l. cc;
    data_open = λ _. h;
    auth_asked = λ k. cc;
  }
  dispatch-Passes n _ h = stays _ (refl, refl)

  command-Passes : (n : Node) (c : Verb) → AllPass (advance_command decode s n c)
  unfolding advance_command needs_data needs_auth_response
  command-Passes n c = elim (Bool-cases (auth_required s c)) [
    | inl e ↦ rw e (stays _ (refl, refl))
    | inr e ↦ rw e (dispatch-Passes n c e)
  ]

  word-Passes : (n : Node) (o : Option Str) → AllPass (advance_word decode s n o)
  unfolding needs_data needs_auth_response
  word-Passes n none = stays _ (refl, refl)
  word-Passes n (some w) = command-Passes n _

  -- On every command, whatever the client sends: until valid credentials have been given the
  -- envelope does not change and no message is asked for; credentials are asked for and accepted only
  -- over a connection that permits it; a client that is authenticated stays so.
  pub advance-Passes : (n : Option Node) → AllPass (advance decode s n)
  unfolding advance needs_data needs_auth_response
  advance-Passes none = stays _ (refl, refl)
  advance-Passes (some n) = word-Passes n _

  abbrev pub ReadPasses : Option Read → Type 0
  ReadPasses none = Unit
  ReadPasses (some ((s', r), failed, rest)) = Passes s' r

  after_line-Passes :
      (ls : List Str) (o : Option (Session × Response)) → AllPass o → ReadPasses (after_line ls o)
  after_line-Passes ls none h = tt
  after_line-Passes ls (some (s', r)) h = h

  advance_line-Passes :
      (ls : List Str) (o : Option (Option Node)) → ReadPasses (advance_line decode s ls o)
  advance_line-Passes ls none = tt
  advance_line-Passes ls (some n) = after_line-Passes ls _ (advance-Passes n)

  pub read_command-Passes : (reader : List Str) → ReadPasses (read_command decode s reader)
  unfolding read_command needs_data needs_auth_response
  read_command-Passes [] = stays _ (refl, refl)
  read_command-Passes (l ∷ ls) = advance_line-Passes ls _

  pub read_auth_response-Passes :
      (reader : List Str) → Permits s → ReadPasses (read_auth_response decode s reader)
  unfolding read_auth_response needs_data needs_auth_response
  read_auth_response-Passes [] perm = stays _ (refl, refl)
  read_auth_response-Passes (l ∷ ls) perm = after_line-Passes ls _ (check_credentials-Passes l perm)
