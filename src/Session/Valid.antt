-- ===== src/Session/Valid.antt =====
-- session.go: what the methods of a session keep.
use failmail.Base.{
  ◌≡◌, refl, Bool, true, false, Option, none, some, List, [], ◌∷◌, arith, Str, bytes, eq_str,
  is_empty, to_lower, Bool-cases, ◌⊎◌, length, ◌<◌, ◌≤◌, sym, ap, Option-cases, inl, inr,
}
use mathlib.Core.Path.{subst}
use failmail.Parse.{Node, text_of, get}
use failmail.Message.{Mail}
use failmail.Smtp.{smtp_parser}
use failmail.Smtp.Commands.{IsCommand, is_path_verb, is_auth, smtp_parser-IsCommand}
use failmail.Smtp.Total.{smtp_parser_total}
use failmail.Session.{
  Security, AuthState, not_permitted, required, authenticated, PlainAuth, Response, Session, Decode,
  Verb, rcpt, mail, auth_verb, is_permitted, valid_credentials, judge, check_token, start, set_from,
  add_to, set_data, read_data, collect, check_credentials, authenticate, advance_auth, dispatch,
  auth_required, advance_command, advance, Read, after_line, read_command, read_auth_response,
  verb_of,
}

-- There are credentials to check exactly where authentication is supported.
abbrev pub IsConsistent : AuthState → Option PlainAuth → Type 0
IsConsistent not_permitted a = a ≡ none
IsConsistent required a = (p : PlainAuth) × (a ≡ some p)
IsConsistent authenticated a = (p : PlainAuth) × (a ≡ some p)

-- No payload between commands, recipients only behind a sender, and consistent authentication.
pub record IsValid (s : Session) : Type 0 where
  pub no_payload : s.received.payload ≡ []
  pub sender_first : s.received.from ≡ [] → s.received.to ≡ []
  pub consistent : IsConsistent s.auth_state s.auth

pub start-IsValid :
    (host : Option Str) (auth : Option PlainAuth) (security : Security)
    → IsValid (start host auth security).0
unfolding start
start-IsValid host none security = record {
  no_payload = refl;
  sender_first = λ _. refl;
  consistent = refl;
}
start-IsValid host (some a) security = record {
  no_payload = refl;
  sender_first = λ _. refl;
  consistent = (a, refl);
}

module _ {s : Session} (v : IsValid s) where
  pub set_from-IsValid : (from : Str) → IsValid (set_from s from).0
  unfolding set_from
  set_from-IsValid from = ground (arith, v.sender_first)

  pub add_to-IsValid : (to : Str) → IsValid (add_to s to).0
  unfolding add_to
  add_to-IsValid to = ground (arith, v.sender_first)

  pub set_data-IsValid :
      (read_message : Str → Option Mail) (payload : Str)
      → IsValid (set_data read_message s payload).0
  unfolding set_data
  set_data-IsValid read_message payload = ground (arith, v.sender_first)

  pub read_data-IsValid :
      (read_message : Str → Option Mail) (reader : List Str)
      → IsValid (read_data read_message s reader).0.0
  unfolding read_data
  read_data-IsValid read_message reader = elim (Option-cases (collect [] reader).0) [
    | inl e ↦ rw (e, read_data) v
    | inr (payload, e) ↦ rw (e, read_data) (set_data-IsValid read_message payload)
  ]

-- A call that returns, with a valid session.
abbrev pub Returns : Option (Session × Response) → Type 0
Returns none = ⊥
Returns (some (s, r)) = IsValid s

-- The children that `Advance` reads without a test are there.
abbrev pub HasChildren : Node → Verb → Type 0
HasChildren n rcpt = (c : Node) × (get n (bytes "path") ≡ some c)
HasChildren n mail = (c : Node) × (get n (bytes "path") ≡ some c)
HasChildren n auth_verb = (c : Node) × (get n (bytes "type") ≡ some c)
HasChildren n _ = Unit

module _ (decode : Decode) {s : Session} (v : IsValid s) where
  judge-IsValid : (a : PlainAuth) → s.auth ≡ some a → (o : Option Bool) → IsValid (judge s o).0
  judge-IsValid a e none = v
  judge-IsValid a e (some false) = v
  judge-IsValid a e (some true) = record {
    no_payload = v.no_payload;
    sender_first = v.sender_first;
    consistent = (a, e);
  }

  token-Returns :
      (a : PlainAuth) (token : Str) (o : Option PlainAuth)
      → s.auth ≡ some a
      → s.auth ≡ o
      → Returns (check_token s o token)
  token-Returns a token none e k = cc
  token-Returns a token (some b) e k = judge-IsValid b k (valid_credentials b token)

  pub check_credentials-Returns :
      (a : PlainAuth) (payload : Str)
      → s.auth ≡ some a
      → Returns (check_credentials decode s payload)
  unfolding check_credentials
  check_credentials-Returns a payload e = elim (Option-cases (decode payload)) [
    | inl d ↦ rw d v
    | inr (token, d) ↦ rw d (token-Returns a token s.auth e refl)
  ]

  authenticate-Returns :
      (a : PlainAuth) (method payload : Str)
      → s.auth ≡ some a
      → Returns (authenticate decode s method payload)
  unfolding authenticate
  authenticate-Returns a method payload e = elim (Bool-cases (eq_str method (bytes "PLAIN"))) [
    | inl m ↦ elim (Bool-cases (is_empty payload)) [
      | inl p ↦ rw m (rw p v)
      | inr p ↦ rw m (rw p (check_credentials-Returns a payload e))
    ]
    | inr m ↦ rw m v
  ]

  -- The credentials are checked only where there are some.
  auth-Returns :
      (n : Node) (st : AuthState) (a : Option PlainAuth)
      → IsConsistent st a
      → s.auth ≡ a
      → (c : Node) × (get n (bytes "type") ≡ some c)
      → Returns (advance_auth decode s n st a)
  unfolding advance_auth
  auth-Returns n not_permitted a ok e t = v
  auth-Returns n authenticated a ok e t = v
  auth-Returns n required none ok e t = absurd (ground (arith, ok.1))
  auth-Returns n required (some a) ok e (c, t) = elim (Bool-cases (is_permitted a s.security)) [
    | inl p ↦ rw p (rw t (authenticate-Returns a (text_of c) _ e))
    | inr p ↦ rw p v
  ]

  dispatch-Returns : (n : Node) (c : Verb) → HasChildren n c → Returns (dispatch decode s n c)
  unfolding dispatch
  dispatch-Returns n rcpt (c, e) = rw e (add_to-IsValid v (text_of c))
  dispatch-Returns n mail (c, e) = rw e (set_from-IsValid v (text_of c))
  dispatch-Returns n auth_verb h = auth-Returns n s.auth_state s.auth v.consistent refl h
  dispatch-Returns n _ h = v

  command-Returns : (n : Node) (c : Verb) → HasChildren n c → Returns (advance_command decode s n c)
  unfolding advance_command
  command-Returns n c h = elim (Bool-cases (auth_required s c)) [
    | inl e ↦ rw e v
    | inr e ↦ rw e (dispatch-Returns n c h)
  ]

verb_children :
    (n : Node) (w : Str)
    → (is_path_verb w ≡ true → (c : Node) × (get n (bytes "path") ≡ some c))
    → (is_auth w ≡ true → (c : Node) × (get n (bytes "type") ≡ some c))
    → HasChildren n (verb_of w)
unfolding verb_of
verb_children n w hp ht = ground arith

module _ (decode : Decode) {s : Session} (v : IsValid s) where
  advance-Returns : (n : Node) → IsCommand n → Returns (advance decode s (some n))
  unfolding advance
  advance-Returns n h = rw h.verb_found (
      command-Returns decode v n _
        (verb_children n (to_lower (text_of h.verb)) h.path_found h.type_found))

  parsed-Returns :
      (l : Str) (n : Option Node) → smtp_parser l ≡ some n → Returns (advance decode s n)
  parsed-Returns l none e = unfold advance in v
  parsed-Returns l (some n) e = advance-Returns n (smtp_parser-IsCommand l e)

  -- A valid session, and what was read of the input: an error exactly at its end.
  abbrev pub Reads : List Str → Option Read → Type 0
  Reads reader none = ⊥
  Reads [] (some ((s', r), failed, rest)) = (s' ≡ s) × (failed ≡ true) × (rest ≡ [])
  Reads (l ∷ ls) (some ((s', r), failed, rest)) = IsValid s' × (failed ≡ false) × (rest ≡ ls)

  after_line-Reads :
      (l : Str) (ls : List Str) (o : Option (Session × Response))
      → Returns o
      → Reads (l ∷ ls) (after_line ls o)
  after_line-Reads l ls none h = h
  after_line-Reads l ls (some (s', r)) h = (h, refl, refl)

  -- `ReadCommand` on a valid session never panics, whatever the lines are: it reads one of them and
  -- leaves a valid session, or it fails at the end of the input and changes nothing.
  pub read_command-Reads : (reader : List Str) → Reads reader (read_command decode s reader)
  unfolding read_command
  read_command-Reads [] = (refl, refl, refl)
  read_command-Reads (l ∷ ls) =
      let (n, e) = smtp_parser_total l in
      rw e (after_line-Reads l ls (advance decode s n) (parsed-Returns l n e))

  -- `ReadAuthResponse` where there are credentials to check.
  pub read_auth_response-Reads :
      (a : PlainAuth) (reader : List Str)
      → s.auth ≡ some a
      → Reads reader (read_auth_response decode s reader)
  unfolding read_auth_response
  read_auth_response-Reads a [] e = (refl, refl, refl)
  read_auth_response-Reads a (l ∷ ls) e =
      after_line-Reads l ls _ (check_credentials-Returns decode v a l e)

  -- A read never lengthens the input, and shortens it unless it fails.
  pub Reads-shorter :
      (reader : List Str) (s' : Session) (r : Response) (failed : Bool) (rest : List Str)
      → Reads reader (some ((s', r), failed, rest))
      → IsValid s'
        × (length rest ≤ length reader)
        × ((failed ≡ true) ⊎ (length rest < length reader))
  Reads-shorter [] s' r failed rest (e, f, k) =
      (subst IsValid (sym e) v, omega (arith, ap length k), inl f)
  Reads-shorter (l ∷ ls) s' r failed rest (ok, f, k) =
      (ok, omega (arith, ap length k), inr (omega (arith, ap length k)))
