-- ===== src/Connection/Handed.antt =====
-- What `ReadData` hands to `handleConnection`: complete messages.
use failmail.Base.{
  ◌≤◌, ◌≡◌, ◌≢◌, refl, true, false, Option, none, some, List, [], ◌∷◌, ◌++◌, arith, Str, is_empty,
  Bool-cases, inl, inr, All, length,
}
use failmail.Message.{Mail, Received}
use failmail.Session.{
  incomplete, deliver, finish_data, Session, Response, set_data, read_data, collect, is_required,
}
use failmail.Session.Valid.{IsValid}
use failmail.Connection.{Conn, Server}

-- A message as it is handed to the storage: an envelope with both sides, text that was parsed, and
-- recipients that were rewritten.
pub record IsComplete (server : Server) (m : Received) : Type 0 where
  pub from_there : m.from ≢ []
  pub to_there : m.to ≢ []
  pub parsed_there :
      (mail : Mail) × (server.read_message m.payload ≡ some mail) × (m.parsed ≡ some mail)
  pub redirected : m.redirected_to ≡ server.rewrite_all m.to

-- Between two rounds. Nothing is stored for a client that still has to authenticate.
pub record IsSound (server : Server) (c : Conn) : Type 0 where
  pub valid : IsValid c.session
  pub complete : All (IsComplete server) c.stored
  pub gated : is_required c.session.auth_state ≡ true → c.stored ≡ []

abbrev pub Delivers : (Str → Option Mail) → Option Received → Type 0
Delivers read_message none = Unit
Delivers read_message (some m) =
    (m.from ≢ [])
    × (m.to ≢ [])
    × ((mail : Mail) × (read_message m.payload ≡ some mail) × (m.parsed ≡ some mail))

-- What `setData` does to a session and what it hands on.
pub record Handles (read_message : Str → Option Mail) (s : Session)
    (a : Session × Response × Option Received) : Type 0 where
  pub same_state : a.0.auth_state ≡ s.auth_state
  pub delivers : Delivers read_message a.2

is_empty-false {ℓ} : {A : Type ℓ} (l : List A) → is_empty l ≡ false → l ≢ []
is_empty-false [] h e = cc
is_empty-false (x ∷ l) h e = cc

set_data-Handles :
    (read_message : Str → Option Mail) (s : Session) (payload : Str)
    → Handles read_message s (set_data read_message s payload)
unfolding set_data
set_data-Handles read_message s payload = elim (Bool-cases (incomplete s.received)) [
  | inl e ↦ rw e (record { same_state = refl; delivers = tt })
  | inr e ↦ rw e (go (read_message payload) refl e)
]
  where
    go :
        (o : Option Mail)
        → read_message payload ≡ o
        → incomplete s.received ≡ false
        → Handles read_message s (deliver s payload o)
    go none r e = record { same_state = refl; delivers = tt }
    go (some mail) r e = record {
      same_state = refl;
      delivers = (
        is_empty-false s.received.from (ground arith),
        is_empty-false s.received.to (ground arith),
        (mail, r, refl),
      );
    }

pub read_data-Handles :
    (read_message : Str → Option Mail) (s : Session) (reader : List Str)
    → Handles read_message s (read_data read_message s reader).0
unfolding read_data
read_data-Handles read_message s reader = go (collect [] reader).0
  where
    go : (o : Option Str) → Handles read_message s (finish_data read_message s o)
    go none = record { same_state = refl; delivers = tt }
    go (some payload) = set_data-Handles read_message s payload

length-collect : (acc : Str) (reader : List Str) → length (collect acc reader).1 ≤ length reader
unfolding collect
length-collect acc [] = omega arith
length-collect acc (l ∷ ls) = ground (arith, length-collect (acc ++ l) ls)

pub length-read_data :
    (read_message : Str → Option Mail) (s : Session) (reader : List Str)
    → length (read_data read_message s reader).1 ≤ length reader
unfolding read_data
length-read_data read_message s reader = length-collect [] reader
