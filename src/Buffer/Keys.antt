-- ===== src/Buffer/Keys.antt =====
-- messages.go and message_stores.go: the keys of the maps of a buffer, and stored messages.
use mathlib.Core.Logic.{◌↔◌}
use failmail.Base.{ℕ, ◌≡◌, Bool, true, false, ◌&&◌, arith, ◌==◌, Str, eq_str, eq_str_iff, Eq}
use failmail.Message.{Received}

pub record RecipientKey : Type 0 where
  pub key : Str
  pub recipient : Str

unfoldable pub key_beq : RecipientKey → RecipientKey → Bool
key_beq a b = eq_str a.key b.key && eq_str a.recipient b.recipient

pub key_beq_iff : (a b : RecipientKey) → (key_beq a b ≡ true) ↔ (a ≡ b)
unfolding key_beq
key_beq_iff a b = ground (arith, eq_str_iff a.key b.key, eq_str_iff a.recipient b.recipient)

instance abbrev pub key_eq : Eq RecipientKey
key_eq = record { beq = key_beq; beq_iff = key_beq_iff }

-- What the stores hand out: a number from the store in memory, a file name from the one on disk.
pub data MessageId : Type 0 where
  counter : ℕ → MessageId
  file : Str → MessageId

unfoldable pub id_beq : MessageId → MessageId → Bool
id_beq (counter a) (counter b) = a == b
id_beq (file a) (file b) = eq_str a b
id_beq _ _ = false

pub id_beq_iff : (a b : MessageId) → (id_beq a b ≡ true) ↔ (a ≡ b)
unfolding id_beq
id_beq_iff (counter a) (counter b) = ground arith
id_beq_iff (file a) (file b) = ground (arith, eq_str_iff a b)
id_beq_iff (counter a) (file b) = ground arith
id_beq_iff (file a) (counter b) = ground arith

instance abbrev pub id_eq : Eq MessageId
id_eq = record { beq = id_beq; beq_iff = id_beq_iff }

-- `StoredMessage`
pub record Stored : Type 0 where
  pub id : MessageId
  pub received : ℕ
  pub message : Received
