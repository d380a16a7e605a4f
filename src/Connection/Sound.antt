-- ===== src/Connection/Sound.antt =====
-- What the loop of `handleConnection` keeps, and that it ends.
use failmail.Base.{ℕ, ◌≤◌, ◌<◌, ◌⊎◌, ◌≡◌, Option, none, some}
use failmail.Session.{Session}
use failmail.Connection.{
  Conn, Server, Round, again, finished, blocked, End, returned, waits, StorageAnswer, unanswered,
  untaken, closed, rounds,
}
use failmail.Connection.Handed.{IsSound}

module _ (server : Server) where
  -- A state that is sound, with `n` lines at most to be read.
  abbrev SoundWithin : ℕ → Conn → Type 0
  SoundWithin n c = IsSound server c × (rounds c ≤ n)

  -- The storage does not answer, or nobody takes the message.
  abbrev pub IsSilent : StorageAnswer → Type 0
  IsSilent a = (a ≡ unanswered) ⊎ (a ≡ untaken)

  -- A round that is over: the loop ends, or goes on with fewer lines than `n`, or the storage fails.
  abbrev RoundSound : ℕ → Option Round → Type 0
  RoundSound n none = (i : ℕ) × (server.answers i ≡ closed)
  RoundSound n (some (finished c)) = IsSound server c
  RoundSound n (some (blocked c)) = IsSound server c × (i : ℕ) × IsSilent (server.answers i)
  RoundSound n (some (again c)) = IsSound server c × (rounds c < n)

  abbrev OptionSound : ℕ → Option Conn → Type 0
  OptionSound n none = ⊥
  OptionSound n (some c) = SoundWithin n c

  -- How the loop ends, with more fuel than there are lines: it returns, in a sound state; or a message
  -- was put on the channel that was closed, not taken or not answered.
  abbrev pub LoopSound : Option End → Type 0
  LoopSound none = (i : ℕ) × (server.answers i ≡ closed)
  LoopSound (some (waits c)) = IsSound server c × (i : ℕ) × IsSilent (server.answers i)
  LoopSound (some (returned c)) = IsSound server c
