-- ===== src/Main/System.antt =====
-- failmail.go: the goroutines that `main` waits for, as steps of one state.
--
-- A receiving program runs `Listen` and the loop of the writer, a sending one the loops of the buffer
-- and of the sender. The writer ends once the channel of messages is closed, the sender once that of
-- requests is.
pub mod Ends
pub mod Waits
use failmail.Base.{
  ℕ, Bool, true, false, not, ◌&&◌, Option, none, some, List, [], ◌∷◌, if◌then◌else◌, Str,
}
use failmail.Listen.{
  TerminationRequest, Signal, sigusr1, is_sigusr1, Phase, finished, failed, Listening, Event, step,
}
use failmail.Buffer.{Limits, Expressions}
use failmail.Buffer.Run.{Wake, Running, run_buffer}
use failmail.Main.{Ending, end_main}

pub record System : Type 0 where
  pub listen : Option Listening
  pub writer_ended : Bool
  pub buffer : Option Running
  pub sender_ended : Bool

pub data Turn : Type 0 where
  at_listen : Event → Turn
  writer_ends : Turn
  at_buffer : Wake → Turn
  sender_ends : Turn

abbrev pub with_listen : System → Option Listening → Option System
with_listen y none = none
with_listen y (some s) = some (record y { listen = some s })

abbrev pub turn_listen : System → Event → Option Listening → Option System
turn_listen y e none = none
turn_listen y e (some s) = with_listen y (step s e)

abbrev pub end_writer : System → Option Listening → Option System
end_writer y none = none
end_writer y (some s) = if s.channel_open then none else some (record y { writer_ended = true })

abbrev pub end_sender : System → Option Running → Option System
end_sender y none = none
end_sender y (some r) = if r.closed then some (record y { sender_ended = true }) else none

module _ (e : Expressions) (limits : Limits) where
  -- A loop that has ended receives nothing more.
  abbrev pub turn_buffer : System → Wake → Option Running → Option System
  turn_buffer y w none = none
  turn_buffer y w (some r) =
      if r.closed then none else some (record y { buffer = some (run_buffer e limits r (w ∷ [])) })

  unfoldable pub turn : System → Turn → Option System
  unfolding step run_buffer
  turn y (at_listen v) = turn_listen y v y.listen
  turn y writer_ends = end_writer y y.listen
  turn y (at_buffer w) = turn_buffer y w y.buffer
  turn y sender_ends = end_sender y y.buffer

  abbrev pub turns_from : (System → Option System) → Option System → Option System
  turns_from f none = none
  turns_from f (some y) = f y

  unfoldable pub run_system : System → List Turn → Option System
  unfolding turn
  run_system y [] = some y
  run_system y (t ∷ ts) = turns_from (λ z. run_system z ts) (turn y t)

abbrev pub has_returned : Phase → Bool
has_returned (finished fd) = true
has_returned failed = true
has_returned _ = false

abbrev pub listen_ended : Option Listening → Bool
listen_ended none = true
listen_ended (some s) = has_returned s.phase

abbrev pub buffer_ended : Option Running → Bool
buffer_ended none = true
buffer_ended (some r) = r.closed

abbrev pub absent_or {ℓ} : {A : Type ℓ} → Option A → Bool → Bool
absent_or none b = true
absent_or (some a) b = b

-- The count of `waitGroup` is zero.
unfoldable pub all_ended : System → Bool
all_ended y =
    (listen_ended y.listen && absent_or y.listen y.writer_ended)
    && (buffer_ended y.buffer && absent_or y.buffer y.sender_ended)

-- `reloadFd`, what `Listen` returned: 0 with an error.
abbrev pub phase_fd : Phase → ℕ
phase_fd (finished fd) = fd
phase_fd _ = 0

abbrev pub reload_fd : Option Listening → ℕ
reload_fd none = 0
reload_fd (some s) = phase_fd s.phase

-- `main` from `waitGroup.Wait()` on, which does not return while a goroutine runs.
unfoldable pub after_wait : Bool → Signal → Str → List Str → System → Option Ending
unfolding all_ended end_main
after_wait pidfile sig program args y =
    if all_ended y
    then some (end_main pidfile (is_sigusr1 sig) (reload_fd y.listen) program args)
    else none
