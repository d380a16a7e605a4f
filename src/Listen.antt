-- ===== src/Listen.antt =====
-- downstream.go: `Listen` with its goroutines, as steps of one state, and signals.go.
--
-- An `Event` is one thing that a goroutine does: the loop of `Accept`, a connection that is handled,
-- or `Listen` itself. `step` says what it does to the state, `none` where the goroutine cannot do it
-- there: a list of events is an interleaving. The process has panicked where a request is put on a
-- channel that is closed.
pub mod Shutdown
pub mod Sound
use failmail.Base.{
  ℕ, zero, suc, Bool, true, false, not, ◌&&◌, Option, none, some, List, [], ◌∷◌, map, if◌then◌else◌,
}

-- `TerminationRequest`
pub data TerminationRequest : Type 0 where
  graceful_shutdown reload : TerminationRequest

pub data Signal : Type 0 where
  interrupt sigterm sigusr1 : Signal

abbrev pub request_for : Signal → TerminationRequest
request_for sigusr1 = reload
request_for _ = graceful_shutdown

abbrev pub is_sigusr1 : Signal → Bool
is_sigusr1 sigusr1 = true
is_sigusr1 _ = false

-- `HandleSignals`: what it sends to each listener, and what it returns.
unfoldable pub handle_signals {ℓ} :
    {A : Type ℓ} → Signal → List A → List (A × TerminationRequest) × Bool
handle_signals sig reqs = (map (λ req. (req, request_for sig)) reqs, is_sigusr1 sig)

-- Where `Listen` is: at its `select`, behind the close of its socket, at `WaitWithTimeout`, or
-- returned, with a descriptor or with an error.
pub data Phase : Type 0 where
  selecting closing draining failed : Phase
  finished : ℕ → Phase

pub record Listening : Type 0 where
  pub phase : Phase
  pub socket_open : Bool
  pub accepting : Bool
  pub active : ℕ
  pub conns : ℕ
  pub new_fd : ℕ
  pub channel_open : Bool
  pub put : ℕ
  pub timed_out : Bool
  pub panicked : Bool

-- How the calls that a request leads to end: `Fd` with `Dup` with a descriptor, and `Close`.
pub record Closing : Type 0 where
  pub dup : Option ℕ
  pub closes : Bool

pub data Event : Type 0 where
  accepts accept_fails puts connection_done : Event
  requested : TerminationRequest → Closing → Event
  accept_finished waited times_out : Event

abbrev pub listening : Listening
listening = record {
  phase = selecting;
  socket_open = true;
  accepting = true;
  active = 0;
  conns = 0;
  new_fd = 0;
  channel_open = true;
  put = 0;
  timed_out = false;
  panicked = false;
}

abbrev pub close_socket : Listening → Closing → ℕ → Listening
close_socket s c fd =
    if c.closes
    then record s { phase = closing; socket_open = false; new_fd = fd }
    else record s { phase = failed }

abbrev pub duplicated : Listening → Closing → Option ℕ → Listening
duplicated s c none = record s { phase = failed }
duplicated s c (some fd) = close_socket s c fd

-- `case req := <-done`
unfoldable pub terminate : Listening → TerminationRequest → Closing → Listening
terminate s reload c = duplicated s c c.dup
terminate s graceful_shutdown c = close_socket s c 0

-- `close(received)` and the return.
abbrev pub finish : Listening → Bool → Listening
finish s late = record s { phase = finished s.new_fd; channel_open = false; timed_out = late }

-- `<-acceptFinished`, which the loop sends once it has ended.
abbrev pub stop_accepting : Listening → Phase → Option Listening
stop_accepting s selecting = if s.accepting then none else some (record s { phase = draining })
stop_accepting s closing = if s.accepting then none else some (record s { phase = draining })
stop_accepting s _ = none

abbrev pub on_request : Listening → TerminationRequest → Closing → Phase → Option Listening
on_request s req c selecting = some (terminate s req c)
on_request s req c _ = none

abbrev pub end_wait : Listening → Bool → Phase → Option Listening
end_wait s late draining = some (finish s late)
end_wait s late _ = none

-- `waitGroup.Done()`
abbrev pub leave : Listening → ℕ → Option Listening
leave s zero = none
leave s (suc n) = some (record s { active = n })

-- `received <- request` of one of the connections.
abbrev pub put_request : Listening → ℕ → Option Listening
put_request s zero = none
put_request s (suc n) =
    some (if s.channel_open then record s { put = suc s.put } else record s { panicked = true })

abbrev pub is_zero : ℕ → Bool
is_zero zero = true
is_zero (suc n) = false

abbrev pub move : Listening → Event → Option Listening
move s accepts =
    if s.accepting && s.socket_open
    then some (record s { active = suc s.active; conns = suc s.conns })
    else none
move s accept_fails = if s.accepting then some (record s { accepting = false }) else none
move s puts = put_request s s.active
move s connection_done = leave s s.active
move s (requested req c) = on_request s req c s.phase
move s accept_finished = stop_accepting s s.phase
move s waited = if is_zero s.active then end_wait s false s.phase else none
move s times_out = end_wait s true s.phase

-- A process that has panicked does nothing more.
unfoldable pub step : Listening → Event → Option Listening
unfolding terminate
step s e = if s.panicked then none else move s e

abbrev pub steps_from : (Listening → Option Listening) → Option Listening → Option Listening
steps_from f none = none
steps_from f (some s) = f s

unfoldable pub run_listen : Listening → List Event → Option Listening
unfolding step
run_listen s [] = some s
run_listen s (e ∷ es) = steps_from (λ t. run_listen t es) (step s e)
