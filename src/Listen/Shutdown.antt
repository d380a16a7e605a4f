-- ===== src/Listen/Shutdown.antt =====
-- downstream.go: how `Listen` is shut down.
use failmail.Base.{ℕ, zero, suc, ◌≡◌, refl, ap, ◌∙◌, true, false, some, List, [], ◌∷◌}
use failmail.Listen.{
  TerminationRequest, graceful_shutdown, reload, selecting, draining, finished, Listening, Event,
  accept_fails, connection_done, requested, accept_finished, waited, terminate, finish, step,
  run_listen,
}

-- Every connection ends, and then the wait.
abbrev pub all_done : ℕ → List Event
all_done zero = waited ∷ []
all_done (suc n) = connection_done ∷ all_done n

-- A request, with calls that succeed; the loop of `Accept` ends, and the connections do.
abbrev pub shut_down : TerminationRequest → ℕ → ℕ → List Event
shut_down req fd n =
    requested req (record { dup = some fd; closes = true })
    ∷ accept_fails
    ∷ accept_finished
    ∷ all_done n

abbrev pub descriptor : TerminationRequest → ℕ → ℕ
descriptor graceful_shutdown fd = 0
descriptor reload fd = fd

abbrev waiting : Listening → ℕ → Listening
waiting s n = record s { phase = draining; active = n; panicked = false }

drains :
    (n : ℕ) (s : Listening)
    → run_listen (waiting s n) (all_done n) ≡ some (finish (waiting s 0) false)
unfolding run_listen step
drains zero s = refl
drains (suc n) s = drains n s

abbrev running : Listening → Listening
running s = record s { phase = selecting; accepting = true; panicked = false }

shuts_down :
    (req : TerminationRequest) (fd : ℕ) (s : Listening)
    → run_listen (running s) (shut_down req fd s.active)
      ≡ some (record s {
        phase = finished (descriptor req fd);
        socket_open = false;
        accepting = false;
        active = 0;
        new_fd = descriptor req fd;
        channel_open = false;
        timed_out = false;
        panicked = false;
      })
unfolding run_listen step terminate
shuts_down graceful_shutdown fd s =
    drains s.active (record s { socket_open = false; accepting = false; new_fd = 0 })
shuts_down reload fd s =
    drains s.active (record s { socket_open = false; accepting = false; new_fd = fd })

-- A running `Listen` can be shut down, however many connections are open: when the calls on the socket
-- succeed, its loop ends and every connection does, it returns the descriptor that a reload asks for,
-- with the channel closed and no panic.
pub run_listen-shut_down :
    (req : TerminationRequest) (fd : ℕ) (s : Listening)
    → s.phase ≡ selecting
    → s.accepting ≡ true
    → s.panicked ≡ false
    → (t : Listening) × (run_listen s (shut_down req fd s.active) ≡ some t)
      × (t.phase ≡ finished (descriptor req fd))
      × (t.channel_open ≡ false)
      × (t.active ≡ 0)
      × (t.panicked ≡ false)
run_listen-shut_down req fd s at accepting alive =
    let same : s ≡ running s =
      λ i. record s { phase = at i; accepting = accepting i; panicked = alive i } in
    (
      _,
      ap (λ t. run_listen t (shut_down req fd s.active)) same ∙ shuts_down req fd s,
      refl,
      refl,
      refl,
      refl,
    )
