-- ===== src/Tests/Listens.antt =====
-- A listener that is reloaded while a connection is open, and one whose wait times out.
use failmail.Base.{◌≡◌, refl, true, false, none, some, List, [], ◌∷◌}
use failmail.Listen.{
  graceful_shutdown, reload, finished, Listening, Event, accepts, accept_fails, puts, requested,
  accept_finished, times_out, listening, step, run_listen, terminate,
}
use failmail.Listen.Sound.{IsSound, run_listen-IsSound}
use failmail.Listen.Shutdown.{shut_down, descriptor, run_listen-shut_down}

-- A connection puts a message after the wait timed out.
abbrev late : List Event
late =
    accepts
    ∷ requested graceful_shutdown (record { dup = none; closes = true })
    ∷ accept_fails
    ∷ accept_finished
    ∷ times_out
    ∷ puts
    ∷ []

abbrev panic : Listening
panic = record {
  phase = finished 0;
  socket_open = false;
  accepting = false;
  active = 1;
  conns = 1;
  new_fd = 0;
  channel_open = false;
  put = 0;
  timed_out = true;
  panicked = true;
}

panics_late : run_listen listening late ≡ some panic
unfolding run_listen step terminate
panics_late = refl

run_listen-IsSound_example : IsSound panic
run_listen-IsSound_example = run_listen-IsSound late panic panics_late

abbrev busy : Listening
busy = record listening { active = 2; conns = 2 }

run_listen-shut_down_example :
    (t : Listening) × (run_listen busy (shut_down reload 7 2) ≡ some t)
    × (t.phase ≡ finished (descriptor reload 7))
    × (t.channel_open ≡ false)
    × (t.active ≡ 0)
    × (t.panicked ≡ false)
run_listen-shut_down_example = run_listen-shut_down reload 7 busy refl refl refl
