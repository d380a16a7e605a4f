-- ===== src/Main/System/Ends.antt =====
-- failmail.go: the end of `main` after a signal.
use failmail.Base.{
  ℕ, ◌≡◌, refl, ap, ◌∙◌, Bool, true, false, not, ◌&&◌, Option, none, some, is_none, List, [], ◌∷◌,
  ◌++◌, map, arith, Str,
}
use failmail.Listen.{
  Signal, interrupt, sigterm, sigusr1, is_sigusr1, request_for, selecting, Listening, Event, step,
  run_listen, steps_from,
}
use failmail.Listen.Shutdown.{shut_down, descriptor, run_listen-shut_down}
use failmail.Buffer.{Limits, Expressions}
use failmail.Buffer.Run.{Meeting, requested, Running, run_buffer}
use failmail.Main.{end_main}
use failmail.Main.System.{
  System, Turn, at_listen, writer_ends, at_buffer, sender_ends, with_listen, turn, turns_from,
  run_system, all_ended, listen_ended, buffer_ended, after_wait, reload_fd, absent_or, has_returned,
  phase_fd,
}

-- A `Listen` that is at its `select`, with a loop that accepts.
abbrev pub IsListening : Option Listening → Type 0
IsListening none = Unit
IsListening (some s) = (s.phase ≡ selecting) × (s.accepting ≡ true) × (s.panicked ≡ false)

abbrev pub IsBuffering : Option Running → Type 0
IsBuffering none = Unit
IsBuffering (some r) = r.closed ≡ false

-- The goroutines of `main` when the signal comes.
abbrev pub working : Option Listening → Option Running → System
working l b = record { listen = l; writer_ended = false; buffer = b; sender_ended = false }

-- What they do then: the listener is shut down, with a descriptor that is duplicated, and the buffer,
-- with one last flush.
abbrev pub listen_turns : Signal → ℕ → Option Listening → List Turn
listen_turns sig fd none = []
listen_turns sig fd (some s) =
    map at_listen (shut_down (request_for sig) fd s.active) ++ writer_ends ∷ []

abbrev pub buffer_turns : Signal → Meeting → Option Running → List Turn
buffer_turns sig m none = []
buffer_turns sig m (some r) = at_buffer (requested (request_for sig) m) ∷ sender_ends ∷ []

abbrev pub returned_fd : Signal → ℕ → Option Listening → ℕ
returned_fd sig fd none = 0
returned_fd sig fd (some s) = descriptor (request_for sig) fd

module _ (e : Expressions) (limits : Limits) where
  turns_from-turns_from :
      (f g h : System → Option System)
      → ((y : System) → h y ≡ turns_from e limits g (f y))
      → (o : Option System)
      → turns_from e limits h o ≡ turns_from e limits g (turns_from e limits f o)
  turns_from-turns_from f g h k none = refl
  turns_from-turns_from f g h k (some y) = k y

  run_system-append :
      (ts us : List Turn) (y : System)
      → run_system e limits y (ts ++ us)
        ≡ turns_from e limits (λ z. run_system e limits z us) (run_system e limits y ts)
  unfolding run_system
  run_system-append [] us y = refl
  run_system-append (t ∷ ts) us y =
      turns_from-turns_from (λ z. run_system e limits z ts) (λ z. run_system e limits z us)
        (λ z. run_system e limits z (ts ++ us)) (run_system-append ts us) (turn e limits y t)

  with_listen-runs :
      (y : System) (vs : List Event) (t : Listening)
      → ((s : Listening)
          → run_listen s vs ≡ some t
          → run_system e limits (record y { listen = some s }) (map at_listen vs)
            ≡ some (record y { listen = some t }))
      → (o : Option Listening) → steps_from (λ s. run_listen s vs) o ≡ some t
      → turns_from e limits (λ z. run_system e limits z (map at_listen vs)) (with_listen y o)
        ≡ some (record y { listen = some t })
  with_listen-runs y vs t ih none h = cc
  with_listen-runs y vs t ih (some s) h = ih s h

  run_system-at_listen :
      (y : System) (t : Listening) (vs : List Event) (s : Listening)
      → run_listen s vs ≡ some t
      → run_system e limits (record y { listen = some s }) (map at_listen vs)
        ≡ some (record y { listen = some t })
  unfolding run_system run_listen turn
  run_system-at_listen y t [] s h = ap (λ s'. some (record y { listen = some s' })) (cc)
  run_system-at_listen y t (v ∷ vs) s h =
      with_listen-runs y vs t (run_system-at_listen y t vs) (step s v) h

  -- What the first of the two parts leads to.
  record Listened (sig : Signal) (fd : ℕ) (l : Option Listening) (b : Option Running) : Type 0 where
    listen : Option Listening
    writer : Bool
    leads :
        run_system e limits (working l b) (listen_turns sig fd l)
        ≡ some (record (working listen b) { writer_ended = writer })
    ends : (listen_ended listen && absent_or listen writer) ≡ true
    fd_of : reload_fd listen ≡ returned_fd sig fd l

  listen_turns-Listened :
      (sig : Signal) (fd : ℕ) (l : Option Listening) (b : Option Running)
      → IsListening l
      → Listened sig fd l b
  unfolding run_system turn
  listen_turns-Listened sig fd none b h = record {
    listen = none;
    writer = false;
    leads = refl;
    ends = refl;
    fd_of = refl;
  }
  listen_turns-Listened sig fd (some s) b (at, accepting, alive) =
      let (t, runs, phase, closed, active, fine) =
        run_listen-shut_down (request_for sig) fd s at accepting alive in
      record {
        listen = some t;
        writer = true;
        leads =
            run_system-append (map at_listen (shut_down (request_for sig) fd s.active))
              (writer_ends ∷ []) (working (some s) b)
            ∙ ap (turns_from e limits (λ z. run_system e limits z (writer_ends ∷ [])))
                (run_system-at_listen (working (some s) b) t _ s runs)
            ∙ simp closed;
        ends = ap (λ p. has_returned p && true) phase;
        fd_of = ap phase_fd phase;
      }

  -- What both lead to.
  record Buffered (sig : Signal) (m : Meeting) (l : Option Listening) (w : Bool)
      (b : Option Running) : Type 0 where
    buffer : Option Running
    sender : Bool
    leads :
        run_system e limits (record (working l b) { writer_ended = w }) (buffer_turns sig m b)
        ≡ some (record { listen = l; writer_ended = w; buffer = buffer; sender_ended = sender })
    ends : (buffer_ended buffer && absent_or buffer sender) ≡ true

  run_buffer-graceful :
      (sig : Signal) (m : Meeting) (r : Running)
      → is_sigusr1 sig ≡ false
      → (run_buffer e limits r (requested (request_for sig) m ∷ [])).closed ≡ true
  unfolding run_buffer
  run_buffer-graceful interrupt m r h = refl
  run_buffer-graceful sigterm m r h = refl
  run_buffer-graceful sigusr1 m r h = cc

  buffer_turns-Buffered :
      (sig : Signal) (m : Meeting) (l : Option Listening) (w : Bool) (b : Option Running)
      → IsBuffering b
      → (is_sigusr1 sig && not (is_none b)) ≡ false
      → Buffered sig m l w b
  unfolding run_system turn
  buffer_turns-Buffered sig m l w none h k = record {
    buffer = none;
    sender = false;
    leads = refl;
    ends = refl;
  }
  buffer_turns-Buffered sig m l w (some r) open_loop k =
      let closed = run_buffer-graceful sig m r (ground arith) in
      record {
        buffer = some (run_buffer e limits r (requested (request_for sig) m ∷ []));
        sender = true;
        leads = simp (open_loop, closed);
        ends = ap (λ c. c && true) closed;
      }

  -- After a signal `main` can end, however many connections are open, but for a reload of a program
  -- that sends: when the calls on the socket succeed, its loop and the connections end, and the last
  -- `Flush` returns, all the goroutines end, and `main` goes on to `TryReload` with the descriptor
  -- that `Listen` returned.
  pub main_ends :
      (sig : Signal) (fd : ℕ) (m : Meeting) (pidfile : Bool) (program : Str) (args : List Str)
      (l : Option Listening) (b : Option Running)
      → IsListening l
      → IsBuffering b
      → (is_sigusr1 sig && not (is_none b)) ≡ false
      → (y : System) × (run_system e limits
            (working l b)
            (listen_turns sig fd l ++ buffer_turns sig m b)
          ≡ some y)
        × (after_wait pidfile sig program args y
            ≡ some (end_main pidfile (is_sigusr1 sig) (returned_fd sig fd l) program args))
  unfolding after_wait all_ended
  main_ends sig fd m pidfile program args l b listening buffering k =
      let first = listen_turns-Listened sig fd l b listening in
      let second = buffer_turns-Buffered sig m first.listen first.writer b buffering k in
      (
        record {
          listen = first.listen;
          writer_ended = first.writer;
          buffer = second.buffer;
          sender_ended = second.sender;
        },
        run_system-append (listen_turns sig fd l) (buffer_turns sig m b) (working l b)
            ∙ ap (turns_from e limits (λ z. run_system e limits z (buffer_turns sig m b)))
                first.leads
            ∙ second.leads,
        rw (first.ends, second.ends, first.fd_of) refl,
      )
