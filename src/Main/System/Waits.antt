-- ===== src/Main/System/Waits.antt =====
-- failmail.go and reload.go: the reload of a program that sends.
use failmail.Base.{
  ◌≡◌, refl, ◌∙◌, Bool, true, false, ◌&&◌, Option, none, some, List, [], ◌∷◌, if◌then◌else◌,
  Bool-cases, Option-cases, inl, inr, arith, Str,
}
use mathlib.Core.Path.{subst}
use failmail.Listen.{graceful_shutdown, reload, Signal, sigusr1, Listening, Event, step}
use failmail.Buffer.{Limits, Expressions, flush}
use failmail.Buffer.Run.{Meeting, Wake, ticked, requested, Running, run_buffer, flush_at}
use failmail.Main.System.{
  System, Turn, at_listen, writer_ends, at_buffer, sender_ends, with_listen, turn_listen,
  end_writer, end_sender, turn_buffer, turn, turns_from, run_system, all_ended, buffer_ended,
  after_wait, absent_or,
}

-- What a signal sends to the buffer: its requests are those of the signal.
abbrev pub sent_by : Signal → Turn → Bool
sent_by sigusr1 (at_buffer (requested graceful_shutdown m)) = false
sent_by sig t = true

abbrev pub all_sent_by : Signal → List Turn → Bool
all_sent_by sig [] = true
all_sent_by sig (t ∷ ts) = sent_by sig t && all_sent_by sig ts

-- A buffer whose loop has not ended.
abbrev pub IsOpen : Option Running → Type 0
IsOpen none = ⊥
IsOpen (some r) = r.closed ≡ false

module _ (e : Expressions) (limits : Limits) where
  abbrev Stays : Option System → Type 0
  Stays none = Unit
  Stays (some y) = IsOpen y.buffer

  with_listen-Stays :
      (y : System) (o : Option Listening) → IsOpen y.buffer → Stays (with_listen y o)
  with_listen-Stays y none h = tt
  with_listen-Stays y (some s) h = h

  turn_listen-Stays :
      (y : System) (v : Event) (o : Option Listening) → IsOpen y.buffer → Stays (turn_listen y v o)
  turn_listen-Stays y v none h = tt
  turn_listen-Stays y v (some s) h = with_listen-Stays y (step s v) h

  end_writer-Stays : (y : System) (o : Option Listening) → IsOpen y.buffer → Stays (end_writer y o)
  end_writer-Stays y none h = tt
  end_writer-Stays y (some s) h = elim (Bool-cases s.channel_open) [
    | inl e ↦ rw e tt
    | inr e ↦ rw e h
  ]

  end_sender-Stays : (y : System) (o : Option Running) → IsOpen y.buffer → Stays (end_sender y o)
  end_sender-Stays y none h = tt
  end_sender-Stays y (some r) h = go r.closed
    where
      go : (b : Bool) → Stays (if b then some (record y { sender_ended = true }) else none)
      go true = h
      go false = tt

  flush_at-closed :
      (force : Bool) (r : Running) (m : Meeting) → (flush_at e limits force r m).closed ≡ r.closed
  unfolding flush_at flush
  flush_at-closed force r m = elim (Option-cases m.stored) [
    | inl h ↦ rw (h, flush) refl
    | inr (stored, h) ↦ rw (h, flush) refl
  ]

  run_buffer-open :
      (w : Wake) (r : Running)
      → sent_by sigusr1 (at_buffer w) ≡ true
      → r.closed ≡ false
      → (run_buffer e limits r (w ∷ [])).closed ≡ false
  unfolding run_buffer
  run_buffer-open (ticked m) r h o = flush_at-closed false r m ∙ o
  run_buffer-open (requested graceful_shutdown m) r h o = cc
  run_buffer-open (requested reload m) r h o = o

  turn_buffer-Stays :
      (y : System) (w : Wake) (o : Option Running)
      → sent_by sigusr1 (at_buffer w) ≡ true
      → IsOpen o
      → Stays (turn_buffer e limits y w o)
  turn_buffer-Stays y w none h o = tt
  turn_buffer-Stays y w (some r) h o = go r.closed
    where
      go :
          (b : Bool)
          → Stays (
              if b
              then none
              else some (record y { buffer = some (run_buffer e limits r (w ∷ [])) }))
      go true = tt
      go false = run_buffer-open w r h o

  turn-Stays :
      (y : System) (t : Turn)
      → sent_by sigusr1 t ≡ true
      → IsOpen y.buffer
      → Stays (turn e limits y t)
  unfolding turn
  turn-Stays y (at_listen v) h o = turn_listen-Stays y v y.listen o
  turn-Stays y writer_ends h o = end_writer-Stays y y.listen o
  turn-Stays y (at_buffer w) h o = turn_buffer-Stays y w y.buffer h o
  turn-Stays y sender_ends h o = end_sender-Stays y y.buffer o

  turns_from-Stays :
      (f : System → Option System)
      → ((y : System) → IsOpen y.buffer → Stays (f y))
      → (o : Option System) → Stays o
      → Stays (turns_from e limits f o)
  turns_from-Stays f k none h = tt
  turns_from-Stays f k (some y) h = k y h

  run_system-Stays :
      (ts : List Turn) (y : System)
      → all_sent_by sigusr1 ts ≡ true
      → IsOpen y.buffer
      → Stays (run_system e limits y ts)
  unfolding run_system
  run_system-Stays [] y h o = o
  run_system-Stays (t ∷ ts) y h o =
      turns_from-Stays (λ z. run_system e limits z ts) (λ z. run_system-Stays ts z (ground arith))
        (turn e limits y t) (turn-Stays y t (ground arith) o)

  not_ended : (b : Option Running) (rest : Bool) → IsOpen b → (buffer_ended b && rest) ≡ false
  not_ended none rest h = absurd h
  not_ended (some r) rest h = rw h refl

  -- After SIGUSR1 a program that sends never comes to its reload: whatever its goroutines do, the loop
  -- of the buffer does not end, and `main` waits for it.
  pub reload_waits :
      (pidfile : Bool) (program : Str) (args : List Str) (ts : List Turn) (y z : System)
      → IsOpen y.buffer
      → all_sent_by sigusr1 ts ≡ true
      → run_system e limits y ts ≡ some z
      → after_wait pidfile sigusr1 program args z ≡ none
  unfolding after_wait all_ended
  reload_waits pidfile program args ts y z o sent h =
      let open_still = subst Stays h (run_system-Stays ts y sent o) in
      let waits = not_ended z.buffer (absent_or z.buffer z.sender_ended) open_still in ground arith
