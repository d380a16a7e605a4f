-- ===== src/Listen/Sound.antt =====
-- What holds of `Listen` in every interleaving.
use failmail.Base.{
  ℕ, zero, suc, ◌≤◌, ◌≡◌, refl, sym, ap, ◌∙◌, Bool, true, false, not, ◌&&◌, Option, none, some,
  List, [], ◌∷◌, if◌then◌else◌, arith, Bool-cases, inl, inr,
}
use mathlib.Core.Path.{subst}
use failmail.Listen.{
  TerminationRequest, graceful_shutdown, reload, Phase, selecting, closing, draining, failed,
  close_socket, duplicated, is_zero, steps_from, finished, Listening, Closing, Event, accepts,
  accept_fails, puts, connection_done, requested, accept_finished, waited, times_out, listening,
  terminate, stop_accepting, on_request, end_wait, leave, put_request, move, step, run_listen,
}

-- Whether `Listen` is past the loop of `Accept`, and whether it has closed the channel.
abbrev pub past_accept : Phase → Bool
past_accept draining = true
past_accept (finished fd) = true
past_accept _ = false

abbrev pub has_finished : Phase → Bool
has_finished (finished fd) = true
has_finished _ = false

pub record IsSound (s : Listening) : Type 0 where
  pub stopped : past_accept s.phase ≡ true → s.accepting ≡ false
  pub closed : s.channel_open ≡ not (has_finished s.phase)
  pub drained : has_finished s.phase ≡ true → s.timed_out ≡ false → s.active ≡ 0
  pub late : s.panicked ≡ true → s.timed_out ≡ true
  pub counted : s.active ≤ s.conns

listening-IsSound : IsSound listening
listening-IsSound = record {
  stopped = λ h. cc;
  closed = refl;
  drained = λ h k. refl;
  late = λ h. cc;
  counted = omega arith;
}

-- A state that a goroutine leads to.
abbrev Leads : Option Listening → Type 0
Leads none = Unit
Leads (some t) = IsSound t

leave-Leads : (s : Listening) (n : ℕ) → s.active ≡ n → IsSound s → Leads (leave s n)
leave-Leads s zero e h = tt
leave-Leads s (suc n) e h = record {
  stopped = h.stopped;
  closed = h.closed;
  drained = λ f k. ground (arith, h.drained f k);
  late = h.late;
  counted = omega (arith, h.counted);
}

put_request-Leads :
    (s : Listening) (n : ℕ)
    → s.active ≡ n
    → s.panicked ≡ false
    → IsSound s
    → Leads (put_request s n)
put_request-Leads s zero e alive h = tt
put_request-Leads s (suc n) e alive h = elim (Bool-cases s.channel_open) [
  | inl o ↦ rw o (record {
    stopped = h.stopped;
    closed = sym o ∙ h.closed;
    drained = h.drained;
    late = h.late;
    counted = h.counted;
  })
  | inr o ↦ rw o (record {
    stopped = h.stopped;
    closed = sym o ∙ h.closed;
    drained = h.drained;
    late = λ _. ground (arith, h.closed, h.drained);
    counted = h.counted;
  })
]

-- A request takes `Listen` from its `select` to a phase before the wait.
moved-IsSound :
    (s : Listening) (p : Phase) (b : Bool) (fd : ℕ)
    → past_accept p ≡ false
    → has_finished p ≡ false
    → s.phase ≡ selecting
    → IsSound s
    → IsSound (record s { phase = p; socket_open = b; new_fd = fd })
moved-IsSound s p b fd e f at h = record {
  stopped = λ g. cc;
  closed = h.closed ∙ ap (λ q. not (has_finished q)) at ∙ ap not (sym f);
  drained = λ g. cc;
  late = h.late;
  counted = h.counted;
}

close_socket-IsSound :
    (s : Listening) (c : Closing) (fd : ℕ)
    → s.phase ≡ selecting
    → IsSound s
    → IsSound (close_socket s c fd)
close_socket-IsSound s c fd at h = elim (Bool-cases c.closes) [
  | inl e ↦ rw e (moved-IsSound s closing false fd refl refl at h)
  | inr e ↦ rw e (moved-IsSound s failed s.socket_open s.new_fd refl refl at h)
]

duplicated-IsSound :
    (s : Listening) (c : Closing) (o : Option ℕ)
    → s.phase ≡ selecting
    → IsSound s
    → IsSound (duplicated s c o)
duplicated-IsSound s c none at h = moved-IsSound s failed s.socket_open s.new_fd refl refl at h
duplicated-IsSound s c (some fd) at h = close_socket-IsSound s c fd at h

on_request-Leads :
    (s : Listening) (req : TerminationRequest) (c : Closing) (p : Phase)
    → s.phase ≡ p
    → IsSound s
    → Leads (on_request s req c p)
unfolding terminate
on_request-Leads s reload c selecting at h = duplicated-IsSound s c c.dup at h
on_request-Leads s graceful_shutdown c selecting at h = close_socket-IsSound s c 0 at h
on_request-Leads s req c closing at h = tt
on_request-Leads s req c draining at h = tt
on_request-Leads s req c failed at h = tt
on_request-Leads s req c (finished fd) at h = tt

to_draining :
    (s : Listening)
    → has_finished s.phase ≡ false
    → IsSound s
    → Leads (if s.accepting then none else some (record s { phase = draining }))
to_draining s f h = elim (Bool-cases s.accepting) [
  | inl e ↦ rw e tt
  | inr e ↦ rw e (record {
    stopped = λ _. refl;
    closed = h.closed ∙ ap not f;
    drained = λ g. cc;
    late = h.late;
    counted = h.counted;
  })
]

stop_accepting-Leads :
    (s : Listening) (p : Phase) → s.phase ≡ p → IsSound s → Leads (stop_accepting s p)
stop_accepting-Leads s selecting at h = to_draining s (ap has_finished at) h
stop_accepting-Leads s closing at h = to_draining s (ap has_finished at) h
stop_accepting-Leads s draining at h = tt
stop_accepting-Leads s failed at h = tt
stop_accepting-Leads s (finished fd) at h = tt

end_wait-Leads :
    (s : Listening) (late : Bool) (p : Phase)
    → s.phase ≡ p
    → s.panicked ≡ false
    → (late ≡ false → s.active ≡ 0)
    → IsSound s
    → Leads (end_wait s late p)
end_wait-Leads s late selecting at alive e h = tt
end_wait-Leads s late closing at alive e h = tt
end_wait-Leads s late failed at alive e h = tt
end_wait-Leads s late (finished fd) at alive e h = tt
end_wait-Leads s late draining at alive e h = record {
  stopped = λ _. h.stopped (ap past_accept at);
  closed = refl;
  drained = λ _ g. e g;
  late = λ g. cc;
  counted = h.counted;
}

waited-Leads :
    (s : Listening) (n : ℕ)
    → s.active ≡ n
    → s.panicked ≡ false
    → IsSound s
    → Leads (if is_zero n then end_wait s false s.phase else none)
waited-Leads s zero e alive h = end_wait-Leads s false s.phase refl alive (λ _. e) h
waited-Leads s (suc n) e alive h = tt

past_finished : (p : Phase) → has_finished p ≡ true → past_accept p ≡ true
past_finished selecting h = cc
past_finished closing h = cc
past_finished draining h = refl
past_finished failed h = cc
past_finished (finished fd) h = refl

accepts-Leads : (s : Listening) → s.panicked ≡ false → IsSound s → Leads (move s accepts)
accepts-Leads s alive h = elim (Bool-cases (s.accepting && s.socket_open)) [
  | inr e ↦ rw e tt
  | inl e ↦ rw e (record {
    stopped = h.stopped;
    closed = h.closed;
    drained = λ f k. absurd (ground (arith, h.stopped (past_finished s.phase f)));
    late = h.late;
    counted = omega (arith, h.counted);
  })
]

accept_fails-Leads : (s : Listening) → IsSound s → Leads (move s accept_fails)
accept_fails-Leads s h = elim (Bool-cases s.accepting) [
  | inr e ↦ rw e tt
  | inl e ↦ rw e (record {
    stopped = λ _. refl;
    closed = h.closed;
    drained = h.drained;
    late = h.late;
    counted = h.counted;
  })
]

move-Leads : (s : Listening) (e : Event) → s.panicked ≡ false → IsSound s → Leads (move s e)
move-Leads s accepts alive h = accepts-Leads s alive h
move-Leads s accept_fails alive h = accept_fails-Leads s h
move-Leads s puts alive h = put_request-Leads s s.active refl alive h
move-Leads s connection_done alive h = leave-Leads s s.active refl h
move-Leads s (requested req c) alive h = on_request-Leads s req c s.phase refl h
move-Leads s accept_finished alive h = stop_accepting-Leads s s.phase refl h
move-Leads s waited alive h = waited-Leads s s.active refl alive h
move-Leads s times_out alive h = end_wait-Leads s true s.phase refl alive (λ e. cc) h

step-Leads : (s : Listening) (e : Event) → IsSound s → Leads (step s e)
unfolding step
step-Leads s e h = go s.panicked refl
  where
    go : (b : Bool) → s.panicked ≡ b → Leads (if b then none else move s e)
    go true d = tt
    go false d = move-Leads s e d h

steps_from-Leads :
    (f : Listening → Option Listening)
    → ((s : Listening) → IsSound s → Leads (f s))
    → (o : Option Listening) → Leads o
    → Leads (steps_from f o)
steps_from-Leads f k none h = tt
steps_from-Leads f k (some s) h = k s h

run-Leads : (es : List Event) (s : Listening) → IsSound s → Leads (run_listen s es)
unfolding run_listen
run-Leads [] s h = h
run-Leads (e ∷ es) s h =
    steps_from-Leads (λ t. run_listen t es) (run-Leads es) (step s e) (step-Leads s e h)

-- In every interleaving: past the wait for its loop no connection is accepted, the channel of messages
-- is closed where `Listen` has returned a descriptor and not before, and then no connection is left
-- unless the wait timed out; and only where it did can a message be put on the closed channel, which
-- panics.
pub run_listen-IsSound :
    (es : List Event) (s : Listening) → run_listen listening es ≡ some s → IsSound s
run_listen-IsSound es s h = subst Leads h (run-Leads es listening listening-IsSound)
