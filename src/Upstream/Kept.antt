-- ===== src/Upstream/Kept.antt =====
-- upstream.go: what becomes of a message that cannot be sent, and of the copies in a Maildir.
use failmail.Base.{ℕ, ◌≡◌, refl, ap, ◌∙◌, Bool, true, false, some, Str}
use failmail.Maildir.{FileSystem, IsLawful, cur, Machine, path_of}
use failmail.Maildir.Wrote.{write-Wrote}
use failmail.Upstream.{
  Outgoing, LiveUpstream, live, to_maildir, multi, no_more, first, Network, World, write_to,
  send_live, unless_failed, send, Sender, save_failed, serve,
}

module _ (N : Network) (F : FileSystem) where
  -- The contents are in a file of the Maildir that stood at the address, under the name.
  abbrev pub Holds : World N F → ℕ → World N F → Str → Str → Type 0
  Holds before i w name text =
      F.read_file w.files (path_of (before.maildirs i) name cur) ≡ some text

module _ (N : Network) (F : FileSystem) (laws : IsLawful F) where
  write_to-Holds :
      (on : Machine) (w : World N F) (i : ℕ) (text name : Str)
      → (write_to N F on w i text).1 ≡ some name
      → Holds N F w i (write_to N F on w i text).0 name text
  unfolding write_to
  write_to-Holds on w i text name h =
      (write-Wrote F laws on (w.maildirs i) w.files text name h).contents

  save_failed-Holds :
      (on : Machine) (i : ℕ) (m : Outgoing) (r : World N F × Bool)
      → ((r.1 ≡ false) → save_failed N F on i m r ≡ r)
        × ((r.1 ≡ true)
            → ((save_failed N F on i m r).1 ≡ true)
              × ((name : Str)
                  → (write_to N F on r.0 i m.contents).1 ≡ some name
                  → Holds N F r.0 i (save_failed N F on i m r).0 name m.contents))
  save_failed-Holds on i m (w, false) = (λ h. refl, λ h. cc)
  save_failed-Holds on i m (w, true) =
      (λ h. cc, λ h. (refl, λ name e. write_to-Holds on w i m.contents name e))

  -- A request of the sender is answered with the error of its upstream. A message that was sent
  -- leaves what sending it left; one that was not is in the Maildir of failed messages as well,
  -- under the name that `Write` returned, when there was no error in writing it.
  pub serve_lem :
      (on : Machine) (s : Sender N F) (m : Outgoing) (w : World N F)
      → let sent = send N F on s.upstream m w in
        ((sent.1 ≡ false) → serve N F on s m w ≡ sent)
        × ((sent.1 ≡ true)
            → ((serve N F on s m w).1 ≡ true)
              × ((name : Str)
                  → (write_to N F on sent.0 s.failed_maildir m.contents).1 ≡ some name
                  → Holds N F sent.0 s.failed_maildir (serve N F on s m w).0 name m.contents))
  unfolding serve
  serve_lem on s m w = save_failed-Holds on s.failed_maildir m (send N F on s.upstream m w)

  unless_failed_last : (r : World N F × Bool) → unless_failed N F (λ w. (w, false)) r ≡ r
  unless_failed_last (w, true) = refl
  unless_failed_last (w, false) = refl

  -- With a Maildir for all messages in front of the relay, the answer is that of the relay, which
  -- gets the message behind the Maildir; and the copy is in the Maildir whether or not the relay
  -- takes the message, when there was no error in writing it.
  pub copy_then_relay :
      (on : Machine) (i : ℕ) (u : LiveUpstream) (m : Outgoing) (w : World N F)
      → let both = send N F on (multi (first (to_maildir i) (first (live u) no_more))) m w in
        let copied = write_to N F on w i m.contents in
        (both ≡ send N F on (live u) m copied.0)
        × ((name : Str) → copied.1 ≡ some name → Holds N F w i both.0 name m.contents)
  unfolding send
  copy_then_relay on i u m w =
      let copied = write_to N F on w i m.contents in
      let same = unless_failed_last (send_live N F copied.0 u m) in
      (
        same,
        λ name e.
            ap (λ (r : World N F × Bool). F.read_file r.0.files (path_of (w.maildirs i) name cur))
              same
            ∙ unfold send_live in write_to-Holds on w i m.contents name e,
      )
