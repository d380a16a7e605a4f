-- ===== src/Upstream.antt =====
-- upstream.go: the servers that summaries are sent to, and `Sender`.
--
-- `Network` stands for net/smtp, `net.SplitHostPort` and the output of a `DebugUpstream`. A pointer
-- to a Maildir is a number, an address in `maildirs`. What is logged is left out.
pub mod Kept
use failmail.Base.{
  ℕ, ◌==◌, Bool, true, false, ◌&&◌, Option, none, some, List, [], ◌∷◌, ◌++◌, if◌then◌else◌, Str,
  is_empty,
}
use failmail.Maildir.{FileSystem, Maildir, Machine, Written, write}

-- An `OutgoingMessage`: what its three methods return.
pub record Outgoing : Type 0 where
  pub sender : Str
  pub recipients : List Str
  pub contents : Str

-- `smtp.PlainAuth("", user, password, host)`
pub record ClientAuth : Type 0 where
  pub user : Str
  pub password : Str
  pub host : Str

pub record LiveUpstream : Type 0 where
  pub addr : Str
  pub user : Str
  pub password : Str

-- The methods `Send` of `LiveUpstream`, `DebugUpstream`, `MaildirUpstream` and `MultiUpstream`.
mutual
  pub data Upstream : Type 0 where
    live : LiveUpstream → Upstream
    debug : Upstream
    to_maildir : ℕ → Upstream
    multi : Upstreams → Upstream

  pub data Upstreams : Type 0 where
    no_more : Upstreams
    first : Upstream → Upstreams → Upstreams

-- `send_mail` returns whether there was an error.
pub record Network : Type 1 where
  pub State : Type 0
  pub split_host : Str → Str
  pub send_mail : State → Str → Option ClientAuth → Str → List Str → Str → State × Bool
  pub print : State → Str → State

-- `LiveUpstream.auth`
unfoldable pub auth_of : (Str → Str) → LiveUpstream → Option ClientAuth
auth_of split_host u =
    if is_empty u.user && is_empty u.password
    then none
    else some (record { user = u.user; password = u.password; host = split_host u.addr })

module _ (N : Network) (F : FileSystem) where
  pub record World : Type 0 where
    pub net : N.State
    pub files : F.State
    pub maildirs : ℕ → Maildir

  -- `Write` on the Maildir at an address: the state after it, and the name, none for an error.
  unfoldable pub write_to : Machine → World → ℕ → Str → World × Option Str
  unfolding write
  write_to on w i contents =
      let r = write F on (w.maildirs i) w.files contents in
      (
        record w { files = r.files; maildirs = λ j. if i == j then r.maildir else w.maildirs j },
        r.name,
      )

  unfoldable pub send_live : World → LiveUpstream → Outgoing → World × Bool
  unfolding auth_of
  send_live w u m =
      let (net, error) =
        N.send_mail w.net u.addr (auth_of N.split_host u) m.sender m.recipients m.contents in
      (record w { net = net }, error)

  -- After an error the other upstreams are not tried.
  abbrev pub unless_failed : (World → World × Bool) → World × Bool → World × Bool
  unless_failed rest (w, true) = (w, true)
  unless_failed rest (w, false) = rest w

  -- `Send`: the state after it, and whether there was an error. Those of a file or of the output are
  -- dropped.
  unfoldable mutual
    unfolding send_live write_to

    pub send : Machine → Upstream → Outgoing → World → World × Bool
    send on (live u) m w = send_live w u m
    send on debug m w = (record w { net = N.print w.net m.contents }, false)
    send on (to_maildir i) m w = ((write_to on w i m.contents).0, false)
    send on (multi us) m w = send_all on us m w

    pub send_all : Machine → Upstreams → Outgoing → World → World × Bool
    send_all on no_more m w = (w, false)
    send_all on (first u us) m w = unless_failed (send_all on us m) (send on u m w)

  -- The sender: its upstream, and the address of `FailedMaildir`.
  pub record Sender : Type 0 where
    pub upstream : Upstream
    pub failed_maildir : ℕ

  abbrev pub save_failed : Machine → ℕ → Outgoing → World × Bool → World × Bool
  save_failed on i m (w, true) = ((write_to on w i m.contents).0, true)
  save_failed on i m (w, false) = (w, false)

  -- One round of the loop of `Run`: the error that is answered.
  unfoldable pub serve : Machine → Sender → Outgoing → World → World × Bool
  unfolding send write_to
  serve on s m w = save_failed on s.failed_maildir m (send on s.upstream m w)

  -- `Run`, for the requests until the channel is closed, each with the machine at its time.
  unfoldable pub run_sender : Sender → List (Machine × Outgoing) → World → World × List Bool
  unfolding serve
  run_sender s [] w = (w, [])
  run_sender s ((on, m) ∷ reqs) w =
      let (w', error) = serve on s m w in
      let (last, later) = run_sender s reqs w' in (last, error ∷ later)
