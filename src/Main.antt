-- ===== src/Main.antt =====
-- failmail.go: `main`, from its start to the goroutines, and what it does once they have ended.
--
-- `log.Fatalf` leaves the process without the deferred calls, so `fatal` says whether the pid file that
-- `main` wrote is left behind. What is logged, and the HTTP status, are left out.
pub mod Starts
pub mod Status
pub mod System
use failmail.Base.{
  ℕ, Bool, true, false, not, ◌&&◌, ◌||◌, Option, none, some, List, if◌then◌else◌, Str, is_empty,
}
use failmail.Maildir.{FileSystem}
use failmail.Upstream.{Upstream}
use failmail.Config.{Config, Result, ok, err, Setup, Listener, make_receiver}
use failmail.Config.Make.{MessageStore, Summarizer, make_writer, make_summarizer, make_sender}
use failmail.Reload.{Reload, unchanged, no_socket, started, Command, try_reload}

-- What `os.Stat` says of the pid file.
pub data Stat : Type 0 where
  missing exists unreadable : Stat

-- The pid file: what is there, and whether it can be created.
pub record Pidfile : Type 0 where
  pub stat : Stat
  pub creates : Bool

-- `writePidfile`: whether it returns.
unfoldable pub write_pidfile : Pidfile → Bool
write_pidfile p = elim p.stat [ missing ↦ p.creates | exists ↦ false | unreadable ↦ false ]

-- A listener with the store of its writer; a buffer with its sender.
pub record Receiving : Type 0 where
  pub listener : Listener
  pub writer_store : MessageStore

pub record Sending : Type 0 where
  pub buffer : Summarizer
  pub upstream : Upstream
  pub failed_maildir : ℕ

pub record Parts : Type 0 where
  pub receiving : Option Receiving
  pub sending : Option Sending
  pub pidfile : Bool

pub data Start : Type 0 where
  fatal : Bool → Start
  panics returns : Start
  runs : Parts → Start

module _ (F : FileSystem) (u : Setup) where
  abbrev pub with_sender :
      Option Receiving → Bool → Summarizer → Result (Upstream × ℕ) × F.State → Start
  with_sender r pid buffer (err e, s) = fatal pid
  with_sender r pid buffer (ok (upstream, failed), s) = runs (record {
    receiving = r;
    sending = some (record { buffer = buffer; upstream = upstream; failed_maildir = failed });
    pidfile = pid;
  })

  abbrev pub with_summarizer :
      Config → Option Receiving → Bool → Option (Result Summarizer × F.State) → Start
  with_summarizer c r pid none = panics
  with_summarizer c r pid (some (err e, s)) = fatal pid
  with_summarizer c r pid (some (ok buffer, s)) = with_sender r pid buffer (make_sender F c s)

  -- `if !config.Receiver && !config.Sender { … }`
  abbrev pub without_sender : Option Receiving → Bool → Start
  without_sender none pid = fatal pid
  without_sender (some r) pid = runs (record { receiving = some r; sending = none; pidfile = pid })

  -- `if config.Sender { … }`
  abbrev pub start_sending : Config → Option Receiving → Bool → F.State → Start
  start_sending c r pid s =
      if c.sender then with_summarizer c r pid (make_summarizer F u c s) else without_sender r pid

  abbrev pub with_writer : Config → Bool → Listener → Result MessageStore × F.State → Start
  with_writer c pid l (err e, s) = fatal pid
  with_writer c pid l (ok store, s) =
      start_sending c (some (record { listener = l; writer_store = store })) pid s

  abbrev pub with_listener : Config → Bool → F.State → Option (Result Listener) → Start
  with_listener c pid s none = panics
  with_listener c pid s (some (err e)) = fatal pid
  with_listener c pid s (some (ok l)) = with_writer c pid l (make_writer F c s)

  -- `if config.Receiver { … }`
  abbrev pub start_receiving : Config → Bool → F.State → Start
  start_receiving c pid s =
      if c.receiver then with_listener c pid s (make_receiver u c) else start_sending c none pid s

  abbrev pub with_pidfile : Config → Pidfile → F.State → Start
  with_pidfile c p s =
      if is_empty c.pidfile
      then start_receiving c false s
      else if write_pidfile p
      then start_receiving c true s
      else fatal false

  -- `main` up to `HandleSignals`, on what `configure.Parse` returns: an error, or whether it wrote a
  -- file, and the configuration after it.
  unfoldable pub start_main : Option Bool → Config → Pidfile → F.State → Start
  unfolding make_receiver make_writer make_summarizer make_sender write_pidfile
  start_main none c p s = fatal false
  start_main (some wrote) c p s =
      if wrote then returns else if c.version then returns else with_pidfile c p s

-- How `main` ends: what `TryReload` started, or its error, which is fatal; and whether the pid file
-- is there at the time that the new process starts, and once `main` has ended.
pub record Ending : Type 0 where
  pub reload : Reload
  pub pidfile_at_start : Bool
  pub pidfile_left : Bool

abbrev left_by : Reload → Bool → Bool
left_by no_socket pidfile = pidfile
left_by _ pidfile = false

-- `main` behind `waitGroup.Wait()`, with the deferred `os.Remove` of a return.
unfoldable pub end_main : Bool → Bool → ℕ → Str → List Str → Ending
unfolding try_reload
end_main pidfile should_reload fd program args =
    let r = try_reload should_reload fd program args in
    record { reload = r; pidfile_at_start = pidfile; pidfile_left = left_by r pidfile }
