-- ===== src/Tests/Mains.antt =====
-- A program that receives and sends, from its start to its end.
use failmail.Base.{
  ◌≡◌, refl, true, false, not, ◌&&◌, none, some, List, [], ◌∷◌, ◌++◌, bytes, is_empty,
}
use failmail.Config.{Config, defaults}
use failmail.Listen.{Listening, listening, sigterm, sigusr1, is_sigusr1}
use failmail.Buffer.Run.{requested}
use failmail.Listen.{reload}
use failmail.Main.{Pidfile, missing, fatal, write_pidfile, start_main, end_main}
use failmail.Buffer.{new_batches}
use failmail.Main.Status.{serve_status}
use failmail.Main.Starts.{IsStart, start_main-IsStart}
use failmail.Main.System.{System, Turn, at_buffer, run_system, turn, after_wait}
use failmail.Main.System.Waits.{reload_waits}
use failmail.Main.System.Ends.{working, listen_turns, buffer_turns, returned_fd, main_ends}
use failmail.Tests.Buffers.{expressions, flusher}
use failmail.Tests.Configs.{setup}
use failmail.Tests.Disks.{in_memory}
use failmail.Tests.Runs.{meeting, running}

abbrev both : Config
both = record (defaults none) { receiver = true; sender = true; pidfile = bytes "p" }

abbrev no_pidfile_yet : Pidfile
no_pidfile_yet = record { stat = missing; creates = true }

start_main-IsStart_example :
    IsStart in_memory setup both no_pidfile_yet
      (not (is_empty both.pidfile) && write_pidfile no_pidfile_yet)
      (start_main in_memory setup (some false) both no_pidfile_yet [])
    × (is_empty both.pidfile ≡ false
        → write_pidfile no_pidfile_yet ≡ false
        → start_main in_memory setup (some false) both no_pidfile_yet [] ≡ fatal false)
unfolding defaults
start_main-IsStart_example = start_main-IsStart in_memory setup both no_pidfile_yet [] refl

abbrev busy : Listening
busy = record listening { active = 2; conns = 2 }

main_ends_example :
    (y : System) × (run_system expressions flusher.limits
        (working (some busy) (some running))
        (listen_turns sigterm 7 (some busy) ++ buffer_turns sigterm meeting (some running))
      ≡ some y)
    × (after_wait true sigterm (bytes "failmail") [] y
        ≡ some (
            end_main true
              (is_sigusr1 sigterm)
              (returned_fd sigterm 7 (some busy))
              (bytes "failmail")
              []))
main_ends_example =
    main_ends expressions flusher.limits sigterm 7 meeting true (bytes "failmail") [] (some busy)
      (some running) (refl, refl, refl) refl refl

-- The buffer is told to reload.
abbrev told : List Turn
told = at_buffer (requested reload meeting) ∷ []

reload_waits_example :
    after_wait false sigusr1 (bytes "failmail") [] (working none (some running)) ≡ none
unfolding run_system turn
reload_waits_example =
    reload_waits expressions flusher.limits false (bytes "failmail") [] told
      (working none (some running)) (working none (some running)) refl refl refl

-- Without the JSON of the counts, the answer is an error.
answers_error : (serve_status (λ st. none) flusher.limits new_batches 5).status ≡ 500
unfolding serve_status
answers_error = refl
