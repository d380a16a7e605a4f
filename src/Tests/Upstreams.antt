-- ===== src/Tests/Upstreams.antt =====
-- A sender whose relay refuses every message.
use failmail.Base.{◌≡◌, refl, true, false, some, List, [], ◌∷◌, Str, bytes}
use failmail.Upstream.{
  Outgoing, LiveUpstream, live, to_maildir, multi, no_more, first, Network, World, write_to, send,
  Sender, serve, run_sender,
}
use failmail.Upstream.Kept.{Holds, serve_lem, copy_then_relay}
use failmail.Tests.Disks.{in_memory, in_memory-IsLawful, machine}

abbrev refusing : Network
refusing = record {
  State = List Str;
  split_host = λ a. a;
  send_mail = λ s addr auth from to contents. (s, true);
  print = λ s text. text ∷ s;
}

abbrev world : World refusing in_memory
world = record {
  net = [];
  files = [];
  maildirs = λ i. record { path = i ∷ []; message_counter = 0 };
}

abbrev relay : LiveUpstream
relay = record { addr = bytes "h:25"; user = []; password = [] }

abbrev sender : Sender refusing in_memory
sender = record { upstream = live relay; failed_maildir = 1 }

abbrev summary : Outgoing
summary = record { sender = bytes "f"; recipients = bytes "a" ∷ []; contents = bytes "text" }

answers_error :
    (run_sender refusing in_memory sender ((machine, summary) ∷ (machine, summary) ∷ []) world).1
    ≡ true ∷ true ∷ []
unfolding run_sender
answers_error = refl

serve_lem_example :
    let sent = send refusing in_memory machine (live relay) summary world in
    ((sent.1 ≡ false) → serve refusing in_memory machine sender summary world ≡ sent)
    × ((sent.1 ≡ true)
        → ((serve refusing in_memory machine sender summary world).1 ≡ true)
          × ((name : Str)
              → (write_to refusing in_memory machine sent.0 1 (bytes "text")).1 ≡ some name
              → Holds refusing in_memory sent.0 1
                  (serve refusing in_memory machine sender summary world).0
                  name
                  (bytes "text")))
serve_lem_example = serve_lem refusing in_memory in_memory-IsLawful machine sender summary world

copy_then_relay_example :
    let both =
      send refusing in_memory machine
        (multi (first (to_maildir 0) (first (live relay) no_more)))
        summary
        world in
    let copied = write_to refusing in_memory machine world 0 (bytes "text") in
    (both ≡ send refusing in_memory machine (live relay) summary copied.0)
    × ((name : Str)
        → copied.1 ≡ some name
        → Holds refusing in_memory world 0 both.0 name (bytes "text"))
copy_then_relay_example =
    copy_then_relay refusing in_memory in_memory-IsLawful machine 0 relay summary world
