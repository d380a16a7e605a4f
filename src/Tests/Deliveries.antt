-- ===== src/Tests/Deliveries.antt =====
-- A store on files in memory that keep their times.
use failmail.Base.{
  ℕ, zero, suc, ◌-◌, ◌%◌, ◌≡◌, refl, ap, sym, ◌∙◌, ◌⊎◌, Bool, true, false, ◌&&◌, Option, none, some,
  List, [], ◌∷◌, arith, In, there, get_elem?, if◌then◌else◌, Str, bytes, eq_str, eq_str_iff, lookup,
  insert, digits, decimal, append-nil, Bool-cases, inl, inr, lookup-insert,
}
use mathlib.Core.Path.{subst}
use failmail.Message.{Received, Mail, blank, recipients}
use failmail.Buffer.{
  file, new_batches, Expressions, RecipientKey, key_beq, Stored, Buffer, Flusher, flush_stored,
}
use failmail.Buffer.Gather.{new_batches-IsAligned}
use failmail.Maildir.{
  FilePath, FileSystem, IsLawful, Subdir, subdir_beq, Info, made, path_beq, path_beq_iff, path_eq,
  next_unique_name, write,
}
use failmail.Disk.{
  add_to_disk, newer_on_disk, collect_newer, write_metadata, metadata_of, read_from_disk,
  read_metadata,
}
use failmail.Session.{Session, unencrypted, start, read_data, reply}
use failmail.Session.Reply.{write_response}
use failmail.Connection.{Conn, Server, again, answered, handle_data}
use failmail.Delivery.{handle_data-flush_stored}
use failmail.Disk.Writer.{Job, run_writer}
use failmail.Disk.ReadBack.{kept_as}
use failmail.Disk.Delivers.{IsListing}
use failmail.Tests.Disks.{
  Tree, in_memory, in_memory-IsLawful, library, machine, maildir, letter, decode-encode,
  path_beq_refl,
}

-- The files, and the time of each path.
abbrev Clocked : Type 0
Clocked = Tree × (FilePath → ℕ)

abbrev keeping : (FilePath → ℕ) → Tree × Bool → Clocked × Bool
keeping times (s, error) = ((s, times), error)

abbrev set_time : (FilePath → ℕ) → FilePath → ℕ → FilePath → ℕ
set_time times p t q = if path_beq p q then t else times q

abbrev infos_of : (FilePath → ℕ) → Str → Subdir → Tree → List Info
infos_of times root d [] = []
infos_of times root d ((p, text) ∷ s) =
    if eq_str root p.root && subdir_beq d p.subdir
    then record { name = p.name; mod_time = times p; is_dir = false } ∷ infos_of times root d s
    else infos_of times root d s

-- The times that these files keep.
abbrev even_time : ℕ → ℕ
even_time t = t - t % 2

abbrev clocked : FileSystem
clocked = record {
  State = Clocked;
  mkdir = λ s root d. (s, made);
  write_file = λ s p text. keeping s.1 (in_memory.write_file s.0 p text);
  rename = λ s p q. keeping s.1 (in_memory.rename s.0 p q);
  remove = λ s p. keeping s.1 (in_memory.remove s.0 p);
  chtimes = λ s p t. ((s.0, set_time s.1 p (even_time t)), false);
  read_file = λ s p. lookup p s.0;
  list = λ s root d. some (infos_of s.1 root d s.0);
}

clocked-IsLawful : IsLawful clocked
clocked-IsLawful = record {
  write_done = λ s p text h. in_memory-IsLawful.write_done s.0 p text h;
  write_elsewhere = λ s p text q h. in_memory-IsLawful.write_elsewhere s.0 p text q h;
  rename_done = λ s p q h. in_memory-IsLawful.rename_done s.0 p q h;
  rename_refused = λ s p q h r. in_memory-IsLawful.rename_refused s.0 p q h r;
  rename_elsewhere = λ s p q r h k. in_memory-IsLawful.rename_elsewhere s.0 p q r h k;
  remove_done = λ s p h. in_memory-IsLawful.remove_done s.0 p h;
  remove_refused = λ s p h q. in_memory-IsLawful.remove_refused s.0 p h q;
  remove_elsewhere = λ s p q h. in_memory-IsLawful.remove_elsewhere s.0 p q h;
  chtimes_reads = λ s p t q. refl;
}

same_place : (p : FilePath) → (eq_str p.root p.root && subdir_beq p.subdir p.subdir) ≡ true
unfolding path_beq
same_place p = ground (arith, path_beq_refl p)

infos_of-lists :
    (times : FilePath → ℕ) (p : FilePath) (text : Str) (s : Tree)
    → lookup p s ≡ some text
    → (info : Info) × In info (infos_of times p.root p.subdir s)
      × (info.name ≡ p.name)
      × (info.mod_time ≡ times p)
      × (info.is_dir ≡ false)
unfolding lookup
infos_of-lists times p text [] h = cc
infos_of-lists times p text ((q, x) ∷ s) h = elim (Bool-cases (path_beq q p)) [
  | inl y ↦
      let same : q ≡ p = (path_beq_iff q p).0 y in
      let here : (eq_str p.root q.root && subdir_beq p.subdir q.subdir) ≡ true =
        ap (λ r. eq_str p.root r.root && subdir_beq p.subdir r.subdir) same ∙ same_place p in
      (
        record { name = q.name; mod_time = times q; is_dir = false },
        rw here (record { index = 0; found = refl }),
        ap (λ r. r.name) same,
        ap times same,
        refl,
      )
  | inr n ↦
      let (info, found, named, timed, plain) = infos_of-lists times p text s (ground arith) in
      (
        info,
        elim (Bool-cases (eq_str p.root q.root && subdir_beq p.subdir q.subdir)) [
          | inl y ↦ rw y (there found)
          | inr n' ↦ rw n' found
        ],
        named,
        timed,
        plain,
      )
]

abbrev clocked-IsListing : IsListing clocked
clocked-IsListing = record {
  time_of = λ s p. s.1 p;
  kept_time = even_time;
  times_stay = record {
    write_elsewhere = λ s p text q apart. refl;
    rename_elsewhere = λ s p q r h k. refl;
    chtimes_elsewhere = λ s p t q apart. rw apart refl;
  };
  lists_files = λ s p text infos there_is listed.
      let (info, found, named, timed, plain) = infos_of-lists s.1 p text s.0 there_is in
      let same : infos_of s.1 p.root p.subdir s.0 ≡ infos = cc in
      (info, subst (λ l. In info l) same found, named, timed, plain);
  chtimes_sets = λ s p t set. rw path_beq_refl refl;
}

abbrev nothing_stored : Clocked
nothing_stored = ([], λ p. 0)

abbrev read_letter : Mail
read_letter = record { header = λ k. []; date = none; body = some (bytes "hello") }

abbrev one_batch : Expressions
one_batch = record { batch = λ msg. some (bytes "all"); normalize = λ a. a }

-- A client that has sent an envelope, and then its text.
abbrev receiver : Server
receiver = record {
  decode = λ t. some t;
  read_message = library.read_message;
  rewrite_all = λ to. [];
  answers = λ i. answered none;
}

abbrev sending_client : Conn
sending_client = record {
  session = record (start none none unencrypted).0 {
    received = record blank { from = bytes "a"; to = bytes "b" ∷ [] };
  };
  lines = bytes "hello" ∷ (b'.' ∷ 13 ∷ 10 ∷ []) ∷ [];
  tls_lines = [];
  net_conn = true;
  writer = record { written = []; failures = [] };
  stored = [];
}

abbrev sent_letter : Received
sent_letter = record letter { parsed = some read_letter }

abbrev after_data : Session
after_data = record sending_client.session { received = blank }

abbrev new_buffer : Buffer
new_buffer = record { batches = new_batches; last_flush = 3 }

abbrev last_flusher : Flusher
last_flusher = record {
  limits = record { soft_limit = 10; hard_limit = 10 };
  now = 6;
  force = true;
  fails = λ r. false;
}

abbrev key_of_b : RecipientKey
key_of_b = record { key = bytes "all"; recipient = bytes "b" }

-- One more letter is stored.
abbrev later_jobs : List Job
later_jobs = record { on = machine; now = 6; message = letter } ∷ []

abbrev files_later : Clocked
files_later =
    let a = add_to_disk clocked library machine 5 maildir nothing_stored sent_letter in
    (run_writer clocked library a.maildir a.files later_jobs).files

handle_data-flush_stored_example :
    let a = add_to_disk clocked library machine 5 maildir nothing_stored sent_letter in
    (c : Conn) × (handle_data receiver sending_client ≡ some (again c))
    × (c.writer ≡ (write_response sending_client.writer (reply 250 (bytes "Got the data"))).1)
    × (c.stored ≡ sent_letter ∷ [])
    × (name : Str) × (a.id ≡ some (file name))
    × (msgs : List Stored) × In
        (record { id = file name; received = 4; message = kept_as sent_letter read_letter })
        msgs
    × In
        (record { recipient = key_of_b; batch = msgs })
        (flush_stored one_batch last_flusher
          (key_of_b ∷ [])
          new_buffer
          (newer_on_disk clocked library maildir
            (run_writer clocked library a.maildir a.files later_jobs).files
            3).0).1.sent
unfolding add_to_disk write next_unique_name write_metadata metadata_of recipients lookup insert
    path_beq eq_str newer_on_disk collect_newer read_from_disk read_metadata failmail.Base.remove
    read_data start bytes key_beq run_writer
handle_data-flush_stored_example =
    handle_data-flush_stored clocked clocked-IsLawful clocked-IsListing library receiver
      sending_client after_data (reply 250 (bytes "Got the data")) sent_letter [] machine 5 maildir
      nothing_stored [] later_jobs read_letter one_batch last_flusher (key_of_b ∷ []) new_buffer
      (newer_on_disk clocked library maildir files_later 3).0 (bytes "all") (bytes "b") refl refl
      refl (λ text h. decode-encode (bytes "a") (bytes "b" ∷ []) [] text h) refl (omega arith) refl
      new_batches-IsAligned refl (record { index = 0; found = refl }) refl refl
