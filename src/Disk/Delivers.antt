-- ===== src/Disk/Delivers.antt =====
-- message_stores.go and messages.go: what the next `Flush` lists of a `DiskStore`.
use failmail.Base.{
  ℕ, zero, suc, get_elem?, there, ◌≤◌, ◌≡◌, refl, ap, sym, ◌∙◌, inl, inr, Bool, true, false, ◌||◌,
  Option, none, some, List, [], ◌∷◌, arith, In, ltb, if◌then◌else◌, Str, Option-cases,
}
use mathlib.Core.Path.{subst}
use failmail.Message.{Mail, Received, recipients, choose_recipients}
use failmail.Buffer.{file, Stored, Batches, Expressions, gather}
use failmail.Buffer.Gather.{IsAligned, batch_of}
use failmail.Buffer.Arrives.{gather-In}
use failmail.Maildir.{
  FileSystem, IsLawful, meta, FilePath, Info, Maildir, Machine, path_of, Written, write, read_bytes,
  list_files,
}
use failmail.Maildir.Wrote.{Wrote, write-Wrote}
use failmail.Disk.{
  Library, timed, write_marshalled, write_metadata, describe, add_to_disk, read_metadata,
  read_from_disk, collect_newer, newer_on_disk, listed, collected, read_contents, unmarshalled,
}
use failmail.Disk.ReadBack.{kept_as, IsReadable, read_from_disk-same, add_to_disk-read_from_disk}
use failmail.Disk.Adds.{IsLocal, reading-IsLocal}
use failmail.Disk.Writer.{Job, run_writer, run_writer-after}

-- What `ioutil.ReadDir` lists, each file of the directory that can be read with its time, and what
-- `os.Chtimes` and the other operations do to the times: the file system may keep a less precise time
-- than it was given.
pub record IsListing (F : FileSystem) : Type 0 where
  pub time_of : F.State → FilePath → ℕ
  pub kept_time : ℕ → ℕ
  pub times_stay : IsLocal F ℕ time_of
  pub lists_files :
      (s : F.State) (p : FilePath) (text : Str) (infos : List Info)
      → F.read_file s p ≡ some text
      → F.list s p.root p.subdir ≡ some infos
      → (info : Info) × In info infos
        × (info.name ≡ p.name)
        × (info.mod_time ≡ time_of s p)
        × (info.is_dir ≡ false)
  pub chtimes_sets :
      (s : F.State) (p : FilePath) (t : ℕ)
      → (F.chtimes s p t).1 ≡ false
      → time_of (F.chtimes s p t).0 p ≡ kept_time t

module _ (F : FileSystem) (L : Library) where
  -- The last call of an `Add` without an error sets the time of the metadata.
  record Timed (root name : Str) (now : ℕ) (t : F.State) : Type 0 where
    before : F.State
    set : (F.chtimes before (record { root = root; subdir = meta; name = name }) now).1 ≡ false
    is : t ≡ (F.chtimes before (record { root = root; subdir = meta; name = name }) now).0

  timed-Timed :
      (m : Maildir) (name : Str) (now : ℕ) (out : F.State × Bool)
      → (timed F L m name now out).1 ≡ false
      → Timed m.path name now (timed F L m name now out).0
  timed-Timed m name now (s, true) h = cc
  timed-Timed m name now (s, false) h = record { before = s; set = h; is = refl }

  write_marshalled-Timed :
      (m : Maildir) (s : F.State) (name : Str) (now : ℕ) (o : Option Str)
      → (write_marshalled F L m s name now o).1 ≡ false
      → Timed m.path name now (write_marshalled F L m s name now o).0
  write_marshalled-Timed m s name now none h = cc
  write_marshalled-Timed m s name now (some text) h = timed-Timed m name now _ h

  describe-Timed :
      (now : ℕ) (msg : Received) (m : Maildir) (s : F.State) (o : Option Str) (name : Str)
      → (describe F L now msg m s o).error ≡ false
      → (describe F L now msg m s o).id ≡ some (file name)
      → Timed m.path name now (describe F L now msg m s o).files
  unfolding write_metadata
  describe-Timed now msg m s none name h e = cc
  describe-Timed now msg m s (some written) name h e =
      let same : written ≡ name = cc in
      subst (λ n. Timed m.path n now (describe F L now msg m s (some written)).files) same
        (write_marshalled-Timed m s written now _ h)

  add_to_disk-Timed :
      (laws : IsLawful F) (on : Machine) (now : ℕ) (m : Maildir) (s : F.State) (msg : Received)
      (name : Str)
      → (add_to_disk F L on now m s msg).error ≡ false
      → (add_to_disk F L on now m s msg).id ≡ some (file name)
      → Timed m.path name now (add_to_disk F L on now m s msg).files
  unfolding add_to_disk
  add_to_disk-Timed laws on now m s msg name h e =
      go (write F on m s msg.payload) (write-Wrote F laws on m s msg.payload) h e
    where
      go :
          (w : Written F)
          → ((n : Str) → w.name ≡ some n → Wrote F m s msg.payload w n)
          → (describe F L now msg w.maildir w.files w.name).error ≡ false
          → (describe F L now msg w.maildir w.files w.name).id ≡ some (file name)
          → Timed m.path name now (describe F L now msg w.maildir w.files w.name).files
      go w wrote h e = elim (Option-cases w.name) [
        | inl absent ↦ cc (ap (λ o. (describe F L now msg w.maildir w.files o).error) absent)
        | inr (n, there) ↦
            subst
              (λ root. Timed root name now (describe F L now msg w.maildir w.files w.name).files)
              (wrote n there).same_path (describe-Timed now msg w.maildir w.files w.name name h e)
      ]

  -- What is in the result behind an entry is in the result.
  collected-In :
      (x : Info) (skipped : Bool) (o : Option Received) (rest : List Stored × Bool)
      (stored : List Stored) (a : Stored)
      → (if skipped then rest else collected F L x o rest) ≡ (stored, false)
      → ((later : List Stored) → rest ≡ (later, false) → In a later)
      → In a stored
  collected-In x true o rest stored a h k = k stored h
  collected-In x false none rest stored a h k = cc
  collected-In x false (some msg) (later, error) stored a h k =
      let fine : error ≡ false = cc in
      let same : record { id = file x.name; received = x.mod_time; message = msg } ∷ later
          ≡ stored =
        cc in
      subst (λ l. In a l) same (there (k later (rw fine refl)))

  collected-here :
      (x : Info) (msg : Received) (rest : List Stored × Bool) (stored : List Stored)
      → collected F L x (some msg) rest ≡ (stored, false)
      → In (record { id = file x.name; received = x.mod_time; message = msg }) stored
  collected-here x msg (later, error) stored h =
      let same : record { id = file x.name; received = x.mod_time; message = msg } ∷ later
          ≡ stored =
        cc in
      subst (λ l. In (record { id = file x.name; received = x.mod_time; message = msg }) l) same
        (record { index = 0; found = refl })

  -- An entry of the directory that is read and not too old is in the result, when there is no error.
  collect_newer-In :
      (m : Maildir) (s : F.State) (t : ℕ) (infos : List Info) (stored : List Stored) (info : Info)
      (msg : Received) (i : ℕ)
      → collect_newer F L m s t infos ≡ (stored, false)
      → get_elem? infos i ≡ some info
      → t ≤ info.mod_time
      → info.is_dir ≡ false
      → read_from_disk F L m s info.name ≡ some msg
      → In (record { id = file info.name; received = info.mod_time; message = msg }) stored
  unfolding collect_newer
  collect_newer-In m s t [] stored info msg i h e new plain read = cc
  collect_newer-In m s t (x ∷ infos) stored info msg zero h e new plain read =
      let same : x ≡ info = cc in
      let kept : (ltb info.mod_time t || info.is_dir) ≡ false = ground arith in
      let rest = collect_newer F L m s t infos in
      let first : Info → List Stored × Bool = λ y.
        if ltb y.mod_time t || y.is_dir
        then rest
        else collected F L y (read_from_disk F L m s y.name) rest in
      let taken : first info ≡ collected F L info (some msg) rest = rw (kept, read) refl in
      collected-here info msg rest stored (sym taken ∙ ap first (sym same) ∙ h)
  collect_newer-In m s t (x ∷ infos) stored info msg (suc i) h e new plain read =
      collected-In x _ _ (collect_newer F L m s t infos) stored _ h
        (λ later h'. collect_newer-In m s t infos later info msg i h' e new plain read)

  -- The files of metadata that are listed and read.
  newer_on_disk-In :
      (listing : IsListing F) (m : Maildir) (s : F.State) (t now : ℕ) (stored : List Stored)
      (name text : Str) (msg : Received)
      → newer_on_disk F L m s t ≡ (stored, false)
      → listing.time_of s (path_of m name meta) ≡ now
      → t ≤ now
      → F.read_file s (path_of m name meta) ≡ some text
      → read_from_disk F L m s name ≡ some msg
      → In (record { id = file name; received = now; message = msg }) stored
  unfolding newer_on_disk list_files
  newer_on_disk-In listing m s t now stored name text msg h time le there_is read =
      go (F.list s m.path meta) refl h
    where
      go :
          (o : Option (List Info))
          → F.list s m.path meta ≡ o
          → listed F L m s t o ≡ (stored, false)
          → In (record { id = file name; received = now; message = msg }) stored
      go none e h = cc
      go (some infos) e h =
          let (info, found, same, at_time, plain) =
            listing.lists_files s (path_of m name meta) text infos there_is e in
          let at_now : info.mod_time ≡ now = at_time ∙ time in
          let read' : read_from_disk F L m s info.name ≡ some msg =
            ap (read_from_disk F L m s) same ∙ read in
          subst (λ n. In (record { id = file n; received = now; message = msg }) stored) same
            (subst (λ r. In (record { id = file info.name; received = r; message = msg }) stored)
              at_now
              (collect_newer-In m s t infos stored info msg found.index h found.found
                (ground (arith, le, at_now)) plain read'))

  -- What is read has metadata.
  read_from_disk-metadata :
      (m : Maildir) (s : F.State) (name : Str) (msg : Received)
      → read_from_disk F L m s name ≡ some msg
      → (text : Str) × (F.read_file s (path_of m name meta) ≡ some text)
  unfolding read_from_disk read_metadata read_bytes
  read_from_disk-metadata m s name msg h =
      elim (Option-cases (F.read_file s (path_of m name meta))) [
        | inl e ↦ cc (sym (ap (λ o. read_contents F L m s name (unmarshalled F L o)) e) ∙ h)
        | inr (text, e) ↦ (text, e)
      ]

-- Reading a message back does not change whom it is for.
recipients-kept_as : (msg : Received) (mail : Mail) → recipients (kept_as msg mail) ≡ recipients msg
unfolding recipients
recipients-kept_as msg mail = go msg.to msg.redirected_to
  where
    go :
        (to redirected : List Str)
        → choose_recipients (choose_recipients to redirected) redirected
          ≡ choose_recipients to redirected
    go to [] = refl
    go to (a ∷ as') = refl

-- When `Add` has returned no error, the next `Flush` whose time is not behind the one that is kept, and
-- that lists and reads the store without an error, puts the message into the batch of each of its
-- recipients, whatever else has been added before and after it, when its text is one that net/mail
-- reads and it has a batch expression.
pub run_writer-gather :
    (F : FileSystem) (laws : IsLawful F) (listing : IsListing F) (L : Library)
    → (j : Job) (since : ℕ) (m : Maildir) (s : F.State) (jobs : List Job) (mail : Mail)
      (e : Expressions) (b : Batches) (stored : List Stored) (key to : Str)
    → let a = add_to_disk F L j.on j.now m s j.message in
      IsReadable F laws L j.message
      → L.read_message j.message.payload ≡ some mail
      → a.error ≡ false
      → since ≤ listing.kept_time j.now
      → newer_on_disk F L m (run_writer F L a.maildir a.files jobs).files since ≡ (stored, false)
      → IsAligned b
      → e.batch (kept_as j.message mail) ≡ some key
      → In to (recipients j.message)
      → (name : Str) × (a.id ≡ some (file name))
        × In
            (record {
              id = file name;
              received = listing.kept_time j.now;
              message = kept_as j.message mail;
            })
            (batch_of (record { key = key; recipient = e.normalize to }) (gather e b stored))
run_writer-gather F laws listing L j since m s jobs mail e b stored key to inverse parses ok le
      lists aligned batched recipient =
    let (name, id, read, others) =
      add_to_disk-read_from_disk F laws L j.on j.now m s j.message mail inverse parses ok in
    let a = add_to_disk F L j.on j.now m s j.message in
    let t = (run_writer F L a.maildir a.files jobs).files in
    let (meta_stays, cur_stays) =
      run_writer-after F (Option Str) F.read_file (reading-IsLocal F laws) L j m s jobs name id in
    let times = (run_writer-after F ℕ listing.time_of listing.times_stay L j m s jobs name id).0 in
    let set = add_to_disk-Timed F L laws j.on j.now m s j.message name ok id in
    let read' = read_from_disk-same F L m a.files t name meta_stays cur_stays ∙ read in
    let (text, there_is) = read_from_disk-metadata F L m t name (kept_as j.message mail) read' in
    let time : listing.time_of t (path_of m name meta) ≡ listing.kept_time j.now =
      times
      ∙ ap (λ s'. listing.time_of s' (path_of m name meta)) set.is
      ∙ listing.chtimes_sets set.before (path_of m name meta) j.now set.set in
    let found =
      newer_on_disk-In F L listing m t since (listing.kept_time j.now) stored name text
        (kept_as j.message mail) lists time le there_is read' in
    (
      name,
      id,
      gather-In e b stored _ key to aligned found batched
          (subst (λ tos. In to tos) (sym (recipients-kept_as j.message mail)) recipient),
    )
