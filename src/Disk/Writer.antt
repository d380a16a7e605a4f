-- ===== src/Disk/Writer.antt =====
-- message_stores.go: `MessageWriter.Run` on a `DiskStore`.
use failmail.Base.{ℕ, ◌≤◌, ◌≡◌, refl, sym, Bool, false, Option, some, List, [], ◌∷◌, arith, Str}
use mathlib.Core.Path.{subst}
use failmail.Message.{Mail, Received}
use failmail.Buffer.{MessageId, file}
use failmail.Maildir.{FileSystem, FilePath, Maildir, Machine}
use failmail.Disk.{Library, Added, add_to_disk, read_from_disk}
use failmail.Disk.ReadBack.{kept_as}
use failmail.Disk.Adds.{Same, after, Given, place, Stays, add_to_disk-Adds, IsLocal}

-- A `StorageRequest`, with the time and the machine at its turn.
pub record Job : Type 0 where
  pub on : Machine
  pub now : ℕ
  pub message : Received

-- What `Add` returned for a request; the error is what is answered.
pub record Answered : Type 0 where
  pub id : Option MessageId
  pub error : Bool

module _ (F : FileSystem) (L : Library) where
  pub record Finished : Type 0 where
    pub answers : List Answered
    pub maildir : Maildir
    pub files : F.State

  abbrev pub answer_first : Added F → Finished → Finished
  answer_first a r = record r { answers = (record { id = a.id; error = a.error }) ∷ r.answers }

  -- `MessageWriter.Run`, until the channel is closed.
  unfoldable pub run_writer : Maildir → F.State → List Job → Finished
  unfolding add_to_disk
  run_writer m s [] = record { answers = []; maildir = m; files = s }
  run_writer m s (j ∷ jobs) =
      let a = add_to_disk F L j.on j.now m s j.message in
      answer_first a (run_writer a.maildir a.files jobs)

module _ (F : FileSystem) (X : Type 0) (see : F.State → FilePath → X) (kept : IsLocal F X see)
    (L : Library) (path : Str) where
  pub Given-later : {k k' : ℕ} {name : Str} → k ≤ k' → Given k name → Given k' name
  Given-later le g = record {
    time = g.time;
    pid = g.pid;
    counter = g.counter;
    host = g.host;
    is = g.is;
    old = omega (arith, g.old);
  }

  -- Later requests leave what was stored under earlier names.
  pub run_writer-Stays :
      (jobs : List Job) (k : ℕ) (s : F.State)
      → Stays F X see kept L path k s (run_writer F L (place path k) s jobs).files
  unfolding run_writer
  run_writer-Stays [] k s other g = (refl, refl)
  run_writer-Stays (j ∷ jobs) k s other g =
      let a = add_to_disk F L j.on j.now (place path k) s j.message in
      let d = add_to_disk-Adds F X see kept L path j.now j.message j.on k s in
      after F X see kept L path other (d.same other g) (
        subst (λ m. Same F X see kept L path other a.files (run_writer F L m a.files jobs).files)
          (sym d.placed) (run_writer-Stays jobs d.counter a.files other (Given-later d.later g)))

-- What an `Add` has stored is seen as it was when other requests have come after it.
pub run_writer-after :
    (F : FileSystem) (X : Type 0) (see : F.State → FilePath → X) (kept : IsLocal F X see)
    (L : Library) (j : Job) (m : Maildir) (s : F.State) (jobs : List Job) (name : Str)
    → (add_to_disk F L j.on j.now m s j.message).id ≡ some (file name)
    → let a = add_to_disk F L j.on j.now m s j.message in
      Same F X see kept L m.path name a.files (run_writer F L a.maildir a.files jobs).files
run_writer-after F X see kept L j m s jobs name id =
    let a = add_to_disk F L j.on j.now m s j.message in
    let d = add_to_disk-Adds F X see kept L m.path j.now j.message j.on m.message_counter s in
    subst (λ m'. Same F X see kept L m.path name a.files (run_writer F L m' a.files jobs).files)
      (sym d.placed)
      (run_writer-Stays F X see kept L m.path jobs d.counter a.files name (d.named name id))

module _ (F : FileSystem) (L : Library) (m : Maildir) (t : F.State) where
  -- Every request that is answered without an error has its message in the files `t`, under the name
  -- that was given to it.
  abbrev pub Durable : List Job → List Answered → Type 0
  Durable [] [] = Unit
  Durable [] (a ∷ answers) = ⊥
  Durable (j ∷ jobs) [] = ⊥
  Durable (j ∷ jobs) (a ∷ answers) =
      (a.error ≡ false
        → (mail : Mail) → L.read_message j.message.payload ≡ some mail
        → (name : Str) × (a.id ≡ some (file name))
          × (read_from_disk F L m t name ≡ some (kept_as j.message mail)))
      × Durable jobs answers
