-- ===== src/Disk.antt =====
-- message_stores.go: `DiskStore`, messages in a Maildir with a file of metadata for each.
--
-- `Library` stands for encoding/json on `DiskMetadata` and for `mail.ReadMessage`; `none` is an error.
pub mod Calls
pub mod Backed
pub mod ReadBack
pub mod Writer
pub mod Adds
pub mod Delivers
use failmail.Base.{
  ℕ, Bool, true, false, ◌||◌, Option, none, some, List, [], ◌∷◌, if◌then◌else◌, Str, ltb,
}
use failmail.Message.{Mail, Received, recipients}
use failmail.Buffer.{MessageId, file, Stored}
use failmail.Maildir.{
  FileSystem, cur, meta, Info, Maildir, Machine, path_of, Written, write, read_bytes, remove_file,
  list_files,
}

-- `DiskMetadata`
pub record Metadata : Type 0 where
  pub envelope_from : Str
  pub envelope_to : List Str
  pub redirected_to : List Str

-- `&DiskMetadata{msg.Sender(), msg.Recipients(), msg.RedirectedTo}`
unfoldable pub metadata_of : Received → Metadata
unfolding recipients
metadata_of msg = record {
  envelope_from = msg.from;
  envelope_to = recipients msg;
  redirected_to = msg.redirected_to;
}

pub record Library : Type 0 where
  pub marshal : Metadata → Option Str
  pub unmarshal : Str → Option Metadata
  pub read_message : Str → Option Mail

module _ (F : FileSystem) where
  -- What `Add` returns, and the state after it.
  pub record Added : Type 0 where
    pub id : Option MessageId
    pub error : Bool
    pub maildir : Maildir
    pub files : F.State

module _ (F : FileSystem) (L : Library) where
  abbrev pub timed : Maildir → Str → ℕ → F.State × Bool → F.State × Bool
  timed m name now (s, true) = (s, true)
  timed m name now (s, false) = F.chtimes s (path_of m name meta) now

  abbrev pub write_marshalled : Maildir → F.State → Str → ℕ → Option Str → F.State × Bool
  write_marshalled m s name now none = (s, true)
  write_marshalled m s name now (some text) =
      timed m name now (F.write_file s (path_of m name meta) text)

  -- `writeMetadata`
  unfoldable pub write_metadata : Maildir → F.State → Str → ℕ → Metadata → F.State × Bool
  write_metadata m s name now metadata = write_marshalled m s name now (L.marshal metadata)

  abbrev pub finish_add : Maildir → Str → F.State × Bool → Added F
  finish_add m name (s, error) = record {
    id = some (file name);
    error = error;
    maildir = m;
    files = s;
  }

  abbrev pub describe : ℕ → Received → Maildir → F.State → Option Str → Added F
  describe now msg m s none = record { id = none; error = true; maildir = m; files = s }
  describe now msg m s (some name) =
      finish_add m name (write_metadata m s name now (metadata_of msg))

  -- `DiskStore.Add`
  unfoldable pub add_to_disk : Machine → ℕ → Maildir → F.State → Received → Added F
  unfolding write write_metadata metadata_of
  add_to_disk on now m s msg =
      let w = write F on m s msg.payload in describe now msg w.maildir w.files w.name

  abbrev pub remove_contents : Maildir → Str → F.State × Bool → F.State × Bool
  remove_contents m name (s, true) = (s, true)
  remove_contents m name (s, false) = remove_file F m s name cur

  -- `DiskStore.Remove`, of a name.
  unfoldable pub remove_from_disk : Maildir → F.State → Str → F.State × Bool
  unfolding remove_file
  remove_from_disk m s name = remove_contents m name (remove_file F m s name meta)

  abbrev pub unmarshalled : Option Str → Option Metadata
  unmarshalled none = none
  unmarshalled (some text) = L.unmarshal text

  -- `readMetadata`
  unfoldable pub read_metadata : Maildir → F.State → Str → Option Metadata
  unfolding read_bytes
  read_metadata m s name = unmarshalled (read_bytes F m s name meta)

  abbrev pub envelop : Metadata → Str → Option Mail → Option Received
  envelop md contents none = none
  envelop md contents (some mail) = some (record {
    from = md.envelope_from;
    to = md.envelope_to;
    payload = contents;
    parsed = some mail;
    redirected_to = md.redirected_to;
  })

  abbrev pub parse_contents : Metadata → Option Str → Option Received
  parse_contents md none = none
  parse_contents md (some contents) = envelop md contents (L.read_message contents)

  abbrev pub read_contents : Maildir → F.State → Str → Option Metadata → Option Received
  read_contents m s name none = none
  read_contents m s name (some md) = parse_contents md (read_bytes F m s name cur)

  -- `readMessage`
  unfoldable pub read_from_disk : Maildir → F.State → Str → Option Received
  unfolding read_metadata read_bytes
  read_from_disk m s name = read_contents m s name (read_metadata m s name)

  abbrev collected : Info → Option Received → List Stored × Bool → List Stored × Bool
  collected info none rest = ([], true)
  collected info (some msg) (later, error) =
      (record { id = file info.name; received = info.mod_time; message = msg } ∷ later, error)

  -- The loop of `MessagesNewerThan`: what it has put into `result`, and whether there was an error.
  unfoldable pub collect_newer : Maildir → F.State → ℕ → List Info → List Stored × Bool
  unfolding read_from_disk
  collect_newer m s t [] = ([], false)
  collect_newer m s t (info ∷ infos) =
      let rest = collect_newer m s t infos in
      if ltb info.mod_time t || info.is_dir
      then rest
      else collected info (read_from_disk m s info.name) rest

  abbrev listed : Maildir → F.State → ℕ → Option (List Info) → List Stored × Bool
  listed m s t none = ([], true)
  listed m s t (some infos) = collect_newer m s t infos

  -- `DiskStore.MessagesNewerThan`
  unfoldable pub newer_on_disk : Maildir → F.State → ℕ → List Stored × Bool
  unfolding list_files collect_newer
  newer_on_disk m s t = listed m s t (list_files F m s meta)
