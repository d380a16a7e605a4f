-- ===== src/Disk/ReadBack.antt =====
-- message_stores.go: what is read of a message that was added to a `DiskStore`.
use failmail.Base.{
  ℕ, ◌≡◌, refl, ap, sym, ◌∙◌, Bool, true, false, Option, none, some, Str, eq_str, Option-cases, inl,
  inr,
}
use mathlib.Core.Path.{subst}
use failmail.Message.{Mail, Received, recipients}
use failmail.Buffer.{file}
use failmail.Maildir.{
  FileSystem, IsLawful, cur, meta, FilePath, path_beq, path_beq-apart, subdir_beq, Maildir, Machine,
  path_of, Written, write, read_bytes,
}
use failmail.Maildir.Wrote.{path_beq-other, Wrote, write-Wrote}
use failmail.Disk.{
  Library, Metadata, Added, timed, write_marshalled, write_metadata, metadata_of, describe,
  finish_add, add_to_disk, read_metadata, read_contents, parse_contents, read_from_disk,
  unmarshalled,
}

-- A message as it is read back.
abbrev pub kept_as : Received → Mail → Received
kept_as msg mail = record msg { to = recipients msg; parsed = some mail }

module _ (F : FileSystem) (L : Library) where
  pub read_from_disk-same :
      (m : Maildir) (s t : F.State) (name : Str)
      → F.read_file t (path_of m name meta) ≡ F.read_file s (path_of m name meta)
      → F.read_file t (path_of m name cur) ≡ F.read_file s (path_of m name cur)
      → read_from_disk F L m t name ≡ read_from_disk F L m s name
  unfolding read_from_disk read_metadata read_bytes
  read_from_disk-same m s t name same_meta same_cur =
      ap (λ o. read_contents F L m t name (unmarshalled F L o)) same_meta
      ∙ go (unmarshalled F L (F.read_file s (path_of m name meta)))
    where
      go : (o : Option Metadata) → read_contents F L m t name o ≡ read_contents F L m s name o
      go none = refl
      go (some md) = ap (parse_contents F L md) same_cur

  read_from_disk-found :
      (m : Maildir) (s : F.State) (name text contents : Str) (md : Metadata) (mail : Mail)
      → F.read_file s (path_of m name meta) ≡ some text
      → L.unmarshal text ≡ some md
      → F.read_file s (path_of m name cur) ≡ some contents
      → L.read_message contents ≡ some mail
      → read_from_disk F L m s name
        ≡ some (record {
          from = md.envelope_from;
          to = md.envelope_to;
          payload = contents;
          parsed = some mail;
          redirected_to = md.redirected_to;
        })
  unfolding read_from_disk read_metadata read_bytes
  read_from_disk-found m s name text contents md mail a b c d = rw (a, b) (rw (c, d) refl)

-- What writing the metadata leaves.
record Filed (F : FileSystem) (root : Str) (s t : F.State) (name text : Str) : Type 0 where
  metadata : F.read_file t (record { root = root; subdir = meta; name = name }) ≡ some text
  elsewhere :
      (p : FilePath)
      → path_beq (record { root = root; subdir = meta; name = name }) p ≡ false
      → F.read_file t p ≡ F.read_file s p

module _ (F : FileSystem) (laws : IsLawful F) (L : Library) where
  timed-Filed :
      (m : Maildir) (s : F.State) (name text : Str) (now : ℕ) (out : F.State × Bool)
      → out ≡ F.write_file s (path_of m name meta) text
      → (timed F L m name now out).1 ≡ false
      → Filed F m.path s (timed F L m name now out).0 name text
  timed-Filed m s name text now (t, true) e h = cc
  timed-Filed m s name text now (t, false) e h =
      let p = path_of m name meta in
      record {
        metadata =
            laws.chtimes_reads t p now p
            ∙ ap (λ (o : F.State × Bool). F.read_file o.0 p) e
            ∙ laws.write_done s p text (sym (ap (λ (o : F.State × Bool). o.1) e));
        elsewhere = λ q apart.
            laws.chtimes_reads t p now q
            ∙ ap (λ (o : F.State × Bool). F.read_file o.0 q) e
            ∙ laws.write_elsewhere s p text q apart;
      }

  marshalled-Filed :
      (m : Maildir) (s : F.State) (name : Str) (now : ℕ) (o : Option Str)
      → (write_marshalled F L m s name now o).1 ≡ false
      → (text : Str) × (o ≡ some text)
        × Filed F m.path s (write_marshalled F L m s name now o).0 name text
  marshalled-Filed m s name now none h = cc
  marshalled-Filed m s name now (some text) h = (text, refl, timed-Filed m s name text now _ refl h)

  -- encoding/json reads what it writes of the metadata of a message.
  abbrev pub IsReadable : Received → Type 0
  IsReadable msg =
      (text : Str)
      → L.marshal (metadata_of msg) ≡ some text
      → L.unmarshal text ≡ some (metadata_of msg)

  -- The two results of an `Add` that wrote the contents under `name`.
  record IsReadBack (m : Maildir) (s : F.State) (msg : Received) (mail : Mail) (name : Str)
      (a : Added F) : Type 0 where
    id : a.id ≡ some (file name)
    found : read_from_disk F L m a.files name ≡ some (kept_as msg mail)
    others :
        (other : Str)
        → eq_str name other ≡ false
        → read_from_disk F L m a.files other ≡ read_from_disk F L m s other

  finish_add-IsReadBack :
      (m : Maildir) (s : F.State) (msg : Received) (mail : Mail) (now : ℕ) (w : Written F)
      (name : Str)
      → IsReadable msg
      → L.read_message msg.payload ≡ some mail
      → Wrote F m s msg.payload w name
      → (write_metadata F L w.maildir w.files name now (metadata_of msg)).1 ≡ false
      → IsReadBack m s msg mail name (
          finish_add F L w.maildir name
            (write_metadata F L w.maildir w.files name now (metadata_of msg)))
  unfolding write_metadata metadata_of subdir_beq
  finish_add-IsReadBack m s msg mail now w name inverse parses wrote ok =
      let md = metadata_of msg in
      let out = write_marshalled F L w.maildir w.files name now (L.marshal md) in
      let (text, e, filed) = marshalled-Filed w.maildir w.files name now (L.marshal md) ok in
      let filed' = subst (λ root. Filed F root w.files out.0 name text) wrote.same_path filed in
      record {
        id = refl;
        found =
            read_from_disk-found F L m out.0 name text msg.payload md mail filed'.metadata
              (inverse text e)
              (filed'.elsewhere (path_of m name cur) (path_beq-apart _ _ refl) ∙ wrote.contents)
              parses;
        others = λ other apart.
            read_from_disk-same F L m s out.0 other
              (filed'.elsewhere (path_of m other meta) (path_beq-other m.path meta name other apart)
                ∙ wrote.metadata other)
              (filed'.elsewhere (path_of m other cur) (path_beq-apart _ _ refl)
                ∙ wrote.others other apart);
      }

  -- After an `Add` without an error of a message whose text net/mail reads, and whose metadata
  -- encoding/json reads back as they were, the message is read back under the name that was returned,
  -- with its sender, text and redirection, and with its recipients after redirection in place of those
  -- it was sent to. What is read under any other name is as it was.
  pub add_to_disk-read_from_disk :
      (on : Machine) (now : ℕ) (m : Maildir) (s : F.State) (msg : Received) (mail : Mail)
      → IsReadable msg
      → L.read_message msg.payload ≡ some mail
      → (add_to_disk F L on now m s msg).error ≡ false
      → (name : Str) × ((add_to_disk F L on now m s msg).id ≡ some (file name))
        × (read_from_disk F L m (add_to_disk F L on now m s msg).files name
            ≡ some (kept_as msg mail))
        × ((other : Str)
            → eq_str name other ≡ false
            → read_from_disk F L m (add_to_disk F L on now m s msg).files other
              ≡ read_from_disk F L m s other)
  unfolding add_to_disk write_metadata metadata_of
  add_to_disk-read_from_disk on now m s msg mail inverse parses ok =
      go (write F on m s msg.payload) (write-Wrote F laws on m s msg.payload) ok
    where
      go :
          (w : Written F)
          → ((name : Str) → w.name ≡ some name → Wrote F m s msg.payload w name)
          → (describe F L now msg w.maildir w.files w.name).error ≡ false
          → (name : Str) × ((describe F L now msg w.maildir w.files w.name).id ≡ some (file name))
            × (read_from_disk F L m (describe F L now msg w.maildir w.files w.name).files name
                ≡ some (kept_as msg mail))
            × ((other : Str)
                → eq_str name other ≡ false
                → read_from_disk F L m (describe F L now msg w.maildir w.files w.name).files other
                  ≡ read_from_disk F L m s other)
      go w wrote h = elim (Option-cases w.name) [
        | inl e ↦ cc (sym (ap (λ o. (describe F L now msg w.maildir w.files o).error) e) ∙ h)
        | inr (name, e) ↦
            let r =
              finish_add-IsReadBack m s msg mail now w name inverse parses (wrote name e)
                (sym (ap (λ o. (describe F L now msg w.maildir w.files o).error) e) ∙ h) in
            (name, rw e (r.id), rw e (r.found), rw e (r.others))
      ]
