-- ===== src/Disk/Backed.antt =====
-- What a `DiskStore` leaves on the disk, whichever of its calls fail.
use failmail.Base.{
  ℕ, ◌≡◌, refl, ap, sym, ◌∙◌, Bool, true, false, Option, none, some, List, [], ◌∷◌, arith, Str,
  Bool-cases, Option-cases, inl, inr,
}
use mathlib.Core.Path.{subst}
use failmail.Message.{Received}
use failmail.Maildir.{
  FileSystem, IsLawful, cur, tmp, meta, Maildir, Machine, path_of, cur_name, Written, written,
  renamed, write_named, write, next_unique_name, name_on, remove_file,
}
use failmail.Disk.{
  Library, timed, write_marshalled, write_metadata, metadata_of, add_to_disk, remove_contents,
  remove_from_disk,
}
use failmail.Disk.Calls.{
  present, has, IsBacked, same-IsBacked, write_tmp-IsBacked, rename-IsBacked, write_meta-IsBacked,
  remove_meta-IsBacked, remove_cur-IsBacked,
}

-- The files stay backed, and a name that is returned is that of a message.
record WriteKeeps (F : FileSystem) (path : Str) (w : Written F) : Type 0 where
  same_path : w.maildir.path ≡ path
  backed : IsBacked F path w.files
  there : (name : Str) → w.name ≡ some name → has F path w.files name cur ≡ true

module _ (F : FileSystem) (laws : IsLawful F) where
  renamed-WriteKeeps :
      (m : Maildir) (s : F.State) (name text : Str)
      → F.read_file s (path_of m name tmp) ≡ some text
      → IsBacked F m.path s
      → WriteKeeps F m.path
          (renamed F m name (F.rename s (path_of m name tmp) (path_of m (cur_name name) cur)))
  renamed-WriteKeeps m s name text there b =
      let t = F.rename s (path_of m name tmp) (path_of m (cur_name name) cur) in
      let kept = rename-IsBacked F laws m.path s name (cur_name name) text there b in
      elim (Bool-cases t.1) [
        | inl failed ↦ rw failed (record { same_path = refl; backed = kept; there = λ n e. cc })
        | inr done ↦ rw done (record {
          same_path = refl;
          backed = kept;
          there = λ n e. ap present (
              ap (λ n'. F.read_file t.0 (path_of m n' cur)) (ground (arith, e))
              ∙ laws.rename_done s (path_of m name tmp) (path_of m (cur_name name) cur) done
              ∙ there);
        })
      ]

  written-WriteKeeps :
      (m : Maildir) (s : F.State) (name text : Str)
      → IsBacked F m.path s
      → WriteKeeps F m.path (written F m name (F.write_file s (path_of m name tmp) text))
  written-WriteKeeps m s name text b =
      let t = F.write_file s (path_of m name tmp) text in
      let kept = write_tmp-IsBacked F laws m.path s name text b in
      elim (Bool-cases t.1) [
        | inl failed ↦ rw failed (record { same_path = refl; backed = kept; there = λ n e. cc })
        | inr done ↦ rw done (
            renamed-WriteKeeps m t.0 name text (laws.write_done s (path_of m name tmp) text done)
              kept)
      ]

  write-WriteKeeps :
      (on : Machine) (m : Maildir) (s : F.State) (text : Str)
      → IsBacked F m.path s
      → WriteKeeps F m.path (write F on m s text)
  unfolding write next_unique_name
  write-WriteKeeps on m s text b = go on.host
    where
      go : (h : Option Str) → WriteKeeps F m.path (write_named F s text (name_on on m h))
      go none = record { same_path = refl; backed = b; there = λ n e. cc }
      go (some host) = written-WriteKeeps (name_on on m (some host)).1 s _ text b

-- The calls of a `DiskStore` that change the disk.
pub data Call : Type 0 where
  add_call : Machine → ℕ → Received → Call
  remove_call : Str → Call

-- The store after some calls.
unfoldable pub run_disk :
    (F : FileSystem) → Library → Maildir → F.State → List Call → Maildir × F.State
run_disk F L m s [] = (m, s)
run_disk F L m s (add_call on now msg ∷ calls) =
    let a = add_to_disk F L on now m s msg in run_disk F L a.maildir a.files calls
run_disk F L m s (remove_call name ∷ calls) = run_disk F L m (remove_from_disk F L m s name).0 calls

module _ (F : FileSystem) (laws : IsLawful F) (L : Library) where
  timed-IsBacked :
      (m : Maildir) (name : Str) (now : ℕ) (t : F.State × Bool)
      → IsBacked F m.path t.0
      → IsBacked F m.path (timed F L m name now t).0
  timed-IsBacked m name now (s, true) b = b
  timed-IsBacked m name now (s, false) b =
      same-IsBacked F laws m.path s (F.chtimes s (path_of m name meta) now).0
        (laws.chtimes_reads s (path_of m name meta) now) b

  marshalled-IsBacked :
      (m : Maildir) (s : F.State) (name : Str) (now : ℕ) (o : Option Str)
      → has F m.path s name cur ≡ true
      → IsBacked F m.path s
      → IsBacked F m.path (write_marshalled F L m s name now o).0
  marshalled-IsBacked m s name now none there b = b
  marshalled-IsBacked m s name now (some text) there b =
      timed-IsBacked m name now (F.write_file s (path_of m name meta) text)
        (write_meta-IsBacked F laws m.path s name text there b)

  add_to_disk-IsBacked :
      (on : Machine) (now : ℕ) (m : Maildir) (s : F.State) (msg : Received)
      → IsBacked F m.path s
      → IsBacked F m.path (add_to_disk F L on now m s msg).files
  unfolding add_to_disk write_metadata
  add_to_disk-IsBacked on now m s msg b =
      let w = write F on m s msg.payload in
      let k = write-WriteKeeps F laws on m s msg.payload b in
      elim (Option-cases w.name) [
        | inl e ↦ rw e k.backed
        | inr (name, e) ↦ rw e (
            subst
              (λ path.
                IsBacked F path
                  (write_marshalled F L w.maildir w.files name now (L.marshal (metadata_of msg))).0)
              k.same_path
              (marshalled-IsBacked w.maildir w.files name now (L.marshal (metadata_of msg))
                (subst (λ path. has F path w.files name cur ≡ true) (sym k.same_path)
                  (k.there name e))
                (subst (λ path. IsBacked F path w.files) (sym k.same_path) k.backed)))
      ]

  contents-IsBacked :
      (m : Maildir) (name : Str) (t : F.State × Bool)
      → (t.1 ≡ false → has F m.path t.0 name meta ≡ false)
      → IsBacked F m.path t.0
      → IsBacked F m.path (remove_contents F L m name t).0
  unfolding remove_file
  contents-IsBacked m name (s, true) gone b = b
  contents-IsBacked m name (s, false) gone b =
      remove_cur-IsBacked F laws m.path s name (gone refl) b

  remove_from_disk-IsBacked :
      (m : Maildir) (s : F.State) (name : Str)
      → IsBacked F m.path s
      → IsBacked F m.path (remove_from_disk F L m s name).0
  unfolding remove_from_disk remove_file
  remove_from_disk-IsBacked m s name b =
      contents-IsBacked m name (F.remove s (path_of m name meta))
        (λ done. ap present (laws.remove_done s (path_of m name meta) done))
        (remove_meta-IsBacked F laws m.path s name b)

  add_to_disk-path :
      (on : Machine) (now : ℕ) (m : Maildir) (s : F.State) (msg : Received)
      → (add_to_disk F L on now m s msg).maildir.path ≡ m.path
  unfolding add_to_disk write next_unique_name
  add_to_disk-path on now m s msg = ground arith

  -- `Add` and `Remove`, in any order and whichever of their calls fail, never leave metadata without
  -- a message. A crash between two calls leaves what a failure of the second one leaves.
  pub run_disk-IsBacked :
      (m : Maildir) (s : F.State) (calls : List Call)
      → IsBacked F m.path s
      → IsBacked F m.path (run_disk F L m s calls).1
  unfolding run_disk
  run_disk-IsBacked m s [] b = b
  run_disk-IsBacked m s (add_call on now msg ∷ calls) b =
      let a = add_to_disk F L on now m s msg in
      let same = add_to_disk-path on now m s msg in
      subst (λ path. IsBacked F path (run_disk F L a.maildir a.files calls).1) same
        (run_disk-IsBacked a.maildir a.files calls (
          subst (λ path. IsBacked F path a.files) (sym same)
            (add_to_disk-IsBacked on now m s msg b)))
  run_disk-IsBacked m s (remove_call name ∷ calls) b =
      run_disk-IsBacked m (remove_from_disk F L m s name).0 calls
        (remove_from_disk-IsBacked m s name b)
