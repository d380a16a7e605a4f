-- ===== src/Disk/Calls.antt =====
-- The calls of a file system that a `DiskStore` makes, and the files of metadata.
use failmail.Base.{
  ◌≡◌, refl, ap, sym, ◌∙◌, Bool, true, false, Option, none, some, Str, Bool-cases, inl, inr,
}
use failmail.Maildir.{
  FileSystem, IsLawful, Subdir, cur, tmp, meta, FilePath, path_beq, path_beq_iff, path_beq-apart,
  subdir_beq,
}

abbrev pub present : Option Str → Bool
present none = false
present (some text) = true

module _ (F : FileSystem) (path : Str) where
  abbrev pub at_path : Str → Subdir → FilePath
  at_path name subdir = record { root = path; subdir = subdir; name = name }

  abbrev pub has : F.State → Str → Subdir → Bool
  has s name subdir = present (F.read_file s (at_path name subdir))

  -- Each file of metadata has a file with the message.
  abbrev pub IsBacked : F.State → Type 0
  IsBacked s = (name : Str) → has s name meta ≡ true → has s name cur ≡ true

module _ (F : FileSystem) (laws : IsLawful F) (path : Str) where
  pub same-IsBacked :
      (s t : F.State)
      → ((p : FilePath) → F.read_file t p ≡ F.read_file s p)
      → IsBacked F path s
      → IsBacked F path t
  same-IsBacked s t same b name h =
      ap present (same (at_path F path name cur))
      ∙ b name (sym (ap present (same (at_path F path name meta))) ∙ h)

  pub write_tmp-IsBacked :
      (s : F.State) (name text : Str)
      → IsBacked F path s
      → IsBacked F path (F.write_file s (at_path F path name tmp) text).0
  unfolding subdir_beq
  write_tmp-IsBacked s name text b other h =
      let p = at_path F path name tmp in
      ap present
        (laws.write_elsewhere s p text (at_path F path other cur) (path_beq-apart _ _ refl))
      ∙ b other (
          sym (
            ap present
              (laws.write_elsewhere s p text (at_path F path other meta) (path_beq-apart _ _ refl)))
          ∙ h)

  -- Renaming a file that is there.
  pub rename-IsBacked :
      (s : F.State) (name name' text : Str)
      → F.read_file s (at_path F path name tmp) ≡ some text
      → IsBacked F path s
      → IsBacked F path (F.rename s (at_path F path name tmp) (at_path F path name' cur)).0
  unfolding subdir_beq
  rename-IsBacked s name name' text there b =
      let p = at_path F path name tmp in
      let q = at_path F path name' cur in
      elim (Bool-cases (F.rename s p q).1) [
        | inl failed ↦ same-IsBacked s (F.rename s p q).0 (laws.rename_refused s p q failed) b
        | inr done ↦ λ other h.
            let old = b other (
              sym (
                ap present (
                  laws.rename_elsewhere s p q (at_path F path other meta) (path_beq-apart _ _ refl)
                    (path_beq-apart _ _ refl)))
              ∙ h) in
            elim (Bool-cases (path_beq q (at_path F path other cur))) [
              | inl same ↦
                  ap (λ r. present (F.read_file (F.rename s p q).0 r))
                    (sym ((path_beq_iff q (at_path F path other cur)).0 same))
                  ∙ ap present (laws.rename_done s p q done ∙ there)
              | inr apart ↦
                  ap present (
                    laws.rename_elsewhere s p q (at_path F path other cur) (path_beq-apart _ _ refl)
                      apart)
                  ∙ old
            ]
      ]

  pub write_meta-IsBacked :
      (s : F.State) (name text : Str)
      → has F path s name cur ≡ true
      → IsBacked F path s
      → IsBacked F path (F.write_file s (at_path F path name meta) text).0
  unfolding subdir_beq
  write_meta-IsBacked s name text there b other h =
      let p = at_path F path name meta in
      ap present
        (laws.write_elsewhere s p text (at_path F path other cur) (path_beq-apart _ _ refl))
      ∙ elim (Bool-cases (path_beq p (at_path F path other meta))) [
        | inl same ↦
            ap (λ (r : FilePath). has F path s r.name cur)
              (sym ((path_beq_iff p (at_path F path other meta)).0 same))
            ∙ there
        | inr apart ↦
            b other (
              sym (ap present (laws.write_elsewhere s p text (at_path F path other meta) apart))
              ∙ h)
      ]

  pub remove_meta-IsBacked :
      (s : F.State) (name : Str)
      → IsBacked F path s
      → IsBacked F path (F.remove s (at_path F path name meta)).0
  unfolding subdir_beq
  remove_meta-IsBacked s name b =
      let p = at_path F path name meta in
      elim (Bool-cases (F.remove s p).1) [
        | inl failed ↦ same-IsBacked s (F.remove s p).0 (laws.remove_refused s p failed) b
        | inr done ↦ λ other h.
            ap present
              (laws.remove_elsewhere s p (at_path F path other cur) (path_beq-apart _ _ refl))
            ∙ elim (Bool-cases (path_beq p (at_path F path other meta))) [
              | inl same ↦ cc (
                  sym (ap present (laws.remove_done s p done))
                  ∙ ap (λ r. present (F.read_file (F.remove s p).0 r))
                      ((path_beq_iff p (at_path F path other meta)).0 same)
                  ∙ h)
              | inr apart ↦ b other (
                  sym (ap present (laws.remove_elsewhere s p (at_path F path other meta) apart))
                  ∙ h)
            ]
      ]

  pub remove_cur-IsBacked :
      (s : F.State) (name : Str)
      → has F path s name meta ≡ false
      → IsBacked F path s
      → IsBacked F path (F.remove s (at_path F path name cur)).0
  unfolding subdir_beq
  remove_cur-IsBacked s name gone b =
      let p = at_path F path name cur in
      elim (Bool-cases (F.remove s p).1) [
        | inl failed ↦ same-IsBacked s (F.remove s p).0 (laws.remove_refused s p failed) b
        | inr done ↦ λ other h.
            let before =
              sym (
                ap present
                  (laws.remove_elsewhere s p (at_path F path other meta) (path_beq-apart _ _ refl)))
              ∙ h in
            elim (Bool-cases (path_beq p (at_path F path other cur))) [
              | inl same ↦ cc (
                  sym gone
                  ∙ ap (λ (r : FilePath). has F path s r.name meta)
                      ((path_beq_iff p (at_path F path other cur)).0 same)
                  ∙ before)
              | inr apart ↦
                  ap present (laws.remove_elsewhere s p (at_path F path other cur) apart)
                  ∙ b other before
            ]
      ]
