-- ===== src/Maildir/Wrote.antt =====
-- maildir.go: what `Write` leaves where it returns a name.
use failmail.Base.{
  ◌≡◌, refl, ap, sym, ◌∙◌, Bool, true, false, Option, none, some, arith, Str, eq_str,
}
use failmail.Maildir.{
  FileSystem, IsLawful, Subdir, cur, tmp, meta, path_beq, path_beq-apart, subdir_beq, Maildir,
  Machine, path_of, cur_name, Written, written, renamed, write_named, write, next_unique_name,
  name_on,
}

pub path_beq-other :
    (root : Str) (d : Subdir) (name other : Str)
    → eq_str name other ≡ false
    → path_beq
        (record { root = root; subdir = d; name = name })
        (record { root = root; subdir = d; name = other })
      ≡ false
unfolding path_beq
path_beq-other root d name other h = ground arith

-- What `Write` leaves where it returns a name.
pub record Wrote (F : FileSystem) (m : Maildir) (s : F.State) (text : Str) (w : Written F)
    (name : Str) : Type 0 where
  pub same_path : w.maildir.path ≡ m.path
  pub contents : F.read_file w.files (path_of m name cur) ≡ some text
  pub others :
      (other : Str)
      → eq_str name other ≡ false
      → F.read_file w.files (path_of m other cur) ≡ F.read_file s (path_of m other cur)
  pub metadata :
      (other : Str)
      → F.read_file w.files (path_of m other meta) ≡ F.read_file s (path_of m other meta)

module _ (F : FileSystem) (laws : IsLawful F) where
  renamed-Wrote :
      (m : Maildir) (s t : F.State) (base text : Str) (out : F.State × Bool)
      → out ≡ F.rename t (path_of m base tmp) (path_of m (cur_name base) cur)
      → F.read_file t (path_of m base tmp) ≡ some text
      → ((other : Str) (d : Subdir)
          → subdir_beq tmp d ≡ false
          → F.read_file t (path_of m other d) ≡ F.read_file s (path_of m other d))
      → (name : Str) → (renamed F m base out).name ≡ some name
      → Wrote F m s text (renamed F m base out) name
  renamed-Wrote m s t base text (u, true) e there same name h = cc
  renamed-Wrote m s t base text (u, false) e there same name h =
      let p = path_of m base tmp in
      let q = path_of m (cur_name base) cur in
      let named : cur_name base ≡ name = ground (arith, h) in
      record {
        same_path = refl;
        contents =
            ap (λ n. F.read_file u (path_of m n cur)) (sym named)
            ∙ ap (λ (o : F.State × Bool). F.read_file o.0 q) e
            ∙ laws.rename_done t p q (sym (ap (λ (o : F.State × Bool). o.1) e))
            ∙ there;
        others = λ other apart.
            ap (λ (o : F.State × Bool). F.read_file o.0 (path_of m other cur)) e
            ∙ laws.rename_elsewhere t p q (path_of m other cur)
                (unfold subdir_beq in path_beq-apart _ _ refl)
                (path_beq-other m.path cur (cur_name base) other
                  (ap (λ n. eq_str n other) named ∙ apart))
            ∙ same other cur (unfold subdir_beq in refl);
        metadata = λ other.
            ap (λ (o : F.State × Bool). F.read_file o.0 (path_of m other meta)) e
            ∙ laws.rename_elsewhere t p q (path_of m other meta)
                (unfold subdir_beq in path_beq-apart _ _ refl)
                (unfold subdir_beq in path_beq-apart _ _ refl)
            ∙ same other meta (unfold subdir_beq in refl);
      }

  written-Wrote :
      (m : Maildir) (s : F.State) (base text : Str) (out : F.State × Bool)
      → out ≡ F.write_file s (path_of m base tmp) text
      → (name : Str) → (written F m base out).name ≡ some name
      → Wrote F m s text (written F m base out) name
  written-Wrote m s base text (t, true) e name h = cc
  written-Wrote m s base text (t, false) e name h =
      let p = path_of m base tmp in
      renamed-Wrote m s t base text _ refl
        (ap (λ (o : F.State × Bool). F.read_file o.0 p) e
          ∙ laws.write_done s p text (sym (ap (λ (o : F.State × Bool). o.1) e)))
        (λ other d apart.
          ap (λ (o : F.State × Bool). F.read_file o.0 (path_of m other d)) e
          ∙ laws.write_elsewhere s p text (path_of m other d) (path_beq-apart _ _ apart))
        name h

  pub write-Wrote :
      (on : Machine) (m : Maildir) (s : F.State) (text name : Str)
      → (write F on m s text).name ≡ some name
      → Wrote F m s text (write F on m s text) name
  unfolding write next_unique_name
  write-Wrote on m s text name h = go on.host h
    where
      go :
          (o : Option Str)
          → (write_named F s text (name_on on m o)).name ≡ some name
          → Wrote F m s text (write_named F s text (name_on on m o)) name
      go none h = cc
      go (some host) h =
          let w = written-Wrote (name_on on m (some host)).1 s _ text _ refl name h in
          record {
            same_path = w.same_path;
            contents = w.contents;
            others = w.others;
            metadata = w.metadata;
          }
