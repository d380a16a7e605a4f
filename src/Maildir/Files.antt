-- ===== src/Maildir/Files.antt =====
-- maildir.go: the directories of a Maildir, and what its operations use of the packages os and ioutil.
use failmail.Base.{
  ℕ, ◌≡◌, ◌↔◌, Bool, true, false, ◌&&◌, Option, some, none, List, arith, Str, eq_str, eq_str_iff,
  Eq,
}

-- `MaildirSubdir`, and the directory itself.
pub data Subdir : Type 0 where
  top cur new tmp meta : Subdir

unfoldable pub subdir_beq : Subdir → Subdir → Bool
subdir_beq top top = true
subdir_beq cur cur = true
subdir_beq new new = true
subdir_beq tmp tmp = true
subdir_beq meta meta = true
subdir_beq _ _ = false

pub record FilePath : Type 0 where
  pub root : Str
  pub subdir : Subdir
  pub name : Str

unfoldable pub path_beq : FilePath → FilePath → Bool
unfolding subdir_beq
path_beq p q = eq_str p.root q.root && subdir_beq p.subdir q.subdir && eq_str p.name q.name

subdir_beq_iff : (a b : Subdir) → (subdir_beq a b ≡ true) ↔ (a ≡ b)
unfolding subdir_beq
subdir_beq_iff a b = ground arith

pub path_beq_iff : (p q : FilePath) → (path_beq p q ≡ true) ↔ (p ≡ q)
unfolding path_beq
path_beq_iff p q =
    ground
      (arith, eq_str_iff p.root q.root, eq_str_iff p.name q.name, subdir_beq_iff p.subdir q.subdir)

instance abbrev pub path_eq : Eq FilePath
path_eq = record { beq = path_beq; beq_iff = path_beq_iff }

-- Paths in different directories.
pub path_beq-apart : (p q : FilePath) → subdir_beq p.subdir q.subdir ≡ false → path_beq p q ≡ false
unfolding path_beq
path_beq-apart p q h = ground (arith, eq_str p.root q.root)

-- How `os.Mkdir` ends.
pub data Made : Type 0 where
  made existed refused : Made

-- An `os.FileInfo`.
pub record Info : Type 0 where
  pub name : Str
  pub mod_time : ℕ
  pub is_dir : Bool

-- The operations return the state and whether there was an error.
pub record FileSystem : Type 1 where
  pub State : Type 0
  pub mkdir : State → Str → Subdir → State × Made
  pub write_file : State → FilePath → Str → State × Bool
  pub rename : State → FilePath → FilePath → State × Bool
  pub remove : State → FilePath → State × Bool
  pub chtimes : State → FilePath → ℕ → State × Bool
  pub read_file : State → FilePath → Option Str
  pub list : State → Str → Subdir → Option (List Info)

-- What is read after each operation. A write that fails may leave anything at its path, a rename or
-- a removal that fails leaves all as it was.
pub record IsLawful (F : FileSystem) : Type 0 where
  pub write_done :
      (s : F.State) (p : FilePath) (text : Str)
      → (F.write_file s p text).1 ≡ false
      → F.read_file (F.write_file s p text).0 p ≡ some text
  pub write_elsewhere :
      (s : F.State) (p : FilePath) (text : Str) (q : FilePath)
      → path_beq p q ≡ false
      → F.read_file (F.write_file s p text).0 q ≡ F.read_file s q
  pub rename_done :
      (s : F.State) (p q : FilePath)
      → (F.rename s p q).1 ≡ false
      → F.read_file (F.rename s p q).0 q ≡ F.read_file s p
  pub rename_refused :
      (s : F.State) (p q : FilePath)
      → (F.rename s p q).1 ≡ true
      → (r : FilePath) → F.read_file (F.rename s p q).0 r ≡ F.read_file s r
  pub rename_elsewhere :
      (s : F.State) (p q r : FilePath)
      → path_beq p r ≡ false
      → path_beq q r ≡ false
      → F.read_file (F.rename s p q).0 r ≡ F.read_file s r
  pub remove_done :
      (s : F.State) (p : FilePath)
      → (F.remove s p).1 ≡ false
      → F.read_file (F.remove s p).0 p ≡ none
  pub remove_refused :
      (s : F.State) (p : FilePath)
      → (F.remove s p).1 ≡ true
      → (q : FilePath) → F.read_file (F.remove s p).0 q ≡ F.read_file s q
  pub remove_elsewhere :
      (s : F.State) (p q : FilePath)
      → path_beq p q ≡ false
      → F.read_file (F.remove s p).0 q ≡ F.read_file s q
  pub chtimes_reads :
      (s : F.State) (p : FilePath) (t : ℕ) (q : FilePath)
      → F.read_file (F.chtimes s p t).0 q ≡ F.read_file s q
