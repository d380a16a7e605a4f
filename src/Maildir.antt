-- ===== src/Maildir.antt =====
-- maildir.go: `Maildir`, over a file system that is a parameter.
--
-- A path is kept in the parts that `path.Join` puts together; the names are file names, without a
-- slash. Of an error only the fact is kept: `true`, or `none` in place of the result; the name that
-- `Write` returns besides an error is read by no caller.
pub mod Files
pub mod Names
pub mod Wrote
pub use Files.{
  Subdir, top, cur, new, tmp, meta, FilePath, FileSystem, Made, made, existed, refused, Info,
  IsLawful, path_beq_iff, path_beq-apart, path_eq,
}
unfoldable pub use Files.{path_beq, subdir_beq}
use failmail.Base.{
  ℕ, zero, suc, Bool, true, false, Option, none, some, List, [], ◌∷◌, ◌++◌, if◌then◌else◌, Str,
  bytes, decimal,
}

pub record Maildir : Type 0 where
  pub path : Str
  pub message_counter : ℕ

-- What `hostGetter`, `nowGetter().Unix()` and `pidGetter` return at a call.
pub record Machine : Type 0 where
  pub host : Option Str
  pub unix_time : ℕ
  pub pid : ℕ

abbrev pub unique_name : ℕ → ℕ → ℕ → Str → Str
unique_name time pid counter host =
    decimal time ++ b'.' ∷ (decimal pid ++ b'_' ∷ (decimal counter ++ b'.' ∷ host))

abbrev pub name_on : Machine → Maildir → Option Str → Option Str × Maildir
name_on on m none = (none, m)
name_on on m (some host) =
    let counter = suc m.message_counter in
    (some (unique_name on.unix_time on.pid counter host), record m { message_counter = counter })

-- `NextUniqueName`
unfoldable pub next_unique_name : Machine → Maildir → Option Str × Maildir
unfolding decimal
next_unique_name on m = name_on on m on.host

-- `path`
abbrev pub path_of : Maildir → Str → Subdir → FilePath
path_of m name subdir = record { root = m.path; subdir = subdir; name = name }

-- The name in `MAILDIR_CUR`.
abbrev pub cur_name : Str → Str
cur_name name = name ++ bytes ":2,S"

module _ (F : FileSystem) where
  -- What `Write` returns, and the state after it.
  pub record Written : Type 0 where
    pub name : Option Str
    pub maildir : Maildir
    pub files : F.State

  abbrev pub renamed : Maildir → Str → F.State × Bool → Written
  renamed m name (s, true) = record { name = none; maildir = m; files = s }
  renamed m name (s, false) = record { name = some (cur_name name); maildir = m; files = s }

  abbrev pub written : Maildir → Str → F.State × Bool → Written
  written m name (s, true) = record { name = none; maildir = m; files = s }
  written m name (s, false) =
      renamed m name (F.rename s (path_of m name tmp) (path_of m (cur_name name) cur))

  abbrev pub write_named : F.State → Str → Option Str × Maildir → Written
  write_named s contents (none, m) = record { name = none; maildir = m; files = s }
  write_named s contents (some name, m) =
      written m name (F.write_file s (path_of m name tmp) contents)

  -- `Write`
  unfoldable pub write : Machine → Maildir → F.State → Str → Written
  unfolding next_unique_name bytes
  write on m s contents = write_named s contents (next_unique_name on m)

  -- `ReadBytes`
  unfoldable pub read_bytes : Maildir → F.State → Str → Subdir → Option Str
  read_bytes m s name subdir = F.read_file s (path_of m name subdir)

  -- `Remove`
  unfoldable pub remove_file : Maildir → F.State → Str → Subdir → F.State × Bool
  remove_file m s name subdir = F.remove s (path_of m name subdir)

  -- `List`
  unfoldable pub list_files : Maildir → F.State → Subdir → Option (List Info)
  list_files m s subdir = F.list s m.path subdir

  abbrev made_or : (F.State → F.State × Bool) → F.State × Made → F.State × Bool
  made_or rest (s, refused) = (s, true)
  made_or rest (s, made) = rest s
  made_or rest (s, existed) = rest s

  -- The loop of `Create`.
  unfoldable pub make_all : Maildir → List Subdir → F.State → F.State × Bool
  make_all m [] s = (s, false)
  make_all m (d ∷ ds) s = made_or (make_all m ds) (F.mkdir s m.path d)

  -- `Create`
  unfoldable pub create : Maildir → F.State → F.State × Bool
  unfolding make_all
  create m s = make_all m (top ∷ cur ∷ new ∷ tmp ∷ meta ∷ []) s
