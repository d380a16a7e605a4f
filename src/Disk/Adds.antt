-- ===== src/Disk/Adds.antt =====
-- What one `Add` of a `DiskStore` leaves alone, and the name that it gives.
use failmail.Base.{
  ℕ, suc, ◌≤◌, ◌≡◌, refl, sym, ◌∙◌, Bool, true, false, Option, none, some, arith, Str, eq_str,
  eq_str_iff, Bool-cases, inl, inr,
}
use failmail.Message.{Received}
use failmail.Buffer.{file}
use failmail.Maildir.{
  FileSystem, IsLawful, FilePath, path_beq, Subdir, cur, tmp, meta, path_beq-apart, subdir_beq,
  Maildir, Machine, cur_name, unique_name, name_on, next_unique_name, Written, written, renamed,
  write_named, write,
}
use mathlib.Core.List.{append_cancel_right}
use failmail.Maildir.Names.{unique_name-injective}
use failmail.Maildir.Wrote.{path_beq-other}
use failmail.Disk.{
  Library, Added, timed, write_marshalled, write_metadata, describe, finish_add, add_to_disk,
}

-- What is seen of a path changes only by an operation on it.
pub record IsLocal (F : FileSystem) (X : Type 0) (see : F.State → FilePath → X) : Type 0 where
  pub write_elsewhere :
      (s : F.State) (p : FilePath) (text : Str) (q : FilePath)
      → path_beq p q ≡ false
      → see (F.write_file s p text).0 q ≡ see s q
  pub rename_elsewhere :
      (s : F.State) (p q r : FilePath)
      → path_beq p r ≡ false
      → path_beq q r ≡ false
      → see (F.rename s p q).0 r ≡ see s r
  pub chtimes_elsewhere :
      (s : F.State) (p : FilePath) (t : ℕ) (q : FilePath)
      → path_beq p q ≡ false
      → see (F.chtimes s p t).0 q ≡ see s q

pub reading-IsLocal : (F : FileSystem) → IsLawful F → IsLocal F (Option Str) F.read_file
reading-IsLocal F laws = record {
  write_elsewhere = laws.write_elsewhere;
  rename_elsewhere = laws.rename_elsewhere;
  chtimes_elsewhere = λ s p t q apart. laws.chtimes_reads s p t q;
}

-- The Maildir of a path with this counter.
abbrev pub place : Str → ℕ → Maildir
place path k = record { path = path; message_counter = k }

module _ (F : FileSystem) (X : Type 0) (see : F.State → FilePath → X) (kept : IsLocal F X see)
    (L : Library) (path other : Str) where
  abbrev pub at : Subdir → Str → F.State → X
  at d name s = see s (record { root = path; subdir = d; name = name })

  -- Both files of a name are seen as they were.
  abbrev pub Same : F.State → F.State → Type 0
  Same s t = (at meta other t ≡ at meta other s) × (at cur other t ≡ at cur other s)

  pub after : {s t u : F.State} → Same s t → Same t u → Same s u
  after (a, b) (c, d) = (c ∙ a, d ∙ b)

  tmp-Same :
      (s : F.State) (name text : Str)
      → Same s (F.write_file s (record { root = path; subdir = tmp; name = name }) text).0
  unfolding subdir_beq
  tmp-Same s name text = (
    kept.write_elsewhere s _ text _ (path_beq-apart _ _ refl),
    kept.write_elsewhere s _ text _ (path_beq-apart _ _ refl),
  )

  rename-Same :
      (s : F.State) (name name' : Str)
      → eq_str name' other ≡ false
      → Same s
          (F.rename s
            (record { root = path; subdir = tmp; name = name })
            (record { root = path; subdir = cur; name = name' })).0
  unfolding subdir_beq
  rename-Same s name name' apart = (
    kept.rename_elsewhere s _ _ _ (path_beq-apart _ _ refl) (path_beq-apart _ _ refl),
    kept.rename_elsewhere s _ _ _ (path_beq-apart _ _ refl)
        (path_beq-other path cur name' other apart),
  )

  timed-Same :
      (k : ℕ) (s : F.State) (name : Str) (now : ℕ) (out : F.State × Bool)
      → eq_str name other ≡ false
      → Same s out.0
      → Same s (timed F L (place path k) name now out).0
  unfolding subdir_beq
  timed-Same k s name now (t, true) apart h = h
  timed-Same k s name now (t, false) apart h = after h (
    kept.chtimes_elsewhere t _ now _ (path_beq-other path meta name other apart),
    kept.chtimes_elsewhere t _ now _ (path_beq-apart _ _ refl),
  )

  metadata-Same :
      (k : ℕ) (s : F.State) (name : Str) (now : ℕ) (o : Option Str)
      → eq_str name other ≡ false
      → Same s (write_marshalled F L (place path k) s name now o).0
  unfolding subdir_beq
  metadata-Same k s name now none apart = (refl, refl)
  metadata-Same k s name now (some text) apart = timed-Same k s name now _ apart (
    kept.write_elsewhere s _ text _ (path_beq-other path meta name other apart),
    kept.write_elsewhere s _ text _ (path_beq-apart _ _ refl),
  )

-- A name that a Maildir gave with a counter that was at most this.
pub record Given (k : ℕ) (name : Str) : Type 0 where
  pub time : ℕ
  pub pid : ℕ
  pub counter : ℕ
  pub host : Str
  pub is : name ≡ cur_name (unique_name time pid counter host)
  pub old : counter ≤ k

Given-apart :
    (k time pid : ℕ) (host other : Str)
    → Given k other
    → eq_str (cur_name (unique_name time pid (suc k) host)) other ≡ false
Given-apart k time pid host other g =
    elim (Bool-cases (eq_str (cur_name (unique_name time pid (suc k) host)) other)) [
      | inr e ↦ e
      | inl e ↦
          let same = (eq_str_iff _ other).0 e ∙ g.is in
          let (t, p, c, h) =
            unique_name-injective time g.time pid g.pid (suc k) g.counter host g.host
              (append_cancel_right _ _ _ same) in
          absurd (omega (arith, c, g.old))
    ]

module _ (F : FileSystem) (X : Type 0) (see : F.State → FilePath → X) (kept : IsLocal F X see)
    (L : Library) (path : Str) where
  abbrev pub Stays : ℕ → F.State → F.State → Type 0
  Stays k s t = (other : Str) → Given k other → Same F X see kept L path other s t

  -- What one `Add` does, from a Maildir with the counter `k`.
  pub record Adds (k : ℕ) (s : F.State) (a : Added F) : Type 0 where
    pub counter : ℕ
    pub placed : a.maildir ≡ place path counter
    pub later : k ≤ counter
    pub same : Stays k s a.files
    pub named : (name : Str) → a.id ≡ some (file name) → Given counter name

  finish_add-Adds :
      (k : ℕ) (s : F.State) (time pid : ℕ) (host : Str) (out : F.State × Bool)
      → Stays k s out.0
      → Adds k s
          (finish_add F L (place path (suc k)) (cur_name (unique_name time pid (suc k) host)) out)
  finish_add-Adds k s time pid host (t, error) same = record {
    counter = suc k;
    placed = refl;
    later = omega arith;
    same = same;
    named = λ name e. record {
      time = time;
      pid = pid;
      counter = suc k;
      host = host;
      is = let h : cur_name (unique_name time pid (suc k) host) ≡ name = cc in sym h;
      old = omega arith;
    };
  }

  -- Nothing was written, or nothing that is kept.
  refused-Adds :
      (k k' : ℕ) (s t : F.State)
      → k ≤ k'
      → Stays k s t
      → Adds k s (record { id = none; error = true; maildir = place path k'; files = t })
  refused-Adds k k' s t le same = record {
    counter = k';
    placed = refl;
    later = le;
    same = same;
    named = λ name e. cc;
  }

  module _ (now : ℕ) (msg : Received) where
    abbrev described : Written F → Added F
    described w = describe F L now msg w.maildir w.files w.name

    renamed-Adds :
        (k : ℕ) (s : F.State) (time pid : ℕ) (host : Str) (out : F.State × Bool)
        → Stays k s out.0
        → Adds k s
            (described (renamed F (place path (suc k)) (unique_name time pid (suc k) host) out))
    unfolding write_metadata
    renamed-Adds k s time pid host (t, true) same = refused-Adds k (suc k) s t (omega arith) same
    renamed-Adds k s time pid host (t, false) same = finish_add-Adds k s time pid host _ λ other g.
        after F X see kept L path other (same other g) (
          metadata-Same F X see kept L path other (suc k) t _ now _
            (Given-apart k time pid host other g))

    written-Adds :
        (k : ℕ) (s : F.State) (time pid : ℕ) (host : Str) (out : F.State × Bool)
        → Stays k s out.0
        → Adds k s
            (described (written F (place path (suc k)) (unique_name time pid (suc k) host) out))
    written-Adds k s time pid host (t, true) same = refused-Adds k (suc k) s t (omega arith) same
    written-Adds k s time pid host (t, false) same = renamed-Adds k s time pid host _ λ other g.
        after F X see kept L path other (same other g)
          (rename-Same F X see kept L path other t _ _ (Given-apart k time pid host other g))

    pub add_to_disk-Adds :
        (on : Machine) (k : ℕ) (s : F.State)
        → Adds k s (add_to_disk F L on now (place path k) s msg)
    unfolding add_to_disk write next_unique_name
    add_to_disk-Adds on k s = go on.host
      where
        go :
            (o : Option Str)
            → Adds k s (described (write_named F s msg.payload (name_on on (place path k) o)))
        go none = refused-Adds k k s s (omega arith) λ other g. (refl, refl)
        go (some host) =
            written-Adds k s on.unix_time on.pid host _
              λ other g. tmp-Same F X see kept L path other s _ msg.payload
