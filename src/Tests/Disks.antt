-- ===== src/Tests/Disks.antt =====
-- A store on a concrete file system, and the names of a Maildir.
use failmail.Base.{
  ◌≡◌, ◌≢◌, refl, ap, sym, ◌∙◌, Bool, true, false, Option, none, some, List, [], ◌∷◌, ◌++◌, Str,
  bytes, eq_str, length, take, drop, take-length, drop-length, lookup, insert, remove,
  lookup-insert, lookup-remove, decimal, digits,
}
use failmail.Message.{Received, recipients}
use failmail.Buffer.{file}
use failmail.Maildir.{
  FilePath, FileSystem, IsLawful, made, path_beq, path_beq_iff, path_eq, Maildir, Machine,
  next_unique_name, write,
}
use failmail.Maildir.Names.{after_calls, next_unique_name_lem}
use failmail.Disk.{Metadata, Library, add_to_disk, read_from_disk, write_metadata, metadata_of}
use failmail.Disk.Calls.{IsBacked}
use failmail.Disk.Backed.{Call, add_call, remove_call, run_disk, run_disk-IsBacked}
use failmail.Disk.Writer.{Job}
use failmail.Disk.ReadBack.{kept_as, add_to_disk-read_from_disk}

abbrev pub Tree : Type 0
Tree = List (FilePath × Str)

abbrev rename_found : Tree → FilePath → FilePath → Option Str → Tree × Bool
rename_found s p q none = (s, true)
rename_found s p q (some text) = (insert q text (remove p s), false)

abbrev remove_found : Tree → FilePath → Option Str → Tree × Bool
remove_found s p none = (s, true)
remove_found s p (some text) = (remove p s, false)

-- Files in memory, without times.
abbrev pub in_memory : FileSystem
in_memory = record {
  State = Tree;
  mkdir = λ s root d. (s, made);
  write_file = λ s p text. (insert p text s, false);
  rename = λ s p q. rename_found s p q (lookup p s);
  remove = λ s p. remove_found s p (lookup p s);
  chtimes = λ s p t. (s, false);
  read_file = λ s p. lookup p s;
  list = λ s root d. some [];
}

pub path_beq_refl : (p : FilePath) → path_beq p p ≡ true
path_beq_refl p = (path_beq_iff p p).1 refl

renamed_done :
    (s : Tree) (p q : FilePath) (o : Option Str)
    → o ≡ lookup p s
    → (rename_found s p q o).1 ≡ false
    → lookup q (rename_found s p q o).0 ≡ lookup p s
renamed_done s p q none e h = cc
renamed_done s p q (some text) e h = rw (lookup-insert, path_beq_refl q) e

renamed_refused :
    (s : Tree) (p q : FilePath) (o : Option Str)
    → (rename_found s p q o).1 ≡ true
    → (r : FilePath) → lookup r (rename_found s p q o).0 ≡ lookup r s
renamed_refused s p q none h r = refl
renamed_refused s p q (some text) h r = cc

renamed_elsewhere :
    (s : Tree) (p q r : FilePath) (o : Option Str)
    → path_beq p r ≡ false
    → path_beq q r ≡ false
    → lookup r (rename_found s p q o).0 ≡ lookup r s
renamed_elsewhere s p q r none h k = refl
renamed_elsewhere s p q r (some text) h k = rw (lookup-insert, k, lookup-remove, h) refl

removed_done :
    (s : Tree) (p : FilePath) (o : Option Str)
    → (remove_found s p o).1 ≡ false
    → lookup p (remove_found s p o).0 ≡ none
removed_done s p none h = cc
removed_done s p (some text) h = rw (lookup-remove, path_beq_refl p) refl

removed_refused :
    (s : Tree) (p : FilePath) (o : Option Str)
    → (remove_found s p o).1 ≡ true
    → (q : FilePath) → lookup q (remove_found s p o).0 ≡ lookup q s
removed_refused s p none h q = refl
removed_refused s p (some text) h q = cc

removed_elsewhere :
    (s : Tree) (p q : FilePath) (o : Option Str)
    → path_beq p q ≡ false
    → lookup q (remove_found s p o).0 ≡ lookup q s
removed_elsewhere s p q none h = refl
removed_elsewhere s p q (some text) h = rw (lookup-remove, h) refl

pub in_memory-IsLawful : IsLawful in_memory
in_memory-IsLawful = record {
  write_done = λ s p text h. rw (lookup-insert, path_beq_refl p) refl;
  write_elsewhere = λ s p text q h. rw (lookup-insert, h) refl;
  rename_done = λ s p q h. renamed_done s p q (lookup p s) refl h;
  rename_refused = λ s p q h r. renamed_refused s p q (lookup p s) h r;
  rename_elsewhere = λ s p q r h k. renamed_elsewhere s p q r (lookup p s) h k;
  remove_done = λ s p h. removed_done s p (lookup p s) h;
  remove_refused = λ s p h q. removed_refused s p (lookup p s) h q;
  remove_elsewhere = λ s p q h. removed_elsewhere s p q (lookup p s) h;
  chtimes_reads = λ s p t q. refl;
}

-- Metadata of one recipient without redirection, as the length of the sender, the sender, and the
-- recipient; any other is an error.
abbrev encode : Str → List Str → List Str → Option Str
encode from (to ∷ []) [] = some (length from ∷ (from ++ to))
encode from _ _ = none

abbrev decode : Str → Option Metadata
decode [] = none
decode (n ∷ s) =
    some (record { envelope_from = take n s; envelope_to = drop n s ∷ []; redirected_to = [] })

abbrev pub library : Library
library = record {
  marshal = λ md. encode md.envelope_from md.envelope_to md.redirected_to;
  unmarshal = decode;
  read_message = λ t. some (record { header = λ k. []; date = none; body = some t });
}

pub decode-encode :
    (from : Str) (to red : List Str) (text : Str)
    → encode from to red ≡ some text
    → decode text ≡ some (record { envelope_from = from; envelope_to = to; redirected_to = red })
decode-encode from (to ∷ []) [] text h =
    sym (ap (λ o. elim o as (λ _. Option Metadata) [ none ↦ none | some t ↦ decode t ]) h)
    ∙ rw (take-length from to, drop-length from to) refl
decode-encode from [] red text h = cc
decode-encode from (to ∷ []) (r ∷ red) text h = cc
decode-encode from (to ∷ to' ∷ tos) red text h = cc

abbrev pub machine : Machine
machine = record { host = some (bytes "h"); unix_time = 12; pid = 7 }

abbrev pub maildir : Maildir
maildir = record { path = bytes "incoming"; message_counter = 0 }

abbrev pub letter : Received
letter = record {
  from = bytes "a";
  to = bytes "b" ∷ [];
  payload = bytes "hello";
  parsed = none;
  redirected_to = [];
}

first_name : (next_unique_name machine maildir).0 ≡ some (bytes "12.7_1.h")
unfolding next_unique_name bytes decimal digits
first_name = refl

nothing_there : IsBacked in_memory maildir.path []
unfolding lookup
nothing_there name h = cc

-- A message is added and taken out again, and a name is taken out that is not there.
abbrev calls : List Call
calls =
    remove_call (bytes "x") ∷ add_call machine 5 letter ∷ remove_call (bytes "12.7_1.h:2,S") ∷ []

run_disk-IsBacked_example :
    IsBacked in_memory maildir.path (run_disk in_memory library maildir [] calls).1
run_disk-IsBacked_example =
    run_disk-IsBacked in_memory in_memory-IsLawful library maildir [] calls nothing_there

add_to_disk-read_from_disk_example :
    (name : Str) × ((add_to_disk in_memory library machine 5 maildir [] letter).id
      ≡ some (file name))
    × (read_from_disk in_memory library maildir
          (add_to_disk in_memory library machine 5 maildir [] letter).files
          name
        ≡ some (
            kept_as letter (record { header = λ k. []; date = none; body = some (bytes "hello") })))
    × ((other : Str)
        → eq_str name other ≡ false
        → read_from_disk in_memory library maildir
            (add_to_disk in_memory library machine 5 maildir [] letter).files
            other
          ≡ read_from_disk in_memory library maildir [] other)
unfolding add_to_disk write next_unique_name write_metadata metadata_of recipients lookup insert
    path_beq eq_str
add_to_disk-read_from_disk_example =
    add_to_disk-read_from_disk in_memory in_memory-IsLawful library machine 5 maildir [] letter
      (record { header = λ k. []; date = none; body = some (bytes "hello") })
      (λ text h. decode-encode letter.from (recipients letter) letter.redirected_to text h) refl
      refl

next_unique_name_lem_example : bytes "12.7_1.h" ≢ bytes "12.7_2.h"
unfolding next_unique_name bytes decimal digits after_calls
next_unique_name_lem_example =
    next_unique_name_lem maildir machine [] machine (bytes "12.7_1.h") (bytes "12.7_2.h") refl refl

-- The second request has two recipients, which the library cannot encode.
abbrev jobs : List Job
jobs =
    record { on = machine; now = 5; message = letter }
    ∷ record { on = machine; now = 6; message = record letter { to = bytes "b" ∷ bytes "c" ∷ [] } }
    ∷ record { on = machine; now = 7; message = letter }
    ∷ []
