-- ===== src/Maildir/Names.antt =====
-- maildir.go: the names of `NextUniqueName`.
use failmail.Base.{
  ℕ, suc, ◌≤◌, ◌≡◌, ◌≢◌, refl, sym, ◌∙◌, Option, none, some, List, [], ◌∷◌, arith, Str, decimal,
  decimal_injective, lacks-decimal, cut_unique,
}
use failmail.Maildir.{Maildir, Machine, unique_name, name_on, next_unique_name}

pub unique_name-injective :
    (time time' pid pid' counter counter' : ℕ) (host host' : Str)
    → unique_name time pid counter host ≡ unique_name time' pid' counter' host'
    → (time ≡ time') × (pid ≡ pid') × (counter ≡ counter') × (host ≡ host')
unique_name-injective time time' pid pid' counter counter' host host' e =
    let (same_time, e') =
      cut_unique b'.' (decimal time) (decimal time') _ _ (lacks-decimal b'.' time refl)
        (lacks-decimal b'.' time' refl) e in
    let (same_pid, e'') =
      cut_unique b'_' (decimal pid) (decimal pid') _ _ (lacks-decimal b'_' pid refl)
        (lacks-decimal b'_' pid' refl) e' in
    let (same_counter, same_host) =
      cut_unique b'.' (decimal counter) (decimal counter') _ _ (lacks-decimal b'.' counter refl)
        (lacks-decimal b'.' counter' refl) e'' in
    (
      decimal_injective time time' same_time,
      decimal_injective pid pid' same_pid,
      decimal_injective counter counter' same_counter,
      same_host,
    )

-- The Maildir after some calls of `NextUniqueName`.
unfoldable pub after_calls : Maildir → List Machine → Maildir
unfolding next_unique_name
after_calls m [] = m
after_calls m (on ∷ calls) = after_calls (next_unique_name on m).1 calls

counter-next_unique_name :
    (on : Machine) (m : Maildir) → m.message_counter ≤ (next_unique_name on m).1.message_counter
unfolding next_unique_name
counter-next_unique_name on m = go on.host
  where
    go : (h : Option Str) → m.message_counter ≤ (name_on on m h).1.message_counter
    go none = omega arith
    go (some host) = omega arith

counter-after_calls :
    (m : Maildir) (calls : List Machine) → m.message_counter ≤ (after_calls m calls).message_counter
unfolding after_calls
counter-after_calls m [] = omega arith
counter-after_calls m (on ∷ calls) =
    omega
      (arith, counter-next_unique_name on m, counter-after_calls (next_unique_name on m).1 calls)

-- A name that was returned, by the counter at the call.
name_on-some :
    (on : Machine) (m : Maildir) (h : Option Str) (name : Str)
    → (name_on on m h).0 ≡ some name
    → (host : Str) × (name ≡ unique_name on.unix_time on.pid (suc m.message_counter) host)
      × ((name_on on m h).1.message_counter ≡ suc m.message_counter)
name_on-some on m none name e = cc
name_on-some on m (some host) name e = (host, ground (arith, e), refl)

-- The names that one Maildir gives never repeat: a name is not one of those given before, whatever
-- the clock, the host name and the process say, and whichever calls between the two have failed.
pub next_unique_name_lem :
    (m : Maildir) (on : Machine) (calls : List Machine) (on' : Machine) (name name' : Str)
    → (next_unique_name on m).0 ≡ some name
    → (next_unique_name on' (after_calls (next_unique_name on m).1 calls)).0 ≡ some name'
    → name ≢ name'
unfolding next_unique_name
next_unique_name_lem m on calls on' name name' e e' same =
    let m' = after_calls (next_unique_name on m).1 calls in
    let (host, is, counted) = name_on-some on m on.host name e in
    let (host', is', counted') = name_on-some on' m' on'.host name' e' in
    let (t, p, c, h) =
      unique_name-injective on.unix_time on'.unix_time on.pid on'.pid (suc m.message_counter)
        (suc m'.message_counter) host host' (sym is ∙ same ∙ is') in
    absurd (omega (arith, c, counted, counter-after_calls (next_unique_name on m).1 calls))
