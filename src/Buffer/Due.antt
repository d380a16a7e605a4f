-- ===== src/Buffer/Due.antt =====
-- Which batches the second loop of `Flush` takes out.
use failmail.Base.{
  ◌≡◌, refl, ap, sym, ◌∙◌, Bool, true, false, not, ◌&&◌, ◌||◌, Option, none, some, List, [], ◌∷◌,
  arith, if◌then◌else◌, is_none, Option-cases, lookup, lookup-remove, Bool-cases, inl, inr,
}
use failmail.Buffer.{
  RecipientKey, key_beq, key_beq_iff, key_eq, Stored, Batches, remove_batch, needs_flush, Request,
  Pass, answered, Flusher, visit, send_due, Expressions, Buffer, flush_stored, gather,
}
use failmail.Buffer.Removes.{is_due}

-- The maps agree on one key.
pub record Agree (k : RecipientKey) (b b' : Batches) : Type 0 where
  pub same_first : lookup k b'.first ≡ lookup k b.first
  pub same_last : lookup k b'.last ≡ lookup k b.last
  pub same_messages : lookup k b'.messages ≡ lookup k b.messages

answered-Agree :
    (p : Pass) (key k : RecipientKey) (msgs : List Stored) (b : Bool)
    → key_beq key k ≡ false
    → Agree k p.batches (answered p key msgs b).batches
unfolding remove_batch
answered-Agree p key k msgs true h = record {
  same_first = refl;
  same_last = refl;
  same_messages = refl;
}
answered-Agree p key k msgs false h = record {
  same_first = rw lookup-remove (rw h refl);
  same_last = rw lookup-remove (rw h refl);
  same_messages = rw lookup-remove (rw h refl);
}

pub visit-Agree :
    (f : Flusher) (p : Pass) (key k : RecipientKey) (o : Option (List Stored))
    → key_beq key k ≡ false
    → Agree k p.batches (visit f p key o).batches
visit-Agree f p key k none h = record { same_first = refl; same_last = refl; same_messages = refl }
visit-Agree f p key k (some msgs) h = elim (Bool-cases (is_due f p.batches key)) [
  | inl e ↦ rw e (answered-Agree p key k msgs _ h)
  | inr e ↦ rw e (record { same_first = refl; same_last = refl; same_messages = refl })
]

abbrev pub mem_key : RecipientKey → List RecipientKey → Bool
mem_key k [] = false
mem_key k (j ∷ js) = key_beq j k || mem_key k js

-- No key is visited twice.
abbrev pub distinct : List RecipientKey → Bool
distinct [] = true
distinct (k ∷ ks) = not (mem_key k ks) && distinct ks

send_due_elsewhere :
    (f : Flusher) (p : Pass) (k : RecipientKey) (order : List RecipientKey)
    → mem_key k order ≡ false
    → lookup k (send_due f p order).batches.messages ≡ lookup k p.batches.messages
unfolding send_due
send_due_elsewhere f p k [] h = refl
send_due_elsewhere f p k (key ∷ order) h =
    send_due_elsewhere f (visit f p key (lookup key p.batches.messages)) k order (ground arith)
    ∙ (visit-Agree f p key k (lookup key p.batches.messages) (ground arith)).same_messages

-- The batch is due, and the answer to its request is no error.
abbrev pub leaves : Flusher → Batches → RecipientKey → Option (List Stored) → Bool
leaves f b key none = false
leaves f b key (some msgs) =
    is_due f b key && not (f.fails (record { recipient = key; batch = msgs }))

leaves-Agree :
    (f : Flusher) (k : RecipientKey) (b b' : Batches)
    → Agree k b b'
    → leaves f b' k (lookup k b'.messages) ≡ leaves f b k (lookup k b.messages)
unfolding needs_flush
leaves-Agree f k b b' a = rw (a.same_messages) (go (lookup k b.messages))
  where
    go : (o : Option (List Stored)) → leaves f b' k o ≡ leaves f b k o
    go none = refl
    go (some msgs) = rw (a.same_first, a.same_last) refl

visit_self :
    (f : Flusher) (p : Pass) (key k : RecipientKey) (o : Option (List Stored))
    → key_beq key k ≡ true
    → lookup k p.batches.messages ≡ o
    → lookup k (visit f p key o).batches.messages ≡ (if leaves f p.batches key o then none else o)
unfolding remove_batch
visit_self f p key k none h e = e
visit_self f p key k (some msgs) h e = elim (Bool-cases (is_due f p.batches key)) [
  | inl due ↦ rw due (go (f.fails (record { recipient = key; batch = msgs })))
  | inr later ↦ rw later e
]
  where
    go :
        (b : Bool)
        → lookup k (answered p key msgs b).batches.messages ≡ (if not b then none else some msgs)
    go true = e
    go false = rw lookup-remove (rw h refl)

-- The second loop of `Flush` takes out exactly the batches that are due and whose request is
-- answered without an error; every other batch stays as it is.
pub send_due_lem :
    (f : Flusher) (p : Pass) (k : RecipientKey) (order : List RecipientKey)
    → distinct order ≡ true
    → lookup k (send_due f p order).batches.messages ≡ (
        if mem_key k order && leaves f p.batches k (lookup k p.batches.messages)
        then none
        else lookup k p.batches.messages)
unfolding send_due
send_due_lem f p k [] d = refl
send_due_lem f p k (key ∷ order) d = elim (Bool-cases (key_beq key k)) [
  | inl y ↦
      let e = (key_beq_iff key k).0 y in
      let o = lookup key p.batches.messages in
      send_due_elsewhere f (visit f p key o) k order (ground (arith, key_beq_iff key k))
      ∙ visit_self f p key k o y (sym (ap (λ x. lookup x p.batches.messages) e))
      ∙ rw (y, e) refl
  | inr n ↦
      let next = visit f p key (lookup key p.batches.messages) in
      let agree = visit-Agree f p key k (lookup key p.batches.messages) n in
      send_due_lem f next k order (ground arith)
      ∙ rw (n, leaves-Agree f k p.batches next.batches agree, agree.same_messages) refl
]

leaves-forced :
    (f : Flusher) (b : Batches) (k : RecipientKey) (o : Option (List Stored))
    → f.force ≡ true
    → ((r : Request) → f.fails r ≡ false)
    → (if leaves f b k o then none else o) ≡ none
leaves-forced f b k none force sends = refl
leaves-forced f b k (some msgs) force sends =
    rw (force, sends (record { recipient = k; batch = msgs })) refl

-- A forced `Flush`, as on shutdown, whose requests are all answered without an error leaves no batch,
-- when it goes through all the batches there are.
pub flush_forced :
    (e : Expressions) (f : Flusher) (order : List RecipientKey) (b : Buffer) (stored : List Stored)
    (k : RecipientKey)
    → f.force ≡ true
    → ((r : Request) → f.fails r ≡ false)
    → distinct order ≡ true
    → (is_none (lookup k (gather e b.batches stored).messages) ≡ false → mem_key k order ≡ true)
    → lookup k (flush_stored e f order b stored).0.batches.messages ≡ none
unfolding flush_stored
flush_forced e f order b stored k force sends d visited =
    let start : Pass = record {
      batches = gather e b.batches stored;
      to_remove = [];
      to_keep = [];
      sent = [];
    } in
    let o = lookup k start.batches.messages in
    send_due_lem f start k order d ∙ elim (Option-cases o) [
      | inl absent ↦ rw absent (ground arith)
      | inr (msgs, there) ↦
          rw (visited (ap is_none there)) (leaves-forced f start.batches k o force sends)
    ]
