-- ===== src/Buffer/Removes.antt =====
-- Which messages `Flush` removes from the store.
use failmail.Base.{
  ◌≡◌, refl, ◌∙◌, Bool, true, false, not, ◌&&◌, ◌||◌, Option, none, some, List, [], ◌∷◌, ◌++◌,
  arith, lookup, Bool-cases, inl, inr,
}
use failmail.Buffer.{
  RecipientKey, key_eq, MessageId, id_beq_iff, Stored, Batches, needs_flush, Request, Pass, ids,
  answered, Flusher, visit, send_due, mem_id, removals, Expressions, Buffer, flush_stored, gather,
}

-- Some request whose answer is `failed` holds the message.
unfoldable pub in_request : (Request → Bool) → Bool → MessageId → List Request → Bool
in_request fails failed i [] = false
in_request fails true i (r ∷ rs) = (fails r && mem_id i (ids r.batch)) || in_request fails true i rs
in_request fails false i (r ∷ rs) =
    (not (fails r) && mem_id i (ids r.batch)) || in_request fails false i rs

mem_id-append :
    (i : MessageId) (a b : List MessageId) → mem_id i (a ++ b) ≡ (mem_id i a || mem_id i b)
unfolding mem_id
mem_id-append i [] b = refl
mem_id-append i (j ∷ a) b = ground (arith, mem_id-append i a b)

in_request-append :
    (fails : Request → Bool) (failed : Bool) (i : MessageId) (a b : List Request)
    → in_request fails failed i (a ++ b)
      ≡ (in_request fails failed i a || in_request fails failed i b)
unfolding in_request
in_request-append fails failed i [] b = refl
in_request-append fails true i (r ∷ a) b = ground (arith, in_request-append fails true i a b)
in_request-append fails false i (r ∷ a) b = ground (arith, in_request-append fails false i a b)

mem_id-removals :
    (i : MessageId) (keep rem : List MessageId)
    → mem_id i (removals keep rem) ≡ (mem_id i rem && not (mem_id i keep))
unfolding mem_id removals
mem_id-removals i keep [] = refl
mem_id-removals i keep (j ∷ rem) =
    ground (arith, mem_id-removals i keep rem, mem_id-removals j keep rem, id_beq_iff j i)

-- The two sets of ids are those of the requests that failed, and of those that did not.
record Records (f : Flusher) (p : Pass) : Type 0 where
  keeps : (i : MessageId) → mem_id i p.to_keep ≡ in_request f.fails true i p.sent
  removes : (i : MessageId) → mem_id i p.to_remove ≡ in_request f.fails false i p.sent

answered-Records :
    (f : Flusher) (p : Pass) (key : RecipientKey) (msgs : List Stored) (b : Bool)
    → f.fails (record { recipient = key; batch = msgs }) ≡ b
    → Records f p
    → Records f (answered p key msgs b)
unfolding in_request
answered-Records f p key msgs true e r = record {
  keeps = λ i. ground (
    arith,
    mem_id-append i p.to_keep (ids msgs),
    in_request-append f.fails true i p.sent (record { recipient = key; batch = msgs } ∷ []),
    r.keeps i,
  );
  removes = λ i. ground (
    arith,
    in_request-append f.fails false i p.sent (record { recipient = key; batch = msgs } ∷ []),
    r.removes i,
  );
}
answered-Records f p key msgs false e r = record {
  keeps = λ i. ground (
    arith,
    in_request-append f.fails true i p.sent (record { recipient = key; batch = msgs } ∷ []),
    r.keeps i,
  );
  removes = λ i. ground (
    arith,
    mem_id-append i p.to_remove (ids msgs),
    in_request-append f.fails false i p.sent (record { recipient = key; batch = msgs } ∷ []),
    r.removes i,
  );
}

abbrev pub is_due : Flusher → Batches → RecipientKey → Bool
is_due f b key = f.force || needs_flush f.limits b f.now key

visit-Records :
    (f : Flusher) (p : Pass) (key : RecipientKey) (o : Option (List Stored))
    → Records f p
    → Records f (visit f p key o)
visit-Records f p key none r = r
visit-Records f p key (some msgs) r = elim (Bool-cases (is_due f p.batches key)) [
  | inl e ↦ rw e (answered-Records f p key msgs _ refl r)
  | inr e ↦ rw e r
]

send_due-Records :
    (f : Flusher) (p : Pass) (order : List RecipientKey)
    → Records f p
    → Records f (send_due f p order)
unfolding send_due
send_due-Records f p [] r = r
send_due-Records f p (key ∷ order) r =
    send_due-Records f (visit f p key (lookup key p.batches.messages)) order
      (visit-Records f p key (lookup key p.batches.messages) r)

-- `Flush` removes from the store exactly the messages that were in a request that was sent, and in
-- none whose sending failed.
pub flush_removes :
    (e : Expressions) (f : Flusher) (order : List RecipientKey) (b : Buffer) (stored : List Stored)
    (i : MessageId)
    → let effects = (flush_stored e f order b stored).1 in
      mem_id i effects.removed
      ≡ (in_request f.fails false i effects.sent && not (in_request f.fails true i effects.sent))
unfolding flush_stored mem_id in_request
flush_removes e f order b stored i =
    let start : Pass = record {
      batches = gather e b.batches stored;
      to_remove = [];
      to_keep = [];
      sent = [];
    } in
    let p = send_due f start order in
    let r = send_due-Records f start order (record { keeps = λ _. refl; removes = λ _. refl }) in
    mem_id-removals i p.to_keep p.to_remove ∙ rw (r.keeps i, r.removes i) refl
