-- ===== src/Buffer/Sends.antt =====
-- The requests that `Flush` sends.
use failmail.Base.{
  ◌≡◌, refl, ap, ◌∙◌, Bool, true, false, Option, none, some, List, [], ◌∷◌, arith, In,
  In-append_left, In-append_right, lookup, Bool-cases, inl, inr,
}
use mathlib.Core.Path.{subst}
use failmail.Buffer.{
  RecipientKey, key_beq, key_beq_iff, key_eq, needs_flush, Batches, Stored, Request, Pass, answered,
  Flusher, visit, send_due, Expressions, Buffer, flush_stored, gather, slice_or_nil,
}
use failmail.Buffer.Removes.{is_due}
use failmail.Buffer.Due.{mem_key, Agree, visit-Agree}
use failmail.Buffer.Gather.{batch_of}

answered-keeps_sent :
    (p : Pass) (key : RecipientKey) (msgs : List Stored) (b : Bool) (r : Request)
    → In r p.sent
    → In r (answered p key msgs b).sent
answered-keeps_sent p key msgs true r h = In-append_left p.sent _ h
answered-keeps_sent p key msgs false r h = In-append_left p.sent _ h

visit-keeps_sent :
    (f : Flusher) (p : Pass) (key : RecipientKey) (o : Option (List Stored)) (r : Request)
    → In r p.sent
    → In r (visit f p key o).sent
visit-keeps_sent f p key none r h = h
visit-keeps_sent f p key (some msgs) r h = elim (Bool-cases (is_due f p.batches key)) [
  | inl e ↦ rw e (answered-keeps_sent p key msgs _ r h)
  | inr e ↦ rw e h
]

send_due-keeps_sent :
    (f : Flusher) (order : List RecipientKey) (p : Pass) (r : Request)
    → In r p.sent
    → In r (send_due f p order).sent
unfolding send_due
send_due-keeps_sent f [] p r h = h
send_due-keeps_sent f (key ∷ order) p r h =
    send_due-keeps_sent f order _ r (visit-keeps_sent f p key (lookup key p.batches.messages) r h)

visit-sends :
    (f : Flusher) (p : Pass) (key : RecipientKey) (msgs : List Stored)
    → is_due f p.batches key ≡ true
    → In (record { recipient = key; batch = msgs }) (visit f p key (some msgs)).sent
visit-sends f p key msgs due = rw due (go (f.fails (record { recipient = key; batch = msgs })))
  where
    go : (b : Bool) → In (record { recipient = key; batch = msgs }) (answered p key msgs b).sent
    go true = In-append_right p.sent _ (record { index = 0; found = refl })
    go false = In-append_right p.sent _ (record { index = 0; found = refl })

-- Whether a batch is due depends on its own times.
is_due-Agree :
    (f : Flusher) (k : RecipientKey) (b b' : Batches) → Agree k b b' → is_due f b' k ≡ is_due f b k
unfolding needs_flush
is_due-Agree f k b b' a = rw (a.same_first, a.same_last) refl

-- A request is sent for each batch that is visited and due.
send_due-sends :
    (f : Flusher) (order : List RecipientKey) (p : Pass) (k : RecipientKey) (msgs : List Stored)
    → is_due f p.batches k ≡ true
    → mem_key k order ≡ true
    → lookup k p.batches.messages ≡ some msgs
    → In (record { recipient = k; batch = msgs }) (send_due f p order).sent
unfolding send_due
send_due-sends f [] p k msgs due h e = cc
send_due-sends f (key ∷ order) p k msgs due h e = elim (Bool-cases (key_beq key k)) [
  | inl y ↦
      let same : key ≡ k = (key_beq_iff key k).0 y in
      let here : lookup key p.batches.messages ≡ some msgs =
        ap (λ x. lookup x p.batches.messages) same ∙ e in
      send_due-keeps_sent f order _ _ (
        subst
          (λ x.
            In (record { recipient = x; batch = msgs })
              (visit f p key (lookup key p.batches.messages)).sent)
          same (rw here (visit-sends f p key msgs (ap (is_due f p.batches) same ∙ due))))
  | inr n ↦
      let agree = visit-Agree f p key k (lookup key p.batches.messages) n in
      send_due-sends f order (visit f p key (lookup key p.batches.messages)) k msgs
        (is_due-Agree f k p.batches _ agree ∙ due) (ground arith) (agree.same_messages ∙ e)
]

slice-In :
    (s : Stored) (o : Option (List Stored))
    → In s (slice_or_nil o)
    → (msgs : List Stored) × (o ≡ some msgs) × In s msgs
slice-In s none h = cc (h.found)
slice-In s (some msgs) h = (msgs, refl, h)

-- What is in a batch after the first loop of a `Flush` is in a request that is sent, when the
-- batch is due and visited.
pub flush_stored-sends :
    (e : Expressions) (f : Flusher) (order : List RecipientKey) (b : Buffer) (stored : List Stored)
    (k : RecipientKey) (s : Stored)
    → is_due f (gather e b.batches stored) k ≡ true
    → mem_key k order ≡ true
    → In s (batch_of k (gather e b.batches stored))
    → (msgs : List Stored) × In s msgs
      × In (record { recipient = k; batch = msgs }) (flush_stored e f order b stored).1.sent
unfolding flush_stored
flush_stored-sends e f order b stored k s due visited found =
    let (msgs, there_is, inside) =
      slice-In s (lookup k (gather e b.batches stored).messages) found in
    (
      msgs,
      inside,
      send_due-sends f order
          (record { batches = gather e b.batches stored; to_remove = []; to_keep = []; sent = [] })
          k msgs due visited there_is,
    )
