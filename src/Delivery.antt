-- ===== src/Delivery.antt =====
-- The way of a message through the parts: `handleConnection` of downstream.go, a `DiskStore` of
-- message_stores.go behind the channel, and `Flush` of messages.go.
use failmail.Base.{
  ℕ, ◌≤◌, ◌≡◌, refl, ap, ◌∙◌, Bool, true, false, Option, none, some, List, [], ◌∷◌, ◌++◌, arith, In,
  Str, length,
}
use failmail.Message.{Mail, Received, recipients}
use failmail.Session.{Session, Response, read_data}
use failmail.Session.Reply.{write_response}
use failmail.Connection.{
  Conn, Server, again, answered, send, storage_reply, hand_over, store_message, handle_data,
}
use failmail.Buffer.{
  file, Stored, Batches, Expressions, gather, RecipientKey, Flusher, Buffer, flush_stored,
}
use failmail.Buffer.Due.{mem_key}
use failmail.Buffer.Removes.{is_due}
use failmail.Buffer.Sends.{flush_stored-sends}
use failmail.Buffer.Gather.{IsAligned, batch_of}
use failmail.Maildir.{FileSystem, IsLawful, Maildir, Machine}
use failmail.Disk.{Library, add_to_disk, newer_on_disk}
use failmail.Disk.Writer.{Job, run_writer}
use failmail.Disk.ReadBack.{kept_as, IsReadable}
use failmail.Disk.Delivers.{IsListing, run_writer-gather}

-- A message goes to the channel, and the client gets the reply to it.
handle_data-answered :
    (server : Server) (c : Conn) (s : Session) (r : Response) (msg : Received) (rest : List Str)
    (err : Option Str)
    → read_data server.read_message c.session c.lines ≡ ((s, r, some msg), rest)
    → server.answers (length c.stored) ≡ answered err
    → handle_data server c
      ≡ some (
          again (
            send
              (record c {
                session = s;
                lines = rest;
                stored = c.stored ++ record msg { redirected_to = server.rewrite_all msg.to } ∷ [];
              })
              (storage_reply r err)))
unfolding handle_data store_message
handle_data-answered server c s r msg rest err read answers =
    ap
      (λ (o : (Session × Response × Option Received) × List Str).
        store_message server (record c { session = o.0.0; lines = o.1 }) o.0.1 o.0.2)
      read
    ∙ ap
        (hand_over (record c { session = s; lines = rest }) r
          (record msg { redirected_to = server.rewrite_all msg.to }))
        answers

-- The answer of a store to the connection.
abbrev pub storage_answer : Str → Bool → Option Str
storage_answer err true = some err
storage_answer err false = none

acknowledged :
    (r : Response) (err : Str) (error : Bool)
    → (storage_reply r (storage_answer err error)).code ≡ 250
    → error ≡ false
acknowledged r err true h = ground arith
acknowledged r err false h = refl

-- A message that a client has sent, and for which it is told 250 by a receiver with a DiskStore, is
-- put by the next `Flush` into the batch of each of its rewritten recipients, when the time of this
-- `Flush` is not behind the one that is kept, it lists and reads the store without an error,
-- and the message has a batch expression.
handle_data-gather :
    (F : FileSystem) (laws : IsLawful F) (listing : IsListing F) (L : Library)
    → (server : Server) (c : Conn) (s : Session) (r : Response) (msg : Received) (rest : List Str)
      (on : Machine) (now since : ℕ) (m : Maildir) (files : F.State) (err : Str) (jobs : List Job)
      (mail : Mail) (e : Expressions) (b : Batches) (stored : List Stored) (key to : Str)
    → let kept = record msg { redirected_to = server.rewrite_all msg.to } in
      let a = add_to_disk F L on now m files kept in
      read_data server.read_message c.session c.lines ≡ ((s, r, some msg), rest)
      → server.answers (length c.stored) ≡ answered (storage_answer err a.error)
      → (storage_reply r (storage_answer err a.error)).code ≡ 250
      → IsReadable F laws L kept
      → L.read_message msg.payload ≡ some mail
      → since ≤ listing.kept_time now
      → newer_on_disk F L m (run_writer F L a.maildir a.files jobs).files since ≡ (stored, false)
      → IsAligned b
      → e.batch (kept_as kept mail) ≡ some key
      → In to (recipients kept)
      → (c' : Conn) × (handle_data server c ≡ some (again c'))
        × (c'.writer ≡ (write_response c.writer r).1)
        × (c'.stored ≡ c.stored ++ kept ∷ [])
        × (name : Str) × (a.id ≡ some (file name))
        × In
            (record {
              id = file name;
              received = listing.kept_time now;
              message = kept_as kept mail;
            })
            (batch_of (record { key = key; recipient = e.normalize to }) (gather e b stored))
unfolding send
handle_data-gather F laws listing L server c s r msg rest on now since m files err jobs mail e b
      stored key to read answers told inverse parses le lists aligned batched recipient =
    let kept = record msg { redirected_to = server.rewrite_all msg.to } in
    let a = add_to_disk F L on now m files kept in
    let fine = acknowledged r err a.error told in
    let no_error : server.answers (length c.stored) ≡ answered none =
      answers ∙ ap (λ x. answered (storage_answer err x)) fine in
    let (name, id, found) =
      run_writer-gather F laws listing L (record { on = on; now = now; message = kept }) since m
        files jobs mail e b stored key to inverse parses fine le lists aligned batched recipient in
    (_, handle_data-answered server c s r msg rest none read no_error, refl, refl, name, id, found)

-- A message that a client has sent, and for which it is told 250 by a receiver with a DiskStore, is in
-- a request that the next `Flush` sends for each of its rewritten recipients, when the last `Flush` was
-- not after the time that the file system keeps of its arrival, net/mail reads its text and
-- encoding/json reads its metadata back as they were, this `Flush` lists and reads the store without an
-- error and visits the batch, which is due or forced, and the message has a batch expression; whatever
-- has been stored before it, and between it and this `Flush`.
pub handle_data-flush_stored :
    (F : FileSystem) (laws : IsLawful F) (listing : IsListing F) (L : Library)
    → (server : Server) (c : Conn) (s : Session) (r : Response) (msg : Received) (rest : List Str)
      (on : Machine) (now : ℕ) (m : Maildir) (files : F.State) (err : Str) (jobs : List Job)
      (mail : Mail) (e : Expressions) (f : Flusher) (order : List RecipientKey) (b : Buffer)
      (stored : List Stored) (key to : Str)
    → let kept = record msg { redirected_to = server.rewrite_all msg.to } in
      let a = add_to_disk F L on now m files kept in
      let k : RecipientKey = record { key = key; recipient = e.normalize to } in
      read_data server.read_message c.session c.lines ≡ ((s, r, some msg), rest)
      → server.answers (length c.stored) ≡ answered (storage_answer err a.error)
      → (storage_reply r (storage_answer err a.error)).code ≡ 250
      → IsReadable F laws L kept
      → L.read_message msg.payload ≡ some mail
      → b.last_flush ≤ listing.kept_time now
      → newer_on_disk F L m (run_writer F L a.maildir a.files jobs).files b.last_flush
        ≡ (stored, false)
      → IsAligned b.batches
      → e.batch (kept_as kept mail) ≡ some key
      → In to (recipients kept)
      → is_due f (gather e b.batches stored) k ≡ true
      → mem_key k order ≡ true
      → (c' : Conn) × (handle_data server c ≡ some (again c'))
        × (c'.writer ≡ (write_response c.writer r).1)
        × (c'.stored ≡ c.stored ++ kept ∷ [])
        × (name : Str) × (a.id ≡ some (file name))
        × (msgs : List Stored) × In
            (record {
              id = file name;
              received = listing.kept_time now;
              message = kept_as kept mail;
            })
            msgs
        × In (record { recipient = k; batch = msgs }) (flush_stored e f order b stored).1.sent
handle_data-flush_stored F laws listing L server c s r msg rest on now m files err jobs mail e f
      order b stored key to read answers told inverse parses le lists aligned batched recipient due
      visited =
    let (c', ends, writes, puts, name, id, found) =
      handle_data-gather F laws listing L server c s r msg rest on now b.last_flush m files err jobs
        mail e b.batches stored key to read answers told inverse parses le lists aligned batched
        recipient in
    let (msgs, inside, sends) =
      flush_stored-sends e f order b stored (record { key = key; recipient = e.normalize to })
        (record {
          id = file name;
          received = listing.kept_time now;
          message = kept_as (record msg { redirected_to = server.rewrite_all msg.to }) mail;
        })
        due visited found in
    (c', ends, writes, puts, name, id, msgs, inside, sends)
