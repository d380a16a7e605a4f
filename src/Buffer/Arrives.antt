-- ===== src/Buffer/Arrives.antt =====
-- messages.go: the batches of a message that is stored.
use failmail.Base.{
  ℕ, zero, suc, get_elem?, In, there, In-append_left, In-append_right, ◌≡◌, refl, sym, inl, inr,
  true, some, List, [], ◌∷◌, Str, Bool-cases,
}
use mathlib.Core.Path.{subst}
use failmail.Message.{recipients}
use failmail.Buffer.{RecipientKey, key_beq, key_beq_iff, Stored, Batches, Expressions, gather}
use failmail.Buffer.Gather.{IsAligned, batch_of, batch_of-gather, copies, copies_of, arrivals}

copies-In :
    (e : Expressions) (key : Str) (s : Stored) (to : Str) (tos : List Str) (i : ℕ)
    → get_elem? tos i ≡ some to
    → In s (copies e (record { key = key; recipient = e.normalize to }) key s tos)
copies-In e key s to [] i h = cc
copies-In e key s to (x ∷ tos) zero h =
    let same : x ≡ to = cc in
    let k : RecipientKey = record { key = key; recipient = e.normalize to } in
    let yes : key_beq (record { key = key; recipient = e.normalize x }) k ≡ true =
      rw same ((key_beq_iff k k).1 refl) in
    rw yes (record { index = 0; found = refl })
copies-In e key s to (x ∷ tos) (suc i) h =
    let k : RecipientKey = record { key = key; recipient = e.normalize to } in
    elim (Bool-cases (key_beq (record { key = key; recipient = e.normalize x }) k)) [
      | inl y ↦ rw y (there (copies-In e key s to tos i h))
      | inr n ↦ rw n (copies-In e key s to tos i h)
    ]

arrivals-In :
    (e : Expressions) (k : RecipientKey) (s : Stored) (ss : List Stored) (i : ℕ)
    → get_elem? ss i ≡ some s
    → In s (copies_of e k s (e.batch s.message))
    → In s (arrivals e k ss)
arrivals-In e k s [] i h here = cc
arrivals-In e k s (x ∷ ss) zero h here =
    let same : x ≡ s = cc in
    In-append_left _ (arrivals e k ss)
      (subst (λ y. In s (copies_of e k y (e.batch y.message))) (sym same) here)
arrivals-In e k s (x ∷ ss) (suc i) h here =
    In-append_right (copies_of e k x (e.batch x.message)) _ (arrivals-In e k s ss i h here)

pub gather-In :
    (e : Expressions) (b : Batches) (ss : List Stored) (s : Stored) (key to : Str)
    → IsAligned b
    → In s ss
    → e.batch s.message ≡ some key
    → In to (recipients s.message)
    → In s (batch_of (record { key = key; recipient = e.normalize to }) (gather e b ss))
gather-In e b ss s key to aligned found batched recipient =
    let k : RecipientKey = record { key = key; recipient = e.normalize to } in
    rw (batch_of-gather e b ss k aligned) (
      In-append_right (batch_of k b) _ (
        arrivals-In e k s ss found.index found.found (
          rw batched
            (copies-In e key s to (recipients s.message) recipient.index recipient.found))))
