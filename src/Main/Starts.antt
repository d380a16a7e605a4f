-- ===== src/Main/Starts.antt =====
-- What `main` runs once it has started.
use failmail.Base.{
  ℕ, ◌⊎◌, inl, inr, Bool-cases, ◌≡◌, refl, sym, Bool, true, false, not, ◌&&◌, ◌||◌, Option, none,
  some, is_none, is_empty, if◌then◌else◌, arith,
}
use failmail.Maildir.{FileSystem}
use failmail.Upstream.{Upstream}
use failmail.Session.{Security, PlainAuth}
use failmail.Config.{
  Config, Result, ok, err, Error, Setup, Listener, TlsConfig, AddressRewriter, config_auth,
  tls_config, config_rewriter, with_rewriter, make_receiver,
}
use failmail.Config.Make.{
  MessageStore, Summarizer, config_store, summarizing, make_writer, make_summarizer, make_sender,
}
use failmail.Main.{
  Pidfile, write_pidfile, Receiving, Parts, Start, fatal, panics, returns, runs, with_sender,
  with_summarizer, without_sender, start_sending, with_writer, with_listener, start_receiving,
  with_pidfile, start_main,
}

-- An expression of the parts that are configured does not compile: that of the rewriter, with both of
-- its options, or one of the three that the buffer has.
abbrev pub BadExpression : Setup → Config → Type 0
BadExpression u c =
    ((c.receiver ≡ true)
      × (is_empty c.rewrite_src ≡ false)
      × (is_empty c.rewrite_dest ≡ false)
      × (u.compiles c.rewrite_src ≡ false))
    ⊎ ((c.sender ≡ true)
        × ((u.parses_template c.batch_expr
              && u.parses_template c.group_expr
              && (is_empty c.summary_template || u.parses_template c.summary_template))
            ≡ false))

config_rewriter-none :
    (u : Setup) (c : Config)
    → config_rewriter u c ≡ none
    → (is_empty c.rewrite_src ≡ false)
      × (is_empty c.rewrite_dest ≡ false)
      × (u.compiles c.rewrite_src ≡ false)
unfolding config_rewriter
config_rewriter-none u c h = elim (Bool-cases (is_empty c.rewrite_src)) [
  | inl a ↦ elim (Bool-cases (is_empty c.rewrite_dest)) [
    | inl b ↦ absurd (ground arith)
    | inr b ↦ absurd (ground arith)
  ]
  | inr a ↦ elim (Bool-cases (is_empty c.rewrite_dest)) [
    | inl b ↦ absurd (ground arith)
    | inr b ↦ elim (Bool-cases (u.compiles c.rewrite_src)) [
      | inl e ↦ absurd (ground arith)
      | inr e ↦ (a, b, e)
    ]
  ]
]

make_receiver-none :
    (u : Setup) (c : Config) → make_receiver u c ≡ none → config_rewriter u c ≡ none
unfolding make_receiver
make_receiver-none u c h = go (config_auth c) (tls_config u c) (config_rewriter u c) h
  where
    go :
        (a : Result (Option PlainAuth)) (t : Result (Security × Option TlsConfig))
        (r : Option (Result AddressRewriter))
        → (elim a as (λ _. Option (Result Listener)) [
          | err e ↦ some (err e)
          | ok auth ↦ elim t as (λ _. Option (Result Listener)) [
            | err e ↦ some (err e)
            | ok tls ↦ with_rewriter u c auth tls r
          ]
        ])
          ≡ none
        → r ≡ none
    go (err e) t r h = cc
    go (ok a) (err e) r h = cc
    go (ok a) (ok t) none h = refl
    go (ok a) (ok t) (some r) h = cc

make_summarizer-none :
    (F : FileSystem) (u : Setup) (c : Config) (s : F.State)
    → make_summarizer F u c s ≡ none
    → (u.parses_template c.batch_expr
        && u.parses_template c.group_expr
        && (is_empty c.summary_template || u.parses_template c.summary_template))
      ≡ false
unfolding make_summarizer
make_summarizer-none F u c s h = go (config_store F c s) h
  where
    go :
        (o : Result MessageStore × F.State)
        → summarizing F u c o ≡ none
        → (u.parses_template c.batch_expr
            && u.parses_template c.group_expr
            && (is_empty c.summary_template || u.parses_template c.summary_template))
          ≡ false
    go (err e, s) h = cc
    go (ok store, s) h =
        elim (Bool-cases (u.parses_template c.batch_expr && u.parses_template c.group_expr)) [
          | inr e ↦ ground arith
          | inl e ↦ elim (Bool-cases (is_empty c.summary_template)) [
            | inl x ↦ absurd (ground arith)
            | inr x ↦ elim (Bool-cases (u.parses_template c.summary_template)) [
              | inl y ↦ absurd (ground arith)
              | inr y ↦ ground arith
            ]
          ]
        ]

module _ (F : FileSystem) (u : Setup) (c : Config) (p : Pidfile) where
  -- Why `main` stops with a fatal error: a part could not be made, there is none, or no pid file.
  pub data Fails : Type 0 where
    no_part : (c.receiver || c.sender) ≡ false → Fails
    no_pidfile : is_empty c.pidfile ≡ false → write_pidfile p ≡ false → Fails
    no_listener : (e : Error) → c.receiver ≡ true → make_receiver u c ≡ some (err e) → Fails
    no_writer :
        (e : Error) (s t : F.State) → c.receiver ≡ true → make_writer F c s ≡ (err e, t) → Fails
    no_summarizer :
        (e : Error) (s t : F.State)
        → c.sender ≡ true
        → make_summarizer F u c s ≡ some (err e, t)
        → Fails
    no_sender :
        (e : Error) (s t : F.State) → c.sender ≡ true → make_sender F c s ≡ (err e, t) → Fails

  -- The receiving part is there if it is configured, with the listener that was made for it.
  pub record Receives (r : Option Receiving) : Type 0 where
    pub configured : not (is_none r) ≡ c.receiver
    pub made : (x : Receiving) → r ≡ some x → make_receiver u c ≡ some (ok x.listener)

  -- `pid` says whether `main` has written a pid file.
  pub record Runs (pid : Bool) (parts : Parts) : Type 0 where
    pub receives : Receives parts.receiving
    pub sends : not (is_none parts.sending) ≡ c.sender
    pub some_part : (c.receiver || c.sender) ≡ true
    pub pidfile_written : parts.pidfile ≡ pid

  abbrev pub IsStart : Bool → Start → Type 0
  IsStart pid (fatal left) = (left ≡ pid) × Fails
  IsStart pid panics = BadExpression u c
  IsStart pid returns = ⊥
  IsStart pid (runs parts) = Runs pid parts

  with_sender-IsStart :
      (r : Option Receiving) (pid : Bool) (b : Summarizer) (o : Result (Upstream × ℕ) × F.State)
      (t : F.State)
      → Receives r
      → c.sender ≡ true
      → make_sender F c t ≡ o
      → IsStart pid (with_sender F u r pid b o)
  with_sender-IsStart r pid b (err e, s) t h e' made = (refl, no_sender e t s e' made)
  with_sender-IsStart r pid b (ok (upstream, failed), s) t h e made = record {
    receives = h;
    sends = rw e refl;
    some_part = ground arith;
    pidfile_written = refl;
  }

  with_summarizer-IsStart :
      (r : Option Receiving) (pid : Bool) (o : Option (Result Summarizer × F.State)) (t : F.State)
      → Receives r
      → c.sender ≡ true
      → make_summarizer F u c t ≡ o
      → IsStart pid (with_summarizer F u c r pid o)
  with_summarizer-IsStart r pid none t h e made = inr (e, make_summarizer-none F u c t made)
  with_summarizer-IsStart r pid (some (err x, s)) t h e made = (refl, no_summarizer x t s e made)
  with_summarizer-IsStart r pid (some (ok b, s)) t h e made =
      with_sender-IsStart r pid b (make_sender F c s) s h e refl

  without_sender-IsStart :
      (r : Option Receiving) (pid : Bool)
      → Receives r
      → c.sender ≡ false
      → IsStart pid (without_sender F u r pid)
  without_sender-IsStart none pid h e = (refl, no_part (ground (arith, h.configured)))
  without_sender-IsStart (some r) pid h e = record {
    receives = h;
    sends = rw e refl;
    some_part = ground (arith, h.configured);
    pidfile_written = refl;
  }

  start_sending-IsStart :
      (r : Option Receiving) (pid : Bool) (s : F.State)
      → Receives r
      → IsStart pid (start_sending F u c r pid s)
  start_sending-IsStart r pid s h = go c.sender refl
    where
      go :
          (b : Bool)
          → c.sender ≡ b
          → IsStart pid (
              if b
              then with_summarizer F u c r pid (make_summarizer F u c s)
              else without_sender F u r pid)
      go true e = with_summarizer-IsStart r pid (make_summarizer F u c s) s h e refl
      go false e = without_sender-IsStart r pid h e

  with_writer-IsStart :
      (l : Listener) (pid : Bool) (o : Result MessageStore × F.State) (t : F.State)
      → c.receiver ≡ true
      → make_writer F c t ≡ o
      → make_receiver u c ≡ some (ok l)
      → IsStart pid (with_writer F u c pid l o)
  with_writer-IsStart l pid (err e, s) t on failed made = (refl, no_writer e t s on failed)
  with_writer-IsStart l pid (ok store, s) t on stored made =
      start_sending-IsStart _ pid s (record { configured = sym on; made = λ x e. ground arith })

  with_listener-IsStart :
      (pid : Bool) (s : F.State) (o : Option (Result Listener))
      → c.receiver ≡ true
      → make_receiver u c ≡ o
      → IsStart pid (with_listener F u c pid s o)
  with_listener-IsStart pid s none on made =
      let (src, dest, bad) = config_rewriter-none u c (make_receiver-none u c made) in
      inl (on, src, dest, bad)
  with_listener-IsStart pid s (some (err e)) on made = (refl, no_listener e on made)
  with_listener-IsStart pid s (some (ok l)) on made =
      with_writer-IsStart l pid (make_writer F c s) s on refl made

  start_receiving-IsStart : (pid : Bool) (s : F.State) → IsStart pid (start_receiving F u c pid s)
  start_receiving-IsStart pid s = go c.receiver refl
    where
      go :
          (b : Bool)
          → c.receiver ≡ b
          → IsStart pid (
              if b
              then with_listener F u c pid s (make_receiver u c)
              else start_sending F u c none pid s)
      go true e = with_listener-IsStart pid s (make_receiver u c) e refl
      go false e =
          start_sending-IsStart none pid s (record { configured = sym e; made = λ x h. cc })

  with_pidfile-IsStart :
      (s : F.State)
      → IsStart (not (is_empty c.pidfile) && write_pidfile p) (with_pidfile F u c p s)
        × (is_empty c.pidfile ≡ false
            → write_pidfile p ≡ false
            → with_pidfile F u c p s ≡ fatal false)
  with_pidfile-IsStart s = go (is_empty c.pidfile) (write_pidfile p) refl refl
    where
      go :
          (none_set writes : Bool)
          → is_empty c.pidfile ≡ none_set
          → write_pidfile p ≡ writes
          → let start =
              if none_set
              then start_receiving F u c false s
              else if writes
              then start_receiving F u c true s
              else fatal false in
            IsStart (not none_set && writes) start
            × (none_set ≡ false → writes ≡ false → start ≡ fatal false)
      go true writes a b = (start_receiving-IsStart false s, λ h. cc)
      go false true a b = (start_receiving-IsStart true s, λ h k. cc)
      go false false a b = ((refl, no_pidfile a b), λ h k. refl)

  -- A `main` that has read its configuration, and is not asked for its version, does one of three. It
  -- stops with a fatal error, only where no part is configured, the pid file cannot be written, or the
  -- making of a configured part has an error. It panics, only where an expression of a configured part
  -- does not compile. Or it runs exactly the parts that are configured, of which there is one; the
  -- listener is that of `MakeReceiver`. It goes on only with the pid file that is configured, and a
  -- fatal error leaves this file behind once it is written.
  pub start_main-IsStart :
      (s : F.State)
      → c.version ≡ false
      → IsStart (not (is_empty c.pidfile) && write_pidfile p) (start_main F u (some false) c p s)
        × (is_empty c.pidfile ≡ false
            → write_pidfile p ≡ false
            → start_main F u (some false) c p s ≡ fatal false)
  unfolding start_main
  start_main-IsStart s current = simp current (with_pidfile-IsStart s)
