-- ===== src/Reload.antt =====
-- reload.go: `TryReload`, up to the start of the new process.
use failmail.Base.{
  ℕ, ◌==◌, ◌≢◌, ◌≡◌, refl, sym, ap, ◌∙◌, Bool, true, false, not, ◌&&◌, List, [], ◌∷◌, ◌++◌, arith,
  if◌then◌else◌, Str, bytes, contains, has_prefix, append-nil, Bool-cases, inl, inr,
}

abbrev pub is_socket_arg : Str → Bool
is_socket_arg arg = contains arg (bytes "-socket-fd")

-- The loop over `os.Args[1:]`, with `consumeNextArg`.
unfoldable pub filter_args : Bool → List Str → List Str
unfolding bytes contains
filter_args consume [] = []
filter_args true (arg ∷ args) = filter_args false args
filter_args false (arg ∷ args) =
    let consumed = filter_args true args in
    let rest = filter_args false args in
    if not (is_socket_arg arg)
    then arg ∷ rest
    else if not (contains arg (bytes "="))
    then consumed
    else rest

abbrev pub new_socket_arg : Str
new_socket_arg = bytes "--socket-fd=3"

-- The arguments of the new process.
unfoldable pub reload_args : List Str → List Str
unfolding filter_args bytes
reload_args args = filter_args false args ++ new_socket_arg ∷ []

-- What `exec.Command` and its fields say, and the file that the new process is given as its first
-- extra one, which is 3 there.
pub record Command : Type 0 where
  pub program : Str
  pub args : List Str
  pub extra_file : ℕ

pub data Reload : Type 0 where
  unchanged no_socket : Reload
  started : Command → Reload

-- `TryReload`, with `os.Args` as the program's name and the arguments; starting the process is left
-- out, and with it the error that this may have.
unfoldable pub try_reload : Bool → ℕ → Str → List Str → Reload
unfolding reload_args
try_reload should_reload fd program args =
    if not should_reload
    then unchanged
    else if fd == 0
    then no_socket
    else started (record { program = program; args = reload_args args; extra_file = fd })

-- No argument is about the socket.
abbrev pub no_socket_arg : List Str → Bool
no_socket_arg [] = true
no_socket_arg (arg ∷ args) = not (is_socket_arg arg) && no_socket_arg args

filter_args-no_socket_arg :
    (consume : Bool) (args : List Str) → no_socket_arg (filter_args consume args) ≡ true
unfolding filter_args
filter_args-no_socket_arg true [] = refl
filter_args-no_socket_arg false [] = refl
filter_args-no_socket_arg true (arg ∷ args) = filter_args-no_socket_arg false args
filter_args-no_socket_arg false (arg ∷ args) =
    ground (arith, filter_args-no_socket_arg true args, filter_args-no_socket_arg false args)

filter_args-append :
    (args rest : List Str)
    → no_socket_arg args ≡ true
    → filter_args false (args ++ rest) ≡ args ++ filter_args false rest
unfolding filter_args
filter_args-append [] rest h = refl
filter_args-append (arg ∷ args) rest h =
    let ih = filter_args-append args rest (ground arith) in ground arith

filter_args-new_socket_arg : filter_args false (new_socket_arg ∷ []) ≡ []
unfolding filter_args contains has_prefix bytes
filter_args-new_socket_arg = refl

-- The arguments `kept` are those of `args` less those about the socket: one with an equals sign goes
-- alone, one without goes together with the argument behind it, which is its value.
pub data Kept : List Str → List Str → Type 0 where
  no_more : Kept [] []
  other :
      {arg : Str} {args kept : List Str}
      → is_socket_arg arg ≡ false
      → Kept args kept
      → Kept (arg ∷ args) (arg ∷ kept)
  joined :
      {arg : Str} {args kept : List Str}
      → is_socket_arg arg ≡ true
      → contains arg (bytes "=") ≡ true
      → Kept args kept
      → Kept (arg ∷ args) kept
  with_value :
      {arg value : Str} {args kept : List Str}
      → is_socket_arg arg ≡ true
      → contains arg (bytes "=") ≡ false
      → Kept args kept
      → Kept (arg ∷ value ∷ args) kept
  without_value :
      {arg : Str} → is_socket_arg arg ≡ true → contains arg (bytes "=") ≡ false → Kept (arg ∷ []) []

pub filter_args-Kept : (args : List Str) → Kept args (filter_args false args)
unfolding filter_args
filter_args-Kept [] = no_more
filter_args-Kept (arg ∷ []) = elim (Bool-cases (is_socket_arg arg)) [
  | inr own ↦ rw own (other own no_more)
  | inl socket ↦ elim (Bool-cases (contains arg (bytes "="))) [
    | inl equals ↦ rw (socket, equals) (joined socket equals no_more)
    | inr plain ↦ rw (socket, plain) (without_value socket plain)
  ]
]
filter_args-Kept (arg ∷ value ∷ args) =
    let rest = filter_args-Kept (value ∷ args) in
    let later = filter_args-Kept args in
    elim (Bool-cases (is_socket_arg arg)) [
      | inr own ↦ rw own (other own rest)
      | inl socket ↦ elim (Bool-cases (contains arg (bytes "="))) [
        | inl equals ↦ rw (socket, equals) (joined socket equals rest)
        | inr plain ↦ rw (socket, plain) (with_value socket plain later)
      ]
    ]

-- The new process is given one argument about the socket, the last one, and when it reloads in turn
-- it passes on the same arguments that it was given.
pub reload_args_lem :
    (args : List Str)
    → ((kept : List Str) × (no_socket_arg kept ≡ true)
        × Kept args kept
        × (reload_args args ≡ kept ++ new_socket_arg ∷ []))
      × (reload_args (reload_args args) ≡ reload_args args)
unfolding reload_args
reload_args_lem args =
    let clean = filter_args-no_socket_arg false args in
    (
      (filter_args false args, clean, filter_args-Kept args, refl),
      ap (λ x. x ++ new_socket_arg ∷ [])
          (filter_args-append (filter_args false args) (new_socket_arg ∷ []) clean
            ∙ ap (λ x. filter_args false args ++ x) filter_args-new_socket_arg
            ∙ append-nil (filter_args false args)),
    )

-- With a socket to pass on, a reload starts the same program with that socket as its first extra
-- file; its arguments are the old ones, in their order, less those about the socket (one with an
-- equals sign, or one without and its value behind it), and the new one behind them. From these
-- arguments a later reload makes the same command again.
pub try_reload_lem :
    (fd : ℕ) (program : Str) (args : List Str)
    → fd ≢ 0
    → (kept : List Str) × (no_socket_arg kept ≡ true)
      × Kept args kept
      × (try_reload true fd program args
          ≡ started
              (record { program = program; args = kept ++ new_socket_arg ∷ []; extra_file = fd }))
      × (try_reload true fd program (kept ++ new_socket_arg ∷ []) ≡ try_reload true fd program args)
unfolding try_reload
try_reload_lem fd program args open_fd =
    let socket : (fd == 0) ≡ false = ground arith in
    let ((kept, clean, less, e), again) = reload_args_lem args in
    let start =
      λ (as' : List Str). started (record { program = program; args = as'; extra_file = fd }) in
    (kept, clean, less, rw (socket, e) refl, rw socket (ap start (ap reload_args (sym e) ∙ again)))
