-- ===== src/Tests/Outputs.antt =====
-- The arguments of a reload, and the newlines of a summary.
use failmail.Base.{
  arith, ◌≡◌, refl, true, none, List, [], ◌∷◌, ◌++◌, Str, bytes, contains, has_prefix,
}
use failmail.Reload.{
  Kept, try_reload, started, try_reload_lem, filter_args, reload_args, no_socket_arg,
  new_socket_arg,
}
use failmail.Render.{normalize_newlines, normalize_from, crlf_from, normalize_newlines_lem}

abbrev arguments : List Str
arguments = bytes "--receiver" ∷ bytes "--socket-fd" ∷ bytes "7" ∷ bytes "--sender" ∷ []

drops_socket :
    reload_args arguments ≡ bytes "--receiver" ∷ bytes "--sender" ∷ bytes "--socket-fd=3" ∷ []
unfolding reload_args filter_args contains has_prefix bytes
drops_socket = refl

abbrev lines : Str
lines = bytes "a" ++ 10 ∷ (bytes "b" ++ 13 ∷ 10 ∷ [])

adds_returns : normalize_newlines lines ≡ bytes "a" ++ 13 ∷ 10 ∷ (bytes "b" ++ 13 ∷ 10 ∷ [])
unfolding normalize_newlines normalize_from bytes
adds_returns = refl

normalize_newlines_lem_example :
    (crlf_from none (normalize_newlines lines) ≡ true)
    × (normalize_newlines (normalize_newlines lines) ≡ normalize_newlines lines)
normalize_newlines_lem_example = normalize_newlines_lem lines

try_reload_lem_example :
    (kept : List Str) × (no_socket_arg kept ≡ true)
    × Kept arguments kept
    × (try_reload true 7 (bytes "failmail") arguments
        ≡ started (record {
          program = bytes "failmail";
          args = kept ++ new_socket_arg ∷ [];
          extra_file = 7;
        }))
    × (try_reload true 7 (bytes "failmail") (kept ++ new_socket_arg ∷ [])
        ≡ try_reload true 7 (bytes "failmail") arguments)
try_reload_lem_example = try_reload_lem 7 (bytes "failmail") arguments (omega arith)
