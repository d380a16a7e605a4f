-- ===== src/Session/Credentials.antt =====
-- session.go: which credentials `ValidCredentials` accepts.
use failmail.Base.{
  ◌≡◌, refl, ap, sym, ◌∙◌, ◌↔◌, true, some, List, [], ◌∷◌, ◌++◌, arith, Str, eq_str_iff,
  eq_str_refl, split, lacks, split-at, split-end, separated, separated-split, lacks-split, All,
  append-nil,
}
use failmail.Session.{PlainAuth, check_parts, valid_credentials}

-- A text without a zero byte, and the user name and the password, each behind one.
abbrev pub login : PlainAuth → Str → Str
login a z = z ++ 0 ∷ (a.username ++ 0 ∷ a.password)

check_parts_lem :
    (a : PlainAuth) (parts : List Str)
    → check_parts a parts ≡ some true
    → All (λ p. lacks 0 p ≡ true) parts
    → (z : Str) × (lacks 0 z ≡ true) × (parts ≡ z ∷ a.username ∷ a.password ∷ [])
check_parts_lem a (z ∷ u ∷ p ∷ []) h (hz, rest) =
    (z, hz, ground (arith, h, eq_str_iff u a.username, eq_str_iff p a.password))
check_parts_lem a [] h l = cc
check_parts_lem a (z ∷ []) h l = cc
check_parts_lem a (z ∷ u ∷ []) h l = cc
check_parts_lem a (z ∷ u ∷ p ∷ q ∷ r) h l = cc

-- `ValidCredentials` accepts a token exactly where it is an authorization identity, the user name
-- and the password, with a zero byte between them; the configured two hold no zero byte.
pub valid_credentials_lem :
    (a : PlainAuth) (token : Str)
    → lacks 0 a.username ≡ true
    → lacks 0 a.password ≡ true
    → (valid_credentials a token ≡ some true)
      ↔ ((z : Str) × (lacks 0 z ≡ true) × (token ≡ login a z))
unfolding valid_credentials
valid_credentials_lem a token hu hp = (
  λ h.
      let (z, hz, parts) = check_parts_lem a (split token (0 ∷ [])) h (lacks-split 0 token) in
      (z, hz, accepted z parts),
  λ (z, hz, e).
      rw (e, split-at 0 z _ hz, split-at 0 a.username _ hu, split-end 0 a.password hp)
        (rw (eq_str_refl a.username, eq_str_refl a.password) refl),
)
  where
    accepted :
        (z : Str) → split token (0 ∷ []) ≡ z ∷ a.username ∷ a.password ∷ [] → token ≡ login a z
    accepted z parts =
        ground
          (arith, sym (separated-split 0 token) ∙ ap (separated 0) parts, append-nil a.password)
