-- ===== src/Smtp/Total.antt =====
-- parser.go: the recursive rules of the grammar, and the fuel of `SMTPParser`.
use failmail.Base.{
  ℕ, zero, suc, ◌+◌, ◌*◌, ◌≤◌, ◌<◌, ◌≡◌, refl, true, false, Option, none, some, [], arith, Str,
  length,
}
use failmail.Regex.{Re, nullable}
use failmail.Parse.{
  Outcome, Node, no_children, Parser, done, then_by, any, series, literal, regexp, ref, Heap, parse,
  parse_series, parse_any,
}
use failmail.Parse.Consume.{fits}
use failmail.Parse.Eats.{regexp-shorter, parse_le}
use failmail.Parse.Total.{
  Answers, and_then-Answers, literal-Answers, regexp-Answers, Total, parse-Answers,
}
use failmail.Smtp.{smtp_heap, commands, smtp, smtp_fuel, smtp_parser}

-- The shape of `domain` and `dotString`: an item, a literal and the rule again, or an item.
abbrev chain_body : Re → Str → ℕ → Parser
chain_body re lit i = any (
    then_by (series (then_by (regexp re) (then_by (literal lit true) (then_by (ref i) done))))
      (then_by (regexp re) done))

module _ (heap : Heap) (well : (i : ℕ) → fits false (heap i) ≡ true) (re : Re) (lit : Str) (i : ℕ)
    (body : heap i ≡ chain_body re lit i) (reads : nullable re ≡ false) where
  -- The call of the rule inside itself, on a shorter text.
  chain_series :
      (f : ℕ) (s : Str)
      → 1 + 3 * length s ≤ f
      → ((g : ℕ) (t : Str)
          → length t < length s
          → 4 + 3 * length t ≤ g
          → Answers (parse g heap (ref i) t))
      → Answers (
          parse_series
            (parse f heap)
            (then_by (regexp re) (then_by (literal lit true) (then_by (ref i) done)))
            s
            s
            []
            no_children)
  unfolding parse_series parse
  chain_series zero s h ih = absurd (omega arith)
  chain_series (suc f) s h ih = and_then-Answers _ _ (regexp-Answers re s) λ rest. elim [
    | none ↦ λ e. tt
    | some n ↦ λ e.
        let less = regexp-shorter re s reads e in
        and_then-Answers _ _ (literal-Answers lit true rest) λ rest'. elim [
          | none ↦ λ e'. tt
          | some m ↦ λ e'.
              let le = parse_le heap well (suc f) (literal lit true) rest refl e' in
              and_then-Answers _ _ (ih (suc f) rest' (omega arith) (omega arith))
                λ rest''. elim [ none ↦ λ e''. tt | some k ↦ λ e''. tt ]
        ]
  ]

  chain-Total :
      (m f : ℕ) (s : Str) → length s < m → 4 + 3 * length s ≤ f → Answers (parse f heap (ref i) s)
  unfolding parse parse_any
  chain-Total zero f s l h = absurd (omega arith)
  chain-Total (suc m) zero s l h = absurd (omega arith)
  chain-Total (suc m) (suc zero) s l h = absurd (omega arith)
  chain-Total (suc m) (suc (suc zero)) s l h = absurd (omega arith)
  chain-Total (suc m) (suc (suc (suc f))) s l h = rw body (
      and_then-Answers _ _
        (chain_series f s (omega arith) λ g t less k. chain-Total m g t (omega arith) k)
        λ rest. elim [
          | none ↦ λ e.
              and_then-Answers _ _ (regexp-Answers re s)
                λ rest'. elim [ none ↦ λ e'. tt | some n ↦ λ e'. tt ]
          | some n ↦ λ e. tt
        ])

smtp-well : (i : ℕ) → fits false (smtp_heap i) ≡ true
unfolding smtp_heap
smtp-well zero = refl
smtp-well (suc zero) = refl
smtp-well (suc (suc i)) = refl

empty-Answers : (f i : ℕ) (s : Str) → 2 ≤ f → Answers (parse f smtp_heap (ref (suc (suc i))) s)
unfolding parse parse_any smtp_heap
empty-Answers zero i s h = absurd (omega arith)
empty-Answers (suc zero) i s h = absurd (omega arith)
empty-Answers (suc (suc f)) i s h = tt

smtp-refs : (i : ℕ) → Total smtp_heap 4 (ref i)
unfolding smtp_heap nullable
smtp-refs zero f s h =
    chain-Total smtp_heap smtp-well _ _ 0 refl refl (suc (length s)) f s (omega arith) h
smtp-refs (suc zero) f s h =
    chain-Total smtp_heap smtp-well _ _ 1 refl refl (suc (length s)) f s (omega arith) h
smtp-refs (suc (suc i)) f s h = empty-Answers f i s (omega arith)

-- The parser object answers on every text, with the fuel that the model gives it.
smtp-Answers : (s : Str) → Answers (parse (smtp_fuel s) smtp_heap smtp s)
unfolding smtp
smtp-Answers s =
    parse-Answers smtp_heap smtp-well 4 smtp-refs (smtp_fuel s) (any commands) s refl refl
      (omega arith)

-- `SMTPParser` returns on every line, with a node or with nil.
pub smtp_parser_total : (s : Str) → (n : Option Node) × (smtp_parser s ≡ some n)
unfolding smtp_parser
smtp_parser_total s = go (parse (smtp_fuel s) smtp_heap smtp s) (smtp-Answers s)
  where
    go :
        (o : Outcome)
        → Answers o
        → (n : Option Node) × ((elim o [ none ↦ none | some (rest, m) ↦ some m ]) ≡ some n)
    go none a = absurd a
    go (some (rest, n)) a = (n, refl)
