-- ===== src/Parse/Build.antt =====
-- parse/parse.go: the functions that build parsers from parsers.
use failmail.Base.{ℕ, zero, suc, true, false, List, [], ◌∷◌, Str, to_lower}
use failmail.Parse.{Parser, Parsers, done, then_by, series, omit, literal}

unfoldable pub parsers : List Parser → Parsers
parsers [] = done
parsers (p ∷ ps) = then_by p (parsers ps)

-- `append(p.Parsers, parsers...)`, of the `Add` methods.
unfoldable pub add : Parsers → Parsers → Parsers
add done qs = qs
add (then_by p ps) qs = then_by p (add ps qs)

unfoldable pub iliteral : Str → Parser
iliteral lit = literal (to_lower lit) false

unfoldable pub exactly : Str → Parser
exactly lit = literal lit true

unfoldable pub repeat_parsers : ℕ → Parser → Parsers
repeat_parsers zero p = done
repeat_parsers (suc times) p = then_by p (repeat_parsers times p)

unfoldable pub repeat : ℕ → Parser → Parser
unfolding repeat_parsers
repeat times p = series (repeat_parsers times p)

unfoldable pub surrounding : Str → Str → Parser → Parser
unfolding parsers exactly
surrounding start end p = series (parsers (omit (exactly start) ∷ p ∷ omit (exactly end) ∷ []))

-- `for _, p := range parsers`, once a parser has been added.
unfoldable pub separate_rest : Str → Parsers → Parsers
unfolding exactly
separate_rest str done = done
separate_rest str (then_by p ps) = then_by (exactly str) (then_by p (separate_rest str ps))

unfoldable pub separate : Str → Parsers → Parsers
unfolding separate_rest
separate str done = done
separate str (then_by p ps) = then_by p (separate_rest str ps)

unfoldable pub separating : Str → List Parser → Parser
unfolding separate parsers
separating str ps = series (separate str (parsers ps))
