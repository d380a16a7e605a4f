-- ===== src/Tests/Parsing.antt =====
-- The parsers of parse/ and parser.go on concrete lines.
use failmail.Base.{
  ℕ, zero, suc, arith, ◌≤◌, ◌⊎◌, length, take, drop, ◌≡◌, refl, true, Option, none, some, List, [],
  ◌∷◌, ◌++◌, Str, bytes, eq_str, to_lower,
}
use failmail.Parse.{
  Node, node, no_children, child, nil, text_of, children_of, find_child, Parser, Heap, parse,
  parse_regexp, leaf, series, ref, Answer, then_by, done, label, get,
}
use failmail.Parse.Build.{exactly, iliteral}
use failmail.Parse.Consume.{Splits}
use failmail.Parse.Total.{Total, literal-Answers, parse_lem}
use failmail.Parse.Labels.{gives}
use failmail.Parse.Words.{allows}
use failmail.Regex.Matches.{Matches}
use failmail.Parse.Regexps.{parse_regexp_lem}
use failmail.Smtp.{octet, snum, smtp_heap, smtp_parser}
use failmail.Smtp.Octets.{IsOctet, snum-IsOctet}
use failmail.Smtp.Commands.{IsCommand, smtp_parser-IsCommand}
use failmail.Smtp.Total.{smtp_parser_total}

abbrev text_at : Option Node → Option Str
text_at none = none
text_at (some n) = some (text_of n)

abbrev texts : Option (Option Node) → List (Option Str)
texts (some (some n)) = text_at (get n (bytes "command")) ∷ text_at (get n (bytes "path")) ∷ []
texts _ = []

abbrev crlf : Str
crlf = 13 ∷ 10 ∷ []

parses_mail :
    texts (smtp_parser (bytes "Mail FROM: <a.b@x.org>" ++ crlf))
    ≡ some (bytes "Mail") ∷ some (bytes "a.b@x.org") ∷ []
unfolding smtp_parser find_child eq_str bytes
parses_mail = refl

refuses_no_path : smtp_parser (bytes "MAIL FROM: a" ++ crlf) ≡ some none
unfolding smtp_parser bytes
refuses_no_path = refl

abbrev quit_node : Node
quit_node =
    node (bytes "QUIT" ++ crlf)
      (child (bytes "command") (node (bytes "QUIT") no_children nil) no_children) nil

parses_quit : smtp_parser (bytes "QUIT" ++ crlf) ≡ some (some quit_node)
unfolding smtp_parser bytes
parses_quit = refl

smtp_parser-IsCommand_example : IsCommand quit_node
smtp_parser-IsCommand_example = smtp_parser-IsCommand (bytes "QUIT" ++ crlf) parses_quit

smtp_parser_total_example : (n : Option Node) × (smtp_parser (bytes "QUIT") ≡ some n)
smtp_parser_total_example = smtp_parser_total (bytes "QUIT")

-- A small grammar: a greeting under a label, and a full stop.
abbrev greeting : Parser
greeting =
    series
      (then_by (label (bytes "word") (iliteral (bytes "Hi"))) (then_by (exactly (bytes ".")) done))

abbrev no_heap : Heap
no_heap i = exactly []

abbrev greeting_node : Node
greeting_node =
    node (bytes "hI.") (child (bytes "word") (node (bytes "hI") no_children nil) no_children) nil

parses_greeting : parse 3 no_heap greeting (bytes "hI.!") ≡ some (bytes "!", some greeting_node)
unfolding parse iliteral exactly bytes
parses_greeting = refl

no_heap-Total : (i : ℕ) → Total no_heap 2 (ref i)
unfolding exactly parse
no_heap-Total i zero s h = absurd (omega arith)
no_heap-Total i (suc zero) s h = absurd (omega arith)
no_heap-Total i (suc (suc f)) s h = literal-Answers [] true s

parse_lem_example :
    (a : Answer) × (parse 30 no_heap greeting (bytes "hI.!") ≡ some a)
    × Splits true (bytes "hI.!") a
unfolding iliteral exactly bytes
parse_lem_example =
    parse_lem true no_heap 2 30 greeting (bytes "hI.!") (λ i. refl) (λ i. refl) no_heap-Total refl
      refl refl (omega arith)

gives_word : gives (bytes "word") greeting ≡ true
unfolding eq_str bytes
gives_word = refl

allows_word : allows (bytes "word") (eq_str (bytes "hi")) greeting ≡ true
unfolding iliteral exactly to_lower eq_str bytes
allows_word = refl

finds_word :
    find_child (bytes "word") (children_of greeting_node) ≡ some (node (bytes "hI") no_children nil)
unfolding find_child eq_str bytes
finds_word = refl

parse_regexp_lem_example :
    (((m : ℕ) → ¬ Matches octet (take m (bytes "2560")))
      × (parse_regexp octet (bytes "2560") ≡ some (bytes "2560", none)))
    ⊎ ((n : ℕ) × (n ≤ length (bytes "2560"))
        × Matches octet (take n (bytes "2560"))
        × ((m : ℕ) → m ≤ length (bytes "2560") → Matches octet (take m (bytes "2560")) → m ≤ n)
        × (parse_regexp octet (bytes "2560")
            ≡ some (drop n (bytes "2560"), some (leaf (take n (bytes "2560"))))))
parse_regexp_lem_example = parse_regexp_lem octet (bytes "2560")

reads_two_digits :
    parse 1 smtp_heap snum (bytes "2560") ≡ some (bytes "60", some (leaf (bytes "25")))
unfolding parse snum bytes
reads_two_digits = refl

snum-IsOctet_example :
    (parse 1 smtp_heap snum (bytes "2560") ≡ some (bytes "2560", none))
    ⊎ ((n : ℕ) × (parse 1 smtp_heap snum (bytes "2560")
          ≡ some (drop n (bytes "2560"), some (leaf (take n (bytes "2560")))))
        × IsOctet (take n (bytes "2560"))
        × ((m : ℕ) → m ≤ length (bytes "2560") → Matches octet (take m (bytes "2560")) → m ≤ n))
snum-IsOctet_example = snum-IsOctet 0 smtp_heap (bytes "2560")
