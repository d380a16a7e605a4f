-- ===== src/Configure/Lines.antt =====
-- How the parser of `ReadConfig` reads a line that `Write` has written.
use failmail.Base.{
  ℕ, suc, ◌≡◌, refl, ap, ◌∙◌, true, false, not, none, some, [], ◌∷◌, ◌++◌, ◌==◌, arith, Str, bytes,
  length, take-length, drop-length, lacks, eq_str, has_prefix,
}
use failmail.Regex.{Re, class, seq, longest_match, derive, join, choose, nullable, one_of, plus}
use failmail.Regex.Runs.{all_in, stops, longest_match-never, longest_match-star, longest_match-plus}
use failmail.Parse.{
  Node, node, leaf, nil, text_of, children_of, next_of, find_child, no_children, child, Outcome,
  parse, parse_regexp, parse_series, parse_any, parse_omit, parse_label, cut, merge, put_child,
  link, regexp, any, zero_or_more, label, Run, Parser, literal,
}
use failmail.Parse.Build.{parsers, exactly}
use failmail.Configure.{
  char, blanks, to_newline, is_word, comment, blank, continuation_line, line, no_refs,
}

parse_regexp-reads :
    (r : Re) (u rest : Str)
    → longest_match r (u ++ rest) ≡ some (length u)
    → parse_regexp r (u ++ rest) ≡ some (rest, some (leaf u))
unfolding parse_regexp
parse_regexp-reads r u rest h =
    ap
      (λ o. elim o as (λ _. Outcome) [ none ↦ some (u ++ rest, none) | some n ↦ cut (u ++ rest) n ])
      h
    ∙ rw (take-length u rest, drop-length u rest) refl

-- `[ \t]*=[ \t]*` on what stands between a name and a value.
longest_match-equals :
    (rest : Str)
    → stops (one_of (32 ∷ 9 ∷ [])) rest ≡ true
    → longest_match (seq blanks (seq (char b'=') blanks)) (bytes " = " ++ rest) ≡ some 3
unfolding longest_match derive join choose nullable bytes
longest_match-equals rest h = rw (longest_match-star (one_of (32 ∷ 9 ∷ [])) [] rest refl h) refl

-- What `parseSeries` reads of a line, from its five parts.
pub record LineRead (o : Outcome) (key value rest : Str) : Type 0 where
  pub found : Node
  pub reads : o ≡ some (rest, some found)
  pub last : next_of found ≡ nil
  pub key_found : find_child (bytes "key") (children_of found) ≡ some (leaf key)
  pub value_found : find_child (bytes "value") (children_of found) ≡ some (leaf value)

-- Without a continuation line nothing more is read.
parse-no_continuation :
    (n : ℕ) (rest : Str)
    → stops (λ c. c == b'>') rest ≡ true
    → parse (suc (suc (suc (suc n)))) no_refs (zero_or_more continuation_line) rest
      ≡ some (rest, some (node [] no_children nil))
unfolding parse continuation_line parsers exactly has_prefix bytes link
parse-no_continuation n [] h = refl
parse-no_continuation n (c ∷ rest) h =
    let other : (c == b'>') ≡ false = ground arith in rw other refl

parse-labelled :
    (n : ℕ) (l : Str) (r : Re) (u rest : Str)
    → longest_match r (u ++ rest) ≡ some (length u)
    → parse (suc (suc n)) no_refs (label l (regexp r)) (u ++ rest)
      ≡ some (rest, some (node u (child l (leaf u) no_children) nil))
unfolding parse
parse-labelled n l r u rest h =
    ap (λ o. parse_label l o (u ++ rest)) (parse_regexp-reads r u rest h)

-- A series of five parts that are read one behind the other.
series-five :
    (run : Run) (p1 p2 p3 p4 p5 : Parser) (s r1 r2 r3 r4 r5 : Str) (c1 c2 c3 c4 c5 : Node)
    → run p1 s ≡ some (r1, some c1)
    → run p2 r1 ≡ some (r2, some c2)
    → run p3 r2 ≡ some (r3, some c3)
    → run p4 r3 ≡ some (r4, some c4)
    → run p5 r4 ≡ some (r5, some c5)
    → parse_series run (parsers (p1 ∷ p2 ∷ p3 ∷ p4 ∷ p5 ∷ [])) s s [] no_children
      ≡ some (
        r5,
        some (
            node
              ((((([] ++ text_of c1) ++ text_of c2) ++ text_of c3) ++ text_of c4) ++ text_of c5)
              (merge
                (merge
                  (merge
                    (merge (merge no_children (children_of c1)) (children_of c2))
                    (children_of c3))
                  (children_of c4))
                (children_of c5))
              nil),
      )
unfolding parse_series parsers
series-five run p1 p2 p3 p4 p5 s r1 r2 r3 r4 r5 c1 c2 c3 c4 c5 h1 h2 h3 h4 h5 =
    rw (h1, h2, h3, h4, h5) refl

-- A line of a configuration file, with what comes behind it.
abbrev pub line_of : Str → Str → Str → Str
line_of key value rest = key ++ (bytes " = " ++ (value ++ 10 ∷ rest))

all_in-lacks : (u : Str) → lacks 10 u ≡ true → all_in (λ c. not (c == 10)) u ≡ true
all_in-lacks [] h = refl
all_in-lacks (c ∷ u) h = ground (arith, all_in-lacks u)

stops-value :
    (value rest : Str)
    → stops (one_of (32 ∷ 9 ∷ [])) value ≡ true
    → stops (one_of (32 ∷ 9 ∷ [])) (value ++ 10 ∷ rest) ≡ true
stops-value [] rest h = refl
stops-value (c ∷ value) rest h = h

parse-line :
    (n k : ℕ) (ks value rest : Str)
    → is_word k ≡ true
    → all_in is_word ks ≡ true
    → lacks 10 value ≡ true
    → stops (one_of (32 ∷ 9 ∷ [])) value ≡ true
    → stops (λ c. c == b'>') rest ≡ true
    → LineRead
        (parse (suc (suc (suc (suc (suc n))))) no_refs line (line_of (k ∷ ks) value rest))
        (k ∷ ks)
        value
        rest
unfolding parse line parsers exactly bytes merge put_child eq_str find_child has_prefix
parse-line n k ks value rest word words clean plain last =
    let behind = value ++ 10 ∷ rest in
    let key =
      parse-labelled (suc (suc n)) (bytes "key") (plus (class is_word)) (k ∷ ks)
        (bytes " = " ++ behind)
        (longest_match-plus is_word k ks (bytes " = " ++ behind) word words refl) in
    let equals =
      parse_regexp-reads (seq blanks (seq (char b'=') blanks)) (bytes " = ") behind
        (longest_match-equals behind (stops-value value rest plain)) in
    let value' =
      parse-labelled (suc (suc n)) (bytes "value") to_newline value (10 ∷ rest) (
        longest_match-star (λ c. not (c == 10)) value (10 ∷ rest) (all_in-lacks value clean)
          refl) in
    record {
      found =
          node (((((k ∷ ks) ++ bytes " = ") ++ value) ++ 10 ∷ []) ++ [])
            (child (bytes "key") (leaf (k ∷ ks)) (child (bytes "value") (leaf value) no_children))
            nil;
      reads =
          series-five (parse (suc (suc (suc (suc n)))) no_refs)
            (label (bytes "key") (regexp (plus (class is_word))))
            (regexp (seq blanks (seq (char b'=') blanks)))
            (label (bytes "value") (regexp to_newline)) (literal (10 ∷ []) true)
            (zero_or_more continuation_line) (line_of (k ∷ ks) value rest) (bytes " = " ++ behind)
            behind (10 ∷ rest) rest rest _ _ _ _ _ key equals value' refl
            (parse-no_continuation n rest last);
      last = refl;
      key_found = refl;
      value_found = refl;
    }

-- A byte of a name starts no comment and no empty line.
comment-none :
    (k : ℕ) (rest : Str)
    → is_word k ≡ true
    → longest_match (seq blanks (seq (char b'#') (seq to_newline (char 10)))) (k ∷ rest) ≡ none
unfolding longest_match derive join choose nullable
comment-none k rest word =
    let a : (k == 32) ≡ false = ground arith in
    let b : (k == 9) ≡ false = ground arith in
    let c : (k == 35) ≡ false = ground arith in rw (a, b, c, longest_match-never rest) refl

blank-none :
    (k : ℕ) (rest : Str) → is_word k ≡ true → longest_match (seq blanks (char 10)) (k ∷ rest) ≡ none
unfolding longest_match derive join choose nullable
blank-none k rest word =
    let a : (k == 32) ≡ false = ground arith in
    let b : (k == 9) ≡ false = ground arith in
    let c : (k == 10) ≡ false = ground arith in rw (a, b, c, longest_match-never rest) refl

parse_regexp-none :
    (r : Re) (s : Str) → longest_match r s ≡ none → parse_regexp r s ≡ some (s, none)
unfolding parse_regexp
parse_regexp-none r s h =
    ap (λ o. elim o as (λ _. Outcome) [ none ↦ some (s, none) | some n ↦ cut s n ]) h

-- The third of three parsers is taken where the others fail.
any-third :
    (run : Run) (p q r : Parser) (s rest : Str) (found : Node)
    → run p s ≡ some (s, none)
    → run q s ≡ some (s, none)
    → run r s ≡ some (rest, some found)
    → parse_any run (parsers (p ∷ q ∷ r ∷ [])) s ≡ some (rest, some found)
unfolding parse_any parsers
any-third run p q r s rest found h k l = rw (h, k, l) refl

abbrev pub item : Parser
item = any (parsers (comment ∷ blank ∷ line ∷ []))

pub parse-item :
    (n k : ℕ) (ks value rest : Str)
    → is_word k ≡ true
    → all_in is_word ks ≡ true
    → lacks 10 value ≡ true
    → stops (one_of (32 ∷ 9 ∷ [])) value ≡ true
    → stops (λ c. c == b'>') rest ≡ true
    → LineRead
        (parse (suc (suc (suc (suc (suc (suc n)))))) no_refs item (line_of (k ∷ ks) value rest))
        (k ∷ ks)
        value
        rest
unfolding parse comment blank
parse-item n k ks value rest word words clean plain last =
    let read = parse-line n k ks value rest word words clean plain last in
    let s = line_of (k ∷ ks) value rest in
    let tail = ks ++ (bytes " = " ++ (value ++ 10 ∷ rest)) in
    record {
      found = read.found;
      reads =
          any-third (parse (suc (suc (suc (suc (suc n))))) no_refs) comment blank line s rest
            read.found
            (ap (λ o. parse_omit o s)
              (parse_regexp-none (seq blanks (seq (char b'#') (seq to_newline (char 10)))) s
                (comment-none k tail word)))
            (ap (λ o. parse_omit o s)
              (parse_regexp-none (seq blanks (char 10)) s (blank-none k tail word)))
            read.reads;
      last = read.last;
      key_found = read.key_found;
      value_found = read.value_found;
    }

pub parse-no_item :
    (n : ℕ) → parse (suc (suc (suc (suc (suc (suc n)))))) no_refs item [] ≡ some ([], none)
unfolding parse comment blank line parsers longest_match nullable
parse-no_item n = refl
