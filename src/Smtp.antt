-- ===== src/Smtp.antt =====
-- parser.go: the grammar of SMTP commands, and `SMTPParser`.
--
-- `domain` and `dotString`, which refer to themselves, are the addresses 0 and 1 of the heap.
pub mod Commands
pub mod Total
pub mod Octets
use failmail.Base.{
  ℕ, zero, suc, ◌+◌, ◌*◌, Bool, not, ◌||◌, Option, none, some, List, [], ◌∷◌, ◌==◌, Str, bytes,
  length,
}
use failmail.Regex.{Re, class, seq, alt, star, one_of, within, plus, optional}
use failmail.Parse.{
  Node, Parser, Parsers, done, any, longest, series, label, regexp, ref, Heap, parse,
}
use failmail.Parse.Build.{parsers, add, iliteral, exactly, surrounding, separating}

abbrev pub is_digit : ℕ → Bool
is_digit = within b'0' b'9'

abbrev is_letter : ℕ → Bool
is_letter c = within b'a' b'z' c || within b'A' b'Z' c

-- `\s`: tab, newline, form feed, carriage return, space.
abbrev is_space : ℕ → Bool
is_space = one_of (9 ∷ 10 ∷ 12 ∷ 13 ∷ 32 ∷ [])

abbrev pub char : ℕ → Re
char b = class (λ c. c == b)

-- `\\.`: a backslash and any byte but a newline.
abbrev escaped : Re
escaped = seq (char b'\\') (class (λ c. not (c == 10)))

unfoldable pub space : Parser
space = regexp (plus (class is_space))

unfoldable pub maybe_space : Parser
maybe_space = regexp (star (class is_space))

-- `[a-zA-Z]([a-zA-Z0-9-]*[a-zA-Z0-9])?`
unfoldable pub name : Parser
name =
    let alnum = λ (c : ℕ). is_letter c || is_digit c in
    regexp (
      seq (class is_letter)
        (optional (seq (star (class (λ c. alnum c || c == b'-'))) (class alnum))))

-- `([0-9]|[0-9][0-9]|1[0-9][0-9]|2[0-4][0-9]|25[0-5])`
abbrev pub octet : Re
octet =
    let d = class is_digit in
    alt d (
      alt (seq d d) (
        alt (seq (char b'1') (seq d d)) (
          alt (seq (char b'2') (seq (class (within b'0' b'4')) d))
            (seq (char b'2') (seq (char b'5') (class (within b'0' b'5')))))))

unfoldable pub snum : Parser
snum = regexp octet

unfoldable pub addr : Parser
unfolding snum separating bytes
addr = separating (bytes ".") (snum ∷ snum ∷ snum ∷ snum ∷ [])

unfoldable pub address_literal : Parser
unfolding addr surrounding bytes
address_literal = surrounding (bytes "[") (bytes "]") addr

unfoldable pub domain : Parser
domain = ref 0

unfoldable pub domain_or_address : Parser
unfolding domain address_literal parsers
domain_or_address = any (parsers (domain ∷ address_literal ∷ []))

-- `(\\.|[^ <>\(\)\[\]\\.,;:@"\r\n])+`
unfoldable pub str : Parser
unfolding bytes
str = regexp (plus (alt escaped (class (λ c. not (one_of (13 ∷ 10 ∷ bytes " <>()[]\\.,;:@\"") c)))))

unfoldable pub dot_string : Parser
dot_string = ref 1

-- `"(\\.|[^ \r\n"\\])+"`
unfoldable pub quoted_string : Parser
unfolding bytes
quoted_string =
    let item = alt escaped (class (λ c. not (one_of (13 ∷ 10 ∷ bytes " \"\\") c))) in
    regexp (seq (char b'"') (seq (plus item) (char b'"')))

unfoldable pub local_part : Parser
unfolding dot_string quoted_string parsers
local_part = any (parsers (dot_string ∷ quoted_string ∷ []))

unfoldable pub mailbox : Parser
unfolding local_part domain_or_address separating bytes
mailbox = separating (bytes "@") (local_part ∷ domain_or_address ∷ [])

unfoldable pub path : Parser
unfolding mailbox surrounding bytes
path = surrounding (bytes "<") (bytes ">") mailbox

unfoldable pub reverse_path : Parser
unfolding path exactly parsers bytes
reverse_path = any (parsers (path ∷ exactly (bytes "<>") ∷ []))

unfoldable pub domain_body : Parser
unfolding domain name separating parsers bytes
domain_body = any (parsers (separating (bytes ".") (name ∷ domain ∷ []) ∷ name ∷ []))

unfoldable pub dot_string_body : Parser
unfolding str dot_string exactly parsers bytes
dot_string_body =
    any (parsers (series (parsers (str ∷ exactly (bytes ".") ∷ dot_string ∷ [])) ∷ str ∷ []))

-- What the addresses of the grammar hold; the others are not used.
unfoldable pub smtp_heap : Heap
unfolding domain_body dot_string_body
smtp_heap zero = domain_body
smtp_heap (suc zero) = dot_string_body
smtp_heap (suc (suc i)) = any done

unfoldable pub command : Str → Parser
unfolding iliteral bytes
command word = label (bytes "command") (iliteral word)

unfoldable pub line : List Parser → Parser
unfolding parsers add exactly bytes
line ps = series (add (parsers ps) (parsers (exactly (13 ∷ 10 ∷ []) ∷ [])))

unfoldable pub helo : Parser
unfolding line command space domain_or_address bytes
helo = line (command (bytes "HELO") ∷ space ∷ label (bytes "domain") domain_or_address ∷ [])

unfoldable pub mail : Parser
unfolding line command space maybe_space reverse_path iliteral bytes
mail = line (
    command (bytes "MAIL")
    ∷ space
    ∷ iliteral (bytes "FROM:")
    ∷ maybe_space
    ∷ label (bytes "path") reverse_path
    ∷ [])

unfoldable pub rcpt : Parser
unfolding line command space maybe_space path iliteral bytes
rcpt = line (
    command (bytes "RCPT")
    ∷ space
    ∷ iliteral (bytes "TO:")
    ∷ maybe_space
    ∷ label (bytes "path") path
    ∷ [])

-- `data`, `rset`, `noop`, `quit` and `starttls`.
unfoldable pub bare : Str → Parser
unfolding line command
bare word = line (command word ∷ [])

unfoldable pub vrfy : Parser
unfolding line command space str bytes
vrfy = line (command (bytes "VRFY") ∷ space ∷ label (bytes "text") str ∷ [])

unfoldable pub ehlo : Parser
unfolding line command space address_literal domain parsers bytes
ehlo = line (
    command (bytes "EHLO")
    ∷ space
    ∷ label (bytes "domain") (any (parsers (address_literal ∷ domain ∷ [])))
    ∷ [])

-- `[A-Z0-9\-_]+`
unfoldable pub auth_type : Parser
unfolding bytes
auth_type = regexp (plus (class (λ c. within b'A' b'Z' c || is_digit c || one_of (bytes "-_") c)))

-- `[a-zA-Z0-9+/=]+`
unfoldable pub base64_str : Parser
unfolding bytes
base64_str = regexp (plus (class (λ c. is_letter c || is_digit c || one_of (bytes "+/=") c)))

unfoldable pub auth_without_payload : Parser
unfolding line command space auth_type bytes
auth_without_payload = line (command (bytes "AUTH") ∷ space ∷ label (bytes "type") auth_type ∷ [])

unfoldable pub auth_with_payload : Parser
unfolding line command space auth_type base64_str bytes
auth_with_payload = line (
    command (bytes "AUTH")
    ∷ space
    ∷ label (bytes "type") auth_type
    ∷ space
    ∷ label (bytes "payload") base64_str
    ∷ [])

unfoldable pub auth : Parser
unfolding auth_with_payload auth_without_payload parsers
auth = longest (parsers (auth_with_payload ∷ auth_without_payload ∷ []))

unfoldable pub commands : Parsers
unfolding helo mail rcpt bare ehlo vrfy auth parsers bytes
commands = parsers (
    helo
    ∷ mail
    ∷ rcpt
    ∷ bare (bytes "DATA")
    ∷ bare (bytes "RSET")
    ∷ bare (bytes "NOOP")
    ∷ bare (bytes "QUIT")
    ∷ ehlo
    ∷ vrfy
    ∷ auth
    ∷ bare (bytes "STARTTLS")
    ∷ [])

unfoldable pub smtp : Parser
unfolding commands
smtp = any commands

-- Fuel for the calls of `Parse` on a line.
abbrev pub smtp_fuel : Str → ℕ
smtp_fuel s = 20 + 3 * length s

-- `_, node := smtp.Parse(str); return node`, with `none` for fuel that ran out.
unfoldable pub smtp_parser : Str → Option (Option Node)
unfolding parse smtp smtp_heap
smtp_parser s = elim (parse (smtp_fuel s) smtp_heap smtp s) [
  | none ↦ none
  | some (rest, n) ↦ some n
]
