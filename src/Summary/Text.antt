-- ===== src/Summary/Text.antt =====
-- messages.go: the text of a `SummaryMessage`.
--
-- `Formats` stands for what packages time and fmt print: `Format(time.RFC822)`,
-- `Format(time.RFC1123Z)` and `%#v` of a string.
use failmail.Base.{
  Option, none, some, ℕ, suc, ◌≡◌, refl, ap, ◌∙◌, true, List, [], ◌∷◌, ◌++◌, append_assoc, All, Str,
  bytes, decimal, length, arith, lacks, lacks-append, split, split-at,
}
use failmail.Message.{Received}
use failmail.Summary.{UniqueMessage, SummaryMessage, SummaryStats, stats}

pub record Formats : Type 0 where
  pub rfc822 : ℕ → Str
  pub rfc1123z : ℕ → Str
  pub quoted : Str → Str

abbrev pub crlf : Str
crlf = 13 ∷ 10 ∷ []

-- `strings.Join(texts, ", ")`
unfoldable pub join_texts : List Str → Str
join_texts [] = []
join_texts (t ∷ []) = t
join_texts (t ∷ u ∷ ts) = t ++ (b',' ∷ b' ' ∷ join_texts (u ∷ ts))

abbrev pub header_line : Str → Str → Str
header_line name value = name ++ (value ++ crlf)

module _ (F : Formats) where
  -- `writeHeaders`, on the text before it.
  unfoldable pub write_headers : SummaryMessage → Str → Str
  unfolding bytes join_texts
  write_headers s behind =
      header_line (bytes "From: ") s.from
      ++ (header_line (bytes "To: ") (join_texts s.to)
          ++ (header_line (bytes "Subject: ") s.subject
              ++ (header_line (bytes "Date: ") (F.rfc822 s.date) ++ (crlf ++ behind))))

  -- `Headers`
  unfoldable pub headers : SummaryMessage → Str
  unfolding write_headers
  headers s = write_headers s []

  abbrev group_text : ℕ → ℕ → UniqueMessage → Str
  group_text i total u =
      (crlf
        ++ bytes "- Message group "
        ++ decimal i
        ++ bytes " of "
        ++ decimal total
        ++ bytes ": "
        ++ decimal u.count
        ++ bytes " instances"
        ++ crlf)
      ++ (bytes "  From " ++ F.rfc1123z u.start ++ bytes " to " ++ F.rfc1123z u.end ++ crlf ++ crlf)
      ++ (bytes "Subject: "
          ++ F.quoted u.subject
          ++ crlf
          ++ bytes "Body:"
          ++ crlf
          ++ u.body
          ++ crlf)

  -- The loop over the unique messages, from the one with this number on.
  unfoldable pub groups_text : ℕ → ℕ → List UniqueMessage → Str
  unfolding bytes decimal
  groups_text i total [] = []
  groups_text i total (u ∷ us) = group_text i total u ++ groups_text (suc i) total us

  abbrev pub totals_text : SummaryStats → ℕ → Str
  totals_text t uniques =
      (bytes "--- Failmail ---" ++ crlf)
      ++ (bytes "Total messages: "
          ++ decimal t.total_messages
          ++ crlf
          ++ bytes "Unique messages: "
          ++ decimal uniques
          ++ crlf)
      ++ (bytes "Oldest message: "
          ++ F.rfc1123z t.first_message_time
          ++ crlf
          ++ bytes "Newest message: "
          ++ F.rfc1123z t.last_message_time
          ++ crlf)

  -- What `Contents` writes behind the headers.
  unfoldable pub body_text : SummaryMessage → Str
  unfolding stats groups_text bytes decimal
  body_text s =
      totals_text (stats s.unique_messages) (length s.unique_messages)
      ++ groups_text 1 (length s.unique_messages) s.unique_messages

  -- `Contents`
  unfoldable pub contents : SummaryMessage → Str
  unfolding write_headers body_text
  contents s = write_headers s (body_text s)

abbrev date_text : Formats → Option ℕ → Str → Str
date_text F none def = def
date_text F (some d) def = F.rfc1123z d

-- `DisplayDate`, of a message with a parsed text; `none` is a panic.
abbrev pub display_date : Formats → Received → Str → Option Str
display_date F r def = elim r.parsed [ none ↦ none | some mail ↦ some (date_text F mail.date def) ]

lacks-join_texts :
    (ts : List Str) → All (λ t. lacks 10 t ≡ true) ts → lacks 10 (join_texts ts) ≡ true
unfolding join_texts
lacks-join_texts [] h = refl
lacks-join_texts (t ∷ []) h = h.0
lacks-join_texts (t ∷ u ∷ ts) h =
    ground
      (arith, lacks-append 10 t (b',' ∷ b' ' ∷ join_texts (u ∷ ts)), lacks-join_texts (u ∷ ts) h.1)

-- A line is read up to its line feed.
split-header_line :
    (name value behind : Str)
    → lacks 10 name ≡ true
    → lacks 10 value ≡ true
    → split (header_line name value ++ behind) (10 ∷ [])
      ≡ (name ++ (value ++ 13 ∷ [])) ∷ split behind (10 ∷ [])
split-header_line name value behind h k =
    let text : header_line name value ++ behind ≡ (name ++ (value ++ 13 ∷ [])) ++ 10 ∷ behind =
      simp append_assoc in
    let clean : lacks 10 (name ++ (value ++ 13 ∷ [])) ≡ true =
      rw (lacks-append, lacks-append, h, k) refl in
    ap (λ t. split t (10 ∷ [])) text ∙ split-at 10 (name ++ (value ++ 13 ∷ [])) behind clean

-- When no field holds a line feed, `Contents` is read line by line as the four headers, an empty
-- line, and the body; `Headers` is the same without the body.
pub contents-lines :
    (F : Formats) (s : SummaryMessage)
    → lacks 10 s.from ≡ true
    → All (λ t. lacks 10 t ≡ true) s.to
    → lacks 10 s.subject ≡ true
    → lacks 10 (F.rfc822 s.date) ≡ true
    → (split (contents F s) (10 ∷ [])
        ≡ (bytes "From: " ++ (s.from ++ 13 ∷ []))
          ∷ (bytes "To: " ++ (join_texts s.to ++ 13 ∷ []))
          ∷ (bytes "Subject: " ++ (s.subject ++ 13 ∷ []))
          ∷ (bytes "Date: " ++ (F.rfc822 s.date ++ 13 ∷ []))
          ∷ (13 ∷ [])
          ∷ split (body_text F s) (10 ∷ []))
      × (contents F s ≡ headers F s ++ body_text F s)
unfolding contents headers write_headers bytes
contents-lines F s from to subject date = (
  split-header_line (bytes "From: ") s.from _ refl from
      ∙ ap (λ ls. (bytes "From: " ++ (s.from ++ 13 ∷ [])) ∷ ls)
          (split-header_line (bytes "To: ") (join_texts s.to) _ refl (lacks-join_texts s.to to)
            ∙ ap (λ ls. (bytes "To: " ++ (join_texts s.to ++ 13 ∷ [])) ∷ ls)
                (split-header_line (bytes "Subject: ") s.subject _ refl subject
                  ∙ ap (λ ls. (bytes "Subject: " ++ (s.subject ++ 13 ∷ [])) ∷ ls)
                      (split-header_line (bytes "Date: ") (F.rfc822 s.date) _ refl date
                        ∙ ap (λ ls. (bytes "Date: " ++ (F.rfc822 s.date ++ 13 ∷ [])) ∷ ls)
                            (split-at 10 (13 ∷ []) (body_text F s) refl)))),
  simp append_assoc,
)
