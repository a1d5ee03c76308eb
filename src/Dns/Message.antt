-- ===== src/Dns/Message.antt =====
-- internal/probe/dns/service.go: the query that the DNS service probe sends and the reader of its
-- response. A message is the list of its bytes. A mask and a shift are written as a division and a
-- remainder.
use tadori.Base.{
  ℕ, zero, suc, ◌+◌, ◌*◌, ◌/◌, ◌%◌, Bool, true, false, not, ◌||◌, Option, none, some, List, [], ◌∷◌,
  ◌++◌, length, ltb, leb, ◌==◌, mem, if◌then◌else◌,
}
use tadori.Dns.Parse.{slice, Outcome, Parse, parsed, ◌>>=◌, malformed, byte_at, u16_at}

abbrev pub max_service_message_size : ℕ
max_service_message_size = 4096

-- `DiagnosticQueryName`, `tadori.diagnostic.`
abbrev pub diagnostic_query_name : List ℕ
diagnostic_query_name =
    116 ∷ 97 ∷ 100 ∷ 111 ∷ 114 ∷ 105 ∷ 46 ∷ 100 ∷ 105 ∷ 97 ∷ 103 ∷ 110 ∷ 111 ∷ 115 ∷ 116 ∷ 105 ∷ 99
    ∷ 46 ∷ []

-- Its labels, as `strings.Split` gives them without the last dot.
abbrev pub query_labels : List (List ℕ)
query_labels =
    (116 ∷ 97 ∷ 100 ∷ 111 ∷ 114 ∷ 105 ∷ [])
    ∷ (100 ∷ 105 ∷ 97 ∷ 103 ∷ 110 ∷ 111 ∷ 115 ∷ 116 ∷ 105 ∷ 99 ∷ [])
    ∷ []

-- `strings.Join(labels, ".")`
unfoldable pub join : List (List ℕ) → List ℕ
join [] = []
join (l ∷ []) = l
join (l ∷ (k ∷ ls)) = l ++ 46 ∷ join (k ∷ ls)

-- The loop over the labels of a query.
unfoldable pub encode_labels : List (List ℕ) → Option (List ℕ)
encode_labels [] = some []
encode_labels (l ∷ ls) = elim (encode_labels ls) [
  | none ↦ none
  | some rest ↦ if length l == 0 || ltb 63 (length l) then none else some (length l ∷ (l ++ rest))
]

unfoldable pub build_query : ℕ → Option (List ℕ)
build_query id = elim (encode_labels query_labels) [
  | none ↦ none
  | some name ↦
      let query =
        (id / 256)
        ∷ (id % 256)
        ∷ 0
        ∷ 0
        ∷ 0
        ∷ 1
        ∷ 0
        ∷ 0
        ∷ 0
        ∷ 0
        ∷ 0
        ∷ 0
        ∷ (name ++ 0 ∷ 0 ∷ 1 ∷ 0 ∷ 1 ∷ []) in
      if ltb max_service_message_size (length query) then none else some query
]

-- One turn of the loop of `readDiagnosticName` at a byte `len`; `again` is the rest of the loop, on
-- the position, the offset behind the name, whether a pointer was followed, the pointers and the
-- labels.
abbrev pub Turn : Type 0
Turn = ℕ → ℕ → Bool → List ℕ → List (List ℕ) → Parse (List ℕ × ℕ)

abbrev pub follow : Turn → List ℕ → ℕ → ℕ → ℕ → Bool → List ℕ → List (List ℕ) → Parse (List ℕ × ℕ)
follow again bytes len position consumed jumped visited labels =
    if leb (length bytes) (position + 1)
    then malformed
    else byte_at bytes (position + 1) >>= λ low.
        let pointer = (len % 64) * 256 + low in
        if leb (length bytes) pointer
        then malformed
        else if mem pointer visited
        then malformed
        else again pointer (if jumped then consumed else position + 2) true (pointer ∷ visited)
            labels

abbrev pub read_label :
    Turn → List ℕ → ℕ → ℕ → ℕ → Bool → List ℕ → List (List ℕ) → Parse (List ℕ × ℕ)
read_label again bytes len position consumed jumped visited labels =
    if ltb 63 len || ltb (length bytes) (position + 1 + len)
    then malformed
    else slice bytes (position + 1) len >>= λ label.
        again (position + 1 + len) consumed jumped visited (labels ++ label ∷ [])

abbrev pub turn : Turn → List ℕ → ℕ → ℕ → ℕ → Bool → List ℕ → List (List ℕ) → Parse (List ℕ × ℕ)
turn again bytes len position consumed jumped visited labels =
    if len == 0
    then parsed (join labels, if jumped then consumed else position + 1)
    else if (len / 64) % 4 == 3
    then follow again bytes len position consumed jumped visited labels
    else if not ((len / 64) % 4 == 0)
    then malformed
    else read_label again bytes len position consumed jumped visited labels

-- The loop, with the turns that are left.
unfoldable pub read_turns : ℕ → List ℕ → Turn
read_turns zero bytes position consumed jumped visited labels = malformed
read_turns (suc turns) bytes position consumed jumped visited labels =
    let again = read_turns turns bytes in
    if leb (length bytes) position
    then malformed
    else byte_at bytes position >>= λ len.
        turn again bytes len position consumed jumped visited labels

-- `readDiagnosticName`: the name and the offset behind it.
unfoldable pub read_name : List ℕ → ℕ → Parse (List ℕ × ℕ)
read_name bytes start =
    if leb (length bytes) start then malformed else read_turns 128 bytes start start false [] []

-- `skipDiagnosticRecord`
unfoldable pub skip_record : List ℕ → ℕ → Parse ℕ
skip_record bytes offset = do
  name ← read_name bytes offset
  if ltb (length bytes) (name.1 + 10)
      then malformed
      else (u16_at bytes (name.1 + 8) >>= λ size.
          if ltb max_service_message_size size || ltb (length bytes) (name.1 + 10 + size)
          then malformed
          else parsed (name.1 + 10 + size))

-- The loop over the records.
unfoldable pub skip_records : ℕ → List ℕ → ℕ → Parse ℕ
skip_records zero bytes offset = parsed offset
skip_records (suc count) bytes offset = do
  next ← skip_record bytes offset
  skip_records count bytes next

pub record Response : Type 0 where
  pub transaction_id : ℕ
  pub question_count : ℕ
  pub answer_count : ℕ
  pub authority_count : ℕ
  pub additional_count : ℕ
  pub rcode : ℕ
  pub truncated : Bool
  pub outcome : Outcome
  pub success : Bool

abbrev pub rcode_outcome : ℕ → Outcome × Bool
rcode_outcome rcode =
    if rcode == 0
    then (Outcome.success, true)
    else if rcode == 2
    then (Outcome.servfail, false)
    else if rcode == 3
    then (Outcome.negative_response, true)
    else if rcode == 5
    then (Outcome.refused, false)
    else (Outcome.protocol_failure, false)
