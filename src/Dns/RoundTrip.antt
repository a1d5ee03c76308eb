-- ===== src/Dns/RoundTrip.antt =====
-- The answer of a server to the query of the DNS service probe, read back.
use tadori.Base.{
  ℕ, ◌+◌, ◌*◌, ◌/◌, ◌%◌, ◌<◌, ◌≡◌, refl, true, false, some, List, [], ◌∷◌, ◌==◌, arith,
}
use tadori.Dns.Parse.{parsed, protocol_failure}
use tadori.Dns.Message.{
  diagnostic_query_name, query_labels, join, encode_labels, build_query, read_turns, read_name,
  skip_records, Response, rcode_outcome,
}
use tadori.Dns.Response.{
  Unicode, bytes_eq, normalize_name, check_question, check_records, check_body, check_header,
  parse_response,
}

-- The query with its flags set to those of a response with this code, and no record added.
unfoldable pub answer : ℕ → List ℕ → List ℕ
answer rcode (a ∷ (b ∷ (c ∷ (d ∷ rest)))) = a ∷ b ∷ 128 ∷ rcode ∷ rest
answer rcode bytes = bytes

abbrev pub answered : ℕ → ℕ → Response
answered id rcode = record {
  transaction_id = id;
  question_count = 1;
  answer_count = 0;
  authority_count = 0;
  additional_count = 0;
  rcode = rcode;
  truncated = false;
  outcome = (rcode_outcome rcode).0;
  success = (rcode_outcome rcode).1;
}

-- A query as bytes.
abbrev pub query_of : ℕ → List ℕ
query_of id =
    (id / 256)
    ∷ (id % 256)
    ∷ 0
    ∷ 0
    ∷ 0
    ∷ 1
    ∷ 0
    ∷ 0
    ∷ 0
    ∷ 0
    ∷ 0
    ∷ 0
    ∷ 6
    ∷ 116
    ∷ 97
    ∷ 100
    ∷ 111
    ∷ 114
    ∷ 105
    ∷ 10
    ∷ 100
    ∷ 105
    ∷ 97
    ∷ 103
    ∷ 110
    ∷ 111
    ∷ 115
    ∷ 116
    ∷ 105
    ∷ 99
    ∷ 0
    ∷ 0
    ∷ 1
    ∷ 0
    ∷ 1
    ∷ []

pub build_query_lem : (id : ℕ) → build_query id ≡ some (query_of id)
unfolding build_query encode_labels
build_query_lem id = refl

read_name-answer :
    (id rcode : ℕ) → read_name (answer rcode (query_of id)) 12 ≡ parsed (join query_labels, 31)
unfolding read_name read_turns answer
read_name-answer id rcode = refl

module _ (unicode : Unicode) where
  same_name :
      bytes_eq
        (normalize_name unicode (join query_labels))
        (normalize_name unicode diagnostic_query_name)
      ≡ true
  unfolding join
  same_name =
      rw
        (
          normalize_name,
          unicode.trim_plain (join query_labels) refl,
          unicode.trim_plain diagnostic_query_name refl,
          unicode.lower_plain (join query_labels) refl,
        )
        refl

  check_question-answer :
      (id rcode : ℕ) → check_question unicode (answer rcode (query_of id)) ≡ parsed 35
  unfolding check_question answer
  check_question-answer id rcode = rw (read_name-answer id rcode, same_name) refl

  check_records-answer :
      (id rcode : ℕ)
      → check_records unicode
          (answer rcode (query_of id))
          35
          (record (answered id rcode) { outcome = protocol_failure; success = false })
        ≡ parsed (answered id rcode)
  unfolding check_records skip_records answer
  check_records-answer id rcode = refl

  parse_response-answer :
      (id rcode : ℕ)
      → id < 65536
      → rcode < 16
      → parse_response unicode (answer rcode (query_of id)) id ≡ parsed (answered id rcode)
  unfolding parse_response check_header check_body answer
  parse_response-answer id rcode small code =
      let same_id : (id / 256) * 256 + id % 256 ≡ id = omega arith in
      let flags : ℕ = 128 * 256 + rcode in
      let code_kept : flags % 16 ≡ rcode = omega arith in
      let marked : ((flags / 32768) % 2 == 0) ≡ false = ground arith in
      let standard : ((flags / 2048) % 16 == 0) ≡ true = ground arith in
      let whole : ((flags / 512) % 2 == 1) ≡ false = ground arith in
      let own : (id == id) ≡ true = ground arith in
      rw (same_id, code_kept, marked, standard, whole, own, check_question-answer id rcode)
        (check_records-answer id rcode)

  -- For every 16-bit identifier the query is built, and the reader, given that query with the
  -- header's flags replaced by those of a response with a 4-bit code, accepts it with the
  -- identifier, one question, no records, the code, and the outcome that the code stands for.
  pub parse_response-build_query :
      (id rcode : ℕ)
      → id < 65536
      → rcode < 16
      → (query : List ℕ) × (build_query id ≡ some query)
        × (parse_response unicode (answer rcode query) id ≡ parsed (answered id rcode))
  parse_response-build_query id rcode small code =
      (query_of id, build_query_lem id, parse_response-answer id rcode small code)
