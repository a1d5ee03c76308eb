-- ===== src/Dns/Response.antt =====
-- internal/probe/dns/service.go, `parseDiagnosticResponse`. The text functions that depend on the
-- tables of Unicode, `strings.TrimSpace` and `strings.ToLower`, are a parameter.
use tadori.Base.{
  ℕ, ◌+◌, ◌/◌, ◌%◌, ◌≡◌, Bool, true, false, not, ◌&&◌, ◌||◌, List, [], ◌∷◌, length, ltb, leb, ◌==◌,
  if◌then◌else◌,
}
use tadori.Dns.Parse.{
  protocol_failure, truncated_response, Parse, parsed, ◌>>=◌, malformed, trailing_data,
  protocol_error, u16_at,
}
use tadori.Dns.Message.{diagnostic_query_name, read_name, skip_records, Response, rcode_outcome}

-- A small letter of ASCII, or a dot.
abbrev pub is_plain : ℕ → Bool
is_plain c = (leb 97 c && leb c 122) || (c == 46)

abbrev pub all_plain : List ℕ → Bool
all_plain [] = true
all_plain (c ∷ cs) = is_plain c && all_plain cs

-- `strings.TrimSpace` and `strings.ToLower`, which leave such texts as they are.
pub record Unicode : Type 0 where
  pub trim_space : List ℕ → List ℕ
  pub to_lower : List ℕ → List ℕ
  pub trim_plain : (s : List ℕ) → all_plain s ≡ true → trim_space s ≡ s
  pub lower_plain : (s : List ℕ) → all_plain s ≡ true → to_lower s ≡ s

-- `strings.TrimSuffix(s, ".")`
abbrev pub trim_dot : List ℕ → List ℕ
trim_dot [] = []
trim_dot (c ∷ []) = if c == 46 then [] else c ∷ []
trim_dot (c ∷ (d ∷ s)) = c ∷ trim_dot (d ∷ s)

abbrev pub bytes_eq : List ℕ → List ℕ → Bool
bytes_eq [] [] = true
bytes_eq (a ∷ as') (b ∷ bs) = (a == b) && bytes_eq as' bs
bytes_eq _ _ = false

module _ (unicode : Unicode) where
  -- `normalizeDiagnosticName`
  abbrev pub normalize_name : List ℕ → List ℕ
  normalize_name name = unicode.to_lower (trim_dot (unicode.trim_space name))

  -- Behind the header: the one question.
  unfoldable pub check_question : List ℕ → Parse ℕ
  check_question bytes = do
    name ← read_name bytes 12
    if ltb (length bytes) (name.1 + 4)
        then malformed
        else (u16_at bytes name.1 >>= λ question_type.
            u16_at bytes (name.1 + 2) >>= λ question_class.
            if not (bytes_eq (normalize_name name.0) (normalize_name diagnostic_query_name))
              || not (question_type == 1)
              || not (question_class == 1)
            then protocol_error "question_mismatch"
            else parsed (name.1 + 4))

  -- Behind the question: the records, up to the end of the message.
  unfoldable pub check_records : List ℕ → ℕ → Response → Parse Response
  check_records bytes offset response = do
    end ←
        skip_records (response.answer_count + response.authority_count + response.additional_count)
          bytes offset
    if not (end == length bytes)
        then trailing_data
        else parsed (record response {
          outcome = (rcode_outcome response.rcode).0;
          success = (rcode_outcome response.rcode).1;
        })

  unfoldable pub check_body : List ℕ → ℕ → Response → Parse Response
  check_body bytes flags response = check_question bytes >>= λ offset.
      if (flags / 512) % 2 == 1
      then parsed (record response { truncated = true; outcome = truncated_response })
      else check_records bytes offset response

  unfoldable pub check_header : List ℕ → ℕ → ℕ → Response → Parse Response
  check_header bytes expected flags response =
      if not (response.transaction_id == expected)
      then protocol_error "transaction_mismatch"
      else if (flags / 32768) % 2 == 0
      then protocol_error "not_response"
      else if not ((flags / 2048) % 16 == 0)
      then protocol_error "unsupported_opcode"
      else if not (response.question_count == 1)
      then protocol_error "question_count"
      else check_body bytes flags response

  -- `parseDiagnosticResponse`
  unfoldable pub parse_response : List ℕ → ℕ → Parse Response
  parse_response bytes expected = if ltb (length bytes) 12 then malformed else (do
    transaction_id ← u16_at bytes 0
    question_count ← u16_at bytes 4
    answer_count ← u16_at bytes 6
    authority_count ← u16_at bytes 8
    additional_count ← u16_at bytes 10
    flags ← u16_at bytes 2
    check_header bytes expected flags (record {
      transaction_id = transaction_id;
      question_count = question_count;
      answer_count = answer_count;
      authority_count = authority_count;
      additional_count = additional_count;
      rcode = flags % 16;
      truncated = false;
      outcome = protocol_failure;
      success = false;
    }))
