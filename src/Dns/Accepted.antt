-- ===== src/Dns/Accepted.antt =====
-- What a response that the reader accepts has been checked for.
use tadori.Base.{
  ℕ, ◌+◌, ◌/◌, ◌%◌, ◌≡◌, ◌∙◌, ◌⊎◌, inl, inr, true, false, not, List, length, ltb, ◌==◌, arith,
  Bool-cases, if◌then◌else◌,
}
use tadori.Dns.Parse.{truncated_response, parsed, trailing_data, u16_at, first_parsed}
use tadori.Dns.Message.{skip_records, Response, rcode_outcome}
use tadori.Dns.Response.{
  Unicode, check_question, check_records, check_body, check_header, parse_response,
}

module _ (unicode : Unicode) where
  -- What the reader has found, from what the header says.
  abbrev pub Follows : Response → Response → Type 0
  Follows before r =
      (r.transaction_id ≡ before.transaction_id)
      × (r.question_count ≡ before.question_count)
      × (r.rcode ≡ before.rcode)
      × (((r.truncated ≡ true) × (r.outcome ≡ truncated_response) × (r.success ≡ before.success))
          ⊎ ((r.truncated ≡ before.truncated)
              × (r.outcome ≡ (rcode_outcome r.rcode).0)
              × (r.success ≡ (rcode_outcome r.rcode).1)))

  check_records-Follows :
      (bytes : List ℕ) (offset : ℕ) (before r : Response)
      → check_records unicode bytes offset before ≡ parsed r
      → Follows before r
  unfolding check_records
  check_records-Follows bytes offset before r h =
      let (end, _, rest) =
        first_parsed
          (skip_records (before.answer_count + before.authority_count + before.additional_count)
            bytes offset)
          (λ end.
            if not (end == length bytes)
            then trailing_data
            else parsed (record before {
              outcome = (rcode_outcome before.rcode).0;
              success = (rcode_outcome before.rcode).1;
            }))
          h in
      ground (arith, rest)

  check_body-Follows :
      (bytes : List ℕ) (flags : ℕ) (before r : Response)
      → check_body unicode bytes flags before ≡ parsed r
      → Follows before r
  unfolding check_body
  check_body-Follows bytes flags before r h =
      let (offset, _, rest) =
        first_parsed (check_question unicode bytes)
          (λ offset.
            if (flags / 512) % 2 == 1
            then parsed (record before { truncated = true; outcome = truncated_response })
            else check_records unicode bytes offset before)
          h in
      let recorded = check_records-Follows bytes offset before r in ground (arith, rest, recorded)

  check_header-Follows :
      (bytes : List ℕ) (expected flags : ℕ) (before r : Response)
      → check_header unicode bytes expected flags before ≡ parsed r
      → (before.transaction_id ≡ expected)
        × ((flags / 32768) % 2 ≡ 1)
        × ((flags / 2048) % 16 ≡ 0)
        × (before.question_count ≡ 1)
        × Follows before r
  unfolding check_header
  check_header-Follows bytes expected flags before r h =
      let body = check_body-Follows bytes flags before r in ground (arith, h, body)

  -- A response that the reader accepts has the expected identifier, the bit of a response, the
  -- opcode of a standard query and one question; its code is that of the flags, and it is either
  -- truncated, with that outcome and no success, or it has the outcome and success of its code.
  pub parse_response-Accepted :
      (bytes : List ℕ) (expected : ℕ) (r : Response)
      → parse_response unicode bytes expected ≡ parsed r
      → (flags : ℕ) × (u16_at bytes 2 ≡ parsed flags)
        × (u16_at bytes 0 ≡ parsed expected)
        × (u16_at bytes 4 ≡ parsed 1)
        × ((flags / 32768) % 2 ≡ 1)
        × ((flags / 2048) % 16 ≡ 0)
        × (r.transaction_id ≡ expected)
        × (r.rcode ≡ flags % 16)
        × (((r.truncated ≡ true) × (r.outcome ≡ truncated_response) × (r.success ≡ false))
            ⊎ ((r.truncated ≡ false)
                × (r.outcome ≡ (rcode_outcome r.rcode).0)
                × (r.success ≡ (rcode_outcome r.rcode).1)))
  unfolding parse_response
  parse_response-Accepted bytes expected r h = elim (Bool-cases (ltb (length bytes) 12)) [
    | inl short ↦ let no = rw short at h in cc
    | inr long ↦
        let (id, got_id, h1) = first_parsed (u16_at bytes 0) _ (rw long at h) in
        let (questions, got_questions, h2) = first_parsed (u16_at bytes 4) _ h1 in
        let (answers, _, h3) = first_parsed (u16_at bytes 6) _ h2 in
        let (authorities, _, h4) = first_parsed (u16_at bytes 8) _ h3 in
        let (additionals, _, h5) = first_parsed (u16_at bytes 10) _ h4 in
        let (flags, got_flags, h6) = first_parsed (u16_at bytes 2) _ h5 in
        let (same_id, marked, opcode, one, after) =
          check_header-Follows bytes expected flags _ r h6 in
        let (kept_id, _, kept_rcode, rest) = after in
        (
          flags,
          got_flags,
          (rw same_id at got_id),
          (rw one at got_questions),
          marked,
          opcode,
          kept_id ∙ same_id,
          kept_rcode,
          rest,
        )
  ]
