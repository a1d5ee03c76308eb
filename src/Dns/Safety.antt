-- ===== src/Dns/Safety.antt =====
-- No datagram makes the reader of DNS responses index out of range.
use tadori.Base.{
  ℕ, zero, suc, ◌+◌, ◌*◌, ◌/◌, ◌%◌, ◌<◌, ◌≤◌, take, drop, ◌≡◌, refl, Bool, true, false, not, ◌||◌,
  List, [], length, get_elem?-some, ltb, leb, ◌==◌, mem, arith, if◌then◌else◌,
}
use tadori.Dns.Parse.{
  ResponseError, protocol_failure, Parse, parsed, failed, ◌>>=◌, malformed, byte_at, u16_at, slice,
}
use tadori.Dns.Message.{
  diagnostic_query_name, Turn, turn, read_turns, read_name, skip_record, skip_records, Response,
  max_service_message_size,
}
use tadori.Dns.Response.{
  Unicode, check_question, check_records, check_body, check_header, parse_response, bytes_eq,
  normalize_name,
}

-- No index out of range.
pub data Safe {ℓ} {A : Type ℓ} : Parse A → Type ℓ where
  gives : (a : A) → Safe (parsed a)
  rejects : (e : ResponseError) → Safe (failed e)

Safe-malformed {ℓ} : {A : Type ℓ} → Safe (malformed {A = A})
Safe-malformed = rejects _

Safe->>= {κ ℓ} :
    {S : Type κ} {T : Type ℓ} {m : Parse S} {next : S → Parse T}
    → Safe m
    → ((s : S) → Safe (next s))
    → Safe (m >>= next)
Safe->>= (gives a) k = k a
Safe->>= (rejects e) k = rejects e

Safe-if {ℓ} :
    {A : Type ℓ} (b : Bool) {x y : Parse A}
    → Safe x
    → (b ≡ false → Safe y)
    → Safe (if b then x else y)
Safe-if true hx hy = hx
Safe-if false hx hy = hy refl

Safe-byte_at : (bytes : List ℕ) (i : ℕ) → i < length bytes → Safe (byte_at bytes i)
Safe-byte_at bytes i h = let (b, e) = get_elem?-some bytes i h in rw (byte_at, e) (gives b)

Safe-u16_at : (bytes : List ℕ) (i : ℕ) → i + 1 < length bytes → Safe (u16_at bytes i)
Safe-u16_at bytes i h =
    Safe->>= (Safe-byte_at bytes i (omega arith))
      λ high. Safe->>= (Safe-byte_at bytes (i + 1) h) λ low. gives (high * 256 + low)

Safe-slice :
    (bytes : List ℕ) (from size : ℕ) → from + size ≤ length bytes → Safe (slice bytes from size)
Safe-slice bytes from size h =
    let inside : ltb (length bytes) (from + size) ≡ false = ground arith in
    rw inside (gives (take size (drop from bytes)))

Safe-turn :
    (again : Turn) (bytes : List ℕ) (len position consumed : ℕ) (jumped : Bool) (visited : List ℕ)
    (labels : List (List ℕ))
    → ((p c : ℕ) (j : Bool) (v : List ℕ) (ls : List (List ℕ)) → Safe (again p c j v ls))
    → Safe (turn again bytes len position consumed jumped visited labels)
Safe-turn again bytes len position consumed jumped visited labels h =
    Safe-if (len == 0) (gives _) λ _.
      Safe-if ((len / 64) % 4 == 3)
        (Safe-if (leb (length bytes) (position + 1)) Safe-malformed λ inside.
          Safe->>= (Safe-byte_at bytes (position + 1) (ground (arith, inside))) λ low.
            Safe-if (leb (length bytes) ((len % 64) * 256 + low)) Safe-malformed
              λ _. Safe-if (mem ((len % 64) * 256 + low) visited) Safe-malformed λ _. h _ _ _ _ _)
        λ _. Safe-if (not ((len / 64) % 4 == 0)) Safe-malformed λ _.
          Safe-if (ltb 63 len || ltb (length bytes) (position + 1 + len)) Safe-malformed λ inside.
            Safe->>= (Safe-slice bytes (position + 1) len (ground (arith, inside)))
              λ label. h _ _ _ _ _

Safe-read_turns :
    (turns : ℕ) (bytes : List ℕ) (position consumed : ℕ) (jumped : Bool) (visited : List ℕ)
    (labels : List (List ℕ))
    → Safe (read_turns turns bytes position consumed jumped visited labels)
unfolding read_turns
Safe-read_turns zero bytes position consumed jumped visited labels = Safe-malformed
Safe-read_turns (suc turns) bytes position consumed jumped visited labels =
    Safe-if (leb (length bytes) position) Safe-malformed λ inside.
      Safe->>= (Safe-byte_at bytes position (ground (arith, inside))) λ len.
        Safe-turn (read_turns turns bytes) bytes len position consumed jumped visited labels
          (Safe-read_turns turns bytes)

Safe-read_name : (bytes : List ℕ) (start : ℕ) → Safe (read_name bytes start)
unfolding read_name
Safe-read_name bytes start =
    Safe-if (leb (length bytes) start) Safe-malformed
      λ _. Safe-read_turns 128 bytes start start false [] []

Safe-skip_record : (bytes : List ℕ) (offset : ℕ) → Safe (skip_record bytes offset)
unfolding skip_record
Safe-skip_record bytes offset = Safe->>= (Safe-read_name bytes offset) λ name.
    Safe-if (ltb (length bytes) (name.1 + 10)) Safe-malformed λ inside.
      Safe->>= (Safe-u16_at bytes (name.1 + 8) (ground (arith, inside))) λ size.
        Safe-if (ltb max_service_message_size size || ltb (length bytes) (name.1 + 10 + size))
          Safe-malformed λ _. gives _

Safe-skip_records :
    (count : ℕ) (bytes : List ℕ) (offset : ℕ) → Safe (skip_records count bytes offset)
unfolding skip_records
Safe-skip_records zero bytes offset = gives offset
Safe-skip_records (suc count) bytes offset =
    Safe->>= (Safe-skip_record bytes offset) (Safe-skip_records count bytes)

module _ (unicode : Unicode) where
  Safe-check_question : (bytes : List ℕ) → Safe (check_question unicode bytes)
  unfolding check_question
  Safe-check_question bytes = Safe->>= (Safe-read_name bytes 12) λ name.
      Safe-if (ltb (length bytes) (name.1 + 4)) Safe-malformed λ inside.
        Safe->>= (Safe-u16_at bytes name.1 (ground (arith, inside))) λ question_type.
          Safe->>= (Safe-u16_at bytes (name.1 + 2) (ground (arith, inside))) λ question_class.
            Safe-if
              (not (
                  bytes_eq (normalize_name unicode name.0)
                    (normalize_name unicode diagnostic_query_name))
                || not (question_type == 1)
                || not (question_class == 1))
              (rejects (record { kind = "question_mismatch"; outcome = protocol_failure }))
              λ _. gives (name.1 + 4)

  Safe-check_records :
      (bytes : List ℕ) (offset : ℕ) (r : Response) → Safe (check_records unicode bytes offset r)
  unfolding check_records
  Safe-check_records bytes offset r =
      Safe->>=
        (Safe-skip_records (r.answer_count + r.authority_count + r.additional_count) bytes offset)
        λ end. Safe-if (not (end == length bytes)) (rejects _) λ _. gives _

  Safe-check_header :
      (bytes : List ℕ) (expected flags : ℕ) (r : Response)
      → Safe (check_header unicode bytes expected flags r)
  unfolding check_header check_body
  Safe-check_header bytes expected flags r =
      Safe-if (not (r.transaction_id == expected)) (rejects _) λ _.
        Safe-if ((flags / 32768) % 2 == 0) (rejects _) λ _.
          Safe-if (not ((flags / 2048) % 16 == 0)) (rejects _) λ _.
            Safe-if (not (r.question_count == 1)) (rejects _) λ _.
              Safe->>= (Safe-check_question bytes) λ offset.
                Safe-if ((flags / 512) % 2 == 1) (gives _) λ _. Safe-check_records bytes offset r

  -- The reader of responses returns a response or an error on every list of bytes and every
  -- expected identifier: no index is out of range, whatever the compression pointers and lengths
  -- say.
  pub parse_response-Safe :
      (bytes : List ℕ) (expected : ℕ) → Safe (parse_response unicode bytes expected)
  unfolding parse_response
  parse_response-Safe bytes expected = Safe-if (ltb (length bytes) 12) Safe-malformed λ inside.
      Safe->>= (Safe-u16_at bytes 0 (ground (arith, inside))) λ a.
        Safe->>= (Safe-u16_at bytes 4 (ground (arith, inside))) λ b.
          Safe->>= (Safe-u16_at bytes 6 (ground (arith, inside))) λ c.
            Safe->>= (Safe-u16_at bytes 8 (ground (arith, inside))) λ d.
              Safe->>= (Safe-u16_at bytes 10 (ground (arith, inside))) λ e.
                Safe->>= (Safe-u16_at bytes 2 (ground (arith, inside)))
                  λ flags. Safe-check_header bytes expected flags _
