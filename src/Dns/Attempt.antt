-- ===== src/Dns/Attempt.antt =====
-- internal/probe/dns/service.go: one attempt at the query, `queryTransport`. The text of an error,
-- its Go type and the name of a response code are left out.
use tadori.Base.{
  ℕ, ◌/◌, ◌%◌, String, Bool, true, false, ◌||◌, none, some, List, ◌⊎◌, inl, inr, length, ltb, leb,
  ◌==◌, if◌then◌else◌,
}
use tadori.Dns.Parse.{Outcome, Parse, parsed, failed, out_of_range, ◌>>=◌, u16_at}
use tadori.Dns.Message.{max_service_message_size, Response}
use tadori.Dns.Response.{Unicode, parse_response}
use tadori.Dns.Connection.{
  IoError, service_error_kind, service_outcome_for_error, Transport, read_error, got, Conn, Dial,
  dial_error, no_connection, connected, write_service_message,
}

-- `DNSServiceAttempt`
pub record Attempt : Type 0 where
  pub candidate : String
  pub requested_endpoint : String
  pub attempt : ℕ
  pub response_received : Bool
  pub response_bytes : ℕ
  pub question_count : ℕ
  pub answer_count : ℕ
  pub authority_count : ℕ
  pub additional_count : ℕ
  pub transaction_id : ℕ
  pub response_transaction_id : ℕ
  pub rcode : ℕ
  pub truncated : Bool
  pub outcome : Outcome
  pub success : Bool
  pub error_kind : String
  pub endpoint : String

-- What the struct literals of `queryTransport` and `failedServiceAttempt` set.
abbrev pub new_attempt : String → String → ℕ → ℕ → Attempt
new_attempt candidate requested number id = record {
  candidate = candidate;
  requested_endpoint = requested;
  attempt = number;
  response_received = false;
  response_bytes = 0;
  question_count = 0;
  answer_count = 0;
  authority_count = 0;
  additional_count = 0;
  transaction_id = id;
  response_transaction_id = 0;
  rcode = 0;
  truncated = false;
  outcome = Outcome.unknown;
  success = false;
  error_kind = "";
  endpoint = "";
}

-- `failedServiceAttempt`
abbrev pub failed_service_attempt : String → String → ℕ → String → Outcome → Attempt
failed_service_attempt candidate requested number kind outcome =
    record (new_attempt candidate requested number 0) { outcome = outcome; error_kind = kind }

-- An attempt that ends with an error of the connection.
abbrev pub with_error : Attempt → IoError → Attempt
with_error a e = record a {
  error_kind = service_error_kind e;
  outcome = service_outcome_for_error e;
}

-- The response read from the connection, or the attempt that ends without one.
unfoldable pub read_response : Conn → Transport → Attempt → Parse (Attempt ⊎ List ℕ)
read_response conn Transport.udp a = elim (conn.read 0 max_service_message_size) [
  | read_error e ↦ parsed (inl (with_error a e))
  | got bytes ↦ parsed (inr bytes)
]
read_response conn Transport.tcp a = elim (conn.read 0 2) [
  | read_error e ↦ parsed (inl (with_error a e))
  | got header ↦ u16_at header 0 >>= λ size.
      if size == 0 || ltb max_service_message_size size
      then parsed (
          inl (record a {
            response_received = true;
            response_bytes = size;
            error_kind = "message_size";
            outcome = Outcome.malformed_response;
          }))
      else elim (conn.read 1 size) [
        | read_error e ↦ parsed (
            inl (record a {
              response_received = true;
              response_bytes = size;
              error_kind = "malformed_response";
              outcome = Outcome.malformed_response;
            }))
        | got bytes ↦ parsed (inr bytes)
      ]
]

-- The counts of a header, if it is whole.
unfoldable pub read_header : List ℕ → Attempt → Parse Attempt
read_header bytes a =
    if leb 12 (length bytes)
    then (do
      id ← u16_at bytes 0
      flags ← u16_at bytes 2
      questions ← u16_at bytes 4
      answers ← u16_at bytes 6
      authorities ← u16_at bytes 8
      additionals ← u16_at bytes 10
      parsed (record a {
        response_transaction_id = id;
        rcode = flags % 16;
        question_count = questions;
        answer_count = answers;
        authority_count = authorities;
        additional_count = additionals;
        truncated = (flags / 512) % 2 == 1;
      }))
    else parsed a

abbrev pub with_response : Attempt → Response → Attempt
with_response a r = record a {
  question_count = r.question_count;
  answer_count = r.answer_count;
  authority_count = r.authority_count;
  additional_count = r.additional_count;
  rcode = r.rcode;
  truncated = r.truncated;
  outcome = r.outcome;
  success = r.success;
}

module _ (unicode : Unicode) where
  unfoldable pub read_answer : List ℕ → ℕ → Attempt → Parse Attempt
  read_answer bytes id a =
      read_header bytes (record a { response_received = true; response_bytes = length bytes })
      >>= λ b. elim (parse_response unicode bytes id) [
        | parsed r ↦ parsed (with_response b r)
        | failed e ↦ parsed (record b { error_kind = e.kind; outcome = e.outcome })
        | out_of_range ↦ out_of_range
      ]

  unfoldable pub exchange : Conn → Transport → List ℕ → ℕ → Attempt → Parse Attempt
  exchange conn transport query id a = elim (write_service_message conn transport query).0 [
    | some e ↦ parsed (with_error a e)
    | none ↦ read_response conn transport a >>= λ response. elim response [
      | inl ended ↦ parsed ended
      | inr bytes ↦ read_answer bytes id a
    ]
  ]

  -- `queryTransport`
  unfoldable pub query_transport :
      Dial → Transport → String → String → List ℕ → ℕ → ℕ → Parse Attempt
  query_transport dial transport requested candidate query id number =
      let a = new_attempt candidate requested number id in
      elim dial [
        | dial_error e ↦ parsed (with_error a e)
        | no_connection ↦
            parsed
              (record a { error_kind = "transport_failure"; outcome = Outcome.transport_failure })
        | connected conn ↦ exchange conn transport query id (record a { endpoint = conn.endpoint })
      ]
