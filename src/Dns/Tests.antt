-- ===== src/Dns/Tests.antt =====
-- The theorems on the DNS service probe at a concrete server.
use tadori.Base.{
  ◌≤◌, ◌<◌, ℕ, ◌/◌, ◌%◌, ◌≡◌, refl, ◌⊎◌, true, false, Option, none, some, List, [], ◌∷◌, ◌++◌,
  length, str_eq, ◌==◌, arith, if◌then◌else◌,
}
use tadori.Route.Netip.{v4}
use tadori.Dns.Parse.{Outcome, parsed, u16_at}
use tadori.Dns.Message.{
  query_labels, join, encode_labels, build_query, read_turns, read_name, skip_records,
  rcode_outcome,
}
use tadori.Dns.Response.{
  Unicode, check_question, check_records, check_body, check_header, parse_response,
}
use tadori.Dns.Safety.{Safe, parse_response-Safe}
use tadori.Dns.Names.{read_name-encode_labels}
use tadori.Dns.RoundTrip.{answer, answered, query_of, parse_response-build_query}
use tadori.Dns.Accepted.{parse_response-Accepted}
use tadori.Dns.Connection.{
  IoError, Transport, wrote, Got, got, Conn, connected, write_all, write_service_message,
}
use tadori.Dns.Attempt.{
  Attempt, read_response, read_header, read_answer, exchange, query_transport, new_attempt,
}
use tadori.Dns.Lane.{
  Text, Network, Evidence, new_evidence, try_retries, try_candidates, run_transport,
}
use tadori.Dns.Attempt.{failed_service_attempt}
use tadori.Dns.Concluded.{Concludes, run_transport-Concludes}
use tadori.Dns.Service.{next_transaction_id}
use tadori.Dns.Run.{next_transaction_id_lem}
use tadori.Dns.Framing.{write_service_message-sent}
use tadori.Dns.Answered.{IsAnswered, query_transport-IsAnswered}

-- Texts of ASCII without spaces, in small letters.
abbrev plain : Unicode
plain = record {
  trim_space = λ s. s;
  to_lower = λ s. s;
  trim_plain = λ s h. refl;
  lower_plain = λ s h. refl;
}

abbrev text : Text
text = record {
  trim_host = λ s. s;
  parse_addr = λ s. if str_eq s "10.0.0.1" then some (v4 167772161) else none;
  addr_text = λ a. "10.0.0.1";
  join_host_port = λ s n. s;
}

-- A server that answers `NXDOMAIN` to the query with the identifier 7.
abbrev response : List ℕ
response = answer 3 (query_of 7)

abbrev server : Conn
server = record {
  endpoint = "10.0.0.1:53";
  write = λ n bytes. wrote (length bytes);
  read = λ n size. if size == 2 then got (0 ∷ 35 ∷ []) else got response;
}

abbrev network : Network
network = record { dial = λ made. connected server; context_error = λ made. none }

abbrev lane_attempt : Attempt
lane_attempt = record (new_attempt "10.0.0.1" "10.0.0.1" 1 7) {
  response_received = true;
  response_bytes = 35;
  question_count = 1;
  response_transaction_id = 7;
  rcode = 3;
  outcome = Outcome.negative_response;
  success = true;
  endpoint = "10.0.0.1:53";
}

attempted :
    query_transport plain (connected server) Transport.udp "10.0.0.1" "10.0.0.1" (query_of 7) 7 1
    ≡ parsed lane_attempt
unfolding query_transport exchange write_service_message write_all read_response read_answer
    read_header parse_response check_header check_body check_question check_records skip_records
    read_name read_turns join answer
attempted = refl

query_transport-IsAnswered_example : IsAnswered 7 lane_attempt
query_transport-IsAnswered_example =
    query_transport-IsAnswered plain (connected server) Transport.udp "10.0.0.1" "10.0.0.1"
      (query_of 7) 7 1 lane_attempt attempted refl

-- The first candidate is a name; the second answers.
abbrev named_attempt : Attempt
named_attempt =
    failed_service_attempt "server" "server" 1 "unresolved_endpoint" Outcome.transport_failure

abbrev lane_evidence : Evidence
lane_evidence = record (new_evidence "udp" "server" 53 35 false "") {
  resolved_address = "10.0.0.1";
  endpoint = "10.0.0.1:53";
  transaction_id = 7;
  response_transaction_id = 7;
  response_received = true;
  response_bytes = 35;
  question_count = 1;
  rcode = 3;
  outcome = Outcome.negative_response;
  success = true;
  attempts = 2;
  candidate_attempts = named_attempt ∷ lane_attempt ∷ [];
}

lane_runs :
    run_transport plain text network none "server"
      ("server" ∷ "10.0.0.1" ∷ [])
      Transport.udp
      (query_of 7)
      7
      53
      2
      false
      ""
    ≡ parsed lane_evidence
unfolding run_transport try_candidates try_retries query_transport exchange write_service_message
    write_all read_response read_answer read_header parse_response check_header check_body
    check_question check_records skip_records read_name read_turns join answer
lane_runs = refl

run_transport-Concludes_example :
    ((err : IoError) × (◌≡◌ {A = Option IoError} none (some err))
      × (lane_evidence.outcome ≡ Outcome.cancellation)
      × (lane_evidence.success ≡ false)
      × (lane_evidence.attempts ≡ 0)
      × (lane_evidence.candidate_attempts ≡ []))
    ⊎ ((◌≡◌ {A = Option IoError} none none) × Concludes 4 lane_evidence)
run_transport-Concludes_example =
    run_transport-Concludes plain text network none "server" ("server" ∷ "10.0.0.1" ∷ [])
      Transport.udp (query_of 7) 7 53 2 false "" lane_evidence (omega arith) lane_runs

abbrev HasTwo : Got → Type 0
HasTwo (got bytes) = length bytes ≡ 2
HasTwo _ = Unit {0}

sent : (write_service_message server Transport.tcp (query_of 7)).0 ≡ none
unfolding write_service_message write_all
sent = refl

write_service_message-sent_example :
    (write_service_message server Transport.tcp (query_of 7)).2 ≡ 0 ∷ 35 ∷ query_of 7
write_service_message-sent_example =
    write_service_message-sent server Transport.tcp (query_of 7) (omega arith) sent

accepted : parse_response plain response 7 ≡ parsed (answered 7 3)
unfolding parse_response check_header check_body check_question check_records skip_records read_name
    read_turns join answer
accepted = refl

parse_response-build_query_example :
    (query : List ℕ) × (build_query 7 ≡ some query)
    × (parse_response plain (answer 3 query) 7 ≡ parsed (answered 7 3))
parse_response-build_query_example =
    parse_response-build_query plain 7 3 (omega arith) (omega arith)

parse_response-Safe_example : Safe (parse_response plain (0 ∷ 7 ∷ 192 ∷ 12 ∷ []) 7)
parse_response-Safe_example = parse_response-Safe plain (0 ∷ 7 ∷ 192 ∷ 12 ∷ []) 7

parse_response-Accepted_example :
    (flags : ℕ) × (u16_at response 2 ≡ parsed flags)
    × (u16_at response 0 ≡ parsed 7)
    × (u16_at response 4 ≡ parsed 1)
    × ((flags / 32768) % 2 ≡ 1)
    × ((flags / 2048) % 16 ≡ 0)
    × (◌≡◌ {A = ℕ} 7 7)
    × (3 ≡ flags % 16)
    × (((false ≡ true) × (Outcome.negative_response ≡ Outcome.truncated_response) × (true ≡ false))
        ⊎ ((false ≡ false)
            × (Outcome.negative_response ≡ (rcode_outcome 3).0)
            × (true ≡ (rcode_outcome 3).1)))
parse_response-Accepted_example = parse_response-Accepted plain response 7 (answered 7 3) accepted

abbrev query_name : List ℕ
query_name =
    6 ∷ 116 ∷ 97 ∷ 100 ∷ 111 ∷ 114 ∷ 105 ∷ 10 ∷ 100 ∷ 105 ∷ 97 ∷ 103 ∷ 110 ∷ 111 ∷ 115 ∷ 116 ∷ 105
    ∷ 99 ∷ []

labels_encoded : encode_labels query_labels ≡ some query_name
unfolding encode_labels
labels_encoded = refl

read_name-encode_labels_example :
    read_name (1 ∷ 2 ∷ (query_name ++ 0 ∷ 9 ∷ [])) 2 ≡ parsed (join query_labels, 21)
read_name-encode_labels_example =
    read_name-encode_labels query_labels query_name (1 ∷ 2 ∷ []) (9 ∷ []) labels_encoded
      (omega arith)

-- The counter wraps at 32 bits.
next_transaction_id_lem_example :
    (1 ≤ (next_transaction_id 4294967295).1) × ((next_transaction_id 4294967295).1 < 65536)
next_transaction_id_lem_example = next_transaction_id_lem 4294967295
