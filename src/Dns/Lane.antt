-- ===== src/Dns/Lane.antt =====
-- internal/probe/dns/service.go: the attempts over one transport, `runTransport`. What the addresses
-- of net/netip and the functions of strings and net give is a parameter, and so is what the network
-- and the clock do: the answer to a dial and the error of the context, by the number of attempts
-- made so far.
use tadori.Base.{
  ℕ, zero, suc, ◌+◌, String, Bool, true, false, Option, none, some, List, [], ◌∷◌, ◌++◌, length,
  ltb, str_eq, if◌then◌else◌,
}
use tadori.Route.Netip.{Addr, normalize_addr}
use tadori.Dns.Parse.{Outcome, Parse, parsed, ◌>>=◌}
use tadori.Dns.Response.{Unicode}
use tadori.Dns.Connection.{
  IoError, service_error_kind, service_outcome_for_error, Transport, transport_name, Dial,
}
use tadori.Dns.Attempt.{Attempt, failed_service_attempt, query_transport}

-- `strings.Trim(strings.TrimSpace(s), "[]")`, `netip.ParseAddr`, `Addr.String`, `net.JoinHostPort`.
pub record Text : Type 0 where
  pub trim_host : String → String
  pub parse_addr : String → Option Addr
  pub addr_text : Addr → String
  pub join_host_port : String → ℕ → String

pub record Network : Type 0 where
  pub dial : ℕ → Dial
  pub context_error : ℕ → Option IoError

-- `normalizeServiceCandidate`, of which the loop reads the address.
abbrev pub normalize_service_candidate : Text → String → String
normalize_service_candidate text address =
    let host = text.trim_host address in
    elim (text.parse_addr host) [ none ↦ host | some a ↦ text.addr_text (normalize_addr a) ]

abbrev pub service_attempt_rank : Outcome → ℕ
service_attempt_rank Outcome.refused = 5
service_attempt_rank Outcome.servfail = 5
service_attempt_rank Outcome.protocol_failure = 5
service_attempt_rank Outcome.malformed_response = 4
service_attempt_rank Outcome.truncated_response = 4
service_attempt_rank Outcome.timeout = 3
service_attempt_rank Outcome.transport_failure = 2
service_attempt_rank Outcome.cancellation = 1
service_attempt_rank _ = 0

-- The attempts of the evidence, and `best`, `bestSet` and `bestRank` in one.
pub record Tally : Type 0 where
  pub attempts : ℕ
  pub candidate_attempts : List Attempt
  pub best : Option Attempt

abbrev pub count_attempt : Attempt → Tally → Tally
count_attempt a t = record t {
  attempts = t.attempts + 1;
  candidate_attempts = t.candidate_attempts ++ a ∷ [];
}

abbrev pub better : Option Attempt → Attempt → Attempt
better none a = a
better (some b) a =
    if ltb (service_attempt_rank b.outcome) (service_attempt_rank a.outcome) then a else b

abbrev pub record_attempt : Attempt → Tally → Tally
record_attempt a t = record (count_attempt a t) { best = some (better t.best a) }

-- Whether an attempt has succeeded.
pub data Progress : Type 0 where
  going : Tally → Progress
  done : Tally → Attempt → Progress

module _ (unicode : Unicode) (text : Text) (network : Network) (transport : Transport)
    (query : List ℕ) (id port max_attempts : ℕ) where
  -- The loop over `retry`, with the turns that are left and the number of the next attempt.
  unfoldable pub try_retries : ℕ → ℕ → String → Tally → Parse Progress
  try_retries zero number address t = parsed (going t)
  try_retries (suc left) number address t =
      let requested = text.join_host_port address port in
      elim (network.context_error t.attempts) [
        | some e ↦ parsed (
            going (
              record_attempt
                (failed_service_attempt address requested number (service_error_kind e)
                  (service_outcome_for_error e))
                t))
        | none ↦
            query_transport unicode (network.dial t.attempts) transport requested address query id
              number
            >>= λ a.
                let rest = try_retries left (number + 1) address (record_attempt a t) in
                if a.success then parsed (done (count_attempt a t) a) else rest
      ]

  -- The loop over the candidates.
  unfoldable pub try_candidates : List String → Tally → Parse Progress
  try_candidates [] t = parsed (going t)
  try_candidates (c ∷ cs) t =
      let address = normalize_service_candidate text c in
      let skipped = try_candidates cs t in
      let unresolved = try_candidates cs (
        record_attempt
          (failed_service_attempt address (text.join_host_port address port) 1 "unresolved_endpoint"
            Outcome.transport_failure)
          t) in
      if str_eq address "" then skipped else elim (text.parse_addr address) [
        | none ↦ unresolved
        | some a ↦ try_retries max_attempts 1 (text.addr_text (normalize_addr a)) t >>= λ p.
            elim p [
              | done after success ↦ parsed (done after success)
              | going after ↦ try_candidates cs after
            ]
      ]

-- `DNSServiceEvidence`, without its constants and its duration.
pub record Evidence : Type 0 where
  pub transport : String
  pub requested_endpoint : String
  pub resolved_address : String
  pub endpoint : String
  pub port : ℕ
  pub transaction_id : ℕ
  pub response_transaction_id : ℕ
  pub query_bytes : ℕ
  pub response_received : Bool
  pub response_bytes : ℕ
  pub question_count : ℕ
  pub answer_count : ℕ
  pub authority_count : ℕ
  pub additional_count : ℕ
  pub rcode : ℕ
  pub truncated : Bool
  pub outcome : Outcome
  pub success : Bool
  pub attempts : ℕ
  pub candidate_attempts : List Attempt
  pub fallback : Bool
  pub fallback_reason : String
  pub error_kind : String

abbrev pub new_evidence : String → String → ℕ → ℕ → Bool → String → Evidence
new_evidence transport requested port query_bytes fallback fallback_reason = record {
  transport = transport;
  requested_endpoint = requested;
  resolved_address = "";
  endpoint = "";
  port = port;
  transaction_id = 0;
  response_transaction_id = 0;
  query_bytes = query_bytes;
  response_received = false;
  response_bytes = 0;
  question_count = 0;
  answer_count = 0;
  authority_count = 0;
  additional_count = 0;
  rcode = 0;
  truncated = false;
  outcome = Outcome.unknown;
  success = false;
  attempts = 0;
  candidate_attempts = [];
  fallback = fallback;
  fallback_reason = fallback_reason;
  error_kind = "";
}

-- `copyAttemptToEvidence`
abbrev pub copy_attempt : Attempt → Evidence → Evidence
copy_attempt a e = record e {
  resolved_address = a.candidate;
  endpoint = a.endpoint;
  transaction_id = a.transaction_id;
  response_transaction_id = a.response_transaction_id;
  response_received = a.response_received;
  response_bytes = a.response_bytes;
  question_count = a.question_count;
  answer_count = a.answer_count;
  authority_count = a.authority_count;
  additional_count = a.additional_count;
  rcode = a.rcode;
  truncated = a.truncated;
  outcome = a.outcome;
  error_kind = a.error_kind;
}

abbrev pub counted : Tally → Evidence → Evidence
counted t e = record e { attempts = t.attempts; candidate_attempts = t.candidate_attempts }

-- The evidence of a lane, at its end.
abbrev pub conclude : Progress → Evidence → Evidence
conclude (done t a) e = record (copy_attempt a (counted t e)) {
  success = true;
  outcome = a.outcome;
}
conclude (going t) e = elim t.best [
  | some b ↦ copy_attempt b (counted t e)
  | none ↦ record (counted t e) {
    outcome = Outcome.transport_failure;
    error_kind = "invalid_endpoint";
  }
]

abbrev pub new_tally : Tally
new_tally = record { attempts = 0; candidate_attempts = []; best = none }

-- `runTransport`, where the context has this error at its start.
module _ (unicode : Unicode) (text : Text) (network : Network) where
  unfoldable pub run_transport :
      Option IoError
      → String
      → List String
      → Transport
      → List ℕ
      → ℕ
      → ℕ
      → ℕ
      → Bool
      → String
      → Parse Evidence
  run_transport ended requested candidates transport query id port max_attempts fallback reason =
      let e =
        new_evidence (transport_name transport) requested port (length query) fallback reason in
      elim ended [
        | some err ↦
            parsed
              (record e { outcome = Outcome.cancellation; error_kind = service_error_kind err })
        | none ↦
            try_candidates unicode text network transport query id port max_attempts candidates
              new_tally
            >>= λ p. parsed (conclude p e)
      ]
