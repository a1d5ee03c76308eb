-- ===== src/Dns/Service.antt =====
-- internal/probe/dns/service.go: `DNSServiceProbe.Run`, the query over UDP and over TCP. The
-- candidates of the target and the errors of the contexts are arguments; timing is left out.
use tadori.Base.{
  ℕ, ◌+◌, String, Bool, true, false, not, ◌&&◌, ◌||◌, Option, none, some, List, [], ◌∷◌, length,
  take, ltb, ◌==◌, ℤ, pos, negsuc, str_eq, ◌%◌, if◌then◌else◌,
}
use tadori.Model.{ProbeStatus}
use tadori.Route.Netip.{Addr, is4, normalize_addr}
use tadori.Dns.Parse.{Outcome, Parse, parsed, ◌>>=◌}
use tadori.Dns.Message.{build_query}
use tadori.Dns.Response.{Unicode}
use tadori.Dns.Connection.{IoError, Transport}
use tadori.Dns.Lane.{Text, Network, Evidence, new_evidence, run_transport}

-- `nextTransactionID`: the next value of the counter, and the identifier.
unfoldable pub next_transaction_id : ℕ → ℕ × ℕ
next_transaction_id counter =
    let value = (counter + 1) % 4294967296 in
    let id = value % 65536 in (value, if id == 0 then 1 else id)

-- The retries as `NewService` bounds them.
abbrev pub bounded_retries : ℤ → ℕ
bounded_retries (negsuc n) = 0
bounded_retries (pos n) = if ltb 2 n then 2 else n

abbrev pub max_endpoint_candidates : ℕ
max_endpoint_candidates = 4

-- `requestedServiceEndpoint`
abbrev pub requested_service_endpoint : Text → String → ℕ → String
requested_service_endpoint text identity port =
    if (port == 0) || str_eq identity "" then identity else text.join_host_port identity port

-- `serviceEvidenceFailureReason`
abbrev pub service_evidence_failure_reason : Outcome → String
service_evidence_failure_reason Outcome.refused = "dns_service_refused"
service_evidence_failure_reason Outcome.servfail = "dns_service_servfail"
service_evidence_failure_reason Outcome.protocol_failure = "dns_service_protocol_failure"
service_evidence_failure_reason Outcome.malformed_response = "dns_service_malformed_response"
service_evidence_failure_reason Outcome.truncated_response = "dns_service_truncated_response"
service_evidence_failure_reason Outcome.timeout = "dns_service_timeout"
service_evidence_failure_reason Outcome.cancellation = "dns_service_cancellation"
service_evidence_failure_reason Outcome.no_resolved_endpoint = "dns_service_no_resolved_endpoint"
service_evidence_failure_reason Outcome.transport_failure = "dns_service_transport_failure"
service_evidence_failure_reason _ = "unknown"

-- `serviceFailureReason`
abbrev pub service_failure_reason : Evidence → Evidence → String
service_failure_reason udp tcp =
    let first = service_evidence_failure_reason udp.outcome in
    let second = service_evidence_failure_reason tcp.outcome in
    if not (str_eq first "unknown")
    then first
    else if not (str_eq second "unknown")
    then second
    else "dns_service_transport_failure"

-- `"udp_" + string(udp.Outcome)`
abbrev pub fallback_reason_of : Outcome → String
fallback_reason_of Outcome.success = "udp_success"
fallback_reason_of Outcome.negative_response = "udp_negative_response"
fallback_reason_of Outcome.refused = "udp_refused"
fallback_reason_of Outcome.servfail = "udp_servfail"
fallback_reason_of Outcome.protocol_failure = "udp_protocol_failure"
fallback_reason_of Outcome.malformed_response = "udp_malformed_response"
fallback_reason_of Outcome.truncated_response = "udp_truncated_response"
fallback_reason_of Outcome.timeout = "udp_timeout"
fallback_reason_of Outcome.transport_failure = "udp_transport_failure"
fallback_reason_of Outcome.cancellation = "udp_cancellation"
fallback_reason_of Outcome.not_attempted = "udp_not_attempted"
fallback_reason_of Outcome.no_resolved_endpoint = "udp_no_resolved_endpoint"
fallback_reason_of Outcome.unknown = "udp_unknown"

abbrev pub is_cancellation : Outcome → Bool
is_cancellation Outcome.cancellation = true
is_cancellation _ = false

-- `successfulServiceEndpoint`: whether the address is one of IPv4, and the address.
abbrev pub successful_service_endpoint : Text → List Evidence → Option (Bool × Addr)
successful_service_endpoint text [] = none
successful_service_endpoint text (e ∷ es) =
    let later = successful_service_endpoint text es in
    if not e.success || str_eq e.resolved_address ""
    then later
    else elim (text.parse_addr e.resolved_address) [
      | none ↦ later
      | some a ↦ some (is4 a, normalize_addr a)
    ]

pub record ServiceResult : Type 0 where
  pub status : ProbeStatus
  pub failure_reason : String
  pub evidence : List Evidence
  pub tested_endpoint : Option (Bool × Addr)

-- `serviceNotAttemptedEvidence`
abbrev pub service_not_attempted : String → String → ℕ → ℕ → ℕ → String → Outcome → Evidence
service_not_attempted transport requested port id size reason outcome =
    record (new_evidence transport requested port size false "") {
      transaction_id = id;
      outcome = outcome;
      error_kind = reason;
    }

-- Both lanes without an attempt, for one reason.
abbrev pub not_queried : String → ℕ → ℕ → ℕ → String → Outcome → ServiceResult
not_queried requested port id size reason outcome = record {
  status = ProbeStatus.error;
  failure_reason = reason;
  evidence =
      service_not_attempted "udp" requested port id size reason outcome
      ∷ service_not_attempted "tcp" requested port id size reason outcome
      ∷ [];
  tested_endpoint = none;
}

-- `serviceFailureEvidence`
abbrev pub query_failure : String → ℕ → ℕ → ServiceResult
query_failure requested port id = record {
  status = ProbeStatus.error;
  failure_reason = "dns_service_protocol_failure";
  evidence =
      (record (new_evidence "both" requested port 0 false "") {
        transaction_id = id;
        outcome = Outcome.protocol_failure;
        error_kind = "query_build_failure";
      })
      ∷ [];
  tested_endpoint = none;
}

-- The result of the two lanes.
abbrev pub combine : Text → Evidence → Evidence → ServiceResult
combine text udp tcp =
    let passed = udp.success || tcp.success in
    record {
      status =
          if passed
          then ProbeStatus.passed
          else if is_cancellation udp.outcome && is_cancellation tcp.outcome
          then ProbeStatus.error
          else ProbeStatus.failed;
      failure_reason = if passed then "none" else service_failure_reason udp tcp;
      evidence = udp ∷ tcp ∷ [];
      tested_endpoint = successful_service_endpoint text (udp ∷ tcp ∷ []);
    }

module _ (unicode : Unicode) (text : Text) (udp_network tcp_network : Network) where
  unfoldable pub run_lanes :
      Option IoError
      → Option IoError
      → String
      → List String
      → List ℕ
      → ℕ
      → ℕ
      → ℕ
      → Parse ServiceResult
  run_lanes udp_ended tcp_ended requested candidates query id port max_attempts = do
    udp ←
        run_transport unicode text udp_network udp_ended requested candidates Transport.udp query id
          port max_attempts false ""
    let fallback = udp.response_received && not udp.success
    tcp ←
        run_transport unicode text tcp_network tcp_ended requested candidates Transport.tcp query id
          port max_attempts fallback (if fallback then fallback_reason_of udp.outcome else "")
    parsed (combine text udp tcp)

  -- `Run`, where `ended` is the error of the caller's context.
  unfoldable pub run_service :
      Option IoError
      → Option IoError
      → Option IoError
      → String
      → List String
      → ℕ
      → ℕ
      → ℤ
      → Parse ServiceResult
  run_service ended udp_ended tcp_ended identity candidates id port retries =
      let requested = requested_service_endpoint text identity port in
      let bounded = take max_endpoint_candidates candidates in
      elim (build_query id) [
        | none ↦ parsed (query_failure requested port id)
        | some query ↦
            if length bounded == 0
            then parsed (
                not_queried requested port id (length query) "dns_service_no_resolved_endpoint"
                  Outcome.no_resolved_endpoint)
            else elim ended [
              | some e ↦ parsed (
                  if e.deadline_exceeded
                  then not_queried requested port id (length query) "dns_service_timeout"
                      Outcome.timeout
                  else not_queried requested port id (length query) "dns_service_cancellation"
                      Outcome.cancellation)
              | none ↦
                  run_lanes udp_ended tcp_ended requested bounded query id port
                    (bounded_retries retries + 1)
            ]
      ]
