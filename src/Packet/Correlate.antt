-- ===== src/Packet/Correlate.antt =====
-- internal/packet/packet.go: `Scope.validate` and `Correlate`.
use tadori.Base.{
  ℕ, String, Bool, true, false, not, ◌&&◌, ◌||◌, Option, none, some, List, [], ◌==◌, str_eq,
  if◌then◌else◌,
}
use tadori.Model.{Time, ProbeStatus}
use tadori.Packet.Defs.{
  Certainty, Observation, CaptureStatus, Emission, FlowOutcome, PacketTarget, ProbeIdentity,
  path_probe, other_probe, Scope, ResultInput, CorrelationInput, Flow,
}
use tadori.Packet.Address.{Words, TcpTuple, tcp_tuple}
use tadori.Packet.Relevant.{relevant_observations}
use tadori.Packet.Tcp.{correlate_tcp}
use tadori.Packet.Path.{correlate_path}

-- What a scope that is not valid lacks.
pub data ScopeError : Type 0 where
  identity_required target_required unsupported_probe_type : ScopeError

-- `Scope.validate`
abbrev pub validate_scope : Words → Scope → Option ScopeError
validate_scope words scope =
    if str_eq scope.identity.session_id ""
      || str_eq scope.identity.probe_id ""
      || str_eq scope.identity.correlation_id ""
    then some identity_required
    else if str_eq (words.trim_space scope.target.requested_identity) "" || scope.target.port == 0
    then some target_required
    else elim scope.probe_type [ other_probe ↦ some unsupported_probe_type | _ ↦ none ]

-- `captureStatus`
unfoldable pub capture_status : CorrelationInput → CaptureStatus
capture_status input =
    if input.cancelled || input.capture.cancelled
    then CaptureStatus.cancelled
    else elim input.start_error [
      | some e ↦
          if e.is_insufficient_privilege
          then CaptureStatus.insufficient_privilege
          else if e.is_unsupported
          then CaptureStatus.unsupported
          else CaptureStatus.error
      | none ↦ elim input.stop_error [
        | some e ↦
            if e.is_insufficient_privilege
            then CaptureStatus.insufficient_privilege
            else CaptureStatus.error
        | none ↦
            if not (str_eq input.capture.error "")
            then CaptureStatus.error
            else if not (input.capture.events_lost == 0)
            then CaptureStatus.partial
            else if not input.capture.complete
            then CaptureStatus.error
            else CaptureStatus.available
      ]
    ]

-- `windowStart` and `windowEnd`: the scope's time, or else the result's.
abbrev pub time_or : Time → Option Time → Time
time_or t none = t
time_or t (some u) = if t == 0 then u else t

abbrev pub or_else : String → String → String
or_else s t = if str_eq s "" then t else s

abbrev pub identity_of : Scope → ResultInput → ProbeIdentity
identity_of scope result = record {
  session_id = or_else scope.identity.session_id result.session_id;
  probe_id = or_else scope.identity.probe_id result.probe_id;
  correlation_id = or_else scope.identity.correlation_id result.correlation_id;
}

abbrev pub target_of : Scope → ResultInput → PacketTarget
target_of scope result =
    if str_eq scope.target.original_input ""
      && str_eq scope.target.requested_identity ""
      && scope.target.port == 0
    then result.target
    else scope.target

abbrev capture_error_of : CorrelationInput → String
capture_error_of input =
    let started : String = elim input.start_error [ some e ↦ e.text | none ↦ "" ] in
    let stopped : String = elim input.stop_error [ some e ↦ e.text | none ↦ started ] in
    if not (str_eq input.capture.error "") && str_eq stopped ""
    then input.capture.error
    else stopped

abbrev pub with_tuple : TcpTuple → Flow → Flow
with_tuple tuple flow =
    if str_eq tuple.local_address ""
    then flow
    else record flow { local_address = tuple.local_address; local_port = tuple.local_port }

module _ (words : Words) (name : String → ℕ → String) where
  -- The scope that `Correlate` works with.
  abbrev pub scope_of : CorrelationInput → Scope
  scope_of input = record (input.scope) {
    identity = identity_of input.scope input.result;
    target = words.normalize_target (target_of input.scope input.result);
  }

  -- `canClassifyProbeNotEmitted`
  abbrev pub can_classify_probe_not_emitted : Scope → TcpTuple → ProbeStatus → Bool
  can_classify_probe_not_emitted scope tuple status = elim scope.probe_type [
    | path_probe ↦ elim status [ ProbeStatus.passed ↦ true | _ ↦ false ]
    | _ ↦
        not (str_eq tuple.remote_address "")
        || (elim (words.parse_addr (words.trim_host scope.target.literal_ip)) [
          | some a ↦ true
          | none ↦ false
        ])
  ]

  -- The flow before the observations are looked at.
  abbrev pub new_flow : CorrelationInput → Flow
  new_flow input =
      let scope = scope_of input in
      record {
        session_id = scope.identity.session_id;
        probe_id = scope.identity.probe_id;
        correlation_id = scope.identity.correlation_id;
        target = scope.target;
        capture_status = capture_status input;
        capture_source = or_else input.capture.source "scoped-packet-backend";
        capture_error = capture_error_of input;
        events_lost = input.capture.events_lost;
        window_started_at = time_or scope.window_started input.result.started_at;
        window_completed_at = time_or scope.deadline input.result.completed_at;
        probe_emission = Emission.unknown;
        outcome = FlowOutcome.capture_unavailable;
        correlation_method = "";
        matched_observation_ids = [];
        certainty = Certainty.unobservable_segment;
        local_address = "";
        local_port = 0;
        observations = [];
      }

  -- The observations that are correlated.
  abbrev pub admitted : CorrelationInput → List Observation
  admitted input =
      let flow = new_flow input in
      relevant_observations words name input.capture.observations (scope_of input)
        (tcp_tuple words input.result.evidence) flow.window_started_at flow.window_completed_at

  abbrev pub correlated : CorrelationInput → Flow
  correlated input =
      let tuple = tcp_tuple words input.result.evidence in
      let observations = admitted input in
      let flow = record (with_tuple tuple (new_flow input)) { observations = observations } in
      elim (input.scope).probe_type [
        | path_probe ↦ correlate_path words flow observations
        | _ ↦ correlate_tcp words flow observations tuple
      ]

  -- The last step: a probe that the complete capture has not seen.
  abbrev pub classify_absence : CorrelationInput → Flow → Flow
  classify_absence input flow =
      let tuple = tcp_tuple words input.result.evidence in
      let absent =
        input.probe_started
        && input.capture.complete
        && can_classify_probe_not_emitted (scope_of input) tuple input.result.status in
      elim flow.probe_emission [
        | Emission.unknown ↦
            if absent
            then record flow {
              probe_emission = Emission.not_observed;
              outcome = FlowOutcome.probe_not_observed;
            }
            else flow
        | _ ↦ flow
      ]

  -- `Correlate`
  unfoldable pub correlate : CorrelationInput → Flow
  correlate input = elim (capture_status input) [
    | CaptureStatus.cancelled ↦ record (new_flow input) { outcome = FlowOutcome.flow_cancelled }
    | CaptureStatus.available ↦ classify_absence input (correlated input)
    | _ ↦ new_flow input
  ]
