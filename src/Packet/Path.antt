-- ===== src/Packet/Path.antt =====
-- internal/packet/packet.go: the flow of a path probe, `correlatePath`.
use tadori.Base.{
  ℕ, ◌+◌, String, Bool, not, ◌&&◌, ◌||◌, List, [], ◌∷◌, length, leb, ◌==◌, str_eq, ℤ, pos, int_eqb,
  if◌then◌else◌,
}
use tadori.Packet.Defs.{Kind, kind_eq, Certainty, Observation, Emission, FlowOutcome, Flow}
use tadori.Packet.Address.{Words}
use tadori.Packet.Tcp.{
  filter_kind, ports_differ, addresses_differ, identity_is_explicit, correlation_id_is_explicit,
  unique_sorted, pair_responses, matched_ids,
}

-- Two numbers that are both known, and two that are both known and agree.
abbrev both_known : ℕ → ℕ → Bool
both_known m n = not (m == 0) && not (n == 0)

abbrev pub attempts_known : ℤ → ℤ → Bool
attempts_known a b = not (int_eqb a (pos 0)) && not (int_eqb b (pos 0))

-- A key of the response that differs from the one of the emission.
abbrev pub keys_differ : Observation → Observation → Bool
keys_differ e r =
    ports_differ r.icmp_identifier e.icmp_identifier
    || ports_differ r.icmp_sequence e.icmp_sequence
    || ports_differ r.quoted_icmp_identifier e.icmp_identifier
    || ports_differ r.quoted_icmp_sequence e.icmp_sequence
    || ports_differ r.probe_ttl e.probe_ttl
    || (attempts_known r.probe_attempt e.probe_attempt
        && not (int_eqb r.probe_attempt e.probe_attempt))

-- `strongKey`: some key is known on both sides.
abbrev pub strong_key : Observation → Observation → Bool
strong_key e r =
    both_known r.icmp_identifier e.icmp_identifier
    || both_known r.icmp_sequence e.icmp_sequence
    || both_known r.quoted_icmp_identifier e.icmp_identifier
    || both_known r.quoted_icmp_sequence e.icmp_sequence
    || both_known r.probe_ttl e.probe_ttl
    || attempts_known r.probe_attempt e.probe_attempt

abbrev pub correlation_known : Observation → Observation → Bool
correlation_known e r = not (str_eq r.correlation_id "") && not (str_eq e.correlation_id "")

abbrev pub correlation_matches : Observation → Observation → Bool
correlation_matches e r = correlation_known e r && str_eq r.correlation_id e.correlation_id

-- `matchingCorrelationEmissions`
abbrev pub matching_emissions : String → List Observation → ℕ
matching_emissions id [] = 0
matching_emissions id (o ∷ os) =
    let rest = matching_emissions id os in
    if kind_eq o.kind Kind.outbound_icmp_echo && str_eq o.correlation_id id then rest + 1 else rest

abbrev pub is_path_response : Observation → Bool
is_path_response o =
    kind_eq o.kind Kind.inbound_icmp_echo
    || kind_eq o.kind Kind.icmp_time_exceeded
    || kind_eq o.kind Kind.icmp_unreachable

abbrev pub path_outcome : Kind → FlowOutcome
path_outcome Kind.inbound_icmp_echo = FlowOutcome.echo_reply_received
path_outcome Kind.icmp_time_exceeded = FlowOutcome.time_exceeded_received
path_outcome _ = FlowOutcome.unreachable_received

abbrev path_certainty : Kind → Certainty
path_certainty Kind.inbound_icmp_echo = Certainty.confirmed_endpoint_response
path_certainty _ = Certainty.observed_ttl_responder

-- Whether the response selected has a key at all.
abbrev pub has_key : Observation → Bool
has_key o =
    not (o.icmp_sequence == 0)
    || not (o.icmp_identifier == 0)
    || not (o.probe_ttl == 0)
    || not (o.quoted_icmp_sequence == 0)
    || not (o.quoted_icmp_identifier == 0)

abbrev key_method : List Observation → String
key_method emissions =
    if correlation_id_is_explicit emissions
    then "correlation_id_and_path_key"
    else if identity_is_explicit emissions
    then "probe_identity_and_path_key"
    else "path_key"

abbrev unique_method : List Observation → String
unique_method emissions =
    if correlation_id_is_explicit emissions
    then "correlation_id_and_unique_path_tuple"
    else if identity_is_explicit emissions
    then "probe_identity_and_unique_path_tuple"
    else "unique_path_tuple"

abbrev no_response : Flow → Flow
no_response flow = record flow {
  outcome = FlowOutcome.no_matching_response;
  certainty = Certainty.unobservable_segment;
  matched_observation_ids = [];
}

-- The flow with a response, and the method by which it was matched.
abbrev path_matched : Flow → String → Observation → List (Observation × Observation) → Flow
path_matched flow method o pairs = record flow {
  outcome = path_outcome o.kind;
  certainty = path_certainty o.kind;
  correlation_method = method;
  matched_observation_ids = unique_sorted (matched_ids pairs);
}

module _ (words : Words) where
  -- `pathPair`
  unfoldable pub path_pair : ℕ → List Observation → Observation → Observation → Bool
  path_pair emission_count observations e r =
      not (correlation_known e r && not (correlation_matches e r))
      && not (keys_differ e r)
      && not (addresses_differ words r.quoted_destination_address e.destination_address)
      && not (ports_differ r.quoted_destination_port e.destination_port)
      && (strong_key e r
          || (correlation_matches e r && (matching_emissions r.correlation_id observations == 1))
          || (emission_count == 1 && leb (length observations) 2))

  abbrev pub path_answered : Flow → List Observation → List (Observation × Observation) → Flow
  path_answered flow emissions [] = no_response flow
  path_answered flow emissions ((e, o) ∷ rest) =
      if has_key o
      then path_matched flow (key_method emissions) o ((e, o) ∷ rest)
      else if length emissions == 1 && (length rest == 0)
      then path_matched flow (unique_method emissions) o ((e, o) ∷ rest)
      else no_response flow

  abbrev pub path_emitted : Flow → List Observation → List Observation → Flow
  path_emitted flow observations [] = flow
  path_emitted flow observations (e ∷ es) =
      path_answered (record flow { probe_emission = Emission.observed }) (e ∷ es)
        (pair_responses is_path_response (path_pair (length (e ∷ es)) observations) (e ∷ es)
          observations)

  -- `correlatePath`
  unfoldable pub correlate_path : Flow → List Observation → Flow
  correlate_path flow observations =
      path_emitted flow observations (filter_kind Kind.outbound_icmp_echo observations)
