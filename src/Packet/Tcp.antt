-- ===== src/Packet/Tcp.antt =====
-- internal/packet/packet.go: the flow of a TCP probe, `correlateTCP`.
use tadori.Base.{
  ℕ, String, Bool, true, false, not, ◌&&◌, ◌||◌, Option, none, some, List, [], ◌∷◌, ◌==◌, str_eq,
  str_ltb, sort_by, if◌then◌else◌,
}
use tadori.Packet.Defs.{Kind, kind_eq, Certainty, Observation, Emission, FlowOutcome, Flow}
use tadori.Packet.Address.{Words, normalize_address, TcpTuple}
use tadori.Packet.Relevant.{is_inbound}

-- `filterKind`
abbrev pub filter_kind : Kind → List Observation → List Observation
filter_kind kind [] = []
filter_kind kind (o ∷ os) =
    let rest = filter_kind kind os in if kind_eq o.kind kind then o ∷ rest else rest

-- `filterPort`
abbrev pub filter_port : ℕ → List Observation → List Observation
filter_port port [] = []
filter_port port (o ∷ os) =
    let rest = filter_port port os in
    if o.source_port == port || o.local_port == port then o ∷ rest else rest

-- `isTCPResponse`
abbrev pub is_tcp_response : Kind → Bool
is_tcp_response Kind.inbound_tcp_syn_ack = true
is_tcp_response Kind.tcp_rst = true
is_tcp_response Kind.tcp_handshake_confirmed = true
is_tcp_response _ = false

-- Two ports that are both known and differ.
abbrev pub ports_differ : ℕ → ℕ → Bool
ports_differ m n = not (m == 0) && not (n == 0) && not (m == n)

abbrev pub identity_is_explicit : List Observation → Bool
identity_is_explicit [] = false
identity_is_explicit (o ∷ os) =
    (not (str_eq o.probe_id "") || not (str_eq o.session_id "")) || identity_is_explicit os

abbrev pub correlation_id_is_explicit : List Observation → Bool
correlation_id_is_explicit [] = false
correlation_id_is_explicit (o ∷ os) =
    not (str_eq o.correlation_id "") || correlation_id_is_explicit os

-- The loop of `uniqueSorted`, behind a value.
abbrev pub without_repeats : String → List String → List String
without_repeats last [] = []
without_repeats last (v ∷ vs) =
    let rest = without_repeats v vs in
    let same = without_repeats last vs in if str_eq v last then same else v ∷ rest

abbrev pub unique_in_order : List String → List String
unique_in_order [] = []
unique_in_order (v ∷ vs) = v ∷ without_repeats v vs

-- `uniqueSorted`
unfoldable pub unique_sorted : List String → List String
unique_sorted values = unique_in_order (sort_by str_ltb values)

-- The first emission that a test pairs with a response.
abbrev pub first_pair : (Observation → Bool) → List Observation → Option Observation
first_pair test [] = none
first_pair test (e ∷ es) = let rest = first_pair test es in if test e then some e else rest

-- The responses, each with its emission: the two nested loops.
abbrev pub pair_responses :
    (Observation → Bool)
    → (Observation → Observation → Bool)
    → List Observation
    → List Observation
    → List (Observation × Observation)
pair_responses is_response test emissions [] = []
pair_responses is_response test emissions (o ∷ os) =
    let rest = pair_responses is_response test emissions os in
    if is_response o
    then (elim (first_pair (λ e. test e o) emissions) [ none ↦ rest | some e ↦ (e, o) ∷ rest ])
    else rest

abbrev pub matched_ids : List (Observation × Observation) → List String
matched_ids [] = []
matched_ids ((e, o) ∷ rest) = e.id ∷ o.id ∷ matched_ids rest

abbrev pub is_inbound_response : Observation → Bool
is_inbound_response o = is_tcp_response o.kind && is_inbound o.direction

-- The emissions of a TCP probe.
abbrev pub tcp_emissions : List Observation → ℕ → List Observation
tcp_emissions observations port =
    let syns = filter_kind Kind.outbound_tcp_syn observations in
    if port == 0 then syns else filter_port port syns

abbrev pub tcp_method : List Observation → String
tcp_method emissions =
    if correlation_id_is_explicit emissions
    then "correlation_id_and_tcp_tuple"
    else if identity_is_explicit emissions
    then "probe_identity_and_tcp_tuple"
    else "process_and_tcp_tuple"

abbrev pub tcp_outcome : Kind → FlowOutcome
tcp_outcome Kind.inbound_tcp_syn_ack = FlowOutcome.syn_ack_received
tcp_outcome Kind.tcp_handshake_confirmed = FlowOutcome.handshake_confirmed
tcp_outcome _ = FlowOutcome.rst_received

module _ (words : Words) where
  -- Two addresses that are both known and differ.
  abbrev pub addresses_differ : String → String → Bool
  addresses_differ s t =
      not (str_eq s "")
      && not (str_eq t "")
      && not (str_eq (normalize_address words s) (normalize_address words t))

  -- `tcpPair`
  unfoldable pub tcp_pair : Observation → Observation → Bool
  tcp_pair emission response =
      not (
        not (str_eq emission.connection_id "")
        && not (str_eq response.connection_id "")
        && not (str_eq emission.connection_id response.connection_id))
      && not (ports_differ emission.source_port response.destination_port)
      && not (ports_differ emission.destination_port response.source_port)
      && not (addresses_differ emission.source_address response.destination_address)
      && not (addresses_differ emission.destination_address response.source_address)

  abbrev pub tcp_answered : Flow → List Observation → List (Observation × Observation) → Flow
  tcp_answered flow emissions [] = record flow {
    outcome = FlowOutcome.no_matching_response;
    certainty = Certainty.unobservable_segment;
    correlation_method = tcp_method emissions;
  }
  tcp_answered flow emissions ((e, o) ∷ rest) = record flow {
    outcome = tcp_outcome o.kind;
    certainty = Certainty.confirmed_endpoint_response;
    correlation_method = tcp_method emissions;
    matched_observation_ids = unique_sorted (matched_ids ((e, o) ∷ rest));
  }

  abbrev pub tcp_emitted : Flow → List Observation → List Observation → Flow
  tcp_emitted flow observations [] = flow
  tcp_emitted flow observations (e ∷ es) =
      tcp_answered (record flow { probe_emission = Emission.observed }) (e ∷ es)
        (pair_responses is_inbound_response tcp_pair (e ∷ es) observations)

  -- `correlateTCP`
  unfoldable pub correlate_tcp : Flow → List Observation → TcpTuple → Flow
  correlate_tcp flow observations tuple =
      tcp_emitted flow observations (tcp_emissions observations tuple.local_port)
