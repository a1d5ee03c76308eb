-- ===== src/Packet/Relevant.antt =====
-- internal/packet/packet.go: which observations a probe's scope admits, and in which order,
-- `relevantObservations`; and `NormalizePacketObservation` of internal/model/packet.go.
use tadori.Base.{
  ℕ, ◌+◌, String, Bool, true, false, not, ◌&&◌, ◌||◌, none, some, List, [], ◌∷◌, ltb, ◌==◌, str_eq,
  str_ltb, sort_by, keep, if◌then◌else◌,
}
use tadori.Model.{Time}
use tadori.Packet.Defs.{
  Kind, kind_eq, outbound_tcp_syn, outbound_icmp_echo, Direction, Certainty, Observation,
  PacketTarget, ProbeIdentity, tcp_probe, Scope,
}
use tadori.Packet.Address.{
  Words, normalize_address, normalize_packet_address, matches_address, TcpTuple,
}

abbrev pub is_inbound : Direction → Bool
is_inbound Direction.inbound = true
is_inbound _ = false

abbrev pub is_outbound : Direction → Bool
is_outbound Direction.outbound = true
is_outbound _ = false

-- `ClassifyPacketCertainty`
abbrev pub classify_packet_certainty : Kind → Direction → Certainty
classify_packet_certainty Kind.inbound_tcp_syn_ack d = Certainty.confirmed_endpoint_response
classify_packet_certainty Kind.inbound_icmp_echo d = Certainty.confirmed_endpoint_response
classify_packet_certainty Kind.tcp_handshake_confirmed d = Certainty.confirmed_endpoint_response
classify_packet_certainty Kind.tcp_rst d =
    if is_inbound d
    then Certainty.confirmed_endpoint_response
    else Certainty.directly_observed_local_packet
classify_packet_certainty Kind.icmp_time_exceeded d = Certainty.observed_ttl_responder
classify_packet_certainty Kind.icmp_unreachable d = Certainty.observed_ttl_responder
classify_packet_certainty Kind.outbound_tcp_syn d = Certainty.directly_observed_local_packet
classify_packet_certainty Kind.outbound_icmp_echo d = Certainty.directly_observed_local_packet
classify_packet_certainty Kind.other_kind d = Certainty.unobservable_segment

abbrev protocol_of : Kind → String
protocol_of Kind.other_kind = ""
protocol_of Kind.outbound_tcp_syn = "tcp"
protocol_of Kind.inbound_tcp_syn_ack = "tcp"
protocol_of Kind.tcp_rst = "tcp"
protocol_of Kind.tcp_handshake_confirmed = "tcp"
protocol_of _ = "icmp"

abbrev certainty_or : Certainty → Certainty → Certainty
certainty_or Certainty.no_certainty d = d
certainty_or c d = c

-- `identityMatches`: two names agree unless both are set and differ.
abbrev pub agree : String → String → Bool
agree s t = str_eq s "" || str_eq t "" || str_eq s t

abbrev pub identity_matches : Observation → ProbeIdentity → Bool
identity_matches o identity =
    agree o.session_id identity.session_id
    && agree o.probe_id identity.probe_id
    && agree o.correlation_id identity.correlation_id

abbrev pub process_matches : Observation → ℕ → Bool
process_matches o process_id = process_id == 0 || o.process_id == 0 || o.process_id == process_id

-- `withinWindow`; the zero time is no time.
abbrev pub within_window : Time → Time → Time → Bool
within_window seen start end =
    seen == 0 || (not (not (start == 0) && ltb seen start) && not (not (end == 0) && ltb end seen))

-- The `less` of the sort: by time, with no time last, and then by identifier.
abbrev pub earlier : Observation → Observation → Bool
earlier a b =
    if a.observed_at == b.observed_at
    then str_ltb a.id b.id
    else if a.observed_at == 0
    then false
    else if b.observed_at == 0
    then true
    else ltb a.observed_at b.observed_at

-- The names given to the observations without one, from this index on; `name` is
-- `fmt.Sprintf("%s/observation-%03d", id, index)`.
unfoldable pub name_observations :
    (String → ℕ → String) → String → ℕ → List Observation → List Observation
name_observations name id index [] = []
name_observations name id index (o ∷ os) =
    let rest = name_observations name id (index + 1) os in
    (if str_eq o.id "" then record o { id = name id index } else o) ∷ rest

module _ (words : Words) where
  -- `NormalizePacketObservation`
  unfoldable pub normalize_packet_observation : Observation → Observation
  normalize_packet_observation o = record o {
    local_address = normalize_packet_address words o.local_address;
    source_address = normalize_packet_address words o.source_address;
    destination_address = normalize_packet_address words o.destination_address;
    quoted_source_address = normalize_packet_address words o.quoted_source_address;
    quoted_destination_address = normalize_packet_address words o.quoted_destination_address;
    protocol = if str_eq o.protocol "" then protocol_of o.kind else o.protocol;
    certainty = certainty_or o.certainty (classify_packet_certainty o.kind o.direction);
  }

  -- The remote address that `tcpTargetMatches` looks for.
  abbrev pub remote_of : PacketTarget → TcpTuple → String
  remote_of target tuple =
      if str_eq tuple.remote_address ""
      then (elim target.selected_endpoint [
        | some a ↦ normalize_address words a
        | none ↦ normalize_address words target.literal_ip
      ])
      else tuple.remote_address

  abbrev pub local_port_matches : Observation → TcpTuple → Bool
  local_port_matches o tuple =
      let port =
        if o.local_port == 0
        then (if is_inbound o.direction then o.destination_port else o.source_port)
        else o.local_port in
      tuple.local_port == 0 || port == tuple.local_port

  abbrev pub local_address_matches : Observation → TcpTuple → Bool
  local_address_matches o tuple =
      let address =
        if str_eq o.local_address ""
        then (if is_inbound o.direction then o.destination_address else o.source_address)
        else o.local_address in
      str_eq tuple.local_address ""
      || str_eq (normalize_address words address) (normalize_address words tuple.local_address)

  abbrev pub port_matches : Observation → ℕ → Bool
  port_matches o port =
      port == 0
      || kind_eq o.kind outbound_icmp_echo
      || (if kind_eq o.kind outbound_tcp_syn || is_outbound o.direction
          then o.destination_port == port
          else o.source_port == port || o.destination_port == port)

  -- Whether one of the addresses is the one expected or the target's.
  abbrev pub some_address : PacketTarget → String → List String → Bool
  some_address target expected [] = false
  some_address target expected (a ∷ as') =
      str_eq (normalize_address words a) expected
      || matches_address words target a
      || some_address target expected as'

  -- `tcpTargetMatches`
  unfoldable pub tcp_target_matches : Observation → PacketTarget → TcpTuple → Bool
  tcp_target_matches given target tuple =
      let o = normalize_packet_observation given in
      let remote = remote_of target tuple in
      local_port_matches o tuple
      && local_address_matches o tuple
      && port_matches o target.port
      && (str_eq remote ""
          || some_address target remote (o.source_address ∷ o.destination_address ∷ []))

  abbrev pub path_expected : PacketTarget → String
  path_expected target =
      let literal = normalize_address words target.literal_ip in
      let selected : String = elim target.selected_endpoint [
        | some a ↦ normalize_address words a
        | none ↦ ""
      ] in
      let second = if str_eq literal "" then selected else literal in
      if str_eq second "" && str_eq target.literal_ip ""
      then normalize_address words target.requested_identity
      else second

  -- `pathTargetMatches`
  unfoldable pub path_target_matches : Observation → PacketTarget → Bool
  path_target_matches o target =
      let expected = path_expected target in
      not (str_eq expected "")
      && some_address target expected (
          o.source_address ∷ o.destination_address ∷ o.quoted_source_address
          ∷ o.quoted_destination_address ∷ [])

  -- The tests of the loop of `relevantObservations`.
  unfoldable pub is_relevant : Scope → TcpTuple → Time → Time → Observation → Bool
  is_relevant scope tuple start end o =
      identity_matches o scope.identity
      && process_matches o scope.process_id
      && within_window o.observed_at start end
      && (elim scope.probe_type [
        | tcp_probe ↦ tcp_target_matches o scope.target tuple
        | _ ↦ path_target_matches o scope.target
      ])

  abbrev pub keep_relevant : Scope → TcpTuple → Time → Time → List Observation → List Observation
  keep_relevant scope tuple start end =
      keep normalize_packet_observation (is_relevant scope tuple start end)

  -- `relevantObservations`
  unfoldable pub relevant_observations :
      (String → ℕ → String) → List Observation → Scope → TcpTuple → Time → Time → List Observation
  relevant_observations name input scope tuple start end =
      name_observations name scope.identity.correlation_id 1
        (sort_by earlier (keep_relevant scope tuple start end input))
