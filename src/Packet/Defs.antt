-- ===== src/Packet/Defs.antt =====
-- internal/model/packet.go and the types of internal/packet/packet.go. A struct keeps the fields
-- that the correlation reads or writes; a field that is not set is the empty string or zero.
use tadori.Base.{ℕ, String, Bool, true, false, Option, List, ℤ}
use tadori.Model.{Time, ProbeStatus}

pub data Kind : Type 0 where
  outbound_tcp_syn inbound_tcp_syn_ack tcp_rst icmp_time_exceeded icmp_unreachable : Kind
  outbound_icmp_echo inbound_icmp_echo tcp_handshake_confirmed other_kind : Kind

abbrev pub kind_eq : Kind → Kind → Bool
kind_eq outbound_tcp_syn outbound_tcp_syn = true
kind_eq inbound_tcp_syn_ack inbound_tcp_syn_ack = true
kind_eq tcp_rst tcp_rst = true
kind_eq icmp_time_exceeded icmp_time_exceeded = true
kind_eq icmp_unreachable icmp_unreachable = true
kind_eq outbound_icmp_echo outbound_icmp_echo = true
kind_eq inbound_icmp_echo inbound_icmp_echo = true
kind_eq tcp_handshake_confirmed tcp_handshake_confirmed = true
kind_eq other_kind other_kind = true
kind_eq _ _ = false

pub data Direction : Type 0 where
  outbound inbound no_direction : Direction

pub data Certainty : Type 0 where
  directly_observed_local_packet observed_ttl_responder confirmed_endpoint_response : Certainty
  inferred_transit_segment unobservable_segment no_certainty : Certainty

-- `PacketObservation`
pub record Observation : Type 0 where
  pub id : String
  pub session_id : String
  pub probe_id : String
  pub correlation_id : String
  pub kind : Kind
  pub protocol : String
  pub direction : Direction
  pub local_address : String
  pub local_port : ℕ
  pub source_address : String
  pub source_port : ℕ
  pub destination_address : String
  pub destination_port : ℕ
  pub icmp_identifier : ℕ
  pub icmp_sequence : ℕ
  pub probe_ttl : ℕ
  pub probe_attempt : ℤ
  pub quoted_source_address : String
  pub quoted_destination_address : String
  pub quoted_destination_port : ℕ
  pub quoted_icmp_identifier : ℕ
  pub quoted_icmp_sequence : ℕ
  pub process_id : ℕ
  pub connection_id : String
  pub observed_at : Time
  pub certainty : Certainty

pub data CaptureStatus : Type 0 where
  available unsupported insufficient_privilege partial error cancelled : CaptureStatus

pub data Emission : Type 0 where
  observed not_observed unknown : Emission

pub data FlowOutcome : Type 0 where
  handshake_confirmed syn_ack_received rst_received echo_reply_received : FlowOutcome
  time_exceeded_received unreachable_received no_matching_response : FlowOutcome
  probe_not_observed capture_unavailable flow_cancelled : FlowOutcome

-- What the correlation reads of a `Target`; an endpoint is its address.
pub record PacketTarget : Type 0 where
  pub original_input : String
  pub requested_identity : String
  pub literal_ip : String
  pub port : ℕ
  pub resolved_addresses : List String
  pub selected_endpoint : Option String
  pub tested_endpoint : Option String

pub record ProbeIdentity : Type 0 where
  pub session_id : String
  pub probe_id : String
  pub correlation_id : String

pub data ProbeType : Type 0 where
  tcp_probe path_probe other_probe : ProbeType

pub record Scope : Type 0 where
  pub identity : ProbeIdentity
  pub target : PacketTarget
  pub probe_type : ProbeType
  pub process_id : ℕ
  pub window_started : Time
  pub deadline : Time

-- What `errors.Is` says of an error, and its text.
pub record CaptureError : Type 0 where
  pub is_insufficient_privilege : Bool
  pub is_unsupported : Bool
  pub text : String

pub record CaptureResult : Type 0 where
  pub source : String
  pub observations : List Observation
  pub complete : Bool
  pub events_lost : ℕ
  pub cancelled : Bool
  pub error : String

-- Of an item of evidence: whether it is of a TCP connection, and the local and the remote endpoint
-- if its JSON can be read.
pub record EvidenceItem : Type 0 where
  pub is_tcp_connection : Bool
  pub endpoints : Option (String × String)

-- What the correlation reads of a `ProbeResult`.
pub record ResultInput : Type 0 where
  pub session_id : String
  pub probe_id : String
  pub correlation_id : String
  pub target : PacketTarget
  pub status : ProbeStatus
  pub started_at : Option Time
  pub completed_at : Option Time
  pub evidence : List EvidenceItem

pub record CorrelationInput : Type 0 where
  pub scope : Scope
  pub result : ResultInput
  pub probe_started : Bool
  pub capture : CaptureResult
  pub start_error : Option CaptureError
  pub stop_error : Option CaptureError
  pub cancelled : Bool

-- `PacketFlowEvidence`
pub record Flow : Type 0 where
  pub session_id : String
  pub probe_id : String
  pub correlation_id : String
  pub target : PacketTarget
  pub capture_status : CaptureStatus
  pub capture_source : String
  pub capture_error : String
  pub events_lost : ℕ
  pub window_started_at : Time
  pub window_completed_at : Time
  pub probe_emission : Emission
  pub outcome : FlowOutcome
  pub correlation_method : String
  pub matched_observation_ids : List String
  pub certainty : Certainty
  pub local_address : String
  pub local_port : ℕ
  pub observations : List Observation
