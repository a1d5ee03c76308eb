-- ===== src/Packet/Tests.antt =====
-- The theorems on the correlation of packets at a concrete capture.
use tadori.Base.{
  ℕ, ◌≡◌, refl, ◌⊎◌, String, true, false, ◌&&◌, none, some, [], ◌∷◌, leb, str_eq, arith, ℤ,
  insert_by, sort_by, AllOf, if◌then◌else◌,
}
use tadori.Model.{ProbeStatus}
use tadori.Packet.Defs.{
  Kind, Direction, Certainty, Observation, FlowOutcome, PacketTarget, tcp_probe, Scope,
  CorrelationInput,
}
use tadori.Packet.Address.{Words, no_tuple, read_port, matches_address, matches_some, tcp_tuple}
use tadori.Packet.Relevant.{
  normalize_packet_observation, tcp_target_matches, is_relevant, name_observations,
  relevant_observations,
}
use tadori.Packet.Tcp.{unique_sorted, tcp_pair, correlate_tcp, is_inbound_response, tcp_emissions}
use tadori.Packet.Path.{path_pair}
use tadori.Packet.Correlate.{capture_status, correlate, new_flow, validate_scope}
use tadori.Packet.Honest.{IsSilent, IsFounded, correlate_cases}
use tadori.Packet.Keys.{SharesKey, SharesId, path_pair-SharesKey}
use tadori.Packet.Order.{InOrder, IsAdmitted, relevant_observations-InOrder}
use tadori.Packet.Port.{all_digits, decimal_value, read_port_lem}
use tadori.Packet.Complete.{NonePaired, correlate_tcp-NonePaired}

-- Addresses that are written in their canonical form.
abbrev words : Words
words = record {
  trim_space = λ s. s;
  trim_host = λ s. s;
  trim_brackets = λ s. s;
  parse_addr = λ s. none;
  addr_text = λ a. "";
  to_lower = λ s. s;
  equal_fold = λ s t. str_eq s t;
  split_host_port = λ s. none;
  normalize_target = λ t. t;
}

abbrev name : String → ℕ → String
name id index = "named"

abbrev blank : Observation
blank = record {
  id = "";
  session_id = "";
  probe_id = "p";
  correlation_id = "";
  kind = Kind.outbound_tcp_syn;
  protocol = "";
  direction = Direction.outbound;
  local_address = "";
  local_port = 0;
  source_address = "10.0.0.2";
  source_port = 5000;
  destination_address = "10.0.0.1";
  destination_port = 443;
  icmp_identifier = 0;
  icmp_sequence = 0;
  probe_ttl = 0;
  probe_attempt = ℤ.pos 0;
  quoted_source_address = "";
  quoted_destination_address = "";
  quoted_destination_port = 0;
  quoted_icmp_identifier = 0;
  quoted_icmp_sequence = 0;
  process_id = 0;
  connection_id = "";
  observed_at = 20;
  certainty = Certainty.no_certainty;
}

abbrev syn : Observation
syn = record blank { id = "syn" }

abbrev syn_ack : Observation
syn_ack = record blank {
  id = "syn-ack";
  kind = Kind.inbound_tcp_syn_ack;
  direction = Direction.inbound;
  source_address = "10.0.0.1";
  source_port = 443;
  destination_address = "10.0.0.2";
  destination_port = 5000;
  observed_at = 30;
}

-- From another server.
abbrev stray : Observation
stray = record syn_ack { id = "stray"; source_address = "10.0.0.9" }

abbrev target : PacketTarget
target = record {
  original_input = "10.0.0.1:443";
  requested_identity = "10.0.0.1";
  literal_ip = "10.0.0.1";
  port = 443;
  resolved_addresses = [];
  selected_endpoint = none;
  tested_endpoint = none;
}

abbrev scope : Scope
scope = record {
  identity = record { session_id = "s"; probe_id = "p"; correlation_id = "c" };
  target = target;
  probe_type = tcp_probe;
  process_id = 0;
  window_started = 10;
  deadline = 90;
}

abbrev input : CorrelationInput
input = record {
  scope = scope;
  result = record {
    session_id = "s";
    probe_id = "p";
    correlation_id = "c";
    target = target;
    status = ProbeStatus.passed;
    started_at = none;
    completed_at = none;
    evidence = [];
  };
  probe_started = true;
  capture = record {
    source = "etw";
    observations = syn_ack ∷ syn ∷ [];
    complete = true;
    events_lost = 0;
    cancelled = false;
    error = "";
  };
  start_error = none;
  stop_error = none;
  cancelled = false;
}

syn_ack_seen : (correlate words name input).outcome ≡ FlowOutcome.syn_ack_received
unfolding correlate capture_status correlate_tcp tcp_pair relevant_observations name_observations
    is_relevant tcp_target_matches normalize_packet_observation matches_address matches_some
    tcp_tuple unique_sorted sort_by insert_by
syn_ack_seen = refl

correlate_cases_example :
    IsSilent words name input (correlate words name input)
    ⊎ IsFounded words name input (correlate words name input)
correlate_cases_example = correlate_cases words name input

abbrev echo : ℕ → Observation
echo sequence = record blank {
  kind = Kind.outbound_icmp_echo;
  icmp_identifier = 7;
  icmp_sequence = sequence;
}

abbrev exceeded : Observation
exceeded = record blank {
  kind = Kind.icmp_time_exceeded;
  direction = Direction.inbound;
  quoted_icmp_identifier = 7;
  quoted_icmp_sequence = 2;
}

second_pairs : path_pair words 2 (echo 1 ∷ echo 2 ∷ exceeded ∷ []) (echo 2) exceeded ≡ true
unfolding path_pair
second_pairs = refl

path_pair-SharesKey_example :
    SharesKey (echo 2) exceeded ⊎ SharesId (echo 1 ∷ echo 2 ∷ exceeded ∷ []) (echo 2) exceeded
path_pair-SharesKey_example =
    path_pair-SharesKey words 2 (echo 1 ∷ echo 2 ∷ exceeded ∷ []) (echo 2) exceeded (omega arith)
      second_pairs

relevant_observations-InOrder_example :
    InOrder (relevant_observations words name (syn_ack ∷ syn ∷ []) scope no_tuple 10 90)
    × AllOf
        (IsAdmitted scope 10 90)
        (relevant_observations words name (syn_ack ∷ syn ∷ []) scope no_tuple 10 90)
relevant_observations-InOrder_example =
    relevant_observations-InOrder words name (syn_ack ∷ syn ∷ []) scope no_tuple 10 90

-- "443"
read_port_lem_example : read_port 0 (52 ∷ 52 ∷ 51 ∷ []) ≡ (
    if all_digits (52 ∷ 52 ∷ 51 ∷ []) && leb (decimal_value 0 (52 ∷ 52 ∷ 51 ∷ [])) 65535
    then some (decimal_value 0 (52 ∷ 52 ∷ 51 ∷ []))
    else none)
read_port_lem_example = read_port_lem 0 (52 ∷ 52 ∷ 51 ∷ []) (omega arith)

stray_only :
    (correlate_tcp words (new_flow words name input) (syn ∷ stray ∷ []) no_tuple).outcome
    ≡ FlowOutcome.no_matching_response
unfolding correlate_tcp tcp_pair
stray_only = refl

correlate_tcp-NonePaired_example :
    NonePaired is_inbound_response
      (tcp_pair words)
      (tcp_emissions (syn ∷ stray ∷ []) 0)
      (syn ∷ stray ∷ [])
correlate_tcp-NonePaired_example =
    correlate_tcp-NonePaired words (new_flow words name input) (syn ∷ stray ∷ []) no_tuple
      (refl, refl, refl) stray_only

scope_valid : validate_scope words scope ≡ none
scope_valid = refl
