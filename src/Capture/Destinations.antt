-- ===== src/Capture/Destinations.antt =====
-- internal/capture/capture.go: `record` and the counts of `observationLocked`. A key is the pair of
-- the host in small letters and the port, which its text separates by the last colon;
-- `strings.ToLower` is a parameter. A map is an association list.
use tadori.Base.{
  ℕ, ◌+◌, String, Bool, false, not, ◌&&◌, ◌||◌, List, [], ◌∷◌, ◌++◌, length, take, ltb, leb, ◌==◌,
  str_eq, u64, if◌then◌else◌,
}
use tadori.Model.{Time}

-- `BrowserCaptureOutcome`
pub data CaptureOutcome : Type 0 where
  no_outcome connected failed mixed dns_failed proxy_rejected unsupported unknown : CaptureOutcome

-- `destinationResult`
pub record DestinationResult : Type 0 where
  pub host : String
  pub authority : String
  pub port : ℕ
  pub mechanism : String
  pub resolved_candidates : List String
  pub connected_endpoint : String
  pub connected_address : String
  pub outcome : CaptureOutcome
  pub failure_reason : String
  pub connection_attempted : Bool

-- `BrowserCaptureDestination`
pub record Destination : Type 0 where
  pub requested_hostname : String
  pub requested_authority : String
  pub port : ℕ
  pub mechanism : String
  pub mechanisms : List String
  pub resolved_address_candidates : List String
  pub connected_address : String
  pub connected_endpoint : String
  pub connected_endpoints : List String
  pub outcome : CaptureOutcome
  pub failure_reason : String
  pub failure_reasons : List String
  pub first_seen : Time
  pub last_seen : Time
  pub observation_count : ℕ
  pub connection_count : ℕ
  pub success_count : ℕ
  pub failure_count : ℕ

abbrev pub max_failure_reasons : ℕ
max_failure_reasons = 16

abbrev pub is_one_of : String → List String → Bool
is_one_of value [] = false
is_one_of value (v ∷ vs) = str_eq v value || is_one_of value vs

-- `appendUnique` and `appendUniqueMechanism`
abbrev pub append_unique_value : List String → String → List String
append_unique_value values value =
    if str_eq value ""
    then values
    else if is_one_of value values
    then values
    else values ++ value ∷ []

abbrev pub append_all : List String → List String → List String
append_all values [] = values
append_all values (c ∷ cs) = append_all (append_unique_value values c) cs

-- The destination made for a key that is new.
abbrev pub new_destination : DestinationResult → Time → Destination
new_destination r t = record {
  requested_hostname = r.host;
  requested_authority = r.authority;
  port = r.port;
  mechanism = r.mechanism;
  mechanisms = [];
  resolved_address_candidates = [];
  connected_address = "";
  connected_endpoint = "";
  connected_endpoints = [];
  outcome = CaptureOutcome.no_outcome;
  failure_reason = "";
  failure_reasons = [];
  first_seen = t;
  last_seen = 0;
  observation_count = 0;
  connection_count = 0;
  success_count = 0;
  failure_count = 0;
}

abbrev or_value : String → String → String
or_value s t = if str_eq s "" then t else s

-- The failure reasons with one more, cut off at the bound.
abbrev pub with_reason : List String → String → List String
with_reason reasons reason =
    let longer = append_unique_value reasons reason in
    if leb max_failure_reasons (length longer) then take max_failure_reasons longer else longer

abbrev pub outcome_of : ℕ → ℕ → CaptureOutcome → CaptureOutcome
outcome_of successes failures outcome =
    if ltb 0 successes && ltb 0 failures
    then CaptureOutcome.mixed
    else if ltb 0 successes
    then CaptureOutcome.connected
    else outcome

abbrev pub is_success : DestinationResult → Bool
is_success r = str_eq r.failure_reason ""

-- What one result changes in its destination.
unfoldable pub update_destination : DestinationResult → Time → Destination → Destination
update_destination r t d =
    let unconnected = str_eq r.connected_endpoint "" in
    let successes = if is_success r then u64 (d.success_count + 1) else d.success_count in
    let failures = if is_success r then d.failure_count else u64 (d.failure_count + 1) in
    record d {
      last_seen = t;
      observation_count = u64 (d.observation_count + 1);
      mechanism = or_value d.mechanism r.mechanism;
      mechanisms = append_unique_value d.mechanisms r.mechanism;
      resolved_address_candidates = append_all d.resolved_address_candidates r.resolved_candidates;
      connection_count =
          if r.connection_attempted then u64 (d.connection_count + 1) else d.connection_count;
      connected_endpoints =
          if unconnected
          then d.connected_endpoints
          else append_unique_value d.connected_endpoints r.connected_endpoint;
      connected_endpoint = if unconnected then d.connected_endpoint else r.connected_endpoint;
      connected_address = if unconnected then d.connected_address else r.connected_address;
      failure_reasons =
          if is_success r
          then d.failure_reasons
          else with_reason d.failure_reasons r.failure_reason;
      failure_reason =
          if is_success r then d.failure_reason else or_value d.failure_reason r.failure_reason;
      success_count = successes;
      failure_count = failures;
      outcome = outcome_of successes failures r.outcome;
    }

abbrev pub Key : Type 0
Key = String × ℕ

abbrev pub key_eq : Key → Key → Bool
key_eq (h, p) (k, q) = str_eq h k && p == q

abbrev pub Store : Type 0
Store = List (Key × Destination)

-- Results without a host or a port are not recorded.
abbrev pub is_accepted : DestinationResult → Bool
is_accepted r = not (str_eq r.host "" || r.port == 0)

-- The write to the map of destinations.
unfoldable pub upsert : Key → DestinationResult → Time → Store → Store
upsert k r t [] = (k, update_destination r t (new_destination r t)) ∷ []
upsert k r t (entry ∷ rest) =
    let later = upsert k r t rest in
    if key_eq entry.0 k then (entry.0, update_destination r t entry.1) ∷ rest else entry ∷ later

module _ (to_lower : String → String) where
  -- `destinationKey`
  abbrev pub destination_key : DestinationResult → Key
  destination_key r = (to_lower r.host, r.port)

  -- `record`
  unfoldable pub record_result : DestinationResult → Time → Store → Store
  record_result r t store = if is_accepted r then upsert (destination_key r) r t store else store

-- The counts of `observationLocked`.
abbrev pub observation_total : Store → ℕ
observation_total [] = 0
observation_total (entry ∷ rest) = u64 (entry.1.observation_count + observation_total rest)

abbrev pub failure_total : Store → ℕ
failure_total [] = 0
failure_total (entry ∷ rest) = u64 (entry.1.failure_count + failure_total rest)
