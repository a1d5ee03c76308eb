-- ===== src/Model.antt =====
-- internal/model/contracts.go and target.go: the contracts that the components pass on to one
-- another. A struct keeps the fields that some modelled function reads or writes.
use tadori.Base.{ℕ, String, Option, List}

-- A `time.Time` in UTC, in nanoseconds since the zero time, which is 0.
abbrev pub Time : Type 0
Time = ℕ

pub data ReportStatus : Type 0 where
  unknown complete incomplete error : ReportStatus

pub data ProbeStatus : Type 0 where
  unknown passed failed skipped error : ProbeStatus

pub record Target : Type 0 where
  pub original_input : String
  pub requested_identity : String
  pub service_id : String
  pub application_protocol : String
  pub transport_protocol : String
  pub port : ℕ

pub record ProbeInterpretation : Type 0 where
  pub failure_reason : String
  pub layer : String
  pub fault_domain : String

pub record ProbeResult : Type 0 where
  pub name : String
  pub target : Target
  pub session_id : String
  pub probe_id : String
  pub correlation_id : String
  pub status : ProbeStatus
  pub interpretation : ProbeInterpretation

pub record DiagnosticFinding : Type 0 where
  pub failure_reason : String
  pub layer : String
  pub fault_domain : String
  pub probe_names : List String
  pub evidence_ids : List String

-- What the four protocol observations have in common.
pub record LayerObservation : Type 0 where
  pub failure_reason : String
  pub fault_domain : String
  pub probe_names : List String
  pub evidence_ids : List String

pub record Observations : Type 0 where
  pub name_resolution : LayerObservation
  pub transport : LayerObservation
  pub security : LayerObservation
  pub application : LayerObservation

pub record DiagnosticReport : Type 0 where
  pub schema_version : String
  pub target : Target
  pub session_id : String
  pub status : ReportStatus
  pub started_at : Option Time
  pub completed_at : Option Time
  pub probes : List ProbeResult
  pub observations : Observations
  pub findings : List DiagnosticFinding
