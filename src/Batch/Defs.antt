-- ===== src/Batch/Defs.antt =====
-- internal/batch/manager.go and plan.go: the data of a validation batch, and the rules that make one
-- entry's result. What the report package makes of a report is an argument of type
-- `DestinationStatus`.
use tadori.Base.{
  ℕ, String, Bool, true, false, not, ◌&&◌, Option, none, some, List, [], str_eq, if◌then◌else◌,
}
use tadori.Model.{Time, Target, ReportStatus, DiagnosticReport}

pub data State : Type 0 where
  starting running cancelling completed cancelled failed : State

pub data EntryState : Type 0 where
  queued running completed cancelled unsupported : EntryState

-- `terminalEntry`
abbrev pub terminal_entry : EntryState → Bool
terminal_entry EntryState.queued = false
terminal_entry EntryState.running = false
terminal_entry _ = true

pub data ValidationOutcome : Type 0 where
  passed failed partial unsupported cancelled not_run : ValidationOutcome

pub data DestinationStatusState : Type 0 where
  reachable unreachable degraded indeterminate : DestinationStatusState

pub record DestinationStatus : Type 0 where
  pub status : Option DestinationStatusState
  pub detail : String
  pub failure_reason : String
  pub probe_names : List String
  pub evidence_ids : List String

-- `DestinationStatus{}`
abbrev pub no_destination : DestinationStatus
no_destination = record {
  status = none;
  detail = "";
  failure_reason = "";
  probe_names = [];
  evidence_ids = [];
}

pub record FailureBoundary : Type 0 where
  pub reason : String
  pub layer : String
  pub fault_domain : String
  pub detail : String
  pub probe_names : List String
  pub evidence_ids : List String

-- `FailureBoundary{}`
abbrev pub no_boundary : FailureBoundary
no_boundary = record {
  reason = "";
  layer = "";
  fault_domain = "";
  detail = "";
  probe_names = [];
  evidence_ids = [];
}

pub record PlanEntry : Type 0 where
  pub id : String
  pub requested_hostname : String
  pub port : ℕ
  pub service_id : String
  pub target : Option Target
  pub capture_failed : Bool
  pub unsupported : Bool
  pub unsupported_reason : String

pub record EntryResult : Type 0 where
  pub id : String
  pub requested_hostname : String
  pub port : ℕ
  pub service_id : String
  pub capture_failed : Bool
  pub state : EntryState
  pub outcome : ValidationOutcome
  pub report_status : Option ReportStatus
  pub destination : DestinationStatus
  pub failure_boundary : FailureBoundary
  pub report : Option DiagnosticReport
  pub error : String
  pub started_at : Option Time
  pub completed_at : Option Time

unfoldable pub result_for_entry : PlanEntry → EntryResult
result_for_entry entry = record {
  id = entry.id;
  requested_hostname = entry.requested_hostname;
  port = entry.port;
  service_id = entry.service_id;
  capture_failed = entry.capture_failed;
  state = EntryState.queued;
  outcome = ValidationOutcome.not_run;
  report_status = none;
  destination = no_destination;
  failure_boundary = no_boundary;
  report = none;
  error = "";
  started_at = none;
  completed_at = none;
}

unfoldable pub unsupported_result : PlanEntry → Time → EntryResult
unsupported_result entry now = record (result_for_entry entry) {
  state = EntryState.unsupported;
  outcome = ValidationOutcome.unsupported;
  error = entry.unsupported_reason;
  completed_at = some now;
}

unfoldable pub cancelled_result : PlanEntry → Time → EntryResult
cancelled_result entry now = record (result_for_entry entry) {
  state = EntryState.cancelled;
  outcome = ValidationOutcome.cancelled;
  error = "validation cancelled";
  completed_at = some now;
}

-- The outcome where the report has run to its end.
abbrev destination_outcome : DestinationStatus → ValidationOutcome
destination_outcome d = elim d.status [
  | some DestinationStatusState.reachable ↦ ValidationOutcome.passed
  | some DestinationStatusState.unreachable ↦ ValidationOutcome.failed
  | some DestinationStatusState.degraded ↦ ValidationOutcome.failed
  | _ ↦
      if str_eq d.failure_reason "unsupported"
      then ValidationOutcome.unsupported
      else if not (str_eq d.failure_reason "")
          && not (str_eq d.failure_reason "none")
          && not (str_eq d.failure_reason "unknown")
      then ValidationOutcome.failed
      else ValidationOutcome.partial
]

abbrev is_broken : DestinationStatus → Bool
is_broken d = elim d.status [
  | some DestinationStatusState.unreachable ↦ true
  | some DestinationStatusState.degraded ↦ true
  | _ ↦ false
]

unfoldable pub classify_outcome : ReportStatus → DestinationStatus → ValidationOutcome
classify_outcome ReportStatus.error d =
    if is_broken d then ValidationOutcome.failed else ValidationOutcome.partial
classify_outcome ReportStatus.unknown d =
    if is_broken d then ValidationOutcome.failed else ValidationOutcome.partial
classify_outcome ReportStatus.incomplete d = ValidationOutcome.partial
classify_outcome ReportStatus.complete d = destination_outcome d
