-- ===== src/Batch/Entry.antt =====
-- internal/batch/manager.go, `runEntry` and `errorReport`: one entry's run and its result. What the
-- runner does, what the entry's context says after it, and what the model and report packages make
-- of a target and a report are arguments.
use mathlib.Core.Option
use mathlib.Core.Option.{some-injective}
use tadori.Base.{
  Option, inl, inr, ◌≡◌, Option-cases, arith, Bool, true, false, not, ◌&&◌, some, [], ◌∷◌,
  if◌then◌else◌, String,
}
use tadori.Model.{Time, Target, ReportStatus, LayerObservation, DiagnosticReport}
use tadori.Batch.Defs.{
  EntryState, ValidationOutcome, DestinationStatus, PlanEntry, EntryResult, result_for_entry,
  classify_outcome,
}
use tadori.Batch.Boundary.{failure_boundary}

-- The runner returns, or it panics with a message; then `errorReport` reads the clock twice.
pub data RunOutcome : Type 0 where
  returns : DiagnosticReport → RunOutcome
  panics : String → Time → Time → RunOutcome

-- What the other packages make of a target and of a report: `model.TargetIntentOnly` and
-- `report.DestinationStatusForReport`.
pub record Reporting : Type 0 where
  pub target_intent_only : Target → Target
  pub destination_of : DiagnosticReport → DestinationStatus

-- `itemCtx.Err()`
pub data ContextError : Type 0 where
  no_error canceled deadline_exceeded : ContextError

abbrev empty_layer : LayerObservation
empty_layer = record { failure_reason = ""; fault_domain = ""; probe_names = []; evidence_ids = [] }

-- `message` has the text that `errorReport` gets.
unfoldable pub error_report : Reporting → Target → Time → Time → String → DiagnosticReport
error_report reporting target t₀ t₁ message = record {
  schema_version = "4";
  target = reporting.target_intent_only target;
  session_id = "";
  status = ReportStatus.error;
  started_at = some t₀;
  completed_at = some t₁;
  probes = [];
  observations = record {
    name_resolution = empty_layer;
    transport = empty_layer;
    security = empty_layer;
    application = empty_layer;
  };
  findings =
      record {
        failure_reason = "probe_execution_failure";
        layer = "unknown";
        fault_domain = "unknown";
        probe_names = message ∷ [];
        evidence_ids = [];
      }
      ∷ [];
}

abbrev pub diagnostic : Reporting → Target → RunOutcome → DiagnosticReport
diagnostic reporting target (returns report) = report
diagnostic reporting target (panics message t₀ t₁) = error_report reporting target t₀ t₁ message

abbrev pub panicked : RunOutcome → Bool
panicked (returns report) = false
panicked (panics message t₀ t₁) = true

abbrev pub is_complete : ReportStatus → Bool
is_complete ReportStatus.complete = true
is_complete _ = false

abbrev pub is_canceled : ContextError → Bool
is_canceled canceled = true
is_canceled _ = false

abbrev pub is_late : ContextError → Bool
is_late deadline_exceeded = true
is_late _ = false

-- The part of the result that every way out has: the report and what is derived from it.
unfoldable pub reported :
    PlanEntry → DiagnosticReport → DestinationStatus → Time → Time → EntryResult
reported entry report destination started now = record (result_for_entry entry) {
  started_at = some started;
  completed_at = some now;
  report = some report;
  report_status = some report.status;
  destination = destination;
  failure_boundary = failure_boundary report destination;
}

-- The run of an entry on its target.
unfoldable pub run_target :
    Reporting → PlanEntry → Target → RunOutcome → ContextError → Time → Time → EntryResult
run_target reporting entry target outcome context started now =
    let report = diagnostic reporting target outcome in
    let destination = reporting.destination_of report in
    let result = reported entry report destination started now in
    if is_canceled context && not (panicked outcome)
    then record result {
      state = EntryState.cancelled;
      outcome = ValidationOutcome.cancelled;
      error = "validation cancelled";
    }
    else if is_late context && is_complete report.status
    then record result {
      report_status = some ReportStatus.incomplete;
      outcome = ValidationOutcome.partial;
      error = "validation timed out";
    }
    else record result {
      state = EntryState.completed;
      outcome = classify_outcome report.status destination;
      error = if panicked outcome then "diagnostic runner panicked" else "";
    }

-- `none` where the entry has no target: both the call of the runner and the recovery from its panic
-- dereference the nil pointer, and that second panic ends the program.
unfoldable pub run_entry :
    Reporting → PlanEntry → RunOutcome → ContextError → Time → Time → Option EntryResult
run_entry reporting entry outcome context started now =
    Option.map (λ target. run_target reporting entry target outcome context started now)
      entry.target

pub run_entry-some :
    (reporting : Reporting) (entry : PlanEntry) (outcome : RunOutcome) (context : ContextError)
    (started now : Time) (r : EntryResult)
    → run_entry reporting entry outcome context started now ≡ some r
    → (target : Target) × (run_target reporting entry target outcome context started now ≡ r)
unfolding run_entry run_target reported result_for_entry
run_entry-some reporting entry outcome context started now r h = elim (Option-cases entry.target) [
  | inl e ↦ absurd (ground (arith, e))
  | inr (target, e) ↦ (target, some-injective _ r (rw e at h))
]
