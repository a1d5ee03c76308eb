-- ===== src/Session/Execute.antt =====
-- internal/session/session.go, `execute` and `runSafely`: what the goroutine of a session does.
use tadori.Base.{ℕ, Bool, true, false, ◌||◌, ◌&&◌, some, List, [], ◌∷◌, if◌then◌else◌}
use tadori.Model.{
  Time, Target, DiagnosticFinding, DiagnosticReport, ReportStatus, Observations, LayerObservation,
}
use tadori.Session.Channel.{close_of_closed, Result, ok, fault, ◌>>=◌, Channel, close}
use tadori.Session.Defs.{
  State, completed, cancelled, failed, Event, event_of, ManagedSession, at, emit_locked,
}
use tadori.Base.{set}

-- What the runner does: it returns a report, or it panics.
pub data RunOutcome : Type 0 where
  returns : DiagnosticReport → RunOutcome
  panics : RunOutcome

abbrev empty_layer : LayerObservation
empty_layer = record { failure_reason = ""; fault_domain = ""; probe_names = []; evidence_ids = [] }

-- `Observations{}`
abbrev pub empty_observations : Observations
empty_observations = record {
  name_resolution = empty_layer;
  transport = empty_layer;
  security = empty_layer;
  application = empty_layer;
}

-- The report, and whether the runner panicked; the clock is read twice by the recovery.
unfoldable pub run_safely : Target → RunOutcome → Time → Time → DiagnosticReport × Bool
run_safely target (returns report) t₀ t₁ = (report, false)
run_safely target panics t₀ t₁ = (
  record {
    schema_version = "4";
    target = target;
    session_id = "";
    status = ReportStatus.error;
    started_at = some t₀;
    completed_at = some t₁;
    probes = [];
    observations = empty_observations;
    findings = [];
  },
  true,
)

abbrev is_complete : ReportStatus → Bool
is_complete ReportStatus.complete = true
is_complete _ = false

-- After the deadline a report does not claim completeness.
unfoldable pub limit_report : Bool → DiagnosticReport → DiagnosticReport
limit_report deadline_exceeded report =
    if deadline_exceeded && is_complete report.status
    then record report { status = ReportStatus.incomplete }
    else report

abbrev pub final_state : Bool → Bool → Bool → State
final_state cancel_requested panicked deadline_exceeded =
    if cancel_requested
    then cancelled
    else if panicked || deadline_exceeded
    then failed
    else completed

abbrev pub finding_event : DiagnosticFinding → Event
finding_event finding = record (event_of "finding_updated") { finding = some finding }

-- `if s.state == StateCancelled`
abbrev pub closing_event : State → DiagnosticReport → Event
closing_event cancelled report = record (event_of "diagnosis_cancelled") { report = some report }
closing_event _ report = record (event_of "diagnosis_completed") { report = some report }

unfoldable pub emit_findings :
    (ℕ → Time) → List DiagnosticFinding → ManagedSession → Result ManagedSession
emit_findings now [] s = ok s
emit_findings now (f ∷ fs) s = do s' ← emit_locked now (finding_event f) s; emit_findings now fs s'

-- `for subscriber := range s.subscribers { delete(…); close(subscriber) }`
unfoldable pub close_all : List ℕ → List (Channel Event) → Result (List (Channel Event))
close_all [] channels = ok channels
close_all (i ∷ is) channels = do
  ch ← at channels i
  ch' ← close ch
  close_all is (set channels i ch')

-- `close(s.done)`
unfoldable pub close_done : ManagedSession → Result ManagedSession
close_done s = if s.done then fault close_of_closed else ok (record s { done = true })

-- The assignments of the last critical section.
unfoldable pub settle : Time → DiagnosticReport → Bool → Bool → ManagedSession → ManagedSession
settle completed_time report panicked deadline_exceeded s = record s {
  completed_at = some completed_time;
  report = some report;
  state = final_state s.cancel_requested panicked deadline_exceeded;
}

unfoldable pub hang_up : ManagedSession → Result ManagedSession
hang_up s = do
  channels ← close_all s.subscribers s.channels
  close_done (record s { subscribers = []; channels = channels })

-- The last critical section of `execute`.
unfoldable pub finish :
    (ℕ → Time) → Time → DiagnosticReport → Bool → Bool → ManagedSession → Result ManagedSession
finish now completed_time report panicked deadline_exceeded s = do
  let settled = settle completed_time report panicked deadline_exceeded s
  s₁ ← emit_findings now report.findings settled
  s₂ ← emit_locked now (closing_event settled.state report) s₁
  hang_up s₂

-- From the runner's end to the end of the goroutine, the deferred `s.cancel()` included. The three
-- times are the readings of `m.currentTime`: two by the recovery from a panic, one at completion.
unfoldable pub conclude :
    (ℕ → Time) → (Time × Time × Time) → RunOutcome → Bool → ManagedSession → Result ManagedSession
conclude now (t₀, t₁, t₂) outcome deadline_exceeded s = do
  let (report, panicked) = run_safely s.target outcome t₀ t₁
  s' ← finish now t₂ (limit_report deadline_exceeded report) panicked deadline_exceeded s
  ok (record s' { ctx_cancelled = true })
