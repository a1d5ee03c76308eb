-- ===== src/Batch/Boundary.antt =====
-- internal/batch/manager.go: `failureBoundary` and `appendUnique`.
use tadori.Base.{
  String, Bool, false, not, ◌&&◌, ◌||◌, Option, none, some, List, [], ◌∷◌, ◌++◌, str_eq,
  if◌then◌else◌,
}
use tadori.Model.{DiagnosticReport, DiagnosticFinding, LayerObservation}
use tadori.Batch.Defs.{DestinationStatus, FailureBoundary}

abbrev pub seen : String → List String → Bool
seen s [] = false
seen s (v ∷ vs) = str_eq v s || seen s vs

unfoldable pub append_unique : List String → List String → List String
append_unique values [] = values
append_unique values (a ∷ additions) =
    append_unique (if str_eq a "" || seen a values then values else values ++ a ∷ []) additions

-- What a list has, or the other one where it is empty.
abbrev pub or_else : List String → List String → List String
or_else [] other = other
or_else (x ∷ xs) other = x ∷ xs

abbrev pub is_other : DestinationStatus → String → Bool
is_other d reason = not (str_eq d.failure_reason "") && not (str_eq reason d.failure_reason)

-- The loop over the findings: the first that has the destination's reason.
unfoldable pub from_findings :
    DestinationStatus → FailureBoundary → List DiagnosticFinding → Option FailureBoundary
from_findings d boundary [] = none
from_findings d boundary (f ∷ fs) =
    let rest = from_findings d boundary fs in
    if is_other d f.failure_reason
    then rest
    else some record boundary {
      layer = f.layer;
      fault_domain = f.fault_domain;
      probe_names = or_else boundary.probe_names f.probe_names;
      evidence_ids = or_else boundary.evidence_ids f.evidence_ids;
    }

-- The loop over the four protocol observations, each with its layer.
unfoldable pub from_layers :
    DestinationStatus → FailureBoundary → List (String × LayerObservation) → FailureBoundary
from_layers d boundary [] = boundary
from_layers d boundary (l ∷ ls) =
    let rest = from_layers d boundary ls in
    if str_eq l.1.failure_reason ""
      || str_eq l.1.failure_reason "none"
      || is_other d l.1.failure_reason
    then rest
    else record boundary {
      layer = l.0;
      fault_domain = l.1.fault_domain;
      probe_names = append_unique boundary.probe_names l.1.probe_names;
      evidence_ids = append_unique boundary.evidence_ids l.1.evidence_ids;
    }

abbrev pub start_boundary : DestinationStatus → FailureBoundary
start_boundary d = record {
  reason = d.failure_reason;
  layer = "";
  fault_domain = "";
  detail = d.detail;
  probe_names = d.probe_names;
  evidence_ids = d.evidence_ids;
}

abbrev pub layers : DiagnosticReport → List (String × LayerObservation)
layers r =
    ("http", r.observations.application)
    ∷ ("tls", r.observations.security)
    ∷ ("tcp", r.observations.transport)
    ∷ ("dns", r.observations.name_resolution)
    ∷ []

unfoldable pub failure_boundary : DiagnosticReport → DestinationStatus → FailureBoundary
failure_boundary r d = elim (from_findings d (start_boundary d) r.findings) [
  | some boundary ↦ boundary
  | none ↦ from_layers d (start_boundary d) (layers r)
]
