-- ===== src/Batch/Source.antt =====
-- Where `failureBoundary` of internal/batch/manager.go takes a boundary from.
use tadori.Base.{String, ◌≡◌, Bool, true, false, ◌||◌, List, ◌∷◌, ◌++◌, str_eq, AllOf}
use tadori.Model.{DiagnosticFinding, LayerObservation}
use tadori.Batch.Defs.{DestinationStatus, FailureBoundary}
use tadori.Batch.Boundary.{append_unique, or_else, is_other}

-- The layer and the fault domain of the boundary.
abbrev pub Places : FailureBoundary → String → String → Type 0
Places b layer fault_domain = (b.layer ≡ layer) × (b.fault_domain ≡ fault_domain)

abbrev pub IsOther : DestinationStatus → DiagnosticFinding → Type 0
IsOther d f = is_other d f.failure_reason ≡ true

-- A layer that is passed over: no failure, or not the destination's reason.
abbrev is_passed : DestinationStatus → String × LayerObservation → Bool
is_passed d l =
    str_eq l.1.failure_reason ""
    || str_eq l.1.failure_reason "none"
    || is_other d l.1.failure_reason

abbrev IsPassed : DestinationStatus → String × LayerObservation → Type 0
IsPassed d l = is_passed d l ≡ true

-- The first finding that has the destination's reason, or the first of all where the destination
-- has none; its names and evidence fill in for those that the destination lacks.
abbrev pub FromFinding : DestinationStatus → List DiagnosticFinding → FailureBoundary → Type 0
FromFinding d fs b =
    (before : List DiagnosticFinding) × (f : DiagnosticFinding) × (after : List DiagnosticFinding)
    × (fs ≡ before ++ f ∷ after)
    × AllOf (IsOther d) before
    × (is_other d f.failure_reason ≡ false)
    × Places b f.layer f.fault_domain
    × (b.probe_names ≡ or_else d.probe_names f.probe_names)
    × (b.evidence_ids ≡ or_else d.evidence_ids f.evidence_ids)

-- The first layer with a failure, and the destination's reason where it has one; its names and
-- evidence are added to the destination's.
abbrev pub FromLayer :
    DestinationStatus → List (String × LayerObservation) → FailureBoundary → Type 0
FromLayer d ls b =
    (before : List (String × LayerObservation)) × (l : String × LayerObservation) × (after : List
      (String × LayerObservation))
    × (ls ≡ before ++ l ∷ after)
    × AllOf (IsPassed d) before
    × (is_passed d l ≡ false)
    × Places b l.0 l.1.fault_domain
    × (b.probe_names ≡ append_unique d.probe_names l.1.probe_names)
    × (b.evidence_ids ≡ append_unique d.evidence_ids l.1.evidence_ids)

-- The reason and the detail are the destination's.
abbrev pub Keeps : DestinationStatus → FailureBoundary → Type 0
Keeps d b = (b.reason ≡ d.failure_reason) × (b.detail ≡ d.detail)

-- No finding and no layer: the destination's names and evidence, and no layer.
abbrev pub FromNothing :
    DestinationStatus → List (String × LayerObservation) → FailureBoundary → Type 0
FromNothing d ls b =
    AllOf (IsPassed d) ls
    × Places b "" ""
    × (b.probe_names ≡ d.probe_names)
    × (b.evidence_ids ≡ d.evidence_ids)
