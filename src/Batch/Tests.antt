-- ===== src/Batch/Tests.antt =====
-- The theorems on a batch at a plan of one entry.
use mathlib.Core.Option
use tadori.Base.{
  some, ◌≤◌, ◌≡◌, refl, arith, String, true, false, not, ◌&&◌, ◌||◌, none, List, [], ◌∷◌, ◌++◌,
  str_eq,
}
use tadori.Model.{Target, ReportStatus, LayerObservation, DiagnosticReport}
use tadori.Batch.Defs.{no_destination, PlanEntry, EntryResult, result_for_entry}
use tadori.Batch.Boundary.{seen, append_unique}
use tadori.Batch.Unique.{NoRepeats, append_unique_lem}
use tadori.Batch.Entry.{
  Reporting, RunOutcome, returns, panics, no_error, deadline_exceeded, run_target, run_entry,
}
use tadori.Batch.Summary.{summarize}
use tadori.Batch.Counts.{count, is_queued, judged, Counts, summarize-Counts}
use tadori.Batch.Batches.{
  ManagedBatch, new_batch, begin, initial_results, mark_running, finish, complete, worker_count,
}
use tadori.Batch.Workers.{
  fresh, World, over, launch, takes, checks, marks, runs, Reach, here, onward,
}
use tadori.Batch.Agreement.{busy}
use tadori.Batch.Completion.{run_entry-is_queued, AllFinal, busy_bounded, complete-AllFinal}

abbrev site : Target
site = record {
  original_input = "example.com";
  requested_identity = "example.com";
  service_id = "https";
  application_protocol = "https";
  transport_protocol = "tcp";
  port = 443;
}

abbrev entry : PlanEntry
entry = record {
  id = "endpoint-001";
  requested_hostname = "example.com";
  port = 443;
  service_id = "https";
  target = some site;
  capture_failed = true;
  unsupported = false;
  unsupported_reason = "";
}

abbrev nowhere : Reporting
nowhere = record {
  target_intent_only = λ target. target;
  destination_of = λ report. no_destination;
}

abbrev outcome : RunOutcome
outcome = panics "boom" 7 8

abbrev batch : ManagedBatch
batch = new_batch (entry ∷ []) 5

abbrev start_world : World
start_world = launch 1 batch

abbrev result : EntryResult
result = run_target nowhere entry site outcome no_error 7 9

abbrev marked_batch : ManagedBatch
marked_batch = mark_running 0 6 (begin batch)

-- The one worker has taken the entry, found no cancellation, marked the entry, run it, and is back.
abbrev end_world : World
end_world = record { batch = finish 0 result marked_batch; phases = over ∷ []; next = 1; idle = 1 }

path : Reach nowhere start_world end_world
unfolding run_entry launch begin new_batch mark_running finish initial_results result_for_entry
path =
    onward
      (onward (onward (onward here (takes 0 refl (omega arith))) (checks 0 entry (refl, refl) refl))
        (marks 0 entry 6 (refl, refl)))
      (runs 0 entry outcome no_error 7 9 result (refl, refl) refl)

summarize-Counts_example : Counts (result ∷ []) (summarize (result ∷ []))
summarize-Counts_example = summarize-Counts (result ∷ [])

abbrev no_layer : LayerObservation
no_layer = record { failure_reason = ""; fault_domain = ""; probe_names = []; evidence_ids = [] }

-- A complete report, which came after the deadline.
abbrev late_report : DiagnosticReport
late_report = record {
  schema_version = "4";
  target = site;
  session_id = "";
  status = ReportStatus.complete;
  started_at = none;
  completed_at = none;
  probes = [];
  observations = record {
    name_resolution = no_layer;
    transport = no_layer;
    security = no_layer;
    application = no_layer;
  };
  findings = [];
}

run_entry-is_queued_example :
    Option.map
      (λ r. is_queued r.state)
      (run_entry nowhere entry (returns late_report) deadline_exceeded 7 8)
    ≡ some true
run_entry-is_queued_example =
    run_entry-is_queued nowhere entry (returns late_report) deadline_exceeded 7 8

busy_bounded_example : (count busy start_world.phases ≤ 4) × (count busy start_world.phases ≤ 1)
unfolding worker_count
busy_bounded_example = busy_bounded nowhere 0 4 (entry ∷ []) batch start_world (fresh 5) here

complete-AllFinal_example :
    AllFinal nowhere (entry ∷ []) (complete 9 end_world.batch).results
    × ((complete 9 end_world.batch).summary ≡ summarize (complete 9 end_world.batch).results)
    × ((complete 9 end_world.batch).summary.running ≡ 0)
    × (judged (complete 9 end_world.batch).summary ≡ 1)
complete-AllFinal_example =
    complete-AllFinal nowhere 1 (entry ∷ []) batch 9 end_world (fresh 5) path refl refl

append_unique_lem_example :
    NoRepeats (append_unique ("a" ∷ []) ("b" ∷ "a" ∷ "" ∷ []))
    × ((rest : List String) × (append_unique ("a" ∷ []) ("b" ∷ "a" ∷ "" ∷ []) ≡ ("a" ∷ []) ++ rest))
    × ((s : String)
        → seen s (append_unique ("a" ∷ []) ("b" ∷ "a" ∷ "" ∷ []))
          ≡ (seen s ("a" ∷ []) || (not (str_eq s "") && seen s ("b" ∷ "a" ∷ "" ∷ []))))
append_unique_lem_example = append_unique_lem ("a" ∷ []) ("b" ∷ "a" ∷ "" ∷ []) (refl, tt)
