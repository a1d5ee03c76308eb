-- ===== src/Batch/Completion.antt =====
-- What a batch promises: how many workers are busy, and what the results are once all are back.
use mathlib.Core.Option
use tadori.Base.{
  Option-cases, inl, inr, ap, ℕ, suc, ◌≤◌, ◌≡◌, refl, ◌∙◌, subst, false, ◌&&◌, some, List, [], ◌∷◌,
  length, get_elem?, get_elem?_lt, arith,
}
use tadori.Model.{Target, Time, ReportStatus}
use tadori.Batch.Defs.{
  DestinationStatus, PlanEntry, EntryResult, result_for_entry, unsupported_result, cancelled_result,
  classify_outcome,
}
use tadori.Batch.Entry.{
  Reporting, RunOutcome, returns, panics, ContextError, no_error, canceled, deadline_exceeded,
  diagnostic, is_complete, is_late, error_report, reported, run_target, run_entry, run_entry-some,
}
use tadori.Batch.Summary.{summarize}
use tadori.Batch.Counts.{count, is_queued, is_running, is_not_run, judged, summarize-Counts}
use tadori.Batch.Batches.{ManagedBatch, begin, complete, worker_count}
use tadori.Batch.Workers.{
  Started, Phase, waiting, taken, doomed, cleared, marked, over, World, launch, Reach, Final,
  refused, dropped, ran,
}
use tadori.Batch.Agreement.{busy, Agree, AllAgree}
use tadori.Batch.Progress.{is_waiting, Orderly}
use tadori.Batch.Orderly.{Started-same, Orderly-launch, Reach-entries, Reach-Orderly}

run_target-is_queued :
    (reporting : Reporting) (e : PlanEntry) (target : Target) (outcome : RunOutcome)
    (context : ContextError) (started now : Time)
    → is_queued (run_target reporting e target outcome context started now).state
      ≡ (is_late context && is_complete (diagnostic reporting target outcome).status)
unfolding run_target reported error_report result_for_entry
run_target-is_queued reporting e target (returns report) no_error started now = refl
run_target-is_queued reporting e target (returns report) canceled started now = refl
run_target-is_queued reporting e target (returns report) deadline_exceeded started now =
    ground arith
run_target-is_queued reporting e target (panics message t₀ t₁) no_error started now = refl
run_target-is_queued reporting e target (panics message t₀ t₁) canceled started now = refl
run_target-is_queued reporting e target (panics message t₀ t₁) deadline_exceeded started now = refl

-- A run gives a result exactly if the entry has a target, and leaves it in the queued state
-- exactly if the entry's deadline has passed and the runner's report says that it is complete.
pub run_entry-is_queued :
    (reporting : Reporting) (e : PlanEntry) (outcome : RunOutcome) (context : ContextError)
    (started now : Time)
    → Option.map (λ r. is_queued r.state) (run_entry reporting e outcome context started now)
      ≡ Option.map
          (λ target. is_late context && is_complete (diagnostic reporting target outcome).status)
          e.target
unfolding run_entry run_target reported result_for_entry
run_entry-is_queued reporting e outcome context started now = elim (Option-cases e.target) [
  | inl absent ↦ rw absent refl
  | inr (target, present) ↦
      rw present (ap some (run_target-is_queued reporting e target outcome context started now))
]

-- A run gives some verdict.
classify_outcome-is_not_run :
    (s : ReportStatus) (d : DestinationStatus) → is_not_run (classify_outcome s d) ≡ false
unfolding classify_outcome
classify_outcome-is_not_run ReportStatus.unknown d = ground arith
classify_outcome-is_not_run ReportStatus.complete d = ground arith
classify_outcome-is_not_run ReportStatus.incomplete d = refl
classify_outcome-is_not_run ReportStatus.error d = ground arith

run_target-settled :
    (reporting : Reporting) (e : PlanEntry) (target : Target) (outcome : RunOutcome)
    (context : ContextError) (started now : Time)
    → (is_running (run_target reporting e target outcome context started now).state ≡ false)
      × (is_not_run (run_target reporting e target outcome context started now).outcome ≡ false)
unfolding run_target reported result_for_entry
run_target-settled reporting e target outcome context started now =
    let report = diagnostic reporting target outcome in
    ground (arith, classify_outcome-is_not_run report.status (reporting.destination_of report))

over_lem : (p : Phase) → busy p ≡ false → is_waiting p ≡ false → p ≡ over
over_lem over b w = refl
over_lem waiting b w = absurd (ground arith)
over_lem taken b w = absurd (ground arith)
over_lem doomed b w = absurd (ground arith)
over_lem cleared b w = absurd (ground arith)
over_lem marked b w = absurd (ground arith)

launch_entries :
    (workers : ℕ) (entries : List PlanEntry) (b : ManagedBatch)
    → Started entries b
    → (launch workers b).batch.entries ≡ entries
unfolding launch begin
launch_entries workers entries b s = (Started-same entries b s).0

worker_count_bounded :
    (concurrency max_concurrency n : ℕ)
    → (worker_count concurrency max_concurrency n ≤ max_concurrency)
      × (worker_count concurrency max_concurrency n ≤ n)
unfolding worker_count
worker_count_bounded concurrency max_concurrency n = ground arith

module _ (reporting : Reporting) where
  -- Each entry has its own final result, in the order of the plan.
  abbrev pub AllFinal : List PlanEntry → List EntryResult → Type 0
  AllFinal [] [] = Unit {0}
  AllFinal (e ∷ es) (r ∷ rs) = Final reporting e r × AllFinal es rs
  AllFinal _ _ = ⊥

  Final-settled :
      (e : PlanEntry) (r : EntryResult)
      → Final reporting e r
      → (is_running r.state ≡ false) × (is_not_run r.outcome ≡ false)
  unfolding unsupported_result cancelled_result
  Final-settled e _ (refused now u) = (refl, refl)
  Final-settled e _ (dropped now u) = (refl, refl)
  Final-settled e _ (ran outcome context started now r u run) =
      let (target, same) = run_entry-some reporting e outcome context started now r run in
      subst (λ x. (is_running x.state ≡ false) × (is_not_run x.outcome ≡ false)) same
        (run_target-settled reporting e target outcome context started now)

  AllAgree-AllFinal :
      (ps : List Phase) (es : List PlanEntry) (rs : List EntryResult)
      → AllAgree reporting ps es rs
      → count busy ps ≡ 0
      → ((i : ℕ) (p : Phase) → get_elem? ps i ≡ some p → is_waiting p ≡ false)
      → AllFinal es rs
  AllAgree-AllFinal [] [] [] a b w = tt
  AllAgree-AllFinal [] [] (r ∷ rs) a b w = elim a [ ]
  AllAgree-AllFinal [] (e ∷ es) rs a b w = elim a [ ]
  AllAgree-AllFinal (p ∷ ps) [] rs a b w = elim a [ ]
  AllAgree-AllFinal (p ∷ ps) (e ∷ es) [] a b w = elim a [ ]
  AllAgree-AllFinal (p ∷ ps) (e ∷ es) (r ∷ rs) a b w = (
    subst (λ q. Agree reporting q e r) (over_lem p (ground (arith, b)) (w 0 p refl)) a.0,
    AllAgree-AllFinal ps es rs a.1 (ground (arith, b)) (λ i. w (suc i)),
  )

  count_settled :
      (es : List PlanEntry) (rs : List EntryResult)
      → AllFinal es rs
      → (count (λ r. is_running r.state) rs ≡ 0) × (count (λ r. is_not_run r.outcome) rs ≡ 0)
  count_settled [] [] a = (refl, refl)
  count_settled [] (r ∷ rs) a = elim a [ ]
  count_settled (e ∷ es) [] a = elim a [ ]
  count_settled (e ∷ es) (r ∷ rs) a = ground (arith, Final-settled e r a.0, count_settled es rs a.1)

  -- In every reachable state of a batch the busy workers are at most the manager's bound on
  -- concurrency and at most the entries of the plan, whatever concurrency the plan asks for.
  pub busy_bounded :
      (concurrency max_concurrency : ℕ) (entries : List PlanEntry) (b : ManagedBatch) (w : World)
      → Started entries b
      → Reach reporting (launch (worker_count concurrency max_concurrency (length entries)) b) w
      → (count busy w.phases ≤ max_concurrency) × (count busy w.phases ≤ length entries)
  busy_bounded concurrency max_concurrency entries b w s path =
      let n = length entries in
      let workers = worker_count concurrency max_concurrency n in
      let o =
        Reach-Orderly reporting workers (launch workers b) w
          (Orderly-launch reporting workers entries b s) path in
      let most = worker_count_bounded concurrency max_concurrency n in
      (omega (arith, o.places, most.0), omega (arith, o.places, most.1))

  AllFinal-length :
      (es : List PlanEntry) (rs : List EntryResult) → AllFinal es rs → length rs ≡ length es
  AllFinal-length [] [] a = refl
  AllFinal-length [] (r ∷ rs) a = elim a [ ]
  AllFinal-length (e ∷ es) [] a = elim a [ ]
  AllFinal-length (e ∷ es) (r ∷ rs) a = omega (arith, AllFinal-length es rs a.1)

  -- With an empty channel and every worker back at it, all the entries are over.
  back-AllFinal :
      (workers : ℕ) (w : World)
      → Orderly reporting workers w
      → w.next ≡ length w.phases
      → w.idle ≡ workers
      → AllFinal w.batch.entries w.batch.results
  back-AllFinal workers w o next idle =
      AllAgree-AllFinal w.phases w.batch.entries w.batch.results o.agree
        (omega (arith, o.places, idle))
        (λ i p h. ground (arith, o.queue i p h, get_elem?_lt w.phases i h, next))

  settled_counts :
      (es : List PlanEntry) (rs : List EntryResult)
      → AllFinal es rs
      → ((summarize rs).running ≡ 0) × (judged (summarize rs) ≡ length es)
  settled_counts es rs a =
      let c = summarize-Counts rs in
      let s = count_settled es rs a in
      (c.running ∙ s.0, omega (arith, c.outcomes, c.total, s.1, AllFinal-length es rs a))

  -- However the workers' critical sections, the callers' cancellations and the end of the caller's
  -- context are ordered, once the channel of jobs is empty and all workers are back, the completed
  -- batch has for each entry of the plan, in the plan's order, a final result of that entry
  -- (unsupported exactly if the entry is, else cancelled or what a run gave); the summary is that
  -- of the results, counts none as running, and its five outcome counters add up to the number of
  -- entries.
  pub complete-AllFinal :
      (workers : ℕ) (entries : List PlanEntry) (b : ManagedBatch) (now : Time) (w : World)
      → Started entries b
      → Reach reporting (launch workers b) w
      → w.next ≡ length w.phases
      → w.idle ≡ workers
      → AllFinal entries (complete now w.batch).results
        × ((complete now w.batch).summary ≡ summarize (complete now w.batch).results)
        × ((complete now w.batch).summary.running ≡ 0)
        × (judged (complete now w.batch).summary ≡ length entries)
  unfolding complete
  complete-AllFinal workers entries b now w s path next idle =
      let start = launch workers b in
      let o =
        Reach-Orderly reporting workers start w (Orderly-launch reporting workers entries b s)
          path in
      let e = Reach-entries reporting workers start w path ∙ launch_entries workers entries b s in
      let a = subst (λ es. AllFinal es w.batch.results) e (back-AllFinal workers w o next idle) in
      let counts = settled_counts entries w.batch.results a in (a, refl, counts.0, counts.1)
