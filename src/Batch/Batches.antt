-- ===== src/Batch/Batches.antt =====
-- internal/batch/manager.go, `managedBatch`: one batch. Each function is one critical section of its
-- mutex.
use tadori.Base.{
  ℕ, Bool, true, false, ◌||◌, Option, none, some, List, [], ◌∷◌, get_elem?, set, ltb, if◌then◌else◌,
  ◌==◌,
}
use tadori.Model.{Time}
use tadori.Batch.Defs.{
  State, starting, running, cancelling, completed, cancelled, failed, EntryState, terminal_entry,
  PlanEntry, EntryResult, result_for_entry,
}
use tadori.Batch.Summary.{Summary, summarize}

abbrev pub terminal : State → Bool
terminal completed = true
terminal cancelled = true
terminal failed = true
terminal _ = false

pub record ManagedBatch : Type 0 where
  pub entries : List PlanEntry
  pub state : State
  pub started_at : Option Time
  pub completed_at : Option Time
  pub results : List EntryResult
  pub summary : Summary
  pub ctx_cancelled : Bool
  pub cancel_requested : Bool
  pub done : Bool

unfoldable pub initial_results : List PlanEntry → List EntryResult
initial_results [] = []
initial_results (e ∷ es) = result_for_entry e ∷ initial_results es

-- The literal of `Start`.
unfoldable pub new_batch : List PlanEntry → Time → ManagedBatch
new_batch entries started = record {
  entries = entries;
  state = starting;
  started_at = some started;
  completed_at = none;
  results = initial_results entries;
  summary = summarize (initial_results entries);
  ctx_cancelled = false;
  cancel_requested = false;
  done = false;
}

abbrev pub now_running : Time → EntryResult → EntryResult
now_running now r = record r { state = EntryState.running; started_at = some now }

unfoldable pub mark_running : ℕ → Time → ManagedBatch → ManagedBatch
mark_running i now b = elim (get_elem? b.results i) [
  | none ↦ b
  | some r ↦
      let results = set b.results i (now_running now r) in
      if terminal_entry r.state
      then b
      else record b { results = results; summary = summarize results }
]

-- A write past the end of the results changes nothing.
unfoldable pub finish : ℕ → EntryResult → ManagedBatch → ManagedBatch
finish i r b = elim (get_elem? b.results i) [
  | none ↦ b
  | some _ ↦ record b { results = set b.results i r; summary = summarize (set b.results i r) }
]

abbrev pub context_cancelled : ManagedBatch → Bool
context_cancelled b = b.cancel_requested || b.ctx_cancelled

-- `Cancel` on the batch that it found.
unfoldable pub cancel_batch : ManagedBatch → ManagedBatch
cancel_batch b = if terminal b.state then b else record b {
  cancel_requested = true;
  state = elim b.state [ starting ↦ cancelling | running ↦ cancelling | other ↦ other ];
  ctx_cancelled = true;
}

-- The body of the loop in `Close`.
unfoldable pub close_batch : ManagedBatch → ManagedBatch
close_batch b =
    if terminal b.state
    then b
    else record b { cancel_requested = true; state = cancelling; ctx_cancelled = true }

-- The end of the context that `Start` got: `batch.ctx.Err()` is no longer nil.
unfoldable pub end_context : ManagedBatch → ManagedBatch
end_context b = record b { ctx_cancelled = true }

-- The first critical section of `execute`.
unfoldable pub begin : ManagedBatch → ManagedBatch
begin b = record b { state = elim b.state [ starting ↦ running | other ↦ other ] }

-- The last critical section of `execute`.
unfoldable pub complete : Time → ManagedBatch → ManagedBatch
complete now b = record b {
  completed_at = some now;
  state = if context_cancelled b then cancelled else completed;
  summary = summarize b.results;
  done = true;
}

-- The number of workers; 0 stands for every concurrency of the plan that is not positive.
unfoldable pub worker_count : ℕ → ℕ → ℕ → ℕ
worker_count concurrency max_concurrency entries =
    let bounded =
      if concurrency == 0 || ltb max_concurrency concurrency
      then max_concurrency
      else concurrency in
    if ltb entries bounded then entries else bounded
