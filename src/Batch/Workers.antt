-- ===== src/Batch/Workers.antt =====
-- internal/batch/manager.go, the workers of `execute`: every order in which their critical sections,
-- the callers' cancellations and the end of their context, may run. The channel of jobs gives the
-- indices of the entries in order, so a worker is known by the index that it holds. `close(jobs)`, the
-- exit of a worker from its loop and the WaitGroup are not steps: where `execute` goes on behind
-- `workers.Wait()`, the channel is empty and all the workers are idle.
use tadori.Base.{
  ℕ, suc, ◌+◌, ◌<◌, ◌≡◌, true, false, some, List, [], ◌∷◌, length, get_elem?, set, if◌then◌else◌,
}
use tadori.Model.{Time}
use tadori.Batch.Defs.{PlanEntry, EntryResult, unsupported_result, cancelled_result}
use tadori.Batch.Entry.{Reporting, RunOutcome, ContextError, run_entry}
use tadori.Batch.Batches.{
  ManagedBatch, new_batch, begin, mark_running, finish, context_cancelled, cancel_batch,
  close_batch, end_context,
}

-- How far the work on one entry is: in the channel, in a worker's hand, found cancelled, found not
-- cancelled, marked as running, finished.
pub data Phase : Type 0 where
  waiting taken doomed cleared marked over : Phase

pub record World : Type 0 where
  pub batch : ManagedBatch
  pub phases : List Phase
  pub next : ℕ
  pub idle : ℕ

abbrev pub all_waiting : List PlanEntry → List Phase
all_waiting [] = []
all_waiting (e ∷ es) = waiting ∷ all_waiting es

-- A batch between `Start` and `execute`: new, or cancelled, closed or with its caller's context at
-- its end meanwhile.
pub data Started (entries : List PlanEntry) : ManagedBatch → Type 0 where
  fresh : (started : Time) → Started entries (new_batch entries started)
  cancelled_early : {b : ManagedBatch} → Started entries b → Started entries (cancel_batch b)
  closed_early : {b : ManagedBatch} → Started entries b → Started entries (close_batch b)
  ended_early : {b : ManagedBatch} → Started entries b → Started entries (end_context b)

-- `execute` up to the workers: the first critical section, the filled channel, `workers.Add`.
unfoldable pub launch : ℕ → ManagedBatch → World
launch workers b = record {
  batch = begin b;
  phases = all_waiting b.entries;
  next = 0;
  idle = workers;
}

abbrev pub move : ℕ → Phase → ManagedBatch → World → World
move i p b w = record w { batch = b; phases = set w.phases i p }

-- The worker goes back to the channel.
abbrev pub retire : ℕ → ManagedBatch → World → World
retire i b w = record w { batch = b; phases = set w.phases i over; idle = w.idle + 1 }

abbrev pub InPhase : World → ℕ → Phase → PlanEntry → Type 0
InPhase w i p e = (get_elem? w.phases i ≡ some p) × (get_elem? w.batch.entries i ≡ some e)

module _ (reporting : Reporting) where
  pub data Step : World → World → Type 0 where
    takes :
        {w : World} (k : ℕ)
        → w.idle ≡ suc k
        → w.next < length w.phases
        → Step w (record w { phases = set w.phases w.next taken; next = w.next + 1; idle = k })
    refuses :
        {w : World} (i : ℕ) (e : PlanEntry) (now : Time)
        → InPhase w i taken e
        → e.unsupported ≡ true
        → Step w (retire i (finish i (unsupported_result e now) w.batch) w)
    checks :
        {w : World} (i : ℕ) (e : PlanEntry)
        → InPhase w i taken e
        → e.unsupported ≡ false
        → Step w (move i (if context_cancelled w.batch then doomed else cleared) w.batch w)
    drops :
        {w : World} (i : ℕ) (e : PlanEntry) (now : Time)
        → InPhase w i doomed e
        → Step w (retire i (finish i (cancelled_result e now) w.batch) w)
    marks :
        {w : World} (i : ℕ) (e : PlanEntry) (now : Time)
        → InPhase w i cleared e
        → Step w (move i marked (mark_running i now w.batch) w)
    runs :
        {w : World} (i : ℕ) (e : PlanEntry) (outcome : RunOutcome) (context : ContextError)
        (started now : Time) (r : EntryResult)
        → InPhase w i marked e
        → run_entry reporting e outcome context started now ≡ some r
        → Step w (retire i (finish i r w.batch) w)
    cancels : {w : World} → Step w (record w { batch = cancel_batch w.batch })
    closes : {w : World} → Step w (record w { batch = close_batch w.batch })
    expires : {w : World} → Step w (record w { batch = end_context w.batch })

  pub data Reach : World → World → Type 0 where
    here : {w : World} → Reach w w
    onward : {u v w : World} → Reach u v → Step v w → Reach u w

-- What a finished entry's result may be.
pub data Final (reporting : Reporting) (e : PlanEntry) : EntryResult → Type 0 where
  refused : (now : Time) → e.unsupported ≡ true → Final reporting e (unsupported_result e now)
  dropped : (now : Time) → e.unsupported ≡ false → Final reporting e (cancelled_result e now)
  ran :
      (outcome : RunOutcome) (context : ContextError) (started now : Time) (r : EntryResult)
      → e.unsupported ≡ false
      → run_entry reporting e outcome context started now ≡ some r
      → Final reporting e r
