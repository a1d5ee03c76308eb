-- ===== src/Batch/Progress.antt =====
-- What holds in every order in which the workers of a batch may run.
use tadori.Base.{
  ℕ, ◌+◌, ◌≤◌, ◌≡◌, refl, Bool, true, false, some, length, get_elem?, set, length-set,
  get_elem?-set, get_elem?_lt, leb, arith, if◌then◌else◌,
}
use tadori.Model.{Time}
use tadori.Batch.Defs.{terminal_entry, PlanEntry, EntryResult}
use tadori.Batch.Summary.{summarize}
use tadori.Batch.Entry.{Reporting}
use tadori.Batch.Counts.{count}
use tadori.Batch.Batches.{
  ManagedBatch, now_running, mark_running, finish, cancel_batch, close_batch, end_context,
}
use tadori.Batch.Workers.{Phase, waiting, World, InPhase}
use tadori.Batch.Agreement.{busy, count-set, Agree, AllAgree, AllAgree-set}

abbrev pub is_waiting : Phase → Bool
is_waiting waiting = true
is_waiting _ = false

pub finish-some :
    (i : ℕ) (r : EntryResult) (b : ManagedBatch) (r₀ : EntryResult)
    → get_elem? b.results i ≡ some r₀
    → finish i r b
      ≡ record b { results = set b.results i r; summary = summarize (set b.results i r) }
unfolding finish
finish-some i r b r₀ h = rw (finish, h) refl

pub mark_running-some :
    (i : ℕ) (now : Time) (b : ManagedBatch) (r : EntryResult)
    → get_elem? b.results i ≡ some r
    → terminal_entry r.state ≡ false
    → mark_running i now b ≡ record b {
      results = set b.results i (now_running now r);
      summary = summarize (set b.results i (now_running now r));
    }
unfolding mark_running
mark_running-some i now b r h k = rw (mark_running, h, k) refl

-- A cancellation leaves the work as it is.
pub cancel_batch-same :
    (b : ManagedBatch)
    → ((cancel_batch b).entries ≡ b.entries)
      × ((cancel_batch b).results ≡ b.results)
      × ((cancel_batch b).summary ≡ b.summary)
unfolding cancel_batch
cancel_batch-same b = ground arith

pub close_batch-same :
    (b : ManagedBatch)
    → ((close_batch b).entries ≡ b.entries)
      × ((close_batch b).results ≡ b.results)
      × ((close_batch b).summary ≡ b.summary)
unfolding close_batch
close_batch-same b = ground arith

pub end_context-same :
    (b : ManagedBatch)
    → ((end_context b).entries ≡ b.entries)
      × ((end_context b).results ≡ b.results)
      × ((end_context b).summary ≡ b.summary)
unfolding end_context
end_context-same b = (refl, refl, refl)

module _ (reporting : Reporting) (workers : ℕ) where
  pub record Orderly (w : World) : Type 0 where
    pub agree : AllAgree reporting w.phases w.batch.entries w.batch.results
    pub summary : w.batch.summary ≡ summarize w.batch.results
    pub queue : (i : ℕ) (p : Phase) → get_elem? w.phases i ≡ some p → is_waiting p ≡ leb w.next i
    pub bound : w.next ≤ length w.phases
    pub places : w.idle + count busy w.phases ≡ workers

  -- The work on an entry moves on, and its result with it.
  pub Orderly-move :
      (w : World) (i : ℕ) (p q : Phase) (e : PlanEntry) (r : EntryResult) (idle : ℕ)
      (b : ManagedBatch)
      → Orderly w
      → InPhase w i p e
      → is_waiting p ≡ false
      → is_waiting q ≡ false
      → Agree reporting q e r
      → idle + (if busy q then 1 else 0) ≡ w.idle + (if busy p then 1 else 0)
      → b.entries ≡ w.batch.entries
      → b.results ≡ set w.batch.results i r
      → b.summary ≡ summarize b.results
      → Orderly (record w { batch = b; phases = set w.phases i q; idle = idle })
  Orderly-move w i p q e r idle b o at wp wq a n es rs s = record {
    agree =
        rw (es, rs)
          (AllAgree-set reporting w.phases w.batch.entries w.batch.results i e q r o.agree at.1 a);
    summary = s;
    queue = λ j x h. ground (
      arith,
      get_elem?-set w.phases i j q (get_elem?_lt w.phases i at.0),
      o.queue i p at.0,
      o.queue j x,
      wp,
      wq,
    );
    bound = omega (arith, o.bound, length-set w.phases i q);
    places = ground (arith, o.places, n, count-set w.phases i p q at.0);
  }
