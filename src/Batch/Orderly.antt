-- ===== src/Batch/Orderly.antt =====
-- Every step of the workers and of the callers keeps the invariant of a batch's work.
use mathlib.Core.Option.{some-injective}
use tadori.Base.{
  ℕ, zero, suc, ◌+◌, ◌<◌, ◌≡◌, refl, sym, ap, subst, ◌∙◌, true, false, some, List, [], ◌∷◌, length,
  get_elem?, set, length-set, get_elem?-set, get_elem?-some, leb, arith, Bool-cases, inl, inr,
}
use tadori.Batch.Defs.{
  terminal_entry, PlanEntry, EntryResult, result_for_entry, unsupported_result, cancelled_result,
}
use tadori.Batch.Entry.{Reporting}
use tadori.Batch.Summary.{summarize}
use tadori.Batch.Counts.{count}
use tadori.Batch.Batches.{
  ManagedBatch, initial_results, new_batch, begin, now_running, mark_running, finish,
  context_cancelled, cancel_batch, close_batch, end_context,
}
use tadori.Batch.Workers.{
  Started, fresh, cancelled_early, closed_early, ended_early, Phase, waiting, taken, doomed,
  cleared, marked, over, all_waiting, World, launch, InPhase, retire, Step, takes, refuses, checks,
  drops, marks, runs, cancels, closes, expires, Reach, here, onward, Final, refused, dropped, ran,
}
use tadori.Batch.Agreement.{
  busy, count-set, Agree, AllAgree, AllAgree-initial_results, AllAgree-get, AllAgree-set,
}
use tadori.Batch.Progress.{
  is_waiting, finish-some, mark_running-some, cancel_batch-same, close_batch-same, end_context-same,
  Orderly, Orderly-move,
}

pub is_waiting_lem : (p : Phase) → is_waiting p ≡ true → p ≡ waiting
is_waiting_lem waiting h = refl
is_waiting_lem taken h = absurd (ground arith)
is_waiting_lem doomed h = absurd (ground arith)
is_waiting_lem cleared h = absurd (ground arith)
is_waiting_lem marked h = absurd (ground arith)
is_waiting_lem over h = absurd (ground arith)

pub leb_refl : (n : ℕ) → leb n n ≡ true
leb_refl n = ground arith

not_over : (e : PlanEntry) → terminal_entry (result_for_entry e).state ≡ false
unfolding result_for_entry
not_over e = refl

all_waiting_lem :
    (es : List PlanEntry) (i : ℕ) (p : Phase)
    → get_elem? (all_waiting es) i ≡ some p
    → is_waiting p ≡ leb 0 i
all_waiting_lem [] i p h = absurd (ground arith)
all_waiting_lem (e ∷ es) zero p h = ground arith
all_waiting_lem (e ∷ es) (suc i) p h = ground (arith, all_waiting_lem es i p h)

count_waiting : (es : List PlanEntry) → count busy (all_waiting es) ≡ 0
count_waiting [] = refl
count_waiting (e ∷ es) = count_waiting es

-- What no cancellation touches.
pub Started-same :
    (entries : List PlanEntry) (b : ManagedBatch)
    → Started entries b
    → (b.entries ≡ entries)
      × (b.results ≡ initial_results entries)
      × (b.summary ≡ summarize b.results)
unfolding new_batch end_context
Started-same entries _ (fresh started) = (refl, refl, refl)
Started-same entries _ (cancelled_early {b} s) =
    let (es, rs, sum) = Started-same entries b s in
    let (es', rs', sum') = cancel_batch-same b in
    (es' ∙ es, rs' ∙ rs, sum' ∙ sum ∙ sym (ap summarize rs'))
Started-same entries _ (closed_early {b} s) =
    let (es, rs, sum) = Started-same entries b s in
    let (es', rs', sum') = close_batch-same b in
    (es' ∙ es, rs' ∙ rs, sum' ∙ sum ∙ sym (ap summarize rs'))
Started-same entries _ (ended_early {b} s) = Started-same entries b s

module _ (reporting : Reporting) (workers : ℕ) where
  -- The result of an entry that is in a phase.
  Orderly-get :
      (w : World) (i : ℕ) (p : Phase) (e : PlanEntry)
      → Orderly reporting workers w
      → InPhase w i p e
      → (r : EntryResult) × (get_elem? w.batch.results i ≡ some r) × Agree reporting p e r
  Orderly-get w i p e o at =
      let (e', r, es, rs, a) =
        AllAgree-get reporting w.phases w.batch.entries w.batch.results i p o.agree at.0 in
      (r, rs, subst (λ e''. Agree reporting p e'' r) (some-injective e' e (sym es ∙ at.1)) a)

  -- A worker that finishes an entry goes back to the channel.
  Orderly-finish :
      (w : World) (i : ℕ) (p : Phase) (e : PlanEntry) (r : EntryResult)
      → Orderly reporting workers w
      → InPhase w i p e
      → busy p ≡ true
      → is_waiting p ≡ false
      → Final reporting e r
      → Orderly reporting workers (retire i (finish i r w.batch) w)
  Orderly-finish w i p e r o at bp wp final =
      let (r₀, rs, a) = Orderly-get w i p e o at in
      rw (finish-some i r w.batch r₀ rs) (
        Orderly-move reporting workers w i p over e r (w.idle + 1)
          (record w.batch {
            results = set w.batch.results i r;
            summary = summarize (set w.batch.results i r);
          })
          o at wp refl final (ground (arith, bp)) refl refl refl)

  set_same :
      (rs : List EntryResult) (i : ℕ) (r : EntryResult) → get_elem? rs i ≡ some r → rs ≡ set rs i r
  set_same [] i r h = refl
  set_same (x ∷ rs) zero r h = ap (λ y. y ∷ rs) (some-injective x r h)
  set_same (x ∷ rs) (suc i) r h = ap (λ y. x ∷ y) (set_same rs i r h)

  -- A phase that leaves the result as it is.
  Orderly-phase :
      (w : World) (i : ℕ) (p q : Phase) (e : PlanEntry) (r : EntryResult)
      → Orderly reporting workers w
      → InPhase w i p e
      → is_waiting p ≡ false
      → is_waiting q ≡ false
      → busy p ≡ busy q
      → get_elem? w.batch.results i ≡ some r
      → Agree reporting q e r
      → Orderly reporting workers (record w { phases = set w.phases i q })
  Orderly-phase w i p q e r o at wp wq b rs a =
      Orderly-move reporting workers w i p q e r w.idle w.batch o at wp wq a (ground (arith, b))
        refl (set_same w.batch.results i r rs) o.summary

  Orderly-takes :
      (w : World) (k : ℕ)
      → Orderly reporting workers w
      → w.idle ≡ suc k
      → w.next < length w.phases
      → Orderly reporting workers
          (record w { phases = set w.phases w.next taken; next = w.next + 1; idle = k })
  Orderly-takes w k o idle lt =
      let (p, at) = get_elem?-some w.phases w.next lt in
      let here = is_waiting_lem p (o.queue w.next p at ∙ leb_refl w.next) in
      let at' = subst (λ q. get_elem? w.phases w.next ≡ some q) here at in
      let (e, r, es, rs, a) =
        AllAgree-get reporting w.phases w.batch.entries w.batch.results w.next waiting o.agree
          at' in
      record {
        agree =
            subst (AllAgree reporting (set w.phases w.next taken) w.batch.entries)
              (sym (set_same w.batch.results w.next r rs))
              (AllAgree-set reporting w.phases w.batch.entries w.batch.results w.next e taken r
                o.agree es a);
        summary = o.summary;
        queue = λ j x h. ground (arith, get_elem?-set w.phases w.next j taken lt, o.queue j x);
        bound = omega (arith, lt, length-set w.phases w.next taken);
        places = omega (arith, idle, o.places, count-set w.phases w.next waiting taken at');
      }

  Orderly-same :
      (w : World) (b : ManagedBatch)
      → Orderly reporting workers w
      → (b.entries ≡ w.batch.entries)
        × (b.results ≡ w.batch.results)
        × (b.summary ≡ w.batch.summary)
      → Orderly reporting workers (record w { batch = b })
  Orderly-same w b o (es, rs, s) = record {
    agree = rw (es, rs) o.agree;
    summary = s ∙ o.summary ∙ sym (ap summarize rs);
    queue = o.queue;
    bound = o.bound;
    places = o.places;
  }

  pub Orderly-Step :
      (v w : World) → Orderly reporting workers v → Step reporting v w → Orderly reporting workers w
  Orderly-Step v _ o (takes k idle lt) = Orderly-takes v k o idle lt
  Orderly-Step v _ o (refuses i e now at u) =
      Orderly-finish v i taken e (unsupported_result e now) o at refl refl (refused now u)
  Orderly-Step v _ o (checks i e at u) =
      let (r, rs, a) = Orderly-get v i taken e o at in
      elim (Bool-cases (context_cancelled v.batch)) [
        | inl h ↦ rw h (Orderly-phase v i taken doomed e r o at refl refl refl rs (a, u))
        | inr h ↦ rw h (Orderly-phase v i taken cleared e r o at refl refl refl rs (a, u))
      ]
  Orderly-Step v _ o (drops i e now at) =
      let (r, rs, a) = Orderly-get v i doomed e o at in
      Orderly-finish v i doomed e (cancelled_result e now) o at refl refl (dropped now a.1)
  Orderly-Step v _ o (marks i e now at) =
      let (r, rs, a) = Orderly-get v i cleared e o at in
      let marked_now = mark_running-some i now v.batch r rs (rw a.0 (not_over e)) in
      rw marked_now (
        Orderly-move reporting workers v i cleared marked e (now_running now r) v.idle
          (record v.batch {
            results = set v.batch.results i (now_running now r);
            summary = summarize (set v.batch.results i (now_running now r));
          })
          o at refl refl ((now, ap (now_running now) a.0), a.1) refl refl refl refl)
  Orderly-Step v _ o (runs i e outcome context started now res at run) =
      let (r, rs, a) = Orderly-get v i marked e o at in
      Orderly-finish v i marked e res o at refl refl (ran outcome context started now res a.1 run)
  Orderly-Step v _ o cancels = Orderly-same v (cancel_batch v.batch) o (cancel_batch-same v.batch)
  Orderly-Step v _ o closes = Orderly-same v (close_batch v.batch) o (close_batch-same v.batch)
  Orderly-Step v _ o expires = Orderly-same v (end_context v.batch) o (end_context-same v.batch)

  pub Orderly-launch :
      (entries : List PlanEntry) (b : ManagedBatch)
      → Started entries b
      → Orderly reporting workers (launch workers b)
  unfolding launch begin
  Orderly-launch entries b s =
      let (es, rs, sum) = Started-same entries b s in
      record {
        agree = rw (es, rs) (AllAgree-initial_results reporting entries);
        summary = sum;
        queue = all_waiting_lem b.entries;
        bound = omega arith;
        places = omega (arith, count_waiting b.entries);
      }

  Step-entries : (v w : World) → Step reporting v w → w.batch.entries ≡ v.batch.entries
  unfolding finish mark_running cancel_batch close_batch end_context
  Step-entries v _ (takes k idle lt) = refl
  Step-entries v _ (refuses i e now at u) = ground arith
  Step-entries v _ (checks i e at u) = refl
  Step-entries v _ (drops i e now at) = ground arith
  Step-entries v _ (marks i e now at) = ground arith
  Step-entries v _ (runs i e outcome context started now res at run) = ground arith
  Step-entries v _ cancels = ground arith
  Step-entries v _ closes = ground arith
  Step-entries v _ expires = refl

  pub Reach-entries : (v w : World) → Reach reporting v w → w.batch.entries ≡ v.batch.entries
  Reach-entries v _ here = refl
  Reach-entries v w (onward {v = u} path step) = Step-entries u w step ∙ Reach-entries v u path

  pub Reach-Orderly :
      (v w : World)
      → Orderly reporting workers v
      → Reach reporting v w
      → Orderly reporting workers w
  Reach-Orderly v _ o here = o
  Reach-Orderly v w o (onward {v = u} path step) = Orderly-Step u w (Reach-Orderly v u o path) step
