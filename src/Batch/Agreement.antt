-- ===== src/Batch/Agreement.antt =====
-- How the phases of the work and the results of a batch belong together, entry by entry.
use mathlib.Core.Option.{some-injective}
use tadori.Base.{
  ℕ, zero, suc, ◌+◌, ◌≡◌, refl, sym, subst, Bool, true, false, some, List, [], ◌∷◌, get_elem?, set,
  arith, if◌then◌else◌,
}
use tadori.Model.{Time}
use tadori.Batch.Defs.{PlanEntry, EntryResult, result_for_entry}
use tadori.Batch.Entry.{Reporting}
use tadori.Batch.Counts.{count}
use tadori.Batch.Batches.{initial_results, now_running}
use tadori.Batch.Workers.{Phase, waiting, taken, doomed, cleared, marked, over, all_waiting, Final}

abbrev pub running_result : PlanEntry → Time → EntryResult
running_result e now = now_running now (result_for_entry e)

-- The worker that holds the entry is not back at the channel.
abbrev pub busy : Phase → Bool
busy waiting = false
busy over = false
busy _ = true

-- How many of the phases' list are busy goes up and down with each of them.
pub count-set :
    (ps : List Phase) (i : ℕ) (p q : Phase)
    → get_elem? ps i ≡ some p
    → count busy (set ps i q) + (if busy p then 1 else 0)
      ≡ count busy ps + (if busy q then 1 else 0)
count-set [] i p q h = absurd (ground arith)
count-set (x ∷ ps) zero p q h = ground arith
count-set (x ∷ ps) (suc i) p q h = ground (arith, count-set ps i p q)

module _ (reporting : Reporting) where
  -- What an entry's result is while the work on it is in a phase.
  abbrev pub Agree : Phase → PlanEntry → EntryResult → Type 0
  Agree waiting e r = r ≡ result_for_entry e
  Agree taken e r = r ≡ result_for_entry e
  Agree doomed e r = (r ≡ result_for_entry e) × (e.unsupported ≡ false)
  Agree cleared e r = (r ≡ result_for_entry e) × (e.unsupported ≡ false)
  Agree marked e r = ((now : Time) × (r ≡ running_result e now)) × (e.unsupported ≡ false)
  Agree over e r = Final reporting e r

  abbrev pub AllAgree : List Phase → List PlanEntry → List EntryResult → Type 0
  AllAgree [] [] [] = Unit {0}
  AllAgree (p ∷ ps) (e ∷ es) (r ∷ rs) = Agree p e r × AllAgree ps es rs
  AllAgree _ _ _ = ⊥

  pub AllAgree-initial_results :
      (es : List PlanEntry) → AllAgree (all_waiting es) es (initial_results es)
  unfolding initial_results
  AllAgree-initial_results [] = tt
  AllAgree-initial_results (e ∷ es) = (refl, AllAgree-initial_results es)

  pub AllAgree-get :
      (ps : List Phase) (es : List PlanEntry) (rs : List EntryResult) (i : ℕ) (p : Phase)
      → AllAgree ps es rs
      → get_elem? ps i ≡ some p
      → (e : PlanEntry) × (r : EntryResult) × (get_elem? es i ≡ some e)
        × (get_elem? rs i ≡ some r)
        × Agree p e r
  AllAgree-get [] es rs i q a h = absurd (ground arith)
  AllAgree-get (p ∷ ps) [] rs i q a h = elim a [ ]
  AllAgree-get (p ∷ ps) (e ∷ es) [] i q a h = elim a [ ]
  AllAgree-get (p ∷ ps) (e ∷ es) (r ∷ rs) zero q a h =
      (e, r, refl, refl, subst (λ p'. Agree p' e r) (some-injective p q h) a.0)
  AllAgree-get (p ∷ ps) (e ∷ es) (r ∷ rs) (suc i) q a h = AllAgree-get ps es rs i q a.1 h

  pub AllAgree-set :
      (ps : List Phase) (es : List PlanEntry) (rs : List EntryResult) (i : ℕ) (e : PlanEntry)
      (p : Phase) (r : EntryResult)
      → AllAgree ps es rs
      → get_elem? es i ≡ some e
      → Agree p e r
      → AllAgree (set ps i p) es (set rs i r)
  AllAgree-set [] [] [] i f q s a h k = tt
  AllAgree-set [] [] (r ∷ rs) i f q s a h k = elim a [ ]
  AllAgree-set [] (e ∷ es) rs i f q s a h k = elim a [ ]
  AllAgree-set (p ∷ ps) [] rs i f q s a h k = elim a [ ]
  AllAgree-set (p ∷ ps) (e ∷ es) [] i f q s a h k = elim a [ ]
  AllAgree-set (p ∷ ps) (e ∷ es) (r ∷ rs) zero f q s a h k =
      (subst (λ e'. Agree q e' s) (sym (some-injective e f h)) k, a.1)
  AllAgree-set (p ∷ ps) (e ∷ es) (r ∷ rs) (suc i) f q s a h k =
      (a.0, AllAgree-set ps es rs i f q s a.1 h k)
