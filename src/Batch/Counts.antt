-- ===== src/Batch/Counts.antt =====
-- What the counters of a summary count.
use tadori.Base.{
  ℕ, ◌+◌, ◌≡◌, refl, ap, sym, String, Bool, true, false, List, [], ◌∷◌, ◌++◌, length, arith,
  append_assoc, append-nil, if◌then◌else◌,
}
use tadori.Batch.Defs.{EntryState, terminal_entry, ValidationOutcome, EntryResult}
use tadori.Batch.Summary.{
  Summary, target_identity, count_state, count_outcome, count_capture, empty_summary,
  summarize_from, summarize,
}

abbrev pub count {ℓ} : {A : Type ℓ} → (A → Bool) → List A → ℕ
count p [] = 0
count p (x ∷ xs) = let rest = count p xs in if p x then rest + 1 else rest

abbrev pub is_queued : EntryState → Bool
is_queued EntryState.queued = true
is_queued _ = false

abbrev pub is_running : EntryState → Bool
is_running EntryState.running = true
is_running _ = false

abbrev pub is_failed : ValidationOutcome → Bool
is_failed ValidationOutcome.failed = true
is_failed _ = false

abbrev pub is_not_run : ValidationOutcome → Bool
is_not_run ValidationOutcome.not_run = true
is_not_run _ = false

abbrev pub failures : (EntryResult → String) → List EntryResult → List String
failures f [] = []
failures f (r ∷ rs) = let rest = failures f rs in if is_failed r.outcome then f r ∷ rest else rest

-- The sum of the five counters of outcomes.
abbrev pub judged : Summary → ℕ
judged s = s.passed + s.failed + s.partial + s.unsupported + s.cancelled

record Added (s : Summary) (rs : List EntryResult) (s' : Summary) : Type 0 where
  total : s'.total ≡ s.total
  queued : s'.queued ≡ s.queued + count (λ r. is_queued r.state) rs
  running : s'.running ≡ s.running + count (λ r. is_running r.state) rs
  completed : s'.completed ≡ s.completed + count (λ r. terminal_entry r.state) rs
  failed : s'.failed ≡ s.failed + length (failures (λ r. r.id) rs)
  validation :
      s'.validation_failure_count ≡ s.validation_failure_count + length (failures (λ r. r.id) rs)
  judged : judged s' + count (λ r. is_not_run r.outcome) rs ≡ judged s + length rs
  captured : s'.captured_failure_count ≡ s.captured_failure_count + count (λ r. r.capture_failed) rs
  ids : s'.failed_endpoint_ids ≡ s.failed_endpoint_ids ++ failures (λ r. r.id) rs
  identities : s'.failed_identities ≡ s.failed_identities ++ failures target_identity rs

summarize_from-Added : (s : Summary) (rs : List EntryResult) → Added s rs (summarize_from s rs)
unfolding summarize_from
summarize_from-Added s [] = record {
  total = refl;
  queued = omega arith;
  running = omega arith;
  completed = omega arith;
  failed = omega arith;
  validation = omega arith;
  judged = omega arith;
  captured = omega arith;
  ids = sym (append-nil s.failed_endpoint_ids);
  identities = sym (append-nil s.failed_identities);
}
summarize_from-Added s (r ∷ rs) =
    let h =
      summarize_from-Added
        (count_outcome r r.outcome (count_capture r.capture_failed (count_state r.state s))) rs in
    record {
      total = ground (arith, h.total);
      queued = ground (arith, h.queued);
      running = ground (arith, h.running);
      completed = ground (arith, h.completed);
      failed = ground (arith, h.failed);
      validation = ground (arith, h.validation);
      judged = ground (arith, h.judged);
      captured = ground (arith, h.captured);
      ids =
          ground (
            arith,
            h.ids,
            append_assoc s.failed_endpoint_ids (r.id ∷ []) (failures (λ r. r.id) rs),
          );
      identities = ground (
        arith,
        h.identities,
        append_assoc s.failed_identities (target_identity r ∷ []) (failures target_identity rs),
      );
    }

pub record Counts (rs : List EntryResult) (s : Summary) : Type 0 where
  pub total : s.total ≡ length rs
  pub queued : s.queued ≡ count (λ r. is_queued r.state) rs
  pub running : s.running ≡ count (λ r. is_running r.state) rs
  pub completed : s.completed ≡ count (λ r. terminal_entry r.state) rs
  pub states : s.queued + s.running + s.completed ≡ s.total
  pub outcomes : judged s + count (λ r. is_not_run r.outcome) rs ≡ s.total
  pub captured : s.captured_failure_count ≡ count (λ r. r.capture_failed) rs
  pub failed : s.failed ≡ length s.failed_endpoint_ids
  pub validation : s.validation_failure_count ≡ s.failed
  pub ids : s.failed_endpoint_ids ≡ failures (λ r. r.id) rs
  pub identities : s.failed_identities ≡ failures target_identity rs

count_states :
    (rs : List EntryResult)
    → count (λ r. is_queued r.state) rs
        + count (λ r. is_running r.state) rs
        + count (λ r. terminal_entry r.state) rs
      ≡ length rs
count_states [] = refl
count_states (r ∷ rs) = ground (arith, count_states rs)

-- The summary counts the results by state, each exactly once, so that the three state counters add
-- up to the total; the five outcome counters and the results that were not run add up to the total
-- as well; and the failed endpoint identifiers and identities are those of the failed results, in
-- order, as many as the failure counters say.
pub summarize-Counts : (rs : List EntryResult) → Counts rs (summarize rs)
unfolding summarize
summarize-Counts rs =
    let h = summarize_from-Added (empty_summary (length rs)) rs in
    record {
      total = h.total;
      queued = omega (arith, h.queued);
      running = omega (arith, h.running);
      completed = omega (arith, h.completed);
      states = omega (arith, h.queued, h.running, h.completed, h.total, count_states rs);
      outcomes = omega (arith, h.judged, h.total);
      captured = omega (arith, h.captured);
      failed = omega (arith, h.failed, ap length h.ids);
      validation = omega (arith, h.validation, h.failed);
      ids = h.ids;
      identities = h.identities;
    }
