-- ===== src/Capture/Refines.antt =====
-- The map of destinations against its description.

use tadori.Base.{
  ℕ, ◌+◌, ◌≡◌, refl, sym, ap, subst, String, Bool, true, false, Option, none, some, List, [], ◌∷◌,
  length, eq_iff, u64, arith, inl, inr, Bool-cases, if◌then◌else◌,
}
use tadori.Model.{Time}
use tadori.Capture.Destinations.{
  DestinationResult, Destination, outcome_of, is_success, Key, key_eq, Store, is_accepted,
  destination_key, record_result, update_destination, new_destination, upsert,
}
use tadori.Capture.Described.{
  Entry, Summary, summary, count, is_attempt, is_failure, oldest, describe, find_key, select,
  record_all,
}

u64_suc : (a n : ℕ) → a ≡ u64 n → u64 (a + 1) ≡ u64 (n + 1)
u64_suc a n e = omega (arith, e)

-- A count of the destination stays that of the log.
kept_count :
    (test : DestinationResult → Bool) (e : Entry) (older : List Entry) (a : ℕ)
    → a ≡ u64 (count test older)
    → (if test e.0 then u64 (a + 1) else a) ≡ u64 (count test (e ∷ older))
kept_count test e older a h = elim (Bool-cases (test e.0)) [
  | inl passes ↦ rw passes (u64_suc a (count test older) h)
  | inr misses ↦ rw misses h
]

-- What a destination says is what the log of its key says, where `e` comes next.
abbrev pub Describes : Entry → List Entry → Destination → Type 0
Describes e older d =
    (d.requested_hostname ≡ (oldest e older).0.host)
    × (d.first_seen ≡ (oldest e older).1)
    × (d.observation_count ≡ u64 (length older))
    × (d.connection_count ≡ u64 (count is_attempt older))
    × (d.success_count ≡ u64 (count is_success older))
    × (d.failure_count ≡ u64 (count is_failure older))

summary_or : Summary → Option Summary → Summary
summary_or s none = s
summary_or s (some t) = t

describe-Describes :
    (e f : Entry) (older : List Entry) (d : Destination)
    → some (summary d) ≡ describe (f ∷ older)
    → Describes e (f ∷ older) d
unfolding summary_or
describe-Describes e f older d h =
    let same = ap (summary_or (summary d)) h in
    (
      ap (λ s. s.requested_hostname) same,
      ap (λ s. s.first_seen) same,
      ap (λ s. s.observation_count) same,
      ap (λ s. s.connection_count) same,
      ap (λ s. s.success_count) same,
      ap (λ s. s.failure_count) same,
    )

failure_counted :
    (e : Entry) (older : List Entry) (a : ℕ)
    → a ≡ u64 (count is_failure older)
    → (if is_success e.0 then a else u64 (a + 1)) ≡ u64 (count is_failure (e ∷ older))
failure_counted e older a h = elim (Bool-cases (is_success e.0)) [
  | inl succeeds ↦ rw succeeds h
  | inr fails ↦ rw fails (u64_suc a (count is_failure older) h)
]

update_destination-describe :
    (e : Entry) (older : List Entry) (d : Destination)
    → Describes e older d
    → some (summary (update_destination e.0 e.1 d)) ≡ describe (e ∷ older)
unfolding update_destination
update_destination-describe e older d (hostname, first, observed, connected, succeeded, failed) =
    let observations : u64 (d.observation_count + 1) ≡ u64 (length (e ∷ older)) =
      omega (arith, observed) in
    let connections = kept_count is_attempt e older d.connection_count connected in
    let successes = kept_count is_success e older d.success_count succeeded in
    let failures = failure_counted e older d.failure_count failed in
    λ i. some (record {
      requested_hostname = hostname i;
      first_seen = first i;
      last_seen = e.1;
      observation_count = observations i;
      connection_count = connections i;
      success_count = successes i;
      failure_count = failures i;
      outcome = outcome_of (successes i) (failures i) e.0.outcome;
    })

key_eq-same : (j k : Key) → key_eq j k ≡ true → j ≡ k
key_eq-same (g, p) (h, q) same =
    let text : g ≡ h = ground (arith, same, eq_iff g h) in
    let port : p ≡ q = ground (arith, same) in λ i. (text i, port i)

key_eq_refl : (k : Key) → key_eq k k ≡ true
key_eq_refl (h, p) = ground (arith, eq_iff h h)

-- The destination that a result updates.
abbrev found_or : DestinationResult → Time → Option Destination → Destination
found_or r t none = new_destination r t
found_or r t (some d) = d

find_key-upsert_same :
    (k : Key) (r : DestinationResult) (t : Time) (store : Store)
    → find_key k (upsert k r t store)
      ≡ some (update_destination r t (found_or r t (find_key k store)))
unfolding upsert
find_key-upsert_same k r t [] = rw (key_eq_refl k) refl
find_key-upsert_same k r t ((j, d) ∷ rest) = elim (Bool-cases (key_eq j k)) [
  | inl here ↦ rw (here, here) refl
  | inr elsewhere ↦ rw (elsewhere, elsewhere) (find_key-upsert_same k r t rest)
]

find_key-upsert_other :
    (j k : Key) (r : DestinationResult) (t : Time) (store : Store)
    → key_eq j k ≡ false
    → find_key k (upsert j r t store) ≡ find_key k store
unfolding upsert
find_key-upsert_other j k r t [] other = rw other refl
find_key-upsert_other j k r t ((i, d) ∷ rest) other = elim (Bool-cases (key_eq i j)) [
  | inl here ↦
      let apart : key_eq i k ≡ false =
        subst (λ x. key_eq x k ≡ false) (sym (key_eq-same i j here)) other in
      rw (here, apart) refl
  | inr elsewhere ↦ elim (Bool-cases (key_eq i k)) [
    | inl found ↦ rw (elsewhere, found) refl
    | inr apart ↦ rw (elsewhere, apart) (find_key-upsert_other j k r t rest other)
  ]
]

abbrev pub summary_of : Option Destination → Option Summary
summary_of none = none
summary_of (some d) = some (summary d)

-- What the map says of a key, before the next entry of that key.
found-Describes :
    (e : Entry) (older : List Entry) (o : Option Destination)
    → summary_of o ≡ describe older
    → Describes e older (found_or e.0 e.1 o)
found-Describes e [] none h = (refl, refl, refl, refl, refl, refl)
found-Describes e [] (some d) h = absurd (ground (arith, h))
found-Describes e (f ∷ older) none h = absurd (ground (arith, h))
found-Describes e (f ∷ older) (some d) h = describe-Describes e f older d h

module _ (to_lower : String → String) where
  -- After any log of results, what the map says of a key is what the log's accepted entries of
  -- that key say: nothing if there is none; else the hostname and the time of the oldest, the time
  -- of the newest, the 64-bit counts of the entries, of the connection attempts, of the successes
  -- and of the failures, and the outcome mixed, connected or the newest entry's own, by those
  -- counts.
  pub record_all-describe :
      (log : List Entry) (k : Key)
      → summary_of (find_key k (record_all to_lower log)) ≡ describe (select to_lower k log)
  unfolding record_result
  record_all-describe [] k = refl
  record_all-describe (e ∷ older) k =
      let store = record_all to_lower older in
      let j = destination_key to_lower e.0 in
      let before = record_all-describe older k in
      elim (Bool-cases (is_accepted e.0)) [
        | inr refused ↦ rw (record_result, refused) before
        | inl accepted ↦ elim (Bool-cases (key_eq j k)) [
          | inr other ↦
              rw (record_result, accepted, other, find_key-upsert_other j k e.0 e.1 store other)
                before
          | inl same ↦
              let at_key =
                subst
                  (λ x.
                    find_key k (upsert x e.0 e.1 store)
                    ≡ some (update_destination e.0 e.1 (found_or e.0 e.1 (find_key k store))))
                  (sym (key_eq-same j k same)) (find_key-upsert_same k e.0 e.1 store) in
              rw (record_result, accepted, same, at_key)
                (update_destination-describe e (select to_lower k older)
                  (found_or e.0 e.1 (find_key k store))
                  (found-Describes e (select to_lower k older) (find_key k store) before))
        ]
      ]
