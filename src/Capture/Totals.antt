-- ===== src/Capture/Totals.antt =====
-- The totals of the map of destinations are those of the log.
use tadori.Base.{
  ◌+◌, ◌≡◌, String, Bool, List, [], ◌∷◌, ◌&&◌, u64, arith, inl, inr, Bool-cases, if◌then◌else◌,
}
use tadori.Model.{Time}
use tadori.Capture.Destinations.{
  DestinationResult, is_success, Key, key_eq, Store, is_accepted, destination_key, record_result,
  update_destination, upsert, observation_total, failure_total,
}
use tadori.Capture.Described.{Entry, count, is_failure, record_all}

abbrev pub is_counted : DestinationResult → Bool
is_counted r = is_accepted r && is_failure r

observation_total-upsert :
    (k : Key) (r : DestinationResult) (t : Time) (store : Store)
    → observation_total (upsert k r t store) ≡ u64 (observation_total store + 1)
unfolding upsert update_destination
observation_total-upsert k r t [] = omega arith
observation_total-upsert k r t ((j, d) ∷ rest) = elim (Bool-cases (key_eq j k)) [
  | inl here ↦ rw here (omega arith)
  | inr elsewhere ↦
      let later = observation_total-upsert k r t rest in rw elsewhere (omega (arith, later))
]

-- One failure more, if the result has failed.
failure_total-upsert :
    (k : Key) (r : DestinationResult) (t : Time) (store : Store)
    → failure_total (upsert k r t store)
      ≡ (if is_failure r then u64 (failure_total store + 1) else u64 (failure_total store))
unfolding upsert update_destination
failure_total-upsert k r t [] = elim (Bool-cases (is_success r)) [
  | inl succeeds ↦ rw succeeds (omega arith)
  | inr fails ↦ rw fails (omega arith)
]
failure_total-upsert k r t ((j, d) ∷ rest) = elim (Bool-cases (key_eq j k)) [
  | inl here ↦ elim (Bool-cases (is_success r)) [
    | inl succeeds ↦ rw (here, succeeds) (omega arith)
    | inr fails ↦ rw (here, fails) (omega arith)
  ]
  | inr elsewhere ↦
      let later = failure_total-upsert k r t rest in
      elim (Bool-cases (is_success r)) [
        | inl succeeds ↦
            let one = rw succeeds at later in rw (elsewhere, succeeds) (omega (arith, one))
        | inr fails ↦ let one = rw fails at later in rw (elsewhere, fails) (omega (arith, one))
      ]
]

module _ (to_lower : String → String) where
  observation_total_lem :
      (log : List Entry) → observation_total (record_all to_lower log) ≡ u64 (count is_accepted log)
  unfolding record_result
  observation_total_lem [] = omega arith
  observation_total_lem (e ∷ older) =
      let before = observation_total_lem older in
      elim (Bool-cases (is_accepted e.0)) [
        | inr refused ↦ rw (record_result, refused) before
        | inl accepted ↦
            let one =
              observation_total-upsert (destination_key to_lower e.0) e.0 e.1
                (record_all to_lower older) in
            rw (record_result, accepted) (omega (arith, before, one))
      ]

  failure_total_lem :
      (log : List Entry) → failure_total (record_all to_lower log) ≡ u64 (count is_counted log)
  unfolding record_result
  failure_total_lem [] = omega arith
  failure_total_lem (e ∷ older) =
      let before = failure_total_lem older in
      elim (Bool-cases (is_accepted e.0)) [
        | inr refused ↦ rw (record_result, refused) before
        | inl accepted ↦
            let one =
              failure_total-upsert (destination_key to_lower e.0) e.0 e.1
                (record_all to_lower older) in
            elim (Bool-cases (is_success e.0)) [
              | inl succeeds ↦
                  let same = rw succeeds at one in
                  rw (record_result, accepted, succeeds) (omega (arith, before, same))
              | inr fails ↦
                  let more = rw fails at one in
                  rw (record_result, accepted, fails) (omega (arith, before, more))
            ]
      ]

  -- After any log of results, the totals of observations and of failures over all destinations are
  -- the numbers of accepted entries and of accepted entries that failed, as 64-bit counters.
  pub record_all_totals :
      (log : List Entry)
      → (observation_total (record_all to_lower log) ≡ u64 (count is_accepted log))
        × (failure_total (record_all to_lower log) ≡ u64 (count is_counted log))
  record_all_totals log = (observation_total_lem log, failure_total_lem log)
