-- ===== src/Capture/Bounds.antt =====
-- What stays bounded in the map of destinations.
use tadori.Base.{
  Bool, true, false, if◌then◌else◌, ℕ, zero, suc, ◌≤◌, String, List, [], ◌∷◌, length, take, leb,
  arith, inl, inr, Bool-cases, AllOf,
}
use tadori.Model.{Time}
use tadori.Capture.Destinations.{
  DestinationResult, Destination, is_success, Key, key_eq, Store, is_accepted, destination_key,
  record_result, update_destination, new_destination, with_reason, append_unique_value,
  max_failure_reasons, upsert,
}
use tadori.Capture.Described.{Entry, record_all}

length-take : (n : ℕ) (values : List String) → length (take n values) ≤ n
length-take zero values = omega arith
length-take (suc n) [] = omega arith
length-take (suc n) (v ∷ vs) = let rest = length-take n vs in omega (arith, rest)

with_reason_bounded :
    (reasons : List String) (reason : String) → length (with_reason reasons reason) ≤ 16
with_reason_bounded reasons reason =
    let longer = append_unique_value reasons reason in
    elim (Bool-cases (leb max_failure_reasons (length longer))) [
      | inl many ↦ rw many (length-take 16 longer)
      | inr few ↦ rw few (ground (arith, few))
    ]

abbrev pub IsBounded : Key × Destination → Type 0
IsBounded entry = length entry.1.failure_reasons ≤ 16

either_bounded :
    (b : Bool) (xs ys : List String)
    → length xs ≤ 16
    → length ys ≤ 16
    → length (if b then xs else ys) ≤ 16
either_bounded true xs ys h k = h
either_bounded false xs ys h k = k

update_destination-IsBounded :
    (k : Key) (r : DestinationResult) (t : Time) (d : Destination)
    → length d.failure_reasons ≤ 16
    → IsBounded (k, update_destination r t d)
unfolding update_destination
update_destination-IsBounded k r t d h =
    either_bounded (is_success r) d.failure_reasons (with_reason d.failure_reasons r.failure_reason)
      h (with_reason_bounded d.failure_reasons r.failure_reason)

upsert-IsBounded :
    (k : Key) (r : DestinationResult) (t : Time) (store : Store)
    → AllOf IsBounded store
    → AllOf IsBounded (upsert k r t store)
unfolding upsert
upsert-IsBounded k r t [] h =
    (update_destination-IsBounded k r t (new_destination r t) (omega arith), tt)
upsert-IsBounded k r t ((j, d) ∷ rest) (h, hs) = elim (Bool-cases (key_eq j k)) [
  | inl here ↦ rw here (update_destination-IsBounded j r t d h, hs)
  | inr elsewhere ↦ rw elsewhere (h, upsert-IsBounded k r t rest hs)
]

module _ (to_lower : String → String) where
  -- After any log of results, no destination has more than sixteen failure reasons.
  pub record_all-IsBounded : (log : List Entry) → AllOf IsBounded (record_all to_lower log)
  unfolding record_result
  record_all-IsBounded [] = tt
  record_all-IsBounded (e ∷ older) = elim (Bool-cases (is_accepted e.0)) [
    | inr refused ↦ rw (record_result, refused) (record_all-IsBounded older)
    | inl accepted ↦
        rw (record_result, accepted)
          (upsert-IsBounded (destination_key to_lower e.0) e.0 e.1 (record_all to_lower older)
            (record_all-IsBounded older))
  ]
