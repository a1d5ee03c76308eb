-- ===== src/Capture/Described.antt =====
-- What the destination of a key says, described from the log of all results, the newest first.
use tadori.Base.{
  ℕ, ◌+◌, String, Bool, not, ◌&&◌, Option, none, some, List, [], ◌∷◌, length, u64, if◌then◌else◌,
}
use tadori.Model.{Time}
use tadori.Capture.Destinations.{
  CaptureOutcome, DestinationResult, Destination, outcome_of, is_success, Key, key_eq, Store,
  is_accepted, destination_key, record_result,
}

abbrev pub Entry : Type 0
Entry = DestinationResult × Time

pub record Summary : Type 0 where
  pub requested_hostname : String
  pub first_seen : Time
  pub last_seen : Time
  pub observation_count : ℕ
  pub connection_count : ℕ
  pub success_count : ℕ
  pub failure_count : ℕ
  pub outcome : CaptureOutcome

abbrev pub summary : Destination → Summary
summary d = record {
  requested_hostname = d.requested_hostname;
  first_seen = d.first_seen;
  last_seen = d.last_seen;
  observation_count = d.observation_count;
  connection_count = d.connection_count;
  success_count = d.success_count;
  failure_count = d.failure_count;
  outcome = d.outcome;
}

-- How many entries pass a test.
abbrev pub count : (DestinationResult → Bool) → List Entry → ℕ
count test [] = 0
count test (e ∷ older) = let rest = count test older in if test e.0 then rest + 1 else rest

abbrev pub is_attempt : DestinationResult → Bool
is_attempt r = r.connection_attempted

abbrev pub is_failure : DestinationResult → Bool
is_failure r = not (is_success r)

-- The oldest entry of a log that ends behind `e`.
abbrev pub oldest : Entry → List Entry → Entry
oldest e [] = e
oldest e (f ∷ older) = oldest f older

abbrev pub describe : List Entry → Option Summary
describe [] = none
describe (e ∷ older) = some (record {
  requested_hostname = (oldest e older).0.host;
  first_seen = (oldest e older).1;
  last_seen = e.1;
  observation_count = u64 (length (e ∷ older));
  connection_count = u64 (count is_attempt (e ∷ older));
  success_count = u64 (count is_success (e ∷ older));
  failure_count = u64 (count is_failure (e ∷ older));
  outcome =
      outcome_of (u64 (count is_success (e ∷ older))) (u64 (count is_failure (e ∷ older)))
        e.0.outcome;
})

abbrev pub find_key : Key → Store → Option Destination
find_key k [] = none
find_key k (entry ∷ rest) =
    let later = find_key k rest in if key_eq entry.0 k then some entry.1 else later

module _ (to_lower : String → String) where
  -- The entries of a key.
  abbrev pub select : Key → List Entry → List Entry
  select k [] = []
  select k (e ∷ older) =
      let rest = select k older in
      if is_accepted e.0 && key_eq (destination_key to_lower e.0) k then e ∷ rest else rest

  -- The map after all results of the log.
  abbrev pub record_all : List Entry → Store
  record_all [] = []
  record_all (e ∷ older) = record_result to_lower e.0 e.1 (record_all older)
