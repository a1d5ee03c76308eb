-- ===== src/Capture/Tests.antt =====
-- The theorems on the destinations of a capture at a concrete log.
use mathlib.Core.List.{not-mem-nil}
use tadori.Base.{ℤ, ◌+◌, ◌≤◌, ◌≡◌, refl, String, true, some, List, [], ◌∷◌, u64, AllOf}
use tadori.Capture.Destinations.{
  CaptureOutcome, DestinationResult, Key, observation_total, failure_total, is_accepted,
}
use tadori.Capture.Manager.{
  CaptureManager, new_capture_manager, take_place, release_session, CaptureWorld, begins, draws,
  starts, CaptureReach, here, next,
}
use tadori.Capture.Places.{new_world}
use tadori.Capture.Release.{release_session-gives}
use tadori.Capture.Described.{Entry, count, describe, find_key, select, record_all}
use tadori.Capture.Refines.{summary_of, record_all-describe}
use tadori.Capture.Totals.{is_counted, record_all_totals}
use tadori.Capture.Bounds.{IsBounded, record_all-IsBounded}

abbrev same_text : String → String
same_text s = s

abbrev reached : DestinationResult
reached = record {
  host = "example.org";
  authority = "example.org:443";
  port = 443;
  mechanism = "connect";
  resolved_candidates = "10.0.0.1" ∷ [];
  connected_endpoint = "10.0.0.1:443";
  connected_address = "10.0.0.1";
  outcome = CaptureOutcome.connected;
  failure_reason = "";
  connection_attempted = true;
}

abbrev refused : DestinationResult
refused = record reached {
  connected_endpoint = "";
  connected_address = "";
  outcome = CaptureOutcome.failed;
  failure_reason = "connection_refused";
}

abbrev without_port : DestinationResult
without_port = record reached { port = 0 }

-- The newest first.
abbrev log : List Entry
log = (refused, 30) ∷ (without_port, 20) ∷ (reached, 10) ∷ []

abbrev key : Key
key = ("example.org", 443)

mixed_outcome :
    describe (select same_text key log)
    ≡ some (record {
      requested_hostname = "example.org";
      first_seen = 10;
      last_seen = 30;
      observation_count = 2;
      connection_count = 2;
      success_count = 1;
      failure_count = 1;
      outcome = CaptureOutcome.mixed;
    })
mixed_outcome = refl

record_all-describe_example :
    summary_of (find_key key (record_all same_text log)) ≡ describe (select same_text key log)
record_all-describe_example = record_all-describe same_text log key

record_all_totals_example :
    (observation_total (record_all same_text log) ≡ u64 (count is_accepted log))
    × (failure_total (record_all same_text log) ≡ u64 (count is_counted log))
record_all_totals_example = record_all_totals same_text log

record_all-IsBounded_example : AllOf IsBounded (record_all same_text log)
record_all-IsBounded_example = record_all-IsBounded same_text log

-- One call of `Start` that has come to a running session.
abbrev one_place : CaptureManager
one_place = record (new_capture_manager (ℤ.pos 1)) { in_use = 1 }

abbrev running_world : CaptureWorld
running_world = record { manager = one_place; reserved = 0; opening = []; live = "a" ∷ [] }

place_taken : take_place (new_capture_manager (ℤ.pos 1)) ≡ some one_place
unfolding take_place
place_taken = refl

reached_running : CaptureReach (new_world (ℤ.pos 1)) running_world
reached_running =
    next
      (next (next here (begins one_place place_taken refl))
        (draws "a" 0 refl refl not-mem-nil refl))
      (starts "a" [] [] refl refl)

release_session-gives_example :
    (1 ≡ 0 + 0 + 1)
    × (1 ≤ 1)
    × ((m : CaptureManager) × (release_session "a" one_place ≡ some m) × (m.in_use + 1 ≡ 1))
release_session-gives_example =
    release_session-gives (ℤ.pos 1) running_world "a" [] [] reached_running refl
