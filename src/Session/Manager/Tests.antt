-- ===== src/Session/Manager/Tests.antt =====
-- The theorems on `Manager` at concrete inputs.
use tadori.Base.{
  ℕ, zero, suc, ◌+◌, ◌≤◌, ◌<◌, ◌≡◌, ◌≢◌, refl, sym, ◌∙◌, ap, subst, Bool, true, false, ◌&&◌, none,
  some, List, [], ◌∷◌, length, get_elem?, ◌==◌, String, str_eq, ◌⊎◌, inl, inr, arith, Bool-cases,
  if◌then◌else◌,
}
use tadori.Model.{Time, Target}
use tadori.Session.Channel.{ok}
use tadori.Session.Defs.{new_session}
use tadori.Session.Manager.{
  Manager, CreateError, busy, closed, created, refused, find, is_known, new_manager, IdSource,
  default_id, fallback_count, unique_id, attempt_id, reserve, release, admit, create, cancel,
  close_manager,
}
use tadori.Session.Manager.Ids.{AreDistinct, unique_id-some}
use tadori.Session.Manager.Capacity.{World, Reach, here, next, reserves, admits}
use tadori.Session.Manager.Bounds.{total, is_running}
use tadori.Session.Manager.Safety.{initial, capacity_of, running_bounded, release_total}
use tadori.Session.Manager.Calls.{lookup, Answers, cancel-Answers, create_cases}
use tadori.Session.Manager.Closed.{AllTold, close_manager-refuses}

abbrev home : Target
home = record {
  original_input = "example.com";
  requested_identity = "example.com";
  service_id = "http";
  application_protocol = "http";
  transport_protocol = "tcp";
  port = 80;
}

-- `fmt.Sprintf("session-%d", n)` on the numbers that the examples reach.
abbrev session_names : List String
session_names =
    "session-0" ∷ "session-1" ∷ "session-2" ∷ "session-3" ∷ "session-4" ∷ "session-5" ∷ "session-6"
    ∷ "session-7" ∷ "session-8" ∷ "session-9" ∷ "session-10" ∷ "session-11" ∷ "session-12"
    ∷ "session-13" ∷ "session-14" ∷ "session-15" ∷ "session-16" ∷ "session-17" ∷ "session-18" ∷ []

-- No random bytes can be read, so each identifier has the next number.
abbrev unreadable : IdSource
unreadable = record {
  hex = λ bytes. "";
  session_name = λ n. elim (get_elem? session_names n) [ none ↦ "session" | some name ↦ name ];
  random = λ n. none;
  fallback_id = 0;
}

-- Where a name first stands in the list.
abbrev position : String → List String → ℕ
position name [] = 0
position name (x ∷ xs) = if str_eq x name then 0 else suc (position name xs)

holds_below : (ℕ → Bool) → ℕ → Bool
holds_below test zero = true
holds_below test (suc n) = test n && holds_below test n

holds_below_lem : (test : ℕ → Bool) (n k : ℕ) → holds_below test n ≡ true → k < n → test k ≡ true
unfolding holds_below
holds_below_lem test zero k h b = absurd (omega arith)
holds_below_lem test (suc n) k h b = elim (Bool-cases (k == n)) [
  | inl last ↦
      let same : n ≡ k = ground (arith, last) in subst (λ i. test i ≡ true) same (ground (arith, h))
  | inr early ↦ holds_below_lem test n k (ground (arith, h)) (ground (arith, early))
]

abbrev is_numbered : ℕ → Bool
is_numbered n = position (default_id unreadable n) session_names == n + 1

unreadable-is_numbered : holds_below is_numbered 18 ≡ true
unfolding holds_below default_id fallback_count
unreadable-is_numbered = refl

same_number : (m n : ℕ) → (m == n) ≡ true → m ≡ n
same_number m n h = ground arith

-- The place of an identifier tells which call it is of.
place_lem : (n : ℕ) → n < 18 → position (default_id unreadable n) session_names ≡ n + 1
place_lem n h = same_number _ (n + 1) (holds_below_lem is_numbered 18 n unreadable-is_numbered h)

unreadable-AreDistinct : AreDistinct 17 (default_id unreadable)
unreadable-AreDistinct a b p q e =
    let same : a + 1 ≡ b + 1 =
      sym (place_lem a (omega arith))
      ∙ ap (λ name. position name session_names) e
      ∙ place_lem b (omega arith) in
    omega (arith, same)

abbrev one : Manager
one = record {
  sessions = record { session = new_session "a" home 5; exited = false } ∷ [];
  max_concurrent = 2;
  in_use = 1;
  closed = false;
}

unique_id-some_example :
    (id : String) × (unique_id 2 (λ _. "a") unreadable one.sessions ≡ some id)
    × (is_known id one.sessions ≡ false)
unique_id-some_example = unique_id-some one.sessions unreadable (λ _. "a") unreadable-AreDistinct

abbrev sources : ℕ → String
sources k = "b"

create_cases_example :
    ((2 ≤ 1) × (create 2 sources unreadable home 9 one ≡ ok (one, refused busy)))
    ⊎ ((1 < 2)
        × (one.closed ≡ true)
        × (create 2 sources unreadable home 9 one ≡ ok (one, refused closed)))
    ⊎ ((1 < 2)
        × (one.closed ≡ false)
        × ((id : String) × (is_known id one.sessions ≡ false)
            × (create 2 sources unreadable home 9 one
                ≡ ok (
                  admit id home 9 (record one { in_use = 2 }),
                  created (new_session id home 9),
                ))))
create_cases_example = create_cases sources unreadable home 9 one unreadable-AreDistinct

cancel-Answers_example :
    Answers (lookup one "a") (lookup (cancel "a" one).0 "a") (cancel "a" one).1
    × ((other : String) → "a" ≢ other → lookup (cancel "a" one).0 other ≡ lookup one other)
    × ((cancel "a" one).0.in_use ≡ 1)
    × ((cancel "a" one).0.closed ≡ false)
unfolding cancel
cancel-Answers_example = cancel-Answers "a" one

-- An open manager is closed, and a creator takes the place that is left.
abbrev open_world : World
open_world = record { manager = one; pending = 0 }

abbrev shut_world : World
shut_world = record { manager = close_manager one; pending = 0 }

abbrev late_world : World
late_world = record { manager = record (close_manager one) { in_use = 2 }; pending = 1 }

Reach-late_world : Reach shut_world late_world
unfolding close_manager reserve
Reach-late_world = next here (reserves late_world.manager refl refl)

close_manager-refuses_example :
    AllTold (close_manager one).sessions
    × (late_world.manager.closed ≡ true)
    × (length late_world.manager.sessions ≡ 1)
    × ((fuel : ℕ) (new_id : ℕ → String) (source : IdSource) (target : Target) (started : Time)
        → (e : CreateError) × (create fuel new_id source target started late_world.manager
            ≡ ok (late_world.manager, refused e)))
close_manager-refuses_example = close_manager-refuses open_world late_world refl Reach-late_world

-- A creator takes a place, and then enters its session.
reserved : World
unfolding initial new_manager
reserved = record { manager = record (initial 2).manager { in_use = 1 }; pending = 1 }

admitted : World
unfolding reserved admit new_session
admitted = record { manager = admit "b" home 9 reserved.manager; pending = 0 }

Reach-admitted : Reach (initial 2) admitted
unfolding admitted initial new_manager reserve unique_id attempt_id find
Reach-admitted =
    next (next here (reserves reserved.manager refl refl))
      (admits 1 sources unreadable "b" home 9 0 refl refl refl refl)

running_bounded_example : total is_running admitted.manager.sessions ≤ capacity_of 2
running_bounded_example = running_bounded 2 Reach-admitted

release_total_example : (m : Manager) × (release admitted.manager ≡ ok m)
unfolding admitted find
release_total_example =
    release_total 2 "b" (record { session = new_session "b" home 9; exited = false }) Reach-admitted
      refl refl
