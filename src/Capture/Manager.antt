-- ===== src/Capture/Manager.antt =====
-- internal/capture/manager.go: the manager of capture sessions, and the order in which its
-- critical sections and the sessions' ends may occur. The capacity channel is the number of its
-- items. The options, the reports of a session and what `Start` of a session does are left out.
use mathlib.Core.List.{Mem}
use tadori.Base.{
  ℕ, zero, suc, ◌+◌, ◌≡◌, String, Bool, true, false, Option, none, some, List, [], ◌∷◌, ◌++◌, ltb,
  ℤ, if◌then◌else◌,
}
use tadori.Capture.Destinations.{is_one_of}

pub record CaptureManager : Type 0 where
  pub sessions : List String
  pub released : List String
  pub in_use : ℕ
  pub max_concurrent : ℕ
  pub closed : Bool

-- `NewManager`
abbrev pub new_capture_manager : ℤ → CaptureManager
new_capture_manager bound = record {
  sessions = [];
  released = [];
  in_use = 0;
  max_concurrent = elim bound [ ℤ.pos n ↦ (elim n [ zero ↦ 1 | suc k ↦ suc k ]) | ℤ.negsuc n ↦ 1 ];
  closed = false;
}

-- The send to the capacity channel at the begin of `Start`; nothing is `ErrBusy`.
unfoldable pub take_place : CaptureManager → Option CaptureManager
take_place m =
    if ltb m.in_use m.max_concurrent then some (record m { in_use = m.in_use + 1 }) else none

-- The receive from the capacity channel; nothing is a receive that waits.
unfoldable pub give_back : CaptureManager → Option CaptureManager
give_back m = elim m.in_use [ zero ↦ none | suc n ↦ some (record m { in_use = n }) ]

-- `release`
unfoldable pub release_session : String → CaptureManager → Option CaptureManager
release_session id m =
    let marked = give_back (record m { released = id ∷ m.released }) in
    if is_one_of id m.released then some m else marked

-- The end of `Start` for a session that runs: it enters the map unless the manager is closed.
abbrev pub enter : String → CaptureManager → CaptureManager
enter id m = if m.closed then m else record m { sessions = id ∷ m.sessions }

-- The manager; the calls of `Start` that have a place and no identifier yet; the identifiers whose
-- session is being started; and those whose session has its callback and has not run it.
pub record CaptureWorld : Type 0 where
  pub manager : CaptureManager
  pub reserved : ℕ
  pub opening : List String
  pub live : List String

-- One step of some goroutine. A new identifier is one that no session has had: it has 96 random
-- bits. A session enters the map at any time, since the capacity does not depend on it.
pub data CaptureMove (w : CaptureWorld) (w' : CaptureWorld) : Type 0 where
  begins :
      (m : CaptureManager)
      → take_place w.manager ≡ some m
      → w' ≡ record w { manager = m; reserved = w.reserved + 1 }
      → CaptureMove w w'
  finds_closed :
      (m : CaptureManager) (p : ℕ)
      → w.reserved ≡ suc p
      → w.manager.closed ≡ true
      → give_back w.manager ≡ some m
      → w' ≡ record w { manager = m; reserved = p }
      → CaptureMove w w'
  draws :
      (id : String) (p : ℕ)
      → w.reserved ≡ suc p
      → w.manager.closed ≡ false
      → ¬ Mem id (w.opening ++ (w.live ++ w.manager.released))
      → w' ≡ record w { reserved = p; opening = id ∷ w.opening }
      → CaptureMove w w'
  fails :
      (m : CaptureManager) (id : String) (pre post : List String)
      → w.opening ≡ pre ++ id ∷ post
      → give_back w.manager ≡ some m
      → w' ≡ record w { manager = m; opening = pre ++ post }
      → CaptureMove w w'
  starts :
      (id : String) (pre post : List String)
      → w.opening ≡ pre ++ id ∷ post
      → w' ≡ record w { opening = pre ++ post; live = id ∷ w.live }
      → CaptureMove w w'
  enters : (id : String) → w' ≡ record w { manager = enter id w.manager } → CaptureMove w w'
  ends :
      (m : CaptureManager) (id : String) (pre post : List String)
      → w.live ≡ pre ++ id ∷ post
      → release_session id w.manager ≡ some m
      → w' ≡ record w { manager = m; live = pre ++ post }
      → CaptureMove w w'
  closes : w' ≡ record w { manager = record (w.manager) { closed = true } } → CaptureMove w w'

pub data CaptureReach (w : CaptureWorld) : CaptureWorld → Type 0 where
  here : CaptureReach w w
  next : {u v : CaptureWorld} → CaptureReach w u → CaptureMove u v → CaptureReach w v
