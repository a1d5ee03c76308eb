-- ===== src/Session/Manager/Capacity.antt =====
-- internal/session/session.go: the capacity channel over every interleaving of creators, session goroutines and callers.
use tadori.Base.{ℕ, suc, ◌+◌, ◌≡◌, Bool, true, false, some, List, String}
use tadori.Model.{Time, Target}
use tadori.Session.Channel.{ok}
use tadori.Session.Defs.{ManagedSession}
use tadori.Session.Execute.{RunOutcome, conclude}
use tadori.Session.Steps.{Op, step}
use tadori.Session.Manager.{
  Entry, Manager, IdSource, find, update, unique_id, reserve, release, admit, close_manager,
}

-- The manager, and how many creators have a place and have not yet locked the map.
pub record World : Type 0 where
  pub manager : Manager
  pub pending : ℕ

abbrev with_sessions : World → List Entry → World
with_sessions w es = record w { manager = record (w.manager) { sessions = es } }

abbrev replace : String → Entry → List Entry → List Entry
replace id e' = update id (λ _. e')

-- One step of some goroutine.
pub data Move (w : World) (w' : World) : Type 0 where
  reserves :
      (m : Manager)
      → reserve w.manager ≡ some m
      → w' ≡ record { manager = m; pending = w.pending + 1 }
      → Move w w'
  admits :
      (fuel : ℕ) (new_id : ℕ → String) (source : IdSource) (id : String) (target : Target)
      (started : Time) (p : ℕ)
      → w.pending ≡ suc p
      → w.manager.closed ≡ false
      → unique_id fuel new_id source w.manager.sessions ≡ some id
      → w' ≡ record { manager = admit id target started w.manager; pending = p }
      → Move w w'
  turns_away :
      (m : Manager) (p : ℕ)
      → w.pending ≡ suc p
      → w.manager.closed ≡ true
      → release w.manager ≡ ok m
      → w' ≡ record { manager = m; pending = p }
      → Move w w'
  acts :
      (id : String) (e : Entry) (now : ℕ → Time) (o : Op) (s : ManagedSession)
      → find id w.manager.sessions ≡ some e
      → step now e.session o ≡ ok s
      → w' ≡ with_sessions w (replace id (record e { session = s }) w.manager.sessions)
      → Move w w'
  concludes :
      (id : String) (e : Entry) (now : ℕ → Time) (times : Time × Time × Time) (r : RunOutcome)
      (d : Bool) (s : ManagedSession)
      → find id w.manager.sessions ≡ some e
      → e.session.done ≡ false
      → conclude now times r d e.session ≡ ok s
      → w' ≡ with_sessions w (replace id (record e { session = s }) w.manager.sessions)
      → Move w w'
  exits :
      (id : String) (e : Entry) (m : Manager)
      → find id w.manager.sessions ≡ some e
      → e.session.done ≡ true
      → e.exited ≡ false
      → release w.manager ≡ ok m
      → w' ≡ record w {
        manager = record m { sessions = replace id (record e { exited = true }) m.sessions };
      }
      → Move w w'
  closes : w' ≡ record w { manager = close_manager w.manager } → Move w w'

pub data Reach (w : World) : World → Type 0 where
  here : Reach w w
  next : {u v : World} → Reach w u → Move u v → Reach w v
