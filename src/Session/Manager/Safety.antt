-- ===== src/Session/Manager/Safety.antt =====
-- What the capacity channel guarantees, whatever the goroutines do and in whatever order.
use tadori.Base.{
  ℕ, suc, ◌+◌, ◌-◌, ◌≤◌, ◌<◌, ◌≡◌, refl, sym, ◌∙◌, ap, subst, true, false, some, [], ◌∷◌, arith,
  ◌==◌, Bool-cases, inl, inr, if◌then◌else◌, String,
}
use tadori.Model.{Time, Target}
use tadori.Session.Channel.{ok}
use tadori.Session.Defs.{ManagedSession, new_session}
use tadori.Session.Manager.{
  Entry, Manager, new_manager, find, update, reserve, release, admit, close_manager,
}
use tadori.Session.Manager.Capacity.{
  World, Move, reserves, admits, turns_away, acts, concludes, exits, closes, Reach, here, next,
}
use tadori.Session.Manager.Bounds.{
  total, is_active, is_running, Orderly, total-append, total-update, Orderly-append, Orderly-update,
  Orderly-find, running-le-active, cancel_all_same, step-done, conclude-done,
}

-- A place is in use for each creator that has one and for each goroutine that has not exited.
pub record Inv (cap : ℕ) (w : World) : Type 0 where
  pub used : w.manager.in_use ≡ w.pending + total is_active w.manager.sessions
  pub bounded : w.manager.in_use ≤ cap
  pub same_cap : w.manager.max_concurrent ≡ cap
  pub orderly : Orderly w.manager.sessions

unfoldable pub initial : ℕ → World
initial n = record { manager = new_manager n; pending = 0 }

-- The bound that `NewManager` sets.
abbrev pub capacity_of : ℕ → ℕ
capacity_of n = if n == 0 then 2 else n

initial-Inv : (n : ℕ) → Inv (capacity_of n) (initial n)
unfolding initial new_manager
initial-Inv n = record { used = omega arith; bounded = omega arith; same_cap = refl; orderly = tt }

-- A change of one entry that leaves `exited` alone and does not reopen its session.
keep-Inv :
    {cap : ℕ} {w : World} (id : String) (e : Entry) (s : ManagedSession)
    → Inv cap w
    → find id w.manager.sessions ≡ some e
    → (e.session.done ≡ true → s.done ≡ true)
    → Inv cap (record w {
      manager = record (w.manager) {
        sessions = update id (λ _. record e { session = s }) w.manager.sessions;
      };
    })
keep-Inv {cap} {w} id e s v h k = record {
  used =
      omega (
        arith,
        v.used,
        total-update is_active id e (record e { session = s }) w.manager.sessions h,
      );
  bounded = v.bounded;
  same_cap = v.same_cap;
  orderly =
      Orderly-update id (record e { session = s }) w.manager.sessions
        (λ x. k (Orderly-find id e w.manager.sessions h v.orderly x)) v.orderly;
}

reserve_fields :
    (m : Manager) {m' : Manager}
    → reserve m ≡ some m'
    → (m'.in_use ≡ m.in_use + 1)
      × (m.in_use < m.max_concurrent)
      × (m'.sessions ≡ m.sessions)
      × (m'.max_concurrent ≡ m.max_concurrent)
unfolding reserve
reserve_fields m h = (ground arith, ground arith, ground arith, ground arith)

release_fields :
    (m : Manager) {m' : Manager}
    → release m ≡ ok m'
    → (m'.in_use + 1 ≡ m.in_use)
      × (m'.sessions ≡ m.sessions)
      × (m'.max_concurrent ≡ m.max_concurrent)
unfolding release
release_fields m h = (ground arith, ground arith, ground arith)

module _ {cap : ℕ} {w : World} (v : Inv cap w) where
  reserves-Inv :
      (m : Manager)
      → reserve w.manager ≡ some m
      → Inv cap (record { manager = m; pending = w.pending + 1 })
  reserves-Inv m r =
      let (one, room, same, max) = reserve_fields w.manager r in
      record {
        used = omega (arith, one, v.used, ap (total is_active) same);
        bounded = omega (arith, one, room, v.same_cap);
        same_cap = max ∙ v.same_cap;
        orderly = subst Orderly (sym same) v.orderly;
      }

  admits-Inv :
      (id : String) (target : Target) (started : Time) (p : ℕ)
      → w.pending ≡ suc p
      → Inv cap (record { manager = admit id target started w.manager; pending = p })
  unfolding admit new_session
  admits-Inv id target started p q = record {
    used = omega (arith, v.used, total-append is_active w.manager.sessions (fresh ∷ []));
    bounded = v.bounded;
    same_cap = v.same_cap;
    orderly =
        Orderly-append w.manager.sessions (fresh ∷ []) v.orderly ((λ x. absurd (ground arith)), tt);
  }
    where
      fresh : Entry
      fresh = record { session = new_session id target started; exited = false }

  turns_away-Inv :
      (m : Manager) (p : ℕ)
      → w.pending ≡ suc p
      → release w.manager ≡ ok m
      → Inv cap (record { manager = m; pending = p })
  turns_away-Inv m p q r =
      let (one, same, max) = release_fields w.manager r in
      record {
        used = omega (arith, one, v.used, ap (total is_active) same);
        bounded = omega (arith, one, v.bounded);
        same_cap = max ∙ v.same_cap;
        orderly = subst Orderly (sym same) v.orderly;
      }

  exits-Inv :
      (id : String) (e : Entry) (m : Manager)
      → find id w.manager.sessions ≡ some e
      → e.session.done ≡ true
      → e.exited ≡ false
      → release w.manager ≡ ok m
      → Inv cap (record w {
        manager = record m { sessions = update id (λ _. record e { exited = true }) m.sessions };
      })
  exits-Inv id e m f d x r =
      let (one, same, max) = release_fields w.manager r in
      let e' : Entry = record e { exited = true } in
      record {
        used = ground (
          arith,
          one,
          v.used,
          ap (λ es. total is_active (update id (λ _. e') es)) same,
          total-update is_active id e e' w.manager.sessions f,
        );
        bounded = omega (arith, one, v.bounded);
        same_cap = max ∙ v.same_cap;
        orderly = Orderly-update id e' m.sessions (λ _. d) (subst Orderly (sym same) v.orderly);
      }

  closes-Inv : Inv cap (record w { manager = close_manager w.manager })
  unfolding close_manager
  closes-Inv = elim (Bool-cases w.manager.closed) [
    | inl again ↦
        rw again (record {
          used = v.used;
          bounded = v.bounded;
          same_cap = v.same_cap;
          orderly = v.orderly;
        })
    | inr first ↦ rw first (record {
      used = omega (arith, v.used, (cancel_all_same w.manager.sessions).0);
      bounded = v.bounded;
      same_cap = v.same_cap;
      orderly = (cancel_all_same w.manager.sessions).1 v.orderly;
    })
  ]

Move-Inv : {cap : ℕ} {w w' : World} → Move w w' → Inv cap w → Inv cap w'
Move-Inv {cap} (reserves m r e) v = subst (Inv cap) (sym e) (reserves-Inv v m r)
Move-Inv {cap} (admits _ _ _ id t st p q c n e) v =
    subst (Inv cap) (sym e) (admits-Inv v id t st p q)
Move-Inv {cap} (turns_away m p q c r e) v = subst (Inv cap) (sym e) (turns_away-Inv v m p q r)
Move-Inv {cap} (acts id e now o s f h p) v =
    subst (Inv cap) (sym p) (keep-Inv id e s v f (λ d. step-done now e.session o h ∙ d))
Move-Inv {cap} (concludes id e now ts r d s f n h p) v =
    subst (Inv cap) (sym p) (keep-Inv id e s v f (λ _. conclude-done now ts r d e.session h))
Move-Inv {cap} (exits id e m f d x r p) v = subst (Inv cap) (sym p) (exits-Inv v id e m f d x r)
Move-Inv {cap} (closes e) v = subst (Inv cap) (sym e) (closes-Inv v)

Reach-Inv : {cap : ℕ} {w w' : World} → Inv cap w → Reach w w' → Inv cap w'
Reach-Inv v here = v
Reach-Inv v (next r m) = Move-Inv m (Reach-Inv v r)

-- In every world that creators, session goroutines and callers can reach from a new manager, the
-- sessions that are not over are at most the manager's bound, which is 2 where the option gives
-- none.
pub running_bounded :
    (n : ℕ) {w : World} → Reach (initial n) w → total is_running w.manager.sessions ≤ capacity_of n
running_bounded n {w} r =
    let v = Reach-Inv (initial-Inv n) r in
    omega (arith, v.used, v.bounded, running-le-active w.manager.sessions v.orderly)

-- In every reachable world, a session goroutine that has not exited can give its place back at
-- once: the receive from the capacity channel does not wait.
pub release_total :
    (n : ℕ) {w : World} (id : String) (e : Entry)
    → Reach (initial n) w
    → find id w.manager.sessions ≡ some e
    → e.exited ≡ false
    → (m : Manager) × (release w.manager ≡ ok m)
unfolding release
release_total n {w} id e r f x =
    let v = Reach-Inv (initial-Inv n) r in
    let counted = total-update is_active id e (record e { exited = true }) w.manager.sessions f in
    (record (w.manager) { in_use = w.manager.in_use - 1 }, ground (arith, v.used, counted))
