-- ===== src/Session/Manager/Closed.antt =====
-- internal/session/session.go: what `Close` leaves, and what every goroutine finds after it.
use tadori.Base.{
  ◌⊎◌, ℕ, ◌≡◌, refl, ◌∙◌, ap, true, false, some, List, [], ◌∷◌, length, arith, ltb, String,
  Bool-cases, inl, inr,
}
use tadori.Model.{Time, Target}
use tadori.Session.Channel.{ok}
use tadori.Session.Defs.{ManagedSession, terminal, cancel_session}
use tadori.Session.Manager.{
  Entry, Manager, IdSource, CreateError, busy, closed, refused, update, reserve, release, create,
  close_manager, cancel_all,
}
use tadori.Session.Manager.Capacity.{
  World, Move, reserves, admits, turns_away, acts, concludes, exits, closes, Reach, here, next,
}
use tadori.Session.Manager.Calls.{AfterCancel, AfterCancel-cancel_session}

-- Every session has been told to stop, or is over.
abbrev pub AllTold : List Entry → Type 0
AllTold [] = Unit {0}
AllTold (e ∷ es) =
    ((terminal e.session.state ≡ true)
      ⊎ ((e.session.cancel_requested ≡ true) × (e.session.ctx_cancelled ≡ true)))
    × AllTold es

cancel_all-AllTold : (es : List Entry) → AllTold (cancel_all es)
cancel_all-AllTold [] = tt
cancel_all-AllTold (e ∷ es) = (told (AfterCancel-cancel_session e.session), cancel_all-AllTold es)
  where
    told :
        AfterCancel e.session (cancel_session e.session)
        → (terminal (cancel_session e.session).state ≡ true)
          ⊎ (((cancel_session e.session).cancel_requested ≡ true)
              × ((cancel_session e.session).ctx_cancelled ≡ true))
    told (inl (over, same)) = inl (ap (λ (s : ManagedSession). terminal s.state) same ∙ over)
    told (inr (live, same)) = inr (
      ap (λ (s : ManagedSession). s.cancel_requested) same,
      ap (λ (s : ManagedSession). s.ctx_cancelled) same,
    )

length-update :
    (id : String) (f : Entry → Entry) (es : List Entry) → length (update id f es) ≡ length es
unfolding update
length-update id f [] = refl
length-update id f (e ∷ es) = ground (arith, length-update id f es)

length-cancel_all : (es : List Entry) → length (cancel_all es) ≡ length es
length-cancel_all [] = refl
length-cancel_all (e ∷ es) = omega (arith, length-cancel_all es)

reserve-closed :
    (m m' : Manager) → reserve m ≡ some m' → (m'.closed ≡ m.closed) × (m'.sessions ≡ m.sessions)
unfolding reserve
reserve-closed m m' h = (ground arith, ground arith)

release-closed :
    (m m' : Manager) → release m ≡ ok m' → (m'.closed ≡ m.closed) × (m'.sessions ≡ m.sessions)
unfolding release
release-closed m m' h = (ground arith, ground arith)

close_manager-again : (m : Manager) → m.closed ≡ true → close_manager m ≡ m
unfolding close_manager
close_manager-again m c = ground arith

-- Closed, with as many sessions as before.
abbrev IsShut : ℕ → Manager → Type 0
IsShut n m = (m.closed ≡ true) × (length m.sessions ≡ n)

Move-IsShut : (n : ℕ) {u v : World} → Move u v → IsShut n u.manager → IsShut n v.manager
Move-IsShut n {u} {v} (reserves m h e) (c, k) =
    let (a, b) = reserve-closed u.manager m h in rw e (a ∙ c, ap length b ∙ k)
Move-IsShut n (admits fuel new_id source id target started p pending live found e) (c, k) =
    absurd (cc)
Move-IsShut n {u} {v} (turns_away m p pending over h e) (c, k) =
    let (a, b) = release-closed u.manager m h in rw e (a ∙ c, ap length b ∙ k)
Move-IsShut n (acts id x now o s found h e) (c, k) =
    rw e (c, length-update id (λ _. record x { session = s }) _ ∙ k)
Move-IsShut n (concludes id x now times r d s found over h e) (c, k) =
    rw e (c, length-update id (λ _. record x { session = s }) _ ∙ k)
Move-IsShut n {u} {v} (exits id x m found over left h e) (c, k) =
    let (a, b) = release-closed u.manager m h in
    rw e (a ∙ c, length-update id (λ _. record x { exited = true }) m.sessions ∙ ap length b ∙ k)
Move-IsShut n {u} {v} (closes e) (c, k) = rw (e, close_manager-again u.manager c) (c, k)

Reach-IsShut : (n : ℕ) {u v : World} → Reach u v → IsShut n u.manager → IsShut n v.manager
Reach-IsShut n here shut = shut
Reach-IsShut n (next r move) shut = Move-IsShut n move (Reach-IsShut n r shut)

create-refused :
    (m : Manager) (fuel : ℕ) (new_id : ℕ → String) (source : IdSource) (target : Target)
    (started : Time)
    → m.closed ≡ true
    → (e : CreateError) × (create fuel new_id source target started m ≡ ok (m, refused e))
unfolding create reserve release
create-refused m fuel new_id source target started o =
    elim (Bool-cases (ltb m.in_use m.max_concurrent)) [
      | inr full ↦ (busy, rw (o, create) (ground arith))
      | inl room ↦ (closed, rw (o, create) (ground arith))
    ]

-- `Close` on an open manager leaves every session over or asked to cancel with its context
-- cancelled. In every world that creators, session goroutines and callers can reach from there the
-- manager is closed and holds as many sessions as before, and every `create` is refused and leaves
-- the manager as it is.
pub close_manager-refuses :
    (w w' : World)
    → w.manager.closed ≡ false
    → Reach (record w { manager = close_manager w.manager }) w'
    → AllTold (close_manager w.manager).sessions
      × (w'.manager.closed ≡ true)
      × (length w'.manager.sessions ≡ length w.manager.sessions)
      × ((fuel : ℕ) (new_id : ℕ → String) (source : IdSource) (target : Target) (started : Time)
          → (e : CreateError) × (create fuel new_id source target started w'.manager
              ≡ ok (w'.manager, refused e)))
unfolding close_manager
close_manager-refuses w w' o r =
    let (shut, same) =
      Reach-IsShut (length w.manager.sessions) r
        (rw o (refl, length-cancel_all w.manager.sessions)) in
    (
      rw o (cancel_all-AllTold w.manager.sessions),
      shut,
      same,
      (λ fuel new_id source target started.
          create-refused w'.manager fuel new_id source target started shut),
    )
