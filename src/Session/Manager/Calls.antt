-- ===== src/Session/Manager/Calls.antt =====
-- What `Create` and `Cancel` do, on every branch.
use mathlib.Core.Option
use tadori.Base.{
  ℕ, ◌+◌, ◌≤◌, ◌<◌, ◌≡◌, ◌≢◌, refl, ◌∙◌, true, false, Option, none, some, List, [], ◌∷◌, ◌⊎◌, inl,
  inr, arith, length, ltb, if◌then◌else◌, String, str_eq, eq_iff, Bool-cases,
}
use tadori.Model.{Time, Target}
use tadori.Session.Channel.{ok}
use tadori.Session.Defs.{
  ManagedSession, State, running, cancelling, completed, cancelled, failed, terminal, new_session,
  cancel_session,
}
use tadori.Session.Manager.{
  Entry, Manager, busy, closed, created, refused, find, update, is_known, reserve, release, admit,
  IdSource, default_id, create, cancel,
}
use tadori.Session.Manager.Ids.{AreDistinct, unique_id-some}

-- The map of sessions as a function.
abbrev pub lookup : Manager → String → Option ManagedSession
lookup m id = Option.map (λ e. e.session) (find id m.sessions)

find-update :
    (id other : String) (f : Entry → Entry) (es : List Entry)
    → ((e : Entry) → (f e).session.id ≡ e.session.id)
    → find other (update id f es)
      ≡ (if str_eq id other then Option.map f (find id es) else find other es)
unfolding find update
find-update id other f [] h = ground arith
find-update id other f (e ∷ es) h = ground (
  arith,
  h e,
  eq_iff id other,
  eq_iff e.session.id id,
  eq_iff e.session.id other,
  find-update id other f es h,
)

cancel-id : (s : ManagedSession) → (cancel_session s).id ≡ s.id
unfolding cancel_session
cancel-id s = ground arith

-- What a cancellation leaves of a session: one that is over stays as it is; any other is
-- cancelling, is asked to cancel, has its context cancelled and keeps the rest.
abbrev pub AfterCancel : ManagedSession → ManagedSession → Type 0
AfterCancel s s' =
    ((terminal s.state ≡ true) × (s' ≡ s))
    ⊎ ((terminal s.state ≡ false)
        × (s' ≡ record s { state = cancelling; cancel_requested = true; ctx_cancelled = true }))

pub AfterCancel-cancel_session : (s : ManagedSession) → AfterCancel s (cancel_session s)
unfolding cancel_session
AfterCancel-cancel_session s = split s.state refl
  where
    split : (st : State) → s.state ≡ st → AfterCancel s (cancel_session s)
    split running e = inr (rw e refl, rw e refl)
    split cancelling e = inr (rw e refl, rw e refl)
    split completed e = inl (rw e refl, rw e refl)
    split cancelled e = inl (rw e refl, rw e refl)
    split failed e = inl (rw e refl, rw e refl)

-- What `Cancel` answers, and the session that it leaves under its identifier.
abbrev pub Answers : Option ManagedSession → Option ManagedSession → Option ManagedSession → Type 0
Answers none stored answer = (stored ≡ none) × (answer ≡ none)
Answers (some s) stored answer =
    (s' : ManagedSession) × AfterCancel s s' × (stored ≡ some s') × (answer ≡ some s')

lookup-update :
    (id other : String) (m : Manager)
    → (lookup (cancel id m).0 other
        ≡ (if str_eq id other then Option.map cancel_session (lookup m id) else lookup m other))
      × ((cancel id m).1 ≡ Option.map cancel_session (lookup m id))
unfolding cancel
lookup-update id other m =
    let kept =
      find-update id other (λ e. record e { session = cancel_session e.session }) m.sessions
        (λ e. cancel-id e.session) in
    (ground (arith, kept, eq_iff id other), ground arith)

-- `Cancel` of an identifier that no session has answers nothing and enters nothing. Otherwise its
-- answer is the session that it leaves under the identifier: as it was where it was over, else
-- cancelling, asked to cancel, its context cancelled and all else as it was. No other session
-- changes, nor the places in use, nor whether the manager is closed.
pub cancel-Answers :
    (id : String) (m : Manager)
    → Answers (lookup m id) (lookup (cancel id m).0 id) (cancel id m).1
      × ((other : String) → id ≢ other → lookup (cancel id m).0 other ≡ lookup m other)
      × ((cancel id m).0.in_use ≡ m.in_use)
      × ((cancel id m).0.closed ≡ m.closed)
unfolding cancel
cancel-Answers id m = (
  named (lookup m id) refl,
  (λ other differs. (lookup-update id other m).0 ∙ (elim (Bool-cases (str_eq id other)) [
    | inl same ↦ absurd (differs ((eq_iff id other).0 same))
    | inr apart ↦ rw apart refl
  ])),
  ground arith,
  ground arith,
)
  where
    self : str_eq id id ≡ true
    self = (eq_iff id id).1 refl

    named :
        (found : Option ManagedSession)
        → lookup m id ≡ found
        → Answers found (lookup (cancel id m).0 id) (cancel id m).1
    named none e =
        ((lookup-update id id m).0 ∙ rw (self, e) refl, (lookup-update id id m).1 ∙ rw e refl)
    named (some s) e = (
      cancel_session s,
      AfterCancel-cancel_session s,
      (lookup-update id id m).0 ∙ rw (self, e) refl,
      (lookup-update id id m).1 ∙ rw e refl,
    )

-- Where the first 17 results of `defaultID` and as many more as there are sessions are distinct,
-- `create` has three outcomes: with no place free the manager stays and the call is refused as
-- busy; with a place free on a closed manager the manager stays, its place given back, and the
-- call is refused as closed; otherwise a running session is entered under an identifier that no
-- session had, and one place more is in use.
pub create_cases :
    (new_id : ℕ → String) (source : IdSource) (target : Target) (started : Time) (m : Manager)
    → AreDistinct (16 + length m.sessions) (default_id source)
    → ((m.max_concurrent ≤ m.in_use)
        × (create (length m.sessions + 1) new_id source target started m ≡ ok (m, refused busy)))
      ⊎ ((m.in_use < m.max_concurrent)
          × (m.closed ≡ true)
          × (create (length m.sessions + 1) new_id source target started m
              ≡ ok (m, refused closed)))
      ⊎ ((m.in_use < m.max_concurrent)
          × (m.closed ≡ false)
          × ((id : String) × (is_known id m.sessions ≡ false)
              × (create (length m.sessions + 1) new_id source target started m
                  ≡ ok (
                    admit id target started (record m { in_use = m.in_use + 1 }),
                    created (new_session id target started),
                  ))))
unfolding create reserve release
create_cases new_id source target started m h =
    let (id, found, free) = unique_id-some m.sessions source new_id h in
    elim (Bool-cases (ltb m.in_use m.max_concurrent)) [
      | inr full ↦ inl (ground arith, rw (full, create))
      | inl room ↦ elim (Bool-cases m.closed) [
        | inl over ↦ inr (inl (ground arith, over, ground arith))
        | inr live ↦
            inr (inr (ground arith, live, (id, free, rw (room, create) (ground (arith, found)))))
      ]
    ]
