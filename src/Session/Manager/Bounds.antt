-- ===== src/Session/Manager/Bounds.antt =====
-- Counts over the session list, and the bound on running sessions.
use tadori.Base.{
  ℕ, ◌+◌, ◌≤◌, ◌≡◌, refl, ◌∙◌, Bool, true, false, not, some, List, [], ◌∷◌, ◌++◌, arith, String,
  str_eq, Bool-cases, inl, inr,
}
use tadori.Model.{Time, DiagnosticReport}
use tadori.Session.Channel.{ok, ◌>>=◌, ok_of_chain}
use tadori.Session.Defs.{
  Event, ManagedSession, cancel_session, emit_locked, subscribe, unsubscribe, read,
}
use tadori.Session.Execute.{
  RunOutcome, conclude, finish, hang_up, close_done, settle, emit_findings, closing_event,
  limit_report, run_safely,
}
use tadori.Session.Steps.{Op, step, emits, cancels, subscribes, unsubscribes, reads}
use tadori.Session.Manager.{Entry, find, update, cancel_all}

abbrev pub bit : Bool → ℕ
bit true = 1
bit false = 0

abbrev pub total : (Entry → Bool) → List Entry → ℕ
total p [] = 0
total p (e ∷ es) = bit (p e) + total p es

abbrev pub is_active : Entry → Bool
is_active e = not e.exited

abbrev pub is_running : Entry → Bool
is_running e = not e.session.done

-- A goroutine that has exited has finished its session.
abbrev pub Orderly : List Entry → Type 0
Orderly [] = Unit {0}
Orderly (e ∷ es) = (e.exited ≡ true → e.session.done ≡ true) × Orderly es

pub total-append :
    (p : Entry → Bool) (xs ys : List Entry) → total p (xs ++ ys) ≡ total p xs + total p ys
total-append p [] ys = omega arith
total-append p (x ∷ xs) ys = omega (arith, total-append p xs ys)

pub total-update :
    (p : Entry → Bool) (id : String) (e e' : Entry) (es : List Entry)
    → find id es ≡ some e
    → total p (update id (λ _. e') es) + bit (p e) ≡ total p es + bit (p e')
unfolding find update
total-update p id e e' [] h = absurd (ground arith)
total-update p id e e' (x ∷ es) h = ground (arith, total-update p id e e' es)

pub Orderly-append : (xs ys : List Entry) → Orderly xs → Orderly ys → Orderly (xs ++ ys)
Orderly-append [] ys a b = b
Orderly-append (x ∷ xs) ys a b = (a.0, Orderly-append xs ys a.1 b)

pub Orderly-update :
    (id : String) (e' : Entry) (es : List Entry)
    → (e'.exited ≡ true → e'.session.done ≡ true)
    → Orderly es
    → Orderly (update id (λ _. e') es)
unfolding update
Orderly-update id e' [] h o = tt
Orderly-update id e' (x ∷ es) h o = elim (Bool-cases (str_eq x.session.id id)) [
  | inl same ↦ rw same (h, o.1)
  | inr other ↦ rw other (o.0, Orderly-update id e' es h o.1)
]

pub Orderly-find :
    (id : String) (e : Entry) (es : List Entry)
    → find id es ≡ some e
    → Orderly es
    → e.exited ≡ true
    → e.session.done ≡ true
unfolding find
Orderly-find id e [] h o x = absurd (ground arith)
Orderly-find id e (y ∷ es) h o x = ground (arith, Orderly-find id e es)

pub running-le-active : (es : List Entry) → Orderly es → total is_running es ≤ total is_active es
running-le-active [] o = omega arith
running-le-active (e ∷ es) o = ground (arith, running-le-active es)

cancel-done : (s : ManagedSession) → (cancel_session s).done ≡ s.done
unfolding cancel_session
cancel-done s = ground arith

pub cancel_all_same :
    (es : List Entry)
    → (total is_active (cancel_all es) ≡ total is_active es)
      × (Orderly es → Orderly (cancel_all es))
cancel_all_same [] = (refl, λ o. o)
cancel_all_same (e ∷ es) = (
  omega (arith, (cancel_all_same es).0),
  λ o. ((λ x. cancel-done e.session ∙ o.0 x), (cancel_all_same es).1 o.1),
)

emit_locked-done :
    (now : ℕ → Time) (e : Event) (s : ManagedSession) {s' : ManagedSession}
    → emit_locked now e s ≡ ok s'
    → s'.done ≡ s.done
unfolding emit_locked
emit_locked-done now e s h = ground arith

subscribe-done :
    (a : ℕ) (s : ManagedSession) {r : ManagedSession × ℕ} → subscribe a s ≡ ok r → r.0.done ≡ s.done
unfolding subscribe
subscribe-done a s h = ground arith

unsubscribe-done :
    (i : ℕ) (s : ManagedSession) {s' : ManagedSession} → unsubscribe i s ≡ ok s' → s'.done ≡ s.done
unfolding unsubscribe
unsubscribe-done i s h = ground arith

pub step-done :
    (now : ℕ → Time) (s : ManagedSession) (o : Op) {s' : ManagedSession}
    → step now s o ≡ ok s'
    → s'.done ≡ s.done
unfolding step read
step-done now s (emits e) h = emit_locked-done now e s h
step-done now s cancels h = ground (arith, cancel-done s)
step-done now s (subscribes a) h =
    let (r, same, eq) = ok_of_chain (subscribe a s) (λ r. ok r.0) h in
    ground (arith, same, subscribe-done a s eq)
step-done now s (unsubscribes i) h = unsubscribe-done i s h
step-done now s (reads i) h = ground arith

hang_up-done : (s : ManagedSession) {s' : ManagedSession} → hang_up s ≡ ok s' → s'.done ≡ true
unfolding hang_up close_done
hang_up-done s h = ground arith

finish-done :
    (now : ℕ → Time) (time : Time) (report : DiagnosticReport) (p d : Bool) (s : ManagedSession)
    {s' : ManagedSession}
    → finish now time report p d s ≡ ok s'
    → s'.done ≡ true
unfolding finish
finish-done now time report p d s h =
    let settled = settle time report p d s in
    let last = emit_locked now (closing_event settled.state report) in
    let (s₁, rest, _) =
      ok_of_chain (emit_findings now report.findings settled) (λ s₁. last s₁ >>= hang_up) h in
    let (s₂, end, _) = ok_of_chain (last s₁) hang_up rest in hang_up-done s₂ end

pub conclude-done :
    (now : ℕ → Time) (times : Time × Time × Time) (r : RunOutcome) (d : Bool) (s : ManagedSession)
    {s' : ManagedSession}
    → conclude now times r d s ≡ ok s'
    → s'.done ≡ true
unfolding conclude
conclude-done now times r d s h =
    let report = limit_report d (run_safely s.target r times.0 times.1).0 in
    let p = (run_safely s.target r times.0 times.1).1 in
    let (f, same, fin) =
      ok_of_chain (finish now times.2 report p d s) (λ f. ok (record f { ctx_cancelled = true }))
        h in
    ground (arith, same, finish-done now times.2 report p d s fin)
