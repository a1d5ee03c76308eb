-- ===== src/Session/Steps/Progress.antt =====
-- The steps that the runner and `Cancel` make.
use tadori.Base.{
  ℕ, ◌≡◌, refl, sym, ◌∙◌, ap, true, false, List, [], ◌∷◌, append-nil, arith, mem, Bool-cases, inl,
  inr,
}
use tadori.Model.{Time}
use tadori.Session.Channel.{ok}
use tadori.Session.Defs.{Event, ManagedSession, emit_locked, cancel_session, stamp, terminal}
use tadori.Session.Invariant.{Tracks, Lifecycle, Emitted, emit_locked-Emitted}
use tadori.Session.Steps.{Inv, Stepped}

pub Emitted-Lifecycle :
    {now : ℕ → Time} {e : Event} {s : ManagedSession} {history : List Event}
    (m : Emitted now e s history)
    → Lifecycle s
    → Lifecycle m.after
Emitted-Lifecycle {s} m l = record {
  done_iff = ground (arith, ap (λ l. l.done) m.same_life, ap (λ l. l.state) m.same_life);
  hung_up = λ d. m.still_hung_up (l.hung_up (sym (ap (λ l. l.done) m.same_life) ∙ d));
  completed_iff =
      ground (arith, ap (λ l. l.completed_at) m.same_life, ap (λ l. l.state) m.same_life);
  report_iff = ground (arith, ap (λ l. l.report) m.same_life, ap (λ l. l.state) m.same_life);
  cancel_iff =
      ground (arith, ap (λ l. l.cancel_requested) m.same_life, ap (λ l. l.state) m.same_life);
  cancel_ctx =
      ground
        (arith, ap (λ l. l.cancel_requested) m.same_life, ap (λ l. l.ctx_cancelled) m.same_life);
}

pub emits-Stepped :
    (now : ℕ → Time) (e : Event) {s : ManagedSession} {history : List Event}
    → Inv s history
    → Stepped s history 1 false (emit_locked now e s)
emits-Stepped now e {s} {history} v = record {
  after = m.after;
  result = m.result;
  more = stamp now s e ∷ [];
  inv = record { tracks = m.tracks; lifecycle = Emitted-Lifecycle m v.lifecycle };
  few = omega arith;
  same_done = ap (λ l. l.done) m.same_life;
  same_target = ap (λ l. l.target) m.same_life;
  cancel_is = ground (arith, ap (λ l. l.cancel_requested) m.same_life);
}
  where
    m : Emitted now e s history
    m = emit_locked-Emitted now e v.tracks

cancel_same :
    (s : ManagedSession)
    → ((cancel_session s).subscribers ≡ s.subscribers) × ((cancel_session s).done ≡ s.done)
unfolding cancel_session
cancel_same s = (ground arith, ground arith)

cancel_hung_up :
    (s : ManagedSession)
    → Lifecycle s
    → (cancel_session s).done ≡ true
    → (j : ℕ) → mem j (cancel_session s).subscribers ≡ false
cancel_hung_up s l d j = rw ((cancel_same s).0) (l.hung_up (sym (cancel_same s).1 ∙ d) j)

pub cancel-Lifecycle : (s : ManagedSession) → Lifecycle s → Lifecycle (cancel_session s)
unfolding cancel_session
cancel-Lifecycle s l = record {
  done_iff = ground arith;
  hung_up = cancel_hung_up s l;
  completed_iff = ground arith;
  report_iff = ground arith;
  cancel_iff = ground arith;
  cancel_ctx = ground arith;
}

pub cancel-Tracks :
    (s : ManagedSession) {history : List Event}
    → Tracks s history
    → Tracks (cancel_session s) history
unfolding cancel_session
cancel-Tracks s t = elim (Bool-cases (terminal s.state)) [
  | inl e ↦ rw e t
  | inr e ↦ rw e (record {
    log = t.log;
    next = t.next;
    numbered = t.numbered;
    linked = t.linked;
    follows = t.follows;
  })
]

pub cancels-Stepped :
    {s : ManagedSession} {history : List Event}
    → Inv s history
    → Stepped s history 0 true (ok (cancel_session s))
unfolding cancel_session
cancels-Stepped {s} {history} v = record {
  after = cancel_session s;
  result = refl;
  more = [];
  inv =
      rw (append-nil history)
        (record { tracks = cancel-Tracks s v.tracks; lifecycle = cancel-Lifecycle s v.lifecycle });
  few = omega arith;
  same_done = ground arith;
  same_target = ground arith;
  cancel_is = ground (arith, v.lifecycle);
}
