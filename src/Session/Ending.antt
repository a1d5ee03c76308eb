-- ===== src/Session/Ending.antt =====
-- The last critical section of `execute`, and what a session is like behind it.
use tadori.Base.{
  ℕ, ◌≡◌, refl, sym, ◌∙◌, ap, subst, Bool, true, false, some, List, [], ◌∷◌, ◌++◌, append_assoc,
  arith, length, get_elem?,
}
use tadori.Model.{Time, DiagnosticReport}
use tadori.Session.Channel.{Channel, Result, ok}
use tadori.Session.Defs.{Event, ManagedSession, State, stamp, terminal}
use tadori.Session.Execute.{
  final_state, closing_event, emit_findings, close_done, settle, hang_up, finish,
}
use tadori.Session.Invariant.{
  Tracks, Lifecycle, Life, life, Emitted, emit_locked-Emitted, is_some, is_cancel,
}
use tadori.Session.Finish.{EmittedAll, emit_findings-EmittedAll, close_all-AllClosed}
use tadori.Session.Steps.{Inv}

-- `r` is no fault. Its session is over: it keeps the invariant, every channel is closed, and the
-- events of the section are one for each finding and the closing event.
pub record Finished (s : ManagedSession) (history : List Event) (report : DiagnosticReport)
    (state : State) (r : Result ManagedSession) : Type 0 where
  pub after : ManagedSession
  pub result : r ≡ ok after
  pub findings : List Event
  pub closing : Event
  pub inv : Inv after (history ++ (findings ++ closing ∷ []))
  pub over : after.done ≡ true
  pub state_is : after.state ≡ state
  pub report_is : after.report ≡ some report
  pub all_closed :
      (j : ℕ) (c : Channel Event) → get_elem? after.channels j ≡ some c → c.closed ≡ true
  pub count : length findings ≡ length report.findings
  pub closing_type : closing.event_type ≡ (closing_event state report).event_type

settle-Tracks :
    (time : Time) (report : DiagnosticReport) (p d : Bool) {s : ManagedSession}
    {history : List Event}
    → Tracks s history
    → Tracks (settle time report p d s) history
unfolding settle
settle-Tracks time report p d t = record {
  log = t.log;
  next = t.next;
  numbered = t.numbered;
  linked = t.linked;
  follows = t.follows;
}

stamp-event_type :
    (now : ℕ → Time) (s : ManagedSession) (e : Event) → (stamp now s e).event_type ≡ e.event_type
unfolding stamp
stamp-event_type now s e = refl

-- `hang_up` behind the events, on a session that is settled and not done.
record HungUp (s : ManagedSession) (history : List Event) : Type 0 where
  after : ManagedSession
  result : hang_up s ≡ ok after
  inv : Inv after history
  over : after.done ≡ true
  state_is : after.state ≡ s.state
  report_is : after.report ≡ s.report
  all_closed : (j : ℕ) (c : Channel Event) → get_elem? after.channels j ≡ some c → c.closed ≡ true

-- What the lifecycle fields satisfy between `settle` and `close(s.done)`.
abbrev IsSettled : Life → Type 0
IsSettled l =
    (l.done ≡ false)
    × (terminal l.state ≡ true)
    × (is_some l.completed_at ≡ true)
    × (is_some l.report ≡ true)
    × (l.cancel_requested ≡ is_cancel l.state)
    × (l.cancel_requested ≡ true → l.ctx_cancelled ≡ true)

settle-IsSettled :
    (time : Time) (report : DiagnosticReport) (p d : Bool) (s : ManagedSession)
    → Lifecycle s
    → s.done ≡ false
    → IsSettled (life (settle time report p d s))
unfolding settle
settle-IsSettled time report p d s l n = (n, ground arith, refl, refl, ground arith, l.cancel_ctx)

hang_up-HungUp :
    (s : ManagedSession) (history : List Event)
    → Tracks s history
    → IsSettled (life s)
    → HungUp s history
unfolding hang_up close_done
hang_up-HungUp s history t h =
    let c = close_all-AllClosed s.subscribers s.channels history t.linked t.follows in
    record {
      after = record s { subscribers = []; channels = c.channels; done = true };
      result = rw c.result (ground arith);
      inv = record {
        tracks = record {
          log = t.log;
          next = t.next;
          numbered = t.numbered;
          linked = c.linked;
          follows = c.follows;
        };
        lifecycle = record {
          done_iff = sym h.1;
          hung_up = λ d j. refl;
          completed_iff = h.2 ∙ sym h.1;
          report_iff = h.3 ∙ sym h.1;
          cancel_iff = h.4;
          cancel_ctx = h.5;
        };
      };
      over = refl;
      state_is = refl;
      report_is = refl;
      all_closed = λ j a e. c.linked.open_iff j a e;
    }

settle_fields :
    (time : Time) (report : DiagnosticReport) (p d : Bool) (s : ManagedSession)
    → ((settle time report p d s).state ≡ final_state s.cancel_requested p d)
      × ((settle time report p d s).report ≡ some report)
unfolding settle
settle_fields time report p d s = (refl, refl)

-- `finish` on a running session has no fault.
pub finish-Finished :
    (now : ℕ → Time) (time : Time) (report : DiagnosticReport) (p d : Bool) (s : ManagedSession)
    (history : List Event)
    → Inv s history
    → s.done ≡ false
    → Finished s history report (final_state s.cancel_requested p d) (finish now time report p d s)
unfolding finish
finish-Finished now time report p d s history v n = record {
  after = hung.after;
  result = rw (found.result, closed.result) hung.result;
  findings = found.more;
  closing = last;
  inv = rw (← append_assoc history found.more (last ∷ [])) hung.inv;
  over = hung.over;
  state_is = hung.state_is ∙ ap (λ l. l.state) kept ∙ fields.0;
  report_is = hung.report_is ∙ ap (λ l. l.report) kept ∙ fields.1;
  all_closed = hung.all_closed;
  count = found.count;
  closing_type =
      stamp-event_type now found.after (closing_event settled.state report)
      ∙ ap (λ (st : State). (closing_event st report).event_type) fields.0;
}
  where
    settled : ManagedSession
    settled = settle time report p d s

    fields : (settled.state ≡ final_state s.cancel_requested p d) × (settled.report ≡ some report)
    fields = settle_fields time report p d s

    found :
        EmittedAll
          (length report.findings)
          settled
          history
          (emit_findings now report.findings settled)
    found =
        emit_findings-EmittedAll now report.findings settled history
          (settle-Tracks time report p d v.tracks)

    last : Event
    last = stamp now found.after (closing_event settled.state report)

    closed : Emitted now (closing_event settled.state report) found.after (history ++ found.more)
    closed = emit_locked-Emitted now (closing_event settled.state report) found.tracks

    kept : life closed.after ≡ life settled
    kept = closed.same_life ∙ found.same_life

    hung : HungUp closed.after ((history ++ found.more) ++ last ∷ [])
    hung =
        hang_up-HungUp closed.after _ closed.tracks
          (subst IsSettled (sym kept) (settle-IsSettled time report p d s v.lifecycle n))
