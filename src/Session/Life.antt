-- ===== src/Session/Life.antt =====
-- A whole session: `execute` between the calls of other goroutines.
use tadori.Base.{
  ℕ, ◌+◌, ◌≤◌, ◌<◌, ◌≡◌, refl, ◌∙◌, ap, Bool, true, false, some, List, [], ◌∷◌, ◌++◌, ◌||◌, arith,
  subst, append_assoc, length, length-append, get_elem?, u64_mod, String,
}
use tadori.Model.{Time, Target, DiagnosticReport}
use tadori.Session.Channel.{Channel, Result, ok, ◌>>=◌}
use tadori.Session.Defs.{Event, event_of, ManagedSession, State, new_session}
use tadori.Session.Execute.{
  RunOutcome, returns, panics, run_safely, limit_report, final_state, closing_event, conclude,
}
use tadori.Session.Invariant.{new_session-Tracks, new_session-Lifecycle}
use tadori.Session.Steps.{Op, emits, run_ops, has_cancel, is_cancels, Inv, Stepped}
use tadori.Session.Run.{run_ops-Stepped, weaken}
use tadori.Session.Ending.{Finished, finish-Finished}

-- `Event{Type: EventDiagnosisStarted, Target: targetPointer(s.target)}`
abbrev started_event : Target → Event
started_event target = record (event_of "diagnosis_started") { target = some target }

-- A session from its publication to the end of its goroutine: `before` are the critical sections
-- of other goroutines that run before the goroutine's first event, `ops` those that run between
-- that event and the runner's end.
unfoldable pub execute :
    (ℕ → Time)
    → (Time × Time × Time)
    → List Op
    → List Op
    → RunOutcome
    → Bool
    → ManagedSession
    → Result ManagedSession
execute now times before ops outcome deadline_exceeded s = do
  s₁ ← run_ops now s (before ++ emits (started_event s.target) ∷ ops)
  conclude now times outcome deadline_exceeded s₁

abbrev pub report_of : Target → (Time × Time × Time) → RunOutcome → Bool → DiagnosticReport
report_of target (t₀, t₁, _) outcome deadline_exceeded =
    limit_report deadline_exceeded (run_safely target outcome t₀ t₁).0

abbrev pub has_panicked : RunOutcome → Bool
has_panicked (returns _) = false
has_panicked panics = true

module _ (now : ℕ → Time) (times : Time × Time × Time) (outcome : RunOutcome) (d : Bool) where
  panicked_is :
      (target : Target) → (run_safely target outcome times.0 times.1).1 ≡ has_panicked outcome
  unfolding run_safely
  panicked_is target = ground arith

  conclude-Finished :
      (s : ManagedSession) (history : List Event)
      → Inv s history
      → s.done ≡ false
      → Finished s history
          (report_of s.target times outcome d)
          (final_state s.cancel_requested (has_panicked outcome) d)
          (conclude now times outcome d s)
  unfolding conclude
  conclude-Finished s history v n =
      let f =
        finish-Finished now times.2 (report_of s.target times outcome d)
          (run_safely s.target outcome times.0 times.1).1 d s history v n in
      let flag = ap (λ b. final_state s.cancel_requested b d) (panicked_is s.target) in
      record {
        after = record f.after { ctx_cancelled = true };
        result = rw f.result;
        findings = f.findings;
        closing = f.closing;
        inv = record {
          tracks = record {
            log = f.inv.tracks.log;
            next = f.inv.tracks.next;
            numbered = f.inv.tracks.numbered;
            linked = f.inv.tracks.linked;
            follows = f.inv.tracks.follows;
          };
          lifecycle = record {
            done_iff = f.inv.lifecycle.done_iff;
            hung_up = f.inv.lifecycle.hung_up;
            completed_iff = f.inv.lifecycle.completed_iff;
            report_iff = f.inv.lifecycle.report_iff;
            cancel_iff = f.inv.lifecycle.cancel_iff;
            cancel_ctx = λ h. refl;
          };
        };
        over = f.over;
        state_is = f.state_is ∙ flag;
        report_is = f.report_is;
        all_closed = f.all_closed;
        count = f.count;
        closing_type =
            f.closing_type
            ∙ ap
                (λ (st : State). (closing_event st (report_of s.target times outcome d)).event_type)
                flag;
      }

pub new_session-Inv :
    (id : String) (target : Target) (started : Time) → Inv (new_session id target started) []
new_session-Inv id target started = record {
  tracks = new_session-Tracks id target started;
  lifecycle = new_session-Lifecycle id target started;
}

-- A session from its creation to the end of its goroutine.
pub record Executed (ops : List Op) (report : DiagnosticReport) (panicked deadline : Bool)
    (r : Result ManagedSession) : Type 0 where
  pub after : ManagedSession
  pub result : r ≡ ok after
  pub earlier : List Event
  pub closing : Event
  pub inv : Inv after (earlier ++ closing ∷ [])
  pub state_is : after.state ≡ final_state (has_cancel ops) panicked deadline
  pub report_is : after.report ≡ some report
  pub all_closed :
      (j : ℕ) (c : Channel Event) → get_elem? after.channels j ≡ some c → c.closed ≡ true
  pub closing_type :
      closing.event_type
      ≡ (closing_event (final_state (has_cancel ops) panicked deadline) report).event_type
  pub few : length earlier ≤ length ops + 1 + length report.findings

has_cancel-emits :
    (before : List Op) (e : Event) (ops : List Op)
    → has_cancel (before ++ emits e ∷ ops) ≡ has_cancel (before ++ ops)
has_cancel-emits [] e ops = refl
has_cancel-emits (o ∷ before) e ops = ap (λ b. is_cancels o || b) (has_cancel-emits before e ops)

new_session_fields :
    (id : String) (target : Target) (started : Time)
    → ((new_session id target started).target ≡ target)
      × ((new_session id target started).done ≡ false)
      × ((new_session id target started).cancel_requested ≡ false)
unfolding new_session
new_session_fields id target started = (refl, refl, refl)

module _ (now : ℕ → Time) (times : Time × Time × Time) (outcome : RunOutcome) (d : Bool) where
  -- A published session on which fewer than 2^64 - 1 critical sections run (events, cancellations,
  -- subscriptions, unsubscriptions, reads, in any order, before the first event of its goroutine
  -- as well as between that event and the end of its runner, which returns or panics) ends with no
  -- fault: no send on a closed channel, no second close, no send that waits for ever. It is then
  -- cancelled if a cancellation was asked, else failed if the runner panicked or the deadline
  -- passed, else completed; it has the report; its last event is the closing event of that state;
  -- every subscriber channel is closed; and the invariant holds.
  pub execute-Executed :
      (id : String) (target : Target) (started : Time) (before ops : List Op)
      → length before + length ops + 1 < u64_mod
      → Executed
          (before ++ ops)
          (report_of target times outcome d)
          (has_panicked outcome)
          d
          (execute now times before ops outcome d (new_session id target started))
  unfolding execute
  execute-Executed id target started before ops b = record {
    after = f.after;
    result = ap (λ r. r >>= λ s₁. conclude now times outcome d s₁) ran.result ∙ f.result;
    earlier = ran.more ++ f.findings;
    closing = f.closing;
    inv = rw (append_assoc ran.more f.findings (f.closing ∷ [])) f.inv;
    state_is = f.state_is;
    report_is = f.report_is;
    all_closed = f.all_closed;
    closing_type = f.closing_type;
    few = omega (
      arith,
      ran.few,
      f.count,
      length-append ran.more f.findings,
      length-append before ops,
      size,
    );
  }
    where
      s : ManagedSession
      s = new_session id target started

      fields : (s.target ≡ target) × (s.done ≡ false) × (s.cancel_requested ≡ false)
      fields = new_session_fields id target started

      all : List Op
      all = before ++ emits (started_event s.target) ∷ ops

      size : length all ≡ length before + length ops + 1
      size = omega (arith, length-append before (emits (started_event s.target) ∷ ops))

      ran : Stepped s [] (length all) (has_cancel all) (run_ops now s all)
      ran =
          weaken (length all) _ _ (omega arith)
            (run_ops-Stepped now s [] all (new_session-Inv id target started) (omega (arith, size)))

      asked : ran.after.cancel_requested ≡ has_cancel (before ++ ops)
      asked =
          ground (arith, ran.cancel_is, fields.1, fields.2)
          ∙ has_cancel-emits before (started_event s.target) ops

      f :
          Finished ran.after ran.more
            (report_of target times outcome d)
            (final_state (has_cancel (before ++ ops)) (has_panicked outcome) d)
            (conclude now times outcome d ran.after)
      f =
          subst
            (λ c.
              Finished ran.after ran.more (report_of target times outcome d)
                (final_state c (has_panicked outcome) d) (conclude now times outcome d ran.after))
            asked
            (subst
              (λ t.
                Finished ran.after ran.more (report_of t times outcome d)
                  (final_state ran.after.cancel_requested (has_panicked outcome) d)
                  (conclude now times outcome d ran.after))
              (ran.same_target ∙ fields.0)
              (conclude-Finished now times outcome d ran.after ran.more ran.inv
                (ran.same_done ∙ fields.1)))
