-- ===== src/Session/Tests.antt =====
-- Runs of internal/session/session.go on small inputs, and its theorems at concrete inputs.
use tadori.Base.{
  ℕ, zero, suc, ◌+◌, ◌≡◌, refl, true, false, Option, none, some, List, [], ◌∷◌, arith, length,
}
use tadori.Model.{Time, Target}
use tadori.Session.Channel.{Channel, Result, ok, fault, make, receive}
use tadori.Session.Defs.{
  Event, event_of, State, cancelled, ManagedSession, new_session, deliver, retain, stamp,
  events_after, cancel_session, emit_locked, subscribe, unsubscribe, send_all, read,
}
use tadori.Session.Execute.{
  panics, conclude, run_safely, limit_report, finish, settle, emit_findings, hang_up, close_all,
  close_done,
}
use tadori.Session.Delivery.{Ready, Delivered, deliver-Delivered}
use tadori.Session.Log.{last_events, Numbered, events_after-last_events}
use tadori.Session.Steps.{
  Op, emits, cancels, subscribes, unsubscribes, reads, run_ops, step, Stepped,
}
use tadori.Session.Run.{run_ops-Stepped}
use tadori.Session.Life.{execute, Executed, execute-Executed, report_of, new_session-Inv}

abbrev home : Target
home = record {
  original_input = "example.com";
  requested_identity = "example.com";
  service_id = "http";
  application_protocol = "http";
  transport_protocol = "tcp";
  port = 80;
}

abbrev clock : ℕ → Time
clock k = 100 + k

abbrev calls : List Op
calls = subscribes 0 ∷ emits (event_of "probe_started") ∷ reads 0 ∷ cancels ∷ unsubscribes 0 ∷ []

execute-Executed_example :
    Executed
      (cancels ∷ calls)
      (report_of home (7, 8, 9) panics false)
      true
      false
      (execute clock (7, 8, 9) (cancels ∷ []) calls panics false (new_session "s" home 5))
execute-Executed_example =
    execute-Executed clock (7, 8, 9) panics false "s" home 5 (cancels ∷ []) calls (omega arith)

run_ops-Stepped_example :
    Stepped (new_session "s" home 5) [] 5 true (run_ops clock (new_session "s" home 5) calls)
run_ops-Stepped_example =
    run_ops-Stepped clock (new_session "s" home 5) [] calls (new_session-Inv "s" home 5)
      (omega arith)

abbrev narrow : Channel Event
narrow = make 0

pair-Ready : Ready (1 ∷ 0 ∷ []) (make 3 ∷ narrow ∷ [])
pair-Ready zero m = (make 3, refl, refl)
pair-Ready (suc zero) m = (narrow, refl, refl)
pair-Ready (suc (suc j)) m = absurd (ground arith)

deliver-Delivered_example : Delivered (1 ∷ 0 ∷ []) (event_of "x") (make 3 ∷ narrow ∷ [])
deliver-Delivered_example =
    deliver-Delivered (1 ∷ 0 ∷ []) (event_of "x") (make 3 ∷ narrow ∷ []) (refl, (refl, tt))
      pair-Ready

abbrev numbered : ℕ → Event
numbered n = record (event_of "probe_started") { sequence = n }

pair_Numbered : Numbered (numbered 1 ∷ numbered 2 ∷ [])
pair_Numbered zero e p = ground arith
pair_Numbered (suc zero) e p = ground arith
pair_Numbered (suc (suc k)) e p = absurd (ground arith)

events_after-last_events_example :
    events_after 1 (last_events (numbered 1 ∷ numbered 2 ∷ [])) ≡ numbered 2 ∷ []
events_after-last_events_example =
    events_after-last_events 1 (numbered 1 ∷ numbered 2 ∷ []) pair_Numbered (omega arith)

-- A subscriber with no room is closed and dropped; one with room gets the event.
deliver-narrow :
    deliver (1 ∷ 0 ∷ []) (event_of "x") (make 3 ∷ narrow ∷ [])
    ≡ ok (
      0 ∷ [],
      record { capacity = 3; buffer = event_of "x" ∷ []; taken = []; closed = false }
          ∷ record { capacity = 0; buffer = []; taken = []; closed = true }
          ∷ [],
    )
unfolding deliver
deliver-narrow = refl

abbrev outcome_of : Result ManagedSession → Option (State × ℕ)
outcome_of (ok s) = some (s.state, length s.events)
outcome_of (fault x) = none

-- A cancelled run ends cancelled, also if its runner panics, with three events in its log.
cancelled_panic :
    outcome_of (execute clock (7, 8, 9) [] calls panics false (new_session "s" home 5))
    ≡ some (cancelled, 3)
unfolding execute run_ops step emit_locked stamp retain deliver subscribe send_all events_after read
    receive unsubscribe cancel_session conclude run_safely limit_report finish settle emit_findings
    hang_up close_all close_done new_session
cancelled_panic = refl
