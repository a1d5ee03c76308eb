-- ===== src/Session/Run.antt =====
-- Any sequence of critical sections, in any order, from a session in its invariant.
use tadori.Base.{
  ℕ, ◌+◌, ◌≤◌, ◌<◌, refl, ◌∙◌, Bool, List, [], ◌∷◌, ◌++◌, append_assoc, append-nil, arith, length,
  length-append, u64_mod,
}
use tadori.Model.{Time}
use tadori.Session.Channel.{Result}
use tadori.Session.Defs.{Event, ManagedSession}
use tadori.Session.Steps.{
  Op, emits, cancels, subscribes, unsubscribes, reads, step, run_ops, is_cancels, has_cancel, Inv,
  Stepped,
}
use tadori.Session.Steps.Progress.{emits-Stepped, cancels-Stepped}
use tadori.Session.Steps.Subscribing.{reads-Stepped, unsubscribes-Stepped}
use tadori.Session.Steps.Replay.{subscribes-Stepped}

pub weaken :
    {s : ManagedSession} {history : List Event} {m : ℕ} (n : ℕ) (w : Bool)
    (r : Result ManagedSession)
    → m ≤ n
    → Stepped s history m w r
    → Stepped s history n w r
weaken n w r h t = record {
  after = t.after;
  result = t.result;
  more = t.more;
  inv = t.inv;
  few = omega (arith, t.few);
  same_done = t.same_done;
  same_target = t.same_target;
  cancel_is = t.cancel_is;
}

module _ (now : ℕ → Time) {s : ManagedSession} {history : List Event} (v : Inv s history)
    (b : length history < u64_mod) where
  -- Every step, in every state, keeps the invariant and has no fault.
  pub step-Stepped : (o : Op) → Stepped s history 1 (is_cancels o) (step now s o)
  unfolding step
  step-Stepped (emits e) = emits-Stepped now e v
  step-Stepped cancels = weaken 1 _ _ (omega arith) (cancels-Stepped v)
  step-Stepped (subscribes a) = weaken 1 _ _ (omega arith) (subscribes-Stepped v a b)
  step-Stepped (unsubscribes i) = weaken 1 _ _ (omega arith) (unsubscribes-Stepped v i)
  step-Stepped (reads i) = weaken 1 _ _ (omega arith) (reads-Stepped v i)

-- From a session in its invariant, any sequence of critical sections runs with no fault and keeps
-- the invariant, as long as fewer than 2^64 events are recorded: the log is the last 4096 events
-- of the history and the sequence number counts it, a channel is open exactly while subscribed,
-- each subscriber's stream is a stretch of the history with no gap and reaches its end while its
-- channel is open, and the lifecycle fields agree with the state. Each step records at most one
-- event, `done` and the target stay, and a cancellation is requested after the steps exactly if it
-- was before or a step asks for one before the end.
pub run_ops-Stepped :
    (now : ℕ → Time) (s : ManagedSession) (history : List Event) (os : List Op)
    → Inv s history
    → length history + length os < u64_mod
    → Stepped s history (length os) (has_cancel os) (run_ops now s os)
unfolding run_ops
run_ops-Stepped now s history [] v b = record {
  after = s;
  result = refl;
  more = [];
  inv = rw (append-nil history) v;
  few = omega arith;
  same_done = refl;
  same_target = refl;
  cancel_is = ground arith;
}
run_ops-Stepped now s history (o ∷ os) v b =
    let first = step-Stepped now v (omega arith) o in
    let rest =
      run_ops-Stepped now first.after (history ++ first.more) os first.inv
        (omega (arith, first.few, length-append history first.more)) in
    record {
      after = rest.after;
      result = rw first.result rest.result;
      more = first.more ++ rest.more;
      inv = rw (← append_assoc history first.more rest.more) rest.inv;
      few = omega (arith, first.few, rest.few, length-append first.more rest.more);
      same_done = rest.same_done ∙ first.same_done;
      same_target = rest.same_target ∙ first.same_target;
      cancel_is = ground (arith, first.cancel_is, rest.cancel_is, first.same_done);
    }
