-- ===== src/Session/Invariant.antt =====
-- The invariant of a session: its log, numbers, subscribers and streams against the history of all
-- its events, and its lifecycle fields against its state.
use tadori.Base.{
  ℕ, ◌+◌, ◌≡◌, refl, ◌∙◌, ap, Bool, true, false, Option, none, some, List, [], ◌∷◌, ◌++◌, arith,
  length, length-append, mem, u64, String,
}
use tadori.Model.{Time, Target, DiagnosticReport}
use tadori.Session.Channel.{ok}
use tadori.Session.Defs.{
  State, cancelling, cancelled, Event, ManagedSession, terminal, stamp, retain, emit_locked,
  new_session,
}
use tadori.Session.Delivery.{Delivered, deliver-Delivered}
use tadori.Session.Subscribers.{Linked, Linked-Ready, Linked-nil, Delivered-Linked}
use tadori.Session.Log.{last_events, Numbered, retain-last_events, Numbered-concat}
use tadori.Session.Streams.{AllFollow, AllFollow-deliver}

pub record Tracks (s : ManagedSession) (history : List Event) : Type 0 where
  pub log : s.events ≡ last_events history
  pub next : s.next_sequence ≡ u64 (length history)
  pub numbered : Numbered history
  pub linked : Linked s.subscribers s.channels
  pub follows : AllFollow history s.channels

abbrev pub is_some {ℓ} : {A : Type ℓ} → Option A → Bool
is_some none = false
is_some (some _) = true

abbrev pub is_cancel : State → Bool
is_cancel cancelling = true
is_cancel cancelled = true
is_cancel _ = false

pub record Lifecycle (s : ManagedSession) : Type 0 where
  pub done_iff : s.done ≡ terminal s.state
  pub hung_up : s.done ≡ true → (j : ℕ) → mem j s.subscribers ≡ false
  pub completed_iff : is_some s.completed_at ≡ terminal s.state
  pub report_iff : is_some s.report ≡ terminal s.state
  pub cancel_iff : s.cancel_requested ≡ is_cancel s.state
  pub cancel_ctx : s.cancel_requested ≡ true → s.ctx_cancelled ≡ true

-- The fields that no event changes.
pub record Life : Type 0 where
  pub id : String
  pub target : Target
  pub state : State
  pub started_at : Option Time
  pub completed_at : Option Time
  pub cancel_requested : Bool
  pub report : Option DiagnosticReport
  pub ctx_cancelled : Bool
  pub done : Bool

abbrev pub life : ManagedSession → Life
life s = record {
  id = s.id;
  target = s.target;
  state = s.state;
  started_at = s.started_at;
  completed_at = s.completed_at;
  cancel_requested = s.cancel_requested;
  report = s.report;
  ctx_cancelled = s.ctx_cancelled;
  done = s.done;
}

pub new_session-Tracks :
    (id : String) (target : Target) (started : Time) → Tracks (new_session id target started) []
unfolding new_session
new_session-Tracks id target started = record {
  log = refl;
  next = refl;
  numbered = λ k e p. absurd (ground arith);
  linked = Linked-nil;
  follows = λ j c p. absurd (ground arith);
}

pub new_session-Lifecycle :
    (id : String) (target : Target) (started : Time) → Lifecycle (new_session id target started)
unfolding new_session
new_session-Lifecycle id target started = record {
  done_iff = refl;
  hung_up = λ h j. refl;
  completed_iff = refl;
  report_iff = refl;
  cancel_iff = refl;
  cancel_ctx = λ h. absurd (ground arith);
}

-- What an event does: it is recorded, and no lifecycle field changes.
pub record Emitted (now : ℕ → Time) (event : Event) (s : ManagedSession) (history : List Event)
    : Type 0 where
  pub after : ManagedSession
  pub result : emit_locked now event s ≡ ok after
  pub tracks : Tracks after (history ++ stamp now s event ∷ [])
  pub same_life : life after ≡ life s
  pub still_hung_up :
      ((j : ℕ) → mem j s.subscribers ≡ false) → (j : ℕ) → mem j after.subscribers ≡ false

stamp-sequence :
    (now : ℕ → Time) (s : ManagedSession) (e : Event)
    → (stamp now s e).sequence ≡ u64 (s.next_sequence + 1)
unfolding stamp
stamp-sequence now s e = refl

module _ (now : ℕ → Time) (event : Event) {s : ManagedSession} {history : List Event}
    (t : Tracks s history) where
  abbrev emit_after : Delivered s.subscribers (stamp now s event) s.channels → ManagedSession
  emit_after d = record s {
    next_sequence = u64 (s.next_sequence + 1);
    events = retain s.events (stamp now s event);
    subscribers = d.kept;
    channels = d.channels';
  }

  Delivered-Emitted :
      Delivered s.subscribers (stamp now s event) s.channels → Emitted now event s history
  unfolding emit_locked
  Delivered-Emitted d = record {
    after = emit_after d;
    result = rw d.result;
    tracks = record {
      log =
          ap (λ l. retain l (stamp now s event)) t.log
          ∙ retain-last_events history (stamp now s event);
      next = omega (arith, t.next, length-append history (stamp now s event ∷ []));
      numbered =
          Numbered-concat history (stamp now s event) t.numbered
            (omega (arith, t.next, stamp-sequence now s event));
      linked = Delivered-Linked t.linked d;
      follows = AllFollow-deliver t.linked t.follows d;
    };
    same_life = refl;
    still_hung_up = λ h j. ground (arith, d.keeps j, h j);
  }

  -- An event on a session in its invariant has no fault.
  pub emit_locked-Emitted : Emitted now event s history
  emit_locked-Emitted = Delivered-Emitted (
      deliver-Delivered s.subscribers (stamp now s event) s.channels t.linked.distinct
        (Linked-Ready t.linked))
