-- ===== src/Session/Defs.antt =====
-- internal/session/session.go, `managedSession`: one run, its event log and its subscribers. Each
-- function is one critical section of `s.mu`. `now k` is what the clock shows when the event with
-- sequence number `k` is stamped. The subscriber map holds positions in `channels`, every channel
-- that the session ever made.
use tadori.Base.{
  ℕ, ◌+◌, String, Bool, true, false, Option, none, some, List, [], ◌∷◌, ◌++◌, length, get_elem?,
  set, tail, mem, remove, ltb, ◌==◌, u64, if◌then◌else◌,
}
use tadori.Model.{Time, Target, ProbeResult, DiagnosticFinding, DiagnosticReport}
use tadori.Session.Channel.{
  nil_channel, Result, ok, fault, ◌>>=◌, Channel, make, send, try_send, close, receive,
}

pub data State : Type 0 where
  running cancelling completed cancelled failed : State

-- `EventType` is a string, which a runner may choose.
pub record Event : Type 0 where
  pub schema_version : String
  pub sequence : ℕ
  pub event_type : String
  pub session_id : String
  pub timestamp : Time
  pub target : Option Target
  pub probe_name : String
  pub result : Option ProbeResult
  pub finding : Option DiagnosticFinding
  pub report : Option DiagnosticReport
  pub payload : String

-- `Event{Type: t}`
abbrev pub event_of : String → Event
event_of t = record {
  schema_version = "";
  sequence = 0;
  event_type = t;
  session_id = "";
  timestamp = 0;
  target = none;
  probe_name = "";
  result = none;
  finding = none;
  report = none;
  payload = "";
}

abbrev pub max_event_history : ℕ
max_event_history = 4096

abbrev pub subscriber_buffer : ℕ
subscriber_buffer = 256

pub record ManagedSession : Type 0 where
  pub id : String
  pub target : Target
  pub state : State
  pub started_at : Option Time
  pub completed_at : Option Time
  pub cancel_requested : Bool
  pub report : Option DiagnosticReport
  pub ctx_cancelled : Bool
  pub done : Bool
  pub events : List Event
  pub next_sequence : ℕ
  pub channels : List (Channel Event)
  pub subscribers : List ℕ

-- The literal of `Create`.
unfoldable pub new_session : String → Target → Time → ManagedSession
new_session id target started = record {
  id = id;
  target = target;
  state = running;
  started_at = some started;
  completed_at = none;
  cancel_requested = false;
  report = none;
  ctx_cancelled = false;
  done = false;
  events = [];
  next_sequence = 0;
  channels = [];
  subscribers = [];
}

abbrev pub terminal : State → Bool
terminal completed = true
terminal cancelled = true
terminal failed = true
terminal _ = false

abbrev event_timestamp : Time → Time → Time
event_timestamp timestamp now = if timestamp == 0 then now else timestamp

-- The fields that `emitLocked` writes before it stores the event.
unfoldable pub stamp : (ℕ → Time) → ManagedSession → Event → Event
stamp now s event = record event {
  schema_version = "1";
  sequence = u64 (s.next_sequence + 1);
  session_id = s.id;
  timestamp = event_timestamp event.timestamp (now (u64 (s.next_sequence + 1)));
}

-- The event log: past its bound the oldest event goes.
unfoldable pub retain : List Event → Event → List Event
retain events event =
    if length events == max_event_history then tail events ++ event ∷ [] else events ++ event ∷ []

abbrev pub at : {A : Type 0} → List A → ℕ → Result A
at xs i = elim (get_elem? xs i) [ none ↦ fault nil_channel | some a ↦ ok a ]

-- The loop over the subscribers: who has no room is dropped and closed.
unfoldable pub deliver :
    List ℕ → Event → List (Channel Event) → Result (List ℕ × List (Channel Event))
deliver [] event channels = ok ([], channels)
deliver (i ∷ is) event channels = do
  ch ← at channels i
  sent ← try_send ch event
  elim sent [
    | some ch' ↦ do rest ← deliver is event (set channels i ch'); ok (i ∷ rest.0, rest.1)
    | none ↦ do ch' ← close ch; deliver is event (set channels i ch')
  ]

unfoldable pub emit_locked : (ℕ → Time) → Event → ManagedSession → Result ManagedSession
emit_locked now event s = do
  let event' = stamp now s event
  delivered ← deliver s.subscribers event' s.channels
  ok (record s {
    next_sequence = u64 (s.next_sequence + 1);
    events = retain s.events event';
    subscribers = delivered.0;
    channels = delivered.1;
  })

-- `Cancel` on the session that it found.
unfoldable pub cancel_session : ManagedSession → ManagedSession
cancel_session s = if terminal s.state then s else record s {
  cancel_requested = true;
  state = elim s.state [ running ↦ cancelling | other ↦ other ];
  ctx_cancelled = true;
}

-- `Events`, and the events that `Subscribe` replays.
unfoldable pub events_after : ℕ → List Event → List Event
events_after after [] = []
events_after after (e ∷ es) =
    let rest = events_after after es in if ltb after e.sequence then e ∷ rest else rest

unfoldable pub send_all : List Event → Channel Event → Result (Channel Event)
send_all [] ch = ok ch
send_all (e ∷ es) ch = do ch' ← send ch e; send_all es ch'

-- The buffer holds the whole log, and one event more.
abbrev pub channel_size : List Event → ℕ
channel_size events =
    if ltb subscriber_buffer (length events + 1) then length events + 1 else subscriber_buffer

-- `Subscribe`: the new session and the position of the channel that it returns.
unfoldable pub subscribe : ℕ → ManagedSession → Result (ManagedSession × ℕ)
subscribe after s = do
  ch ← send_all (events_after after s.events) (make (channel_size s.events))
  let position = length s.channels
  if terminal s.state
      then (close ch >>= λ ch'. ok (record s { channels = s.channels ++ ch' ∷ [] }, position))
      else ok (
        record s { channels = s.channels ++ ch ∷ []; subscribers = position ∷ s.subscribers },
        position,
      )

-- The returned `unsubscribe`; its `sync.Once` changes nothing, since the map is asked first.
unfoldable pub unsubscribe : ℕ → ManagedSession → Result ManagedSession
unsubscribe i s =
    if mem i s.subscribers
    then (at s.channels i >>= λ ch. close ch >>= λ ch'.
        ok (record s { subscribers = remove i s.subscribers; channels = set s.channels i ch' }))
    else ok s

-- The reader of channel `i` takes a buffered event.
unfoldable pub read : ℕ → ManagedSession → ManagedSession
read i s = record s {
  channels = elim (get_elem? s.channels i) [
    | none ↦ s.channels
    | some ch ↦ set s.channels i (receive ch)
  ];
}
