-- ===== src/Session/Steps.antt =====
-- internal/session/session.go: the critical sections of one session as steps, and what it means
-- that a step keeps the invariant.
pub mod Progress
pub mod Subscribing
pub mod Replay
use tadori.Base.{
  ◌||◌, ◌&&◌, not, ℕ, ◌+◌, ◌≤◌, ◌<◌, ◌≡◌, refl, sym, ◌∙◌, ap, Bool, true, false, Option, none, some,
  List, [], ◌∷◌, ◌++◌, append-nil, append_assoc, arith, length, length-append, mem, mem-remove,
  get_elem?, get_elem?_lt, get_elem?-set, set, u64_mod, Bool-cases, Option-cases, inl, inr,
  if◌then◌else◌,
}
use tadori.Model.{Time}
use tadori.Session.Channel.{Channel, Result, ok, ◌>>=◌, receive}
use tadori.Session.Defs.{
  Event, ManagedSession, at, emit_locked, cancel_session, subscribe, unsubscribe, read, stamp,
  terminal,
}
use tadori.Session.Subscribers.{Linked-set, Linked-unsubscribe, Linked-Ready}
use tadori.Session.Streams.{Follows, Follows-receive, AllFollow, AllFollow-set}
use tadori.Session.Invariant.{Tracks, Lifecycle, Emitted, emit_locked-Emitted}

pub data Op : Type 0 where
  emits : Event → Op
  cancels : Op
  subscribes unsubscribes reads : ℕ → Op

abbrev pub is_cancels : Op → Bool
is_cancels cancels = true
is_cancels _ = false

abbrev pub has_cancel : List Op → Bool
has_cancel [] = false
has_cancel (o ∷ os) = is_cancels o || has_cancel os

-- One critical section; `emits` is a callback of `Progress`.
unfoldable pub step : (ℕ → Time) → ManagedSession → Op → Result ManagedSession
step now s (emits e) = emit_locked now e s
step now s cancels = ok (cancel_session s)
step now s (subscribes after) = subscribe after s >>= λ r. ok r.0
step now s (unsubscribes i) = unsubscribe i s
step now s (reads i) = ok (read i s)

unfoldable pub run_ops : (ℕ → Time) → ManagedSession → List Op → Result ManagedSession
run_ops now s [] = ok s
run_ops now s (o ∷ os) = do s' ← step now s o; run_ops now s' os

pub record Inv (s : ManagedSession) (history : List Event) : Type 0 where
  pub tracks : Tracks s history
  pub lifecycle : Lifecycle s

-- `r` is no fault; its session keeps the invariant over a history with at most `n` events more.
-- `wants` says whether a cancellation is among what was done.
pub record Stepped (s : ManagedSession) (history : List Event) (n : ℕ) (wants : Bool)
    (r : Result ManagedSession) : Type 0 where
  pub after : ManagedSession
  pub result : r ≡ ok after
  pub more : List Event
  pub inv : Inv after (history ++ more)
  pub few : length more ≤ n
  pub same_done : after.done ≡ s.done
  pub same_target : after.target ≡ s.target
  pub cancel_is : after.cancel_requested ≡ (s.cancel_requested || (not s.done && wants))
