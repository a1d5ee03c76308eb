-- ===== src/Session/Steps/Replay.antt =====
-- The step of `Subscribe`: it replays the retained events into a channel with room for them all.
use tadori.Base.{
  drop, ◌-◌, ℕ, ◌+◌, ◌<◌, ◌≡◌, refl, ◌∙◌, ap, true, false, List, [], ◌∷◌, ◌++◌, append-nil, arith,
  length, u64_mod, Bool-cases, inl, inr,
}
use tadori.Session.Channel.{Channel, ok, ◌>>=◌}
use tadori.Session.Log.{events_after-last_events, length-events_after}
use tadori.Session.Channel.{make}
use tadori.Session.Defs.{
  events_after, channel_size, send_all, max_event_history, Event, ManagedSession, subscribe,
  terminal,
}
use tadori.Session.Subscribers.{Linked-subscribe, Linked-append_closed}
use tadori.Session.Streams.{filled, send_all-eq-ok, Follows-filled, AllFollow-concat, Follows-close}
use tadori.Session.Steps.{Inv, Stepped}

module _ {s : ManagedSession} {history : List Event} (v : Inv s history) where
  module _ (after k : ℕ) (replay : events_after after s.events ≡ drop k history) where
    abbrev fresh : Channel Event
    fresh = filled (channel_size s.events) (drop k history)

    sent : send_all (events_after after s.events) (make (channel_size s.events)) ≡ ok fresh
    sent =
        send_all-eq-ok (events_after after s.events) (channel_size s.events) []
          (ground (arith, length-events_after after s.events))
        ∙ ap (λ es. ok (filled (channel_size s.events) es)) replay

    subscribe_live :
        terminal s.state ≡ false
        → subscribe after s
          ≡ ok (
            record s {
              channels = s.channels ++ fresh ∷ [];
              subscribers = length s.channels ∷ s.subscribers;
            },
            length s.channels,
          )
    unfolding subscribe
    subscribe_live r = rw (sent, r)

    subscribe_over :
        terminal s.state ≡ true
        → subscribe after s
          ≡ ok (
            record s { channels = s.channels ++ record fresh { closed = true } ∷ [] },
            length s.channels,
          )
    unfolding subscribe
    subscribe_over r = rw (sent, r)

    live-Stepped :
        terminal s.state ≡ false → Stepped s history 0 false (subscribe after s >>= λ r. ok r.0)
    live-Stepped r = record {
      after = record s {
        channels = s.channels ++ fresh ∷ [];
        subscribers = length s.channels ∷ s.subscribers;
      };
      result = rw (subscribe_live r);
      more = [];
      inv = rw (append-nil history) (record {
        tracks = record {
          log = v.tracks.log;
          next = v.tracks.next;
          numbered = v.tracks.numbered;
          linked = Linked-subscribe v.tracks.linked fresh refl;
          follows = AllFollow-concat s.channels fresh v.tracks.follows (Follows-filled history k _);
        };
        lifecycle = record {
          done_iff = v.lifecycle.done_iff;
          hung_up = λ d j. absurd (ground (arith, v.lifecycle.done_iff));
          completed_iff = v.lifecycle.completed_iff;
          report_iff = v.lifecycle.report_iff;
          cancel_iff = v.lifecycle.cancel_iff;
          cancel_ctx = v.lifecycle.cancel_ctx;
        };
      });
      few = omega arith;
      same_done = refl;
      same_target = refl;
      cancel_is = ground arith;
    }

    over-Stepped :
        terminal s.state ≡ true → Stepped s history 0 false (subscribe after s >>= λ r. ok r.0)
    over-Stepped r = record {
      after = record s { channels = s.channels ++ record fresh { closed = true } ∷ [] };
      result = rw (subscribe_over r);
      more = [];
      inv = rw (append-nil history) (record {
        tracks = record {
          log = v.tracks.log;
          next = v.tracks.next;
          numbered = v.tracks.numbered;
          linked = Linked-append_closed v.tracks.linked (record fresh { closed = true }) refl;
          follows =
              AllFollow-concat s.channels (record fresh { closed = true }) v.tracks.follows
                (Follows-close fresh (Follows-filled history k _));
        };
        lifecycle = record {
          done_iff = v.lifecycle.done_iff;
          hung_up = v.lifecycle.hung_up;
          completed_iff = v.lifecycle.completed_iff;
          report_iff = v.lifecycle.report_iff;
          cancel_iff = v.lifecycle.cancel_iff;
          cancel_ctx = v.lifecycle.cancel_ctx;
        };
      });
      few = omega arith;
      same_done = refl;
      same_target = refl;
      cancel_is = ground arith;
    }

  -- `Subscribe` never blocks and never panics.
  pub subscribes-Stepped :
      (after : ℕ)
      → length history < u64_mod
      → Stepped s history 0 false (subscribe after s >>= λ r. ok r.0)
  subscribes-Stepped after b =
      let k = length history - max_event_history in
      let replay : events_after after s.events ≡ drop (k + (after - k)) history =
        ap (events_after after) v.tracks.log
        ∙ events_after-last_events after history v.tracks.numbered b in
      elim (Bool-cases (terminal s.state)) [
        | inl r ↦ over-Stepped after (k + (after - k)) replay r
        | inr r ↦ live-Stepped after (k + (after - k)) replay r
      ]
