-- ===== src/Session/Steps/Subscribing.antt =====
-- The steps on a session's channels: `Subscribe`, `unsubscribe` and a reader's receive.
use tadori.Base.{
  remove, mem-remove, ℕ, ◌≡◌, refl, true, false, Option, none, some, List, [], append-nil, arith,
  mem, mem-remove, get_elem?, get_elem?_lt, set, Bool-cases, inl, inr,
}
use tadori.Session.Channel.{Channel, ok, receive}
use tadori.Session.Defs.{Event, ManagedSession, at, unsubscribe, read}
use tadori.Session.Subscribers.{Linked-set, Linked-unsubscribe, Linked-Ready}
use tadori.Session.Streams.{Follows-receive, AllFollow-set, closed-receive, Follows-close}
use tadori.Session.Invariant.{Tracks, Lifecycle}
use tadori.Session.Steps.{Inv, Stepped}

module _ {s : ManagedSession} {history : List Event} (v : Inv s history) where
  reads-Tracks : (i : ℕ) → Tracks (read i s) history
  unfolding read
  reads-Tracks i = go (get_elem? s.channels i) refl
    where
      go :
          (o : Option (Channel Event))
          → get_elem? s.channels i ≡ o
          → Tracks
              (record s {
                channels = elim o [ none ↦ s.channels | some ch ↦ set s.channels i (receive ch) ];
              })
              history
      go none e = record {
        log = v.tracks.log;
        next = v.tracks.next;
        numbered = v.tracks.numbered;
        linked = v.tracks.linked;
        follows = v.tracks.follows;
      }
      go (some ch) e = record {
        log = v.tracks.log;
        next = v.tracks.next;
        numbered = v.tracks.numbered;
        linked = Linked-set v.tracks.linked i ch (receive ch) e (closed-receive ch);
        follows =
            AllFollow-set s.channels i (receive ch) (get_elem?_lt s.channels i e) v.tracks.follows
              (Follows-receive ch (v.tracks.follows i ch e));
      }

  pub reads-Stepped : (i : ℕ) → Stepped s history 0 false (ok (read i s))
  unfolding read
  reads-Stepped i = record {
    after = read i s;
    result = refl;
    more = [];
    inv = rw (append-nil history) (record {
      tracks = reads-Tracks i;
      lifecycle = record {
        done_iff = v.lifecycle.done_iff;
        hung_up = v.lifecycle.hung_up;
        completed_iff = v.lifecycle.completed_iff;
        report_iff = v.lifecycle.report_iff;
        cancel_iff = v.lifecycle.cancel_iff;
        cancel_ctx = v.lifecycle.cancel_ctx;
      };
    });
    few = omega arith;
    same_done = refl;
    same_target = refl;
    cancel_is = ground arith;
  }

  module _ (i : ℕ) (c : Channel Event) (e : get_elem? s.channels i ≡ some c) (o : c.closed ≡ false)
      (m : mem i s.subscribers ≡ true) where
    abbrev unsubscribed : ManagedSession
    unsubscribed = record s {
      subscribers = remove i s.subscribers;
      channels = set s.channels i (record c { closed = true });
    }

    unsubscribed_result : unsubscribe i s ≡ ok unsubscribed
    unfolding unsubscribe
    unsubscribed_result = rw (m, e, at) (ground arith)

    unsubscribed-Tracks : Tracks unsubscribed history
    unsubscribed-Tracks = record {
      log = v.tracks.log;
      next = v.tracks.next;
      numbered = v.tracks.numbered;
      linked =
          Linked-unsubscribe v.tracks.linked i (record c { closed = true }) refl
            (get_elem?_lt s.channels i e);
      follows =
          AllFollow-set s.channels i (record c { closed = true }) (get_elem?_lt s.channels i e)
            v.tracks.follows (Follows-close c (v.tracks.follows i c e));
    }

    unsubscribed-Lifecycle : Lifecycle unsubscribed
    unsubscribed-Lifecycle = record {
      done_iff = v.lifecycle.done_iff;
      hung_up = λ d j. ground (arith, mem-remove i j s.subscribers, v.lifecycle.hung_up d j);
      completed_iff = v.lifecycle.completed_iff;
      report_iff = v.lifecycle.report_iff;
      cancel_iff = v.lifecycle.cancel_iff;
      cancel_ctx = v.lifecycle.cancel_ctx;
    }

    unsubscribed-Stepped : Stepped s history 0 false (unsubscribe i s)
    unsubscribed-Stepped = record {
      after = unsubscribed;
      result = unsubscribed_result;
      more = [];
      inv =
          rw (append-nil history)
            (record { tracks = unsubscribed-Tracks; lifecycle = unsubscribed-Lifecycle });
      few = omega arith;
      same_done = refl;
      same_target = refl;
      cancel_is = ground arith;
    }

  unsubscribe_absent : (i : ℕ) → mem i s.subscribers ≡ false → unsubscribe i s ≡ ok s
  unfolding unsubscribe
  unsubscribe_absent i m = rw m

  pub unsubscribes-Stepped : (i : ℕ) → Stepped s history 0 false (unsubscribe i s)
  unsubscribes-Stepped i = elim (Bool-cases (mem i s.subscribers)) [
    | inl m ↦ let (c, e, o) = Linked-Ready v.tracks.linked i m in unsubscribed-Stepped i c e o m
    | inr m ↦ record {
      after = s;
      result = unsubscribe_absent i m;
      more = [];
      inv = rw (append-nil history) v;
      few = omega arith;
      same_done = refl;
      same_target = refl;
      cancel_is = ground arith;
    }
  ]
