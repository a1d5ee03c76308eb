-- ===== src/Session/Finish.antt =====
-- The end of `execute`: the events of the report, the closing event, and every channel closed.
use tadori.Base.{
  ℕ, suc, ◌≡◌, refl, ◌∙◌, ap, true, some, List, [], ◌∷◌, ◌++◌, append_assoc, append-nil, arith,
  length, get_elem?, get_elem?_lt, get_elem?-set, length-set, set,
}
use tadori.Model.{Time, DiagnosticFinding}
use tadori.Session.Channel.{Channel, Result, ok}
use tadori.Session.Defs.{Event, ManagedSession, at, stamp}
use tadori.Session.Execute.{finding_event, emit_findings, close_all}
use tadori.Session.Subscribers.{Linked, Linked-Ready}
use tadori.Session.Streams.{AllFollow, AllFollow-set, Follows-close}
use tadori.Session.Invariant.{Tracks, life, emit_locked-Emitted}

-- Several events: they are recorded, and no lifecycle field changes.
pub record EmittedAll (n : ℕ) (s : ManagedSession) (history : List Event)
    (r : Result ManagedSession) : Type 0 where
  pub after : ManagedSession
  pub result : r ≡ ok after
  pub more : List Event
  pub tracks : Tracks after (history ++ more)
  pub count : length more ≡ n
  pub same_life : life after ≡ life s

pub emit_findings-EmittedAll :
    (now : ℕ → Time) (fs : List DiagnosticFinding) (s : ManagedSession) (history : List Event)
    → Tracks s history
    → EmittedAll (length fs) s history (emit_findings now fs s)
unfolding emit_findings
emit_findings-EmittedAll now [] s history t = record {
  after = s;
  result = refl;
  more = [];
  tracks = rw (append-nil history) t;
  count = refl;
  same_life = refl;
}
emit_findings-EmittedAll now (f ∷ fs) s history t =
    let e = emit_locked-Emitted now (finding_event f) t in
    let rest =
      emit_findings-EmittedAll now fs e.after (history ++ stamp now s (finding_event f) ∷ [])
        e.tracks in
    record {
      after = rest.after;
      result = rw e.result rest.result;
      more = stamp now s (finding_event f) ∷ rest.more;
      tracks =
          rw (← append_assoc history (stamp now s (finding_event f) ∷ []) rest.more) rest.tracks;
      count = ap suc rest.count;
      same_life = rest.same_life ∙ e.same_life;
    }

close_head :
    (i : ℕ) (is : List ℕ) (channels : List (Channel Event)) (c : Channel Event)
    → Linked (i ∷ is) channels
    → get_elem? channels i ≡ some c
    → Linked is (set channels i (record c { closed = true }))
close_head i is channels c l e = record {
  distinct = l.distinct.1;
  open_iff = λ j a h. ground (
    arith,
    get_elem?-set channels i j (record c { closed = true }) (get_elem?_lt channels i e),
    l.open_iff j a,
    l.distinct.0,
  );
  bounded = λ j m. ground (arith, l.bounded j, length-set channels i (record c { closed = true }));
}

pub record AllClosed (history : List Event) (r : Result (List (Channel Event))) : Type 0 where
  pub channels : List (Channel Event)
  pub result : r ≡ ok channels
  pub linked : Linked [] channels
  pub follows : AllFollow history channels

pub close_all-AllClosed :
    (is : List ℕ) (channels : List (Channel Event)) (history : List Event)
    → Linked is channels
    → AllFollow history channels
    → AllClosed history (close_all is channels)
unfolding close_all
close_all-AllClosed [] channels history l f = record {
  channels = channels;
  result = refl;
  linked = l;
  follows = f;
}
close_all-AllClosed (i ∷ is) channels history l f =
    let (c, e, o) = Linked-Ready l i (ground arith) in
    let rest =
      close_all-AllClosed is (set channels i (record c { closed = true })) history
        (close_head i is channels c l e)
        (AllFollow-set channels i (record c { closed = true }) (get_elem?_lt channels i e) f
          (Follows-close c (f i c e))) in
    record {
      channels = rest.channels;
      result = rw (e, at) (ground (arith, rest.result));
      linked = rest.linked;
      follows = rest.follows;
    }
