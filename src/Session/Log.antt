-- ===== src/Session/Log.antt =====
-- The event log of a session against the history of all its events: the log keeps the last 4096,
-- and the k-th event bears the sequence number k + 1, as a `uint64`.
use tadori.Base.{
  ◌≤◌, ℕ, suc, ◌+◌, ◌-◌, ◌≤◌, ◌<◌, ◌≡◌, refl, sym, ◌∙◌, some, List, [], ◌∷◌, ◌++◌, arith, length,
  length-append, length-drop, drop, drop-nil, drop-drop, get_elem?-drop, get_elem?_lt, drop-append,
  tail-drop, get_elem?, get_elem?-concat, ◌==◌, u64, u64_mod, ltb, Bool-cases, inl, inr,
}
use tadori.Session.Defs.{Event, max_event_history, retain, events_after}

abbrev pub last_events : List Event → List Event
last_events history = drop (length history - max_event_history) history

-- The k-th event of a history bears the number k + 1.
abbrev pub Numbered : List Event → Type 0
Numbered history = (k : ℕ) (e : Event) → get_elem? history k ≡ some e → e.sequence ≡ u64 (k + 1)

drop_concat :
    (m n : ℕ) (history : List Event) (e : Event)
    → m ≤ length history
    → n ≡ m
    → drop m history ++ e ∷ [] ≡ drop n (history ++ e ∷ [])
drop_concat m n h e b p = rw p (sym (drop-append m h (e ∷ []) b))

-- Storing an event in the bounded log is appending it to the history.
pub retain-last_events :
    (history : List Event) (e : Event)
    → retain (last_events history) e ≡ last_events (history ++ e ∷ [])
unfolding retain
retain-last_events h e =
    let sizes = length-drop (length h - max_event_history) h in
    let sizes' = length-append h (e ∷ []) in
    elim (Bool-cases (length (last_events h) == max_event_history)) [
      | inl full ↦
          rw (full, tail-drop (length h - max_event_history) h)
            (drop_concat (suc (length h - max_event_history)) _ h e (ground arith) (ground arith))
      | inr room ↦
          rw room (drop_concat (length h - max_event_history) _ h e (omega arith) (ground arith))
    ]

pub Numbered-concat :
    (history : List Event) (e : Event)
    → Numbered history
    → e.sequence ≡ u64 (length history + 1)
    → Numbered (history ++ e ∷ [])
Numbered-concat h e n s k a p = ground (arith, get_elem?-concat h e k, n k a)

events_after-drop :
    (after k : ℕ) (xs : List Event)
    → ((i : ℕ) (e : Event) → get_elem? xs i ≡ some e → e.sequence ≡ k + i + 1)
    → events_after after xs ≡ drop (after - k) xs
unfolding events_after
events_after-drop after k [] n = sym (drop-nil (after - k))
events_after-drop after k (x ∷ xs) n =
    let here : x.sequence ≡ k + 0 + 1 = n 0 x refl in
    let rest = events_after-drop after (suc k) xs (λ i e h. omega (arith, n (suc i) e h)) in
    elim (Bool-cases (ltb after x.sequence)) [
      | inl later ↦
          let none_left : after - suc k ≡ 0 = ground arith in
          let none_before : after - k ≡ 0 = ground arith in rw (later, rest, none_left, none_before)
      | inr seen ↦
          let one_more : after - k ≡ suc (after - suc k) = ground arith in rw (seen, rest, one_more)
    ]

pub length-events_after : (after : ℕ) (xs : List Event) → length (events_after after xs) ≤ length xs
unfolding events_after
length-events_after after [] = omega arith
length-events_after after (x ∷ xs) = ground (arith, length-events_after after xs)

-- On a history of fewer than 2^64 numbered events, the retained events with a number above `after`
-- are the history without its first `after` events and without what the log has dropped, in order.
pub events_after-last_events :
    (after : ℕ) (history : List Event)
    → Numbered history
    → length history < u64_mod
    → events_after after (last_events history)
      ≡ drop
          ((length history - max_event_history) + (after - (length history - max_event_history)))
          history
events_after-last_events after h n b =
    let k = length h - max_event_history in
    events_after-drop after k (last_events h) (λ i e p.
      let q : get_elem? h (k + i) ≡ some e = sym (get_elem?-drop k h i) ∙ p in
      omega (arith, n (k + i) e q, get_elem?_lt h (k + i) q))
    ∙ drop-drop k (after - k) h
