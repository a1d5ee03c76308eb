-- ===== src/Session/Delivery.antt =====
-- What one event does to every subscriber's channel: `deliver` finds no closed or missing channel,
-- and changes each channel on its own.
use mathlib.Core.Option
use mathlib.Core.Bool.{false≢true}
use tadori.Base.{
  ℕ, ◌<◌, ◌≡◌, refl, Bool, true, false, ◌&&◌, ◌||◌, Option, none, some, List, [], ◌∷◌, arith,
  length, get_elem?, get_elem?_lt, get_elem?-set, length-set, set, mem, Distinct, Bool-cases, sym,
  ◌∙◌, ◌==◌, ==_iff, inl, inr, if◌then◌else◌,
}
use tadori.Session.Channel.{Channel, ok, has_room, push}
use tadori.Session.Defs.{Event, at, deliver}

-- The channel after an event: one with no room is closed.
abbrev pub offer : Event → Channel Event → Channel Event
offer event c = if has_room c then push c event else record c { closed = true }

abbrev pub accepts : List (Channel Event) → ℕ → Bool
accepts channels j = elim (get_elem? channels j) [ none ↦ false | some c ↦ has_room c ]

-- Every listed channel exists and is open.
abbrev pub Ready : List ℕ → List (Channel Event) → Type 0
Ready is channels =
    (j : ℕ)
    → mem j is ≡ true
    → (c : Channel Event) × (get_elem? channels j ≡ some c) × (c.closed ≡ false)

pub record Delivered (is : List ℕ) (event : Event) (channels : List (Channel Event)) : Type 0 where
  pub kept : List ℕ
  pub channels' : List (Channel Event)
  pub result : deliver is event channels ≡ ok (kept, channels')
  pub same_length : length channels' ≡ length channels
  pub each :
      (j : ℕ)
      → get_elem? channels' j ≡ (
          if mem j is
          then Option.map (offer event) (get_elem? channels j)
          else get_elem? channels j)
  pub keeps : (j : ℕ) → mem j kept ≡ (mem j is && accepts channels j)
  pub distinct : Distinct kept

ne_of_mem : (i j : ℕ) (is : List ℕ) → mem i is ≡ false → mem j is ≡ true → (i == j) ≡ false
ne_of_mem i j is h m = elim (Bool-cases (i == j)) [
  | inl e ↦ absurd (false≢true (sym h ∙ (rw ((==_iff i j).0 e) m)))
  | inr n ↦ n
]

Ready-set :
    (i : ℕ) (is : List ℕ) (channels : List (Channel Event)) (v : Channel Event)
    → Distinct (i ∷ is)
    → Ready (i ∷ is) channels
    → i < length channels
    → Ready is (set channels i v)
Ready-set i is channels v d r b j m =
    let (c, e, o) = r j (ground arith) in
    (c, rw (get_elem?-set channels i j v b, ne_of_mem i j is d.0 m) e, o)

-- One step: what the rest delivers on the channels with `i` changed, and how `i` was changed.
module _ (i : ℕ) (is : List ℕ) (event : Event) (channels : List (Channel Event)) (c : Channel Event)
    (v : Channel Event) (d : Distinct (i ∷ is)) (e : get_elem? channels i ≡ some c)
    (b : i < length channels) (ov : v ≡ offer event c) where
  each_step :
      (j : ℕ) (o : Option (Channel Event))
      → o ≡ (
          if mem j is
          then Option.map (offer event) (get_elem? (set channels i v) j)
          else get_elem? (set channels i v) j)
      → o ≡ (
          if mem j (i ∷ is)
          then Option.map (offer event) (get_elem? channels j)
          else get_elem? channels j)
  each_step j o h = ground (arith, get_elem?-set channels i j v b)

  keeps_step :
      (j : ℕ) → (mem j is && accepts (set channels i v) j) ≡ (mem j is && accepts channels j)
  keeps_step j = ground (arith, get_elem?-set channels i j v b)

  -- `Delivered` at the head, from that of the rest, with the list of who was kept.
  extend :
      (rest : Delivered is event (set channels i v)) (kept : List ℕ)
      → deliver (i ∷ is) event channels ≡ ok (kept, rest.channels')
      → ((j : ℕ) → mem j kept ≡ ((i == j && has_room c) || mem j rest.kept))
      → Distinct kept
      → Delivered (i ∷ is) event channels
  extend rest kept result members distinct = record {
    kept = kept;
    channels' = rest.channels';
    result = result;
    same_length = rest.same_length ∙ length-set channels i v;
    each = λ j. each_step j _ (rest.each j);
    keeps = λ j. ground (arith, members j, rest.keeps j, keeps_step j);
    distinct = distinct;
  }

module _ (i : ℕ) (is : List ℕ) (event : Event) (channels : List (Channel Event)) (c : Channel Event)
    (d : Distinct (i ∷ is)) (e : get_elem? channels i ≡ some c) (o : c.closed ≡ false) where
  room_result :
      (rest : Delivered is event (set channels i (push c event)))
      → has_room c ≡ true
      → deliver (i ∷ is) event channels ≡ ok (i ∷ rest.kept, rest.channels')
  unfolding deliver
  room_result rest room = rw (e, at) (ground (arith, rest.result))

  full_result :
      (rest : Delivered is event (set channels i (record c { closed = true })))
      → has_room c ≡ false
      → deliver (i ∷ is) event channels ≡ ok (rest.kept, rest.channels')
  unfolding deliver
  full_result rest full = rw (e, at) (ground (arith, rest.result))

  deliver_cons :
      ((v : Channel Event) → Delivered is event (set channels i v))
      → Delivered (i ∷ is) event channels
  deliver_cons rest =
      let b : i < length channels = get_elem?_lt channels i e in
      elim (Bool-cases (has_room c)) [
        | inl room ↦
            let r = rest (push c event) in
            extend i is event channels c (push c event) d e b (rw room) r (i ∷ r.kept)
              (room_result r room) (λ j. ground arith) (ground (arith, r.keeps i), r.distinct)
        | inr full ↦
            let r = rest (record c { closed = true }) in
            extend i is event channels c (record c { closed = true }) d e b (rw full) r r.kept
              (full_result r full) (λ j. ground arith) r.distinct
      ]

-- On listed channels that are distinct, present and open, the delivery of an event has no fault:
-- each listed channel with room gets the event at its end and stays listed, each one with no room
-- is closed and leaves the list, and all other channels stay as they are.
pub deliver-Delivered :
    (is : List ℕ) (event : Event) (channels : List (Channel Event))
    → Distinct is
    → Ready is channels
    → Delivered is event channels
unfolding deliver
deliver-Delivered [] event channels d r = record {
  kept = [];
  channels' = channels;
  result = refl;
  same_length = refl;
  each = λ j. refl;
  keeps = λ j. refl;
  distinct = tt;
}
deliver-Delivered (i ∷ is) event channels d r =
    let (c, e, o) = r i (ground arith) in
    deliver_cons i is event channels c d e o λ v.
      deliver-Delivered is event (set channels i v) d.1
        (Ready-set i is channels v d r (get_elem?_lt channels i e))
