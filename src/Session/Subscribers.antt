-- ===== src/Session/Subscribers.antt =====
-- The subscriber map and the channels agree: a channel is open exactly while it is subscribed.
use mathlib.Core.Option
use tadori.Base.{
  ℕ, zero, suc, ◌<◌, ◌≡◌, refl, true, false, not, ◌&&◌, Option, none, some, List, [], ◌∷◌, ◌++◌,
  arith, length, length-set, get_elem?, get_elem?_lt, get_elem?-set, get_elem?-concat,
  length-append, set, mem, remove, mem-remove, Distinct, Distinct-remove, if◌then◌else◌, sym, ◌∙◌,
}
use tadori.Session.Channel.{Channel}
use tadori.Session.Defs.{Event}
use tadori.Session.Delivery.{Ready, Delivered, offer, accepts}

pub record Linked (subs : List ℕ) (channels : List (Channel Event)) : Type 0 where
  pub distinct : Distinct subs
  pub open_iff :
      (j : ℕ) (c : Channel Event) → get_elem? channels j ≡ some c → c.closed ≡ not (mem j subs)
  pub bounded : (j : ℕ) → mem j subs ≡ true → j < length channels

get_elem?-total :
    (channels : List (Channel Event)) (j : ℕ)
    → j < length channels
    → (c : Channel Event) × (get_elem? channels j ≡ some c)
get_elem?-total [] j h = absurd (omega arith)
get_elem?-total (c ∷ cs) zero h = (c, refl)
get_elem?-total (c ∷ cs) (suc j) h = get_elem?-total cs j (omega arith)

pub Linked-Ready :
    {subs : List ℕ} {channels : List (Channel Event)} → Linked subs channels → Ready subs channels
Linked-Ready {subs} {channels} l j m =
    let (c, e) = get_elem?-total channels j (l.bounded j m) in
    (c, e, ground (arith, l.open_iff j c e))

pub Linked-nil : Linked [] []
Linked-nil = record {
  distinct = tt;
  open_iff = λ j c e. ground arith;
  bounded = λ j m. ground arith;
}

module _ {subs : List ℕ} {channels : List (Channel Event)} (l : Linked subs channels) where
  offered_open_iff :
      (event : Event) (j : ℕ) (c : Channel Event) (o : Option (Channel Event))
      → get_elem? channels j ≡ o
      → (if mem j subs then Option.map (offer event) o else o) ≡ some c
      → c.closed ≡ not (mem j subs && accepts channels j)
  offered_open_iff event j c none e h = ground arith
  offered_open_iff event j c (some a) e h = ground (arith, l.open_iff j a e)

  pub Delivered-Linked :
      {event : Event} (d : Delivered subs event channels) → Linked d.kept d.channels'
  Delivered-Linked {event} d = record {
    distinct = d.distinct;
    open_iff = λ j c e.
        rw (d.keeps j)
          (offered_open_iff event j c (get_elem? channels j) refl (sym (d.each j) ∙ e));
    bounded = λ j m. omega (arith, d.same_length, l.bounded j (ground (arith, d.keeps j)));
  }

  pub Linked-subscribe :
      (c : Channel Event) → c.closed ≡ false → Linked (length channels ∷ subs) (channels ++ c ∷ [])
  Linked-subscribe c o = record {
    distinct = (fresh, l.distinct);
    open_iff = λ j a e. ground (arith, get_elem?-concat channels c j, l.open_iff j a);
    bounded = λ j m. ground (arith, l.bounded j, length-append channels (c ∷ []));
  }
    where
      fresh : mem (length channels) subs ≡ false
      fresh = ground (arith, l.bounded (length channels))

  pub Linked-append_closed :
      (c : Channel Event) → c.closed ≡ true → Linked subs (channels ++ c ∷ [])
  Linked-append_closed c o = record {
    distinct = l.distinct;
    open_iff = λ j a e.
        ground (arith, get_elem?-concat channels c j, l.open_iff j a, l.bounded (length channels));
    bounded = λ j m. ground (arith, l.bounded j, length-append channels (c ∷ []));
  }

  pub Linked-unsubscribe :
      (i : ℕ) (c : Channel Event)
      → c.closed ≡ true
      → i < length channels
      → Linked (remove i subs) (set channels i c)
  Linked-unsubscribe i c o b = record {
    distinct = Distinct-remove i subs l.distinct;
    open_iff = λ j a e.
        ground (arith, get_elem?-set channels i j c b, l.open_iff j a, mem-remove i j subs);
    bounded = λ j m. ground (arith, l.bounded j, mem-remove i j subs, length-set channels i c);
  }

  -- A change of channel `i` that leaves `closed` alone.
  pub Linked-set :
      (i : ℕ) (c c' : Channel Event)
      → get_elem? channels i ≡ some c
      → c'.closed ≡ c.closed
      → Linked subs (set channels i c')
  Linked-set i c c' e o = record {
    distinct = l.distinct;
    open_iff = λ j a h. ground (
      arith,
      get_elem?-set channels i j c' (get_elem?_lt channels i e),
      l.open_iff j a,
      l.open_iff i c e,
    );
    bounded = λ j m. omega (arith, l.bounded j m, length-set channels i c');
  }
