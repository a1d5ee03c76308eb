-- ===== src/Session/Streams.antt =====
-- What a subscriber sees: a stretch of the session's history with no gap, and while its channel is
-- open, everything up to the latest event.
use mathlib.Core.Option
use tadori.Base.{
  drop, take, take-append-drop, ◌==◌, subst, get_elem?-set, get_elem?-concat, set, ◌<◌, ℕ, ◌+◌, ◌≤◌,
  ◌≡◌, refl, sym, ◌∙◌, ap, length-append, Bool, true, false, Option, none, some, List, [], ◌∷◌,
  ◌++◌, append_assoc, append-nil, arith, length, get_elem?, mem, if◌then◌else◌, Bool-cases, inl,
  inr,
}
use tadori.Session.Channel.{Channel, ok, has_room, stream, receive, take_from}
use tadori.Session.Defs.{Event, send_all}
use tadori.Session.Delivery.{Delivered, offer}
use tadori.Session.Subscribers.{Linked}

-- The stream is a stretch of the history, and its end while the channel is open.
pub record Follows (history : List Event) (c : Channel Event) : Type 0 where
  pub before : List Event
  pub behind : List Event
  pub splits : history ≡ before ++ (stream c ++ behind)
  pub current : c.closed ≡ false → behind ≡ []

pub Follows-grow :
    {history : List Event} (c : Channel Event) (e : Event)
    → Follows history c
    → c.closed ≡ true
    → Follows (history ++ e ∷ []) c
Follows-grow c e f o = record {
  before = f.before;
  behind = f.behind ++ e ∷ [];
  splits = rw f.splits (simp append_assoc);
  current = λ p. absurd (ground (arith, o, p));
}

pub Follows-offer :
    {history : List Event} (c : Channel Event) (e : Event)
    → Follows history c
    → c.closed ≡ false
    → Follows (history ++ e ∷ []) (offer e c)
Follows-offer {history} c e f o = elim (Bool-cases (has_room c)) [
  | inl room ↦ rw room (record {
    before = f.before;
    behind = [];
    splits = rw (f.splits, f.current o) (simp (append_assoc, append-nil));
    current = λ p. refl;
  })
  | inr full ↦ rw full (record {
    before = f.before;
    behind = e ∷ [];
    splits = rw (f.splits, f.current o) (simp (append_assoc, append-nil));
    current = λ p. absurd (ground (arith, p));
  })
]

-- Reading moves an event from the buffer to what was read.
pub stream-receive : (c : Channel Event) → stream (receive c) ≡ stream c
unfolding receive
stream-receive c = go c.buffer refl
  where
    go : (b : List Event) → c.buffer ≡ b → stream (take_from c b) ≡ stream c
    go [] e = refl
    go (x ∷ b) e = rw (e, append_assoc)

pub closed-receive : (c : Channel Event) → (receive c).closed ≡ c.closed
unfolding receive
closed-receive c = go c.buffer
  where
    go : (b : List Event) → (take_from c b).closed ≡ c.closed
    go [] = refl
    go (x ∷ b) = refl

pub Follows-receive :
    {history : List Event} (c : Channel Event) → Follows history c → Follows history (receive c)
Follows-receive c f = record {
  before = f.before;
  behind = f.behind;
  splits = rw (stream-receive c) f.splits;
  current = λ p. f.current (sym (closed-receive c) ∙ p);
}

pub Follows-close :
    {history : List Event} (c : Channel Event)
    → Follows history c
    → Follows history (record c { closed = true })
Follows-close c f = record {
  before = f.before;
  behind = f.behind;
  splits = f.splits;
  current = λ p. absurd (ground (arith, p));
}

abbrev pub filled : ℕ → List Event → Channel Event
filled n es = record { capacity = n; buffer = es; taken = []; closed = false }

-- A fresh channel with the end of the history in its buffer.
pub Follows-filled : (history : List Event) (k n : ℕ) → Follows history (filled n (drop k history))
Follows-filled history k n = record {
  before = take k history;
  behind = [];
  splits = rw append-nil (sym (take-append-drop k history));
  current = λ p. refl;
}

-- The replay into a fresh channel: what fits is buffered, in order.
pub send_all-eq-ok :
    (es : List Event) (n : ℕ) (b : List Event)
    → length b + length es ≤ n
    → send_all es (filled n b) ≡ ok (filled n (b ++ es))
unfolding send_all
send_all-eq-ok [] n b h = rw append-nil
send_all-eq-ok (e ∷ es) n b h =
    let room : has_room (filled n b) ≡ true = ground arith in
    rw room (
      send_all-eq-ok es n (b ++ e ∷ []) (omega (arith, length-append b (e ∷ [])))
      ∙ ap (λ l. ok (filled n l)) (append_assoc b (e ∷ []) es))

abbrev pub AllFollow : List Event → List (Channel Event) → Type 0
AllFollow history channels =
    (j : ℕ) (c : Channel Event) → get_elem? channels j ≡ some c → Follows history c

pub AllFollow-deliver :
    {subs : List ℕ} {channels : List (Channel Event)} {history : List Event} {e : Event}
    → Linked subs channels
    → AllFollow history channels
    → (d : Delivered subs e channels) → AllFollow (history ++ e ∷ []) d.channels'
AllFollow-deliver {subs} {channels} {history} {e} l f d j c p =
    go (get_elem? channels j) refl (sym (d.each j) ∙ p)
  where
    one :
        (a : Channel Event) (b : Bool)
        → mem j subs ≡ b
        → get_elem? channels j ≡ some a
        → (if b then offer e a else a) ≡ c
        → Follows (history ++ e ∷ []) c
    one a true m h q = rw (← q) (Follows-offer a e (f j a h) (ground (arith, l.open_iff j a h)))
    one a false m h q = rw (← q) (Follows-grow a e (f j a h) (ground (arith, l.open_iff j a h)))

    go :
        (o : Option (Channel Event))
        → get_elem? channels j ≡ o
        → (if mem j subs then Option.map (offer e) o else o) ≡ some c
        → Follows (history ++ e ∷ []) c
    go none h q = absurd (ground arith)
    go (some a) h q = one a (mem j subs) refl h (ground arith)

pub AllFollow-set :
    {history : List Event} (channels : List (Channel Event)) (i : ℕ) (c : Channel Event)
    → i < length channels
    → AllFollow history channels
    → Follows history c
    → AllFollow history (set channels i c)
AllFollow-set {history} channels i c b f g j a e = elim (Bool-cases (i == j)) [
  | inl same ↦ subst (Follows history) (ground (arith, get_elem?-set channels i j c b)) g
  | inr other ↦ f j a (ground (arith, get_elem?-set channels i j c b))
]

pub AllFollow-concat :
    {history : List Event} (channels : List (Channel Event)) (c : Channel Event)
    → AllFollow history channels
    → Follows history c
    → AllFollow history (channels ++ c ∷ [])
AllFollow-concat {history} channels c f g j a e = elim (Bool-cases (j == length channels)) [
  | inl last ↦ subst (Follows history) (ground (arith, get_elem?-concat channels c j)) g
  | inr other ↦ f j a (ground (arith, get_elem?-concat channels c j))
]
