-- ===== src/Session/Channel.antt =====
-- Go channels as internal/session/session.go uses them for its subscribers.
use tadori.Base.{
  ◌≡◌, refl, ℕ, Bool, true, false, Option, none, some, List, [], ◌∷◌, ◌++◌, length, ltb,
  if◌then◌else◌,
}

-- What a goroutine does that never comes back: the two panics of a channel, a nil channel, and a
-- send that waits while the only receiver cannot run.
pub data Fault : Type 0 where
  send_on_closed close_of_closed nil_channel deadlock : Fault

pub data Result {ℓ} (A : Type ℓ) : Type ℓ where
  fault : Fault → Result A
  ok : A → Result A

-- What comes behind a fault is not done.
infixl 5 ◌>>=◌
abbrev pub ◌>>=◌ {κ ℓ} : {S : Type κ} {T : Type ℓ} → Result S → (S → Result T) → Result T
fault stopped >>= next = fault stopped
ok s >>= next = next s

-- A chain without a fault has a first part without one.
pub ok_of_chain {κ ℓ} :
    {S : Type κ} {T : Type ℓ} (first : Result S) (next : S → Result T) {t : T}
    → (first >>= next) ≡ ok t
    → (s : S) × (next s ≡ ok t) × (first ≡ ok s)
ok_of_chain (fault stopped) next e = cc
ok_of_chain (ok s) next e = (s, e, refl)

-- A buffered channel; `taken` is what its receiver has read, oldest first.
pub record Channel {ℓ} (A : Type ℓ) : Type ℓ where
  pub capacity : ℕ
  pub buffer : List A
  pub taken : List A
  pub closed : Bool

module _ {ℓ} {A : Type ℓ} where
  abbrev pub make : ℕ → Channel A
  make n = record { capacity = n; buffer = []; taken = []; closed = false }

  abbrev pub has_room : Channel A → Bool
  has_room c = ltb (length c.buffer) c.capacity

  abbrev pub push : Channel A → A → Channel A
  push c a = record c { buffer = c.buffer ++ a ∷ [] }

  -- `ch <- a`
  abbrev pub send : Channel A → A → Result (Channel A)
  send c a =
      if c.closed
      then fault send_on_closed
      else if has_room c
      then ok (push c a)
      else fault deadlock

  -- `select { case ch <- a: default: }`; `none` is the default branch.
  abbrev pub try_send : Channel A → A → Result (Option (Channel A))
  try_send c a =
      if c.closed
      then fault send_on_closed
      else if has_room c
      then ok (some (push c a))
      else ok none

  -- `close(ch)`
  abbrev pub close : Channel A → Result (Channel A)
  close c = if c.closed then fault close_of_closed else ok (record c { closed = true })

  -- `<-ch` by the receiver, where a value is buffered
  abbrev pub take_from : Channel A → List A → Channel A
  take_from c [] = c
  take_from c (a ∷ rest) = record c { buffer = rest; taken = c.taken ++ a ∷ [] }

  unfoldable pub receive : Channel A → Channel A
  receive c = take_from c c.buffer

  -- Everything that the channel was sent, in order.
  abbrev pub stream : Channel A → List A
  stream c = c.taken ++ c.buffer
