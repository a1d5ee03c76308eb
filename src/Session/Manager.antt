-- ===== src/Session/Manager.antt =====
-- internal/session/session.go, `Manager`: the map of sessions, the capacity channel and `closed`.
-- Each function is one critical section or one channel operation, but `create`, which composes them
-- with no other goroutine between. `new_id k` is what the k-th call of `newID` gives; `default_id` is
-- `defaultID` over the parameters of `IdSource`. Where the option `NewID` is not set, `newID` is
-- `defaultID` too: then `new_id` has its first 16 results, and the source gives those behind them.
pub mod Ids
pub mod Capacity
pub mod Bounds
pub mod Safety
pub mod Calls
pub mod Closed
mod Tests
use tadori.Base.{
  ℕ, zero, suc, ◌+◌, ◌-◌, ◌%◌, u64_mod, String, Bool, true, false, not, Option, none, some, List,
  [], ◌∷◌, ◌++◌, length, ltb, ◌==◌, str_eq, if◌then◌else◌,
}
use tadori.Model.{Time, Target, DiagnosticReport}
use tadori.Session.Channel.{deadlock, Result, ok, fault, ◌>>=◌}
use tadori.Session.Defs.{State, ManagedSession, new_session, cancel_session}

pub data CreateError : Type 0 where
  busy closed : CreateError

-- A session with its goroutine: `exited` once the goroutine has given its place back.
pub record Entry : Type 0 where
  pub session : ManagedSession
  pub exited : Bool

pub record Manager : Type 0 where
  pub sessions : List Entry
  pub max_concurrent : ℕ
  pub in_use : ℕ
  pub closed : Bool

-- `NewManager`; 0 stands for every value of the option that is not positive.
unfoldable pub new_manager : ℕ → Manager
new_manager max_concurrent = record {
  sessions = [];
  max_concurrent = if max_concurrent == 0 then 2 else max_concurrent;
  in_use = 0;
  closed = false;
}

unfoldable pub find : String → List Entry → Option Entry
find id [] = none
find id (e ∷ es) = if str_eq e.session.id id then some e else find id es

unfoldable pub update : String → (Entry → Entry) → List Entry → List Entry
update id f [] = []
update id f (e ∷ es) = if str_eq e.session.id id then f e ∷ es else e ∷ update id f es

abbrev pub is_known : String → List Entry → Bool
is_known id es = elim (find id es) [ none ↦ false | some _ ↦ true ]

-- What `defaultID` uses: `hex.EncodeToString`, `fmt.Sprintf("session-%d", …)`, the n-th result of
-- `rand.Read`, and the value of `fallbackID` before the first call.
pub record IdSource : Type 0 where
  pub hex : List ℕ → String
  pub session_name : ℕ → String
  pub random : ℕ → Option (List ℕ)
  pub fallback_id : ℕ

-- `fallbackID` after n calls of `defaultID`.
unfoldable pub fallback_count : IdSource → ℕ → ℕ
fallback_count source zero = source.fallback_id
fallback_count source (suc n) =
    let count = fallback_count source n in
    elim (source.random n) [ none ↦ (count + 1) % u64_mod | some bytes ↦ count ]

-- The result of the n-th call of `defaultID`.
unfoldable pub default_id : IdSource → ℕ → String
default_id source n = elim (source.random n) [
  | none ↦ source.session_name ((fallback_count source n + 1) % u64_mod)
  | some bytes ↦ source.hex bytes
]

-- The second loop of `uniqueIDLocked`, which has no bound in the source.
unfoldable pub search_id : ℕ → (ℕ → String) → ℕ → List Entry → Option String
search_id zero source n es = none
search_id (suc fuel) source n es =
    let rest = search_id fuel source (n + 1) es in
    if is_known (source n) es then rest else some (source n)

-- The first loop, behind k calls of `newID` and n of `defaultID`: `attempts` more turns.
unfoldable pub attempt_id : ℕ → ℕ → (ℕ → String) → (ℕ → String) → ℕ → ℕ → List Entry → Option String
attempt_id zero fuel new_id source k n es = search_id fuel source n es
attempt_id (suc attempts) fuel new_id source k n es =
    let empty = str_eq (new_id k) "" in
    let id = if empty then source n else new_id k in
    let rest = attempt_id attempts fuel new_id source (k + 1) (if empty then n + 1 else n) es in
    if is_known id es then rest else some id

unfoldable pub unique_id : ℕ → (ℕ → String) → IdSource → List Entry → Option String
unique_id fuel new_id source es = attempt_id 16 fuel new_id (default_id source) 0 0 es

-- `select { case m.capacity <- struct{}{}: default: return ErrBusy }`
unfoldable pub reserve : Manager → Option Manager
reserve m =
    if ltb m.in_use m.max_concurrent then some (record m { in_use = m.in_use + 1 }) else none

-- `<-m.capacity`
unfoldable pub release : Manager → Result Manager
release m = if m.in_use == 0 then fault deadlock else ok (record m { in_use = m.in_use - 1 })

-- `m.sessions[id] = s` for a new identifier.
unfoldable pub admit : String → Target → Time → Manager → Manager
admit id target started m = record m {
  sessions = m.sessions ++ record { session = new_session id target started; exited = false } ∷ [];
}

pub data Created : Type 0 where
  created : ManagedSession → Created
  refused : CreateError → Created
  no_id : Created

-- `Create` on a target that is normalized; `no_id` only where the fuel for identifiers ran out.
unfoldable pub create :
    ℕ → (ℕ → String) → IdSource → Target → Time → Manager → Result (Manager × Created)
create fuel new_id source target started m = elim (reserve m) [
  | none ↦ ok (m, refused busy)
  | some m' ↦
      if m'.closed
      then (release m' >>= λ m''. ok (m'', refused closed))
      else elim (unique_id fuel new_id source m'.sessions) [
        | none ↦ ok (m', no_id)
        | some id ↦ ok (admit id target started m', created (new_session id target started))
      ]
]

-- `Cancel`; `none` is `ErrNotFound`.
unfoldable pub cancel : String → Manager → Manager × Option ManagedSession
cancel id m = elim (find id m.sessions) [
  | none ↦ (m, none)
  | some e ↦ (
    record m {
      sessions = update id (λ e. record e { session = cancel_session e.session }) m.sessions;
    },
    some (cancel_session e.session),
  )
]

abbrev pub cancel_all : List Entry → List Entry
cancel_all [] = []
cancel_all (e ∷ es) = record e { session = cancel_session e.session } ∷ cancel_all es

-- `Close`
unfoldable pub close_manager : Manager → Manager
close_manager m =
    if m.closed then m else record m { closed = true; sessions = cancel_all m.sessions }
