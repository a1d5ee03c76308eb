-- ===== src/Dns/Run.antt =====
-- What the probe reports of its two lanes.
use tadori.Base.{
  ℕ, ◌<◌, ◌≤◌, ◌≡◌, Bool, true, false, ◌||◌, List, [], ◌∷◌, length, ◌⊎◌, arith, AllOf,
}
use tadori.Model.{ProbeStatus}
use tadori.Dns.Lane.{Evidence}
use tadori.Dns.Service.{ServiceResult, next_transaction_id}

abbrev pub any_success : List Evidence → Bool
any_success [] = false
any_success (e ∷ es) = e.success || any_success es

-- What a result promises: two lanes, at most four candidates times three attempts in each; it has
-- passed exactly if a lane has succeeded.
abbrev pub Reports : ServiceResult → Type 0
Reports r =
    (length r.evidence ≡ 2)
    × AllOf (λ e. e.attempts ≤ 12) r.evidence
    × (((r.status ≡ ProbeStatus.passed)
          × (r.failure_reason ≡ "none")
          × (any_success r.evidence ≡ true))
        ⊎ (((r.status ≡ ProbeStatus.failed) ⊎ (r.status ≡ ProbeStatus.error))
            × (any_success r.evidence ≡ false)))

-- Whatever the counter of transactions holds, also when it wraps, the next identifier is at least
-- 1 and below 65536.
pub next_transaction_id_lem :
    (counter : ℕ)
    → (1 ≤ (next_transaction_id counter).1) × ((next_transaction_id counter).1 < 65536)
unfolding next_transaction_id
next_transaction_id_lem counter = ground arith
