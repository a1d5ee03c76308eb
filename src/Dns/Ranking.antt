-- ===== src/Dns/Ranking.antt =====
-- The attempts that a lane has made, and the best of those that failed.
use tadori.Base.{
  ℕ, ◌+◌, ◌<◌, ◌≤◌, ◌≡◌, refl, ap, false, Option, none, some, List, [], ◌∷◌, ◌++◌, append_assoc,
  length, length-append, ltb, inl, inr, arith, Bool-cases, AllOf, AllOf-append, AllOf-map,
}
use tadori.Dns.Attempt.{Attempt}
use tadori.Dns.Lane.{service_attempt_rank, Tally, better, record_attempt}

abbrev pub rank : Attempt → ℕ
rank a = service_attempt_rank a.outcome

abbrev pub Failing : Attempt → Type 0
Failing a = a.success ≡ false

-- `b` is the first of the highest rank.
abbrev pub IsLeading : Attempt → List Attempt → Type 0
IsLeading b as' =
    (before : List Attempt) × (after : List Attempt) × (as' ≡ before ++ b ∷ after)
    × AllOf (λ a. rank a < rank b) before
    × AllOf (λ a. rank a ≤ rank b) after

abbrev pub IsBest : Option Attempt → List Attempt → Type 0
IsBest none as' = as' ≡ []
IsBest (some b) as' = IsLeading b as'

abbrev pub IsTallied : Tally → Type 0
IsTallied t =
    (t.attempts ≡ length t.candidate_attempts)
    × AllOf Failing t.candidate_attempts
    × IsBest t.best t.candidate_attempts

IsLeading-better :
    (best : Option Attempt) (a : Attempt) (as' : List Attempt)
    → IsBest best as'
    → IsLeading (better best a) (as' ++ a ∷ [])
IsLeading-better none a as' h = ([], [], ap (λ l. l ++ a ∷ []) h, tt, tt)
IsLeading-better (some b) a as' (before, after, e, lower, most) =
    elim (Bool-cases (ltb (rank b) (rank a))) [
      | inl beats ↦
          let below : rank b < rank a = ground (arith, beats) in
          let all : AllOf (λ c. rank c < rank a) (before ++ b ∷ after) =
            AllOf-append _ before (b ∷ after)
              (AllOf-map (λ c (l : rank c < rank b). omega (arith, l, below)) before lower)
              (below, AllOf-map (λ c (l : rank c ≤ rank b). omega (arith, l, below)) after most) in
          rw (beats, e) (before ++ b ∷ after, [], refl, all, tt)
      | inr keeps ↦
          let above : rank a ≤ rank b = ground (arith, keeps) in
          rw (keeps, e)
            (
              before,
              after ++ a ∷ [],
              append_assoc before (b ∷ after) (a ∷ []),
              lower,
              AllOf-append _ after (a ∷ []) most (above, tt),
            )
    ]

pub length-concat :
    (as' : List Attempt) (a : Attempt) (n : ℕ) → n ≡ length as' → n + 1 ≡ length (as' ++ a ∷ [])
length-concat as' a n h = let e = length-append as' (a ∷ []) in omega (arith, h, e)

pub record_attempt-IsTallied :
    (a : Attempt) (t : Tally) → Failing a → IsTallied t → IsTallied (record_attempt a t)
record_attempt-IsTallied a t fails (counts, all, best) = (
  length-concat t.candidate_attempts a t.attempts counts,
  AllOf-append _ t.candidate_attempts (a ∷ []) all (fails, tt),
  IsLeading-better t.best a t.candidate_attempts best,
)
