-- ===== src/Dns/Ended.antt =====
-- How the attempts of a lane end.
use tadori.Base.{
  ℕ, zero, suc, ◌+◌, ◌*◌, ◌≤◌, ◌≡◌, refl, subst, String, true, List, [], ◌∷◌, ◌++◌, length, inl,
  inr, arith, Bool-cases, Option-cases, AllOf, if◌then◌else◌, str_eq,
}
use tadori.Route.Netip.{normalize_addr}
use tadori.Dns.Parse.{Outcome, parsed, first_parsed, parsed_injective}
use tadori.Dns.Response.{Unicode}
use tadori.Dns.Connection.{service_error_kind, service_outcome_for_error, Transport}
use tadori.Dns.Attempt.{Attempt, failed_service_attempt, query_transport}
use tadori.Dns.Lane.{
  Text, Network, normalize_service_candidate, Tally, record_attempt, count_attempt, Progress, going,
  done, try_retries, try_candidates,
}
use tadori.Dns.Ranking.{Failing, IsTallied, record_attempt-IsTallied, length-concat}

abbrev pub made : Progress → ℕ
made (going t) = t.attempts
made (done t a) = t.attempts

abbrev pub IsEnded : Progress → Type 0
IsEnded (going t) = IsTallied t
IsEnded (done t a) =
    (before : List Attempt) × (t.candidate_attempts ≡ before ++ a ∷ [])
    × (t.attempts ≡ length t.candidate_attempts)
    × AllOf Failing before
    × (a.success ≡ true)

module _ (unicode : Unicode) (text : Text) (network : Network) (transport : Transport)
    (query : List ℕ) (id port max_attempts : ℕ) where
  -- The claim on where the attempts end, from a tally on.
  abbrev pub Goes : Tally → ℕ → Progress → Type 0
  Goes t most p = IsEnded p × (made p ≤ t.attempts + most)

  Goes-equal :
      (t : Tally) (most : ℕ) (p q : Progress) → parsed q ≡ parsed p → Goes t most q → Goes t most p
  Goes-equal t most p q e h = subst (Goes t most) (parsed_injective e) h

  try_retries-IsEnded :
      (left number : ℕ) (address : String) (t : Tally) (p : Progress)
      → IsTallied t
      → try_retries unicode text network transport query id port max_attempts left number address t
        ≡ parsed p
      → Goes t left p
  unfolding try_retries
  try_retries-IsEnded zero number address t p tallied h =
      Goes-equal t 0 p (going t) h (tallied, omega arith)
  try_retries-IsEnded (suc left) number address t p tallied h =
      let requested = text.join_host_port address port in
      elim (Option-cases (network.context_error t.attempts)) [
        | inr (e, stopped) ↦
            let a =
              failed_service_attempt address requested number (service_error_kind e)
                (service_outcome_for_error e) in
            Goes-equal t (suc left) p (going (record_attempt a t)) (rw (try_retries, stopped) at h)
              (record_attempt-IsTallied a t refl tallied, omega arith)
        | inl alive ↦
            let (a, _, next) =
              first_parsed
                (query_transport unicode (network.dial t.attempts) transport requested address query
                  id number)
                (λ b.
                  if b.success
                  then parsed (done (count_attempt b t) b)
                  else try_retries unicode text network transport query id port max_attempts left
                      (number + 1) address (record_attempt b t))
                (rw (try_retries, alive) at h) in
            elim (Bool-cases a.success) [
              | inl wins ↦
                  let (counts, all, _) = tallied in
                  Goes-equal t (suc left) p (done (count_attempt a t) a) (rw wins at next) (
                    (
                      t.candidate_attempts,
                      refl,
                      length-concat t.candidate_attempts a t.attempts counts,
                      all,
                      wins,
                    ),
                    omega arith,
                  )
              | inr fails ↦
                  let (ended, most) =
                    try_retries-IsEnded left (number + 1) address (record_attempt a t) p
                      (record_attempt-IsTallied a t fails tallied) (rw fails at next) in
                  (ended, omega (arith, most))
            ]
      ]

  -- The rest of the candidates, after the retries of one.
  after_retries :
      (cs : List String) (t : Tally) (p q : Progress) (rest : ℕ)
      → Goes t max_attempts q
      → (elim q [
        | done after success ↦ parsed (done after success)
        | going after ↦
            try_candidates unicode text network transport query id port max_attempts cs after
      ])
        ≡ parsed p
      → ((r : Tally)
          → IsTallied r
          → try_candidates unicode text network transport query id port max_attempts cs r ≡ parsed p
          → Goes r rest p)
      → Goes t (max_attempts + rest) p
  after_retries cs t p (done after a) rest (ended, most) h k =
      Goes-equal t (max_attempts + rest) p (done after a) h (ended, omega (arith, most))
  after_retries cs t p (going after) rest (ended, most) h k =
      let (end, bound) = k after ended h in (end, omega (arith, most, bound))

  pub try_candidates-IsEnded :
      (cs : List String) (t : Tally) (p : Progress)
      → 1 ≤ max_attempts
      → IsTallied t
      → try_candidates unicode text network transport query id port max_attempts cs t ≡ parsed p
      → Goes t (length cs * max_attempts) p
  unfolding try_candidates
  try_candidates-IsEnded [] t p some_attempt tallied h =
      Goes-equal t (0 * max_attempts) p (going t) h (tallied, omega arith)
  try_candidates-IsEnded (c ∷ cs) t p some_attempt tallied h =
      let address = normalize_service_candidate text c in
      elim (Bool-cases (str_eq address "")) [
        | inl empty ↦
            let (ended, most) =
              try_candidates-IsEnded cs t p some_attempt tallied
                (rw (try_candidates, empty) at h) in
            (ended, omega (arith, most))
        | inr named ↦ elim (Option-cases (text.parse_addr address)) [
          | inl unresolved ↦
              let a =
                failed_service_attempt address (text.join_host_port address port) 1
                  "unresolved_endpoint" Outcome.transport_failure in
              let (ended, most) =
                try_candidates-IsEnded cs (record_attempt a t) p some_attempt
                  (record_attempt-IsTallied a t refl tallied)
                  (rw (try_candidates, named, unresolved) at h) in
              (ended, omega (arith, most, some_attempt))
          | inr (a, resolved) ↦
              let (q, retried, next) =
                first_parsed
                  (try_retries unicode text network transport query id port max_attempts
                    max_attempts 1 (text.addr_text (normalize_addr a)) t)
                  _ (rw (try_candidates, named, resolved) at h) in
              let tried =
                try_retries-IsEnded max_attempts 1 (text.addr_text (normalize_addr a)) t q tallied
                  retried in
              let (ended, most) =
                after_retries cs t p q (length cs * max_attempts) tried next
                  (λ r. try_candidates-IsEnded cs r p some_attempt) in
              (ended, omega (arith, most))
        ]
      ]
