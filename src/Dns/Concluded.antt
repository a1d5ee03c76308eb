-- ===== src/Dns/Concluded.antt =====
-- What the evidence of a lane says of its attempts.
use tadori.Base.{
  ℕ, ◌*◌, ◌≤◌, ◌≡◌, refl, subst, String, Bool, true, false, Option, none, some, List, [], ◌∷◌, ◌++◌,
  length, ◌⊎◌, inl, inr, arith, AllOf,
}
use tadori.Dns.Parse.{Outcome, parsed, first_parsed, parsed_injective}
use tadori.Dns.Response.{Unicode}
use tadori.Dns.Connection.{IoError, Transport, transport_name}
use tadori.Dns.Attempt.{Attempt}
use tadori.Dns.Lane.{
  Text, Network, Progress, going, done, try_candidates, Evidence, new_evidence, conclude, new_tally,
  run_transport,
}
use tadori.Dns.Ranking.{Failing, IsLeading, IsBest}
use tadori.Dns.Ended.{made, IsEnded, try_candidates-IsEnded}

-- The evidence says of the exchange what the attempt says.
abbrev pub Copies : Attempt → Evidence → Type 0
Copies a e =
    (e.resolved_address ≡ a.candidate)
    × (e.endpoint ≡ a.endpoint)
    × (e.transaction_id ≡ a.transaction_id)
    × (e.response_transaction_id ≡ a.response_transaction_id)
    × (e.response_received ≡ a.response_received)
    × (e.response_bytes ≡ a.response_bytes)
    × (e.question_count ≡ a.question_count)
    × (e.answer_count ≡ a.answer_count)
    × (e.authority_count ≡ a.authority_count)
    × (e.additional_count ≡ a.additional_count)
    × (e.rcode ≡ a.rcode)
    × (e.truncated ≡ a.truncated)
    × (e.outcome ≡ a.outcome)
    × (e.error_kind ≡ a.error_kind)

-- The last attempt succeeded, and no other.
abbrev pub Succeeds : Evidence → Type 0
Succeeds e =
    (before : List Attempt) × (a : Attempt) × (e.candidate_attempts ≡ before ++ a ∷ [])
    × AllOf Failing before
    × (a.success ≡ true)
    × (e.success ≡ true)
    × Copies a e

-- No attempt succeeded; the evidence is that of the first one with the highest rank.
abbrev pub Fails : Evidence → Type 0
Fails e =
    AllOf Failing e.candidate_attempts
    × (e.success ≡ false)
    × (((e.candidate_attempts ≡ [])
          × (e.outcome ≡ Outcome.transport_failure)
          × (e.error_kind ≡ "invalid_endpoint")
          × (e.response_received ≡ false))
        ⊎ ((b : Attempt) × IsLeading b e.candidate_attempts × Copies b e))

abbrev pub Concludes : ℕ → Evidence → Type 0
Concludes most e =
    (e.attempts ≡ length e.candidate_attempts) × (e.attempts ≤ most) × (Succeeds e ⊎ Fails e)

module _ (transport requested reason : String) (port size most : ℕ) (fallback : Bool) where
  going-Concludes :
      (attempts : ℕ) (as' : List Attempt) (best : Option Attempt)
      → attempts ≡ length as'
      → AllOf Failing as'
      → IsBest best as'
      → attempts ≤ most
      → Concludes most (
          conclude
            (going (record { attempts = attempts; candidate_attempts = as'; best = best }))
            (new_evidence transport requested port size fallback reason))
  going-Concludes attempts as' none counts all h bound =
      (counts, bound, inr (all, refl, inl (h, refl, refl, refl)))
  going-Concludes attempts as' (some b) counts all h bound = (
    counts,
    bound,
    inr (
      all,
      refl,
      inr (
        b,
        h,
        (refl, refl, refl, refl, refl, refl, refl, refl, refl, refl, refl, refl, refl, refl),
      ),
    ),
  )

  conclude-Concludes :
      (p : Progress)
      → IsEnded p × (made p ≤ most)
      → Concludes most (conclude p (new_evidence transport requested port size fallback reason))
  conclude-Concludes (going t) ((counts, all, best), bound) =
      going-Concludes t.attempts t.candidate_attempts t.best counts all best bound
  conclude-Concludes (done t a) ((before, e, counts, all, wins), bound) = (
    counts,
    bound,
    inl (
      before,
      a,
      e,
      all,
      wins,
      refl,
      (refl, refl, refl, refl, refl, refl, refl, refl, refl, refl, refl, refl, refl, refl),
    ),
  )

module _ (unicode : Unicode) (text : Text) (network : Network) where
  -- With at least one attempt allowed for each candidate, the evidence of a lane that returns is
  -- that of a cancellation without an attempt if its context had ended at the start. Otherwise it
  -- counts its attempts, which are at most the candidates times those allowed, and either the last
  -- attempt succeeded, no other did and the evidence copies the last one (address, endpoint,
  -- identifiers, whether a response was received, its size, counts, code and truncation, outcome,
  -- kind of error), or no attempt succeeded and the evidence copies so the first attempt with the
  -- highest rank, or says a transport failure for an invalid endpoint, with no response, if none
  -- was made.
  pub run_transport-Concludes :
      (ended : Option IoError) (requested : String) (candidates : List String)
      (transport : Transport) (query : List ℕ) (id port max_attempts : ℕ) (fallback : Bool)
      (reason : String) (e : Evidence)
      → 1 ≤ max_attempts
      → run_transport unicode text network ended requested candidates transport query id port
          max_attempts fallback reason
        ≡ parsed e
      → ((err : IoError) × (ended ≡ some err)
          × (e.outcome ≡ Outcome.cancellation)
          × (e.success ≡ false)
          × (e.attempts ≡ 0)
          × (e.candidate_attempts ≡ []))
        ⊎ ((ended ≡ none) × Concludes (length candidates * max_attempts) e)
  unfolding run_transport
  run_transport-Concludes (some err) requested candidates transport query id port max_attempts
        fallback reason e some_attempt h =
      let same = parsed_injective h in
      inl (
        subst
          (λ e.
            (err' : IoError) × (some err ≡ some err')
            × (e.outcome ≡ Outcome.cancellation)
            × (e.success ≡ false)
            × (e.attempts ≡ 0)
            × (e.candidate_attempts ≡ []))
          same (err, refl, refl, refl, refl, refl))
  run_transport-Concludes none requested candidates transport query id port max_attempts fallback
        reason e some_attempt h =
      let (p, tried, next) =
        first_parsed
          (try_candidates unicode text network transport query id port max_attempts candidates
            new_tally)
          _ h in
      let (ended, bound) =
        try_candidates-IsEnded unicode text network transport query id port max_attempts candidates
          new_tally p some_attempt (refl, tt, refl) tried in
      inr (
        refl,
        subst (Concludes (length candidates * max_attempts)) (parsed_injective next) (
            conclude-Concludes (transport_name transport) requested reason port (length query)
              (length candidates * max_attempts) fallback p (ended, omega (arith, bound))),
      )
