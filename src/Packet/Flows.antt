-- ===== src/Packet/Flows.antt =====
-- What the flow of a probe claims, and what it rests on.
use tadori.Base.{
  ◌≡◌, ◌≢◌, refl, sym, Bool, ◌&&◌, List, [], ◌∷◌, length, ◌==◌, ◌⊎◌, inl, inr, arith, Bool-cases,
  AllOf,
}
use tadori.Packet.Defs.{Kind, Observation, Emission, FlowOutcome, Flow}
use tadori.Packet.Address.{Words}
use tadori.Packet.Tcp.{
  is_inbound_response, pair_responses, tcp_pair, tcp_outcome, tcp_answered, tcp_emitted,
}
use tadori.Packet.Path.{
  is_path_response, path_pair, path_outcome, path_answered, path_emitted, has_key,
}
use tadori.Packet.Pairs.{IsOfKind, IsPaired, pair_responses-IsPaired}

-- An emission of this kind and a response among the observations, paired by the test, that give the
-- outcome.
abbrev pub Answers :
    Kind
    → (Observation → Bool)
    → (Observation → Observation → Bool)
    → (Kind → FlowOutcome)
    → List Observation
    → FlowOutcome
    → Type 0
Answers kind is_response test outcome_of os outcome =
    (pair : Observation × Observation) × IsPaired (IsOfKind kind os) is_response test os pair
    × (outcome ≡ outcome_of pair.1.kind)

-- What an answer to a claim may be: no response, or one.
abbrev pub Responds :
    Kind
    → (Observation → Bool)
    → (Observation → Observation → Bool)
    → (Kind → FlowOutcome)
    → List Observation
    → Flow
    → Type 0
Responds kind is_response test outcome_of os flow =
    ((flow.outcome ≡ FlowOutcome.no_matching_response) × (flow.matched_observation_ids ≡ []))
    ⊎ Answers kind is_response test outcome_of os flow.outcome

-- What a correlated flow claims: nothing, when no emission was seen; else no response, or one.
abbrev pub Claims :
    Kind
    → (Observation → Bool)
    → (Observation → Observation → Bool)
    → (Kind → FlowOutcome)
    → List Observation
    → List Observation
    → Flow
    → Type 0
Claims kind is_response test outcome_of emissions os flow =
    ((emissions ≡ [])
      × (flow.probe_emission ≡ Emission.unknown)
      × (flow.outcome ≡ FlowOutcome.capture_unavailable))
    ⊎ ((flow.probe_emission ≡ Emission.observed)
        × (emissions ≢ [])
        × Responds kind is_response test outcome_of os flow)

-- A flow that claims nothing yet.
abbrev pub IsNew : Flow → Type 0
IsNew flow =
    (flow.probe_emission ≡ Emission.unknown)
    × (flow.outcome ≡ FlowOutcome.capture_unavailable)
    × (flow.matched_observation_ids ≡ [])

cons-nil : (e : Observation) (es : List Observation) → e ∷ es ≢ []
cons-nil e es h = ground (arith, h)

module _ (words : Words) where
  tcp_answered-Responds :
      (flow : Flow) (emissions os : List Observation) (pairs : List (Observation × Observation))
      → flow.matched_observation_ids ≡ []
      → AllOf
          (IsPaired (IsOfKind Kind.outbound_tcp_syn os) is_inbound_response (tcp_pair words) os)
          pairs
      → (flow.probe_emission ≡ (tcp_answered words flow emissions pairs).probe_emission)
        × Responds Kind.outbound_tcp_syn is_inbound_response
            (tcp_pair words)
            tcp_outcome
            os
            (tcp_answered words flow emissions pairs)
  tcp_answered-Responds flow emissions os [] unmatched h = (refl, inl (refl, unmatched))
  tcp_answered-Responds flow emissions os ((e, o) ∷ rest) unmatched (p, _) =
      (refl, inr ((e, o), p, refl))

  pub tcp_emitted-Claims :
      (flow : Flow) (os emissions : List Observation)
      → IsNew flow
      → AllOf (IsOfKind Kind.outbound_tcp_syn os) emissions
      → Claims Kind.outbound_tcp_syn is_inbound_response
          (tcp_pair words)
          tcp_outcome
          emissions
          os
          (tcp_emitted words flow os emissions)
  tcp_emitted-Claims flow os [] (unknown, unavailable, _) all = inl (refl, unknown, unavailable)
  tcp_emitted-Claims flow os (e ∷ es) (_, _, unmatched) all =
      let (kept, responds) =
        tcp_answered-Responds (record flow { probe_emission = Emission.observed }) (e ∷ es) os
          (pair_responses is_inbound_response (tcp_pair words) (e ∷ es) os) unmatched
          (pair_responses-IsPaired (IsOfKind Kind.outbound_tcp_syn os) is_inbound_response
            (tcp_pair words) (e ∷ es) os all) in
      inr (sym kept, cons-nil e es, responds)

  -- The test of a path probe, over these observations.
  abbrev pub path_test : List Observation → List Observation → Observation → Observation → Bool
  path_test emissions os = path_pair words (length emissions) os

  path_answered-Responds :
      (flow : Flow) (test : Observation → Observation → Bool) (emissions os : List Observation)
      (pairs : List (Observation × Observation))
      → AllOf (IsPaired (IsOfKind Kind.outbound_icmp_echo os) is_path_response test os) pairs
      → (flow.probe_emission ≡ (path_answered words flow emissions pairs).probe_emission)
        × Responds Kind.outbound_icmp_echo is_path_response test path_outcome os
            (path_answered words flow emissions pairs)
  path_answered-Responds flow test emissions os [] h = (refl, inl (refl, refl))
  path_answered-Responds flow test emissions os ((e, o) ∷ rest) (p, _) =
      elim (Bool-cases (has_key o)) [
        | inl key ↦ rw key (refl, inr ((e, o), p, refl))
        | inr keyless ↦ elim (Bool-cases (length emissions == 1 && (length rest == 0))) [
          | inl only ↦ rw (keyless, only) (refl, inr ((e, o), p, refl))
          | inr several ↦ rw (keyless, several) (refl, inl (refl, refl))
        ]
      ]

  pub path_emitted-Claims :
      (flow : Flow) (os emissions : List Observation)
      → IsNew flow
      → AllOf (IsOfKind Kind.outbound_icmp_echo os) emissions
      → Claims Kind.outbound_icmp_echo is_path_response
          (path_test emissions os)
          path_outcome
          emissions
          os
          (path_emitted words flow os emissions)
  path_emitted-Claims flow os [] (unknown, unavailable, _) all = inl (refl, unknown, unavailable)
  path_emitted-Claims flow os (e ∷ es) (_, _, unmatched) all =
      let test = path_test (e ∷ es) os in
      let (kept, responds) =
        path_answered-Responds (record flow { probe_emission = Emission.observed }) test (e ∷ es) os
          (pair_responses is_path_response test (e ∷ es) os)
          (pair_responses-IsPaired (IsOfKind Kind.outbound_icmp_echo os) is_path_response test
            (e ∷ es) os all) in
      inr (sym kept, cons-nil e es, responds)
