-- ===== src/Packet/Complete.antt =====
-- A TCP flow without a response: none was there to be found.
use tadori.Base.{
  ◌≡◌, ◌≢◌, refl, Bool, false, none, some, List, [], ◌∷◌, ◌⊎◌, inl, inr, arith, Bool-cases,
  Option-cases, AllOf, sym, ◌∙◌,
}
use tadori.Packet.Defs.{Kind, Observation, FlowOutcome, Emission, Flow}
use tadori.Packet.Address.{Words, TcpTuple}
use tadori.Packet.Tcp.{
  is_inbound_response, first_pair, pair_responses, tcp_pair, tcp_emissions, tcp_outcome,
  tcp_answered, tcp_emitted, correlate_tcp,
}
use tadori.Packet.Flows.{IsNew}

-- No response of the list is paired with an emission.
abbrev pub NonePaired :
    (Observation → Bool)
    → (Observation → Observation → Bool)
    → List Observation
    → List Observation
    → Type 0
NonePaired is_response test es =
    AllOf (λ o. (is_response o ≡ false) ⊎ AllOf (λ e. test e o ≡ false) es)

first_pair-none :
    (test : Observation → Bool) (es : List Observation)
    → first_pair test es ≡ none
    → AllOf (λ e. test e ≡ false) es
first_pair-none test [] h = tt
first_pair-none test (e ∷ es) h = elim (Bool-cases (test e)) [
  | inl passes ↦ absurd (let found : some e ≡ none = rw passes at h in ground (arith, found))
  | inr misses ↦ (misses, first_pair-none test es (rw misses at h))
]

pair_responses-NonePaired :
    (is_response : Observation → Bool) (test : Observation → Observation → Bool)
    (es os : List Observation)
    → pair_responses is_response test es os ≡ []
    → NonePaired is_response test es os
pair_responses-NonePaired is_response test es [] h = tt
pair_responses-NonePaired is_response test es (o ∷ os) h = elim (Bool-cases (is_response o)) [
  | inr other ↦ (inl other, pair_responses-NonePaired is_response test es os (rw other at h))
  | inl answers ↦ elim (Option-cases (first_pair (λ e. test e o) es)) [
    | inl alone ↦ (
      inr (first_pair-none (λ e. test e o) es alone),
      pair_responses-NonePaired is_response test es os (rw (answers, alone) at h),
    )
    | inr (e, found) ↦ absurd (
        let some_pair : (e, o) ∷ pair_responses is_response test es os ≡ [] =
          rw (answers, found) at h in
        ground (arith, some_pair))
  ]
]

tcp_outcome_lem : (k : Kind) → tcp_outcome k ≢ FlowOutcome.no_matching_response
tcp_outcome_lem Kind.inbound_tcp_syn_ack h = ground (arith, h)
tcp_outcome_lem Kind.tcp_handshake_confirmed h = ground (arith, h)
tcp_outcome_lem Kind.tcp_rst h = ground (arith, h)
tcp_outcome_lem Kind.outbound_tcp_syn h = ground (arith, h)
tcp_outcome_lem Kind.icmp_time_exceeded h = ground (arith, h)
tcp_outcome_lem Kind.icmp_unreachable h = ground (arith, h)
tcp_outcome_lem Kind.outbound_icmp_echo h = ground (arith, h)
tcp_outcome_lem Kind.inbound_icmp_echo h = ground (arith, h)
tcp_outcome_lem Kind.other_kind h = ground (arith, h)

module _ (words : Words) where
  tcp_answered-NoPairs :
      (flow : Flow) (emissions : List Observation) (pairs : List (Observation × Observation))
      → (tcp_answered words flow emissions pairs).outcome ≡ FlowOutcome.no_matching_response
      → pairs ≡ []
  tcp_answered-NoPairs flow emissions [] h = refl
  tcp_answered-NoPairs flow emissions ((e, o) ∷ rest) h = absurd (tcp_outcome_lem o.kind h)

  tcp_emitted-NonePaired :
      (flow : Flow) (os emissions : List Observation)
      → IsNew flow
      → (tcp_emitted words flow os emissions).outcome ≡ FlowOutcome.no_matching_response
      → NonePaired is_inbound_response (tcp_pair words) emissions os
  tcp_emitted-NonePaired flow os [] (_, unavailable, _) h =
      absurd (let no = sym unavailable ∙ h in ground (arith, no))
  tcp_emitted-NonePaired flow os (e ∷ es) new h =
      pair_responses-NonePaired is_inbound_response (tcp_pair words) (e ∷ es) os
        (tcp_answered-NoPairs (record flow { probe_emission = Emission.observed }) (e ∷ es) _ h)

  -- Where a flow that claims nothing yet ends, as that of a TCP probe, with the outcome that no
  -- matching response was observed, no observation is an inbound TCP response that passes the
  -- pairing test with an emission of the probe.
  pub correlate_tcp-NonePaired :
      (flow : Flow) (os : List Observation) (tuple : TcpTuple)
      → IsNew flow
      → (correlate_tcp words flow os tuple).outcome ≡ FlowOutcome.no_matching_response
      → NonePaired is_inbound_response (tcp_pair words) (tcp_emissions os tuple.local_port) os
  unfolding correlate_tcp
  correlate_tcp-NonePaired flow os tuple new h =
      tcp_emitted-NonePaired flow os (tcp_emissions os tuple.local_port) new h
