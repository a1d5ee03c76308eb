-- ===== src/Packet/Honest.antt =====
-- What `Correlate` reports, and on what evidence.
use tadori.Base.{
  ℕ, ◌≡◌, ◌≢◌, refl, sym, subst, String, Bool, true, false, ◌&&◌, none, List, [], ◌⊎◌, inl, inr,
  arith, Bool-cases, str_eq, eq_iff,
}
use tadori.Packet.Defs.{
  Kind, Observation, CaptureStatus, Emission, FlowOutcome, CorrelationInput, Flow, ProbeType,
  tcp_probe, path_probe, other_probe,
}
use tadori.Packet.Address.{Words, TcpTuple, tcp_tuple}
use tadori.Packet.Tcp.{
  is_inbound_response, tcp_pair, tcp_emissions, tcp_outcome, correlate_tcp, filter_kind,
}
use tadori.Packet.Path.{is_path_response, path_outcome, correlate_path}
use tadori.Packet.Pairs.{filter_kind-IsOfKind, tcp_emissions-IsOfKind}
use tadori.Packet.Flows.{Claims, IsNew, path_test, tcp_emitted-Claims, path_emitted-Claims}
use tadori.Packet.Correlate.{
  capture_status, new_flow, admitted, with_tuple, correlated, can_classify_probe_not_emitted,
  scope_of, classify_absence, correlate,
}

-- No packet of the probe was seen, although the capture of a probe that had started is complete.
abbrev pub IsAbsent : CorrelationInput → List Observation → Flow → Type 0
IsAbsent input emissions flow =
    (emissions ≡ [])
    × (flow.probe_emission ≡ Emission.not_observed)
    × (flow.outcome ≡ FlowOutcome.probe_not_observed)
    × (input.probe_started ≡ true)
    × (input.capture.complete ≡ true)

module _ (words : Words) (name : String → ℕ → String) where
  classify_absence-Claims :
      (input : CorrelationInput) (kind : Kind) (is_response : Observation → Bool)
      (test : Observation → Observation → Bool) (outcome_of : Kind → FlowOutcome)
      (emissions os : List Observation) (flow : Flow)
      → Claims kind is_response test outcome_of emissions os flow
      → Claims kind is_response test outcome_of emissions os
          (classify_absence words name input flow)
        ⊎ IsAbsent input emissions (classify_absence words name input flow)
  classify_absence-Claims input kind is_response test outcome_of emissions os flow
        (inr (seen, emitted, responds)) =
      rw seen (inl (inr (refl, emitted, responds)))
  classify_absence-Claims input kind is_response test outcome_of emissions os flow
        (inl (empty, unknown, unavailable)) =
      let classifies =
        can_classify_probe_not_emitted words name (scope_of words name input)
          (tcp_tuple words input.result.evidence) input.result.status in
      elim (Bool-cases (input.probe_started && input.capture.complete && classifies)) [
        | inl absent ↦
            let (started, complete) : (input.probe_started ≡ true)
                × (input.capture.complete ≡ true) =
              ground (arith, absent) in
            rw (unknown, absent) (inr (empty, refl, refl, started, complete))
        | inr present ↦ rw (unknown, present) (inl (inl (empty, refl, unavailable)))
      ]

-- The emissions of the probe among the observations.
abbrev pub emissions_of : ProbeType → TcpTuple → List Observation → List Observation
emissions_of path_probe tuple os = filter_kind Kind.outbound_icmp_echo os
emissions_of tcp_probe tuple os = tcp_emissions os tuple.local_port
emissions_of other_probe tuple os = tcp_emissions os tuple.local_port

module _ (words : Words) where
  abbrev pub FlowClaims : ProbeType → TcpTuple → List Observation → Flow → Type 0
  FlowClaims path_probe tuple os flow =
      let emissions = filter_kind Kind.outbound_icmp_echo os in
      Claims Kind.outbound_icmp_echo is_path_response (path_test words emissions os) path_outcome
        emissions os flow
  FlowClaims tcp_probe tuple os flow =
      Claims Kind.outbound_tcp_syn is_inbound_response (tcp_pair words) tcp_outcome
        (tcp_emissions os tuple.local_port) os flow
  FlowClaims other_probe tuple os flow =
      Claims Kind.outbound_tcp_syn is_inbound_response (tcp_pair words) tcp_outcome
        (tcp_emissions os tuple.local_port) os flow

  abbrev correlated_flow : ProbeType → Flow → List Observation → TcpTuple → Flow
  correlated_flow probe_type flow os tuple = elim probe_type [
    | path_probe ↦ correlate_path words flow os
    | _ ↦ correlate_tcp words flow os tuple
  ]

  correlated_flow-FlowClaims :
      (probe_type : ProbeType) (flow : Flow) (os : List Observation) (tuple : TcpTuple)
      → IsNew flow
      → FlowClaims probe_type tuple os (correlated_flow probe_type flow os tuple)
  unfolding correlate_tcp correlate_path
  correlated_flow-FlowClaims path_probe flow os tuple new =
      path_emitted-Claims words flow os (filter_kind Kind.outbound_icmp_echo os) new
        (filter_kind-IsOfKind Kind.outbound_icmp_echo os)
  correlated_flow-FlowClaims tcp_probe flow os tuple new =
      tcp_emitted-Claims words flow os (tcp_emissions os tuple.local_port) new
        (tcp_emissions-IsOfKind os tuple.local_port)
  correlated_flow-FlowClaims other_probe flow os tuple new =
      tcp_emitted-Claims words flow os (tcp_emissions os tuple.local_port) new
        (tcp_emissions-IsOfKind os tuple.local_port)

with_tuple-IsNew : (tuple : TcpTuple) (flow : Flow) → IsNew flow → IsNew (with_tuple tuple flow)
with_tuple-IsNew tuple flow new = elim (Bool-cases (str_eq tuple.local_address "")) [
  | inl unset ↦ rw unset new
  | inr known ↦ rw known new
]

-- A capture that is available ran to its end without an error or a loss, and nothing was cancelled.
abbrev pub IsWhole : CorrelationInput → Type 0
IsWhole input =
    (input.cancelled ≡ false)
    × (input.capture.cancelled ≡ false)
    × (input.start_error ≡ none)
    × (input.stop_error ≡ none)
    × (input.capture.error ≡ "")
    × (input.capture.events_lost ≡ 0)
    × (input.capture.complete ≡ true)

available-IsWhole :
    (input : CorrelationInput) → capture_status input ≡ CaptureStatus.available → IsWhole input
unfolding capture_status
available-IsWhole input h = ground (arith, h, eq_iff input.capture.error "")

module _ (words : Words) (name : String → ℕ → String) where
  classify_absence-FlowClaims :
      (probe_type : ProbeType) (input : CorrelationInput) (tuple : TcpTuple) (os : List Observation)
      (flow : Flow)
      → FlowClaims words probe_type tuple os flow
      → FlowClaims words probe_type tuple os (classify_absence words name input flow)
        ⊎ IsAbsent input (emissions_of probe_type tuple os) (classify_absence words name input flow)
  classify_absence-FlowClaims path_probe input tuple os flow claims =
      classify_absence-Claims words name input _ _ _ _ _ os flow claims
  classify_absence-FlowClaims tcp_probe input tuple os flow claims =
      classify_absence-Claims words name input _ _ _ _ _ os flow claims
  classify_absence-FlowClaims other_probe input tuple os flow claims =
      classify_absence-Claims words name input _ _ _ _ _ os flow claims

  -- The flow of a capture that is not available.
  abbrev pub IsSilent : CorrelationInput → Flow → Type 0
  IsSilent input flow =
      (capture_status input ≢ CaptureStatus.available)
      × (flow.probe_emission ≡ Emission.unknown)
      × (flow.matched_observation_ids ≡ [])
      × (flow.observations ≡ [])
      × (((capture_status input ≡ CaptureStatus.cancelled)
            × (flow.outcome ≡ FlowOutcome.flow_cancelled))
          ⊎ (flow.outcome ≡ FlowOutcome.capture_unavailable))

  -- The flow of an available capture.
  abbrev pub IsFounded : CorrelationInput → Flow → Type 0
  IsFounded input flow =
      let tuple = tcp_tuple words input.result.evidence in
      let os = admitted words name input in
      IsWhole input
      × (FlowClaims words (input.scope).probe_type tuple os flow
          ⊎ IsAbsent input (emissions_of (input.scope).probe_type tuple os) flow)

  status_cases :
      (s : CaptureStatus)
      → (s ≡ CaptureStatus.available)
        ⊎ ((s ≡ CaptureStatus.cancelled)
            ⊎ ((s ≢ CaptureStatus.available)
                × ((flow flow' flow'' : Flow)
                    → (elim s [
                      | CaptureStatus.cancelled ↦ flow
                      | CaptureStatus.available ↦ flow'
                      | _ ↦ flow''
                    ])
                      ≡ flow'')))
  status_cases CaptureStatus.available = inl refl
  status_cases CaptureStatus.cancelled = inr (inl refl)
  status_cases CaptureStatus.unsupported = inr (inr ((λ e. ground (arith, e)), λ f g h. refl))
  status_cases CaptureStatus.insufficient_privilege =
      inr (inr ((λ e. ground (arith, e)), λ f g h. refl))
  status_cases CaptureStatus.partial = inr (inr ((λ e. ground (arith, e)), λ f g h. refl))
  status_cases CaptureStatus.error = inr (inr ((λ e. ground (arith, e)), λ f g h. refl))

  -- Where the capture is not available, the flow has no observation, no match and an unknown
  -- emission, and its outcome is that the capture was unavailable or, only for a cancelled one,
  -- cancelled. Where it is available, nothing was cancelled, no error occurred, no event was lost
  -- and the capture is complete; and the flow says either that no emission is among the admitted
  -- observations and nothing is known, or that an emission was seen and no response matched, or
  -- the outcome of a response that is among them, of a kind that counts, and passes the pairing
  -- test with an emission among them, or, if no emission is among them and the probe had started,
  -- that the probe was not observed.
  pub correlate_cases :
      (input : CorrelationInput)
      → IsSilent input (correlate words name input) ⊎ IsFounded input (correlate words name input)
  unfolding correlate
  correlate_cases input = elim (status_cases (capture_status input)) [
    | inl whole ↦
        let tuple = tcp_tuple words input.result.evidence in
        let os = admitted words name input in
        let start = record (with_tuple tuple (new_flow words name input)) { observations = os } in
        let new = with_tuple-IsNew tuple (new_flow words name input) (refl, refl, refl) in
        rw (correlate, whole)
          (inr (
            available-IsWhole input whole,
            classify_absence-FlowClaims (input.scope).probe_type input tuple os
                (correlated words name input)
                (correlated_flow-FlowClaims words (input.scope).probe_type start os tuple new),
          ))
    | inr (inl stopped) ↦
        rw (correlate, stopped) (inl ((λ e. ground (arith, e)), refl, refl, refl, inl (refl, refl)))
    | inr (inr (unavailable, other)) ↦
        let same =
          other (record (new_flow words name input) { outcome = FlowOutcome.flow_cancelled })
            (classify_absence words name input (correlated words name input))
            (new_flow words name input) in
        inl (subst (IsSilent input) (sym same) (unavailable, refl, refl, refl, inr refl))
  ]
