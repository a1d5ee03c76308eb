-- ===== src/Packet/Pairs.antt =====
-- The pairs of an emission and a response that the correlation finds.
use mathlib.Core.List.{Mem, mem-cons_self, mem-cons_of_mem}
use tadori.Base.{
  ℕ, ◌≡◌, Bool, true, ◌||◌, some, List, [], ◌∷◌, ◌==◌, inl, inr, arith, Bool-cases, Option-cases,
  AllOf, AllOf-map,
}
use tadori.Packet.Defs.{Kind, kind_eq, Observation}
use tadori.Packet.Tcp.{filter_kind, filter_port, first_pair, pair_responses, tcp_emissions}

-- An observation of the list, of this kind.
abbrev pub IsOfKind : Kind → List Observation → Observation → Type 0
IsOfKind kind os o = Mem o os × (kind_eq o.kind kind ≡ true)

pub filter_kind-IsOfKind :
    (kind : Kind) (os : List Observation) → AllOf (IsOfKind kind os) (filter_kind kind os)
filter_kind-IsOfKind kind [] = tt
filter_kind-IsOfKind kind (o ∷ os) =
    let rest =
      AllOf-map (λ e (h : IsOfKind kind os e). (mem-cons_of_mem o h.0, h.1)) (filter_kind kind os)
        (filter_kind-IsOfKind kind os) in
    elim (Bool-cases (kind_eq o.kind kind)) [
      | inl same ↦ rw same ((mem-cons_self, same), rest)
      | inr other ↦ rw other rest
    ]

filter_port-AllOf {ℓ} :
    (P : Observation → Type ℓ) (port : ℕ) (os : List Observation)
    → AllOf P os
    → AllOf P (filter_port port os)
filter_port-AllOf P port [] h = tt
filter_port-AllOf P port (o ∷ os) (h, hs) =
    elim (Bool-cases (o.source_port == port || o.local_port == port)) [
      | inl same ↦ rw same (h, filter_port-AllOf P port os hs)
      | inr other ↦ rw other (filter_port-AllOf P port os hs)
    ]

pub tcp_emissions-IsOfKind :
    (os : List Observation) (port : ℕ)
    → AllOf (IsOfKind Kind.outbound_tcp_syn os) (tcp_emissions os port)
tcp_emissions-IsOfKind os port =
    let all = filter_kind-IsOfKind Kind.outbound_tcp_syn os in
    elim (Bool-cases (port == 0)) [
      | inl any ↦ rw any all
      | inr fixed ↦ rw fixed (filter_port-AllOf (IsOfKind Kind.outbound_tcp_syn os) port _ all)
    ]

first_pair-some :
    (P : Observation → Type 0) (test : Observation → Bool) (es : List Observation) (e : Observation)
    → AllOf P es
    → first_pair test es ≡ some e
    → P e × (test e ≡ true)
first_pair-some P test [] e h found = absurd (ground (arith, found))
first_pair-some P test (x ∷ xs) e (h, hs) found = elim (Bool-cases (test x)) [
  | inl passes ↦ let same : some x ≡ some e = rw passes at found in ground (arith, same, h, passes)
  | inr misses ↦ first_pair-some P test xs e hs (rw misses at found)
]

-- What a pair has been tested for.
abbrev pub IsPaired :
    (P : Observation → Type 0)
    → (Observation → Bool)
    → (Observation → Observation → Bool)
    → List Observation
    → Observation × Observation
    → Type 0
IsPaired P is_response test os pair =
    P pair.0 × Mem pair.1 os × (is_response pair.1 ≡ true) × (test pair.0 pair.1 ≡ true)

pub pair_responses-IsPaired :
    (P : Observation → Type 0) (is_response : Observation → Bool)
    (test : Observation → Observation → Bool) (es os : List Observation)
    → AllOf P es
    → AllOf (IsPaired P is_response test os) (pair_responses is_response test es os)
pair_responses-IsPaired P is_response test es [] h = tt
pair_responses-IsPaired P is_response test es (o ∷ os) h =
    let rest =
      AllOf-map
        (λ pair (p : IsPaired P is_response test os pair). (p.0, mem-cons_of_mem o p.1, p.2, p.3))
        (pair_responses is_response test es os)
        (pair_responses-IsPaired P is_response test es os h) in
    elim (Bool-cases (is_response o)) [
      | inr other ↦ rw other rest
      | inl answers ↦ elim (Option-cases (first_pair (λ e. test e o) es)) [
        | inl alone ↦ rw (answers, alone) rest
        | inr (e, found) ↦
            let (p, tested) = first_pair-some P (λ x. test x o) es e h found in
            rw (answers, found) ((p, mem-cons_self, answers, tested), rest)
      ]
    ]
