-- ===== src/Packet/Order.antt =====
-- The order of the observations that are correlated.
use mathlib.Core.List.{Mem, Pairwise, mem-cons_self, mem-cons_of_mem}
use native.Mathlib.Bridge.{le_prop}
use tadori.Base.{
  ℕ, ◌+◌, ◌≤◌, ◌≡◌, String, Bool, true, false, ◌&&◌, List, [], ◌∷◌, str_eq, sort_by,
  sort_by-Pairwise, sort_by-AllOf, AllOf, inl, inr, arith, Bool-cases,
}
use tadori.Model.{Time}
use tadori.Packet.Defs.{Observation, Scope}
use tadori.Packet.Address.{Words, TcpTuple}
use tadori.Packet.Relevant.{
  identity_matches, process_matches, within_window, is_relevant, normalize_packet_observation,
  earlier, keep_relevant, name_observations, relevant_observations,
}

-- Not later, where no time is later than every time.
abbrev pub NotLater : Observation → Observation → Type 0
NotLater a b = 1 ≤ b.observed_at → (1 ≤ a.observed_at) × (a.observed_at ≤ b.observed_at)

NotLater-prop : (a b : Observation) → IsProp (NotLater a b)
NotLater-prop a b = hlevel (le_prop)

earlier-NotLater : (a b : Observation) → earlier a b ≡ true → NotLater a b
earlier-NotLater a b h = ground (arith, h)

not_earlier-NotLater : (a b : Observation) → earlier a b ≡ false → NotLater b a
not_earlier-NotLater a b h = ground (arith, h)

NotLater-trans : (a b c : Observation) → NotLater a b → NotLater b c → NotLater a c
NotLater-trans a b c g h = ground (arith, g, h)

-- No observation is later than one behind it.
abbrev pub InOrder : List Observation → Type 0
InOrder [] = Unit {0}
InOrder (o ∷ os) = AllOf (NotLater o) os × InOrder os

all_members :
    (P : Observation → Type 0) (os : List Observation)
    → ((o : Observation) → Mem o os → P o)
    → AllOf P os
all_members P [] h = tt
all_members P (o ∷ os) h = (h o mem-cons_self, all_members P os (λ a m. h a (mem-cons_of_mem o m)))

Pairwise-InOrder : (os : List Observation) → Pairwise NotLater os → InOrder os
Pairwise-InOrder [] h = tt
Pairwise-InOrder (o ∷ os) (Pairwise.cons below rest) =
    (all_members (NotLater o) os below, Pairwise-InOrder os rest)

-- What the scope asks of an observation, whatever its kind.
abbrev pub IsAdmitted : Scope → Time → Time → Observation → Type 0
IsAdmitted scope start end o =
    (identity_matches o scope.identity ≡ true)
    × (process_matches o scope.process_id ≡ true)
    × (within_window o.observed_at start end ≡ true)

-- A name changes neither the time nor what is asked.
module _ (name : String → ℕ → String) (id : String) where
  named-AllOf :
      (P : Observation → Type 0)
      → ((o : Observation) (index : ℕ) → P o → P (record o { id = name id index }))
      → (index : ℕ) (os : List Observation) → AllOf P os
      → AllOf P (name_observations name id index os)
  unfolding name_observations
  named-AllOf P keeps index [] h = tt
  named-AllOf P keeps index (o ∷ os) (h, hs) = elim (Bool-cases (str_eq o.id "")) [
    | inl unnamed ↦ rw unnamed (keeps o index h, named-AllOf P keeps (index + 1) os hs)
    | inr named ↦ rw named (h, named-AllOf P keeps (index + 1) os hs)
  ]

  named-InOrder :
      (index : ℕ) (os : List Observation)
      → InOrder os
      → InOrder (name_observations name id index os)
  unfolding name_observations
  named-InOrder index [] h = tt
  named-InOrder index (o ∷ os) (h, hs) =
      let behind = named-AllOf (NotLater o) (λ a n k. k) (index + 1) os h in
      let rest = named-InOrder (index + 1) os hs in
      elim (Bool-cases (str_eq o.id "")) [
        | inl unnamed ↦ rw unnamed (behind, rest)
        | inr named ↦ rw named (behind, rest)
      ]

tests_hold : (a b c d : Bool) → (a && b && c && d) ≡ true → (a ≡ true) × (b ≡ true) × (c ≡ true)
tests_hold a b c d h = ground (arith, h)

module _ (words : Words) where
  keep_relevant-IsAdmitted :
      (scope : Scope) (tuple : TcpTuple) (start end : Time) (os : List Observation)
      → AllOf (IsAdmitted scope start end) (keep_relevant words scope tuple start end os)
  unfolding is_relevant
  keep_relevant-IsAdmitted scope tuple start end [] = tt
  keep_relevant-IsAdmitted scope tuple start end (given ∷ os) =
      let o = normalize_packet_observation words given in
      let rest = keep_relevant-IsAdmitted scope tuple start end os in
      elim (Bool-cases (is_relevant words scope tuple start end o)) [
        | inr other ↦ rw other rest
        | inl relevant ↦ rw relevant (tests_hold _ _ _ _ relevant, rest)
      ]

  -- Of the observations that are correlated none is later than one behind it, where those without
  -- a time count as last, and each agrees with the scope's identity and process and lies in the
  -- window.
  pub relevant_observations-InOrder :
      (name : String → ℕ → String) (input : List Observation) (scope : Scope) (tuple : TcpTuple)
      (start end : Time)
      → InOrder (relevant_observations words name input scope tuple start end)
        × AllOf
            (IsAdmitted scope start end)
            (relevant_observations words name input scope tuple start end)
  unfolding relevant_observations
  relevant_observations-InOrder name input scope tuple start end =
      let kept = keep_relevant words scope tuple start end input in
      let sorted =
        sort_by-Pairwise earlier NotLater NotLater-prop earlier-NotLater not_earlier-NotLater
          NotLater-trans kept in
      let all =
        sort_by-AllOf earlier (IsAdmitted scope start end) kept
          (keep_relevant-IsAdmitted scope tuple start end input) in
      (
        named-InOrder name scope.identity.correlation_id 1 (sort_by earlier kept)
            (Pairwise-InOrder (sort_by earlier kept) sorted),
        named-AllOf name scope.identity.correlation_id (IsAdmitted scope start end) (λ o n h. h) 1
            (sort_by earlier kept) all,
      )
