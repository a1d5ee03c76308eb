-- ===== src/Packet/Keys.antt =====
-- With more than one echo request, what pairs a response with one of them.
use tadori.Base.{
  ℕ, ◌≡◌, ◌≤◌, Bool, true, false, not, ◌&&◌, ◌||◌, List, length, leb, ◌==◌, str_eq, eq_iff, pos,
  int_eqb, int_eqb→≡, ◌⊎◌, inl, inr, arith,
}
use tadori.Packet.Defs.{Observation}
use tadori.Packet.Address.{Words}
use tadori.Packet.Tcp.{ports_differ, addresses_differ}
use tadori.Packet.Path.{
  keys_differ, strong_key, correlation_known, correlation_matches, matching_emissions, path_pair,
}

-- A number known on both sides, and the same.
abbrev pub Same : ℕ → ℕ → Type 0
Same m n = ((m == 0) ≡ false) × (m ≡ n)

abbrev pub SharesKey : Observation → Observation → Type 0
SharesKey e r =
    Same r.icmp_identifier e.icmp_identifier
    ⊎ (Same r.icmp_sequence e.icmp_sequence
        ⊎ (Same r.quoted_icmp_identifier e.icmp_identifier
            ⊎ (Same r.quoted_icmp_sequence e.icmp_sequence
                ⊎ (Same r.probe_ttl e.probe_ttl
                    ⊎ ((int_eqb r.probe_attempt (pos 0) ≡ false)
                        × (r.probe_attempt ≡ e.probe_attempt))))))

strong_key-SharesKey :
    (e r : Observation) → keys_differ e r ≡ false → strong_key e r ≡ true → SharesKey e r
strong_key-SharesKey e r agree known =
    ground (arith, agree, known, int_eqb→≡ r.probe_attempt e.probe_attempt)

tests_hold :
    (a b c d s m u : Bool)
    → (not a && not b && not c && not d && (s || m || u)) ≡ true
    → (b ≡ false) × ((s ≡ true) ⊎ ((m ≡ true) ⊎ (u ≡ true)))
tests_hold a b c d s m u h = ground (arith, h)

-- One request has the correlation identifier of the response.
abbrev pub SharesId : List Observation → Observation → Observation → Type 0
SharesId os e r =
    (r.correlation_id ≡ e.correlation_id)
    × (str_eq r.correlation_id "" ≡ false)
    × (matching_emissions r.correlation_id os ≡ 1)

ids_match-SharesId :
    (os : List Observation) (e r : Observation)
    → (correlation_matches e r && (matching_emissions r.correlation_id os == 1)) ≡ true
    → SharesId os e r
ids_match-SharesId os e r h = ground (arith, h, eq_iff r.correlation_id e.correlation_id)

module _ (words : Words) where
  -- With two or more echo requests, a response that is paired with one of them shares with it a
  -- key known on both sides (the ICMP identifier or sequence, quoted or not, the probe's TTL or
  -- attempt), or its correlation identifier, which just one echo request of the observations has.
  pub path_pair-SharesKey :
      (count : ℕ) (os : List Observation) (e r : Observation)
      → 2 ≤ count
      → path_pair words count os e r ≡ true
      → SharesKey e r ⊎ SharesId os e r
  unfolding path_pair
  path_pair-SharesKey count os e r several paired =
      let (agree, why) =
        tests_hold (correlation_known e r && not (correlation_matches e r)) (keys_differ e r)
          (addresses_differ words r.quoted_destination_address e.destination_address)
          (ports_differ r.quoted_destination_port e.destination_port) (strong_key e r)
          (correlation_matches e r && (matching_emissions r.correlation_id os == 1))
          (count == 1 && leb (length os) 2) paired in
      elim why [
        | inl strong ↦ inl (strong_key-SharesKey e r agree strong)
        | inr (inl matches) ↦ inr (ids_match-SharesId os e r matches)
        | inr (inr single) ↦ absurd (ground (arith, single, several))
      ]
