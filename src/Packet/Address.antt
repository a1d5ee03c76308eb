-- ===== src/Packet/Address.antt =====
-- Addresses and endpoints in internal/packet/packet.go, and `MatchesAddress` of
-- internal/model/target.go. The functions of strings, net and net/netip are a parameter, with the
-- runes of a port as a list; so is what `NormalizeTarget` gives.
use tadori.Base.{
  ℕ, ◌+◌, ◌-◌, ◌*◌, String, Bool, false, ◌||◌, Option, none, some, List, [], ◌∷◌, ◌++◌, ltb, str_eq,
  if◌then◌else◌,
}
use tadori.Route.Netip.{Addr, normalize_addr}
use tadori.Packet.Defs.{PacketTarget, EvidenceItem}

-- `strings.TrimSpace`, `strings.Trim(strings.TrimSpace(s), "[]")`, `strings.TrimSpace(strings.Trim(s, "[]"))`, `netip.ParseAddr`, `Addr.String`, `strings.ToLower`,
-- `strings.EqualFold`, `net.SplitHostPort` and `model.NormalizeTarget`.
pub record Words : Type 0 where
  pub trim_space : String → String
  pub trim_host : String → String
  pub trim_brackets : String → String
  pub parse_addr : String → Option Addr
  pub addr_text : Addr → String
  pub to_lower : String → String
  pub equal_fold : String → String → Bool
  pub split_host_port : String → Option (String × List ℕ)
  pub normalize_target : PacketTarget → PacketTarget

-- `tcpTuple`
pub record TcpTuple : Type 0 where
  pub local_address : String
  pub local_port : ℕ
  pub remote_address : String
  pub remote_port : ℕ

abbrev pub no_tuple : TcpTuple
no_tuple = record { local_address = ""; local_port = 0; remote_address = ""; remote_port = 0 }

-- The loop over the runes of a port, from the value read so far.
unfoldable pub read_port : ℕ → List ℕ → Option ℕ
read_port value [] = some value
read_port value (c ∷ cs) =
    let next = value * 10 + (c - 48) in
    let rest = read_port next cs in
    if ltb c 48 || ltb 57 c then none else if ltb 65535 next then none else rest

module _ (words : Words) where
  abbrev pub normalize_address : String → String
  normalize_address value =
      let host = words.trim_host value in
      elim (words.parse_addr host) [
        | some a ↦ words.addr_text (normalize_addr a)
        | none ↦ words.to_lower host
      ]

  -- `normalizePacketAddress` of internal/model/packet.go.
  abbrev pub normalize_packet_address : String → String
  normalize_packet_address value =
      let host = words.trim_brackets value in
      elim (words.parse_addr host) [ some a ↦ words.addr_text (normalize_addr a) | none ↦ host ]

  -- What `MatchesAddress` makes of the address and of each candidate.
  abbrev pub canonical_address : String → String
  canonical_address value =
      let host = words.trim_host value in
      elim (words.parse_addr host) [ some a ↦ words.addr_text (normalize_addr a) | none ↦ host ]

  unfoldable pub split_endpoint : String → String × ℕ
  split_endpoint value = if str_eq value "" then ("", 0) else elim (words.split_host_port value) [
    | none ↦ (normalize_address value, 0)
    | some parts ↦ elim (read_port 0 parts.1) [
      | none ↦ (normalize_address parts.0, 0)
      | some port ↦ (normalize_address parts.0, port)
    ]
  ]

  -- `tcpTupleFromResult`, over the evidence.
  unfoldable pub tcp_tuple : List EvidenceItem → TcpTuple
  tcp_tuple [] = no_tuple
  tcp_tuple (item ∷ items) =
      let rest = tcp_tuple items in
      if item.is_tcp_connection
      then (elim item.endpoints [
        | none ↦ rest
        | some ends ↦
            let local = split_endpoint ends.0 in
            let remote = split_endpoint ends.1 in
            if str_eq local.0 ""
            then (if str_eq remote.0 "" then rest else record {
              local_address = local.0;
              local_port = local.1;
              remote_address = remote.0;
              remote_port = remote.1;
            })
            else record {
              local_address = local.0;
              local_port = local.1;
              remote_address = remote.0;
              remote_port = remote.1;
            }
      ])
      else rest

  abbrev optional : Option String → List String
  optional none = []
  optional (some a) = a ∷ []

  unfoldable pub matches_some : String → List String → Bool
  matches_some address [] = false
  matches_some address (c ∷ cs) =
      words.equal_fold (canonical_address c) address || matches_some address cs

  -- `MatchesAddress`
  unfoldable pub matches_address : PacketTarget → String → Bool
  matches_address given address =
      let target = words.normalize_target given in
      let host = words.trim_host address in
      if str_eq host ""
      then false
      else matches_some (canonical_address address) (
          target.literal_ip
          ∷ target.requested_identity
          ∷ (target.resolved_addresses
              ++ optional target.selected_endpoint
              ++ optional target.tested_endpoint))
