-- ===== src/Route/Select.antt =====
-- internal/probe/route/select.go and the types of types.go: the choice of a route for a target from
-- a table, and of a default route. `canonical` is what `normalizeRoute` makes of an interface name:
-- where it reads as an address, the text of the normalized address.
use tadori.Base.{
  ℕ, String, Bool, true, false, not, ◌&&◌, Option, none, some, List, [], ◌∷◌, ltb, ◌==◌, str_eq,
  str_ltb, if◌then◌else◌, ℤ, int_ltb, int_eqb, sort_by,
}
use tadori.Route.Netip.{
  Addr, addr_is_valid, addr_eq, is4, Prefix, prefix_is_valid, prefix_eq, contains, normalize_addr,
  normalize_prefix,
}

pub record Route : Type 0 where
  pub destination : Prefix
  pub gateway : Addr
  pub interface_name : String
  pub interface_index : ℤ
  pub metric : ℤ
  pub source : Addr
  pub interface_type : String
  pub vpn_or_tunnel : Bool
  pub virtual_adapter : Bool

pub record Selection : Type 0 where
  pub target : Addr
  pub selected : Route
  pub candidates : List Route
  pub ambiguous : Bool

-- `Destination.Bits()` plus one
abbrev pub bits : Route → ℕ
bits r = r.destination.bits_plus_one

unfoldable pub normalize_route : (String → Option Addr) → (Addr → String) → Route → Route
normalize_route parse_addr print_addr r = record r {
  destination = normalize_prefix r.destination;
  gateway = normalize_addr r.gateway;
  source = normalize_addr r.source;
  interface_name = elim (parse_addr r.interface_name) [
    | some a ↦ print_addr (normalize_addr a)
    | none ↦ r.interface_name
  ];
}

abbrev pub bool_eq : Bool → Bool → Bool
bool_eq true b = b
bool_eq false b = not b

unfoldable pub same_route : Route → Route → Bool
same_route l r =
    prefix_eq l.destination r.destination
    && addr_eq l.gateway r.gateway
    && str_eq l.interface_name r.interface_name
    && int_eqb l.interface_index r.interface_index
    && int_eqb l.metric r.metric
    && addr_eq l.source r.source
    && str_eq l.interface_type r.interface_type
    && bool_eq l.vpn_or_tunnel r.vpn_or_tunnel
    && bool_eq l.virtual_adapter r.virtual_adapter

-- The order of `SelectDetailed`.
unfoldable pub less : Route → Route → Bool
less a b =
    if not (bits a == bits b)
    then ltb (bits b) (bits a)
    else if not (int_eqb a.metric b.metric)
    then int_ltb a.metric b.metric
    else if not (int_eqb a.interface_index b.interface_index)
    then int_ltb a.interface_index b.interface_index
    else str_ltb a.interface_name b.interface_name

abbrev pub ties : Route → Route → Bool
ties first c = (bits c == bits first) && int_eqb c.metric first.metric

-- The loop that looks for a tie: it stops at the first candidate of lower precedence.
unfoldable pub is_ambiguous : Route → List Route → Bool
is_ambiguous first [] = false
is_ambiguous first (c ∷ cs) =
    let rest = is_ambiguous first cs in
    if not (ties first c) then false else if not (same_route c first) then true else rest

-- The order of `Default`.
unfoldable pub default_less : Route → Route → Bool
default_less a b =
    if not (int_eqb a.metric b.metric)
    then int_ltb a.metric b.metric
    else int_ltb a.interface_index b.interface_index

module _ (parse_addr : String → Option Addr) (print_addr : Addr → String) where
  unfoldable pub matching : List Route → Addr → List Route
  matching [] t = []
  matching (r ∷ rs) t =
      let c = normalize_route parse_addr print_addr r in
      let rest = matching rs t in
      if not (prefix_is_valid c.destination)
      then rest
      else if not (contains c.destination t)
      then rest
      else c ∷ rest

  unfoldable pub select_detailed : List Route → Addr → Option Selection
  select_detailed routes target =
      let t = normalize_addr target in
      if not (addr_is_valid t) then none else elim (sort_by less (matching routes t)) [
        | [] ↦ none
        | c ∷ cs ↦
            some record {
              target = t;
              selected = c;
              candidates = c ∷ cs;
              ambiguous = is_ambiguous c cs;
            }
      ]

  unfoldable pub select : List Route → Addr → Option Route
  select routes target = elim (select_detailed routes target) [
    | none ↦ none
    | some s ↦ some s.selected
  ]

  -- 4 and 6 are the families; any other number takes both.
  unfoldable pub defaults : List Route → ℤ → List Route
  defaults [] family = []
  defaults (r ∷ rs) family =
      let c = normalize_route parse_addr print_addr r in
      let rest = defaults rs family in
      if not (prefix_is_valid c.destination && (bits c == 1))
      then rest
      else if int_eqb family (ℤ.pos 4) && not (is4 c.destination.addr)
      then rest
      else if int_eqb family (ℤ.pos 6) && is4 c.destination.addr
      then rest
      else c ∷ rest

  unfoldable pub default_route : List Route → ℤ → Option Route
  default_route routes family = elim (sort_by default_less (defaults routes family)) [
    | [] ↦ none
    | c ∷ cs ↦ some c
  ]
