-- ===== src/Route/Tests.antt =====
-- The theorems on the choice of a route at a concrete table.
use mathlib.Core.List.{Mem, mem-cons_self}
use tadori.Base.{
  ℕ, ◌+◌, ◌≡◌, refl, ◌⊎◌, String, true, false, Option, none, some, List, [], ◌∷◌, map, ℤ,
}
use tadori.Route.Netip.{
  Addr, zero_addr, v4, v6, addr_is_valid, contains, normalize_addr, normalize_prefix,
}
use tadori.Route.Select.{
  Route, Selection, normalize_route, matching, select_detailed, select, default_route,
}
use tadori.Route.Precedence.{Preferred}
use tadori.Route.Best.{leads, IsSelection, select_detailed_cases, select-Preferred}
use tadori.Route.Defaults.{Leads, is_default, default_route-Leads}

-- No interface name reads as an address.
abbrev no_addr : String → Option Addr
no_addr s = none

abbrev no_text : Addr → String
no_text a = ""

abbrev route_to : Addr → ℕ → String → ℕ → Route
route_to a bits interface_name metric = record {
  destination = record { addr = a; bits_plus_one = bits + 1 };
  gateway = zero_addr;
  interface_name = interface_name;
  interface_index = ℤ.pos 2;
  metric = ℤ.pos metric;
  source = zero_addr;
  interface_type = "";
  vpn_or_tunnel = false;
  virtual_adapter = false;
}

-- `0.0.0.0/0`, and 10.0.0.0/8 written as an address mapped to IPv6.
abbrev anywhere : Route
anywhere = route_to (v4 0) 0 "eth0" 100

abbrev ten : Route
ten = route_to (v6 281470849515520 "") 104 "tun0" 50

abbrev table : List Route
table = anywhere ∷ ten ∷ []

-- 10.1.2.3
abbrev host : Addr
host = v4 167838211

anywhere-leads : leads (normalize_route no_addr no_text anywhere) host ≡ true
unfolding normalize_route normalize_prefix contains
anywhere-leads = refl

ten-leads : leads (normalize_route no_addr no_text ten) host ≡ true
unfolding normalize_route normalize_prefix contains
ten-leads = refl

select_detailed_cases_example :
    ((select_detailed no_addr no_text table host ≡ none)
      × ((addr_is_valid (normalize_addr host) ≡ false)
          ⊎ (matching no_addr no_text table (normalize_addr host) ≡ [])))
    ⊎ ((addr_is_valid (normalize_addr host) ≡ true)
        × (s : Selection) × (select_detailed no_addr no_text table host ≡ some s)
        × IsSelection no_addr no_text table host s)
select_detailed_cases_example = select_detailed_cases no_addr no_text table host

select-Preferred_example :
    (best : Route) × (select no_addr no_text table host ≡ some best)
    × Mem best (map (normalize_route no_addr no_text) table)
    × (leads best host ≡ true)
    × Preferred best (normalize_route no_addr no_text anywhere)
select-Preferred_example =
    select-Preferred no_addr no_text table host anywhere refl mem-cons_self anywhere-leads

anywhere-is_default : is_default (ℤ.pos 4) (normalize_route no_addr no_text anywhere) ≡ true
unfolding normalize_route normalize_prefix
anywhere-is_default = refl

default_route-Leads_example :
    (best : Route) × (default_route no_addr no_text table (ℤ.pos 4) ≡ some best)
    × Mem best (map (normalize_route no_addr no_text) table)
    × (is_default (ℤ.pos 4) best ≡ true)
    × Leads best (normalize_route no_addr no_text anywhere)
default_route-Leads_example =
    default_route-Leads no_addr no_text table (ℤ.pos 4) anywhere mem-cons_self anywhere-is_default
