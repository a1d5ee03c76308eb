-- ===== src/Route/Precedence.antt =====
-- The precedence that select.go gives to routes, and what its orders and its search for a tie have
-- to do with it.

use mathlib.Core.List.{Mem, Pairwise, mem-cons_self, mem-cons_of_mem}
use native.Mathlib.Bridge.{le_prop}
use tadori.Base.{
  int_eqb→≤ℤ, ≤ℤ_between, ◌≤◌, ◌≡◌, refl, Bool, true, false, not, ◌&&◌, ◌||◌, List, [], ◌∷◌, eq_iff,
  arith, ◌≤ℤ◌, ≤ℤ_trans, int_ltb→≤ℤ, int_eqb→≡, int_eqb_refl,
}
use tadori.Route.Netip.{Addr, addr_eq, zero_addr, v4, v6}
use tadori.Route.Select.{Route, bits, less, same_route, is_ambiguous, ties, bool_eq}

-- At least as many bits and, with as many, a metric that is no higher.
abbrev pub Preferred : Route → Route → Type 0
Preferred a b = (bits b ≤ bits a) × (bits a ≡ bits b → a.metric ≤ℤ b.metric)

pub Preferred-IsProp : (a b : Route) → IsProp (Preferred a b)
Preferred-IsProp a b = hlevel (le_prop)

pub Preferred-trans : (a b c : Route) → Preferred a b → Preferred b c → Preferred a c
Preferred-trans a b c g h =
    (omega arith, λ e. ≤ℤ_trans a.metric b.metric c.metric (g.1 (omega arith)) (h.1 (omega arith)))

pub less-Preferred : (a b : Route) → less a b ≡ true → Preferred a b
unfolding less
less-Preferred a b h =
    ground (
      arith,
      int_ltb→≤ℤ a.metric b.metric,
      int_eqb→≤ℤ b.metric a.metric,
      int_eqb→≡ a.metric b.metric,
    )

pub not_less-Preferred : (a b : Route) → less a b ≡ false → Preferred b a
unfolding less
not_less-Preferred a b h = ground (arith, int_eqb→≤ℤ a.metric b.metric)

addr_eq_refl : (a : Addr) → addr_eq a a ≡ true
addr_eq_refl zero_addr = refl
addr_eq_refl (v4 n) = ground arith
addr_eq_refl (v6 n zone) = ground (arith, eq_iff zone zone)

bool_eq_refl : (b : Bool) → bool_eq b b ≡ true
bool_eq_refl true = refl
bool_eq_refl false = refl

pub same_route_refl : (r : Route) → same_route r r ≡ true
unfolding same_route
same_route_refl r = ground (
  arith,
  addr_eq_refl r.destination.addr,
  addr_eq_refl r.gateway,
  addr_eq_refl r.source,
  eq_iff r.interface_name r.interface_name,
  eq_iff r.interface_type r.interface_type,
  int_eqb_refl r.metric,
  int_eqb_refl r.interface_index,
  bool_eq_refl r.vpn_or_tunnel,
  bool_eq_refl r.virtual_adapter,
)

-- Of equal precedence, and not the same route.
abbrev pub rivals : Route → Route → Bool
rivals first c = ties first c && not (same_route c first)

abbrev pub any_rival : Route → List Route → Bool
any_rival first [] = false
any_rival first (c ∷ cs) = rivals first c || any_rival first cs

ties-behind :
    (first c d : Route)
    → Preferred first c
    → Preferred c d
    → ties first c ≡ false
    → ties first d ≡ false
ties-behind first c d g h e = ground (arith, ≤ℤ_between first.metric c.metric d.metric)

any_rival-behind :
    (first c : Route) (cs : List Route)
    → Preferred first c
    → ties first c ≡ false
    → ((d : Route) → Mem d cs → Preferred c d)
    → any_rival first cs ≡ false
any_rival-behind first c [] p e h = refl
any_rival-behind first c (d ∷ ds) p e h = ground (
  arith,
  ties-behind first c d p (h d mem-cons_self) e,
  any_rival-behind first c ds p e (λ x m. h x (mem-cons_of_mem d m)),
)

any_rival-is_ambiguous :
    (first : Route) (cs : List Route)
    → Pairwise Preferred (first ∷ cs)
    → is_ambiguous first cs ≡ any_rival first cs
unfolding is_ambiguous
any_rival-is_ambiguous first [] s = refl
any_rival-is_ambiguous first (c ∷ cs) (Pairwise.cons below (Pairwise.cons behind s)) = ground (
  arith,
  any_rival-is_ambiguous first cs (Pairwise.cons (λ d m. below d (mem-cons_of_mem c m)) s),
  any_rival-behind first c cs (below c mem-cons_self),
)

-- The search for a tie finds whether any candidate has the precedence of the first.
pub is_ambiguous-any_rival :
    (first : Route) (cs : List Route)
    → Pairwise Preferred (first ∷ cs)
    → is_ambiguous first cs ≡ any_rival first (first ∷ cs)
is_ambiguous-any_rival first cs s =
    ground (arith, same_route_refl first, any_rival-is_ambiguous first cs s)
