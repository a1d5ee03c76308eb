-- ===== src/Route/Defaults.antt =====
-- What `Default` of select.go chooses.

use mathlib.Core.Logic.Or
use mathlib.Core.List.{Mem, Pairwise, not-mem-nil, mem-cons_self, eq-or-mem_of_mem-cons}
use mathlib.Core.List.Perm
use tadori.Base.{
  String, ◌≡◌, refl, sym, inl, inr, Bool, true, false, not, ◌&&◌, Option, some, List, [], ◌∷◌, map,
  arith, List-cases, subst, ◌==◌, ℤ, ◌≤ℤ◌, ≤ℤ_trans, ≤ℤ_between, int_eqb, int_ltb→≤ℤ, int_eqb→≤ℤ,
  int_eqb→≡, int_eqb_refl, sort_by, sort_by-Perm, sort_by-Pairwise, keep, Mem-keep_of, Mem-keep,
  test-keep,
}
use tadori.Route.Netip.{Addr, is4, prefix_is_valid}
use tadori.Route.Select.{Route, bits, normalize_route, default_less, defaults, default_route}

-- A lower metric, or the same one and an interface index that is no higher.
abbrev pub Leads : Route → Route → Type 0
Leads a b = (a.metric ≤ℤ b.metric) × (b.metric ≤ℤ a.metric → a.interface_index ≤ℤ b.interface_index)

Leads-IsProp : (a b : Route) → IsProp (Leads a b)
Leads-IsProp a b = hlevel

Leads-trans : (a b c : Route) → Leads a b → Leads b c → Leads a c
Leads-trans a b c g h = (
  ≤ℤ_trans a.metric b.metric c.metric g.0 h.0,
  λ back.
      ≤ℤ_trans a.interface_index b.interface_index c.interface_index
        (g.1 (≤ℤ_trans b.metric c.metric a.metric h.0 back))
        (h.1 (≤ℤ_trans c.metric a.metric b.metric back g.0)),
)

default_less-Leads : (a b : Route) → default_less a b ≡ true → Leads a b
unfolding default_less
default_less-Leads a b h = ground (
  arith,
  int_ltb→≤ℤ a.metric b.metric,
  int_eqb→≤ℤ a.metric b.metric,
  int_eqb→≤ℤ b.metric a.metric,
  int_eqb→≡ a.metric b.metric,
  int_ltb→≤ℤ a.interface_index b.interface_index,
)

not_default_less-Leads : (a b : Route) → default_less a b ≡ false → Leads b a
unfolding default_less
not_default_less-Leads a b h = ground (
  arith,
  int_eqb→≤ℤ a.metric b.metric,
  ≤ℤ_between b.metric a.metric b.metric,
  int_eqb_refl b.metric,
)

-- A default route of the family.
abbrev pub is_default : ℤ → Route → Bool
is_default family r =
    prefix_is_valid r.destination
    && (bits r == 1)
    && not (int_eqb family (ℤ.pos 4) && not (is4 r.destination.addr))
    && not (int_eqb family (ℤ.pos 6) && is4 r.destination.addr)

module _ (parse_addr : String → Option Addr) (print_addr : Addr → String) where
  abbrev normal : Route → Route
  normal r = normalize_route parse_addr print_addr r

  defaults-keep :
      (routes : List Route) (family : ℤ)
      → defaults parse_addr print_addr routes family ≡ keep normal (is_default family) routes
  unfolding defaults
  defaults-keep [] family = refl
  defaults-keep (r ∷ routes) family = ground (arith, defaults-keep routes family)

  head-Leads :
      (c : Route) (rest : List Route) (r : Route)
      → Pairwise Leads (c ∷ rest)
      → Mem r (c ∷ rest)
      → Leads c r
  head-Leads c rest r (Pairwise.cons below s) m =
      Or.elim (Leads-IsProp c r) (eq-or-mem_of_mem-cons m)
        (λ e. subst (Leads c) (sym e) (
          int_eqb→≤ℤ c.metric c.metric (int_eqb_refl c.metric),
          λ _. int_eqb→≤ℤ c.interface_index c.interface_index (int_eqb_refl c.interface_index),
        ))
        (below r)

  -- Where the table has a default route of the family, one is chosen: it comes from the table, it
  -- is a default route of the family, and the other has no lower metric, nor, with the same
  -- metric, a lower interface index.
  pub default_route-Leads :
      (routes : List Route) (family : ℤ) (r : Route)
      → Mem r routes
      → is_default family (normal r) ≡ true
      → (best : Route) × (default_route parse_addr print_addr routes family ≡ some best)
        × Mem best (map normal routes)
        × (is_default family best ≡ true)
        × Leads best (normal r)
  unfolding default_route
  default_route-Leads routes family r m h =
      let ds = defaults parse_addr print_addr routes family in
      let kept = defaults-keep routes family in
      let perm = sort_by-Perm default_less ds in
      let found =
        subst (Mem (normal r)) (sym kept) (Mem-keep_of normal (is_default family) routes r m h) in
      let sorted = (Perm.mem_iff perm).1 found in
      elim (List-cases (sort_by default_less ds)) [
        | inl e ↦ absurd (not-mem-nil (subst (Mem (normal r)) e sorted))
        | inr (c, rest, e) ↦
            let ordered = subst (Pairwise Leads) e (
              sort_by-Pairwise default_less Leads Leads-IsProp default_less-Leads
                not_default_less-Leads Leads-trans ds) in
            let mine =
              subst (Mem c) kept ((Perm.mem_iff perm).0 (subst (Mem c) (sym e) mem-cons_self)) in
            (
              c,
              rw (default_route, e) refl,
              Mem-keep normal (is_default family) routes c mine,
              test-keep normal (is_default family) routes c mine,
              head-Leads c rest (normal r) ordered (subst (Mem (normal r)) e sorted),
            )
      ]
