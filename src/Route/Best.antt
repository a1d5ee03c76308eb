-- ===== src/Route/Best.antt =====
-- What `SelectDetailed`, `Select` and `Default` choose.
use mathlib.Core.Logic.Or
use mathlib.Core.List.{Mem, Perm, Pairwise, not-mem-nil, mem-cons_self, eq-or-mem_of_mem-cons}
use mathlib.Core.List.Perm
use tadori.Base.{
  String, ◌≡◌, refl, sym, ◌⊎◌, inl, inr, Bool, true, false, ◌&&◌, Option, none, some, List, [], ◌∷◌,
  map, arith, Bool-cases, List-cases, subst, sort_by, sort_by-Perm, sort_by-Pairwise, keep,
  Mem-keep_of, Mem-keep, test-keep, int_eqb→≤ℤ, int_eqb_refl,
}
use tadori.Route.Netip.{Addr, addr_is_valid, prefix_is_valid, contains, normalize_addr}
use tadori.Route.Select.{
  Route, Selection, normalize_route, less, is_ambiguous, matching, select_detailed, select,
}
use tadori.Route.Precedence.{
  Preferred, Preferred-IsProp, Preferred-trans, less-Preferred, not_less-Preferred, any_rival,
  is_ambiguous-any_rival,
}

-- The route is to a network that holds the address.
abbrev pub leads : Route → Addr → Bool
leads r t = prefix_is_valid r.destination && contains r.destination t

module _ (parse_addr : String → Option Addr) (print_addr : Addr → String) where
  abbrev normal : Route → Route
  normal r = normalize_route parse_addr print_addr r

  matching-keep :
      (routes : List Route) (t : Addr)
      → matching parse_addr print_addr routes t ≡ keep normal (λ c. leads c t) routes
  unfolding matching
  matching-keep [] t = refl
  matching-keep (r ∷ routes) t = ground (arith, matching-keep routes t)

  -- What a selection holds: the normalized target, the matching routes in order of precedence, the
  -- first of them, and whether another one ties with it.
  pub IsSelection : List Route → Addr → Selection → Type 0
  IsSelection routes target s =
      (s.target ≡ normalize_addr target)
      × Perm s.candidates (matching parse_addr print_addr routes (normalize_addr target))
      × Pairwise Preferred s.candidates
      × ((rest : List Route) × (s.candidates ≡ s.selected ∷ rest))
      × (s.ambiguous ≡ any_rival s.selected s.candidates)

  -- `select_detailed` gives nothing exactly in two cases, a target that is not valid and no
  -- matching route; otherwise it gives the normalized target and a rearrangement of the matching
  -- routes in order of precedence, selects the first, and says that the choice is ambiguous
  -- exactly if another of them has the same prefix length and metric but is not the same route.
  pub select_detailed_cases :
      (routes : List Route) (target : Addr)
      → ((select_detailed parse_addr print_addr routes target ≡ none)
          × ((addr_is_valid (normalize_addr target) ≡ false)
              ⊎ (matching parse_addr print_addr routes (normalize_addr target) ≡ [])))
        ⊎ ((addr_is_valid (normalize_addr target) ≡ true)
            × (s : Selection) × (select_detailed parse_addr print_addr routes target ≡ some s)
            × IsSelection routes target s)
  unfolding select_detailed IsSelection
  select_detailed_cases routes target =
      let t = normalize_addr target in
      let ms = matching parse_addr print_addr routes t in
      elim (Bool-cases (addr_is_valid t)) [
        | inr k ↦ inl (rw k refl, inl k)
        | inl k ↦ elim (List-cases (sort_by less ms)) [
          | inl e ↦ inl (
            rw (k, e) refl,
            inr (sym (Perm.nil-eq (subst (λ l. Perm l ms) e (sort_by-Perm less ms)))),
          )
          | inr (c, rest, e) ↦
              let ordered = subst (Pairwise Preferred) e (
                sort_by-Pairwise less Preferred Preferred-IsProp less-Preferred not_less-Preferred
                  Preferred-trans ms) in
              inr (
                k,
                record {
                  target = t;
                  selected = c;
                  candidates = c ∷ rest;
                  ambiguous = is_ambiguous c rest;
                },
                rw (k, e) refl,
                (
                  refl,
                  subst (λ l. Perm l ms) e (sort_by-Perm less ms),
                  ordered,
                  (rest, refl),
                  is_ambiguous-any_rival c rest ordered,
                ),
              )
        ]
      ]

  -- The head of a list in order of precedence is preferred to each of its routes.
  head-Preferred :
      (c : Route) (rest : List Route) (r : Route)
      → Pairwise Preferred (c ∷ rest)
      → Mem r (c ∷ rest)
      → Preferred c r
  head-Preferred c rest r (Pairwise.cons below s) m =
      Or.elim (Preferred-IsProp c r) (eq-or-mem_of_mem-cons m)
        (λ e.
          subst (Preferred c) (sym e)
            (omega arith, λ _. int_eqb→≤ℤ c.metric c.metric (int_eqb_refl c.metric)))
        (below r)

  IsSelection-Preferred :
      (routes : List Route) (target : Addr) (s : Selection) (r : Route)
      → IsSelection routes target s
      → Mem r (matching parse_addr print_addr routes (normalize_addr target))
      → Mem s.selected (matching parse_addr print_addr routes (normalize_addr target))
        × Preferred s.selected r
  unfolding IsSelection
  IsSelection-Preferred routes target s r (_, perm, ordered, (rest, e), _) m = (
    (Perm.mem_iff perm).0 (rw e mem-cons_self),
    head-Preferred s.selected rest r (subst (Pairwise Preferred) e ordered)
        (subst (Mem r) e ((Perm.mem_iff perm).1 m)),
  )

  -- Where some route of the table, normalized, is to a network that holds the valid normalized
  -- target, a route is selected: it comes from the table, its network holds the target, and the
  -- other has no more prefix bits, nor, with as many, a lower metric.
  pub select-Preferred :
      (routes : List Route) (target : Addr) (r : Route)
      → addr_is_valid (normalize_addr target) ≡ true
      → Mem r routes
      → leads (normal r) (normalize_addr target) ≡ true
      → (best : Route) × (select parse_addr print_addr routes target ≡ some best)
        × Mem best (map normal routes)
        × (leads best (normalize_addr target) ≡ true)
        × Preferred best (normal r)
  unfolding select
  select-Preferred routes target r valid m h =
      let t = normalize_addr target in
      let kept = matching-keep routes t in
      let found =
        subst (Mem (normal r)) (sym kept) (Mem-keep_of normal (λ c. leads c t) routes r m h) in
      elim (select_detailed_cases routes target) [
        | inl (_, inl e) ↦ absurd (ground (arith, e))
        | inl (_, inr e) ↦ absurd (not-mem-nil (subst (Mem (normal r)) e found))
        | inr (_, s, chosen, holds) ↦
            let best = IsSelection-Preferred routes target s (normal r) holds found in
            let mine = subst (Mem s.selected) kept best.0 in
            (
              s.selected,
              rw (select, chosen) refl,
              Mem-keep normal (λ c. leads c t) routes s.selected mine,
              test-keep normal (λ c. leads c t) routes s.selected mine,
              best.1,
            )
      ]
