-- ===== src/Capture/Release.antt =====
-- A session that ends gives its place back without waiting.
use mathlib.Core.List.{Pairwise, Nodup}
use tadori.Base.{
  ℕ, zero, suc, ◌+◌, ◌≤◌, ◌≡◌, refl, subst, String, some, List, ◌∷◌, ◌++◌, length, arith, ◌⊎◌, inl,
  inr, Bool-cases, ℤ,
}
use tadori.Capture.Destinations.{is_one_of}
use tadori.Capture.Manager.{
  CaptureManager, new_capture_manager, give_back, release_session, CaptureWorld, CaptureReach,
}
use tadori.Capture.Places.{
  Places, new_world, reach-Places, ends-distinct, is_one_of-Mem, length-pull, give_fields,
}

zero_or_suc : (n : ℕ) → (n ≡ 0) ⊎ ((k : ℕ) × (n ≡ suc k))
zero_or_suc zero = inl refl
zero_or_suc (suc k) = inr (k, refl)

give_back-some :
    (m : CaptureManager) → 1 ≤ m.in_use → (m' : CaptureManager) × (give_back m ≡ some m')
unfolding give_back
give_back-some m h = elim (zero_or_suc m.in_use) [
  | inl none_used ↦ absurd (omega (arith, none_used, h))
  | inr (n, some_used) ↦ rw (give_back, some_used) (record m { in_use = n }, refl)
]

-- However the calls of `Start`, the ends of sessions and `Close` are ordered from a new manager
-- on, if no identifier is drawn twice, whenever a session that runs has not ended, the places in
-- use are those of the calls that have one, of the sessions being started and of those that run,
-- at most the manager's bound; and the end of that session gives its place back without waiting.
pub release_session-gives :
    (bound : ℤ) (w : CaptureWorld) (id : String) (pre post : List String)
    → CaptureReach (new_world bound) w
    → w.live ≡ pre ++ id ∷ post
    → (w.manager.in_use ≡ w.reserved + length w.opening + length w.live)
      × (w.manager.in_use ≤ (new_capture_manager bound).max_concurrent)
      × ((m : CaptureManager) × (release_session id w.manager ≡ some m)
          × (m.in_use + 1 ≡ w.manager.in_use))
unfolding release_session
release_session-gives bound w id pre post reached at =
    let most = (new_capture_manager bound).max_concurrent in
    let start : Places most (new_world bound) = record {
      used = omega arith;
      bounded = omega arith;
      same_bound = refl;
      distinct = Pairwise.nil;
    } in
    let v = reach-Places most (new_world bound) w start reached in
    let distinct = subst (λ l. Nodup (w.opening ++ (l ++ w.manager.released))) at v.distinct in
    let (new, _) = ends-distinct w.opening pre post w.manager.released id distinct in
    let longer = length-pull w.live pre post id at in
    let (m, given) =
      give_back-some (record (w.manager) { released = id ∷ w.manager.released })
        (omega (arith, v.used, longer)) in
    let (less, _, _) =
      give_fields (record (w.manager) { released = id ∷ w.manager.released }) m given in
    elim (Bool-cases (is_one_of id w.manager.released)) [
      | inl known ↦ absurd (new (is_one_of-Mem id w.manager.released known))
      | inr unknown ↦ (v.used, v.bounded, (m, rw (release_session, unknown) given, less))
    ]
