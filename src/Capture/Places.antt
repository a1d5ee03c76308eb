-- ===== src/Capture/Places.antt =====
-- The places of the capture manager, whatever the goroutines do and in whatever order.
use mathlib.Core.List.{
  perm_middle, mem-append_right, Mem, Nodup, Nodup-cons, mem-cons_self, mem-cons_of_mem,
}
use mathlib.Core.List.Perm
use tadori.Base.{
  ℕ, ◌+◌, ◌≤◌, ◌≡◌, refl, sym, ◌∙◌, subst, String, true, some, List, [], ◌∷◌, ◌++◌, append_assoc,
  length, length-append, str_eq, eq_iff, arith, inl, inr, Bool-cases, ℤ,
}
use tadori.Capture.Destinations.{is_one_of}
use tadori.Capture.Manager.{
  CaptureManager, new_capture_manager, take_place, give_back, release_session, enter, CaptureWorld,
  CaptureMove, begins, finds_closed, draws, fails, starts, enters, ends, closes, CaptureReach, here,
  next,
}

pull :
    (a : List String) (id : String) (b : List String)
    → Nodup (a ++ id ∷ b)
    → (¬ Mem id (a ++ b)) × Nodup (a ++ b)
pull a id b h = Nodup-cons.0 (Perm.nodup (perm_middle a b) h)

move_later :
    (a b c : List String) (id : String) → Nodup (a ++ id ∷ (b ++ c)) → Nodup ((a ++ b) ++ id ∷ c)
move_later a b c id h =
    Perm.nodup (Perm.symm (perm_middle (a ++ b) c))
      (rw (append_assoc a b c) (Nodup-cons.1 (pull a id (b ++ c) h)))

pub is_one_of-Mem : (id : String) (l : List String) → is_one_of id l ≡ true → Mem id l
is_one_of-Mem id [] h = absurd (ground (arith, h))
is_one_of-Mem id (i ∷ is) h = elim (Bool-cases (str_eq i id)) [
  | inl same ↦ let e : i ≡ id = (eq_iff i id).0 same in subst (λ x. Mem x (i ∷ is)) e mem-cons_self
  | inr other ↦ mem-cons_of_mem i (is_one_of-Mem id is (rw other at h))
]

-- The identifiers of sessions, by what has become of them.
abbrev pub ids : CaptureWorld → List String
ids w = w.opening ++ (w.live ++ w.manager.released)

-- A place is in use for each call that has one and for each session that has not given it back.
pub record Places (bound : ℕ) (w : CaptureWorld) : Type 0 where
  pub used : w.manager.in_use ≡ w.reserved + length w.opening + length w.live
  pub bounded : w.manager.in_use ≤ bound
  pub same_bound : w.manager.max_concurrent ≡ bound
  pub distinct : Nodup (ids w)

take_fields :
    (m m' : CaptureManager)
    → take_place m ≡ some m'
    → (m'.in_use ≡ m.in_use + 1)
      × (m'.in_use ≤ m.max_concurrent)
      × (m'.max_concurrent ≡ m.max_concurrent)
      × (m'.released ≡ m.released)
unfolding take_place
take_fields m m' h = (ground arith, ground arith, ground arith, ground arith)

pub give_fields :
    (m m' : CaptureManager)
    → give_back m ≡ some m'
    → (m'.in_use + 1 ≡ m.in_use)
      × (m'.max_concurrent ≡ m.max_concurrent)
      × (m'.released ≡ m.released)
unfolding give_back
give_fields m m' h = (ground arith, ground arith, ground arith)

pub length-pull :
    (whole pre post : List String) (id : String)
    → whole ≡ pre ++ id ∷ post
    → length whole ≡ length (pre ++ post) + 1
length-pull whole pre post id e =
    let n = length-append pre (id ∷ post) in
    let k = length-append pre post in rw e (omega (arith, n, k))

-- A session that ends gives its place back: no release is skipped.
release_fields :
    (m m' : CaptureManager) (id : String)
    → ¬ Mem id m.released
    → release_session id m ≡ some m'
    → (m'.in_use + 1 ≡ m.in_use)
      × (m'.max_concurrent ≡ m.max_concurrent)
      × (m'.released ≡ id ∷ m.released)
unfolding release_session
release_fields m m' id new h = elim (Bool-cases (is_one_of id m.released)) [
  | inl known ↦ absurd (new (is_one_of-Mem id m.released known))
  | inr unknown ↦
      give_fields (record m { released = id ∷ m.released }) m' (rw (release_session, unknown) at h)
]

pub ends-distinct :
    (opening pre post released : List String) (id : String)
    → Nodup (opening ++ ((pre ++ id ∷ post) ++ released))
    → (¬ Mem id released) × Nodup (opening ++ ((pre ++ post) ++ id ∷ released))
ends-distinct opening pre post released id h =
    let shaped : Nodup ((opening ++ pre) ++ id ∷ (post ++ released)) =
      rw
        (
          append_assoc opening pre (id ∷ (post ++ released)),
          sym (append_assoc pre (id ∷ post) released),
        )
        h in
    let moved = move_later (opening ++ pre) post released id shaped in
    let (new, _) = pull ((opening ++ pre) ++ post) id released moved in
    (
      (λ m. new (mem-append_right ((opening ++ pre) ++ post) m)),
      rw
          (
            append_assoc pre post (id ∷ released),
            sym (append_assoc opening pre (post ++ id ∷ released)),
            sym (append_assoc (opening ++ pre) post (id ∷ released)),
          )
          moved,
    )

enter_fields :
    (id : String) (m : CaptureManager)
    → ((enter id m).in_use ≡ m.in_use)
      × ((enter id m).max_concurrent ≡ m.max_concurrent)
      × ((enter id m).released ≡ m.released)
enter_fields id m = elim (Bool-cases m.closed) [
  | inl closed ↦ rw closed (refl, refl, refl)
  | inr open_yet ↦ rw open_yet (refl, refl, refl)
]

move-Places :
    (bound : ℕ) (w w' : CaptureWorld) → Places bound w → CaptureMove w w' → Places bound w'
move-Places bound w w' v (begins m taken e) =
    let (more, most, same, kept) = take_fields w.manager m taken in
    subst (Places bound) (sym e) (record {
      used = omega (arith, v.used, more);
      bounded = omega (arith, most, v.same_bound);
      same_bound = same ∙ v.same_bound;
      distinct = rw kept v.distinct;
    })
move-Places bound w w' v (finds_closed m p one _ given e) =
    let (less, same, kept) = give_fields w.manager m given in
    subst (Places bound) (sym e) (record {
      used = omega (arith, v.used, less, one);
      bounded = omega (arith, v.bounded, less);
      same_bound = same ∙ v.same_bound;
      distinct = rw kept v.distinct;
    })
move-Places bound w w' v (draws id p one _ new e) = subst (Places bound) (sym e) (record {
  used = omega (arith, v.used, one);
  bounded = v.bounded;
  same_bound = v.same_bound;
  distinct = Nodup-cons.1 (new, v.distinct);
})
move-Places bound w w' v (fails m id pre post at given e) =
    let (less, same, kept) = give_fields w.manager m given in
    let rest = w.live ++ w.manager.released in
    let distinct = subst (λ o. Nodup (o ++ rest)) at v.distinct in
    let (_, without) =
      pull pre id (post ++ rest) (rw⁻¹ (append_assoc pre (id ∷ post) rest) distinct) in
    subst (Places bound) (sym e) (record {
      used = omega (arith, v.used, less, length-pull w.opening pre post id at);
      bounded = omega (arith, v.bounded, less);
      same_bound = same ∙ v.same_bound;
      distinct = rw (kept, append_assoc pre post rest) without;
    })
move-Places bound w w' v (starts id pre post at e) =
    let rest = w.live ++ w.manager.released in
    let distinct = subst (λ o. Nodup (o ++ rest)) at v.distinct in
    subst (Places bound) (sym e) (record {
      used = omega (arith, v.used, length-pull w.opening pre post id at);
      bounded = v.bounded;
      same_bound = v.same_bound;
      distinct = move_later pre post rest id (rw⁻¹ (append_assoc pre (id ∷ post) rest) distinct);
    })
move-Places bound w w' v (enters id e) =
    let (same_use, same_most, kept) = enter_fields id w.manager in
    subst (Places bound) (sym e) (record {
      used = omega (arith, v.used, same_use);
      bounded = omega (arith, v.bounded, same_use);
      same_bound = same_most ∙ v.same_bound;
      distinct = rw kept v.distinct;
    })
move-Places bound w w' v (ends m id pre post at released e) =
    let distinct = subst (λ l. Nodup (w.opening ++ (l ++ w.manager.released))) at v.distinct in
    let (new, moved) = ends-distinct w.opening pre post w.manager.released id distinct in
    let (less, same, marked) = release_fields w.manager m id new released in
    subst (Places bound) (sym e) (record {
      used = omega (arith, v.used, less, length-pull w.live pre post id at);
      bounded = omega (arith, v.bounded, less);
      same_bound = same ∙ v.same_bound;
      distinct = rw marked moved;
    })
move-Places bound w w' v (closes e) = subst (Places bound) (sym e) (record {
  used = v.used;
  bounded = v.bounded;
  same_bound = v.same_bound;
  distinct = v.distinct;
})

-- A manager without sessions.
abbrev pub new_world : ℤ → CaptureWorld
new_world bound = record {
  manager = new_capture_manager bound;
  reserved = 0;
  opening = [];
  live = [];
}

pub reach-Places :
    (bound : ℕ) (w w' : CaptureWorld) → Places bound w → CaptureReach w w' → Places bound w'
reach-Places bound w w' v here = v
reach-Places bound w w' v (next {u} r m) = move-Places bound u w' (reach-Places bound w u v r) m
