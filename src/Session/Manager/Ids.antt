-- ===== src/Session/Manager/Ids.antt =====
-- `uniqueIDLocked`: its identifier is new, and the loop that has no bound ends.
use tadori.Base.{
  ℕ, zero, suc, ◌+◌, ◌≤◌, ◌<◌, ◌≡◌, ◌≢◌, refl, sym, ◌∙◌, Bool, true, false, some, List, [], ◌∷◌,
  arith, length, ltb, String, str_eq, eq_iff, Bool-cases, inl, inr, if◌then◌else◌, subst,
}
use tadori.Session.Manager.{
  Entry, find, is_known, search_id, attempt_id, unique_id, IdSource, default_id,
}

-- An injective source with its value at `j` left out.
skip : (ℕ → String) → ℕ → ℕ → String
skip f j k = f (if ltb k j then k else k + 1)

-- The values up to `n` are distinct.
abbrev pub AreDistinct : ℕ → (ℕ → String) → Type 0
AreDistinct n f = (a b : ℕ) → a ≤ n → b ≤ n → f a ≡ f b → a ≡ b

skip-AreDistinct :
    (n : ℕ) (f : ℕ → String) (j : ℕ) → AreDistinct (suc n) f → AreDistinct n (skip f j)
unfolding skip
skip-AreDistinct n f j h a b p q e =
    let same =
      h (if ltb a j then a else a + 1) (if ltb b j then b else b + 1) (ground arith) (ground arith)
        e in
    ground arith

is_known-cons :
    (id : String) (e : Entry) (es : List Entry)
    → e.session.id ≢ id
    → is_known id es ≡ false
    → is_known id (e ∷ es) ≡ false
unfolding find
is_known-cons id e es n k = ground (arith, eq_iff e.session.id id)

skip-ne :
    (n : ℕ) (f : ℕ → String) (j k : ℕ) → AreDistinct (suc n) f → j ≤ n → k ≤ n → skip f j k ≢ f j
unfolding skip
skip-ne n f j k h p q e =
    let same = h (if ltb k j then k else k + 1) j (ground arith) (omega arith) e in
    absurd (ground arith)

-- Of one more identifier than there are sessions, one is unknown.
unknown_id :
    (es : List Entry) (f : ℕ → String)
    → AreDistinct (length es) f
    → (j : ℕ) × (j ≤ length es) × (is_known (f j) es ≡ false)
unfolding find skip
unknown_id [] f h = (0, omega arith, refl)
unknown_id (e ∷ es) f h =
    let (j, small, new) = unknown_id es f (λ a b p q. h a b (omega arith) (omega arith)) in
    let (k, small', new') = unknown_id es (skip f j) (skip-AreDistinct (length es) f j h) in
    elim (Bool-cases (str_eq e.session.id (f j))) [
      | inr other ↦ (
        j,
        omega arith,
        is_known-cons (f j) e es (λ p. absurd (ground (arith, eq_iff e.session.id (f j)))) new,
      )
      | inl same ↦ (
        (if ltb k j then k else k + 1),
        ground arith,
        is_known-cons (skip f j k) e es
            (λ p.
              skip-ne (length es) f j k h small small' (sym p ∙ (eq_iff e.session.id (f j)).0 same))
            new',
      )
    ]

search_id-some :
    (es : List Entry) (f : ℕ → String) (fuel k j : ℕ)
    → j < fuel
    → is_known (f (k + j)) es ≡ false
    → (id : String) × (search_id fuel f k es ≡ some id) × (is_known id es ≡ false)
unfolding search_id
search_id-some es f zero k j b n = absurd (omega arith)
search_id-some es f (suc fuel) k zero b n =
    let here : k + 0 ≡ k = omega arith in
    let new : is_known (f k) es ≡ false = subst (λ i. is_known (f i) es ≡ false) here n in
    (f k, found (f k) new, new)
  where
    found :
        (id : String)
        → is_known id es ≡ false
        → (if is_known id es then search_id fuel f (k + 1) es else some id) ≡ some id
    found id new = ground (arith, new)
search_id-some es f (suc fuel) k (suc j) b n =
    let onward : k + suc j ≡ k + 1 + j = omega arith in
    step (f k) (is_known (f k) es) refl (
      search_id-some es f fuel (k + 1) j (omega arith)
        (subst (λ i. is_known (f i) es ≡ false) onward n))
  where
    step :
        (id : String) (known : Bool)
        → is_known id es ≡ known
        → (id' : String) × (search_id fuel f (k + 1) es ≡ some id') × (is_known id' es ≡ false)
        → (id' : String) × ((if known then search_id fuel f (k + 1) es else some id) ≡ some id')
          × (is_known id' es ≡ false)
    step id true e rest = rest
    step id false e rest = (id, refl, e)

attempt_id-some :
    (es : List Entry) (f g : ℕ → String) (most attempts k n : ℕ)
    → n + attempts ≤ most
    → AreDistinct (most + length es) f
    → (id : String) × (attempt_id attempts (length es + 1) g f k n es ≡ some id)
      × (is_known id es ≡ false)
unfolding attempt_id
attempt_id-some es f g most zero k n few h =
    let (j, small, new) =
      unknown_id es (λ j. f (n + j))
        λ a b p q e. let same = h (n + a) (n + b) (omega arith) (omega arith) e in omega arith in
    search_id-some es f (length es + 1) n j (omega arith) new
attempt_id-some es f g most (suc attempts) k n few h =
    step (if str_eq (g k) "" then f n else g k) _ refl (
      attempt_id-some es f g most attempts (k + 1) (if str_eq (g k) "" then n + 1 else n)
        (ground arith) h)
  where
    onward : ℕ
    onward = if str_eq (g k) "" then n + 1 else n

    step :
        (id : String) (known : Bool)
        → is_known id es ≡ known
        → (id' : String) × (attempt_id attempts (length es + 1) g f (k + 1) onward es ≡ some id')
          × (is_known id' es ≡ false)
        → (id' : String) × ((if known
              then attempt_id attempts (length es + 1) g f (k + 1) onward es
              else some id)
            ≡ some id')
          × (is_known id' es ≡ false)
    step id true e rest = rest
    step id false e rest = (id, refl, e)

-- Where the first 17 results of `defaultID` and as many more as there are sessions are distinct,
-- one more turn of the unbounded loop than there are sessions is enough: an identifier is found,
-- whatever `newID` returns, and no session has it.
pub unique_id-some :
    (es : List Entry) (source : IdSource) (new_id : ℕ → String)
    → AreDistinct (16 + length es) (default_id source)
    → (id : String) × (unique_id (length es + 1) new_id source es ≡ some id)
      × (is_known id es ≡ false)
unfolding unique_id
unique_id-some es source new_id h =
    attempt_id-some es (default_id source) new_id 16 16 0 0 (omega arith) h
