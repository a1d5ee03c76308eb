-- ===== src/Batch/Unique.antt =====
-- What `appendUnique` and `failureBoundary` of internal/batch/manager.go give.
use tadori.Base.{
  String, ◌≡◌, refl, sym, ap, ◌∙◌, true, false, not, ◌&&◌, ◌||◌, List, [], ◌∷◌, ◌++◌, append_assoc,
  append-nil, str_eq, eq_iff, arith, Bool-cases, inl, inr, if◌then◌else◌,
}
use tadori.Batch.Boundary.{seen, append_unique}

abbrev pub NoRepeats : List String → Type 0
NoRepeats [] = Unit {0}
NoRepeats (v ∷ vs) = (seen v vs ≡ false) × NoRepeats vs

str_eq_sym : (s t : String) → str_eq s t ≡ str_eq t s
str_eq_sym s t = ground (arith, eq_iff s t, eq_iff t s)

seen-append : (s : String) (xs ys : List String) → seen s (xs ++ ys) ≡ (seen s xs || seen s ys)
seen-append s [] ys = refl
seen-append s (x ∷ xs) ys = ground (arith, seen-append s xs ys)

NoRepeats-append :
    (xs : List String) (a : String) → NoRepeats xs → seen a xs ≡ false → NoRepeats (xs ++ a ∷ [])
NoRepeats-append [] a n h = (refl, tt)
NoRepeats-append (x ∷ xs) a n h = (
  ground (arith, seen-append x xs (a ∷ []), n.0, h, str_eq_sym x a),
  NoRepeats-append xs a n.1 (ground (arith, h)),
)

-- What one more string does to the list.
abbrev pub add_unique : List String → String → List String
add_unique values a = if str_eq a "" || seen a values then values else values ++ a ∷ []

add_unique-NoRepeats :
    (values : List String) (a : String) → NoRepeats values → NoRepeats (add_unique values a)
add_unique-NoRepeats values a n = elim (Bool-cases (str_eq a "" || seen a values)) [
  | inl h ↦ rw h n
  | inr h ↦ rw h (NoRepeats-append values a n (ground (arith, h)))
]

append_unique-NoRepeats :
    (values additions : List String) → NoRepeats values → NoRepeats (append_unique values additions)
unfolding append_unique
append_unique-NoRepeats values [] n = n
append_unique-NoRepeats values (a ∷ additions) n =
    append_unique-NoRepeats (add_unique values a) additions (add_unique-NoRepeats values a n)

add_unique-prefix :
    (values : List String) (a : String)
    → (rest : List String) × (add_unique values a ≡ values ++ rest)
add_unique-prefix values a = elim (Bool-cases (str_eq a "" || seen a values)) [
  | inl h ↦ ([], rw h (sym (append-nil values)))
  | inr h ↦ (a ∷ [], rw h refl)
]

-- The values stay in front.
append_unique-prefix :
    (values additions : List String)
    → (rest : List String) × (append_unique values additions ≡ values ++ rest)
unfolding append_unique
append_unique-prefix values [] = ([], sym (append-nil values))
append_unique-prefix values (a ∷ additions) =
    let (more, e) = add_unique-prefix values a in
    let (rest, e') = append_unique-prefix (add_unique values a) additions in
    (more ++ rest, e' ∙ ap (λ v. v ++ rest) e ∙ append_assoc values more rest)

str_eq_refl : (s : String) → str_eq s s ≡ true
str_eq_refl s = (eq_iff s s).1 refl

add_unique-seen :
    (s : String) (values : List String) (a : String)
    → seen s (add_unique values a) ≡ (seen s values || (not (str_eq s "") && str_eq a s))
add_unique-seen s values a = elim (Bool-cases (str_eq a s)) [
  | inl h ↦
      let e = (eq_iff a s).0 h in
      rw e (ground (arith, str_eq_refl s, seen-append s values (s ∷ [])))
  | inr h ↦ ground (arith, h, seen-append s values (a ∷ []))
]

append_unique-seen :
    (s : String) (values additions : List String)
    → seen s (append_unique values additions)
      ≡ (seen s values || (not (str_eq s "") && seen s additions))
unfolding append_unique
append_unique-seen s values [] = ground arith
append_unique-seen s values (a ∷ additions) =
    ground (arith, append_unique-seen s (add_unique values a) additions, add_unique-seen s values a)

-- On values without repeats `append_unique` gives a list without repeats that begins with the
-- values and holds just the values and the additions that are not empty.
pub append_unique_lem :
    (values additions : List String)
    → NoRepeats values
    → NoRepeats (append_unique values additions)
      × ((rest : List String) × (append_unique values additions ≡ values ++ rest))
      × ((s : String)
          → seen s (append_unique values additions)
            ≡ (seen s values || (not (str_eq s "") && seen s additions)))
append_unique_lem values additions n = (
  append_unique-NoRepeats values additions n,
  append_unique-prefix values additions,
  λ s. append_unique-seen s values additions,
)
