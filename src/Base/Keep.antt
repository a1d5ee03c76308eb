-- ===== src/Base/Keep.antt =====
-- The loop that changes each item and keeps those that pass a test.
use mathlib.Core.Path.{◌≡◌, sym}
use mathlib.Core.Bool.{Bool, true}
use mathlib.Core.Logic.{inl, inr}
use mathlib.Core.Logic.Or
use mathlib.Core.List.{
  List, [], ◌∷◌, map, Mem, Mem-prop, not-mem-nil, mem-cons_self, mem-cons_of_mem,
  eq-or-mem_of_mem-cons,
}
use tadori.Base.Tests.{if◌then◌else◌, Bool-cases}

module _ {ℓ} {A : Type ℓ} (change : A → A) (test : A → Bool) where
  abbrev pub keep : List A → List A
  keep [] = []
  keep (x ∷ xs) = let rest = keep xs in if test (change x) then change x ∷ rest else rest

  pub Mem-keep_of :
      (xs : List A) (x : A) → Mem x xs → test (change x) ≡ true → Mem (change x) (keep xs)
  Mem-keep_of [] x m h = absurd (not-mem-nil m)
  Mem-keep_of (y ∷ ys) x m h =
      Or.elim Mem-prop (eq-or-mem_of_mem-cons m) (λ e. rw (sym e, h) mem-cons_self)
        (λ m'.
          let rest = Mem-keep_of ys x m' h in
          elim (Bool-cases (test (change y))) [
            | inl k ↦ rw k (mem-cons_of_mem (change y) rest)
            | inr k ↦ rw k rest
          ])

  -- What is kept comes from the list.
  pub Mem-keep : (xs : List A) (c : A) → Mem c (keep xs) → Mem c (map change xs)
  Mem-keep [] c m = m
  Mem-keep (y ∷ ys) c m = elim (Bool-cases (test (change y))) [
    | inr k ↦ mem-cons_of_mem (change y) (Mem-keep ys c (rw k at m))
    | inl k ↦
        Or.elim Mem-prop (eq-or-mem_of_mem-cons (rw k at m)) (λ e. rw e mem-cons_self)
          (λ m'. mem-cons_of_mem (change y) (Mem-keep ys c m'))
  ]

  -- What is kept passes the test.
  pub test-keep : (xs : List A) (c : A) → Mem c (keep xs) → test c ≡ true
  test-keep [] c m = absurd (not-mem-nil m)
  test-keep (y ∷ ys) c m = elim (Bool-cases (test (change y))) [
    | inr k ↦ test-keep ys c (rw k at m)
    | inl k ↦
        Or.elim (hlevel) (eq-or-mem_of_mem-cons (rw k at m)) (λ e. rw e k) (λ m'. test-keep ys c m')
  ]
