-- ===== src/Base/Sort.antt =====
-- `sort.SliceStable` as what it documents: the stable order by a Boolean `less`. The theorems take
-- a relation that may be coarser than `less`.
use mathlib.Core.Path.{◌≡◌}
use mathlib.Core.Bool.{Bool, true, false}
use mathlib.Core.Logic.{inl, inr}
use mathlib.Core.List.{List, [], ◌∷◌, Mem, Perm, Pairwise, Pairwise-singleton, forall_mem-cons}
use mathlib.Core.List.Perm
use tadori.Base.Tests.{if◌then◌else◌, Bool-cases}
use tadori.Base.Lists.{AllOf}

module _ {ℓ} {A : Type ℓ} (less : A → A → Bool) where
  unfoldable pub insert_by : A → List A → List A
  insert_by x [] = x ∷ []
  insert_by x (y ∷ ys) = let rest = insert_by x ys in if less y x then y ∷ rest else x ∷ y ∷ ys

  unfoldable pub sort_by : List A → List A
  sort_by [] = []
  sort_by (x ∷ xs) = insert_by x (sort_by xs)

  insert_by-Perm : (x : A) (l : List A) → Perm (insert_by x l) (x ∷ l)
  unfolding insert_by
  insert_by-Perm x [] = Perm.rfl
  insert_by-Perm x (y ∷ ys) = elim (Bool-cases (less y x)) [
    | inl e ↦ rw e (Perm.trans (Perm.cons y (insert_by-Perm x ys)) (Perm.swap x y ys))
    | inr e ↦ rw e Perm.rfl
  ]

  pub sort_by-Perm : (l : List A) → Perm (sort_by l) l
  unfolding sort_by
  sort_by-Perm [] = Perm.rfl
  sort_by-Perm (x ∷ xs) = Perm.trans (insert_by-Perm x (sort_by xs)) (Perm.cons x (sort_by-Perm xs))

module _ {ℓ} {A : Type ℓ} (less : A → A → Bool) (R : A → A → Type 0)
    (prop : (x y : A) → IsProp (R x y)) (before : (x y : A) → less x y ≡ true → R x y)
    (behind : (x y : A) → less x y ≡ false → R y x)
    (trans : (x y z : A) → R x y → R y z → R x z) where
  Below : A → List A → Type ℓ
  Below a l = (x : A) → Mem x l → R a x

  Below-cons : (a b : A) (l : List A) → R a b → Below a l → Below a (b ∷ l)
  unfolding Below
  Below-cons a b l p h = (forall_mem-cons (prop a)).1 (p, h)

  insert_by-Pairwise : (x : A) (l : List A) → Pairwise R l → Pairwise R (insert_by less x l)
  unfolding insert_by Below
  insert_by-Pairwise x [] s = Pairwise-singleton _ x
  insert_by-Pairwise x (y ∷ ys) (Pairwise.cons below s) = elim (Bool-cases (less y x)) [
    | inl e ↦ rw e (
        Pairwise.cons
          (λ z m.
            Below-cons y x ys (before y x e) below z
              ((Perm.mem_iff (insert_by-Perm less x ys)).0 m))
          (insert_by-Pairwise x ys s))
    | inr e ↦
        let here = behind y x e in
        rw e (
          Pairwise.cons (Below-cons x y ys here (λ z m. trans x y z here (below z m)))
            (Pairwise.cons below s))
  ]

  pub sort_by-Pairwise : (l : List A) → Pairwise R (sort_by less l)
  unfolding sort_by
  sort_by-Pairwise [] = Pairwise.nil
  sort_by-Pairwise (x ∷ xs) = insert_by-Pairwise x (sort_by less xs) (sort_by-Pairwise xs)

-- A sort keeps what holds of every item.
module _ {κ ℓ} {A : Type κ} (less : A → A → Bool) (P : A → Type ℓ) where
  insert_by-AllOf : (x : A) (l : List A) → P x → AllOf P l → AllOf P (insert_by less x l)
  unfolding insert_by
  insert_by-AllOf x [] h hs = (h, tt)
  insert_by-AllOf x (y ∷ ys) h (k, ks) = elim (Bool-cases (less y x)) [
    | inl e ↦ rw e (k, insert_by-AllOf x ys h ks)
    | inr e ↦ rw e (h, (k, ks))
  ]

  pub sort_by-AllOf : (l : List A) → AllOf P l → AllOf P (sort_by less l)
  unfolding sort_by
  sort_by-AllOf [] hs = tt
  sort_by-AllOf (x ∷ xs) (h, hs) = insert_by-AllOf x (sort_by less xs) h (sort_by-AllOf xs hs)
