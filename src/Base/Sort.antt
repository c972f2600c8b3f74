-- ===== src/Base/Sort.antt =====
-- Go's `sort.Slice`, `sort.Strings` and `slices.Sort`, as insertion sort by a `less` function.
-- Where the order is total the result does not depend on the algorithm, nor on the input's order.
use mathlib.Core.Path.{◌≡◌, refl, ap, ◌∙◌, sym}
use mathlib.Core.List.{List, [], ◌∷◌, ◌++◌, Perm, Permᴰ, Memᴰ}
use mathlib.Core.List.Perm
use mathlib.Core.List
use mathlib.Core.Logic.{∥∥₁_elim, inl, inr}
use mathlib.Core.Bool.{Bool, true, false}
use native.Mathlib.Omega.{arith}
use refinery.Base.Lists.{All, length}
use Prim.Native.Nat.{suc}
use refinery.Base.Tests.{if◌then◌else◌, Bool-cases}

module _ {ℓ} {A : Type ℓ} (less : A → A → Bool) where
  unfoldable pub insert : A → List A → List A
  insert x [] = x ∷ []
  insert x (y ∷ ys) = let rest = insert x ys in if less y x then y ∷ rest else x ∷ y ∷ ys

  unfoldable pub sort : List A → List A
  unfolding insert
  sort [] = []
  sort (x ∷ xs) = insert x (sort xs)

  -- No element is below one that stands before it.
  abbrev pub Sorted : List A → Type ℓ
  Sorted [] = Unit
  Sorted (x ∷ xs) = All (λ y. less y x ≡ false) xs × Sorted xs

  insert-perm : (x : A) (ys : List A) → Perm (insert x ys) (x ∷ ys)
  unfolding insert
  insert-perm x [] = Perm.refl (x ∷ [])
  insert-perm x (y ∷ ys) = elim (Bool-cases (less y x)) [
    | inl p ↦ rw p (Perm.trans (Perm.cons y (insert-perm x ys)) (Perm.swap x y ys))
    | inr p ↦ rw p (Perm.refl (x ∷ y ∷ ys))
  ]

  -- Sorting only reorders.
  pub sort-perm : (xs : List A) → Perm (sort xs) xs
  unfolding sort
  sort-perm [] = Perm.refl []
  sort-perm (x ∷ xs) = Perm.trans (insert-perm x (sort xs)) (Perm.cons x (sort-perm xs))

  -- A strict weak order, which is what Go asks of a `less` function.
  length-insert : (x : A) (ys : List A) → length (insert x ys) ≡ suc (length ys)
  unfolding insert
  length-insert x [] = refl
  length-insert x (y ∷ ys) = elim (Bool-cases (less y x)) [
    | inl e ↦ rw e (ap suc (length-insert x ys))
    | inr e ↦ rw e refl
  ]

  pub length-sort : (xs : List A) → length (sort xs) ≡ length xs
  unfolding sort
  length-sort [] = refl
  length-sort (x ∷ xs) = length-insert x (sort xs) ∙ ap suc (length-sort xs)

pub record StrictWeak {ℓ} {A : Type ℓ} (less : A → A → Bool) : Type ℓ where
  pub asym : (x y : A) → less x y ≡ true → less y x ≡ false
  pub negtrans : (x y z : A) → less y x ≡ false → less z y ≡ false → less z x ≡ false

-- A strict total order.
pub record StrictTotal {ℓ} {A : Type ℓ} (less : A → A → Bool) : Type ℓ where
  pub weak : StrictWeak less
  pub connected : (x y : A) → less x y ≡ false → less y x ≡ false → x ≡ y

module _ {ℓ κ} {A : Type ℓ} (less : A → A → Bool) (P : A → Type κ) where
  All-insert : (x : A) (ys : List A) → P x → All P ys → All P (insert less x ys)
  unfolding insert
  All-insert x [] p h = (p, tt)
  All-insert x (y ∷ ys) p h = elim (Bool-cases (less y x)) [
    | inl e ↦ rw e (h.0, All-insert x ys p h.1)
    | inr e ↦ rw e (p, h)
  ]

  pub All-sort : (xs : List A) → All P xs → All P (sort less xs)
  unfolding sort
  All-sort [] h = tt
  All-sort (x ∷ xs) h = All-insert x (sort less xs) h.0 (All-sort xs h.1)

module _ {ℓ} {A : Type ℓ} (less : A → A → Bool) (o : StrictWeak less) where
  above :
      (x y : A) (ys : List A)
      → less y x ≡ false
      → All (λ z. less z y ≡ false) ys
      → All (λ z. less z x ≡ false) ys
  above x y [] e h = tt
  above x y (z ∷ ys) e h = (o.negtrans x y z e h.0, above x y ys e h.1)

  insert-Sorted : (x : A) (ys : List A) → Sorted less ys → Sorted less (insert less x ys)
  unfolding insert
  insert-Sorted x [] s = (tt, tt)
  insert-Sorted x (y ∷ ys) s = elim (Bool-cases (less y x)) [
    | inl e ↦
        rw e
          (All-insert less (λ z. less z y ≡ false) x ys (o.asym y x e) s.0, insert-Sorted x ys s.1)
    | inr e ↦ rw e ((e, above x y ys e s.0), s)
  ]

  -- The result is in order.
  pub sort-Sorted : (xs : List A) → Sorted less (sort less xs)
  unfolding sort
  sort-Sorted [] = tt
  sort-Sorted (x ∷ xs) = insert-Sorted x (sort less xs) (sort-Sorted xs)

module _ {ℓ} {A : Type ℓ} (less : A → A → Bool) (o : StrictTotal less) where
  open o use {weak, connected}

  insert_comm :
      (x y : A) (l : List A)
      → less y x ≡ false
      → insert less x (insert less y l) ≡ insert less y (insert less x l)
  unfolding insert
  insert_comm x y [] e = ground (arith, weak.asym x y, connected x y)
  insert_comm x y (z ∷ l) e = ground (
    arith,
    insert_comm x y l e,
    weak.asym x y,
    connected x y,
    weak.negtrans x y z,
    weak.asym z x,
    weak.asym z y,
    weak.negtrans x z y,
  )

  insert_swap :
      (x y : A) (l : List A) → insert less x (insert less y l) ≡ insert less y (insert less x l)
  insert_swap x y l = elim (Bool-cases (less y x)) [
    | inl e ↦ sym (insert_comm y x l (weak.asym y x e))
    | inr e ↦ insert_comm x y l e
  ]

  sort-permᴰ : {xs ys : List A} → Permᴰ xs ys → sort less xs ≡ sort less ys
  unfolding sort
  sort-permᴰ Permᴰ.nil = refl
  sort-permᴰ (Permᴰ.cons {l₂ = l} e p) = rw (sort-permᴰ p) (ap (λ a. insert less a (sort less l)) e)
  sort-permᴰ (Permᴰ.swap {a} {b} {l = l} e f) = rw (e, f) (insert_swap _ _ (sort less l))
  sort-permᴰ (Permᴰ.trans p q) = sort-permᴰ p ∙ sort-permᴰ q

  -- By a total order, lists with the same elements are sorted to the same list.
  pub sort-eq_of_perm : IsSet A → (xs ys : List A) → Perm xs ys → sort less xs ≡ sort less ys
  sort-eq_of_perm h xs ys p =
      ∥∥₁_elim p (List.is_set h (sort less xs) (sort less ys)) (λ q. sort-permᴰ q)
