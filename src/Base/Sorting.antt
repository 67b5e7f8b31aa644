-- ===== src/Base/Sorting.antt =====
-- `sorted(xs, key=…)`: a stable insertion sort by a Boolean order on the keys.
use jpapt_v2_2_inspection.Base.Tests.{if◌then◌else◌, Bool-cases}
use jpapt_v2_2_inspection.Base.Lists.{All, All-map, length}
use mathlib.Core.Path.{◌≡◌, refl, ap, ◌∙◌}
use mathlib.Core.Bool.{Bool, true, false, not, ◌&&◌, ◌||◌}
use mathlib.Core.Logic.{inl, inr}
use mathlib.Core.List.{List, [], ◌∷◌, Perm}
use mathlib.Core.List.Perm
use native.Mathlib.Omega.{arith}
use Prim.Native.Nat.{suc}

module _ {ℓ} {A : Type ℓ} (le : A → A → Bool) where
  unfoldable pub insert : A → List A → List A
  insert x [] = x ∷ []
  insert x (y ∷ ys) = if le x y then x ∷ y ∷ ys else y ∷ insert x ys

  unfoldable pub sort : List A → List A
  sort [] = []
  sort (x ∷ xs) = insert x (sort xs)

  -- Every element is below each later one.
  abbrev pub Sorted : List A → Type 0
  Sorted [] = Unit
  Sorted (x ∷ xs) = All (λ y. le x y ≡ true) xs × Sorted xs

  pub insert-perm : (x : A) (xs : List A) → Perm (insert x xs) (x ∷ xs)
  unfolding insert
  insert-perm x [] = Perm.refl _
  insert-perm x (y ∷ ys) = elim (Bool-cases (le x y)) [
    | inl e ↦ rw e (Perm.refl _)
    | inr e ↦ rw e (Perm.trans (Perm.cons y (insert-perm x ys)) (Perm.swap x y ys))
  ]

  pub sort-perm : (xs : List A) → Perm (sort xs) xs
  unfolding sort
  sort-perm [] = Perm.refl _
  sort-perm (x ∷ xs) = Perm.trans (insert-perm x (sort xs)) (Perm.cons x (sort-perm xs))

  pub sort_of_Sorted : (xs : List A) → Sorted xs → sort xs ≡ xs
  unfolding sort insert
  sort_of_Sorted [] h = refl
  sort_of_Sorted (x ∷ []) h = refl
  sort_of_Sorted (x ∷ y ∷ ys) h =
      ap (insert x) (sort_of_Sorted (y ∷ ys) h.1) ∙ (let e = h.0.0 in rw e refl)

  pub length-insert : (x : A) (xs : List A) → length (insert x xs) ≡ suc (length xs)
  unfolding insert
  length-insert x [] = refl
  length-insert x (y ∷ ys) = ground (arith, length-insert x ys)

  pub length-sort : (xs : List A) → length (sort xs) ≡ length xs
  unfolding sort
  length-sort [] = refl
  length-sort (x ∷ xs) = length-insert x (sort xs) ∙ ap suc (length-sort xs)

module _ {ℓ κ} {A : Type ℓ} (le : A → A → Bool) (P : A → Type κ) where
  pub insert-All : (x : A) (xs : List A) → P x → All P xs → All P (insert le x xs)
  unfolding insert
  insert-All x [] p h = (p, tt)
  insert-All x (y ∷ ys) p h = elim (Bool-cases (le x y)) [
    | inl e ↦ rw e (p, h)
    | inr e ↦ rw e (h.0, insert-All x ys p h.1)
  ]

  pub sort-All : (xs : List A) → All P xs → All P (sort le xs)
  unfolding sort
  sort-All [] h = tt
  sort-All (x ∷ xs) h = insert-All x (sort le xs) h.0 (sort-All xs h.1)

-- What `sorted` relies on of the keys' order.
pub record IsTotalOrder {ℓ} {A : Type ℓ} (le : A → A → Bool) : Type ℓ where
  pub trans : (a b c : A) → le a b ≡ true → le b c ≡ true → le a c ≡ true
  pub flip : (a b : A) → le a b ≡ false → le b a ≡ true

module _ {ℓ} {A : Type ℓ} {le : A → A → Bool} (o : IsTotalOrder le) where
  insert-Sorted : (x : A) (xs : List A) → Sorted le xs → Sorted le (insert le x xs)
  unfolding insert
  insert-Sorted x [] h = (tt, tt)
  insert-Sorted x (y ∷ ys) h = elim (Bool-cases (le x y)) [
    | inl e ↦ rw e ((e, All-map (λ z p. o.trans x y z e p) ys h.0), h)
    | inr e ↦
        rw e (insert-All le (λ z. le y z ≡ true) x ys (o.flip x y e) h.0, insert-Sorted x ys h.1)
  ]

  pub sort-Sorted : (xs : List A) → Sorted le (sort le xs)
  unfolding sort
  sort-Sorted [] = tt
  sort-Sorted (x ∷ xs) = insert-Sorted x (sort le xs) (sort-Sorted xs)

-- The order of `(key1, key2)` by the orders of both keys.
abbrev pub then_by {ℓ} : {A : Type ℓ} → (A → A → Bool) → (A → A → Bool) → A → A → Bool
then_by le₁ le₂ a b = le₁ a b && (not (le₁ b a) || le₂ a b)

module _ {ℓ} {A : Type ℓ} (le₁ le₂ : A → A → Bool) (o₁ : IsTotalOrder le₁)
    (o₂ : IsTotalOrder le₂) where
  then_by_trans :
      (a b c : A)
      → then_by le₁ le₂ a b ≡ true
      → then_by le₁ le₂ b c ≡ true
      → then_by le₁ le₂ a c ≡ true
  then_by_trans a b c h k =
      ground (arith, o₁.trans a b c, o₁.trans b c a, o₁.trans c a b, o₂.trans a b c)

  then_by_flip : (a b : A) → then_by le₁ le₂ a b ≡ false → then_by le₁ le₂ b a ≡ true
  then_by_flip a b h = ground (arith, o₁.flip a b, o₁.flip b a, o₂.flip a b)

  pub then_by-order : IsTotalOrder (then_by le₁ le₂)
  then_by-order = record { trans = then_by_trans; flip = then_by_flip }
