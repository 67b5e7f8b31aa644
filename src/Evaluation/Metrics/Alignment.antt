-- ===== src/Evaluation/Metrics/Alignment.antt =====
-- The edit scripts between two lists, and the least cost of one by recursion.
use jpapt_v2_2_inspection.Base.{ℕ, suc, ◌+◌, ◌≤◌, ◌≡◌, refl, sym, ◌∙◌, List, [], ◌∷◌, arith, length}

-- A script that turns one list into the other at a cost: one for each item that is replaced,
-- inserted or deleted.
pub data Align {A : Type 0} : List A → List A → ℕ → Type 0 where
  done : Align [] [] 0
  keep : (x y : A) {xs ys : List A} {n : ℕ} → x ≡ y → Align xs ys n → Align (x ∷ xs) (y ∷ ys) n
  replace : (x y : A) {xs ys : List A} {n : ℕ} → Align xs ys n → Align (x ∷ xs) (y ∷ ys) (suc n)
  insert : (y : A) {xs ys : List A} {n : ℕ} → Align xs ys n → Align xs (y ∷ ys) (suc n)
  delete : (x : A) {xs ys : List A} {n : ℕ} → Align xs ys n → Align (x ∷ xs) ys (suc n)

pub Align-flip : {A : Type 0} {xs ys : List A} {n : ℕ} → Align xs ys n → Align ys xs n
Align-flip done = done
Align-flip (keep x y e a) = keep y x (sym e) (Align-flip a)
Align-flip (replace x y a) = replace y x (Align-flip a)
Align-flip (insert y a) = delete y (Align-flip a)
Align-flip (delete x a) = insert x (Align-flip a)

pub Align-refl : {A : Type 0} (xs : List A) → Align xs xs 0
Align-refl [] = done
Align-refl (x ∷ xs) = keep x x refl (Align-refl xs)

pub Align-lengths :
    {A : Type 0} {xs ys : List A} {n : ℕ}
    → Align xs ys n
    → (length xs ≤ length ys + n) × (length ys ≤ length xs + n)
Align-lengths done = omega arith
Align-lengths (keep x y e a) = omega (arith, Align-lengths a)
Align-lengths (replace x y a) = omega (arith, Align-lengths a)
Align-lengths (insert y a) = omega (arith, Align-lengths a)
Align-lengths (delete x a) = omega (arith, Align-lengths a)

Align-zero_at : {A : Type 0} {xs ys : List A} {n : ℕ} → Align xs ys n → n ≡ 0 → xs ≡ ys
Align-zero_at done z = refl
Align-zero_at (keep x y e a) z = λ i. e i ∷ Align-zero_at a z i
Align-zero_at (replace x y a) z = absurd (omega arith)
Align-zero_at (insert y a) z = absurd (omega arith)
Align-zero_at (delete x a) z = absurd (omega arith)

pub Align-zero : {A : Type 0} {xs ys : List A} → Align xs ys 0 → xs ≡ ys
Align-zero a = Align-zero_at a refl

-- Scripts one after the other: no script is shorter than the detour through a third list.
pub Align-trans :
    {A : Type 0} {xs ys zs : List A} {n m : ℕ}
    → Align xs ys n
    → Align ys zs m
    → (k : ℕ) × (k ≤ n + m) × Align xs zs k
Align-trans done b = (_, omega arith, b)
Align-trans (delete x a) b = let (k, le, c) = Align-trans a b in (suc k, omega arith, delete x c)
Align-trans a (insert z b) = let (k, le, c) = Align-trans a b in (suc k, omega arith, insert z c)
Align-trans (keep x y e a) (keep y' z e' b) =
    let (k, le, c) = Align-trans a b in (k, omega arith, keep x z (e ∙ e') c)
Align-trans (keep x y e a) (replace y' z b) =
    let (k, le, c) = Align-trans a b in (suc k, omega arith, replace x z c)
Align-trans (keep x y e a) (delete y' b) =
    let (k, le, c) = Align-trans a b in (suc k, omega arith, delete x c)
Align-trans (replace x y a) (keep y' z e' b) =
    let (k, le, c) = Align-trans a b in (suc k, omega arith, replace x z c)
Align-trans (replace x y a) (replace y' z b) =
    let (k, le, c) = Align-trans a b in (suc k, omega arith, replace x z c)
Align-trans (replace x y a) (delete y' b) =
    let (k, le, c) = Align-trans a b in (suc k, omega arith, delete x c)
Align-trans (insert y a) (keep y' z e' b) =
    let (k, le, c) = Align-trans a b in (suc k, omega arith, insert z c)
Align-trans (insert y a) (replace y' z b) =
    let (k, le, c) = Align-trans a b in (suc k, omega arith, insert z c)
Align-trans (insert y a) (delete y' b) = let (k, le, c) = Align-trans a b in (k, omega arith, c)
