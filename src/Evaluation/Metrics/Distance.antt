-- ===== src/Evaluation/Metrics/Distance.antt =====
-- The rolling rows compute the least cost of an edit script.
use native.Mathlib.Decide.{dec_le}
use native.Mathlib.Numerals.{add-one}
use jpapt_v2_2_inspection.Base.{
  ℕ, suc, ◌+◌, ◌≤◌, min, ◌≡◌, refl, sym, ap, subst, ◌∙◌, ◌↔◌, Bool, true, false, List, [], ◌∷◌,
  ◌++◌, append-nil, arith, length, if◌then◌else◌,
}
use jpapt_v2_2_inspection.Evaluation.Metrics.{cost, fill_row, edit_rows, range, last, edit_distance}
use jpapt_v2_2_inspection.Evaluation.Metrics.Alignment.{Align, done, keep, replace, insert, delete}

-- The items of a list put in front of another, the last one first.
abbrev pub rev_onto : {A : Type 0} → List A → List A → List A
rev_onto [] r = r
rev_onto (x ∷ xs) r = rev_onto xs (x ∷ r)

rev_onto-rev_onto :
    {A : Type 0} (xs r q : List A) → rev_onto (rev_onto xs r) q ≡ rev_onto r (xs ++ q)
rev_onto-rev_onto [] r q = refl
rev_onto-rev_onto (x ∷ xs) r q = rev_onto-rev_onto xs (x ∷ r) q

rev_onto_twice : {A : Type 0} (xs : List A) → rev_onto (rev_onto xs []) [] ≡ xs
rev_onto_twice xs = rev_onto-rev_onto xs [] [] ∙ append-nil xs

length-rev_onto : {A : Type 0} (xs r : List A) → length (rev_onto xs r) ≡ length xs + length r
length-rev_onto [] r = omega arith
length-rev_onto (x ∷ xs) r = omega (arith, length-rev_onto xs (x ∷ r))

Align-rev_onto :
    {A : Type 0} {xs ys : List A} {n : ℕ} (r q : List A) (m : ℕ)
    → Align xs ys n
    → Align r q m
    → Align (rev_onto xs r) (rev_onto ys q) (n + m)
Align-rev_onto r q m done b = subst (Align r q) (omega arith) b
Align-rev_onto r q m (keep x y e a) b = Align-rev_onto (x ∷ r) (y ∷ q) m a (keep x y e b)
Align-rev_onto r q m (replace x y {xs = s} {ys = t} {n = k} a) b =
    subst (Align (rev_onto s (x ∷ r)) (rev_onto t (y ∷ q))) (omega arith)
      (Align-rev_onto (x ∷ r) (y ∷ q) (suc m) a (replace x y b))
Align-rev_onto r q m (insert y {xs = s} {ys = t} {n = k} a) b =
    subst (Align (rev_onto s r) (rev_onto t (y ∷ q))) (omega arith)
      (Align-rev_onto r (y ∷ q) (suc m) a (insert y b))
Align-rev_onto r q m (delete x {xs = s} {ys = t} {n = k} a) b =
    subst (Align (rev_onto s (x ∷ r)) (rev_onto t q)) (omega arith)
      (Align-rev_onto (x ∷ r) q (suc m) a (delete x b))

Align-reverse :
    {A : Type 0} {xs ys : List A} {n : ℕ}
    → Align xs ys n
    → Align (rev_onto xs []) (rev_onto ys []) n
Align-reverse {xs} {ys} {n} a =
    subst (Align (rev_onto xs []) (rev_onto ys [])) (omega arith) (Align-rev_onto [] [] 0 a done)

min_case : (P : ℕ → Type 0) (a b : ℕ) → P a → P b → P (min a b)
min_case P a b p q = elim (dec_le a b) [
  | yes h ↦ subst P (omega arith) p
  | no h ↦ subst P (omega arith) q
]

module _ {A : Type 0} (same : A → A → Bool) where
  -- The cell of the table for two prefixes, given last item first.
  lev : List A → List A → ℕ
  lev [] q = length q
  lev (x ∷ r) [] = length (x ∷ r)
  lev (x ∷ r) (y ∷ q) = min (min (lev r q + cost same x y) (lev (x ∷ r) q + 1)) (lev r (y ∷ q) + 1)

  -- The rest of the row of `r` after its cell for `q`.
  row_after : List A → List A → List A → List ℕ
  row_after r q [] = []
  row_after r q (y ∷ ys) = lev r (y ∷ q) ∷ row_after r (y ∷ q) ys

  fill_row-row_after :
      (x : A) (r q ys : List A)
      → fill_row same x (lev (x ∷ r) q) (lev r q ∷ row_after r q ys) ys ≡ row_after (x ∷ r) q ys
  unfolding fill_row row_after lev
  fill_row-row_after x r q [] = refl
  fill_row-row_after x r q (y ∷ ys) =
      ap (λ (l : List ℕ). lev (x ∷ r) (y ∷ q) ∷ l) (fill_row-row_after x r (y ∷ q) ys)

  range-row_after : (q ys : List A) → range (suc (length q)) (length ys) ≡ row_after [] q ys
  unfolding range row_after lev
  range-row_after q [] = refl
  range-row_after q (y ∷ ys) = ap (λ (l : List ℕ). suc (length q) ∷ l) (range-row_after (y ∷ q) ys)

  edit_rows-row_after :
      (xs r ys : List A)
      → edit_rows same (suc (length r)) (lev r [] ∷ row_after r [] ys) xs ys
        ≡ lev (rev_onto xs r) [] ∷ row_after (rev_onto xs r) [] ys
  unfolding edit_rows lev
  edit_rows-row_after [] r ys = refl
  edit_rows-row_after (x ∷ xs) r ys =
      ap (λ (row : List ℕ). edit_rows same (length (x ∷ r) + 1) (length (x ∷ r) ∷ row) xs ys)
        (fill_row-row_after x r [] ys)
      ∙ rw add-one (edit_rows-row_after xs (x ∷ r) ys)

  last-row_after : (r q ys : List A) → last (lev r q ∷ row_after r q ys) ≡ lev r (rev_onto ys q)
  unfolding last row_after
  last-row_after r q [] = refl
  last-row_after r q (y ∷ ys) = last-row_after r (y ∷ q) ys

  lev-nil : (r : List A) → lev r [] ≡ length r
  unfolding lev
  lev-nil [] = refl
  lev-nil (x ∷ r) = refl

  range-first : (ys : List A) → range 0 (length ys + 1) ≡ lev [] [] ∷ row_after [] [] ys
  unfolding range lev
  range-first ys = rw add-one (ap (λ (l : List ℕ). 0 ∷ l) (range-row_after [] ys))

  edit_distance-lev :
      (xs ys : List A) → edit_distance same xs ys ≡ lev (rev_onto xs []) (rev_onto ys [])
  unfolding edit_distance lev
  edit_distance-lev [] ys = omega (arith, length-rev_onto ys [])
  edit_distance-lev (x ∷ xs) [] =
      sym (lev-nil (rev_onto xs (x ∷ [])) ∙ length-rev_onto xs (x ∷ []) ∙ omega arith)
  edit_distance-lev (x ∷ xs) (y ∷ ys) =
      ap (λ row. last (edit_rows same 1 row (x ∷ xs) (y ∷ ys))) (range-first (y ∷ ys))
      ∙ ap last (edit_rows-row_after (x ∷ xs) [] (y ∷ ys))
      ∙ last-row_after (rev_onto (x ∷ xs) []) [] (y ∷ ys)

module _ {A : Type 0} (same : A → A → Bool)
    (same_iff : (x y : A) → (same x y ≡ true) ↔ (x ≡ y)) where
  lev-Align : (r q : List A) → Align r q (lev same r q)
  unfolding lev
  lev-Align [] [] = done
  lev-Align [] (y ∷ q) = insert y (lev-Align [] q)
  lev-Align (x ∷ r) [] = delete x (subst (Align r []) (lev-nil same r) (lev-Align r []))
  lev-Align (x ∷ r) (y ∷ q) =
      min_case (Align (x ∷ r) (y ∷ q)) _ _
        (min_case (Align (x ∷ r) (y ∷ q)) _ _ (replace_or_keep (same x y) refl (lev-Align r q))
          (subst (Align (x ∷ r) (y ∷ q)) (omega arith) (insert y (lev-Align (x ∷ r) q))))
        (subst (Align (x ∷ r) (y ∷ q)) (omega arith) (delete x (lev-Align r (y ∷ q))))
    where
      replace_or_keep :
          (b : Bool)
          → same x y ≡ b
          → Align r q (lev same r q)
          → Align (x ∷ r) (y ∷ q) (lev same r q + (if b then 0 else 1))
      replace_or_keep true e a =
          subst (Align (x ∷ r) (y ∷ q)) (omega arith) (keep x y ((same_iff x y).0 e) a)
      replace_or_keep false e a = subst (Align (x ∷ r) (y ∷ q)) (omega arith) (replace x y a)

  cost_keep : (x y : A) → x ≡ y → cost same x y ≡ 0
  cost_keep x y e = rw ((same_iff x y).1 e)

  cost-le : (x y : A) → cost same x y ≤ 1
  cost-le x y = ground arith

  lev-le : (r q : List A) {n : ℕ} → Align r q n → lev same r q ≤ n
  unfolding lev
  lev-le _ _ done = omega arith
  lev-le _ _ (keep x y {xs = r} {ys = q} e a) = omega (arith, lev-le r q a, cost_keep x y e)
  lev-le _ _ (replace x y {xs = r} {ys = q} a) = omega (arith, lev-le r q a, cost-le x y)
  lev-le [] _ (insert y {ys = q} a) = omega (arith, lev-le [] q a)
  lev-le (x ∷ r) _ (insert y {ys = q} a) = omega (arith, lev-le (x ∷ r) q a)
  lev-le _ [] (delete x {xs = r} a) = omega (arith, lev-le r [] a, lev-nil same r)
  lev-le _ (y ∷ q) (delete x {xs = r} a) = omega (arith, lev-le r (y ∷ q) a)

  -- The cost of the cheapest script from one list to the other.
  pub record IsLeastCost (xs ys : List A) (d : ℕ) : Type 0 where
    pub script : Align xs ys d
    pub least : (n : ℕ) → Align xs ys n → d ≤ n

  -- Where the test on items decides equality, `edit_distance` is the cost of an edit script from the
  -- reference to the hypothesis, and no such script costs less.
  pub edit_distance-IsLeastCost :
      (reference hypothesis : List A)
      → IsLeastCost reference hypothesis (edit_distance same reference hypothesis)
  edit_distance-IsLeastCost xs ys = rw (edit_distance-lev same xs ys) (record {
    script =
        subst (λ s. Align s ys (lev same (rev_onto xs []) (rev_onto ys []))) (rev_onto_twice xs)
          (subst
            (λ t.
              Align (rev_onto (rev_onto xs []) []) t (lev same (rev_onto xs []) (rev_onto ys [])))
            (rev_onto_twice ys) (Align-reverse (lev-Align (rev_onto xs []) (rev_onto ys []))));
    least = λ n a. lev-le _ _ (Align-reverse a);
  })
