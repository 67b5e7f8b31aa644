-- ===== src/Evaluation/Metrics/Metric.antt =====
-- The edit distance is a metric on lists, within bounds that the lengths give.
use jpapt_v2_2_inspection.Base.{
  ℕ, ◌+◌, ◌-◌, ◌≤◌, max, ◌≡◌, ◌↔◌, Bool, true, List, [], ◌∷◌, subst, arith, length,
}
use jpapt_v2_2_inspection.Evaluation.Metrics.{edit_distance}
use jpapt_v2_2_inspection.Evaluation.Metrics.Alignment.{
  Align, done, replace, insert, delete, Align-flip, Align-refl, Align-lengths, Align-zero,
  Align-trans,
}
use jpapt_v2_2_inspection.Evaluation.Metrics.Distance.{IsLeastCost, edit_distance-IsLeastCost}

-- Replacing item by item, then inserting or deleting the rest.
Align_longest : {A : Type 0} (xs ys : List A) → Align xs ys (max (length xs) (length ys))
Align_longest [] [] = subst (Align [] []) (omega arith) done
Align_longest [] (y ∷ ys) = subst (Align [] (y ∷ ys)) (omega arith) (insert y (Align_longest [] ys))
Align_longest (x ∷ xs) [] = subst (Align (x ∷ xs) []) (omega arith) (delete x (Align_longest xs []))
Align_longest (x ∷ xs) (y ∷ ys) =
    subst (Align (x ∷ xs) (y ∷ ys)) (omega arith) (replace x y (Align_longest xs ys))

module _ {A : Type 0} (same : A → A → Bool)
    (same_iff : (x y : A) → (same x y ≡ true) ↔ (x ≡ y)) where
  least_cost : (xs ys : List A) → IsLeastCost same same_iff xs ys (edit_distance same xs ys)
  least_cost = edit_distance-IsLeastCost same same_iff

  -- The laws of a metric, and bounds by the lengths.
  pub record IsMetric (d : List A → List A → ℕ) : Type 0 where
    pub zero_iff : (xs ys : List A) → (d xs ys ≡ 0) ↔ (xs ≡ ys)
    pub symmetric : (xs ys : List A) → d xs ys ≡ d ys xs
    pub triangle : (xs ys zs : List A) → d xs zs ≤ d xs ys + d ys zs
    pub gap : (xs ys : List A) → length xs - length ys ≤ d xs ys
    pub longest : (xs ys : List A) → d xs ys ≤ max (length xs) (length ys)

  flipped-le : (xs ys : List A) → edit_distance same xs ys ≤ edit_distance same ys xs
  flipped-le xs ys = (least_cost xs ys).least _ (Align-flip (least_cost ys xs).script)

  triangle_lem :
      (xs ys zs : List A)
      → edit_distance same xs zs ≤ edit_distance same xs ys + edit_distance same ys zs
  triangle_lem xs ys zs =
      let (k, le, a) = Align-trans (least_cost xs ys).script (least_cost ys zs).script in
      omega (arith, (least_cost xs zs).least k a)

  zero_iff_lem : (xs ys : List A) → (edit_distance same xs ys ≡ 0) ↔ (xs ≡ ys)
  zero_iff_lem xs ys = (
    λ e. Align-zero (subst (Align xs ys) e (least_cost xs ys).script),
    λ e. omega (arith, (least_cost xs ys).least 0 (subst (λ t. Align xs t 0) e (Align-refl xs))),
  )

  -- Where the test on items decides equality, the edit distance is 0 exactly on equal lists, is symmetric,
  -- obeys the triangle inequality, and lies between the difference of the lengths and the longer
  -- length.
  pub edit_distance-IsMetric : IsMetric (edit_distance same)
  edit_distance-IsMetric = record {
    zero_iff = zero_iff_lem;
    symmetric = λ xs ys. omega (arith, flipped-le xs ys, flipped-le ys xs);
    triangle = triangle_lem;
    gap = λ xs ys. omega (arith, Align-lengths (least_cost xs ys).script);
    longest = λ xs ys. (least_cost xs ys).least _ (Align_longest xs ys);
  }
