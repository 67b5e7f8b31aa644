-- ===== src/Lifecycle/Timeline/Sources.antt =====
-- The sources of an event in scripts/ci/build-candidate-request-timeline.py: sorted sets of texts.
use jpapt_v2_2_inspection.Base.{
  ◌≡◌, ◌≢◌, refl, sym, ap, subst, ◌∙◌, String, Bool, true, false, ◌||◌, none, some, inl, inr, List,
  [], ◌∷◌, map, length, any, All, Bool-cases, arith, str_eq, eq_iff,
}
use jpapt_v2_2_inspection.Base.Distinct.{Distinct, distinct, str_eq-sym}
use jpapt_v2_2_inspection.Base.Sorting.{
  sort, insert, sort-Sorted, sort_of_Sorted, sort-All, length-sort,
}
use jpapt_v2_2_inspection.Base.Text.{leb_text, leb_text-order}
use jpapt_v2_2_inspection.Lifecycle.Timeline.{
  texts_json, sorted_set, source_texts, same_texts, sources_valid,
}

pub str_eq_refl : (s : String) → str_eq s s ≡ true
str_eq_refl s = (eq_iff s s).1 refl

-- Sorting by any order keeps texts that are apart apart.
module _ {A : Type 0} (le : A → A → Bool) (text : A → String) where
  any-insert :
      (s : String) (x : A) (xs : List A)
      → any (str_eq s) (map text (insert le x xs))
        ≡ (str_eq s (text x) || any (str_eq s) (map text xs))
  unfolding insert
  any-insert s x [] = refl
  any-insert s x (y ∷ ys) = ground (arith, any-insert s x ys)

  insert-Distinct :
      (x : A) (xs : List A)
      → Distinct (map text xs)
      → any (str_eq (text x)) (map text xs) ≡ false
      → Distinct (map text (insert le x xs))
  unfolding insert
  insert-Distinct x [] d h = (refl, tt)
  insert-Distinct x (y ∷ ys) d h = elim (Bool-cases (le x y)) [
    | inl e ↦ rw e (h, d)
    | inr e ↦
        let (apart, rest) : (str_eq (text x) (text y) ≡ false)
            × (any (str_eq (text x)) (map text ys) ≡ false) =
          ground arith in
        let turned = str_eq-sym (text x) (text y) apart in
        let first = d.0 in
        rw e (any-insert (text y) x ys ∙ rw (turned, first) refl, insert-Distinct x ys d.1 rest)
  ]

  pub any-sort :
      (s : String) (xs : List A)
      → any (str_eq s) (map text (sort le xs)) ≡ any (str_eq s) (map text xs)
  unfolding sort
  any-sort s [] = refl
  any-sort s (x ∷ xs) =
      any-insert s x (sort le xs) ∙ ap (λ b. str_eq s (text x) || b) (any-sort s xs)

  pub sort-Distinct : (xs : List A) → Distinct (map text xs) → Distinct (map text (sort le xs))
  unfolding sort
  sort-Distinct [] d = tt
  sort-Distinct (x ∷ xs) d =
      insert-Distinct x (sort le xs) (sort-Distinct xs d.1) (any-sort (text x) xs ∙ d.0)

pub any-distinct :
    (s : String) (xs : List String)
    → any (str_eq s) xs ≡ false
    → any (str_eq s) (distinct xs) ≡ false
unfolding distinct
any-distinct s [] h = refl
any-distinct s (x ∷ xs) h = ground (arith, any-distinct s xs)

distinct-Distinct : (xs : List String) → Distinct (distinct xs)
unfolding distinct
distinct-Distinct [] = tt
distinct-Distinct (x ∷ xs) = elim (Bool-cases (any (str_eq x) (distinct xs))) [
  | inl e ↦ rw e (distinct-Distinct xs)
  | inr e ↦ rw e (e, distinct-Distinct xs)
]

distinct_of_Distinct : (xs : List String) → Distinct xs → distinct xs ≡ xs
unfolding distinct
distinct_of_Distinct [] d = refl
distinct_of_Distinct (x ∷ xs) d =
    let absent = any-distinct x xs d.0 in
    rw absent (ap (λ (l : List String). x ∷ l) (distinct_of_Distinct xs d.1))

distinct-All {ℓ} : (P : String → Type ℓ) (xs : List String) → All P xs → All P (distinct xs)
unfolding distinct
distinct-All P [] h = tt
distinct-All P (x ∷ xs) h = elim (Bool-cases (any (str_eq x) (distinct xs))) [
  | inl e ↦ rw e (distinct-All P xs h.1)
  | inr e ↦ rw e (h.0, distinct-All P xs h.1)
]

pub map-id : (xs : List String) → map (λ s. s) xs ≡ xs
map-id [] = refl
map-id (x ∷ xs) = ap (λ (l : List String). x ∷ l) (map-id xs)

pub sorted_set-Distinct : (xs : List String) → Distinct (sorted_set xs)
sorted_set-Distinct xs = rw (← map-id (sorted_set xs)) (
    sort-Distinct leb_text (λ s. s) (distinct xs)
      (rw (map-id (distinct xs)) (distinct-Distinct xs)))

-- `sorted(set(…))` twice is `sorted(set(…))`.
sorted_set_idem : (xs : List String) → sorted_set (sorted_set xs) ≡ sorted_set xs
sorted_set_idem xs =
    ap (sort leb_text) (distinct_of_Distinct (sorted_set xs) (sorted_set-Distinct xs))
    ∙ sort_of_Sorted leb_text (sorted_set xs) (sort-Sorted leb_text-order (distinct xs))

distinct-ne-nil : (x : String) (xs : List String) → distinct (x ∷ xs) ≢ []
unfolding distinct
distinct-ne-nil x [] h = cc
distinct-ne-nil x (y ∷ xs) h = elim (Bool-cases (any (str_eq x) (distinct (y ∷ xs)))) [
  | inl e ↦ distinct-ne-nil y xs (rw e at h)
  | inr e ↦ absurd (nonempty (rw e at h))
]
  where
    nonempty : {l : List String} → x ∷ l ≡ [] → ⊥
    nonempty q = cc

sorted_set-ne-nil : (xs : List String) → xs ≢ [] → sorted_set xs ≢ []
sorted_set-ne-nil [] h e = h refl
sorted_set-ne-nil (x ∷ xs) h e =
    distinct-ne-nil x xs
      (no_length (distinct (x ∷ xs)) (sym (length-sort leb_text (distinct (x ∷ xs))) ∙ ap length e))
  where
    no_length : (l : List String) → length l ≡ 0 → l ≡ []
    no_length [] q = refl
    no_length (y ∷ l) q = absurd (omega arith)

source_texts-texts_json :
    (xs : List String) → All (λ s. str_eq s "" ≡ false) xs → source_texts (texts_json xs) ≡ some xs
unfolding source_texts texts_json
source_texts-texts_json [] h = refl
source_texts-texts_json (x ∷ xs) h = let e = h.0 in rw (source_texts-texts_json xs h.1, e) refl

same_texts_refl : (xs : List String) → same_texts xs xs ≡ true
unfolding same_texts
same_texts_refl [] = refl
same_texts_refl (x ∷ xs) = rw (str_eq_refl x, same_texts_refl xs) refl

valid_of_fixed :
    (xs : List String)
    → All (λ s. str_eq s "" ≡ false) xs
    → xs ≢ []
    → sorted_set xs ≡ xs
    → sources_valid (some (texts_json xs)) ≡ true
unfolding sources_valid texts_json
valid_of_fixed [] named there fixed = absurd (there refl)
valid_of_fixed (x ∷ xs) named there fixed =
    let read = source_texts-texts_json (x ∷ xs) named in
    subst (λ o. elim o [ none ↦ false | some texts ↦ same_texts texts (sorted_set texts) ] ≡ true)
      (sym read) (ap (same_texts (x ∷ xs)) fixed ∙ same_texts_refl (x ∷ xs))

-- The sources that the timeline's events are written with pass the validation.
pub sources_valid-sorted_set :
    (sources : List String)
    → All (λ s. str_eq s "" ≡ false) sources
    → sources ≢ []
    → sources_valid (some (texts_json (sorted_set sources))) ≡ true
sources_valid-sorted_set sources named there =
    valid_of_fixed (sorted_set sources)
      (sort-All leb_text _ (distinct sources) (distinct-All _ sources named))
      (sorted_set-ne-nil sources there) (sorted_set_idem sources)
