-- ===== src/Evaluation/Capsule/Rows/Batches.antt =====
-- The cut of the stream of rows into batches.
use jpapt_v2_2_inspection.Base.{
  ℕ, ◌+◌, ◌≤◌, ◌<◌, ◌≡◌, refl, sym, ap, subst, ◌∙◌, false, List, [], ◌∷◌, ◌++◌, append_assoc, ok,
  ok-injective, >>=-eq-ok, raise_if-eq-ok, arith, leb, length, length-append, inl, inr, le→leb,
  Bool-cases, leb→le,
}
use jpapt_v2_2_inspection.Base.Int.{ℤ, pos, negsuc, leb_ℤ, to_ℕ}
use jpapt_v2_2_inspection.Base.Json.{Fields}
use jpapt_v2_2_inspection.Evaluation.Models.{SampleResult}
use jpapt_v2_2_inspection.Evaluation.Capsule.Artifact.{Codec, CapsuleArtifact}
use jpapt_v2_2_inspection.Evaluation.Capsule.Rows.Columns.{Row}
use jpapt_v2_2_inspection.Evaluation.Capsule.Rows.Records.{bad_batch_size, CapsuleDiagnostic}
use jpapt_v2_2_inspection.Evaluation.Capsule.Rows.Stream.{
  iter_experiment_capsule_rows, batch_loop, iter_experiment_capsule_row_batches,
}

-- The batches in order, each of at least one row and at most `size`, all but the last of `size`.
abbrev pub IsBatched {ℓ} : {A : Type ℓ} → ℕ → List (List A) → Type 0
IsBatched size [] = Unit
IsBatched size (batch ∷ []) = (0 < length batch) × (length batch ≤ size)
IsBatched size (batch ∷ next ∷ batches) = (length batch ≡ size) × IsBatched size (next ∷ batches)

-- `b"".join` of the batches.
abbrev pub flat {ℓ} : {A : Type ℓ} → List (List A) → List A
flat [] = []
flat (batch ∷ batches) = batch ++ flat batches

module _ {A : Type 0} (size : ℕ) where
  flat-batch_loop : (batch rows : List A) → flat (batch_loop size batch rows) ≡ batch ++ rows
  unfolding batch_loop
  flat-batch_loop [] [] = refl
  flat-batch_loop (b ∷ batch) [] = refl
  flat-batch_loop batch (row ∷ rows) = elim (Bool-cases (leb size (length (batch ++ row ∷ [])))) [
    | inl e ↦
        rw (e, flat, batch_loop)
          (ap (λ rest. (batch ++ row ∷ []) ++ rest) (flat-batch_loop [] rows)
            ∙ append_assoc batch (row ∷ []) rows)
    | inr e ↦
        rw (e, flat, batch_loop)
          (flat-batch_loop (batch ++ row ∷ []) rows ∙ append_assoc batch (row ∷ []) rows)
  ]

  IsBatched-cons :
      (batch : List A) (batches : List (List A))
      → length batch ≡ size
      → 0 < size
      → IsBatched size batches
      → IsBatched size (batch ∷ batches)
  IsBatched-cons batch [] h k rest = (omega arith, omega arith)
  IsBatched-cons batch (next ∷ batches) h k rest = (h, rest)

  batch_loop-IsBatched :
      0 < size
      → (batch rows : List A) → length batch < size
      → IsBatched size (batch_loop size batch rows)
  unfolding batch_loop
  batch_loop-IsBatched k [] [] h = tt
  batch_loop-IsBatched k (b ∷ batch) [] h = (omega arith, omega arith)
  batch_loop-IsBatched k batch (row ∷ rows) h =
      let grown : length (batch ++ row ∷ []) ≡ length batch + 1 = length-append batch (row ∷ []) in
      elim (Bool-cases (leb size (length (batch ++ row ∷ [])))) [
        | inl e ↦
            rw (e, IsBatched, batch_loop)
              (IsBatched-cons (batch ++ row ∷ []) (batch_loop size [] rows)
                (let full : size ≤ length (batch ++ row ∷ []) = leb→le _ _ e in omega arith) k
                (batch_loop-IsBatched k [] rows k))
        | inr e ↦
            rw (e, IsBatched, batch_loop)
              (batch_loop-IsBatched k (batch ++ row ∷ []) rows
                (let room : ¬ (size ≤ length (batch ++ row ∷ [])) = not_le e in omega arith))
      ]
    where
      not_le : {n : ℕ} → leb size n ≡ false → ¬ (size ≤ n)
      not_le e le = ground (arith, le→leb size _ le)

positive_size : (z : ℤ) → leb_ℤ z 0 ≡ false → 0 < to_ℕ z
positive_size (pos n) e = ground arith
positive_size (negsuc n) e = cc

-- Where batches are produced, the rows of the run are produced, the batches in order are exactly
-- these rows, no batch is empty or larger than the size, and all but the last have that size.
pub batches-rows :
    (codec : Codec) (run_context : Fields) (samples : List SampleResult) (benchmark : Fields)
    → (artifacts : List CapsuleArtifact) (diagnostics : List CapsuleDiagnostic) (batch_size : ℤ)
    → (batches : List (List Row))
    → iter_experiment_capsule_row_batches codec run_context samples benchmark artifacts diagnostics
        batch_size
      ≡ ok batches
    → (iter_experiment_capsule_rows codec run_context samples benchmark artifacts diagnostics
        ≡ ok (flat batches))
      × IsBatched (to_ℕ batch_size) batches
unfolding iter_experiment_capsule_row_batches
batches-rows codec run_context samples benchmark artifacts diagnostics batch_size batches h =
    let (sized, h₁) = raise_if-eq-ok (leb_ℤ batch_size 0) bad_batch_size _ h in
    let (rows, made, h₂) =
      >>=-eq-ok
        (iter_experiment_capsule_rows codec run_context samples benchmark artifacts diagnostics) _
        h₁ in
    let positive = positive_size batch_size sized in
    let cut : batch_loop (to_ℕ batch_size) [] rows ≡ batches = ok-injective h₂ in
    (
      made ∙ ap ok (sym (flat-batch_loop (to_ℕ batch_size) [] rows) ∙ ap flat cut),
      subst (IsBatched (to_ℕ batch_size)) cut
          (batch_loop-IsBatched (to_ℕ batch_size) positive [] rows positive),
    )
