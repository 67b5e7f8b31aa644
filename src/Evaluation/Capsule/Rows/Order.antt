-- ===== src/Evaluation/Capsule/Rows/Order.antt =====
-- The order of a run's rows.
use jpapt_v2_2_inspection.Base.{
  ℕ, suc, ◌+◌, ◌≡◌, refl, subst, String, some, List, [], ◌∷◌, ◌++◌, ok, ok-injective, >>=-eq-ok,
  raise_if-eq-ok, ensure-eq-ok, arith, length, ◌>>=◌, any, str_eq, raise_if, Option-cases, inl, inr,
  err-ne-ok,
}
use jpapt_v2_2_inspection.Base.Int.{pos}
use jpapt_v2_2_inspection.Base.Json.{Fields}
use jpapt_v2_2_inspection.Evaluation.Models.{SampleResult}
use jpapt_v2_2_inspection.Evaluation.Capsule.Artifact.{
  Codec, CapsuleArtifact, Part, iter_artifact_parts,
}
use jpapt_v2_2_inspection.Evaluation.Capsule.Rows.Columns.{
  Row, empty_row, experiment_capsule_schema_version,
}
use jpapt_v2_2_inspection.Evaluation.Capsule.Rows.Records.{
  benchmark_run_id, duplicate_artifact_id, CapsuleDiagnostic, sample_columns, sample_row,
  diagnostic_row, artifact_row,
}
use jpapt_v2_2_inspection.Evaluation.Capsule.Rows.Metrics.{Metric}
use jpapt_v2_2_inspection.Evaluation.Capsule.Rows.Stream.{
  text_at, holds_text, manifest_row, sample_rows, metric_row, metric_rows, part_rows, lift_artifact,
  artifact_rows, diagnostic_rows, run_rows, iter_experiment_capsule_rows,
}

-- The row's schema version, run id and ordinal.
pub record Stamped (run_id : String) (n : ℕ) (row : Row) : Type 0 where
  pub schema : row.schema_version ≡ some experiment_capsule_schema_version
  pub run : row.run_id ≡ some run_id
  pub place : row.ordinal ≡ some (pos n)

-- The rows are numbered from `n` on without a gap, and all belong to the run.
abbrev pub Numbered : String → ℕ → List Row → Type 0
Numbered run_id n [] = Unit
Numbered run_id n (row ∷ rows) = Stamped run_id n row × Numbered run_id (suc n) rows

pub Numbered-append :
    (run_id : String) (n : ℕ) (xs ys : List Row)
    → Numbered run_id n xs
    → Numbered run_id (n + length xs) ys
    → Numbered run_id n (xs ++ ys)
Numbered-append run_id n [] ys h k = subst (λ m. Numbered run_id m ys) (omega arith) k
Numbered-append run_id n (x ∷ xs) ys h k = (
  h.0,
  Numbered-append run_id (suc n) xs ys h.1 (subst (λ m. Numbered run_id m ys) (omega arith) k),
)

sample_rows-Numbered :
    (codec : Codec) (run_id : String) (n : ℕ) (samples : List SampleResult) (rows : List Row)
    → sample_rows codec run_id n samples ≡ ok rows
    → Numbered run_id n rows
unfolding sample_rows sample_row sample_columns empty_row
sample_rows-Numbered codec run_id n [] rows h = subst (Numbered run_id n) (ok-injective h) tt
sample_rows-Numbered codec run_id n (sample ∷ samples) rows h =
    let (row, head, h₁) = >>=-eq-ok (sample_row codec sample n run_id) _ h in
    let (rest, tail, h₂) = >>=-eq-ok (sample_rows codec run_id (suc n) samples) _ h₁ in
    let (_, e) = ensure-eq-ok (str_eq sample.run_id run_id) _ _ head in
    subst (Numbered run_id n) (ok-injective h₂) (
      subst (Stamped run_id n) (ok-injective e)
          (record { schema = refl; run = refl; place = refl }),
      sample_rows-Numbered codec run_id (suc n) samples rest tail,
    )

metric_rows-Numbered :
    (run_id : String) (n : ℕ) (metrics : List Metric)
    → Numbered run_id n (metric_rows run_id n metrics)
unfolding metric_rows metric_row empty_row
metric_rows-Numbered run_id n [] = tt
metric_rows-Numbered run_id n (m ∷ metrics) = (
  record { schema = refl; run = refl; place = refl },
  metric_rows-Numbered run_id (suc n) metrics,
)

part_rows-Numbered :
    (run_id : String) (n : ℕ) (parts : List Part) → Numbered run_id n (part_rows run_id n parts)
unfolding part_rows artifact_row empty_row
part_rows-Numbered run_id n [] = tt
part_rows-Numbered run_id n (p ∷ parts) =
    (record { schema = refl; run = refl; place = refl }, part_rows-Numbered run_id (suc n) parts)

diagnostic_rows-Numbered :
    (codec : Codec) (run_id : String) (n : ℕ) (diagnostics : List CapsuleDiagnostic)
    → Numbered run_id n (diagnostic_rows codec run_id n diagnostics)
unfolding diagnostic_rows diagnostic_row empty_row
diagnostic_rows-Numbered codec run_id n [] = tt
diagnostic_rows-Numbered codec run_id n (d ∷ diagnostics) = (
  record { schema = refl; run = refl; place = refl },
  diagnostic_rows-Numbered codec run_id (suc n) diagnostics,
)

artifact_rows-Numbered :
    (codec : Codec) (run_id : String) (n : ℕ) (ids : List String)
    → (artifacts : List CapsuleArtifact) (rows : List Row)
    → artifact_rows codec run_id n ids artifacts ≡ ok rows
    → Numbered run_id n rows
unfolding artifact_rows
artifact_rows-Numbered codec run_id n ids [] rows h = subst (Numbered run_id n) (ok-injective h) tt
artifact_rows-Numbered codec run_id n ids (artifact ∷ artifacts) rows h =
    let (parts, _, h₁) = >>=-eq-ok (lift_artifact (iter_artifact_parts codec artifact)) _ h in
    of_parts (λ m ids rows. artifact_rows-Numbered codec run_id m ids artifacts rows) parts h₁
  where
    of_parts :
        ((m : ℕ) (ids : List String) (rows : List Row)
          → artifact_rows codec run_id m ids artifacts ≡ ok rows
          → Numbered run_id m rows)
        → (parts : List Part)
        → elim parts [
          | [] ↦ artifact_rows codec run_id n ids artifacts
          | first ∷ more ↦
              raise_if (any (str_eq first.artifact_id) ids) duplicate_artifact_id >>= λ _.
              artifact_rows codec run_id
                (n + length (part_rows run_id n (first ∷ more)))
                (first.artifact_id ∷ ids)
                artifacts
              >>= λ rest. ok (part_rows run_id n (first ∷ more) ++ rest)
        ]
          ≡ ok rows
        → Numbered run_id n rows
    of_parts rec [] e = rec n ids rows e
    of_parts rec (first ∷ more) e =
        let (_, e₁) =
          raise_if-eq-ok (any (str_eq first.artifact_id) ids) duplicate_artifact_id _ e in
        let next = n + length (part_rows run_id n (first ∷ more)) in
        let (rest, e₂, e₃) =
          >>=-eq-ok (artifact_rows codec run_id next (first.artifact_id ∷ ids) artifacts) _ e₁ in
        subst (Numbered run_id n) (ok-injective e₃) (
          Numbered-append run_id n (part_rows run_id n (first ∷ more)) rest
            (part_rows-Numbered run_id n (first ∷ more))
            (rec next (first.artifact_id ∷ ids) rest e₂))

run_rows-Numbered :
    (codec : Codec) (run_id : String) (run_context : Fields) (samples : List SampleResult)
    → (benchmark : Fields) (artifacts : List CapsuleArtifact) (diagnostics : List CapsuleDiagnostic)
    → (rows : List Row)
    → run_rows codec run_id run_context samples benchmark artifacts diagnostics ≡ ok rows
    → Numbered run_id 0 rows
unfolding run_rows manifest_row empty_row
run_rows-Numbered codec run_id run_context samples benchmark artifacts diagnostics rows h =
    let (sample_part, first, h₁) = >>=-eq-ok (sample_rows codec run_id 1 samples) _ h in
    let (artifact_part, third, h₂) = >>=-eq-ok (artifact_rows codec run_id _ [] artifacts) _ h₁ in
    subst (Numbered run_id 0) (ok-injective h₂) (
      record { schema = refl; run = refl; place = refl },
      Numbered-append run_id 1 sample_part _
          (sample_rows-Numbered codec run_id 1 samples sample_part first)
          (Numbered-append run_id _ _ _ (metric_rows-Numbered run_id _ _) (
            Numbered-append run_id _ artifact_part _
              (artifact_rows-Numbered codec run_id _ [] artifacts artifact_part third)
              (diagnostic_rows-Numbered codec run_id _ diagnostics))),
    )

-- The rows of a run, if they are produced, are numbered 0, 1, 2, … without a gap, and each carries
-- the schema version and the run id that the run context holds.
pub iter_experiment_capsule_rows-Numbered :
    (codec : Codec) (run_context : Fields) (samples : List SampleResult) (benchmark : Fields)
    → (artifacts : List CapsuleArtifact) (diagnostics : List CapsuleDiagnostic) (rows : List Row)
    → iter_experiment_capsule_rows codec run_context samples benchmark artifacts diagnostics
      ≡ ok rows
    → (run_id : String) × (text_at "run_id" run_context ≡ some run_id) × Numbered run_id 0 rows
unfolding iter_experiment_capsule_rows
iter_experiment_capsule_rows-Numbered codec run_context samples benchmark artifacts diagnostics rows
      h =
    elim (Option-cases (text_at "run_id" run_context)) [
      | inl e ↦ absurd (err-ne-ok (rw e at h))
      | inr (run_id, e) ↦
          let h₁ = rw e at h in
          let (_, h₂) = ensure-eq-ok (holds_text "run_id" benchmark run_id) benchmark_run_id _ h₁ in
          (
            run_id,
            e,
            run_rows-Numbered codec run_id run_context samples benchmark artifacts diagnostics rows
                h₂,
          )
    ]
