-- ===== src/Evaluation/Capsule/Rows/Stream.antt =====
-- The stream of a run's rows and its batches (evaluation/parquet.py). A generator is the list that
-- it yields, or the exception that ends it.
use jpapt_v2_2_inspection.Base.{
  ℕ, suc, ◌+◌, String, Bool, true, false, Option, none, some, List, [], ◌∷◌, ◌++◌, Result, ok, err,
  ◌>>=◌, ◌>>◌, ensure, raise_if, leb, if◌then◌else◌, length, any, str_eq,
}
use jpapt_v2_2_inspection.Base.Int.{ℤ, leb_ℤ, to_ℕ}
use jpapt_v2_2_inspection.Base.Json.{str, obj, Fields, end, field, find}
use jpapt_v2_2_inspection.Evaluation.Models.{SampleResult}
use jpapt_v2_2_inspection.Evaluation.Capsule.Artifact.{
  Codec, CapsuleArtifact, ArtifactError, Part, is_empty, iter_artifact_parts,
}
use jpapt_v2_2_inspection.Evaluation.Capsule.Rows.Columns.{Row, empty_row}
use jpapt_v2_2_inspection.Evaluation.Capsule.Rows.Records.{
  RowError, missing_run_id, benchmark_run_id, bad_batch_size, duplicate_artifact_id, artifact_error,
  CapsuleDiagnostic, sample_row, diagnostic_row, artifact_row,
}
use jpapt_v2_2_inspection.Evaluation.Capsule.Rows.Metrics.{Metric, iter_numeric_metrics}

-- A non-empty text under a key.
unfoldable pub text_at : String → Fields → Option String
text_at key fields = elim (find key fields) [
  | some v ↦ elim v [ str s ↦ if is_empty s then none else some s | _ ↦ none ]
  | none ↦ none
]

-- `d.get(key) == text`
unfoldable pub holds_text : String → Fields → String → Bool
holds_text key fields s = elim (find key fields) [
  | some v ↦ elim v [ str t ↦ str_eq t s | _ ↦ false ]
  | none ↦ false
]

abbrev pub or_raise :
    {A B : Type 0} → Option A → RowError → (A → Result RowError B) → Result RowError B
or_raise none e k = err e
or_raise (some a) e k = k a

unfoldable pub manifest_row : Codec → String → Fields → Fields → Row
unfolding empty_row
manifest_row codec run_id run_context benchmark = record (empty_row run_id "manifest" 0) {
  name = some "run";
  category = some "evaluation";
  metadata_json = some (
      codec.dumps
        (obj (field "run_context" (obj run_context) (field "benchmark" (obj benchmark) end))));
}

unfoldable pub sample_rows : Codec → String → ℕ → List SampleResult → Result RowError (List Row)
unfolding sample_row
sample_rows codec run_id ordinal [] = ok []
sample_rows codec run_id ordinal (sample ∷ samples) = do
  row ← sample_row codec sample ordinal run_id
  rows ← sample_rows codec run_id (suc ordinal) samples
  ok (row ∷ rows)

unfoldable pub metric_row : String → ℕ → Metric → Row
unfolding empty_row
metric_row run_id ordinal metric = record (empty_row run_id "metric" ordinal) {
  metric = record {
    metric_name = some metric.metric_name;
    metric_value = some metric.metric_value;
    metric_unit = metric.unit;
  };
}

unfoldable pub metric_rows : String → ℕ → List Metric → List Row
unfolding metric_row
metric_rows run_id ordinal [] = []
metric_rows run_id ordinal (metric ∷ metrics) =
    metric_row run_id ordinal metric ∷ metric_rows run_id (suc ordinal) metrics

abbrev pub metric_sections : List String
metric_sections =
    "samples" ∷ "quality" ∷ "performance" ∷ "memory" ∷ "parity" ∷ "provider" ∷ "errors" ∷ []

-- The numbers of one section, if it is an object.
section_metrics : Codec → Fields → String → List Metric
section_metrics codec benchmark section = elim (find section benchmark) [
  | some v ↦ elim v [ obj value ↦ iter_numeric_metrics codec.to_float value section | _ ↦ [] ]
  | none ↦ []
]

unfoldable pub benchmark_metrics : Codec → Fields → List String → List Metric
unfolding section_metrics
benchmark_metrics codec benchmark [] = []
benchmark_metrics codec benchmark (section ∷ sections) =
    section_metrics codec benchmark section ++ benchmark_metrics codec benchmark sections

unfoldable pub part_rows : String → ℕ → List Part → List Row
part_rows run_id ordinal [] = []
part_rows run_id ordinal (part ∷ parts) =
    artifact_row run_id ordinal part ∷ part_rows run_id (suc ordinal) parts

-- The errors of `iter_artifact_parts` pass through.
abbrev pub lift_artifact : Result ArtifactError (List Part) → Result RowError (List Part)
lift_artifact (ok parts) = ok parts
lift_artifact (err e) = err (artifact_error e)

unfoldable pub artifact_rows :
    Codec → String → ℕ → List String → List CapsuleArtifact → Result RowError (List Row)
unfolding part_rows
artifact_rows codec run_id ordinal artifact_ids [] = ok []
artifact_rows codec run_id ordinal artifact_ids (artifact ∷ artifacts) =
    lift_artifact (iter_artifact_parts codec artifact) >>= λ parts. elim parts [
      | [] ↦ artifact_rows codec run_id ordinal artifact_ids artifacts
      | first ∷ more ↦ do
        raise_if (any (str_eq first.artifact_id) artifact_ids) duplicate_artifact_id
        let rows = part_rows run_id ordinal (first ∷ more)
        rest ←
            artifact_rows codec run_id (ordinal + length rows) (first.artifact_id ∷ artifact_ids)
              artifacts
        ok (rows ++ rest)
    ]

unfoldable pub diagnostic_rows : Codec → String → ℕ → List CapsuleDiagnostic → List Row
diagnostic_rows codec run_id ordinal [] = []
diagnostic_rows codec run_id ordinal (diagnostic ∷ diagnostics) =
    diagnostic_row codec diagnostic run_id ordinal
    ∷ diagnostic_rows codec run_id (suc ordinal) diagnostics

module _ (codec : Codec) where
  -- The rows of a run whose id has been checked.
  unfoldable pub run_rows :
      String
      → Fields
      → List SampleResult
      → Fields
      → List CapsuleArtifact
      → List CapsuleDiagnostic
      → Result RowError (List Row)
  unfolding manifest_row sample_rows metric_rows benchmark_metrics artifact_rows diagnostic_rows
  run_rows run_id run_context samples benchmark artifacts diagnostics = do
    let manifest = manifest_row codec run_id run_context benchmark
    sample_part ← sample_rows codec run_id 1 samples
    let after_samples = 1 + length sample_part
    let metric_part =
        metric_rows run_id after_samples (benchmark_metrics codec benchmark metric_sections)
    let after_metrics = after_samples + length metric_part
    artifact_part ← artifact_rows codec run_id after_metrics [] artifacts
    let after_artifacts = after_metrics + length artifact_part
    let diagnostic_part = diagnostic_rows codec run_id after_artifacts diagnostics
    ok (manifest ∷ sample_part ++ (metric_part ++ (artifact_part ++ diagnostic_part)))

  unfoldable pub iter_experiment_capsule_rows :
      Fields
      → List SampleResult
      → Fields
      → List CapsuleArtifact
      → List CapsuleDiagnostic
      → Result RowError (List Row)
  unfolding text_at holds_text run_rows
  iter_experiment_capsule_rows run_context samples benchmark artifacts diagnostics =
      or_raise (text_at "run_id" run_context) missing_run_id λ run_id. do
        ensure (holds_text "run_id" benchmark run_id) benchmark_run_id
        run_rows run_id run_context samples benchmark artifacts diagnostics

-- The loop that fills a batch and yields it when it is full.
unfoldable pub batch_loop : {A : Type 0} → ℕ → List A → List A → List (List A)
batch_loop size batch [] = elim batch [ [] ↦ [] | row ∷ more ↦ (row ∷ more) ∷ [] ]
batch_loop size batch (row ∷ rows) =
    let filled = batch ++ row ∷ [] in
    elim (leb size (length filled)) [
      | true ↦ filled ∷ batch_loop size [] rows
      | false ↦ batch_loop size filled rows
    ]

module _ (codec : Codec) where
  unfoldable pub iter_experiment_capsule_row_batches :
      Fields
      → List SampleResult
      → Fields
      → List CapsuleArtifact
      → List CapsuleDiagnostic
      → ℤ
      → Result RowError (List (List Row))
  unfolding iter_experiment_capsule_rows batch_loop
  iter_experiment_capsule_row_batches run_context samples benchmark artifacts diagnostics
        batch_size =
      do
        raise_if (leb_ℤ batch_size 0) bad_batch_size
        rows ←
            iter_experiment_capsule_rows codec run_context samples benchmark artifacts diagnostics
        ok (batch_loop (to_ℕ batch_size) [] rows)
