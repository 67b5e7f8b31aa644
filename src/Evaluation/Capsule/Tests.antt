-- ===== src/Evaluation/Capsule/Tests.antt =====
-- An artifact and a run written, cut into batches, and read.
use jpapt_v2_2_inspection.Base.{
  ℕ, ◌-◌, ◌*◌, ◌≤◌, ◌<◌, max, ◌≡◌, refl, String, Bool, true, Option, none, some, List, [], ◌∷◌, ok,
  str_eq, if◌then◌else◌,
}
use jpapt_v2_2_inspection.Base.Int.{pos}
use jpapt_v2_2_inspection.Base.Json.{Json, str, obj, Fields, end, field, find}
use jpapt_v2_2_inspection.Base.Sorting.{insert}
use jpapt_v2_2_inspection.Evaluation.Models.{Float64}
use jpapt_v2_2_inspection.Evaluation.Capsule.Artifact.{
  Codec, EmbeddedCapsuleArtifact, Part, iter_parts, embedded, part_at, embedded_metadata,
  iter_artifact_parts,
}
use jpapt_v2_2_inspection.Evaluation.Capsule.Artifact.Chunks.{joined, joined-iter_parts}
use jpapt_v2_2_inspection.Evaluation.Capsule.Rows.Columns.{Row, capsule_columns, empty_row}
use jpapt_v2_2_inspection.Evaluation.Capsule.Rows.Records.{artifact_row}
use jpapt_v2_2_inspection.Evaluation.Capsule.Rows.Stream.{
  text_at, part_rows, manifest_row, iter_experiment_capsule_rows,
  iter_experiment_capsule_row_batches,
}
use jpapt_v2_2_inspection.Evaluation.Capsule.Rows.Order.{
  Numbered, iter_experiment_capsule_rows-Numbered,
}
use jpapt_v2_2_inspection.Evaluation.Capsule.Rows.Batches.{flat, IsBatched, batches-rows}
use jpapt_v2_2_inspection.Evaluation.Capsule.Reader.{
  ExperimentCapsule, rows_of_artifact, extract_artifact,
}
use jpapt_v2_2_inspection.Evaluation.Capsule.Reader.Parts.{
  validate_artifact_rows, validate_diagnostic_rows,
}
use jpapt_v2_2_inspection.Evaluation.Capsule.Reader.Rows.{validate_rows}
use jpapt_v2_2_inspection.Evaluation.Capsule.Reader.Accepted.{IsAccepted, validate_rows-IsAccepted}
use jpapt_v2_2_inspection.Evaluation.Capsule.Reader.Extraction.{
  LoadsDumped, validate_artifact_rows-part_rows, extract_artifact-iter_parts,
}

abbrev run_metadata : Fields
run_metadata =
    field "run_context" (obj (field "run_id" (str "r1") end))
      (field "benchmark" (obj (field "run_id" (str "r1") end)) end)

abbrev zero_float : Float64
zero_float = Float64.bits 0

abbrev is_run : String → Bool
is_run key = str_eq key "run_context"

-- Texts that stand for the two objects that are dumped here.
abbrev text_of : Json → String
text_of (obj (field key v rest)) = if is_run key then "run" else "part"
text_of _ = "part"

abbrev value_of : String → Option Json
value_of s =
    if str_eq s "run"
    then some (obj run_metadata)
    else some (obj (field "location" (str "embedded") end))

abbrev digest : List ℕ → String
digest [] = "0"
digest (x ∷ xs) = "1"

abbrev codec : Codec
codec = record {
  sha256 = digest;
  dumps = text_of;
  loads = value_of;
  reads_hex = λ s. true;
  lower = λ s. s;
  to_float = λ v. zero_float;
}

abbrev artifact : EmbeddedCapsuleArtifact
artifact = record {
  artifact_id = "a";
  name = "log";
  mime_type = "text/plain";
  payload = 1 ∷ 2 ∷ 3 ∷ 4 ∷ 5 ∷ [];
  metadata = end;
  chunk_size_bytes = pos 2;
}

abbrev parts : List Part
parts =
    part_at codec artifact 2 3 0 ∷ part_at codec artifact 2 3 1 ∷ part_at codec artifact 2 3 2 ∷ []

iter_parts_run : iter_parts codec artifact ≡ ok parts
unfolding iter_parts
iter_parts_run = refl

joined-iter_parts_example :
    (joined parts ≡ 1 ∷ 2 ∷ 3 ∷ 4 ∷ 5 ∷ []) × (0 < 3) × (5 ≤ 3 * 2) × ((3 - 1) * 2 < max 1 5)
joined-iter_parts_example = joined-iter_parts codec artifact parts iter_parts_run

validate_artifact_rows-part_rows_example :
    validate_artifact_rows codec (part_rows "r1" 1 parts) ≡ ok tt
validate_artifact_rows-part_rows_example =
    validate_artifact_rows-part_rows codec artifact parts "r1" 1 iter_parts_run

abbrev run_context : Fields
run_context = field "run_id" (str "r1") end

abbrev rows : List Row
rows = manifest_row codec "r1" run_context run_context ∷ part_rows "r1" 1 parts

rows_run :
    iter_experiment_capsule_rows codec run_context [] run_context (embedded artifact ∷ []) []
    ≡ ok rows
unfolding iter_experiment_capsule_rows part_rows iter_parts find iter_artifact_parts
rows_run = refl

iter_experiment_capsule_rows-Numbered_example :
    (run_id : String) × (text_at "run_id" run_context ≡ some run_id) × Numbered run_id 0 rows
iter_experiment_capsule_rows-Numbered_example =
    iter_experiment_capsule_rows-Numbered codec run_context [] run_context (embedded artifact ∷ [])
      [] rows rows_run

abbrev batches : List (List Row)
batches =
    (manifest_row codec "r1" run_context run_context
      ∷ artifact_row "r1" 1 (part_at codec artifact 2 3 0)
      ∷ [])
    ∷ (artifact_row "r1" 2 (part_at codec artifact 2 3 1)
        ∷ artifact_row "r1" 3 (part_at codec artifact 2 3 2)
        ∷ [])
    ∷ []

batches_run :
    iter_experiment_capsule_row_batches codec run_context [] run_context
      (embedded artifact ∷ [])
      []
      (pos 2)
    ≡ ok batches
unfolding iter_experiment_capsule_row_batches iter_experiment_capsule_rows iter_parts find
    iter_artifact_parts
batches_run = refl

batches-rows_example :
    (iter_experiment_capsule_rows codec run_context [] run_context (embedded artifact ∷ []) []
      ≡ ok (flat batches))
    × IsBatched 2 batches
batches-rows_example =
    batches-rows codec run_context [] run_context (embedded artifact ∷ []) [] (pos 2) batches
      batches_run

abbrev capsule : ExperimentCapsule
capsule = record {
  run_id = "r1";
  rows = rows;
  manifest = manifest_row codec "r1" run_context run_context;
}

validate_rows_run : validate_rows codec capsule_columns rows ≡ ok capsule
unfolding validate_rows manifest_row part_rows empty_row artifact_row part_at find
    validate_artifact_rows insert validate_diagnostic_rows
validate_rows_run = refl

validate_rows-IsAccepted_example : IsAccepted rows capsule
validate_rows-IsAccepted_example =
    validate_rows-IsAccepted codec capsule_columns rows capsule validate_rows_run

loads_metadata : LoadsDumped codec (embedded_metadata end)
unfolding embedded_metadata
loads_metadata = record { loads-dumps = refl; dumps-nonempty = refl }

absent : find "location" end ≡ none
unfolding find
absent = refl

capsule_parts : rows_of_artifact capsule "a" ≡ part_rows "r1" 1 parts
unfolding manifest_row part_rows empty_row artifact_row part_at
capsule_parts = refl

extract_artifact-iter_parts_example :
    extract_artifact codec capsule "a" ≡ ok (1 ∷ 2 ∷ 3 ∷ 4 ∷ 5 ∷ [])
extract_artifact-iter_parts_example =
    extract_artifact-iter_parts codec artifact parts loads_metadata capsule "r1" 1 iter_parts_run
      absent capsule_parts
