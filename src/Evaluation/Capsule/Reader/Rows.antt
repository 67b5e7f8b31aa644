-- ===== src/Evaluation/Capsule/Reader/Rows.antt =====
-- evaluation/capsule_reader.py: `_validate_rows` and the check of the expected run id. The rows are
-- those that the `datasets` library loads from the file.
use jpapt_v2_2_inspection.Base.{
  ℕ, suc, String, Bool, true, false, ◌&&◌, ◌||◌, Option, none, some, List, [], ◌∷◌, ◌++◌, Result,
  ok, err, ◌>>=◌, ◌>>◌, ensure, raise_if, if◌then◌else◌, length, any, str_eq, ◌==◌,
}
use jpapt_v2_2_inspection.Base.Int.{ℤ, pos, negsuc, eq_ℤ}
use jpapt_v2_2_inspection.Base.Json.{obj, int, Fields, find}
use jpapt_v2_2_inspection.Evaluation.Capsule.Artifact.{Codec}
use jpapt_v2_2_inspection.Evaluation.Capsule.Rows.Columns.{
  Row, capsule_columns, experiment_capsule_schema_version,
}
use jpapt_v2_2_inspection.Evaluation.Capsule.Rows.Stream.{holds_text}
use jpapt_v2_2_inspection.Evaluation.Capsule.Reader.{
  CapsuleError, bad_columns, no_rows, bad_schema_version, bad_record_kind, bad_ordinal,
  duplicate_sample_id, multiple_run_ids, manifest_count, manifest_ordinal, ordinals_not_contiguous,
  run_context_run_id, benchmark_run_id, attempted_mismatch, run_id_mismatch, ExperimentCapsule,
  samples, artifacts, diagnostics, same_text, same_int, manifest_metadata,
}
use jpapt_v2_2_inspection.Evaluation.Capsule.Reader.Parts.{
  require_nonempty_string, validate_artifact_rows, validate_diagnostic_rows,
}

abbrev pub allowed_record_kind : String → Bool
allowed_record_kind s =
    str_eq s "manifest"
    || str_eq s "sample"
    || str_eq s "metric"
    || str_eq s "artifact"
    || str_eq s "diagnostic"

-- What the loop over the rows collects: two sets of texts and two lists.
pub record Seen : Type 0 where
  pub run_ids : List String
  pub ordinals : List ℕ
  pub manifests : List Row
  pub sample_ids : List String

abbrev pub nothing_seen : Seen
nothing_seen = record { run_ids = []; ordinals = []; manifests = []; sample_ids = [] }

-- `run_ids.add(run_id)`
unfoldable pub add_id : String → List String → List String
add_id s ids = if any (str_eq s) ids then ids else ids ++ s ∷ []

unfoldable pub require_ordinal : Option ℤ → Result CapsuleError ℕ
require_ordinal none = err bad_ordinal
require_ordinal (some (pos n)) = ok n
require_ordinal (some (negsuc n)) = err bad_ordinal

-- What the row's kind asks for.
unfoldable pub see_kind : String → Row → Seen → Result CapsuleError Seen
unfolding require_nonempty_string
see_kind record_kind row seen =
    if str_eq record_kind "manifest"
    then ok (record seen { manifests = seen.manifests ++ row ∷ [] })
    else if str_eq record_kind "sample"
    then (do
      sample_id ← require_nonempty_string row.sample.sample_id
      raise_if (any (str_eq sample_id) seen.sample_ids) duplicate_sample_id
      ok (record seen { sample_ids = seen.sample_ids ++ sample_id ∷ [] }))
    else if str_eq record_kind "metric"
    then (do _ ← require_nonempty_string row.metric.metric_name; ok seen)
    else ok seen

-- The body of the loop.
unfoldable pub see_row : Seen → Row → Result CapsuleError Seen
unfolding require_nonempty_string add_id require_ordinal see_kind
see_row seen row = do
  ensure (same_text row.schema_version (some experiment_capsule_schema_version)) bad_schema_version
  run_id ← require_nonempty_string row.run_id
  record_kind ← require_nonempty_string row.record_kind
  ensure (allowed_record_kind record_kind) bad_record_kind
  ordinal ← require_ordinal row.ordinal
  see_kind record_kind row (record seen {
    run_ids = add_id run_id seen.run_ids;
    ordinals = seen.ordinals ++ ordinal ∷ [];
  })

unfoldable pub see_rows : Seen → List Row → Result CapsuleError Seen
unfolding see_row
see_rows seen [] = ok seen
see_rows seen (row ∷ rows) = do next ← see_row seen row; see_rows next rows

-- `ordinals == list(range(len(rows)))`, from `n` on.
unfoldable pub counts_from : ℕ → List ℕ → Bool
counts_from n [] = true
counts_from n (m ∷ ms) = if m == n then counts_from (suc n) ms else false

unfoldable pub same_columns : List String → List String → Bool
same_columns [] [] = true
same_columns (a ∷ columns) (b ∷ others) = str_eq a b && same_columns columns others
same_columns _ _ = false

unfoldable pub the_run_id : List String → Result CapsuleError String
the_run_id [] = err multiple_run_ids
the_run_id (run_id ∷ []) = ok run_id
the_run_id (run_id ∷ other ∷ more) = err multiple_run_ids

unfoldable pub the_manifest : List Row → Result CapsuleError Row
the_manifest [] = err manifest_count
the_manifest (manifest ∷ []) = ok manifest
the_manifest (manifest ∷ other ∷ more) = err manifest_count

-- The object under a key whose `run_id` has to be the capsule's.
unfoldable pub object_of_run : String → String → Fields → CapsuleError → Result CapsuleError Fields
unfolding holds_text
object_of_run key run_id metadata e = elim (find key metadata) [
  | some v ↦ elim v [
    | obj fields ↦ if holds_text "run_id" fields run_id then ok fields else err e
    | _ ↦ err e
  ]
  | none ↦ err e
]

-- The guard on `benchmark["samples"]["attempted"]`: it is silent unless that is an integer.
unfoldable pub attempted_agrees : Fields → ℕ → Bool
attempted_agrees benchmark n = elim (find "samples" benchmark) [
  | some v ↦ elim v [
    | obj fields ↦ elim (find "attempted" fields) [
      | some w ↦ elim w [ int attempted ↦ eq_ℤ attempted (pos n) | _ ↦ true ]
      | none ↦ true
    ]
    | _ ↦ true
  ]
  | none ↦ true
]

module _ (codec : Codec) where
  -- The checks on the manifest's metadata, the artifacts and the diagnostics.
  unfoldable pub check_contents : ExperimentCapsule → Result CapsuleError ExperimentCapsule
  unfolding object_of_run attempted_agrees manifest_metadata
  check_contents capsule = do
    metadata ← manifest_metadata codec capsule
    _ ← object_of_run "run_context" capsule.run_id metadata run_context_run_id
    benchmark ← object_of_run "benchmark" capsule.run_id metadata benchmark_run_id
    ensure (attempted_agrees benchmark (length (samples capsule))) attempted_mismatch
    validate_artifact_rows codec (artifacts capsule)
    validate_diagnostic_rows codec (diagnostics capsule)
    ok capsule

  -- The checks after the loop.
  unfoldable pub validate_seen : List Row → Seen → Result CapsuleError ExperimentCapsule
  unfolding the_run_id the_manifest counts_from check_contents
  validate_seen rows seen = do
    run_id ← the_run_id seen.run_ids
    manifest ← the_manifest seen.manifests
    ensure (same_int manifest.ordinal (some (pos 0))) manifest_ordinal
    ensure (counts_from 0 seen.ordinals) ordinals_not_contiguous
    check_contents (record { run_id = run_id; rows = rows; manifest = manifest })

  unfoldable pub validate_rows : List String → List Row → Result CapsuleError ExperimentCapsule
  unfolding see_rows validate_seen same_columns
  validate_rows columns rows = do
    ensure (same_columns columns capsule_columns) bad_columns
    raise_if (elim rows [ [] ↦ true | _ ↦ false ]) no_rows
    seen ← see_rows nothing_seen rows
    validate_seen rows seen

  -- `validate_experiment_capsule`, of the columns and rows that are loaded.
  unfoldable pub validate_experiment_capsule :
      List String → List Row → Option String → Result CapsuleError ℕ
  unfolding validate_rows
  validate_experiment_capsule columns rows expected_run_id = do
    capsule ← validate_rows columns rows
    ensure (elim expected_run_id [ none ↦ true | some s ↦ str_eq capsule.run_id s ]) run_id_mismatch
    ok (length (samples capsule))
