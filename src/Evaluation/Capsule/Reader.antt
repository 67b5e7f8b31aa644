-- ===== src/Evaluation/Capsule/Reader.antt =====
-- evaluation/capsule_reader.py: a capsule that has been read, its rows by kind, and extraction. The
-- columns have the schema's types (Rows/Columns), so a type test is a test for a missing value.
pub mod Parts
pub mod Rows
pub mod Kinds
pub mod Seen
pub mod Accepted
pub mod PartRows
pub mod Extraction
use jpapt_v2_2_inspection.Base.{
  ℕ, String, Bool, true, false, not, Option, none, some, List, [], ◌∷◌, ◌++◌, map, Result, ok, err,
  ◌>>=◌, ◌>>◌, ensure, raise_if, require, leb, if◌then◌else◌, length, keep, get_elem?, ◌==◌, str_eq,
  any,
}
use jpapt_v2_2_inspection.Base.Int.{le_ℤ, ℤ, pos, negsuc, eq_ℤ}
use jpapt_v2_2_inspection.Base.Distinct.{distinct}
use jpapt_v2_2_inspection.Base.Json.{Json, null, bool, int, real, str, arr, obj, Fields, end, find}
use jpapt_v2_2_inspection.Base.Sorting.{sort}
use jpapt_v2_2_inspection.Base.Text.{leb_text}
use jpapt_v2_2_inspection.Evaluation.Models.{Float64}
use jpapt_v2_2_inspection.Evaluation.Capsule.Artifact.{Codec, is_empty}
use jpapt_v2_2_inspection.Evaluation.Capsule.Rows.Columns.{Row}
use jpapt_v2_2_inspection.Evaluation.Capsule.Rows.Stream.{holds_text}

pub data CapsuleError : Type 0 where
  json_missing invalid_json not_an_object repeated_metric diagnostic_index artifact_not_found :
      CapsuleError
  no_part_index external_artifact size_mismatch sha256_mismatch : CapsuleError
  empty_string bad_part_count part_count_mismatch part_index part_offset part_metadata :
      CapsuleError
  part_sha256_mismatch aggregate_check diagnostic_status : CapsuleError
  bad_columns no_rows bad_schema_version bad_record_kind bad_ordinal duplicate_sample_id :
      CapsuleError
  multiple_run_ids manifest_count manifest_ordinal ordinals_not_contiguous : CapsuleError
  run_context_run_id benchmark_run_id attempted_mismatch run_id_mismatch : CapsuleError

-- `==` on a column.
abbrev pub same_text : Option String → Option String → Bool
same_text none none = true
same_text (some s) (some t) = str_eq s t
same_text _ _ = false

abbrev pub same_int : Option ℤ → Option ℤ → Bool
same_int none none = true
same_int (some a) (some b) = eq_ℤ a b
same_int _ _ = false

-- The object that a decoded value is.
abbrev object_of : Option Json → Result CapsuleError Fields
object_of none = err invalid_json
object_of (some (obj fields)) = ok fields
object_of (some _) = err not_an_object

abbrev missing_object : Bool → Result CapsuleError Fields
missing_object required = if required then err json_missing else ok end

-- `_decode_json_object`
unfoldable pub decode_json_object : Codec → Option String → Bool → Result CapsuleError Fields
decode_json_object codec none required = missing_object required
decode_json_object codec (some raw) required =
    if is_empty raw then missing_object required else object_of (codec.loads raw)

pub record ExperimentCapsule : Type 0 where
  pub run_id : String
  pub rows : List Row
  pub manifest : Row

abbrev pub is_kind : String → Row → Bool
is_kind kind row = same_text row.record_kind (some kind)

abbrev pub rows_of_kind : String → List Row → List Row
rows_of_kind kind rows = keep (is_kind kind) rows

abbrev pub samples : ExperimentCapsule → List Row
samples self = rows_of_kind "sample" self.rows

abbrev pub metrics : ExperimentCapsule → List Row
metrics self = rows_of_kind "metric" self.rows

abbrev pub artifacts : ExperimentCapsule → List Row
artifacts self = rows_of_kind "artifact" self.rows

abbrev pub diagnostics : ExperimentCapsule → List Row
diagnostics self = rows_of_kind "diagnostic" self.rows

unfoldable pub metric : ExperimentCapsule → String → Result CapsuleError (Option Float64)
metric self name =
    elim (keep (λ row. same_text row.metric.metric_name (some name)) (metrics self)) [
      | [] ↦ ok none
      | row ∷ [] ↦ ok row.metric.metric_value
      | row ∷ other ∷ more ↦ err repeated_metric
    ]

-- `d["artifact_part_index"]` as the sort key: `int(None)` raises.
abbrev pub has_index : Row → Bool
has_index row = elim row.artifact.artifact_part_index [ none ↦ false | some i ↦ true ]

-- The index, 0 if there is none: `int(row.get("artifact_part_index") or 0)`.
abbrev pub index_or_zero : Row → ℤ
index_or_zero row = elim row.artifact.artifact_part_index [ none ↦ pos 0 | some i ↦ i ]

abbrev pub by_index : Row → Row → Bool
by_index a b = le_ℤ (index_or_zero a) (index_or_zero b)

abbrev pub payload_of : Row → List ℕ
payload_of row = elim row.artifact.payload [ none ↦ [] | some bytes ↦ bytes ]

-- `b"".join(…)` over the rows' payloads.
abbrev pub joined_payload : List Row → List ℕ
joined_payload [] = []
joined_payload (row ∷ rows) = payload_of row ++ joined_payload rows

abbrev pub all_indexed : List Row → Bool
all_indexed [] = true
all_indexed (row ∷ rows) = if has_index row then all_indexed rows else false

-- `str(row["artifact_id"])`
abbrev id_text : Row → String
id_text row = elim row.artifact.artifact_id [ none ↦ "None" | some s ↦ s ]

unfoldable pub artifact_ids : ExperimentCapsule → List String
unfolding distinct leb_text sort
artifact_ids self = sort leb_text (distinct (map id_text (artifacts self)))

abbrev pub rows_of_artifact : ExperimentCapsule → String → List Row
rows_of_artifact self artifact_id =
    keep (λ row. same_text row.artifact.artifact_id (some artifact_id)) (artifacts self)

-- The bytes that `extract_artifact` writes to the file, of the sorted rows.
unfoldable pub checked_payload : Codec → List Row → Result CapsuleError (List ℕ)
checked_payload codec [] = err artifact_not_found
checked_payload codec (row ∷ rows) = do
  let payload = joined_payload (row ∷ rows)
  ensure (same_int (some (pos (length payload))) row.artifact.artifact_size_raw) size_mismatch
  ensure (same_text (some (codec.sha256 payload)) row.artifact.artifact_sha256) sha256_mismatch
  ok payload

module _ (codec : Codec) (self : ExperimentCapsule) where
  unfoldable pub manifest_metadata : Result CapsuleError Fields
  unfolding decode_json_object
  manifest_metadata = decode_json_object codec self.manifest.metadata_json true

  -- A negative index counts from the end.
  unfoldable pub diagnostic_metadata : ℤ → Result CapsuleError Fields
  unfolding decode_json_object
  diagnostic_metadata index = do
    row ← require (at index) diagnostic_index
    decode_json_object codec row.metadata_json false
    where
      at : ℤ → Option Row
      at (pos i) = get_elem? (diagnostics self) i
      at (negsuc i) = get_elem? (mathlib.Core.List.reverse (diagnostics self)) i

  unfoldable pub artifact_metadata : String → Result CapsuleError Fields
  unfolding decode_json_object
  artifact_metadata artifact_id = elim (rows_of_artifact self artifact_id) [
    | [] ↦ err artifact_not_found
    | row ∷ rows ↦ decode_json_object codec row.metadata_json false
  ]

  unfoldable pub extract_artifact : String → Result CapsuleError (List ℕ)
  unfolding artifact_metadata holds_text checked_payload sort
  extract_artifact artifact_id = elim (rows_of_artifact self artifact_id) [
    | [] ↦ err artifact_not_found
    | row ∷ rows ↦ do
      ensure (all_indexed (row ∷ rows)) no_part_index
      metadata ← artifact_metadata artifact_id
      raise_if (holds_text "location" metadata "external") external_artifact
      checked_payload codec (sort by_index (row ∷ rows))
  ]
