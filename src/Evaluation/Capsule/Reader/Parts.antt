-- ===== src/Evaluation/Capsule/Reader/Parts.antt =====
-- evaluation/capsule_reader.py: `_validate_artifact_rows` and `_validate_diagnostic_rows`.
use jpapt_v2_2_inspection.Base.{
  ℕ, suc, ◌+◌, String, Bool, true, false, ◌&&◌, Option, none, some, List, [], ◌∷◌, ◌++◌, Result, ok,
  err, ◌>>=◌, ◌>>◌, ensure, if◌then◌else◌, length, str_eq,
}
use jpapt_v2_2_inspection.Base.Int.{ℤ, pos, leb_ℤ}
use jpapt_v2_2_inspection.Base.Sorting.{sort}
use jpapt_v2_2_inspection.Evaluation.Capsule.Artifact.{Codec, is_empty}
use jpapt_v2_2_inspection.Evaluation.Capsule.Rows.Columns.{Row}
use jpapt_v2_2_inspection.Evaluation.Capsule.Rows.Records.{allowed_diagnostic_status}
use jpapt_v2_2_inspection.Evaluation.Capsule.Reader.{
  CapsuleError, empty_string, bad_part_count, part_count_mismatch, part_index, part_offset,
  part_metadata, part_sha256_mismatch, aggregate_check, diagnostic_status, same_text, same_int,
  by_index, joined_payload, decode_json_object,
}

-- `_require_nonempty_string`
unfoldable pub require_nonempty_string : Option String → Result CapsuleError String
require_nonempty_string none = err empty_string
require_nonempty_string (some s) = if is_empty s then err empty_string else ok s

-- The rows by artifact, in the order of each artifact's first row.
pub record Group : Type 0 where
  pub artifact_id : String
  pub parts : List Row

-- `groups.setdefault(artifact_id, []).append(row)`
unfoldable pub add_to_group : String → Row → List Group → List Group
add_to_group artifact_id row [] = record { artifact_id = artifact_id; parts = row ∷ [] } ∷ []
add_to_group artifact_id row (group ∷ groups) =
    if str_eq group.artifact_id artifact_id
    then record group { parts = group.parts ++ row ∷ [] } ∷ groups
    else group ∷ add_to_group artifact_id row groups

unfoldable pub group_rows : List Group → List Row → Result CapsuleError (List Group)
unfolding require_nonempty_string add_to_group
group_rows groups [] = ok groups
group_rows groups (row ∷ rows) = do
  artifact_id ← require_nonempty_string row.artifact.artifact_id
  group_rows (add_to_group artifact_id row groups) rows

-- The columns that all parts of an artifact share.
abbrev pub same_common : Row → Row → Bool
same_common a b =
    same_text a.artifact.artifact_name b.artifact.artifact_name
    && same_text a.artifact.mime_type b.artifact.mime_type
    && same_text a.artifact.artifact_sha256 b.artifact.artifact_sha256
    && same_int a.artifact.artifact_size_raw b.artifact.artifact_size_raw

-- The count that the first part gives, which has to be positive and the number of parts.
abbrev pub check_count : Option ℤ → ℕ → Result CapsuleError (Unit {0})
check_count none n = err bad_part_count
check_count (some count) n =
    if leb_ℤ count 0
    then err bad_part_count
    else ensure (same_int (some (pos n)) (some count)) part_count_mismatch

module _ (codec : Codec) where
  -- The offset after a part, and whether an embedded part has been seen.
  unfoldable pub check_payload :
      Option (List ℕ) → Option String → ℕ → Bool → Result CapsuleError (ℕ × Bool)
  check_payload none part_sha256 offset embedded = ok (offset, embedded)
  check_payload (some payload) part_sha256 offset embedded = do
    ensure (same_text (some (codec.sha256 payload)) part_sha256) part_sha256_mismatch
    ok (offset + length payload, true)

  -- The loop over an artifact's parts: it returns whether any part has a payload.
  unfoldable pub check_parts : Row → ℕ → ℕ → Bool → List Row → Result CapsuleError Bool
  unfolding check_payload
  check_parts first index offset embedded [] = ok embedded
  check_parts first index offset embedded (part ∷ parts) = do
    ensure (same_int part.artifact.artifact_part_index (some (pos index))) part_index
    ensure (same_int part.artifact.artifact_offset (some (pos offset))) part_offset
    ensure (same_common part first) part_metadata
    after ← check_payload part.artifact.payload part.artifact.artifact_part_sha256 offset embedded
    check_parts first (suc index) after.0 after.1 parts

  abbrev pub check_aggregate : Row → List Row → Bool → Result CapsuleError (Unit {0})
  check_aggregate first parts embedded =
      if embedded
      then ensure
          (same_int (some (pos (length (joined_payload parts)))) first.artifact.artifact_size_raw
            && same_text (some (codec.sha256 (joined_payload parts)))
                first.artifact.artifact_sha256)
          aggregate_check
      else ok tt

  -- The checks of one artifact's sorted parts.
  unfoldable pub check_group : List Row → Result CapsuleError (Unit {0})
  unfolding check_parts
  check_group [] = ok tt
  check_group (first ∷ more) = do
    check_count first.artifact.artifact_part_count (length (first ∷ more))
    embedded ← check_parts first 0 0 false (first ∷ more)
    check_aggregate first (first ∷ more) embedded

  unfoldable pub check_groups : List Group → Result CapsuleError (Unit {0})
  unfolding check_group sort
  check_groups [] = ok tt
  check_groups (group ∷ groups) = do check_group (sort by_index group.parts); check_groups groups

  -- `_validate_artifact_rows`
  unfoldable pub validate_artifact_rows : List Row → Result CapsuleError (Unit {0})
  unfolding group_rows check_groups
  validate_artifact_rows rows = do groups ← group_rows [] rows; check_groups groups

  -- `_validate_diagnostic_rows`
  unfoldable pub validate_diagnostic_rows : List Row → Result CapsuleError (Unit {0})
  unfolding require_nonempty_string decode_json_object
  validate_diagnostic_rows [] = ok tt
  validate_diagnostic_rows (row ∷ rows) = do
    _ ← require_nonempty_string row.name
    _ ← require_nonempty_string row.category
    status ← require_nonempty_string row.status
    ensure (allowed_diagnostic_status status) diagnostic_status
    _ ← decode_json_object codec row.metadata_json false
    validate_diagnostic_rows rows
