-- ===== src/Evaluation/Capsule/Reader/Extraction.antt =====
-- Artifacts written by evaluation/capsule_artifacts.py and read by evaluation/capsule_reader.py.
use jpapt_v2_2_inspection.Base.{
  ℕ, zero, suc, ◌-◌, ◌*◌, ◌<◌, max, ◌≡◌, refl, sym, ap, ◌∙◌, String, false, none, some, List, [],
  ◌∷◌, ok, arith, length, str_eq, ==_iff, ◌>>=◌,
}
use jpapt_v2_2_inspection.Base.Json.{obj, str, Fields, end, field, find}
use jpapt_v2_2_inspection.Base.Sorting.{sort, sort_of_Sorted}
use jpapt_v2_2_inspection.Evaluation.Capsule.Artifact.{
  Codec, EmbeddedCapsuleArtifact, Part, embedded_metadata, part_at, parts_from, iter_parts,
  is_empty,
}
use jpapt_v2_2_inspection.Evaluation.Capsule.Artifact.Chunks.{
  joined, iter_parts-IsCut, joined-iter_parts,
}
use jpapt_v2_2_inspection.Evaluation.Capsule.Rows.Columns.{Row, empty_row}
use jpapt_v2_2_inspection.Evaluation.Capsule.Rows.Records.{artifact_row}
use jpapt_v2_2_inspection.Evaluation.Capsule.Rows.Stream.{part_rows, holds_text}
use jpapt_v2_2_inspection.Evaluation.Capsule.Reader.{
  ExperimentCapsule, decode_json_object, by_index, rows_of_artifact, artifact_metadata,
  checked_payload, extract_artifact,
}
use jpapt_v2_2_inspection.Evaluation.Capsule.Reader.Parts.{
  group_rows, check_group, check_groups, validate_artifact_rows,
}
use jpapt_v2_2_inspection.Evaluation.Capsule.Reader.PartRows.{
  rows_from, check_group-rows_from, find-merge, group_rows-rows_from, rows_from-Sorted,
  rows_from-indexed, rows_from-joined, str_eq_refl,
}

-- What the reader relies on of `json` for an object: it loads as itself when it has been dumped.
pub record LoadsDumped (codec : Codec) (fields : Fields) : Type 0 where
  pub loads-dumps : codec.loads (codec.dumps (obj fields)) ≡ some (obj fields)
  pub dumps-nonempty : is_empty (codec.dumps (obj fields)) ≡ false

-- Where `iter_parts` returns parts, their rows, in this order, pass the reader's artifact checks.
pub validate_artifact_rows-part_rows :
    (codec : Codec) (self : EmbeddedCapsuleArtifact) (parts : List Part) (run_id : String) (n : ℕ)
    → iter_parts codec self ≡ ok parts
    → validate_artifact_rows codec (part_rows run_id n parts) ≡ ok tt
unfolding validate_artifact_rows check_groups
validate_artifact_rows-part_rows codec self parts run_id n h =
    let cut = iter_parts-IsCut codec self parts h in
    let whole = (joined-iter_parts codec self parts h).0 in
    of_count cut.chunk cut.part_count cut.part_count refl cut.some_part cut.named cut.least
      cut.positive cut.parts_are whole
  where
    of_count :
        (chunk part_count k : ℕ)
        → k ≡ part_count
        → 0 < k
        → is_empty self.artifact_id ≡ false
        → (part_count - 1) * chunk < max 1 (length self.payload)
        → 0 < chunk
        → parts ≡ parts_from codec self chunk part_count 0 k
        → joined parts ≡ self.payload
        → (group_rows [] (part_rows run_id n parts) >>= check_groups codec) ≡ ok tt
    of_count chunk part_count zero e some_part named least positive are whole = absurd (omega arith)
    of_count chunk part_count (suc k) e some_part named least positive are whole =
        let grouped = group_rows-rows_from codec self chunk part_count run_id named n k in
        let sorted =
          sort_of_Sorted by_index _
            (rows_from-Sorted codec self chunk part_count run_id n 0 (suc k)) in
        let checked =
          check_group-rows_from codec self chunk part_count run_id n k e least positive
            (ap joined (sym are) ∙ whole) in
        rw (are, grouped) (one_group sorted checked)
      where
        one_group :
            {rows : List Row}
            → sort by_index rows ≡ rows
            → check_group codec rows ≡ ok tt
            → check_groups codec (record { artifact_id = self.artifact_id; parts = rows } ∷ [])
              ≡ ok tt
        one_group s c = rw (check_groups, s, c) refl

not_external :
    (metadata : Fields)
    → find "location" metadata ≡ none
    → holds_text "location" (embedded_metadata metadata) "external" ≡ false
unfolding holds_text embedded_metadata find
not_external metadata h =
    let e = find-merge "location" (field "location" (str "embedded") end) metadata h in
    rw (e, holds_text) embedded_text
  where
    embedded_text :
        elim (find "location" (field "location" (str "embedded") end)) [
          | some v ↦ elim v [ str t ↦ str_eq t "external" | _ ↦ false ]
          | none ↦ false
        ]
        ≡ false
    embedded_text = refl

module _ (codec : Codec) (self : EmbeddedCapsuleArtifact) (chunk part_count : ℕ)
    (run_id : String) where
  checked_payload-rows_from :
      (n k : ℕ)
      → joined (parts_from codec self chunk part_count 0 (suc k)) ≡ self.payload
      → checked_payload codec
          (part_rows run_id n (parts_from codec self chunk part_count 0 (suc k)))
        ≡ ok self.payload
  unfolding checked_payload part_rows parts_from part_at artifact_row empty_row
  checked_payload-rows_from n k whole =
      let bytes = rows_from-joined codec self chunk part_count run_id n 0 (suc k) ∙ whole in
      let c = (==_iff (length self.payload) (length self.payload)).1 refl in
      let s = str_eq_refl (codec.sha256 self.payload) in rw (bytes, c, s) refl

  artifact_metadata-rows_from :
      LoadsDumped codec (embedded_metadata self.metadata)
      → (capsule : ExperimentCapsule) (n k : ℕ)
      → rows_of_artifact capsule self.artifact_id
        ≡ part_rows run_id n (parts_from codec self chunk part_count 0 (suc k))
      → artifact_metadata codec capsule self.artifact_id ≡ ok (embedded_metadata self.metadata)
  unfolding artifact_metadata decode_json_object part_rows parts_from part_at artifact_row empty_row
  artifact_metadata-rows_from json capsule n k e =
      let a = json.dumps-nonempty in
      let b = json.loads-dumps in rw (e, a, b, artifact_metadata, decode_json_object) refl

  extract_artifact-rows_from :
      LoadsDumped codec (embedded_metadata self.metadata)
      → (capsule : ExperimentCapsule) (n k : ℕ) → find "location" self.metadata ≡ none
      → rows_of_artifact capsule self.artifact_id
        ≡ part_rows run_id n (parts_from codec self chunk part_count 0 (suc k))
      → joined (parts_from codec self chunk part_count 0 (suc k)) ≡ self.payload
      → extract_artifact codec capsule self.artifact_id ≡ ok self.payload
  unfolding extract_artifact part_rows parts_from
  extract_artifact-rows_from json capsule n k metadata e whole =
      let m = artifact_metadata-rows_from json capsule n k e in
      let indexed = rows_from-indexed codec self chunk part_count run_id n 0 (suc k) in
      let sorted =
        sort_of_Sorted by_index (rows_from codec self chunk part_count run_id n 0 (suc k))
          (rows_from-Sorted codec self chunk part_count run_id n 0 (suc k)) in
      let embedded = not_external self.metadata metadata in
      let checked = checked_payload-rows_from n k whole in
      rw (e, indexed, m, embedded, sorted, checked, extract_artifact) refl

-- If the rows that a capsule holds for an artifact are those of the parts that `iter_parts` returned,
-- then extraction returns the artifact's payload: where `json` loads the parts' metadata as it was
-- dumped, and the artifact's metadata has no `location` of its own.
pub extract_artifact-iter_parts :
    (codec : Codec) (self : EmbeddedCapsuleArtifact) (parts : List Part)
    → LoadsDumped codec (embedded_metadata self.metadata)
    → (capsule : ExperimentCapsule) (run_id : String) (n : ℕ) → iter_parts codec self ≡ ok parts
    → find "location" self.metadata ≡ none
    → rows_of_artifact capsule self.artifact_id ≡ part_rows run_id n parts
    → extract_artifact codec capsule self.artifact_id ≡ ok self.payload
extract_artifact-iter_parts codec self parts json capsule run_id n h metadata rows =
    let cut = iter_parts-IsCut codec self parts h in
    let whole = (joined-iter_parts codec self parts h).0 in
    of_count cut.chunk cut.part_count cut.part_count cut.some_part
      (rows ∙ ap (part_rows run_id n) cut.parts_are) (ap joined (sym cut.parts_are) ∙ whole)
  where
    of_count :
        (chunk part_count k : ℕ)
        → 0 < k
        → rows_of_artifact capsule self.artifact_id
          ≡ part_rows run_id n (parts_from codec self chunk part_count 0 k)
        → joined (parts_from codec self chunk part_count 0 k) ≡ self.payload
        → extract_artifact codec capsule self.artifact_id ≡ ok self.payload
    of_count chunk part_count zero some_part e whole = absurd (omega arith)
    of_count chunk part_count (suc k) some_part e whole =
        extract_artifact-rows_from codec self chunk part_count run_id json capsule n k metadata e
          whole
