-- ===== src/Evaluation/Capsule/Reader/Accepted.antt =====
-- What holds of the rows that evaluation/capsule_reader.py accepts.
use jpapt_v2_2_inspection.Base.{
  ℕ, suc, ◌≡◌, refl, sym, ap, subst, ◌∙◌, String, Bool, true, false, ◌||◌, Option, none, some, List,
  [], ◌∷◌, map, ok, ok-injective, >>=-eq-ok, raise_if-eq-ok, ensure-eq-ok, arith, length, str_eq,
  eq_iff,
}
use jpapt_v2_2_inspection.Base.Distinct.{Distinct}
use jpapt_v2_2_inspection.Base.Int.{ℤ, pos, eq_ℤ_iff}
use jpapt_v2_2_inspection.Evaluation.Capsule.Artifact.{Codec}
use jpapt_v2_2_inspection.Evaluation.Capsule.Rows.Columns.{Row, capsule_columns}
use jpapt_v2_2_inspection.Evaluation.Capsule.Rows.Order.{Numbered}
use jpapt_v2_2_inspection.Evaluation.Capsule.Reader.{
  bad_columns, no_rows, manifest_ordinal, ordinals_not_contiguous, ExperimentCapsule, samples,
  artifacts, diagnostics, manifest_metadata, run_context_run_id, benchmark_run_id,
  attempted_mismatch, rows_of_kind, same_int,
}
use jpapt_v2_2_inspection.Evaluation.Capsule.Reader.Parts.{
  validate_artifact_rows, validate_diagnostic_rows,
}
use jpapt_v2_2_inspection.Evaluation.Capsule.Reader.Rows.{
  nothing_seen, see_rows, counts_from, same_columns, the_run_id, the_manifest, validate_seen,
  validate_rows, object_of_run, attempted_agrees, check_contents,
}
use jpapt_v2_2_inspection.Evaluation.Capsule.Reader.Seen.{Matches, see_rows-RowsSeen}
use jpapt_v2_2_inspection.Evaluation.Capsule.Reader.Kinds.{sample_ids_of}

Matches-Numbered :
    (run_id : String) (n : ℕ) (rows : List Row) (ns : List ℕ)
    → Matches (run_id ∷ []) rows ns
    → counts_from n ns ≡ true
    → Numbered run_id n rows
unfolding Matches counts_from
Matches-Numbered run_id n [] ns m h = tt
Matches-Numbered run_id n (row ∷ rows) [] m h = absurd m
Matches-Numbered run_id n (row ∷ rows) (k ∷ ns) (schema, (s, is, among), place, rest) h =
    let (e, h₁) : (k ≡ n) × (counts_from (suc n) ns ≡ true) = ground arith in
    (
      record {
        schema = schema;
        run = is ∙ ap some ((eq_iff s run_id).0 (only (str_eq s run_id) among));
        place = place ∙ ap (λ i. some (pos i)) e;
      },
      Matches-Numbered run_id (suc n) rows ns rest h₁,
    )
  where
    only : (b : Bool) → (b || false) ≡ true → b ≡ true
    only b e = ground arith

-- What acceptance promises of a capsule.
pub record IsAccepted (rows : List Row) (capsule : ExperimentCapsule) : Type 0 where
  pub rows_are : capsule.rows ≡ rows
  pub numbered : Numbered capsule.run_id 0 rows
  pub one_manifest : rows_of_kind "manifest" rows ≡ capsule.manifest ∷ []
  pub manifest_first : capsule.manifest.ordinal ≡ some (pos 0)
  pub sample_ids : List String
  pub are_sample_ids : map some sample_ids ≡ sample_ids_of rows
  pub distinct : Distinct sample_ids

the_run_id-eq-ok : (ids : List String) {s : String} → the_run_id ids ≡ ok s → ids ≡ s ∷ []
unfolding the_run_id
the_run_id-eq-ok [] h = cc
the_run_id-eq-ok (s ∷ []) h = cc
the_run_id-eq-ok (s ∷ t ∷ ids) h = cc

the_manifest-eq-ok : (ms : List Row) {m : Row} → the_manifest ms ≡ ok m → ms ≡ m ∷ []
unfolding the_manifest
the_manifest-eq-ok [] h = cc
the_manifest-eq-ok (m ∷ []) h = cc
the_manifest-eq-ok (m ∷ n ∷ ms) h = cc

same_int-eq : (o : Option ℤ) (z : ℤ) → same_int o (some z) ≡ true → o ≡ some z
same_int-eq none z h = cc
same_int-eq (some y) z h = ap some ((eq_ℤ_iff y z).0 h)

check_contents-eq :
    (codec : Codec) (c : ExperimentCapsule) {d : ExperimentCapsule}
    → check_contents codec c ≡ ok d
    → c ≡ d
unfolding check_contents
check_contents-eq codec c h =
    let (metadata, _, h₁) = >>=-eq-ok (manifest_metadata codec c) _ h in
    let (_, _, h₂) =
      >>=-eq-ok (object_of_run "run_context" c.run_id metadata run_context_run_id) _ h₁ in
    let (benchmark, _, h₃) =
      >>=-eq-ok (object_of_run "benchmark" c.run_id metadata benchmark_run_id) _ h₂ in
    let (_, h₄) =
      ensure-eq-ok (attempted_agrees benchmark (length (samples c))) attempted_mismatch _ h₃ in
    let (_, _, h₅) = >>=-eq-ok (validate_artifact_rows codec (artifacts c)) _ h₄ in
    let (_, _, h₆) = >>=-eq-ok (validate_diagnostic_rows codec (diagnostics c)) _ h₅ in
    ok-injective h₆

-- If the validation accepts rows, the capsule holds exactly these rows, they are numbered 0, 1, 2, …
-- and all carry the schema version and the capsule's run id, its manifest is the only manifest row
-- and the row numbered 0, and the sample rows have ids, no two the same.
pub validate_rows-IsAccepted :
    (codec : Codec) (columns : List String) (rows : List Row) (capsule : ExperimentCapsule)
    → validate_rows codec columns rows ≡ ok capsule
    → IsAccepted rows capsule
unfolding validate_rows validate_seen
validate_rows-IsAccepted codec columns rows capsule h =
    let (_, h₁) = ensure-eq-ok (same_columns columns capsule_columns) bad_columns _ h in
    let (_, h₂) = raise_if-eq-ok (elim rows [ [] ↦ true | _ ↦ false ]) no_rows _ h₁ in
    let (seen, looped, h₃) = >>=-eq-ok (see_rows nothing_seen rows) _ h₂ in
    let (run_id, one, h₄) = >>=-eq-ok (the_run_id seen.run_ids) _ h₃ in
    let (manifest, sole, h₅) = >>=-eq-ok (the_manifest seen.manifests) _ h₄ in
    let (zeroth, h₆) =
      ensure-eq-ok (same_int manifest.ordinal (some (pos 0))) manifest_ordinal _ h₅ in
    let (counted, h₇) = ensure-eq-ok (counts_from 0 seen.ordinals) ordinals_not_contiguous _ h₆ in
    let all = see_rows-RowsSeen nothing_seen rows seen looped in
    subst (IsAccepted rows) (check_contents-eq codec _ h₇) (record {
      rows_are = refl;
      numbered =
          Matches-Numbered run_id 0 rows all.new_numbers
            (subst (λ ids. Matches ids rows all.new_numbers) (the_run_id-eq-ok _ one) all.each)
            (subst (λ ns. counts_from 0 ns ≡ true) all.numbers counted);
      one_manifest = sym all.manifest ∙ the_manifest-eq-ok _ sole;
      manifest_first = same_int-eq _ _ zeroth;
      sample_ids = all.new_ids;
      are_sample_ids = all.of_rows;
      distinct = subst Distinct all.ids (all.fresh tt);
    })
