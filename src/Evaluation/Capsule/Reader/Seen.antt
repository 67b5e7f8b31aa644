-- ===== src/Evaluation/Capsule/Reader/Seen.antt =====
-- What the loop of `_validate_rows` (evaluation/capsule_reader.py) collects from the rows.
use jpapt_v2_2_inspection.Base.{
  ℕ, ◌≡◌, refl, sym, ap, subst, ◌∙◌, String, Bool, true, inl, inr, some, List, [], ◌∷◌, ◌++◌, map,
  append-nil, append_assoc, ok, ok-injective, >>=-eq-ok, ensure-eq-ok, Bool-cases, any, keep,
  str_eq,
}
use jpapt_v2_2_inspection.Base.Distinct.{Distinct}
use jpapt_v2_2_inspection.Base.Int.{pos}
use jpapt_v2_2_inspection.Evaluation.Capsule.Rows.Columns.{Row, experiment_capsule_schema_version}
use jpapt_v2_2_inspection.Evaluation.Capsule.Reader.{
  bad_schema_version, bad_record_kind, rows_of_kind, is_kind, same_text,
}
use jpapt_v2_2_inspection.Evaluation.Capsule.Reader.Parts.{require_nonempty_string}
use jpapt_v2_2_inspection.Evaluation.Capsule.Reader.Rows.{
  allowed_record_kind, Seen, add_id, require_ordinal, see_row, see_rows,
}
use jpapt_v2_2_inspection.Evaluation.Capsule.Reader.Kinds.{
  sample_ids_of, same_text-eq, add_id-mem, add_id-keep, require_nonempty_string-eq-ok,
  require_ordinal-eq-ok, see_kind-KindSeen,
}

-- What one row adds.
record RowSeen (row : Row) (seen next : Seen) : Type 0 where
  schema : row.schema_version ≡ some experiment_capsule_schema_version
  run_id : String
  run : row.run_id ≡ some run_id
  runs : next.run_ids ≡ add_id run_id seen.run_ids
  number : ℕ
  place : row.ordinal ≡ some (pos number)
  numbers : next.ordinals ≡ seen.ordinals ++ number ∷ []
  manifest : next.manifests ≡ seen.manifests ++ rows_of_kind "manifest" (row ∷ [])
  new_ids : List String
  ids : next.sample_ids ≡ seen.sample_ids ++ new_ids
  of_row : map some new_ids ≡ sample_ids_of (row ∷ [])
  fresh : Distinct seen.sample_ids → Distinct next.sample_ids

see_row-RowSeen :
    (seen : Seen) (row : Row) (next : Seen) → see_row seen row ≡ ok next → RowSeen row seen next
unfolding see_row
see_row-RowSeen seen row next h =
    let (schema, h₁) =
      ensure-eq-ok (same_text row.schema_version (some experiment_capsule_schema_version))
        bad_schema_version _ h in
    let (run_id, run, h₂) = >>=-eq-ok (require_nonempty_string row.run_id) _ h₁ in
    let (kind, named, h₃) = >>=-eq-ok (require_nonempty_string row.record_kind) _ h₂ in
    let (_, h₄) = ensure-eq-ok (allowed_record_kind kind) bad_record_kind _ h₃ in
    let (number, place, h₅) = >>=-eq-ok (require_ordinal row.ordinal) _ h₄ in
    let k = see_kind-KindSeen kind row _ next (require_nonempty_string-eq-ok _ named) h₅ in
    record {
      schema = same_text-eq _ _ schema;
      run_id = run_id;
      run = require_nonempty_string-eq-ok _ run;
      runs = k.runs;
      number = number;
      place = require_ordinal-eq-ok _ place;
      numbers = k.numbers;
      manifest = k.manifest;
      new_ids = k.new_ids;
      ids = k.ids;
      of_row = k.of_row;
      fresh = k.fresh;
    }

-- Each row with the schema version, a run id of the set, and the next number of the list.
unfoldable pub Matches : List String → List Row → List ℕ → Type 0
Matches runs [] [] = Unit
Matches runs [] (n ∷ ns) = ⊥
Matches runs (row ∷ rows) [] = ⊥
Matches runs (row ∷ rows) (n ∷ ns) =
    (row.schema_version ≡ some experiment_capsule_schema_version)
    × ((run_id : String) × (row.run_id ≡ some run_id) × (any (str_eq run_id) runs ≡ true))
    × (row.ordinal ≡ some (pos n))
    × Matches runs rows ns

-- What the whole loop adds.
pub record RowsSeen (rows : List Row) (seen next : Seen) : Type 0 where
  pub kept : (s : String) → any (str_eq s) seen.run_ids ≡ true → any (str_eq s) next.run_ids ≡ true
  pub new_numbers : List ℕ
  pub numbers : next.ordinals ≡ seen.ordinals ++ new_numbers
  pub each : Matches next.run_ids rows new_numbers
  pub manifest : next.manifests ≡ seen.manifests ++ rows_of_kind "manifest" rows
  pub new_ids : List String
  pub ids : next.sample_ids ≡ seen.sample_ids ++ new_ids
  pub of_rows : map some new_ids ≡ sample_ids_of rows
  pub fresh : Distinct seen.sample_ids → Distinct next.sample_ids

keep-cons :
    (p : Row → Bool) (row : Row) (rows : List Row)
    → keep p (row ∷ []) ++ keep p rows ≡ keep p (row ∷ rows)
keep-cons p row rows = elim (Bool-cases (p row)) [ inl e ↦ rw e refl | inr e ↦ rw e refl ]

map-append : {A B : Type 0} (f : A → B) (xs ys : List A) → map f (xs ++ ys) ≡ map f xs ++ map f ys
map-append f [] ys = refl
map-append f (x ∷ xs) ys = ap (λ (l : List _). f x ∷ l) (map-append f xs ys)

chain :
    {A : Type 0} (xs us vs : List A) {ys zs : List A}
    → ys ≡ xs ++ us
    → zs ≡ ys ++ vs
    → zs ≡ xs ++ (us ++ vs)
chain xs us vs e₁ e₂ = e₂ ∙ ap (λ l. l ++ vs) e₁ ∙ append_assoc xs us vs

pub see_rows-RowsSeen :
    (seen : Seen) (rows : List Row) (next : Seen)
    → see_rows seen rows ≡ ok next
    → RowsSeen rows seen next
unfolding see_rows Matches
see_rows-RowsSeen seen [] next h = subst (RowsSeen [] seen) (ok-injective h) (record {
  kept = λ s m. m;
  new_numbers = [];
  numbers = sym (append-nil seen.ordinals);
  each = tt;
  manifest = sym (append-nil seen.manifests);
  new_ids = [];
  ids = sym (append-nil seen.sample_ids);
  of_rows = refl;
  fresh = λ d. d;
})
see_rows-RowsSeen seen (row ∷ rows) next h =
    let (mid, first, h₁) = >>=-eq-ok (see_row seen row) _ h in
    let a = see_row-RowSeen seen row mid first in
    let b = see_rows-RowsSeen mid rows next h₁ in
    record {
      kept = λ s m. b.kept s (
          subst (λ ids. any (str_eq s) ids ≡ true) (sym a.runs)
            (add_id-keep s a.run_id seen.run_ids m));
      new_numbers = a.number ∷ b.new_numbers;
      numbers = chain _ _ _ a.numbers b.numbers;
      each = (
        a.schema,
        (
          a.run_id,
          a.run,
          b.kept a.run_id (
              subst (λ ids. any (str_eq a.run_id) ids ≡ true) (sym a.runs)
                (add_id-mem a.run_id seen.run_ids)),
        ),
        a.place,
        b.each,
      );
      manifest =
          chain _ _ _ a.manifest b.manifest
          ∙ ap (λ l. seen.manifests ++ l) (keep-cons (is_kind "manifest") row rows);
      new_ids = a.new_ids ++ b.new_ids;
      ids = chain _ _ _ a.ids b.ids;
      of_rows =
          map-append some a.new_ids b.new_ids
          ∙ (let e₁ = a.of_row in
              let e₂ = b.of_rows in
              rw (e₁, e₂)
                (sym (
                    map-append (λ r. r.sample.sample_id) (rows_of_kind "sample" (row ∷ []))
                      (rows_of_kind "sample" rows))
                  ∙ ap (map (λ r. r.sample.sample_id)) (keep-cons (is_kind "sample") row rows)));
      fresh = λ d. b.fresh (a.fresh d);
    }
