-- ===== src/Contracts/Revisions/Roundtrip.antt =====
-- A valid revision snapshot is read back from its dictionary as JSON writes it (contracts.py,
-- contract_io.py).
use jpapt_v2_2_inspection.Base.{
  ℕ, ◌≡◌, refl, ap, err, String, Bool, some, List, [], ◌∷◌, ok, >>=-ok, >>=-eq-ok, raise_if-eq-ok,
  arith, any, str_eq,
}
use jpapt_v2_2_inspection.Base.Json.{
  Json, str, arr, Fields, find, keys, obj, end, field, cons, as_json, as_items, as_fields,
}
use jpapt_v2_2_inspection.Contracts.Checks.{
  duplicate_entry, not_array, exact, string_of, array_of, require_sha256, require_config_version,
}
use jpapt_v2_2_inspection.Contracts.Revisions.{
  RuntimeRevisionSnapshot, ReferenceRevisionSnapshot, EvaluationSchemaRevisionSnapshot,
  DatasetRevisionEntry, RevisionSnapshot, validate_runtime, validate_reference, validate_evaluation,
  validate_entry, validate_entries, validate_datasets, catalog_dict, runtime_dict, reference_dict,
  evaluation_dict, entry_dict, entries_dict, to_dict, validate,
}
use jpapt_v2_2_inspection.Contracts.Revisions.Parse.{
  Parts, read_runtime, read_reference, read_evaluation, read_entry, read_entries, parts_of,
  read_snapshot, parse_revision_snapshot,
}

abbrev fields_of : Json → Fields
fields_of (obj fields) = fields
fields_of _ = end

runtime_back :
    (r : RuntimeRevisionSnapshot)
    → validate_runtime r ≡ ok tt
    → read_runtime (fields_of (runtime_dict r)) (fields_of (catalog_dict r.catalog)) ≡ ok r
unfolding validate_runtime read_runtime find
runtime_back r h = ground arith

reference_back :
    (r : ReferenceRevisionSnapshot)
    → validate_reference r ≡ ok tt
    → read_reference (fields_of (reference_dict r)) ≡ ok r
unfolding validate_reference read_reference find exact keys
reference_back r h = ground arith

evaluation_back :
    (e : EvaluationSchemaRevisionSnapshot)
    → validate_evaluation e ≡ ok tt
    → read_evaluation (fields_of (evaluation_dict e)) ≡ ok e
unfolding validate_evaluation read_evaluation find
evaluation_back e h = ground arith

entry_back :
    (e : DatasetRevisionEntry) → validate_entry e ≡ ok tt → read_entry (entry_dict e) ≡ ok e
unfolding validate_entry read_entry find exact keys
entry_back e h = ground arith

entries_back :
    (ids : List String) (es : List DatasetRevisionEntry)
    → validate_entries ids es ≡ ok tt
    → read_entries (entries_dict es) ≡ ok es
unfolding validate_entries read_entries entries_dict
entries_back ids [] h = refl
entries_back ids (e ∷ es) h =
    let (_, valid, h₁) = >>=-eq-ok (validate_entry e) _ h in
    let (_, h₂) = raise_if-eq-ok (any (str_eq e.id) ids) duplicate_entry _ h₁ in
    >>=-ok (read_entry (entry_dict e)) _ (entry_back e valid)
      (>>=-ok (read_entries (entries_dict es)) _ (entries_back (e.id ∷ ids) es h₂) refl)

entries_json : (es : List DatasetRevisionEntry) → as_items (entries_dict es) ≡ entries_dict es
unfolding as_items as_json as_fields entries_dict
entries_json [] = refl
entries_json (e ∷ es) = ap (cons (entry_dict e)) (entries_json es)

parts : RevisionSnapshot → Parts
parts s = record {
  raw = fields_of (as_json (to_dict s));
  runtime = fields_of (runtime_dict s.runtime);
  catalog = fields_of (catalog_dict s.runtime.catalog);
  reference = fields_of (reference_dict s.reference);
  evaluation = fields_of (evaluation_dict s.evaluation_schema);
  datasets =
      field "document_sha256" (str s.datasets.document_sha256)
        (field "entries" (arr (as_items (entries_dict s.datasets.entries))) end);
}

parts_back : (s : RevisionSnapshot) → parts_of (as_json (to_dict s)) ≡ ok (parts s)
unfolding parts_of to_dict parts find exact keys as_json as_fields
parts_back s = refl

hash_text : (s : String) → require_sha256 s ≡ ok tt → string_of (some (str s)) ≡ ok s
hash_text s h = ground arith

version_text :
    (s : String) (decimal : ℕ → Bool)
    → require_config_version decimal s ≡ ok tt
    → string_of (some (str s)) ≡ ok s
version_text s decimal h = ground arith

entries_found :
    (s : RevisionSnapshot)
    → array_of (find "entries" (parts s).datasets) ≡ ok (entries_dict s.datasets.entries)
unfolding parts find
entries_found s = ap ok (entries_json s.datasets.entries)

-- The dictionary itself holds the entries as a tuple, which is not the list that the parser asks for.
tuple_refused :
    (decimal : ℕ → Bool) (s : RevisionSnapshot)
    → parse_revision_snapshot decimal (to_dict s) ≡ err not_array
unfolding parse_revision_snapshot parts_of to_dict find exact keys
tuple_refused decimal s = refl

read_back :
    (decimal : ℕ → Bool) (s : RevisionSnapshot)
    → validate decimal s ≡ ok tt
    → (read_entries (entries_dict s.datasets.entries) ≡ ok s.datasets.entries)
      × (read_snapshot (parts s) s.datasets.entries ≡ ok s)
unfolding validate validate_datasets read_snapshot parts to_dict find as_json as_fields
read_back decimal s h =
    let (_, versioned, h₁) = >>=-eq-ok (require_config_version decimal s.config_version) _ h in
    let (_, bundled, h₂) = >>=-eq-ok (require_sha256 s.bundle_sha256) _ h₁ in
    let (_, runtime, h₃) = >>=-eq-ok (validate_runtime s.runtime) _ h₂ in
    let (_, reference, h₄) = >>=-eq-ok (validate_reference s.reference) _ h₃ in
    let (_, evaluation, h₅) = >>=-eq-ok (validate_evaluation s.evaluation_schema) _ h₄ in
    let (_, datasets, _) = >>=-eq-ok (validate_datasets s.datasets) _ h₅ in
    let (_, hashed, entries) = >>=-eq-ok (require_sha256 s.datasets.document_sha256) _ datasets in
    (
      entries_back [] s.datasets.entries entries,
      >>=-ok (string_of (some (str s.config_version))) _ (version_text _ decimal versioned) (
          >>=-ok (string_of (some (str s.bundle_sha256))) _ (hash_text _ bundled) (
            >>=-ok (read_runtime (parts s).runtime (parts s).catalog) _
              (runtime_back s.runtime runtime)
              (>>=-ok (read_reference (parts s).reference) _ (reference_back s.reference reference)
                (>>=-ok (read_evaluation (parts s).evaluation) _
                  (evaluation_back s.evaluation_schema evaluation)
                  (>>=-ok (string_of (some (str s.datasets.document_sha256))) _ (hash_text _ hashed)
                    refl))))),
    )

-- A snapshot that is valid is read back as it is from its dictionary as JSON writes it, where the
-- tuple of the entries is an array; from the dictionary itself no snapshot is read, since the parser
-- asks for a list.
pub parse_revision_snapshot-to_dict :
    (decimal : ℕ → Bool) (s : RevisionSnapshot)
    → validate decimal s ≡ ok tt
    → (parse_revision_snapshot decimal (as_json (to_dict s)) ≡ ok s)
      × (parse_revision_snapshot decimal (to_dict s) ≡ err not_array)
unfolding parse_revision_snapshot
parse_revision_snapshot-to_dict decimal s h =
    let (entries, snapshot) = read_back decimal s h in
    (rw (parts_back s, entries_found s, entries, snapshot, h) refl, tuple_refused decimal s)
