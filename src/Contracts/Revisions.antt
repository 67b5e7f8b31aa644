-- ===== src/Contracts/Revisions.antt =====
-- The revision snapshot of contracts.py, its validation and `to_dict`. The parser of
-- contract_io.py is the child Parse.
pub mod Parse
pub mod Roundtrip
use jpapt_v2_2_inspection.Base.{
  ℕ, String, Bool, true, false, Option, none, some, List, [], ◌∷◌, ◌++◌, Result, ok, err, ◌>>=◌,
  ◌>>◌, raise_if, str_eq, any,
}
use jpapt_v2_2_inspection.Base.Json.{
  Json, str, tuple, obj, Items, nil, cons, Fields, end, field, find, keys,
}
use jpapt_v2_2_inspection.Contracts.Strip.{is_blank}
use jpapt_v2_2_inspection.Contracts.Checks.{
  ContractError, blank, not_text, duplicate_entry, is_sha256, is_config_version, require_nonempty,
  require_sha256, require_config_version, contains_null, reject_nulls, object_of, exact, string_of,
  array_of,
}

pub record CatalogReference : Type 0 where
  pub id : String
  pub sha256 : String

pub record RepoRevisionIdentity : Type 0 where
  pub repo_id : String
  pub revision : String

pub record RuntimeRevisionSnapshot : Type 0 where
  pub document_sha256 : String
  pub catalog : CatalogReference
  pub profile_set : String

pub record ReferenceRevisionSnapshot : Type 0 where
  pub document_sha256 : String
  pub development_artifact : RepoRevisionIdentity
  pub upstream : RepoRevisionIdentity
  pub tokenizer : RepoRevisionIdentity
  pub reference_id : String
  pub reference_revision : String
  pub canonical_framework : String

pub record EvaluationSchemaRevisionSnapshot : Type 0 where
  pub document_sha256 : String
  pub schema_id : String
  pub schema_revision : String

pub record DatasetRevisionEntry : Type 0 where
  pub id : String
  pub repo_id : String
  pub revision : String
  pub subset : String
  pub split : String
  pub sha256 : String
  pub manifest : String

pub record DatasetsRevisionSnapshot : Type 0 where
  pub document_sha256 : String
  pub entries : List DatasetRevisionEntry

pub record RevisionSnapshot : Type 0 where
  pub config_version : String
  pub bundle_sha256 : String
  pub runtime : RuntimeRevisionSnapshot
  pub reference : ReferenceRevisionSnapshot
  pub evaluation_schema : EvaluationSchemaRevisionSnapshot
  pub datasets : DatasetsRevisionSnapshot

-- `validate` of each.
unfoldable pub validate_catalog : CatalogReference → Result ContractError (Unit {0})
validate_catalog c = do require_nonempty c.id; require_sha256 c.sha256

unfoldable pub validate_identity : RepoRevisionIdentity → Result ContractError (Unit {0})
validate_identity i = do require_nonempty i.repo_id; require_nonempty i.revision

unfoldable pub validate_runtime : RuntimeRevisionSnapshot → Result ContractError (Unit {0})
unfolding validate_catalog
validate_runtime r = do
  require_sha256 r.document_sha256
  validate_catalog r.catalog
  require_nonempty r.profile_set

unfoldable pub validate_reference : ReferenceRevisionSnapshot → Result ContractError (Unit {0})
unfolding validate_identity
validate_reference r = do
  require_sha256 r.document_sha256
  validate_identity r.development_artifact
  validate_identity r.upstream
  validate_identity r.tokenizer
  require_nonempty r.reference_id
  require_nonempty r.reference_revision
  require_nonempty r.canonical_framework

unfoldable pub validate_evaluation :
    EvaluationSchemaRevisionSnapshot → Result ContractError (Unit {0})
validate_evaluation e = do
  require_sha256 e.document_sha256
  require_nonempty e.schema_id
  require_nonempty e.schema_revision

unfoldable pub validate_entry : DatasetRevisionEntry → Result ContractError (Unit {0})
validate_entry e = do
  require_nonempty e.id
  require_nonempty e.repo_id
  require_nonempty e.revision
  require_nonempty e.subset
  require_nonempty e.split
  require_sha256 e.sha256
  require_nonempty e.manifest

-- The loop over the entries, with the ids seen so far.
unfoldable pub validate_entries :
    List String → List DatasetRevisionEntry → Result ContractError (Unit {0})
unfolding validate_entry
validate_entries ids [] = ok tt
validate_entries ids (e ∷ rest) = do
  validate_entry e
  raise_if (any (str_eq e.id) ids) duplicate_entry
  validate_entries (e.id ∷ ids) rest

unfoldable pub validate_datasets : DatasetsRevisionSnapshot → Result ContractError (Unit {0})
unfolding validate_entries
validate_datasets d = do require_sha256 d.document_sha256; validate_entries [] d.entries

-- `asdict` of each, which leaves the entries a tuple.
abbrev pub catalog_dict : CatalogReference → Json
catalog_dict c = obj (field "id" (str c.id) (field "sha256" (str c.sha256) end))

abbrev pub identity_dict : RepoRevisionIdentity → Json
identity_dict i = obj (field "repo_id" (str i.repo_id) (field "revision" (str i.revision) end))

abbrev pub runtime_dict : RuntimeRevisionSnapshot → Json
runtime_dict r = obj (
    field "document_sha256" (str r.document_sha256)
      (field "catalog" (catalog_dict r.catalog) (field "profile_set" (str r.profile_set) end)))

abbrev pub reference_dict : ReferenceRevisionSnapshot → Json
reference_dict r = obj (
    field "document_sha256" (str r.document_sha256) (
      field "development_artifact" (identity_dict r.development_artifact) (
        field "upstream" (identity_dict r.upstream) (
          field "tokenizer" (identity_dict r.tokenizer) (
            field "reference_id" (str r.reference_id) (
              field "reference_revision" (str r.reference_revision)
                (field "canonical_framework" (str r.canonical_framework) end)))))))

abbrev pub evaluation_dict : EvaluationSchemaRevisionSnapshot → Json
evaluation_dict e = obj (
    field "document_sha256" (str e.document_sha256)
      (field "schema_id" (str e.schema_id) (field "schema_revision" (str e.schema_revision) end)))

abbrev pub entry_dict : DatasetRevisionEntry → Json
entry_dict e = obj (
    field "id" (str e.id) (
      field "repo_id" (str e.repo_id) (
        field "revision" (str e.revision) (
          field "subset" (str e.subset) (
            field "split" (str e.split)
              (field "sha256" (str e.sha256) (field "manifest" (str e.manifest) end)))))))

unfoldable pub entries_dict : List DatasetRevisionEntry → Items
entries_dict [] = nil
entries_dict (e ∷ rest) = cons (entry_dict e) (entries_dict rest)

abbrev pub datasets_dict : DatasetsRevisionSnapshot → Json
datasets_dict d = obj (
    field "document_sha256" (str d.document_sha256)
      (field "entries" (tuple (entries_dict d.entries)) end))

unfoldable pub to_dict : RevisionSnapshot → Json
unfolding entries_dict
to_dict s = obj (
    field "config_version" (str s.config_version) (
      field "bundle_sha256" (str s.bundle_sha256) (
        field "runtime" (runtime_dict s.runtime) (
          field "reference" (reference_dict s.reference) (
            field "evaluation_schema" (evaluation_dict s.evaluation_schema)
              (field "datasets" (datasets_dict s.datasets) end))))))

-- `decimal` tells the characters that `\d` matches.
unfoldable pub validate : (ℕ → Bool) → RevisionSnapshot → Result ContractError (Unit {0})
unfolding validate_runtime validate_reference validate_evaluation validate_datasets to_dict
    contains_null
validate decimal s = do
  require_config_version decimal s.config_version
  require_sha256 s.bundle_sha256
  validate_runtime s.runtime
  validate_reference s.reference
  validate_evaluation s.evaluation_schema
  validate_datasets s.datasets
  reject_nulls (to_dict s)
