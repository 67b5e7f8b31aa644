-- ===== src/Hf/Revisions.antt =====
-- hf/revisions.py: the revision documents, read from the JSON values that their files hold. The names
-- and paths of documents, which only messages show, are left out. The bundle is the child Bundle.
pub mod Lock
pub mod Variants
pub mod Bundle
pub mod Named
pub mod Entries
pub mod Snapshot
pub mod Executable
mod Tests
use jpapt_v2_2_inspection.Base.{
  ℕ, String, Bool, true, false, not, Option, none, some, List, [], ◌∷◌, map, Result, ok, err, ◌>>=◌,
  ◌>>◌, ensure, raise_if, require, if◌then◌else◌, length, all, any, ◌==◌, str_eq,
}
use jpapt_v2_2_inspection.Base.Dict.{lookup}
use jpapt_v2_2_inspection.Base.Distinct.{distinct}
use jpapt_v2_2_inspection.Base.Int.{pos}
use jpapt_v2_2_inspection.Base.Json.{
  Json, int, str, arr, obj, Items, nil, cons, Fields, find, keys, or_null, same_json,
}
use jpapt_v2_2_inspection.Contracts.Strip.{strip, is_blank}
use jpapt_v2_2_inspection.Contracts.Checks.{contains_null, is_config_version}
use jpapt_v2_2_inspection.Configuration.Catalog.{
  AsrCatalog, ProfileSet, DecoderProfile, selected_variant, profile_set, decoder_profile,
}
use jpapt_v2_2_inspection.Configuration.Catalog

pub data RevisionError : Type 0 where
  missing_file bad_json not_object bad_schema_version has_null : RevisionError
  bad_config_version unknown_field not_mapping not_text not_array duplicate_dataset : RevisionError
  catalog_mismatch catalog_error unknown_variant unknown_dataset : RevisionError
  needs_sha256 needs_manifest invalid_snapshot : RevisionError

-- What stands at a path.
pub data JsonFile : Type 0 where
  absent : JsonFile
  malformed : JsonFile
  holds : Json → JsonFile

abbrev pub check_document : Fields → Result RevisionError Fields
check_document raw = do
  ensure (same_json (or_null (find "schema_version" raw)) (int (pos 1))) bad_schema_version
  raise_if (contains_null (obj raw)) has_null
  ok raw

-- `_load_json`
unfoldable pub load_json : JsonFile → Result RevisionError Fields
load_json absent = err missing_file
load_json malformed = err bad_json
load_json (holds (obj raw)) = check_document raw
load_json (holds _) = err not_object

-- `_reject_unknown`
unfoldable pub reject_unknown : List String → Fields → Result RevisionError (Unit {0})
reject_unknown allowed source =
    ensure (all (λ k. any (str_eq k) allowed) (keys source)) unknown_field

abbrev pub mapping : Option Json → Result RevisionError Fields
mapping (some (obj fields)) = ok fields
mapping _ = err not_mapping

-- `_require_mapping`
abbrev pub require_mapping : Fields → String → Result RevisionError Fields
require_mapping source key = mapping (find key source)

abbrev pub text_value : Option Json → Result RevisionError String
text_value (some (str s)) = do raise_if (is_blank s) not_text; ok (strip s)
text_value _ = err not_text

-- `_require_string`
abbrev pub require_string : Fields → String → Result RevisionError String
require_string source key = text_value (find key source)

abbrev pub optional_value : Option Json → Result RevisionError (Option String)
optional_value none = ok none
optional_value (some v) = do s ← text_value (some v); ok (some s)

-- `_optional_string`
abbrev pub optional_string : Fields → String → Result RevisionError (Option String)
optional_string source key = optional_value (find key source)

pub record Identity : Type 0 where
  pub repo_id : String
  pub revision : String

-- `_identity`
unfoldable pub identity : Fields → String → Result RevisionError Identity
identity raw key = do
  value ← require_mapping raw key
  reject_unknown ("repo_id" ∷ "revision" ∷ []) value
  repo_id ← require_string value "repo_id"
  revision ← require_string value "revision"
  ok (record { repo_id = repo_id; revision = revision })

-- The value of a document and its digest.
pub record RevisionDocument : Type 0 where
  pub raw : Fields
  pub sha256 : String

-- `digest` is the SHA-256 of the canonical JSON.
unfoldable pub load_document : (Fields → String) → JsonFile → Result RevisionError RevisionDocument
load_document digest file = do raw ← load_json file; ok (record { raw = raw; sha256 = digest raw })

pub record RuntimeRevision : Type 0 where
  pub document : RevisionDocument
  pub catalog_id : String
  pub catalog_sha256 : String
  pub profile_set_id : String
  pub variants : List (String × String)
  pub default_variant : String

-- `except AsrCatalogError`
abbrev pub from_catalog {ℓ} : {A : Type ℓ} → Result Catalog.CatalogError A → Result RevisionError A
from_catalog (err e) = err catalog_error
from_catalog (ok a) = ok a

-- `lower` is `str.lower`.
unfoldable pub runtime_from :
    (String → String) → AsrCatalog → RevisionDocument → Result RevisionError RuntimeRevision
runtime_from lower catalog document = do
  reject_unknown ("schema_version" ∷ "catalog" ∷ "profile_set" ∷ []) document.raw
  catalog_raw ← require_mapping document.raw "catalog"
  reject_unknown ("id" ∷ "sha256" ∷ []) catalog_raw
  catalog_id ← require_string catalog_raw "id"
  catalog_sha ← require_string catalog_raw "sha256"
  ensure (str_eq catalog_id catalog.catalog_id) catalog_mismatch
  ensure (str_eq (lower catalog_sha) (lower catalog.sha256)) catalog_mismatch
  profile_set_id ← require_string document.raw "profile_set"
  found ← from_catalog (profile_set catalog profile_set_id)
  ok (record {
    document = document;
    catalog_id = catalog_id;
    catalog_sha256 = lower catalog_sha;
    profile_set_id = profile_set_id;
    variants = found.variants;
    default_variant = found.default_variant;
  })

-- The variant, its profile and the decoder. An error of the catalog is not caught here.
pub data VariantError : Type 0 where
  revision : RevisionError → VariantError
  catalog : Catalog.CatalogError → VariantError

abbrev pub profile_in :
    AsrCatalog → String → String → Result VariantError (String × String × String)
profile_in c selected profile_id = elim (decoder_profile c profile_id) [
  | err e ↦ err (catalog e)
  | ok profile ↦ ok (selected, profile_id, profile.decoder)
]

unfoldable pub resolve_variant :
    RuntimeRevision → AsrCatalog → Option String → Result VariantError (String × String × String)
resolve_variant r c variant = do
  let selected = selected_variant variant r.default_variant
  profile_id ← require (lookup selected r.variants) (revision unknown_variant)
  profile_in c selected profile_id

pub record ReferenceRevision : Type 0 where
  pub document : RevisionDocument
  pub development_artifact : Identity
  pub upstream : Identity
  pub tokenizer : Identity
  pub reference_id : String
  pub reference_revision : String
  pub canonical_framework : String

abbrev pub reference_fields : List String
reference_fields =
    "schema_version" ∷ "development_artifact" ∷ "upstream" ∷ "tokenizer" ∷ "reference" ∷ []

unfoldable pub reference_from : RevisionDocument → Result RevisionError ReferenceRevision
reference_from document = do
  reject_unknown reference_fields document.raw
  development ← identity document.raw "development_artifact"
  upstream ← identity document.raw "upstream"
  tokenizer ← identity document.raw "tokenizer"
  reference ← require_mapping document.raw "reference"
  reject_unknown ("id" ∷ "revision" ∷ "canonical_framework" ∷ []) reference
  reference_id ← require_string reference "id"
  reference_revision ← require_string reference "revision"
  canonical_framework ← require_string reference "canonical_framework"
  ok (record {
    document = document;
    development_artifact = development;
    upstream = upstream;
    tokenizer = tokenizer;
    reference_id = reference_id;
    reference_revision = reference_revision;
    canonical_framework = canonical_framework;
  })

pub record EvaluationSchemaRevision : Type 0 where
  pub document : RevisionDocument
  pub schema_id : String
  pub schema_revision : String

unfoldable pub evaluation_from : RevisionDocument → Result RevisionError EvaluationSchemaRevision
evaluation_from document = do
  reject_unknown ("schema_version" ∷ "schema" ∷ []) document.raw
  schema ← require_mapping document.raw "schema"
  reject_unknown ("id" ∷ "revision" ∷ []) schema
  schema_id ← require_string schema "id"
  schema_revision ← require_string schema "revision"
  ok (record { document = document; schema_id = schema_id; schema_revision = schema_revision })

abbrev pub version_of : (ℕ → Bool) → Option Json → Result RevisionError String
version_of decimal (some (str s)) = do ensure (is_config_version decimal s) bad_config_version; ok s
version_of decimal _ = err bad_config_version

-- `_load_config_version`
unfoldable pub load_config_version : (ℕ → Bool) → JsonFile → Result RevisionError String
load_config_version decimal file = do
  value ← load_json file
  version_of decimal (find "config_version" value)
