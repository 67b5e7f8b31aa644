-- ===== src/Contracts/Revisions/Parse.antt =====
-- `parse_revision_snapshot` of contract_io.py: the tests in its order, then the records.
use jpapt_v2_2_inspection.Base.{ℕ, String, Bool, List, [], ◌∷◌, Result, ok, ◌>>=◌, ◌>>◌, some}
use jpapt_v2_2_inspection.Base.Json.{Json, Items, nil, cons, Fields, find}
use jpapt_v2_2_inspection.Contracts.Checks.{ContractError, object_of, exact, string_of, array_of}
use jpapt_v2_2_inspection.Contracts.Revisions.{
  CatalogReference, RepoRevisionIdentity, RuntimeRevisionSnapshot, ReferenceRevisionSnapshot,
  EvaluationSchemaRevisionSnapshot, DatasetRevisionEntry, RevisionSnapshot, validate,
}

-- `_repo_revision`
unfoldable pub read_identity : Fields → String → Result ContractError RepoRevisionIdentity
unfolding find exact
read_identity value key = do
  raw ← object_of (find key value)
  exact ("repo_id" ∷ "revision" ∷ []) [] raw
  repo_id ← string_of (find "repo_id" raw)
  revision ← string_of (find "revision" raw)
  ok (record { repo_id = repo_id; revision = revision })

unfoldable pub read_catalog : Fields → Result ContractError CatalogReference
unfolding find
read_catalog raw = do
  id ← string_of (find "id" raw)
  sha256 ← string_of (find "sha256" raw)
  ok (record { id = id; sha256 = sha256 })

unfoldable pub read_runtime : Fields → Fields → Result ContractError RuntimeRevisionSnapshot
unfolding find read_catalog
read_runtime raw catalog_raw = do
  document_sha256 ← string_of (find "document_sha256" raw)
  catalog ← read_catalog catalog_raw
  profile_set ← string_of (find "profile_set" raw)
  ok (record { document_sha256 = document_sha256; catalog = catalog; profile_set = profile_set })

unfoldable pub read_reference : Fields → Result ContractError ReferenceRevisionSnapshot
unfolding find read_identity
read_reference raw = do
  document_sha256 ← string_of (find "document_sha256" raw)
  development_artifact ← read_identity raw "development_artifact"
  upstream ← read_identity raw "upstream"
  tokenizer ← read_identity raw "tokenizer"
  reference_id ← string_of (find "reference_id" raw)
  reference_revision ← string_of (find "reference_revision" raw)
  canonical_framework ← string_of (find "canonical_framework" raw)
  ok (record {
    document_sha256 = document_sha256;
    development_artifact = development_artifact;
    upstream = upstream;
    tokenizer = tokenizer;
    reference_id = reference_id;
    reference_revision = reference_revision;
    canonical_framework = canonical_framework;
  })

unfoldable pub read_evaluation : Fields → Result ContractError EvaluationSchemaRevisionSnapshot
unfolding find
read_evaluation raw = do
  document_sha256 ← string_of (find "document_sha256" raw)
  schema_id ← string_of (find "schema_id" raw)
  schema_revision ← string_of (find "schema_revision" raw)
  ok (record {
    document_sha256 = document_sha256;
    schema_id = schema_id;
    schema_revision = schema_revision;
  })

-- The body of the loop over the entries.
unfoldable pub read_entry : Json → Result ContractError DatasetRevisionEntry
unfolding find exact
read_entry item = do
  raw ← object_of (some item)
  exact ("id" ∷ "repo_id" ∷ "revision" ∷ "subset" ∷ "split" ∷ "sha256" ∷ "manifest" ∷ []) [] raw
  id ← string_of (find "id" raw)
  repo_id ← string_of (find "repo_id" raw)
  revision ← string_of (find "revision" raw)
  subset ← string_of (find "subset" raw)
  split ← string_of (find "split" raw)
  sha256 ← string_of (find "sha256" raw)
  manifest ← string_of (find "manifest" raw)
  ok (record {
    id = id;
    repo_id = repo_id;
    revision = revision;
    subset = subset;
    split = split;
    sha256 = sha256;
    manifest = manifest;
  })

unfoldable pub read_entries : Items → Result ContractError (List DatasetRevisionEntry)
unfolding read_entry
read_entries nil = ok []
read_entries (cons item rest) = do
  entry ← read_entry item
  entries ← read_entries rest
  ok (entry ∷ entries)

abbrev runtime_keys : List String
runtime_keys = "document_sha256" ∷ "catalog" ∷ "profile_set" ∷ []

abbrev reference_keys : List String
reference_keys =
    "document_sha256" ∷ "development_artifact" ∷ "upstream" ∷ "tokenizer" ∷ "reference_id"
    ∷ "reference_revision" ∷ "canonical_framework" ∷ []

abbrev snapshot_keys : List String
snapshot_keys =
    "config_version" ∷ "bundle_sha256" ∷ "runtime" ∷ "reference" ∷ "evaluation_schema" ∷ "datasets"
    ∷ []

-- The objects that a snapshot is made of.
pub record Parts : Type 0 where
  pub raw : Fields
  pub runtime : Fields
  pub catalog : Fields
  pub reference : Fields
  pub evaluation : Fields
  pub datasets : Fields

-- The tests on the shape of the value.
unfoldable pub parts_of : Json → Result ContractError Parts
unfolding find exact
parts_of value = do
  raw ← object_of (some value)
  exact snapshot_keys [] raw
  runtime ← object_of (find "runtime" raw)
  exact runtime_keys [] runtime
  catalog ← object_of (find "catalog" runtime)
  exact ("id" ∷ "sha256" ∷ []) [] catalog
  reference ← object_of (find "reference" raw)
  exact reference_keys [] reference
  evaluation ← object_of (find "evaluation_schema" raw)
  exact ("document_sha256" ∷ "schema_id" ∷ "schema_revision" ∷ []) [] evaluation
  datasets ← object_of (find "datasets" raw)
  exact ("document_sha256" ∷ "entries" ∷ []) [] datasets
  ok (record {
    raw = raw;
    runtime = runtime;
    catalog = catalog;
    reference = reference;
    evaluation = evaluation;
    datasets = datasets;
  })

-- The records, once the entries are read.
unfoldable pub read_snapshot :
    Parts → List DatasetRevisionEntry → Result ContractError RevisionSnapshot
unfolding find read_runtime read_reference read_evaluation
read_snapshot parts entries = do
  config_version ← string_of (find "config_version" parts.raw)
  bundle_sha256 ← string_of (find "bundle_sha256" parts.raw)
  runtime ← read_runtime parts.runtime parts.catalog
  reference ← read_reference parts.reference
  evaluation ← read_evaluation parts.evaluation
  document_sha256 ← string_of (find "document_sha256" parts.datasets)
  ok (record {
    config_version = config_version;
    bundle_sha256 = bundle_sha256;
    runtime = runtime;
    reference = reference;
    evaluation_schema = evaluation;
    datasets = record { document_sha256 = document_sha256; entries = entries };
  })

unfoldable pub parse_revision_snapshot : (ℕ → Bool) → Json → Result ContractError RevisionSnapshot
parse_revision_snapshot decimal value = do
  parts ← parts_of value
  items ← array_of (find "entries" parts.datasets)
  entries ← read_entries items
  snapshot ← read_snapshot parts entries
  validate decimal snapshot
  ok snapshot
