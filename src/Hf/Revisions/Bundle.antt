-- ===== src/Hf/Revisions/Bundle.antt =====
-- `RevisionBundle` and `RevisionLoader` of hf/revisions.py: the four documents together and the
-- snapshot that they make.
use jpapt_v2_2_inspection.Base.{
  ℕ, String, Bool, Option, none, some, List, [], ◌∷◌, Result, ok, err, ◌>>=◌, ◌>>◌, require,
  if◌then◌else◌, str_eq,
}
use Prim.Native.String.{◌++◌ as ◌<>◌}
use jpapt_v2_2_inspection.Base.Json.{Json, Fields}
use jpapt_v2_2_inspection.Configuration.Catalog
use jpapt_v2_2_inspection.Configuration.Catalog.{AsrCatalog}
use jpapt_v2_2_inspection.Contracts.Checks.{ContractError}
use jpapt_v2_2_inspection.Contracts.Revisions
use jpapt_v2_2_inspection.Contracts.Revisions.{
  RevisionSnapshot, RuntimeRevisionSnapshot, ReferenceRevisionSnapshot, RepoRevisionIdentity,
  EvaluationSchemaRevisionSnapshot, DatasetRevisionEntry, DatasetsRevisionSnapshot,
}
use jpapt_v2_2_inspection.Hf.Revisions.{
  RevisionError, needs_sha256, needs_manifest, invalid_snapshot, missing_file, JsonFile, absent,
  Identity, load_document, from_catalog, RuntimeRevision, runtime_from, ReferenceRevision,
  reference_from, EvaluationSchemaRevision, evaluation_from, load_config_version,
}
use jpapt_v2_2_inspection.Hf.Revisions.Lock.{DatasetLockEntry, DatasetLock, lock_from}

pub record RevisionBundle : Type 0 where
  pub reference : ReferenceRevision
  pub evaluation_schema : EvaluationSchemaRevision
  pub datasets : DatasetLock
  pub runtime : RuntimeRevision
  pub config_version : String

-- What the code takes from the standard library: `hexdigest` of the SHA-256 of a text, the canonical
-- JSON of a document, `str.lower`, and what `\d` matches.
pub record Text : Type 0 where
  pub hexdigest : String → String
  pub canonical : Fields → String
  pub lower : String → String
  pub decimal : ℕ → Bool

abbrev pub identity_snapshot : Identity → RepoRevisionIdentity
identity_snapshot i = record { repo_id = i.repo_id; revision = i.revision }

-- `value or "default"`
abbrev pub or_default : Option String → String
or_default none = "default"
or_default (some s) = if str_eq s "" then "default" else s

-- The body of the loop over the entries.
unfoldable pub snapshot_entry : DatasetLockEntry → Result RevisionError DatasetRevisionEntry
snapshot_entry e = do
  sha256 ← require e.sha256 needs_sha256
  manifest ← require e.manifest needs_manifest
  ok (record {
    id = e.id;
    repo_id = e.repo_id;
    revision = e.revision;
    subset = or_default e.subset;
    split = or_default e.split;
    sha256 = sha256;
    manifest = manifest;
  })

unfoldable pub snapshot_entries :
    List DatasetLockEntry → Result RevisionError (List DatasetRevisionEntry)
snapshot_entries [] = ok []
snapshot_entries (e ∷ rest) = do
  entry ← snapshot_entry e
  entries ← snapshot_entries rest
  ok (entry ∷ entries)

abbrev pub runtime_snapshot : RuntimeRevision → RuntimeRevisionSnapshot
runtime_snapshot r = record {
  document_sha256 = r.document.sha256;
  catalog = record { id = r.catalog_id; sha256 = r.catalog_sha256 };
  profile_set = r.profile_set_id;
}

abbrev pub reference_snapshot : ReferenceRevision → ReferenceRevisionSnapshot
reference_snapshot r = record {
  document_sha256 = r.document.sha256;
  development_artifact = identity_snapshot r.development_artifact;
  upstream = identity_snapshot r.upstream;
  tokenizer = identity_snapshot r.tokenizer;
  reference_id = r.reference_id;
  reference_revision = r.reference_revision;
  canonical_framework = r.canonical_framework;
}

abbrev pub evaluation_snapshot : EvaluationSchemaRevision → EvaluationSchemaRevisionSnapshot
evaluation_snapshot e = record {
  document_sha256 = e.document.sha256;
  schema_id = e.schema_id;
  schema_revision = e.schema_revision;
}

-- `except Exception as exc: raise RevisionError`
abbrev pub valid : {A : Type 0} → Result ContractError (Unit {0}) → A → Result RevisionError A
valid (err e) a = err invalid_snapshot
valid (ok _) a = ok a

-- The files of a bundle, and the catalog's: `none` where it cannot be read.
pub record Files : Type 0 where
  pub reference : JsonFile
  pub evaluation_schema : JsonFile
  pub datasets : JsonFile
  pub runtime : JsonFile
  pub resolved : JsonFile
  pub catalog : Option Json

-- `if not runtime_path.is_file(): raise`
abbrev pub require_present : JsonFile → Result RevisionError (Unit {0})
require_present absent = err missing_file
require_present _ = ok tt

module _ (text : Text) where
  abbrev pub digest : Fields → String
  digest raw = text.hexdigest (text.canonical raw)

  -- `sha256`: the digest of the digests, one after another.
  abbrev pub bundle_sha256 : RevisionBundle → String
  bundle_sha256 b = text.hexdigest (
      b.reference.document.sha256 <> b.evaluation_schema.document.sha256
      <> b.datasets.document.sha256 <> b.runtime.document.sha256)

  abbrev pub snapshot_of : RevisionBundle → List DatasetRevisionEntry → RevisionSnapshot
  snapshot_of b entries = record {
    config_version = b.config_version;
    bundle_sha256 = bundle_sha256 b;
    runtime = runtime_snapshot b.runtime;
    reference = reference_snapshot b.reference;
    evaluation_schema = evaluation_snapshot b.evaluation_schema;
    datasets = record { document_sha256 = b.datasets.document.sha256; entries = entries };
  }

  unfoldable pub snapshot : RevisionBundle → Result RevisionError RevisionSnapshot
  snapshot b = do
    entries ← snapshot_entries b.datasets.datasets
    valid (Revisions.validate text.decimal (snapshot_of b entries)) (snapshot_of b entries)

  -- `RevisionLoader.load`, once the repository's root is found.
  unfoldable pub load : Files → Result RevisionError RevisionBundle
  load files = do
    reference_document ← load_document digest files.reference
    evaluation_document ← load_document digest files.evaluation_schema
    datasets_document ← load_document digest files.datasets
    datasets ← lock_from datasets_document
    require_present files.runtime
    catalog ← from_catalog (Catalog.load digest files.catalog)
    runtime_document ← load_document digest files.runtime
    runtime ← runtime_from text.lower catalog runtime_document
    reference ← reference_from reference_document
    evaluation ← evaluation_from evaluation_document
    config_version ← load_config_version text.decimal files.resolved
    ok (record {
      reference = reference;
      evaluation_schema = evaluation;
      datasets = datasets;
      runtime = runtime;
      config_version = config_version;
    })
