-- ===== src/Contracts/Candidate/Parse.antt =====
-- `parse_generated_candidate_contract` of generated_candidate_io.py: the tests in its order, then the
-- record. The keys of an object are distinct, so that an assignment to a role adds an item.
use jpapt_v2_2_inspection.Base.{
  String, Bool, true, false, Option, none, some, List, [], ◌∷◌, Result, ok, ◌>>=◌, ◌>>◌, raise_if,
}
use jpapt_v2_2_inspection.Base.Int.{ℤ}
use jpapt_v2_2_inspection.Base.Json.{Json, Fields, end, field, find, or_null}
use jpapt_v2_2_inspection.Contracts.Strip.{is_blank}
use jpapt_v2_2_inspection.Contracts.Checks.{
  ContractError, not_text, no_artifacts, reject_nulls, object_of, exact, string_of, boolean_of,
  positive_of, integer_of,
}
use jpapt_v2_2_inspection.Contracts.Candidate.{
  GeneratedCatalog, GeneratedArtifact, GeneratedTokenizer, GeneratedRuntimeContract,
  GeneratedCandidateContract, validate,
}

unfoldable pub read_artifact : Fields → Result ContractError GeneratedArtifact
read_artifact raw = do
  exact ("path" ∷ "sha256" ∷ "size_bytes" ∷ []) [] raw
  path ← string_of (find "path" raw)
  sha256 ← string_of (find "sha256" raw)
  size_bytes ← positive_of (find "size_bytes" raw)
  ok (record { path = path; sha256 = sha256; size_bytes = size_bytes })

-- The loop over the artifacts.
unfoldable pub read_artifacts : Fields → Result ContractError (List (String × GeneratedArtifact))
read_artifacts end = ok []
read_artifacts (field role item rest) = do
  raise_if (is_blank role) not_text
  raw ← object_of (some item)
  artifact ← read_artifact raw
  artifacts ← read_artifacts rest
  ok ((role, artifact) ∷ artifacts)

unfoldable pub read_tokenizer : Option Json → Result ContractError (Option GeneratedTokenizer)
read_tokenizer none = ok none
read_tokenizer (some item) = do
  raw ← object_of (some item)
  exact ("kind" ∷ "path" ∷ []) [] raw
  kind ← string_of (find "kind" raw)
  path ← string_of (find "path" raw)
  ok (some (record { kind = kind; path = path }))

-- The loop over the features.
unfoldable pub read_features : Fields → Result ContractError (List (String × Bool))
read_features end = ok []
read_features (field key item rest) = do
  raise_if (is_blank key) not_text
  value ← boolean_of (some item)
  features ← read_features rest
  ok ((key, value) ∷ features)

abbrev pub is_end : Fields → Bool
is_end end = true
is_end (field k v rest) = false

abbrev pub required : List String
required =
    "schema_version" ∷ "candidate_root" ∷ "candidate_id" ∷ "profile_set" ∷ "variant" ∷ "profile"
    ∷ "decoder" ∷ "artifact_contract" ∷ "catalog" ∷ "bundle_sha256" ∷ "artifacts" ∷ "features"
    ∷ "runtime_contract" ∷ []

-- What the tests on the shape of the value find.
pub record Parts : Type 0 where
  pub raw : Fields
  pub schema_version : ℤ
  pub catalog : Fields
  pub artifacts : List (String × GeneratedArtifact)
  pub tokenizer : Option GeneratedTokenizer
  pub features : List (String × Bool)
  pub runtime : Fields
  pub io : Fields
  pub decoder_config : Fields

-- From the object on, whose keys are right.
unfoldable pub parts_of : Fields → Result ContractError Parts
parts_of raw = do
  schema_version ← integer_of (find "schema_version" raw)
  catalog ← object_of (find "catalog" raw)
  exact ("id" ∷ "sha256" ∷ []) [] catalog
  artifacts_raw ← object_of (find "artifacts" raw)
  raise_if (is_end artifacts_raw) no_artifacts
  artifacts ← read_artifacts artifacts_raw
  tokenizer ← read_tokenizer (find "tokenizer" raw)
  features_raw ← object_of (find "features" raw)
  features ← read_features features_raw
  runtime ← object_of (find "runtime_contract" raw)
  exact ("decoder" ∷ "input_kind" ∷ "io" ∷ "decoder_config" ∷ []) [] runtime
  io ← object_of (find "io" runtime)
  decoder_config ← object_of (find "decoder_config" runtime)
  ok (record {
    raw = raw;
    schema_version = schema_version;
    catalog = catalog;
    artifacts = artifacts;
    tokenizer = tokenizer;
    features = features;
    runtime = runtime;
    io = io;
    decoder_config = decoder_config;
  })

unfoldable pub read_catalog : Fields → Result ContractError GeneratedCatalog
read_catalog raw = do
  id ← string_of (find "id" raw)
  sha256 ← string_of (find "sha256" raw)
  ok (record { id = id; sha256 = sha256 })

unfoldable pub read_runtime :
    Fields → Fields → Fields → Result ContractError GeneratedRuntimeContract
read_runtime raw io decoder_config = do
  decoder ← string_of (find "decoder" raw)
  input_kind ← string_of (find "input_kind" raw)
  ok (record {
    decoder = decoder;
    input_kind = input_kind;
    io = io;
    decoder_config = decoder_config;
  })

unfoldable pub read_contract : Parts → Result ContractError GeneratedCandidateContract
read_contract parts = do
  candidate_root ← string_of (find "candidate_root" parts.raw)
  candidate_id ← string_of (find "candidate_id" parts.raw)
  profile_set ← string_of (find "profile_set" parts.raw)
  variant ← string_of (find "variant" parts.raw)
  profile ← string_of (find "profile" parts.raw)
  decoder ← string_of (find "decoder" parts.raw)
  artifact_contract ← string_of (find "artifact_contract" parts.raw)
  catalog ← read_catalog parts.catalog
  bundle_sha256 ← string_of (find "bundle_sha256" parts.raw)
  runtime_contract ← read_runtime parts.runtime parts.io parts.decoder_config
  ok (record {
    schema_version = parts.schema_version;
    candidate_root = candidate_root;
    candidate_id = candidate_id;
    profile_set = profile_set;
    variant = variant;
    profile = profile;
    decoder = decoder;
    artifact_contract = artifact_contract;
    catalog = catalog;
    bundle_sha256 = bundle_sha256;
    artifacts = parts.artifacts;
    tokenizer = parts.tokenizer;
    features = parts.features;
    runtime_contract = runtime_contract;
  })

unfoldable pub parse_generated_candidate_contract :
    Option Json → Result ContractError GeneratedCandidateContract
parse_generated_candidate_contract value = do
  reject_nulls (or_null value)
  raw ← object_of value
  exact required ("tokenizer" ∷ []) raw
  parts ← parts_of raw
  contract ← read_contract parts
  validate contract
  ok contract
