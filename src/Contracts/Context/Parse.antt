-- ===== src/Contracts/Context/Parse.antt =====
-- `parse_run_context` of contract_io.py: the tests in its order, then the records.
use jpapt_v2_2_inspection.Base.{ℕ, String, Bool, some, List, [], ◌∷◌, Result, ok, ◌>>=◌, ◌>>◌}
use jpapt_v2_2_inspection.Base.Int.{ℤ}
use jpapt_v2_2_inspection.Base.Json.{Json, str, Fields, end, field, find, or_null}
use jpapt_v2_2_inspection.Contracts.Checks.{
  ContractError, reject_nulls, object_of, exact, string_of, boolean_of, positive_of, integer_of,
}
use jpapt_v2_2_inspection.Contracts.Revisions.Parse.{parse_revision_snapshot}
use jpapt_v2_2_inspection.Contracts.Candidate.Parse.{parse_generated_candidate_contract}
use jpapt_v2_2_inspection.Contracts.Context.{
  ArtifactIdentity, GitIdentity, HostIdentity, RuntimeIdentity, ConfigSnapshot, RunContext,
  validate,
}

unfoldable pub read_artifact : Fields → Result ContractError ArtifactIdentity
read_artifact raw = do
  path ← string_of (find "path" raw)
  sha256 ← string_of (find "sha256" raw)
  size_bytes ← positive_of (find "size_bytes" raw)
  candidate_id ← string_of (find "candidate_id" raw)
  artifact_role ← string_of (find "artifact_role" raw)
  ok (record {
    path = path;
    sha256 = sha256;
    size_bytes = size_bytes;
    candidate_id = candidate_id;
    artifact_role = artifact_role;
  })

unfoldable pub read_git : Fields → Result ContractError GitIdentity
read_git raw = do
  repository ← string_of (find "repository" raw)
  commit ← string_of (find "commit" raw)
  ref ← string_of (find "ref" raw)
  dirty ← boolean_of (find "dirty" raw)
  ok (record { repository = repository; commit = commit; ref = ref; dirty = dirty })

unfoldable pub read_host : Fields → Result ContractError HostIdentity
read_host raw = do
  os ← string_of (find "os" raw)
  architecture ← string_of (find "architecture" raw)
  hostname ← string_of (find "hostname" raw)
  python_version ← string_of (find "python_version" raw)
  implementation ← string_of (find "implementation" raw)
  is_wsl ← boolean_of (find "is_wsl" raw)
  github_runner_os ← string_of (find "github_runner_os" raw)
  github_runner_arch ← string_of (find "github_runner_arch" raw)
  github_run_id ← string_of (find "github_run_id" raw)
  github_run_attempt ← string_of (find "github_run_attempt" raw)
  ok (record {
    os = os;
    architecture = architecture;
    hostname = hostname;
    python_version = python_version;
    implementation = implementation;
    is_wsl = is_wsl;
    github_runner_os = github_runner_os;
    github_runner_arch = github_runner_arch;
    github_run_id = github_run_id;
    github_run_attempt = github_run_attempt;
  })

unfoldable pub read_runtime : Fields → Result ContractError RuntimeIdentity
read_runtime raw = do
  implementation ← string_of (find "implementation" raw)
  backend ← string_of (find "backend" raw)
  backend_version ← string_of (find "backend_version" raw)
  provider_id ← string_of (find "provider_id" raw)
  provider_ort_name ← string_of (find "provider_ort_name" raw)
  provider_available ← boolean_of (find "provider_available" raw)
  ok (record {
    implementation = implementation;
    backend = backend;
    backend_version = backend_version;
    provider_id = provider_id;
    provider_ort_name = provider_ort_name;
    provider_available = provider_available;
  })

-- The configuration files by their layer.
abbrev pub sources_of : String → String → String → String → Fields
sources_of model provider environment evaluation = field "model" (str model) (
    field "provider" (str provider)
      (field "environment" (str environment) (field "evaluation" (str evaluation) end)))

unfoldable pub read_config : Fields → Fields → Fields → Result ContractError ConfigSnapshot
read_config raw sources resolved = do
  identity ← string_of (find "identity" raw)
  model ← string_of (find "model" sources)
  provider ← string_of (find "provider" sources)
  environment ← string_of (find "environment" sources)
  evaluation ← string_of (find "evaluation" sources)
  ok (record {
    identity = identity;
    sources = sources_of model provider environment evaluation;
    resolved = resolved;
  })

-- The objects that a context is made of.
pub record Parts : Type 0 where
  pub schema_version : ℤ
  pub artifact : Fields
  pub git : Fields
  pub host : Fields
  pub runtime : Fields
  pub config : Fields
  pub sources : Fields
  pub resolved : Fields
  pub metadata : Fields

abbrev pub required : List String
required =
    "schema_version" ∷ "run_id" ∷ "created_at" ∷ "config_identity" ∷ "model_id" ∷ "environment_id"
    ∷ "provider_id" ∷ "evaluation_id" ∷ "artifact" ∷ "git" ∷ "host" ∷ "runtime" ∷ "revisions"
    ∷ "config" ∷ "metadata" ∷ []

abbrev pub host_keys : List String
host_keys =
    "os" ∷ "architecture" ∷ "hostname" ∷ "python_version" ∷ "implementation" ∷ "is_wsl"
    ∷ "github_runner_os" ∷ "github_runner_arch" ∷ "github_run_id" ∷ "github_run_attempt" ∷ []

abbrev pub runtime_keys : List String
runtime_keys =
    "implementation" ∷ "backend" ∷ "backend_version" ∷ "provider_id" ∷ "provider_ort_name"
    ∷ "provider_available" ∷ []

-- The tests on the shape of the value, whose keys are right.
unfoldable pub parts_of : Fields → Result ContractError Parts
parts_of raw = do
  schema_version ← integer_of (find "schema_version" raw)
  artifact ← object_of (find "artifact" raw)
  exact ("path" ∷ "sha256" ∷ "size_bytes" ∷ "candidate_id" ∷ "artifact_role" ∷ []) [] artifact
  git ← object_of (find "git" raw)
  exact ("repository" ∷ "commit" ∷ "ref" ∷ "dirty" ∷ []) [] git
  host ← object_of (find "host" raw)
  exact host_keys [] host
  runtime ← object_of (find "runtime" raw)
  exact runtime_keys [] runtime
  config ← object_of (find "config" raw)
  exact ("identity" ∷ "sources" ∷ "resolved" ∷ []) [] config
  sources ← object_of (find "sources" config)
  exact ("model" ∷ "provider" ∷ "environment" ∷ "evaluation" ∷ []) [] sources
  resolved ← object_of (find "resolved" config)
  metadata ← object_of (find "metadata" raw)
  ok (record {
    schema_version = schema_version;
    artifact = artifact;
    git = git;
    host = host;
    runtime = runtime;
    config = config;
    sources = sources;
    resolved = resolved;
    metadata = metadata;
  })

unfoldable pub read_context : (ℕ → Bool) → Fields → Parts → Result ContractError RunContext
read_context decimal raw parts = do
  run_id ← string_of (find "run_id" raw)
  created_at ← string_of (find "created_at" raw)
  config_identity ← string_of (find "config_identity" raw)
  model_id ← string_of (find "model_id" raw)
  environment_id ← string_of (find "environment_id" raw)
  provider_id ← string_of (find "provider_id" raw)
  evaluation_id ← string_of (find "evaluation_id" raw)
  artifact ← read_artifact parts.artifact
  git ← read_git parts.git
  host ← read_host parts.host
  runtime ← read_runtime parts.runtime
  revisions ← parse_revision_snapshot decimal (or_null (find "revisions" raw))
  config ← read_config parts.config parts.sources parts.resolved
  ok (record {
    schema_version = parts.schema_version;
    run_id = run_id;
    created_at = created_at;
    config_identity = config_identity;
    model_id = model_id;
    environment_id = environment_id;
    provider_id = provider_id;
    evaluation_id = evaluation_id;
    artifact = artifact;
    git = git;
    host = host;
    runtime = runtime;
    revisions = revisions;
    config = config;
    metadata = parts.metadata;
  })

unfoldable pub parse_run_context : (ℕ → Bool) → Json → Result ContractError RunContext
parse_run_context decimal value = do
  reject_nulls value
  raw ← object_of (some value)
  exact required [] raw
  parts ← parts_of raw
  context ← read_context decimal raw parts
  validate decimal context
  _ ← parse_generated_candidate_contract (find "candidate" context.metadata)
  ok context
