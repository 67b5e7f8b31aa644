-- ===== src/Contracts/Context.antt =====
-- The run context of contracts.py, its validation and `to_dict`. The parser of contract_io.py is the
-- child Parse.
pub mod Parse
pub mod Roundtrip
use jpapt_v2_2_inspection.Base.{
  ℕ, String, Bool, false, Option, none, some, List, [], ◌∷◌, Result, ok, err, ◌>>=◌, ◌>>◌, ensure,
  str_eq, ◌&&◌,
}
use jpapt_v2_2_inspection.Base.Int.{ℤ, pos, eq_ℤ}
use jpapt_v2_2_inspection.Base.Json.{Json, bool, int, str, obj, Fields, end, field, find}
use jpapt_v2_2_inspection.Contracts.Checks.{
  ContractError, blank, not_positive, bad_schema_version, provider_mismatch, no_candidate,
  candidate_mismatch, profile_mismatch, catalog_mismatch, require_nonempty, require_sha256,
  require_git_commit, require_one_of, reject_nulls, is_positive,
}
use jpapt_v2_2_inspection.Contracts.Revisions
use jpapt_v2_2_inspection.Contracts.Revisions.{RevisionSnapshot}

pub record ArtifactIdentity : Type 0 where
  pub path : String
  pub sha256 : String
  pub size_bytes : ℤ
  pub candidate_id : String
  pub artifact_role : String

pub record GitIdentity : Type 0 where
  pub repository : String
  pub commit : String
  pub ref : String
  pub dirty : Bool

pub record HostIdentity : Type 0 where
  pub os : String
  pub architecture : String
  pub hostname : String
  pub python_version : String
  pub implementation : String
  pub is_wsl : Bool
  pub github_runner_os : String
  pub github_runner_arch : String
  pub github_run_id : String
  pub github_run_attempt : String

pub record RuntimeIdentity : Type 0 where
  pub implementation : String
  pub backend : String
  pub backend_version : String
  pub provider_id : String
  pub provider_ort_name : String
  pub provider_available : Bool

pub record ConfigSnapshot : Type 0 where
  pub identity : String
  pub sources : Fields
  pub resolved : Fields

pub record RunContext : Type 0 where
  pub schema_version : ℤ
  pub run_id : String
  pub created_at : String
  pub config_identity : String
  pub model_id : String
  pub environment_id : String
  pub provider_id : String
  pub evaluation_id : String
  pub artifact : ArtifactIdentity
  pub git : GitIdentity
  pub host : HostIdentity
  pub runtime : RuntimeIdentity
  pub revisions : RevisionSnapshot
  pub config : ConfigSnapshot
  pub metadata : Fields

-- `asdict` of each.
abbrev pub artifact_dict : ArtifactIdentity → Fields
artifact_dict a = field "path" (str a.path) (
    field "sha256" (str a.sha256) (
      field "size_bytes" (int a.size_bytes) (
        field "candidate_id" (str a.candidate_id)
          (field "artifact_role" (str a.artifact_role) end))))

abbrev pub git_dict : GitIdentity → Fields
git_dict g =
    field "repository" (str g.repository)
      (field "commit" (str g.commit) (field "ref" (str g.ref) (field "dirty" (bool g.dirty) end)))

abbrev pub host_dict : HostIdentity → Fields
host_dict h = field "os" (str h.os) (
    field "architecture" (str h.architecture) (
      field "hostname" (str h.hostname) (
        field "python_version" (str h.python_version) (
          field "implementation" (str h.implementation) (
            field "is_wsl" (bool h.is_wsl) (
              field "github_runner_os" (str h.github_runner_os) (
                field "github_runner_arch" (str h.github_runner_arch) (
                  field "github_run_id" (str h.github_run_id)
                    (field "github_run_attempt" (str h.github_run_attempt) end)))))))))

abbrev pub runtime_dict : RuntimeIdentity → Fields
runtime_dict r = field "implementation" (str r.implementation) (
    field "backend" (str r.backend) (
      field "backend_version" (str r.backend_version) (
        field "provider_id" (str r.provider_id) (
          field "provider_ort_name" (str r.provider_ort_name)
            (field "provider_available" (bool r.provider_available) end)))))

abbrev pub config_dict : ConfigSnapshot → Fields
config_dict c =
    field "identity" (str c.identity)
      (field "sources" (obj c.sources) (field "resolved" (obj c.resolved) end))

-- The dictionary, with that of the revisions given.
abbrev pub dict_with : Json → RunContext → Fields
dict_with revisions c = field "schema_version" (int c.schema_version) (
    field "run_id" (str c.run_id) (
      field "created_at" (str c.created_at) (
        field "config_identity" (str c.config_identity) (
          field "model_id" (str c.model_id) (
            field "environment_id" (str c.environment_id) (
              field "provider_id" (str c.provider_id) (
                field "evaluation_id" (str c.evaluation_id) (
                  field "artifact" (obj (artifact_dict c.artifact)) (
                    field "git" (obj (git_dict c.git)) (
                      field "host" (obj (host_dict c.host)) (
                        field "runtime" (obj (runtime_dict c.runtime)) (
                          field "revisions" revisions (
                            field "config" (obj (config_dict c.config))
                              (field "metadata" (obj c.metadata) end))))))))))))))

unfoldable pub to_dict : RunContext → Fields
to_dict c = dict_with (Revisions.to_dict c.revisions) c

-- `validate` of each.
unfoldable pub validate_artifact : ArtifactIdentity → Result ContractError (Unit {0})
validate_artifact a = do
  require_nonempty a.path
  require_sha256 a.sha256
  require_nonempty a.candidate_id
  require_nonempty a.artifact_role
  ensure (is_positive a.size_bytes) not_positive

unfoldable pub validate_git : GitIdentity → Result ContractError (Unit {0})
validate_git g = do
  require_nonempty g.repository
  require_git_commit g.commit
  require_nonempty g.ref

unfoldable pub validate_host : HostIdentity → Result ContractError (Unit {0})
validate_host h = do
  require_nonempty h.os
  require_nonempty h.architecture
  require_nonempty h.hostname
  require_nonempty h.python_version
  require_nonempty h.implementation
  require_nonempty h.github_runner_os
  require_nonempty h.github_runner_arch
  require_nonempty h.github_run_id
  require_nonempty h.github_run_attempt

-- `_PROVIDERS`
abbrev pub providers : List String
providers = "cpu" ∷ "cuda" ∷ "coreml" ∷ []

unfoldable pub validate_runtime : RuntimeIdentity → Result ContractError (Unit {0})
validate_runtime r = do
  require_one_of ("python" ∷ "rust" ∷ []) r.implementation
  require_one_of ("onnxruntime" ∷ []) r.backend
  require_nonempty r.backend_version
  require_one_of providers r.provider_id
  require_nonempty r.provider_ort_name

-- `require_nonempty(…, value if isinstance(value, str) else "")`
abbrev pub require_source : Option Json → Result ContractError (Unit {0})
require_source (some (str s)) = require_nonempty s
require_source _ = err blank

unfoldable pub validate_config : ConfigSnapshot → Result ContractError (Unit {0})
validate_config c = do
  require_nonempty c.identity
  require_source (find "model" c.sources)
  require_source (find "provider" c.sources)
  require_source (find "environment" c.sources)
  require_source (find "evaluation" c.sources)
  reject_nulls (obj c.resolved)

unfoldable pub validate_texts : RunContext → Result ContractError (Unit {0})
validate_texts c = do
  require_nonempty c.run_id
  require_nonempty c.created_at
  require_nonempty c.config_identity
  require_nonempty c.model_id
  require_one_of ("linux" ∷ "windows" ∷ "macos" ∷ []) c.environment_id
  require_one_of providers c.provider_id
  require_one_of ("smoke" ∷ "parity" ∷ "coreml-parity" ∷ "full" ∷ []) c.evaluation_id

-- `value.get(key) == text`
abbrev pub is_text : String → Option Json → Bool
is_text s (some (str t)) = str_eq t s
is_text s _ = false

abbrev pub mapping : Option Json → ContractError → Result ContractError Fields
mapping (some (obj fields)) e = ok fields
mapping _ e = err e

-- What `metadata` says of the candidate agrees with the context.
unfoldable pub validate_candidate : RunContext → Result ContractError (Unit {0})
validate_candidate c = do
  candidate ← mapping (find "candidate" c.metadata) no_candidate
  ensure (is_text c.artifact.candidate_id (find "candidate_id" candidate)) candidate_mismatch
  ensure (is_text c.revisions.runtime.profile_set (find "profile_set" candidate)) profile_mismatch
  catalog ← mapping (find "catalog" candidate) catalog_mismatch
  ensure
      (is_text c.revisions.runtime.catalog.id (find "id" catalog)
        && is_text c.revisions.runtime.catalog.sha256 (find "sha256" catalog))
      catalog_mismatch

unfoldable pub validate : (ℕ → Bool) → RunContext → Result ContractError (Unit {0})
validate decimal c = do
  ensure (eq_ℤ c.schema_version (pos 2)) bad_schema_version
  validate_texts c
  validate_artifact c.artifact
  validate_git c.git
  validate_host c.host
  validate_runtime c.runtime
  Revisions.validate decimal c.revisions
  validate_config c.config
  ensure (str_eq c.runtime.provider_id c.provider_id) provider_mismatch
  validate_candidate c
  reject_nulls (obj c.metadata)
  reject_nulls (obj (to_dict c))
