-- ===== src/Configuration/Resolver.antt =====
-- config/resolver.py, with config/loader.py, config/merge.py and the paths of config/paths.py: the
-- four files of a run's configuration, checked against each other and composed.
pub mod Merged
pub mod Read
pub mod Compatible
pub mod Resolved
pub mod Tests
use jpapt_v2_2_inspection.Base.{
  ℕ, zero, suc, String, Bool, true, false, not, ◌&&◌, Option, none, some, List, [], ◌∷◌, Result, ok,
  err, ◌>>=◌, ◌>>◌, raise_if, ensure, require, any, str_eq, if◌then◌else◌,
}
use Prim.Native.String.{◌++◌}
use jpapt_v2_2_inspection.Base.Int.{pos}
use jpapt_v2_2_inspection.Base.Json.{
  Json, null, bool, int, str, arr, obj, Items, nil, Fields, end, field, find, or_null, items,
  truthy, same_json,
}
use jpapt_v2_2_inspection.Configuration.Models.{
  ConfigError, file_not_found, malformed, missing_field, no_schema_version, bad_schema_version,
  id_mismatch, not_text, provider_disabled, bad_environments, environment_refused, no_manifest,
  duplicate, unsupported_provider, FilePath, given, inside, BaseConfig, get, get_nested, model_id,
  provider_id, environment_id, evaluation_id, supported_providers, providers_for_environment,
  supported_os, enabled, manifest,
}
use jpapt_v2_2_inspection.Configuration.Environment.{
  normalize_environment_id, detect_environment_id,
}

-- What `tomllib` makes of a file.
pub data TomlFile : Type 0 where
  absent broken : TomlFile
  table : Fields → TomlFile

-- The machine: `str.lower`, the variable PARAKEET_ONNX_ENVIRONMENT, `platform.system()`, the files.
pub record Machine : Type 0 where
  pub lower : String → String
  pub override : Option String
  pub system : String
  pub toml : FilePath → TomlFile
  pub is_file : FilePath → Bool

abbrev pub check_schema_version : Json → Result ConfigError (Unit {0})
check_schema_version null = err no_schema_version
check_schema_version (int (pos (suc zero))) = ok tt
check_schema_version (bool true) = ok tt
check_schema_version _ = err bad_schema_version

-- `load_toml`, on what the file holds.
abbrev pub read_table : TomlFile → Result ConfigError Fields
read_table absent = err file_not_found
read_table broken = err malformed
read_table (table fields) = do
  check_schema_version (or_null (find "schema_version" fields))
  ok fields

abbrev pub load_toml : Machine → FilePath → Result ConfigError Fields
load_toml machine path = read_table (machine.toml path)

-- `RepositoryPaths`: the file of an id in one of the directories under `config`.
abbrev pub config_file : FilePath → String → String → FilePath
config_file root directory id = inside (inside (inside root "config") directory) (id ++ ".toml")

-- A config whose id, read by the class, is the one that its file is named for.
unfoldable pub load_config :
    Machine
    → FilePath
    → (BaseConfig → Result ConfigError String)
    → String
    → Result ConfigError BaseConfig
load_config machine path id_of id = do
  raw ← load_toml machine path
  found ← id_of (record { path = path; raw = raw })
  ensure (str_eq found id) id_mismatch
  ok (record { path = path; raw = raw })

module _ (machine : Machine) (root : FilePath) where
  abbrev pub load_model : String → Result ConfigError BaseConfig
  load_model id = load_config machine (config_file root "models" id) model_id id

  abbrev pub load_provider : String → Result ConfigError BaseConfig
  load_provider id = load_config machine (config_file root "providers" id) provider_id id

  abbrev pub load_environment : String → Result ConfigError BaseConfig
  load_environment id = do
    normalized ← normalize_environment_id machine.lower id
    load_config machine (config_file root "environments" normalized) environment_id normalized

  abbrev pub load_evaluation : String → Result ConfigError BaseConfig
  load_evaluation id = load_config machine (config_file root "evaluation" id) evaluation_id id

-- `result[key] = value` on a dictionary that does not have the key.
abbrev add_field : String → Json → Fields → Fields
add_field key value end = field key value end
add_field key value (field k v rest) = field k v (add_field key value rest)

-- The loop of `compose_config` over the namespaces.
abbrev pub namespaces : List (String × Fields) → Fields → Result ConfigError Fields
namespaces [] result = ok result
namespaces ((name, raw) ∷ rest) result = elim (find name result) [
  | some _ ↦ err duplicate
  | none ↦ namespaces rest (add_field name (obj raw) result)
]

abbrev pub resolved_ids : String → String → String → String → Json
resolved_ids model provider environment evaluation = obj (
    field "model_id" (str model) (
      field "provider_id" (str provider)
        (field "environment_id" (str environment) (field "evaluation_id" (str evaluation) end))))

unfoldable pub compose_config :
    BaseConfig → BaseConfig → BaseConfig → BaseConfig → Result ConfigError Fields
compose_config model provider environment evaluation = do
  result ←
      namespaces
        (("model", model.raw)
          ∷ ("provider", provider.raw)
          ∷ ("environment", environment.raw)
          ∷ ("evaluation", evaluation.raw)
          ∷ [])
        end
  model_name ← model_id model
  provider_name ← provider_id provider
  environment_name ← environment_id environment
  evaluation_name ← evaluation_id evaluation
  ok (
      add_field "resolved" (resolved_ids model_name provider_name environment_name evaluation_name)
        result)

-- `environment.id in supported_eval_environments`, whose entries may be any values.
abbrev pub has_text : String → Items → Bool
has_text text values = any (same_json (str text)) (items values)

-- The test on the environments of an evaluation suite.
abbrev pub check_environments : String → Option Json → Result ConfigError (Unit {0})
check_environments name none = ok tt
check_environments name (some (arr values)) =
    raise_if (truthy (arr values) && not (has_text name values)) environment_refused
check_environments name (some value) = raise_if (truthy value) bad_environments

-- `_validate_compatibility`
unfoldable pub validate_compatibility :
    Machine
    → FilePath
    → BaseConfig
    → BaseConfig
    → BaseConfig
    → BaseConfig
    → Result ConfigError (Unit {0})
validate_compatibility machine root model provider environment evaluation = do
  is_enabled ← enabled provider
  provider_name ← provider_id provider
  ensure is_enabled provider_disabled
  providers ← supported_providers model
  environment_name ← environment_id environment
  ensure (any (str_eq provider_name) providers)
      (unsupported_provider provider_name environment_name)
  platform ← providers_for_environment model environment_name
  ensure (any (str_eq provider_name) platform) (unsupported_provider provider_name environment_name)
  systems ← supported_os provider
  ensure (any (str_eq environment_name) systems)
      (unsupported_provider provider_name environment_name)
  check_environments environment_name (get evaluation "ci.supported_environments")
  file ← manifest evaluation
  ensure (machine.is_file (inside root file)) no_manifest

pub record ResolvedConfig : Type 0 where
  pub repository_root : FilePath
  pub model : BaseConfig
  pub provider : BaseConfig
  pub environment : BaseConfig
  pub evaluation : BaseConfig
  pub merged : Fields

-- `ResolvedConfig.get`
abbrev pub get_merged : ResolvedConfig → String → Option Json
get_merged config key = get_nested config.merged key

-- `ResolvedConfig.require`
abbrev require_merged : ResolvedConfig → String → Result ConfigError Json
require_merged config key = require (get_merged config key) missing_field

-- `ResolvedConfig.manifest_path`, with `Path.is_absolute`.
abbrev manifest_path : (String → Bool) → ResolvedConfig → Result ConfigError FilePath
manifest_path is_absolute config = do
  path ← manifest config.evaluation
  ok (if is_absolute path then given path else inside config.repository_root path)

-- `ResolvedConfig.identity`
abbrev identity : ResolvedConfig → Result ConfigError String
identity config = do
  model ← model_id config.model
  environment ← environment_id config.environment
  provider ← provider_id config.provider
  evaluation ← evaluation_id config.evaluation
  ok (model ++ (":" ++ (environment ++ (":" ++ (provider ++ (":" ++ evaluation))))))

-- The environment that the caller names, or the detected one.
abbrev pub chosen_environment : Machine → Option String → Result ConfigError String
chosen_environment machine (some environment) = normalize_environment_id machine.lower environment
chosen_environment machine none =
    detect_environment_id machine.lower machine.override machine.system

unfoldable pub resolve :
    Machine
    → FilePath
    → String
    → String
    → String
    → Option String
    → Result ConfigError ResolvedConfig
resolve machine root model_name provider_name evaluation_name environment_name = do
  chosen ← chosen_environment machine environment_name
  model ← load_model machine root model_name
  provider ← load_provider machine root provider_name
  environment ← load_environment machine root chosen
  evaluation ← load_evaluation machine root evaluation_name
  validate_compatibility machine root model provider environment evaluation
  merged ← compose_config model provider environment evaluation
  ok (record {
    repository_root = root;
    model = model;
    provider = provider;
    environment = environment;
    evaluation = evaluation;
    merged = merged;
  })
