-- ===== src/Configuration/Resolver/Tests.antt =====
-- A smoke run of one model on the CPU of a Linux machine.
use jpapt_v2_2_inspection.Base.{
  ◌≡◌, refl, String, true, none, some, ok, err, if◌then◌else◌, str_eq, ◌↔◌,
}
use jpapt_v2_2_inspection.Base.Dict.{lookup}
use jpapt_v2_2_inspection.Base.Int.{pos}
use jpapt_v2_2_inspection.Base.Json.{
  Json, int, bool, str, arr, obj, nil, cons, Fields, end, field, find, items, same_json,
}
use jpapt_v2_2_inspection.Contracts.Strip.{strip, lstrip, rstrip, is_blank}
use jpapt_v2_2_inspection.Configuration.Models.{
  unsupported_provider, FilePath, given, inside, BaseConfig, split_dots, get_parts, get_nested,
  strings_of, model_id, supported_providers, providers_for_environment, provider_id, enabled,
  supported_os, environment_id, evaluation_id, manifest,
}
use jpapt_v2_2_inspection.Configuration.Environment.{
  normalize_environment_id, detect_environment_id, IsNormal,
}
use jpapt_v2_2_inspection.Configuration.Resolver.{
  TomlFile, absent, table, Machine, ResolvedConfig, load_config, compose_config, config_file,
  validate_compatibility, chosen_environment, resolve,
}
use jpapt_v2_2_inspection.Configuration.Resolver.Merged.{composed}
use jpapt_v2_2_inspection.Configuration.Resolver.Compatible.{
  IsCompatible, validate_compatibility_iff,
}
use jpapt_v2_2_inspection.Configuration.Resolver.Resolved.{
  IsResolved, Answers, chosen_environment-IsNormal, resolve_iff, resolve-get_nested,
}

abbrev version_1 : Fields → Fields
version_1 rest = field "schema_version" (int (pos 1)) rest

abbrev named : String → Fields → Json
named id rest = obj (field "id" (str id) rest)

abbrev cpu_only : Json
cpu_only = arr (cons (str "cpu") nil)

abbrev model_raw : Fields
model_raw = version_1 (
    field "model" (named "ja" end) (
      field "execution"
        (obj (
          field "supported_providers" cpu_only
            (field "platforms" (obj (field "linux" cpu_only end)) end)))
        end))

abbrev provider_raw : String → Fields
provider_raw id = version_1 (
    field "provider"
      (named id
        (field "enabled" (bool true) (field "supported_os" (arr (cons (str "linux") nil)) end)))
      end)

abbrev environment_raw : Fields
environment_raw = version_1 (field "environment" (named "linux" end) end)

abbrev evaluation_raw : Fields
evaluation_raw = version_1 (
    field "evaluation" (named "smoke" (field "manifest" (str "smoke.json") end))
      (field "ci" (obj (field "supported_environments" (arr (cons (str "linux") nil)) end)) end))

abbrev files : FilePath → TomlFile
files (given _) = absent
files (inside _ name) =
    if str_eq name "ja.toml"
    then table model_raw
    else if str_eq name "cpu.toml"
    then table (provider_raw "cpu")
    else if str_eq name "cuda.toml"
    then table (provider_raw "cuda")
    else if str_eq name "linux.toml"
    then table environment_raw
    else if str_eq name "smoke.toml"
    then table evaluation_raw
    else absent

abbrev machine : Machine
machine = record {
  lower = λ s. s;
  override = some " wsl2 ";
  system = "Windows";
  toml = files;
  is_file = λ path. true;
}

abbrev root : FilePath
root = given "/repo"

abbrev at_file : String → String → Fields → BaseConfig
at_file directory id raw = record { path = config_file root directory id; raw = raw }

abbrev model : BaseConfig
model = at_file "models" "ja" model_raw

abbrev provider : BaseConfig
provider = at_file "providers" "cpu" (provider_raw "cpu")

abbrev environment : BaseConfig
environment = at_file "environments" "linux" environment_raw

abbrev evaluation : BaseConfig
evaluation = at_file "evaluation" "smoke" evaluation_raw

abbrev config : ResolvedConfig
config = record {
  repository_root = root;
  model = model;
  provider = provider;
  environment = environment;
  evaluation = evaluation;
  merged = composed model provider environment evaluation "ja" "cpu" "linux" "smoke";
}

resolved : resolve machine root "ja" "cpu" "smoke" none ≡ ok config
unfolding resolve normalize_environment_id detect_environment_id lookup load_config find
    compose_config validate_compatibility get_nested get_parts split_dots strings_of items same_json
    model_id supported_providers providers_for_environment provider_id enabled supported_os
    environment_id evaluation_id manifest strip lstrip rstrip is_blank
resolved = refl

-- The model does not run on CUDA.
refused : resolve machine root "ja" "cuda" "smoke" none ≡ err (unsupported_provider "cuda" "linux")
unfolding resolve normalize_environment_id detect_environment_id lookup load_config find
    compose_config validate_compatibility get_nested get_parts split_dots strings_of items same_json
    model_id supported_providers providers_for_environment provider_id enabled supported_os
    environment_id evaluation_id manifest strip lstrip rstrip is_blank
refused = refl

chosen : chosen_environment machine none ≡ ok "linux"
unfolding normalize_environment_id detect_environment_id lookup strip lstrip rstrip
chosen = refl

resolve_iff_example :
    (resolve machine root "ja" "cpu" "smoke" none ≡ ok config)
    ↔ ((n : String) × IsResolved machine root "ja" "cpu" "smoke" none config n)
resolve_iff_example =
    resolve_iff machine root "ja" "cpu" "smoke" none config (refl, (refl, (refl, tt)))

resolve-get_nested_example : Answers config "execution.platforms" "ja" "cpu" "smoke" config.merged
resolve-get_nested_example =
    resolve-get_nested machine root "ja" "cpu" "smoke" none config "execution.platforms"
      (refl, (refl, (refl, tt))) resolved

chosen_environment-IsNormal_example : IsNormal machine.lower "linux"
chosen_environment-IsNormal_example =
    chosen_environment-IsNormal machine (refl, (refl, (refl, tt))) none chosen

provider_named : provider_id provider ≡ ok "cpu"
unfolding provider_id get_nested get_parts split_dots find strip lstrip rstrip is_blank
provider_named = refl

environment_named : environment_id environment ≡ ok "linux"
unfolding environment_id get_nested get_parts split_dots find strip lstrip rstrip is_blank
environment_named = refl

validate_compatibility_iff_example :
    (validate_compatibility machine root model provider environment evaluation ≡ ok tt)
    ↔ IsCompatible machine root model provider evaluation "cpu" "linux"
validate_compatibility_iff_example =
    validate_compatibility_iff machine root model provider environment evaluation "cpu" "linux"
      provider_named environment_named
