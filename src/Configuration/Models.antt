-- ===== src/Configuration/Models.antt =====
-- config/models.py and config/errors.py: the configuration files as tables, and their fields, each
-- read with its type. A property of a class is a function of its config.
use jpapt_v2_2_inspection.Base.{
  ℕ, String, Bool, false, Option, none, some, List, [], ◌∷◌, Result, ok, err, ◌>>=◌, ◌>>◌, raise_if,
  require, if◌then◌else◌, ◌==◌,
}
use Prim.Native.Char.{Char, code}
use Prim.Native.String.{◌++◌}
use Prim.Native.Nat.{suc}
use jpapt_v2_2_inspection.Base.Int.{ℤ, pos}
use jpapt_v2_2_inspection.Base.Json.{
  Json, null, bool, int, str, arr, obj, Items, nil, cons, Fields, find, or_null,
}
use jpapt_v2_2_inspection.Contracts.Strip.{strip, is_blank}

pub data ConfigError : Type 0 where
  file_not_found malformed no_schema_version bad_schema_version : ConfigError
  missing_field not_text not_boolean not_positive not_array id_mismatch : ConfigError
  provider_disabled bad_environments environment_refused no_manifest duplicate : ConfigError
  unsupported_environment : String → ConfigError
  unsupported_provider : String → String → ConfigError

-- A path as the code builds it: a given one, or `path / name`.
pub data FilePath : Type 0 where
  given : String → FilePath
  inside : FilePath → String → FilePath

-- `key.split(".")`
abbrev pub push : Char → List String → List String
push c [] = String.◌∷◌ c String.[] ∷ []
push c (part ∷ parts) = String.◌∷◌ c part ∷ parts

unfoldable pub split_dots : String → List String
split_dots String.[] = String.[] ∷ []
split_dots (String.◌∷◌ c s) =
    let rest = split_dots s in if code c == 46 then String.[] ∷ rest else push c rest

unfoldable pub get_parts : List String → Json → Option Json
get_parts [] current = some current
get_parts (part ∷ parts) (obj fields) = elim (find part fields) [
  | none ↦ none
  | some value ↦ get_parts parts value
]
get_parts (part ∷ parts) _ = none

-- `_get_nested`, with `none` for the default or the KeyError.
unfoldable pub get_nested : Fields → String → Option Json
get_nested mapping key = get_parts (split_dots key) (obj mapping)

-- `_string`, `_boolean`, `_positive_integer`
abbrev pub string_of : Json → Result ConfigError String
string_of (str s) = do raise_if (is_blank s) not_text; ok (strip s)
string_of _ = err not_text

abbrev boolean_of : Json → Result ConfigError Bool
boolean_of (bool b) = ok b
boolean_of _ = err not_boolean

abbrev positive_of : Json → Result ConfigError ℕ
positive_of (int (pos (suc n))) = ok (suc n)
positive_of _ = err not_positive

-- `_string_array`
unfoldable pub strings_of : Items → Result ConfigError (List String)
strings_of nil = ok []
strings_of (cons value rest) = do text ← string_of value; texts ← strings_of rest; ok (text ∷ texts)

abbrev pub string_array : Json → Result ConfigError (List String)
string_array (arr values) = strings_of values
string_array _ = err not_array

-- `BaseConfig`, and the four classes derived from it.
pub record BaseConfig : Type 0 where
  pub path : FilePath
  pub raw : Fields

abbrev schema_version : BaseConfig → Result ConfigError ℤ
schema_version config = elim (or_null (find "schema_version" config.raw)) [
  | int n ↦ ok n
  | _ ↦ err bad_schema_version
]

abbrev pub get : BaseConfig → String → Option Json
get config key = get_nested config.raw key

-- `get` with a default.
abbrev get_or : BaseConfig → String → Json → Json
get_or config key default = elim (get config key) [ none ↦ default | some value ↦ value ]

abbrev pub require_field : BaseConfig → String → Result ConfigError Json
require_field config key = require (get config key) missing_field

abbrev pub text_at : BaseConfig → String → Result ConfigError String
text_at config key = do value ← require_field config key; string_of value

abbrev pub texts_at : BaseConfig → String → Result ConfigError (List String)
texts_at config key = do value ← require_field config key; string_array value

abbrev pub boolean_at : BaseConfig → String → Result ConfigError Bool
boolean_at config key = do value ← require_field config key; boolean_of value

-- `ModelConfig`
unfoldable pub model_id : BaseConfig → Result ConfigError String
model_id config = text_at config "model.id"

abbrev family : BaseConfig → Result ConfigError String
family config = text_at config "model.family"

abbrev model_architecture : BaseConfig → Result ConfigError String
model_architecture config = text_at config "model.architecture"

abbrev language : BaseConfig → Result ConfigError String
language config = text_at config "model.language"

abbrev upstream_repo_id : BaseConfig → Result ConfigError String
upstream_repo_id config = text_at config "upstream.repo_id"

unfoldable pub supported_providers : BaseConfig → Result ConfigError (List String)
supported_providers config = texts_at config "execution.supported_providers"

unfoldable pub providers_for_environment : BaseConfig → String → Result ConfigError (List String)
providers_for_environment config environment = do
  environment_id ← string_of (str environment)
  texts_at config ("execution.platforms." ++ environment_id)

-- `ProviderConfig`
unfoldable pub provider_id : BaseConfig → Result ConfigError String
provider_id config = text_at config "provider.id"

abbrev ort_name : BaseConfig → Result ConfigError String
ort_name config = text_at config "provider.ort_name"

unfoldable pub enabled : BaseConfig → Result ConfigError Bool
enabled config = boolean_at config "provider.enabled"

unfoldable pub supported_os : BaseConfig → Result ConfigError (List String)
supported_os config = texts_at config "provider.supported_os"

abbrev reference_provider : BaseConfig → Result ConfigError Bool
reference_provider config = boolean_of (get_or config "provider.reference_provider" (bool false))

-- `ExecutionEnvironmentConfig`
unfoldable pub environment_id : BaseConfig → Result ConfigError String
environment_id config = text_at config "environment.id"

abbrev os : BaseConfig → Result ConfigError String
os config = text_at config "environment.os"

abbrev environment_architecture : BaseConfig → Result ConfigError String
environment_architecture config = string_of (get_or config "environment.architecture" (str "auto"))

abbrev github_runner : BaseConfig → Result ConfigError (Option String)
github_runner config = elim (get_or config "github_actions.runner" null) [
  | null ↦ ok none
  | value ↦ do text ← string_of value; ok (some text)
]

-- `EvaluationConfig`
unfoldable pub evaluation_id : BaseConfig → Result ConfigError String
evaluation_id config = text_at config "evaluation.id"

unfoldable pub manifest : BaseConfig → Result ConfigError String
manifest config = text_at config "evaluation.manifest"

abbrev expected_sample_count : BaseConfig → Result ConfigError ℕ
expected_sample_count config = do
  value ← require_field config "evaluation.expected_sample_count"
  positive_of value

abbrev fail_fast : BaseConfig → Result ConfigError Bool
fail_fast config = boolean_of (get_or config "evaluation.fail_fast" (bool false))
