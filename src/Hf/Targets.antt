-- ===== src/Hf/Targets.antt =====
-- hf/targets.py: the profile of a target, from its TOML file and the repository's catalog. The path
-- of the file is left out.
pub mod Consistent
pub mod Tests
use jpapt_v2_2_inspection.Base.{
  String, Bool, true, false, Option, none, some, List, [], ◌∷◌, ◌++◌, Result, ok, err, ◌>>=◌, ◌>>◌,
  ensure, raise_if, any, str_eq, if◌then◌else◌, ℕ,
}
use jpapt_v2_2_inspection.Base.Int.{pos}
use jpapt_v2_2_inspection.Base.Json.{
  Json, int, str, obj, arr, Items, nil, cons, Fields, end, field, find, or_null, same_json,
}
use jpapt_v2_2_inspection.Configuration.Catalog.{
  CatalogError, AsrCatalog, ProfileSet, DecoderProfile, load, profile_set, decoder_profile,
  profile_id_for,
}
use jpapt_v2_2_inspection.Configuration.Resolver.{TomlFile, absent, broken, table}

-- `malformed` is tomllib's exception, which is not caught.
pub data TargetError : Type 0 where
  no_file malformed bad_version no_table blank_text : TargetError
  refused : CatalogError → TargetError

pub record HfTarget : Type 0 where
  pub id : String
  pub model_id : String
  pub upstream_repo_id : String
  pub canonical_framework : String
  pub profile_set_id : String
  pub supported_decoders : List String
  pub default_decoder : String
  pub default_variant : String
  pub bucket : String
  pub model_repo : String
  pub datasets_policy : String

abbrev texts : List String → Items
texts [] = nil
texts (s ∷ rest) = cons (str s) (texts rest)

abbrev to_dict : HfTarget → Fields
to_dict t = field "id" (str t.id) (
    field "model_id" (str t.model_id) (
      field "upstream_repo_id" (str t.upstream_repo_id) (
        field "canonical_framework" (str t.canonical_framework) (
          field "profile_set_id" (str t.profile_set_id) (
            field "supported_decoders" (arr (texts t.supported_decoders)) (
              field "default_decoder" (str t.default_decoder) (
                field "default_variant" (str t.default_variant) (
                  field "bucket" (str t.bucket) (
                    field "model_repo" (str t.model_repo)
                      (field "datasets_policy" (str t.datasets_policy) end))))))))))

-- `_require_string`
abbrev pub require_string : Fields → String → Result TargetError String
require_string source key = elim (find key source) [
  | some (str s) ↦ do raise_if (str_eq s "") blank_text; ok s
  | _ ↦ err blank_text
]

abbrev pub required_table : Fields → String → Result TargetError Fields
required_table raw key = elim (find key raw) [ some (obj fields) ↦ ok fields | _ ↦ err no_table ]

-- One round of `dict.fromkeys`: a key that is there stays where it is.
abbrev pub add_key : List String → String → List String
add_key found key = if any (str_eq key) found then found else found ++ (key ∷ [])

unfoldable pub decoders_of :
    AsrCatalog → List (String × String) → List String → Result CatalogError (List String)
decoders_of catalog [] found = ok found
decoders_of catalog ((variant, profile_id) ∷ rest) found = do
  profile ← decoder_profile catalog profile_id
  decoders_of catalog rest (add_key found profile.decoder)

-- What the target takes from the catalog: the profile set, the decoders and the default decoder.
pub record Offer : Type 0 where
  pub of_set : ProfileSet
  pub decoders : List String
  pub default : String

unfoldable pub offer_of : (Fields → String) → Option Json → String → Result CatalogError Offer
offer_of digest file profile_set_id = do
  catalog ← load digest file
  set ← profile_set catalog profile_set_id
  decoders ← decoders_of catalog set.variants []
  profile_id ← profile_id_for set none
  profile ← decoder_profile catalog profile_id
  ok (record { of_set = set; decoders = decoders; default = profile.decoder })

-- `except AsrCatalogError`
abbrev pub as_target_error : Result CatalogError Offer → Result TargetError Offer
as_target_error (err e) = err (refused e)
as_target_error (ok offer) = ok offer

abbrev pub read_toml : TomlFile → Result TargetError Fields
read_toml absent = err no_file
read_toml broken = err malformed
read_toml (table raw) = ok raw

unfoldable pub load_hf_target :
    (Fields → String) → Option Json → TomlFile → Result TargetError HfTarget
load_hf_target digest catalog_file toml = do
  raw ← read_toml toml
  ensure (same_json (or_null (find "schema_version" raw)) (int (pos 2))) bad_version
  target ← required_table raw "target"
  upstream ← required_table raw "upstream"
  reference ← required_table raw "reference"
  runtime ← required_table raw "runtime"
  storage ← required_table raw "storage"
  evaluation ← required_table raw "evaluation"
  profile_set_id ← require_string runtime "profile_set"
  offer ← as_target_error (offer_of digest catalog_file profile_set_id)
  id ← require_string target "id"
  model_id ← require_string target "model_id"
  upstream_repo_id ← require_string upstream "repo_id"
  canonical_framework ← require_string reference "canonical_framework"
  bucket ← require_string storage "bucket"
  model_repo ← require_string storage "model_repo"
  datasets_policy ← require_string evaluation "datasets_policy"
  ok (record {
    id = id;
    model_id = model_id;
    upstream_repo_id = upstream_repo_id;
    canonical_framework = canonical_framework;
    profile_set_id = profile_set_id;
    supported_decoders = offer.decoders;
    default_decoder = offer.default;
    default_variant = offer.of_set.default_variant;
    bucket = bucket;
    model_repo = model_repo;
    datasets_policy = datasets_policy;
  })
