-- ===== src/Configuration/Catalog.antt =====
-- config/catalog.py: the catalog of decoder profiles and of profile sets, as `AsrCatalog.load` makes
-- it of the JSON value that the file holds. Its path is left out.
pub mod Closed
use jpapt_v2_2_inspection.Base.{
  ℕ, String, Bool, true, false, Option, none, some, List, [], ◌∷◌, Result, ok, err, ◌>>=◌, ◌>>◌,
  ensure, raise_if, require, if◌then◌else◌, str_eq,
}
use jpapt_v2_2_inspection.Base.Dict.{lookup, set}
use jpapt_v2_2_inspection.Base.Int.{pos}
use jpapt_v2_2_inspection.Base.Json.{
  Json, null, bool, int, str, arr, obj, Items, nil, cons, Fields, end, field, find, or_null,
  same_json,
}
use jpapt_v2_2_inspection.Contracts.Strip.{strip, is_blank}

pub data CatalogError : Type 0 where
  unreadable bad_root not_object blank_key blank_text not_boolean not_texts : CatalogError
  unknown_profile unknown_default unknown_variant unknown_profile_set : CatalogError

pub record DecoderProfile : Type 0 where
  pub profile_id : String
  pub decoder : String
  pub artifact_contract : String
  pub tokenizer_kind : String
  pub required_artifact_roles : List String
  pub optional_artifact_roles : List String
  pub features : List (String × Bool)

pub record ProfileSet : Type 0 where
  pub profile_set_id : String
  pub variants : List (String × String)
  pub default_variant : String

pub record AsrCatalog : Type 0 where
  pub catalog_id : String
  pub sha256 : String
  pub decoder_profiles : List (String × DecoderProfile)
  pub profile_sets : List (String × ProfileSet)

-- `_string_value`
abbrev pub string_value : Option Json → Result CatalogError String
string_value (some (str s)) = do raise_if (is_blank s) blank_text; ok (strip s)
string_value _ = err blank_text

abbrev pub string_at : Fields → String → Result CatalogError String
string_at value key = string_value (find key value)

-- `_mapping`
abbrev pub mapping : Option Json → Result CatalogError Fields
mapping (some (obj fields)) = ok fields
mapping _ = err not_object

-- `_nonempty_key`
abbrev pub nonempty_key : String → Result CatalogError String
nonempty_key key = do raise_if (is_blank key) blank_key; ok (strip key)

-- The stripped entries of an array of texts that are not blank.
unfoldable pub stripped : Items → Result CatalogError (List String)
stripped nil = ok []
stripped (cons (str s) rest) = do
  raise_if (is_blank s) not_texts
  texts ← stripped rest
  ok (strip s ∷ texts)
stripped (cons _ rest) = err not_texts

-- `_string_array`
abbrev pub string_array : Bool → Option Json → Result CatalogError (List String)
string_array required (some (arr xs)) = stripped xs
string_array required none = if required then err not_texts else ok []
string_array required (some null) = if required then err not_texts else ok []
string_array required _ = err not_texts

abbrev pub boolean : Json → Result CatalogError Bool
boolean (bool b) = ok b
boolean _ = err not_boolean

-- The loops of `load`, each with the dictionary that it fills.
unfoldable pub read_features :
    Fields → List (String × Bool) → Result CatalogError (List (String × Bool))
read_features end features = ok features
read_features (field key value rest) features = do
  b ← boolean value
  read_features rest (set key b features)

unfoldable pub read_profile : String → Json → Result CatalogError DecoderProfile
read_profile profile_id item = do
  value ← mapping (some item)
  features_raw ← mapping (find "features" value)
  features ← read_features features_raw []
  decoder ← string_at value "decoder"
  artifact_contract ← string_at value "artifact_contract"
  tokenizer_kind ← string_at value "tokenizer_kind"
  required_roles ← string_array true (find "required_artifact_roles" value)
  optional_roles ← string_array false (find "optional_artifact_roles" value)
  ok (record {
    profile_id = profile_id;
    decoder = decoder;
    artifact_contract = artifact_contract;
    tokenizer_kind = tokenizer_kind;
    required_artifact_roles = required_roles;
    optional_artifact_roles = optional_roles;
    features = features;
  })

unfoldable pub read_profiles :
    Fields → List (String × DecoderProfile) → Result CatalogError (List (String × DecoderProfile))
read_profiles end profiles = ok profiles
read_profiles (field key item rest) profiles = do
  profile_id ← nonempty_key key
  profile ← read_profile profile_id item
  read_profiles rest (set profile_id profile profiles)

-- `key in d`
abbrev pub is_some {ℓ} : {A : Type ℓ} → Option A → Bool
is_some none = false
is_some (some a) = true

module _ (profiles : List (String × DecoderProfile)) where
  unfoldable pub read_variants :
      Fields → List (String × String) → Result CatalogError (List (String × String))
  read_variants end variants = ok variants
  read_variants (field key item rest) variants = do
    variant ← nonempty_key key
    profile_id ← string_value (some item)
    ensure (is_some (lookup profile_id profiles)) unknown_profile
    read_variants rest (set variant profile_id variants)

  unfoldable pub read_profile_set : String → Json → Result CatalogError ProfileSet
  read_profile_set profile_set_id item = do
    value ← mapping (some item)
    variants_raw ← mapping (find "variants" value)
    variants ← read_variants variants_raw []
    default_variant ← string_at value "default_variant"
    ensure (is_some (lookup default_variant variants)) unknown_default
    ok (record {
      profile_set_id = profile_set_id;
      variants = variants;
      default_variant = default_variant;
    })

  unfoldable pub read_profile_sets :
      Fields → List (String × ProfileSet) → Result CatalogError (List (String × ProfileSet))
  read_profile_sets end sets = ok sets
  read_profile_sets (field key item rest) sets = do
    profile_set_id ← nonempty_key key
    profile_set ← read_profile_set profile_set_id item
    read_profile_sets rest (set profile_set_id profile_set sets)

-- `isinstance(raw, dict) and raw.get("schema_version") == 1`
abbrev pub root_of : Json → Result CatalogError Fields
root_of (obj raw) =
    if same_json (or_null (find "schema_version" raw)) (int (pos 1)) then ok raw else err bad_root
root_of _ = err bad_root

-- `none`: the file cannot be read or holds no JSON. `digest` is the SHA-256 of the canonical JSON.
unfoldable pub load : (Fields → String) → Option Json → Result CatalogError AsrCatalog
load digest file = do
  value ← require file unreadable
  raw ← root_of value
  catalog_id ← string_at raw "catalog_id"
  profiles_raw ← mapping (find "decoder_profiles" raw)
  profiles ← read_profiles profiles_raw []
  sets_raw ← mapping (find "profile_sets" raw)
  sets ← read_profile_sets profiles sets_raw []
  ok (record {
    catalog_id = catalog_id;
    sha256 = digest raw;
    decoder_profiles = profiles;
    profile_sets = sets;
  })

-- `variant or self.default_variant`
abbrev pub selected_variant : Option String → String → String
selected_variant none default = default
selected_variant (some v) default = if str_eq v "" then default else v

unfoldable pub profile_id_for : ProfileSet → Option String → Result CatalogError String
profile_id_for s variant =
    require (lookup (selected_variant variant s.default_variant) s.variants) unknown_variant

unfoldable pub profile_set : AsrCatalog → String → Result CatalogError ProfileSet
profile_set c id = require (lookup id c.profile_sets) unknown_profile_set

unfoldable pub decoder_profile : AsrCatalog → String → Result CatalogError DecoderProfile
decoder_profile c id = require (lookup id c.decoder_profiles) unknown_profile
