-- ===== src/Configuration/Tests.antt =====
-- A catalog of two profiles.
use jpapt_v2_2_inspection.Base.{◌≡◌, refl, String, false, some, [], ◌∷◌, ok}
use jpapt_v2_2_inspection.Base.Dict.{lookup, set}
use jpapt_v2_2_inspection.Base.Int.{pos}
use jpapt_v2_2_inspection.Base.Json.{
  Json, int, bool, str, arr, obj, nil, cons, Fields, end, field, find, same_json,
}
use jpapt_v2_2_inspection.Contracts.Strip.{strip, is_blank}
use jpapt_v2_2_inspection.Configuration.Catalog.{
  DecoderProfile, ProfileSet, AsrCatalog, stripped, read_features, read_profile, read_profiles,
  read_variants, read_profile_set, read_profile_sets, load,
}

abbrev profile : String → Json
profile decoder = obj (
    field "features" (obj (field "streaming" (bool false) end)) (
      field "decoder" (str decoder) (
        field "artifact_contract" (str "nemo") (
          field "tokenizer_kind" (str "spm")
            (field "required_artifact_roles" (arr (cons (str "model") nil)) end)))))

abbrev pub file : Json
file = obj (
    field "schema_version" (int (pos 1)) (
      field "catalog_id" (str "asr") (
        field "decoder_profiles"
          (obj (field "p-ctc" (profile "ctc") (field "p-tdt" (profile " tdt ") end)))
          (field "profile_sets"
            (obj (
              field "ja"
                (obj (
                  field "variants" (obj (field "ctc" (str "p-ctc") (field "tdt" (str "p-tdt") end)))
                    (field "default_variant" (str "tdt") end)))
                end))
            end))))

abbrev pub ja : ProfileSet
ja = record {
  profile_set_id = "ja";
  variants = ("ctc", "p-ctc") ∷ ("tdt", "p-tdt") ∷ [];
  default_variant = "tdt";
}

abbrev made : String → String → DecoderProfile
made id decoder = record {
  profile_id = id;
  decoder = decoder;
  artifact_contract = "nemo";
  tokenizer_kind = "spm";
  required_artifact_roles = "model" ∷ [];
  optional_artifact_roles = [];
  features = ("streaming", false) ∷ [];
}

abbrev pub asr : String → AsrCatalog
asr sha256 = record {
  catalog_id = "asr";
  sha256 = sha256;
  decoder_profiles = ("p-ctc", made "p-ctc" "ctc") ∷ ("p-tdt", made "p-tdt" "tdt") ∷ [];
  profile_sets = ("ja", ja) ∷ [];
}

pub loaded :
    (digest : Fields → String) (sha256 : String)
    → ((raw : Fields) → digest raw ≡ sha256)
    → load digest (some file) ≡ ok (asr sha256)
unfolding load read_profiles read_profile read_features read_profile_sets read_profile_set
    read_variants stripped lookup set same_json strip is_blank find
loaded digest sha256 same = rw (same _) refl
