-- ===== src/Hf/Targets/Tests.antt =====
-- A target of the profile set with two decoders.
use jpapt_v2_2_inspection.Base.{◌≡◌, refl, String, some, [], ◌∷◌, ok, err}
use jpapt_v2_2_inspection.Base.Dict.{lookup}
use jpapt_v2_2_inspection.Base.Int.{pos}
use jpapt_v2_2_inspection.Base.Json.{int, str, obj, Fields, end, field, find, same_json}
use jpapt_v2_2_inspection.Configuration.Catalog.{
  unknown_profile_set, AsrCatalog, load, profile_set, decoder_profile, profile_id_for,
}
use jpapt_v2_2_inspection.Configuration.Tests.{file, loaded}
use jpapt_v2_2_inspection.Configuration.Resolver.{table}
use jpapt_v2_2_inspection.Hf.Targets.{refused, HfTarget, decoders_of, offer_of, load_hf_target}
use jpapt_v2_2_inspection.Hf.Targets.Consistent.{IsConsistent, load_hf_target-IsConsistent}

abbrev toml : String → Fields
toml set = field "schema_version" (int (pos 2)) (
    field "target" (obj (field "id" (str "ja") (field "model_id" (str "parakeet") end))) (
      field "upstream" (obj (field "repo_id" (str "nvidia/parakeet") end)) (
        field "reference" (obj (field "canonical_framework" (str "nemo") end)) (
          field "runtime" (obj (field "profile_set" (str set) end)) (
            field "storage" (obj (field "bucket" (str "b") (field "model_repo" (str "o/m") end)))
              (field "evaluation" (obj (field "datasets_policy" (str "locked") end)) end))))))

abbrev target : HfTarget
target = record {
  id = "ja";
  model_id = "parakeet";
  upstream_repo_id = "nvidia/parakeet";
  canonical_framework = "nemo";
  profile_set_id = "ja";
  supported_decoders = "ctc" ∷ "tdt" ∷ [];
  default_decoder = "tdt";
  default_variant = "tdt";
  bucket = "b";
  model_repo = "o/m";
  datasets_policy = "locked";
}

target_loaded : load_hf_target (λ raw. "d") (some file) (table (toml "ja")) ≡ ok target
unfolding load_hf_target offer_of decoders_of decoder_profile profile_set profile_id_for lookup find
    same_json
target_loaded = rw (loaded (λ raw. "d") "d" (λ raw. refl)) refl

no_set :
    load_hf_target (λ raw. "d") (some file) (table (toml "en")) ≡ err (refused unknown_profile_set)
unfolding load_hf_target offer_of decoders_of decoder_profile profile_set profile_id_for lookup find
    same_json
no_set = rw (loaded (λ raw. "d") "d" (λ raw. refl)) refl

load_hf_target-IsConsistent_example :
    (c : AsrCatalog) × (load (λ raw. "d") (some file) ≡ ok c) × IsConsistent c target
load_hf_target-IsConsistent_example =
    load_hf_target-IsConsistent (λ raw. "d") (some file) (table (toml "ja")) target target_loaded
