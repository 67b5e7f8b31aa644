-- ===== src/Contracts/Candidate.antt =====
-- The generated candidate of contracts.py, its validation and `to_dict`. A dictionary is the list of
-- its items. The parser of generated_candidate_io.py is the child Parse.
pub mod Parse
pub mod Items
pub mod Roundtrip
use jpapt_v2_2_inspection.Base.{
  ℕ, String, Bool, true, false, Option, none, some, List, [], ◌∷◌, Result, ok, err, ◌>>=◌, ◌>>◌,
  ensure, raise_if, str_eq,
}
use jpapt_v2_2_inspection.Base.Int.{ℤ, pos, eq_ℤ}
use jpapt_v2_2_inspection.Base.Sorting.{sort}
use jpapt_v2_2_inspection.Base.Text.{leb_text}
use jpapt_v2_2_inspection.Base.Json.{Json, bool, int, str, obj, Fields, end, field}
use jpapt_v2_2_inspection.Contracts.Checks.{
  ContractError, not_positive, bad_schema_version, decoder_mismatch, no_artifacts, require_nonempty,
  require_sha256, require_one_of, reject_nulls, is_positive,
}

pub record GeneratedCatalog : Type 0 where
  pub id : String
  pub sha256 : String

pub record GeneratedArtifact : Type 0 where
  pub path : String
  pub sha256 : String
  pub size_bytes : ℤ

pub record GeneratedTokenizer : Type 0 where
  pub kind : String
  pub path : String

pub record GeneratedRuntimeContract : Type 0 where
  pub decoder : String
  pub input_kind : String
  pub io : Fields
  pub decoder_config : Fields

pub record GeneratedCandidateContract : Type 0 where
  pub schema_version : ℤ
  pub candidate_root : String
  pub candidate_id : String
  pub profile_set : String
  pub variant : String
  pub profile : String
  pub decoder : String
  pub artifact_contract : String
  pub catalog : GeneratedCatalog
  pub bundle_sha256 : String
  pub artifacts : List (String × GeneratedArtifact)
  pub tokenizer : Option GeneratedTokenizer
  pub features : List (String × Bool)
  pub runtime_contract : GeneratedRuntimeContract

-- `_DECODERS` and `_INPUT_KINDS`
abbrev pub decoders : List String
decoders = "ctc" ∷ "tdt" ∷ "whisper_autoregressive" ∷ []

abbrev pub input_kinds : List String
input_kinds = "canonical_waveform" ∷ "features" ∷ []

-- `asdict` and `to_dict`
abbrev pub catalog_dict : GeneratedCatalog → Fields
catalog_dict c = field "id" (str c.id) (field "sha256" (str c.sha256) end)

abbrev pub artifact_dict : GeneratedArtifact → Fields
artifact_dict a =
    field "path" (str a.path)
      (field "sha256" (str a.sha256) (field "size_bytes" (int a.size_bytes) end))

abbrev pub tokenizer_dict : GeneratedTokenizer → Fields
tokenizer_dict t = field "kind" (str t.kind) (field "path" (str t.path) end)

abbrev pub runtime_dict : GeneratedRuntimeContract → Fields
runtime_dict r = field "decoder" (str r.decoder) (
    field "input_kind" (str r.input_kind)
      (field "io" (obj r.io) (field "decoder_config" (obj r.decoder_config) end)))

unfoldable pub artifacts_dict : List (String × GeneratedArtifact) → Fields
artifacts_dict [] = end
artifacts_dict ((role, a) ∷ rest) = field role (obj (artifact_dict a)) (artifacts_dict rest)

unfoldable pub features_dict : List (String × Bool) → Fields
features_dict [] = end
features_dict ((name, value) ∷ rest) = field name (bool value) (features_dict rest)

-- `sorted(d.items())`: the keys of a dictionary are distinct.
abbrev pub by_name {ℓ} : {A : Type ℓ} → String × A → String × A → Bool
by_name a b = leb_text a.0 b.0

abbrev pub tokenizer_field : Option GeneratedTokenizer → Fields
tokenizer_field none = end
tokenizer_field (some t) = field "tokenizer" (obj (tokenizer_dict t)) end

unfoldable pub to_dict : GeneratedCandidateContract → Fields
to_dict c = field "schema_version" (int c.schema_version) (
    field "candidate_root" (str c.candidate_root) (
      field "candidate_id" (str c.candidate_id) (
        field "profile_set" (str c.profile_set) (
          field "variant" (str c.variant) (
            field "profile" (str c.profile) (
              field "decoder" (str c.decoder) (
                field "artifact_contract" (str c.artifact_contract) (
                  field "catalog" (obj (catalog_dict c.catalog)) (
                    field "bundle_sha256" (str c.bundle_sha256) (
                      field "artifacts" (obj (artifacts_dict (sort by_name c.artifacts))) (
                        field "features" (obj (features_dict (sort by_name c.features))) (
                          field "runtime_contract" (obj (runtime_dict c.runtime_contract))
                            (tokenizer_field c.tokenizer)))))))))))))

-- `validate` of each.
unfoldable pub validate_catalog : GeneratedCatalog → Result ContractError (Unit {0})
validate_catalog c = do require_nonempty c.id; require_sha256 c.sha256

unfoldable pub validate_artifact : GeneratedArtifact → Result ContractError (Unit {0})
validate_artifact a = do
  require_nonempty a.path
  require_sha256 a.sha256
  ensure (is_positive a.size_bytes) not_positive

-- The loops over the artifacts and the features.
unfoldable pub validate_artifacts :
    List (String × GeneratedArtifact) → Result ContractError (Unit {0})
validate_artifacts [] = ok tt
validate_artifacts ((role, a) ∷ rest) = do
  require_nonempty role
  validate_artifact a
  validate_artifacts rest

unfoldable pub validate_features : List (String × Bool) → Result ContractError (Unit {0})
validate_features [] = ok tt
validate_features ((name, value) ∷ rest) = do require_nonempty name; validate_features rest

unfoldable pub validate_tokenizer : Option GeneratedTokenizer → Result ContractError (Unit {0})
validate_tokenizer none = ok tt
validate_tokenizer (some t) = do require_nonempty t.kind; require_nonempty t.path

unfoldable pub validate_runtime : GeneratedRuntimeContract → Result ContractError (Unit {0})
validate_runtime r = do
  require_one_of decoders r.decoder
  require_one_of input_kinds r.input_kind
  reject_nulls (obj r.io)
  reject_nulls (obj r.decoder_config)

-- The checks on the contract's own texts.
unfoldable pub validate_texts : GeneratedCandidateContract → Result ContractError (Unit {0})
validate_texts c = do
  require_nonempty c.candidate_root
  require_nonempty c.candidate_id
  require_nonempty c.profile_set
  require_nonempty c.variant
  require_nonempty c.profile
  require_nonempty c.artifact_contract
  require_one_of decoders c.decoder
  require_sha256 c.bundle_sha256

abbrev pub is_nil {ℓ} : {A : Type ℓ} → List A → Bool
is_nil [] = true
is_nil (x ∷ xs) = false

unfoldable pub validate : GeneratedCandidateContract → Result ContractError (Unit {0})
validate c = do
  ensure (eq_ℤ c.schema_version (pos 1)) bad_schema_version
  validate_texts c
  validate_catalog c.catalog
  ensure (str_eq c.decoder c.runtime_contract.decoder) decoder_mismatch
  raise_if (is_nil c.artifacts) no_artifacts
  validate_artifacts c.artifacts
  validate_tokenizer c.tokenizer
  validate_features c.features
  validate_runtime c.runtime_contract
  reject_nulls (obj (to_dict c))
