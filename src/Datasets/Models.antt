-- ===== src/Datasets/Models.antt =====
-- datasets/models.py, and the checks of datasets/manifest.py. What a sample's audio holds is left open.
use jpapt_v2_2_inspection.Base.{
  ℕ, ◌+◌, String, Bool, false, not, Option, none, some, List, [], ◌∷◌, map, Result, ok, ◌>>◌,
  ensure, raise_if, if◌then◌else◌, length, str_eq, ◌==◌, leb, ◌-◌,
}
use jpapt_v2_2_inspection.Base.Int.{ℤ, pos, negsuc, is_negative, leb_ℤ, eq_ℤ}
use jpapt_v2_2_inspection.Base.Distinct.{distinct}
use jpapt_v2_2_inspection.Base.Json.{Json}
use jpapt_v2_2_inspection.Evaluation.Models.{Float64}
use Prim.Native.String.{◌++◌ as ◌<>◌}

-- The comparisons of floats, which include NaN: `a >= b` is `b <= a`.
pub record FloatTests : Type 0 where
  pub zero : Float64
  pub less : Float64 → Float64 → Bool
  pub at_most : Float64 → Float64 → Bool

pub data DatasetError : Type 0 where
  bad_strategy bad_count empty_seed bad_min_duration bad_max_duration bad_duration_range :
      DatasetError
  empty_entry_id empty_dataset_id empty_identity bad_index bad_duration bad_sample_rate :
      DatasetError
  empty_revision no_audio no_transcription no_duration conversion : DatasetError
  expected_count_mismatch too_few_records duplicate_logical_id : DatasetError
  bad_schema_version resolved_count_mismatch expected_mismatch duplicate_sample_id : DatasetError
  backend_error materialize_error lock_error : DatasetError

abbrev pub is_empty : String → Bool
is_empty s = str_eq s ""

pub record ManifestSelection : Type 0 where
  pub count : ℤ
  pub seed : String
  pub strategy : String

pub record ManifestFilters : Type 0 where
  pub min_duration_sec : Option Float64
  pub max_duration_sec : Option Float64

pub record ManifestEntry : Type 0 where
  pub id : String
  pub dataset_id : String
  pub selection : ManifestSelection
  pub filters : ManifestFilters
  pub tags : List String

pub record DatasetRecord : Type 0 where
  pub identity : String
  pub index : ℤ
  pub duration_sec : Float64
  pub sample_rate_hz : Option ℤ
  pub transcription : String
  pub audio : Json
  pub source_id : Option String
  pub audio_path : Option String

pub record ResolvedDatasetSample : Type 0 where
  pub id : String
  pub manifest_entry_id : String
  pub dataset_id : String
  pub dataset_repo_id : String
  pub dataset_revision : String
  pub subset : Option String
  pub split : Option String
  pub row_index : ℤ
  pub source_identity : String
  pub selection_hash : String
  pub selection_rank : ℕ
  pub duration_sec : Float64
  pub sample_rate_hz : Option ℤ
  pub transcription : String
  pub tags : List String
  pub audio_path : Option String
  pub audio_sha256 : Option String

pub record ResolvedManifest : Type 0 where
  pub schema_version : ℤ
  pub manifest_path : String
  pub expected_sample_count : ℤ
  pub resolved_sample_count : ℕ
  pub samples : List ResolvedDatasetSample

unfoldable pub logical_identity : ResolvedDatasetSample → String
logical_identity self =
    self.dataset_id <> ":" <> self.dataset_revision <> ":" <> self.source_identity

-- `ManifestSelection.validate`
unfoldable pub validate_selection : ManifestSelection → Result DatasetError (Unit {0})
validate_selection self = do
  ensure (str_eq self.strategy "stable_hash") bad_strategy
  raise_if (leb_ℤ self.count 0) bad_count
  raise_if (is_empty self.seed) empty_seed

-- A test on a bound that may be missing.
abbrev pub bound_test : Option Float64 → (Float64 → Bool) → Bool
bound_test none test = false
bound_test (some bound) test = test bound

module _ (floats : FloatTests) where
  -- `ManifestFilters.validate`
  unfoldable pub validate_filters : ManifestFilters → Result DatasetError (Unit {0})
  validate_filters self = do
    raise_if (bound_test self.min_duration_sec (λ low. floats.less low floats.zero))
        bad_min_duration
    raise_if (bound_test self.max_duration_sec (λ high. floats.at_most high floats.zero))
        bad_max_duration
    raise_if
        (bound_test self.min_duration_sec
          λ low. bound_test self.max_duration_sec λ high. floats.at_most high low)
        bad_duration_range

  unfoldable pub accepts : ManifestFilters → Float64 → Bool
  accepts self duration_sec =
      if bound_test self.min_duration_sec (λ low. floats.less duration_sec low)
      then false
      else not (bound_test self.max_duration_sec (λ high. floats.at_most high duration_sec))

  -- `ManifestEntry.validate`
  unfoldable pub validate_entry : ManifestEntry → Result DatasetError (Unit {0})
  unfolding validate_selection validate_filters
  validate_entry self = do
    raise_if (is_empty self.id) empty_entry_id
    raise_if (is_empty self.dataset_id) empty_dataset_id
    validate_selection self.selection
    validate_filters self.filters

  -- `DatasetRecord.validate`
  unfoldable pub validate_record : DatasetRecord → Result DatasetError (Unit {0})
  validate_record self = do
    raise_if (is_empty self.identity) empty_identity
    raise_if (is_negative self.index) bad_index
    raise_if (floats.less self.duration_sec floats.zero) bad_duration
    raise_if (elim self.sample_rate_hz [ none ↦ false | some rate ↦ leb_ℤ rate 0 ]) bad_sample_rate

-- `ResolvedManifest.validate`
unfoldable pub validate_manifest : ResolvedManifest → Result DatasetError (Unit {0})
unfolding distinct
validate_manifest self = do
  ensure (eq_ℤ self.schema_version (pos 1)) bad_schema_version
  ensure (self.resolved_sample_count == length self.samples) resolved_count_mismatch
  ensure (eq_ℤ (pos self.resolved_sample_count) self.expected_sample_count) expected_mismatch
  let ids = map (λ sample. sample.id) self.samples
  ensure (length ids == length (distinct ids)) duplicate_sample_id

-- `f"{dataset_revision}\n{sample_identity}\n{seed}"`, where the texts are not empty.
unfoldable pub stable_hash_key : String → String → String → Result DatasetError String
stable_hash_key dataset_revision sample_identity seed = do
  raise_if (is_empty dataset_revision) empty_revision
  raise_if (is_empty sample_identity) empty_identity
  raise_if (is_empty seed) empty_seed
  ok (dataset_revision <> "\n" <> sample_identity <> "\n" <> seed)

-- `a - b`, of numbers.
abbrev pub sub_ℕ : ℕ → ℕ → ℤ
sub_ℕ a b = if leb b a then pos (a - b) else negsuc (b - a - 1)

abbrev pub add_ℤ : ℤ → ℤ → ℤ
add_ℤ (pos a) (pos b) = pos (a + b)
add_ℤ (pos a) (negsuc b) = sub_ℕ a (b + 1)
add_ℤ (negsuc a) (pos b) = sub_ℕ b (a + 1)
add_ℤ (negsuc a) (negsuc b) = negsuc (a + b + 1)

-- `sum(entry.selection.count for entry in entries)`
unfoldable pub expected_sample_count : List ManifestEntry → ℤ
expected_sample_count [] = pos 0
expected_sample_count (entry ∷ entries) =
    add_ℤ entry.selection.count (expected_sample_count entries)
