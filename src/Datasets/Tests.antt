-- ===== src/Datasets/Tests.antt =====
-- A manifest of one entry, resolved against three records.
use jpapt_v2_2_inspection.Base.{ℕ, ◌≡◌, refl, String, Bool, none, some, List, [], ◌∷◌, ok, ltb, leb}
use jpapt_v2_2_inspection.Base.Int.{pos}
use jpapt_v2_2_inspection.Base.Json.{
  Json, null, str, int, arr, nil, cons, obj, Fields, end, field, items,
}
use jpapt_v2_2_inspection.Base.Sorting.{sort, insert}
use jpapt_v2_2_inspection.Base.Text.{codes, leb_codes}
use jpapt_v2_2_inspection.Base.Distinct.{distinct}
use jpapt_v2_2_inspection.Evaluation.Models.{Float64, bits}
use jpapt_v2_2_inspection.Datasets.Models.{
  FloatTests, ManifestEntry, DatasetRecord, ResolvedDatasetSample, ResolvedManifest,
  validate_record,
}
use jpapt_v2_2_inspection.Datasets.Rows.{Conversions, convert_row}
use jpapt_v2_2_inspection.Datasets.Resolver.{
  DatasetLockEntry, Materialized, Collaborators, Candidate, resolved_sample, resolve_entry, resolve,
}
use jpapt_v2_2_inspection.Datasets.Selection.{IsSelection, resolve_entry-IsSelection}
use jpapt_v2_2_inspection.Datasets.Conversion.{IsConverted, convert_row-IsConverted}
use jpapt_v2_2_inspection.Datasets.Resolution.{IsResolved, resolve-IsResolved}

abbrev below : Float64 → Float64 → Bool
below (bits a) (bits b) = ltb a b

abbrev up_to : Float64 → Float64 → Bool
up_to (bits a) (bits b) = leb a b

abbrev floats : FloatTests
floats = record { zero = bits 0; less = below; at_most = up_to }

abbrev row : String → ℕ → ℕ → DatasetRecord
row identity index seconds = record {
  identity = identity;
  index = pos index;
  duration_sec = bits seconds;
  sample_rate_hz = some (pos 16000);
  transcription = "text";
  audio = null;
  source_id = none;
  audio_path = none;
}

abbrev lock : DatasetLockEntry
lock = record { id = "d"; repo_id = "owner/d"; revision = "r"; subset = none; split = some "test" }

abbrev materialized : Materialized
materialized = record { audio_path = some "a.wav"; sha256 = some "0" }

abbrev collaborators : Collaborators
collaborators = record {
  sha256_hex = λ s. s;
  from_hex = λ s. codes s;
  first_16 = λ s. s;
  lock_of = λ s. ok lock;
  iter_records = λ l. ok (row "id:b" 0 3 ∷ row "id:a" 1 4 ∷ row "id:c" 2 20 ∷ []);
  materialize = λ r s. ok materialized;
}

abbrev entry : ManifestEntry
entry = record {
  id = "d-001";
  dataset_id = "d";
  selection = record { count = pos 2; seed = "s"; strategy = "stable_hash" };
  filters = record { min_duration_sec = none; max_duration_sec = some (bits 10) };
  tags = [];
}

abbrev chosen : String → DatasetRecord → Candidate
chosen key r = record { digest_bytes = codes key; digest_hex = key; value = r }

abbrev samples : List ResolvedDatasetSample
samples =
    resolved_sample floats collaborators entry lock 1 (chosen "r\nid:a\ns" (row "id:a" 1 4))
      materialized
    ∷ resolved_sample floats collaborators entry lock 2 (chosen "r\nid:b\ns" (row "id:b" 0 3))
        materialized
    ∷ []

resolve_entry_run : resolve_entry floats collaborators entry lock ≡ ok samples
unfolding resolve_entry codes sort insert leb_codes
resolve_entry_run = refl

resolve_entry-IsSelection_example : IsSelection floats collaborators entry lock 2 samples
resolve_entry-IsSelection_example =
    resolve_entry-IsSelection floats collaborators entry lock 2 samples refl resolve_entry_run

abbrev manifest : ResolvedManifest
manifest = record {
  schema_version = pos 1;
  manifest_path = "m.jsonl";
  expected_sample_count = pos 2;
  resolved_sample_count = 2;
  samples = samples;
}

resolve_run : resolve floats collaborators "m.jsonl" (entry ∷ []) (some (pos 2)) ≡ ok manifest
unfolding resolve resolve_entry codes sort distinct insert leb_codes
resolve_run = refl

resolve-IsResolved_example : IsResolved (entry ∷ []) manifest
resolve-IsResolved_example =
    resolve-IsResolved floats collaborators "m.jsonl" (entry ∷ []) (some (pos 2)) manifest
      resolve_run

-- Conversions that read only what the row below needs.
abbrev text_of : Json → String
text_of (str s) = s
text_of _ = "?"

abbrev python : Conversions
python = record {
  text_of = text_of;
  int_text = λ n. "0";
  int_of = λ v. some (pos 16000);
  float_of = λ v. none;
  seconds = λ n rate. bits n;
}

abbrev raw : Fields
raw = field "id" (str "u1") (
    field "audio"
      (obj (
        field "array" (arr (cons (int (pos 0)) nil)) (field "sampling_rate" (int (pos 16000)) end)))
      (field "sentence" (str "text") end))

abbrev converted : DatasetRecord
converted = record {
  identity = "id:u1";
  index = pos 7;
  duration_sec = bits 1;
  sample_rate_hz = some (pos 16000);
  transcription = "text";
  audio =
      obj (
        field "array" (arr (cons (int (pos 0)) nil)) (field "sampling_rate" (int (pos 16000)) end));
  source_id = some "u1";
  audio_path = none;
}

convert_row_run : convert_row python floats raw 7 ≡ ok converted
unfolding convert_row validate_record items
convert_row_run = refl

convert_row-IsConverted_example : IsConverted python floats raw 7 converted
convert_row-IsConverted_example =
    convert_row-IsConverted python floats raw 7 converted convert_row_run
