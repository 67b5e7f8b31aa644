-- ===== src/Evaluation/Capsule/Rows/Columns.antt =====
-- The columns of a row (evaluation/parquet.py), and the row that `_empty_row` starts from.
use jpapt_v2_2_inspection.Base.{ℕ, String, Option, none, some, List, [], ◌∷◌}
use jpapt_v2_2_inspection.Base.Int.{ℤ, pos}
use jpapt_v2_2_inspection.Evaluation.Models.{Float64}

abbrev pub experiment_capsule_schema_version : String
experiment_capsule_schema_version = "experiment-capsule/v1"

abbrev pub default_capsule_row_batch_size : ℕ
default_capsule_row_batch_size = 512

-- `_CAPSULE_COLUMNS`
abbrev pub capsule_columns : List String
capsule_columns =
    "schema_version" ∷ "run_id" ∷ "record_kind" ∷ "ordinal" ∷ "name" ∷ "category" ∷ "metadata_json"
    ∷ "sample_id" ∷ "dataset_id" ∷ "dataset_repo_id" ∷ "dataset_revision" ∷ "subset" ∷ "split"
    ∷ "audio_sha256" ∷ "audio_duration_sec" ∷ "sample_rate_hz" ∷ "reference_text"
    ∷ "hypothesis_text" ∷ "normalized_text" ∷ "cer" ∷ "wer" ∷ "provider_id" ∷ "decoder" ∷ "load_ms"
    ∷ "session_creation_ms" ∷ "audio_decode_ms" ∷ "resample_ms" ∷ "frontend_ms" ∷ "encoder_ms"
    ∷ "inference_ms" ∷ "decoder_ms" ∷ "postprocess_ms" ∷ "total_ms" ∷ "rtf" ∷ "peak_ram_mb"
    ∷ "peak_device_memory_mb" ∷ "status" ∷ "error_code" ∷ "error_stage" ∷ "error_message"
    ∷ "metric_name" ∷ "metric_value" ∷ "metric_unit" ∷ "artifact_id" ∷ "artifact_name" ∷ "mime_type"
    ∷ "artifact_sha256" ∷ "artifact_size_raw" ∷ "artifact_part_index" ∷ "artifact_part_count"
    ∷ "artifact_offset" ∷ "artifact_part_sha256" ∷ "payload" ∷ []

pub record SampleColumns : Type 0 where
  pub sample_id : Option String
  pub dataset_id : Option String
  pub dataset_repo_id : Option String
  pub dataset_revision : Option String
  pub subset : Option String
  pub split : Option String
  pub audio_sha256 : Option String
  pub audio_duration_sec : Option Float64
  pub sample_rate_hz : Option ℤ
  pub reference_text : Option String
  pub hypothesis_text : Option String
  pub normalized_text : Option String
  pub cer : Option Float64
  pub wer : Option Float64
  pub provider_id : Option String
  pub decoder : Option String
  pub load_ms : Option Float64
  pub session_creation_ms : Option Float64
  pub audio_decode_ms : Option Float64
  pub resample_ms : Option Float64
  pub frontend_ms : Option Float64
  pub encoder_ms : Option Float64
  pub inference_ms : Option Float64
  pub decoder_ms : Option Float64
  pub postprocess_ms : Option Float64
  pub total_ms : Option Float64
  pub rtf : Option Float64
  pub peak_ram_mb : Option Float64
  pub peak_device_memory_mb : Option Float64

pub record MetricColumns : Type 0 where
  pub metric_name : Option String
  pub metric_value : Option Float64
  pub metric_unit : Option String

pub record ArtifactColumns : Type 0 where
  pub artifact_id : Option String
  pub artifact_name : Option String
  pub mime_type : Option String
  pub artifact_sha256 : Option String
  pub artifact_size_raw : Option ℤ
  pub artifact_part_index : Option ℤ
  pub artifact_part_count : Option ℤ
  pub artifact_offset : Option ℤ
  pub artifact_part_sha256 : Option String
  pub payload : Option (List ℕ)

pub record Row : Type 0 where
  pub schema_version : Option String
  pub run_id : Option String
  pub record_kind : Option String
  pub ordinal : Option ℤ
  pub name : Option String
  pub category : Option String
  pub metadata_json : Option String
  pub sample : SampleColumns
  pub status : Option String
  pub error_code : Option String
  pub error_stage : Option String
  pub error_message : Option String
  pub metric : MetricColumns
  pub artifact : ArtifactColumns

abbrev pub no_sample : SampleColumns
no_sample = record {
  sample_id = none;
  dataset_id = none;
  dataset_repo_id = none;
  dataset_revision = none;
  subset = none;
  split = none;
  audio_sha256 = none;
  audio_duration_sec = none;
  sample_rate_hz = none;
  reference_text = none;
  hypothesis_text = none;
  normalized_text = none;
  cer = none;
  wer = none;
  provider_id = none;
  decoder = none;
  load_ms = none;
  session_creation_ms = none;
  audio_decode_ms = none;
  resample_ms = none;
  frontend_ms = none;
  encoder_ms = none;
  inference_ms = none;
  decoder_ms = none;
  postprocess_ms = none;
  total_ms = none;
  rtf = none;
  peak_ram_mb = none;
  peak_device_memory_mb = none;
}

abbrev pub no_metric : MetricColumns
no_metric = record { metric_name = none; metric_value = none; metric_unit = none }

abbrev pub no_artifact : ArtifactColumns
no_artifact = record {
  artifact_id = none;
  artifact_name = none;
  mime_type = none;
  artifact_sha256 = none;
  artifact_size_raw = none;
  artifact_part_index = none;
  artifact_part_count = none;
  artifact_offset = none;
  artifact_part_sha256 = none;
  payload = none;
}

unfoldable pub empty_row : String → String → ℕ → Row
empty_row run_id record_kind ordinal = record {
  schema_version = some experiment_capsule_schema_version;
  run_id = some run_id;
  record_kind = some record_kind;
  ordinal = some (pos ordinal);
  name = none;
  category = none;
  metadata_json = none;
  sample = no_sample;
  status = none;
  error_code = none;
  error_stage = none;
  error_message = none;
  metric = no_metric;
  artifact = no_artifact;
}
