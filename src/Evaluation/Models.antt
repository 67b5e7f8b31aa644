-- ===== src/Evaluation/Models.antt =====
-- evaluation/models.py: the records of one sample's result. A float is kept by its bit pattern: the
-- code modelled over these records copies floats and does not compute with them.
use jpapt_v2_2_inspection.Base.{ℕ, String, Bool, Option, none, List, [], length}
use jpapt_v2_2_inspection.Base.Int.{ℤ, pos}
use jpapt_v2_2_inspection.Base.Json.{Json}

pub data Float64 : Type 0 where
  bits : ℕ → Float64

pub record SampleIdentity : Type 0 where
  pub id : String
  pub dataset_id : String
  pub dataset_repo_id : String
  pub dataset_revision : String
  pub subset : Option String
  pub split : Option String
  pub index : Option ℤ
  pub audio_sha256 : Option String
  pub audio_duration_sec : Float64
  pub sample_rate_hz : ℤ
  pub reference_text : String

pub record ExecutionIdentity : Type 0 where
  pub runtime : String
  pub backend : String
  pub provider_id : String
  pub decoder : String
  pub batch_size : ℤ

pub record AsrOutput : Type 0 where
  pub text : String
  pub normalized_text : String
  pub tokens : List ℤ
  pub token_count : ℕ

unfoldable pub from_tokens : String → String → List ℤ → AsrOutput
from_tokens text normalized_text tokens = record {
  text = text;
  normalized_text = normalized_text;
  tokens = tokens;
  token_count = length tokens;
}

pub record QualityMetrics : Type 0 where
  pub cer : Option Float64
  pub wer : Option Float64

pub record TimingMetrics : Type 0 where
  pub load_ms : Option Float64
  pub session_creation_ms : Option Float64
  pub audio_decode_ms : Option Float64
  pub resample_ms : Option Float64
  pub frontend_ms : Option Float64
  pub encoder_ms : Option Float64
  pub decoder_ms : Option Float64
  pub postprocess_ms : Option Float64
  pub inference_ms : Option Float64
  pub total_ms : Option Float64
  pub rtf : Option Float64

abbrev pub no_timing : TimingMetrics
no_timing = record {
  load_ms = none;
  session_creation_ms = none;
  audio_decode_ms = none;
  resample_ms = none;
  frontend_ms = none;
  encoder_ms = none;
  decoder_ms = none;
  postprocess_ms = none;
  inference_ms = none;
  total_ms = none;
  rtf = none;
}

pub record MemoryMetrics : Type 0 where
  pub peak_ram_mb : Option Float64
  pub peak_device_memory_mb : Option Float64

abbrev pub no_memory : MemoryMetrics
no_memory = record { peak_ram_mb = none; peak_device_memory_mb = none }

-- The numeric comparisons are a document that only travels on.
pub record ParityResult : Type 0 where
  pub reference_run_id : Option String
  pub text_match : Option Bool
  pub token_match : Option Bool
  pub numeric : Json

pub record ProviderResult : Type 0 where
  pub requested : String
  pub registered : Option Bool
  pub used : Option Bool
  pub fallback_detected : Option Bool
  pub fallback_only : Option Bool
  pub assigned_nodes : Option ℤ
  pub fallback_nodes : Option ℤ

abbrev pub unknown : String → ProviderResult
unknown requested = record {
  requested = requested;
  registered = none;
  used = none;
  fallback_detected = none;
  fallback_only = none;
  assigned_nodes = none;
  fallback_nodes = none;
}

pub record ErrorRecord : Type 0 where
  pub code : String
  pub stage : String
  pub message : String
  pub fatal : Bool

-- `SampleStatus`
pub data SampleStatus : Type 0 where
  success failed skipped : SampleStatus

abbrev pub status_text : SampleStatus → String
status_text success = "success"
status_text failed = "failed"
status_text skipped = "skipped"

pub record SampleResult : Type 0 where
  pub schema_version : ℤ
  pub run_id : String
  pub sample : SampleIdentity
  pub execution : ExecutionIdentity
  pub output : AsrOutput
  pub quality : QualityMetrics
  pub timing : TimingMetrics
  pub memory : MemoryMetrics
  pub parity : ParityResult
  pub provider : ProviderResult
  pub status : SampleStatus
  pub errors : List ErrorRecord

-- `SampleResult.success`
unfoldable pub successful :
    String
    → SampleIdentity
    → ExecutionIdentity
    → AsrOutput
    → QualityMetrics
    → TimingMetrics
    → MemoryMetrics
    → ParityResult
    → ProviderResult
    → SampleResult
successful run_id sample execution output quality timing memory parity provider = record {
  schema_version = pos 1;
  run_id = run_id;
  sample = sample;
  execution = execution;
  output = output;
  quality = quality;
  timing = timing;
  memory = memory;
  parity = parity;
  provider = provider;
  status = success;
  errors = [];
}
