-- ===== src/Evaluation/Capsule/Rows/Records.antt =====
-- The rows of one sample, one metric, one artifact part and one diagnostic (evaluation/parquet.py,
-- evaluation/capsule_diagnostics.py).
use jpapt_v2_2_inspection.Base.{
  ℕ, String, Bool, ◌||◌, Option, none, some, List, [], ◌∷◌, Result, ok, ◌>>◌, ensure, raise_if,
  str_eq,
}
use jpapt_v2_2_inspection.Base.Int.{ℤ, pos}
use jpapt_v2_2_inspection.Base.Json.{
  Json, null, bool, int, str, arr, obj, Items, nil, cons, Fields, end, field,
}
use jpapt_v2_2_inspection.Evaluation.Models.{
  ExecutionIdentity, ParityResult, ProviderResult, ErrorRecord, SampleResult, status_text,
}
use jpapt_v2_2_inspection.Evaluation.Capsule.Artifact.{ArtifactError, Codec, Part, is_empty}
use jpapt_v2_2_inspection.Evaluation.Capsule.Rows.Columns.{Row, empty_row}

pub data RowError : Type 0 where
  missing_run_id benchmark_run_id sample_run_id bad_batch_size duplicate_artifact_id : RowError
  artifact_error : ArtifactError → RowError

-- The diagnostics of a run.
pub record CapsuleDiagnostic : Type 0 where
  pub name : String
  pub category : String
  pub status : String
  pub message : Option String
  pub code : Option String
  pub stage : Option String
  pub metadata : Fields

pub data DiagnosticError : Type 0 where
  empty_name empty_category bad_status empty_code empty_stage : DiagnosticError

abbrev pub allowed_diagnostic_status : String → Bool
allowed_diagnostic_status s = str_eq s "info" || str_eq s "warning" || str_eq s "error"

abbrev is_some_empty : Option String → Bool
is_some_empty none = Bool.false
is_some_empty (some s) = is_empty s

-- The checks of `__post_init__`; those on types hold by the record's types.
unfoldable pub post_init : CapsuleDiagnostic → Result DiagnosticError CapsuleDiagnostic
post_init self = do
  raise_if (is_empty self.name) empty_name
  raise_if (is_empty self.category) empty_category
  ensure (allowed_diagnostic_status self.status) bad_status
  raise_if (is_some_empty self.code) empty_code
  raise_if (is_some_empty self.stage) empty_stage
  ok self

abbrev opt_str : Option String → Json
opt_str none = null
opt_str (some s) = str s

abbrev opt_bool : Option Bool → Json
opt_bool none = null
opt_bool (some b) = bool b

abbrev opt_int : Option ℤ → Json
opt_int none = null
opt_int (some n) = int n

-- `asdict` of the records that go into `metadata_json`.
execution_json : ExecutionIdentity → Json
execution_json e = obj (
    field "runtime" (str e.runtime) (
      field "backend" (str e.backend) (
        field "provider_id" (str e.provider_id)
          (field "decoder" (str e.decoder) (field "batch_size" (int e.batch_size) end)))))

parity_json : ParityResult → Json
parity_json p = obj (
    field "reference_run_id" (opt_str p.reference_run_id) (
      field "text_match" (opt_bool p.text_match)
        (field "token_match" (opt_bool p.token_match) (field "numeric" p.numeric end))))

provider_json : ProviderResult → Json
provider_json p = obj (
    field "requested" (str p.requested) (
      field "registered" (opt_bool p.registered) (
        field "used" (opt_bool p.used) (
          field "fallback_detected" (opt_bool p.fallback_detected) (
            field "fallback_only" (opt_bool p.fallback_only) (
              field "assigned_nodes" (opt_int p.assigned_nodes)
                (field "fallback_nodes" (opt_int p.fallback_nodes) end)))))))

errors_json : List ErrorRecord → Items
errors_json [] = nil
errors_json (e ∷ errors) =
    cons
      (obj (
        field "code" (str e.code) (
          field "stage" (str e.stage)
            (field "message" (str e.message) (field "fatal" (bool e.fatal) end)))))
      (errors_json errors)

tokens_json : List ℤ → Items
tokens_json [] = nil
tokens_json (t ∷ tokens) = cons (int t) (tokens_json tokens)

sample_metadata : SampleResult → Json
unfolding execution_json parity_json provider_json errors_json tokens_json
sample_metadata value = obj (
    field "sample_index" (opt_int value.sample.index) (
      field "execution" (execution_json value.execution) (
        field "tokens" (arr (tokens_json value.output.tokens)) (
          field "token_count" (int (pos value.output.token_count)) (
            field "parity" (parity_json value.parity) (
              field "provider" (provider_json value.provider)
                (field "errors" (arr (errors_json value.errors)) end)))))))

-- `errors[0]`'s fields, or nothing.
abbrev first_error : {A : Type 0} → (ErrorRecord → A) → List ErrorRecord → Option A
first_error pick [] = none
first_error pick (e ∷ _) = some (pick e)

module _ (codec : Codec) where
  -- The row of a sample whose run id has been checked.
  unfoldable pub sample_columns : SampleResult → ℕ → String → Row
  unfolding empty_row sample_metadata
  sample_columns value ordinal expected_run_id =
      record (empty_row expected_run_id "sample" ordinal) {
        sample = record {
          sample_id = some value.sample.id;
          dataset_id = some value.sample.dataset_id;
          dataset_repo_id = some value.sample.dataset_repo_id;
          dataset_revision = some value.sample.dataset_revision;
          subset = value.sample.subset;
          split = value.sample.split;
          audio_sha256 = value.sample.audio_sha256;
          audio_duration_sec = some value.sample.audio_duration_sec;
          sample_rate_hz = some value.sample.sample_rate_hz;
          reference_text = some value.sample.reference_text;
          hypothesis_text = some value.output.text;
          normalized_text = some value.output.normalized_text;
          cer = value.quality.cer;
          wer = value.quality.wer;
          provider_id = some value.execution.provider_id;
          decoder = some value.execution.decoder;
          load_ms = value.timing.load_ms;
          session_creation_ms = value.timing.session_creation_ms;
          audio_decode_ms = value.timing.audio_decode_ms;
          resample_ms = value.timing.resample_ms;
          frontend_ms = value.timing.frontend_ms;
          encoder_ms = value.timing.encoder_ms;
          inference_ms = value.timing.inference_ms;
          decoder_ms = value.timing.decoder_ms;
          postprocess_ms = value.timing.postprocess_ms;
          total_ms = value.timing.total_ms;
          rtf = value.timing.rtf;
          peak_ram_mb = value.memory.peak_ram_mb;
          peak_device_memory_mb = value.memory.peak_device_memory_mb;
        };
        status = some (status_text value.status);
        error_code = first_error (λ e. e.code) value.errors;
        error_stage = first_error (λ e. e.stage) value.errors;
        error_message = first_error (λ e. e.message) value.errors;
        metadata_json = some (codec.dumps (sample_metadata value));
      }

  unfoldable pub sample_row : SampleResult → ℕ → String → Result RowError Row
  unfolding sample_columns
  sample_row value ordinal expected_run_id = do
    ensure (str_eq value.run_id expected_run_id) sample_run_id
    ok (sample_columns value ordinal expected_run_id)

  unfoldable pub diagnostic_row : CapsuleDiagnostic → String → ℕ → Row
  unfolding empty_row
  diagnostic_row diagnostic run_id ordinal = record (empty_row run_id "diagnostic" ordinal) {
    name = some diagnostic.name;
    category = some diagnostic.category;
    status = some diagnostic.status;
    error_code = diagnostic.code;
    error_stage = diagnostic.stage;
    error_message = diagnostic.message;
    metadata_json = some (codec.dumps (obj diagnostic.metadata));
  }

-- The row of an artifact's part.
unfoldable pub artifact_row : String → ℕ → Part → Row
unfolding empty_row
artifact_row run_id ordinal part = record (empty_row run_id "artifact" ordinal) {
  artifact = record {
    artifact_id = some part.artifact_id;
    artifact_name = some part.artifact_name;
    mime_type = some part.mime_type;
    artifact_sha256 = some part.artifact_sha256;
    artifact_size_raw = some (pos part.artifact_size_raw);
    artifact_part_index = some (pos part.artifact_part_index);
    artifact_part_count = some (pos part.artifact_part_count);
    artifact_offset = some (pos part.artifact_offset);
    artifact_part_sha256 = part.artifact_part_sha256;
    payload = part.payload;
  };
  metadata_json = some part.metadata_json;
}
