-- ===== src/Contracts/Tests.antt =====
-- A candidate, revisions and a run context that the contracts accept.
use jpapt_v2_2_inspection.Base.{
  ℕ, ◌≡◌, refl, String, true, false, some, [], ◌∷◌, ok, err, leb, ◌&&◌, Bool,
}
use jpapt_v2_2_inspection.Base.Int.{pos}
use jpapt_v2_2_inspection.Base.Sorting.{sort, insert}
use jpapt_v2_2_inspection.Base.Text.{codes, leb_text}
use jpapt_v2_2_inspection.Base.Json.{int, obj, end, field, find, as_json, as_items, as_fields}
use jpapt_v2_2_inspection.Contracts.Strip.{is_blank}
use jpapt_v2_2_inspection.Contracts.Checks.{
  is_sha256, is_commit, is_config_version, contains_null, not_array,
}
use jpapt_v2_2_inspection.Contracts.Revisions
use jpapt_v2_2_inspection.Contracts.Revisions.{RevisionSnapshot}
use jpapt_v2_2_inspection.Contracts.Revisions.Parse.{parse_revision_snapshot}
use jpapt_v2_2_inspection.Contracts.Revisions.Roundtrip.{parse_revision_snapshot-to_dict}
use jpapt_v2_2_inspection.Contracts.Candidate
use jpapt_v2_2_inspection.Contracts.Candidate.{GeneratedCandidateContract}
use jpapt_v2_2_inspection.Contracts.Candidate.Parse.{parse_generated_candidate_contract}
use jpapt_v2_2_inspection.Contracts.Candidate.Roundtrip.{
  sorted, parse_generated_candidate_contract-to_dict,
}
use jpapt_v2_2_inspection.Contracts.Context
use jpapt_v2_2_inspection.Contracts.Context.{RunContext}
use jpapt_v2_2_inspection.Contracts.Context.Parse.{sources_of, parse_run_context}
use jpapt_v2_2_inspection.Contracts.Context.Roundtrip.{IsJson, parse_run_context-to_dict}

-- The ASCII digits.
abbrev pub decimal : ℕ → Bool
decimal c = leb 48 c && leb c 57

abbrev pub hash : String
hash = "0123456789abcdef0123456789ABCDEF0123456789abcdef0123456789abcdef"

abbrev revisions : RevisionSnapshot
revisions = record {
  config_version = "config-000012";
  bundle_sha256 = hash;
  runtime = record {
    document_sha256 = hash;
    catalog = record { id = "asr"; sha256 = hash };
    profile_set = "ja";
  };
  reference = record {
    document_sha256 = hash;
    development_artifact = record { repo_id = "o/dev"; revision = "r1" };
    upstream = record { repo_id = "o/up"; revision = "r2" };
    tokenizer = record { repo_id = "o/tok"; revision = "r3" };
    reference_id = "ref";
    reference_revision = "r4";
    canonical_framework = "nemo";
  };
  evaluation_schema = record {
    document_sha256 = hash;
    schema_id = "schema";
    schema_revision = "1";
  };
  datasets = record {
    document_sha256 = hash;
    entries =
        record {
          id = "d";
          repo_id = "o/d";
          revision = "r5";
          subset = "default";
          split = "test";
          sha256 = hash;
          manifest = "m.json";
        }
        ∷ [];
  };
}

revisions_valid : Revisions.validate decimal revisions ≡ ok tt
unfolding Revisions.validate is_config_version is_sha256 is_blank codes
revisions_valid = refl

parse_revision_snapshot-to_dict_example :
    (parse_revision_snapshot decimal (as_json (Revisions.to_dict revisions)) ≡ ok revisions)
    × (parse_revision_snapshot decimal (Revisions.to_dict revisions) ≡ err not_array)
parse_revision_snapshot-to_dict_example =
    parse_revision_snapshot-to_dict decimal revisions revisions_valid

abbrev candidate : GeneratedCandidateContract
candidate = record {
  schema_version = pos 1;
  candidate_root = "out";
  candidate_id = "c-1";
  profile_set = "ja";
  variant = "ctc";
  profile = "p";
  decoder = "ctc";
  artifact_contract = "nemo-ctc";
  catalog = record { id = "asr"; sha256 = hash };
  bundle_sha256 = hash;
  artifacts =
      ("model", record { path = "m.onnx"; sha256 = hash; size_bytes = pos 9 })
      ∷ ("config", record { path = "c.json"; sha256 = hash; size_bytes = pos 3 })
      ∷ [];
  tokenizer = some (record { kind = "spm"; path = "t.model" });
  features = ("streaming", false) ∷ ("batch", true) ∷ [];
  runtime_contract = record {
    decoder = "ctc";
    input_kind = "features";
    io = field "inputs" (int (pos 2)) end;
    decoder_config = end;
  };
}

candidate_valid : Candidate.validate candidate ≡ ok tt
unfolding Candidate.validate Candidate.validate_texts Candidate.validate_catalog
    Candidate.validate_artifacts Candidate.validate_artifact Candidate.validate_tokenizer
    Candidate.validate_features Candidate.validate_runtime Candidate.to_dict
    Candidate.artifacts_dict Candidate.features_dict contains_null is_sha256 is_blank codes sort
    insert leb_text
candidate_valid = refl

parse_generated_candidate_contract-to_dict_example :
    parse_generated_candidate_contract (some (obj (Candidate.to_dict candidate)))
    ≡ ok (sorted candidate)
parse_generated_candidate_contract-to_dict_example =
    parse_generated_candidate_contract-to_dict candidate candidate_valid

abbrev context : RunContext
context = record {
  schema_version = pos 2;
  run_id = "run";
  created_at = "2026";
  config_identity = "m:linux:cpu:smoke";
  model_id = "m";
  environment_id = "linux";
  provider_id = "cpu";
  evaluation_id = "smoke";
  artifact = record {
    path = "m.onnx";
    sha256 = hash;
    size_bytes = pos 9;
    candidate_id = "c-1";
    artifact_role = "model";
  };
  git = record { repository = "o/r"; commit = "abcdef0"; ref = "main"; dirty = false };
  host = record {
    os = "linux";
    architecture = "x86_64";
    hostname = "h";
    python_version = "3.12";
    implementation = "CPython";
    is_wsl = false;
    github_runner_os = "none";
    github_runner_arch = "none";
    github_run_id = "none";
    github_run_attempt = "none";
  };
  runtime = record {
    implementation = "python";
    backend = "onnxruntime";
    backend_version = "1";
    provider_id = "cpu";
    provider_ort_name = "CPUExecutionProvider";
    provider_available = true;
  };
  revisions = revisions;
  config = record {
    identity = "m:linux:cpu:smoke";
    sources = sources_of "m.toml" "cpu.toml" "linux.toml" "smoke.toml";
    resolved = end;
  };
  metadata = field "candidate" (obj (Candidate.to_dict candidate)) end;
}

context_valid : Context.validate decimal context ≡ ok tt
unfolding Context.validate Context.validate_texts Context.validate_artifact Context.validate_git
    Context.validate_host Context.validate_runtime Context.validate_config
    Context.validate_candidate Context.to_dict Revisions.validate Revisions.to_dict
    Candidate.to_dict Candidate.artifacts_dict Candidate.features_dict is_config_version is_sha256
    is_commit is_blank codes contains_null find sort insert leb_text
context_valid = refl

candidate_found :
    parse_generated_candidate_contract (find "candidate" context.metadata) ≡ ok (sorted candidate)
unfolding find
candidate_found = parse_generated_candidate_contract-to_dict candidate candidate_valid

context-IsJson : IsJson context
unfolding Candidate.to_dict Candidate.artifacts_dict Candidate.features_dict as_json as_fields
    as_items sort insert leb_text
context-IsJson = (refl, refl)

parse_run_context-to_dict_example :
    parse_run_context decimal (as_json (obj (Context.to_dict context))) ≡ ok context
parse_run_context-to_dict_example =
    parse_run_context-to_dict "m.toml" "cpu.toml" "linux.toml" "smoke.toml" decimal context
      (sorted candidate) refl context_valid candidate_found context-IsJson
