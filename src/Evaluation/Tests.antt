-- ===== src/Evaluation/Tests.antt =====
-- Runs of the metrics and the sample writer at concrete inputs.
use jpapt_v2_2_inspection.Base.{
  ℕ, String, str_eq, ◌≡◌, refl, ◌↔◌, Bool, none, some, List, [], ◌∷◌, All, err, ◌==◌, ==_iff,
}
use jpapt_v2_2_inspection.Evaluation.Metrics.{edit_distance, normalize_text, empty, cer, Rate}
use jpapt_v2_2_inspection.Evaluation.Metrics.Words.{split, strip, join, IsWord}
use jpapt_v2_2_inspection.Evaluation.Metrics.Words.Laws.{solid}
use jpapt_v2_2_inspection.Evaluation.Metrics.Distance.{IsLeastCost, edit_distance-IsLeastCost}
use jpapt_v2_2_inspection.Evaluation.Metrics.Metric.{IsMetric, edit_distance-IsMetric}
use jpapt_v2_2_inspection.Evaluation.Metrics.Corpus.{
  accumulate, Agrees, reference_length, cer-accumulate, normalize_text-IsWord,
}
use jpapt_v2_2_inspection.Base.Int.{pos}
use jpapt_v2_2_inspection.Base.Json.{null}
use jpapt_v2_2_inspection.Evaluation.Models.{
  bits, SampleResult, no_timing, no_memory, unknown, success,
}
use jpapt_v2_2_inspection.Evaluation.Writer.{
  SampleResultWriter, new_writer, open_file, write_loop, Taken, both, only_line, line, newline,
  os_error, write, put,
}
use jpapt_v2_2_inspection.Evaluation.Writer.Lines.{WroteUntil, write_loop-WroteUntil}

abbrev same : ℕ → ℕ → Bool
same a b = a == b

-- The code points of two words.
abbrev kitten : List ℕ
kitten = 107 ∷ 105 ∷ 116 ∷ 116 ∷ 101 ∷ 110 ∷ []

abbrev target : List ℕ
target = 115 ∷ 105 ∷ 116 ∷ 116 ∷ 105 ∷ 110 ∷ 103 ∷ []

edit_distance_run : edit_distance same kitten target ≡ 3
unfolding edit_distance
edit_distance_run = refl

edit_distance-IsLeastCost_example :
    IsLeastCost same ==_iff kitten target (edit_distance same kitten target)
edit_distance-IsLeastCost_example = edit_distance-IsLeastCost same ==_iff kitten target

edit_distance-IsMetric_example : IsMetric same ==_iff (edit_distance same)
edit_distance-IsMetric_example = edit_distance-IsMetric same ==_iff

abbrev nfkc : List ℕ → List ℕ
nfkc text = text

-- " ab  c" and the text "ab c"
abbrev spaced : List ℕ
spaced = 32 ∷ 97 ∷ 98 ∷ 32 ∷ 32 ∷ 99 ∷ []

abbrev single : List ℕ
single = 97 ∷ 98 ∷ 32 ∷ 99 ∷ []

normalize_text_run : normalize_text nfkc spaced ≡ single
unfolding normalize_text strip split join
normalize_text_run = refl

normalize_text-IsWord_example :
    (words : List (List ℕ)) × All IsWord words
    × (normalize_text nfkc spaced ≡ join words)
    × (solid (normalize_text nfkc spaced) ≡ solid spaced)
    × (split (normalize_text nfkc spaced) ≡ split (strip spaced))
normalize_text-IsWord_example = normalize_text-IsWord nfkc spaced

abbrev pairs : List (List ℕ × List ℕ)
pairs = (spaced, single) ∷ (kitten, target) ∷ []

cer-accumulate_example :
    ((cer (accumulate nfkc empty pairs) ≡ none) ↔ (reference_length nfkc pairs ≡ 0))
    × ((rate : Rate)
        → cer (accumulate nfkc empty pairs) ≡ some rate
        → (rate.denominator ≡ reference_length nfkc pairs)
          × ((rate.numerator ≡ 0) ↔ All (Agrees nfkc) pairs))
cer-accumulate_example = cer-accumulate nfkc pairs

abbrev sample : SampleResult
sample = record {
  schema_version = pos 1;
  run_id = "r1";
  sample = record {
    id = "s1";
    dataset_id = "d";
    dataset_repo_id = "o/d";
    dataset_revision = "r";
    subset = none;
    split = none;
    index = none;
    audio_sha256 = none;
    audio_duration_sec = bits 0;
    sample_rate_hz = pos 16000;
    reference_text = "a";
  };
  execution = record {
    runtime = "python";
    backend = "onnx";
    provider_id = "cpu";
    decoder = "ctc";
    batch_size = pos 1;
  };
  output = record { text = "a"; normalized_text = "a"; tokens = []; token_count = 0 };
  quality = record { cer = none; wer = none };
  timing = no_timing;
  memory = no_memory;
  parity = record {
    reference_run_id = none;
    text_match = none;
    token_match = none;
    numeric = null;
  };
  provider = unknown "cpu";
  status = success;
  errors = [];
}

-- Only results of the first run are valid.
abbrev validates : SampleResult → Bool
validates value = str_eq value.run_id "r1"

abbrev line_of : SampleResult → String
line_of value = value.run_id

abbrev opened : SampleResultWriter
opened = record { validate = Bool.true; file = []; is_open = Bool.true; count = 0 }

-- The file fails at the second result's newline.
abbrev two_results : List (SampleResult × Taken)
two_results = (sample, both) ∷ (sample, only_line) ∷ []

abbrev start : SampleResultWriter
start = (open_file Bool.false (new_writer Bool.true [])).0

-- The second line stays without an end, and is not counted.
uncounted :
    write_loop validates line_of opened two_results
    ≡ (record opened { file = line "r1" ∷ newline ∷ line "r1" ∷ []; count = 1 }, err os_error)
unfolding write_loop write put
uncounted = refl

write_loop-WroteUntil_example :
    WroteUntil validates line_of opened two_results
      (write_loop validates line_of opened two_results)
write_loop-WroteUntil_example = write_loop-WroteUntil validates line_of opened two_results
