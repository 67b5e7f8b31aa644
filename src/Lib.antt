-- ===== src/Lib.antt =====
-- A speech recognition evaluation program: the Python package under python/src/parakeet_onnx
-- (paths below start there) and the scripts under scripts/ci that track evaluation requests. The
-- package decodes the output of ONNX models into token ids, scores transcripts against
-- references, and keeps a run as an experiment capsule: one Parquet file whose rows are the
-- manifest, the samples, the metrics, the artifacts in parts, and the diagnostics. A request for
-- an evaluation goes through states, and each state that is observed is a snapshot.
--
-- How the parts interact: the dataset resolver chooses the samples of a manifest; a decoder
-- turns frames into tokens; the metrics compare the text with the reference; each sample's
-- result becomes a row; the rows of a run are streamed in batches to the writer; the reader
-- validates the rows and puts an artifact's parts together again. An accepted request snapshot
-- is filed under its event key, and the newest one is the current state; the accepted snapshots
-- of one request are gathered in its timeline. The run context, which goes into the capsule's
-- manifest, says what was run: the candidate, and the revision snapshot that the catalog and
-- the bundle of locked revisions give.
--
-- Base: shared names, exceptions as values (Outcome), lists, sorting, integers, JSON values,
--   texts, dictionaries.
-- Decoding: decoding/ctc.py (Ctc: ctc_collapse, greedy_ctc_ids) and decoding/tdt.py (Tdt:
--   TdtDecoderConfig, greedy_tdt_decode). The loop's local variables are the record Loop, its
--   body is step, and decode_loop runs it on fuel.
-- Datasets: datasets/models.py (Models: the records and their validate methods, with the hash
--   key of datasets/manifest.py), and of datasets/resolver.py the conversion of a row (Rows:
--   _convert_row) and DatasetResolver (Resolver: resolve, _resolve_entry).
-- Evaluation/Metrics: evaluation/metrics.py (edit_distance, normalize_text, the error rates and
--   the accumulator) and the corpus loop of evaluation/aggregate.py.
-- Evaluation/Models: the records of evaluation/models.py that one sample's result is made of.
-- Evaluation/Writer: SampleResultWriter of evaluation/writer.py (open and close are open_file
--   and close_file here), with what its file has taken in its state.
-- Evaluation/Capsule/Artifact: evaluation/capsule_artifacts.py (iter_parts, as_part).
-- Evaluation/Capsule/Rows: evaluation/parquet.py (iter_experiment_capsule_rows,
--   iter_experiment_capsule_row_batches) and evaluation/capsule_diagnostics.py. A generator is
--   the list that it yields, or the exception that ends it.
-- Evaluation/Capsule/Reader: evaluation/capsule_reader.py (_validate_rows as validate_rows,
--   _validate_artifact_rows, _validate_diagnostic_rows, extract_artifact).
-- Lifecycle: the snapshots of a candidate request, from scripts/ci: Snapshot is `validate` of
--   build-candidate-request-lifecycle.py with the modules it imports, Events is `event_key` of
--   build-candidate-lifecycle-event-key.py, Current is the loop and the sort of
--   reduce-candidate-lifecycle.py and the comparison in compare-candidate-lifecycle-state.py.
--   Timeline is build-candidate-request-timeline.py (parse_candidate, validate_timeline, build,
--   whose loop is collect and whose dictionary is assemble). Reading and writing files is left
--   out.
-- Contracts: contracts.py (Checks, Revisions, Candidate, Context: the records, their validate
--   methods and to_dict) with the parsers of contract_io.py and generated_candidate_io.py.
-- Configuration: config/catalog.py (Catalog: AsrCatalog.load as load, and its lookups),
--   config/models.py (Models), config/environment.py (Environment), and config/resolver.py with
--   loader.py, merge.py and paths.py (Resolver: ConfigResolver.resolve as resolve).
-- Hf/Revisions: hf/revisions.py (the documents, DatasetLock in Lock, RevisionBundle in Bundle).
-- Hf/Targets: hf/targets.py (load_hf_target, whose part that reads the catalog is offer_of).
--
-- Exceptions are constructors of one data type for each module and carry no message. Texts are
-- strings or lists of code points, bytes are lists of numbers, a dictionary is a list of fields.
-- A float that is only copied is its bit pattern; an error rate is the fraction that is divided
-- out.
--
-- Parameters: numpy's argmax, the decoder's callbacks, NFKC normalization, and of the standard
-- library sha256, json.dumps, json.loads, the conversion of a number to a float and int(s, 16);
-- of the resolver the comparison of floats, the lock file, the backend and the materializer; of
-- the lifecycle datetime.fromisoformat, the digests, the texts of the files and the characters
-- that \d matches; of the configuration str.lower, tomllib, the files and the platform's name; of
-- the writer the schema check and what the file does. The rows that the datasets library loads
-- have the columns' types, so the reader's tests on types are tests for a missing value.
--
-- A dictionary that asdict makes keeps its tuples, and as_json is what json.loads makes of
-- json.dumps: the tuples are arrays. The order in which to_json sorts the keys is left out.
--
-- Fuel: only the TDT loop has it. Its bound, frames × max_symbols_per_step + 1, is enough since
-- each round moves to a later frame or takes one of the symbols that a frame has room for.
--
-- Not modelled: the file system and the Parquet writer, timing statistics, the audio frontend,
-- the dataset cache and the materializer, the evaluation pipeline, the runtime adapters and the
-- inspection of artifacts, model export, the other CI scripts, the command line, the Rust crates and the workflows.
pub mod Base
pub mod Configuration
pub mod Contracts
pub mod Datasets
pub mod Decoding
pub mod Evaluation
pub mod Hf
pub mod Lifecycle
