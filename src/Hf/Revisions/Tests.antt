-- ===== src/Hf/Revisions/Tests.antt =====
-- A bundle of revision documents with one dataset.
use jpapt_v2_2_inspection.Base.{
  ◌≡◌, refl, ◌↔◌, String, false, none, some, [], ◌∷◌, ok, err, All, any, str_eq,
}
use jpapt_v2_2_inspection.Base.Dict.{lookup}
use jpapt_v2_2_inspection.Base.Distinct.{distinct}
use jpapt_v2_2_inspection.Base.Int.{pos}
use jpapt_v2_2_inspection.Base.Json.{
  Json, int, str, arr, obj, nil, cons, Fields, end, field, find, keys, same_json, as_json,
}
use jpapt_v2_2_inspection.Base.Text.{codes}
use jpapt_v2_2_inspection.Contracts.Strip.{strip, is_blank}
use jpapt_v2_2_inspection.Contracts.Checks.{contains_null, is_config_version, is_sha256}
use jpapt_v2_2_inspection.Contracts.Revisions.{RevisionSnapshot, to_dict}
use jpapt_v2_2_inspection.Contracts.Revisions.Parse.{parse_revision_snapshot}
use jpapt_v2_2_inspection.Contracts.Tests.{decimal, hash}
use jpapt_v2_2_inspection.Configuration.Catalog.{profile_set}
use jpapt_v2_2_inspection.Configuration.Tests.{file, asr, loaded}
use jpapt_v2_2_inspection.Hf.Revisions.{
  unknown_dataset, holds, identity, RevisionDocument, load_json, load_document, reject_unknown,
  RuntimeRevision, runtime_from, revision, reference_from, evaluation_from, load_config_version,
}
use jpapt_v2_2_inspection.Hf.Revisions.Lock.{
  DatasetLockEntry, DatasetLock, lock_entry, lock_entries, ids_of, lock_from, get, lock_from-get,
}
use jpapt_v2_2_inspection.Hf.Revisions.Bundle.{RevisionBundle, Text, Files, snapshot, load}
use jpapt_v2_2_inspection.Hf.Revisions.Entries.{IsExecutable}
use jpapt_v2_2_inspection.Hf.Revisions.Snapshot.{IsHexText}
use jpapt_v2_2_inspection.Hf.Revisions.Executable.{load-snapshot}

abbrev text : Text
text = record { hexdigest = λ s. hash; canonical = λ raw. ""; lower = λ s. s; decimal = decimal }

abbrev hex_text : IsHexText text
unfolding is_sha256 codes
hex_text = record { hex = λ s. refl; lower = λ s e. e }

abbrev version_1 : Fields → Fields
version_1 rest = field "schema_version" (int (pos 1)) rest

abbrev repo : String → String → Json
repo id rev = obj (field "repo_id" (str id) (field "revision" (str rev) end))

abbrev reference_raw : Fields
reference_raw = version_1 (
    field "development_artifact" (repo "o/dev" "r1") (
      field "upstream" (repo "o/up" "r2") (
        field "tokenizer" (repo "o/tok" "r3") (
          field "reference"
            (obj (
              field "id" (str "ref")
                (field "revision" (str "r4") (field "canonical_framework" (str "nemo") end))))
            end))))

abbrev evaluation_raw : Fields
evaluation_raw =
    version_1 (field "schema" (obj (field "id" (str "s") (field "revision" (str "1") end))) end)

abbrev datasets_raw : Fields
datasets_raw = version_1 (
    field "datasets"
      (arr (
        cons
          (obj (
            field "id" (str "d") (
              field "repo_id" (str "o/d") (
                field "revision" (str " r5 ")
                  (field "sha256" (str hash) (field "manifest" (str "m.json") end))))))
          nil))
      end)

abbrev runtime_raw : Fields
runtime_raw = version_1 (
    field "catalog" (obj (field "id" (str "asr") (field "sha256" (str hash) end)))
      (field "profile_set" (str "ja") end))

abbrev document : Fields → RevisionDocument
document raw = record { raw = raw; sha256 = hash }

abbrev entry : DatasetLockEntry
entry = record {
  id = "d";
  repo_id = "o/d";
  revision = "r5";
  subset = none;
  split = none;
  sha256 = some hash;
  manifest = some "m.json";
}

abbrev lock : DatasetLock
lock = record { document = document datasets_raw; datasets = entry ∷ [] }

locked : lock_from (document datasets_raw) ≡ ok lock
unfolding lock_from lock_entries lock_entry reject_unknown distinct find keys is_blank strip
locked = refl

lock_from-get_example :
    All (λ e. get lock e.id ≡ ok e) lock.datasets
    × ((id : String)
        → any (str_eq id) (ids_of lock.datasets) ≡ false
        → get lock id ≡ err unknown_dataset)
lock_from-get_example = lock_from-get (document datasets_raw) lock locked

abbrev runtime : RuntimeRevision
runtime = record {
  document = document runtime_raw;
  catalog_id = "asr";
  catalog_sha256 = hash;
  profile_set_id = "ja";
  variants = ("ctc", "p-ctc") ∷ ("tdt", "p-tdt") ∷ [];
  default_variant = "tdt";
}

runtime_made : runtime_from (λ s. s) (asr hash) (document runtime_raw) ≡ ok runtime
unfolding runtime_from reject_unknown profile_set lookup find keys is_blank strip
runtime_made = refl

abbrev files : Files
files = record {
  reference = holds (obj reference_raw);
  evaluation_schema = holds (obj evaluation_raw);
  datasets = holds (obj datasets_raw);
  runtime = holds (obj runtime_raw);
  resolved = holds (obj (version_1 (field "config_version" (str "config-000012") end)));
  catalog = some file;
}

abbrev bundle : RevisionBundle
bundle = record {
  reference = record {
    document = document reference_raw;
    development_artifact = record { repo_id = "o/dev"; revision = "r1" };
    upstream = record { repo_id = "o/up"; revision = "r2" };
    tokenizer = record { repo_id = "o/tok"; revision = "r3" };
    reference_id = "ref";
    reference_revision = "r4";
    canonical_framework = "nemo";
  };
  evaluation_schema = record {
    document = document evaluation_raw;
    schema_id = "s";
    schema_revision = "1";
  };
  datasets = lock;
  runtime = runtime;
  config_version = "config-000012";
}

bundle_loaded : load text files ≡ ok bundle
unfolding load load_document load_json reference_from evaluation_from identity load_config_version
    reject_unknown find keys same_json contains_null is_blank strip codes is_config_version
bundle_loaded = rw (locked, loaded (λ raw. hash) hash (λ raw. refl), runtime_made) refl

load-snapshot_example :
    ((s : RevisionSnapshot) × (snapshot text bundle ≡ ok s)
      × (parse_revision_snapshot decimal (as_json (to_dict s)) ≡ ok s))
    ↔ All IsExecutable bundle.datasets.datasets
load-snapshot_example = load-snapshot text hex_text files bundle bundle_loaded

-- The dataset has a hash and a manifest.
executable : All IsExecutable bundle.datasets.datasets
unfolding is_sha256 codes
executable = (
  record { hash = hash; manifest = "m.json"; hashed = refl; hexadecimal = refl; listed = refl },
  tt,
)
