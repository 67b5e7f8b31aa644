-- ===== src/Datasets/Resolver.antt =====
-- datasets/resolver.py: `DatasetResolver`. The lock file, the backend's records, the materializer and
-- the hash are parameters.
use jpapt_v2_2_inspection.Base.{
  ℕ, suc, ◌-◌, String, Bool, true, false, Option, none, some, List, [], ◌∷◌, ◌++◌, Result, ok, err,
  ◌>>=◌, ◌>>◌, ensure, raise_if, if◌then◌else◌, length, take, any, keep, str_eq,
}
use jpapt_v2_2_inspection.Base.Int.{ℤ, pos, negsuc, le_ℤ, eq_ℤ}
use jpapt_v2_2_inspection.Base.Sorting.{sort, then_by}
use jpapt_v2_2_inspection.Base.Text.{leb_codes}
use jpapt_v2_2_inspection.Datasets.Models.{
  FloatTests, DatasetError, expected_count_mismatch, too_few_records, duplicate_logical_id,
  ManifestEntry, DatasetRecord, ResolvedDatasetSample, ResolvedManifest, logical_identity, accepts,
  validate_manifest, stable_hash_key, expected_sample_count,
}
use Prim.Native.String.{◌++◌ as ◌<>◌}

-- What the resolver reads of a lock entry.
pub record DatasetLockEntry : Type 0 where
  pub id : String
  pub repo_id : String
  pub revision : String
  pub subset : Option String
  pub split : Option String

pub record Materialized : Type 0 where
  pub audio_path : Option String
  pub sha256 : Option String

-- The resolver's collaborators: the SHA-256 of a text as hexadecimal digits, `bytes.fromhex`, the
-- first 16 characters of a text, and the three objects that it calls.
pub record Collaborators : Type 0 where
  pub sha256_hex : String → String
  pub from_hex : String → List ℕ
  pub first_16 : String → String
  pub lock_of : String → Result DatasetError DatasetLockEntry
  pub iter_records : DatasetLockEntry → Result DatasetError (List DatasetRecord)
  pub materialize : DatasetRecord → String → Result DatasetError Materialized

pub record Candidate : Type 0 where
  pub digest_bytes : List ℕ
  pub digest_hex : String
  pub value : DatasetRecord

abbrev pub by_bytes : Candidate → Candidate → Bool
by_bytes a b = leb_codes a.digest_bytes b.digest_bytes

abbrev pub by_row : Candidate → Candidate → Bool
by_row a b = le_ℤ a.value.index b.value.index

-- The sort key `(digest_bytes, record.index)`.
abbrev pub by_digest : Candidate → Candidate → Bool
by_digest = then_by by_bytes by_row

-- `candidates[:count]`, where a negative count leaves out the end.
abbrev pub first_of : {A : Type 0} → ℤ → List A → List A
first_of (pos n) xs = take n xs
first_of (negsuc n) xs = take (length xs - suc n) xs

-- `len(candidates) < count`
abbrev pub fewer : ℕ → ℤ → Bool
fewer n (pos count) = jpapt_v2_2_inspection.Base.ltb n count
fewer n (negsuc count) = false

module _ (floats : FloatTests) (c : Collaborators) where
  unfoldable pub sample_id : ManifestEntry → DatasetRecord → String
  sample_id entry row =
      entry.dataset_id <> "-" <> entry.id <> "-" <> c.first_16 (c.sha256_hex row.identity)

  unfoldable pub candidate_of :
      ManifestEntry → DatasetLockEntry → DatasetRecord → Result DatasetError Candidate
  unfolding stable_hash_key
  candidate_of entry lock row = do
    key ← stable_hash_key lock.revision row.identity entry.selection.seed
    let digest_hex = c.sha256_hex key
    ok (record { digest_bytes = c.from_hex digest_hex; digest_hex = digest_hex; value = row })

  -- The loop over the records that pass the filter.
  unfoldable pub candidates_of :
      ManifestEntry → DatasetLockEntry → List DatasetRecord → Result DatasetError (List Candidate)
  unfolding candidate_of accepts
  candidates_of entry lock [] = ok []
  candidates_of entry lock (row ∷ rows) =
      let rest = candidates_of entry lock rows in
      if accepts floats entry.filters row.duration_sec
      then (do
        candidate ← candidate_of entry lock row
        candidates ← rest
        ok (candidate ∷ candidates))
      else rest

  unfoldable pub resolved_sample :
      ManifestEntry → DatasetLockEntry → ℕ → Candidate → Materialized → ResolvedDatasetSample
  unfolding sample_id
  resolved_sample entry lock rank candidate materialized = record {
    id = sample_id entry candidate.value;
    manifest_entry_id = entry.id;
    dataset_id = lock.id;
    dataset_repo_id = lock.repo_id;
    dataset_revision = lock.revision;
    subset = lock.subset;
    split = lock.split;
    row_index = candidate.value.index;
    source_identity = candidate.value.identity;
    selection_hash = candidate.digest_hex;
    selection_rank = rank;
    duration_sec = candidate.value.duration_sec;
    sample_rate_hz = candidate.value.sample_rate_hz;
    transcription = candidate.value.transcription;
    tags = entry.tags;
    audio_path = materialized.audio_path;
    audio_sha256 = materialized.sha256;
  }

  -- The loop over the chosen candidates, which are ranked from `rank` on.
  unfoldable pub select_from :
      ManifestEntry
      → DatasetLockEntry
      → ℕ
      → List Candidate
      → Result DatasetError (List ResolvedDatasetSample)
  unfolding resolved_sample
  select_from entry lock rank [] = ok []
  select_from entry lock rank (candidate ∷ candidates) = do
    materialized ← c.materialize candidate.value lock.revision
    rest ← select_from entry lock (suc rank) candidates
    ok (resolved_sample entry lock rank candidate materialized ∷ rest)

  unfoldable pub resolve_entry :
      ManifestEntry → DatasetLockEntry → Result DatasetError (List ResolvedDatasetSample)
  unfolding candidates_of select_from sort
  resolve_entry entry lock = do
    rows ← c.iter_records lock
    candidates ← candidates_of entry lock rows
    let sorted = sort by_digest candidates
    raise_if (fewer (length sorted) entry.selection.count) too_few_records
    select_from entry lock 1 (first_of entry.selection.count sorted)

  -- The loop over one entry's samples: the identities seen, and the samples so far.
  unfoldable pub add_samples :
      List String
      → List ResolvedDatasetSample
      → List ResolvedDatasetSample
      → Result DatasetError (List String × List ResolvedDatasetSample)
  unfolding logical_identity
  add_samples seen selected [] = ok (seen, selected)
  add_samples seen selected (sample ∷ samples) = do
    raise_if (any (str_eq (logical_identity sample)) seen) duplicate_logical_id
    add_samples (seen ++ logical_identity sample ∷ []) (selected ++ sample ∷ []) samples

  unfoldable pub resolve_entries :
      List String
      → List ResolvedDatasetSample
      → List ManifestEntry
      → Result DatasetError (List ResolvedDatasetSample)
  unfolding resolve_entry add_samples
  resolve_entries seen selected [] = ok selected
  resolve_entries seen selected (entry ∷ entries) = do
    lock ← c.lock_of entry.dataset_id
    resolved ← resolve_entry entry lock
    next ← add_samples seen selected resolved
    resolve_entries next.0 next.1 entries

  -- `resolve`, of the entries that the manifest holds.
  unfoldable pub resolve :
      String → List ManifestEntry → Option ℤ → Result DatasetError ResolvedManifest
  unfolding resolve_entries validate_manifest expected_sample_count
  resolve manifest_path entries expected = do
    let manifest_expected = expected_sample_count entries
    ensure (elim expected [ none ↦ true | some n ↦ eq_ℤ manifest_expected n ])
        expected_count_mismatch
    selected ← resolve_entries [] [] entries
    let result : ResolvedManifest = record {
      schema_version = pos 1;
      manifest_path = manifest_path;
      expected_sample_count = manifest_expected;
      resolved_sample_count = length selected;
      samples = selected;
    }
    validate_manifest result
    ok result
