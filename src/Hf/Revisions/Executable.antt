-- ===== src/Hf/Revisions/Executable.antt =====
-- Which bundles of hf/revisions.py have a revision snapshot that contracts.py accepts.
use jpapt_v2_2_inspection.Base.{
  ◌≡◌, refl, ap, String, true, List, [], ◌∷◌, Result, ok, err, ok-injective, >>=-eq-ok, >>=-ok, All,
  ◌↔◌,
}
use jpapt_v2_2_inspection.Base.Json.{as_json}
use jpapt_v2_2_inspection.Contracts.Checks.{
  ContractError, is_sha256, contains_null, require_sha256, require_config_version,
}
use jpapt_v2_2_inspection.Contracts.Revisions
use jpapt_v2_2_inspection.Contracts.Revisions.{
  RevisionSnapshot, DatasetRevisionEntry, validate_runtime, validate_reference, validate_evaluation,
  validate_entries, validate_datasets, to_dict, entries_dict,
}
use jpapt_v2_2_inspection.Contracts.Revisions.Parse.{parse_revision_snapshot}
use jpapt_v2_2_inspection.Contracts.Revisions.Roundtrip.{parse_revision_snapshot-to_dict}
use jpapt_v2_2_inspection.Hf.Revisions.Lock.{DatasetLockEntry}
use jpapt_v2_2_inspection.Hf.Revisions.Bundle.{
  RevisionBundle, Text, snapshot_entries, valid, bundle_sha256, snapshot_of, snapshot, Files, load,
}
use jpapt_v2_2_inspection.Hf.Revisions.Named.{sha256_named, version_named}
use jpapt_v2_2_inspection.Hf.Revisions.Entries.{
  IsExecutable, Unseen, entries_valid, entries-IsExecutable, entries_null,
}
use jpapt_v2_2_inspection.Hf.Revisions.Snapshot.{IsHexText, IsLoaded, load-IsLoaded}

module _ (text : Text) (h : IsHexText text) where
  hash_ok : (s : String) → is_sha256 s ≡ true → require_sha256 s ≡ ok tt
  hash_ok s e = rw (sha256_named s e, e) refl

  reference_ok :
      (b : RevisionBundle) (entries : List DatasetRevisionEntry)
      → IsLoaded text b
      → validate_reference (snapshot_of text b entries).reference ≡ ok tt
  unfolding validate_reference
  reference_ok b entries l =
      let hash = l.reference_hash in
      let named = sha256_named _ hash in
      let a = l.reference.development.repo_id in
      let a' = l.reference.development.revision in
      let u = l.reference.upstream.repo_id in
      let u' = l.reference.upstream.revision in
      let t = l.reference.tokenizer.repo_id in
      let t' = l.reference.tokenizer.revision in
      let id = l.reference.id in
      let revision = l.reference.revision in
      let framework = l.reference.framework in
      rw (named, hash, a, a', u, u', t, t') (rw (id, revision, framework) refl)

  -- With valid entries the snapshot of a loaded bundle is valid.
  whole_ok :
      (b : RevisionBundle) (entries : List DatasetRevisionEntry)
      → IsLoaded text b
      → validate_entries [] entries ≡ ok tt
      → Revisions.validate text.decimal (snapshot_of text b entries) ≡ ok tt
  unfolding Revisions.validate validate_runtime validate_evaluation validate_datasets to_dict
      contains_null
  whole_ok b entries l valid_entries =
      let version = l.version in
      let version_there = version_named text.decimal b.config_version version in
      let bundle = h.hex _ in
      let runtime = l.runtime_hash in
      let catalog = l.catalog_hash in
      let catalog_id = l.catalog_id in
      let profile_set = l.profile_set_id in
      let evaluation = l.evaluation_hash in
      let schema_id = l.schema_id in
      let schema_revision = l.schema_revision in
      let datasets = l.datasets_hash in
      >>=-ok (require_config_version text.decimal b.config_version) _
        (rw (version_there, version) refl)
        (>>=-ok (require_sha256 (bundle_sha256 text b)) _ (hash_ok _ bundle) (
          >>=-ok (validate_runtime (snapshot_of text b entries).runtime) _
            (rw
              (
                sha256_named _ runtime,
                runtime,
                catalog_id,
                sha256_named _ catalog,
                catalog,
                profile_set,
              )
              refl)
            (>>=-ok (validate_reference (snapshot_of text b entries).reference) _
              (reference_ok b entries l)
              (>>=-ok (validate_evaluation (snapshot_of text b entries).evaluation_schema) _
                (rw (sha256_named _ evaluation, evaluation, schema_id, schema_revision) refl)
                (>>=-ok (validate_datasets (snapshot_of text b entries).datasets) _
                  (rw (sha256_named _ datasets, datasets, valid_entries) refl)
                  (rw (entries_null entries) refl))))))

  valid-eq-ok :
      {A : Type 0} (r : Result ContractError (Unit {0})) (a b : A)
      → valid r a ≡ ok b
      → (r ≡ ok tt) × (a ≡ b)
  valid-eq-ok (err e) a b e' = cc
  valid-eq-ok (ok _) a b e' = (refl, ok-injective e')

  -- The loop of the validation over the entries of a valid snapshot.
  entries_checked :
      (s : RevisionSnapshot)
      → Revisions.validate text.decimal s ≡ ok tt
      → validate_entries [] s.datasets.entries ≡ ok tt
  unfolding Revisions.validate validate_datasets
  entries_checked s e =
      let (_, _, e₁) = >>=-eq-ok (require_config_version text.decimal s.config_version) _ e in
      let (_, _, e₂) = >>=-eq-ok (require_sha256 s.bundle_sha256) _ e₁ in
      let (_, _, e₃) = >>=-eq-ok (validate_runtime s.runtime) _ e₂ in
      let (_, _, e₄) = >>=-eq-ok (validate_reference s.reference) _ e₃ in
      let (_, _, e₅) = >>=-eq-ok (validate_evaluation s.evaluation_schema) _ e₄ in
      let (_, datasets, _) = >>=-eq-ok (validate_datasets s.datasets) _ e₅ in
      let (_, _, entries) = >>=-eq-ok (require_sha256 s.datasets.document_sha256) _ datasets in
      entries

  -- A loaded bundle has a snapshot exactly if each of its datasets has a hash of 64 hexadecimal
  -- digits and a manifest, and the run's contract reads that snapshot back from its dictionary as
  -- JSON writes it. The digests are taken to be hexadecimal, and `lower` to keep a hexadecimal text
  -- one.
  pub load-snapshot :
      (files : Files) (b : RevisionBundle)
      → load text files ≡ ok b
      → ((s : RevisionSnapshot) × (snapshot text b ≡ ok s)
          × (parse_revision_snapshot text.decimal (as_json (to_dict s)) ≡ ok s))
        ↔ All IsExecutable b.datasets.datasets
  unfolding snapshot
  load-snapshot files b loaded = (executable, returned)
    where
      none_seen : (es : List DatasetLockEntry) → Unseen [] es
      none_seen [] = tt
      none_seen (e ∷ es) = (refl, none_seen es)

      executable :
          (s : RevisionSnapshot) × (snapshot text b ≡ ok s)
            × (parse_revision_snapshot text.decimal (as_json (to_dict s)) ≡ ok s)
          → All IsExecutable b.datasets.datasets
      executable (s, e, _) =
          let (entries, made, e₁) = >>=-eq-ok (snapshot_entries b.datasets.datasets) _ e in
          let (good, _) =
            valid-eq-ok (Revisions.validate text.decimal (snapshot_of text b entries))
              (snapshot_of text b entries) s e₁ in
          entries-IsExecutable b.datasets.datasets [] entries made
            (entries_checked (snapshot_of text b entries) good)

      returned :
          All IsExecutable b.datasets.datasets
          → (s : RevisionSnapshot) × (snapshot text b ≡ ok s)
            × (parse_revision_snapshot text.decimal (as_json (to_dict s)) ≡ ok s)
      returned good =
          let l = load-IsLoaded text h files b loaded in
          let (entries, made, checked) =
            entries_valid b.datasets.datasets [] l.entries good l.apart
              (none_seen b.datasets.datasets) in
          let whole = whole_ok b entries l checked in
          (
            snapshot_of text b entries,
            >>=-ok (snapshot_entries b.datasets.datasets) _ made
                (ap (λ r. valid r (snapshot_of text b entries)) whole),
            (parse_revision_snapshot-to_dict text.decimal (snapshot_of text b entries) whole).0,
          )
