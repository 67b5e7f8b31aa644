-- ===== src/Datasets/Resolution.antt =====
-- What `resolve` (datasets/resolver.py) promises of the whole manifest.
use jpapt_v2_2_inspection.Base.{
  ℕ, ◌≡◌, refl, sym, ap, subst, ◌∙◌, String, Bool, true, false, Option, none, some, List, [], ◌∷◌,
  ◌++◌, map, append-nil, append_assoc, Result, ok, err, ok-injective, >>=-eq-ok, raise_if-eq-ok,
  ensure-eq-ok, length, any, str_eq, ==_iff, ◌==◌,
}
use jpapt_v2_2_inspection.Base.Int.{ℤ, pos, eq_ℤ, eq_ℤ_iff}
use jpapt_v2_2_inspection.Base.Distinct.{Distinct, Distinct-snoc, distinct, Distinct_of_length}
use jpapt_v2_2_inspection.Datasets.Models.{
  FloatTests, duplicate_logical_id, expected_count_mismatch, bad_schema_version,
  resolved_count_mismatch, expected_mismatch, duplicate_sample_id, ManifestEntry,
  ResolvedDatasetSample, ResolvedManifest, logical_identity, validate_manifest,
  expected_sample_count,
}
use jpapt_v2_2_inspection.Datasets.Resolver.{
  Collaborators, resolve_entry, add_samples, resolve_entries, resolve,
}

abbrev pub identities : List ResolvedDatasetSample → List String
identities samples = map logical_identity samples

map-snoc :
    (samples : List ResolvedDatasetSample) (s : ResolvedDatasetSample)
    → identities (samples ++ s ∷ []) ≡ identities samples ++ logical_identity s ∷ []
map-snoc [] s = refl
map-snoc (t ∷ samples) s = ap (λ (l : List String). logical_identity t ∷ l) (map-snoc samples s)

-- The identities seen are those of the samples so far, none twice.
abbrev Tracked : List String → List ResolvedDatasetSample → Type 0
Tracked seen selected = (seen ≡ identities selected) × Distinct seen

module _ (floats : FloatTests) (c : Collaborators) where
  add_samples-Tracked :
      (seen : List String) (selected samples : List ResolvedDatasetSample)
      → (next : List String × List ResolvedDatasetSample)
      → add_samples floats c seen selected samples ≡ ok next
      → Tracked seen selected
      → Tracked next.0 next.1
  unfolding add_samples
  add_samples-Tracked seen selected [] next h t =
      subst (λ (n : List String × List ResolvedDatasetSample). Tracked n.0 n.1) (ok-injective h) t
  add_samples-Tracked seen selected (s ∷ samples) next h (same, once) =
      let (new, h₁) =
        raise_if-eq-ok (any (str_eq (logical_identity s)) seen) duplicate_logical_id _ h in
      add_samples-Tracked (seen ++ logical_identity s ∷ []) (selected ++ s ∷ []) samples next h₁ (
        ap (λ l. l ++ logical_identity s ∷ []) same ∙ sym (map-snoc selected s),
        Distinct-snoc (logical_identity s) seen once new,
      )

  resolve_entries-Distinct :
      (seen : List String) (selected : List ResolvedDatasetSample) (entries : List ManifestEntry)
      → (samples : List ResolvedDatasetSample)
      → resolve_entries floats c seen selected entries ≡ ok samples
      → Tracked seen selected
      → Distinct (identities samples)
  unfolding resolve_entries
  resolve_entries-Distinct seen selected [] samples h (same, once) =
      subst (λ l. Distinct (identities l)) (ok-injective h) (subst Distinct same once)
  resolve_entries-Distinct seen selected (entry ∷ entries) samples h t =
      let (lock, _, h₁) = >>=-eq-ok (c.lock_of entry.dataset_id) _ h in
      let (resolved, _, h₂) = >>=-eq-ok (resolve_entry floats c entry lock) _ h₁ in
      let (next, added, h₃) = >>=-eq-ok (add_samples floats c seen selected resolved) _ h₂ in
      resolve_entries-Distinct next.0 next.1 entries samples h₃
        (add_samples-Tracked seen selected resolved next added t)

-- The manifest has as many samples as its entries ask for, and repeats neither a sample id nor a
-- logical identity.
pub record IsResolved (entries : List ManifestEntry) (m : ResolvedManifest) : Type 0 where
  pub counted : m.resolved_sample_count ≡ length m.samples
  pub asked : expected_sample_count entries ≡ pos (length m.samples)
  pub distinct_ids : Distinct (map (λ s. s.id) m.samples)
  pub distinct_samples : Distinct (identities m.samples)

validate_manifest-eq-ok :
    (m : ResolvedManifest)
    → validate_manifest m ≡ ok tt
    → (m.resolved_sample_count ≡ length m.samples)
      × (pos m.resolved_sample_count ≡ m.expected_sample_count)
      × Distinct (map (λ s. s.id) m.samples)
unfolding validate_manifest
validate_manifest-eq-ok m h =
    let (_, h₁) = ensure-eq-ok (eq_ℤ m.schema_version (pos 1)) bad_schema_version _ h in
    let (counted, h₂) =
      ensure-eq-ok (m.resolved_sample_count == length m.samples) resolved_count_mismatch _ h₁ in
    let (asked, h₃) =
      ensure-eq-ok (eq_ℤ (pos m.resolved_sample_count) m.expected_sample_count) expected_mismatch _
        h₂ in
    let ids = map (λ (s : ResolvedDatasetSample). s.id) m.samples in
    (
      (==_iff _ _).0 counted,
      (eq_ℤ_iff _ _).0 asked,
      Distinct_of_length ids
          (sym ((==_iff _ _).0 (tested (length ids == length (distinct ids)) h₃))),
    )
  where
    tested : (b : Bool) → jpapt_v2_2_inspection.Base.ensure b duplicate_sample_id ≡ ok tt → b ≡ true
    tested true e = refl
    tested false e = cc

-- If the entries of a manifest resolve, there are as many samples as the entries ask for in all, no
-- two samples have the same id, and no two have the same logical identity.
pub resolve-IsResolved :
    (floats : FloatTests) (c : Collaborators) (manifest_path : String)
    (entries : List ManifestEntry)
    → (expected : Option ℤ) (m : ResolvedManifest)
    → resolve floats c manifest_path entries expected ≡ ok m
    → IsResolved entries m
unfolding resolve
resolve-IsResolved floats c manifest_path entries expected m h =
    let (_, h₁) =
      ensure-eq-ok (elim expected [ none ↦ true | some n ↦ eq_ℤ (expected_sample_count entries) n ])
        expected_count_mismatch _ h in
    let (selected, ran, h₂) = >>=-eq-ok (resolve_entries floats c [] [] entries) _ h₁ in
    let result : ResolvedManifest = record {
      schema_version = pos 1;
      manifest_path = manifest_path;
      expected_sample_count = expected_sample_count entries;
      resolved_sample_count = length selected;
      samples = selected;
    } in
    let (_, valid, h₃) = >>=-eq-ok (validate_manifest result) _ h₂ in
    let (counted, asked, ids) = validate_manifest-eq-ok result valid in
    subst (IsResolved entries) (ok-injective h₃) (record {
      counted = counted;
      asked = sym asked;
      distinct_ids = ids;
      distinct_samples = resolve_entries-Distinct floats c [] [] entries selected ran (refl, tt);
    })
