-- ===== src/Hf/Revisions/Snapshot.antt =====
-- What holds of the bundles that hf/revisions.py loads.
use jpapt_v2_2_inspection.Base.{
  ◌≡◌, refl, sym, subst, String, true, false, Option, none, some, [], ◌∷◌, Result, ok, err,
  ok-injective, >>=-eq-ok, ensure-eq-ok, All, str_eq, eq_iff, length, ◌==◌,
}
use jpapt_v2_2_inspection.Base.Distinct.{Distinct, distinct}
use jpapt_v2_2_inspection.Base.Json.{Json, null, bool, int, real, str, arr, tuple, obj, find}
use jpapt_v2_2_inspection.Configuration.Catalog
use jpapt_v2_2_inspection.Configuration.Catalog.{AsrCatalog, profile_set}
use jpapt_v2_2_inspection.Configuration.Catalog.Closed.{load-sha256}
use jpapt_v2_2_inspection.Contracts.Strip.{is_blank}
use jpapt_v2_2_inspection.Contracts.Checks.{is_sha256, is_config_version}
use jpapt_v2_2_inspection.Hf.Revisions.{
  catalog_mismatch, duplicate_dataset, JsonFile, RevisionDocument, load_json, load_document,
  reject_unknown, require_mapping, require_string, from_catalog, RuntimeRevision, runtime_from,
  reference_from, evaluation_from, bad_config_version, version_of, load_config_version,
}
use jpapt_v2_2_inspection.Hf.Revisions.Lock.{
  DatasetLock, array_of, ids_of, lock_entries, lock_from, lock_from-Distinct,
}
use jpapt_v2_2_inspection.Hf.Revisions.Bundle.{
  RevisionBundle, Text, digest, Files, require_present, load,
}
use jpapt_v2_2_inspection.Hf.Revisions.Named.{
  text_value-named, IsNamedReference, reference_from-named, evaluation_from-named,
}
use jpapt_v2_2_inspection.Hf.Revisions.Entries.{IsNamedEntry, lock_entries-named}

-- What the code relies on: `hexdigest` returns 64 hexadecimal digits, and `lower` keeps such a text
-- one.
pub record IsHexText (text : Text) : Type 0 where
  pub hex : (s : String) → is_sha256 (text.hexdigest s) ≡ true
  pub lower : (s : String) → is_sha256 s ≡ true → is_sha256 (text.lower s) ≡ true

-- What holds of a bundle that loads.
pub record IsLoaded (text : Text) (b : RevisionBundle) : Type 0 where
  pub reference : IsNamedReference b.reference
  pub reference_hash : is_sha256 b.reference.document.sha256 ≡ true
  pub schema_id : is_blank b.evaluation_schema.schema_id ≡ false
  pub schema_revision : is_blank b.evaluation_schema.schema_revision ≡ false
  pub evaluation_hash : is_sha256 b.evaluation_schema.document.sha256 ≡ true
  pub entries : All IsNamedEntry b.datasets.datasets
  pub apart : Distinct (ids_of b.datasets.datasets)
  pub datasets_hash : is_sha256 b.datasets.document.sha256 ≡ true
  pub catalog_id : is_blank b.runtime.catalog_id ≡ false
  pub catalog_hash : is_sha256 b.runtime.catalog_sha256 ≡ true
  pub profile_set_id : is_blank b.runtime.profile_set_id ≡ false
  pub runtime_hash : is_sha256 b.runtime.document.sha256 ≡ true
  pub version : is_config_version text.decimal b.config_version ≡ true

module _ (text : Text) (h : IsHexText text) where
  document_hash :
      (file : JsonFile) (d : RevisionDocument)
      → load_document (digest text) file ≡ ok d
      → is_sha256 d.sha256 ≡ true
  unfolding load_document
  document_hash file d e =
      let (raw, _, e₁) = >>=-eq-ok (load_json file) _ e in
      subst (λ (x : RevisionDocument). is_sha256 x.sha256 ≡ true) (ok-injective e₁)
        (h.hex (text.canonical raw))

  lock_named :
      (d : RevisionDocument) (lock : DatasetLock)
      → lock_from d ≡ ok lock
      → All IsNamedEntry lock.datasets × (lock.document ≡ d)
  unfolding lock_from
  lock_named d lock e =
      let (_, _, e₁) = >>=-eq-ok (reject_unknown ("schema_version" ∷ "datasets" ∷ []) d.raw) _ e in
      let (raw, _, e₂) = >>=-eq-ok (array_of (find "datasets" d.raw)) _ e₁ in
      let (entries, made, e₃) = >>=-eq-ok (lock_entries raw) _ e₂ in
      let (_, e₄) =
        ensure-eq-ok (length (ids_of entries) == length (distinct (ids_of entries)))
          duplicate_dataset _ e₃ in
      subst (λ (l : DatasetLock). All IsNamedEntry l.datasets × (l.document ≡ d)) (ok-injective e₄)
        (lock_entries-named raw entries made, refl)

  catalog_hash :
      (file : Option Json) (c : AsrCatalog)
      → Catalog.load (digest text) file ≡ ok c
      → is_sha256 c.sha256 ≡ true
  catalog_hash file c e =
      let (raw, same) = load-sha256 (digest text) file c e in
      subst (λ s. is_sha256 s ≡ true) (sym same) (h.hex (text.canonical raw))

  runtime_named :
      (c : AsrCatalog) (d : RevisionDocument) (r : RuntimeRevision)
      → is_sha256 c.sha256 ≡ true
      → runtime_from text.lower c d ≡ ok r
      → (is_blank r.catalog_id ≡ false)
        × (is_sha256 r.catalog_sha256 ≡ true)
        × (is_blank r.profile_set_id ≡ false)
        × (r.document ≡ d)
  unfolding runtime_from
  runtime_named c d r hashed e =
      let (_, _, e₁) =
        >>=-eq-ok (reject_unknown ("schema_version" ∷ "catalog" ∷ "profile_set" ∷ []) d.raw) _ e in
      let (raw, _, e₂) = >>=-eq-ok (require_mapping d.raw "catalog") _ e₁ in
      let (_, _, e₃) = >>=-eq-ok (reject_unknown ("id" ∷ "sha256" ∷ []) raw) _ e₂ in
      let (id, id_read, e₄) = >>=-eq-ok (require_string raw "id") _ e₃ in
      let (sha, _, e₅) = >>=-eq-ok (require_string raw "sha256") _ e₄ in
      let (_, e₆) = ensure-eq-ok (str_eq id c.catalog_id) catalog_mismatch _ e₅ in
      let (same, e₇) =
        ensure-eq-ok (str_eq (text.lower sha) (text.lower c.sha256)) catalog_mismatch _ e₆ in
      let (set_id, set_read, e₈) = >>=-eq-ok (require_string d.raw "profile_set") _ e₇ in
      let (s, _, e₉) = >>=-eq-ok (from_catalog (profile_set c set_id)) _ e₈ in
      let lowered : is_sha256 (text.lower sha) ≡ true =
        subst (λ t. is_sha256 t ≡ true) (sym ((eq_iff _ _).0 same)) (h.lower c.sha256 hashed) in
      subst
        (λ (x : RuntimeRevision).
          (is_blank x.catalog_id ≡ false)
          × (is_sha256 x.catalog_sha256 ≡ true)
          × (is_blank x.profile_set_id ≡ false)
          × (x.document ≡ d))
        (ok-injective e₉)
        (text_value-named _ id id_read, lowered, text_value-named _ set_id set_read, refl)

  version_read :
      (o : Option Json) (v : String)
      → version_of text.decimal o ≡ ok v
      → is_config_version text.decimal v ≡ true
  version_read none v e = cc
  version_read (some (str s)) v e =
      let (good, e₁) = ensure-eq-ok (is_config_version text.decimal s) bad_config_version _ e in
      subst (λ t. is_config_version text.decimal t ≡ true) (ok-injective e₁) good
  version_read (some null) v e = cc
  version_read (some (bool b)) v e = cc
  version_read (some (int n)) v e = cc
  version_read (some (real r)) v e = cc
  version_read (some (arr xs)) v e = cc
  version_read (some (tuple xs)) v e = cc
  version_read (some (obj fields)) v e = cc

  config_version_read :
      (file : JsonFile) (v : String)
      → load_config_version text.decimal file ≡ ok v
      → is_config_version text.decimal v ≡ true
  unfolding load_config_version
  config_version_read file v e =
      let (value, _, e₁) = >>=-eq-ok (load_json file) _ e in
      version_read (find "config_version" value) v e₁

  pub load-IsLoaded :
      (files : Files) (b : RevisionBundle) → load text files ≡ ok b → IsLoaded text b
  unfolding load
  load-IsLoaded files b e =
      let (rd, r_read, e₁) = >>=-eq-ok (load_document (digest text) files.reference) _ e in
      let (ed, e_read, e₂) = >>=-eq-ok (load_document (digest text) files.evaluation_schema) _ e₁ in
      let (dd, d_read, e₃) = >>=-eq-ok (load_document (digest text) files.datasets) _ e₂ in
      let (lock, locked, e₄) = >>=-eq-ok (lock_from dd) _ e₃ in
      let (_, _, e₅) = >>=-eq-ok (require_present files.runtime) _ e₄ in
      let (catalog, loaded, e₆) =
        >>=-eq-ok (from_catalog (Catalog.load (digest text) files.catalog)) _ e₅ in
      let (td, t_read, e₇) = >>=-eq-ok (load_document (digest text) files.runtime) _ e₆ in
      let (runtime, made, e₈) = >>=-eq-ok (runtime_from text.lower catalog td) _ e₇ in
      let (reference, referred, e₉) = >>=-eq-ok (reference_from rd) _ e₈ in
      let (evaluation, evaluated, e₁₀) = >>=-eq-ok (evaluation_from ed) _ e₉ in
      let (version, versioned, e₁₁) =
        >>=-eq-ok (load_config_version text.decimal files.resolved) _ e₁₀ in
      let (named_reference, of_rd) = reference_from-named rd reference referred in
      let (schema_id, schema_revision, of_ed) = evaluation_from-named ed evaluation evaluated in
      let (entries, of_dd) = lock_named dd lock locked in
      let hashed = catalog_hash files.catalog catalog (caught _ catalog loaded) in
      let (catalog_id, catalog_hex, set_id, of_td) = runtime_named catalog td runtime hashed made in
      subst (IsLoaded text) (ok-injective e₁₁) (record {
        reference = named_reference;
        reference_hash = hash_of of_rd (document_hash files.reference rd r_read);
        schema_id = schema_id;
        schema_revision = schema_revision;
        evaluation_hash = hash_of of_ed (document_hash files.evaluation_schema ed e_read);
        entries = entries;
        apart = lock_from-Distinct dd lock locked;
        datasets_hash = hash_of of_dd (document_hash files.datasets dd d_read);
        catalog_id = catalog_id;
        catalog_hash = catalog_hex;
        profile_set_id = set_id;
        runtime_hash = hash_of of_td (document_hash files.runtime td t_read);
        version = config_version_read files.resolved version versioned;
      })
    where
      caught :
          (o : Result Catalog.CatalogError AsrCatalog) (c : AsrCatalog)
          → from_catalog o ≡ ok c
          → o ≡ ok c
      caught (err x) c k = cc
      caught (ok x) c k = cc

      hash_of :
          {d d' : RevisionDocument}
          → d ≡ d'
          → is_sha256 d'.sha256 ≡ true
          → is_sha256 d.sha256 ≡ true
      hash_of p k = subst (λ (x : RevisionDocument). is_sha256 x.sha256 ≡ true) (sym p) k
