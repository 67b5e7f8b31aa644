-- ===== src/Hf/Revisions/Entries.antt =====
-- Which dataset entries of hf/revisions.py can stand in a revision snapshot (contracts.py).
use jpapt_v2_2_inspection.Base.{
  ◌≡◌, refl, sym, subst, String, true, false, Option, none, some, inl, inr, List, [], ◌∷◌, ok,
  ok-injective, >>=-eq-ok, raise_if-eq-ok, require-eq-ok, All, arith, str_eq, any, Bool-cases,
}
use jpapt_v2_2_inspection.Base.Distinct.{Distinct, str_eq-sym}
use jpapt_v2_2_inspection.Base.Json.{Json, Items, nil, cons}
use jpapt_v2_2_inspection.Contracts.Strip.{is_blank}
use jpapt_v2_2_inspection.Contracts.Checks.{duplicate_entry, is_sha256, items_null, contains_null}
use jpapt_v2_2_inspection.Contracts.Revisions.{
  DatasetRevisionEntry, validate_entry, validate_entries, entries_dict,
}
use jpapt_v2_2_inspection.Hf.Revisions.{
  needs_sha256, needs_manifest, reject_unknown, require_string, optional_string,
}
use jpapt_v2_2_inspection.Hf.Revisions.Lock.{
  DatasetLockEntry, object_of, entry_fields, lock_entry, lock_entries, ids_of,
}
use jpapt_v2_2_inspection.Hf.Revisions.Bundle.{or_default, snapshot_entry, snapshot_entries}
use jpapt_v2_2_inspection.Hf.Revisions.Named.{
  sha256_named, text_value-named, OptionNamed, optional_value-named,
}

pub record IsNamedEntry (e : DatasetLockEntry) : Type 0 where
  pub id : is_blank e.id ≡ false
  pub repo_id : is_blank e.repo_id ≡ false
  pub revision : is_blank e.revision ≡ false
  pub subset : OptionNamed e.subset
  pub split : OptionNamed e.split
  pub manifest : OptionNamed e.manifest

lock_entry-named : (value : Json) (e : DatasetLockEntry) → lock_entry value ≡ ok e → IsNamedEntry e
unfolding lock_entry
lock_entry-named value e h =
    let (item, _, h₁) = >>=-eq-ok (object_of value) _ h in
    let (_, _, h₂) = >>=-eq-ok (reject_unknown entry_fields item) _ h₁ in
    let (id, a, h₃) = >>=-eq-ok (require_string item "id") _ h₂ in
    let (repo_id, b, h₄) = >>=-eq-ok (require_string item "repo_id") _ h₃ in
    let (revision, c, h₅) = >>=-eq-ok (require_string item "revision") _ h₄ in
    let (subset, d, h₆) = >>=-eq-ok (optional_string item "subset") _ h₅ in
    let (split, f, h₇) = >>=-eq-ok (optional_string item "split") _ h₆ in
    let (sha256, _, h₈) = >>=-eq-ok (optional_string item "sha256") _ h₇ in
    let (manifest, g, h₉) = >>=-eq-ok (optional_string item "manifest") _ h₈ in
    subst IsNamedEntry (ok-injective h₉) (record {
      id = text_value-named _ id a;
      repo_id = text_value-named _ repo_id b;
      revision = text_value-named _ revision c;
      subset = optional_value-named _ subset d;
      split = optional_value-named _ split f;
      manifest = optional_value-named _ manifest g;
    })

pub lock_entries-named :
    (items : Items) (es : List DatasetLockEntry) → lock_entries items ≡ ok es → All IsNamedEntry es
unfolding lock_entries
lock_entries-named nil es h = subst (All IsNamedEntry) (ok-injective h) tt
lock_entries-named (cons value rest) es h =
    let (e, a, h₁) = >>=-eq-ok (lock_entry value) _ h in
    let (tail, b, h₂) = >>=-eq-ok (lock_entries rest) _ h₁ in
    subst (All IsNamedEntry) (ok-injective h₂)
      (lock_entry-named value e a, lock_entries-named rest tail b)

-- An entry with a hash of 64 hexadecimal digits and a manifest.
pub record IsExecutable (e : DatasetLockEntry) : Type 0 where
  pub hash : String
  pub manifest : String
  pub hashed : e.sha256 ≡ some hash
  pub hexadecimal : is_sha256 hash ≡ true
  pub listed : e.manifest ≡ some manifest

or_default-named : (o : Option String) → OptionNamed o → is_blank (or_default o) ≡ false
unfolding is_blank
or_default-named none h = refl
or_default-named (some s) h = elim (Bool-cases (str_eq s "")) [ inl e ↦ rw e refl | inr e ↦ rw e h ]

-- The entry of the snapshot.
abbrev entry_of : DatasetLockEntry → String → String → DatasetRevisionEntry
entry_of e hash manifest = record {
  id = e.id;
  repo_id = e.repo_id;
  revision = e.revision;
  subset = or_default e.subset;
  split = or_default e.split;
  sha256 = hash;
  manifest = manifest;
}

entry_valid :
    (e : DatasetLockEntry) (x : IsExecutable e)
    → IsNamedEntry e
    → (snapshot_entry e ≡ ok (entry_of e x.hash x.manifest))
      × (validate_entry (entry_of e x.hash x.manifest) ≡ ok tt)
unfolding snapshot_entry validate_entry
entry_valid e x n =
    let hashed = x.hashed in
    let listed = x.listed in
    let a = n.id in
    let b = n.repo_id in
    let c = n.revision in
    let subset = or_default-named e.subset n.subset in
    let split = or_default-named e.split n.split in
    let hex = x.hexadecimal in
    let hash_named = sha256_named x.hash hex in
    let manifest_named : is_blank x.manifest ≡ false = subst OptionNamed listed n.manifest in
    (rw (hashed, listed) refl, rw (a, b, c, subset, split, hash_named, hex, manifest_named) refl)

-- The texts in `xs` are not among those seen.
abbrev pub Unseen : List String → List DatasetLockEntry → Type 0
Unseen seen = All (λ e. any (str_eq e.id) seen ≡ false)

pub entries_valid :
    (es : List DatasetLockEntry) (seen : List String)
    → All IsNamedEntry es
    → All IsExecutable es
    → Distinct (ids_of es)
    → Unseen seen es
    → (out : List DatasetRevisionEntry) × (snapshot_entries es ≡ ok out)
      × (validate_entries seen out ≡ ok tt)
unfolding snapshot_entries validate_entries
entries_valid [] seen named good apart new = ([], refl, refl)
entries_valid (e ∷ es) seen named good apart new =
    let (made, valid) = entry_valid e good.0 named.0 in
    let (out, rest, rest_valid) =
      entries_valid es (e.id ∷ seen) named.1 good.1 apart.1 (unseen es apart.0 new.1) in
    let fresh = new.0 in
    (
      entry_of e good.0.hash good.0.manifest ∷ out,
      rw (made, rest) refl,
      rw (valid, fresh) rest_valid,
    )
  where
    unseen :
        (fs : List DatasetLockEntry)
        → any (str_eq e.id) (ids_of fs) ≡ false
        → Unseen seen fs
        → Unseen (e.id ∷ seen) fs
    unseen [] a h = tt
    unseen (f ∷ fs) a h =
        let (apart', rest) : (str_eq e.id f.id ≡ false) × (any (str_eq e.id) (ids_of fs) ≡ false) =
          ground arith in
        let turned = str_eq-sym e.id f.id apart' in
        let before = h.0 in (rw (turned, before) refl, unseen fs rest h.1)

entry_hex : (e : DatasetRevisionEntry) → validate_entry e ≡ ok tt → is_sha256 e.sha256 ≡ true
unfolding validate_entry
entry_hex e h = ground arith

entry-IsExecutable :
    (e : DatasetLockEntry) (out : DatasetRevisionEntry)
    → snapshot_entry e ≡ ok out
    → validate_entry out ≡ ok tt
    → IsExecutable e
unfolding snapshot_entry
entry-IsExecutable e out h valid =
    let (hash, hashed, h₁) = require-eq-ok e.sha256 needs_sha256 _ h in
    let (manifest, listed, h₂) = require-eq-ok e.manifest needs_manifest _ h₁ in
    record {
      hash = hash;
      manifest = manifest;
      hashed = hashed;
      hexadecimal =
          entry_hex (entry_of e hash manifest)
            (subst (λ o. validate_entry o ≡ ok tt) (sym (ok-injective h₂)) valid);
      listed = listed;
    }

pub entries-IsExecutable :
    (es : List DatasetLockEntry) (seen : List String) (out : List DatasetRevisionEntry)
    → snapshot_entries es ≡ ok out
    → validate_entries seen out ≡ ok tt
    → All IsExecutable es
unfolding snapshot_entries validate_entries
entries-IsExecutable [] seen out h valid = tt
entries-IsExecutable (e ∷ es) seen out h valid =
    let (first, made, h₁) = >>=-eq-ok (snapshot_entry e) _ h in
    let (rest, rest_made, h₂) = >>=-eq-ok (snapshot_entries es) _ h₁ in
    let valid' : validate_entries seen (first ∷ rest) ≡ ok tt =
      subst (λ o. validate_entries seen o ≡ ok tt) (sym (ok-injective h₂)) valid in
    let (_, first_valid, h₃) = >>=-eq-ok (validate_entry first) _ valid' in
    let (_, h₄) = raise_if-eq-ok (any (str_eq first.id) seen) duplicate_entry _ h₃ in
    (
      entry-IsExecutable e first made first_valid,
      entries-IsExecutable es (first.id ∷ seen) rest rest_made h₄,
    )

pub entries_null : (es : List DatasetRevisionEntry) → items_null (entries_dict es) ≡ false
unfolding entries_dict contains_null
entries_null [] = refl
entries_null (e ∷ es) = entries_null es
