-- ===== src/Datasets/Selection.antt =====
-- What `_resolve_entry` and `resolve` (datasets/resolver.py) choose.
use jpapt_v2_2_inspection.Base.{
  ℕ, suc, ◌≤◌, ◌≡◌, refl, sym, ap, subst, String, ◌∙◌, false, inl, inr, List, [], ◌∷◌, ◌++◌, ok,
  ok-injective, >>=-eq-ok, raise_if-eq-ok, Bool-cases, arith, length, take, drop, take-append-drop,
  length-take, All, map, keep,
}
use jpapt_v2_2_inspection.Base.Int.{pos, le_ℤ-order}
use jpapt_v2_2_inspection.Base.Sorting.{
  sort, Sorted, sort-Sorted, sort-perm, IsTotalOrder, then_by-order,
}
use jpapt_v2_2_inspection.Base.Text.{leb_codes-order}
use mathlib.Core.List.{Perm}
use jpapt_v2_2_inspection.Datasets.Models.{
  FloatTests, too_few_records, ManifestEntry, DatasetRecord, ResolvedDatasetSample, accepts,
  stable_hash_key,
}
use jpapt_v2_2_inspection.Datasets.Resolver.{
  DatasetLockEntry, Collaborators, Candidate, by_bytes, by_row, by_digest, first_of, fewer,
  candidate_of, candidates_of, resolved_sample, select_from, resolve_entry,
}

by_bytes-order : IsTotalOrder by_bytes
by_bytes-order = record {
  trans = λ a b d. leb_codes-order.trans a.digest_bytes b.digest_bytes d.digest_bytes;
  flip = λ a b. leb_codes-order.flip a.digest_bytes b.digest_bytes;
}

by_row-order : IsTotalOrder by_row
by_row-order = record {
  trans = λ a b d. le_ℤ-order.trans a.value.index b.value.index d.value.index;
  flip = λ a b. le_ℤ-order.flip a.value.index b.value.index;
}

by_digest-order : IsTotalOrder by_digest
by_digest-order = then_by-order by_bytes by_row by_bytes-order by_row-order

-- The samples of the chosen candidates in order, ranked from `rank` on.
abbrev pub Ranked :
    ManifestEntry → DatasetLockEntry → ℕ → List Candidate → List ResolvedDatasetSample → Type 0
Ranked entry lock rank [] [] = Unit
Ranked entry lock rank [] (_ ∷ _) = ⊥
Ranked entry lock rank (_ ∷ _) [] = ⊥
Ranked entry lock rank (c ∷ cs) (s ∷ ss) =
    (s.source_identity ≡ c.value.identity)
    × (s.row_index ≡ c.value.index)
    × (s.selection_hash ≡ c.digest_hex)
    × (s.selection_rank ≡ rank)
    × (s.manifest_entry_id ≡ entry.id)
    × (s.dataset_revision ≡ lock.revision)
    × Ranked entry lock (suc rank) cs ss

module _ (floats : FloatTests) (c : Collaborators) where
  -- The candidate of a record: its digest is that of the hash key of the revision, the record's
  -- identity and the entry's seed.
  pub record IsHashed (entry : ManifestEntry) (lock : DatasetLockEntry) (k : Candidate)
      : Type 0 where
    pub key : String
    pub keyed : stable_hash_key lock.revision k.value.identity entry.selection.seed ≡ ok key
    pub hex : k.digest_hex ≡ c.sha256_hex key
    pub bytes : k.digest_bytes ≡ c.from_hex (c.sha256_hex key)

  -- The choice of `n` samples: the candidates are those of all records that pass the filter, they
  -- are the chosen ones and others, and in the order by digest the chosen ones come first.
  pub record IsSelection (entry : ManifestEntry) (lock : DatasetLockEntry) (n : ℕ)
      (samples : List ResolvedDatasetSample) : Type 0 where
    pub rows : List DatasetRecord
    pub read : c.iter_records lock ≡ ok rows
    pub candidates : List Candidate
    pub of_rows :
        map (λ k. k.value) candidates
        ≡ keep (λ row. accepts floats entry.filters row.duration_sec) rows
    pub hashed : All (IsHashed entry lock) candidates
    pub chosen : List Candidate
    pub others : List Candidate
    pub all_of : Perm (chosen ++ others) candidates
    pub first : Sorted by_digest (chosen ++ others)
    pub as_many : length samples ≡ n
    pub ranked : Ranked entry lock 1 chosen samples

  -- Candidates of the records, with their hashes.
  abbrev AreOf : ManifestEntry → DatasetLockEntry → List DatasetRecord → List Candidate → Type 0
  AreOf entry lock rows cs =
      (map (λ k. k.value) cs ≡ keep (λ row. accepts floats entry.filters row.duration_sec) rows)
      × All (IsHashed entry lock) cs

  candidate_of-IsHashed :
      (entry : ManifestEntry) (lock : DatasetLockEntry) (row : DatasetRecord) (k : Candidate)
      → candidate_of floats c entry lock row ≡ ok k
      → (k.value ≡ row) × IsHashed entry lock k
  unfolding candidate_of
  candidate_of-IsHashed entry lock row k h =
      let (key, keyed, h₁) =
        >>=-eq-ok (stable_hash_key lock.revision row.identity entry.selection.seed) _ h in
      subst (λ j. (j.value ≡ row) × IsHashed entry lock j) (ok-injective h₁)
        (refl, record { key = key; keyed = keyed; hex = refl; bytes = refl })

  candidates_of-AreOf :
      (entry : ManifestEntry) (lock : DatasetLockEntry) (rows : List DatasetRecord)
      (cs : List Candidate)
      → candidates_of floats c entry lock rows ≡ ok cs
      → AreOf entry lock rows cs
  unfolding candidates_of
  candidates_of-AreOf entry lock [] cs h = subst (AreOf entry lock []) (ok-injective h) (refl, tt)
  candidates_of-AreOf entry lock (row ∷ rows) cs h =
      elim (Bool-cases (accepts floats entry.filters row.duration_sec)) [
        | inl e ↦
            let (k, made, h₁) = >>=-eq-ok (candidate_of floats c entry lock row) _ (rw e at h) in
            let (ks, rest, h₂) = >>=-eq-ok (candidates_of floats c entry lock rows) _ h₁ in
            let (same, hashed) = candidate_of-IsHashed entry lock row k made in
            let (all_of, all_hashed) = candidates_of-AreOf entry lock rows ks rest in
            subst (AreOf entry lock (row ∷ rows)) (ok-injective h₂)
              (rw (e, same, all_of) refl, (hashed, all_hashed))
        | inr e ↦ rw e (candidates_of-AreOf entry lock rows cs (rw e at h))
      ]

  select_from-Ranked :
      (entry : ManifestEntry) (lock : DatasetLockEntry) (rank : ℕ) (cs : List Candidate)
      → (samples : List ResolvedDatasetSample)
      → select_from floats c entry lock rank cs ≡ ok samples
      → Ranked entry lock rank cs samples
  unfolding select_from resolved_sample
  select_from-Ranked entry lock rank [] samples h =
      subst (Ranked entry lock rank []) (ok-injective h) tt
  select_from-Ranked entry lock rank (k ∷ cs) samples h =
      let (m, _, h₁) = >>=-eq-ok (c.materialize k.value lock.revision) _ h in
      let (rest, more, h₂) = >>=-eq-ok (select_from floats c entry lock (suc rank) cs) _ h₁ in
      subst (Ranked entry lock rank (k ∷ cs)) (ok-injective h₂)
        (refl, refl, refl, refl, refl, refl, select_from-Ranked entry lock (suc rank) cs rest more)

Ranked-length :
    (entry : ManifestEntry) (lock : DatasetLockEntry) (rank : ℕ) (cs : List Candidate)
    → (samples : List ResolvedDatasetSample) → Ranked entry lock rank cs samples
    → length samples ≡ length cs
Ranked-length entry lock rank [] [] h = refl
Ranked-length entry lock rank [] (_ ∷ _) h = absurd h
Ranked-length entry lock rank (_ ∷ _) [] h = absurd h
Ranked-length entry lock rank (k ∷ cs) (s ∷ ss) h =
    ap suc (Ranked-length entry lock (suc rank) cs ss h.6)

-- Where an entry that asks for `n` samples resolves, its samples are `n`. Of all the records that
-- pass its filter, each with the digest of its hash key, they are those with the least digests (the
-- row's index where digests agree), in that order and ranked 1, 2, ….
pub resolve_entry-IsSelection :
    (floats : FloatTests) (c : Collaborators) (entry : ManifestEntry) (lock : DatasetLockEntry)
    (n : ℕ)
    → (samples : List ResolvedDatasetSample) → entry.selection.count ≡ pos n
    → resolve_entry floats c entry lock ≡ ok samples
    → IsSelection floats c entry lock n samples
unfolding resolve_entry
resolve_entry-IsSelection floats c entry lock n samples count h =
    let (rows, read, h₁) = >>=-eq-ok (c.iter_records lock) _ h in
    let (candidates, of_rows, h₂) = >>=-eq-ok (candidates_of floats c entry lock rows) _ h₁ in
    let (all_of, hashed) = candidates_of-AreOf floats c entry lock rows candidates of_rows in
    let sorted : List Candidate = sort by_digest candidates in
    let (enough, h₃) =
      raise_if-eq-ok (fewer (length sorted) entry.selection.count) too_few_records _ h₂ in
    let asked : fewer (length sorted) (pos n) ≡ false =
      subst (λ z. fewer (length sorted) z ≡ false) count enough in
    let picked : select_from floats c entry lock 1 (take n sorted) ≡ ok samples =
      subst (λ z. select_from floats c entry lock 1 (first_of z sorted) ≡ ok samples) count h₃ in
    let split : take n sorted ++ drop n sorted ≡ sorted = take-append-drop n sorted in
    let ranked = select_from-Ranked floats c entry lock 1 (take n sorted) samples picked in
    let most : n ≤ length sorted = ground arith in
    record {
      rows = rows;
      read = read;
      candidates = candidates;
      of_rows = all_of;
      hashed = hashed;
      chosen = take n sorted;
      others = drop n sorted;
      all_of = subst (λ l. Perm l candidates) (sym split) (sort-perm by_digest candidates);
      first = subst (Sorted by_digest) (sym split) (sort-Sorted by_digest-order candidates);
      as_many =
          Ranked-length entry lock 1 (take n sorted) samples ranked
          ∙ length-take n sorted
          ∙ (omega arith);
      ranked = ranked;
    }
