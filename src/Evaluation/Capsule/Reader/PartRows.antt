-- ===== src/Evaluation/Capsule/Reader/PartRows.antt =====
-- The rows of an artifact's parts: artifacts written by evaluation/capsule_artifacts.py and read by evaluation/capsule_reader.py.
use jpapt_v2_2_inspection.Base.{
  ℕ, zero, suc, ◌+◌, ◌-◌, ◌*◌, ◌≤◌, ◌<◌, max, ◌≡◌, refl, sym, ap, subst, ◌∙◌, String, Bool, true,
  false, inl, inr, none, some, List, [], ◌∷◌, ◌++◌, ok, Bool-cases, arith, length, take, drop,
  append-nil, append_assoc, length-take, length-drop, str_eq, eq_iff, All, ==_iff, le→leb,
  if◌then◌else◌, leb, ◌==◌,
}
use jpapt_v2_2_inspection.Base.Int.{le_ℤ, pos}
use jpapt_v2_2_inspection.Base.Json.{Json, Fields, end, field, find}
use jpapt_v2_2_inspection.Base.Sorting.{Sorted}
use jpapt_v2_2_inspection.Evaluation.Capsule.Artifact.{
  Codec, EmbeddedCapsuleArtifact, assign, merge, part_at, parts_from, is_empty,
}
use jpapt_v2_2_inspection.Evaluation.Capsule.Artifact.Chunks.{joined}
use jpapt_v2_2_inspection.Evaluation.Capsule.Rows.Columns.{Row, empty_row}
use jpapt_v2_2_inspection.Evaluation.Capsule.Rows.Records.{artifact_row}
use jpapt_v2_2_inspection.Evaluation.Capsule.Rows.Stream.{part_rows}
use jpapt_v2_2_inspection.Evaluation.Capsule.Reader.{
  all_indexed, by_index, joined_payload, index_or_zero,
}
use jpapt_v2_2_inspection.Evaluation.Capsule.Reader.Parts.{
  add_to_group, group_rows, require_nonempty_string, check_payload, check_parts, check_count,
  check_group,
}

find-assign :
    (key k : String) (v : Json) (fields : Fields)
    → str_eq k key ≡ false
    → find key (assign k v fields) ≡ find key fields
unfolding find assign
find-assign key k v end h = rw h refl
find-assign key k v (field j w rest) h = elim (Bool-cases (str_eq j k)) [
  | inl e ↦
      let same : str_eq j key ≡ false =
        subst (λ s. str_eq s key ≡ false) (sym ((eq_iff j k).0 e)) h in
      rw (e, same) refl
  | inr e ↦ rw e (ap (λ o. if str_eq j key then some w else o) (find-assign key k v rest h))
]

pub find-merge :
    (key : String) (first fields : Fields)
    → find key fields ≡ none
    → find key (merge first fields) ≡ find key first
unfolding find merge
find-merge key first end h = refl
find-merge key first (field k v rest) h =
    let (other, absent) = skip (str_eq k key) h in
    find-merge key (assign k v first) rest absent ∙ find-assign key k v first other
  where
    skip :
        (b : Bool)
        → (if b then some v else find key rest) ≡ none
        → (b ≡ false) × (find key rest ≡ none)
    skip true e = cc
    skip false e = (refl, e)

pub str_eq_refl : (s : String) → str_eq s s ≡ true
str_eq_refl s = (eq_iff s s).1 refl

module _ (codec : Codec) (self : EmbeddedCapsuleArtifact) (chunk part_count : ℕ)
    (run_id : String) where
  -- The rows of the parts from `index` on, the first with ordinal `n`.
  abbrev pub rows_from : ℕ → ℕ → ℕ → List Row
  rows_from n index k = part_rows run_id n (parts_from codec self chunk part_count index k)

  pub rows_from-indexed : (n index k : ℕ) → all_indexed (rows_from n index k) ≡ true
  unfolding part_rows parts_from part_at artifact_row empty_row
  rows_from-indexed n index zero = refl
  rows_from-indexed n index (suc k) = rows_from-indexed (suc n) (suc index) k

  pub rows_from-above :
      (i n index k : ℕ)
      → i ≤ index
      → All (λ row. le_ℤ (pos i) (index_or_zero row) ≡ true) (rows_from n index k)
  unfolding part_rows parts_from part_at artifact_row empty_row
  rows_from-above i n index zero h = tt
  rows_from-above i n index (suc k) h =
      (le→leb i index h, rows_from-above i (suc n) (suc index) k (omega arith))

  pub rows_from-Sorted : (n index k : ℕ) → Sorted by_index (rows_from n index k)
  unfolding part_rows parts_from part_at artifact_row empty_row
  rows_from-Sorted n index zero = tt
  rows_from-Sorted n index (suc k) = (
    rows_from-above index (suc n) (suc index) k (omega arith),
    rows_from-Sorted (suc n) (suc index) k,
  )

  pub rows_from-joined :
      (n index k : ℕ)
      → joined_payload (rows_from n index k)
        ≡ joined (parts_from codec self chunk part_count index k)
  unfolding part_rows parts_from part_at artifact_row empty_row
  rows_from-joined n index zero = refl
  rows_from-joined n index (suc k) =
      ap (λ rest. take chunk (drop (index * chunk) self.payload) ++ rest)
        (rows_from-joined (suc n) (suc index) k)

  pub length-rows_from : (n index k : ℕ) → length (rows_from n index k) ≡ k
  unfolding part_rows parts_from
  length-rows_from n index zero = refl
  length-rows_from n index (suc k) = ap suc (length-rows_from (suc n) (suc index) k)

  -- A part with another after it has `chunk` bytes.
  pub part_full :
      (index : ℕ)
      → suc index < part_count
      → (part_count - 1) * chunk < max 1 (length self.payload)
      → 0 < chunk
      → index * chunk + length (take chunk (drop (index * chunk) self.payload)) ≡ suc index * chunk
  part_full index h least positive =
      let e = length-take chunk (drop (index * chunk) self.payload) in
      let d = length-drop (index * chunk) self.payload in
      let reach = below index h least positive in
      let (step, _) : (suc index * chunk ≡ index * chunk + chunk) × Unit {0} = (grind arith, tt) in
      rw (e, d) (omega arith)
    where
      below :
          (i : ℕ)
          → suc i < part_count
          → (part_count - 1) * chunk < max 1 (length self.payload)
          → 0 < chunk
          → suc i * chunk ≤ length self.payload
      below i k l p =
          let (gap, _) : (suc i * chunk ≤ (part_count - 1) * chunk) × Unit {0} =
            (grind arith, tt) in
          let (some_bytes, _) : (0 < suc i * chunk) × Unit {0} = (grind arith, tt) in omega arith

  abbrev row_at : ℕ → ℕ → Row
  row_at n index = artifact_row run_id n (part_at codec self chunk part_count index)

  -- One round of the loop over the parts.
  pub one_part :
      (m n index : ℕ) (embedded : Bool) (rest : List Row)
      → check_parts codec (row_at m 0) index (index * chunk) embedded (row_at n index ∷ rest)
        ≡ check_parts codec
            (row_at m 0)
            (suc index)
            (index * chunk + length (take chunk (drop (index * chunk) self.payload)))
            true
            rest
  unfolding check_parts check_payload part_at artifact_row empty_row
  one_part m n index embedded rest =
      let a = (==_iff index index).1 refl in
      let b = (==_iff (index * chunk) (index * chunk)).1 refl in
      let c = (==_iff (length self.payload) (length self.payload)).1 refl in
      let d = str_eq_refl self.name in
      let e = str_eq_refl self.mime_type in
      let f = str_eq_refl (codec.sha256 self.payload) in
      let g = str_eq_refl (codec.sha256 (take chunk (drop (index * chunk) self.payload))) in
      rw (a, b, c, d, e, f, g) refl

  pub rows_from-checked :
      (m n index k : ℕ) (embedded : Bool)
      → index + suc k ≡ part_count
      → (part_count - 1) * chunk < max 1 (length self.payload)
      → 0 < chunk
      → check_parts codec (row_at m 0) index (index * chunk) embedded (rows_from n index (suc k))
        ≡ ok true
  unfolding check_parts part_rows parts_from
  rows_from-checked m n index zero embedded h least positive = one_part m n index embedded []
  rows_from-checked m n index (suc k) embedded h least positive =
      one_part m n index embedded (rows_from (suc n) (suc index) (suc k))
      ∙ ap
          (λ offset.
            check_parts codec (row_at m 0) (suc index) offset true
              (rows_from (suc n) (suc index) (suc k)))
          (part_full index (omega arith) least positive)
      ∙ rows_from-checked m (suc n) (suc index) k true (omega arith) least positive

  pub rows_from-one_group :
      is_empty self.artifact_id ≡ false
      → (n index k : ℕ) (before : List Row)
      → group_rows
          (record { artifact_id = self.artifact_id; parts = before } ∷ [])
          (rows_from n index k)
        ≡ ok (record { artifact_id = self.artifact_id; parts = before ++ rows_from n index k } ∷ [])
  unfolding group_rows add_to_group require_nonempty_string part_rows parts_from part_at
      artifact_row empty_row
  rows_from-one_group named n index zero before =
      ap (λ l. ok (record { artifact_id = self.artifact_id; parts = l } ∷ []))
        (sym (append-nil before))
  rows_from-one_group named n index (suc k) before =
      let e = str_eq_refl self.artifact_id in
      rw (named, e)
        (rows_from-one_group named (suc n) (suc index) k (before ++ row_at n index ∷ [])
          ∙ ap (λ l. ok (record { artifact_id = self.artifact_id; parts = l } ∷ []))
              (append_assoc before (row_at n index ∷ []) (rows_from (suc n) (suc index) k)))

  pub group_rows-rows_from :
      is_empty self.artifact_id ≡ false
      → (n k : ℕ)
      → group_rows [] (rows_from n 0 (suc k))
        ≡ ok (record { artifact_id = self.artifact_id; parts = rows_from n 0 (suc k) } ∷ [])
  unfolding group_rows add_to_group require_nonempty_string part_rows parts_from part_at
      artifact_row empty_row
  group_rows-rows_from named n k =
      rw named (rows_from-one_group named (suc n) 1 k (row_at n 0 ∷ []))

  pub check_count-rows_from :
      (n k : ℕ)
      → suc k ≡ part_count
      → check_count (some (pos part_count)) (length (rows_from n 0 (suc k))) ≡ ok tt
  check_count-rows_from n k h =
      let few : leb part_count 0 ≡ false = ground arith in
      let same : (length (rows_from n 0 (suc k)) == part_count) ≡ true =
        (==_iff _ _).1 (length-rows_from n 0 (suc k) ∙ h) in
      rw (few, same) refl

  pub check_group-rows_from :
      (n k : ℕ)
      → suc k ≡ part_count
      → (part_count - 1) * chunk < max 1 (length self.payload)
      → 0 < chunk
      → joined (parts_from codec self chunk part_count 0 (suc k)) ≡ self.payload
      → check_group codec (rows_from n 0 (suc k)) ≡ ok tt
  unfolding check_group part_rows parts_from part_at artifact_row empty_row
  check_group-rows_from n k h least positive whole =
      let counted = check_count-rows_from n k h in
      let start : 0 * chunk ≡ 0 = omega arith in
      let looped =
        subst
          (λ offset.
            check_parts codec (row_at n 0) 0 offset false (rows_from n 0 (suc k)) ≡ ok true)
          start (rows_from-checked n n 0 k false (h' h) least positive) in
      let bytes = rows_from-joined n 0 (suc k) ∙ whole in
      let c = (==_iff (length self.payload) (length self.payload)).1 refl in
      let s = str_eq_refl (codec.sha256 self.payload) in rw (counted, looped, bytes, c, s) refl
    where
      h' : suc k ≡ part_count → 0 + suc k ≡ part_count
      h' e = omega arith
