-- ===== src/Evaluation/Capsule/Artifact/Chunks.antt =====
-- The parts of an embedded artifact: together they are its payload, each where it says.
use jpapt_v2_2_inspection.Base.{
  ℕ, zero, suc, ◌+◌, ◌-◌, ◌*◌, ◌≤◌, ◌<◌, max, ◌≡◌, refl, sym, ap, subst, ◌∙◌, ◌||◌, false, Option,
  none, some, List, [], ◌∷◌, ◌++◌, ok, ok-injective, raise_if-eq-ok, arith, ltb, length, take, drop,
  take-append-drop,
}
use jpapt_v2_2_inspection.Base.Int.{ℤ, pos, negsuc, to_ℕ, leb_ℤ}
use jpapt_v2_2_inspection.Evaluation.Capsule.Artifact.{
  Codec, EmbeddedCapsuleArtifact, Part, part_count_of, part_at, parts_from, iter_parts,
  max_embedded_artifact_bytes, is_empty, empty_identity, too_large, bad_chunk_size,
}

-- `part.get("payload") or b""`
abbrev pub bytes_of : Option (List ℕ) → List ℕ
bytes_of none = []
bytes_of (some bytes) = bytes

-- `b"".join(…)` over the parts' payloads.
abbrev pub joined : List Part → List ℕ
joined [] = []
joined (part ∷ parts) = bytes_of part.payload ++ joined parts

drop_past : (n : ℕ) (xs : List ℕ) → length xs ≤ n → drop n xs ≡ []
drop_past zero [] h = refl
drop_past (suc n) [] h = refl
drop_past zero (x ∷ xs) h = absurd (omega arith)
drop_past (suc n) (x ∷ xs) h = drop_past n xs (omega arith)

drop_add : (n m : ℕ) (xs : List ℕ) → drop n (drop m xs) ≡ drop (m + n) xs
drop_add n zero xs = ap (λ k. drop k xs) (omega arith)
drop_add n (suc m) [] = drop_past n [] (omega arith) ∙ sym (drop_past (suc m + n) [] (omega arith))
drop_add n (suc m) (x ∷ xs) =
    drop_add n m xs ∙ ap (λ k. drop k (x ∷ xs)) (let e : suc (m + n) ≡ suc m + n = omega arith in e)

covers : (size chunk : ℕ) → 0 < chunk → size ≤ part_count_of size chunk * chunk
unfolding part_count_of
covers size chunk h = grind arith

tight : (size chunk : ℕ) → 0 < chunk → (part_count_of size chunk - 1) * chunk < max 1 size
unfolding part_count_of
tight size chunk h = grind arith

part_count_of-pos : (size chunk : ℕ) → 0 < part_count_of size chunk
unfolding part_count_of
part_count_of-pos size chunk = omega arith

module _ (codec : Codec) (self : EmbeddedCapsuleArtifact) (chunk part_count : ℕ) where
  -- The parts from `index` on hold the payload from their first offset on, as far as they reach.
  pub joined-parts_from :
      (index n : ℕ)
      → length self.payload ≤ (index + n) * chunk
      → joined (parts_from codec self chunk part_count index n) ≡ drop (index * chunk) self.payload
  unfolding parts_from part_at
  joined-parts_from index zero h = sym (
      drop_past (index * chunk) self.payload
        (subst (λ k. length self.payload ≤ k * chunk) (omega arith) h))
  joined-parts_from index (suc n) h =
      ap (λ rest. take chunk (drop (index * chunk) self.payload) ++ rest)
        (joined-parts_from (suc index) n
            (subst (λ k. length self.payload ≤ k * chunk) (omega arith) h)
          ∙ ap (λ k. drop k self.payload) (next_offset index)
          ∙ sym (drop_add chunk (index * chunk) self.payload))
      ∙ take-append-drop chunk (drop (index * chunk) self.payload)
    where
      next_offset : (i : ℕ) → suc i * chunk ≡ i * chunk + chunk
      next_offset i = grind arith

  pub length-parts_from :
      (index n : ℕ) → length (parts_from codec self chunk part_count index n) ≡ n
  unfolding parts_from
  length-parts_from index zero = refl
  length-parts_from index (suc n) = ap suc (length-parts_from (suc index) n)

-- The parts, with the chunk size and the count that `iter_parts` worked out.
pub record IsCut (codec : Codec) (self : EmbeddedCapsuleArtifact) (parts : List Part) : Type 0 where
  pub chunk : ℕ
  pub part_count : ℕ
  pub positive : 0 < chunk
  pub some_part : 0 < part_count
  pub named : is_empty self.artifact_id ≡ false
  pub fits : length self.payload ≤ max_embedded_artifact_bytes
  pub chunk_is : chunk ≡ to_ℕ self.chunk_size_bytes
  pub least : (part_count - 1) * chunk < max 1 (length self.payload)
  pub reach : length self.payload ≤ part_count * chunk
  pub parts_are : parts ≡ parts_from codec self chunk part_count 0 part_count

pub iter_parts-IsCut :
    (codec : Codec) (self : EmbeddedCapsuleArtifact) (parts : List Part)
    → iter_parts codec self ≡ ok parts
    → IsCut codec self parts
unfolding iter_parts
iter_parts-IsCut codec self parts h =
    let (named, h₁) =
      raise_if-eq-ok (is_empty self.artifact_id || is_empty self.name || is_empty self.mime_type)
        empty_identity _ h in
    let (fits, h₂) =
      raise_if-eq-ok (ltb max_embedded_artifact_bytes (length self.payload)) too_large _ h₁ in
    let (sized, h₃) = raise_if-eq-ok (leb_ℤ self.chunk_size_bytes 0) bad_chunk_size _ h₂ in
    let chunk : ℕ = to_ℕ self.chunk_size_bytes in
    let positive : 0 < chunk = positive_of self.chunk_size_bytes sized in
    record {
      chunk = chunk;
      part_count = part_count_of (length self.payload) chunk;
      positive = positive;
      some_part = part_count_of-pos (length self.payload) chunk;
      named = ground arith;
      fits = ground arith;
      chunk_is = refl;
      least = tight (length self.payload) chunk positive;
      reach = covers (length self.payload) chunk positive;
      parts_are = sym (ok-injective h₃);
    }
  where
    positive_of : (z : ℤ) → leb_ℤ z 0 ≡ false → 0 < to_ℕ z
    positive_of (pos n) e = ground arith
    positive_of (negsuc n) e = cc

-- Where `iter_parts` returns, its parts joined in order are the payload. There is at least one,
-- chunks of the size asked for reach the payload's end with that many parts, and with one part less
-- they do not (an empty payload counts as one byte).
pub joined-iter_parts :
    (codec : Codec) (self : EmbeddedCapsuleArtifact) (parts : List Part)
    → iter_parts codec self ≡ ok parts
    → (joined parts ≡ self.payload)
      × (0 < length parts)
      × (length self.payload ≤ length parts * to_ℕ self.chunk_size_bytes)
      × ((length parts - 1) * to_ℕ self.chunk_size_bytes < max 1 (length self.payload))
joined-iter_parts codec self parts h =
    let cut = iter_parts-IsCut codec self parts h in
    let count : length parts ≡ cut.part_count =
      ap length cut.parts_are
      ∙ length-parts_from codec self cut.chunk cut.part_count 0 cut.part_count in
    (
      ap joined cut.parts_are
          ∙ joined-parts_from codec self cut.chunk cut.part_count 0 cut.part_count
              (subst (λ k. length self.payload ≤ k * cut.chunk) (omega arith) cut.reach)
          ∙ ap (λ k. drop k self.payload) (let e : 0 * cut.chunk ≡ 0 = omega arith in e),
      subst (λ k. 0 < k) (sym count) cut.some_part,
      rw (count, sym cut.chunk_is) (cut.reach),
      rw (count, sym cut.chunk_is) (cut.least),
    )
