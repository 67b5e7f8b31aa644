-- ===== src/Contracts/Candidate/Items.antt =====
-- The parts of a valid generated candidate are read back from their dictionaries (contracts.py,
-- generated_candidate_io.py).
use jpapt_v2_2_inspection.Base.{
  zero, suc, ◌≡◌, refl, String, Bool, true, false, some, List, [], ◌∷◌, ok, >>=-eq-ok,
  raise_if-eq-ok, arith, All,
}
use jpapt_v2_2_inspection.Base.Int.{ℤ, pos, negsuc}
use jpapt_v2_2_inspection.Base.Sorting.{IsTotalOrder}
use jpapt_v2_2_inspection.Base.Text.{leb_text-order}
use jpapt_v2_2_inspection.Base.Json.{int, obj, find, keys}
use jpapt_v2_2_inspection.Contracts.Strip.{is_blank}
use jpapt_v2_2_inspection.Contracts.Checks.{blank, exact, positive_of, is_positive}
use jpapt_v2_2_inspection.Contracts.Candidate.{
  GeneratedCatalog, GeneratedArtifact, GeneratedTokenizer, GeneratedRuntimeContract, catalog_dict,
  artifact_dict, tokenizer_dict, runtime_dict, artifacts_dict, features_dict, by_name,
  validate_catalog, validate_artifact, validate_artifacts, validate_features, validate_tokenizer,
  validate_runtime,
}
use jpapt_v2_2_inspection.Contracts.Candidate.Parse.{
  read_artifact, read_artifacts, read_tokenizer, read_features, read_catalog, read_runtime,
}

pub by_name-order {ℓ} : {A : Type ℓ} → IsTotalOrder (by_name {A = A})
by_name-order = record {
  trans = λ a b c. leb_text-order.trans a.0 b.0 c.0;
  flip = λ a b. leb_text-order.flip a.0 b.0;
}

pub positive_back : (n : ℤ) → is_positive n ≡ true → positive_of (some (int n)) ≡ ok n
positive_back (pos zero) h = cc
positive_back (pos (suc n)) h = refl
positive_back (negsuc n) h = cc

pub artifact_back :
    (a : GeneratedArtifact) → validate_artifact a ≡ ok tt → read_artifact (artifact_dict a) ≡ ok a
unfolding validate_artifact read_artifact exact keys find
artifact_back a h = ground (arith, positive_back a.size_bytes)

pub catalog_back :
    (c : GeneratedCatalog) → validate_catalog c ≡ ok tt → read_catalog (catalog_dict c) ≡ ok c
unfolding validate_catalog read_catalog find
catalog_back c h = ground arith

pub tokenizer_back :
    (t : GeneratedTokenizer)
    → validate_tokenizer (some t) ≡ ok tt
    → read_tokenizer (some (obj (tokenizer_dict t))) ≡ ok (some t)
unfolding validate_tokenizer read_tokenizer exact keys find
tokenizer_back t h = ground arith

pub runtime_back :
    (r : GeneratedRuntimeContract)
    → validate_runtime r ≡ ok tt
    → read_runtime (runtime_dict r) r.io r.decoder_config ≡ ok r
unfolding validate_runtime read_runtime find
runtime_back r h = ground arith

-- A named artifact that the validation accepts.
abbrev pub GoodArtifact : String × GeneratedArtifact → Type 0
GoodArtifact (role, a) = (is_blank role ≡ false) × (validate_artifact a ≡ ok tt)

pub good_artifacts :
    (l : List (String × GeneratedArtifact)) → validate_artifacts l ≡ ok tt → All GoodArtifact l
unfolding validate_artifacts
good_artifacts [] h = tt
good_artifacts ((role, a) ∷ rest) h =
    let (named, h₁) = raise_if-eq-ok (is_blank role) blank _ h in
    let (_, valid, h₂) = >>=-eq-ok (validate_artifact a) _ h₁ in
    ((named, valid), good_artifacts rest h₂)

pub valid_artifacts :
    (l : List (String × GeneratedArtifact)) → All GoodArtifact l → validate_artifacts l ≡ ok tt
unfolding validate_artifacts
valid_artifacts [] h = refl
valid_artifacts ((role, a) ∷ rest) h =
    let (named, valid) = h.0 in rw (named, valid) (valid_artifacts rest h.1)

pub artifacts_back :
    (l : List (String × GeneratedArtifact))
    → All GoodArtifact l
    → read_artifacts (artifacts_dict l) ≡ ok l
unfolding read_artifacts artifacts_dict
artifacts_back [] h = refl
artifacts_back ((role, a) ∷ rest) h =
    let (named, valid) = h.0 in rw (named, artifact_back a valid, artifacts_back rest h.1) refl

abbrev pub GoodFeature : String × Bool → Type 0
GoodFeature (name, value) = is_blank name ≡ false

pub good_features : (l : List (String × Bool)) → validate_features l ≡ ok tt → All GoodFeature l
unfolding validate_features
good_features [] h = tt
good_features ((name, value) ∷ rest) h =
    let (named, h₁) = raise_if-eq-ok (is_blank name) blank _ h in (named, good_features rest h₁)

pub valid_features : (l : List (String × Bool)) → All GoodFeature l → validate_features l ≡ ok tt
unfolding validate_features
valid_features [] h = refl
valid_features ((name, value) ∷ rest) h = let named = h.0 in rw named (valid_features rest h.1)

pub features_back :
    (l : List (String × Bool)) → All GoodFeature l → read_features (features_dict l) ≡ ok l
unfolding read_features features_dict
features_back [] h = refl
features_back ((name, value) ∷ rest) h = let named = h.0 in rw (named, features_back rest h.1) refl
