-- ===== src/Contracts/Candidate/Roundtrip.antt =====
-- A valid generated candidate is read back from its dictionary (contracts.py,
-- generated_candidate_io.py).
use jpapt_v2_2_inspection.Base.{
  ◌≡◌, refl, String, Bool, true, false, Option, none, some, List, [], ◌∷◌, ok, raise_if, >>=-eq-ok,
  ensure-eq-ok, raise_if-eq-ok, arith, str_eq, All, length,
}
use jpapt_v2_2_inspection.Base.Int.{pos, eq_ℤ}
use jpapt_v2_2_inspection.Base.Sorting.{sort, sort-All, sort-Sorted, sort_of_Sorted, length-sort}
use jpapt_v2_2_inspection.Base.Json.{obj, find, keys}
use jpapt_v2_2_inspection.Contracts.Checks.{
  bad_schema_version, decoder_mismatch, no_artifacts, has_null, exact, contains_null,
}
use jpapt_v2_2_inspection.Contracts.Candidate.{
  GeneratedArtifact, GeneratedTokenizer, GeneratedCandidateContract, catalog_dict, runtime_dict,
  artifacts_dict, by_name, tokenizer_field, to_dict, validate_catalog, validate_artifacts,
  validate_features, validate_tokenizer, validate_runtime, validate_texts, is_nil, validate,
}
use jpapt_v2_2_inspection.Contracts.Candidate.Parse.{
  read_tokenizer, is_end, required, Parts, parts_of, read_contract,
  parse_generated_candidate_contract,
}
use jpapt_v2_2_inspection.Contracts.Candidate.Items.{
  by_name-order, catalog_back, tokenizer_back, runtime_back, GoodArtifact, good_artifacts,
  valid_artifacts, artifacts_back, GoodFeature, good_features, valid_features, features_back,
}

-- The contract with its dictionaries in the order in which they are written.
abbrev pub sorted : GeneratedCandidateContract → GeneratedCandidateContract
sorted c = record c { artifacts = sort by_name c.artifacts; features = sort by_name c.features }

sort_idem {ℓ} :
    {A : Type ℓ} (l : List (String × A)) → sort by_name (sort by_name l) ≡ sort by_name l
sort_idem l = sort_of_Sorted by_name (sort by_name l) (sort-Sorted by_name-order l)

to_dict-sorted : (c : GeneratedCandidateContract) → to_dict (sorted c) ≡ to_dict c
unfolding to_dict
to_dict-sorted c = rw (sort_idem c.artifacts, sort_idem c.features) refl

-- What the validation of a contract finds.
record Accepted (c : GeneratedCandidateContract) : Type 0 where
  version : eq_ℤ c.schema_version (pos 1) ≡ true
  texts : validate_texts c ≡ ok tt
  catalog : validate_catalog c.catalog ≡ ok tt
  decoder : str_eq c.decoder c.runtime_contract.decoder ≡ true
  there : is_nil c.artifacts ≡ false
  artifacts : All GoodArtifact c.artifacts
  tokenizer : validate_tokenizer c.tokenizer ≡ ok tt
  features : All GoodFeature c.features
  runtime : validate_runtime c.runtime_contract ≡ ok tt
  nulls : contains_null (obj (to_dict c)) ≡ false

accepted : (c : GeneratedCandidateContract) → validate c ≡ ok tt → Accepted c
unfolding validate
accepted c h =
    let (version, h₁) = ensure-eq-ok (eq_ℤ c.schema_version (pos 1)) bad_schema_version _ h in
    let (_, texts, h₂) = >>=-eq-ok (validate_texts c) _ h₁ in
    let (_, catalog, h₃) = >>=-eq-ok (validate_catalog c.catalog) _ h₂ in
    let (decoder, h₄) =
      ensure-eq-ok (str_eq c.decoder c.runtime_contract.decoder) decoder_mismatch _ h₃ in
    let (there, h₅) = raise_if-eq-ok (is_nil c.artifacts) no_artifacts _ h₄ in
    let (_, artifacts, h₆) = >>=-eq-ok (validate_artifacts c.artifacts) _ h₅ in
    let (_, tokenizer, h₇) = >>=-eq-ok (validate_tokenizer c.tokenizer) _ h₆ in
    let (_, features, h₈) = >>=-eq-ok (validate_features c.features) _ h₇ in
    let (_, runtime, h₉) = >>=-eq-ok (validate_runtime c.runtime_contract) _ h₈ in
    record {
      version = version;
      texts = texts;
      catalog = catalog;
      decoder = decoder;
      there = there;
      artifacts = good_artifacts c.artifacts artifacts;
      tokenizer = tokenizer;
      features = good_features c.features features;
      runtime = runtime;
      nulls = no_null (contains_null (obj (to_dict c))) h₉;
    }
  where
    no_null : (b : Bool) → raise_if b has_null ≡ ok tt → b ≡ false
    no_null true k = cc
    no_null false k = refl

nonempty {ℓ} :
    {A : Type ℓ} (l m : List A) → length m ≡ length l → is_nil l ≡ false → is_nil m ≡ false
nonempty [] m e h = cc
nonempty (x ∷ l) [] e h = absurd (omega arith)
nonempty (x ∷ l) (y ∷ m) e h = refl

sorted-Accepted : (c : GeneratedCandidateContract) → Accepted c → validate (sorted c) ≡ ok tt
unfolding validate validate_texts
sorted-Accepted c a =
    let version = a.version in
    let texts = a.texts in
    let catalog = a.catalog in
    let decoder = a.decoder in
    let tokenizer = a.tokenizer in
    let runtime = a.runtime in
    let nulls = a.nulls in
    let artifacts = valid_artifacts _ (sort-All by_name GoodArtifact c.artifacts a.artifacts) in
    let features = valid_features _ (sort-All by_name GoodFeature c.features a.features) in
    let there = nonempty c.artifacts _ (length-sort by_name c.artifacts) a.there in
    rw (version, texts, catalog, decoder, there, artifacts, tokenizer, features, runtime)
      (rw (to_dict-sorted c, nulls) refl)

-- What the parser finds in the dictionary of a contract.
parts : GeneratedCandidateContract → Parts
parts c = record {
  raw = to_dict c;
  schema_version = c.schema_version;
  catalog = catalog_dict c.catalog;
  artifacts = sort by_name c.artifacts;
  tokenizer = c.tokenizer;
  features = sort by_name c.features;
  runtime = runtime_dict c.runtime_contract;
  io = c.runtime_contract.io;
  decoder_config = c.runtime_contract.decoder_config;
}

keys_back : (c : GeneratedCandidateContract) → exact required ("tokenizer" ∷ []) (to_dict c) ≡ ok tt
unfolding exact to_dict keys
keys_back c =
    elim c.tokenizer
      as (λ t. exact required ("tokenizer" ∷ []) (to_dict (record c { tokenizer = t })) ≡ ok tt) [
        | none ↦ refl
        | some t ↦ refl
      ]

tokenizer_found :
    (t : Option GeneratedTokenizer)
    → validate_tokenizer t ≡ ok tt
    → read_tokenizer (find "tokenizer" (tokenizer_field t)) ≡ ok t
unfolding find read_tokenizer
tokenizer_found none h = refl
tokenizer_found (some t) h = tokenizer_back t h

some_artifact :
    (l : List (String × GeneratedArtifact)) → is_nil l ≡ false → is_end (artifacts_dict l) ≡ false
unfolding artifacts_dict
some_artifact [] h = cc
some_artifact (x ∷ l) h = refl

parts_back : (c : GeneratedCandidateContract) → Accepted c → parts_of (to_dict c) ≡ ok (parts c)
unfolding parts_of parts to_dict exact keys find
parts_back c a =
    let there = nonempty c.artifacts _ (length-sort by_name c.artifacts) a.there in
    let some_there = some_artifact (sort by_name c.artifacts) there in
    let artifacts = artifacts_back _ (sort-All by_name GoodArtifact c.artifacts a.artifacts) in
    let features = features_back _ (sort-All by_name GoodFeature c.features a.features) in
    let tokenizer = tokenizer_found c.tokenizer a.tokenizer in
    rw (some_there, artifacts, tokenizer, features) refl

contract_back :
    (c : GeneratedCandidateContract) → Accepted c → read_contract (parts c) ≡ ok (sorted c)
unfolding read_contract parts to_dict find validate_texts
contract_back c a =
    let texts = a.texts in
    ground (arith, catalog_back c.catalog a.catalog, runtime_back c.runtime_contract a.runtime)

-- A contract that is valid is read back from its dictionary, with its artifacts and its features in
-- the order in which `to_dict` writes them.
pub parse_generated_candidate_contract-to_dict :
    (c : GeneratedCandidateContract)
    → validate c ≡ ok tt
    → parse_generated_candidate_contract (some (obj (to_dict c))) ≡ ok (sorted c)
unfolding parse_generated_candidate_contract
parse_generated_candidate_contract-to_dict c h =
    let a = accepted c h in
    let nulls = a.nulls in
    rw (nulls, keys_back c, parts_back c a, contract_back c a, sorted-Accepted c a) refl
