-- ===== src/Contracts/Context/Roundtrip.antt =====
-- A valid run context is read back from its dictionary as JSON writes it (contracts.py, contract_io.py).
use jpapt_v2_2_inspection.Base.{
  ℕ, ◌≡◌, refl, ◌∙◌, sym, subst, String, Bool, true, false, [], ◌∷◌, ok, raise_if, ensure,
  >>=-eq-ok, ensure-eq-ok, arith, str_eq,
}
use jpapt_v2_2_inspection.Base.Int.{pos, eq_ℤ}
use jpapt_v2_2_inspection.Base.Json.{
  Json, null, bool, int, real, str, arr, tuple, obj, Items, nil, cons, Fields, end, field, find,
  keys, or_null, as_json, as_items, as_fields,
}
use jpapt_v2_2_inspection.Contracts.Checks.{
  bad_schema_version, provider_mismatch, has_null, reject_nulls, contains_null, items_null,
  fields_null, exact, string_of,
}
use jpapt_v2_2_inspection.Contracts.Candidate.Items.{positive_back}
use jpapt_v2_2_inspection.Contracts.Candidate.{GeneratedCandidateContract}
use jpapt_v2_2_inspection.Contracts.Candidate.Parse.{parse_generated_candidate_contract}
use jpapt_v2_2_inspection.Contracts.Revisions
use jpapt_v2_2_inspection.Contracts.Revisions.Parse.{parse_revision_snapshot}
use jpapt_v2_2_inspection.Contracts.Revisions.Roundtrip.{parse_revision_snapshot-to_dict}
use jpapt_v2_2_inspection.Contracts.Context.{
  ArtifactIdentity, GitIdentity, HostIdentity, RuntimeIdentity, ConfigSnapshot, RunContext,
  artifact_dict, git_dict, host_dict, runtime_dict, config_dict, dict_with, to_dict,
  validate_artifact, validate_git, validate_host, validate_runtime, validate_config, validate_texts,
  validate_candidate, validate,
}
use jpapt_v2_2_inspection.Contracts.Context.Parse.{
  read_artifact, read_git, read_host, read_runtime, sources_of, read_config, Parts, required,
  parts_of, read_context, parse_run_context,
}

artifact_back :
    (a : ArtifactIdentity) → validate_artifact a ≡ ok tt → read_artifact (artifact_dict a) ≡ ok a
unfolding validate_artifact read_artifact find
artifact_back a h = ground (arith, positive_back a.size_bytes)

git_back : (g : GitIdentity) → validate_git g ≡ ok tt → read_git (git_dict g) ≡ ok g
unfolding validate_git read_git find
git_back g h = ground arith

host_back : (t : HostIdentity) → validate_host t ≡ ok tt → read_host (host_dict t) ≡ ok t
unfolding validate_host read_host find
host_back t h = ground arith

runtime_back :
    (r : RuntimeIdentity) → validate_runtime r ≡ ok tt → read_runtime (runtime_dict r) ≡ ok r
unfolding validate_runtime read_runtime find
runtime_back r h = ground arith

no_null : (b : Bool) → raise_if b has_null ≡ ok tt → b ≡ false
no_null true h = cc
no_null false h = refl

no_nulls :
    (decimal : ℕ → Bool) (c : RunContext)
    → validate decimal c ≡ ok tt
    → contains_null (obj (to_dict c)) ≡ false
unfolding validate
no_nulls decimal c h =
    let (_, _, h₁) = >>=-eq-ok (ensure (eq_ℤ c.schema_version (pos 2)) bad_schema_version) _ h in
    let (_, _, h₂) = >>=-eq-ok (validate_texts c) _ h₁ in
    let (_, _, h₃) = >>=-eq-ok (validate_artifact c.artifact) _ h₂ in
    let (_, _, h₄) = >>=-eq-ok (validate_git c.git) _ h₃ in
    let (_, _, h₅) = >>=-eq-ok (validate_host c.host) _ h₄ in
    let (_, _, h₆) = >>=-eq-ok (validate_runtime c.runtime) _ h₅ in
    let (_, _, h₇) = >>=-eq-ok (Revisions.validate decimal c.revisions) _ h₆ in
    let (_, _, h₈) = >>=-eq-ok (validate_config c.config) _ h₇ in
    let (_, _, h₉) =
      >>=-eq-ok (ensure (str_eq c.runtime.provider_id c.provider_id) provider_mismatch) _ h₈ in
    let (_, _, h₁₀) = >>=-eq-ok (validate_candidate c) _ h₉ in
    let (_, _, h₁₁) = >>=-eq-ok (reject_nulls (obj c.metadata)) _ h₁₀ in
    no_null (contains_null (obj (to_dict c))) h₁₁

-- JSON writes None as null, and nothing else.
mutual
  unfolding contains_null items_null fields_null as_json as_items as_fields

  null_json : (v : Json) → contains_null (as_json v) ≡ contains_null v
  null_json null = refl
  null_json (bool b) = refl
  null_json (int n) = refl
  null_json (real r) = refl
  null_json (str s) = refl
  null_json (arr xs) = null_items xs
  null_json (tuple xs) = null_items xs
  null_json (obj fields) = null_fields fields

  null_items : (xs : Items) → items_null (as_items xs) ≡ items_null xs
  null_items nil = refl
  null_items (cons v rest) = rw (null_json v, null_items rest) refl

  null_fields : (fields : Fields) → fields_null (as_fields fields) ≡ fields_null fields
  null_fields end = refl
  null_fields (field k v rest) = rw (null_json v, null_fields rest) refl

-- The dictionary of a context, as JSON writes it.
plain : RunContext → Fields
plain c = dict_with (as_json (Revisions.to_dict c.revisions)) c

-- The mappings that the context was given hold no tuple.
abbrev pub IsJson : RunContext → Type 0
IsJson c = (as_fields c.config.resolved ≡ c.config.resolved) × (as_fields c.metadata ≡ c.metadata)

-- A text of the context is found in its dictionary.
abbrev Found : RunContext → String → String → Type 0
Found c key text = string_of (find key (plain c)) ≡ ok text

texts_back :
    (c : RunContext)
    → validate_texts c ≡ ok tt
    → Found c "run_id" c.run_id
      × Found c "created_at" c.created_at
      × Found c "config_identity" c.config_identity
      × Found c "model_id" c.model_id
      × Found c "environment_id" c.environment_id
      × Found c "provider_id" c.provider_id
      × Found c "evaluation_id" c.evaluation_id
unfolding validate_texts plain find
texts_back c h = ground arith

module _ (model provider environment evaluation : String) where
  abbrev files : Fields
  files = sources_of model provider environment evaluation

  abbrev snapshot : String → Fields → Fields → ConfigSnapshot
  snapshot identity sources resolved = record {
    identity = identity;
    sources = sources;
    resolved = resolved;
  }

  files_back :
      (identity : String) (resolved : Fields)
      → validate_config (snapshot identity files resolved) ≡ ok tt
      → read_config (config_dict (snapshot identity files resolved)) files resolved
        ≡ ok (snapshot identity files resolved)
  unfolding validate_config read_config find
  files_back identity resolved h = ground arith

  config_back :
      (c : ConfigSnapshot)
      → c.sources ≡ files
      → validate_config c ≡ ok tt
      → read_config (config_dict c) c.sources c.resolved ≡ ok c
  config_back c e =
      subst
        (λ s.
          validate_config (snapshot c.identity s c.resolved) ≡ ok tt
          → read_config (config_dict (snapshot c.identity s c.resolved)) s c.resolved
            ≡ ok (snapshot c.identity s c.resolved))
        (sym e) (files_back c.identity c.resolved)

  -- What the parser finds in the dictionary of a context.
  parts : RunContext → Parts
  parts c = record {
    schema_version = c.schema_version;
    artifact = artifact_dict c.artifact;
    git = git_dict c.git;
    host = host_dict c.host;
    runtime = runtime_dict c.runtime;
    config = config_dict c.config;
    sources = c.config.sources;
    resolved = c.config.resolved;
    metadata = c.metadata;
  }

  keys_back : (c : RunContext) → exact required [] (plain c) ≡ ok tt
  unfolding exact plain keys
  keys_back c = refl

  parts_back : (c : RunContext) → c.config.sources ≡ files → parts_of (plain c) ≡ ok (parts c)
  unfolding parts_of parts plain exact keys find
  parts_back c e =
      let four : exact ("model" ∷ "provider" ∷ "environment" ∷ "evaluation" ∷ []) []
            c.config.sources
          ≡ ok tt =
        subst (λ s. exact ("model" ∷ "provider" ∷ "environment" ∷ "evaluation" ∷ []) [] s ≡ ok tt)
          (sym e) refl in
      rw four refl

  revisions_back :
      (decimal : ℕ → Bool) (c : RunContext)
      → Revisions.validate decimal c.revisions ≡ ok tt
      → parse_revision_snapshot decimal (or_null (find "revisions" (plain c))) ≡ ok c.revisions
  unfolding plain find
  revisions_back decimal c h = (parse_revision_snapshot-to_dict decimal c.revisions h).0

  context_back :
      (decimal : ℕ → Bool) (c : RunContext)
      → c.config.sources ≡ files
      → validate decimal c ≡ ok tt
      → read_context decimal (plain c) (parts c) ≡ ok c
  unfolding validate read_context parts
  context_back decimal c e h =
      let (_, h₁) = ensure-eq-ok (eq_ℤ c.schema_version (pos 2)) bad_schema_version _ h in
      let (_, texts, h₂) = >>=-eq-ok (validate_texts c) _ h₁ in
      let (_, artifact, h₃) = >>=-eq-ok (validate_artifact c.artifact) _ h₂ in
      let (_, git, h₄) = >>=-eq-ok (validate_git c.git) _ h₃ in
      let (_, host, h₅) = >>=-eq-ok (validate_host c.host) _ h₄ in
      let (_, runtime, h₆) = >>=-eq-ok (validate_runtime c.runtime) _ h₅ in
      let (_, revisions, h₇) = >>=-eq-ok (Revisions.validate decimal c.revisions) _ h₆ in
      let (_, config, _) = >>=-eq-ok (validate_config c.config) _ h₇ in
      let (run, made, identity, model_found, where_run, provided, evaluated) = texts_back c texts in
      rw (run, made, identity, model_found, where_run, provided, evaluated)
        (rw
          (
            artifact_back c.artifact artifact,
            git_back c.git git,
            host_back c.host host,
            runtime_back c.runtime runtime,
            revisions_back decimal c revisions,
            config_back c.config e config,
          )
          refl)

  plain_back :
      (c : RunContext) → c.config.sources ≡ files → IsJson c → as_fields (to_dict c) ≡ plain c
  unfolding to_dict plain as_json as_fields
  plain_back c e json =
      let sources : as_fields c.config.sources ≡ c.config.sources =
        subst (λ s. as_fields s ≡ s) (sym e) refl in
      rw (sources, json.0, json.1) refl

  -- A context that is valid, names the four configuration files, describes a candidate that the
  -- parser accepts, and holds no tuple in its resolved configuration or its metadata, is read back
  -- as it is from its dictionary as JSON writes it, in the order of the fields.
  pub parse_run_context-to_dict :
      (decimal : ℕ → Bool) (c : RunContext) (candidate : GeneratedCandidateContract)
      → c.config.sources ≡ files
      → validate decimal c ≡ ok tt
      → parse_generated_candidate_contract (find "candidate" c.metadata) ≡ ok candidate
      → IsJson c
      → parse_run_context decimal (as_json (obj (to_dict c))) ≡ ok c
  unfolding parse_run_context as_json
  parse_run_context-to_dict decimal c candidate e h parsed json =
      let same = plain_back c e json in
      let nulls : contains_null (obj (plain c)) ≡ false =
        subst (λ d. contains_null (obj d) ≡ false) same
          (null_json (obj (to_dict c)) ∙ no_nulls decimal c h) in
      rw same (rw (nulls, keys_back c, parts_back c e, context_back decimal c e h, h, parsed) refl)
