-- ===== src/Hf/Revisions/Named.antt =====
-- The texts of loaded revision documents (hf/revisions.py) are not blank, and their digests are
-- hexadecimal.
use jpapt_v2_2_inspection.Base.{
  ℕ, ◌≡◌, refl, subst, ◌∙◌, String, Bool, true, false, ◌&&◌, Option, none, some, List, [], ◌∷◌, ok,
  length, all, ok-injective, >>=-eq-ok, raise_if-eq-ok, arith, ◌==◌, take, drop,
}
use Prim.Native.Char.{code}
use jpapt_v2_2_inspection.Base.Text.{codes}
use jpapt_v2_2_inspection.Base.Json.{Json, null, bool, int, real, str, arr, tuple, obj, Fields}
use jpapt_v2_2_inspection.Evaluation.Metrics.Words.{is_space, same_text}
use jpapt_v2_2_inspection.Contracts.Strip.{is_blank, is_blank-strip, solid-not_blank}
use jpapt_v2_2_inspection.Contracts.Checks.{hex_digit, is_sha256, is_config_version}
use jpapt_v2_2_inspection.Hf.Revisions.{
  not_text, reject_unknown, require_mapping, text_value, require_string, optional_value, Identity,
  identity, RevisionDocument, ReferenceRevision, reference_fields, reference_from,
  EvaluationSchemaRevision, evaluation_from,
}

hex_digit-solid : (c : ℕ) → hex_digit c ≡ true → is_space c ≡ false
hex_digit-solid c h = ground arith

-- Digits are not blank, nor is a version.
pub sha256_named : (s : String) → is_sha256 s ≡ true → is_blank s ≡ false
unfolding is_sha256 codes
sha256_named String.[] h = cc
sha256_named (String.◌∷◌ c s) h = solid-not_blank c s (
    hex_digit-solid (code c) (
      first_digit (length (code c ∷ codes s) == 64) (hex_digit (code c)) (all hex_digit (codes s))
        h))
  where
    first_digit : (a b c : Bool) → (a && (b && c)) ≡ true → b ≡ true
    first_digit true true c k = refl
    first_digit true false c k = cc
    first_digit false b c k = cc

pub version_named :
    (decimal : ℕ → Bool) (s : String) → is_config_version decimal s ≡ true → is_blank s ≡ false
unfolding is_config_version codes
version_named decimal String.[] h = cc
version_named decimal (String.◌∷◌ c s) h =
    let word = codes "onfig-" in
    let starts =
      middle (length (code c ∷ codes s) == 13) (same_text (code c ∷ take 6 (codes s)) (99 ∷ word))
        (all decimal (drop 6 (codes s))) h in
    solid-not_blank c s (not_space (code c) (take 6 (codes s)) word starts)
  where
    middle : (a b d : Bool) → (a && b && d) ≡ true → b ≡ true
    middle true true d k = refl
    middle true false d k = cc
    middle false b d k = cc

    not_space : (n : ℕ) (cs ds : List ℕ) → same_text (n ∷ cs) (99 ∷ ds) ≡ true → is_space n ≡ false
    not_space n cs ds k = ground arith

pub text_value-named : (o : Option Json) (s : String) → text_value o ≡ ok s → is_blank s ≡ false
text_value-named none s h = cc
text_value-named (some (str t)) s h =
    let (named, h₁) = raise_if-eq-ok (is_blank t) not_text _ h in
    subst (λ u. is_blank u ≡ false) (ok-injective h₁) (is_blank-strip t ∙ named)
text_value-named (some null) s h = cc
text_value-named (some (bool b)) s h = cc
text_value-named (some (int n)) s h = cc
text_value-named (some (real r)) s h = cc
text_value-named (some (arr xs)) s h = cc
text_value-named (some (tuple xs)) s h = cc
text_value-named (some (obj fields)) s h = cc

-- A text that may be missing is not blank.
abbrev pub OptionNamed : Option String → Type 0
OptionNamed none = Unit
OptionNamed (some s) = is_blank s ≡ false

pub optional_value-named :
    (o : Option Json) (t : Option String) → optional_value o ≡ ok t → OptionNamed t
optional_value-named none t h = subst OptionNamed (ok-injective h) tt
optional_value-named (some v) t h =
    let (s, e, h₁) = >>=-eq-ok (text_value (some v)) _ h in
    subst OptionNamed (ok-injective h₁) (text_value-named (some v) s e)

pub record IsNamedIdentity (i : Identity) : Type 0 where
  pub repo_id : is_blank i.repo_id ≡ false
  pub revision : is_blank i.revision ≡ false

identity_named :
    (raw : Fields) (key : String) (i : Identity) → identity raw key ≡ ok i → IsNamedIdentity i
unfolding identity
identity_named raw key i h =
    let (value, _, h₁) = >>=-eq-ok (require_mapping raw key) _ h in
    let (_, _, h₂) = >>=-eq-ok (reject_unknown ("repo_id" ∷ "revision" ∷ []) value) _ h₁ in
    let (repo_id, a, h₃) = >>=-eq-ok (require_string value "repo_id") _ h₂ in
    let (revision, b, h₄) = >>=-eq-ok (require_string value "revision") _ h₃ in
    subst IsNamedIdentity (ok-injective h₄)
      (record { repo_id = text_value-named _ repo_id a; revision = text_value-named _ revision b })

pub record IsNamedReference (r : ReferenceRevision) : Type 0 where
  pub development : IsNamedIdentity r.development_artifact
  pub upstream : IsNamedIdentity r.upstream
  pub tokenizer : IsNamedIdentity r.tokenizer
  pub id : is_blank r.reference_id ≡ false
  pub revision : is_blank r.reference_revision ≡ false
  pub framework : is_blank r.canonical_framework ≡ false

pub reference_from-named :
    (d : RevisionDocument) (r : ReferenceRevision)
    → reference_from d ≡ ok r
    → IsNamedReference r × (r.document ≡ d)
unfolding reference_from
reference_from-named d r h =
    let (_, _, h₁) = >>=-eq-ok (reject_unknown reference_fields d.raw) _ h in
    let (development, a, h₂) = >>=-eq-ok (identity d.raw "development_artifact") _ h₁ in
    let (upstream, b, h₃) = >>=-eq-ok (identity d.raw "upstream") _ h₂ in
    let (tokenizer, c, h₄) = >>=-eq-ok (identity d.raw "tokenizer") _ h₃ in
    let (reference, _, h₅) = >>=-eq-ok (require_mapping d.raw "reference") _ h₄ in
    let (_, _, h₆) =
      >>=-eq-ok (reject_unknown ("id" ∷ "revision" ∷ "canonical_framework" ∷ []) reference) _ h₅ in
    let (id, e, h₇) = >>=-eq-ok (require_string reference "id") _ h₆ in
    let (revision, f, h₈) = >>=-eq-ok (require_string reference "revision") _ h₇ in
    let (framework, g, h₉) = >>=-eq-ok (require_string reference "canonical_framework") _ h₈ in
    subst (λ x. IsNamedReference x × (x.document ≡ d)) (ok-injective h₉)
      (
        record {
          development = identity_named d.raw "development_artifact" development a;
          upstream = identity_named d.raw "upstream" upstream b;
          tokenizer = identity_named d.raw "tokenizer" tokenizer c;
          id = text_value-named _ id e;
          revision = text_value-named _ revision f;
          framework = text_value-named _ framework g;
        },
        refl,
      )

pub evaluation_from-named :
    (d : RevisionDocument) (e : EvaluationSchemaRevision)
    → evaluation_from d ≡ ok e
    → (is_blank e.schema_id ≡ false) × (is_blank e.schema_revision ≡ false) × (e.document ≡ d)
unfolding evaluation_from
evaluation_from-named d e h =
    let (_, _, h₁) = >>=-eq-ok (reject_unknown ("schema_version" ∷ "schema" ∷ []) d.raw) _ h in
    let (schema, _, h₂) = >>=-eq-ok (require_mapping d.raw "schema") _ h₁ in
    let (_, _, h₃) = >>=-eq-ok (reject_unknown ("id" ∷ "revision" ∷ []) schema) _ h₂ in
    let (id, a, h₄) = >>=-eq-ok (require_string schema "id") _ h₃ in
    let (revision, b, h₅) = >>=-eq-ok (require_string schema "revision") _ h₄ in
    subst
      (λ (x : EvaluationSchemaRevision).
        (is_blank x.schema_id ≡ false) × (is_blank x.schema_revision ≡ false) × (x.document ≡ d))
      (ok-injective h₅) (text_value-named _ id a, text_value-named _ revision b, refl)
