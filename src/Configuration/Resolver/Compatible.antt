-- ===== src/Configuration/Resolver/Compatible.antt =====
-- Which configurations config/resolver.py resolves.
use jpapt_v2_2_inspection.Base.{
  ◌≡◌, refl, sym, subst, ap, ◌∙◌, ◌⊎◌, inl, inr, ◌↔◌, String, Bool, true, false, not, ◌&&◌, Option,
  none, some, List, ok, >>=-eq-ok, >>=-ok, ensure, raise_if, Bool-cases, ok-injective, ensure-eq-ok,
  any, str_eq, arith,
}
use mathlib.Core.Option.{some-injective}
use jpapt_v2_2_inspection.Base.Json.{
  Json, null, bool, int, real, str, tuple, obj, arr, Items, truthy,
}
use jpapt_v2_2_inspection.Configuration.Models.{
  no_manifest, provider_disabled, environment_refused, bad_environments, unsupported_provider,
  BaseConfig, FilePath, inside, get, provider_id, environment_id, enabled, supported_providers,
  providers_for_environment, supported_os, manifest,
}
use jpapt_v2_2_inspection.Configuration.Resolver.{
  Machine, validate_compatibility, check_environments, has_text,
}

-- A suite's list of environments: missing, empty, or an array with the name.
abbrev pub Allows : String → Option Json → Type 0
Allows name field =
    (field ≡ none)
    ⊎ ((value : Json) × (field ≡ some value) × (truthy value ≡ false))
    ⊎ ((values : Items) × (field ≡ some (arr values)) × (has_text name values ≡ true))

-- The configs may be used together.
pub record IsCompatible (machine : Machine) (root : FilePath)
    (model provider evaluation : BaseConfig) (provider_name environment_name : String)
    : Type 0 where
  pub is_enabled : enabled provider ≡ ok true
  pub by_model :
      (names : List String) × (supported_providers model ≡ ok names)
      × (any (str_eq provider_name) names ≡ true)
  pub on_platform :
      (names : List String) × (providers_for_environment model environment_name ≡ ok names)
      × (any (str_eq provider_name) names ≡ true)
  pub by_provider :
      (names : List String) × (supported_os provider ≡ ok names)
      × (any (str_eq environment_name) names ≡ true)
  pub by_evaluation : Allows environment_name (get evaluation "ci.supported_environments")
  pub has_manifest :
      (file : String) × (manifest evaluation ≡ ok file)
      × (machine.is_file (inside root file) ≡ true)

raise_if_iff : {E : Type 0} (t : Bool) (e : E) → (raise_if t e ≡ ok tt) ↔ (t ≡ false)
raise_if_iff true e = (λ h. cc, λ h. cc)
raise_if_iff false e = (λ _. refl, λ _. refl)

other_iff :
    (name : String) (value : Json)
    → ((values : Items) → value ≡ arr values → ⊥)
    → (raise_if (truthy value) bad_environments ≡ ok tt) ↔ Allows name (some value)
other_iff name value other = (forth, back)
  where
    forth : raise_if (truthy value) bad_environments ≡ ok tt → Allows name (some value)
    forth h = inr (inl (value, refl, (raise_if_iff _ bad_environments).0 h))

    back : Allows name (some value) → raise_if (truthy value) bad_environments ≡ ok tt
    back (inl h) = cc
    back (inr (inl (v, e, h))) =
        (raise_if_iff _ bad_environments).1
          (subst (λ u. truthy u ≡ false) (sym (some-injective _ _ e)) h)
    back (inr (inr (values, e, h))) = absurd (other values (some-injective _ _ e))

-- The empty array is not a restriction.
array_iff :
    (name : String) (values : Items)
    → (raise_if (truthy (arr values) && not (has_text name values)) environment_refused ≡ ok tt)
      ↔ Allows name (some (arr values))
array_iff name values = (forth, back)
  where
    refused : Bool
    refused = truthy (arr values) && not (has_text name values)

    forth : raise_if refused environment_refused ≡ ok tt → Allows name (some (arr values))
    forth h =
        let allowed : refused ≡ false = (raise_if_iff _ environment_refused).0 h in
        elim (Bool-cases (has_text name values)) [
          | inl e ↦ inr (inr (values, refl, e))
          | inr e ↦ inr (inl (arr values, refl, ground arith))
        ]

    back : Allows name (some (arr values)) → raise_if refused environment_refused ≡ ok tt
    back (inl h) = cc
    back (inr (inl (v, e, h))) =
        let empty : truthy (arr values) ≡ false =
          subst (λ u. truthy u ≡ false) (sym (some-injective _ _ e)) h in
        (raise_if_iff _ environment_refused).1 (ground arith)
    back (inr (inr (others, e, h))) =
        let same : others ≡ values = cc in
        let held : has_text name values ≡ true = subst (λ u. has_text name u ≡ true) same h in
        (raise_if_iff _ environment_refused).1 (ground arith)

check_environments-Allows :
    (name : String) (field : Option Json)
    → (check_environments name field ≡ ok tt) ↔ Allows name field
check_environments-Allows name none = (λ _. inl refl, λ _. refl)
check_environments-Allows name (some (arr values)) = array_iff name values
check_environments-Allows name (some null) = other_iff name null (λ _ e. cc)
check_environments-Allows name (some (bool b)) = other_iff name (bool b) (λ _ e. cc)
check_environments-Allows name (some (int n)) = other_iff name (int n) (λ _ e. cc)
check_environments-Allows name (some (real r)) = other_iff name (real r) (λ _ e. cc)
check_environments-Allows name (some (str s)) = other_iff name (str s) (λ _ e. cc)
check_environments-Allows name (some (tuple xs)) = other_iff name (tuple xs) (λ _ e. cc)
check_environments-Allows name (some (obj fields)) = other_iff name (obj fields) (λ _ e. cc)

ensure-true : {E : Type 0} (t : Bool) (e : E) → ensure t e ≡ ok tt → t ≡ true
ensure-true true e h = refl
ensure-true false e h = cc

ensure-ok : {E : Type 0} {t : Bool} (e : E) → t ≡ true → ensure t e ≡ ok tt
ensure-ok e h = rw h refl

-- If the provider and the environment have ids: the validation returns exactly if the provider is
-- enabled and in the model's lists of all providers and of those for the environment, the
-- environment is in the provider's list and, unless that is missing or empty, in the suite's,
-- and the suite's manifest is a file.
pub validate_compatibility_iff :
    (machine : Machine) (root : FilePath) (model provider environment evaluation : BaseConfig)
    (provider_name environment_name : String)
    → provider_id provider ≡ ok provider_name
    → environment_id environment ≡ ok environment_name
    → (validate_compatibility machine root model provider environment evaluation ≡ ok tt)
      ↔ IsCompatible machine root model provider evaluation provider_name environment_name
unfolding validate_compatibility
validate_compatibility_iff machine root model provider environment evaluation p e same_p same_e =
    (forth, back)
  where
    Compatible : String → String → Type 0
    Compatible = IsCompatible machine root model provider evaluation

    forth :
        validate_compatibility machine root model provider environment evaluation ≡ ok tt
        → Compatible p e
    forth h =
        let (is_enabled, a, h₁) = >>=-eq-ok (enabled provider) _ h in
        let (p', a₂, h₂) = >>=-eq-ok (provider_id provider) _ h₁ in
        let (on, h₃) = ensure-eq-ok is_enabled provider_disabled _ h₂ in
        let (names, a₃, h₄) = >>=-eq-ok (supported_providers model) _ h₃ in
        let (e', a₄, h₅) = >>=-eq-ok (environment_id environment) _ h₄ in
        let (b₅, h₆) = ensure-eq-ok (any (str_eq p') names) _ _ h₅ in
        let (platform, a₆, h₇) = >>=-eq-ok (providers_for_environment model e') _ h₆ in
        let (b₇, h₈) = ensure-eq-ok (any (str_eq p') platform) _ _ h₇ in
        let (systems, a₈, h₉) = >>=-eq-ok (supported_os provider) _ h₈ in
        let (b₉, k) = ensure-eq-ok (any (str_eq e') systems) _ _ h₉ in
        let (_, c, k₁) =
          >>=-eq-ok (check_environments e' (get evaluation "ci.supported_environments")) _ k in
        let (file, d, k₂) = >>=-eq-ok (manifest evaluation) _ k₁ in
        let found : Compatible p' e' = record {
          is_enabled = a ∙ ap ok on;
          by_model = (names, a₃, b₅);
          on_platform = (platform, a₆, b₇);
          by_provider = (systems, a₈, b₉);
          by_evaluation = (check_environments-Allows e' _).0 c;
          has_manifest = (file, d, ensure-true (machine.is_file (inside root file)) no_manifest k₂);
        } in
        subst (λ n. Compatible n e) (ok-injective (sym a₂ ∙ same_p))
          (subst (Compatible p') (ok-injective (sym a₄ ∙ same_e)) found)

    back :
        Compatible p e
        → validate_compatibility machine root model provider environment evaluation ≡ ok tt
    back c =
        let (names, a₃, b₅) = c.by_model in
        let (platform, a₆, b₇) = c.on_platform in
        let (systems, a₈, b₉) = c.by_provider in
        let (file, d, b) = c.has_manifest in
        >>=-ok (enabled provider) _ c.is_enabled (
          >>=-ok (provider_id provider) _ same_p (
            >>=-ok (supported_providers model) _ a₃ (
              >>=-ok (environment_id environment) _ same_e (
                >>=-ok (ensure (any (str_eq p) names) (unsupported_provider p e)) _ (ensure-ok _ b₅)
                  (>>=-ok (providers_for_environment model e) _ a₆ (
                    >>=-ok (ensure (any (str_eq p) platform) (unsupported_provider p e)) _
                      (ensure-ok _ b₇)
                      (>>=-ok (supported_os provider) _ a₈ (
                        >>=-ok (ensure (any (str_eq e) systems) (unsupported_provider p e)) _
                          (ensure-ok _ b₉)
                          (>>=-ok
                            (check_environments e (get evaluation "ci.supported_environments")) _
                            ((check_environments-Allows e _).1 c.by_evaluation)
                            (>>=-ok (manifest evaluation) _ d (ensure-ok no_manifest b)))))))))))
