-- ===== src/Configuration/Resolver/Resolved.antt =====
-- What config/resolver.py promises of a configuration that it resolves.
use jpapt_v2_2_inspection.Base.{
  ◌≡◌, refl, sym, subst, ap, ◌∙◌, String, true, Option, none, some, ok, ◌↔◌, >>=-eq-ok, >>=-ok,
  ok-injective, any, str_eq,
}
use jpapt_v2_2_inspection.Base.Json.{str, Fields}
use Prim.Native.String.{◌++◌}
use jpapt_v2_2_inspection.Configuration.Models.{
  FilePath, get, get_nested, model_id, provider_id, environment_id, evaluation_id,
}
use jpapt_v2_2_inspection.Configuration.Environment.{
  IsAlias, IsDetected, normalize_environment_id_iff, detect_environment_id_iff,
  normalize_environment_id, KeepsSmall, IsNormal, normalize_environment_id-IsNormal,
  detect_environment_id-IsNormal, supported_environments,
}
use jpapt_v2_2_inspection.Configuration.Resolver.{
  Machine, config_file, load_model, load_provider, load_environment, load_evaluation,
  ResolvedConfig, chosen_environment, resolve, validate_compatibility, compose_config,
}
use jpapt_v2_2_inspection.Configuration.Resolver.Merged.{
  composed, compose_config-composed, composed-namespace, composed-resolved,
}
use jpapt_v2_2_inspection.Configuration.Resolver.Read.{IsRead, load_config-IsRead, load_config-ok}
use jpapt_v2_2_inspection.Configuration.Resolver.Compatible.{
  IsCompatible, validate_compatibility_iff,
}

-- If lower leaves the names of the three environments as they are: the environment that the
-- caller's text, the override variable or the system's name gives is one of the three, and
-- normalizing it again gives it back.
pub chosen_environment-IsNormal :
    (machine : Machine)
    → KeepsSmall machine.lower
    → (asked : Option String) {name : String} → chosen_environment machine asked ≡ ok name
    → IsNormal machine.lower name
chosen_environment-IsNormal machine small none h =
    detect_environment_id-IsNormal machine.lower small machine.override machine.system h
chosen_environment-IsNormal machine small (some value) h =
    normalize_environment_id-IsNormal machine.lower small value h

-- The environment that the caller's text stands for, or without one that of the machine.
abbrev pub IsChosen : Machine → Option String → String → Type 0
IsChosen machine (some value) name = IsAlias machine.lower value name
IsChosen machine none name = IsDetected machine.lower machine.override machine.system name

chosen_environment_iff :
    (machine : Machine) (asked : Option String) (name : String)
    → (chosen_environment machine asked ≡ ok name) ↔ IsChosen machine asked name
chosen_environment_iff machine none name =
    detect_environment_id_iff machine.lower machine.override machine.system name
chosen_environment_iff machine (some value) name =
    normalize_environment_id_iff machine.lower value name

-- The four configs are those of the named files, may be used together, and are composed.
pub record IsResolved (machine : Machine) (root : FilePath) (m p v : String) (asked : Option String)
    (config : ResolvedConfig) (n : String) : Type 0 where
  pub rooted : config.repository_root ≡ root
  pub chosen : IsChosen machine asked n
  pub supported : any (str_eq n) supported_environments ≡ true
  pub model_read : IsRead machine model_id (config_file root "models" m) m config.model
  pub provider_read : IsRead machine provider_id (config_file root "providers" p) p config.provider
  pub environment_read :
      IsRead machine environment_id (config_file root "environments" n) n config.environment
  pub evaluation_read :
      IsRead machine evaluation_id (config_file root "evaluation" v) v config.evaluation
  pub compatible : IsCompatible machine root config.model config.provider config.evaluation p n
  pub merged_is :
      config.merged
      ≡ composed config.model config.provider config.environment config.evaluation m p n v

resolve-IsResolved :
    (machine : Machine) (root : FilePath) (m p v : String) (asked : Option String)
    (config : ResolvedConfig)
    → KeepsSmall machine.lower
    → resolve machine root m p v asked ≡ ok config
    → (n : String) × IsResolved machine root m p v asked config n
unfolding resolve
resolve-IsResolved machine root m p v asked config small h =
    let (n, a, h₁) = >>=-eq-ok (chosen_environment machine asked) _ h in
    let (model, b, h₂) = >>=-eq-ok (load_model machine root m) _ h₁ in
    let (provider, c, h₃) = >>=-eq-ok (load_provider machine root p) _ h₂ in
    let (environment, d, h₄) = >>=-eq-ok (load_environment machine root n) _ h₃ in
    let (evaluation, e, h₅) = >>=-eq-ok (load_evaluation machine root v) _ h₄ in
    let (_, f, h₆) =
      >>=-eq-ok (validate_compatibility machine root model provider environment evaluation) _ h₅ in
    let (merged, g, h₇) = >>=-eq-ok (compose_config model provider environment evaluation) _ h₆ in
    let (supported, again) = chosen_environment-IsNormal machine small asked a in
    let (n', d₁, d₂) = >>=-eq-ok (normalize_environment_id machine.lower n) _ d in
    let m_read = load_config-IsRead machine _ model_id m b in
    let p_read = load_config-IsRead machine _ provider_id p c in
    let n_read =
      subst (λ k. IsRead machine environment_id (config_file root "environments" k) k environment)
        (ok-injective (sym d₁ ∙ again)) (load_config-IsRead machine _ environment_id n' d₂) in
    let v_read = load_config-IsRead machine _ evaluation_id v e in
    let resolved : IsResolved machine root m p v asked _ n = record {
      rooted = refl;
      chosen = (chosen_environment_iff machine asked n).0 a;
      supported = supported;
      model_read = m_read;
      provider_read = p_read;
      environment_read = n_read;
      evaluation_read = v_read;
      compatible =
          (validate_compatibility_iff machine root model provider environment evaluation p n
              p_read.named n_read.named).0
            f;
      merged_is = ok-injective (
          sym g
          ∙ compose_config-composed model provider environment evaluation m_read.named p_read.named
              n_read.named v_read.named);
    } in
    (n, subst (λ c. IsResolved machine root m p v asked c n) (ok-injective h₇) resolved)

IsResolved-resolve :
    (machine : Machine) (root : FilePath) (m p v : String) (asked : Option String)
    (config : ResolvedConfig) (n : String)
    → KeepsSmall machine.lower
    → IsResolved machine root m p v asked config n
    → resolve machine root m p v asked ≡ ok config
unfolding resolve
IsResolved-resolve machine root m p v asked config n small r =
    let chosen = (chosen_environment_iff machine asked n).1 r.chosen in
    let (_, again) = chosen_environment-IsNormal machine small asked chosen in
    let made : ResolvedConfig = record {
      repository_root = root;
      model = config.model;
      provider = config.provider;
      environment = config.environment;
      evaluation = config.evaluation;
      merged = composed config.model config.provider config.environment config.evaluation m p n v;
    } in
    let same : made ≡ config = λ i. record {
      repository_root = sym r.rooted i;
      model = config.model;
      provider = config.provider;
      environment = config.environment;
      evaluation = config.evaluation;
      merged = sym r.merged_is i;
    } in
    >>=-ok (chosen_environment machine asked) _ chosen (
      >>=-ok (load_model machine root m) _ (load_config-ok machine _ model_id m _ r.model_read) (
        >>=-ok (load_provider machine root p) _
          (load_config-ok machine _ provider_id p _ r.provider_read)
          (>>=-ok (load_environment machine root n) _
            (>>=-ok (normalize_environment_id machine.lower n) _ again
              (load_config-ok machine _ environment_id n _ r.environment_read))
            (>>=-ok (load_evaluation machine root v) _
              (load_config-ok machine _ evaluation_id v _ r.evaluation_read)
              (>>=-ok
                (validate_compatibility machine root config.model config.provider config.environment
                  config.evaluation)
                _
                ((validate_compatibility_iff machine root config.model config.provider
                    config.environment config.evaluation p n r.provider_read.named
                    r.environment_read.named).1
                  r.compatible)
                (>>=-ok
                  (compose_config config.model config.provider config.environment config.evaluation)
                  _
                  (compose_config-composed config.model config.provider config.environment
                    config.evaluation r.model_read.named r.provider_read.named
                    r.environment_read.named r.evaluation_read.named)
                  (ap ok same)))))))

-- If lower leaves the names of the three environments as they are: resolve returns a configuration
-- exactly if there is a supported environment, the one that the caller's text or the machine
-- stands for, such that the four configs are those of the files named for the model, the
-- provider, the environment and the suite, each file a table of schema version 1 (or true) with
-- the id of its name; the provider is enabled, and in the model's two lists, as the environment
-- is in the provider's and, unless that is missing or empty, in the suite's; the suite's
-- manifest is a file; and the dictionary is the four tables with their ids.
pub resolve_iff :
    (machine : Machine) (root : FilePath) (m p v : String) (asked : Option String)
    (config : ResolvedConfig)
    → KeepsSmall machine.lower
    → (resolve machine root m p v asked ≡ ok config)
      ↔ ((n : String) × IsResolved machine root m p v asked config n)
resolve_iff machine root m p v asked config small = (
  resolve-IsResolved machine root m p v asked config small,
  λ (n, r). IsResolved-resolve machine root m p v asked config n small r,
)

-- What the composed dictionary answers: each file's answer below the file's name, and the ids.
abbrev pub Answers : ResolvedConfig → (key m p v : String) → Fields → Type 0
Answers config key m p v merged =
    (get_nested merged ("model" ++ ("." ++ key)) ≡ get config.model key)
    × (get_nested merged ("provider" ++ ("." ++ key)) ≡ get config.provider key)
    × (get_nested merged ("environment" ++ ("." ++ key)) ≡ get config.environment key)
    × (get_nested merged ("evaluation" ++ ("." ++ key)) ≡ get config.evaluation key)
    × (get_nested merged "resolved.model_id" ≡ some (str m))
    × (get_nested merged "resolved.provider_id" ≡ some (str p))
    × (get_nested merged "resolved.evaluation_id" ≡ some (str v))

-- If lower leaves the names of the three environments as they are and a configuration resolves:
-- its dictionary answers a dotted key below the name of a config as that config answers the key,
-- and under resolved it has the ids of the model, the provider and the suite that were asked for.
pub resolve-get_nested :
    (machine : Machine) (root : FilePath) (m p v : String) (asked : Option String)
    (config : ResolvedConfig) (key : String)
    → KeepsSmall machine.lower
    → resolve machine root m p v asked ≡ ok config
    → Answers config key m p v config.merged
resolve-get_nested machine root m p v asked config key small h =
    let (n, r) = resolve-IsResolved machine root m p v asked config small h in
    let (a, b, c, d) =
      composed-namespace config.model config.provider config.environment config.evaluation m p n v
        key in
    let (e, f, _, g) =
      composed-resolved config.model config.provider config.environment config.evaluation m p n v in
    subst (Answers config key m p v) (sym r.merged_is) (a, b, c, d, e, f, g)
