-- ===== src/Configuration/Resolver/Merged.antt =====
-- Reading the composed configuration of config/merge.py.
use jpapt_v2_2_inspection.Base.{
  ◌≡◌, refl, ap, ◌∙◌, String, Bool, true, false, not, ◌&&◌, some, ◌∷◌, ok, ◌==◌, arith,
}
use Prim.Native.String.{◌++◌}
use Prim.Native.String.append
use Prim.Native.Char.{code}
use jpapt_v2_2_inspection.Base.Json.{str, obj, Fields, end, field, find}
use jpapt_v2_2_inspection.Configuration.Models.{
  BaseConfig, get, get_nested, get_parts, split_dots, model_id, provider_id, environment_id,
  evaluation_id,
}
use jpapt_v2_2_inspection.Configuration.Resolver.{compose_config, resolved_ids}

abbrev dotless : String → Bool
dotless String.[] = true
dotless (String.◌∷◌ c s) = not (code c == 46) && dotless s

split_dots-dot :
    (name key : String)
    → dotless name ≡ true
    → split_dots (name ++ ("." ++ key)) ≡ name ∷ split_dots key
unfolding split_dots
split_dots-dot String.[] key h =
    rw (append.nil ("." ++ key), append.cons _ "" key, append.nil key) refl
split_dots-dot (String.◌∷◌ c s) key h =
    let (a, b) : ((code c == 46) ≡ false) × (dotless s ≡ true) = ground arith in
    rw (append.cons c s ("." ++ key), a, split_dots-dot s key b) refl

get_nested-inside :
    (name key : String) (raw merged : Fields)
    → dotless name ≡ true
    → find name merged ≡ some (obj raw)
    → get_nested merged (name ++ ("." ++ key)) ≡ get_nested raw key
unfolding get_nested get_parts
get_nested-inside name key raw merged h k =
    ap (λ parts. get_parts parts (obj merged)) (split_dots-dot name key h) ∙ rw (k, get_parts) refl

-- The dictionary that the four files and their ids give.
abbrev pub composed :
    BaseConfig → BaseConfig → BaseConfig → BaseConfig → String → String → String → String → Fields
composed model provider environment evaluation m p n v = field "model" (obj model.raw) (
    field "provider" (obj provider.raw) (
      field "environment" (obj environment.raw)
        (field "evaluation" (obj evaluation.raw) (field "resolved" (resolved_ids m p n v) end))))

pub compose_config-composed :
    (model provider environment evaluation : BaseConfig) {m p n v : String}
    → model_id model ≡ ok m
    → provider_id provider ≡ ok p
    → environment_id environment ≡ ok n
    → evaluation_id evaluation ≡ ok v
    → compose_config model provider environment evaluation
      ≡ ok (composed model provider environment evaluation m p n v)
unfolding compose_config find
compose_config-composed model provider environment evaluation a b c d = rw (a, b, c, d) refl

module _ (model provider environment evaluation : BaseConfig) (m p n v : String) where
  abbrev merged : Fields
  merged = composed model provider environment evaluation m p n v

  pub composed-namespace :
      (key : String)
      → (get_nested merged ("model" ++ ("." ++ key)) ≡ get model key)
        × (get_nested merged ("provider" ++ ("." ++ key)) ≡ get provider key)
        × (get_nested merged ("environment" ++ ("." ++ key)) ≡ get environment key)
        × (get_nested merged ("evaluation" ++ ("." ++ key)) ≡ get evaluation key)
  unfolding find
  composed-namespace key = (
    get_nested-inside "model" key model.raw merged refl refl,
    get_nested-inside "provider" key provider.raw merged refl refl,
    get_nested-inside "environment" key environment.raw merged refl refl,
    get_nested-inside "evaluation" key evaluation.raw merged refl refl,
  )

  pub composed-resolved :
      (get_nested merged "resolved.model_id" ≡ some (str m))
      × (get_nested merged "resolved.provider_id" ≡ some (str p))
      × (get_nested merged "resolved.environment_id" ≡ some (str n))
      × (get_nested merged "resolved.evaluation_id" ≡ some (str v))
  unfolding get_nested get_parts split_dots find
  composed-resolved = (refl, refl, refl, refl)
