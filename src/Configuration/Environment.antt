-- ===== src/Configuration/Environment.antt =====
-- config/environment.py: the environment that a run is configured for. `lower` is `str.lower`.
use jpapt_v2_2_inspection.Base.{
  ◌≡◌, refl, ◌↔◌, ◌⊎◌, subst, sym, String, Bool, true, false, Option, none, some, List, [], ◌∷◌,
  Result, ok, any, require, ap, ok-injective, str_eq, if◌then◌else◌, All, ◌∙◌, inl, inr, Bool-cases,
}
use mathlib.Core.Option.{some-injective}
use jpapt_v2_2_inspection.Base.Dict.{lookup}
use jpapt_v2_2_inspection.Contracts.Strip.{strip, lstrip, rstrip, is_empty}
use jpapt_v2_2_inspection.Configuration.Models.{ConfigError, unsupported_environment}

abbrev pub supported_environments : List String
supported_environments = "linux" ∷ "windows" ∷ "macos" ∷ []

abbrev aliases : List (String × String)
aliases =
    ("linux", "linux")
    ∷ ("ubuntu", "linux")
    ∷ ("wsl", "linux")
    ∷ ("wsl2", "linux")
    ∷ ("windows", "windows")
    ∷ ("win", "windows")
    ∷ ("win32", "windows")
    ∷ ("mac", "macos")
    ∷ ("macos", "macos")
    ∷ ("darwin", "macos")
    ∷ ("osx", "macos")
    ∷ []

unfoldable pub normalize_environment_id : (String → String) → String → Result ConfigError String
normalize_environment_id lower value =
    require (lookup (lower (strip value)) aliases) (unsupported_environment value)

abbrev systems : List (String × String)
systems = ("Linux", "linux") ∷ ("Windows", "windows") ∷ ("Darwin", "macos") ∷ []

-- `detect_environment_id`, from the environment variable and `platform.system()`.
unfoldable pub detect_environment_id :
    (String → String) → Option String → String → Result ConfigError String
detect_environment_id lower override system = elim override [
  | none ↦ require (lookup system systems) (unsupported_environment system)
  | some value ↦
      if is_empty value
      then require (lookup system systems) (unsupported_environment system)
      else normalize_environment_id lower value
]

-- What `lower` does to a text in small letters.
abbrev pub KeepsSmall : (String → String) → Type 0
KeepsSmall lower = All (λ name. lower name ≡ name) supported_environments

-- A value that a dictionary gives is one of its values.
lookup-All :
    (P : String → Type 0) (key : String) (d : List (String × String)) {value : String}
    → All (λ item. P item.1) d
    → lookup key d ≡ some value
    → P value
unfolding lookup
lookup-All P key [] all h = cc
lookup-All P key ((k, v) ∷ d) {value = value} all h = elim (Bool-cases (str_eq k key)) [
  | inl e ↦
      let here : lookup key ((k, v) ∷ d) ≡ some v = rw e refl in
      subst P (some-injective _ _ (sym here ∙ h)) all.0
  | inr e ↦
      let later : lookup key ((k, v) ∷ d) ≡ lookup key d = rw e refl in
      lookup-All P key d all.1 (sym later ∙ h)
]

required :
    {E : Type 0} (o : Option String) (e : E) {value : String}
    → require o e ≡ ok value
    → o ≡ some value
required none e h = cc
required (some value) e h = ap some (ok-injective h)

normalize_known :
    (lower : String → String) (name : String)
    → strip name ≡ name
    → lower name ≡ name
    → lookup name aliases ≡ some name
    → normalize_environment_id lower name ≡ ok name
unfolding normalize_environment_id
normalize_known lower name stripped small known = rw (stripped, small, known) refl

-- An identifier that the rest of the code accepts as it is.
abbrev pub IsNormal : (String → String) → String → Type 0
IsNormal lower name =
    (any (str_eq name) supported_environments ≡ true)
    × (normalize_environment_id lower name ≡ ok name)

module _ (lower : String → String) (small : KeepsSmall lower) where
  linux-IsNormal : IsNormal lower "linux"
  unfolding strip lstrip rstrip lookup
  linux-IsNormal = (refl, normalize_known lower "linux" refl small.0 refl)

  windows-IsNormal : IsNormal lower "windows"
  unfolding strip lstrip rstrip lookup
  windows-IsNormal = (refl, normalize_known lower "windows" refl small.1.0 refl)

  macos-IsNormal : IsNormal lower "macos"
  unfolding strip lstrip rstrip lookup
  macos-IsNormal = (refl, normalize_known lower "macos" refl small.1.1.0 refl)

  aliases-IsNormal : All (λ item. IsNormal lower item.1) aliases
  aliases-IsNormal =
      let l = linux-IsNormal in
      let w = windows-IsNormal in
      let m = macos-IsNormal in (l, (l, (l, (l, (w, (w, (w, (m, (m, (m, (m, tt)))))))))))

  pub normalize_environment_id-IsNormal :
      (value : String) {name : String}
      → normalize_environment_id lower value ≡ ok name
      → IsNormal lower name
  unfolding normalize_environment_id
  normalize_environment_id-IsNormal value h =
      lookup-All (IsNormal lower) (lower (strip value)) aliases aliases-IsNormal
        (required (lookup (lower (strip value)) aliases) (unsupported_environment value) h)

  system-IsNormal :
      (system : String) {name : String}
      → require (lookup system systems) (unsupported_environment system) ≡ ok name
      → IsNormal lower name
  system-IsNormal system h =
      lookup-All (IsNormal lower) system systems
        (linux-IsNormal, (windows-IsNormal, (macos-IsNormal, tt)))
        (required (lookup system systems) (unsupported_environment system) h)

  pub detect_environment_id-IsNormal :
      (override : Option String) (system : String) {name : String}
      → detect_environment_id lower override system ≡ ok name
      → IsNormal lower name
  unfolding detect_environment_id
  detect_environment_id-IsNormal none system h = system-IsNormal system h
  detect_environment_id-IsNormal (some value) system h = by_value (is_empty value) h
    where
      by_value :
          (empty : Bool) {name : String}
          → (if empty
              then require (lookup system systems) (unsupported_environment system)
              else normalize_environment_id lower value)
            ≡ ok name
          → IsNormal lower name
      by_value true h = system-IsNormal system h
      by_value false h = normalize_environment_id-IsNormal value h

-- What a name stands for: an alias, or the system where no override is set.
abbrev pub IsAlias : (String → String) → String → String → Type 0
IsAlias lower value name = lookup (lower (strip value)) aliases ≡ some name

abbrev pub IsDetected : (String → String) → Option String → String → String → Type 0
IsDetected lower none system name = lookup system systems ≡ some name
IsDetected lower (some value) system name =
    ((is_empty value ≡ true) × (lookup system systems ≡ some name))
    ⊎ ((is_empty value ≡ false) × IsAlias lower value name)

require_iff :
    (o : Option String) (e : ConfigError) (name : String)
    → (require o e ≡ ok name) ↔ (o ≡ some name)
require_iff o e name = (required o e, λ h. ap (λ p. require p e) h)

pub normalize_environment_id_iff :
    (lower : String → String) (value name : String)
    → (normalize_environment_id lower value ≡ ok name) ↔ IsAlias lower value name
unfolding normalize_environment_id
normalize_environment_id_iff lower value name =
    require_iff (lookup (lower (strip value)) aliases) (unsupported_environment value) name

pub detect_environment_id_iff :
    (lower : String → String) (override : Option String) (system name : String)
    → (detect_environment_id lower override system ≡ ok name)
      ↔ IsDetected lower override system name
unfolding detect_environment_id
detect_environment_id_iff lower none system name =
    require_iff (lookup system systems) (unsupported_environment system) name
detect_environment_id_iff lower (some value) system name = by_value (is_empty value)
  where
    by_value :
        (empty : Bool)
        → ((if empty
              then require (lookup system systems) (unsupported_environment system)
              else normalize_environment_id lower value)
            ≡ ok name)
          ↔ (((empty ≡ true) × (lookup system systems ≡ some name))
              ⊎ ((empty ≡ false) × IsAlias lower value name))
    by_value true = (
      λ h. inl (refl, required _ (unsupported_environment system) h),
      λ k. elim k [
        | inl a ↦ ap (λ o. require o (unsupported_environment system)) a.1
        | inr b ↦ let e = b.0 in cc
      ],
    )
    by_value false = (
      λ h. inr (refl, (normalize_environment_id_iff lower value name).0 h),
      λ k. elim k [
        | inl a ↦ let e = a.0 in cc
        | inr b ↦ (normalize_environment_id_iff lower value name).1 b.1
      ],
    )
