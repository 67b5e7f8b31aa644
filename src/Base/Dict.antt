-- ===== src/Base/Dict.antt =====
-- Dictionaries from texts, as lists of items in the order of insertion.
use Prim.Native.String.{String}
use mathlib.Core.Path.{◌≡◌, refl, sym, subst, ◌∙◌}
use mathlib.Core.Option.{Option, none, some, some-injective}
use mathlib.Core.List.{List, [], ◌∷◌}
use mathlib.Core.Logic.{inl, inr}
use native.Mathlib.Omega.{arith}
use text.Mathlib.Text.{◌==◌ as str_eq}
use text.Mathlib.TextEquality.{eq_iff}
use jpapt_v2_2_inspection.Base.Tests.{if◌then◌else◌, Bool-cases}

module _ {A : Type 0} where
  -- `d.get(key)`
  unfoldable pub lookup : String → List (String × A) → Option A
  lookup key [] = none
  lookup key ((k, v) ∷ rest) = if str_eq k key then some v else lookup key rest

  -- `d[key] = value`
  unfoldable pub set : String → A → List (String × A) → List (String × A)
  set key value [] = (key, value) ∷ []
  set key value ((k, v) ∷ rest) =
      if str_eq k key then (k, value) ∷ rest else (k, v) ∷ set key value rest

  pub lookup-set :
      (key j : String) (value : A) (d : List (String × A))
      → lookup j (set key value d) ≡ (if str_eq key j then some value else lookup j d)
  unfolding lookup set
  lookup-set key j value [] = refl
  lookup-set key j value ((k, v) ∷ rest) =
      ground (arith, eq_iff k key, eq_iff k j, eq_iff key j, lookup-set key j value rest)

module _ {A : Type 0} (P : A → Type 0) where
  -- Every value of the dictionary has the property.
  abbrev pub Every : List (String × A) → Type 0
  Every d = (key : String) (value : A) → lookup key d ≡ some value → P value

  pub nil-Every : Every []
  unfolding lookup
  nil-Every key value h = cc

  pub set-Every :
      (key : String) (value : A) (d : List (String × A))
      → P value
      → Every d
      → Every (set key value d)
  set-Every key value d p all j v h = elim (Bool-cases (str_eq key j)) [
    | inl e ↦
        let now : lookup j (set key value d) ≡ some value = lookup-set key j value d ∙ rw e refl in
        subst P (some-injective _ _ (sym now ∙ h)) p
    | inr e ↦
        let kept : lookup j (set key value d) ≡ lookup j d = lookup-set key j value d ∙ rw e refl in
        all j v (sym kept ∙ h)
  ]
