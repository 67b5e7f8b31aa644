-- ===== src/Base/Distinct.antt =====
-- Lists of texts without repetitions.
use jpapt_v2_2_inspection.Base.Tests.{Bool-cases}
use jpapt_v2_2_inspection.Base.Lists.{any, length}
use Prim.Native.String.{String}
use Prim.Native.Nat.{suc, ◌≤◌}
use mathlib.Core.Path.{◌≡◌, refl, sym, subst}
use mathlib.Core.Bool.{Bool, true, false, ◌||◌}
use mathlib.Core.Logic.{inl, inr}
use mathlib.Core.List.{List, [], ◌∷◌, ◌++◌}
use native.Mathlib.Omega.{arith}
use jpapt_v2_2_inspection.Base.Tests.{if◌then◌else◌}
use text.Mathlib.Text.{◌==◌ as str_eq}
use text.Mathlib.TextEquality.{eq_iff}

-- No text of the list stands in it twice.
abbrev pub Distinct : List String → Type 0
Distinct [] = Unit
Distinct (s ∷ rest) = (any (str_eq s) rest ≡ false) × Distinct rest

pub str_eq-sym : (s t : String) → str_eq s t ≡ false → str_eq t s ≡ false
str_eq-sym s t h = elim (Bool-cases (str_eq t s)) [
  | inl e ↦ absurd (true_false ((eq_iff s t).1 (sym ((eq_iff t s).0 e))))
  | inr e ↦ e
]
  where
    true_false : str_eq s t ≡ true → ⊥
    true_false k = cc

any-snoc :
    (s t : String) (ids : List String)
    → any (str_eq s) ids ≡ false
    → str_eq s t ≡ false
    → any (str_eq s) (ids ++ t ∷ []) ≡ false
any-snoc s t [] h k = rw k refl
any-snoc s t (id ∷ ids) h k = ground (arith, any-snoc s t ids)

pub Distinct-snoc :
    (t : String) (ids : List String)
    → Distinct ids
    → any (str_eq t) ids ≡ false
    → Distinct (ids ++ t ∷ [])
Distinct-snoc t [] d h = (refl, tt)
Distinct-snoc t (id ∷ ids) d h =
    let (a, b) : (str_eq t id ≡ false) × (any (str_eq t) ids ≡ false) = ground arith in
    (any-snoc id t ids d.0 (str_eq-sym t id a), Distinct-snoc t ids d.1 b)

-- `set(…)`, of texts.
unfoldable pub distinct : List String → List String
distinct [] = []
distinct (s ∷ rest) = let tail = distinct rest in if any (str_eq s) tail then tail else s ∷ tail

length-distinct-le : (ids : List String) → length (distinct ids) ≤ length ids
unfolding distinct
length-distinct-le [] = omega arith
length-distinct-le (s ∷ ids) = ground (arith, length-distinct-le ids)

pub any-distinct :
    (s : String) (ids : List String)
    → any (str_eq s) (distinct ids) ≡ false
    → any (str_eq s) ids ≡ false
unfolding distinct
any-distinct s [] h = refl
any-distinct s (t ∷ ids) h = elim (Bool-cases (any (str_eq t) (distinct ids))) [
  | inl e ↦
      let absent : any (str_eq s) (distinct ids) ≡ false = rw e at h in
      let other : str_eq s t ≡ false = not_same e absent in
      let rest = any-distinct s ids absent in rw (other, rest) refl
  | inr e ↦
      let (other, absent) = either (str_eq s t) (any (str_eq s) (distinct ids)) (rw e at h) in
      let rest = any-distinct s ids absent in rw (other, rest) refl
]
  where
    either : (a b : Bool) → (a || b) ≡ false → (a ≡ false) × (b ≡ false)
    either true b k = cc
    either false b k = (refl, k)

    not_same :
        any (str_eq t) (distinct ids) ≡ true
        → any (str_eq s) (distinct ids) ≡ false
        → str_eq s t ≡ false
    not_same e absent = elim (Bool-cases (str_eq s t)) [
      | inl same ↦
          let moved : any (str_eq s) (distinct ids) ≡ true =
            subst (λ u. any (str_eq u) (distinct ids) ≡ true) (sym ((eq_iff s t).0 same)) e in
          absurd (clash moved absent)
      | inr other ↦ other
    ]
      where
        clash : {b : Bool} → b ≡ true → b ≡ false → ⊥
        clash a b = cc

-- No repetition is left out where the set is as long as the list.
pub Distinct_of_length : (ids : List String) → length (distinct ids) ≡ length ids → Distinct ids
unfolding distinct
Distinct_of_length [] h = tt
Distinct_of_length (s ∷ ids) h = elim (Bool-cases (any (str_eq s) (distinct ids))) [
  | inl e ↦
      let short : length (distinct ids) ≡ suc (length ids) = rw e at h in
      absurd (omega (arith, length-distinct-le ids))
  | inr e ↦
      let whole : suc (length (distinct ids)) ≡ suc (length ids) = rw e at h in
      (any-distinct s ids e, Distinct_of_length ids (omega arith))
]
