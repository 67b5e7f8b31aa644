-- ===== src/Base/Text.antt =====
-- The order in which Python sorts texts: by code points, a prefix first.
use Prim.Native.Nat.{ℕ}
use Prim.Native.Char.{code}
use Prim.Native.String.{String}
use mathlib.Core.Path.{◌≡◌, refl}
use mathlib.Core.Bool.{Bool, true, false, ◌&&◌, ◌||◌}
use mathlib.Core.List.{List, [], ◌∷◌}
use native.Mathlib.Omega.{arith}
use jpapt_v2_2_inspection.Base.Tests.{ltb, ◌==◌}
use jpapt_v2_2_inspection.Base.Sorting.{IsTotalOrder}

-- The code points of a text.
unfoldable pub codes : String → List ℕ
codes String.[] = []
codes (String.◌∷◌ c s) = code c ∷ codes s

unfoldable pub leb_codes : List ℕ → List ℕ → Bool
leb_codes [] t = true
leb_codes (a ∷ s) [] = false
leb_codes (a ∷ s) (b ∷ t) = ltb a b || (a == b && leb_codes s t)

-- `s <= t` on texts.
unfoldable pub leb_text : String → String → Bool
unfolding codes leb_codes
leb_text s t = leb_codes (codes s) (codes t)

leb_codes_trans :
    (s t u : List ℕ) → leb_codes s t ≡ true → leb_codes t u ≡ true → leb_codes s u ≡ true
unfolding leb_codes
leb_codes_trans [] t u h k = refl
leb_codes_trans (a ∷ s) [] u h k = cc
leb_codes_trans (a ∷ s) (b ∷ t) [] h k = cc
leb_codes_trans (a ∷ s) (b ∷ t) (c ∷ u) h k = ground (arith, leb_codes_trans s t u)

leb_codes-flip : (s t : List ℕ) → leb_codes s t ≡ false → leb_codes t s ≡ true
unfolding leb_codes
leb_codes-flip [] t h = cc
leb_codes-flip (a ∷ s) [] h = refl
leb_codes-flip (a ∷ s) (b ∷ t) h = ground (arith, leb_codes-flip s t)

pub leb_codes-order : IsTotalOrder leb_codes
leb_codes-order = record { trans = leb_codes_trans; flip = leb_codes-flip }

pub leb_text-order : IsTotalOrder leb_text
unfolding leb_text
leb_text-order = record {
  trans = λ s t u. leb_codes_trans (codes s) (codes t) (codes u);
  flip = λ s t. leb_codes-flip (codes s) (codes t);
}
