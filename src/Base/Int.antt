-- ===== src/Base/Int.antt =====
-- Signed integers over the native numbers, with the tests that the program makes on them.
use Prim.Native.Nat.{ℕ}
use mathlib.Core.Path.{◌≡◌, refl}
use mathlib.Core.Logic.{◌↔◌}
use mathlib.Core.Bool.{Bool, true, false}
use native.Mathlib.Omega.{arith}
use jpapt_v2_2_inspection.Base.Sorting.{IsTotalOrder}
use jpapt_v2_2_inspection.Base.Tests.{ltb, leb, ◌==◌}

-- `negsuc n` is -(n + 1).
pub data ℤ : Type 0 where
  pos : ℕ → ℤ
  negsuc : ℕ → ℤ

abbrev pub is_negative : ℤ → Bool
is_negative (pos n) = false
is_negative (negsuc n) = true

-- The number of a non-negative integer.
abbrev pub to_ℕ : ℤ → ℕ
to_ℕ (pos n) = n
to_ℕ (negsuc n) = 0

-- `a <= n` and `a < n`, for a number `n`.
abbrev pub leb_ℤ : ℤ → ℕ → Bool
leb_ℤ (pos a) n = leb a n
leb_ℤ (negsuc a) n = true

abbrev pub ltb_ℤ : ℤ → ℕ → Bool
ltb_ℤ (pos a) n = ltb a n
ltb_ℤ (negsuc a) n = true

abbrev pub eq_ℤ : ℤ → ℤ → Bool
eq_ℤ (pos a) (pos b) = a == b
eq_ℤ (negsuc a) (negsuc b) = a == b
eq_ℤ _ _ = false

pub eq_ℤ_iff : (a b : ℤ) → (eq_ℤ a b ≡ true) ↔ (a ≡ b)
eq_ℤ_iff (pos a) (pos b) = ground arith
eq_ℤ_iff (negsuc a) (negsuc b) = ground arith
eq_ℤ_iff (pos a) (negsuc b) = ground arith
eq_ℤ_iff (negsuc a) (pos b) = ground arith

-- `a <= b`
abbrev pub le_ℤ : ℤ → ℤ → Bool
le_ℤ (pos a) (pos b) = leb a b
le_ℤ (pos a) (negsuc b) = false
le_ℤ (negsuc a) (pos b) = true
le_ℤ (negsuc a) (negsuc b) = leb b a

le_ℤ_trans : (a b c : ℤ) → le_ℤ a b ≡ true → le_ℤ b c ≡ true → le_ℤ a c ≡ true
le_ℤ_trans (pos a) (pos b) (pos c) h k = ground arith
le_ℤ_trans (pos a) (pos b) (negsuc c) h k = cc
le_ℤ_trans (pos a) (negsuc b) c h k = cc
le_ℤ_trans (negsuc a) b (pos c) h k = refl
le_ℤ_trans (negsuc a) (pos b) (negsuc c) h k = cc
le_ℤ_trans (negsuc a) (negsuc b) (negsuc c) h k = ground arith

le_ℤ_flip : (a b : ℤ) → le_ℤ a b ≡ false → le_ℤ b a ≡ true
le_ℤ_flip (pos a) (pos b) h = ground arith
le_ℤ_flip (pos a) (negsuc b) h = refl
le_ℤ_flip (negsuc a) (pos b) h = cc
le_ℤ_flip (negsuc a) (negsuc b) h = ground arith

pub le_ℤ-order : IsTotalOrder le_ℤ
le_ℤ-order = record { trans = le_ℤ_trans; flip = le_ℤ_flip }
