-- ===== src/Base/Int.antt =====
-- The C type `int` as a signed integer over the native numbers. No operation here wraps; where the
-- daemon multiplies, `int32` wraps the product to 32 bits as the compiled code does.
use Prim.Native.Nat.{ℕ, zero, suc, ◌+◌, ◌-◌, ◌*◌, ◌%◌, ◌^◌, ◌≤◌, ◌<◌}
use mathlib.Core.Path.{◌≡◌}
use mathlib.Core.Logic.{◌↔◌}
use mathlib.Core.Bool.{Bool, true, ◌&&◌}
use native.Mathlib.Omega.{arith}
use pmlogdaemon.Base.Tests.{ltb, leb, ◌==◌, if◌then◌else◌}

-- `negsuc n` is -(n + 1).
pub data ℤ : Type 0 where
  pos : ℕ → ℤ
  negsuc : ℕ → ℤ

abbrev pub pos_part : ℤ → ℕ
pos_part (pos n) = n
pos_part (negsuc n) = 0

abbrev pub neg_part : ℤ → ℕ
neg_part (pos n) = 0
neg_part (negsuc n) = suc n

abbrev pub minus_one : ℤ
minus_one = negsuc 0

abbrev pub suc_ℤ : ℤ → ℤ
suc_ℤ (pos n) = pos (suc n)
suc_ℤ (negsuc zero) = pos 0
suc_ℤ (negsuc (suc n)) = negsuc n

abbrev pub pred_ℤ : ℤ → ℤ
pred_ℤ (pos zero) = negsuc 0
pred_ℤ (pos (suc n)) = pos n
pred_ℤ (negsuc n) = negsuc (suc n)

infix 50 ◌≤ℤ◌
abbrev pub ◌≤ℤ◌ : ℤ → ℤ → Type 0
a ≤ℤ b = pos_part a + neg_part b ≤ pos_part b + neg_part a

abbrev pub ltb_ℤ : ℤ → ℤ → Bool
ltb_ℤ a b = ltb (pos_part a + neg_part b) (pos_part b + neg_part a)

abbrev pub leb_ℤ : ℤ → ℤ → Bool
leb_ℤ a b = leb (pos_part a + neg_part b) (pos_part b + neg_part a)

abbrev pub eqb_ℤ : ℤ → ℤ → Bool
eqb_ℤ a b = (pos_part a == pos_part b) && (neg_part a == neg_part b)

pub eqb_ℤ_iff : (a b : ℤ) → (eqb_ℤ a b ≡ true) ↔ (a ≡ b)
eqb_ℤ_iff a b = ground arith

-- The `int` that a wider integer is cast to, by its low 32 bits; products wrap in the same way.
abbrev from_pattern : ℕ → ℤ
from_pattern w = if ltb w (2 ^ 31) then pos w else negsuc (2 ^ 32 - w - 1)

unfoldable pub int32 : ℤ → ℤ
int32 (pos n) = from_pattern (n % 2 ^ 32)
int32 (negsuc n) = from_pattern (2 ^ 32 - 1 - n % 2 ^ 32)

abbrev pub mul_ℤ : ℤ → ℕ → ℤ
mul_ℤ (pos n) m = pos (n * m)
mul_ℤ (negsuc n) zero = pos 0
mul_ℤ (negsuc n) (suc m) = negsuc (suc n * suc m - 1)

-- A number that an `int` holds is cast to itself.
pub int32_pos : (n : ℕ) → n < 2 ^ 31 → int32 (pos n) ≡ pos n
unfolding int32
int32_pos n h = ground arith

pub int32_negsuc : (n : ℕ) → n < 2 ^ 31 → int32 (negsuc n) ≡ negsuc n
unfolding int32
int32_negsuc n h = ground arith

-- A cast always gives a number that an `int` holds.
pub int32_range : (a : ℤ) → (pos_part (int32 a) < 2 ^ 31) × (neg_part (int32 a) ≤ 2 ^ 31)
unfolding int32
int32_range (pos n) = ground arith
int32_range (negsuc n) = ground arith
