-- ===== src/Prelude/Int.antt =====
-- Signed integers over the native numbers, for the exception priorities.
use Prim.Native.Nat.{ℕ, suc, ◌+◌, ◌-◌, ◌≤◌, ◌<◌, ◌^◌}
use mathlib.Core.Bool.{Bool}
use fuzzware_emulator.Prelude.Tests.{ltb}

-- `negsuc n` is -(n + 1).
pub data ℤ : Type 0 where
  pos : ℕ → ℤ
  negsuc : ℕ → ℤ

abbrev pub pos_part : ℤ → ℕ
pos_part (pos n) = n
pos_part (negsuc n) = 0

abbrev pub neg_part : ℤ → ℕ
neg_part (pos n) = 0
neg_part (negsuc n) = suc n

infix 50 ◌<ℤ◌ ◌≤ℤ◌
abbrev pub ◌<ℤ◌ : ℤ → ℤ → Type 0
a <ℤ b = pos_part a + neg_part b < pos_part b + neg_part a

abbrev pub ◌≤ℤ◌ : ℤ → ℤ → Type 0
a ≤ℤ b = pos_part a + neg_part b ≤ pos_part b + neg_part a

abbrev pub ltb_int : ℤ → ℤ → Bool
ltb_int a b = ltb (pos_part a + neg_part b) (pos_part b + neg_part a)

-- The bit pattern of an `int`.
abbrev pub to_u32 : ℤ → ℕ
to_u32 (pos n) = n
to_u32 (negsuc n) = 2 ^ 32 - 1 - n
