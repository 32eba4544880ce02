-- ===== src/Prelude/Words.antt =====
-- Unsigned machine words as native numbers, and arrays as functions of the index.
use Prim.Native.Nat.{ℕ, ◌+◌, ◌-◌, ◌*◌, ◌/◌, ◌%◌, ◌^◌}
use mathlib.Core.Bool.{Bool}
use fuzzware_emulator.Prelude.Tests.{if◌then◌else◌, ◌==◌}

abbrev pub u8_mod : ℕ
u8_mod = 2 ^ 8

abbrev pub u32_mod : ℕ
u32_mod = 2 ^ 32

abbrev pub u64_mod : ℕ
u64_mod = 2 ^ 64

abbrev pub add32 : ℕ → ℕ → ℕ
add32 a b = (a + b) % u32_mod

abbrev pub sub32 : ℕ → ℕ → ℕ
sub32 a b = (a + u32_mod - b % u32_mod) % u32_mod

abbrev pub add64 : ℕ → ℕ → ℕ
add64 a b = (a + b) % u64_mod

-- `-` on ℕ stops at 0, so the modulus is added first.
abbrev pub sub64 : ℕ → ℕ → ℕ
sub64 a b = (a + u64_mod - b % u64_mod) % u64_mod

-- Bit `k` of `x`, as 0 or 1: `(x >> k) & 1`.
abbrev pub bit : ℕ → ℕ → ℕ
bit x k = x / 2 ^ k % 2

-- `x & (1 << k)` as a condition.
abbrev pub has_bit : ℕ → ℕ → Bool
has_bit x k = bit x k == 1

-- `x & ~(1 << k)`
abbrev pub clear_bit : ℕ → ℕ → ℕ
clear_bit x k = x - bit x k * 2 ^ k

-- `x | (1 << k)`
abbrev pub set_bit : ℕ → ℕ → ℕ
set_bit x k = clear_bit x k + 2 ^ k

-- `a[i] = v`
abbrev pub update {ℓ} : {A : Type ℓ} → (ℕ → A) → ℕ → A → ℕ → A
update a i v j = if j == i then v else a j
