-- ===== src/Nvic/Mmio/Registers.antt =====
-- What the bit registers of the NVIC read and write, one exception to a bit.
use fuzzware_emulator.Prelude.{
  ℕ, zero, suc, ◌+◌, ◌*◌, ◌%◌, ◌^◌, ◌≤◌, ◌<◌, ◌≡◌, ap, ◌∙◌, Bool, true, false, ok, halt, Halt,
  arith, u32_mod,
}
use native.Mathlib.Nat.{mul-le-mul_right, pow-le-pow_right}
use fuzzware_emulator.Nvic.State.{num_supported}
use fuzzware_emulator.Nvic.Mmio.{read_flags, flag}

-- The flags of `count` exceptions from `base` on, the first in the lowest bit.
abbrev pub packed : (ℕ → Bool) → (base count : ℕ) → ℕ
packed flags base zero = 0
packed flags base (suc n) = packed flags base n + flag (flags (base + n)) * 2 ^ n

pow_pos : (n : ℕ) → 1 ≤ 2 ^ n
pow_pos zero = omega arith
pow_pos (suc n) = omega (arith, pow_pos n)

no_carry :
    (out f p : ℕ)
    → f ≤ 1
    → 1 ≤ p
    → (out + 1) * (2 * p) ≤ u32_mod
    → (out * 2 % u32_mod ≡ out * 2) × ((out * 2 + f + 1) * p ≤ u32_mod)
no_carry out f p bit_f one h = (
  omega (arith, mul-le-mul_right (2 * (out + 1)) one, h),
  omega (arith, mul-le-mul_right {m = out * 2 + f + 1} {n = out * 2 + 2} p (omega arith), h),
)

shift_out : (out f p rest : ℕ) → (out * 2 + f) * p + rest ≡ out * (2 * p) + (rest + f * p)
shift_out out f p rest = grind arith

flag-le : (b : Bool) → flag b ≤ 1
flag-le true = omega arith
flag-le false = omega arith

read_flags_from :
    (flags : ℕ → Bool) (base left out : ℕ)
    → base + left ≤ num_supported
    → (out + 1) * 2 ^ left ≤ u32_mod
    → read_flags flags base left out ≡ ok (out * 2 ^ left + packed flags base left)
unfolding read_flags
read_flags_from flags base zero out in_bounds fits = ap ok (omega arith)
read_flags_from flags base (suc n) out in_bounds fits =
    let f = flag (flags (base + n)) in
    let (no_wrap, fits') = no_carry out f (2 ^ n) (flag-le _) (pow_pos n) (grind (arith, fits)) in
    let step : read_flags flags base (suc n) out
        ≡ ok ((out * 2 + f) * 2 ^ n + packed flags base n) =
      ground (arith, no_wrap, read_flags_from flags base n (out * 2 + f) (omega arith) fits') in
    step
    ∙ ap ok (
        shift_out out f (2 ^ n) (packed flags base n)
        ∙ ap (λ p. out * p + packed flags base (suc n)) (omega arith))

reads_past :
    (flags : ℕ → Bool) (base left : ℕ)
    → num_supported < base + left
    → 0 < left
    → read_flags flags base left 0 ≡ halt Halt.out_of_bounds
unfolding read_flags
reads_past flags base zero past some = absurd (omega arith)
reads_past flags base (suc n) past some = ground arith

-- Reading the flags of exceptions within the arrays gives them packed into one number, and an
-- exception past the arrays ends the run.
pub read_flags-packed :
    (flags : ℕ → Bool) (base left : ℕ)
    → left ≤ 32
    → (base + left ≤ num_supported → read_flags flags base left 0 ≡ ok (packed flags base left))
      × (num_supported < base + left
          → 0 < left
          → read_flags flags base left 0 ≡ halt Halt.out_of_bounds)
unfolding read_flags
read_flags-packed flags base left small = (
  (λ h.
      read_flags_from flags base left 0 h
        (omega (arith, pow-le-pow_right {n = 2} (omega arith) small))
      ∙ ap ok (omega arith)),
  (λ past some. reads_past flags base left past some),
)
