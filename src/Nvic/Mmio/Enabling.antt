-- ===== src/Nvic/Mmio/Enabling.antt =====
-- A write to the set-enable registers, exception by exception.
use fuzzware_emulator.Prelude.{
  ℕ, zero, suc, ◌+◌, ◌*◌, ◌/◌, ◌%◌, ◌≤◌, ◌≡◌, refl, Bool, false, not, ◌&&◌, ◌||◌, ok, ◌==◌, arith,
  Bool-cases, inl, inr,
}
use fuzzware_emulator.Nvic.State.{Nvic, NvicConfig, num_supported}
use fuzzware_emulator.Nvic.Prio.{is_disabled_by_config, recalc_prios}
use fuzzware_emulator.Nvic.Enable.Fuzzable.{IsFuzzable, enable_irq-IsFuzzable}
use fuzzware_emulator.Nvic.Mmio.{for_bits, enable_step, write_register, Register, bit_base}

-- Whether bit `j - base` of `value`, one of the `count` low ones, is set.
abbrev pub bit_set : (base count value j : ℕ) → Bool
bit_set base zero value j = false
bit_set base (suc n) value j =
    ((j == base) && (value % 2 == 1)) || bit_set (base + 1) n (value / 2) j

module _ (config : NvicConfig) where
  enables :
      (left i value : ℕ) (b : Bool) (n : Nvic)
      → i + left ≤ num_supported
      → IsFuzzable n
      → (b' : Bool) × (n' : Nvic) × (for_bits (enable_step config) left i value (b, n)
          ≡ ok (b', n'))
        × IsFuzzable n'
        × ((j : ℕ)
            → n'.exception_enabled j ≡ (
                n.exception_enabled j
                || (bit_set i left value j && not (is_disabled_by_config config j))))
  unfolding for_bits enable_step
  enables zero i value b n in_bounds f = (b, n, refl, f, (λ j. ground arith))
  enables (suc left) i value b n in_bounds f = elim (Bool-cases (value % 2 == 1)) [
    | inr unset ↦
        let (b2, n2, eq2, f2, en2) = enables left (i + 1) (value / 2) b n (omega arith) f in
        (b2, n2, ground (arith, eq2), f2, (λ j. ground (arith, en2 j)))
    | inl is_set ↦
        let (b1, n1, eq1, f1, en1) = enable_irq-IsFuzzable config i n (omega arith) f in
        let (b2, n2, eq2, f2, en2) =
          enables left (i + 1) (value / 2) (b || b1) n1 (omega arith) f1 in
        (b2, n2, ground (arith, eq1, eq2), f2, (λ j. ground (arith, en1 j, en2 j)))
  ]

  -- A write to a set-enable register whose bits all stand for exceptions within the arrays
  -- succeeds: it enables exactly those exceptions whose bit is set and that the configuration
  -- does not disable, leaves the others as they were, and keeps the array that the fuzzer chooses
  -- from sorted and exact.
  pub write_iser-enables :
      (off size value : ℕ) (n : Nvic)
      → bit_base off + size * 8 ≤ num_supported
      → IsFuzzable n
      → (n' : Nvic) × (write_register config Register.iser off size value n ≡ ok n')
        × IsFuzzable n'
        × ((j : ℕ)
            → n'.exception_enabled j ≡ (
                n.exception_enabled j
                || (bit_set (bit_base off) (size * 8) value j
                    && not (is_disabled_by_config config j))))
  unfolding write_register recalc_prios
  write_iser-enables off size value n in_bounds f =
      let (b, n', eq, f', en) = enables (size * 8) (bit_base off) value false n in_bounds f in
      elim (Bool-cases b) [
        | inl needed ↦ (
          (recalc_prios n').1,
          ground (arith, eq, needed),
          record { sorted = f'.sorted; exact = f'.exact; below = f'.below },
          en,
        )
        | inr cached ↦ (n', ground (arith, eq, cached), f', en)
      ]
