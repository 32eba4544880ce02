-- ===== src/Nvic/Tests.antt =====
-- Concrete interrupt controllers on which the theorems about cortexm_nvic.c are applied.
use fuzzware_emulator.Prelude.{
  ◌≢◌, ℕ, ◌+◌, ◌*◌, ◌%◌, ◌^◌, ◌≤◌, ◌<◌, ◌≡◌, refl, ◌⊎◌, inr, Bool, true, false, not, ◌&&◌, ◌||◌, [],
  ◌∷◌, ok, halt, Halt, arith, ◌==◌, if◌then◌else◌, pos,
}
use fuzzware_emulator.Engine.{err_ok}
use fuzzware_emulator.Chip.{Chip, zero_chip, chip_engine, chip_engine-IsFaithful}
use fuzzware_emulator.Nvic.State.{
  nvic_lowest_prio, exception_no_nmi, Nvic, NvicConfig, zero_nvic, nvic_none_active, num_supported,
  exception_no_external_start, is_default_enabled,
}
use fuzzware_emulator.Nvic.Prio.{
  scan_all, scan_from, recalc_prios, pend_interrupt, is_disabled_by_config,
}
use fuzzware_emulator.Nvic.Prio.Cached.{IsCached, recalc_prios-IsCached, pend_interrupt-IsCached}
use fuzzware_emulator.Nvic.Enable.{enable_irq, disable_irq, nth_enabled_irq_num}
use fuzzware_emulator.Nvic.Enable.Fuzzable.{
  IsFuzzable, enable_irq-IsFuzzable, disable_irq-IsFuzzable, nth_enabled_irq_num-enabled,
  enable_irq_misses_pending,
}
use fuzzware_emulator.Nvic.Mmio.{
  set_prios, recalc_if, hook_nvic_mmio_write, write_register, register_at, nvic_base, prio_base,
}
use fuzzware_emulator.Nvic.Mmio.Lazy.{IsScanned, hook_nvic_mmio_write-IsScanned}
use fuzzware_emulator.Nvic.Exception.{
  Cpu, SavedRegs, read_batch, push_stack, pop_stack, exception_entry, exception_return,
  nvic_block_hook,
}
use fuzzware_emulator.Nvic.Exception.Frame.{pushed_xpsr, pop_stack-push_stack}
use fuzzware_emulator.Nvic.Exception.Nesting.{IsSingle, reaches_limit, exception_entry-IsSingle}
use fuzzware_emulator.Nvic.Exception.Returning.{
  Deactivated, TailChained, Popped, exception_return_lem,
}
use fuzzware_emulator.Nvic.Exception.BlockHook.{nvic_block_hook_enters, nvic_block_hook_misses}
use fuzzware_emulator.Nvic.Mmio.{nvic_base, Register, read_flags, write_register, bit_base}
use fuzzware_emulator.Nvic.Mmio.Registers.{packed, read_flags-packed}
use fuzzware_emulator.Nvic.Mmio.Faults.{pend_interrupt_misses_nmi}
use fuzzware_emulator.Nvic.Mmio.Enabling.{bit_set, write_iser-enables}

abbrev no_config : NvicConfig
no_config = record { interrupt_limit = 1000; config_disabled_interrupts = 33 ∷ [] }

-- Interrupts 20 and 37 are enabled, 20 is pending at priority 64, and nothing is active.
abbrev waiting : Nvic
waiting = record zero_nvic {
  highest_ever_enabled_exception_no = 37;
  active_group_prio = 256;
  pending_prio = pos 64;
  pending_irq = 20;
  exception_enabled = λ i. if is_default_enabled i then true else (i == 20) || (i == 37);
  exception_pending = λ i. i == 20;
  exception_priority = λ i. if i == 20 then pos 64 else pos 0;
  enabled_irqs = 20 ∷ 37 ∷ [];
}

waiting-IsCached : IsCached waiting
waiting-IsCached = inr (record {
  from = omega arith;
  to = omega arith;
  pending = refl;
  priority = refl;
  visible = omega arith;
  highest = λ j l h p. ground (arith, p);
  lowest_number = λ j l h p. ground (arith, p);
})

waiting-IsFuzzable : IsFuzzable waiting
waiting-IsFuzzable = record {
  sorted = (omega arith, (omega arith, tt));
  exact = λ i ge. ground arith;
  below = λ i on. ground (arith, on);
}

waiting-IsSingle : IsSingle waiting
waiting-IsSingle i = ground arith

recalc_prios_example : IsCached (recalc_prios (record waiting { pending_irq = 0 })).1
recalc_prios_example = recalc_prios-IsCached (record waiting { pending_irq = 0 }) (omega arith)

pend_interrupt_example :
    IsCached (pend_interrupt 37 waiting)
    × ((j : ℕ)
        → (pend_interrupt 37 waiting).exception_pending j
          ≡ ((j == 37) || waiting.exception_pending j))
pend_interrupt_example = pend_interrupt-IsCached waiting 37 (omega arith) waiting-IsCached

enable_irq_example :
    (b : Bool) × (n' : Nvic) × (enable_irq no_config 30 waiting ≡ ok (b, n'))
    × IsFuzzable n'
    × ((j : ℕ)
        → n'.exception_enabled j ≡ (
            if (j == 30) && not (is_disabled_by_config no_config 30)
            then true
            else waiting.exception_enabled j))
enable_irq_example = enable_irq-IsFuzzable no_config 30 waiting (omega arith) waiting-IsFuzzable

disable_irq_example :
    (n' : Nvic) × (disable_irq 20 waiting
      ≡ ok (waiting.exception_enabled 20 && (20 == waiting.pending_irq), n'))
    × IsFuzzable n'
    × ((j : ℕ) → n'.exception_enabled j ≡ (if j == 20 then false else waiting.exception_enabled j))
disable_irq_example =
    disable_irq-IsFuzzable 20 waiting (omega arith) (omega arith) waiting-IsFuzzable

nth_enabled_irq_num_example :
    (i : ℕ) × (nth_enabled_irq_num 5 waiting ≡ ok i)
    × (waiting.exception_enabled i ≡ true)
    × (exception_no_external_start ≤ i)
nth_enabled_irq_num_example =
    nth_enabled_irq_num-enabled 5 waiting waiting-IsFuzzable (λ h. ground (arith, h))

-- Interrupt 40 has been pended before it is enabled.
abbrev pended_early : Nvic
pended_early = record waiting {
  pending_irq = 0;
  pending_prio = pos 256;
  exception_pending = λ i. i == 40;
}

misses_pending_example :
    (n' : Nvic) × (enable_irq no_config 40 pended_early ≡ ok (false, n')) × ¬ IsCached n'
unfolding is_disabled_by_config
misses_pending_example =
    enable_irq_misses_pending no_config 40 0 pended_early (omega arith) (omega arith) refl refl refl
      refl (omega arith) refl

read_flags_example :
    (bit_base 0 + 32 ≤ num_supported
      → read_flags waiting.exception_enabled (bit_base 0) 32 0
        ≡ ok (packed waiting.exception_enabled (bit_base 0) 32))
    × (num_supported < bit_base 0 + 32
        → 0 < 32
        → read_flags waiting.exception_enabled (bit_base 0) 32 0 ≡ halt Halt.out_of_bounds)
read_flags_example = read_flags-packed waiting.exception_enabled (bit_base 0) 32 (omega arith)

write_iser_example :
    (n' : Nvic) × (write_register no_config Register.iser 0 4 6 waiting ≡ ok n')
    × IsFuzzable n'
    × ((j : ℕ)
        → n'.exception_enabled j ≡ (
            waiting.exception_enabled j
            || (bit_set (bit_base 0) (4 * 8) 6 j && not (is_disabled_by_config no_config j))))
unfolding bit_base
write_iser_example = write_iser-enables no_config 0 4 6 waiting (omega arith) waiting-IsFuzzable

abbrev zero_regs : SavedRegs
zero_regs = record {
  r0 = 0;
  r1 = 0;
  r2 = 0;
  r3 = 0;
  r12 = 0;
  lr = 0;
  pc_retaddr = 0;
  xpsr_retspr = 0;
  sp = 0;
}

-- Thread mode, with a stack pointer that is not a multiple of 8.
abbrev thread : Cpu Chip
thread = record {
  uc = record zero_chip { reg = λ r. 0x2000_0104 };
  exits = record { duplicate_exit = false; custom_exit_reason = err_ok };
  nvic = waiting;
  saved_regs = zero_regs;
}

abbrev handler : Cpu Chip
handler = record thread {
  nvic = record waiting { active_irq = 37; exception_active = λ i. i == 37 };
}

pop_stack_example :
    let c' = pop_stack chip_engine (push_stack chip_engine false thread) in
    let r = read_batch chip_engine thread.uc in
    (read_batch chip_engine c'.uc ≡ record r { xpsr_retspr = pushed_xpsr r.sp r.xpsr_retspr })
    × (c'.nvic ≡ record waiting { active_irq = r.xpsr_retspr % 2 ^ 9 })
    × (c'.exits ≡ thread.exits)
unfolding read_batch
pop_stack_example =
    pop_stack-push_stack chip_engine chip_engine-IsFaithful thread refl
      (record {
        r0 = omega arith;
        r1 = omega arith;
        r2 = omega arith;
        r3 = omega arith;
        r12 = omega arith;
        lr = omega arith;
        pc = omega arith;
        xpsr = omega arith;
        sp = omega arith;
      })
      refl

exception_entry_example :
    let c' = exception_entry chip_engine no_config false false thread in
    IsSingle c'.nvic
    × (c'.nvic.active_irq
        ≡ (if reaches_limit no_config waiting then nvic_none_active else waiting.pending_irq))
    × ((reaches_limit no_config waiting && not c'.exits.duplicate_exit) ≡ false)
exception_entry_example =
    exception_entry-IsSingle chip_engine no_config false false thread refl (λ h. omega (arith, h))
      waiting-IsSingle

exception_return_example :
    (d : Cpu Chip) × (r : Cpu Chip) × Deactivated handler d
    × (exception_return chip_engine no_config 0xffff_fff9 handler ≡ ok r)
    × (TailChained chip_engine no_config d r ⊎ Popped chip_engine no_config d r)
exception_return_example =
    exception_return_lem chip_engine no_config 0xffff_fff9 handler (λ h. omega (arith, h))
      (omega arith) (omega arith) (λ i. ground arith)

-- An interrupt has just been pended, and the recalculation is still to come.
abbrev unnoticed : Cpu Chip
unnoticed = record thread {
  nvic = record waiting { pending_irq = nvic_none_active; pending_prio = pos nvic_lowest_prio };
}

block_hook_enters_example :
    let n = (recalc_prios unnoticed.nvic).1 in
    let c' = nvic_block_hook chip_engine no_config (record unnoticed { nvic = n }) in
    IsCached n
    × IsSingle c'.nvic
    × (c'.nvic.active_irq ≡ (if reaches_limit no_config n then nvic_none_active else n.pending_irq))
block_hook_enters_example =
    nvic_block_hook_enters chip_engine no_config unnoticed refl refl refl (λ i. ground arith)
      (omega arith) (unfold recalc_prios scan_all scan_from in refl)

-- Base priority 128 lets the waiting interrupt of priority 64 through.
abbrev overlooked : Cpu Chip
overlooked = record thread { uc = record thread.uc { basepri = 128 } }

block_hook_misses_example :
    nvic_block_hook chip_engine no_config overlooked
    ≡ record overlooked { nvic = record waiting { prev_basepri = 128 } }
block_hook_misses_example =
    nvic_block_hook_misses chip_engine no_config overlooked refl refl refl (λ h. omega (arith, h))
      (omega arith)

misses_nmi_example : (pend_interrupt exception_no_nmi waiting).pending_irq ≢ exception_no_nmi
misses_nmi_example = pend_interrupt_misses_nmi waiting (omega arith) waiting-IsCached

-- The priorities of the exceptions from 20 to 23 are set, of which 20 is pending.
mmio_write_example : IsScanned (recalc_if (set_prios no_config 4 20 0x5060_7080 (false, waiting)))
unfolding hook_nvic_mmio_write write_register register_at prio_base
mmio_write_example =
    hook_nvic_mmio_write-IsScanned no_config (nvic_base + 0x304) 4 0x5060_7080 waiting
      (recalc_if (set_prios no_config 4 20 0x5060_7080 (false, waiting))) (λ h. cc)
      (record { cached = waiting-IsCached; has_scan = omega arith }) refl
