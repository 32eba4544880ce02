-- ===== src/Tests.antt =====
-- The theorems about the parts around the interrupt controller, on a concrete machine.
use Prim.Native.Nat.{max, min}
use fuzzware_emulator.Prelude.{
  List, has, has_bit, true, ℕ, ◌+◌, ◌-◌, ◌*◌, ◌<◌, ◌≡◌, refl, false, not, ◌&&◌, ◌||◌, [], none, ok,
  arith, leb, ◌==◌, if◌then◌else◌, sub64,
}
use fuzzware_emulator.Chip.{Chip, chip_engine}
use fuzzware_emulator.Timer.{TimerState, get_timer_ticker_val}
use fuzzware_emulator.Nvic.Exception.{nvic_set_pending}
use fuzzware_emulator.Machine.{Machine}
use fuzzware_emulator.Sample.{no_config, sample_timers, sample_trigger, sample}
use fuzzware_emulator.Systick.{systick_base, systick_ticks_10_ms, hook_syst_mmio_write}
use fuzzware_emulator.Timer.Active.{IsActive}
use fuzzware_emulator.Systick.Enable.{IsCoupled, write_csr-follows}
use fuzzware_emulator.Systick.Reload.{write_rvr-restricts}
use fuzzware_emulator.Triggers.{interrupt_trigger_tick_block_hook}
use fuzzware_emulator.Triggers.Pends.{tick_block_hook-pends}
use fuzzware_emulator.Clock.{timer_tick_block_hook}
use fuzzware_emulator.Clock.Tick.{timer_tick_block_hook-counts}

write_rvr_example :
    (v : ℕ) × (v ≡ max systick_ticks_10_ms (min 99 (3 * systick_ticks_10_ms)))
    × (t : TimerState) × (hook_syst_mmio_write (systick_base + 4) 99 sample
        ≡ ok (record sample { timers = t }))
    × ((t.timers 0).reload_val ≡ v)
    × ((t.timers 0).ticker_val ≡ v)
    × ((i : ℕ) → (i == 0) ≡ false → t.timers i ≡ sample_timers.timers i)
write_rvr_example = write_rvr-restricts 99 sample refl (omega arith) refl refl

tick_block_hook_example :
    (m' : Machine Chip) × (interrupt_trigger_tick_block_hook chip_engine no_config none 0 sample
      ≡ ok m')
    × (m'.cpu ≡ (
        if not sample_trigger.skip_next
          && (not (sample_trigger.curr_pends == 0)
              || leb sample_trigger.times_to_skip sample_trigger.curr_skips)
        then nvic_set_pending chip_engine no_config 20 sample.cpu
        else sample.cpu))
    × ((m'.triggers 0).curr_pends < 2)
    × ((m'.triggers 0).times_to_pend ≡ 2)
    × ((m'.triggers 0).irq ≡ 20)
tick_block_hook_example =
    tick_block_hook-pends chip_engine no_config none 0 sample refl (λ h. omega (arith, h))
      (λ h. omega (arith, h)) (omega arith) (omega arith) (omega arith)

timer_tick_example :
    (t : TimerState) × (t ≡ record sample_timers { cur_countdown = 40 - 1 })
    × (timer_tick_block_hook chip_engine no_config none sample ≡ ok (record sample { timers = t }))
    × (get_timer_ticker_val 0 t ≡ ok (sub64 690 1))
unfolding get_timer_ticker_val
timer_tick_example =
    timer_tick_block_hook-counts chip_engine no_config none sample 0 690 (omega arith) (omega arith)
      (omega arith) (omega arith) refl

nothing_runs : IsActive sample_timers []
nothing_runs = record {
  queue = record { chain = refl; distinct = tt; below = tt };
  timed = record {
    sorted = tt;
    due = tt;
    counting = omega arith;
    bounded = omega arith;
    small = tt;
  };
  flags = λ j. ground arith;
}

sample-IsCoupled : IsCoupled sample []
sample-IsCoupled = record {
  active = nothing_runs;
  in_array = omega arith;
  startable = record { in_use = refl; positive = omega arith; in_range = omega arith };
  follows = refl;
}

write_csr_example :
    (m' : Machine Chip) × (js : List ℕ) × (hook_syst_mmio_write systick_base 5 sample ≡ ok m')
    × IsCoupled m' js
    × (m'.systick.timer_ind ≡ 0)
    × (has_bit m'.systick.csr 0 ≡ true)
    × ((j : ℕ) → has j js ≡ (if j == 0 then true else false))
write_csr_example = write_csr-follows sample [] 5 sample-IsCoupled (λ e. refl) refl
