-- ===== src/Triggers/Pends.antt =====
-- The trains of pends of the interrupt triggers.
use fuzzware_emulator.Prelude.{
  ℕ, ◌≤◌, ◌<◌, ◌≡◌, ◌≢◌, Bool, false, not, ◌&&◌, ◌||◌, List, Option, ok, arith, leb, ◌==◌,
  if◌then◌else◌, add32, u32_mod,
}
use fuzzware_emulator.Engine.{Engine}
use fuzzware_emulator.Nvic.State.{NvicConfig}
use fuzzware_emulator.Nvic.Exception.{nvic_set_pending}
use fuzzware_emulator.Machine.{Machine, InterruptTrigger, on_cpu}
use fuzzware_emulator.Triggers.{
  interrupt_trigger_tick_block_hook, pend_trigger, finish_train, set_trigger,
  fuzzer_time_reload_val, trigger_now, choose_irq, choose_time, irq_fuzz_mode_fixed,
  irq_trigger_mode_time_fuzzed,
}

-- Every period that the fuzzer may choose is between 1 and 16 times the default.
pub fuzzer_time_reload_val-bounds :
    (choice : ℕ) → (1 ≤ fuzzer_time_reload_val choice) × (fuzzer_time_reload_val choice ≤ 16000)
unfolding fuzzer_time_reload_val
fuzzer_time_reload_val-bounds choice = (ground arith, ground arith)

module _ {Uc : Type 0} (e : Engine Uc) (config : NvicConfig) (file : Option (List ℕ)) where
  -- For a trigger of a fixed interrupt from 1 to 255, with a period that is not fuzzed and a
  -- train that is shorter than the configured number of pends: a call of the hook pends it
  -- exactly if it neither skips the call behind a finished train nor waits for the configured
  -- number of skips: the first of a train and the ones that follow it. The last of a train ends
  -- it, so that the train is shorter than the configured number of pends again.
  pub tick_block_hook-pends :
      (k : ℕ) (m : Machine Uc)
      → (m.triggers k).fuzz_mode ≡ irq_fuzz_mode_fixed
      → (m.triggers k).trigger_mode ≢ irq_trigger_mode_time_fuzzed
      → (m.triggers k).irq ≢ 0
      → (m.triggers k).irq < 256
      → (m.triggers k).times_to_pend < u32_mod
      → (m.triggers k).curr_pends < (m.triggers k).times_to_pend
      → let t = m.triggers k in
        (m' : Machine Uc) × (interrupt_trigger_tick_block_hook e config file k m ≡ ok m')
        × (m'.cpu ≡ (
            if not t.skip_next && (not (t.curr_pends == 0) || leb t.times_to_skip t.curr_skips)
            then nvic_set_pending e config t.irq m.cpu
            else m.cpu))
        × ((m'.triggers k).curr_pends < t.times_to_pend)
        × ((m'.triggers k).times_to_pend ≡ t.times_to_pend)
        × ((m'.triggers k).irq ≡ t.irq)
  unfolding interrupt_trigger_tick_block_hook trigger_now choose_irq choose_time pend_trigger
      finish_train
  tick_block_hook-pends k m fixed not_fuzzed some_irq lt bound shorter = (
    d,
    ground (arith, fixed, not_fuzzed, some_irq, lt),
    ground arith,
    ground (arith, bound, shorter),
    ground arith,
    ground arith,
  )
    where
      t : InterruptTrigger
      t = m.triggers k

      pends : Bool
      pends = not t.skip_next && (not (t.curr_pends == 0) || leb t.times_to_skip t.curr_skips)

      pended : Machine Uc
      pended = finish_train k (
          set_trigger k (record t { curr_pends = add32 t.curr_pends 1 })
            (on_cpu (nvic_set_pending e config t.irq) m))

      skipped : Machine Uc
      skipped =
          if t.skip_next
          then set_trigger k (record t { skip_next = false }) m
          else finish_train k (set_trigger k (record t { curr_skips = add32 t.curr_skips 1 }) m)

      d : Machine Uc
      d = if pends then pended else skipped
