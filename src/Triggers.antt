-- ===== src/Triggers.antt =====
-- harness/fuzzware_harness/native/interrupt_triggers.c and .h: triggers that pend an interrupt at
-- an address or by a timer. A trigger is known by its index in the array of 256.
pub mod Pends
use fuzzware_emulator.Prelude.{
  ℕ, zero, suc, ◌+◌, ◌*◌, ◌/◌, ◌%◌, ◌^◌, Bool, true, false, not, ◌&&◌, ◌||◌, List, [], ◌∷◌, Option,
  none, some, Run, ok, halt, Halt, ◌>>=◌, ◌>>◌, check, ltb, ◌==◌, if◌then◌else◌, update, add32,
  u64_mod,
}
use fuzzware_emulator.Engine.{Engine}
use fuzzware_emulator.Timer.{
  Callback, add_timer, start_timer, set_timer_reload_val, timer_irq_not_used,
}
use fuzzware_emulator.Nvic.State.{NvicConfig}
use fuzzware_emulator.Nvic.Enable.{get_num_enabled, nth_enabled_irq_num}
use fuzzware_emulator.Nvic.Exception.{nvic_set_pending}
use fuzzware_emulator.Machine.{Machine, InterruptTrigger, on_cpu, on_timers}
use fuzzware_emulator.Input.{get_fuzz}

abbrev pub max_interrupt_triggers : ℕ
max_interrupt_triggers = 256

abbrev pub irq_fuzz_mode_fixed : ℕ
irq_fuzz_mode_fixed = 0

abbrev pub irq_fuzz_mode_fuzz_enabled_irq_index : ℕ
irq_fuzz_mode_fuzz_enabled_irq_index = 1

abbrev pub irq_fuzz_mode_round_robin : ℕ
irq_fuzz_mode_round_robin = 2

abbrev pub irq_trigger_mode_address : ℕ
irq_trigger_mode_address = 0

abbrev pub irq_trigger_mode_time : ℕ
irq_trigger_mode_time = 1

abbrev pub irq_trigger_mode_time_fuzzed : ℕ
irq_trigger_mode_time_fuzzed = 2

abbrev pub irq_default_timer_interval : ℕ
irq_default_timer_interval = 1000

-- FUZZER_TIME_RELOAD_VALS
unfoldable pub fuzzer_time_reload_val : ℕ → ℕ
fuzzer_time_reload_val choice =
    if choice == 0
    then irq_default_timer_interval
    else if choice == 1
    then irq_default_timer_interval / 2
    else if choice == 2
    then irq_default_timer_interval / 4
    else if choice == 3
    then 1
    else if choice == 4
    then irq_default_timer_interval * 4
    else if choice == 5
    then irq_default_timer_interval * 8
    else if choice == 6
    then irq_default_timer_interval * 16
    else irq_default_timer_interval * 2

abbrev pub first_byte : List ℕ → ℕ
first_byte [] = 0
first_byte (b ∷ bs) = b

module _ {Uc : Type 0} where
  abbrev pub set_trigger : ℕ → InterruptTrigger → Machine Uc → Machine Uc
  set_trigger k t m = record m { triggers = update m.triggers k t }

  abbrev pub set_irq : ℕ → ℕ → Machine Uc → Machine Uc
  set_irq k irq m = set_trigger k (record (m.triggers k) { irq = irq }) m

  -- The end of the hook: a train of pends that is complete is reset.
  unfoldable pub finish_train : ℕ → Machine Uc → Machine Uc
  finish_train k m =
      let t = m.triggers k in
      if t.curr_pends == t.times_to_pend
      then set_trigger k (record t { curr_pends = 0; curr_skips = 0; skip_next = true }) m
      else m

module _ {Uc : Type 0} (e : Engine Uc) (config : NvicConfig) (file : Option (List ℕ)) where
  -- `nvic_set_pending(uc, trigger->irq, false); ++trigger->curr_pends;`, with the index checked.
  unfoldable pub pend_trigger : ℕ → Machine Uc → Run (Machine Uc)
  pend_trigger k m = do
    let t = m.triggers k
    check (ltb t.irq 256) Halt.out_of_bounds
    ok (
        set_trigger k (record t { curr_pends = add32 t.curr_pends 1 })
          (on_cpu (nvic_set_pending e config t.irq) m))

  -- The choice of the fuzzer among the enabled interrupts. The results of this and of the next
  -- definitions say whether the hook goes on; it returns at once when the input is used up.
  unfoldable pub choose_fuzzed : ℕ → Machine Uc → Run (Bool × Machine Uc)
  choose_fuzzed k m =
      let num_enabled = get_num_enabled m.cpu.nvic in
      if num_enabled == 0
      then ok (true, set_irq k 0 m)
      else if num_enabled == 1
      then (do irq ← nth_enabled_irq_num 0 m.cpu.nvic; ok (true, set_irq k irq m))
      else (do
        r ← get_fuzz e file 1 m
        elim r.0 [
          | none ↦ ok (false, r.1)
          | some bytes ↦ (do
            irq ← nth_enabled_irq_num (first_byte bytes) r.1.cpu.nvic
            ok (true, set_irq k irq r.1))
        ])

  unfoldable pub choose_round_robin : ℕ → Machine Uc → Run (Bool × Machine Uc)
  choose_round_robin k m =
      let t = m.triggers k in
      if get_num_enabled m.cpu.nvic == 0 then ok (true, set_irq k 0 m) else (do
        irq ← nth_enabled_irq_num t.round_robin_index m.cpu.nvic
        ok (
          true,
          set_trigger k
              (record t { irq = irq; round_robin_index = (t.round_robin_index + 1) % 2 ^ 8 }) m,
        ))

  unfoldable pub choose_irq : ℕ → Machine Uc → Run (Bool × Machine Uc)
  choose_irq k m =
      let mode = (m.triggers k).fuzz_mode in
      if mode == irq_fuzz_mode_fixed
      then ok (true, m)
      else if mode == irq_fuzz_mode_fuzz_enabled_irq_index
      then choose_fuzzed k m
      else if mode == irq_fuzz_mode_round_robin
      then choose_round_robin k m
      else ok (true, set_irq k 0 m)

  -- A fuzzed timer is given its next interval.
  unfoldable pub choose_time : ℕ → Machine Uc → Run (Bool × Machine Uc)
  choose_time k m =
      if not ((m.triggers k).trigger_mode == irq_trigger_mode_time_fuzzed)
      then ok (true, m)
      else (do
        r ← get_fuzz e file 1 m
        elim r.0 [
          | none ↦ ok (false, r.1)
          | some bytes ↦ (do
            m' ←
                on_timers
                  (set_timer_reload_val (r.1.triggers k).timer_id
                    (fuzzer_time_reload_val (first_byte bytes % 8)))
                  r.1
            ok (true, m'))
        ])

  -- The last branch of the hook.
  unfoldable pub trigger_now : ℕ → Machine Uc → Run (Bool × Machine Uc)
  trigger_now k m = do
    chosen ← choose_irq k m
    timed ← (if chosen.0 then choose_time k chosen.1 else ok chosen)
    if timed.0 && not ((timed.1.triggers k).irq == 0)
        then (pend_trigger k timed.1 >>= λ m'. ok (true, m'))
        else ok timed

  unfoldable pub interrupt_trigger_tick_block_hook : ℕ → Machine Uc → Run (Machine Uc)
  interrupt_trigger_tick_block_hook k m =
      let t = m.triggers k in
      if t.skip_next
      then ok (set_trigger k (record t { skip_next = false }) m)
      else if not (t.curr_pends == 0)
      then (do m' ← pend_trigger k m; ok (finish_train k m'))
      else if ltb t.curr_skips t.times_to_skip
      then ok (finish_train k (set_trigger k (record t { curr_skips = add32 t.curr_skips 1 }) m))
      else (do r ← trigger_now k m; ok (if r.0 then finish_train k r.1 else r.1))

  unfoldable pub interrupt_trigger_timer_cb : ℕ → Machine Uc → Run (Machine Uc)
  interrupt_trigger_timer_cb k m = do
    m' ← interrupt_trigger_tick_block_hook k m
    ok (set_trigger k (record (m'.triggers k) { skip_next = false }) m')

-- What `add_interrupt_trigger` writes; `skip_next` is left at what it was.
abbrev new_trigger :
    (t : InterruptTrigger) (irq num_skips num_pends fuzz_mode trigger_mode : ℕ) → InterruptTrigger
new_trigger t irq num_skips num_pends fuzz_mode trigger_mode = record t {
  irq = irq;
  curr_pends = 0;
  curr_skips = num_skips;
  times_to_pend = num_pends;
  times_to_skip = num_skips;
  fuzz_mode = fuzz_mode % 2 ^ 16;
  round_robin_index = 0;
  trigger_mode = trigger_mode;
}

module _ {Uc : Type 0} where
  -- The timer of a trigger by time, with the interval in ticks.
  unfoldable pub add_trigger_timer :
      (timer_scale every_nth_tick : ℕ) → ℕ → Machine Uc → Run (Machine Uc)
  add_trigger_timer timer_scale every_nth_tick k m = do
    let interval = if every_nth_tick == 0 then irq_default_timer_interval else every_nth_tick
    r ←
        add_timer (timer_scale * interval % u64_mod) (some (Callback.interrupt_trigger k))
          timer_irq_not_used m.timers
    t ← start_timer r.0 r.1
    ok (set_trigger k (record (m.triggers k) { timer_id = r.0 }) (record m { timers = t }))

  -- Adding the block hook of a trigger by address is the engine's; `hook_added` is its success. The
  -- result is whether the trigger's mode is known (UC_ERR_OK, else -1).
  unfoldable pub add_interrupt_trigger :
      (hook_added : Bool)
      (timer_scale irq num_skips num_pends fuzz_mode trigger_mode every_nth_tick : ℕ)
      → Machine Uc
      → Run (Bool × Machine Uc)
  add_interrupt_trigger hook_added timer_scale irq num_skips num_pends fuzz_mode trigger_mode
        every_nth_tick m =
      do
        check (ltb m.num_triggers_inuse max_interrupt_triggers) Halt.exit_error
        let k = m.num_triggers_inuse
        let t = new_trigger (m.triggers k) irq num_skips num_pends fuzz_mode trigger_mode
        let m' = set_trigger k t (record m { num_triggers_inuse = k + 1 })
        if trigger_mode == irq_trigger_mode_address
            then (check hook_added Halt.exit_error >> ok (true, m'))
            else if (trigger_mode == irq_trigger_mode_time)
                || (trigger_mode == irq_trigger_mode_time_fuzzed)
            then (add_trigger_timer timer_scale every_nth_tick k m' >>= λ d. ok (true, d))
            else ok (false, m')

  -- The snapshot holds the triggers in use, and is restored over as many.
  unfoldable pub interrupt_trigger_take_snapshot : Machine Uc → ℕ → InterruptTrigger
  interrupt_trigger_take_snapshot m = m.triggers

  unfoldable pub interrupt_trigger_restore_snapshot :
      (ℕ → InterruptTrigger) → Machine Uc → Machine Uc
  interrupt_trigger_restore_snapshot snapshot m = record m {
    triggers = λ i. if ltb i m.num_triggers_inuse then snapshot i else m.triggers i;
  }
