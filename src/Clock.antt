-- ===== src/Clock.antt =====
-- The clock of harness/fuzzware_harness/native/timer.c: the hook of every basic block and the
-- expiry of the countdown, whose callbacks are those of SysTick, of the interrupt triggers and of
-- native_hooks.c.
pub mod Tick
pub mod Fired
pub mod Lists
pub mod Expiry
pub mod Expires
mod Tests
use fuzzware_emulator.Prelude.{
  ℕ, zero, suc, ◌+◌, ◌-◌, Bool, true, false, not, List, Option, none, some, Run, ok, halt, Halt,
  ◌>>=◌, ◌>>◌, check, ltb, ◌==◌, if◌then◌else◌, add64, sub64, update,
}
use fuzzware_emulator.Engine.{Engine, err_ok}
use fuzzware_emulator.Timer.{
  Timer, TimerState, Callback, walk_fuel, subtract_elapsed, sort_timer_back, set_timer,
  timer_irq_not_used,
}
use fuzzware_emulator.Nvic.State.{NvicConfig}
use fuzzware_emulator.Nvic.Exception.{nvic_set_pending}
use fuzzware_emulator.Machine.{Machine, on_cpu, on_timers, exit_with}
use fuzzware_emulator.Systick.{systick_trigger_callback}
use fuzzware_emulator.Triggers.{interrupt_trigger_timer_cb}

-- `timers.global_ticker += elapsed`, and the same off every timer on the list.
unfoldable pub advance : TimerState → Run TimerState
advance s = do
  ts ← subtract_elapsed walk_fuel s.active_head s.cur_interval s.timers
  ok (record s { timers = ts; global_ticker = add64 s.global_ticker s.cur_interval })

module _ {Uc : Type 0} (e : Engine Uc) (config : NvicConfig) (file : Option (List ℕ)) where
  -- The callbacks `fuzz_consumption_timeout_cb` and `instr_limit_timeout_cb` ask for the exit.
  unfoldable pub trigger_callback : Option Callback → Machine Uc → Run (Machine Uc)
  trigger_callback none m = ok m
  trigger_callback (some Callback.systick_trigger) m = ok (systick_trigger_callback e config m)
  trigger_callback (some (Callback.interrupt_trigger k)) m =
      interrupt_trigger_timer_cb e config file k m
  trigger_callback (some Callback.fuzz_consumption_timeout) m = ok (on_cpu (exit_with e err_ok) m)
  trigger_callback (some Callback.instr_limit_timeout) m = ok (on_cpu (exit_with e err_ok) m)

  -- The body of the loop over the expired timers.
  unfoldable pub ding : ℕ → Machine Uc → Run (Machine Uc)
  ding cursor m = do
    let t = m.timers.timers cursor
    m' ←
        on_timers
          (λ s.
            sort_timer_back cursor (set_timer s cursor (record t { ticker_val = t.reload_val })))
          m
    m'' ←
        (if t.irq_num == timer_irq_not_used
          then ok m'
          else check (ltb t.irq_num 256) Halt.out_of_bounds
            >> ok (on_cpu (nvic_set_pending e config t.irq_num) m'))
    trigger_callback t.trigger_callback m''

  -- `for (cursor = initial_head; cursor->ticker_val == 0; cursor = timers.active_head)`: reads
  -- through `NULL` if the callbacks have stopped every timer. The result has the last cursor.
  unfoldable pub ding_expired : ℕ → Option ℕ → Machine Uc → Run (ℕ × Machine Uc)
  ding_expired k none m = halt Halt.null_deref
  ding_expired zero (some cursor) m = halt Halt.out_of_fuel
  ding_expired (suc k) (some cursor) m = elim ((m.timers.timers cursor).ticker_val == 0) [
    | true ↦ (do m' ← ding cursor m; ding_expired k m'.timers.active_head m')
    | false ↦ ok (cursor, m)
  ]

  unfoldable pub timer_countdown_expired : Machine Uc → Run (Machine Uc)
  timer_countdown_expired m = elim m.timers.active_head [
    | none ↦ ok (record m { timers = record m.timers { cur_countdown = m.timers.cur_interval } })
    | some head ↦ (do
      m' ← on_timers advance m
      r ← ding_expired walk_fuel (some head) m'
      let interval = (r.1.timers.timers r.0).ticker_val
      ok (record r.1 {
        timers = record r.1.timers { cur_interval = interval; cur_countdown = interval };
      }))
  ]

  unfoldable pub timer_tick_block_hook : Machine Uc → Run (Machine Uc)
  timer_tick_block_hook m = do
    let countdown = sub64 m.timers.cur_countdown 1
    let m' = record m { timers = record m.timers { cur_countdown = countdown } }
    if countdown == 0 then timer_countdown_expired m' else ok m'
