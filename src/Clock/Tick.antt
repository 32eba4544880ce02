-- ===== src/Clock/Tick.antt =====
-- The hook of every basic block, between two expiries: the timers' clock goes on by one.
use fuzzware_emulator.Prelude.{ℕ, ◌-◌, ◌≤◌, ◌<◌, ◌≡◌, refl, List, Option, ok, arith, sub64, u64_mod}
use fuzzware_emulator.Engine.{Engine}
use fuzzware_emulator.Timer.{TimerState, max_timers, get_timer_ticker_val}
use fuzzware_emulator.Nvic.State.{NvicConfig}
use fuzzware_emulator.Machine.{Machine}
use fuzzware_emulator.Clock.{timer_tick_block_hook}

module _ {Uc : Type 0} (e : Engine Uc) (config : NvicConfig) (file : Option (List ℕ)) where
  -- While the countdown is no longer than its interval, a basic block that does not end it
  -- changes nothing but the countdown, which goes down by one, and every timer of the array that
  -- is read after it shows one tick less than before it.
  pub timer_tick_block_hook-counts :
      (m : Machine Uc) (id v : ℕ)
      → 1 < m.timers.cur_countdown
      → m.timers.cur_countdown ≤ m.timers.cur_interval
      → m.timers.cur_interval < u64_mod
      → id < max_timers
      → get_timer_ticker_val id m.timers ≡ ok v
      → (t : TimerState) × (t ≡ record m.timers { cur_countdown = m.timers.cur_countdown - 1 })
        × (timer_tick_block_hook e config file m ≡ ok (record m { timers = t }))
        × (get_timer_ticker_val id t ≡ ok (sub64 v 1))
  unfolding timer_tick_block_hook get_timer_ticker_val
  timer_tick_block_hook-counts m id v more le lt in_array reading = (
    record m.timers { cur_countdown = m.timers.cur_countdown - 1 },
    refl,
    ground arith,
    ground (arith, reading),
  )
