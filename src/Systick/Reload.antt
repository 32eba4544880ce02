-- ===== src/Systick/Reload.antt =====
-- The reload register of SysTick: whatever the firmware writes, the timer is given a period that
-- suits the emulator.
use Prim.Native.Nat.{max, min}
use fuzzware_emulator.Prelude.{ℕ, ◌+◌, ◌*◌, ◌<◌, ◌≡◌, false, ok, arith, ◌==◌, if◌then◌else◌}
use fuzzware_emulator.Timer.{TimerState, set_timer_reload_val, max_timers, set_values}
use fuzzware_emulator.Machine.{Machine}
use fuzzware_emulator.Systick.{
  systick_base, hook_syst_mmio_write, restricted_reload, systick_ticks_10_ms,
  systick_reload_val_none,
}

module _ {Uc : Type 0} where
  -- Without a configured period, a write to the reload register while the timer, one of the
  -- array, is stopped at its full period succeeds for every value: the period is then the written
  -- value if that lies between 10 ms and three times as much, or else the nearer of the bounds, and it
  -- counts from there. Nothing but this timer changes.
  pub write_rvr-restricts :
      (value : ℕ) (m : Machine Uc)
      → m.user_configured_reload_val ≡ systick_reload_val_none
      → m.systick.timer_ind < max_timers
      → (m.timers.timers m.systick.timer_ind).is_active ≡ false
      → (m.timers.timers m.systick.timer_ind).ticker_val
        ≡ (m.timers.timers m.systick.timer_ind).reload_val
      → (v : ℕ) × (v ≡ max systick_ticks_10_ms (min value (3 * systick_ticks_10_ms)))
        × (t : TimerState) × (hook_syst_mmio_write (systick_base + 4) value m
            ≡ ok (record m { timers = t }))
        × ((t.timers m.systick.timer_ind).reload_val ≡ v)
        × ((t.timers m.systick.timer_ind).ticker_val ≡ v)
        × ((i : ℕ) → (i == m.systick.timer_ind) ≡ false → t.timers i ≡ m.timers.timers i)
  unfolding hook_syst_mmio_write restricted_reload set_timer_reload_val
  write_rvr-restricts value m free lt stopped fresh =
      let id = m.systick.timer_ind in
      let v = restricted_reload 0 value in
      let t = if (m.timers.timers id).reload_val == v then m.timers else set_values m.timers id v in
      (
        restricted_reload 0 value,
        ground arith,
        t,
        ground arith,
        ground arith,
        ground arith,
        (λ i ne. ground arith),
      )
