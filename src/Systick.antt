-- ===== src/Systick.antt =====
-- harness/fuzzware_harness/native/core_peripherals/cortexm_systick.c and .h: SysTick, whose counter
-- is a timer of timer.c.
pub mod Reload
pub mod Count
pub mod Enable
use Prim.Native.Nat.{bit_or}
use fuzzware_emulator.Prelude.{
  ℕ, ◌+◌, ◌-◌, ◌*◌, ◌/◌, ◌%◌, ◌^◌, Bool, true, false, not, Option, none, some, Run, ok, ◌>>=◌, ltb,
  ◌==◌, if◌then◌else◌, sub32, bit, has_bit, set_bit, clear_bit,
}
use fuzzware_emulator.Engine.{Engine, word_bytes}
use fuzzware_emulator.Timer.{
  Callback, add_timer, reload_timer, start_timer, stop_timer, set_timer_reload_val,
  get_timer_reload_val, get_timer_ticker_val, timer_irq_not_used,
}
use fuzzware_emulator.Nvic.State.{exception_no_systick}
use fuzzware_emulator.Nvic.Exception.{Cpu, nvic_set_pending}
use fuzzware_emulator.Nvic.State.{NvicConfig}
use fuzzware_emulator.Machine.{Machine, SysTick, on_timers, on_cpu}

-- SYSTICK_BASE
abbrev pub systick_base : ℕ
systick_base = 0xe000_e010

abbrev pub systick_end : ℕ
systick_end = systick_base + 0x1f

abbrev pub systick_ticks_10_ms : ℕ
systick_ticks_10_ms = 500

abbrev pub systick_reload_val_none : ℕ
systick_reload_val_none = 0

-- The bits of the control register.
abbrev pub csr_enable : ℕ
csr_enable = 0

abbrev pub csr_tickint : ℕ
csr_tickint = 1

abbrev pub csr_clksource : ℕ
csr_clksource = 2

abbrev pub csr_countflag : ℕ
csr_countflag = 16

-- `x & SYST_RELOAD_VAL_MASK`
abbrev pub reload_masked : ℕ → ℕ
reload_masked x = x % 2 ^ 24

-- The value that a write to the reload register leads to; `value` is an `int64_t` that is not
-- negative.
unfoldable pub restricted_reload : (configured value : ℕ) → ℕ
restricted_reload configured value =
    if not (configured == systick_reload_val_none)
    then configured
    else if ltb value systick_ticks_10_ms
    then systick_ticks_10_ms
    else if ltb (3 * systick_ticks_10_ms) value
    then 3 * systick_ticks_10_ms
    else value

-- The three low bits of the control register are taken from the written value.
unfoldable pub csr_written : (csr value : ℕ) → ℕ
csr_written csr value = csr / 8 * 8 + value % 8

module _ {Uc : Type 0} (e : Engine Uc) where
  abbrev put_word : ℕ → ℕ → Machine Uc → Machine Uc
  put_word addr v = on_cpu (λ c. record c { uc = (e.mem_write addr (word_bytes v) c.uc).1 })

  unfoldable pub hook_syst_mmio_read : ℕ → Machine Uc → Run (Machine Uc)
  hook_syst_mmio_read addr m =
      let off = sub32 addr systick_base in
      if off == 0
      then ok (record (put_word addr m.systick.csr m) {
        systick = record m.systick { csr = set_bit m.systick.csr csr_countflag };
      })
      else if off == 4
      then (do
        v ← get_timer_reload_val m.systick.timer_ind m.timers
        ok (put_word addr (reload_masked v) m))
      else if off == 8
      then (do
        v ← get_timer_ticker_val m.systick.timer_ind m.timers
        ok (put_word addr (reload_masked v) m))
      else if off == 12
      then ok (put_word addr systick_ticks_10_ms m)
      else ok m

  unfoldable pub systick_trigger_callback : NvicConfig → Machine Uc → Machine Uc
  systick_trigger_callback config m =
      let csr = set_bit m.systick.csr csr_countflag in
      let m' = record m { systick = record m.systick { csr = csr } } in
      if has_bit csr csr_tickint
      then on_cpu (nvic_set_pending e config exception_no_systick) m'
      else m'

module _ {Uc : Type 0} where
  -- The timer follows a change of ENABLE, and is reloaded on a change of CLKSOURCE alone.
  unfoldable pub write_csr : ℕ → Machine Uc → Run (Machine Uc)
  write_csr value m = do
    let id = m.systick.timer_ind
    let csr = m.systick.csr
    m' ←
        (if not (bit csr csr_enable == bit value csr_enable)
          then (if has_bit value csr_enable
              then on_timers (λ t. reload_timer id t >>= λ t'. start_timer id t') m
              else on_timers (stop_timer id) m)
          else if not (bit csr csr_clksource == bit value csr_clksource)
          then on_timers (reload_timer id) m
          else ok m)
    ok (record m' { systick = record m'.systick { csr = csr_written csr value } })

  unfoldable pub hook_syst_mmio_write : (addr value : ℕ) → Machine Uc → Run (Machine Uc)
  hook_syst_mmio_write addr value m =
      let off = sub32 addr systick_base in
      if off == 0
      then write_csr value m
      else if off == 4
      then on_timers
          (set_timer_reload_val m.systick.timer_ind
            (reload_masked (restricted_reload m.user_configured_reload_val value)))
          m
      else if off == 8
      then on_timers (reload_timer m.systick.timer_ind)
          (record m { systick = record m.systick { csr = clear_bit m.systick.csr csr_countflag } })
      else ok m

  -- The timer is added with the largest reload value, and is not running.
  unfoldable pub init_systick : (reload_val : ℕ) → Machine Uc → Run (Machine Uc)
  init_systick reload_val m = do
    r ← add_timer 0 (some Callback.systick_trigger) timer_irq_not_used m.timers
    t ← stop_timer r.0 r.1
    ok (record m {
      timers = t;
      systick = record { timer_ind = r.0; csr = 0 };
      user_configured_reload_val = reload_val;
    })
