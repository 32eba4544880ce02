-- ===== src/Machine.antt =====
-- The state of the emulator's native part as one record, for the code that reaches across the
-- components: the CPU with its NVIC (cortexm_nvic.c), the timers (timer.c), SysTick
-- (cortexm_systick.c), the interrupt triggers (interrupt_triggers.c) and the fuzzing input
-- (native_hooks.c).
use fuzzware_emulator.Prelude.{ℕ, Bool, List, Run, ok, ◌>>=◌}
use fuzzware_emulator.Engine.{Engine, UcErr, do_exit}
use fuzzware_emulator.Timer.{TimerState}
use fuzzware_emulator.Nvic.Exception.{Cpu}

-- `struct CortexmSysTick`; `csr` is kept as a bit pattern.
pub record SysTick : Type 0 where
  pub timer_ind : ℕ
  pub csr : ℕ

-- `InterruptTrigger`, but for the handle of its hook.
pub record InterruptTrigger : Type 0 where
  pub irq : ℕ
  pub fuzz_mode : ℕ
  pub round_robin_index : ℕ
  pub skip_next : Bool
  pub times_to_skip : ℕ
  pub times_to_pend : ℕ
  pub curr_skips : ℕ
  pub curr_pends : ℕ
  pub trigger_mode : ℕ
  pub timer_id : ℕ

-- The input of native_hooks.c: the buffer, and how it is given.
pub record Input : Type 0 where
  pub fuzz : List ℕ
  pub fuzz_size : ℕ
  pub fuzz_cursor : ℕ
  pub input_mode_shm : Bool
  pub is_discovery_child : Bool
  pub input_already_given : Bool
  pub fuzz_consumption_timer_id : ℕ

pub record Machine (Uc : Type 0) : Type 0 where
  pub cpu : Cpu Uc
  pub timers : TimerState
  pub systick : SysTick
  pub user_configured_reload_val : ℕ
  pub triggers : ℕ → InterruptTrigger
  pub num_triggers_inuse : ℕ
  pub input : Input

module _ {Uc : Type 0} where
  -- An operation of the timers alone.
  abbrev pub on_timers : (TimerState → Run TimerState) → Machine Uc → Run (Machine Uc)
  on_timers f m = do t ← f m.timers; ok (record m { timers = t })

  abbrev pub on_cpu : (Cpu Uc → Cpu Uc) → Machine Uc → Machine Uc
  on_cpu f m = record m { cpu = f m.cpu }

  abbrev pub exit_with : Engine Uc → UcErr → Cpu Uc → Cpu Uc
  exit_with e err c = let (x, u) = do_exit e err c.exits c.uc in record c { exits = x; uc = u }
