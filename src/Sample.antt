-- ===== src/Sample.antt =====
-- A concrete machine, on which the theorems are applied.
use fuzzware_emulator.Prelude.{true, false, [], ◌∷◌, none, leb, if◌then◌else◌}
use fuzzware_emulator.Engine.{err_ok}
use fuzzware_emulator.Chip.{Chip, zero_chip}
use fuzzware_emulator.Timer.{Timer, TimerState, set_timer, zero_timer}
use fuzzware_emulator.Nvic.State.{NvicConfig, zero_nvic}
use fuzzware_emulator.Machine.{Machine, InterruptTrigger, Input}

abbrev pub no_config : NvicConfig
no_config = record { interrupt_limit = 1000; config_disabled_interrupts = [] }

abbrev stopped_timer : Timer
stopped_timer = record zero_timer { ticker_val = 700; reload_val = 700; in_use = true }

abbrev pub sample_timers : TimerState
sample_timers = record {
  active_head = none;
  cur_interval = 50;
  cur_countdown = 40;
  global_ticker = 0;
  timers = λ i. if leb i 1 then stopped_timer else zero_timer;
  end_ind = 2;
  num_inuse = 2;
}

-- Interrupt 20 is pended twice, after three skips.
abbrev pub sample_trigger : InterruptTrigger
sample_trigger = record {
  irq = 20;
  fuzz_mode = 0;
  round_robin_index = 0;
  skip_next = false;
  times_to_skip = 3;
  times_to_pend = 2;
  curr_skips = 3;
  curr_pends = 0;
  trigger_mode = 1;
  timer_id = 0;
}

abbrev pub sample_input : Input
sample_input = record {
  fuzz = 1 ∷ 2 ∷ 3 ∷ 4 ∷ [];
  fuzz_size = 4;
  fuzz_cursor = 1;
  input_mode_shm = false;
  is_discovery_child = false;
  input_already_given = true;
  fuzz_consumption_timer_id = 1;
}

abbrev pub sample : Machine Chip
sample = record {
  cpu = record {
    uc = zero_chip;
    exits = record { duplicate_exit = false; custom_exit_reason = err_ok };
    nvic = zero_nvic;
    saved_regs = record {
      r0 = 0;
      r1 = 0;
      r2 = 0;
      r3 = 0;
      r12 = 0;
      lr = 0;
      pc_retaddr = 0;
      xpsr_retspr = 0;
      sp = 0;
    };
  };
  timers = sample_timers;
  systick = record { timer_ind = 0; csr = 0 };
  user_configured_reload_val = 0;
  triggers = λ k. sample_trigger;
  num_triggers_inuse = 1;
  input = sample_input;
}

-- The watchdog is timer 1.
abbrev pub reloaded : TimerState
reloaded = set_timer sample_timers 1 stopped_timer
