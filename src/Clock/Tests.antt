-- ===== src/Clock/Tests.antt =====
-- The clock on a concrete machine, of which the countdown ends with the next basic block.
use fuzzware_emulator.Prelude.{
  ℕ, ◌<◌, ◌≡◌, refl, true, Option, none, some, List, [], ◌∷◌, ok, arith, ◌==◌, if◌then◌else◌, has,
  add64,
}
use fuzzware_emulator.Chip.{Chip, chip_engine}
use fuzzware_emulator.Timer.{Timer, Timers, Callback, zero_timer}
use fuzzware_emulator.Timer.Active.{IsActive}
use fuzzware_emulator.Machine.{Machine}
use fuzzware_emulator.Sample.{no_config, sample}
use fuzzware_emulator.Clock.{timer_tick_block_hook}
use fuzzware_emulator.Clock.Fired.{expired, all_go_off}
use fuzzware_emulator.Clock.Expires.{elapsed_timer, timer_tick_block_hook-expires}

abbrev timer_with : Option ℕ → ℕ → ℕ → ℕ → Option Callback → Timer
timer_with next ticker reload irq callback = record {
  next = next;
  ticker_val = ticker;
  reload_val = reload;
  trigger_callback = callback;
  irq_num = irq;
  in_use = true;
  is_active = true;
}

-- Timers 0 and 2 expire with the countdown, timer 1 forty ticks later.
abbrev three_timers : Timers
three_timers j =
    if j == 0
    then timer_with (some 2) 50 700 0 (some Callback.systick_trigger)
    else if j == 2
    then timer_with (some 1) 50 60 20 none
    else if j == 1
    then timer_with none 90 90 0 (some Callback.fuzz_consumption_timeout)
    else zero_timer

abbrev last_tick : Machine Chip
last_tick = record sample {
  timers = record {
    active_head = some 0;
    cur_interval = 50;
    cur_countdown = 1;
    global_ticker = 0;
    timers = three_timers;
    end_ind = 3;
    num_inuse = 3;
  };
}

abbrev on_list : List ℕ
on_list = 0 ∷ 2 ∷ 1 ∷ []

last_tick-IsActive : IsActive last_tick.timers on_list
last_tick-IsActive = record {
  queue = record {
    chain = (refl, (refl, (refl, refl)));
    distinct = (refl, (refl, (refl, tt)));
    below = (omega arith, (omega arith, (omega arith, tt)));
  };
  timed = record {
    sorted = (omega arith, (omega arith, tt));
    due = (omega arith, (omega arith, (omega arith, tt)));
    counting = omega arith;
    bounded = omega arith;
    small = (omega arith, (omega arith, (omega arith, tt)));
  };
  flags = λ j. ground arith;
}

timer_tick_block_hook-expires_example :
    (m' : Machine Chip) × (js : List ℕ) × (timer_tick_block_hook chip_engine no_config none
        last_tick
      ≡ ok m')
    × IsActive m'.timers js
    × ((j : ℕ) → has j js ≡ has j on_list)
    × (m'.timers.global_ticker ≡ add64 0 50)
    × (0 < m'.timers.cur_countdown)
    × ((j : ℕ)
        → record (m'.timers.timers j) { next = none }
          ≡ record (elapsed_timer three_timers 50 on_list j) { next = none })
    × (all_go_off chip_engine no_config none three_timers
          (expired three_timers 50 on_list)
          last_tick
        ≡ ok (record m' { timers = last_tick.timers }))
timer_tick_block_hook-expires_example =
    timer_tick_block_hook-expires chip_engine no_config none last_tick on_list last_tick-IsActive
      (λ h. cc) refl (λ j h. ground (arith, h))
