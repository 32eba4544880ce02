-- ===== src/Timer/Tests.antt =====
-- Concrete timers on which the theorems about timer.c are applied.
use fuzzware_emulator.Prelude.{
  ℕ, ◌≡◌, refl, ◌≢◌, Bool, true, false, Option, none, some, List, [], ◌∷◌, ok, arith, ◌==◌, ◌>>=◌,
  if◌then◌else◌, update, without, has, add64,
}
use fuzzware_emulator.Timer.{
  Timer, Timers, TimerState, Callback, zero_timer, set_timer_reload_val, rem_timer, start_timer,
  stop_timer, get_timer_ticker_val, sync_timers, elapsed_ticks, add_timer, reload_or_max,
  reload_timer, set_timer,
}
use fuzzware_emulator.Timer.Chain.{Chain, IsQueue, synced}
use fuzzware_emulator.Timer.Insert.{SameValues, insert_sorted}
use fuzzware_emulator.Timer.Timed.{sync_timers-readings}
use fuzzware_emulator.Timer.Period.{set_timer_reload_val-IsActive, rem_timer-IsActive}
use fuzzware_emulator.Timer.Active.{IsActive, set_active, start_timer-IsActive, stop_timer-IsActive}
use fuzzware_emulator.Timer.Moved.{sort_back}
use fuzzware_emulator.Timer.Reload.{rewound, reload_timer-IsActive}
use fuzzware_emulator.Timer.Stale.{stop_stop_start-revives}
use fuzzware_emulator.Timer.Slots.{Dense, add_timer-Dense, add_timer_gap}

abbrev timer_with : Option ℕ → ℕ → Bool → Timer
timer_with next period active = record {
  next = next;
  ticker_val = period;
  reload_val = period;
  trigger_callback = some Callback.systick_trigger;
  irq_num = 0;
  in_use = true;
  is_active = active;
}

abbrev sample_timers : Timers
sample_timers j =
    if j == 0
    then timer_with (some 1) 5 true
    else if j == 1
    then timer_with none 9 true
    else if j == 2
    then timer_with none 7 false
    else zero_timer

-- Timers 0 and 1 are running, two ticks after the last update; timer 2 is stopped.
abbrev sample : TimerState
sample = record {
  active_head = some 0;
  cur_interval = 5;
  cur_countdown = 3;
  global_ticker = 0;
  timers = sample_timers;
  end_ind = 3;
  num_inuse = 3;
}

abbrev running : List ℕ
running = 0 ∷ 1 ∷ []

sample-IsQueue : IsQueue sample running
sample-IsQueue = record {
  chain = (refl, (refl, refl));
  distinct = (refl, (refl, tt));
  below = (omega arith, (omega arith, tt));
}

sample-IsActive : IsActive sample running
sample-IsActive = record {
  queue = sample-IsQueue;
  timed = record {
    sorted = (omega arith, tt);
    due = (omega arith, (omega arith, tt));
    counting = omega arith;
    bounded = omega arith;
    small = (omega arith, (omega arith, tt));
  };
  flags = λ j. ground arith;
}

start_timer_example :
    (u : TimerState) × (start_timer 2 sample ≡ ok u)
    × IsActive u (insert_sorted (synced (set_active sample 2 true) running).timers 2 running)
    × SameValues (synced (set_active sample 2 true) running).timers u.timers
start_timer_example =
    start_timer-IsActive sample running 2 sample-IsActive (omega arith)
      (record { in_use = refl; positive = omega arith; in_range = omega arith }) refl (omega arith)
      (λ h. ground (arith, h))

-- Timer 0 gets a longer period; when it is reloaded, timer 1 comes before it.
abbrev slowed : TimerState
slowed = set_timer sample 0 (record (sample_timers 0) { reload_val = 20 })

slowed-IsActive : IsActive slowed running
slowed-IsActive = record {
  queue = record {
    chain = (refl, (refl, refl));
    distinct = (refl, (refl, tt));
    below = (omega arith, (omega arith, tt));
  };
  timed = record {
    sorted = (omega arith, tt);
    due = (omega arith, (omega arith, tt));
    counting = omega arith;
    bounded = omega arith;
    small = (omega arith, (omega arith, tt));
  };
  flags = λ j. ground arith;
}

reload_timer_example :
    (u : TimerState) × (reload_timer 0 slowed ≡ ok u)
    × IsActive u (sort_back (rewound slowed 0).timers 0 running)
    × SameValues (rewound slowed 0).timers u.timers
    × ((j : ℕ) → has j (sort_back (rewound slowed 0).timers 0 running) ≡ has j running)
reload_timer_example =
    reload_timer-IsActive slowed running 0 slowed-IsActive (omega arith) refl (omega arith)
      (omega arith)

reload_timer_moves : sort_back (rewound slowed 0).timers 0 running ≡ 1 ∷ 0 ∷ []
reload_timer_moves = refl

stop_timer_example :
    (u : TimerState) × (stop_timer 0 sample ≡ ok u)
    × IsActive u (without 0 running)
    × SameValues (synced (set_active sample 0 false) running).timers u.timers
stop_timer_example = stop_timer-IsActive sample running 0 sample-IsActive (omega arith) refl refl

readings_example :
    (u : TimerState) × (sync_timers sample ≡ ok u)
    × (get_timer_ticker_val 1 u ≡ get_timer_ticker_val 1 sample)
    × (add64 u.global_ticker (elapsed_ticks u) ≡ add64 sample.global_ticker (elapsed_ticks sample))
    × (u.cur_countdown ≡ sample.cur_countdown)
    × (u.cur_interval
        ≡ (if sample.cur_countdown == 0 then sample.cur_interval else sample.cur_countdown))
readings_example = sync_timers-readings sample running 1 sample-IsQueue sample-IsActive.timed refl

revives_example :
    (u : TimerState) × ((do s' ← stop_timer 0 sample; s'' ← stop_timer 1 s'; start_timer 0 s'')
      ≡ ok u)
    × Chain u.timers u.active_head (0 ∷ 1 ∷ [])
    × ((u.timers 1).is_active ≡ false)
revives_example =
    stop_stop_start-revives sample 0 1 sample-IsActive
      (record { in_use = refl; positive = omega arith; in_range = omega arith }) refl

add_timer-Dense_example :
    (u : TimerState) × (add_timer 0 (some Callback.systick_trigger) 0 sample
      ≡ ok (sample.end_ind, u))
    × ((sample.timers sample.end_ind).in_use ≡ false)
    × ((u.timers sample.end_ind).in_use ≡ true)
    × ((u.timers sample.end_ind).is_active ≡ false)
    × ((u.timers sample.end_ind).reload_val ≡ reload_or_max 0)
    × ((j : ℕ) → j ≢ sample.end_ind → u.timers j ≡ sample.timers j)
    × Dense u
add_timer-Dense_example =
    add_timer-Dense sample 0 0 Callback.systick_trigger (refl, (λ j le. ground arith)) (omega arith)

-- Timer 1 has been given back.
abbrev with_gap : TimerState
with_gap = record sample { timers = update sample_timers 1 zero_timer; num_inuse = 2 }

add_timer_gap_example :
    (ind : ℕ) × (u : TimerState) × (add_timer 8 (some Callback.systick_trigger) 0 with_gap
      ≡ ok (ind, u))
    × ((with_gap.timers ind).in_use ≡ true)
    × ((u.timers ind).trigger_callback ≡ some Callback.systick_trigger)
    × ((u.timers ind).is_active ≡ false)
add_timer_gap_example =
    add_timer_gap with_gap 8 0 0 Callback.systick_trigger (omega arith) (omega arith) (omega arith)
      (omega arith) refl

set_timer_reload_val_example :
    (u : TimerState) × (js : List ℕ) × (set_timer_reload_val 0 20 sample ≡ ok u)
    × IsActive u js
    × ((j : ℕ) → has j js ≡ has j running)
    × ((u.timers 0).reload_val ≡ 20)
set_timer_reload_val_example =
    set_timer_reload_val-IsActive sample running 0 20 sample-IsActive (omega arith) (omega arith)

rem_timer_example :
    (u : TimerState) × (rem_timer 0 sample ≡ ok u)
    × IsActive u (without 0 running)
    × (u.timers 0 ≡ zero_timer)
rem_timer_example = rem_timer-IsActive sample running 0 sample-IsActive (omega arith) refl
