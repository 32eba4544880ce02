-- ===== src/Timer/State.antt =====
-- The state of timer.c and timer.h: the array of timers and the countdown.
use fuzzware_emulator.Prelude.{ℕ, suc, Bool, true, false, Option, none, some, ◌==◌, update}

abbrev pub max_timers : ℕ
max_timers = 32

-- `MAX_RELOAD_VAL`
abbrev pub max_reload_val : ℕ
max_reload_val = 0xffff_ffff_ffff

-- `TIMER_IRQ_NOT_USED`
abbrev pub timer_irq_not_used : ℕ
timer_irq_not_used = 0

-- The functions that the emulator registers as timer callbacks, with the user data of the one that
-- has any: the index of the interrupt trigger.
pub data Callback : Type 0 where
  systick_trigger : Callback
  interrupt_trigger : ℕ → Callback
  fuzz_consumption_timeout : Callback
  instr_limit_timeout : Callback

pub record Timer : Type 0 where
  pub next : Option ℕ
  pub ticker_val : ℕ
  pub reload_val : ℕ
  pub trigger_callback : Option Callback
  pub irq_num : ℕ
  pub in_use : Bool
  pub is_active : Bool

-- What `memset(&timers.timers[id], 0, ...)` leaves.
abbrev pub zero_timer : Timer
zero_timer = record {
  next = none;
  ticker_val = 0;
  reload_val = 0;
  trigger_callback = none;
  irq_num = 0;
  in_use = false;
  is_active = false;
}

abbrev pub Timers : Type 0
Timers = ℕ → Timer

pub record TimerState : Type 0 where
  pub active_head : Option ℕ
  pub cur_interval : ℕ
  pub cur_countdown : ℕ
  pub global_ticker : ℕ
  pub timers : Timers
  pub end_ind : ℕ
  pub num_inuse : ℕ

-- The static initializer of `timers`.
unfoldable pub initial_timers : TimerState
initial_timers = record {
  active_head = none;
  cur_interval = max_reload_val;
  cur_countdown = max_reload_val;
  global_ticker = 0;
  timers = λ _. zero_timer;
  end_ind = 0;
  num_inuse = 0;
}

-- A walk along the active list visits each timer once at most.
abbrev pub walk_fuel : ℕ
walk_fuel = suc max_timers

abbrev pub set_timer : TimerState → ℕ → Timer → TimerState
set_timer s i t = record s { timers = update s.timers i t }

abbrev pub is_none {ℓ} : {A : Type ℓ} → Option A → Bool
is_none none = true
is_none (some a) = false

abbrev pub is_at : Option ℕ → ℕ → Bool
is_at none i = false
is_at (some j) i = j == i
