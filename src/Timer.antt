-- ===== src/Timer.antt =====
-- harness/fuzzware_harness/native/timer.c and timer.h, everything but the expiry of the countdown
-- (module Clock), whose callbacks reach the other peripherals.
--
-- `struct TimerState` is a record, its array of 32 timers a function of the index. The active
-- timers form a singly linked list through the array: a pointer to a timer is its index, `NULL` is
-- `none`. Tick values are `uint64_t`: additions and subtractions wrap at 2 ^ 64.
mod State
unfoldable pub use fuzzware_emulator.Timer.State.*
use fuzzware_emulator.Prelude.{
  ℕ, zero, suc, ◌+◌, ◌-◌, Bool, true, false, Option, none, some, Run, ok, halt, Halt, ◌>>=◌, ◌>>◌,
  check, ltb, leb, ◌==◌, ◌||◌, not, if◌then◌else◌, add64, sub64, add32, u32_mod, sub32, update,
}
pub mod Chain
pub mod Insert
pub mod Remove
pub mod Back
pub mod Order
pub mod Timed
pub mod Active
pub mod Period
pub mod Moved
pub mod Resort
pub mod Reload
pub mod Stale
pub mod Slots
mod Tests

-- The search for a gap: the index at which the loop of `add_timer` stops.
unfoldable pub first_in_use : ℕ → ℕ → Timers → ℕ
first_in_use zero ind ts = ind
first_in_use (suc left) ind ts =
    let rest = first_in_use left (ind + 1) ts in if (ts ind).in_use then ind else rest

-- Writing the fields of a slot; its `next` is left as it is.
abbrev occupy : Timer → ℕ → Option Callback → ℕ → Timer
occupy t reload callback isr = record t {
  in_use = true;
  irq_num = isr;
  ticker_val = reload;
  reload_val = reload;
  trigger_callback = callback;
  is_active = false;
}

abbrev pub reload_or_max : ℕ → ℕ
reload_or_max v = if v == 0 then max_reload_val else v

-- Slots past the array are out of bounds; `end_ind` and `num_inuse` are compared as in the code.
unfoldable pub add_timer : ℕ → Option Callback → ℕ → TimerState → Run (ℕ × TimerState)
add_timer reload callback isr s = do
  check (not (s.num_inuse == max_timers)) Halt.exit_error
  check (not (is_none callback) || not (isr == timer_irq_not_used)) Halt.exit_error
  let at_end = s.num_inuse == s.end_ind
  let ind = if at_end then s.end_ind else first_in_use s.end_ind 0 s.timers
  check (ltb ind max_timers) Halt.out_of_bounds
  ok (
    ind,
    record s {
      timers = update s.timers ind (occupy (s.timers ind) (reload_or_max reload) callback isr);
      end_ind = if at_end then s.end_ind + 1 else s.end_ind;
      num_inuse = s.num_inuse + 1;
    },
  )

-- `for (cursor = p; cursor; cursor = cursor->next) cursor->ticker_val -= elapsed;`
unfoldable pub subtract_elapsed : ℕ → Option ℕ → ℕ → Timers → Run Timers
subtract_elapsed zero p elapsed ts = halt Halt.out_of_fuel
subtract_elapsed (suc k) none elapsed ts = ok ts
subtract_elapsed (suc k) (some c) elapsed ts =
    subtract_elapsed k (ts c).next elapsed
      (update ts c (record (ts c) { ticker_val = sub64 (ts c).ticker_val elapsed }))

unfoldable pub sync_timers : TimerState → Run TimerState
sync_timers s = if s.cur_countdown == 0 then ok s else do
  let elapsed = sub64 s.cur_interval s.cur_countdown
  ts ← subtract_elapsed walk_fuel s.active_head elapsed s.timers
  ok (record s {
    timers = ts;
    global_ticker = add64 s.global_ticker elapsed;
    cur_interval = s.cur_countdown;
  })

-- `for (; cursor->next && ticker_val > cursor->next->ticker_val; cursor = cursor->next);`
unfoldable pub find_place : ℕ → ℕ → ℕ → Timers → Run ℕ
find_place zero cursor ticker ts = halt Halt.out_of_fuel
find_place (suc k) cursor ticker ts = elim (ts cursor).next [
  | none ↦ ok cursor
  | some n ↦ elim (ltb (ts n).ticker_val ticker) [
    | true ↦ find_place k n ticker ts
    | false ↦ ok cursor
  ]
]

-- `tim->next = p;`
abbrev pub link : Timers → ℕ → Option ℕ → Timers
link ts tim p = update ts tim (record (ts tim) { next = p })

-- `tim->next = cursor->next; cursor->next = tim;`
abbrev pub link_after : Timers → ℕ → ℕ → Timers
link_after ts cursor tim = let ts' = link ts tim (ts cursor).next in link ts' cursor (some tim)

-- The new head of the list, with the countdown to its expiry.
abbrev pub set_front : TimerState → ℕ → TimerState
set_front s tim = record s {
  active_head = some tim;
  cur_countdown = (s.timers tim).ticker_val;
  cur_interval = (s.timers tim).ticker_val;
}

-- The cursor is read before `sync_timers`, which leaves the list as it is.
unfoldable pub insert_active_timer : ℕ → TimerState → Run TimerState
insert_active_timer tim s = do
  s' ← sync_timers s
  let ticker = (s'.timers tim).ticker_val
  elim s.active_head [
    | none ↦ ok (set_front s' tim)
    | some cursor ↦
        if leb ticker (s'.timers cursor).ticker_val
        then ok (set_front (record s' { timers = link s'.timers tim (some cursor) }) tim)
        else do
          place ← find_place walk_fuel cursor ticker s'.timers
          ok (record s' { timers = link_after s'.timers place tim })
  ]

-- `for (; cursor->next != tim; cursor = cursor->next);`, which reads through `NULL` if `tim` is
-- not on the list.
unfoldable pub find_pred : ℕ → Option ℕ → ℕ → Timers → Run ℕ
find_pred zero cursor tim ts = halt Halt.out_of_fuel
find_pred (suc k) none tim ts = halt Halt.null_deref
find_pred (suc k) (some c) tim ts = elim (is_at (ts c).next tim) [
  | true ↦ ok c
  | false ↦ find_pred k (ts c).next tim ts
]

-- The front timer is taken off: the countdown goes on to the next one.
abbrev pub drop_front : TimerState → Option ℕ → TimerState
drop_front s none = record s {
  active_head = none;
  cur_countdown = max_reload_val;
  cur_interval = max_reload_val;
}
drop_front s (some n) = set_front s n

unfoldable pub remove_active_timer : ℕ → TimerState → Run TimerState
remove_active_timer tim s = do
  s' ← sync_timers s
  if is_at s.active_head tim then ok (drop_front s' (s'.timers tim).next) else do
    pred ← find_pred walk_fuel s.active_head tim s'.timers
    ok (record s' { timers = link s'.timers pred (s'.timers tim).next })

-- Unlinking of a timer that has to move back; `next` is its successor.
unfoldable pub unlink_moving : ℕ → ℕ → TimerState → Run TimerState
unlink_moving tim next s =
    if is_at s.active_head tim then ok (record s { active_head = some next }) else do
      pred ← find_pred walk_fuel s.active_head tim s.timers
      ok (record s { timers = link s.timers pred (some next) })

unfoldable pub sort_timer_back : ℕ → TimerState → Run TimerState
sort_timer_back tim s = elim (s.timers tim).next [
  | none ↦ ok s
  | some n ↦ if leb (s.timers tim).ticker_val (s.timers n).ticker_val then ok s else do
    cursor ← find_place walk_fuel n (s.timers tim).ticker_val s.timers
    s' ← unlink_moving tim n s
    ok (record s' { timers = link_after s'.timers cursor tim })
]

-- `cur_interval - cur_countdown`
abbrev pub elapsed_ticks : TimerState → ℕ
elapsed_ticks s = sub64 s.cur_interval s.cur_countdown

-- The checks of the index are compiled in for debugging only; without them an index outside the
-- array is out of bounds.
unfoldable pub reload_timer : ℕ → TimerState → Run TimerState
reload_timer id s = do
  check (ltb id max_timers) Halt.out_of_bounds
  let tim = s.timers id
  if tim.is_active
      then sort_timer_back id
          (set_timer s id (record tim { ticker_val = add64 tim.reload_val (elapsed_ticks s) }))
      else ok (set_timer s id (record tim { ticker_val = tim.reload_val }))

abbrev pub set_values : TimerState → ℕ → ℕ → TimerState
set_values s id v = set_timer s id (record (s.timers id) { reload_val = v; ticker_val = v })

unfoldable pub set_timer_reload_val : ℕ → ℕ → TimerState → Run TimerState
set_timer_reload_val id reload s = do
  check (ltb id max_timers) Halt.exit_error
  let v = reload_or_max reload
  if (s.timers id).reload_val == v
      then ok s
      else if (s.timers id).is_active
      then (do s' ← remove_active_timer id s; insert_active_timer id (set_values s' id v))
      else ok (set_values s id v)

unfoldable pub get_timer_ticker_val : ℕ → TimerState → Run ℕ
get_timer_ticker_val id s = do
  check (ltb id max_timers) Halt.exit_error
  ok (sub64 (s.timers id).ticker_val (elapsed_ticks s))

unfoldable pub get_timer_reload_val : ℕ → TimerState → Run ℕ
get_timer_reload_val id s = check (ltb id max_timers) Halt.exit_error >> ok (s.timers id).reload_val

unfoldable pub is_running : ℕ → TimerState → Run Bool
is_running id s = check (ltb id max_timers) Halt.exit_error >> ok (s.timers id).is_active

unfoldable pub curr_val : ℕ → TimerState → Run ℕ
curr_val id s = check (ltb id max_timers) Halt.exit_error >> ok (s.timers id).ticker_val

unfoldable pub get_global_ticker : TimerState → Run (ℕ × TimerState)
get_global_ticker s = do s' ← sync_timers s; ok (s'.global_ticker, s')

unfoldable pub adjust_timers_for_unicorn_exit : TimerState → TimerState
adjust_timers_for_unicorn_exit s = record s { cur_countdown = add64 s.cur_countdown 2 }

unfoldable pub start_timer : ℕ → TimerState → Run TimerState
start_timer id s = do
  check (ltb id max_timers) Halt.exit_error
  check (s.timers id).in_use Halt.exit_error
  check (not ((s.timers id).reload_val == 0)) Halt.exit_error
  check (leb (s.timers id).reload_val max_reload_val) Halt.exit_error
  if (s.timers id).is_active
      then ok s
      else insert_active_timer id (set_timer s id (record (s.timers id) { is_active = true }))

unfoldable pub stop_timer : ℕ → TimerState → Run TimerState
stop_timer id s = do
  check (ltb id max_timers) Halt.exit_error
  check (s.timers id).in_use Halt.exit_error
  if (s.timers id).is_active
      then remove_active_timer id (set_timer s id (record (s.timers id) { is_active = false }))
      else ok s

-- `while (id != -1 && id == end_ind - 1)`: unused slots at the end are given back. The index runs
-- down, and past 0 it is -1, which ends the loop; the first argument is `id + 1`.
unfoldable pub shrink : ℕ → ℕ → Timers → ℕ
shrink zero end ts = end
shrink (suc id) end ts =
    let rest = shrink id (end - 1) ts in
    if id == sub32 end 1 then (if (ts id).in_use then end else rest) else end

unfoldable pub rem_timer : ℕ → TimerState → Run TimerState
rem_timer id s = do
  check (ltb id max_timers) Halt.exit_error
  check (s.timers id).in_use Halt.exit_error
  s' ← (if (s.timers id).is_active then stop_timer id s else ok s)
  let ts = update s'.timers id zero_timer
  ok (record s' {
    timers = ts;
    end_ind = shrink (suc id) s'.end_ind ts;
    num_inuse = sub32 s'.num_inuse 1;
  })

-- The snapshot is a copy of the whole state.
unfoldable pub timers_take_snapshot : TimerState → TimerState
timers_take_snapshot s = s

unfoldable pub timers_restore_snapshot : TimerState → TimerState → TimerState
timers_restore_snapshot snapshot s = snapshot
