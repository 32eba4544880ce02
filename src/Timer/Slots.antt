-- ===== src/Timer/Slots.antt =====
-- Which slot of the array `add_timer` of timer.c hands out.
use fuzzware_emulator.Prelude.{
  ℕ, zero, suc, ◌+◌, ◌≤◌, ◌<◌, ◌≡◌, ◌≢◌, inl, inr, true, false, some, ok, arith, Bool-cases, update,
}
use fuzzware_emulator.Timer.{
  Timers, TimerState, Callback, max_timers, reload_or_max, first_in_use, add_timer,
}

-- The slots that have been handed out and not given back are those below `end_ind`, if there is no
-- gap.
abbrev pub Dense : TimerState → Type 0
Dense s = (s.num_inuse ≡ s.end_ind) × ((j : ℕ) → s.end_ind ≤ j → (s.timers j).in_use ≡ false)

-- With no gap among the slots, and not all of them taken, `add_timer` with a callback hands out a
-- slot that was not in use, leaves the other slots as they were, and keeps the slots without a
-- gap. A reload value of 0 stands for the largest one.
pub add_timer-Dense :
    (s : TimerState) (reload isr : ℕ) (c : Callback)
    → Dense s
    → s.num_inuse < max_timers
    → (u : TimerState) × (add_timer reload (some c) isr s ≡ ok (s.end_ind, u))
      × ((s.timers s.end_ind).in_use ≡ false)
      × ((u.timers s.end_ind).in_use ≡ true)
      × ((u.timers s.end_ind).is_active ≡ false)
      × ((u.timers s.end_ind).reload_val ≡ reload_or_max reload)
      × ((j : ℕ) → j ≢ s.end_ind → u.timers j ≡ s.timers j)
      × Dense u
unfolding add_timer
add_timer-Dense s reload isr c d lt = (
  record s {
    timers = update s.timers s.end_ind (record (s.timers s.end_ind) {
      in_use = true;
      irq_num = isr;
      ticker_val = reload_or_max reload;
      reload_val = reload_or_max reload;
      trigger_callback = some c;
      is_active = false;
    });
    end_ind = s.end_ind + 1;
    num_inuse = s.num_inuse + 1;
  },
  ground (arith, d.0),
  d.1 s.end_ind (omega arith),
  ground arith,
  ground arith,
  ground arith,
  (λ j ne. ground arith),
  (omega (arith, d.0), λ j le. ground (arith, d.1 j)),
)

-- The search for a gap stops at the first slot in use, if there is one.
first_in_use-in_use :
    (k i j : ℕ) (ts : Timers)
    → i ≤ j
    → j < i + k
    → (ts j).in_use ≡ true
    → ((ts (first_in_use k i ts)).in_use ≡ true) × (first_in_use k i ts < i + k)
unfolding first_in_use
first_in_use-in_use zero i j ts le lt used = absurd (omega arith)
first_in_use-in_use (suc k) i j ts le lt used = elim (Bool-cases (ts i).in_use) [
  | inl e ↦ rw e (e, omega arith)
  | inr e ↦ rw e (
      let ne : i ≢ j = ground (arith, used) in
      let rest = first_in_use-in_use k (i + 1) j ts (omega arith) (omega arith) used in
      (rest.0, omega (arith, rest.1)))
]

-- With a gap among the slots, as `rem_timer` leaves it, and a slot before the end in use,
-- `add_timer` with a callback does not find the gap: the slot that it hands out is in use, and
-- its timer is overwritten.
pub add_timer_gap :
    (s : TimerState) (reload isr j : ℕ) (c : Callback)
    → s.num_inuse < max_timers
    → s.end_ind ≤ max_timers
    → s.num_inuse ≢ s.end_ind
    → j < s.end_ind
    → (s.timers j).in_use ≡ true
    → (ind : ℕ) × (u : TimerState) × (add_timer reload (some c) isr s ≡ ok (ind, u))
      × ((s.timers ind).in_use ≡ true)
      × ((u.timers ind).trigger_callback ≡ some c)
      × ((u.timers ind).is_active ≡ false)
unfolding add_timer
add_timer_gap s reload isr j c lt le gap below used =
    let ind = first_in_use s.end_ind 0 s.timers in
    let found = first_in_use-in_use s.end_ind 0 j s.timers (omega arith) (omega arith) used in
    (
      ind,
      record s {
        timers = update s.timers ind (record (s.timers ind) {
          in_use = true;
          irq_num = isr;
          ticker_val = reload_or_max reload;
          reload_val = reload_or_max reload;
          trigger_callback = some c;
          is_active = false;
        });
        num_inuse = s.num_inuse + 1;
      },
      ground (arith, found),
      found.0,
      ground arith,
      ground arith,
    )
