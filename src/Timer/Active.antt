-- ===== src/Timer/Active.antt =====
-- `start_timer` and `stop_timer` of timer.c: the active list holds exactly the timers with the
-- `is_active` flag, in the order of their expiry.
use fuzzware_emulator.Prelude.{
  ℕ, ◌≤◌, ◌<◌, ◌≡◌, sym, subst, ◌∙◌, Bool, true, false, none, List, [], ok, arith, has, without,
  has-without_self, has-without_ne, u64_mod,
}
use fuzzware_emulator.Timer.{
  Timer, Timers, TimerState, max_timers, max_reload_val, set_timer, start_timer, stop_timer,
  insert_active_timer, remove_active_timer,
}
use fuzzware_emulator.Timer.Chain.{IsQueue, Chain-same, synced}
use fuzzware_emulator.Timer.Insert.{
  insert_sorted, has-insert_sorted, Inserted, SameValues, insert_active_timer-Inserted,
}
use fuzzware_emulator.Timer.Remove.{Removed, remove_active_timer-Removed}
use fuzzware_emulator.Timer.Order.{IsTimed, Sorted-same, Due-same, Small-same, SameTickers}
use fuzzware_emulator.Timer.Timed.{insert_active_timer-IsTimed, remove_active_timer-IsTimed}

-- The list holds exactly the timers that are flagged as active.
abbrev pub Flagged : Timers → List ℕ → Type 0
Flagged ts is = (j : ℕ) → (ts j).is_active ≡ has j is

pub record IsActive (s : TimerState) (is : List ℕ) : Type 0 where
  pub queue : IsQueue s is
  pub timed : IsTimed s is
  pub flags : Flagged s.timers is

-- The state in which `is_active` of one timer is written.
abbrev pub set_active : TimerState → ℕ → Bool → TimerState
set_active s id b = set_timer s id (record (s.timers id) { is_active = b })

pub set_active-IsQueue :
    (s : TimerState) (id : ℕ) (b : Bool) (is : List ℕ)
    → IsQueue s is
    → IsQueue (set_active s id b) is
set_active-IsQueue s id b is q = record {
  chain =
      Chain-same s.timers (set_active s id b).timers s.active_head is (λ j h. ground arith) q.chain;
  distinct = q.distinct;
  below = q.below;
}

set_active-IsTimed :
    (s : TimerState) (id : ℕ) (b : Bool) (is : List ℕ)
    → IsTimed s is
    → IsTimed (set_active s id b) is
set_active-IsTimed s id b is t = record {
  sorted = Sorted-same s.timers us is same t.sorted;
  due = Due-same s.timers us s.cur_interval is same t.due;
  counting = t.counting;
  bounded = t.bounded;
  small = Small-same s.timers us is same t.small;
}
  where
    us : Timers
    us = (set_active s id b).timers

    same : SameTickers s.timers us
    same j = ground arith

pub active-synced :
    (s : TimerState) (is : List ℕ) (j : ℕ)
    → ((synced s is).timers j).is_active ≡ (s.timers j).is_active
active-synced s is j = ground arith

pub active-same : (ts us : Timers) (j : ℕ) → SameValues ts us → (us j).is_active ≡ (ts j).is_active
active-same ts us j same = ground (arith, same j)

-- What the checks of `start_timer` ask of the timer.
pub record CanStart (t : Timer) : Type 0 where
  pub in_use : t.in_use ≡ true
  pub positive : 0 < t.reload_val
  pub in_range : t.reload_val ≤ max_reload_val

pub start_timer-insert :
    (s : TimerState) (id : ℕ)
    → id < max_timers
    → CanStart (s.timers id)
    → (s.timers id).is_active ≡ false
    → start_timer id s ≡ insert_active_timer id (set_active s id true)
unfolding start_timer
start_timer-insert s id lt c off = ground arith

-- Starting a stopped timer of the array that is in use and has a reload value in range succeeds,
-- puts it on the active list, in the order of expiry, and flags it; the countdown stays in front
-- of every expiry, and after the update of the tick values no timer has changed but for its link. If no timer is active, the timer's `next` pointer has to be `NULL`.
pub start_timer-IsActive :
    (s : TimerState) (is : List ℕ) (id : ℕ)
    → IsActive s is
    → id < max_timers
    → CanStart (s.timers id)
    → (s.timers id).is_active ≡ false
    → (s.timers id).ticker_val < u64_mod
    → (is ≡ [] → (s.timers id).next ≡ none)
    → (u : TimerState) × (start_timer id s ≡ ok u)
      × IsActive u (insert_sorted (synced (set_active s id true) is).timers id is)
      × SameValues (synced (set_active s id true) is).timers u.timers
start_timer-IsActive s is id a lt c off b fresh =
    let (u, e, i) = insert_active_timer-Inserted t is id q lt out (λ n. next-eq ∙ fresh n) in
    let (u', e', q', t') =
      insert_active_timer-IsTimed t is id q timed lt out small (λ n. next-eq ∙ fresh n) in
    let u-eq : u' ≡ u = ground (arith, e, e') in
    (
      u,
      rw (start_timer-insert s id lt c off) e,
      record {
        queue = i.queue;
        timed = subst (λ v. IsTimed v (insert_sorted (synced t is).timers id is)) u-eq t';
        flags = λ j. flag u i j;
      },
      i.values,
    )
  where
    t : TimerState
    t = set_active s id true

    q : IsQueue t is
    q = set_active-IsQueue s id true is a.queue

    timed : IsTimed t is
    timed = set_active-IsTimed s id true is a.timed

    out : has id is ≡ false
    out = sym (a.flags id) ∙ off

    small : (t.timers id).ticker_val < u64_mod
    small = ground (arith, b)

    next-eq : (t.timers id).next ≡ (s.timers id).next
    next-eq = ground arith

    flag :
        (u : TimerState)
        → Inserted (synced t is) is id u
        → (j : ℕ) → (u.timers j).is_active ≡ has j (insert_sorted (synced t is).timers id is)
    flag u i j = ground (
      arith,
      active-same (synced t is).timers u.timers j i.values,
      active-synced t is j,
      has-insert_sorted (synced t is).timers id j is,
      a.flags j,
    )

pub stop_timer-remove :
    (s : TimerState) (id : ℕ)
    → id < max_timers
    → (s.timers id).in_use ≡ true
    → (s.timers id).is_active ≡ true
    → stop_timer id s ≡ remove_active_timer id (set_active s id false)
unfolding stop_timer
stop_timer-remove s id lt c on = ground arith

-- Stopping an active timer that is in use succeeds, takes it off the active list and clears its
-- flag; the other timers keep their order, and the countdown stays in front of every expiry.
pub stop_timer-IsActive :
    (s : TimerState) (is : List ℕ) (id : ℕ)
    → IsActive s is
    → id < max_timers
    → (s.timers id).in_use ≡ true
    → (s.timers id).is_active ≡ true
    → (u : TimerState) × (stop_timer id s ≡ ok u)
      × IsActive u (without id is)
      × SameValues (synced (set_active s id false) is).timers u.timers
stop_timer-IsActive s is id a lt used on =
    let (u, e, r) = remove_active_timer-Removed t is id q at in
    let (u', e', q', t') = remove_active_timer-IsTimed t is id q timed at in
    let u-eq : u' ≡ u = ground (arith, e, e') in
    (
      u,
      rw (stop_timer-remove s id lt used on) e,
      record {
        queue = r.queue;
        timed = subst (λ v. IsTimed v (without id is)) u-eq t';
        flags = λ j. flag u r j;
      },
      r.values,
    )
  where
    t : TimerState
    t = set_active s id false

    q : IsQueue t is
    q = set_active-IsQueue s id false is a.queue

    timed : IsTimed t is
    timed = set_active-IsTimed s id false is a.timed

    at : has id is ≡ true
    at = sym (a.flags id) ∙ on

    flag :
        (u : TimerState)
        → Removed (synced t is) is id u
        → (j : ℕ) → (u.timers j).is_active ≡ has j (without id is)
    flag u r j = ground (
      arith,
      active-same (synced t is).timers u.timers j r.values,
      active-synced t is j,
      has-without_self id is a.queue.distinct,
      has-without_ne id j is,
      a.flags j,
    )
