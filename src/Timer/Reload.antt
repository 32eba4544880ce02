-- ===== src/Timer/Reload.antt =====
-- `reload_timer` of timer.c for a running timer: the active list stays in the order of expiry.
use fuzzware_emulator.Prelude.{
  ℕ, ◌+◌, ◌-◌, ◌≤◌, ◌<◌, ◌≡◌, ◌∙◌, true, false, List, [], ◌∷◌, ok, arith, inl, inr, ◌==◌,
  Bool-cases, has, Distinct, update, subst, u64_mod, add64, sub64, ap,
}
use fuzzware_emulator.Timer.{
  Timer, Timers, TimerState, max_timers, set_timer, reload_timer, sort_timer_back, elapsed_ticks,
}
use fuzzware_emulator.Timer.Chain.{IsQueue, Chain-same}
use fuzzware_emulator.Timer.Insert.{Sorted, SameValues}
use fuzzware_emulator.Timer.Order.{
  Due, Small, Sorted-on, Sorted-tail, Sorted-same, Due-same, Small-same, Due-of_Sorted,
  Sorted-of_Due, Sorted-insert_sorted, Due-insert_sorted, Small-insert_sorted, ticker-same,
  SameTickers, update-SameOn,
}
use fuzzware_emulator.Timer.Active.{IsActive, active-same}
use fuzzware_emulator.Timer.Moved.{sort_back}
use fuzzware_emulator.Timer.Resort.{Resorted, has-sort_back, sort_timer_back-Resorted}

-- One timer's expiry is put off.
module _ (ts : Timers) (i : ℕ) (t : Timer) (later : (ts i).ticker_val ≤ t.ticker_val) where
  ticker-later : (j : ℕ) → (ts j).ticker_val ≤ (update ts i t j).ticker_val
  ticker-later j = ground (arith, later)

  Due-update : (n : ℕ) (is : List ℕ) → Due ts n is → Due (update ts i t) n is
  Due-update n [] d = tt
  Due-update n (j ∷ is) d = (omega (arith, d.0, ticker-later j), Due-update n is d.1)

  Due-sort_back :
      (n : ℕ) (is : List ℕ)
      → has i is ≡ true
      → Due ts n is
      → Due (update ts i t) n (sort_back (update ts i t) i is)
  Due-sort_back n [] at d = tt
  Due-sort_back n (j ∷ is) at d = elim (Bool-cases (j == i)) [
    | inl here ↦
        (let same : j ≡ i = ground (arith, here) in
          let front : n ≤ (update ts i t i).ticker_val =
            subst (λ x. n ≤ (update ts i t x).ticker_val) same (Due-update n (j ∷ is) d).0 in
          ground
            (arith, here, Due-insert_sorted (update ts i t) n i is front (Due-update n is d.1)))
    | inr past ↦
        ground
          (arith, past, Due-update n (j ∷ is) d, Due-sort_back n is (ground (arith, at, past)) d.1)
  ]

  Sorted-sort_back :
      (is : List ℕ)
      → has i is ≡ true
      → Distinct is
      → Sorted ts is
      → Sorted (update ts i t) (sort_back (update ts i t) i is)
  Sorted-sort_back [] at d s = tt
  Sorted-sort_back (j ∷ is) at d s = elim (Bool-cases (j == i)) [
    | inl here ↦
        (let same : j ≡ i = ground (arith, here) in
          ground (
            arith,
            here,
            Sorted-insert_sorted (update ts i t) i is (
                Sorted-on ts (update ts i t) is
                  (update-SameOn ts i t is (subst (λ x. has x is ≡ false) same d.0))
                  (Sorted-tail ts j is s)),
          ))
    | inr past ↦
        (let at' : has i is ≡ true = ground (arith, at, past) in
          ground (
            arith,
            past,
            Sorted-of_Due (update ts i t) j (sort_back (update ts i t) i is)
                (subst (λ n. Due (update ts i t) n (sort_back (update ts i t) i is))
                  (ground (arith, past))
                  (Due-sort_back (ts j).ticker_val is at' (Due-of_Sorted ts j is s).1))
                (Sorted-sort_back is at' d.1 (Sorted-tail ts j is s)),
          ))
  ]

  Small-update : (is : List ℕ) → t.ticker_val < u64_mod → Small ts is → Small (update ts i t) is
  Small-update [] lt s = tt
  Small-update (j ∷ is) lt s = (ground (arith, lt, s.0), Small-update is lt s.1)

  Small-sort_back :
      (is : List ℕ)
      → t.ticker_val < u64_mod
      → Small ts is
      → Small (update ts i t) (sort_back (update ts i t) i is)
  Small-sort_back [] lt s = tt
  Small-sort_back (j ∷ is) lt s =
      let at_i : (update ts i t i).ticker_val < u64_mod = ground (arith, lt) in
      ground (
        arith,
        Small-update (j ∷ is) lt s,
        Small-insert_sorted (update ts i t) i is at_i (Small-update is lt s.1),
        Small-sort_back is lt s.1,
      )

-- The timer with its tick value set for a whole period from now on.
abbrev rewound_timer : TimerState → ℕ → Timer
rewound_timer s id = record (s.timers id) {
  ticker_val = (s.timers id).reload_val + (s.cur_interval - s.cur_countdown);
}

abbrev pub rewound : TimerState → ℕ → TimerState
rewound s id = set_timer s id (rewound_timer s id)

add64-elapsed :
    (v i c : ℕ) → c ≤ i → i < u64_mod → v + (i - c) < u64_mod → add64 v (sub64 i c) ≡ v + (i - c)
add64-elapsed v i c le small fits = omega arith

reload_timer-active :
    (s : TimerState) (id : ℕ)
    → id < max_timers
    → (s.timers id).is_active ≡ true
    → reload_timer id s
      ≡ sort_timer_back id (
          set_timer s id (record (s.timers id) {
            ticker_val = add64 (s.timers id).reload_val (elapsed_ticks s);
          }))
unfolding reload_timer
reload_timer-active s id lt on = ground arith

module _ (s : TimerState) (is : List ℕ) (id : ℕ) (a : IsActive s is) (on : has id is ≡ true)
    (lt : id < max_timers)
    (small : (s.timers id).reload_val + (s.cur_interval - s.cur_countdown) < u64_mod) where
  reload_timer-sorts : reload_timer id s ≡ sort_timer_back id (rewound s id)
  reload_timer-sorts = rw (reload_timer-active s id lt (a.flags id ∙ on)) (
      ap (λ v. sort_timer_back id (set_timer s id (record (s.timers id) { ticker_val = v })))
        (add64-elapsed (s.timers id).reload_val s.cur_interval s.cur_countdown a.timed.counting
          a.timed.bounded small))

  rewound-IsQueue : IsQueue (rewound s id) is
  rewound-IsQueue = record {
    chain =
        Chain-same s.timers (rewound s id).timers s.active_head is (λ j h. ground arith)
          a.queue.chain;
    distinct = a.queue.distinct;
    below = a.queue.below;
  }

  reloaded-IsActive :
      (u : TimerState)
      → (s.timers id).ticker_val ≤ (s.timers id).reload_val + (s.cur_interval - s.cur_countdown)
      → Resorted (rewound s id) id is u
      → IsActive u (sort_back (rewound s id).timers id is)
  reloaded-IsActive u later r = record {
    queue = r.queue;
    timed = record {
      sorted =
          Sorted-same ts u.timers js same
            (Sorted-sort_back s.timers id t later is on a.queue.distinct a.timed.sorted);
      due =
          Due-same ts u.timers u.cur_interval js same
            (Due-sort_back s.timers id t later u.cur_interval is on (rw interval a.timed.due));
      counting = omega (arith, interval, countdown, a.timed.counting);
      bounded = omega (arith, interval, a.timed.bounded);
      small =
          Small-same ts u.timers js same
            (Small-sort_back s.timers id t later is small a.timed.small);
    };
    flags = λ j.
        ground (arith, active-same ts u.timers j r.values, has-sort_back ts id j is on, a.flags j);
  }
    where
      ts : Timers
      ts = (rewound s id).timers

      t : Timer
      t = rewound_timer s id

      js : List ℕ
      js = sort_back ts id is

      same : SameTickers ts u.timers
      same j = ticker-same ts u.timers j r.values

      interval : u.cur_interval ≡ s.cur_interval
      interval = ap (λ v. v.cur_interval) r.rest

      countdown : u.cur_countdown ≡ s.cur_countdown
      countdown = ap (λ v. v.cur_countdown) r.rest

-- Reloading a running timer, by which it expires no earlier than before and within the range of
-- the tick values, succeeds. The timer then expires a whole period after the present tick, it is
-- moved back to its place by expiry, and otherwise no timer has changed but for its link: the
-- active list has the same timers, in order.
pub reload_timer-IsActive :
    (s : TimerState) (is : List ℕ) (id : ℕ)
    → IsActive s is
    → id < max_timers
    → has id is ≡ true
    → (s.timers id).ticker_val ≤ (s.timers id).reload_val + (s.cur_interval - s.cur_countdown)
    → (s.timers id).reload_val + (s.cur_interval - s.cur_countdown) < u64_mod
    → (u : TimerState) × (reload_timer id s ≡ ok u)
      × IsActive u (sort_back (rewound s id).timers id is)
      × SameValues (rewound s id).timers u.timers
      × ((j : ℕ) → has j (sort_back (rewound s id).timers id is) ≡ has j is)
reload_timer-IsActive s is id a lt on later small =
    let (u, sorts, r) =
      sort_timer_back-Resorted (rewound s id) id is (rewound-IsQueue s is id a on lt small) on lt in
    (
      u,
      reload_timer-sorts s is id a on lt small ∙ sorts,
      reloaded-IsActive s is id a on lt small u later r,
      r.values,
      λ j. has-sort_back (rewound s id).timers id j is on,
    )
