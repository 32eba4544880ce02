-- ===== src/Timer/Period.antt =====
-- `set_timer_reload_val` and `rem_timer` of timer.c keep the active list in order.
use fuzzware_emulator.Prelude.{
  ℕ, suc, if◌then◌else◌, ◌<◌, ◌≡◌, refl, subst, ◌∙◌, inl, inr, true, false, none, List, [], ◌∷◌, ok,
  arith, has, without, ◌==◌, has-without_self, has-without_ne, Bool-cases, update, u64_mod, sub32,
}
use fuzzware_emulator.Timer.{
  Timer, TimerState, max_timers, max_reload_val, reload_or_max, set_timer, set_values,
  remove_active_timer, insert_active_timer, set_timer_reload_val, rem_timer, zero_timer, shrink,
}
use fuzzware_emulator.Timer.Chain.{Chain, IsQueue, Chain-update, synced}
use fuzzware_emulator.Timer.Insert.{
  insert_sorted, has-insert_sorted, next-synced, head-synced, insert_active_timer-Inserted,
}
use fuzzware_emulator.Timer.Remove.{Removed, remove_active_timer-Removed}
use fuzzware_emulator.Timer.Order.{IsTimed, update-SameOn, Sorted-on, Due-on, Small-on}
use fuzzware_emulator.Timer.Timed.{insert_active_timer-IsTimed, remove_active_timer-IsTimed}
use fuzzware_emulator.Timer.Active.{IsActive, active-synced, stop_timer-IsActive}

-- A change of a timer that is not on the list.
update-IsQueue :
    (s : TimerState) (is : List ℕ) (i : ℕ) (t : Timer)
    → has i is ≡ false
    → IsQueue s is
    → IsQueue (set_timer s i t) is
update-IsQueue s is i t out q = record {
  chain = Chain-update s.timers s.active_head is i t out q.chain;
  distinct = q.distinct;
  below = q.below;
}

update-IsTimed :
    (s : TimerState) (is : List ℕ) (i : ℕ) (t : Timer)
    → has i is ≡ false
    → IsTimed s is
    → IsTimed (set_timer s i t) is
update-IsTimed s is i t out h =
    let same = update-SameOn s.timers i t is out in
    record {
      sorted = Sorted-on s.timers (update s.timers i t) is same h.sorted;
      due = Due-on s.timers (update s.timers i t) s.cur_interval is same h.due;
      counting = h.counting;
      bounded = h.bounded;
      small = Small-on s.timers (update s.timers i t) is same h.small;
    }

-- The only timer of the list points to no other when it has been taken off.
next_of_last :
    (s u : TimerState) (is : List ℕ) (i : ℕ)
    → IsQueue s is
    → has i is ≡ true
    → Removed (synced s is) is i u
    → without i is ≡ []
    → (u.timers i).next ≡ none
next_of_last s u [] i q at r e = absurd (ground (arith, at))
next_of_last s u (j ∷ []) i q at r e = elim r.front [
  | inl (head, state) ↦
      (let front : j ≡ i = ground (arith, at) in
        let last : ((synced s (j ∷ [])).timers i).next ≡ none =
          next-synced s (j ∷ []) i ∙ subst (λ x. (s.timers x).next ≡ none) front q.chain.1 in
        ground (arith, state, last))
  | inr (head, interval, countdown) ↦
      (let none_left : u.active_head ≡ none =
          subst (λ l. Chain u.timers u.active_head l) e r.queue.chain in
        absurd (ground (arith, none_left, head, head-synced s (j ∷ []), q.chain.0)))
]
next_of_last s u (j ∷ k ∷ is) i q at r e = absurd (ground (arith, e))

-- A timer whose values are replaced while it is not on the list.
pub replaced-IsActive :
    (s : TimerState) (is : List ℕ) (id : ℕ) (t : Timer)
    → IsActive s is
    → has id is ≡ false
    → t.is_active ≡ false
    → IsActive (set_timer s id t) is
replaced-IsActive s is id t a out off = record {
  queue = update-IsQueue s is id t out a.queue;
  timed = update-IsTimed s is id t out a.timed;
  flags = λ j. elim (Bool-cases (j == id)) [
    | inl same ↦ ground (arith, same, off, out)
    | inr other ↦ ground (arith, other, a.flags j)
  ];
}

-- The active timer is taken off the list, changed, and put back.
moved-IsActive :
    (s : TimerState) (is : List ℕ) (id v : ℕ)
    → IsActive s is
    → id < max_timers
    → has id is ≡ true
    → v < u64_mod
    → (t u : TimerState) × (js : List ℕ) × (remove_active_timer id s ≡ ok t)
      × (insert_active_timer id (set_values t id v) ≡ ok u)
      × IsActive u js
      × ((j : ℕ) → has j js ≡ has j is)
      × ((u.timers id).reload_val ≡ v)
moved-IsActive s is id v a lt at small =
    let (t, removes, r) = remove_active_timer-Removed s is id a.queue at in
    let (t', removes', queue, timed) = remove_active_timer-IsTimed s is id a.queue a.timed at in
    let t-eq : t' ≡ t = ground (arith, removes, removes') in
    let L = without id is in
    let out : has id L ≡ false = has-without_self id is a.queue.distinct in
    let w : Timer = record (t.timers id) { reload_val = v; ticker_val = v } in
    let q = update-IsQueue t L id w out r.queue in
    let timed_w = update-IsTimed t L id w out (subst (λ x. IsTimed x L) t-eq timed) in
    let last : L ≡ [] → ((set_values t id v).timers id).next ≡ none =
      λ e. ground (arith, next_of_last s t is id a.queue at r e) in
    let (u, inserts, i) = insert_active_timer-Inserted (set_values t id v) L id q lt out last in
    let (u', inserts', queue_u, timed_u) =
      insert_active_timer-IsTimed (set_values t id v) L id q timed_w lt out (ground (arith, small))
        last in
    let u-eq : u' ≡ u = ground (arith, inserts, inserts') in
    let js = insert_sorted (synced (set_values t id v) L).timers id L in
    let members : (j : ℕ) → has j js ≡ has j is = λ j. elim (Bool-cases (j == id)) [
      | inl same ↦
          ground (arith, same, at, has-insert_sorted (synced (set_values t id v) L).timers id j L)
      | inr other ↦ ground (
        arith,
        other,
        has-without_ne id j is other,
        has-insert_sorted (synced (set_values t id v) L).timers id j L,
      )
    ] in
    (
      t,
      u,
      js,
      removes,
      inserts,
      record {
        queue = i.queue;
        timed = subst (λ x. IsTimed x js) u-eq timed_u;
        flags = λ j. ground (
          arith,
          members j,
          a.flags j,
          i.values j,
          r.values j,
          active-synced s is j,
          active-synced (set_values t id v) L j,
        );
      },
      members,
      ground (arith, i.values id),
    )

-- Giving a timer of the array a new period succeeds and sets its reload value, a period of 0 as
-- the longest one; the active list holds the same timers, in order, and the countdown runs past no
-- expiry.
pub set_timer_reload_val-IsActive :
    (s : TimerState) (is : List ℕ) (id reload : ℕ)
    → IsActive s is
    → id < max_timers
    → reload < u64_mod
    → (u : TimerState) × (js : List ℕ) × (set_timer_reload_val id reload s ≡ ok u)
      × IsActive u js
      × ((j : ℕ) → has j js ≡ has j is)
      × ((u.timers id).reload_val ≡ (if reload == 0 then max_reload_val else reload))
unfolding set_timer_reload_val
set_timer_reload_val-IsActive s is id reload a lt small =
    let v = reload_or_max reload in
    elim (Bool-cases ((s.timers id).reload_val == v)) [
      | inl same ↦ (s, is, ground (arith, same), a, λ j. refl, ground (arith, same))
      | inr new ↦ elim (Bool-cases (s.timers id).is_active) [
        | inr off ↦
            (let out : has id is ≡ false = ground (arith, off, a.flags id) in
              (
                set_values s id v,
                is,
                ground (arith, new, off),
                replaced-IsActive s is id (record (s.timers id) { reload_val = v; ticker_val = v })
                    a out (ground (arith, off)),
                λ j. refl,
                ground arith,
              ))
        | inl on ↦
            (let at : has id is ≡ true = ground (arith, on, a.flags id) in
              let (t, u, js, removes, inserts, active, members, period) =
                moved-IsActive s is id v a lt at (ground (arith, small)) in
              (u, js, ground (arith, new, on, removes, inserts), active, members, period))
      ]
    ]

without-absent : (i : ℕ) (is : List ℕ) → has i is ≡ false → without i is ≡ is
without-absent i [] h = refl
without-absent i (j ∷ js) h = ground (arith, without-absent i js)

-- The slot is given back.
zeroed-IsActive :
    (s : TimerState) (is : List ℕ) (id end num : ℕ)
    → IsActive s is
    → has id is ≡ false
    → IsActive
        (record s { timers = update s.timers id zero_timer; end_ind = end; num_inuse = num })
        is
zeroed-IsActive s is id end num a out =
    let q = update-IsQueue s is id zero_timer out a.queue in
    let t = update-IsTimed s is id zero_timer out a.timed in
    record {
      queue = record { chain = q.chain; distinct = q.distinct; below = q.below };
      timed = record {
        sorted = t.sorted;
        due = t.due;
        counting = t.counting;
        bounded = t.bounded;
        small = t.small;
      };
      flags = λ j. elim (Bool-cases (j == id)) [
        | inl same ↦ ground (arith, same, out)
        | inr other ↦ ground (arith, other, a.flags j)
      ];
    }

-- Removing a timer of the array that is in use succeeds, whether it is running or not: it is off
-- the active list, which keeps the other timers in order, its slot is empty, and the countdown runs
-- past no expiry.
pub rem_timer-IsActive :
    (s : TimerState) (is : List ℕ) (id : ℕ)
    → IsActive s is
    → id < max_timers
    → (s.timers id).in_use ≡ true
    → (u : TimerState) × (rem_timer id s ≡ ok u)
      × IsActive u (without id is)
      × (u.timers id ≡ zero_timer)
unfolding rem_timer
rem_timer-IsActive s is id a lt used = elim (Bool-cases (s.timers id).is_active) [
  | inl on ↦
      (let (t, stops, active, same) = stop_timer-IsActive s is id a lt used on in
        let ts = update t.timers id zero_timer in
        (
          record t {
            timers = ts;
            end_ind = shrink (suc id) t.end_ind ts;
            num_inuse = sub32 t.num_inuse 1;
          },
          ground (arith, on, used, stops),
          zeroed-IsActive t (without id is) id (shrink (suc id) t.end_ind ts) (sub32 t.num_inuse 1)
              active (has-without_self id is a.queue.distinct),
          ground arith,
        ))
  | inr off ↦
      (let out : has id is ≡ false = ground (arith, off, a.flags id) in
        let ts = update s.timers id zero_timer in
        (
          record s {
            timers = ts;
            end_ind = shrink (suc id) s.end_ind ts;
            num_inuse = sub32 s.num_inuse 1;
          },
          ground (arith, off, used),
          rw (without-absent id is out)
              (zeroed-IsActive s is id (shrink (suc id) s.end_ind ts) (sub32 s.num_inuse 1) a out),
          ground arith,
        ))
]
