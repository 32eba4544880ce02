-- ===== src/Clock/Expires.antt =====
-- The basic block that ends the countdown of timer.c.
use fuzzware_emulator.Prelude.{
  ℕ, ◌-◌, ◌≤◌, ◌<◌, ◌≡◌, ◌≢◌, refl, sym, ap, ◌∙◌, true, Option, none, some, List, [], ◌∷◌, ok,
  arith, ◌==◌, if◌then◌else◌, has, subst, add64, u64_mod,
}
use fuzzware_emulator.Engine.{Engine}
use fuzzware_emulator.Timer.{Timer, Timers, TimerState, walk_fuel}
use fuzzware_emulator.Timer.Chain.{
  IsQueue, length-le_of_IsQueue, lowered, subtract_elapsed-lowered, Chain-lowered,
}
use fuzzware_emulator.Timer.Insert.{Sorted}
use fuzzware_emulator.Timer.Order.{IsTimed, Due, Small, Due-of_Sorted}
use fuzzware_emulator.Timer.Timed.{Sorted-lowered, Small-lowered, Within-refl}
use fuzzware_emulator.Timer.Active.{IsActive}
use fuzzware_emulator.Nvic.State.{NvicConfig}
use fuzzware_emulator.Machine.{Machine}
use fuzzware_emulator.Clock.{advance, ding_expired, timer_countdown_expired, timer_tick_block_hook}
use fuzzware_emulator.Clock.Fired.{
  IsReady, expired, reloaded, all_go_off, all_go_off-KeepsTimers, all_go_off-same,
}
use fuzzware_emulator.Clock.Lists.{
  has-expired, Due-at, Small-at, IsReady-lowered, length-expired, expired-lowered,
}
use fuzzware_emulator.Clock.Expiry.{ding_expired-Expired, ok-injective}

-- A timer after the expiry: one that showed the interval starts again, another one on the list has
-- that many fewer ticks to go.
abbrev pub elapsed_timer : Timers → ℕ → List ℕ → ℕ → Timer
elapsed_timer ts interval is j =
    if has j is
    then if (ts j).ticker_val == interval
      then reloaded (ts j)
      else record (ts j) { ticker_val = (ts j).ticker_val - interval }
    else ts j

module _ {Uc : Type 0} (e : Engine Uc) (config : NvicConfig) (file : Option (List ℕ)) where
  -- The state behind `advance`, at the end of the countdown.
  abbrev advanced : Machine Uc → List ℕ → Machine Uc
  advanced m is = record m {
    timers = record m.timers {
      cur_countdown = 0;
      timers = lowered m.timers.timers is m.timers.cur_interval;
      global_ticker = add64 m.timers.global_ticker m.timers.cur_interval;
    };
  }

  -- The state behind the loop, with the countdown to the timer at the front.
  abbrev counting_down : ℕ → Machine Uc → Machine Uc
  counting_down c m = record m {
    timers = record m.timers {
      cur_interval = (m.timers.timers c).ticker_val;
      cur_countdown = (m.timers.timers c).ticker_val;
    };
  }

  IsTimed-counting_down :
      (c : ℕ) (js : List ℕ) (m : Machine Uc)
      → IsQueue m.timers js
      → m.timers.active_head ≡ some c
      → Sorted m.timers.timers js
      → Small m.timers.timers js
      → IsTimed (counting_down c m).timers js
  IsTimed-counting_down c [] m q head sorted small = absurd (ground (arith, q.chain, head))
  IsTimed-counting_down c (j ∷ js) m q head sorted small =
      let front : j ≡ c = ground (arith, q.chain, head) in
      record {
        sorted = sorted;
        due =
            subst (λ x. Due m.timers.timers (m.timers.timers x).ticker_val (j ∷ js)) front
              (Due-of_Sorted m.timers.timers j js sorted);
        counting = omega arith;
        bounded = subst (λ x. (m.timers.timers x).ticker_val < u64_mod) front small.0;
        small = small;
      }

  -- What goes off does not depend on the state of the timers.
  all_went_off :
      (m m1 : Machine Uc) (t : TimerState) (us : Timers) (js : List ℕ)
      → ((j : ℕ) → has j js ≡ true → IsReady (m.timers.timers j))
      → ((j : ℕ)
          → ((us j).irq_num ≡ (m.timers.timers j).irq_num)
            × ((us j).trigger_callback ≡ (m.timers.timers j).trigger_callback))
      → all_go_off e config file us js (record m { timers = t }) ≡ ok (record m1 { timers = t })
      → all_go_off e config file m.timers.timers js m ≡ ok (record m1 { timers = m.timers })
  all_went_off m m1 t us js ready same run =
      let ts = m.timers.timers in
      let (r, goes, kept, any) = all_go_off-KeepsTimers e config file ts js m ready in
      let from_t : record r { timers = t } ≡ record m1 { timers = t } = ok-injective (
        sym (any t)
        ∙ sym (all_go_off-same e config file ts us js (record m { timers = t }) same)
        ∙ run) in
      goes
      ∙ ap ok (
          ap (λ (z : TimerState). record r { timers = z }) kept
          ∙ ap (λ (z : Machine Uc). record z { timers = m.timers }) from_t)

  hook_at_end :
      (m m' : Machine Uc) (is : List ℕ) (c : ℕ)
      → m.timers.cur_countdown ≡ 1
      → is ≢ []
      → IsQueue m.timers is
      → ding_expired e config file walk_fuel m.timers.active_head (advanced m is) ≡ ok (c, m')
      → timer_tick_block_hook e config file m ≡ ok (counting_down c m')
  unfolding timer_tick_block_hook timer_countdown_expired advance
  hook_at_end m m' [] c last some_timer q run = absurd (some_timer refl)
  hook_at_end m m' (i ∷ is) c last some_timer q run = ground (
    arith,
    last,
    q.chain.0,
    subtract_elapsed-lowered walk_fuel m.timers.timers m.timers.active_head (i ∷ is)
        m.timers.cur_interval (omega (arith, length-le_of_IsQueue q)) q.distinct q.chain,
    run,
  )

  -- The basic block that ends the countdown, while the active list is in order and holds a timer,
  -- and each of its timers has a reload value other than 0, an interrupt in range and a callback
  -- that reads no input, succeeds: exactly the timers that showed the interval go off, once each
  -- and in their order on the list, and start again from their reload values, the others show the
  -- interval less, no other timer changes but for its link, the list holds the same timers and is
  -- in order, and the next countdown is longer than 0.
  pub timer_tick_block_hook-expires :
      (m : Machine Uc) (is : List ℕ)
      → IsActive m.timers is
      → is ≢ []
      → m.timers.cur_countdown ≡ 1
      → ((j : ℕ) → has j is ≡ true → IsReady (m.timers.timers j))
      → (m' : Machine Uc) × (js : List ℕ) × (timer_tick_block_hook e config file m ≡ ok m')
        × IsActive m'.timers js
        × ((j : ℕ) → has j js ≡ has j is)
        × (m'.timers.global_ticker ≡ add64 m.timers.global_ticker m.timers.cur_interval)
        × (0 < m'.timers.cur_countdown)
        × ((j : ℕ)
            → record (m'.timers.timers j) { next = none }
              ≡ record (elapsed_timer m.timers.timers m.timers.cur_interval is j) { next = none })
        × (all_go_off e config file m.timers.timers
              (expired m.timers.timers m.timers.cur_interval is)
              m
            ≡ ok (record m' { timers = m.timers }))
  timer_tick_block_hook-expires m is a some_timer last ready =
      let ts = m.timers.timers in
      let v = m.timers.cur_interval in
      let us = lowered ts is v in
      let at : (j : ℕ)
          → has j is ≡ true
          → (has j is ≡ true) × (v ≤ (ts j).ticker_val) × ((ts j).ticker_val < u64_mod) =
        λ j h. (h, Due-at ts v j is a.timed.due h, Small-at ts j is a.timed.small h) in
      let gone = expired-lowered ts v is is a.timed.bounded at in
      let (c, m1, run, x) =
        ding_expired-Expired e config file walk_fuel is (advanced m is) some_timer
          (omega (arith, length-expired us 0 is, length-le_of_IsQueue a.queue))
          (record {
            chain = Chain-lowered ts m.timers.active_head is is v a.queue.chain;
            distinct = a.queue.distinct;
            below = a.queue.below;
          })
          (Sorted-lowered ts is v v (omega arith) is (Within-refl is) a.timed.small a.timed.due
            a.timed.sorted)
          (Small-lowered ts is v v (omega arith) is (Within-refl is) a.timed.small a.timed.due)
          (λ j h. IsReady-lowered ts is v j (ready j h)) in
      (
        counting_down c m1,
        x.order,
        hook_at_end m m1 is c last some_timer a.queue run,
        record {
          queue = record {
            chain = x.queue.chain;
            distinct = x.queue.distinct;
            below = x.queue.below;
          };
          timed = IsTimed-counting_down c x.order m1 x.queue x.head x.sorted x.small;
          flags = λ j. ground (arith, x.timer j, x.members j, a.flags j);
        },
        x.members,
        ground (arith, x.rest),
        x.later,
        λ j. ground (arith, x.timer j, at j, a.timed.bounded),
        all_went_off m m1 (advanced m is).timers us (expired ts v is)
            (λ j h. ready j (has-expired ts v j is h)) (λ j. (ground arith, ground arith))
            (ap (λ L. all_go_off e config file us L (advanced m is)) (sym gone) ∙ x.gone_off),
      )
