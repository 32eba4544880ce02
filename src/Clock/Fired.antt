-- ===== src/Clock/Fired.antt =====
-- What the expiry of the countdown in timer.c does for the timers that have expired, apart from
-- the timers themselves: the interrupts and the callbacks.
use fuzzware_emulator.Prelude.{
  ℕ, ◌<◌, ◌≡◌, refl, ◌∙◌, fun_ext, Bool, true, false, Option, none, some, List, [], ◌∷◌, Run, ok,
  ◌>>=◌, arith, ◌==◌, if◌then◌else◌, Bool-cases, inl, inr, has, u64_mod,
}
use fuzzware_emulator.Engine.{Engine, err_ok}
use fuzzware_emulator.Timer.{Timer, Timers, TimerState, Callback, set_timer, timer_irq_not_used}
use fuzzware_emulator.Timer.Chain.{IsQueue, Chain-update}
use fuzzware_emulator.Timer.Back.{SortedBack, sort_timer_back-SortedBack}
use fuzzware_emulator.Nvic.State.{NvicConfig}
use fuzzware_emulator.Nvic.Exception.{nvic_set_pending}
use fuzzware_emulator.Machine.{Machine, on_cpu, exit_with}
use fuzzware_emulator.Systick.{systick_trigger_callback}
use fuzzware_emulator.Clock.{trigger_callback, ding}

-- The callbacks that neither read the input nor change a timer.
abbrev pub is_quiet : Option Callback → Bool
is_quiet (some (Callback.interrupt_trigger k)) = false
is_quiet _ = true

-- A timer that goes off without a fault and does not at once go off again.
pub record IsReady (t : Timer) : Type 0 where
  pub reloads : 0 < t.reload_val
  pub small : t.reload_val < u64_mod
  pub irq : t.irq_num < 256
  pub quiet : is_quiet t.trigger_callback ≡ true

-- The timers of a list that have this tick value, in the order of the list.
abbrev pub expired : Timers → ℕ → List ℕ → List ℕ
expired ts v [] = []
expired ts v (j ∷ js) =
    let rest = expired ts v js in if (ts j).ticker_val == v then j ∷ rest else rest

-- The timer after it has gone off.
abbrev pub reloaded : Timer → Timer
reloaded t = record t { ticker_val = t.reload_val }

module _ {Uc : Type 0} (e : Engine Uc) (config : NvicConfig) (file : Option (List ℕ)) where
  -- The interrupt of a timer, if it has one, and its callback.
  abbrev pub goes_off : Timer → Machine Uc → Run (Machine Uc)
  goes_off t m = trigger_callback e config file t.trigger_callback (
      if t.irq_num == timer_irq_not_used then m else on_cpu (nvic_set_pending e config t.irq_num) m)

  abbrev pub all_go_off : Timers → List ℕ → Machine Uc → Run (Machine Uc)
  all_go_off ts [] m = ok m
  all_go_off ts (j ∷ js) m = goes_off (ts j) m >>= all_go_off ts js

  -- A run that succeeds, keeps the timers, and does not depend on them.
  abbrev pub KeepsTimers : (Machine Uc → Run (Machine Uc)) → Machine Uc → Type 0
  KeepsTimers f m =
      (r : Machine Uc) × (f m ≡ ok r)
      × (r.timers ≡ m.timers)
      × ((x : TimerState) → f (record m { timers = x }) ≡ ok (record r { timers = x }))

  callback-KeepsTimers :
      (c : Option Callback) (m : Machine Uc)
      → is_quiet c ≡ true
      → KeepsTimers (trigger_callback e config file c) m
  unfolding trigger_callback systick_trigger_callback
  callback-KeepsTimers none m q = (m, refl, refl, λ x. refl)
  callback-KeepsTimers (some Callback.systick_trigger) m q =
      (systick_trigger_callback e config m, refl, ground arith, λ x. ground arith)
  callback-KeepsTimers (some (Callback.interrupt_trigger k)) m q = cc
  callback-KeepsTimers (some Callback.fuzz_consumption_timeout) m q =
      (on_cpu (exit_with e err_ok) m, refl, refl, λ x. refl)
  callback-KeepsTimers (some Callback.instr_limit_timeout) m q =
      (on_cpu (exit_with e err_ok) m, refl, refl, λ x. refl)

  goes_off-KeepsTimers : (t : Timer) (m : Machine Uc) → IsReady t → KeepsTimers (goes_off t) m
  goes_off-KeepsTimers t m ready = elim (Bool-cases (t.irq_num == timer_irq_not_used)) [
    | inl none_used ↦ rw none_used (callback-KeepsTimers t.trigger_callback m ready.quiet)
    | inr used ↦ rw used (
        callback-KeepsTimers t.trigger_callback (on_cpu (nvic_set_pending e config t.irq_num) m)
          ready.quiet)
  ]

  pub all_go_off-KeepsTimers :
      (ts : Timers) (js : List ℕ) (m : Machine Uc)
      → ((j : ℕ) → has j js ≡ true → IsReady (ts j))
      → KeepsTimers (all_go_off ts js) m
  all_go_off-KeepsTimers ts [] m ready = (m, refl, refl, λ x. refl)
  all_go_off-KeepsTimers ts (j ∷ js) m ready =
      let (r, run, timers, any) = goes_off-KeepsTimers (ts j) m (ready j (ground arith)) in
      let (r', run', timers', any') =
        all_go_off-KeepsTimers ts js r (λ k h. ready k (ground (arith, h))) in
      (r', rw run run', timers' ∙ timers, λ x. rw (any x) (any' x))

  -- The links, and what other timers show, do not matter.
  pub all_go_off-same :
      (ts us : Timers) (js : List ℕ) (m : Machine Uc)
      → ((j : ℕ)
          → ((us j).irq_num ≡ (ts j).irq_num) × ((us j).trigger_callback ≡ (ts j).trigger_callback))
      → all_go_off us js m ≡ all_go_off ts js m
  all_go_off-same ts us [] m same = refl
  all_go_off-same ts us (j ∷ js) m same =
      let later : all_go_off us js ≡ all_go_off ts js =
        fun_ext (λ r. all_go_off-same ts us js r same) in
      rw (later, (same j).0, (same j).1) refl

  -- The body of the loop over the expired timers, for the timer at the front.
  pub ding-front :
      (i : ℕ) (is : List ℕ) (m : Machine Uc)
      → IsQueue m.timers (i ∷ is)
      → IsReady (m.timers.timers i)
      → (u : TimerState) × (r : Machine Uc) × (ding e config file i m
          ≡ ok (record r { timers = u }))
        × SortedBack (set_timer m.timers i (reloaded (m.timers.timers i))) i is u
        × (goes_off (m.timers.timers i) m ≡ ok r)
        × (r.timers ≡ m.timers)
  unfolding ding
  ding-front i is m q ready =
      let t = m.timers.timers i in
      let s = set_timer m.timers i (reloaded t) in
      let next_at : (s.timers i).next ≡ t.next = ground arith in
      let q' : IsQueue s (i ∷ is) = record {
        chain = (
          q.chain.0,
          rw next_at (Chain-update m.timers.timers t.next is i (reloaded t) q.distinct.0 q.chain.1),
        );
        distinct = q.distinct;
        below = q.below;
      } in
      let (u, sorts, back) = sort_timer_back-SortedBack s i is q' in
      let (r, run, timers, any) = goes_off-KeepsTimers t m ready in
      (u, r, rw (ding, sorts) (ground (arith, ready.irq, any u)), back, run, timers)
