-- ===== src/Timer/Stale.antt =====
-- A flaw of timer.c: `remove_active_timer` leaves the `next` pointer of the timer as it was, and
-- `insert_active_timer` does not write it when the active list is empty.
use fuzzware_emulator.Prelude.{
  ℕ, ◌≡◌, refl, subst, ap, ◌∙◌, inl, inr, ◌≢◌, Bool, true, false, Option, none, some, List, [], ◌∷◌,
  ok, arith, ◌==◌, ◌>>=◌, has, without,
}
use fuzzware_emulator.Timer.{
  Timers, TimerState, set_front, drop_front, start_timer, stop_timer, insert_active_timer,
}
use fuzzware_emulator.Timer.Chain.{Chain, IsQueue, synced, sync_timers-synced}
use fuzzware_emulator.Timer.Insert.{next-synced, head-synced}
use fuzzware_emulator.Timer.Remove.{Removed, remove_active_timer-Removed}
use fuzzware_emulator.Timer.Active.{
  IsActive, CanStart, active-synced, set_active, start_timer-insert, stop_timer-remove,
  stop_timer-IsActive, set_active-IsQueue,
}

drop_front-timers : (s : TimerState) (p : Option ℕ) → (drop_front s p).timers ≡ s.timers
drop_front-timers s none = refl
drop_front-timers s (some n) = refl

head_of_without_front :
    (u : TimerState) (c : ℕ) (is : List ℕ)
    → has c is ≡ false
    → IsQueue u (without c (c ∷ is))
    → u.active_head ≢ some c
head_of_without_front u c [] out q e = ground (arith, q.chain)
head_of_without_front u c (i ∷ is) out q e = ground (arith, q.chain)

-- Stopping the front timer changes no link.
stop_front-next :
    (s u : TimerState) (c : ℕ) (is : List ℕ)
    → IsQueue s (c ∷ is)
    → Removed (synced s (c ∷ is)) (c ∷ is) c u
    → (j : ℕ) → (u.timers j).next ≡ (s.timers j).next
stop_front-next s u c is q r j = elim r.front [
  | inl (e, eu) ↦
      ap (λ (v : TimerState). (v.timers j).next) eu
      ∙ ap (λ (ts : Timers). (ts j).next)
          (drop_front-timers (synced s (c ∷ is)) ((synced s (c ∷ is)).timers c).next)
      ∙ next-synced s (c ∷ is) j
  | inr (e, ei, ec) ↦
      absurd
        (head_of_without_front u c is q.distinct.0 r.queue (e ∙ head-synced s (c ∷ is) ∙ q.chain.0))
]

values-synced :
    (s : TimerState) (is : List ℕ) (j : ℕ)
    → (((synced s is).timers j).in_use ≡ (s.timers j).in_use)
      × (((synced s is).timers j).reload_val ≡ (s.timers j).reload_val)
values-synced s is j = (ground arith, ground arith)

-- What stopping the front timer leaves: the rest of the list, and every link, use and reload value.
record Stopped (s : TimerState) (c : ℕ) (is : List ℕ) (u : TimerState) : Type 0 where
  active : IsActive u is
  next : (j : ℕ) → (u.timers j).next ≡ (s.timers j).next
  in_use : (j : ℕ) → (u.timers j).in_use ≡ (s.timers j).in_use
  reload : (j : ℕ) → (u.timers j).reload_val ≡ (s.timers j).reload_val

without_front : (c : ℕ) (is : List ℕ) → without c (c ∷ is) ≡ is
without_front c is = ground arith

stop_front :
    (s : TimerState) (c : ℕ) (is : List ℕ)
    → IsActive s (c ∷ is)
    → (s.timers c).in_use ≡ true
    → (u : TimerState) × (stop_timer c s ≡ ok u) × Stopped s c is u
stop_front s c is a used =
    let (u, e, au, values) = stop_timer-IsActive s (c ∷ is) c a a.queue.below.0 used on in
    let (v, ev, r) = remove_active_timer-Removed t (c ∷ is) c q (ground arith) in
    let v-eq : v ≡ u = ground (arith, e, ev, stop_timer-remove s c a.queue.below.0 used on) in
    (
      u,
      e,
      record {
        active = subst (IsActive u) (without_front c is) au;
        next = λ j.
            stop_front-next t u c is q (subst (Removed (synced t (c ∷ is)) (c ∷ is) c) v-eq r) j
            ∙ next-t j;
        in_use = λ j. ground (arith, values j, values-synced t (c ∷ is) j);
        reload = λ j. ground (arith, values j, values-synced t (c ∷ is) j);
      },
    )
  where
    t : TimerState
    t = set_active s c false

    q : IsQueue t (c ∷ is)
    q = set_active-IsQueue s c false (c ∷ is) a.queue

    on : (s.timers c).is_active ≡ true
    on = a.flags c ∙ ground arith

    next-t : (j : ℕ) → (t.timers j).next ≡ (s.timers j).next
    next-t j = ground arith

insert_into_empty :
    (s : TimerState) (id : ℕ)
    → IsQueue s []
    → insert_active_timer id s ≡ ok (set_front (synced s []) id)
unfolding insert_active_timer
insert_into_empty s id q = ground (arith, sync_timers-synced q, q.chain)

set_active-next :
    (s : TimerState) (id : ℕ) (b : Bool) (j : ℕ)
    → ((set_active s id b).timers j).next ≡ (s.timers j).next
set_active-next s id b j = ground arith

set_active_ne :
    (s : TimerState) (id j : ℕ) (b : Bool)
    → (j == id) ≡ false
    → ((set_active s id b).timers j).is_active ≡ (s.timers j).is_active
set_active_ne s id j b e = ground arith

-- After the only two active timers, both in use and the front one with a period in range, have been
-- stopped, the front one first, starting the front one again
-- puts the other one back on the active list as well, although it is not flagged as active.
pub stop_stop_start-revives :
    (s : TimerState) (a b : ℕ)
    → IsActive s (a ∷ b ∷ [])
    → CanStart (s.timers a)
    → (s.timers b).in_use ≡ true
    → (u : TimerState) × ((do s' ← stop_timer a s; s'' ← stop_timer b s'; start_timer a s'') ≡ ok u)
      × Chain u.timers u.active_head (a ∷ b ∷ [])
      × ((u.timers b).is_active ≡ false)
stop_stop_start-revives s a b act can used =
    let (u, e, p) = stop_front s a (b ∷ []) act can.in_use in
    let (v, e', p') = stop_front u b [] p.active (p.in_use b ∙ used) in
    let w = set_active v a true in
    let q = set_active-IsQueue v a true [] p'.active.queue in
    let can' : CanStart (v.timers a) = record {
      in_use = p'.in_use a ∙ p.in_use a ∙ can.in_use;
      positive = omega (arith, p'.reload a, p.reload a, can.positive);
      in_range = omega (arith, p'.reload a, p.reload a, can.in_range);
    } in
    (
      set_front (synced w []) a,
      rw (e, e')
          (start_timer-insert v a act.queue.below.0 can' (p'.active.flags a)
            ∙ insert_into_empty w a q),
      (
        refl,
        (
          next-synced w [] a
              ∙ set_active-next v a true a
              ∙ p'.next a
              ∙ p.next a
              ∙ act.queue.chain.1.0,
          next-synced w [] b
              ∙ set_active-next v a true b
              ∙ p'.next b
              ∙ p.next b
              ∙ act.queue.chain.1.1,
        ),
      ),
      active-synced w [] b
          ∙ set_active_ne v a b true (ground (arith, act.queue.distinct))
          ∙ p'.active.flags b,
    )
