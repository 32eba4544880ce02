-- ===== src/Timer/Remove.antt =====
-- `remove_active_timer` of timer.c: the timer leaves the list, the others keep their order.
use fuzzware_emulator.Prelude.{
  ℕ, zero, suc, ◌<◌, ◌≡◌, refl, ap, ◌∙◌, ◌⊎◌, inl, inr, true, false, Option, none, some, List, [],
  ◌∷◌, Run, ok, arith, ◌==◌, Bool-cases, length, has, Distinct, AllBelow, without, Distinct-without,
  has-without_other,
}
use fuzzware_emulator.Timer.{
  Timers, TimerState, max_timers, walk_fuel, find_pred, remove_active_timer, sync_timers,
  drop_front, link,
}
use fuzzware_emulator.Timer.Chain.{
  Chain, IsQueue, Chain-update, synced, sync_timers-synced, IsQueue-synced, length-le_of_IsQueue,
}
use fuzzware_emulator.Timer.Insert.{SameValues, next_other, head-synced}

without_hit : (i j : ℕ) (js : List ℕ) → (j == i) ≡ true → without i (j ∷ js) ≡ js
without_hit i j js e = ground arith

without_miss : (i j : ℕ) (js : List ℕ) → (j == i) ≡ false → without i (j ∷ js) ≡ j ∷ without i js
without_miss i j js e = ground arith

-- What the walk to the predecessor finds: linking around the timer takes it off the list.
abbrev Pred : Timers → ℕ → List ℕ → ℕ → Run ℕ → Type 0
Pred ts c js tim r =
    (m : ℕ) × (r ≡ ok m)
    × (has m (c ∷ js) ≡ true)
    × Chain (link ts m (ts tim).next) (some c) (c ∷ without tim js)

has_ne : (i j : ℕ) (is : List ℕ) → has i is ≡ false → has j is ≡ true → (i == j) ≡ false
has_ne i j [] h g = cc
has_ne i j (k ∷ ks) h g = ground (arith, has_ne i j ks)

next-link : (ts : Timers) (c : ℕ) (p : Option ℕ) → (link ts c p c).next ≡ p
next-link ts c p = ground arith

find_pred-Pred :
    (k : ℕ) (ts : Timers) (c : ℕ) (js : List ℕ) (tim : ℕ)
    → length js < k
    → Chain ts (ts c).next js
    → Distinct (c ∷ js)
    → has tim js ≡ true
    → Pred ts c js tim (find_pred k (some c) tim ts)
unfolding find_pred
find_pred-Pred zero ts c js tim f h d at = absurd (omega arith)
find_pred-Pred (suc k) ts c [] tim f h d at = cc
find_pred-Pred (suc k) ts c (n ∷ js) tim f h d at = elim (Bool-cases (n == tim)) [
  | inl e ↦ (
    c,
    rw (h.0, find_pred) (rw (e, find_pred)),
    ground arith,
    rw (without_hit tim n js e) (
      refl,
      let n-eq : n ≡ tim = ground arith in
          rw (next-link ts c (ts tim).next, ← n-eq)
            (Chain-update ts (ts n).next js c (record (ts c) { next = (ts tim).next })
              (ground arith) h.1),
    ),
  )
  | inr e ↦ later e (find_pred-Pred k ts n js tim (omega arith) h.1 d.1 (ground arith))
]
  where
    later :
        (n == tim) ≡ false
        → Pred ts n js tim (find_pred k (some n) tim ts)
        → Pred ts c (n ∷ js) tim (find_pred (suc k) (some c) tim ts)
    later e (m, r, i, l) = (
      m,
      rw (h.0, find_pred) (rw (e, find_pred) (rw h.0 r)),
      ground arith,
      rw (without_miss tim n js e) (
        refl,
        rw
            (
              next_other ts c m (record (ts m) { next = (ts tim).next })
                  (has_ne c m (n ∷ js) d.0 i),
              h.0,
            )
            l,
      ),
    )

-- The outcome of removing `tim` from a state that `sync_timers` has brought up to date.
pub record Removed (s : TimerState) (is : List ℕ) (tim : ℕ) (t : TimerState) : Type 0 where
  pub queue : IsQueue t (without tim is)
  pub values : SameValues s.timers t.timers
  pub ticker : t.global_ticker ≡ s.global_ticker
  -- The countdown is set anew exactly if the timer was at the front.
  pub front :
      ((s.active_head ≡ some tim) × (t ≡ drop_front s (s.timers tim).next))
      ⊎ ((t.active_head ≡ s.active_head)
          × (t.cur_interval ≡ s.cur_interval)
          × (t.cur_countdown ≡ s.cur_countdown))

AllBelow-without_any : (n i : ℕ) (is : List ℕ) → AllBelow n is → AllBelow n (without i is)
AllBelow-without_any n i [] b = tt
AllBelow-without_any n i (j ∷ js) b = ground (arith, AllBelow-without_any n i js)

drop_front-IsQueue :
    (t : TimerState) (p : Option ℕ) (is : List ℕ)
    → Chain t.timers p is
    → Distinct is
    → AllBelow max_timers is
    → IsQueue (drop_front t p) is
drop_front-IsQueue t none [] h d b = record { chain = refl; distinct = d; below = b }
drop_front-IsQueue t none (i ∷ is) h d b = cc
drop_front-IsQueue t (some n) is h d b = record { chain = h; distinct = d; below = b }

drop_front-ticker :
    (t : TimerState) (p : Option ℕ) → (drop_front t p).global_ticker ≡ t.global_ticker
drop_front-ticker t none = refl
drop_front-ticker t (some n) = refl

drop_front-values : (t : TimerState) (p : Option ℕ) → SameValues t.timers (drop_front t p).timers
drop_front-values t none j = refl
drop_front-values t (some n) j = refl

remove_from :
    (s t : TimerState) (is : List ℕ) (tim : ℕ)
    → IsQueue s is
    → sync_timers s ≡ ok t
    → IsQueue t is
    → t.active_head ≡ s.active_head
    → has tim is ≡ true
    → (u : TimerState) × (remove_active_timer tim s ≡ ok u) × Removed t is tim u
unfolding remove_active_timer
remove_from s t [] tim q e q' eh at = cc
remove_from s t (c ∷ is) tim q e q' eh at = elim (Bool-cases (c == tim)) [
  | inl hit ↦ (
    drop_front t (t.timers tim).next,
    rw (e, q.chain.0) (rw hit),
    (let c-eq : c ≡ tim = ground arith in
        record {
          queue = rw (without_hit tim c is hit) (
              rw (← c-eq)
                (drop_front-IsQueue t (t.timers c).next is q'.chain.1 q'.distinct.1 q'.below.1));
          values = drop_front-values t (t.timers tim).next;
          ticker = drop_front-ticker t (t.timers tim).next;
          front = inl (q'.chain.0 ∙ ap some c-eq, refl);
        }),
  )
  | inr miss ↦ walked miss (
      find_pred-Pred walk_fuel t.timers c is tim (omega (arith, length-le_of_IsQueue q')) q'.chain.1
        q'.distinct (ground arith))
]
  where
    walked :
        (c == tim) ≡ false
        → Pred t.timers c is tim (find_pred walk_fuel (some c) tim t.timers)
        → (u : TimerState) × (remove_active_timer tim s ≡ ok u) × Removed t (c ∷ is) tim u
    walked miss (m, r, i, l) = (
      record t { timers = link t.timers m (t.timers tim).next },
      rw (e, q.chain.0) (rw miss (rw r)),
      record {
        queue = rw (without_miss tim c is miss) (record {
          chain = (q'.chain.0, l.1);
          distinct = ground (arith, Distinct-without tim is, has-without_other c tim is);
          below = ground (arith, AllBelow-without_any max_timers tim is);
        });
        values = λ j. ground arith;
        ticker = refl;
        front = inr (refl, refl, refl);
      },
    )

-- Removing a timer of the active list succeeds: after the update of the tick values, it is off
-- the list, the others keep their order, no timer has changed but for its link, and the countdown
-- is set anew exactly if the timer was at the front.
pub remove_active_timer-Removed :
    (s : TimerState) (is : List ℕ) (tim : ℕ)
    → IsQueue s is
    → has tim is ≡ true
    → (u : TimerState) × (remove_active_timer tim s ≡ ok u) × Removed (synced s is) is tim u
remove_active_timer-Removed s is tim q at =
    remove_from s (synced s is) is tim q (sync_timers-synced q) (IsQueue-synced q)
      (head-synced s is) at
