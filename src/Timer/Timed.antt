-- ===== src/Timer/Timed.antt =====
-- The countdown of timer.c: it never runs past the expiry of a timer, and bringing the tick values
-- up to date changes no reading.
use fuzzware_emulator.Prelude.{
  ℕ, ◌-◌, ◌≤◌, ◌<◌, ◌≡◌, subst, ◌⊎◌, inl, inr, true, false, Option, none, some, List, [], ◌∷◌, ok,
  arith, ◌==◌, Bool-cases, has, without, u64_mod, add64, if◌then◌else◌,
}
use fuzzware_emulator.Timer.{
  Timers, TimerState, max_timers, get_timer_ticker_val, sync_timers, elapsed_ticks,
  insert_active_timer, drop_front, remove_active_timer,
}
use fuzzware_emulator.Timer.Chain.{
  Chain, IsQueue, lowered, synced, sync_timers-synced, IsQueue-synced,
}
use fuzzware_emulator.Timer.Insert.{Sorted, insert_sorted, Inserted, insert_active_timer-Inserted}
use fuzzware_emulator.Timer.Remove.{Removed, remove_active_timer-Removed}
use fuzzware_emulator.Timer.Order.{
  IsTimed, ticker-same, Due, Small, Sorted-same, Due-same, Small-same, Due-of_Sorted,
  Sorted-insert_sorted, Due-insert_sorted, Small-insert_sorted, Due-without, Sorted-without,
  Small-without,
}

lowered-ticker :
    (ts : Timers) (is : List ℕ) (e i : ℕ)
    → has i is ≡ true
    → e ≤ (ts i).ticker_val
    → (ts i).ticker_val < u64_mod
    → (lowered ts is e i).ticker_val ≡ (ts i).ticker_val - e
lowered-ticker ts is e i h le b = ground arith

-- A part `js` of the list `is`.
abbrev pub Within : List ℕ → List ℕ → Type 0
Within is [] = Unit {0}
Within is (j ∷ js) = (has j is ≡ true) × Within is js

Within-cons : (i : ℕ) (is js : List ℕ) → Within is js → Within (i ∷ is) js
Within-cons i is [] h = tt
Within-cons i is (j ∷ js) h = (ground arith, Within-cons i is js h.1)

pub Within-refl : (is : List ℕ) → Within is is
Within-refl [] = tt
Within-refl (i ∷ is) = (ground arith, Within-cons i is is (Within-refl is))

module _ (ts : Timers) (is : List ℕ) (e n : ℕ) (le : e ≤ n) where
  Due-lowered :
      (js : List ℕ) → Within is js → Small ts js → Due ts n js → Due (lowered ts is e) (n - e) js
  Due-lowered [] w s d = tt
  Due-lowered (j ∷ js) w s d =
      (omega (arith, lowered-ticker ts is e j w.0 (omega arith) s.0), Due-lowered js w.1 s.1 d.1)

  pub Small-lowered :
      (js : List ℕ) → Within is js → Small ts js → Due ts n js → Small (lowered ts is e) js
  Small-lowered [] w s d = tt
  Small-lowered (j ∷ js) w s d =
      (omega (arith, lowered-ticker ts is e j w.0 (omega arith) s.0), Small-lowered js w.1 s.1 d.1)

  pub Sorted-lowered :
      (js : List ℕ)
      → Within is js
      → Small ts js
      → Due ts n js
      → Sorted ts js
      → Sorted (lowered ts is e) js
  Sorted-lowered [] w s d h = tt
  Sorted-lowered (j ∷ []) w s d h = tt
  Sorted-lowered (j ∷ k ∷ js) w s d h = (
    omega (
      arith,
      lowered-ticker ts is e j w.0 (omega arith) s.0,
      lowered-ticker ts is e k w.1.0 (omega arith) s.1.0,
    ),
    Sorted-lowered (k ∷ js) w.1 s.1 d.1 h.1,
  )

elapsed-sub :
    (s : TimerState) (is : List ℕ)
    → IsTimed s is
    → elapsed_ticks s ≡ s.cur_interval - s.cur_countdown
elapsed-sub s is t = omega arith

-- Bringing the tick values up to date keeps the list in order and no timer overdue.
pub IsTimed-synced : (s : TimerState) (is : List ℕ) → IsTimed s is → IsTimed (synced s is) is
IsTimed-synced s is t = elim (Bool-cases (s.cur_countdown == 0)) [
  | inl z ↦ rw z t
  | inr z ↦ rw z (record {
    sorted =
        Sorted-lowered s.timers is e s.cur_interval e-le is (Within-refl is) t.small t.due t.sorted;
    due =
        rw countdown-eq at
          (Due-lowered s.timers is e s.cur_interval e-le is (Within-refl is) t.small t.due);
    counting = omega arith;
    bounded = omega arith;
    small = Small-lowered s.timers is e s.cur_interval e-le is (Within-refl is) t.small t.due;
  })
]
  where
    e : ℕ
    e = elapsed_ticks s

    e-le : e ≤ s.cur_interval
    e-le = omega (arith, elapsed-sub s is t)

    countdown-eq : s.cur_interval - e ≡ s.cur_countdown
    countdown-eq = omega (arith, elapsed-sub s is t)

-- The front of the list when a timer is inserted behind it.
front_behind :
    (s u : TimerState) (is : List ℕ) (tim : ℕ)
    → IsQueue s is
    → IsQueue u (insert_sorted s.timers tim is)
    → has tim is ≡ false
    → u.active_head ≡ s.active_head
    → Due s.timers s.cur_interval is
    → s.cur_interval ≤ (s.timers tim).ticker_val
front_behind s u [] tim q q' out e d = absurd (ground (arith, q.chain, q'.chain))
front_behind s u (c ∷ is) tim q q' out e d = ground (arith, q.chain, q'.chain)

Inserted-IsTimed :
    (s u : TimerState) (is : List ℕ) (tim : ℕ)
    → IsQueue s is
    → IsTimed s is
    → has tim is ≡ false
    → (s.timers tim).ticker_val < u64_mod
    → Inserted s is tim u
    → IsTimed u (insert_sorted s.timers tim is)
Inserted-IsTimed s u is tim q t out b i = record {
  sorted = sorted;
  due = due_front i.front;
  counting = ground (arith, i.front, t.counting);
  bounded = ground (arith, i.front, t.bounded);
  small =
      Small-same s.timers u.timers js (λ j. ticker-same s.timers u.timers j i.values)
        (Small-insert_sorted s.timers tim is b t.small);
}
  where
    js : List ℕ
    js = insert_sorted s.timers tim is

    sorted : Sorted u.timers js
    sorted =
        Sorted-same s.timers u.timers js (λ j. ticker-same s.timers u.timers j i.values)
          (Sorted-insert_sorted s.timers tim is t.sorted)

    from_head :
        (ks : List ℕ)
        → Chain u.timers u.active_head ks
        → u.active_head ≡ some tim
        → Sorted u.timers ks
        → Due u.timers (u.timers tim).ticker_val ks
    from_head [] c e h = tt
    from_head (k ∷ ks) c e h =
        subst (λ x. Due u.timers (u.timers x).ticker_val (k ∷ ks)) (ground (arith, c))
          (Due-of_Sorted u.timers k ks h)

    due_front :
        ((u.active_head ≡ some tim)
            × (u.cur_interval ≡ (s.timers tim).ticker_val)
            × (u.cur_countdown ≡ (s.timers tim).ticker_val))
          ⊎ ((u.active_head ≡ s.active_head)
              × (u.cur_interval ≡ s.cur_interval)
              × (u.cur_countdown ≡ s.cur_countdown))
        → Due u.timers u.cur_interval js
    due_front (inl (e, ei, ec)) =
        rw (ei, ← ticker-same s.timers u.timers tim i.values) (from_head js i.queue.chain e sorted)
    due_front (inr (e, ei, ec)) = rw ei (
        Due-same s.timers u.timers s.cur_interval js (λ j. ticker-same s.timers u.timers j i.values)
          (Due-insert_sorted s.timers s.cur_interval tim is
            (front_behind s u is tim q i.queue out e t.due) t.due))

drop_front-IsTimed :
    (s : TimerState) (p : Option ℕ) (is : List ℕ)
    → IsQueue (drop_front s p) is
    → Sorted s.timers is
    → Small s.timers is
    → IsTimed (drop_front s p) is
drop_front-IsTimed s none [] c h b = record {
  sorted = tt;
  due = tt;
  counting = omega arith;
  bounded = omega arith;
  small = tt;
}
drop_front-IsTimed s none (i ∷ is) c h b = absurd (ground (arith, c.chain))
drop_front-IsTimed s (some n) [] c h b = absurd (ground (arith, c.chain))
drop_front-IsTimed s (some n) (i ∷ is) c h b = record {
  sorted = h;
  due =
      subst (λ x. Due s.timers (s.timers x).ticker_val (i ∷ is)) (ground (arith, c.chain))
        (Due-of_Sorted s.timers i is h);
  counting = omega arith;
  bounded = subst (λ x. (s.timers x).ticker_val < u64_mod) (ground (arith, c.chain)) b.0;
  small = b;
}

Removed-IsTimed :
    (s u : TimerState) (is : List ℕ) (tim : ℕ)
    → IsTimed s is
    → Removed s is tim u
    → IsTimed u (without tim is)
Removed-IsTimed s u is tim t r = by_front r.front
  where
    js : List ℕ
    js = without tim is

    by_front :
        ((s.active_head ≡ some tim) × (u ≡ drop_front s (s.timers tim).next))
          ⊎ ((u.active_head ≡ s.active_head)
              × (u.cur_interval ≡ s.cur_interval)
              × (u.cur_countdown ≡ s.cur_countdown))
        → IsTimed u js
    by_front (inl (e, eu)) = rw eu (
        drop_front-IsTimed s (s.timers tim).next js (rw eu at r.queue)
          (Sorted-without s.timers tim is t.sorted) (Small-without s.timers tim is t.small))
    by_front (inr (e, ei, ec)) = record {
      sorted =
          Sorted-same s.timers u.timers js (λ j. ticker-same s.timers u.timers j r.values)
            (Sorted-without s.timers tim is t.sorted);
      due = rw ei (
          Due-same s.timers u.timers s.cur_interval js
            (λ j. ticker-same s.timers u.timers j r.values)
            (Due-without s.timers s.cur_interval tim is t.due));
      counting = omega (arith, t.counting);
      bounded = omega (arith, t.bounded);
      small =
          Small-same s.timers u.timers js (λ j. ticker-same s.timers u.timers j r.values)
            (Small-without s.timers tim is t.small);
    }

-- `insert_active_timer` keeps the list in order and the countdown in front of every expiry.
pub insert_active_timer-IsTimed :
    (s : TimerState) (is : List ℕ) (tim : ℕ)
    → IsQueue s is
    → IsTimed s is
    → tim < max_timers
    → has tim is ≡ false
    → (s.timers tim).ticker_val < u64_mod
    → (is ≡ [] → (s.timers tim).next ≡ none)
    → (u : TimerState) × (insert_active_timer tim s ≡ ok u)
      × IsQueue u (insert_sorted (synced s is).timers tim is)
      × IsTimed u (insert_sorted (synced s is).timers tim is)
insert_active_timer-IsTimed s is tim q t lt out b fresh =
    let (u, e, i) = insert_active_timer-Inserted s is tim q lt out fresh in
    (
      u,
      e,
      i.queue,
      Inserted-IsTimed (synced s is) u is tim (IsQueue-synced q) (IsTimed-synced s is t) out
          (ground (arith, b)) i,
    )

pub remove_active_timer-IsTimed :
    (s : TimerState) (is : List ℕ) (tim : ℕ)
    → IsQueue s is
    → IsTimed s is
    → has tim is ≡ true
    → (u : TimerState) × (remove_active_timer tim s ≡ ok u)
      × IsQueue u (without tim is)
      × IsTimed u (without tim is)
remove_active_timer-IsTimed s is tim q t at =
    let (u, e, r) = remove_active_timer-Removed s is tim q at in
    (u, e, r.queue, Removed-IsTimed (synced s is) u is tim (IsTimed-synced s is t) r)

-- While the active list is in order and no timer is overdue, `sync_timers` succeeds and changes
-- neither the reading of a timer on the list nor the time that has passed; afterwards, unless the
-- countdown is at its end, the present interval is the countdown, and nothing has passed of it.
pub sync_timers-readings :
    (s : TimerState) (is : List ℕ) (i : ℕ)
    → IsQueue s is
    → IsTimed s is
    → has i is ≡ true
    → (u : TimerState) × (sync_timers s ≡ ok u)
      × (get_timer_ticker_val i u ≡ get_timer_ticker_val i s)
      × (add64 u.global_ticker (elapsed_ticks u) ≡ add64 s.global_ticker (elapsed_ticks s))
      × (u.cur_countdown ≡ s.cur_countdown)
      × (u.cur_interval ≡ (if s.cur_countdown == 0 then s.cur_interval else s.cur_countdown))
unfolding get_timer_ticker_val
sync_timers-readings s is i q t h =
    (synced s is, sync_timers-synced q, ground arith, ground arith, ground arith, ground arith)
