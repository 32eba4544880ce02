-- ===== src/Timer/Back.antt =====
-- `sort_timer_back` of timer.c for the timer at the front, as the expiry of the countdown calls it.
use fuzzware_emulator.Prelude.{
  ℕ, ◌≡◌, refl, false, some, List, [], ◌∷◌, ok, arith, leb, inl, inr, Bool-cases,
}
use fuzzware_emulator.Timer.{
  TimerState, max_timers, walk_fuel, find_place, unlink_moving, sort_timer_back, link_after,
}
use fuzzware_emulator.Timer.Chain.{IsQueue, length-le_of_IsQueue}
use fuzzware_emulator.Timer.Insert.{
  insert_sorted, insert_sorted_front, insert_sorted_behind, Place, find_place-Place, SameValues,
  Distinct-insert_sorted, AllBelow-insert_sorted, has-insert_sorted,
}

-- The timer goes to its place by expiry; nothing else than links and the head changes.
pub record SortedBack (s : TimerState) (i : ℕ) (is : List ℕ) (u : TimerState) : Type 0 where
  pub queue : IsQueue u (insert_sorted s.timers i is)
  pub values : SameValues s.timers u.timers
  pub rest : record u { timers = s.timers; active_head = s.active_head } ≡ s

pub sort_timer_back-SortedBack :
    (s : TimerState) (i : ℕ) (is : List ℕ)
    → IsQueue s (i ∷ is)
    → (u : TimerState) × (sort_timer_back i s ≡ ok u) × SortedBack s i is u
unfolding sort_timer_back unlink_moving
sort_timer_back-SortedBack s i [] q =
    (s, rw (q.chain.1, sort_timer_back) refl, record { queue = q; values = λ j. refl; rest = refl })
sort_timer_back-SortedBack s i (n ∷ is) q =
    elim (Bool-cases (leb (s.timers i).ticker_val (s.timers n).ticker_val)) [
      | inl le ↦ (
        s,
        rw (q.chain.1.0, sort_timer_back) (rw le refl),
        record {
          queue = rw (insert_sorted_front s.timers i n is le) q;
          values = λ j. refl;
          rest = refl;
        },
      )
      | inr gt ↦ moved gt (
          find_place-Place walk_fuel s.timers n is i (omega (arith, length-le_of_IsQueue q))
            q.chain.1.1 q.distinct.1 q.distinct.0)
    ]
  where
    moved :
        leb (s.timers i).ticker_val (s.timers n).ticker_val ≡ false
        → Place s.timers n is i (find_place walk_fuel n (s.timers i).ticker_val s.timers)
        → (u : TimerState) × (sort_timer_back i s ≡ ok u) × SortedBack s i (n ∷ is) u
    moved gt (m, r, at, l) = (
      record s { active_head = some n; timers = link_after s.timers m i },
      rw (q.chain.1.0, sort_timer_back) (rw gt (rw r (rw q.chain.0 (ground arith)))),
      record {
        queue = rw (insert_sorted_behind s.timers i n is gt) (record {
          chain = l;
          distinct = ground (
            arith,
            q.distinct,
            Distinct-insert_sorted s.timers i is,
            has-insert_sorted s.timers i n is,
          );
          below = ground (arith, q.below, AllBelow-insert_sorted s.timers max_timers i is);
        });
        values = λ j. ground arith;
        rest = refl;
      },
    )
