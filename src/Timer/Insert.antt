-- ===== src/Timer/Insert.antt =====
-- `insert_active_timer` of timer.c: where the new timer goes, and what stays.
use fuzzware_emulator.Prelude.{
  ℕ, zero, suc, ◌≤◌, ◌<◌, ◌≡◌, refl, ◌∙◌, ◌⊎◌, inl, inr, true, false, ◌||◌, Option, none, some,
  List, [], ◌∷◌, Run, ok, arith, ltb, leb, ◌==◌, Bool-cases, if◌then◌else◌, update, length, has,
  Distinct, AllBelow,
}
use fuzzware_emulator.Timer.{
  Timer, Timers, TimerState, max_timers, walk_fuel, find_place, insert_active_timer, sync_timers,
  set_front, link, link_after,
}
use fuzzware_emulator.Timer.Chain.{
  Chain, IsQueue, Chain-update, synced, sync_timers-synced, IsQueue-synced, length-le_of_IsQueue,
}

-- The list with `i` before the first timer that expires no earlier.
abbrev pub insert_sorted : Timers → ℕ → List ℕ → List ℕ
insert_sorted ts i [] = i ∷ []
insert_sorted ts i (j ∷ js) =
    if leb (ts i).ticker_val (ts j).ticker_val then i ∷ j ∷ js else j ∷ insert_sorted ts i js

-- Expiry times do not fall along the list.
abbrev pub Sorted : Timers → List ℕ → Type 0
Sorted ts [] = Unit {0}
Sorted ts (i ∷ []) = Unit {0}
Sorted ts (i ∷ j ∷ js) = ((ts i).ticker_val ≤ (ts j).ticker_val) × Sorted ts (j ∷ js)

pub Chain-link_after :
    (ts : Timers) (p : Option ℕ) (is : List ℕ) (c tim : ℕ)
    → has c is ≡ false
    → has tim is ≡ false
    → Chain ts p is
    → Chain (link_after ts c tim) p is
Chain-link_after ts p is c tim hc ht h =
    Chain-update us p is c (record (us c) { next = some tim }) hc
      (Chain-update ts p is tim (record (ts tim) { next = (ts c).next }) ht h)
  where
    us : Timers
    us = link ts tim (ts c).next

-- What the walk to a place finds: linking the timer in behind it keeps the list sorted.
abbrev pub Place : Timers → ℕ → List ℕ → ℕ → Run ℕ → Type 0
Place ts c js tim r =
    (m : ℕ) × (r ≡ ok m)
    × (has m (c ∷ js) ≡ true)
    × Chain (link_after ts m tim) (some c) (c ∷ insert_sorted ts tim js)

pub insert_sorted_front :
    (ts : Timers) (i j : ℕ) (js : List ℕ)
    → leb (ts i).ticker_val (ts j).ticker_val ≡ true
    → insert_sorted ts i (j ∷ js) ≡ i ∷ j ∷ js
insert_sorted_front ts i j js e = ground arith

pub insert_sorted_behind :
    (ts : Timers) (i j : ℕ) (js : List ℕ)
    → leb (ts i).ticker_val (ts j).ticker_val ≡ false
    → insert_sorted ts i (j ∷ js) ≡ j ∷ insert_sorted ts i js
insert_sorted_behind ts i j js e = ground arith

next-link_after : (ts : Timers) (c tim : ℕ) → (link_after ts c tim c).next ≡ some tim
next-link_after ts c tim = ground arith

next-link_after_new :
    (ts : Timers) (c tim : ℕ) → (tim == c) ≡ false → (link_after ts c tim tim).next ≡ (ts c).next
next-link_after_new ts c tim e = ground arith

next-link_after_ne :
    (ts : Timers) (c tim j : ℕ)
    → (j == c) ≡ false
    → (j == tim) ≡ false
    → (link_after ts c tim j).next ≡ (ts j).next
next-link_after_ne ts c tim j e e' = ground arith

pub has_ne : (i j : ℕ) (is : List ℕ) → has i is ≡ false → has j is ≡ true → (i == j) ≡ false
has_ne i j [] h g = cc
has_ne i j (k ∷ ks) h g = ground (arith, has_ne i j ks)

pub find_place-Place :
    (k : ℕ) (ts : Timers) (c : ℕ) (js : List ℕ) (tim : ℕ)
    → length js < k
    → Chain ts (ts c).next js
    → Distinct (c ∷ js)
    → has tim (c ∷ js) ≡ false
    → Place ts c js tim (find_place k c (ts tim).ticker_val ts)
unfolding find_place
find_place-Place zero ts c js tim f h d out = absurd (omega arith)
find_place-Place (suc k) ts c [] tim f h d out =
    (c, rw (h, find_place), ground arith, (refl, (ground arith, ground arith)))
find_place-Place (suc k) ts c (n ∷ js) tim f h d out =
    elim (Bool-cases (ltb (ts n).ticker_val (ts tim).ticker_val)) [
      | inl e ↦ later e (find_place-Place k ts n js tim (omega arith) h.1 d.1 (ground arith))
      | inr e ↦ (
        c,
        rw (h.0, find_place) (rw (e, find_place)),
        ground arith,
        rw (insert_sorted_front ts tim n js (ground arith)) (
          refl,
          (
            next-link_after ts c tim,
            (
              next-link_after_new ts c tim (ground arith) ∙ h.0,
              rw (next-link_after_ne ts c tim n (ground arith) (ground arith))
                  (Chain-link_after ts (ts n).next js c tim (ground arith) (ground arith) h.1),
            ),
          ),
        ),
      )
    ]
  where
    later :
        ltb (ts n).ticker_val (ts tim).ticker_val ≡ true
        → Place ts n js tim (find_place k n (ts tim).ticker_val ts)
        → Place ts c (n ∷ js) tim (find_place (suc k) c (ts tim).ticker_val ts)
    later e (m, r, i, l) = (
      m,
      rw (h.0, find_place) (rw (e, find_place) r),
      ground arith,
      rw (insert_sorted_behind ts tim n js (ground arith)) (
        refl,
        rw (next-link_after_ne ts m tim c (has_ne c m (n ∷ js) d.0 i) (ground arith), h.0) l,
      ),
    )

pub has-insert_sorted :
    (ts : Timers) (i k : ℕ) (is : List ℕ) → has k (insert_sorted ts i is) ≡ ((k == i) || has k is)
has-insert_sorted ts i k [] = refl
has-insert_sorted ts i k (j ∷ js) = ground (arith, has-insert_sorted ts i k js)

pub Distinct-insert_sorted :
    (ts : Timers) (i : ℕ) (is : List ℕ)
    → has i is ≡ false
    → Distinct is
    → Distinct (insert_sorted ts i is)
Distinct-insert_sorted ts i [] h d = ground arith
Distinct-insert_sorted ts i (j ∷ js) h d =
    ground (arith, Distinct-insert_sorted ts i js, has-insert_sorted ts i j js)

pub AllBelow-insert_sorted :
    (ts : Timers) (n i : ℕ) (is : List ℕ)
    → i < n
    → AllBelow n is
    → AllBelow n (insert_sorted ts i is)
AllBelow-insert_sorted ts n i [] h b = ground arith
AllBelow-insert_sorted ts n i (j ∷ js) h b = ground (arith, AllBelow-insert_sorted ts n i js)

-- Two arrays of timers that differ in links only.
abbrev pub SameValues : Timers → Timers → Type 0
SameValues ts us = (j : ℕ) → record (us j) { next = none } ≡ record (ts j) { next = none }

-- The outcome of inserting `tim` into a state that `sync_timers` has brought up to date.
pub record Inserted (s : TimerState) (is : List ℕ) (tim : ℕ) (t : TimerState) : Type 0 where
  pub queue : IsQueue t (insert_sorted s.timers tim is)
  pub values : SameValues s.timers t.timers
  pub ticker : t.global_ticker ≡ s.global_ticker
  -- The countdown is set anew exactly if the timer has come to the front.
  pub front :
      ((t.active_head ≡ some tim)
        × (t.cur_interval ≡ (s.timers tim).ticker_val)
        × (t.cur_countdown ≡ (s.timers tim).ticker_val))
      ⊎ ((t.active_head ≡ s.active_head)
          × (t.cur_interval ≡ s.cur_interval)
          × (t.cur_countdown ≡ s.cur_countdown))

pub next_other :
    (ts : Timers) (j i : ℕ) (t : Timer) → (j == i) ≡ false → (update ts i t j).next ≡ (ts j).next
next_other ts j i t e = ground arith

insert_into :
    (s t : TimerState) (is : List ℕ) (tim : ℕ)
    → IsQueue s is
    → sync_timers s ≡ ok t
    → IsQueue t is
    → t.active_head ≡ s.active_head
    → tim < max_timers
    → has tim is ≡ false
    → (is ≡ [] → (t.timers tim).next ≡ none)
    → (u : TimerState) × (insert_active_timer tim s ≡ ok u) × Inserted t is tim u
unfolding insert_active_timer
insert_into s t [] tim q e q' eh b out fresh = (
  set_front t tim,
  rw (e, q.chain),
  record {
    queue = record { chain = (refl, fresh refl); distinct = ground arith; below = ground arith };
    values = λ j. refl;
    ticker = refl;
    front = inl (refl, refl, refl);
  },
)
insert_into s t (c ∷ is) tim q e q' eh b out fresh =
    elim (Bool-cases (leb (t.timers tim).ticker_val (t.timers c).ticker_val)) [
      | inl le ↦ (
        set_front (record t { timers = link t.timers tim (some c) }) tim,
        rw (e, q.chain.0) (rw le refl),
        record {
          queue = rw (insert_sorted_front t.timers tim c is le) (record {
            chain = (
              refl,
              (
                ground arith,
                rw
                    (next_other t.timers c tim (record (t.timers tim) { next = some c })
                      (ground arith))
                    (Chain-update t.timers (t.timers c).next is tim
                      (record (t.timers tim) { next = some c }) (ground arith) q'.chain.1),
              ),
            );
            distinct = ground arith;
            below = ground arith;
          });
          values = λ j. ground arith;
          ticker = refl;
          front = inl (refl, ground arith, ground arith);
        },
      )
      | inr gt ↦ walked gt (
          find_place-Place walk_fuel t.timers c is tim (omega (arith, length-le_of_IsQueue q'))
            q'.chain.1 q'.distinct out)
    ]
  where
    walked :
        leb (t.timers tim).ticker_val (t.timers c).ticker_val ≡ false
        → Place t.timers c is tim (find_place walk_fuel c (t.timers tim).ticker_val t.timers)
        → (u : TimerState) × (insert_active_timer tim s ≡ ok u) × Inserted t (c ∷ is) tim u
    walked gt (m, r, i, l) = (
      record t { timers = link_after t.timers m tim },
      rw (e, q.chain.0) (rw gt (rw r)),
      record {
        queue = rw (insert_sorted_behind t.timers tim c is gt) (record {
          chain = (q'.chain.0, l.1);
          distinct =
              ground (
                arith,
                Distinct-insert_sorted t.timers tim is,
                has-insert_sorted t.timers tim c is,
              );
          below = ground (arith, AllBelow-insert_sorted t.timers max_timers tim is);
        });
        values = λ j. ground arith;
        ticker = refl;
        front = inr (refl, refl, refl);
      },
    )

pub head-synced : (s : TimerState) (is : List ℕ) → (synced s is).active_head ≡ s.active_head
head-synced s is = ground arith

pub next-synced :
    (s : TimerState) (is : List ℕ) (j : ℕ) → ((synced s is).timers j).next ≡ (s.timers j).next
next-synced s is j = ground arith

-- Inserting a timer of the array that is not on the active list, of which the `next` pointer is
-- `NULL` in case the list is empty, succeeds: after the update of the tick values, the timer stands
-- before the first one that expires no earlier, no timer has changed but for its link, and the
-- countdown is set anew exactly if the timer has come to the front.
pub insert_active_timer-Inserted :
    (s : TimerState) (is : List ℕ) (tim : ℕ)
    → IsQueue s is
    → tim < max_timers
    → has tim is ≡ false
    → (is ≡ [] → (s.timers tim).next ≡ none)
    → (u : TimerState) × (insert_active_timer tim s ≡ ok u) × Inserted (synced s is) is tim u
insert_active_timer-Inserted s is tim q b out fresh =
    insert_into s (synced s is) is tim q (sync_timers-synced q) (IsQueue-synced q)
      (head-synced s is) b out (λ e. next-synced s is tim ∙ fresh e)
