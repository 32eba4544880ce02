-- ===== src/Timer/Resort.antt =====
-- `sort_timer_back` of timer.c for any timer of the list.
use fuzzware_emulator.Prelude.{
  ℕ, ◌<◌, ◌≡◌, refl, sym, ap, subst, ◌∙◌, true, false, some, none, Option, List, [], ◌∷◌, Run, ok,
  ◌>>=◌, arith, leb, inl, inr, ◌==◌, Bool-cases, has, Distinct, AllBelow,
}
use fuzzware_emulator.Timer.{
  Timers, TimerState, max_timers, walk_fuel, find_place, find_pred, unlink_moving, sort_timer_back,
  link, link_after,
}
use fuzzware_emulator.Timer.Chain.{Chain, IsQueue, length-le_of_IsQueue}
use fuzzware_emulator.Timer.Insert.{
  insert_sorted, insert_sorted_front, SameValues, Distinct-insert_sorted, AllBelow-insert_sorted,
  has-insert_sorted,
}
use fuzzware_emulator.Timer.Back.{sort_timer_back-SortedBack}
use fuzzware_emulator.Timer.Moved.{sort_back, Moved, sort_back_past, find_pred-Moved}

-- A timer that expires no later than its successor stays where it is.
sort_back-stays :
    (ts : Timers) (i : ℕ) (p : Option ℕ) (is : List ℕ)
    → ((n : ℕ) → (ts i).next ≡ some n → leb (ts i).ticker_val (ts n).ticker_val ≡ true)
    → Chain ts p is
    → sort_back ts i is ≡ is
sort_back-stays ts i p [] early chain = refl
sort_back-stays ts i p (j ∷ []) early chain = ground arith
sort_back-stays ts i p (j ∷ n ∷ js) early chain = elim (Bool-cases (j == i)) [
  | inr past ↦
      sort_back_past ts i j (n ∷ js) past
      ∙ ap (λ l. j ∷ l) (sort_back-stays ts i (ts j).next (n ∷ js) early chain.1)
  | inl here ↦
      (let same : j ≡ i = ground (arith, here) in
        ground (
          arith,
          here,
          insert_sorted_front ts i n js
              (early n (subst (λ x. (ts x).next ≡ some n) same chain.1.0)),
        ))
]

pub has-sort_back :
    (ts : Timers) (i k : ℕ) (is : List ℕ) → has i is ≡ true → has k (sort_back ts i is) ≡ has k is
has-sort_back ts i k [] at = refl
has-sort_back ts i k (j ∷ js) at =
    ground (arith, at, has-sort_back ts i k js, has-insert_sorted ts i k js)

Distinct-sort_back :
    (ts : Timers) (i : ℕ) (is : List ℕ)
    → has i is ≡ true
    → Distinct is
    → Distinct (sort_back ts i is)
Distinct-sort_back ts i [] at d = d
Distinct-sort_back ts i (j ∷ js) at d = elim (Bool-cases (j == i)) [
  | inl here ↦
      (let same : j ≡ i = ground (arith, here) in
        ground (
          arith,
          here,
          Distinct-insert_sorted ts i js (subst (λ x. has x js ≡ false) same d.0) d.1,
        ))
  | inr past ↦ ground (
    arith,
    past,
    at,
    d,
    Distinct-sort_back ts i js (ground (arith, at, past)) d.1,
    has-sort_back ts i j js (ground (arith, at, past)),
  )
]

AllBelow-sort_back :
    (ts : Timers) (n i : ℕ) (is : List ℕ) → i < n → AllBelow n is → AllBelow n (sort_back ts i is)
AllBelow-sort_back ts n i [] lt b = b
AllBelow-sort_back ts n i (j ∷ js) lt b =
    ground (arith, AllBelow-sort_back ts n i js lt b.1, AllBelow-insert_sorted ts n i js lt b.1)

-- The timer goes to its place by expiry; nothing else than links and the head changes.
pub record Resorted (s : TimerState) (i : ℕ) (is : List ℕ) (u : TimerState) : Type 0 where
  pub queue : IsQueue u (sort_back s.timers i is)
  pub values : SameValues s.timers u.timers
  pub rest : record u { timers = s.timers; active_head = s.active_head } ≡ s

stays-Resorted :
    (s : TimerState) (i : ℕ) (is : List ℕ)
    → IsQueue s is
    → ((n : ℕ)
        → (s.timers i).next ≡ some n
        → leb (s.timers i).ticker_val (s.timers n).ticker_val ≡ true)
    → Resorted s i is s
stays-Resorted s i is q early = record {
  queue = subst (IsQueue s) (sym (sort_back-stays s.timers i s.active_head is early q.chain)) q;
  values = λ j. refl;
  rest = refl;
}

-- The last step of `sort_timer_back`: the timer is linked in behind the cursor.
abbrev linked_in : ℕ → ℕ → Run TimerState → Run TimerState
linked_in m i r = do s ← r; ok (record s { timers = link_after s.timers m i })

some_same : (n n' : ℕ) → some n ≡ some n' → n ≡ n'
some_same n n' e = ground (arith, e)

unlink_moving-behind :
    (s : TimerState) (i n c p : ℕ)
    → s.active_head ≡ some c
    → (c == i) ≡ false
    → find_pred walk_fuel (some c) i s.timers ≡ ok p
    → unlink_moving i n s ≡ ok (record s { timers = link s.timers p (some n) })
unfolding unlink_moving
unlink_moving-behind s i n c p head inner found =
    rw (head, unlink_moving) (rw (inner, unlink_moving) (rw found refl))

sort_timer_back-later :
    (s : TimerState) (i n m : ℕ)
    → (s.timers i).next ≡ some n
    → leb (s.timers i).ticker_val (s.timers n).ticker_val ≡ false
    → find_place walk_fuel n (s.timers i).ticker_val s.timers ≡ ok m
    → sort_timer_back i s ≡ linked_in m i (unlink_moving i n s)
unfolding sort_timer_back
sort_timer_back-later s i n m e later place =
    rw (e, sort_timer_back) (rw (later, sort_timer_back) (rw place refl))

link-same : (ts : Timers) (p : ℕ) (q : Option ℕ) → SameValues ts (link ts p q)
link-same ts p q j = ground arith

link_after-same : (ts : Timers) (m i : ℕ) → SameValues ts (link_after ts m i)
link_after-same ts m i j =
    link-same (link ts i (ts m).next) m (some i) j ∙ link-same ts i (ts m).next j

moves-Resorted :
    (s : TimerState) (i c : ℕ) (js : List ℕ) (n : ℕ)
    → IsQueue s (c ∷ js)
    → has i (c ∷ js) ≡ true
    → i < max_timers
    → (c == i) ≡ false
    → (s.timers i).next ≡ some n
    → leb (s.timers i).ticker_val (s.timers n).ticker_val ≡ false
    → Moved s.timers walk_fuel n c js i
    → (u : TimerState) × (sort_timer_back i s ≡ ok u) × Resorted s i (c ∷ js) u
unfolding sort_timer_back
moves-Resorted s i c js n q at lt inner e later (p, m, found, place, on_p, on_m, l) = (
  record s { timers = link_after (link s.timers p (some n)) m i },
  sort_timer_back-later s i n m e later place
      ∙ ap (linked_in m i) (unlink_moving-behind s i n c p q.chain.0 inner found),
  record {
    queue = record {
      chain = rw (q.chain.0, sort_back_past s.timers i c js inner) l;
      distinct = Distinct-sort_back s.timers i (c ∷ js) at q.distinct;
      below = AllBelow-sort_back s.timers max_timers i (c ∷ js) lt q.below;
    };
    values =
        λ j. link_after-same (link s.timers p (some n)) m i j ∙ link-same s.timers p (some n) j;
    rest = refl;
  },
)

pub sort_timer_back-Resorted :
    (s : TimerState) (i : ℕ) (is : List ℕ)
    → IsQueue s is
    → has i is ≡ true
    → i < max_timers
    → (u : TimerState) × (sort_timer_back i s ≡ ok u) × Resorted s i is u
unfolding sort_timer_back
sort_timer_back-Resorted s i [] q at lt = absurd (ground (arith, at))
sort_timer_back-Resorted s i (c ∷ js) q at lt = elim (Bool-cases (c == i)) [
  | inl front ↦
      (let same : c ≡ i = ground (arith, front) in
        let (u, sorts, back) =
          sort_timer_back-SortedBack s i js (subst (λ x. IsQueue s (x ∷ js)) same q) in
        let order : insert_sorted s.timers i js ≡ sort_back s.timers i (c ∷ js) =
          ground (arith, front) in
        (
          u,
          sorts,
          record {
            queue = subst (IsQueue u) order back.queue;
            values = back.values;
            rest = back.rest;
          },
        ))
  | inr inner ↦ by_next (s.timers i).next refl inner
]
  where
    by_next :
        (next : Option ℕ)
        → (s.timers i).next ≡ next
        → (c == i) ≡ false
        → (u : TimerState) × (sort_timer_back i s ≡ ok u) × Resorted s i (c ∷ js) u
    by_next none e inner = (
      s,
      rw (e, sort_timer_back) refl,
      stays-Resorted s i (c ∷ js) q (λ n h. absurd (ground (arith, e, h))),
    )
    by_next (some n) e inner =
        elim (Bool-cases (leb (s.timers i).ticker_val (s.timers n).ticker_val)) [
          | inl early ↦ (
            s,
            rw (e, sort_timer_back) (rw early refl),
            stays-Resorted s i (c ∷ js) q (λ n' h.
                subst (λ x. leb (s.timers i).ticker_val (s.timers x).ticker_val ≡ true)
                  (some_same n n' (sym e ∙ h)) early),
          )
          | inr later ↦ moves-Resorted s i c js n q at lt inner e later (
              find_pred-Moved s.timers i n e later walk_fuel c js
                (omega (arith, length-le_of_IsQueue q)) (omega (arith, length-le_of_IsQueue q))
                (refl, q.chain.1) q.distinct (ground (arith, at, inner)))
        ]
