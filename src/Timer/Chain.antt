-- ===== src/Timer/Chain.antt =====
-- The active list of timer.c as the list of the timers that its pointers lead through, and the two
-- walks that every operation makes: `sync_timers` and the search for a place.
use fuzzware_emulator.Prelude.{
  ℕ, zero, suc, ◌≤◌, ◌<◌, ◌≡◌, refl, ap, ◌∙◌, fun_ext, inl, inr, Bool, true, false, Option, none,
  some, List, [], ◌∷◌, ok, arith, ◌==◌, Bool-cases, if◌then◌else◌, add64, sub64, update, length,
  has, Distinct, AllBelow, length-le_of_Distinct,
}
use fuzzware_emulator.Timer.{
  Timer, Timers, TimerState, max_timers, walk_fuel, subtract_elapsed, sync_timers, elapsed_ticks,
}

-- From `p` the `next` pointers lead through the timers of the list to `NULL`.
abbrev pub Chain : Timers → Option ℕ → List ℕ → Type 0
Chain ts p [] = p ≡ none
Chain ts p (i ∷ is) = (p ≡ some i) × Chain ts (ts i).next is

-- The active list holds the distinct timers `is`, in this order.
pub record IsQueue (s : TimerState) (is : List ℕ) : Type 0 where
  pub chain : Chain s.timers s.active_head is
  pub distinct : Distinct is
  pub below : AllBelow max_timers is

pub length-le_of_IsQueue : {s : TimerState} {is : List ℕ} → IsQueue s is → length is ≤ max_timers
length-le_of_IsQueue {is} q = length-le_of_Distinct max_timers is q.distinct q.below

-- A chain survives a change of a timer that keeps its successor, or that is not on the chain.
pub Chain-same :
    (ts us : Timers) (p : Option ℕ) (is : List ℕ)
    → ((j : ℕ) → has j is ≡ true → (us j).next ≡ (ts j).next)
    → Chain ts p is
    → Chain us p is
Chain-same ts us p [] same c = c
Chain-same ts us p (i ∷ is) same c = (
  c.0,
  let e : (us i).next ≡ (ts i).next = same i (ground arith) in
      rw e (Chain-same ts us (ts i).next is (λ j h. same j (ground (arith, h))) c.1),
)

pub Chain-update :
    (ts : Timers) (p : Option ℕ) (is : List ℕ) (i : ℕ) (t : Timer)
    → has i is ≡ false
    → Chain ts p is
    → Chain (update ts i t) p is
Chain-update ts p is i t out = Chain-same ts (update ts i t) p is (λ j h. other j h (j == i) refl)
  where
    other :
        (j : ℕ) → has j is ≡ true → (b : Bool) → (j == i) ≡ b → (update ts i t j).next ≡ (ts j).next
    other j h true e = ground arith
    other j h false e = ground arith

-- The timers after `elapsed` ticks: those on the list have that many fewer to go.
abbrev pub lowered : Timers → List ℕ → ℕ → Timers
lowered ts is elapsed j =
    if has j is then record (ts j) { ticker_val = sub64 (ts j).ticker_val elapsed } else ts j

pub subtract_elapsed-lowered :
    (k : ℕ) (ts : Timers) (p : Option ℕ) (is : List ℕ) (elapsed : ℕ)
    → length is < k
    → Distinct is
    → Chain ts p is
    → subtract_elapsed k p elapsed ts ≡ ok (lowered ts is elapsed)
unfolding subtract_elapsed
subtract_elapsed-lowered zero ts p is elapsed f d c = absurd (omega arith)
subtract_elapsed-lowered (suc k) ts p [] elapsed f d c = rw c
subtract_elapsed-lowered (suc k) ts p (i ∷ is) elapsed f d c = rw c.0 (
    subtract_elapsed-lowered k us (ts i).next is elapsed (omega arith) d.1
      (Chain-update ts (ts i).next is i t d.0 c.1)
    ∙ ap ok (fun_ext same))
  where
    t : Timer
    t = record (ts i) { ticker_val = sub64 (ts i).ticker_val elapsed }

    us : Timers
    us = update ts i t

    same : (j : ℕ) → lowered us is elapsed j ≡ lowered ts (i ∷ is) elapsed j
    same j = ground arith

-- The state after `sync_timers`.
abbrev pub synced : TimerState → List ℕ → TimerState
synced s is = if s.cur_countdown == 0 then s else record s {
  timers = lowered s.timers is (elapsed_ticks s);
  global_ticker = add64 s.global_ticker (elapsed_ticks s);
  cur_interval = s.cur_countdown;
}

pub sync_timers-synced :
    {s : TimerState} {is : List ℕ} → IsQueue s is → sync_timers s ≡ ok (synced s is)
unfolding sync_timers
sync_timers-synced {s} {is} q = elim (Bool-cases (s.cur_countdown == 0)) [
  | inl e ↦ rw e
  | inr e ↦ rw (
    e,
    subtract_elapsed-lowered walk_fuel s.timers s.active_head is (elapsed_ticks s)
        (omega (arith, length-le_of_IsQueue q)) q.distinct q.chain,
  )
]

pub next-lowered : (ts : Timers) (is : List ℕ) (e j : ℕ) → (lowered ts is e j).next ≡ (ts j).next
next-lowered ts is e j = ground arith

pub Chain-lowered :
    (ts : Timers) (p : Option ℕ) (is js : List ℕ) (e : ℕ)
    → Chain ts p js
    → Chain (lowered ts is e) p js
Chain-lowered ts p is js e = Chain-same ts (lowered ts is e) p js λ j h. next-lowered ts is e j

pub IsQueue-synced : {s : TimerState} {is : List ℕ} → IsQueue s is → IsQueue (synced s is) is
IsQueue-synced {s} {is} q =
    ground (arith, q, Chain-lowered s.timers s.active_head is is (elapsed_ticks s) q.chain)
