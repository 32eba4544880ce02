-- ===== src/Timer/Order.antt =====
-- The order of the active list and the countdown of timer.c: the countdown never runs past the
-- expiry of a timer, and bringing the tick values up to date changes no reading.
use fuzzware_emulator.Prelude.{
  Bool-cases, inl, inr, ◌==◌, false, update, ℕ, ◌≤◌, ◌<◌, ◌≡◌, true, List, [], ◌∷◌, arith, has,
  without, u64_mod,
}
use fuzzware_emulator.Timer.{Timer, Timers, TimerState}
use fuzzware_emulator.Timer.Insert.{Sorted, insert_sorted, SameValues}

-- Every timer of the list expires at the end of the running interval or later.
abbrev pub Due : Timers → ℕ → List ℕ → Type 0
Due ts interval [] = Unit {0}
Due ts interval (i ∷ is) = (interval ≤ (ts i).ticker_val) × Due ts interval is

-- The tick values are `uint64_t` values.
abbrev pub Small : Timers → List ℕ → Type 0
Small ts [] = Unit {0}
Small ts (i ∷ is) = ((ts i).ticker_val < u64_mod) × Small ts is

pub record IsTimed (s : TimerState) (is : List ℕ) : Type 0 where
  pub sorted : Sorted s.timers is
  pub due : Due s.timers s.cur_interval is
  pub counting : s.cur_countdown ≤ s.cur_interval
  pub bounded : s.cur_interval < u64_mod
  pub small : Small s.timers is

pub ticker-same :
    (ts us : Timers) (i : ℕ) → SameValues ts us → (us i).ticker_val ≡ (ts i).ticker_val
ticker-same ts us i same = ground (arith, same i)

-- Two arrays of timers with the same tick values.
abbrev pub SameTickers : Timers → Timers → Type 0
SameTickers ts us = (i : ℕ) → (us i).ticker_val ≡ (ts i).ticker_val

pub Sorted-same : (ts us : Timers) (is : List ℕ) → SameTickers ts us → Sorted ts is → Sorted us is
Sorted-same ts us [] same h = tt
Sorted-same ts us (i ∷ []) same h = tt
Sorted-same ts us (i ∷ j ∷ is) same h =
    (omega (arith, same i, same j), Sorted-same ts us (j ∷ is) same h.1)

pub Due-same :
    (ts us : Timers) (n : ℕ) (is : List ℕ) → SameTickers ts us → Due ts n is → Due us n is
Due-same ts us n [] same h = tt
Due-same ts us n (i ∷ is) same h = (omega (arith, same i), Due-same ts us n is same h.1)

pub Due-mono : (ts : Timers) (m n : ℕ) (is : List ℕ) → m ≤ n → Due ts n is → Due ts m is
Due-mono ts m n [] le h = tt
Due-mono ts m n (i ∷ is) le h = (omega arith, Due-mono ts m n is le h.1)

pub Due-of_Sorted :
    (ts : Timers) (i : ℕ) (is : List ℕ) → Sorted ts (i ∷ is) → Due ts (ts i).ticker_val (i ∷ is)
Due-of_Sorted ts i [] h = (omega arith, tt)
Due-of_Sorted ts i (j ∷ is) h = (
  omega arith,
  Due-mono ts (ts i).ticker_val (ts j).ticker_val (j ∷ is) h.0 (Due-of_Sorted ts j is h.1),
)

pub Sorted-insert_sorted :
    (ts : Timers) (i : ℕ) (is : List ℕ) → Sorted ts is → Sorted ts (insert_sorted ts i is)
Sorted-insert_sorted ts i [] h = tt
Sorted-insert_sorted ts i (j ∷ []) h = ground arith
Sorted-insert_sorted ts i (j ∷ k ∷ is) h = ground (arith, Sorted-insert_sorted ts i (k ∷ is))

pub Due-insert_sorted :
    (ts : Timers) (n i : ℕ) (is : List ℕ)
    → n ≤ (ts i).ticker_val
    → Due ts n is
    → Due ts n (insert_sorted ts i is)
Due-insert_sorted ts n i [] le h = (le, tt)
Due-insert_sorted ts n i (j ∷ is) le h = ground (arith, Due-insert_sorted ts n i is)

pub Sorted-tail : (ts : Timers) (i : ℕ) (is : List ℕ) → Sorted ts (i ∷ is) → Sorted ts is
Sorted-tail ts i [] h = tt
Sorted-tail ts i (j ∷ is) h = h.1

pub Due-without : (ts : Timers) (n i : ℕ) (is : List ℕ) → Due ts n is → Due ts n (without i is)
Due-without ts n i [] h = tt
Due-without ts n i (j ∷ is) h = ground (arith, Due-without ts n i is)

pub Sorted-of_Due :
    (ts : Timers) (i : ℕ) (is : List ℕ)
    → Due ts (ts i).ticker_val is
    → Sorted ts is
    → Sorted ts (i ∷ is)
Sorted-of_Due ts i [] d h = tt
Sorted-of_Due ts i (j ∷ is) d h = (d.0, h)

pub Sorted-without : (ts : Timers) (i : ℕ) (is : List ℕ) → Sorted ts is → Sorted ts (without i is)
Sorted-without ts i [] h = tt
Sorted-without ts i (j ∷ is) h = ground (
  arith,
  Sorted-tail ts j is h,
  Sorted-of_Due ts j (without i is)
      (Due-without ts (ts j).ticker_val i is (Due-of_Sorted ts j is h).1)
      (Sorted-without ts i is (Sorted-tail ts j is h)),
)

pub Small-same : (ts us : Timers) (is : List ℕ) → SameTickers ts us → Small ts is → Small us is
Small-same ts us [] same h = tt
Small-same ts us (i ∷ is) same h = (omega (arith, same i), Small-same ts us is same h.1)

pub Small-without : (ts : Timers) (i : ℕ) (is : List ℕ) → Small ts is → Small ts (without i is)
Small-without ts i [] h = tt
Small-without ts i (j ∷ is) h = ground (arith, Small-without ts i is)

pub Small-insert_sorted :
    (ts : Timers) (i : ℕ) (is : List ℕ)
    → (ts i).ticker_val < u64_mod
    → Small ts is
    → Small ts (insert_sorted ts i is)
Small-insert_sorted ts i [] le h = (le, tt)
Small-insert_sorted ts i (j ∷ is) le h = ground (arith, Small-insert_sorted ts i is)

-- Two arrays of timers with the same tick values on a list.
abbrev pub SameOn : Timers → Timers → List ℕ → Type 0
SameOn ts us is = (j : ℕ) → has j is ≡ true → (us j).ticker_val ≡ (ts j).ticker_val

pub Sorted-on : (ts us : Timers) (is : List ℕ) → SameOn ts us is → Sorted ts is → Sorted us is
Sorted-on ts us [] same h = tt
Sorted-on ts us (i ∷ []) same h = tt
Sorted-on ts us (i ∷ j ∷ is) same h = (
  omega (arith, same i (ground arith), same j (ground arith)),
  Sorted-on ts us (j ∷ is) (λ k on. same k (ground (arith, on))) h.1,
)

pub Small-on : (ts us : Timers) (is : List ℕ) → SameOn ts us is → Small ts is → Small us is
Small-on ts us [] same h = tt
Small-on ts us (i ∷ is) same h = (
  omega (arith, same i (ground arith)),
  Small-on ts us is (λ k on. same k (ground (arith, on))) h.1,
)

pub Due-on : (ts us : Timers) (n : ℕ) (is : List ℕ) → SameOn ts us is → Due ts n is → Due us n is
Due-on ts us n [] same h = tt
Due-on ts us n (i ∷ is) same h = (
  omega (arith, same i (ground arith)),
  Due-on ts us n is (λ k on. same k (ground (arith, on))) h.1,
)

-- A change of a timer that is not on a list.
pub update-SameOn :
    (ts : Timers) (i : ℕ) (t : Timer) (is : List ℕ)
    → has i is ≡ false
    → SameOn ts (update ts i t) is
update-SameOn ts i t is out j h = elim (Bool-cases (j == i)) [
  | inl at_i ↦ absurd (ground (arith, at_i, h, out))
  | inr other ↦ ground (arith, other)
]
