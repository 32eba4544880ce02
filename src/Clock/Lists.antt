-- ===== src/Clock/Lists.antt =====
-- The timers of the active list of timer.c that have expired.
use fuzzware_emulator.Prelude.{
  u64_mod, ℕ, ◌≤◌, ◌<◌, ◌≡◌, ◌≢◌, refl, ◌∙◌, true, false, List, [], ◌∷◌, arith, ◌==◌, has, length,
  update,
}
use fuzzware_emulator.Timer.{Timers}
use fuzzware_emulator.Timer.Insert.{insert_sorted, SameValues}
use fuzzware_emulator.Timer.Order.{update-SameOn, Due, Small, SameTickers}
use fuzzware_emulator.Timer.Chain.{lowered}
use fuzzware_emulator.Clock.Fired.{IsReady, expired, reloaded}

pub expired-none : (ts : Timers) (is : List ℕ) → Due ts 1 is → expired ts 0 is ≡ []
expired-none ts [] d = refl
expired-none ts (i ∷ is) d = ground (arith, expired-none ts is d.1)

pub has-expired :
    (ts : Timers) (v j : ℕ) (is : List ℕ) → has j (expired ts v is) ≡ true → has j is ≡ true
has-expired ts v j [] h = h
has-expired ts v j (i ∷ is) h = ground (arith, has-expired ts v j is)

pub Due-at :
    (ts : Timers) (n j : ℕ) (is : List ℕ) → Due ts n is → has j is ≡ true → n ≤ (ts j).ticker_val
Due-at ts n j [] d h = absurd (ground (arith, h))
Due-at ts n j (i ∷ is) d h = ground (arith, Due-at ts n j is d.1)

pub expired-same :
    (ts us : Timers) (v : ℕ) (is : List ℕ)
    → ((j : ℕ) → has j is ≡ true → (us j).ticker_val ≡ (ts j).ticker_val)
    → expired us v is ≡ expired ts v is
expired-same ts us v [] same = refl
expired-same ts us v (i ∷ is) same =
    ground
      (arith, same i (ground arith), expired-same ts us v is (λ j h. same j (ground (arith, h))))

-- A timer that has not expired does not show up among those that have.
pub expired-insert_sorted :
    (ts : Timers) (v i : ℕ) (is : List ℕ)
    → ((ts i).ticker_val == v) ≡ false
    → expired ts v (insert_sorted ts i is) ≡ expired ts v is
expired-insert_sorted ts v i [] e = ground (arith, e)
expired-insert_sorted ts v i (j ∷ js) e = ground (arith, e, expired-insert_sorted ts v i js e)

-- A timer that has gone off has not expired when it is back on the list.
pub expired-back :
    (ts us : Timers) (i : ℕ) (is : List ℕ)
    → has i is ≡ false
    → 0 < (ts i).reload_val
    → SameTickers (update ts i (reloaded (ts i))) us
    → expired us 0 (insert_sorted (update ts i (reloaded (ts i))) i is) ≡ expired ts 0 is
expired-back ts us i is out reloads same =
    let vs = update ts i (reloaded (ts i)) in
    expired-same vs us 0 (insert_sorted vs i is) (λ j h. same j)
    ∙ expired-insert_sorted vs 0 i is (ground (arith, reloads))
    ∙ expired-same ts vs 0 is (update-SameOn ts i (reloaded (ts i)) is out)

pub IsReady-back :
    (ts us : Timers) (i j : ℕ)
    → SameValues (update ts i (reloaded (ts i))) us
    → IsReady (ts j)
    → IsReady (us j)
IsReady-back ts us i j same ready = record {
  reloads = ground (arith, same j, ready.reloads);
  small = ground (arith, same j, ready.small);
  irq = ground (arith, same j, ready.irq);
  quiet = ground (arith, same j, ready.quiet);
}

pub insert_sorted-ne-nil : (ts : Timers) (i : ℕ) (is : List ℕ) → insert_sorted ts i is ≢ []
insert_sorted-ne-nil ts i [] h = cc
insert_sorted-ne-nil ts i (j ∷ js) h = ground (arith, h)

pub Small-at :
    (ts : Timers) (j : ℕ) (is : List ℕ)
    → Small ts is
    → has j is ≡ true
    → (ts j).ticker_val < u64_mod
Small-at ts j [] s h = absurd (ground (arith, h))
Small-at ts j (i ∷ is) s h = ground (arith, Small-at ts j is s.1)

pub IsReady-lowered :
    (ts : Timers) (is : List ℕ) (v j : ℕ) → IsReady (ts j) → IsReady (lowered ts is v j)
IsReady-lowered ts is v j ready = record {
  reloads = ground (arith, ready.reloads);
  small = ground (arith, ready.small);
  irq = ground (arith, ready.irq);
  quiet = ground (arith, ready.quiet);
}

pub length-expired : (ts : Timers) (v : ℕ) (is : List ℕ) → length (expired ts v is) ≤ length is
length-expired ts v [] = omega arith
length-expired ts v (i ∷ is) = ground (arith, length-expired ts v is)

-- The timers behind `advance` that show 0 are those that showed the interval before.
pub expired-lowered :
    (ts : Timers) (v : ℕ) (is js : List ℕ)
    → v < u64_mod
    → ((j : ℕ)
        → has j js ≡ true
        → (has j is ≡ true) × (v ≤ (ts j).ticker_val) × ((ts j).ticker_val < u64_mod))
    → expired (lowered ts is v) 0 js ≡ expired ts v js
expired-lowered ts v is [] low h = refl
expired-lowered ts v is (j ∷ js) low h =
    ground
      (arith, h j (ground arith), expired-lowered ts v is js low (λ k on. h k (ground (arith, on))))
