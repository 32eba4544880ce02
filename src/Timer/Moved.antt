-- ===== src/Timer/Moved.antt =====
-- The two walks of `sort_timer_back` of timer.c, for a timer behind the front of the list.
use fuzzware_emulator.Prelude.{
  ℕ, zero, suc, ◌<◌, ◌≡◌, refl, sym, subst, true, false, some, List, [], ◌∷◌, ok, arith, leb, inl,
  inr, ◌==◌, Bool-cases, has, Distinct, length, if◌then◌else◌,
}
use fuzzware_emulator.Timer.{Timers, walk_fuel, find_place, find_pred, link, link_after}
use fuzzware_emulator.Timer.Chain.{Chain, Chain-same}
use fuzzware_emulator.Timer.Insert.{
  insert_sorted, insert_sorted_behind, find_place-Place, has-insert_sorted, has_ne,
}

-- The list with a timer moved back to the place of its expiry.
abbrev pub sort_back : Timers → ℕ → List ℕ → List ℕ
sort_back ts i [] = []
sort_back ts i (j ∷ js) = if j == i then insert_sorted ts i js else j ∷ sort_back ts i js

-- What the two walks find for a timer `i` with the successor `n`: unlinking it behind `p` and
-- linking it in behind `m` leads through the list with the timer moved back.
abbrev pub Moved : Timers → (fuel n c : ℕ) → List ℕ → ℕ → Type 0
Moved ts fuel n c js i =
    (p m : ℕ) × (find_pred fuel (some c) i ts ≡ ok p)
    × (find_place walk_fuel n (ts i).ticker_val ts ≡ ok m)
    × (has p (c ∷ js) ≡ true)
    × (has m (c ∷ js) ≡ true)
    × Chain (link_after (link ts p (some n)) m i) (some c) (c ∷ sort_back ts i js)

next-unlinked :
    (ts : Timers) (c m i n : ℕ)
    → (c == m) ≡ false
    → (c == i) ≡ false
    → (link_after (link ts c (some n)) m i c).next ≡ some n
next-unlinked ts c m i n e e' = ground (arith, e, e')

next-around :
    (ts : Timers) (c m i n j : ℕ)
    → (c == m) ≡ false
    → (c == i) ≡ false
    → (c == j) ≡ false
    → (link_after (link ts c (some n)) m i j).next ≡ (link_after ts m i j).next
next-around ts c m i n j e e' e'' = ground (arith, e, e', e'')

next-kept :
    (ts : Timers) (p m i n c : ℕ)
    → (c == p) ≡ false
    → (c == m) ≡ false
    → (c == i) ≡ false
    → (link_after (link ts p (some n)) m i c).next ≡ (ts c).next
next-kept ts p m i n c e e' e'' = ground (arith, e, e', e'')

pub sort_back_past :
    (ts : Timers) (i j : ℕ) (js : List ℕ)
    → (j == i) ≡ false
    → sort_back ts i (j ∷ js) ≡ j ∷ sort_back ts i js
sort_back_past ts i j js past = ground (arith, past)

module _ (ts : Timers) (i n : ℕ) (next : (ts i).next ≡ some n)
    (later : leb (ts i).ticker_val (ts n).ticker_val ≡ false) where
  -- The timer in front of the one that moves.
  found_behind :
      (k c : ℕ) (js : List ℕ)
      → length js < walk_fuel
      → Chain ts (some c) (c ∷ i ∷ js)
      → Distinct (c ∷ i ∷ js)
      → Moved ts (suc k) n c (i ∷ js) i
  unfolding find_pred
  found_behind k c [] fuel chain d = absurd (ground (arith, next, chain.1.1))
  found_behind k c (j ∷ js) fuel chain d =
      let here : j ≡ n = ground (arith, next, chain.1.1.0) in
      let (m, found, on, l) =
        find_place-Place walk_fuel ts n js i (omega (arith, fuel))
          (subst (λ x. Chain ts (ts x).next js) here chain.1.1.1)
          (subst (λ x. Distinct (x ∷ js)) here d.1.1)
          (subst (λ x. has i (x ∷ js) ≡ false) here d.1.0) in
      let c_out : has c (i ∷ n ∷ js) ≡ false = subst (λ x. has c (i ∷ x ∷ js) ≡ false) here d.0 in
      let c_m : (c == m) ≡ false = has_ne c m (n ∷ js) (ground (arith, c_out)) on in
      let c_i : (c == i) ≡ false = ground (arith, c_out) in
      let order : sort_back ts i (i ∷ j ∷ js) ≡ n ∷ insert_sorted ts i js =
        ground (arith, here, insert_sorted_behind ts i n js later) in
      (
        c,
        m,
        rw (chain.1.0, find_pred) (ground arith),
        found,
        ground arith,
        ground (arith, here, on),
        rw order (
          refl,
          (rw (next-unlinked ts c m i n c_m c_i) (
              Chain-same (link_after ts m i) (link_after (link ts c (some n)) m i) (some n)
                (n ∷ insert_sorted ts i js)
                (λ x h. next-around ts c m i n x c_m c_i (
                  has_ne c x (n ∷ insert_sorted ts i js)
                    (ground (arith, c_out, c_i, has-insert_sorted ts i c js)) h))
                l)),
        ),
      )

  pub find_pred-Moved :
      (k c : ℕ) (js : List ℕ)
      → length js < walk_fuel
      → length js < k
      → Chain ts (some c) (c ∷ js)
      → Distinct (c ∷ js)
      → has i js ≡ true
      → Moved ts k n c js i
  unfolding find_pred
  find_pred-Moved zero c js fuel enough chain d at = absurd (omega (arith, enough))
  find_pred-Moved (suc k) c [] fuel enough chain d at = absurd (ground (arith, at))
  find_pred-Moved (suc k) c (j ∷ js) fuel enough chain d at = elim (Bool-cases (j == i)) [
    | inl here ↦
        (let same : i ≡ j = ground (arith, here) in
          subst (λ x. Moved ts (suc k) n c (x ∷ js) i) same
            (found_behind k c js (omega (arith, fuel))
              (subst (λ x. Chain ts (some c) (c ∷ x ∷ js)) (sym same) chain)
              (subst (λ x. Distinct (c ∷ x ∷ js)) (sym same) d)))
    | inr past ↦
        (let (p, m, found, place, on_p, on_m, l) =
            find_pred-Moved k j js (omega (arith, fuel)) (omega (arith, enough)) (refl, chain.1.1)
              d.1 (ground (arith, at, past)) in
          (
            p,
            m,
            rw (chain.1.0, find_pred) (rw (past, find_pred) (rw chain.1.0 found)),
            place,
            ground (arith, on_p),
            ground (arith, on_m),
            rw (sort_back_past ts i j js past) (
              refl,
              rw
                  (
                    next-kept ts p m i n c (has_ne c p (j ∷ js) d.0 on_p)
                        (has_ne c m (j ∷ js) d.0 on_m) (has_ne c i (j ∷ js) d.0 at),
                    chain.1.0,
                  )
                  l,
            ),
          ))
  ]
