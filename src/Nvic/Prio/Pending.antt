-- ===== src/Nvic/Prio/Pending.antt =====
-- What `recalc_prios` of cortexm_nvic.c looks for: the pending exception of the highest priority,
-- the lowest number first.
use fuzzware_emulator.Prelude.{
  ℕ, zero, suc, ◌+◌, ◌≤◌, ◌<◌, ◌≡◌, refl, ◌⊎◌, inl, inr, Bool, true, false, ◌&&◌, arith, ℤ, pos,
  ◌<ℤ◌, ◌≤ℤ◌, ltb_int, Bool-cases,
}
use fuzzware_emulator.Nvic.State.{Nvic, exception_none_active, exception_no_svc, nvic_lowest_prio}
use fuzzware_emulator.Nvic.Prio.{Scan, no_scan, scan_active, scan_pending, scan_from, scan_all}

-- Among the exceptions from `lo` to below `hi`, `irq` with priority `prio` is the pending one that
-- comes first.
pub record First (pend : ℕ → Bool) (prio_of : ℕ → ℤ) (lo hi irq : ℕ) (prio : ℤ) : Type 0 where
  pub from : lo ≤ irq
  pub to : irq < hi
  pub pending : pend irq ≡ true
  pub priority : prio ≡ prio_of irq
  pub visible : prio <ℤ pos nvic_lowest_prio
  pub highest : (j : ℕ) → lo ≤ j → j < hi → pend j ≡ true → prio ≤ℤ prio_of j
  pub lowest_number : (j : ℕ) → lo ≤ j → j < irq → pend j ≡ true → prio <ℤ prio_of j

-- No exception of the range is pending with a priority above the lowest.
pub record Nothing (pend : ℕ → Bool) (prio_of : ℕ → ℤ) (lo hi irq : ℕ) (prio : ℤ) : Type 0 where
  pub irq_none : irq ≡ exception_none_active
  pub prio_lowest : prio ≡ pos nvic_lowest_prio
  pub absent : (j : ℕ) → lo ≤ j → j < hi → pend j ≡ true → pos nvic_lowest_prio ≤ℤ prio_of j

abbrev pub Best : Nvic → ℕ → ℕ → ℕ → ℤ → Type 0
Best n lo hi irq prio =
    Nothing n.exception_pending n.exception_priority lo hi irq prio
    ⊎ First n.exception_pending n.exception_priority lo hi irq prio

pending-scan_active :
    (n : Nvic) (i : ℕ) (c : Scan)
    → ((scan_active n i c).highest_pending_prio ≡ c.highest_pending_prio)
      × ((scan_active n i c).highest_pending_irq ≡ c.highest_pending_irq)
pending-scan_active n i c = ground arith

lt_or_eq : (j i : ℕ) → j < i + 1 → (j < i) ⊎ (j ≡ i)
lt_or_eq j i h = ground arith

scan_pending-Best :
    (n : Nvic) (lo i : ℕ) (c : Scan)
    → lo ≤ i
    → Best n lo i c.highest_pending_irq c.highest_pending_prio
    → Best n lo
        (i + 1)
        (scan_pending n i c).highest_pending_irq
        (scan_pending n i c).highest_pending_prio
scan_pending-Best n lo i c le b =
    elim (Bool-cases
      (n.exception_pending i && ltb_int (n.exception_priority i) c.highest_pending_prio)) [
        | inl e ↦ rw e (inr (taken e b))
        | inr e ↦ rw e (kept e b)
      ]
  where
    taken :
        (n.exception_pending i && ltb_int (n.exception_priority i) c.highest_pending_prio) ≡ true
        → Best n lo i c.highest_pending_irq c.highest_pending_prio
        → First n.exception_pending n.exception_priority lo (i + 1) i (n.exception_priority i)
    taken e (inl a) = record {
      from = le;
      to = omega arith;
      pending = ground arith;
      priority = refl;
      visible = ground (arith, a.prio_lowest);
      highest = λ j l h p. elim (lt_or_eq j i h) [
        | inl lt ↦ ground (arith, a.prio_lowest, a.absent j l lt p)
        | inr eq ↦ rw eq (omega arith)
      ];
      lowest_number = λ j l h p. ground (arith, a.prio_lowest, a.absent j l h p);
    }
    taken e (inr f) = record {
      from = le;
      to = omega arith;
      pending = ground arith;
      priority = refl;
      visible = ground (arith, f.visible);
      highest = λ j l h p. elim (lt_or_eq j i h) [
        | inl lt ↦ ground (arith, f.highest j l lt p)
        | inr eq ↦ rw eq (omega arith)
      ];
      lowest_number = λ j l h p. ground (arith, f.highest j l h p);
    }

    kept :
        (n.exception_pending i && ltb_int (n.exception_priority i) c.highest_pending_prio) ≡ false
        → Best n lo i c.highest_pending_irq c.highest_pending_prio
        → Best n lo (i + 1) c.highest_pending_irq c.highest_pending_prio
    kept e (inl a) = inl (record {
      irq_none = a.irq_none;
      prio_lowest = a.prio_lowest;
      absent =
          λ j l h p. elim (lt_or_eq j i h) [ inl lt ↦ a.absent j l lt p | inr eq ↦ at_end j eq p ];
    })
      where
        at_end :
            (j : ℕ)
            → j ≡ i
            → n.exception_pending j ≡ true
            → pos nvic_lowest_prio ≤ℤ n.exception_priority j
        at_end j eq p = ground (arith, a.prio_lowest)
    kept e (inr f) = inr (record {
      from = f.from;
      to = omega (arith, f.to);
      pending = f.pending;
      priority = f.priority;
      visible = f.visible;
      highest =
          λ j l h p. elim (lt_or_eq j i h) [ inl lt ↦ f.highest j l lt p | inr eq ↦ ground arith ];
      lowest_number = f.lowest_number;
    })

scan_from-Best :
    (left lo i hi : ℕ) (n : Nvic) (c : Scan)
    → lo ≤ i
    → i + left ≡ hi
    → Best n lo i c.highest_pending_irq c.highest_pending_prio
    → Best n lo hi
        (scan_from left i n c).highest_pending_irq
        (scan_from left i n c).highest_pending_prio
unfolding scan_from
scan_from-Best zero lo i hi n c le e b = let e' : i ≡ hi = omega arith in rw (← e') b
scan_from-Best (suc left) lo i hi n c le e b =
    scan_from-Best left lo (i + 1) hi n (scan_pending n i (scan_active n i c)) (omega arith)
      (omega arith)
      (scan_pending-Best n lo i (scan_active n i c) le
        (rw ((pending-scan_active n i c).0, (pending-scan_active n i c).1) b))

-- The exceptions that `recalc_prios` looks at end before this number.
abbrev pub scan_end : Nvic → ℕ
scan_end n = n.highest_ever_enabled_exception_no + 1

pub scan_all-Best :
    (n : Nvic)
    → exception_no_svc ≤ n.highest_ever_enabled_exception_no
    → Best n exception_no_svc
        (scan_end n)
        (scan_all n).highest_pending_irq
        (scan_all n).highest_pending_prio
unfolding scan_all
scan_all-Best n h =
    scan_from-Best _ exception_no_svc exception_no_svc (scan_end n) n no_scan (omega arith)
      (omega arith)
      (inl
        (record { irq_none = refl; prio_lowest = refl; absent = λ j l h p. absurd (omega arith) }))
