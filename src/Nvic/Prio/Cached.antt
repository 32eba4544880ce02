-- ===== src/Nvic/Prio/Cached.antt =====
-- The lazy recalculation of cortexm_nvic.c: `pending_irq` and `pending_prio` are cached, and
-- `pend_interrupt` and `clear_pend_interrupt` recalculate them only where they have to.
use fuzzware_emulator.Prelude.{
  ℕ, ◌≤◌, ◌<◌, ◌≡◌, inl, inr, true, false, ◌||◌, arith, ltb, ◌==◌, ltb_int, update, Bool-cases,
  if◌then◌else◌, ◌≤ℤ◌, pos,
}
use fuzzware_emulator.Nvic.State.{Nvic, exception_no_svc, nvic_lowest_prio}
use fuzzware_emulator.Nvic.Prio.{recalc_prios, pend_interrupt, clear_pend_interrupt}
use fuzzware_emulator.Nvic.Prio.Pending.{Best, scan_end, scan_all-Best}

-- The cached values are those of the first pending exception.
abbrev pub IsCached : Nvic → Type 0
IsCached n = Best n exception_no_svc (scan_end n) n.pending_irq n.pending_prio

-- `init_nvic` enables the SysTick exception, and the highest number never falls.
abbrev pub HasScan : Nvic → Type 0
HasScan n = exception_no_svc ≤ n.highest_ever_enabled_exception_no

-- Among the exceptions from SVC up to the highest one ever enabled, which is SVC or higher,
-- `recalc_prios` finds the pending one of the highest priority, and among equals the one with the
-- lowest number; with none above the lowest priority, it sets that priority and no exception.
pub recalc_prios-IsCached : (n : Nvic) → HasScan n → IsCached (recalc_prios n).1
unfolding recalc_prios
recalc_prios-IsCached n h = scan_all-Best n h

abbrev pended : Nvic → ℕ → Nvic
pended n i = record n { exception_pending = update n.exception_pending i true }

abbrev cleared : Nvic → ℕ → Nvic
cleared n i = record n { exception_pending = update n.exception_pending i false }

pended_quiet :
    (n : Nvic) (i : ℕ)
    → IsCached n
    → (ltb i n.pending_irq || ltb_int (n.exception_priority i) n.pending_prio) ≡ false
    → IsCached (pended n i)
pended_quiet n i (inl a) e = inl (record {
  irq_none = a.irq_none;
  prio_lowest = a.prio_lowest;
  absent = λ j l h p. elim (Bool-cases (j == i)) [
    | inl same ↦ at j same
    | inr other ↦ a.absent j l h (old j other p)
  ];
})
  where
    at : (j : ℕ) → (j == i) ≡ true → pos nvic_lowest_prio ≤ℤ n.exception_priority j
    at j same = ground (arith, a.prio_lowest)

    old :
        (j : ℕ)
        → (j == i) ≡ false
        → update n.exception_pending i true j ≡ true
        → n.exception_pending j ≡ true
    old j other p = ground arith
pended_quiet n i (inr f) e = inr (record {
  from = f.from;
  to = f.to;
  pending = ground (arith, f.pending);
  priority = f.priority;
  visible = f.visible;
  highest = λ j l h p. elim (Bool-cases (j == i)) [
    | inl same ↦ at j same
    | inr other ↦ f.highest j l h (old j other p)
  ];
  lowest_number = λ j l h p. elim (Bool-cases (j == i)) [
    | inl same ↦ absurd (before j same h)
    | inr other ↦ f.lowest_number j l h (old j other p)
  ];
})
  where
    at : (j : ℕ) → (j == i) ≡ true → n.pending_prio ≤ℤ n.exception_priority j
    at j same = ground arith

    before : (j : ℕ) → (j == i) ≡ true → j < n.pending_irq → ⊥
    before j same h = ground arith

    old :
        (j : ℕ)
        → (j == i) ≡ false
        → update n.exception_pending i true j ≡ true
        → n.exception_pending j ≡ true
    old j other p = ground arith

still_pending :
    (n : Nvic) (i j : ℕ)
    → update n.exception_pending i false j ≡ true
    → n.exception_pending j ≡ true
still_pending n i j p = ground arith

cleared_quiet :
    (n : Nvic) (i : ℕ) → IsCached n → (n.pending_irq == i) ≡ false → IsCached (cleared n i)
cleared_quiet n i (inl a) e = inl (record {
  irq_none = a.irq_none;
  prio_lowest = a.prio_lowest;
  absent = λ j l h p. a.absent j l h (still_pending n i j p);
})
cleared_quiet n i (inr f) e = inr (record {
  from = f.from;
  to = f.to;
  pending = ground (arith, f.pending);
  priority = f.priority;
  visible = f.visible;
  highest = λ j l h p. f.highest j l h (still_pending n i j p);
  lowest_number = λ j l h p. f.lowest_number j l h (still_pending n i j p);
})

-- If the cached pending exception is right, it is right after another one has been pended, although
-- not every call recalculates; that one is pending then, and what else was pending still is. The
-- highest exception ever enabled has to be SVC or higher.
pub pend_interrupt-IsCached :
    (n : Nvic) (i : ℕ)
    → HasScan n
    → IsCached n
    → IsCached (pend_interrupt i n)
      × ((j : ℕ) → (pend_interrupt i n).exception_pending j ≡ ((j == i) || n.exception_pending j))
unfolding pend_interrupt recalc_prios
pend_interrupt-IsCached n i h b = (cache, λ j. ground arith)
  where
    cache : IsCached (pend_interrupt i n)
    cache = elim (Bool-cases (n.exception_pending i)) [
      | inl e ↦ rw e b
      | inr e ↦
          elim (Bool-cases
            (ltb i n.pending_irq || ltb_int (n.exception_priority i) n.pending_prio)) [
              | inl now ↦ rw (e, now) (scan_all-Best (pended n i) h)
              | inr quiet ↦ rw (e, quiet) (pended_quiet n i b quiet)
            ]
    ]

-- If the cached pending exception is right, it is right after an exception has been cleared; that
-- one is not pending then, and all others are as before. The highest exception ever enabled has to
-- be SVC or higher.
pub clear_pend_interrupt-IsCached :
    (n : Nvic) (i : ℕ)
    → HasScan n
    → IsCached n
    → IsCached (clear_pend_interrupt i n)
      × ((j : ℕ)
          → (clear_pend_interrupt i n).exception_pending j
            ≡ (if j == i then false else n.exception_pending j))
unfolding clear_pend_interrupt recalc_prios
clear_pend_interrupt-IsCached n i h b = (cache, λ j. ground arith)
  where
    cache : IsCached (clear_pend_interrupt i n)
    cache = elim (Bool-cases (n.exception_pending i)) [
      | inr e ↦ rw e b
      | inl e ↦ elim (Bool-cases (n.pending_irq == i)) [
        | inl now ↦ rw (e, now) (scan_all-Best (cleared n i) h)
        | inr quiet ↦ rw (e, quiet) (cleared_quiet n i b quiet)
      ]
    ]
