-- ===== src/Nvic/Mmio/Faults.antt =====
-- The NMI in cortexm_nvic.c.
use fuzzware_emulator.Prelude.{◌≢◌, inl, inr, arith}
use fuzzware_emulator.Nvic.State.{Nvic, exception_no_nmi}
use fuzzware_emulator.Nvic.Prio.{pend_interrupt}
use fuzzware_emulator.Nvic.Prio.Cached.{HasScan, IsCached, pend_interrupt-IsCached}

-- A flaw of the recalculation: its scan starts behind the NMI, so that pending the NMI never makes
-- it the exception that is up next, as long as the cached pending exception is right before and the
-- highest exception ever enabled is SVC or higher.
pub pend_interrupt_misses_nmi :
    (n : Nvic)
    → HasScan n
    → IsCached n
    → (pend_interrupt exception_no_nmi n).pending_irq ≢ exception_no_nmi
pend_interrupt_misses_nmi n scan cached h =
    elim (pend_interrupt-IsCached n exception_no_nmi scan cached).0 [
      | inl absent ↦ omega (arith, absent.irq_none, h)
      | inr found ↦ omega (arith, found.from, h)
    ]
