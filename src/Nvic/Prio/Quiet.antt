-- ===== src/Nvic/Prio/Quiet.antt =====
-- `recalc_prios` of cortexm_nvic.c where no exception is active.
use fuzzware_emulator.Prelude.{
  ℕ, zero, suc, ◌+◌, ◌-◌, ◌≡◌, ◌≢◌, refl, ◌∙◌, inl, inr, true, false, arith, pos, ◌<ℤ◌,
}
use fuzzware_emulator.Nvic.State.{Nvic, exception_no_svc, nvic_none_active, nvic_lowest_prio}
use fuzzware_emulator.Nvic.Prio.{
  Scan, no_scan, scan_active, scan_pending, scan_from, scan_all, recalc_prios, get_boosted_prio,
  pending_exception_can_be_activated,
}
use fuzzware_emulator.Nvic.Prio.Cached.{IsCached}

abbrev pub NoneActive : Nvic → Type 0
NoneActive n = (j : ℕ) → n.exception_active j ≡ false

scan_from-quiet :
    (k i : ℕ) (n : Nvic) (c : Scan)
    → NoneActive n
    → (scan_from k i n c).highest_active_group_prio ≡ c.highest_active_group_prio
unfolding scan_from
scan_from-quiet zero i n c quiet = refl
scan_from-quiet (suc k) i n c quiet =
    scan_from-quiet k (i + 1) n (scan_pending n i (scan_active n i c)) quiet
    ∙ ground (arith, quiet i)

pub recalc_prios-quiet :
    (n : Nvic) → NoneActive n → (recalc_prios n).1.active_group_prio ≡ nvic_lowest_prio
unfolding recalc_prios
recalc_prios-quiet n quiet =
    unfold scan_all in
    scan_from-quiet (n.highest_ever_enabled_exception_no + 1 - exception_no_svc) exception_no_svc n
      no_scan quiet

-- A pending exception that comes before the lowest priority is one.
pub pending-visible :
    (n : Nvic)
    → IsCached n
    → n.pending_prio <ℤ pos nvic_lowest_prio
    → n.pending_irq ≢ nvic_none_active
pending-visible n (inl a) h e = ground (arith, a.prio_lowest, h)
pending-visible n (inr f) h e = omega (arith, f.from, e)

pub activated-before :
    (daif basepri : ℕ) (n : Nvic)
    → pending_exception_can_be_activated daif basepri n ≡ true
    → n.pending_prio <ℤ pos n.active_group_prio
unfolding pending_exception_can_be_activated get_boosted_prio
activated-before daif basepri n h = ground (arith, h)
