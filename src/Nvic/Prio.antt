-- ===== src/Nvic/Prio.antt =====
-- The priorities of cortexm_nvic.c: recalculation, pending and clearing an exception, and whether
-- a pending exception may be activated.
pub mod Pending
pub mod Cached
pub mod Quiet
use Prim.Native.Nat.{bit_and}
use fuzzware_emulator.Prelude.{
  ℕ, zero, suc, ◌+◌, ◌-◌, Bool, true, false, not, ◌&&◌, ◌||◌, List, [], ◌∷◌, ℤ, pos, ltb_int,
  to_u32, ltb, ◌==◌, if◌then◌else◌, update, has, has_bit,
}
use fuzzware_emulator.Nvic.State.{
  Nvic, NvicConfig, exception_none_active, exception_no_svc, nvic_none_active, nvic_lowest_prio,
  no_prev_basepri,
}

-- `raw_prio & nvic.group_prio_mask`, on the bit pattern of the `int`.
unfoldable pub get_group_prio : ℤ → Nvic → ℕ
get_group_prio raw n = bit_and (to_u32 raw) n.group_prio_mask

-- The running values of the loop of `recalc_prios`.
pub record Scan : Type 0 where
  pub num_active : ℕ
  pub highest_active_group_prio : ℕ
  pub highest_pending_prio : ℤ
  pub highest_pending_irq : ℕ

abbrev pub no_scan : Scan
no_scan = record {
  num_active = 0;
  highest_active_group_prio = nvic_lowest_prio;
  highest_pending_prio = pos nvic_lowest_prio;
  highest_pending_irq = exception_none_active;
}

abbrev pub scan_active : Nvic → ℕ → Scan → Scan
scan_active n i c =
    if n.exception_active i
    then record c {
      num_active = c.num_active + 1;
      highest_active_group_prio =
          if ltb_int (n.exception_priority i) (pos c.highest_active_group_prio)
          then get_group_prio (n.exception_priority i) n
          else c.highest_active_group_prio;
    }
    else c

abbrev pub scan_pending : Nvic → ℕ → Scan → Scan
scan_pending n i c =
    if n.exception_pending i && ltb_int (n.exception_priority i) c.highest_pending_prio
    then record c { highest_pending_prio = n.exception_priority i; highest_pending_irq = i }
    else c

-- `for (int i = EXCEPTION_NO_SVC; i <= highest; ++i)`, with the number of rounds left.
unfoldable pub scan_from : ℕ → ℕ → Nvic → Scan → Scan
scan_from zero i n c = c
scan_from (suc left) i n c = scan_from left (i + 1) n (scan_pending n i (scan_active n i c))

unfoldable pub scan_all : Nvic → Scan
scan_all n =
    scan_from (n.highest_ever_enabled_exception_no + 1 - exception_no_svc) exception_no_svc n
      no_scan

-- The new state, and whether a pending exception has come to surpass the active ones.
unfoldable pub recalc_prios : Nvic → Bool × Nvic
recalc_prios n =
    let c = scan_all n in
    let surpasses =
      not (ltb_int n.pending_prio (pos n.active_group_prio))
      && ltb_int c.highest_pending_prio (pos c.highest_active_group_prio) in
    (
      surpasses,
      record n {
        num_active = c.num_active;
        active_group_prio = c.highest_active_group_prio;
        pending_prio = c.highest_pending_prio;
        pending_irq = c.highest_pending_irq;
        prev_basepri = if surpasses then no_prev_basepri else n.prev_basepri;
      },
    )

unfoldable pub is_disabled_by_config : NvicConfig → ℕ → Bool
is_disabled_by_config c exception_no = has exception_no c.config_disabled_interrupts

-- The callers pass an exception number within the arrays.
unfoldable pub pend_interrupt : ℕ → Nvic → Nvic
pend_interrupt i n =
    if n.exception_pending i
    then n
    else let n' = record n { exception_pending = update n.exception_pending i true } in
      if ltb i n.pending_irq || ltb_int (n.exception_priority i) n.pending_prio
      then (recalc_prios n').1
      else n'

unfoldable pub clear_pend_interrupt : ℕ → Nvic → Nvic
clear_pend_interrupt i n =
    if not (n.exception_pending i)
    then n
    else let n' = record n { exception_pending = update n.exception_pending i false } in
      if n.pending_irq == i then (recalc_prios n').1 else n'

-- `GET_PRIMASK()`: bit 7 of the byte behind `reg_daif_ptr`.
abbrev pub primask : ℕ → Bool
primask daif = has_bit daif 7

-- The execution priority under PRIMASK and BASEPRI; an SVC is let through PRIMASK.
unfoldable pub get_boosted_prio : ℕ → ℕ → ℕ → Nvic → ℕ
get_boosted_prio daif basepri raw n =
    if primask daif && not (n.pending_irq == exception_no_svc)
    then 0
    else if basepri == 0
    then raw
    else let group = bit_and basepri n.group_prio_mask in if ltb group raw then group else raw

-- Nested exceptions are disabled: nothing is activated while a handler runs.
unfoldable pub pending_exception_can_be_activated : ℕ → ℕ → Nvic → Bool
pending_exception_can_be_activated daif basepri n =
    if not (n.active_irq == nvic_none_active)
    then false
    else ltb_int n.pending_prio (pos (get_boosted_prio daif basepri n.active_group_prio n))
