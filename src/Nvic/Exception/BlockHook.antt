-- ===== src/Nvic/Exception/BlockHook.antt =====
-- `nvic_block_hook` of cortexm_nvic.c, the check that runs at every basic block.
use fuzzware_emulator.Prelude.{
  ◌^◌, ◌<◌, ◌≡◌, ◌≢◌, refl, sym, subst, ap, ◌∙◌, true, false, if◌then◌else◌, arith, pos, ◌<ℤ◌,
}
use fuzzware_emulator.Engine.{Engine}
use fuzzware_emulator.Nvic.State.{Nvic, NvicConfig, nvic_none_active, no_prev_basepri}
use fuzzware_emulator.Nvic.Prio.{primask, recalc_prios}
use fuzzware_emulator.Nvic.Prio.Cached.{IsCached, HasScan, recalc_prios-IsCached}
use fuzzware_emulator.Nvic.Prio.Quiet.{NoneActive, recalc_prios-quiet, pending-visible}
use fuzzware_emulator.Nvic.Exception.{Cpu, exception_entry, nvic_block_hook}
use fuzzware_emulator.Nvic.Exception.Nesting.{IsSingle, reaches_limit, exception_entry-IsSingle}

module _ {Uc : Type 0} (e : Engine Uc) (config : NvicConfig) where
  block_hook-checks :
      (c : Cpu Uc)
      → primask (e.daif c.uc) ≡ false
      → e.basepri c.uc ≡ 0
      → c.nvic.prev_basepri ≡ no_prev_basepri
      → c.nvic.active_irq ≡ nvic_none_active
      → c.nvic.pending_prio <ℤ pos c.nvic.active_group_prio
      → nvic_block_hook e config c
        ≡ exception_entry e config false false
            (record c { nvic = record c.nvic { prev_primask = false; prev_basepri = 0 } })
  unfolding nvic_block_hook
  block_hook-checks c unmasked base prev idle higher = ground arith

  surpasses-requests :
      (n : Nvic)
      → (recalc_prios n).0 ≡ true
      → ((recalc_prios n).1.prev_basepri ≡ no_prev_basepri)
        × ((recalc_prios n).1.pending_prio <ℤ pos (recalc_prios n).1.active_group_prio)
        × ((recalc_prios n).1.active_irq ≡ n.active_irq)
        × ((recalc_prios n).1.exception_active ≡ n.exception_active)
  unfolding recalc_prios
  surpasses-requests n found = (ground (arith, found), ground (arith, found), refl, refl)

  -- With interrupts unmasked, no base priority, and nothing active, if `recalc_prios` finds that a
  -- pending exception has come to surpass the active ones, then its request is noticed at the next
  -- basic block: the pending exception that comes first becomes the only active one, or none is
  -- active if it reaches the limit of activations. The highest exception ever enabled has to be SVC
  -- or higher.
  pub nvic_block_hook_enters :
      (c : Cpu Uc)
      → primask (e.daif c.uc) ≡ false
      → e.basepri c.uc ≡ 0
      → c.nvic.active_irq ≡ nvic_none_active
      → IsSingle c.nvic
      → HasScan c.nvic
      → (recalc_prios c.nvic).0 ≡ true
      → let n = (recalc_prios c.nvic).1 in
        let c' = nvic_block_hook e config (record c { nvic = n }) in
        IsCached n
        × IsSingle c'.nvic
        × (c'.nvic.active_irq
            ≡ (if reaches_limit config n then nvic_none_active else n.pending_irq))
  nvic_block_hook_enters c unmasked base idle single scan found =
      let n = (recalc_prios c.nvic).1 in
      let (request, higher, same_irq, same_active) = surpasses-requests c.nvic found in
      let cached : IsCached n = recalc_prios-IsCached c.nvic scan in
      let quiet : NoneActive c.nvic = λ j. ground (arith, single j, idle) in
      let noticed : Cpu Uc = record c {
        nvic = record n { prev_primask = false; prev_basepri = 0 };
      } in
      let (alone, active, limit) =
        exception_entry-IsSingle e config false false noticed (same_irq ∙ idle)
          (pending-visible n cached (rw⁻¹ (recalc_prios-quiet c.nvic quiet) higher))
          (λ j. ground (arith, single j, idle, same_active, same_irq)) in
      let entered =
        block_hook-checks (record c { nvic = n }) unmasked base request (same_irq ∙ idle) higher in
      (
        cached,
        subst (λ (r : Cpu Uc). IsSingle r.nvic) (sym entered) alone,
        ap (λ (r : Cpu Uc). r.nvic.active_irq) entered ∙ active,
      )

  -- A flaw of the hook: `recalc_prios` sets `prev_basepri` to -1 to make the hook look, but the
  -- hook compares it as an unsigned number. With any other base priority than 0 the hook takes that
  -- for a lowered priority, returns early and forgets the request, whatever is pending.
  pub nvic_block_hook_misses :
      (c : Cpu Uc)
      → primask (e.daif c.uc) ≡ false
      → c.nvic.prev_primask ≡ false
      → c.nvic.prev_basepri ≡ no_prev_basepri
      → e.basepri c.uc ≢ 0
      → e.basepri c.uc < 2 ^ 32
      → nvic_block_hook e config c
        ≡ record c { nvic = record c.nvic { prev_basepri = e.basepri c.uc } }
  unfolding nvic_block_hook
  nvic_block_hook_misses c unmasked before prev base word = ground arith
