-- ===== src/Nvic/Exception/Returning.antt =====
-- `ExceptionReturn` of cortexm_nvic.c.
use fuzzware_emulator.Prelude.{
  ℕ, ◌%◌, ◌^◌, ◌<◌, ◌≡◌, ◌≢◌, refl, sym, ap, ◌∙◌, ◌⊎◌, inl, inr, Bool, true, false, arith,
  if◌then◌else◌, ok, Bool-cases, update,
}
use fuzzware_emulator.Engine.{Engine, Reg, UcErr, err_fetch_prot, is_ok}
use fuzzware_emulator.Nvic.State.{
  Nvic, NvicConfig, num_supported, nvic_none_active, nvic_lowest_prio,
}
use fuzzware_emulator.Nvic.Prio.{recalc_prios}
use fuzzware_emulator.Nvic.Prio.Cached.{IsCached, HasScan, recalc_prios-IsCached}
use fuzzware_emulator.Nvic.Prio.Quiet.{
  NoneActive, recalc_prios-quiet, pending-visible, activated-before,
}
use fuzzware_emulator.Nvic.Exception.{
  Cpu, SavedRegs, frame_bytes, pop_stack, switch_stack, crash_unless_ok, exception_entry,
  exception_return, can_be_activated, return_from,
}
use fuzzware_emulator.Nvic.Exception.Nesting.{IsSingle, reaches_limit, exception_entry-IsSingle}

-- The state between the two halves of a return: the exception is no longer active, nothing is, and
-- the pending exceptions have been searched for the one that comes first.
pub record Deactivated {Uc : Type 0} (c d : Cpu Uc) : Type 0 where
  pub idle : d.nvic.active_irq ≡ nvic_none_active
  pub quiet : NoneActive d.nvic
  pub cached : IsCached d.nvic
  pub lowest : d.nvic.active_group_prio ≡ nvic_lowest_prio
  pub pending : d.nvic.exception_pending ≡ c.nvic.exception_pending
  pub priority : d.nvic.exception_priority ≡ c.nvic.exception_priority
  pub engine : d.uc ≡ c.uc
  pub saved : d.saved_regs ≡ c.saved_regs
  pub exits : d.exits ≡ c.exits

module _ {Uc : Type 0} (e : Engine Uc) (config : NvicConfig) where
  -- The state `r` after a tail chain.
  abbrev pub TailChained : Cpu Uc → Cpu Uc → Type 0
  TailChained d r =
      (can_be_activated e config d ≡ true)
      × (r ≡ exception_entry e config true false d)
      × IsSingle r.nvic
      × (r.nvic.active_irq
          ≡ (if reaches_limit config d.nvic then nvic_none_active else d.nvic.pending_irq))

  -- The state `r` behind a popped frame, whose XPSR says which exception is active.
  abbrev pub Popped : Cpu Uc → Cpu Uc → Type 0
  Popped d r =
      (can_be_activated e config d ≡ false)
      × (r.nvic ≡ record d.nvic { active_irq = r.saved_regs.xpsr_retspr % 2 ^ 9 })

  exception_return-deactivates :
      (ret_pc : ℕ) (c : Cpu Uc)
      → c.nvic.active_irq ≢ nvic_none_active
      → c.nvic.active_irq < num_supported
      → HasScan c.nvic
      → IsSingle c.nvic
      → (d : Cpu Uc) × Deactivated c d
        × (exception_return e config ret_pc c
            ≡ ok (
                if can_be_activated e config d
                then exception_entry e config true false d
                else return_from e config ret_pc d))
  unfolding exception_return recalc_prios
  exception_return-deactivates ret_pc c busy lt scan s = (
    record c { nvic = record (recalc_prios n).1 { active_irq = nvic_none_active } },
    record {
      idle = refl;
      quiet = quiet;
      cached = recalc_prios-IsCached n scan;
      lowest = recalc_prios-quiet n quiet;
      pending = refl;
      priority = refl;
      engine = refl;
      saved = refl;
      exits = refl;
    },
    ground (arith),
  )
    where
      n : Nvic
      n = record c.nvic {
        exception_active = update c.nvic.exception_active c.nvic.active_irq false;
      }

      quiet : NoneActive n
      quiet j = ground (arith, s j)

  crash_unless_ok-keeps :
      (err : UcErr) (c : Cpu Uc)
      → ((crash_unless_ok e err c).nvic ≡ c.nvic)
        × ((crash_unless_ok e err c).saved_regs ≡ c.saved_regs)
  crash_unless_ok-keeps err c = elim (Bool-cases (is_ok err)) [
    | inl fine ↦ rw fine (refl, refl)
    | inr failed ↦ rw failed (refl, refl)
  ]

  abbrev PopsTo : Nvic → Cpu Uc → Type 0
  PopsTo n c = c.nvic ≡ record n { active_irq = c.saved_regs.xpsr_retspr % 2 ^ 9 }

  crash_unless_ok-PopsTo :
      (err : UcErr) (n : Nvic) (c : Cpu Uc) → PopsTo n c → PopsTo n (crash_unless_ok e err c)
  crash_unless_ok-PopsTo err n c h =
      let (nvic, regs) = crash_unless_ok-keeps err c in
      nvic ∙ h ∙ ap (λ (r : SavedRegs). record n { active_irq = r.xpsr_retspr % 2 ^ 9 }) (sym regs)

  pop_stack-PopsTo : (c : Cpu Uc) → PopsTo c.nvic (pop_stack e c)
  unfolding pop_stack
  pop_stack-PopsTo c =
      ap (λ (n : Nvic). record n { active_irq = (pop_stack e c).saved_regs.xpsr_retspr % 2 ^ 9 })
        (crash_unless_ok-keeps
          (e.mem_read (e.reg_read Reg.sp c.uc) (frame_bytes c.saved_regs) c.uc).0 c).0

  pop_switched-PopsTo :
      (b : Bool) (d : Cpu Uc)
      → PopsTo d.nvic (pop_stack e (if b then record d { uc = switch_stack e 1 d.uc } else d))
  pop_switched-PopsTo true d = pop_stack-PopsTo (record d { uc = switch_stack e 1 d.uc })
  pop_switched-PopsTo false d = pop_stack-PopsTo d

  checked-PopsTo :
      (agrees : Bool) (n : Nvic) (c : Cpu Uc)
      → PopsTo n c
      → PopsTo n (if agrees then c else crash_unless_ok e err_fetch_prot c)
  checked-PopsTo true n c h = h
  checked-PopsTo false n c h = crash_unless_ok-PopsTo err_fetch_prot n c h

  return_from-pops :
      (ret_pc : ℕ) (d : Cpu Uc)
      → (return_from e config ret_pc d).nvic ≡ record d.nvic {
        active_irq = (return_from e config ret_pc d).saved_regs.xpsr_retspr % 2 ^ 9;
      }
  unfolding return_from
  return_from-pops ret_pc d = checked-PopsTo _ d.nvic _ (pop_switched-PopsTo _ d)

  -- If exactly the active exception is flagged as active, and its number is within the arrays,
  -- returning from it succeeds: it is deactivated, and the pending exceptions are searched for the
  -- one that comes first. If that one may be activated, it is entered by tail chaining and becomes
  -- the only active exception, or none is active if it reaches the limit of activations.
  -- Otherwise the frame is popped: the number in its XPSR is the active exception, and nothing
  -- else changes in the NVIC. The highest exception ever enabled has to be SVC or higher.
  pub exception_return_lem :
      (ret_pc : ℕ) (c : Cpu Uc)
      → c.nvic.active_irq ≢ nvic_none_active
      → c.nvic.active_irq < num_supported
      → HasScan c.nvic
      → IsSingle c.nvic
      → (d : Cpu Uc) × (r : Cpu Uc) × Deactivated c d
        × (exception_return e config ret_pc c ≡ ok r)
        × (TailChained d r ⊎ Popped d r)
  exception_return_lem ret_pc c busy lt scan s =
      let (d, off, run) = exception_return-deactivates ret_pc c busy lt scan s in
      elim (Bool-cases (can_be_activated e config d)) [
        | inl chains ↦
            (let (single, active, limit) =
                exception_entry-IsSingle e config true false d off.idle
                  (pending-visible d.nvic off.cached
                    (rw⁻¹ off.lowest (activated-before _ _ d.nvic chains)))
                  (λ j. ground (arith, off.quiet j, off.idle)) in
              (
                d,
                exception_entry e config true false d,
                off,
                rw chains at run,
                inl (chains, refl, single, active),
              ))
        | inr pops ↦ (
          d,
          return_from e config ret_pc d,
          off,
          rw pops at run,
          inr (pops, return_from-pops ret_pc d),
        )
      ]
