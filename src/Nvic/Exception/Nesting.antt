-- ===== src/Nvic/Exception/Nesting.antt =====
-- Exceptions of cortexm_nvic.c do not nest: at most one is active, and none is entered while a
-- handler runs.
use fuzzware_emulator.Prelude.{
  ℕ, ◌≡◌, ◌≢◌, refl, sym, subst, ap, ◌∙◌, inl, inr, Bool, true, false, not, ◌&&◌, arith, leb, ◌==◌,
  if◌then◌else◌, Bool-cases, add32,
}
use fuzzware_emulator.Engine.{Engine, ExitState, UcErr, err_ok, do_exit}
use fuzzware_emulator.Nvic.State.{Nvic, NvicConfig, nvic_none_active, exception_no_systick}
use fuzzware_emulator.Nvic.Prio.{recalc_prios, pend_interrupt, pending_exception_can_be_activated}
use fuzzware_emulator.Nvic.Exception.{
  Cpu, push_stack, take_exception, exception_entry, maybe_activate, nvic_set_pending, enter,
  enter_unchained, chained_lr,
}

-- Exactly the active exception is flagged as active; in thread mode none is.
abbrev pub IsSingle : Nvic → Type 0
IsSingle n = (i : ℕ) → n.exception_active i ≡ ((i == n.active_irq) && not (i == nvic_none_active))

active-pend :
    (i : ℕ) (n : Nvic)
    → ((pend_interrupt i n).active_irq ≡ n.active_irq)
      × ((pend_interrupt i n).exception_active ≡ n.exception_active)
unfolding pend_interrupt recalc_prios
active-pend i n = (ground arith, ground arith)

-- Whether entering the pending exception brings the number of activations to the limit; SysTick is
-- not counted.
abbrev pub reaches_limit : NvicConfig → Nvic → Bool
reaches_limit config n =
    not (n.pending_irq == exception_no_systick)
    && leb config.interrupt_limit (add32 n.interrupt_count 1)

module _ {Uc : Type 0} (e : Engine Uc) (config : NvicConfig) where
  -- While a handler runs, pending an exception changes the NVIC only: nothing is activated.
  nvic_set_pending_in_handler :
      (i : ℕ) (c : Cpu Uc)
      → c.nvic.active_irq ≢ nvic_none_active
      → nvic_set_pending e config i c ≡ record c { nvic = pend_interrupt i c.nvic }
  unfolding nvic_set_pending maybe_activate pending_exception_can_be_activated
  nvic_set_pending_in_handler i c busy = ground (arith, active-pend i c.nvic)

  nvic-push_stack : (skip : Bool) (c : Cpu Uc) → (push_stack e skip c).nvic ≡ c.nvic
  unfolding push_stack
  nvic-push_stack skip c = ground arith

  nvic-enter_unchained : (skip : Bool) (c : Cpu Uc) → (enter_unchained e skip c).1.nvic ≡ c.nvic
  nvic-enter_unchained skip c = ground (arith, nvic-push_stack skip c)

  take_exception-IsSingle :
      (lr : ℕ) (c : Cpu Uc)
      → c.nvic.active_irq ≡ nvic_none_active
      → c.nvic.pending_irq ≢ nvic_none_active
      → IsSingle c.nvic
      → IsSingle (take_exception e lr c).nvic
        × ((take_exception e lr c).nvic.active_irq ≡ c.nvic.pending_irq)
  unfolding take_exception recalc_prios
  take_exception-IsSingle lr c idle some_pending s = ((λ i. ground (arith, s i)), refl)

  enter-IsSingle :
      (chained skip : Bool) (c : Cpu Uc)
      → c.nvic.active_irq ≡ nvic_none_active
      → c.nvic.pending_irq ≢ nvic_none_active
      → IsSingle c.nvic
      → IsSingle (enter e chained skip c).nvic
        × ((enter e chained skip c).nvic.active_irq ≡ c.nvic.pending_irq)
  enter-IsSingle true skip c idle some_pending s =
      take_exception-IsSingle (chained_lr e c.uc) c idle some_pending s
  enter-IsSingle false skip c idle some_pending s =
      let c' = (enter_unchained e skip c).1 in
      let n-eq = nvic-enter_unchained skip c in
      let (single, active) =
        take_exception-IsSingle (enter_unchained e skip c).0 c'
          (ap (λ (n : Nvic). n.active_irq) n-eq ∙ idle)
          (λ h. some_pending (sym (ap (λ (n : Nvic). n.pending_irq) n-eq) ∙ h))
          (subst IsSingle (sym n-eq) s) in
      (single, active ∙ ap (λ (n : Nvic). n.pending_irq) n-eq)

  do_exit-duplicate :
      (err : UcErr) (x : ExitState) (u : Uc) → (do_exit e err x u).0.duplicate_exit ≡ true
  unfolding do_exit
  do_exit-duplicate err x u = ground arith

  -- Entering an exception from thread mode, or by tail chaining after the last one has been
  -- deactivated, with no exception flagged as active and one pending, makes the pending exception
  -- the only active one, unless it reaches the limit of activations: then no exception is entered,
  -- and an exit has been asked for.
  pub exception_entry-IsSingle :
      (chained skip : Bool) (c : Cpu Uc)
      → c.nvic.active_irq ≡ nvic_none_active
      → c.nvic.pending_irq ≢ nvic_none_active
      → IsSingle c.nvic
      → let c' = exception_entry e config chained skip c in
        IsSingle c'.nvic
        × (c'.nvic.active_irq
            ≡ (if reaches_limit config c.nvic then nvic_none_active else c.nvic.pending_irq))
        × ((reaches_limit config c.nvic && not c'.exits.duplicate_exit) ≡ false)
  unfolding exception_entry
  exception_entry-IsSingle chained skip c idle some_pending s =
      elim (Bool-cases (reaches_limit config c.nvic)) [
        | inl over ↦ ground (arith, over, idle, s, do_exit-duplicate err_ok c.exits c.uc)
        | inr under ↦
            (let (single, active) = enter-IsSingle chained skip c' idle some_pending s in
              ground (arith, under, single, active))
      ]
    where
      c' : Cpu Uc
      c' = record c {
        nvic = record c.nvic {
          interrupt_count =
              if not (c.nvic.pending_irq == exception_no_systick)
              then add32 c.nvic.interrupt_count 1
              else c.nvic.interrupt_count;
        };
      }
