-- ===== src/Nvic/Exception.antt =====
-- Exception entry and return in cortexm_nvic.c, the hooks that lead there, and the instruction size
-- of util.c by which a register-triggered activation skips the write.
--
-- The state is that of the CPU (the engine), the exit state, the NVIC, and `saved_regs`, the frame
-- that `PushStack` and `PopStack` leave behind.
pub mod Frame
pub mod Nesting
pub mod Returning
pub mod BlockHook
mod Registers
unfoldable pub use fuzzware_emulator.Nvic.Exception.Registers.*
use Prim.Native.Nat.{bit_and}
use fuzzware_emulator.Prelude.{
  ℕ, zero, suc, ◌+◌, ◌-◌, ◌*◌, ◌/◌, ◌%◌, ◌^◌, Bool, true, false, not, ◌&&◌, ◌||◌, List, [], ◌∷◌,
  ◌++◌, Run, ok, halt, Halt, ◌>>=◌, ◌>>◌, check, ℤ, pos, ltb_int, ltb, leb, ◌==◌, if◌then◌else◌,
  update, add32, sub32, has_bit, set_bit, clear_bit, bit,
}
use fuzzware_emulator.Engine.{
  Reg, UcErr, err_ok, err_fetch_prot, is_ok, Engine, ExitState, do_exit, force_crash, word_bytes,
  bytes_word, first_word,
}
use fuzzware_emulator.Nvic.State.{
  Nvic, NvicConfig, num_supported, exception_no_svc, exception_no_systick, nvic_none_active,
}
use fuzzware_emulator.Nvic.Prio.{
  recalc_prios, pend_interrupt, pending_exception_can_be_activated, primask,
}

module _ {Uc : Type 0} (e : Engine Uc) where
  -- `uc_reg_read_batch` over `saved_reg_ids`
  unfoldable pub read_batch : Uc → SavedRegs
  read_batch u = record {
    r0 = e.reg_read Reg.r0 u;
    r1 = e.reg_read Reg.r1 u;
    r2 = e.reg_read Reg.r2 u;
    r3 = e.reg_read Reg.r3 u;
    r12 = e.reg_read Reg.r12 u;
    lr = e.reg_read Reg.lr u;
    pc_retaddr = e.reg_read Reg.pc u;
    xpsr_retspr = e.reg_read Reg.xpsr u;
    sp = e.reg_read Reg.sp u;
  }

  -- `uc_reg_write_batch` over `saved_reg_ids`
  unfoldable pub write_batch : SavedRegs → Uc → Uc
  write_batch s u = e.reg_write Reg.sp s.sp (
      e.reg_write Reg.xpsr s.xpsr_retspr (
        e.reg_write Reg.pc s.pc_retaddr (
          e.reg_write Reg.lr s.lr (
            e.reg_write Reg.r12 s.r12 (
              e.reg_write Reg.r3 s.r3
                (e.reg_write Reg.r2 s.r2 (e.reg_write Reg.r1 s.r1 (e.reg_write Reg.r0 s.r0 u))))))))

  -- `force_crash` if the call has failed; the caller goes on in any case.
  abbrev pub crash_unless_ok : UcErr → Cpu Uc → Cpu Uc
  crash_unless_ok err c =
      if is_ok err
      then c
      else let (x, u) = force_crash e err c.exits c.uc in record c { exits = x; uc = u }

  unfoldable pub pop_stack : Cpu Uc → Cpu Uc
  pop_stack c =
      let frameptr = e.reg_read Reg.sp c.uc in
      let (err, bytes) = e.mem_read frameptr (frame_bytes c.saved_regs) c.uc in
      let s = with_words c.saved_regs (read_words 8 bytes) in
      let s' = record s { sp = popped_sp frameptr s.xpsr_retspr } in
      let c' = crash_unless_ok err c in
      record c' {
        saved_regs = s';
        uc = write_batch s' c'.uc;
        nvic = record c'.nvic { active_irq = s'.xpsr_retspr % 2 ^ 9 };
      }

  -- The return address behind the instruction at `pc`.
  abbrev pub skipped_pc : Uc → ℕ → ℕ
  skipped_pc u pc =
      let (err, bytes) = e.mem_read pc (0 ∷ 0 ∷ []) u in
      add32 pc (get_instruction_size (first_word (bytes ++ 0 ∷ 0 ∷ [])) true)

  unfoldable pub push_stack : Bool → Cpu Uc → Cpu Uc
  push_stack skip_instruction c =
      let r = read_batch c.uc in
      let r' =
        if skip_instruction then record r { pc_retaddr = skipped_pc c.uc r.pc_retaddr } else r in
      let frameptr = clear_bit (sub32 r'.sp frame_size) 2 in
      let s = record r' {
        xpsr_retspr = if has_bit r'.sp 2 then set_bit r'.xpsr_retspr 9 else r'.xpsr_retspr;
      } in
      let (err, u) = e.mem_write frameptr (frame_bytes s) (e.reg_write Reg.sp frameptr c.uc) in
      crash_unless_ok err (record c { saved_regs = s; uc = u })

  -- The stack pointers change places, and the CPU is told which one is in use.
  abbrev pub switch_stack : ℕ → Uc → Uc
  switch_stack is_psp u =
      let current = e.reg_read Reg.sp u in
      let other = e.reg_read Reg.other_sp u in
      e.reg_write Reg.curr_sp_mode_is_psp is_psp (
        e.reg_write Reg.spsel is_psp
          (e.reg_write Reg.sp other (e.reg_write Reg.other_sp current u)))

  -- Entry from running code: the frame is pushed; the result has the new LR as well.
  abbrev pub enter_unchained : Bool → Cpu Uc → ℕ × Cpu Uc
  enter_unchained skip_instruction c =
      let c' = push_stack skip_instruction c in
      if c'.nvic.active_irq == nvic_none_active
      then (if e.reg_read Reg.curr_sp_mode_is_psp c'.uc == 0
          then (set_bit entry_lr_base threadmode_bit, c')
          else (
            set_bit (set_bit entry_lr_base threadmode_bit) pspswitch_bit,
            record c' { uc = switch_stack 0 c'.uc },
          ))
      else (entry_lr_base, c')

  -- Tail chaining: the two bits of the previous LR, which stands in PC, are kept.
  abbrev pub chained_lr : Uc → ℕ
  chained_lr u =
      let prev_lr = e.reg_read Reg.pc u in
      let lr =
        if has_bit prev_lr threadmode_bit
        then set_bit entry_lr_base threadmode_bit
        else entry_lr_base in
      if has_bit prev_lr pspswitch_bit then set_bit lr pspswitch_bit else lr

  -- The part of `ExceptionEntry` behind the choice of LR.
  unfoldable pub take_exception : ℕ → Cpu Uc → Cpu Uc
  take_exception new_lr c =
      let u = e.reg_write Reg.lr new_lr c.uc in
      let i = c.nvic.pending_irq in
      let (err, entry) = e.mem_read (add32 c.nvic.vtor (4 * i)) (0 ∷ 0 ∷ 0 ∷ 0 ∷ []) u in
      let u' = e.reg_write Reg.pc (first_word entry) u in
      let u'' = e.reg_write Reg.xpsr (isr_xpsr c.saved_regs.xpsr_retspr i) u' in
      record c {
        uc = u'';
        nvic =
            (recalc_prios (record c.nvic {
              exception_active = update c.nvic.exception_active i true;
              exception_pending = update c.nvic.exception_pending i false;
              active_irq = i;
            })).1;
      }

  -- `ExceptionEntry` behind the check of the limit.
  abbrev pub enter : (is_tail_chained skip_instruction : Bool) → Cpu Uc → Cpu Uc
  enter true skip_instruction c = take_exception (chained_lr c.uc) c
  enter false skip_instruction c =
      let (lr, c') = enter_unchained skip_instruction c in take_exception lr c'

  module _ (config : NvicConfig) where
    -- Every exception but SysTick counts towards the limit of activations.
    unfoldable pub exception_entry : (is_tail_chained skip_instruction : Bool) → Cpu Uc → Cpu Uc
    exception_entry is_tail_chained skip_instruction c =
        let counts = not (c.nvic.pending_irq == exception_no_systick) in
        let count = if counts then add32 c.nvic.interrupt_count 1 else c.nvic.interrupt_count in
        let c' = record c { nvic = record c.nvic { interrupt_count = count } } in
        if counts && leb config.interrupt_limit count
        then (let (x, u) = do_exit e err_ok c'.exits c'.uc in record c' { exits = x; uc = u })
        else enter is_tail_chained skip_instruction c'

    abbrev pub can_be_activated : Cpu Uc → Bool
    can_be_activated c = pending_exception_can_be_activated (e.daif c.uc) (e.basepri c.uc) c.nvic

    unfoldable pub maybe_activate : Bool → Cpu Uc → Cpu Uc
    maybe_activate skip_instruction c =
        if can_be_activated c then exception_entry false skip_instruction c else c

    -- `nvic_set_pending`; its last argument is not used.
    unfoldable pub nvic_set_pending : ℕ → Cpu Uc → Cpu Uc
    nvic_set_pending i c = maybe_activate false (record c { nvic = pend_interrupt i c.nvic })

    unfoldable pub pend_from_mem_write : ℕ → Cpu Uc → Cpu Uc
    pend_from_mem_write i c = maybe_activate true (record c { nvic = pend_interrupt i c.nvic })

    -- The end of `ExceptionReturn`: the frame is popped, and the mode checked against the number
    -- that the frame restores.
    unfoldable pub return_from : ℕ → Cpu Uc → Cpu Uc
    return_from ret_pc c =
        let switches = has_bit ret_pc threadmode_bit && has_bit ret_pc pspswitch_bit in
        let c' = pop_stack (if switches then record c { uc = switch_stack 1 c.uc } else c) in
        let is_thread = c'.nvic.active_irq == nvic_none_active in
        let agrees = if has_bit ret_pc threadmode_bit then is_thread else not is_thread in
        if agrees then c' else crash_unless_ok err_fetch_prot c'

    -- `active_irq` comes from the stack, and may lie outside the array.
    unfoldable pub exception_return : ℕ → Cpu Uc → Run (Cpu Uc)
    exception_return ret_pc c = do
      check (ltb c.nvic.active_irq num_supported) Halt.out_of_bounds
      let i = c.nvic.active_irq
      let n = record c.nvic { exception_active = update c.nvic.exception_active i false }
      if i == nvic_none_active
          then ok (crash_unless_ok err_fetch_prot (record c { nvic = n }))
          else (let c' = record c {
            nvic = record (recalc_prios n).1 { active_irq = nvic_none_active };
          } in
              if can_be_activated c'
              then ok (exception_entry true false c')
              else ok (return_from ret_pc c'))

    unfoldable pub handler_svc : ℕ → Cpu Uc → Cpu Uc
    handler_svc intno c =
        if intno == 2
        then maybe_activate false (record c { nvic = pend_interrupt exception_no_svc c.nvic })
        else (let (x, u) = do_exit e err_ok c.exits c.uc in record c { exits = x; uc = u })

    -- The part of `nvic_block_hook` behind its early exits.
    abbrev pub check_activation : ℕ → Cpu Uc → Cpu Uc
    check_activation basepri c =
        let active_group_prio =
          if not (basepri == 0) && ltb basepri c.nvic.active_group_prio
          then bit_and basepri c.nvic.group_prio_mask
          else c.nvic.active_group_prio in
        if (c.nvic.active_irq == nvic_none_active)
          && ltb_int c.nvic.pending_prio (pos active_group_prio)
        then exception_entry false false c
        else c

    -- The comparisons with `prev_basepri` are of unsigned values: `basepri` is a `uint32_t`.
    unfoldable pub nvic_block_hook : Cpu Uc → Cpu Uc
    nvic_block_hook c =
        let n = c.nvic in
        let basepri = e.basepri c.uc in
        if primask (e.daif c.uc)
        then record c { nvic = record n { prev_primask = true } }
        else if n.prev_primask
        then check_activation basepri
            (record c { nvic = record n { prev_primask = false; prev_basepri = basepri } })
        else if (basepri == n.prev_basepri) || (not (basepri == 0) && ltb basepri n.prev_basepri)
        then record c { nvic = record n { prev_basepri = basepri } }
        else check_activation basepri (record c { nvic = record n { prev_basepri = basepri } })
