-- ===== src/Nvic/Exception/Frame.antt =====
-- The exception frame of cortexm_nvic.c: what `PopStack` restores of what `PushStack` has saved.
use fuzzware_emulator.Prelude.{
  ℕ, ◌/◌, ◌%◌, ◌^◌, ◌<◌, ◌≡◌, refl, ◌∙◌, false, arith, if◌then◌else◌, has_bit, set_bit, clear_bit,
  sub32, u32_mod,
}
use fuzzware_emulator.Engine.{Reg, UcErr, err_ok, Engine, IsFaithful, bytes_word}
use fuzzware_emulator.Nvic.Exception.{
  Cpu, SavedRegs, frame_size, frame_bytes, read_batch, write_batch, popped_sp, pop_stack,
  push_stack,
}

module _ {Uc : Type 0} (e : Engine Uc) (laws : IsFaithful e) where
  r0-write_batch : (s : SavedRegs) (u : Uc) → e.reg_read Reg.r0 (write_batch e s u) ≡ s.r0
  unfolding write_batch
  r0-write_batch s u = grind (arith, laws.read_other, laws.read_written)

  r1-write_batch : (s : SavedRegs) (u : Uc) → e.reg_read Reg.r1 (write_batch e s u) ≡ s.r1
  unfolding write_batch
  r1-write_batch s u = grind (arith, laws.read_other, laws.read_written)

  r2-write_batch : (s : SavedRegs) (u : Uc) → e.reg_read Reg.r2 (write_batch e s u) ≡ s.r2
  unfolding write_batch
  r2-write_batch s u = grind (arith, laws.read_other, laws.read_written)

  r3-write_batch : (s : SavedRegs) (u : Uc) → e.reg_read Reg.r3 (write_batch e s u) ≡ s.r3
  unfolding write_batch
  r3-write_batch s u = grind (arith, laws.read_other, laws.read_written)

  r12-write_batch : (s : SavedRegs) (u : Uc) → e.reg_read Reg.r12 (write_batch e s u) ≡ s.r12
  unfolding write_batch
  r12-write_batch s u = grind (arith, laws.read_other, laws.read_written)

  lr-write_batch : (s : SavedRegs) (u : Uc) → e.reg_read Reg.lr (write_batch e s u) ≡ s.lr
  unfolding write_batch
  lr-write_batch s u = grind (arith, laws.read_other, laws.read_written)

  pc-write_batch : (s : SavedRegs) (u : Uc) → e.reg_read Reg.pc (write_batch e s u) ≡ s.pc_retaddr
  unfolding write_batch
  pc-write_batch s u = grind (arith, laws.read_other, laws.read_written)

  xpsr-write_batch :
      (s : SavedRegs) (u : Uc) → e.reg_read Reg.xpsr (write_batch e s u) ≡ s.xpsr_retspr
  unfolding write_batch
  xpsr-write_batch s u = grind (arith, laws.read_other, laws.read_written)

  sp-write_batch : (s : SavedRegs) (u : Uc) → e.reg_read Reg.sp (write_batch e s u) ≡ s.sp
  unfolding write_batch
  sp-write_batch s u = grind (arith, laws.read_other, laws.read_written)

  -- Writing a frame and reading the registers gives the frame.
  read_batch-write_batch : (s : SavedRegs) (u : Uc) → read_batch e (write_batch e s u) ≡ s
  unfolding read_batch
  read_batch-write_batch s u = ground (
    arith,
    r0-write_batch s u,
    r1-write_batch s u,
    r2-write_batch s u,
    r3-write_batch s u,
    r12-write_batch s u,
    lr-write_batch s u,
    pc-write_batch s u,
    xpsr-write_batch s u,
    sp-write_batch s u,
  )

word_bytes_lem :
    (w : ℕ)
    → w < u32_mod
    → bytes_word (w % 256) (w / 2 ^ 8 % 256) (w / 2 ^ 16 % 256) (w / 2 ^ 24 % 256) ≡ w
word_bytes_lem w h = omega arith

-- The registers hold 32-bit words.
pub record IsWords (s : SavedRegs) : Type 0 where
  pub r0 : s.r0 < u32_mod
  pub r1 : s.r1 < u32_mod
  pub r2 : s.r2 < u32_mod
  pub r3 : s.r3 < u32_mod
  pub r12 : s.r12 < u32_mod
  pub lr : s.lr < u32_mod
  pub pc : s.pc_retaddr < u32_mod
  pub xpsr : s.xpsr_retspr < u32_mod
  pub sp : s.sp < u32_mod

-- The stack pointer comes back, whatever its alignment.
sp_lem :
    (sp xpsr : ℕ)
    → sp < u32_mod
    → has_bit xpsr 9 ≡ has_bit sp 2
    → popped_sp (clear_bit (sub32 sp frame_size) 2) xpsr ≡ sp
sp_lem sp xpsr h e = ground arith

-- XPSR as it is pushed: bit 9 tells whether the frame was moved down to an address that is a
-- multiple of 8.
abbrev pub pushed_xpsr : ℕ → ℕ → ℕ
pushed_xpsr sp xpsr = if has_bit sp 2 then set_bit xpsr 9 else xpsr

pushed_xpsr_bit :
    (sp xpsr : ℕ) → has_bit xpsr 9 ≡ false → has_bit (pushed_xpsr sp xpsr) 9 ≡ has_bit sp 2
pushed_xpsr_bit sp xpsr h = ground arith

pushed_xpsr-lt : (sp xpsr : ℕ) → xpsr < u32_mod → pushed_xpsr sp xpsr < u32_mod
pushed_xpsr-lt sp xpsr h = ground arith

isr_number : (sp xpsr : ℕ) → pushed_xpsr sp xpsr % 2 ^ 9 ≡ xpsr % 2 ^ 9
isr_number sp xpsr = ground arith

module _ {Uc : Type 0} (e : Engine Uc) (c : Cpu Uc) where
  -- The frame that `PushStack` writes, where it writes it, and the engine afterwards.
  abbrev pub pushed : SavedRegs
  pushed = let r = read_batch e c.uc in record r { xpsr_retspr = pushed_xpsr r.sp r.xpsr_retspr }

  abbrev pub frame_address : ℕ
  frame_address = clear_bit (sub32 (read_batch e c.uc).sp frame_size) 2

  abbrev pub write_frame : UcErr × Uc
  write_frame =
      e.mem_write frame_address (frame_bytes pushed) (e.reg_write Reg.sp frame_address c.uc)

  push_stack_ok :
      write_frame.0 ≡ err_ok
      → push_stack e false c ≡ record c { saved_regs = pushed; uc = write_frame.1 }
  unfolding push_stack
  push_stack_ok ok = rw ok

  module _ (laws : IsFaithful e) where
    pop_pushed :
        write_frame.0 ≡ err_ok
        → IsWords (read_batch e c.uc)
        → has_bit (read_batch e c.uc).xpsr_retspr 9 ≡ false
        → pop_stack e (record c { saved_regs = pushed; uc = write_frame.1 }) ≡ record c {
          saved_regs = pushed;
          uc = write_batch e pushed write_frame.1;
          nvic = record c.nvic { active_irq = (read_batch e c.uc).xpsr_retspr % 2 ^ 9 };
        }
    unfolding pop_stack
    pop_pushed ok w clear = rw sp-eq (
        rw mem-eq (
          rw (
            word_bytes_lem pushed.r0 words.r0,
            word_bytes_lem pushed.r1 words.r1,
            word_bytes_lem pushed.r2 words.r2,
            word_bytes_lem pushed.r3 words.r3,
            word_bytes_lem pushed.r12 words.r12,
            word_bytes_lem pushed.lr words.lr,
            word_bytes_lem pushed.pc_retaddr words.pc,
            word_bytes_lem pushed.xpsr_retspr words.xpsr,
            sp_lem (read_batch e c.uc).sp pushed.xpsr_retspr w.sp bit-eq,
            isr_number,
          )))
      where
        sp-eq : e.reg_read Reg.sp write_frame.1 ≡ frame_address
        sp-eq = laws.reg_mem Reg.sp _ _ _ ∙ laws.read_written Reg.sp _ _

        mem-eq :
            e.mem_read frame_address (frame_bytes pushed) write_frame.1
            ≡ (err_ok, frame_bytes pushed)
        mem-eq = laws.mem_written _ _ _ _ ok refl

        words : IsWords pushed
        words = record {
          r0 = w.r0;
          r1 = w.r1;
          r2 = w.r2;
          r3 = w.r3;
          r12 = w.r12;
          lr = w.lr;
          pc = w.pc;
          sp = w.sp;
          xpsr = pushed_xpsr-lt (read_batch e c.uc).sp (read_batch e c.uc).xpsr_retspr w.xpsr;
        }

        bit-eq : has_bit pushed.xpsr_retspr 9 ≡ has_bit (read_batch e c.uc).sp 2
        bit-eq = pushed_xpsr_bit (read_batch e c.uc).sp (read_batch e c.uc).xpsr_retspr clear

-- Popping a frame that has just been pushed restores every register, the stack pointer at any
-- alignment included, and takes the active exception from the interrupted XPSR; nothing crashes.
-- Only bit 9 of XPSR, which has to be clear before, is left telling whether the stack was aligned.
-- The frame has to be writable, and the engine to keep what is written to it.
pub pop_stack-push_stack :
    {Uc : Type 0} (e : Engine Uc) (laws : IsFaithful e) (c : Cpu Uc)
    → (write_frame e c).0 ≡ err_ok
    → IsWords (read_batch e c.uc)
    → has_bit (read_batch e c.uc).xpsr_retspr 9 ≡ false
    → let c' = pop_stack e (push_stack e false c) in
      let r = read_batch e c.uc in
      (read_batch e c'.uc ≡ record r { xpsr_retspr = pushed_xpsr r.sp r.xpsr_retspr })
      × (c'.nvic ≡ record c.nvic { active_irq = r.xpsr_retspr % 2 ^ 9 })
      × (c'.exits ≡ c.exits)
pop_stack-push_stack e laws c ok w clear =
    rw (push_stack_ok e c ok, pop_pushed e c laws ok w clear)
      (read_batch-write_batch e laws (pushed e c) (write_frame e c).1, refl, refl)
