-- ===== src/Nvic/Exception/Registers.antt =====
-- The CPU with its saved registers, as cortexm_nvic.c lays them out in an exception frame, and the
-- instruction size of util.c.
use Prim.Native.Nat.{bit_and}
use fuzzware_emulator.Prelude.{
  ℕ, zero, suc, ◌+◌, ◌-◌, ◌*◌, ◌/◌, ◌%◌, ◌^◌, Bool, true, false, ◌||◌, List, [], ◌∷◌, ◌++◌, ◌==◌,
  if◌then◌else◌, add32, has_bit,
}
use fuzzware_emulator.Engine.{ExitState, word_bytes, bytes_word}
use fuzzware_emulator.Nvic.State.{Nvic}

-- `saved_regs`
pub record SavedRegs : Type 0 where
  pub r0 : ℕ
  pub r1 : ℕ
  pub r2 : ℕ
  pub r3 : ℕ
  pub r12 : ℕ
  pub lr : ℕ
  pub pc_retaddr : ℕ
  pub xpsr_retspr : ℕ
  pub sp : ℕ

pub record Cpu (Uc : Type 0) : Type 0 where
  pub uc : Uc
  pub exits : ExitState
  pub nvic : Nvic
  pub saved_regs : SavedRegs

-- `FRAME_SIZE`
abbrev pub frame_size : ℕ
frame_size = 0x20

-- NVIC_INTERRUPT_ENTRY_LR_BASE, with bit 2 for a switch of the stack and bit 3 for thread mode.
abbrev pub entry_lr_base : ℕ
entry_lr_base = 0xffff_fff1

abbrev pub pspswitch_bit : ℕ
pspswitch_bit = 2

abbrev pub threadmode_bit : ℕ
threadmode_bit = 3

-- `x & ~(((1 << width) - 1) << lo)`
abbrev pub clear_field : ℕ → ℕ → ℕ → ℕ
clear_field x lo width = x - x / 2 ^ lo % 2 ^ width * 2 ^ lo

-- `get_instruction_size(insn, true)` of util.c: a Thumb instruction.
unfoldable pub get_instruction_size : ℕ → Bool → ℕ
get_instruction_size insn true =
    let top = bit_and insn 0xf800 in
    if (top == 0xe800) || ((top == 0xf000) || (top == 0xf800)) then 4 else 2
get_instruction_size insn false = 4

-- The first eight words of `saved_regs`, as they lie in memory.
abbrev pub frame_bytes : SavedRegs → List ℕ
frame_bytes s =
    word_bytes s.r0
    ++ (word_bytes s.r1
        ++ (word_bytes s.r2
            ++ (word_bytes s.r3
                ++ (word_bytes s.r12
                    ++ (word_bytes s.lr
                        ++ (word_bytes s.pc_retaddr ++ word_bytes s.xpsr_retspr))))))

-- `n` words of a buffer.
abbrev pub read_words : ℕ → List ℕ → List ℕ
read_words zero bs = []
read_words (suc n) (a ∷ b ∷ c ∷ d ∷ rest) = bytes_word a b c d ∷ read_words n rest
read_words (suc n) _ = 0 ∷ read_words n []

abbrev pub with_words : SavedRegs → List ℕ → SavedRegs
with_words s (a ∷ b ∷ c ∷ d ∷ e ∷ f ∷ g ∷ h ∷ []) = record s {
  r0 = a;
  r1 = b;
  r2 = c;
  r3 = d;
  r12 = e;
  lr = f;
  pc_retaddr = g;
  xpsr_retspr = h;
}
with_words s _ = s

-- `saved_regs.sp`, from the frame pointer and the alignment bit of the saved XPSR.
abbrev pub popped_sp : ℕ → ℕ → ℕ
popped_sp frameptr xpsr =
    if has_bit xpsr 9 then add32 (add32 frameptr frame_size) 4 else add32 frameptr frame_size

-- The XPSR of the handler: the interrupted IT state is reset, the exception number set.
abbrev pub isr_xpsr : ℕ → ℕ → ℕ
isr_xpsr xpsr exception_number =
    clear_field (clear_field (clear_field xpsr 25 2) 10 6) 0 9 + exception_number
