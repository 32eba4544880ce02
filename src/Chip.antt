-- ===== src/Chip.antt =====
-- An engine with registers and memory as functions, which keeps what is written to it: it has the
-- documented behaviour that the theorems ask of the engine.
use fuzzware_emulator.Prelude.{
  ℕ, ◌≡◌, refl, sym, ap, ◌∙◌, Bool, true, false, ◌&&◌, List, length, ◌==◌, if◌then◌else◌, arith,
}
use fuzzware_emulator.Engine.{Reg, err_ok, Engine, IsFaithful}

-- `mem` gives the bytes that a read of a buffer at an address leaves in it.
pub record Chip : Type 0 where
  pub reg : Reg → ℕ
  pub mem : ℕ → List ℕ → List ℕ
  pub daif : ℕ
  pub basepri : ℕ
  pub stopped : Bool

abbrev reg_index : Reg → ℕ
reg_index Reg.r0 = 0
reg_index Reg.r1 = 1
reg_index Reg.r2 = 2
reg_index Reg.r3 = 3
reg_index Reg.r12 = 4
reg_index Reg.lr = 5
reg_index Reg.pc = 6
reg_index Reg.xpsr = 7
reg_index Reg.sp = 8
reg_index Reg.other_sp = 9
reg_index Reg.spsel = 10
reg_index Reg.curr_sp_mode_is_psp = 11

abbrev reg_of : ℕ → Reg
reg_of i =
    if i == 0
    then Reg.r0
    else if i == 1
    then Reg.r1
    else if i == 2
    then Reg.r2
    else if i == 3
    then Reg.r3
    else if i == 4
    then Reg.r12
    else if i == 5
    then Reg.lr
    else if i == 6
    then Reg.pc
    else if i == 7
    then Reg.xpsr
    else if i == 8
    then Reg.sp
    else if i == 9
    then Reg.other_sp
    else if i == 10
    then Reg.spsel
    else Reg.curr_sp_mode_is_psp

reg_of-reg_index : (r : Reg) → reg_of (reg_index r) ≡ r
reg_of-reg_index Reg.r0 = refl
reg_of-reg_index Reg.r1 = refl
reg_of-reg_index Reg.r2 = refl
reg_of-reg_index Reg.r3 = refl
reg_of-reg_index Reg.r12 = refl
reg_of-reg_index Reg.lr = refl
reg_of-reg_index Reg.pc = refl
reg_of-reg_index Reg.xpsr = refl
reg_of-reg_index Reg.sp = refl
reg_of-reg_index Reg.other_sp = refl
reg_of-reg_index Reg.spsel = refl
reg_of-reg_index Reg.curr_sp_mode_is_psp = refl

reg_index_injective : (q r : Reg) → reg_index q ≡ reg_index r → q ≡ r
reg_index_injective q r h = sym (reg_of-reg_index q) ∙ ap reg_of h ∙ reg_of-reg_index r

abbrev pub chip_engine : Engine Chip
chip_engine = record {
  reg_read = λ r u. u.reg r;
  reg_write = λ r v u. record u { reg = λ q. if reg_index q == reg_index r then v else u.reg q };
  daif = λ u. u.daif;
  basepri = λ u. u.basepri;
  mem_read = λ a buf u. (err_ok, u.mem a buf);
  mem_write = λ a bs u. (
    err_ok,
    record u { mem = λ b buf. if (b == a) && (length buf == length bs) then bs else u.mem b buf },
  );
  emu_stop = λ u. record u { stopped = true };
}

pub chip_engine-IsFaithful : IsFaithful chip_engine
chip_engine-IsFaithful = record {
  read_written = λ r v u. ground arith;
  read_other = λ r q v u ne. ground (arith, reg_index_injective q r, ne);
  mem_reg = λ a buf r v u. refl;
  reg_mem = λ r a bs u. refl;
  mem_written = λ a bs buf u written len. ground (arith, len);
}

-- All registers and all memory hold 0.
abbrev pub zero_chip : Chip
zero_chip = record { reg = λ r. 0; mem = λ a buf. buf; daif = 0; basepri = 0; stopped = false }
