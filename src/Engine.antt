-- ===== src/Engine.antt =====
-- The Unicorn CPU emulator, which harness/fuzzware_harness/native/ calls and does not implement
-- (unicorn/unicorn.h, a submodule), as an interface over an abstract engine state; and `do_exit`
-- and `force_crash` of native_hooks.c, by which the peripherals end an emulation.
use fuzzware_emulator.Prelude.{
  ℕ, zero, suc, ◌+◌, ◌*◌, ◌/◌, ◌%◌, ◌^◌, ◌≡◌, ◌≢◌, Bool, true, false, List, [], ◌∷◌, if◌then◌else◌,
  length,
}

-- The registers that the peripherals read and write by number.
pub data Reg : Type 0 where
  r0 r1 r2 r3 r12 lr pc xpsr sp other_sp spsel curr_sp_mode_is_psp : Reg

-- The values of `uc_err` that the source names.
pub data UcErr : Type 0 where
  err_ok : UcErr
  err_arg : UcErr
  err_exception : UcErr
  err_insn_invalid : UcErr
  err_read_unmapped err_read_prot err_read_unaligned : UcErr
  err_write_unmapped err_write_prot err_write_unaligned : UcErr
  err_fetch_unmapped err_fetch_prot err_fetch_unaligned : UcErr
  err_other : ℕ → UcErr

abbrev pub is_ok : UcErr → Bool
is_ok err_ok = true
is_ok _ = false

-- `mem_read` takes the buffer as it is before the call, and returns it as it is after it. `daif`
-- and `basepri` are what stands behind the pointers that `uc_reg_ptr` gives for PRIMASK and
-- BASEPRI.
pub record Engine (Uc : Type 0) : Type 0 where
  pub reg_read : Reg → Uc → ℕ
  pub reg_write : Reg → ℕ → Uc → Uc
  pub daif : Uc → ℕ
  pub basepri : Uc → ℕ
  pub mem_read : ℕ → List ℕ → Uc → UcErr × List ℕ
  pub mem_write : ℕ → List ℕ → Uc → UcErr × Uc
  pub emu_stop : Uc → Uc

-- What the API documents of registers and memory, as far as the theorems use it.
pub record IsFaithful {Uc : Type 0} (e : Engine Uc) : Type 0 where
  pub read_written : (r : Reg) (v : ℕ) (u : Uc) → e.reg_read r (e.reg_write r v u) ≡ v
  pub read_other :
      (r q : Reg) (v : ℕ) (u : Uc) → q ≢ r → e.reg_read q (e.reg_write r v u) ≡ e.reg_read q u
  pub mem_reg :
      (a : ℕ) (buf : List ℕ) (r : Reg) (v : ℕ) (u : Uc)
      → e.mem_read a buf (e.reg_write r v u) ≡ e.mem_read a buf u
  pub reg_mem :
      (r : Reg) (a : ℕ) (bs : List ℕ) (u : Uc)
      → e.reg_read r (e.mem_write a bs u).1 ≡ e.reg_read r u
  pub mem_written :
      (a : ℕ) (bs buf : List ℕ) (u : Uc)
      → (e.mem_write a bs u).0 ≡ err_ok
      → length buf ≡ length bs
      → e.mem_read a buf (e.mem_write a bs u).1 ≡ (err_ok, bs)

-- A 32-bit word in memory, with the byte order of the host (little endian).
abbrev pub word_bytes : ℕ → List ℕ
word_bytes w = (w % 256) ∷ (w / 2 ^ 8 % 256) ∷ (w / 2 ^ 16 % 256) ∷ (w / 2 ^ 24 % 256) ∷ []

abbrev pub bytes_word : ℕ → ℕ → ℕ → ℕ → ℕ
bytes_word a b c d = a + b * 2 ^ 8 + c * 2 ^ 16 + d * 2 ^ 24

-- The `n` low bytes of a value.
abbrev pub value_bytes : ℕ → ℕ → List ℕ
value_bytes zero v = []
value_bytes (suc n) v = (v % 256) ∷ value_bytes n (v / 256)

-- The word that the first four bytes of a buffer hold.
abbrev pub first_word : List ℕ → ℕ
first_word (a ∷ b ∷ c ∷ d ∷ rest) = bytes_word a b c d
first_word _ = 0

-- The exit state of native_hooks.c.
pub record ExitState : Type 0 where
  pub duplicate_exit : Bool
  pub custom_exit_reason : UcErr

module _ {Uc : Type 0} (e : Engine Uc) where
  -- Only the first request counts, until a snapshot is restored.
  unfoldable pub do_exit : UcErr → ExitState → Uc → ExitState × Uc
  do_exit err x u =
      if x.duplicate_exit
      then (x, u)
      else (record { duplicate_exit = true; custom_exit_reason = err }, e.emu_stop u)

  unfoldable pub force_crash : UcErr → ExitState → Uc → ExitState × Uc
  unfolding do_exit
  force_crash err x u = do_exit err x u
