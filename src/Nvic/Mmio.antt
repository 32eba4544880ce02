-- ===== src/Nvic/Mmio.antt =====
-- The register interface of the NVIC in cortexm_nvic.c: hook_nvic_mmio_read and
-- hook_nvic_mmio_write, for an access to 0xE000E100..0xE000E700.
--
-- An index past the arrays of 256 exceptions is undefined behaviour of the C code: it ends the run.
-- `value` is the bit pattern of the `int64_t`; at most 32 of its bits are looked at.
pub mod Registers
pub mod Enabling
pub mod Faults
pub mod Lazy
use Prim.Native.Nat.{bit_and, bit_or}
use fuzzware_emulator.Prelude.{
  ℕ, zero, suc, ◌+◌, ◌-◌, ◌*◌, ◌/◌, ◌%◌, ◌^◌, Bool, true, false, ◌||◌, Run, ok, Halt, ◌>>=◌, ◌>>◌,
  check, to_u32, ltb, leb, ◌==◌, if◌then◌else◌, sub32, u32_mod,
}
use fuzzware_emulator.Engine.{Engine, value_bytes}
use fuzzware_emulator.Nvic.State.{Nvic, NvicConfig, num_supported, exception_no_external_start}
use fuzzware_emulator.Nvic.Prio.{
  recalc_prios, pend_interrupt, clear_pend_interrupt, is_disabled_by_config,
}
use fuzzware_emulator.Nvic.Enable.{enable_irq, disable_irq, set_prio}
use fuzzware_emulator.Nvic.Exception.{Cpu}

-- NVIC_BASE
abbrev pub nvic_base : ℕ
nvic_base = 0xe000_e100

-- NVIC_IPR
abbrev pub nvic_ipr : ℕ
nvic_ipr = 0x300

-- The cases of `switch (access_offset & 0x780)`.
pub data Register : Type 0 where
  iser icer ispr icpr iabr ipr other : Register

unfoldable pub register_at : ℕ → Register
register_at off =
    let block = bit_and off 0x780 in
    if block == 0
    then iser
    else if block == 0x80
    then icer
    else if block == 0x100
    then ispr
    else if block == 0x180
    then icpr
    else if block == 0x200
    then iabr
    else if (block == 0x300) || (block == 0x380)
    then ipr
    else other

-- The first exception of a register with a bit for each.
unfoldable pub bit_base : ℕ → ℕ
bit_base off = exception_no_external_start + bit_and off 0x3f * 8

-- The first exception of a priority register.
unfoldable pub prio_base : ℕ → ℕ
prio_base off = exception_no_external_start + bit_and (sub32 off nvic_ipr) 0x1ff

abbrev pub flag : Bool → ℕ
flag true = 1
flag false = 0

-- The loop that runs down over the flags of `left` exceptions.
unfoldable pub read_flags : (ℕ → Bool) → ℕ → ℕ → ℕ → Run ℕ
read_flags flags base zero out = ok out
read_flags flags base (suc left) out = do
  check (ltb (base + left) num_supported) Halt.out_of_bounds
  read_flags flags base left (out * 2 % u32_mod + flag (flags (base + left)))

-- The same for priorities, a byte each.
unfoldable pub read_prios : Nvic → ℕ → ℕ → ℕ → Run ℕ
read_prios n base zero out = ok out
read_prios n base (suc left) out = do
  check (ltb (base + left) num_supported) Halt.out_of_bounds
  read_prios n base left
      (bit_or (out * 2 ^ 8 % u32_mod) (to_u32 (n.exception_priority (base + left))))

-- `f` at every index whose bit of `value` is set, upwards.
unfoldable pub for_bits {ℓ} : {S : Type ℓ} → (ℕ → S → Run S) → (left i value : ℕ) → S → Run S
for_bits f zero i value s = ok s
for_bits f (suc left) i value s = do
  s' ← (if value % 2 == 1 then f i s else ok s)
  for_bits f left (i + 1) (value / 2) s'

abbrev pub index_checked {ℓ} : {A : Type ℓ} → ℕ → Run A → Run A
index_checked i m = check (ltb i num_supported) Halt.out_of_bounds >> m

-- `need_update |= ...`, with the state.
abbrev pub recalc_if : Bool × Nvic → Nvic
recalc_if r = if r.0 then (recalc_prios r.1).1 else r.1

unfoldable pub enable_step : NvicConfig → ℕ → Bool × Nvic → Run (Bool × Nvic)
enable_step config i r = do r' ← enable_irq config i r.1; ok (r.0 || r'.0, r'.1)

unfoldable pub disable_step : ℕ → Bool × Nvic → Run (Bool × Nvic)
disable_step i r = do r' ← disable_irq i r.1; ok (r.0 || r'.0, r'.1)

-- An interrupt that the configuration disables is not pended, whatever its index.
unfoldable pub pend_step : NvicConfig → ℕ → Nvic → Run Nvic
pend_step config i n =
    if is_disabled_by_config config i then ok n else index_checked i (ok (pend_interrupt i n))

unfoldable pub clear_pend_step : ℕ → Nvic → Run Nvic
clear_pend_step i n = index_checked i (ok (clear_pend_interrupt i n))

-- The loop over the bytes of a written value; the exception number is a `uint8_t`.
unfoldable pub set_prios : NvicConfig → (left i value : ℕ) → Bool × Nvic → Bool × Nvic
set_prios config zero i value r = r
set_prios config (suc left) i value r =
    let r' = set_prio config (i % 2 ^ 8) (value % 2 ^ 8) r.1 in
    set_prios config left (i + 1) (value / 2 ^ 8) (r.0 || r'.0, r'.1)

unfoldable pub write_register : NvicConfig → Register → (off size value : ℕ) → Nvic → Run Nvic
write_register config iser off size value n = do
  r ← for_bits (enable_step config) (size * 8) (bit_base off) value (false, n)
  ok (recalc_if r)
write_register config icer off size value n = do
  r ← for_bits disable_step (size * 8) (bit_base off) value (false, n)
  ok (recalc_if r)
write_register config ispr off size value n =
    for_bits (pend_step config) (size * 8) (bit_base off) value n
write_register config icpr off size value n =
    for_bits clear_pend_step (size * 8) (bit_base off) value n
write_register config ipr off size value n =
    if leb (prio_base off) (num_supported - 4)
    then ok (recalc_if (set_prios config size (prio_base off) value (false, n)))
    else ok n
write_register config iabr off size value n = ok n
write_register config other off size value n = ok n

unfoldable pub hook_nvic_mmio_write : NvicConfig → (addr size value : ℕ) → Nvic → Run Nvic
hook_nvic_mmio_write config addr size value n =
    let off = sub32 addr nvic_base in write_register config (register_at off) off size value n

module _ {Uc : Type 0} (e : Engine Uc) where
  -- `uc_mem_write(uc, addr, &v, size)`, whose result is not looked at.
  abbrev pub put_value : (addr size v : ℕ) → Cpu Uc → Cpu Uc
  put_value addr size v c = record c { uc = (e.mem_write addr (value_bytes size v) c.uc).1 }

  unfoldable pub read_register : Register → (off addr size : ℕ) → Cpu Uc → Run (Cpu Uc)
  read_register iser off addr size c = do
    v ← read_flags c.nvic.exception_enabled (bit_base off) (size * 8) 0
    ok (put_value addr size v c)
  read_register icer off addr size c = do
    v ← read_flags c.nvic.exception_enabled (bit_base off) (size * 8) 0
    ok (put_value addr size v c)
  read_register ispr off addr size c = do
    v ← read_flags c.nvic.exception_pending (bit_base off) (size * 8) 0
    ok (put_value addr size v c)
  read_register icpr off addr size c = do
    v ← read_flags c.nvic.exception_pending (bit_base off) (size * 8) 0
    ok (put_value addr size v c)
  read_register iabr off addr size c = do
    v ← read_flags c.nvic.exception_active (bit_base off * 4) (size * 8) 0
    ok (put_value addr size v c)
  read_register ipr off addr size c =
      if leb (prio_base off) (num_supported - 4)
      then (do v ← read_prios c.nvic (prio_base off) size 0; ok (put_value addr size v c))
      else ok c
  read_register other off addr size c = ok c

  unfoldable pub hook_nvic_mmio_read : (addr size : ℕ) → Cpu Uc → Run (Cpu Uc)
  hook_nvic_mmio_read addr size c =
      let off = sub32 addr nvic_base in read_register (register_at off) off addr size c
