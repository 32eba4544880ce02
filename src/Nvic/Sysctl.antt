-- ===== src/Nvic/Sysctl.antt =====
-- The system control space in cortexm_nvic.c: hook_sysctl_mmio_read, hook_sysctl_mmio_write with
-- their handlers, and the snapshot of the NVIC and init_nvic.
use Prim.Native.Nat.{bit_and, bit_or}
use fuzzware_emulator.Prelude.{
  ℕ, ◌+◌, ◌-◌, ◌*◌, ◌/◌, ◌%◌, ◌^◌, false, not, ◌&&◌, List, map, length, ◌≡◌, refl, Run, ok, ◌>>=◌,
  ltb, leb, ◌==◌, if◌then◌else◌, add32, u32_mod, has_bit,
}
use fuzzware_emulator.Engine.{Engine, IsFaithful, err_ok, do_exit, word_bytes, first_word}
use fuzzware_emulator.Nvic.State.{
  Nvic, NvicConfig, exception_no_nmi, exception_no_pendsv, exception_no_systick,
  exception_no_external_start, exception_no_max, num_supported, set_prigroup, init_fields,
}
use fuzzware_emulator.Nvic.Prio.{
  recalc_prios, pend_interrupt, clear_pend_interrupt, is_disabled_by_config,
}
use fuzzware_emulator.Nvic.Exception.{Cpu, pend_from_mem_write}
use fuzzware_emulator.Nvic.Mmio.{flag, read_prios, set_prios, recalc_if, put_value}

-- The registers of the system control block, as the addresses that `switch (addr & ~3)` names.
pub data SysctlRegister : Type 0 where
  ictr icsr vtor aircr stir shpr other_register : SysctlRegister

abbrev shpr1 : ℕ
shpr1 = 0xe000_ed18

-- One past the last byte of SHPR3.
abbrev shpr_end : ℕ
shpr_end = 0xe000_ed24

-- SYSCTL_START
abbrev pub sysctl_start : ℕ
sysctl_start = 0xe000_e000

abbrev pub sysctl_vtor : ℕ
sysctl_vtor = 0xe000_ed08

abbrev pub nvic_vtor_none : ℕ
nvic_vtor_none = 0xffff_ffff

unfoldable pub sysctl_register_at : ℕ → SysctlRegister
sysctl_register_at addr =
    let word = addr / 4 * 4 in
    if word == 0xe000_e004
    then ictr
    else if word == 0xe000_ed04
    then icsr
    else if word == 0xe000_ed08
    then vtor
    else if word == 0xe000_ed0c
    then aircr
    else if word == 0xe000_ef00
    then stir
    else if leb shpr1 word && ltb word shpr_end
    then shpr
    else other_register

-- `intlinesnum`
abbrev pub intlinesnum : ℕ
intlinesnum = num_supported / 32 - 1

unfoldable pub calc_icsr : Nvic → ℕ
calc_icsr n =
    let preempting = flag (ltb exception_no_systick n.pending_irq) * 2 ^ 22 in
    let vectpending = bit_and (n.pending_irq * 2 ^ 12) (0x1ff * 2 ^ 12) in
    let rettobase = flag (leb n.num_active 1) * 2 ^ 11 in
    let vectactive = bit_and n.active_irq 0x1ff in
    bit_or (bit_or (bit_or preempting vectpending) rettobase) vectactive

abbrev pub aircr_value : Nvic → ℕ
aircr_value n = bit_or 0xfa05_0000 (n.prigroup_shift * 2 ^ 8)

-- The disabled interrupts of the configuration as exception numbers.
unfoldable pub config_of : (interrupt_limit : ℕ) → List ℕ → NvicConfig
config_of limit disabled = record {
  interrupt_limit = limit;
  config_disabled_interrupts = map (add32 exception_no_external_start) disabled;
}

module _ {Uc : Type 0} (e : Engine Uc) where
  -- The part of the read behind the ranges of SysTick and of the NVIC.
  unfoldable pub read_sysctl : SysctlRegister → (addr size : ℕ) → Cpu Uc → Run (Cpu Uc)
  read_sysctl ictr addr size c = ok (put_value e addr 4 intlinesnum c)
  read_sysctl icsr addr size c = ok (put_value e addr 4 (calc_icsr c.nvic) c)
  read_sysctl aircr addr size c = ok (put_value e addr 4 (aircr_value c.nvic) c)
  read_sysctl shpr addr size c =
      if ltb shpr_end (addr + size)
      then ok c
      else (do v ← read_prios c.nvic (4 + (addr - shpr1)) size 0; ok (put_value e addr size v c))
  read_sysctl vtor addr size c = ok c
  read_sysctl stir addr size c = ok c
  read_sysctl other_register addr size c = ok c

  module _ (config : NvicConfig) where
    -- One bit of a written ICSR after the other.
    unfoldable pub handle_icsr_write : ℕ → Cpu Uc → Cpu Uc
    handle_icsr_write value c =
        let c1 =
          if has_bit value 28 then pend_from_mem_write e config exception_no_pendsv c else c in
        let c2 =
          if has_bit value 27
          then record c1 { nvic = clear_pend_interrupt exception_no_pendsv c1.nvic }
          else c1 in
        let c3 =
          if has_bit value 26 then pend_from_mem_write e config exception_no_systick c2 else c2 in
        let c4 =
          if has_bit value 25
          then record c3 { nvic = clear_pend_interrupt exception_no_systick c3.nvic }
          else c3 in
        if has_bit value 31
        then record c4 { nvic = pend_interrupt exception_no_nmi c4.nvic }
        else c4

    -- A requested reset ends the emulation, but the rest of the write is done.
    unfoldable pub handle_aircr_write : ℕ → Cpu Uc → Cpu Uc
    handle_aircr_write value c =
        let c' =
          if has_bit value 2
          then (let (x, u) = do_exit e err_ok c.exits c.uc in record c { exits = x; uc = u })
          else c in
        let new_prigroup = value / 2 ^ 8 % 8 in
        if new_prigroup == c'.nvic.prigroup_shift
        then c'
        else record c' { nvic = (recalc_prios (set_prigroup new_prigroup c'.nvic)).1 }

    -- The part of the write behind the ranges of SysTick and of the NVIC.
    unfoldable pub write_sysctl : SysctlRegister → (addr size value : ℕ) → Cpu Uc → Cpu Uc
    write_sysctl icsr addr size value c = handle_icsr_write (value % u32_mod) c
    write_sysctl vtor addr size value c = record c {
      nvic = record c.nvic { vtor = value % u32_mod };
    }
    write_sysctl aircr addr size value c =
        if value / 2 ^ 16 % 2 ^ 16 == 0x05fa then handle_aircr_write (value % u32_mod) c else c
    write_sysctl stir addr size value c =
        let to_pend = exception_no_external_start + value % 2 ^ 8 in
        if ltb to_pend exception_no_max && not (is_disabled_by_config config to_pend)
        then pend_from_mem_write e config to_pend c
        else c
    write_sysctl shpr addr size value c = if ltb shpr_end (addr + size) then c else record c {
      nvic = recalc_if (set_prios config size (4 + (addr - shpr1)) value (false, c.nvic));
    }
    write_sysctl ictr addr size value c = c
    write_sysctl other_register addr size value c = c

  -- The snapshot holds the state and the system control page; `page` is the buffer it is read into.
  unfoldable pub nvic_take_snapshot : (page : List ℕ) → Cpu Uc → Nvic × List ℕ
  nvic_take_snapshot page c = (c.nvic, (e.mem_read sysctl_start page c.uc).1)

  unfoldable pub nvic_restore_snapshot : Nvic × List ℕ → Cpu Uc → Cpu Uc
  nvic_restore_snapshot snapshot c = record c {
    nvic = snapshot.0;
    uc = (e.mem_write sysctl_start snapshot.1 c.uc).1;
  }

  -- `init_nvic`; the hooks and register pointers are the engine's. The vector table base is
  -- given, or recovered from memory.
  unfoldable pub init_nvic : (new_vtor : ℕ) → Cpu Uc → Cpu Uc
  init_nvic new_vtor c =
      if new_vtor == nvic_vtor_none
      then (let buffer = word_bytes c.nvic.vtor in
          let recovered = first_word (e.mem_read sysctl_vtor buffer c.uc).1 in
          record c { nvic = (recalc_prios (init_fields recovered c.nvic)).1 })
      else record c {
        uc = (e.mem_write sysctl_vtor (word_bytes new_vtor) c.uc).1;
        nvic = (recalc_prios (init_fields new_vtor c.nvic)).1;
      }

  -- A snapshot that is restored over any later state gives back the whole state of the NVIC and the
  -- contents of the system control page, if the page can be written, the engine keeps what is
  -- written, and the page is read back in the same length.
  nvic_restore_snapshot-taken :
      IsFaithful e
      → (page buf : List ℕ) (c c' : Cpu Uc)
      → let snapshot = nvic_take_snapshot page c in
        let d = nvic_restore_snapshot snapshot c' in
        (e.mem_write sysctl_start snapshot.1 c'.uc).0 ≡ err_ok
        → length buf ≡ length snapshot.1
        → (d.nvic ≡ c.nvic) × (e.mem_read sysctl_start buf d.uc ≡ (err_ok, snapshot.1))
  unfolding nvic_take_snapshot nvic_restore_snapshot
  nvic_restore_snapshot-taken law page buf c c' written len =
      (refl, law.mem_written sysctl_start _ buf c'.uc written len)
