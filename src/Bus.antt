-- ===== src/Bus.antt =====
-- hook_sysctl_mmio_read and hook_sysctl_mmio_write of cortexm_nvic.c: an access to the system
-- control space goes to SysTick, to the NVIC or to the system control block.
use fuzzware_emulator.Prelude.{ℕ, ◌+◌, Bool, ◌&&◌, Run, ok, ◌>>=◌, leb, if◌then◌else◌}
use fuzzware_emulator.Engine.{Engine}
use fuzzware_emulator.Nvic.State.{NvicConfig}
use fuzzware_emulator.Nvic.Mmio.{nvic_base, hook_nvic_mmio_read, hook_nvic_mmio_write}
use fuzzware_emulator.Nvic.Sysctl.{sysctl_register_at, read_sysctl, write_sysctl}
use fuzzware_emulator.Systick.{systick_base, systick_end, hook_syst_mmio_read, hook_syst_mmio_write}
use fuzzware_emulator.Machine.{Machine}

abbrev in_systick : ℕ → Bool
in_systick addr = leb systick_base addr && leb addr systick_end

-- Up to NVIC_MMIO_END
abbrev in_nvic : ℕ → Bool
in_nvic addr = leb nvic_base addr && leb addr (nvic_base + 0x600)

module _ {Uc : Type 0} (e : Engine Uc) where
  unfoldable pub hook_sysctl_mmio_read : (addr size : ℕ) → Machine Uc → Run (Machine Uc)
  hook_sysctl_mmio_read addr size m = if in_systick addr then hook_syst_mmio_read e addr m else (do
    c ←
        (if in_nvic addr
          then hook_nvic_mmio_read e addr size m.cpu
          else read_sysctl e (sysctl_register_at addr) addr size m.cpu)
    ok (record m { cpu = c }))

  unfoldable pub hook_sysctl_mmio_write :
      NvicConfig → (addr size value : ℕ) → Machine Uc → Run (Machine Uc)
  hook_sysctl_mmio_write config addr size value m =
      if in_systick addr
      then hook_syst_mmio_write addr value m
      else if in_nvic addr
      then (do
        n ← hook_nvic_mmio_write config addr size value m.cpu.nvic
        ok (record m { cpu = record m.cpu { nvic = n } }))
      else ok
          (record m { cpu = write_sysctl e config (sysctl_register_at addr) addr size value m.cpu })
