-- ===== src/Systick/Count.antt =====
-- The control register of SysTick.
use fuzzware_emulator.Prelude.{ℕ, ◌/◌, ◌%◌, ◌≡◌, refl, ap, true, ok, arith, has_bit, set_bit}
use fuzzware_emulator.Engine.{Engine, word_bytes}
use fuzzware_emulator.Machine.{Machine}
use fuzzware_emulator.Systick.{systick_base, hook_syst_mmio_read, csr_countflag, csr_written}

-- A written control register has the three low bits of the value, and keeps all others.
pub csr_written-bits :
    (csr value : ℕ)
    → (csr_written csr value % 8 ≡ value % 8) × (csr_written csr value / 8 ≡ csr / 8)
unfolding csr_written
csr_written-bits csr value = (omega arith, omega arith)

set_bit_idem : (x : ℕ) → set_bit (set_bit x csr_countflag) csr_countflag ≡ set_bit x csr_countflag
set_bit_idem x = ground arith

module _ {Uc : Type 0} (e : Engine Uc) where
  -- The control register as read is the one before the read; the read sets COUNTFLAG, so that a
  -- second read with nothing in between reports it.
  read_csr-polls :
      (m : Machine Uc)
      → (m' : Machine Uc) × (hook_syst_mmio_read e systick_base m ≡ ok m')
        × (m'.cpu.uc ≡ (e.mem_write systick_base (word_bytes m.systick.csr) m.cpu.uc).1)
        × (has_bit m'.systick.csr csr_countflag ≡ true)
        × (hook_syst_mmio_read e systick_base m'
            ≡ ok (record m' {
              cpu = record m'.cpu {
                uc = (e.mem_write systick_base (word_bytes m'.systick.csr) m'.cpu.uc).1;
              };
            }))
  unfolding hook_syst_mmio_read
  read_csr-polls m =
      let m' = record m {
        cpu = record m.cpu {
          uc = (e.mem_write systick_base (word_bytes m.systick.csr) m.cpu.uc).1;
        };
        systick = record m.systick { csr = set_bit m.systick.csr csr_countflag };
      } in
      (
        record m {
          cpu = record m.cpu {
            uc = (e.mem_write systick_base (word_bytes m.systick.csr) m.cpu.uc).1;
          };
          systick = record m.systick { csr = set_bit m.systick.csr csr_countflag };
        },
        ground arith,
        refl,
        ground arith,
        ap
            (λ c. ok (record m' {
              cpu = record m'.cpu {
                uc = (e.mem_write systick_base (word_bytes m'.systick.csr) m'.cpu.uc).1;
              };
              systick = record m'.systick { csr = c };
            }))
            (set_bit_idem m.systick.csr),
      )
