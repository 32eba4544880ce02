-- ===== src/Hooks/Tests.antt =====
-- Concrete hooks on the sample machine.
use fuzzware_emulator.Prelude.{
  List, length, sub64, ℕ, suc, ◌+◌, ◌≡◌, refl, true, false, [], ◌∷◌, none, some, Run, ok, arith,
  ◌==◌, if◌then◌else◌,
}
use fuzzware_emulator.Engine.{err_ok, value_bytes}
use fuzzware_emulator.Chip.{Chip, zero_chip, chip_engine}
use fuzzware_emulator.Timer.{reload_timer}
use fuzzware_emulator.Input.{take, drop}
use fuzzware_emulator.Sample.{sample, sample_input, reloaded}
use fuzzware_emulator.Hooks.State.{Hooks, Mmio, python}
use fuzzware_emulator.Hooks.Models.{put_bytes}
use fuzzware_emulator.Hooks.Access.{is_ignored, find_callback, hook_mmio_access}
use fuzzware_emulator.Hooks.Access.Served.{hook_mmio_access-served, hook_mmio_access-loads}
use fuzzware_emulator.Hooks.Register.{Placement, register_constant_mmio_models}
use fuzzware_emulator.Hooks.Register.Placed.{register_constant-serves}
use fuzzware_emulator.Hooks.Blocks.{
  BlockHandlers, register_cond_py_handler_hook, hook_block_cond_py_handlers,
}
use fuzzware_emulator.Hooks.Blocks.Sorted.{count}
use fuzzware_emulator.Hooks.Blocks.Calls.{repeat, registered_hook-calls}

-- One region, with a Python handler for its first addresses and one passthrough address.
abbrev sample_mmio : Mmio
sample_mmio = record {
  mmio_regions = record { start = 0x4000_0000; end = 0x4000_ffff } ∷ [];
  mmio_callbacks =
      record { start = 0x4000_0000; end = 0x4000_0003; pc = 0xffff_ffff; handler = python } ∷ [];
  ignored_addresses = record { address = 0x4000_0008; pc = 0xffff_ffff } ∷ [];
  linear_models = λ k. record { step = 0; val = 0 };
  num_linear_models = 0;
  latest_mmio_fuzz_access_index = 0;
  latest_mmio_fuzz_access_size = 0;
  hooked_regions = [];
  has_user_data = true;
}

abbrev hooks : Hooks Chip
hooks = record { machine = sample; mmio = sample_mmio }

abbrev do_nothing : (addr size value : ℕ) → Hooks Chip → Run (Hooks Chip)
do_nothing addr size value h = ok h

served_example :
    hook_mmio_access chip_engine none do_nothing 0x4000_0010 2 0 hooks
    ≡ ok (record {
      machine = record sample {
        cpu = record sample.cpu {
          uc = (chip_engine.mem_write 0x4000_0010 (take 2 (drop 1 sample_input.fuzz)) zero_chip).1;
        };
        timers = reloaded;
        input = record sample_input { fuzz_cursor = 1 + 2 };
      };
      mmio = record sample_mmio {
        latest_mmio_fuzz_access_index = 1;
        latest_mmio_fuzz_access_size = 2;
      };
    })
unfolding reload_timer is_ignored find_callback
served_example =
    hook_mmio_access-served chip_engine none do_nothing 0x4000_0010 2 0 hooks reloaded refl refl
      (omega arith) (omega arith) (omega arith) (omega arith) (omega arith) refl

-- The input that came before is used up, and the file has not been loaded.
abbrev used_up : Hooks Chip
used_up = record hooks {
  machine = record sample {
    input = record sample_input { fuzz_cursor = 4; input_already_given = false };
  };
}

abbrev file_bytes : List ℕ
file_bytes = 7 ∷ 8 ∷ 9 ∷ []

-- Two bytes from the start of the file are noted as the 2 ^ 64 - 2 bytes from offset 4 on.
hook_mmio_access-loads_example :
    hook_mmio_access chip_engine (some file_bytes) do_nothing 0x4000_0010 2 0 used_up
    ≡ ok (record {
      machine = record used_up.machine {
        cpu = record sample.cpu {
          uc = (chip_engine.mem_write 0x4000_0010 (take 2 file_bytes) zero_chip).1;
        };
        timers = reloaded;
        input = record used_up.machine.input {
          fuzz = file_bytes;
          fuzz_size = length file_bytes;
          fuzz_cursor = 2;
          input_already_given = true;
        };
      };
      mmio = record sample_mmio {
        latest_mmio_fuzz_access_index = 4;
        latest_mmio_fuzz_access_size = sub64 2 4;
      };
    })
unfolding reload_timer is_ignored find_callback
hook_mmio_access-loads_example =
    hook_mmio_access-loads chip_engine (some file_bytes) do_nothing 0x4000_0010 2 0 file_bytes
      used_up reloaded refl refl refl (omega arith) (omega arith) (omega arith) refl refl refl refl
      refl

abbrev timer_register : Placement
timer_register = record { start = 0x4000_0020; end = 0x4000_0023; pc = 0xffff_ffff }

register_constant_example :
    (m : Mmio) × (register_constant_mmio_models (λ r. err_ok) ((timer_register, 5) ∷ []) sample_mmio
      ≡ (err_ok, m))
    × (hook_mmio_access chip_engine none do_nothing 0x4000_0020 4 0 (record hooks { mmio = m })
        ≡ ok (record {
          machine = put_bytes chip_engine 0x4000_0020 (value_bytes 4 5) sample;
          mmio = record m { latest_mmio_fuzz_access_index = 1; latest_mmio_fuzz_access_size = 0 };
        }))
unfolding is_ignored find_callback
register_constant_example =
    register_constant-serves (λ r. err_ok) chip_engine none do_nothing timer_register 5 0x4000_0020
      4 0 hooks (omega arith) (omega arith) refl refl (omega arith) (omega arith) refl

-- A handler that counts its calls.
abbrev count_call : ℕ → BlockHandlers ℕ → BlockHandlers ℕ
count_call address b = record b { rest = suc b.rest }

abbrev no_handlers : BlockHandlers ℕ
no_handlers = record { num_handlers = 0; bb_handler_locs = λ i. 0; num_attached = 0; rest = 0 }

-- The addresses 0x300, 0x200 and 0x100.
abbrev locs : ℕ → ℕ
locs i = if i == 0 then 0x300 else if i == 1 then 0x200 else 0x100

registered_hook_example :
    hook_block_cond_py_handlers count_call 4 0x200
      (register_cond_py_handler_hook err_ok locs 3 no_handlers).1
    ≡ ok (
        repeat
          (count 3 0x200 locs)
          (count_call 0x200)
          (register_cond_py_handler_hook err_ok locs 3 no_handlers).1)
registered_hook_example =
    registered_hook-calls count_call (record { num = λ a b. refl; locs = λ a b. refl }) err_ok locs
      3 0x200 no_handlers
