-- ===== src/Hooks/Emulate/Tests.antt =====
-- An emulation under the fork server on a concrete machine.
use fuzzware_emulator.Prelude.{ℕ, true, false, List, [], ◌∷◌, none, some, ◌==◌, if◌then◌else◌}
use fuzzware_emulator.Engine.{UcErr, err_ok, err_insn_invalid}
use fuzzware_emulator.Chip.{Chip, chip_engine}
use fuzzware_emulator.Timer.{set_values}
use fuzzware_emulator.Snapshotting.{SnapshottingState, initial_state}
use fuzzware_emulator.Sample.{sample, sample_input, sample_timers}
use fuzzware_emulator.Hooks.State.{Hooks}
use fuzzware_emulator.Hooks.Emulate.{Environment, NativeHooks}
use fuzzware_emulator.Hooks.Components.{Component, SnapshotData, subscribed}
use fuzzware_emulator.Hooks.Components.Restored.{Restored}
use fuzzware_emulator.Hooks.Emulate.Rounds.{Rounds}

-- SysTick and the timers take part in snapshots.
abbrev subscribers : List Component
subscribers = Component.systick_part ∷ Component.timers_part ∷ []

abbrev registry : SnapshottingState (Hooks Chip) SnapshotData
registry = subscribed chip_engine [] subscribers initial_state

-- An emulation that fails for the input that equals the control register, which it changes.
abbrev csr_start : (input pc : ℕ) → Hooks Chip → UcErr × Hooks Chip
csr_start input pc h = (
  if h.machine.systick.csr == input then err_insn_invalid else err_ok,
  record h { machine = record h.machine { systick = record h.machine.systick { csr = 99 } } },
)

-- Behind `init`, with the watchdog of the instructions in timer 0.
abbrev started : NativeHooks Chip SnapshotData
started = record {
  hooks = record {
    machine = record sample { input = record sample_input { fuzz_cursor = 4 } };
    mmio = record {
      mmio_regions = [];
      mmio_callbacks = [];
      ignored_addresses = [];
      linear_models = λ k. record { step = 0; val = 0 };
      num_linear_models = 0;
      latest_mmio_fuzz_access_index = 0;
      latest_mmio_fuzz_access_size = 0;
      hooked_regions = [];
      has_user_data = true;
    };
  };
  exit_hooks = [];
  exit_at_hit_limit = 0;
  exit_blocks = [];
  instr_limit = 900;
  instr_limit_timer_id = 0;
  snapshots = registry;
}

-- Under the fuzzer, with a prefix of 20 basic blocks.
abbrev fuzzer : Environment
fuzzer = record {
  shm_id = some true;
  pipe_open = true;
  fuzz_shm = none;
  status_read = true;
  prefix_input = none;
  required_ticks = some 20;
}

-- The state behind the prefix, which has changed the control register.
abbrev ready : Hooks Chip
ready = record started.hooks {
  machine = record sample {
    timers = set_values (set_values sample_timers 0 18) 0 900;
    systick = record sample.systick { csr = 99 };
    input = record sample_input { fuzz_cursor = 4; input_already_given = false };
  };
}

-- The state that a run has left, with another control register and no interval.
abbrev left : Hooks Chip
left = record ready {
  machine = record ready.machine {
    systick = record sample.systick { csr = 5 };
    timers = record sample_timers { cur_interval = 0 };
  };
}
