-- ===== src/Hooks/Emulate.antt =====
-- emulate of native_hooks.c with init_bitmap and determine_input_mode: the execution up to the first
-- access that needs input, and the runs behind it.
--
-- What the process finds outside is a parameter: the environment, the shared memory, the files, and
-- what the discovery child reports over its pipe, which depends on a second process. `emu_start i` is
-- `uc_emu_start` with everything that the hooks do while the input file is `i`. The coverage map, the
-- process ids on the pipe of the fork server and the messages are left out.
pub mod Rounds
mod Tests
use fuzzware_emulator.Prelude.{
  ℕ, ◌-◌, Bool, true, false, List, [], ◌∷◌, Option, none, some, Run, ok, halt, Halt, ◌>>=◌, ◌>>◌,
  check, ltb, if◌then◌else◌, set_bit,
}
use fuzzware_emulator.Engine.{Engine, Reg, UcErr, err_ok, is_ok}
use fuzzware_emulator.Timer.{set_timer_reload_val}
use fuzzware_emulator.Machine.{Machine, Input, on_timers}
use fuzzware_emulator.Input.{load_fuzz}
use fuzzware_emulator.Snapshotting.{trigger_snapshotting}
use fuzzware_emulator.Hooks.State.{Hooks}
use fuzzware_emulator.Hooks.Runs.{Signal, RunResult, run_single, fork_server_rounds}
use fuzzware_emulator.Hooks.Init.{Native}

-- Where the coverage is written.
pub data Bitmap : Type 0 where
  coverage_bitmap : Bitmap
  shared_bitmap : Bitmap

-- What stands outside of the process. `shm_id` says whether the variable is set, and then whether
-- the memory can be mapped; `fuzz_shm` has the contents of the mapped memory in its place.
pub record Environment : Type 0 where
  pub shm_id : Option Bool
  pub pipe_open : Bool
  pub fuzz_shm : Option (Option (List ℕ))
  pub status_read : Bool
  pub prefix_input : Option (Option (List ℕ))
  pub required_ticks : Option ℕ

-- With the value of `do_fuzz`.
unfoldable pub init_bitmap : Environment → Bitmap × Bool
init_bitmap env = elim env.shm_id [
  | none ↦ (coverage_bitmap, false)
  | some true ↦ (shared_bitmap, env.pipe_open)
  | some false ↦ (coverage_bitmap, env.pipe_open)
]

unfoldable pub determine_input_mode : Environment → Input → Run Input
determine_input_mode env i = elim env.fuzz_shm [
  | none ↦ ok i
  | some none ↦ halt Halt.exit_error
  | some (some bytes) ↦
      check env.status_read Halt.exit_error >> ok (record i { fuzz = bytes; input_mode_shm = true })
]

-- A run under the fork server ends when its pipe is closed, with an error if it is at once.
pub data Emulated : Type 0 where
  single : RunResult → Emulated
  served : List RunResult → Halt → Emulated

abbrev pub closing : {I : Type 0} → List I → Halt
closing [] = Halt.exit_error
closing (i ∷ is) = Halt.exit_normal

abbrev with_input : {Uc : Type 0} → Input → Hooks Uc → Hooks Uc
with_input i h = record h { machine = record h.machine { input = i } }

abbrev pub ExitHook : Type 0 → Type 0
ExitHook Uc = UcErr → Option Signal → Hooks Uc → Hooks Uc

-- The state that `init` has left.
abbrev pub NativeHooks : (Uc D : Type 0) → Type 0
NativeHooks Uc D = Native Uc (ExitHook Uc) (Hooks Uc) D

-- The number of basic blocks after which the run ends.
abbrev limit_instrs : {Uc D : Type 0} → NativeHooks Uc D → ℕ → Hooks Uc → Run (Hooks Uc)
limit_instrs n limit h = do
  m ← on_timers (set_timer_reload_val n.instr_limit_timer_id limit) h.machine
  ok (record h { machine = m })

module _ {Uc D I : Type 0} (e : Engine Uc)
    (emu_start : I → (pc : ℕ) → Hooks Uc → UcErr × Hooks Uc) where
  -- The deterministic part of the execution, of which the discovery child has found the length.
  unfoldable pub execute_prefix : (ticks : ℕ) → I → NativeHooks Uc D → Hooks Uc → Run (Hooks Uc)
  execute_prefix ticks i n h =
      if ltb 2 ticks
      then (do
        h' ← limit_instrs n (ticks - 2) h
        let ran = emu_start i (set_bit (e.reg_read Reg.pc h.machine.cpu.uc) 0) h'
        check (is_ok ran.0) Halt.exit_error
        ok ran.1)
      else ok h

  -- Everything before the first run.
  unfoldable pub prepare : Environment → I → NativeHooks Uc D → Run (Hooks Uc)
  prepare env i n = do
    loaded ← elim env.prefix_input [
      | none ↦ ok n.hooks.machine.input
      | some file ↦ load_fuzz file n.hooks.machine.input
    ]
    ticks ← elim env.required_ticks [ none ↦ halt Halt.exit_error | some t ↦ ok t ]
    h ← execute_prefix ticks i n (with_input loaded n.hooks)
    input ← determine_input_mode env h.machine.input
    limited ← limit_instrs n n.instr_limit (with_input input h)
    ok (record limited {
      machine = record limited.machine {
        cpu = record limited.machine.cpu {
          exits = record limited.machine.cpu.exits { duplicate_exit = false };
        };
        input = record limited.machine.input { input_already_given = false };
      };
    })

  -- `rounds` are the files for which the fork server is asked to run, until its pipe is closed.
  unfoldable pub emulate : Environment → I → (rounds : List I) → NativeHooks Uc D → Run Emulated
  emulate env i rounds n = do
    h ← prepare env i n
    if (init_bitmap env).1
        then ok (
            served
              (fork_server_rounds (λ j. run_single e (emu_start j) n.exit_hooks)
                (trigger_snapshotting h n.snapshots) rounds h)
              (closing rounds))
        else ok (single (run_single e (emu_start i) n.exit_hooks h).0)
