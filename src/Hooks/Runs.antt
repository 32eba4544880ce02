-- ===== src/Hooks/Runs.antt =====
-- The running of inputs in native_hooks.c: the exit hooks, a single run, its result, and the rounds
-- of the fork server with the restoring of the snapshot between them.
--
-- `emu_start` is `uc_emu_start` with everything that the hooks do during a run. A result of the fork
-- server is the one written to its pipe; the pipe itself and the coverage map are left out.
use fuzzware_emulator.Prelude.{
  ℕ, zero, suc, ◌+◌, true, false, List, [], ◌∷◌, ◌++◌, Option, none, some, Run, ok, halt, Halt,
  ◌>>=◌, ◌==◌, if◌then◌else◌, add32, length, set_bit,
}
use fuzzware_emulator.Engine.{
  Engine, Reg, UcErr, err_ok, err_insn_invalid, err_read_unmapped, err_read_prot,
  err_read_unaligned, err_write_unmapped, err_write_prot, err_write_unaligned, err_fetch_unmapped,
  err_fetch_prot, err_fetch_unaligned, is_ok,
}
use fuzzware_emulator.Timer.{reload_timer, get_global_ticker}
use fuzzware_emulator.Machine.{Machine, on_cpu, on_timers, exit_with}
use fuzzware_emulator.Input.{has_left, load_delayed_input}
use fuzzware_emulator.Snapshotting.{SnapshottingState, trigger_restore}
use fuzzware_emulator.Hooks.State.{Hooks, IgnoredAddress}
use fuzzware_emulator.Hooks.Models.{put_bytes}

-- The signals of signal.h that the source names.
pub data Signal : Type 0 where
  sigsegv sigill sigabrt : Signal

-- The errors of `mem_errors` come first.
unfoldable pub uc_err_to_sig : UcErr → Signal
uc_err_to_sig err_read_unmapped = sigsegv
uc_err_to_sig err_read_prot = sigsegv
uc_err_to_sig err_read_unaligned = sigsegv
uc_err_to_sig err_write_unmapped = sigsegv
uc_err_to_sig err_write_prot = sigsegv
uc_err_to_sig err_write_unaligned = sigsegv
uc_err_to_sig err_fetch_unmapped = sigsegv
uc_err_to_sig err_fetch_prot = sigsegv
uc_err_to_sig err_fetch_unaligned = sigsegv
uc_err_to_sig err_insn_invalid = sigill
uc_err_to_sig _ = sigabrt

-- DEFAULT_MAX_EXIT_HOOKS
abbrev pub default_max_exit_hooks : ℕ
default_max_exit_hooks = 32

unfoldable pub add_exit_hook {ℓ} : {A : Type ℓ} → A → List A → Run (List A)
add_exit_hook hook hooks =
    if length hooks == default_max_exit_hooks then halt Halt.exit_error else ok (hooks ++ hook ∷ [])

-- The result of a run: a signal, or the status without one.
pub data RunResult : Type 0 where
  status : UcErr → RunResult
  signal : Signal → RunResult

-- The reason given to `do_exit` goes before the status of the engine.
unfoldable pub final_status : {Uc : Type 0} → UcErr → Hooks Uc → UcErr
final_status emu_status h =
    let reason = h.machine.cpu.exits.custom_exit_reason in
    if is_ok reason then emu_status else reason

abbrev pub run_exit_hooks :
    {Uc : Type 0}
    → List (UcErr → Option Signal → Hooks Uc → Hooks Uc)
    → UcErr
    → Option Signal
    → Hooks Uc
    → Hooks Uc
run_exit_hooks [] st sig h = h
run_exit_hooks (x ∷ xs) st sig h = run_exit_hooks xs st sig (x st sig h)

module _ {Uc : Type 0} (e : Engine Uc) where
  -- How often the hook has been called is counted in 32 bits.
  unfoldable pub hook_block_exit_at :
      (exit_at_hit_limit curr_exit_at_hit_num : ℕ) → Machine Uc → ℕ × Machine Uc
  hook_block_exit_at exit_at_hit_limit curr_exit_at_hit_num m =
      let hits = add32 curr_exit_at_hit_num 1 in
      (hits, if hits == exit_at_hit_limit then on_cpu (exit_with e err_ok) m else m)

  -- The pointer is an offset into the input; `none` is `NULL`, after which the run ends.
  unfoldable pub get_fuzz_ptr_in :
      Option (List ℕ) → (fuel size : ℕ) → Machine Uc → Run (Option ℕ × Machine Uc)
  get_fuzz_ptr_in file zero size m = halt Halt.out_of_fuel
  get_fuzz_ptr_in file (suc k) size m = elim (has_left size m.input) [
    | true ↦ (do
      m' ←
          on_timers (reload_timer m.input.fuzz_consumption_timer_id)
            (record m { input = record m.input { fuzz_cursor = m.input.fuzz_cursor + size } })
      ok (some m.input.fuzz_cursor, m'))
    | false ↦ elim m.input.is_discovery_child [
      | true ↦ (do r ← get_global_ticker m.timers; halt Halt.exit_normal)
      | false ↦ elim m.input.input_already_given [
        | true ↦ ok (none, on_cpu (exit_with e err_ok) m)
        | false ↦ (do
          i ← load_delayed_input file m.input
          get_fuzz_ptr_in file k size (record m { input = i }))
      ]
    ]
  ]

  unfoldable pub get_fuzz_ptr : Option (List ℕ) → ℕ → Machine Uc → Run (Option ℕ × Machine Uc)
  get_fuzz_ptr file = get_fuzz_ptr_in file 2

  -- The word at each passthrough address; `buffer` is what stands in memory before.
  unfoldable pub mmio_models_take_snapshot :
      (buffer : List ℕ) → List IgnoredAddress → Uc → List (List ℕ)
  mmio_models_take_snapshot buffer [] u = []
  mmio_models_take_snapshot buffer (i ∷ is) u =
      (e.mem_read i.address buffer u).1 ∷ mmio_models_take_snapshot buffer is u

  unfoldable pub mmio_models_restore_snapshot :
      List IgnoredAddress → List (List ℕ) → Machine Uc → Machine Uc
  mmio_models_restore_snapshot (i ∷ is) (w ∷ ws) m =
      mmio_models_restore_snapshot is ws (put_bytes e i.address w m)
  mmio_models_restore_snapshot _ _ m = m

  module _ (emu_start : (pc : ℕ) → Hooks Uc → UcErr × Hooks Uc) where
    unfoldable pub run_single :
        List (UcErr → Option Signal → Hooks Uc → Hooks Uc) → Hooks Uc → RunResult × Hooks Uc
    run_single exit_hooks h =
        let ran = emu_start (set_bit (e.reg_read Reg.pc h.machine.cpu.uc) 0) h in
        let st = final_status ran.0 ran.1 in
        if is_ok st then (status st, run_exit_hooks exit_hooks st none ran.1) else (
          signal (uc_err_to_sig st),
          run_exit_hooks exit_hooks st (some (uc_err_to_sig st)) ran.1,
        )

-- What is reset beside the subscribed parts.
abbrev pub reset_run : {Uc : Type 0} → Hooks Uc → Hooks Uc
reset_run h = record h {
  machine = record h.machine {
    cpu = record h.machine.cpu {
      exits = record { duplicate_exit = false; custom_exit_reason = err_ok };
    };
    input = record h.machine.input {
      fuzz_cursor = h.machine.input.fuzz_size;
      input_already_given = false;
    };
  };
}

module _ {Uc D : Type 0} where
  unfoldable pub restore_snapshot : SnapshottingState (Hooks Uc) D → Hooks Uc → Hooks Uc
  restore_snapshot snapshots h = reset_run (trigger_restore snapshots h)

  -- The rounds of the loop, one for each file that the fuzzer provides, with what `run_single` does
  -- for it.
  unfoldable pub fork_server_rounds :
      {I : Type 0}
      → (run : I → Hooks Uc → RunResult × Hooks Uc) → SnapshottingState (Hooks Uc) D
      → List I
      → Hooks Uc
      → List RunResult
  fork_server_rounds run snapshots [] h = []
  fork_server_rounds run snapshots (i ∷ is) h =
      let ran = run i h in
      ran.0 ∷ fork_server_rounds run snapshots is (restore_snapshot snapshots ran.1)
