-- ===== src/Hooks/Emulate/Rounds.antt =====
-- The rounds of the fork server in emulate of native_hooks.c as steps from state to state.
use fuzzware_emulator.Prelude.{◌≡◌, false, List, [], ◌∷◌}
use fuzzware_emulator.Engine.{Engine, err_ok}
use fuzzware_emulator.Hooks.State.{Hooks}
use fuzzware_emulator.Hooks.Runs.{RunResult}
use fuzzware_emulator.Hooks.Components.{Component}
use fuzzware_emulator.Hooks.Components.Restored.{Restored}

-- A run that has ended in `done` is followed by one that starts in `next`: the subscribed components
-- are those of `start`, no exit has been asked for, and the input is to be loaded anew.
pub record Restarted {Uc : Type 0} (ks : List Component) (start done next : Hooks Uc) : Type 0 where
  pub restored : Restored ks start done next
  pub no_exit :
      next.machine.cpu.exits ≡ record { duplicate_exit = false; custom_exit_reason = err_ok }
  pub input : next.machine.input ≡ record done.machine.input {
    fuzz_cursor = done.machine.input.fuzz_size;
    input_already_given = false;
  }

module _ {Uc I : Type 0} (ks : List Component) (run : I → Hooks Uc → RunResult × Hooks Uc)
    (start : Hooks Uc) where
  -- The rounds from a state for the inputs, with their results, until the fuzzer closes the pipe.
  pub data Rounds : (h : Hooks Uc) (inputs : List I) (results : List RunResult) → Type 0 where
    closed : (h : Hooks Uc) → Rounds h [] []
    round :
        (i : I) (is : List I) (rs : List RunResult) (h next : Hooks Uc)
        → Restarted ks start (run i h).1 next
        → Rounds next is rs
        → Rounds h (i ∷ is) ((run i h).0 ∷ rs)
