-- ===== src/Input/Serve.antt =====
-- What get_fuzz gives.
use fuzzware_emulator.Prelude.{
  ℕ, ◌+◌, ◌≤◌, ◌<◌, ◌≡◌, true, false, List, Option, none, some, ok, arith, length,
}
use fuzzware_emulator.Engine.{Engine, err_ok}
use fuzzware_emulator.Timer.{reload_timer, TimerState}
use fuzzware_emulator.Machine.{Machine, on_cpu, exit_with}
use fuzzware_emulator.Input.{
  take, drop, get_fuzz, get_fuzz_in, serve, load_fuzz, load_delayed_input,
}

module _ {Uc : Type 0} (e : Engine Uc) (file : Option (List ℕ)) where
  -- While input is left, a request for some bytes gives the next ones and moves the cursor past
  -- them, whether or not a discovery child asks; it succeeds whenever the buffer holds the input
  -- and the watchdog can be reloaded.
  pub get_fuzz-left :
      (size : ℕ) (m : Machine Uc) (t : TimerState)
      → 0 < size
      → m.input.fuzz_cursor + size ≤ m.input.fuzz_size
      → m.input.fuzz_size ≤ length m.input.fuzz
      → reload_timer m.input.fuzz_consumption_timer_id m.timers ≡ ok t
      → get_fuzz e file size m
        ≡ ok (
          some (take size (drop m.input.fuzz_cursor m.input.fuzz)),
          record m {
            timers = t;
            input = record m.input { fuzz_cursor = m.input.fuzz_cursor + size };
          },
        )
  unfolding get_fuzz get_fuzz_in serve
  get_fuzz-left size m t some_size left whole reloaded = ground (arith, left, whole, reloaded)

  -- When too little of the input is left, the file has been loaded and no discovery child asks, a
  -- request ends the emulation and gives nothing.
  get_fuzz-over :
      (size : ℕ) (m : Machine Uc)
      → m.input.fuzz_size < m.input.fuzz_cursor + size
      → m.input.is_discovery_child ≡ false
      → m.input.input_already_given ≡ true
      → get_fuzz e file size m ≡ ok (none, on_cpu (exit_with e err_ok) m)
  unfolding get_fuzz get_fuzz_in
  get_fuzz-over size m past parent given = ground (arith, parent, given)

  -- The first request for some bytes past a prefix that is used up to the end, outside a discovery
  -- child and with the input in a file, loads the file, and is served from its start if the file is
  -- long enough and the watchdog can be reloaded.
  pub get_fuzz-loads :
      (size : ℕ) (bytes : List ℕ) (m : Machine Uc) (t : TimerState)
      → file ≡ some bytes
      → 0 < size
      → size ≤ length bytes
      → m.input.fuzz_size ≡ m.input.fuzz_cursor
      → m.input.is_discovery_child ≡ false
      → m.input.input_already_given ≡ false
      → m.input.input_mode_shm ≡ false
      → reload_timer m.input.fuzz_consumption_timer_id m.timers ≡ ok t
      → get_fuzz e file size m
        ≡ ok (
          some (take size bytes),
          record m {
            timers = t;
            input = record m.input {
              fuzz = bytes;
              fuzz_size = length bytes;
              fuzz_cursor = size;
              input_already_given = true;
            };
          },
        )
  unfolding get_fuzz get_fuzz_in serve load_fuzz load_delayed_input
  get_fuzz-loads size bytes m t given some_size long used_up parent fresh no_shm reloaded =
      rw given (ground (arith, reloaded))
