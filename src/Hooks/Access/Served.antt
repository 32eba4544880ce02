-- ===== src/Hooks/Access/Served.antt =====
-- What hook_mmio_access of native_hooks.c does with an access.
use fuzzware_emulator.Prelude.{
  ℕ, ◌+◌, ◌^◌, ◌≤◌, ◌<◌, ◌≡◌, refl, true, false, List, [], ◌∷◌, ◌++◌, Option, none, some, Run, ok,
  ◌>>=◌, arith, length, sub64,
}
use fuzzware_emulator.Engine.{Engine, Reg}
use fuzzware_emulator.Timer.{reload_timer, TimerState}
use fuzzware_emulator.Input.{take, drop}
use fuzzware_emulator.Input.Serve.{get_fuzz-left, get_fuzz-loads}
use fuzzware_emulator.Hooks.State.{Hooks, MmioCallback, Handler}
use fuzzware_emulator.Hooks.Access.{
  is_ignored, find_callback, open_access, close_access, call_handler, serve_fuzz, hook_mmio_access,
}

-- The callbacks registered first win.
pub find_callback-first :
    (cs ds : List MmioCallback) (addr pc : ℕ)
    → find_callback (cs ++ ds) addr pc ≡ elim (find_callback cs addr pc) [
      | some handler ↦ some handler
      | none ↦ find_callback ds addr pc
    ]
unfolding find_callback
find_callback-first [] ds addr pc = refl
find_callback-first (c ∷ cs) ds addr pc = ground (arith, find_callback-first cs ds addr pc)

module _ {Uc : Type 0} (e : Engine Uc) (file : Option (List ℕ))
    (python_callback : (addr size value : ℕ) → Hooks Uc → Run (Hooks Uc)) where
  -- An access of 1 to 8 bytes to an address that is neither passed through nor handled by a
  -- callback writes the next bytes of the input to that address, if enough of it is left, the
  -- buffer holds the whole input, the cursor is below 2 ^ 63 and the watchdog can be reloaded, moves
  -- the cursor past them, and notes where in the input they stand.
  pub hook_mmio_access-served :
      (addr size value : ℕ) (h : Hooks Uc) (t : TimerState)
      → is_ignored h.mmio.ignored_addresses addr (e.reg_read Reg.pc h.machine.cpu.uc) ≡ false
      → find_callback h.mmio.mmio_callbacks addr (e.reg_read Reg.pc h.machine.cpu.uc) ≡ none
      → 0 < size
      → size ≤ 8
      → h.machine.input.fuzz_cursor < 2 ^ 63
      → h.machine.input.fuzz_cursor + size ≤ h.machine.input.fuzz_size
      → h.machine.input.fuzz_size ≤ length h.machine.input.fuzz
      → reload_timer h.machine.input.fuzz_consumption_timer_id h.machine.timers ≡ ok t
      → hook_mmio_access e file python_callback addr size value h
        ≡ ok (record {
          machine = record h.machine {
            cpu = record h.machine.cpu {
              uc =
                  (e.mem_write addr
                    (take size (drop h.machine.input.fuzz_cursor h.machine.input.fuzz))
                    h.machine.cpu.uc).1;
            };
            timers = t;
            input = record h.machine.input { fuzz_cursor = h.machine.input.fuzz_cursor + size };
          };
          mmio = record h.mmio {
            latest_mmio_fuzz_access_index = h.machine.input.fuzz_cursor;
            latest_mmio_fuzz_access_size = size;
          };
        })
  unfolding hook_mmio_access serve_fuzz
  hook_mmio_access-served addr size value h t listened unhandled some_size small near left whole
        reloaded =
      ground (
        arith,
        listened,
        unhandled,
        get_fuzz-left e file size h.machine t some_size left whole reloaded,
      )

  -- The first such access past an input that is used up loads the file, outside a discovery child and
  -- with the input in a file, and writes its first bytes to the address, if the file is long enough
  -- and the watchdog can be reloaded. The access is noted at the end of the input before, and its size
  -- as the distance from there, which wraps, instead of at the start of the file.
  pub hook_mmio_access-loads :
      (addr size value : ℕ) (bytes : List ℕ) (h : Hooks Uc) (t : TimerState)
      → is_ignored h.mmio.ignored_addresses addr (e.reg_read Reg.pc h.machine.cpu.uc) ≡ false
      → find_callback h.mmio.mmio_callbacks addr (e.reg_read Reg.pc h.machine.cpu.uc) ≡ none
      → file ≡ some bytes
      → 0 < size
      → size ≤ 8
      → size ≤ length bytes
      → h.machine.input.fuzz_size ≡ h.machine.input.fuzz_cursor
      → h.machine.input.is_discovery_child ≡ false
      → h.machine.input.input_already_given ≡ false
      → h.machine.input.input_mode_shm ≡ false
      → reload_timer h.machine.input.fuzz_consumption_timer_id h.machine.timers ≡ ok t
      → hook_mmio_access e file python_callback addr size value h
        ≡ ok (record {
          machine = record h.machine {
            cpu = record h.machine.cpu {
              uc = (e.mem_write addr (take size bytes) h.machine.cpu.uc).1;
            };
            timers = t;
            input = record h.machine.input {
              fuzz = bytes;
              fuzz_size = length bytes;
              fuzz_cursor = size;
              input_already_given = true;
            };
          };
          mmio = record h.mmio {
            latest_mmio_fuzz_access_index = h.machine.input.fuzz_cursor;
            latest_mmio_fuzz_access_size = sub64 size h.machine.input.fuzz_cursor;
          };
        })
  unfolding hook_mmio_access serve_fuzz
  hook_mmio_access-loads addr size value bytes h t listened unhandled given some_size small long
        used_up parent not_loaded no_shm reloaded =
      ground (
        arith,
        listened,
        unhandled,
        small,
        get_fuzz-loads e file size bytes h.machine t given some_size long used_up parent not_loaded
            no_shm reloaded,
      )

  -- A passthrough address takes precedence over every callback.
  pub hook_mmio_access_ignored :
      (addr size value : ℕ) (h : Hooks Uc)
      → is_ignored h.mmio.ignored_addresses addr (e.reg_read Reg.pc h.machine.cpu.uc) ≡ true
      → hook_mmio_access e file python_callback addr size value h
        ≡ ok (close_access (open_access h))
  unfolding hook_mmio_access
  hook_mmio_access_ignored addr size value h ignored = ground (arith, ignored)

  pub hook_mmio_access-handled :
      (addr size value : ℕ) (handler : Handler) (h : Hooks Uc)
      → is_ignored h.mmio.ignored_addresses addr (e.reg_read Reg.pc h.machine.cpu.uc) ≡ false
      → find_callback h.mmio.mmio_callbacks addr (e.reg_read Reg.pc h.machine.cpu.uc) ≡ some handler
      → hook_mmio_access e file python_callback addr size value h ≡ (
          call_handler e file python_callback handler addr size value (open_access h) >>= λ d.
          ok (close_access d))
  unfolding hook_mmio_access
  hook_mmio_access-handled addr size value handler h listened found =
      ground (arith, listened, found)
