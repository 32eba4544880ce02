-- ===== src/Input.antt =====
-- The fuzzing input of harness/fuzzware_harness/native/native_hooks.c: load_fuzz and get_fuzz.
--
-- The file behind `input_path` is a parameter: its bytes, or none if it cannot be read. A discovery
-- child reports its ticks over a pipe and exits; only the exit is modelled.
pub mod Serve
use fuzzware_emulator.Prelude.{
  ℕ, zero, suc, ◌+◌, ◌-◌, ◌≤◌, Bool, true, false, not, ◌&&◌, List, [], ◌∷◌, Option, none, some, Run,
  ok, halt, Halt, ◌>>=◌, ◌>>◌, check, leb, ◌==◌, if◌then◌else◌, length,
}
use fuzzware_emulator.Engine.{Engine, err_ok, first_word}
use fuzzware_emulator.Timer.{reload_timer, get_global_ticker}
use fuzzware_emulator.Machine.{Machine, Input, on_cpu, on_timers, exit_with}

abbrev pub take {ℓ} : {A : Type ℓ} → ℕ → List A → List A
take zero xs = []
take (suc n) [] = []
take (suc n) (x ∷ xs) = x ∷ take n xs

abbrev pub drop {ℓ} : {A : Type ℓ} → ℕ → List A → List A
drop zero xs = xs
drop (suc n) [] = []
drop (suc n) (x ∷ xs) = drop n xs

-- A failure to read the file makes `load_delayed_input` exit, as does an unconsumed prefix.
unfoldable pub load_fuzz : Option (List ℕ) → Input → Run Input
load_fuzz file i =
    if i.input_mode_shm
    then ok (record i { fuzz_size = first_word i.fuzz + 4; fuzz_cursor = 4 })
    else (do
      check (i.fuzz_size == i.fuzz_cursor) Halt.exit_error
      elim file [
        | none ↦ halt Halt.exit_error
        | some bytes ↦ ok (record i { fuzz = bytes; fuzz_size = length bytes; fuzz_cursor = 0 })
      ])

unfoldable pub load_delayed_input : Option (List ℕ) → Input → Run Input
load_delayed_input file i = do i' ← load_fuzz file i; ok (record i' { input_already_given = true })

abbrev pub has_left : ℕ → Input → Bool
has_left size i = not (size == 0) && leb (i.fuzz_cursor + size) i.fuzz_size

module _ {Uc : Type 0} (e : Engine Uc) (file : Option (List ℕ)) where
  -- The next bytes; the watchdog of the consumption is reloaded. `fuzz` is the whole buffer.
  unfoldable pub serve : ℕ → Machine Uc → Run (Option (List ℕ) × Machine Uc)
  serve size m = do
    let i = m.input
    check (leb (i.fuzz_cursor + size) (length i.fuzz)) Halt.out_of_bounds
    m' ←
        on_timers (reload_timer i.fuzz_consumption_timer_id)
          (record m { input = record i { fuzz_cursor = i.fuzz_cursor + size } })
    ok (some (take size (drop i.fuzz_cursor i.fuzz)), m')

  -- The call of itself behind the loading is the only one, so that two rounds are enough.
  unfoldable pub get_fuzz_in : ℕ → ℕ → Machine Uc → Run (Option (List ℕ) × Machine Uc)
  get_fuzz_in zero size m = halt Halt.out_of_fuel
  get_fuzz_in (suc k) size m = elim (has_left size m.input) [
    | true ↦ serve size m
    | false ↦ elim m.input.is_discovery_child [
      | true ↦ (do r ← get_global_ticker m.timers; halt Halt.exit_normal)
      | false ↦ elim m.input.input_already_given [
        | true ↦ ok (none, on_cpu (exit_with e err_ok) m)
        | false ↦ (do
          i ← load_delayed_input file m.input
          get_fuzz_in k size (record m { input = i }))
      ]
    ]
  ]

  -- `none` is the result 1, after which the run ends.
  unfoldable pub get_fuzz : ℕ → Machine Uc → Run (Option (List ℕ) × Machine Uc)
  get_fuzz = get_fuzz_in 2
