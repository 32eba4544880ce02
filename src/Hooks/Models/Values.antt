-- ===== src/Hooks/Models/Values.antt =====
-- What the models of native_hooks.c write.
use fuzzware_emulator.Prelude.{
  ℕ, zero, suc, ◌+◌, ◌*◌, ◌%◌, ◌≤◌, ◌<◌, ◌≡◌, refl, get_elem?, List, [], ◌∷◌, Option, some, ok,
  arith, length, u32_mod,
}
use native.Mathlib.Nat.{mod-lt}
use fuzzware_emulator.Engine.{Engine, value_bytes}
use fuzzware_emulator.Timer.{reload_timer, TimerState}
use fuzzware_emulator.Machine.{Machine}
use fuzzware_emulator.Triggers.{first_byte}
use fuzzware_emulator.Input.{take, drop}
use fuzzware_emulator.Input.Serve.{get_fuzz-left}
use fuzzware_emulator.Hooks.State.{Hooks, ValueSetModel}
use fuzzware_emulator.Hooks.Models.{
  put_bytes, put_entry, linear_mmio_model_handler, value_set_mmio_model_handler,
}

get_elem?-below : (vs : List ℕ) (i : ℕ) → i < length vs → (v : ℕ) × (get_elem? vs i ≡ some v)
get_elem?-below [] i h = absurd (omega arith)
get_elem?-below (v ∷ vs) zero h = (v, refl)
get_elem?-below (v ∷ vs) (suc i) h = get_elem?-below vs i (omega arith)

module _ {Uc : Type 0} (e : Engine Uc) (file : Option (List ℕ)) where
  put_entry_below :
      (config : ValueSetModel) (i addr size : ℕ) (m : Machine Uc)
      → i < length config.values
      → (v : ℕ) × (get_elem? config.values i ≡ some v)
        × (put_entry e config i addr size m ≡ ok (put_bytes e addr (value_bytes size v) m))
  put_entry_below config i addr size m h =
      let (v, found) = get_elem?-below config.values i h in (v, found, rw (put_entry, found) refl)

  pub value_set-entry :
      (config : ValueSetModel) (addr size : ℕ) (m : Machine Uc) (t : TimerState)
      → 1 < length config.values
      → m.input.fuzz_cursor < m.input.fuzz_size
      → m.input.fuzz_size ≤ length m.input.fuzz
      → reload_timer m.input.fuzz_consumption_timer_id m.timers ≡ ok t
      → (v : ℕ) × (get_elem? config.values
            (first_byte (take 1 (drop m.input.fuzz_cursor m.input.fuzz)) % length config.values)
          ≡ some v)
        × (value_set_mmio_model_handler e file config addr size m
            ≡ ok (
                put_bytes e addr (value_bytes size v) (record m {
                  timers = t;
                  input = record m.input { fuzz_cursor = m.input.fuzz_cursor + 1 };
                })))
  unfolding value_set_mmio_model_handler
  value_set-entry config addr size m t several left whole reloaded = ground (
    arith,
    get_fuzz-left e file 1 m t (omega arith) (omega arith) whole reloaded,
    put_entry_below config
        (first_byte (take 1 (drop m.input.fuzz_cursor m.input.fuzz)) % length config.values) addr
        size
        (record m { timers = t; input = record m.input { fuzz_cursor = m.input.fuzz_cursor + 1 } })
        (mod-lt _ (omega arith)),
  )

module _ {Uc : Type 0} (e : Engine Uc) where
  -- The accesses to one linear model, one after the other.
  abbrev pub linear_accesses : (k addr n : ℕ) → Hooks Uc → Hooks Uc
  linear_accesses k addr zero h = h
  linear_accesses k addr (suc n) h = linear_mmio_model_handler e k addr (linear_accesses k addr n h)

  pub linear_accesses-val :
      (k addr n : ℕ) (h : Hooks Uc)
      → (h.mmio.linear_models k).val < u32_mod
      → (((linear_accesses k addr n h).mmio.linear_models k).val
          ≡ ((h.mmio.linear_models k).val + n * (h.mmio.linear_models k).step) % u32_mod)
        × (((linear_accesses k addr n h).mmio.linear_models k).step ≡ (h.mmio.linear_models k).step)
  unfolding linear_mmio_model_handler
  linear_accesses-val k addr zero h fits = ground arith
  linear_accesses-val k addr (suc n) h fits = ground (arith, linear_accesses-val k addr n h fits)
