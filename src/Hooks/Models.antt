-- ===== src/Hooks/Models.antt =====
-- The models of memory-mapped registers in native_hooks.c: constant, linear, bit extraction and
-- value set.
pub mod Values
use fuzzware_emulator.Prelude.{
  ℕ, zero, suc, ◌+◌, ◌*◌, ◌%◌, ◌^◌, Bool, true, false, List, [], ◌∷◌, Option, none, some, Run, ok,
  halt, Halt, ◌>>=◌, ◌>>◌, check, ltb, leb, ◌==◌, if◌then◌else◌, update, add32, u64_mod, length,
  get_elem?,
}
use fuzzware_emulator.Engine.{Engine, word_bytes, value_bytes}
use fuzzware_emulator.Machine.{Machine, on_cpu}
use fuzzware_emulator.Input.{get_fuzz}
use fuzzware_emulator.Triggers.{first_byte}
use fuzzware_emulator.Hooks.State.{Hooks, LinearModel, BitextractModel, ValueSetModel}

-- The number that bytes hold, the lowest first.
abbrev pub bytes_value : List ℕ → ℕ
bytes_value [] = 0
bytes_value (b ∷ bs) = b + 256 * bytes_value bs

module _ {Uc : Type 0} (e : Engine Uc) where
  -- `uc_mem_write`, whose result is not looked at.
  abbrev pub put_bytes : ℕ → List ℕ → Machine Uc → Machine Uc
  put_bytes addr bs = on_cpu (λ c. record c { uc = (e.mem_write addr bs c.uc).1 })

  -- All four bytes are written, whatever the size of the access.
  unfoldable pub linear_mmio_model_handler : (k addr : ℕ) → Hooks Uc → Hooks Uc
  linear_mmio_model_handler k addr h =
      let model = h.mmio.linear_models k in
      let val = add32 model.val model.step in
      record {
        machine = put_bytes addr (word_bytes val) h.machine;
        mmio = record h.mmio {
          linear_models = update h.mmio.linear_models k (record model { val = val });
        };
      }

  unfoldable pub constant_mmio_model_handler : (val addr size : ℕ) → Machine Uc → Machine Uc
  constant_mmio_model_handler val addr size m = put_bytes addr (value_bytes size val) m

  -- The entry of a value set; an empty set has none to read.
  abbrev pub put_entry : ValueSetModel → (i addr size : ℕ) → Machine Uc → Run (Machine Uc)
  put_entry config i addr size m = elim (get_elem? config.values i) [
    | none ↦ halt Halt.out_of_bounds
    | some v ↦ ok (put_bytes addr (value_bytes size v) m)
  ]

module _ {Uc : Type 0} (e : Engine Uc) (file : Option (List ℕ)) where
  -- The input is read into eight bytes, and shifted as a `uint64_t`: more bytes, or a shift by the
  -- width, leave the defined behaviour.
  unfoldable pub bitextract_mmio_model_handler :
      BitextractModel → (addr size : ℕ) → Machine Uc → Run (Machine Uc)
  bitextract_mmio_model_handler config addr size m = do
    check (leb config.byte_size 8) Halt.out_of_bounds
    r ← get_fuzz e file config.byte_size m
    elim r.0 [
      | none ↦ ok r.1
      | some bytes ↦ (do
        check (ltb config.left_shift 64) Halt.out_of_bounds
        let result_val = bytes_value bytes * 2 ^ config.left_shift % u64_mod
        ok (put_bytes e addr (value_bytes size result_val) r.1))
    ]

  unfoldable pub value_set_mmio_model_handler :
      ValueSetModel → (addr size : ℕ) → Machine Uc → Run (Machine Uc)
  value_set_mmio_model_handler config addr size m =
      if ltb 1 (length config.values)
      then (do
        r ← get_fuzz e file 1 m
        elim r.0 [
          | none ↦ ok r.1
          | some bytes ↦ put_entry e config (first_byte bytes % length config.values) addr size r.1
        ])
      else put_entry e config 0 addr size m
