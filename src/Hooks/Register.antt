-- ===== src/Hooks/Register.antt =====
-- The registration of memory-mapped regions, of handlers within them and of register models in
-- native_hooks.c.
--
-- The parallel arrays that describe the ranges are one list. `hook_add` is the result that
-- `uc_hook_add` gives for a range. The configurations are allocated for good.
pub mod Placed
use fuzzware_emulator.Prelude.{
  ℕ, zero, suc, ◌+◌, ◌/◌, ◌%◌, ◌^◌, Bool, true, false, not, ◌&&◌, ◌||◌, List, [], ◌∷◌, ◌++◌, map,
  Run, ok, halt, Halt, ◌>>=◌, ltb, leb, ◌==◌, if◌then◌else◌, has_bit, update, length,
}
use fuzzware_emulator.Engine.{UcErr, err_ok, err_exception, is_ok}
use fuzzware_emulator.Hooks.State.{
  Mmio, MmioCallback, IgnoredAddress, Region, Handler, python, constant_model, linear_model,
  bitextract_model, value_set_model, LinearModel, BitextractModel, ValueSetModel, all_access_sites,
  max_mmio_callbacks, max_ignored_addresses, err_minus_one,
}

-- Whether a range lies within one of the regions.
unfoldable pub within : List Region → (start end : ℕ) → Bool
within [] start end = false
within (r ∷ rs) start end = not (ltb start r.start || ltb r.end end) || within rs start end

-- A range with the program counter that it is for.
pub record Placement : Type 0 where
  pub start : ℕ
  pub end : ℕ
  pub pc : ℕ

-- `while(mask) { if(mask & 1) ++weight; mask >>= 1; }`
unfoldable pub hamming_weight : (fuel mask weight : ℕ) → Run ℕ
hamming_weight zero mask weight = halt Halt.out_of_fuel
hamming_weight (suc k) mask weight = elim (mask == 0) [
  | true ↦ ok weight
  | false ↦ hamming_weight k (mask / 2) (weight + mask % 2)
]

-- The rounds for the 32 bits of a mask, and the one that ends the loop.
abbrev pub mask_fuel : ℕ
mask_fuel = 33

-- The arguments of `register_bitextract_mmio_models` for one range.
pub record BitextractArgs : Type 0 where
  pub byte_size : ℕ
  pub left_shift : ℕ
  pub mask : ℕ

-- The arguments of `register_linear_mmio_models` for one range.
pub record LinearArgs : Type 0 where
  pub init_val : ℕ
  pub step : ℕ

module _ (hook_add : Region → UcErr) where
  unfoldable pub add_mmio_region : (begin end : ℕ) → Mmio → UcErr × Mmio
  add_mmio_region begin end m =
      let region : Region = record { start = begin; end = end } in
      if not m.has_user_data then (err_exception, m) else (
        hook_add region,
        if is_ok (hook_add region)
            then record m { hooked_regions = m.hooked_regions ++ region ∷ [] }
            else m,
      )

  -- A range outside all regions gets a hook of its own, whether or not that succeeds.
  unfoldable pub add_mmio_subregion_handler : Handler → (start end pc : ℕ) → Mmio → UcErr × Mmio
  unfolding add_mmio_region
  add_mmio_subregion_handler handler start end pc m =
      if leb max_mmio_callbacks (length m.mmio_callbacks)
      then (err_minus_one, m)
      else if length m.mmio_regions == 0
      then (err_exception, m)
      else (let m' =
            if within m.mmio_regions start end then m else (add_mmio_region start end m).1 in
          let callback : MmioCallback = record {
            start = start;
            end = end;
            pc = pc;
            handler = handler;
          } in
          (err_ok, record m' { mmio_callbacks = m'.mmio_callbacks ++ callback ∷ [] }))

  -- The loop of the registrations: the first failure ends it.
  unfoldable pub register_all : List (Placement × Handler) → Mmio → UcErr × Mmio
  register_all [] m = (err_ok, m)
  register_all (p ∷ ps) m =
      let added = add_mmio_subregion_handler p.1 p.0.start p.0.end p.0.pc m in
      let rest = register_all ps added.1 in if is_ok added.0 then rest else (err_exception, added.1)

  unfoldable pub register_py_handled_mmio_ranges : List Region → Mmio → UcErr × Mmio
  register_py_handled_mmio_ranges ranges m =
      if not m.has_user_data
      then (err_exception, m)
      else register_all
          (map (λ r. (record { start = r.start; end = r.end; pc = all_access_sites }, python))
            ranges)
          m

  unfoldable pub register_constant_mmio_models : List (Placement × ℕ) → Mmio → UcErr × Mmio
  register_constant_mmio_models models m =
      register_all (map (λ p. (p.0, constant_model p.1)) models) m

  -- The next configuration is set before its handler is registered.
  unfoldable pub register_linear_mmio_models : List (Placement × LinearArgs) → Mmio → UcErr × Mmio
  register_linear_mmio_models [] m = (err_ok, m)
  register_linear_mmio_models (p ∷ ps) m =
      let k = m.num_linear_models in
      let configured : Mmio = record m {
        linear_models = update m.linear_models k (record { step = p.1.step; val = p.1.init_val });
        num_linear_models = suc k;
      } in
      let added = add_mmio_subregion_handler (linear_model k) p.0.start p.0.end p.0.pc configured in
      let rest = register_linear_mmio_models ps added.1 in
      if is_ok added.0 then rest else (err_exception, added.1)

  unfoldable pub register_bitextract_mmio_models :
      List (Placement × BitextractArgs) → Mmio → Run (UcErr × Mmio)
  register_bitextract_mmio_models [] m = ok (err_ok, m)
  register_bitextract_mmio_models (p ∷ ps) m = do
    weight ← hamming_weight mask_fuel p.1.mask 0
    let config : BitextractModel = record {
      byte_size = p.1.byte_size;
      left_shift = p.1.left_shift;
      mask_hamming_weight = weight;
      mask = p.1.mask;
    }
    let added = add_mmio_subregion_handler (bitextract_model config) p.0.start p.0.end p.0.pc m
    let rest = register_bitextract_mmio_models ps added.1
    if is_ok added.0 then rest else ok (err_exception, added.1)

  unfoldable pub register_value_set_mmio_models : List (Placement × List ℕ) → Mmio → UcErr × Mmio
  register_value_set_mmio_models models m =
      register_all (map (λ p. (p.0, value_set_model (record { values = p.1 }))) models) m

unfoldable pub set_ignored_mmio_addresses : List IgnoredAddress → Mmio → UcErr × Mmio
set_ignored_mmio_addresses addresses m =
    if leb (length addresses) max_ignored_addresses
    then (err_ok, record m { ignored_addresses = addresses })
    else (err_exception, m)
