-- ===== src/Hooks/State.antt =====
-- The state of native_hooks.c beside that of the machine: the memory-mapped regions, the callbacks
-- and the passthrough addresses within them, and the models of registers.
--
-- A callback is known by the function that it points to and the configuration behind its user
-- data. The configuration of a linear model changes, so that it is known by its index in a store.
use fuzzware_emulator.Prelude.{ℕ, Bool, List}
use fuzzware_emulator.Engine.{UcErr, err_other}
use fuzzware_emulator.Machine.{Machine}

-- MMIO_HOOK_PC_ALL_ACCESS_SITES
abbrev pub all_access_sites : ℕ
all_access_sites = 0xffff_ffff

-- MAX_MMIO_CALLBACKS
abbrev pub max_mmio_callbacks : ℕ
max_mmio_callbacks = 4096

-- MAX_IGNORED_ADDRESSES
abbrev pub max_ignored_addresses : ℕ
max_ignored_addresses = 4096

-- `struct linear_mmio_model_config`
pub record LinearModel : Type 0 where
  pub step : ℕ
  pub val : ℕ

-- `struct bitextract_mmio_model_config`
pub record BitextractModel : Type 0 where
  pub byte_size : ℕ
  pub left_shift : ℕ
  pub mask_hamming_weight : ℕ
  pub mask : ℕ

-- `struct value_set_mmio_model_config`; `num_vals` is the length.
pub record ValueSetModel : Type 0 where
  pub values : List ℕ

pub data Handler : Type 0 where
  python : Handler
  constant_model : ℕ → Handler
  linear_model : ℕ → Handler
  bitextract_model : BitextractModel → Handler
  value_set_model : ValueSetModel → Handler

-- `struct mmio_callback`
pub record MmioCallback : Type 0 where
  pub start : ℕ
  pub end : ℕ
  pub pc : ℕ
  pub handler : Handler

-- A passthrough address, with the program counter that it is for.
pub record IgnoredAddress : Type 0 where
  pub address : ℕ
  pub pc : ℕ

pub record Region : Type 0 where
  pub start : ℕ
  pub end : ℕ

pub record Mmio : Type 0 where
  pub mmio_regions : List Region
  pub mmio_callbacks : List MmioCallback
  pub ignored_addresses : List IgnoredAddress
  pub linear_models : ℕ → LinearModel
  pub num_linear_models : ℕ
  pub latest_mmio_fuzz_access_index : ℕ
  pub latest_mmio_fuzz_access_size : ℕ
  -- the ranges to which `add_mmio_region` has attached the access hook
  pub hooked_regions : List Region
  -- whether `py_default_mmio_user_data` is set
  pub has_user_data : Bool

pub record Hooks (Uc : Type 0) : Type 0 where
  pub machine : Machine Uc
  pub mmio : Mmio

-- The uc_err of `return -1;`.
abbrev pub err_minus_one : UcErr
err_minus_one = err_other 0xffff_ffff
