-- ===== src/Nvic/State.antt =====
-- cortexm_nvic.h and cortexm_exception_nums.h: the constants and `struct CortexmNVIC`.  The
-- arrays are functions of the exception number; their flags are 0 or 1. The `enabled_irqs` array
-- with its count `num_enabled` is a list. A priority is an `int`: that of the NMI is negative.
-- `prev_basepri` is kept as its bit pattern. The registers behind `reg_daif_ptr` and
-- `reg_basepri_ptr` are those of the engine; `force_stack_align` is never read.
use fuzzware_emulator.Prelude.{
  ℕ, ◌+◌, ◌-◌, ◌^◌, ◌%◌, ◌*◌, Bool, true, false, List, [], ℤ, pos, negsuc, update, if◌then◌else◌,
  ◌==◌, u8_mod,
}

abbrev pub exception_none_active : ℕ
exception_none_active = 0

abbrev pub exception_no_nmi : ℕ
exception_no_nmi = 2

abbrev pub exception_no_svc : ℕ
exception_no_svc = 0xb

abbrev pub exception_no_pendsv : ℕ
exception_no_pendsv = 0xe

abbrev pub exception_no_systick : ℕ
exception_no_systick = 0xf

abbrev pub exception_no_external_start : ℕ
exception_no_external_start = 0x10

-- `NVIC_NUM_SUPPORTED_INTERRUPTS`
abbrev pub num_supported : ℕ
num_supported = 256

abbrev pub exception_no_max : ℕ
exception_no_max = num_supported - 1

abbrev pub nvic_none_active : ℕ
nvic_none_active = 0

abbrev pub nvic_lowest_prio : ℕ
nvic_lowest_prio = 256

-- -1 as an `int32_t`
abbrev pub no_prev_basepri : ℕ
no_prev_basepri = 2 ^ 32 - 1

pub record Nvic : Type 0 where
  pub prev_primask : Bool
  pub prev_basepri : ℕ
  pub group_prio_mask : ℕ
  pub prigroup_shift : ℕ
  pub sub_prio_mask : ℕ
  pub highest_ever_enabled_exception_no : ℕ
  pub active_group_prio : ℕ
  pub active_irq : ℕ
  pub pending_prio : ℤ
  pub pending_irq : ℕ
  pub num_active : ℕ
  pub vtor : ℕ
  pub interrupt_count : ℕ
  pub exception_enabled : ℕ → Bool
  pub exception_active : ℕ → Bool
  pub exception_pending : ℕ → Bool
  pub exception_priority : ℕ → ℤ
  pub enabled_irqs : List ℕ

-- The configuration that `init_nvic` records; the disabled interrupts are exception numbers.
pub record NvicConfig : Type 0 where
  pub interrupt_limit : ℕ
  pub config_disabled_interrupts : List ℕ

-- The masks that split a priority for a given `prigroup`.
unfoldable pub set_prigroup : ℕ → Nvic → Nvic
set_prigroup new_prigroup n = record n {
  prigroup_shift = new_prigroup % u8_mod;
  sub_prio_mask = (2 * 2 ^ (new_prigroup % u8_mod) + u8_mod - 1) % u8_mod;
  group_prio_mask = u8_mod - 1 - (2 * 2 ^ (new_prigroup % u8_mod) + u8_mod - 1) % u8_mod;
}

-- The static initializer: zeroes, but for `prev_basepri`.
abbrev pub zero_nvic : Nvic
zero_nvic = record {
  prev_primask = false;
  prev_basepri = no_prev_basepri;
  group_prio_mask = 0;
  prigroup_shift = 0;
  sub_prio_mask = 0;
  highest_ever_enabled_exception_no = 0;
  active_group_prio = 0;
  active_irq = 0;
  pending_prio = pos 0;
  pending_irq = 0;
  num_active = 0;
  vtor = 0;
  interrupt_count = 0;
  exception_enabled = λ _. false;
  exception_active = λ _. false;
  exception_pending = λ _. false;
  exception_priority = λ _. pos 0;
  enabled_irqs = [];
}

-- The exceptions that are enabled by default.
abbrev pub is_default_enabled : ℕ → Bool
is_default_enabled i =
    if i == exception_no_svc
    then true
    else if i == exception_no_pendsv
    then true
    else i == exception_no_systick

-- The writes of `init_nvic` to the fields, before it asks for the register pointers; the `vtor` is
-- given or read from memory by the caller, and `recalc_prios` is its last call.
unfoldable pub init_fields : ℕ → Nvic → Nvic
init_fields vtor n = set_prigroup 0 (record n {
  exception_enabled = λ i. if is_default_enabled i then true else n.exception_enabled i;
  exception_priority = update n.exception_priority exception_no_nmi (negsuc 1);
  highest_ever_enabled_exception_no = exception_no_systick;
  active_irq = nvic_none_active;
  pending_irq = nvic_none_active;
  active_group_prio = nvic_lowest_prio;
  pending_prio = pos nvic_lowest_prio;
  interrupt_count = 0;
  vtor = vtor;
})
