-- ===== src/UcSnapshot/Restored/Steps.antt =====
-- The changes of memory between a snapshot and a restore in uc_snapshot.c.
use fuzzware_emulator.Prelude.{
  ℕ, zero, suc, ◌+◌, ◌/◌, ◌≤◌, ◌<◌, ◌≡◌, refl, ap, true, false, List, ok, arith, length,
}
use fuzzware_emulator.Engine.{Engine, value_bytes}
use fuzzware_emulator.UcSnapshot.{
  NativeHooksState, page_size, page_of, activate_page_staterestore, old_perms,
  hook_invalid_write_on_demand_page_restore_handle, native_hooks_restore_snapshot,
}
use fuzzware_emulator.UcSnapshot.Memory.{MemEngine}
use fuzzware_emulator.UcSnapshot.Activated.{restores, is_saved}

pub length-value_bytes : (n v : ℕ) → length (value_bytes n v) ≡ n
length-value_bytes zero v = refl
length-value_bytes (suc n) v = ap suc (length-value_bytes n (v / 256))

pub activated_is_saved :
    {Ctx : Type 0} (address : ℕ) (s : NativeHooksState Ctx)
    → (activate_page_staterestore address s).0 ≡ true
    → is_saved s (page_of address) ≡ true
unfolding activate_page_staterestore
activated_is_saved address s activated = ground (arith, activated)

module _ {Uc Ctx : Type 0} (e : Engine Uc) (me : MemEngine Uc Ctx) where
  -- The changes of memory between a snapshot and a restore: a fault that the hook has handled, which
  -- writes within a page, and a store to pages that will be restored.
  pub data Step
      : (s : NativeHooksState Ctx) (u : Uc) (s' : NativeHooksState Ctx) (u' : Uc) → Type 0 where
    fault :
        (address size value : ℕ) (s s' : NativeHooksState Ctx) (u u' : Uc)
        → address + size ≤ page_of address + page_size
        → hook_invalid_write_on_demand_page_restore_handle e me address size value s u
          ≡ ok (true, s', u')
        → Step s u s' u'
    refused :
        (address size value : ℕ) (s s' : NativeHooksState Ctx) (u u' : Uc)
        → hook_invalid_write_on_demand_page_restore_handle e me address size value s u
          ≡ ok (false, s', u')
        → Step s u s' u'
    restored :
        (s : NativeHooksState Ctx) (u : Uc) → Step s u s (native_hooks_restore_snapshot e me s u).1
    store :
        (address : ℕ) (bs : List ℕ) (s : NativeHooksState Ctx) (u : Uc)
        → ((k : ℕ) → k < length bs → restores s (address + k) ≡ true)
        → Step s u s (e.mem_write address bs u).1

  pub data Steps
      : (s : NativeHooksState Ctx) (u : Uc) (s' : NativeHooksState Ctx) (u' : Uc) → Type 0 where
    start : (s : NativeHooksState Ctx) (u : Uc) → Steps s u s u
    next :
        (s s' s'' : NativeHooksState Ctx) (u u' u'' : Uc)
        → Steps s u s' u'
        → Step s' u' s'' u''
        → Steps s u s'' u''

  pub hook_handled :
      (address size value : ℕ) (s s' : NativeHooksState Ctx) (u u' : Uc)
      → hook_invalid_write_on_demand_page_restore_handle e me address size value s u
        ≡ ok (true, s', u')
      → ((activate_page_staterestore (page_of address) s).0 ≡ true)
        × (s' ≡ (activate_page_staterestore (page_of address) s).1)
        × (perms : ℕ) × (u'
            ≡ (e.mem_write address
                (value_bytes size value)
                (me.mem_protect (page_of address) page_size perms u).1).1)
  unfolding hook_invalid_write_on_demand_page_restore_handle
  hook_handled address size value s s' u u' handled = (
    ground (arith, handled),
    ground (arith, handled),
    old_perms (activate_page_staterestore (page_of address) s).1.orig_regions (page_of address),
    ground (arith, handled),
  )

  pub hook_refused :
      (address size value : ℕ) (s s' : NativeHooksState Ctx) (u u' : Uc)
      → hook_invalid_write_on_demand_page_restore_handle e me address size value s u
        ≡ ok (false, s', u')
      → (s' ≡ (activate_page_staterestore (page_of address) s).1) × (u' ≡ u)
  unfolding hook_invalid_write_on_demand_page_restore_handle
  hook_refused address size value s s' u u' refusal = ground (arith, refusal)
