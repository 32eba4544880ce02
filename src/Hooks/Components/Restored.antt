-- ===== src/Hooks/Components/Restored.antt =====
-- What a snapshot of the subscribed components gives back.
use fuzzware_emulator.Prelude.{ℕ, ◌≡◌, ◌&&◌, ltb, List, [], ◌∷◌, none, if◌then◌else◌}
use fuzzware_emulator.Engine.{Engine}
use fuzzware_emulator.Nvic.Sysctl.{sysctl_start}
use fuzzware_emulator.Snapshotting.{Snapshot}
use fuzzware_emulator.Hooks.State.{Hooks}
use fuzzware_emulator.Hooks.Components.{
  Component, SnapshotData, among, same_component, take_component, restore_component,
}

-- The components `ks` of `u` are those of `start`; the others, and what belongs to no component,
-- are those of `h`. Of the triggers, those in use are restored.
pub record Restored {Uc : Type 0} (ks : List Component) (start h u : Hooks Uc) : Type 0 where
  pub timers_back :
      u.machine.timers
      ≡ (if among Component.timers_part ks then start.machine.timers else h.machine.timers)
  pub nvic_back :
      u.machine.cpu.nvic
      ≡ (if among Component.nvic_part ks then start.machine.cpu.nvic else h.machine.cpu.nvic)
  pub systick_back :
      u.machine.systick
      ≡ (if among Component.systick_part ks then start.machine.systick else h.machine.systick)
  pub triggers_back :
      (i : ℕ)
      → u.machine.triggers i ≡ (
          if among Component.triggers_part ks && ltb i h.machine.num_triggers_inuse
          then start.machine.triggers i
          else h.machine.triggers i)
  pub in_use : u.machine.num_triggers_inuse ≡ h.machine.num_triggers_inuse
  pub frame : u.machine.cpu.saved_regs ≡ h.machine.cpu.saved_regs
  pub mmio : u.mmio ≡ h.mmio

-- What is in no snapshot stays as it is.
abbrev pub KeepsRest : {Uc : Type 0} → Hooks Uc → Hooks Uc → Type 0
KeepsRest h u = (u.machine.input ≡ h.machine.input) × (u.machine.cpu.exits ≡ h.machine.cpu.exits)

module _ {Uc : Type 0} (e : Engine Uc) (page : List ℕ) where
  part : Component → Snapshot (Hooks Uc) SnapshotData
  part k = record {
    state = none;
    take_handler = take_component e page k;
    restore_handler = restore_component e page k;
    discard_handler = λ d h. h;
  }

  -- What a restore of the components writes to the engine: the system control page, once for each
  -- subscription of the NVIC.
  abbrev pub pages_written : List Component → (start : Hooks Uc) → Uc → Uc
  pages_written [] start u = u
  pages_written (k ∷ ks) start u = pages_written ks start (
      if same_component Component.nvic_part k
      then (e.mem_write sysctl_start (e.mem_read sysctl_start page start.machine.cpu.uc).1 u).1
      else u)
