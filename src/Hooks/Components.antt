-- ===== src/Hooks/Components.antt =====
-- The handlers by which timer.c, cortexm_nvic.c, cortexm_systick.c and interrupt_triggers.c take part
-- in snapshots, as they are subscribed to state_snapshotting.c. The data behind the `void *` of a
-- snapshot is one of four kinds; a handler is only ever given what its own component has taken.
pub mod Restored
use fuzzware_emulator.Prelude.{ℕ, Bool, true, false, List, [], ◌∷◌, ◌||◌, Option, none, some}
use fuzzware_emulator.Engine.{Engine}
use fuzzware_emulator.Timer.{TimerState, timers_take_snapshot, timers_restore_snapshot}
use fuzzware_emulator.Nvic.State.{Nvic}
use fuzzware_emulator.Nvic.Sysctl.{nvic_take_snapshot, nvic_restore_snapshot}
use fuzzware_emulator.Machine.{Machine, SysTick, InterruptTrigger}
use fuzzware_emulator.Triggers.{interrupt_trigger_take_snapshot, interrupt_trigger_restore_snapshot}
use fuzzware_emulator.Snapshotting.{SnapshottingState, subscribe_state_snapshotting}
use fuzzware_emulator.Hooks.State.{Hooks}

pub data Component : Type 0 where
  timers_part nvic_part systick_part triggers_part : Component

abbrev pub same_component : Component → Component → Bool
same_component Component.timers_part Component.timers_part = true
same_component Component.nvic_part Component.nvic_part = true
same_component Component.systick_part Component.systick_part = true
same_component Component.triggers_part Component.triggers_part = true
same_component _ _ = false

abbrev pub among : Component → List Component → Bool
among k [] = false
among k (l ∷ ls) = same_component k l || among k ls

pub data SnapshotData : Type 0 where
  timers_data : TimerState → SnapshotData
  nvic_data : Nvic × List ℕ → SnapshotData
  systick_data : SysTick → SnapshotData
  triggers_data : (ℕ → InterruptTrigger) → SnapshotData

-- `systick_take_snapshot`: a copy of `systick`.
unfoldable pub systick_take_snapshot : SysTick → SysTick
systick_take_snapshot systick = systick

unfoldable pub systick_restore_snapshot : SysTick → SysTick → SysTick
systick_restore_snapshot snapshot systick = snapshot

module _ {Uc : Type 0} (e : Engine Uc) (page : List ℕ) where
  -- `page` is the buffer for the system control page.
  abbrev pub take_component : Component → Hooks Uc → SnapshotData
  take_component Component.timers_part h =
      SnapshotData.timers_data (timers_take_snapshot h.machine.timers)
  take_component Component.nvic_part h =
      SnapshotData.nvic_data (nvic_take_snapshot e page h.machine.cpu)
  take_component Component.systick_part h =
      SnapshotData.systick_data (systick_take_snapshot h.machine.systick)
  take_component Component.triggers_part h =
      SnapshotData.triggers_data (interrupt_trigger_take_snapshot h.machine)

  abbrev pub restore_component : Component → Option SnapshotData → Hooks Uc → Hooks Uc
  restore_component Component.timers_part (some (SnapshotData.timers_data t)) h = record h {
    machine = record h.machine { timers = timers_restore_snapshot t h.machine.timers };
  }
  restore_component Component.nvic_part (some (SnapshotData.nvic_data d)) h = record h {
    machine = record h.machine { cpu = nvic_restore_snapshot e d h.machine.cpu };
  }
  restore_component Component.systick_part (some (SnapshotData.systick_data t)) h = record h {
    machine = record h.machine { systick = systick_restore_snapshot t h.machine.systick };
  }
  restore_component Component.triggers_part (some (SnapshotData.triggers_data t)) h = record h {
    machine = interrupt_trigger_restore_snapshot t h.machine;
  }
  restore_component _ _ h = h

  -- The components subscribe one after the other; the discarding of a snapshot frees its memory.
  unfoldable pub subscribed :
      List Component
      → SnapshottingState (Hooks Uc) SnapshotData
      → SnapshottingState (Hooks Uc) SnapshotData
  subscribed [] state = state
  subscribed (k ∷ ks) state =
      subscribed ks
        (subscribe_state_snapshotting (take_component k) (restore_component k) (λ d h. h) state)
