-- ===== src/Snapshotting.antt =====
-- harness/fuzzware_harness/native/state_snapshotting.c and .h: the registry of the handlers that
-- save and restore the state of the components.  `S` is the state of the whole emulation, `D` the
-- data behind the `void *` of a snapshot. The array of `num_used` entries is a list;
-- `num_allocated` is its capacity.
use fuzzware_emulator.Prelude.{
  ℕ, ◌*◌, List, [], ◌∷◌, ◌++◌, map, Option, none, some, ◌==◌, if◌then◌else◌, length,
}

abbrev pub initial_num_state_sources : ℕ
initial_num_state_sources = 8

-- `struct snapshot_t`; the discarding of a snapshot frees its memory.
pub record Snapshot (S D : Type 0) : Type 0 where
  pub state : Option D
  pub take_handler : S → D
  pub restore_handler : Option D → S → S
  pub discard_handler : Option D → S → S

pub record SnapshottingState (S D : Type 0) : Type 0 where
  pub num_allocated : ℕ
  pub snapshots : List (Snapshot S D)

module _ {S D : Type 0} where
  unfoldable pub initial_state : SnapshottingState S D
  initial_state = record { num_allocated = 0; snapshots = [] }

  -- The array is allocated on the first call, and doubled when it is full.
  unfoldable pub subscribe_state_snapshotting :
      (S → D)
      → (Option D → S → S)
      → (Option D → S → S)
      → SnapshottingState S D
      → SnapshottingState S D
  subscribe_state_snapshotting take restore discard state = record {
    num_allocated =
        if state.num_allocated == 0
        then initial_num_state_sources
        else if length state.snapshots == state.num_allocated
        then 2 * state.num_allocated
        else state.num_allocated;
    snapshots =
        state.snapshots
        ++ record {
          state = none;
          take_handler = take;
          restore_handler = restore;
          discard_handler = discard;
        }
          ∷ [];
  }

  abbrev pub taken : S → Snapshot S D → Snapshot S D
  taken s p = record p { state = some (p.take_handler s) }

  unfoldable pub trigger_snapshotting : S → SnapshottingState S D → SnapshottingState S D
  trigger_snapshotting s state = record state { snapshots = map (taken s) state.snapshots }

  unfoldable pub restore_all : List (Snapshot S D) → S → S
  restore_all [] s = s
  restore_all (p ∷ ps) s = restore_all ps (p.restore_handler p.state s)

  unfoldable pub trigger_restore : SnapshottingState S D → S → S
  trigger_restore state s = restore_all state.snapshots s

  unfoldable pub discard_all : List (Snapshot S D) → S → S
  discard_all [] s = s
  discard_all (p ∷ ps) s = discard_all ps (p.discard_handler p.state s)

  unfoldable pub trigger_teardown : SnapshottingState S D → S → S
  trigger_teardown state s = discard_all state.snapshots s
