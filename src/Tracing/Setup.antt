-- ===== src/Tracing/Setup.antt =====
-- init_tracing of native_tracing.c.
use fuzzware_emulator.Prelude.{
  ℕ, Bool, ◌||◌, List, [], ◌∷◌, ◌++◌, map, Option, some, Run, ok, ◌>>=◌, if◌then◌else◌,
}
use fuzzware_emulator.Snapshotting.{SnapshottingState, subscribe_state_snapshotting}
use fuzzware_emulator.Hooks.Runs.{add_exit_hook}
use fuzzware_emulator.Tracing.{Pair, TraceState, TracePaths}
use fuzzware_emulator.Tracing.Sets.{HashSet}

pub data TraceHook : Type 0 where
  block_set_hook block_hash_hook : TraceHook
  mmio_hook : (start end : ℕ) → TraceHook

-- Whether anything is traced: then the exit hook and the snapshot handlers are registered.
unfoldable pub is_tracing : TracePaths → Bool
is_tracing paths = paths.bbl_set || (paths.bbl_hash || paths.mmio_set)

module _ {S : Type 0} (sets : HashSet S) where
  abbrev pub fresh_pair : Bool → Pair S → Pair S
  fresh_pair wanted p =
      if wanted then record { base = some sets.kh_init; scratch = some sets.kh_init } else p

  -- The hooks that are added to the engine, for the ranges given, and the sets. The results of
  -- the additions are not looked at.
  unfoldable pub start_traces :
      TracePaths → List (ℕ × ℕ) → TraceState S → List TraceHook × TraceState S
  start_traces paths ranges t = (
    (if paths.bbl_set then block_set_hook ∷ [] else [])
        ++ (if paths.bbl_hash then block_hash_hook ∷ [] else [])
        ++ (if paths.mmio_set then map (λ r. mmio_hook r.0 r.1) ranges else []),
    record t {
      basic_blocks = fresh_pair paths.bbl_set t.basic_blocks;
      writes = fresh_pair paths.mmio_set t.writes;
      reads = fresh_pair paths.mmio_set t.reads;
    },
  )

  -- With the exit hooks and the registry of snapshots, to which the handlers given are added.
  unfoldable pub init_tracing :
      {X G D : Type 0} (exit_hook : X) (take : G → D) (restore discard : Option D → G → G)
      → TracePaths
      → List (ℕ × ℕ)
      → List X
      → SnapshottingState G D
      → TraceState S
      → Run (List TraceHook × List X × SnapshottingState G D × TraceState S)
  init_tracing exit_hook take restore discard paths ranges exit_hooks snapshots t =
      if is_tracing paths
      then (do
        exit_hooks' ← add_exit_hook exit_hook exit_hooks
        let started = start_traces paths ranges t
        let snapshots' = subscribe_state_snapshotting take restore discard snapshots
        ok (started.0, exit_hooks', snapshots', started.1))
      else ok ([], exit_hooks, snapshots, t)
