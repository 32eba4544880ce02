-- ===== src/UcSnapshot/Cycle.antt =====
-- A snapshot in uc_snapshot.c from its taking to a restore.
use fuzzware_emulator.Prelude.{ℕ, ◌≡◌, sym, subst, List, All, ok, arith}
use fuzzware_emulator.Engine.{Engine, err_ok}
use fuzzware_emulator.UcSnapshot.{
  NativeHooksState, RestoreRegion, NullRegion, native_hooks_restore_snapshot,
}
use fuzzware_emulator.UcSnapshot.Memory.{MemEngine, IsMemory, IsReadable}
use fuzzware_emulator.UcSnapshot.Backed.{IsBacked}
use fuzzware_emulator.UcSnapshot.Nulled.{IsNulled}
use fuzzware_emulator.UcSnapshot.Activated.{IsTracking}
use fuzzware_emulator.UcSnapshot.Restored.Steps.{Steps}
use fuzzware_emulator.UcSnapshot.Restored.Reached.{restored_after-Steps}
use fuzzware_emulator.UcSnapshot.Taken.{native_hooks_take_snapshot}
use fuzzware_emulator.UcSnapshot.Taken.Saved.{IsSaved}
use fuzzware_emulator.UcSnapshot.Taken.Regions.{AreRegions, AreShort}
use fuzzware_emulator.UcSnapshot.Taken.Whole.{take_snapshot-saves}

module _ {Uc Ctx : Type 0} (e : Engine Uc) (me : MemEngine Uc Ctx) (mem : IsMemory e me) where
  IsTracking-IsSaved :
      (saved : ℕ → ℕ) (s : NativeHooksState Ctx) → IsSaved e me mem saved s → IsTracking s
  IsTracking-IsSaved saved s v = record {
    laid_out = v.laid_out;
    null_paged = v.null_paged;
    backed =
        subst (λ (rs : List RestoreRegion). All (IsBacked s.content_regions) rs) (sym v.no_content)
          tt;
    nulled = subst (λ (rs : List NullRegion). All (IsNulled s.nullregions) rs) (sym v.no_null) tt;
  }

  -- After a snapshot and any sequence of handled page faults within a page, refused faults, stores
  -- to pages that will be restored and earlier restores, a restore gives every byte of memory the
  -- value that it had before the snapshot, if the hook could be added, the regions of the engine
  -- are mapped whole pages without overlap, those that are saved are smaller than 2 GiB, and its
  -- memory behaves as documented.
  pub restore-take_snapshot :
      (readable : IsReadable mem) (mmio_region_starts : List ℕ) (curr_exit_at_hit_num : ℕ)
      (s t : NativeHooksState Ctx) (u v w : Uc) (a : ℕ)
      → AreRegions mem.mapped (me.mem_regions u)
      → AreShort mmio_region_starts (me.mem_regions u)
      → native_hooks_take_snapshot e me err_ok mmio_region_starts curr_exit_at_hit_num u ≡ ok (s, v)
      → Steps e me s v t w
      → mem.peek a (native_hooks_restore_snapshot e me t w).1 ≡ mem.peek a u
  restore-take_snapshot readable mmio_region_starts curr_exit_at_hit_num s t u v w a regions short
        took steps =
      let saved : ℕ → ℕ = λ b. mem.peek b u in
      let (s', v', run, kept, reads, bytes) =
        take_snapshot-saves e me mem readable mmio_region_starts curr_exit_at_hit_num u regions
          short in
      let s-eq : s' ≡ s = ground (arith, took, run) in
      let v-eq : v' ≡ v = ground (arith, took, run) in
      let kept' : IsSaved e me mem saved s = subst (λ x. IsSaved e me mem saved x) s-eq kept in
      restored_after-Steps e me mem saved s t v w a (IsTracking-IsSaved saved s kept') kept'.copy
        (subst (λ x. (b : ℕ) → mem.peek b x ≡ saved b) v-eq reads) steps
