-- ===== src/UcSnapshot/Taken/Whole.antt =====
-- native_hooks_take_snapshot of uc_snapshot.c as a whole: what it saves.
use fuzzware_emulator.Prelude.{ℕ, ◌≡◌, refl, List, [], none, some, ok, arith, if◌then◌else◌}
use fuzzware_emulator.Engine.{Engine, err_ok}
use fuzzware_emulator.UcSnapshot.{NativeHooksState}
use fuzzware_emulator.UcSnapshot.Memory.{MemEngine, IsMemory, IsReadable}
use fuzzware_emulator.UcSnapshot.Taken.{native_hooks_take_snapshot}
use fuzzware_emulator.UcSnapshot.Taken.Cut.{saved_byte}
use fuzzware_emulator.UcSnapshot.Taken.Saved.{IsSaved}
use fuzzware_emulator.UcSnapshot.Taken.Regions.{is_kept, AreRegions, AreShort, save_regions-saves}

module _ {Uc Ctx : Type 0} (e : Engine Uc) (me : MemEngine Uc Ctx) (mem : IsMemory e me)
    (readable : IsReadable mem) where
  empty-IsSaved :
      (saved : ℕ → ℕ) (s : NativeHooksState Ctx)
      → s.content_regions ≡ []
      → s.nullregions ≡ []
      → s.restore_content_regions ≡ []
      → s.restore_nullregions ≡ []
      → IsSaved e me mem saved s
  empty-IsSaved saved s c n rc rn = record {
    laid_out = record {
      paged = λ i d at_i. absurd (ground (arith, at_i, c));
      apart = λ i j a d f at_i at_j in_d in_f. absurd (ground (arith, at_i, c));
    };
    null_paged = λ i r at_i. absurd (ground (arith, at_i, n));
    copy = record {
      long = λ i d at_i. absurd (ground (arith, at_i, c));
      bytes = λ i k d at_i low. absurd (ground (arith, at_i, c));
      nulls = λ a on. absurd (ground (arith, on, n));
      content_mapped = λ i k d at_i low. absurd (ground (arith, at_i, c));
      null_mapped = λ a on. absurd (ground (arith, on, n));
    };
    no_content = rc;
    no_null = rn;
  }

  -- If the hook can be added, the regions of the engine are mapped whole pages without overlap, and
  -- those that are to be saved are smaller than 2 GiB, so that the `int` arithmetic does not overflow,
  -- taking a snapshot succeeds and leaves every byte of memory; the snapshot records the bytes of
  -- exactly the regions that are writable, not memory-mapped and not ignored, in regions laid out
  -- as a restore needs them, and has nothing to restore yet. The engine's memory behaves as
  -- documented.
  pub take_snapshot-saves :
      (mmio_region_starts : List ℕ) (curr_exit_at_hit_num : ℕ) (u : Uc)
      → AreRegions mem.mapped (me.mem_regions u)
      → AreShort mmio_region_starts (me.mem_regions u)
      → (s : NativeHooksState Ctx) × (u' : Uc) × (native_hooks_take_snapshot e me err_ok
            mmio_region_starts curr_exit_at_hit_num u
          ≡ ok (s, u'))
        × IsSaved e me mem (λ a. mem.peek a u) s
        × ((a : ℕ) → mem.peek a u' ≡ mem.peek a u)
        × ((a : ℕ)
            → saved_byte s a ≡ (
                if is_kept mmio_region_starts (me.mem_regions u) a
                then some (mem.peek a u)
                else none))
  unfolding native_hooks_take_snapshot
  take_snapshot-saves mmio_region_starts curr_exit_at_hit_num u regions short =
      let nothing : NativeHooksState Ctx = record {
        curr_exit_at_hit_num = curr_exit_at_hit_num;
        uc_saved_context = me.context_save u;
        orig_regions = me.mem_regions u;
        content_regions = [];
        nullregions = [];
        restore_content_regions = [];
        restore_nullregions = [];
      } in
      let (s, u', run, v, reads, bytes) =
        save_regions-saves e me mem readable (λ a. mem.peek a u) mmio_region_starts
          (me.mem_regions u) nothing u regions short
          (empty-IsSaved (λ a. mem.peek a u) nothing refl refl refl refl) (λ a. refl)
          (λ a h. refl) in
      (s, u', rw run refl, v, reads, bytes)
