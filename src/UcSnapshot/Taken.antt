-- ===== src/UcSnapshot/Taken.antt =====
-- native_hooks_take_snapshot of uc_snapshot.c: the writable memory is cut into regions of zeroes and
-- regions with contents, and made read-only.
pub mod Fits
pub mod Cut
pub mod Saved
pub mod Pages
pub mod Regions
pub mod Whole
use fuzzware_emulator.Prelude.{
  ℕ, zero, suc, ◌+◌, ◌-◌, ◌*◌, ◌/◌, ◌%◌, ◌^◌, Bool, true, false, not, ◌&&◌, ◌||◌, List, [], ◌∷◌,
  ◌++◌, Option, none, some, Run, ok, Halt, ◌>>=◌, ◌>>◌, check, ◌==◌, if◌then◌else◌, has, ltb,
}
use fuzzware_emulator.Engine.{Engine, UcErr, err_arg, is_ok}
use fuzzware_emulator.Input.{take, drop}
use fuzzware_emulator.UcSnapshot.{NativeHooksState, ContentRegion, NullRegion, page_size}
use fuzzware_emulator.UcSnapshot.Memory.{MemEngine, MemRegion, has_write, without_write}

abbrev pub ignored_state_restore_mem_addresses : List ℕ
ignored_state_restore_mem_addresses = 0xffff_f000 ∷ 0xe000_0000 ∷ []

abbrev pub all_zero : List ℕ → Bool
all_zero [] = true
all_zero (b ∷ bs) = (b == 0) && all_zero bs

abbrev pub same : Bool → Bool → Bool
same true b = b
same false b = not b

-- `malloc` gives as many bytes as `uc_mem_read` fills.
abbrev pub zeroes : ℕ → List ℕ
zeroes zero = []
zeroes (suc n) = 0 ∷ zeroes n

abbrev pub is_err_arg : UcErr → Bool
is_err_arg err_arg = true
is_err_arg _ = false

-- The size of a region that is saved: 0 for one that is not writable, that is memory-mapped, or
-- that is ignored.
unfoldable pub saved_size : (mmio_region_starts : List ℕ) → MemRegion → ℕ
saved_size mmio_region_starts r =
    if not (has_write r.perms)
      || (has r.begin mmio_region_starts || has r.begin ignored_state_restore_mem_addresses)
    then 0
    else r.end - r.begin + 1

-- One more than the largest `int`.
abbrev pub int_limit : ℕ
int_limit = 2 ^ 31

module _ {Ctx : Type 0} where
  -- The bytes are copied for a region with contents only.
  unfoldable pub add_staterestore_region :
      (contents : List ℕ) (guest_addr region_size : ℕ) (prev_is_nullpage : Bool)
      → NativeHooksState Ctx
      → NativeHooksState Ctx
  add_staterestore_region contents guest_addr region_size prev_is_nullpage s =
      if prev_is_nullpage
      then record s {
        nullregions = s.nullregions ++ record { start = guest_addr; size = region_size } ∷ [];
      }
      else record s {
        content_regions =
            s.content_regions
            ++ record {
              guest_addr = guest_addr;
              size = region_size;
              contents = take region_size contents;
            }
              ∷ [];
      }

  -- The region of the `adjacent` pages before the cursor. The number of pages and `PAGE_SIZE` are
  -- `int`s, and so is their product.
  abbrev pub add_run :
      (contents : List ℕ) (begin cursor adjacent : ℕ) (is_null : Bool)
      → NativeHooksState Ctx
      → Run (NativeHooksState Ctx)
  add_run contents begin cursor adjacent is_null s = do
    check (ltb (adjacent * page_size) int_limit) Halt.int_overflow
    let region_size = adjacent * page_size
    ok (
        add_staterestore_region (drop (cursor - region_size) contents)
          (begin + cursor - region_size) region_size is_null s)

  -- The loop over the pages that are left, with what the page before was and how many pages of its
  -- kind there are up to it. There is at least one page, so that the loop ends behind a page. The
  -- cursor is an `int`.
  unfoldable pub cut_region :
      (pages_left : ℕ) (contents : List ℕ) (begin cursor adjacent : ℕ)
      (prev_is_nullpage : Option Bool)
      → NativeHooksState Ctx
      → Run (NativeHooksState Ctx)
  cut_region zero contents begin cursor adjacent none s = ok s
  cut_region zero contents begin cursor adjacent (some prev) s =
      add_run contents begin cursor adjacent prev s
  cut_region (suc k) contents begin cursor adjacent none s = do
    check (ltb (cursor + page_size) int_limit) Halt.int_overflow
    let is_null = all_zero (take page_size (drop cursor contents))
    cut_region k contents begin (cursor + page_size) adjacent (some is_null) s
  cut_region (suc k) contents begin cursor adjacent (some prev) s =
      let is_null = all_zero (take page_size (drop cursor contents)) in
      elim (same prev is_null) [
        | true ↦ (do
          check (ltb (cursor + page_size) int_limit) Halt.int_overflow
          cut_region k contents begin (cursor + page_size) (suc adjacent) (some is_null) s)
        | false ↦ (do
          s' ← add_run contents begin cursor adjacent prev s
          check (ltb (cursor + page_size) int_limit) Halt.int_overflow
          cut_region k contents begin (cursor + page_size) 1 (some is_null) s')
      ]

module _ {Uc Ctx : Type 0} (e : Engine Uc) (me : MemEngine Uc Ctx) where
  -- A region of whole pages; one that is not is read past the end of the buffer.
  unfoldable pub save_region :
      (size : ℕ) → MemRegion → NativeHooksState Ctx → Uc → Run (NativeHooksState Ctx × Uc)
  save_region size r s u = do
    check (size % page_size == 0) Halt.out_of_bounds
    let contents = (e.mem_read r.begin (zeroes size) u).1
    s' ← cut_region (size / page_size) contents r.begin 0 1 none s
    let protected = me.mem_protect r.begin size (without_write r.perms) u
    check (not (is_err_arg protected.0)) Halt.exit_error
    ok (s', protected.1)

  unfoldable pub save_regions :
      (mmio_region_starts : List ℕ)
      → List MemRegion
      → NativeHooksState Ctx
      → Uc
      → Run (NativeHooksState Ctx × Uc)
  save_regions mmio_region_starts [] s u = ok (s, u)
  save_regions mmio_region_starts (r ∷ rs) s u =
      let size = saved_size mmio_region_starts r in
      elim (size == 0) [
        | true ↦ save_regions mmio_region_starts rs s u
        | false ↦ (do
          saved ← save_region size r s u
          save_regions mmio_region_starts rs saved.0 saved.1)
      ]

  -- `hook_added` is the result of `uc_hook_add` for the hook on faults.
  unfoldable pub native_hooks_take_snapshot :
      (hook_added : UcErr) (mmio_region_starts : List ℕ) (curr_exit_at_hit_num : ℕ)
      → Uc
      → Run (NativeHooksState Ctx × Uc)
  native_hooks_take_snapshot hook_added mmio_region_starts curr_exit_at_hit_num u = do
    saved ←
        save_regions mmio_region_starts (me.mem_regions u)
          (record {
            curr_exit_at_hit_num = curr_exit_at_hit_num;
            uc_saved_context = me.context_save u;
            orig_regions = me.mem_regions u;
            content_regions = [];
            nullregions = [];
            restore_content_regions = [];
            restore_nullregions = [];
          })
          u
    check (is_ok hook_added) Halt.exit_error
    ok saved
