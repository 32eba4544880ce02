-- ===== src/UcSnapshot.antt =====
-- harness/fuzzware_harness/native/uc_snapshot.c and .h: the snapshot of the registers and of the
-- writable memory, of which a restore writes back the pages that were written to since.
--
-- A buffer behind a pointer is named by the index of its region, so that a pointer into it is that
-- index with an offset. The parallel arrays of the regions are lists of records. Memory for them can
-- be had.
pub mod Memory
pub mod Layout
pub mod Backed
pub mod Nulled
pub mod Activated
pub mod Restored
pub mod Taken
pub mod Cycle
mod Tests
use fuzzware_emulator.Prelude.{
  ℕ, zero, suc, ◌+◌, ◌-◌, ◌*◌, ◌/◌, ◌%◌, ◌^◌, Bool, true, false, not, ◌&&◌, ◌||◌, List, [], ◌∷◌,
  ◌++◌, Option, none, some, Run, ok, halt, Halt, ◌>>=◌, ◌>>◌, check, ltb, leb, ◌==◌, if◌then◌else◌,
  add64, sub64,
}
use fuzzware_emulator.Engine.{Engine, UcErr, is_ok, value_bytes}
use fuzzware_emulator.Input.{take, drop}
use fuzzware_emulator.UcSnapshot.Memory.{MemEngine, MemRegion, has_write, without_write}

abbrev pub page_size : ℕ
page_size = 0x1000

-- A region with the bytes that it had.
pub record ContentRegion : Type 0 where
  pub guest_addr : ℕ
  pub size : ℕ
  pub contents : List ℕ

-- A region that was all zeroes.
pub record NullRegion : Type 0 where
  pub start : ℕ
  pub size : ℕ

-- A region to be written back, from an offset into the contents of a region.
pub record RestoreRegion : Type 0 where
  pub guest_addr : ℕ
  pub size : ℕ
  pub buffer : ℕ
  pub offset : ℕ

-- `struct NativeHooksState`, but for the handle of its hook.
pub record NativeHooksState (Ctx : Type 0) : Type 0 where
  pub curr_exit_at_hit_num : ℕ
  pub uc_saved_context : Ctx
  pub orig_regions : List MemRegion
  pub content_regions : List ContentRegion
  pub nullregions : List NullRegion
  pub restore_content_regions : List RestoreRegion
  pub restore_nullregions : List NullRegion

-- `guest_addr & ~(PAGE_SIZE-1)`
abbrev pub page_of : ℕ → ℕ
page_of a = page_size * (a / page_size)

abbrev pub in_range : (start size a : ℕ) → Bool
in_range start size a = leb start a && ltb a (add64 start size)

-- The first region that holds an address, with its index.
unfoldable pub find_content : List ContentRegion → ℕ → Option (ℕ × ContentRegion)
find_content [] a = none
find_content (c ∷ cs) a =
    if in_range c.guest_addr c.size a
    then some (0, c)
    else elim (find_content cs a) [ none ↦ none | some r ↦ some (suc r.0, r.1) ]

unfoldable pub find_null : List NullRegion → ℕ → Option NullRegion
find_null [] a = none
find_null (r ∷ rs) a = if in_range r.start r.size a then some r else find_null rs a

-- What the search for a region to extend by a page ends with.
pub data Joined (R : Type 0) : Type 0 where
  overlapping : Joined R
  extended : List R → Joined R
  not_joined : Joined R

abbrev pub past : {R : Type 0} → R → Joined R → Joined R
past r overlapping = overlapping
past r (extended rs) = extended (r ∷ rs)
past r not_joined = not_joined

unfoldable pub join_content :
    (page : ℕ) (is_first is_last : Bool) → List RestoreRegion → Joined RestoreRegion
join_content page is_first is_last [] = not_joined
join_content page is_first is_last (r ∷ rs) =
    let rest = join_content page is_first is_last rs in
    if in_range r.guest_addr r.size page
    then overlapping
    else if not is_first && (add64 r.guest_addr r.size == page)
    then extended (record r { size = add64 r.size page_size } ∷ rs)
    else if not is_last && (add64 page page_size == r.guest_addr)
    then extended (
        record r {
          guest_addr = sub64 r.guest_addr page_size;
          offset = r.offset - page_size;
          size = add64 r.size page_size;
        }
        ∷ rs)
    else past r rest

unfoldable pub join_null :
    (page : ℕ) (is_first is_last : Bool) → List NullRegion → Joined NullRegion
join_null page is_first is_last [] = not_joined
join_null page is_first is_last (r ∷ rs) =
    let rest = join_null page is_first is_last rs in
    if in_range r.start r.size page
    then overlapping
    else if not is_first && (add64 r.start r.size == page)
    then extended (record r { size = add64 r.size page_size } ∷ rs)
    else if not is_last && (add64 page page_size == r.start)
    then extended (record r { start = sub64 r.start page_size; size = add64 r.size page_size } ∷ rs)
    else past r rest

module _ {Ctx : Type 0} where
  -- What is done with the end of the search; a page next to no region becomes one of its own.
  abbrev pub with_content :
      (page i : ℕ)
      → ContentRegion
      → NativeHooksState Ctx
      → Joined RestoreRegion
      → Bool × NativeHooksState Ctx
  with_content page i c s overlapping = (false, s)
  with_content page i c s (extended rs) = (true, record s { restore_content_regions = rs })
  with_content page i c s not_joined = (
    true,
    record s {
      restore_content_regions =
          s.restore_content_regions
          ++ record {
            guest_addr = page;
            size = page_size;
            buffer = i;
            offset = page - c.guest_addr;
          }
            ∷ [];
    },
  )

  unfoldable pub activate_content :
      (page i : ℕ) → ContentRegion → NativeHooksState Ctx → Bool × NativeHooksState Ctx
  activate_content page i c s = with_content page i c s (
      join_content page (page == c.guest_addr) (add64 page page_size == add64 c.guest_addr c.size)
        s.restore_content_regions)

  abbrev pub with_null :
      (page : ℕ) → NativeHooksState Ctx → Joined NullRegion → Bool × NativeHooksState Ctx
  with_null page s overlapping = (false, s)
  with_null page s (extended rs) = (true, record s { restore_nullregions = rs })
  with_null page s not_joined = (
    true,
    record s {
      restore_nullregions = s.restore_nullregions ++ record { start = page; size = page_size } ∷ [];
    },
  )

  unfoldable pub activate_null :
      (page : ℕ) → NullRegion → NativeHooksState Ctx → Bool × NativeHooksState Ctx
  activate_null page r s = with_null page s (
      join_null page (page == r.start) (add64 page page_size == add64 r.start r.size)
        s.restore_nullregions)

  unfoldable pub activate_page_staterestore :
      (guest_addr : ℕ) → NativeHooksState Ctx → Bool × NativeHooksState Ctx
  activate_page_staterestore guest_addr s =
      elim (find_content s.content_regions (page_of guest_addr)) [
        | some found ↦ activate_content (page_of guest_addr) found.0 found.1 s
        | none ↦ elim (find_null s.nullregions (page_of guest_addr)) [
          | some r ↦ activate_null (page_of guest_addr) r s
          | none ↦ (false, s)
        ]
      ]

-- The permissions of the first region that holds a page, or 0.
unfoldable pub old_perms : List MemRegion → ℕ → ℕ
old_perms [] a = 0
old_perms (r ∷ rs) a = if leb r.begin a && leb a r.end then r.perms else old_perms rs a

-- The bytes behind a pointer; one into no region has none.
abbrev pub pointed : List ContentRegion → (buffer offset size : ℕ) → List ℕ
pointed [] buffer offset size = []
pointed (c ∷ cs) zero offset size = take size (drop offset c.contents)
pointed (c ∷ cs) (suc i) offset size = pointed cs i offset size

module _ {Uc Ctx : Type 0} (e : Engine Uc) (me : MemEngine Uc Ctx) where
  -- The result `true` makes the engine go on.
  unfoldable pub hook_invalid_write_on_demand_page_restore_handle :
      (address size value : ℕ) → NativeHooksState Ctx → Uc → Run (Bool × NativeHooksState Ctx × Uc)
  hook_invalid_write_on_demand_page_restore_handle address size value s u =
      let aligned = page_of address in
      let r = activate_page_staterestore aligned s in
      let perms = old_perms r.1.orig_regions aligned in
      if r.0 && has_write perms
      then (do
        let protected = me.mem_protect aligned page_size perms u
        check (is_ok protected.0) Halt.exit_error
        let written = e.mem_write address (value_bytes size value) protected.1
        check (is_ok written.0) Halt.exit_error
        ok (true, r.1, written.1))
      else ok (false, r.1, u)

  unfoldable pub write_back : List ContentRegion → List RestoreRegion → Uc → Uc
  write_back cs [] u = u
  write_back cs (r ∷ rs) u =
      write_back cs rs (e.mem_write r.guest_addr (pointed cs r.buffer r.offset r.size) u).1

  unfoldable pub zero_back : List NullRegion → Uc → Uc
  zero_back [] u = u
  zero_back (r ∷ rs) u = zero_back rs (me.mem_set r.start 0 r.size u).1

  -- With the counter of native_hooks.c that is set back.
  unfoldable pub native_hooks_restore_snapshot : NativeHooksState Ctx → Uc → ℕ × Uc
  native_hooks_restore_snapshot s u = (
    s.curr_exit_at_hit_num,
    zero_back s.restore_nullregions (
        write_back s.content_regions s.restore_content_regions
          (me.context_restore s.uc_saved_context u)),
  )
