-- ===== src/UcSnapshot/Tests.antt =====
-- A concrete memory, and a snapshot of two of its pages.
use fuzzware_emulator.Prelude.{
  ℕ, zero, suc, ◌+◌, ◌-◌, ◌<◌, ◌≡◌, refl, sym, subst, ap, ◌∙◌, true, ◌&&◌, ◌||◌, List, [], ◌∷◌,
  some, none, ok, arith, ltb, leb, if◌then◌else◌, length, get_elem?,
}
use fuzzware_emulator.Engine.{Engine, err_ok, value_bytes}
use fuzzware_emulator.UcSnapshot.{
  NativeHooksState, ContentRegion, NullRegion, page_size, activate_page_staterestore,
  hook_invalid_write_on_demand_page_restore_handle, native_hooks_restore_snapshot, find_content,
  find_null, activate_content, activate_null, join_content, join_null, old_perms,
}
use fuzzware_emulator.UcSnapshot.Memory.{MemEngine, IsMemory, IsReadable, nth}
use fuzzware_emulator.UcSnapshot.Layout.{IsPaged}
use fuzzware_emulator.UcSnapshot.Backed.{on_page}
use fuzzware_emulator.UcSnapshot.Activated.{
  IsTracking, SameSaved, restores, is_saved, activate_page-Activates,
}
use fuzzware_emulator.UcSnapshot.Restored.Steps.{Steps, fault, start, next}
use fuzzware_emulator.UcSnapshot.Cycle.{restore-take_snapshot}
use fuzzware_emulator.UcSnapshot.Taken.{
  cut_region, native_hooks_take_snapshot, save_regions, save_region, saved_size,
  add_staterestore_region,
}
use fuzzware_emulator.UcSnapshot.Taken.Saved.{IsSaved}
use fuzzware_emulator.UcSnapshot.Taken.Regions.{AreRegions, AreShort, is_kept}
use fuzzware_emulator.UcSnapshot.Taken.Whole.{take_snapshot-saves}
use fuzzware_emulator.UcSnapshot.Taken.Cut.{saved_byte}

-- A memory of bytes by address, all of it mapped; the registers hold 0.
abbrev Ram : Type 0
Ram = ℕ → ℕ

abbrev bytes_at : Ram → ℕ → ℕ → List ℕ
bytes_at u a zero = []
bytes_at u a (suc n) = u a ∷ bytes_at u (a + 1) n

abbrev ram_engine : Engine Ram
ram_engine = record {
  reg_read = λ r u. 0;
  reg_write = λ r v u. u;
  daif = λ u. 0;
  basepri = λ u. 0;
  mem_read = λ a buf u. (err_ok, bytes_at u a (length buf));
  mem_write =
      λ b bs u. (err_ok, λ a. if leb b a && ltb a (b + length bs) then nth bs (a - b) else u a);
  emu_stop = λ u. u;
}

abbrev ram_extras : MemEngine Ram (Unit {0})
ram_extras = record {
  context_save = λ u. tt;
  context_restore = λ c u. u;
  mem_regions = λ u. record { begin = 0x1000; end = 0x2fff; perms = 3 } ∷ [];
  mem_protect = λ addr size perms u. (err_ok, u);
  mem_set = λ b v size u. (err_ok, λ a. if leb b a && ltb a (b + size) then v else u a);
}

abbrev ram_memory : IsMemory ram_engine ram_extras
ram_memory = record {
  peek = λ a u. u a;
  mapped = λ a. true;
  peek_written = λ a b bs u mapped. refl;
  peek_set = λ a b v size u mapped. refl;
  peek_protected = λ a addr size perms u. refl;
  peek_context = λ a c u. refl;
}

length-bytes_at : (u : Ram) (a n : ℕ) → length (bytes_at u a n) ≡ n
length-bytes_at u a zero = refl
length-bytes_at u a (suc n) = ap suc (length-bytes_at u (a + 1) n)

nth-bytes_at : (u : Ram) (a n k : ℕ) → k < n → nth (bytes_at u a n) k ≡ u (a + k)
nth-bytes_at u a zero k low = absurd (omega arith)
nth-bytes_at u a (suc n) zero low = ap u (omega arith)
nth-bytes_at u a (suc n) (suc k) low = nth-bytes_at u (a + 1) n k (omega arith) ∙ ap u (omega arith)

ram_memory-IsReadable : IsReadable ram_memory
ram_memory-IsReadable = record {
  length_read = λ a buf u mapped. length-bytes_at u a (length buf);
  nth_read = λ a k buf u mapped low. nth-bytes_at u a (length buf) k low;
  protect_mapped = λ addr size perms u mapped. refl;
}

abbrev fill : ℕ → ℕ → List ℕ
fill zero v = []
fill (suc n) v = v ∷ fill n v

length-fill : (n v : ℕ) → length (fill n v) ≡ n
length-fill zero v = refl
length-fill (suc n) v = ap suc (length-fill n v)

nth-fill : (n v k : ℕ) → k < n → nth (fill n v) k ≡ v
nth-fill zero v k low = absurd (omega arith)
nth-fill (suc n) v zero low = refl
nth-fill (suc n) v (suc k) low = nth-fill n v k (omega arith)

-- A page of sevens at 0x1000, and a page of zeroes behind it.
abbrev at_snapshot : Ram
at_snapshot a = if leb 0x1000 a && ltb a 0x2000 then 7 else 0

abbrev sevens : ContentRegion
sevens = record { guest_addr = 0x1000; size = page_size; contents = fill page_size 7 }

abbrev zero_page : NullRegion
zero_page = record { start = 0x2000; size = page_size }

abbrev two_pages : NativeHooksState (Unit {0})
two_pages = record {
  curr_exit_at_hit_num = 0;
  uc_saved_context = tt;
  orig_regions = record { begin = 0x1000; end = 0x2fff; perms = 3 } ∷ [];
  content_regions = sevens ∷ [];
  nullregions = zero_page ∷ [];
  restore_content_regions = [];
  restore_nullregions = [];
}

get_elem?-one {ℓ} :
    {A : Type ℓ} (x y : A) (i : ℕ) → get_elem? (x ∷ []) i ≡ some y → (i ≡ 0) × (y ≡ x)
get_elem?-one x y zero h = (refl, ground (arith, h))
get_elem?-one x y (suc i) h = absurd (ground (arith, h))

two_pages-IsTracking : IsTracking two_pages
two_pages-IsTracking = record {
  laid_out = record {
    paged = λ i c at_i.
        subst (λ (d : ContentRegion). IsPaged d.guest_addr d.size)
          (sym (get_elem?-one sevens c i at_i).1) (1, 1, refl, refl, omega arith);
    apart = λ i j a c d at_i at_j in_c in_d.
        omega (arith, (get_elem?-one sevens c i at_i).0, (get_elem?-one sevens d j at_j).0);
  };
  null_paged = λ i r at_i.
      subst (λ (d : NullRegion). IsPaged d.start d.size) (sym (get_elem?-one zero_page r i at_i).1)
        (2, 1, refl, refl, omega arith);
  backed = tt;
  nulled = tt;
}

-- The state after a fault on the first page.
abbrev first_page : NativeHooksState (Unit {0})
first_page = record two_pages {
  restore_content_regions =
      record { guest_addr = 0x1000; size = page_size; buffer = 0; offset = 0 } ∷ [];
}

abbrev after_fault : Ram
after_fault a =
    if leb 0x1004 a && ltb a (0x1004 + 2)
    then nth (value_bytes 2 99) (a - 0x1004)
    else at_snapshot a

handled :
    hook_invalid_write_on_demand_page_restore_handle ram_engine ram_extras 0x1004 2 99 two_pages
      at_snapshot
    ≡ ok (true, first_page, after_fault)
unfolding hook_invalid_write_on_demand_page_restore_handle activate_page_staterestore find_content
    find_null activate_content activate_null join_content join_null old_perms
handled = refl

one_fault : Steps ram_engine ram_extras two_pages at_snapshot first_page after_fault
one_fault =
    next two_pages two_pages first_page at_snapshot at_snapshot after_fault
      (start two_pages at_snapshot)
      (fault 0x1004 2 99 two_pages first_page at_snapshot after_fault (omega arith) handled)

taken :
    native_hooks_take_snapshot ram_engine ram_extras err_ok [] 0 at_snapshot
    ≡ ok (two_pages, at_snapshot)
unfolding native_hooks_take_snapshot save_regions save_region saved_size cut_region
    add_staterestore_region
taken = refl

one_region : AreRegions ram_memory.mapped (ram_extras.mem_regions at_snapshot)
one_region = (omega arith, (1, 2, refl, refl, omega arith), λ a h. (refl, refl), tt)

short_region : AreShort [] (ram_extras.mem_regions at_snapshot)
unfolding saved_size
short_region = (omega arith, tt)

restore-take_snapshot_example :
    (native_hooks_restore_snapshot ram_engine ram_extras first_page after_fault).1 0x1005
    ≡ at_snapshot 0x1005
restore-take_snapshot_example =
    restore-take_snapshot ram_engine ram_extras ram_memory ram_memory-IsReadable [] 0 two_pages
      first_page at_snapshot at_snapshot after_fault 0x1005 one_region short_region taken one_fault

activate_page_example :
    IsTracking (activate_page_staterestore 0x1004 two_pages).1
    × SameSaved two_pages (activate_page_staterestore 0x1004 two_pages).1
    × ((a : ℕ)
        → restores (activate_page_staterestore 0x1004 two_pages).1 a
          ≡ (restores two_pages a || (is_saved two_pages 0x1000 && on_page 0x1000 a)))
activate_page_example = activate_page-Activates 0x1004 two_pages two_pages-IsTracking

take_snapshot_example :
    (s : NativeHooksState (Unit {0})) × (u : Ram) × (native_hooks_take_snapshot ram_engine
        ram_extras err_ok [] 0 at_snapshot
      ≡ ok (s, u))
    × IsSaved ram_engine ram_extras ram_memory at_snapshot s
    × ((a : ℕ) → u a ≡ at_snapshot a)
    × ((a : ℕ)
        → saved_byte s a ≡ (
            if is_kept [] (ram_extras.mem_regions at_snapshot) a
            then some (at_snapshot a)
            else none))
take_snapshot_example =
    take_snapshot-saves ram_engine ram_extras ram_memory ram_memory-IsReadable [] 0 at_snapshot
      one_region short_region
