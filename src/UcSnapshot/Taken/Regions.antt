-- ===== src/UcSnapshot/Taken/Regions.antt =====
-- The regions of memory that native_hooks_take_snapshot of uc_snapshot.c saves, one after the other.
use fuzzware_emulator.Prelude.{
  ℕ, zero, suc, ◌+◌, ◌-◌, ◌*◌, ◌/◌, ◌≤◌, ◌<◌, ◌≡◌, refl, ap, ◌∙◌, Bool, true, false, ◌&&◌, ◌||◌,
  not, List, [], ◌∷◌, none, some, ok, arith, inl, inr, Bool-cases, leb, length, has, if◌then◌else◌,
}
use fuzzware_emulator.Engine.{Engine}
use fuzzware_emulator.UcSnapshot.{NativeHooksState, page_size}
use fuzzware_emulator.UcSnapshot.Memory.{
  MemEngine, MemRegion, IsMemory, IsReadable, has_write, without_write,
}
use fuzzware_emulator.UcSnapshot.Layout.{IsPaged}
use fuzzware_emulator.UcSnapshot.Taken.{
  int_limit, zeroes, saved_size, save_region, save_regions, ignored_state_restore_mem_addresses,
}
use fuzzware_emulator.UcSnapshot.Taken.Fits.{cut_pages, cut_region-fits}
use fuzzware_emulator.UcSnapshot.Taken.Cut.{saved_byte, cut_pages-records}
use fuzzware_emulator.UcSnapshot.Taken.Saved.{IsSaved}
use fuzzware_emulator.UcSnapshot.Taken.Pages.{IsRead, cut_pages-IsSaved}

abbrev pub holds : MemRegion → ℕ → Bool
holds r a = leb r.begin a && leb a r.end

abbrev pub held : List MemRegion → ℕ → Bool
held [] a = false
held (r ∷ rs) a = holds r a || held rs a

-- A region that a snapshot is to save.
abbrev pub is_state : List ℕ → MemRegion → Bool
is_state mmio_region_starts r =
    has_write r.perms
    && (not (has r.begin mmio_region_starts)
        && not (has r.begin ignored_state_restore_mem_addresses))

-- Whether an address lies in such a region.
abbrev pub is_kept : List ℕ → List MemRegion → ℕ → Bool
is_kept mmio_region_starts [] a = false
is_kept mmio_region_starts (r ∷ rs) a =
    (is_state mmio_region_starts r && holds r a) || is_kept mmio_region_starts rs a

-- The engine's map of the memory: mapped ranges of whole pages without overlap.
abbrev pub AreRegions : (mapped : ℕ → Bool) → List MemRegion → Type 0
AreRegions mapped [] = Unit {0}
AreRegions mapped (r ∷ rs) =
    (r.begin ≤ r.end)
    × IsPaged r.begin (r.end - r.begin + 1)
    × ((a : ℕ) → holds r a ≡ true → (mapped a ≡ true) × (held rs a ≡ false))
    × AreRegions mapped rs

-- The regions that are saved are smaller than 2 GiB.
abbrev pub AreShort : (mmio_region_starts : List ℕ) → List MemRegion → Type 0
AreShort mmio_region_starts [] = Unit {0}
AreShort mmio_region_starts (r ∷ rs) =
    (saved_size mmio_region_starts r < int_limit) × AreShort mmio_region_starts rs

length-zeroes : (n : ℕ) → length (zeroes n) ≡ n
length-zeroes zero = refl
length-zeroes (suc n) = ap suc (length-zeroes n)

is_kept-held :
    (mmio_region_starts : List ℕ) (rs : List MemRegion) (a : ℕ)
    → held rs a ≡ false
    → is_kept mmio_region_starts rs a ≡ false
is_kept-held mmio_region_starts [] a h = refl
is_kept-held mmio_region_starts (r ∷ rs) a h =
    ground (arith, h, is_kept-held mmio_region_starts rs a)

module _ {Uc Ctx : Type 0} (e : Engine Uc) (me : MemEngine Uc Ctx) (mem : IsMemory e me)
    (readable : IsReadable mem) (saved : ℕ → ℕ) where
  abbrev pub Reads : Uc → Type 0
  Reads u = (a : ℕ) → mem.peek a u ≡ saved a

  save_region-saves :
      (r : MemRegion) (s : NativeHooksState Ctx) (u : Uc)
      → r.begin ≤ r.end
      → IsPaged r.begin (r.end - r.begin + 1)
      → r.end - r.begin + 1 < int_limit
      → ((a : ℕ) → holds r a ≡ true → mem.mapped a ≡ true)
      → IsSaved e me mem saved s
      → Reads u
      → ((a : ℕ) → holds r a ≡ true → saved_byte s a ≡ none)
      → (s' : NativeHooksState Ctx) × (u' : Uc) × (save_region e me (r.end - r.begin + 1) r s u
          ≡ ok (s', u'))
        × IsSaved e me mem saved s'
        × Reads u'
        × ((a : ℕ) → saved_byte s' a ≡ (if holds r a then some (saved a) else saved_byte s a))
  unfolding save_region
  save_region-saves r s u order paged short mapped v reads fresh =
      let (p, n, start, whole, low) = paged in
      let size = r.end - r.begin + 1 in
      let len = length-zeroes size in
      let all : (k : ℕ) → k < length (zeroes size) → mem.mapped (r.begin + k) ≡ true =
        λ k below. mapped (r.begin + k) (ground (arith, below, len, order)) in
      let contents = (e.mem_read r.begin (zeroes size) u).1 in
      let long : length contents ≡ size = readable.length_read r.begin (zeroes size) u all ∙ len in
      let read : IsRead e me mem saved contents r.begin = record {
        paged = (p, n, start, omega (arith, long, whole), omega (arith, long, low));
        byte = λ j below. (
          readable.nth_read r.begin j (zeroes size) u all (omega (arith, below, long, len))
              ∙ reads (r.begin + j),
          all j (omega (arith, below, long, len)),
        );
      } in
      let pages : size / page_size ≡ n = omega (arith, whole) in
      let some_pages : 0 < n = omega (arith, whole) in
      let free : (a : ℕ) → r.begin ≤ a → a < r.begin + page_size * n → saved_byte s a ≡ none =
        λ a above below. fresh a (ground (arith, above, below, whole, order)) in
      let s' = cut_pages n contents r.begin 0 1 none s in
      let u' = (me.mem_protect r.begin size (without_write r.perms) u).1 in
      (
        s',
        u',
        ground (
          arith,
          whole,
          pages,
          cut_region-fits n contents r.begin s (omega (arith, whole, short)),
          readable.protect_mapped r.begin size (without_write r.perms) u
              (λ k below. all k (omega (arith, below, len))),
        ),
        cut_pages-IsSaved e me mem saved contents r.begin read n s v some_pages
            (omega (arith, long, whole)) free,
        λ a. mem.peek_protected a r.begin size (without_write r.perms) u ∙ reads a,
        λ a. elim (Bool-cases (holds r a)) [
          | inl inside ↦
              (let spot : r.begin + (a - r.begin) ≡ a = ground (arith, inside) in
                ground (
                  arith,
                  inside,
                  whole,
                  cut_pages-records n contents r.begin s a some_pages
                      (λ above below. free a above (omega (arith, below))),
                  (read.byte (a - r.begin) (ground (arith, inside, long))).0 ∙ ap saved spot,
                ))
          | inr outside ↦ ground (
            arith,
            outside,
            whole,
            cut_pages-records n contents r.begin s a some_pages
                (λ above below. free a above (omega (arith, below))),
          )
        ],
      )

  pub save_regions-saves :
      (mmio_region_starts : List ℕ) (rs : List MemRegion) (s : NativeHooksState Ctx) (u : Uc)
      → AreRegions mem.mapped rs
      → AreShort mmio_region_starts rs
      → IsSaved e me mem saved s
      → Reads u
      → ((a : ℕ) → held rs a ≡ true → saved_byte s a ≡ none)
      → (s' : NativeHooksState Ctx) × (u' : Uc) × (save_regions e me mmio_region_starts rs s u
          ≡ ok (s', u'))
        × IsSaved e me mem saved s'
        × Reads u'
        × ((a : ℕ)
            → saved_byte s' a
              ≡ (if is_kept mmio_region_starts rs a then some (saved a) else saved_byte s a))
  unfolding save_regions
  save_regions-saves mmio_region_starts [] s u regions short v reads fresh =
      (s, u, refl, v, reads, λ a. refl)
  save_regions-saves mmio_region_starts (r ∷ rs) s u regions short v reads fresh =
      let (order, paged, apart, others) = regions in
      elim (Bool-cases (is_state mmio_region_starts r)) [
        | inr left ↦
            (let size : saved_size mmio_region_starts r ≡ 0 =
                unfold saved_size in ground (arith, left) in
              let (s', u', run, v', reads', bytes) =
                save_regions-saves mmio_region_starts rs s u others short.1 v reads
                  (λ a h. fresh a (ground (arith, h))) in
              (s', u', rw (save_regions, size) run, v', reads', λ a. ground (arith, left, bytes a)))
        | inl state ↦
            (let size : saved_size mmio_region_starts r ≡ r.end - r.begin + 1 =
                unfold saved_size in ground (arith, state) in
              let (t, w, saves, vt, reads_t, bytes_t) =
                save_region-saves r s u order paged (omega (arith, size, short.0))
                  (λ a h. (apart a h).0) v reads (λ a h. fresh a (ground (arith, h))) in
              let (s', u', run, v', reads', bytes) =
                save_regions-saves mmio_region_starts rs t w others short.1 vt reads_t (λ a h.
                  elim (Bool-cases (holds r a)) [
                    | inl inside ↦ absurd (ground (arith, h, (apart a inside).1))
                    | inr outside ↦ ground (arith, h, outside, bytes_t a, fresh a)
                  ]) in
              (
                s',
                u',
                rw (save_regions, size) (ground (arith, order, saves, run)),
                v',
                reads',
                λ a. elim (Bool-cases (holds r a)) [
                  | inl inside ↦ ground (
                    arith,
                    state,
                    inside,
                    bytes a,
                    bytes_t a,
                    is_kept-held mmio_region_starts rs a (apart a inside).1,
                  )
                  | inr outside ↦ ground (arith, state, outside, bytes a, bytes_t a)
                ],
              ))
      ]
