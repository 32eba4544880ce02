-- ===== src/UcSnapshot/Activated.antt =====
-- What the activation of a page in uc_snapshot.c adds to the regions to be restored.
use fuzzware_emulator.Prelude.{
  ℕ, ◌-◌, ◌*◌, ◌/◌, ◌≡◌, refl, Bool, true, ◌&&◌, ◌||◌, List, [], ◌∷◌, ◌++◌, some, All, arith, inl,
  inr, get_elem?, ◌==◌, add64,
}
use fuzzware_emulator.Tracing.{is_set}
use fuzzware_emulator.UcSnapshot.{
  ContentRegion, NullRegion, RestoreRegion, NativeHooksState, Joined, overlapping, extended,
  not_joined, page_size, page_of, in_range, find_content, find_null, activate_content,
  activate_null, with_content, with_null, activate_page_staterestore,
}
use fuzzware_emulator.UcSnapshot.Layout.{
  IsPaged, Within, IsLaidOut, in_range-Within, find_content-cases, find_null-cases,
}
use fuzzware_emulator.UcSnapshot.Backed.{
  IsBacked, on_page, covered, covered-append, Outcome, join_content-Outcome,
}
use fuzzware_emulator.UcSnapshot.Nulled.{
  IsNulled, covered_null, covered_null-append, covered_null-at, NullOutcome, join_null-Outcome,
}

All-append {ℓ κ} :
    {A : Type ℓ} (P : A → Type κ) (xs ys : List A) → All P xs → All P ys → All P (xs ++ ys)
All-append P [] ys px py = py
All-append P (x ∷ xs) ys px py = (px.0, All-append P xs ys px.1 py)

module _ {Ctx : Type 0} where
  -- The regions of a snapshot lie as they were saved, and the ones to be restored lie in them.
  pub record IsTracking (s : NativeHooksState Ctx) : Type 0 where
    pub laid_out : IsLaidOut s.content_regions
    pub null_paged :
        (i : ℕ) (r : NullRegion) → get_elem? s.nullregions i ≡ some r → IsPaged r.start r.size
    pub backed : All (IsBacked s.content_regions) s.restore_content_regions
    pub nulled : All (IsNulled s.nullregions) s.restore_nullregions

  -- Whether a restore will give the byte at an address back.
  abbrev pub restores : NativeHooksState Ctx → ℕ → Bool
  restores s a = covered s.restore_content_regions a || covered_null s.restore_nullregions a

  -- What is the same after a page has been activated.
  pub record SameSaved (s s' : NativeHooksState Ctx) : Type 0 where
    pub content : s'.content_regions ≡ s.content_regions
    pub null : s'.nullregions ≡ s.nullregions
    pub orig : s'.orig_regions ≡ s.orig_regions
    pub hits : s'.curr_exit_at_hit_num ≡ s.curr_exit_at_hit_num
    pub context : s'.uc_saved_context ≡ s.uc_saved_context

  same_saved :
      {s : NativeHooksState Ctx} {rs : List RestoreRegion} {ns : List NullRegion}
      → SameSaved s (record s { restore_content_regions = rs; restore_nullregions = ns })
  same_saved = record { content = refl; null = refl; orig = refl; hits = refl; context = refl }

  abbrev Activates : (page : ℕ) (s s' : NativeHooksState Ctx) → Type 0
  Activates page s s' =
      IsTracking s' × SameSaved s s' × ((a : ℕ) → restores s' a ≡ (restores s a || on_page page a))

  with_content-Activates :
      (q i : ℕ) (c : ContentRegion) (s : NativeHooksState Ctx) (j : Joined RestoreRegion)
      → (t : IsTracking s) → get_elem? s.content_regions i ≡ some c
      → Within c.guest_addr c.size (page_size * q)
      → Outcome s.content_regions t.laid_out (page_size * q) s.restore_content_regions j
      → Activates (page_size * q) s (with_content (page_size * q) i c s j).1
  with_content-Activates q i c s overlapping t at_i inside o =
      (t, same_saved, λ a. ground (arith, o a))
  with_content-Activates q i c s (extended rs) t at_i inside o = (
    record { laid_out = t.laid_out; null_paged = t.null_paged; backed = o.0; nulled = t.nulled },
    same_saved,
    λ a. ground (arith, o.1 a),
  )
  with_content-Activates q i c s not_joined t at_i inside o =
      let (p, n, start, size, low) = t.laid_out.paged i c at_i in
      let added : RestoreRegion = record {
        guest_addr = page_size * q;
        size = page_size;
        buffer = i;
        offset = page_size * q - c.guest_addr;
      } in
      let added_backed : IsBacked s.content_regions added = record {
        region = c;
        at = at_i;
        some_bytes = omega arith;
        pages = (q, 1, refl, refl);
        low = inside.0;
        high = omega (arith, start, size, inside.1);
        offset = omega (arith, inside.0);
      } in
      (
        record {
          laid_out = t.laid_out;
          null_paged = t.null_paged;
          backed =
              All-append (IsBacked s.content_regions) s.restore_content_regions (added ∷ [])
                t.backed (added_backed, tt);
          nulled = t.nulled;
        },
        same_saved,
        λ a. ground (arith, covered-append s.restore_content_regions (added ∷ []) a),
      )

  -- A page of a region that was all zeroes.
  page_nulls :
      (q i : ℕ) (r : NullRegion) (s : NativeHooksState Ctx)
      → IsTracking s
      → get_elem? s.nullregions i ≡ some r
      → Within r.start r.size (page_size * q)
      → (a : ℕ) → Within (page_size * q) page_size a
      → covered_null s.nullregions a ≡ true
  page_nulls q i r s t at_i inside a on =
      let (p, n, start, size, low) = t.null_paged i r at_i in
      covered_null-at s.nullregions i a r at_i
        (omega (arith, inside.0, on.0), omega (arith, start, size, inside.1, on.1))

  with_null-Activates :
      (q i : ℕ) (r : NullRegion) (s : NativeHooksState Ctx) (j : Joined NullRegion)
      → (t : IsTracking s) → get_elem? s.nullregions i ≡ some r
      → Within r.start r.size (page_size * q)
      → NullOutcome s.nullregions (page_size * q) s.restore_nullregions j
      → Activates (page_size * q) s (with_null (page_size * q) s j).1
  with_null-Activates q i r s overlapping t at_i inside o =
      (t, same_saved, λ a. ground (arith, o a))
  with_null-Activates q i r s (extended rs) t at_i inside o = (
    record { laid_out = t.laid_out; null_paged = t.null_paged; backed = t.backed; nulled = o.0 },
    same_saved,
    λ a. ground (arith, o.1 a),
  )
  with_null-Activates q i r s not_joined t at_i inside o =
      let (p, n, start, size, low) = t.null_paged i r at_i in
      let added : NullRegion = record { start = page_size * q; size = page_size } in
      let added_nulled : IsNulled s.nullregions added = record {
        some_bytes = omega arith;
        paged = (q, 1, refl, refl, omega (arith, start, size, inside.1, low));
        nulls = page_nulls q i r s t at_i inside;
      } in
      (
        record {
          laid_out = t.laid_out;
          null_paged = t.null_paged;
          backed = t.backed;
          nulled =
              All-append (IsNulled s.nullregions) s.restore_nullregions (added ∷ []) t.nulled
                (added_nulled, tt);
        },
        same_saved,
        λ a. ground (arith, covered_null-append s.restore_nullregions (added ∷ []) a),
      )

  -- Whether a region of the snapshot holds an address.
  abbrev pub is_saved : NativeHooksState Ctx → ℕ → Bool
  is_saved s a = is_set (find_content s.content_regions a) || is_set (find_null s.nullregions a)

  activate_content-Activates :
      (q i : ℕ) (c : ContentRegion) (s : NativeHooksState Ctx)
      → IsTracking s
      → get_elem? s.content_regions i ≡ some c
      → in_range c.guest_addr c.size (page_size * q) ≡ true
      → Activates (page_size * q) s (activate_content (page_size * q) i c s).1
  unfolding activate_content
  activate_content-Activates q i c s t at_i holds =
      let (p, n, start, size, low) = t.laid_out.paged i c at_i in
      let inside = in_range-Within c.guest_addr c.size (page_size * q) low holds in
      with_content-Activates q i c s _ t at_i inside (
        join_content-Outcome s.content_regions t.laid_out i q c s.restore_content_regions at_i
          inside t.backed)

  activate_null-Activates :
      (q i : ℕ) (r : NullRegion) (s : NativeHooksState Ctx)
      → IsTracking s
      → get_elem? s.nullregions i ≡ some r
      → in_range r.start r.size (page_size * q) ≡ true
      → Activates (page_size * q) s (activate_null (page_size * q) r s).1
  unfolding activate_null
  activate_null-Activates q i r s t at_i holds =
      let (p, n, start, size, low) = t.null_paged i r at_i in
      let inside = in_range-Within r.start r.size (page_size * q) low holds in
      with_null-Activates q i r s _ t at_i inside (
        join_null-Outcome s.nullregions q (page_size * q == r.start)
          (add64 (page_size * q) page_size == add64 r.start r.size) s.restore_nullregions
          (omega (arith, start, size, inside.1, low)) (page_nulls q i r s t at_i inside) t.nulled)

  -- If the saved regions are whole pages and those with contents do not overlap, the activation
  -- of a page keeps the regions to be restored within the saved ones, with the right offset
  -- into the saved contents, and keeps all else of the snapshot; what will be restored grows by
  -- exactly that page, if a region of the snapshot holds the start of the page.
  pub activate_page-Activates :
      (address : ℕ) (s : NativeHooksState Ctx)
      → IsTracking s
      → IsTracking (activate_page_staterestore address s).1
        × SameSaved s (activate_page_staterestore address s).1
        × ((a : ℕ)
            → restores (activate_page_staterestore address s).1 a
              ≡ (restores s a || (is_saved s (page_of address) && on_page (page_of address) a)))
  unfolding activate_page_staterestore
  activate_page-Activates address s t =
      elim (find_content-cases s.content_regions (page_of address)) [
        | inr (i, c, found, at_i, holds) ↦
            (let (t', same, all) =
                activate_content-Activates (address / page_size) i c s t at_i holds in
              rw (activate_page_staterestore, found) (t', same, λ a. ground (arith, all a)))
        | inl no_content ↦ elim (find_null-cases s.nullregions (page_of address)) [
          | inr (i, r, found, at_i, holds) ↦
              (let (t', same, all) =
                  activate_null-Activates (address / page_size) i r s t at_i holds in
                rw (activate_page_staterestore, no_content, found)
                  (t', same, λ a. ground (arith, all a)))
          | inl no_null ↦
              rw (activate_page_staterestore, no_content, no_null)
                (t, same_saved, λ a. ground arith)
        ]
      ]
