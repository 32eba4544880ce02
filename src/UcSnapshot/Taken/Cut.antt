-- ===== src/UcSnapshot/Taken/Cut.antt =====
-- The regions into which native_hooks_take_snapshot of uc_snapshot.c cuts memory hold its bytes.
use fuzzware_emulator.Prelude.{
  ℕ, zero, suc, ◌+◌, ◌-◌, ◌*◌, ◌≤◌, ◌<◌, ◌≡◌, refl, sym, ap, ◌∙◌, Bool, true, false, ◌&&◌, List, [],
  ◌∷◌, ◌++◌, Option, none, some, arith, inl, inr, Bool-cases, ltb, leb, if◌then◌else◌,
}
use fuzzware_emulator.Input.{take, drop}
use fuzzware_emulator.UcSnapshot.{NativeHooksState, ContentRegion, NullRegion, page_size}
use fuzzware_emulator.UcSnapshot.Memory.{nth}
use fuzzware_emulator.UcSnapshot.Restored.{nth-take, nth-drop}
use fuzzware_emulator.UcSnapshot.Taken.Fits.{run_added, cut_pages}
use fuzzware_emulator.UcSnapshot.Taken.{all_zero, same, add_staterestore_region}

abbrev pub content_byte : List ContentRegion → ℕ → Option ℕ
content_byte [] a = none
content_byte (c ∷ cs) a =
    if leb c.guest_addr a && ltb a (c.guest_addr + c.size)
    then some (nth c.contents (a - c.guest_addr))
    else content_byte cs a

abbrev pub null_byte : List NullRegion → ℕ → Option ℕ
null_byte [] a = none
null_byte (r ∷ rs) a = if leb r.start a && ltb a (r.start + r.size) then some 0 else null_byte rs a

-- The byte that a snapshot has for an address, if any.
abbrev pub saved_byte : {Ctx : Type 0} → NativeHooksState Ctx → ℕ → Option ℕ
saved_byte s a = elim (content_byte s.content_regions a) [
  | some b ↦ some b
  | none ↦ null_byte s.nullregions a
]

content_byte-append :
    (cs : List ContentRegion) (c : ContentRegion) (a : ℕ)
    → content_byte (cs ++ c ∷ []) a
      ≡ elim (content_byte cs a) [ some b ↦ some b | none ↦ content_byte (c ∷ []) a ]
content_byte-append [] c a = refl
content_byte-append (d ∷ ds) c a = ground (arith, content_byte-append ds c a)

null_byte-append :
    (rs : List NullRegion) (r : NullRegion) (a : ℕ)
    → null_byte (rs ++ r ∷ []) a
      ≡ elim (null_byte rs a) [ some b ↦ some b | none ↦ null_byte (r ∷ []) a ]
null_byte-append [] r a = refl
null_byte-append (d ∷ ds) r a = ground (arith, null_byte-append ds r a)

nth-all_zero : (bs : List ℕ) (k : ℕ) → all_zero bs ≡ true → nth bs k ≡ 0
nth-all_zero [] k h = refl
nth-all_zero (b ∷ bs) zero h = ground (arith, h)
nth-all_zero (b ∷ bs) (suc k) h = nth-all_zero bs k (ground (arith, h))

pub zero_page :
    (contents : List ℕ) (cursor j : ℕ)
    → all_zero (take page_size (drop cursor contents)) ≡ true
    → cursor ≤ j
    → j < cursor + page_size
    → nth contents j ≡ 0
zero_page contents cursor j h low high =
    let spot : cursor + (j - cursor) ≡ j = omega (arith, low) in
    ap (nth contents) (sym spot)
    ∙ sym (nth-drop cursor (j - cursor) contents)
    ∙ sym (nth-take page_size (j - cursor) (drop cursor contents) (omega (arith, low, high)))
    ∙ nth-all_zero (take page_size (drop cursor contents)) (j - cursor) h

module _ {Ctx : Type 0} where
  -- A run of pages is saved with its bytes, if it is one of zeroes only when all of them are.
  pub saved_byte-run_added :
      (contents : List ℕ) (begin cursor adjacent : ℕ) (prev : Bool) (s : NativeHooksState Ctx)
      (a : ℕ)
      → adjacent * page_size ≤ cursor
      → (prev ≡ true
          → (j : ℕ) → cursor - adjacent * page_size ≤ j
          → j < cursor
          → nth contents j ≡ 0)
      → (begin + cursor - adjacent * page_size ≤ a → a < begin + cursor → saved_byte s a ≡ none)
      → saved_byte (run_added contents begin cursor adjacent prev s) a ≡ (
          if leb (begin + cursor - adjacent * page_size) a && ltb a (begin + cursor)
          then some (nth contents (a - begin))
          else saved_byte s a)
  unfolding add_staterestore_region
  saved_byte-run_added contents begin cursor adjacent true s a fits zeroes fresh =
      elim (Bool-cases (leb (begin + cursor - adjacent * page_size) a && ltb a (begin + cursor))) [
        | inl here ↦ ground (
          arith,
          here,
          fits,
          fresh,
          null_byte-append s.nullregions
              (record {
                start = begin + cursor - adjacent * page_size;
                size = adjacent * page_size;
              })
              a,
          zeroes refl (a - begin) (ground (arith, here, fits)) (ground (arith, here, fits)),
        )
        | inr elsewhere ↦ ground (
          arith,
          elsewhere,
          fits,
          null_byte-append s.nullregions
              (record {
                start = begin + cursor - adjacent * page_size;
                size = adjacent * page_size;
              })
              a,
        )
      ]
  saved_byte-run_added contents begin cursor adjacent false s a fits zeroes fresh =
      let added : ContentRegion = record {
        guest_addr = begin + cursor - adjacent * page_size;
        size = adjacent * page_size;
        contents = take (adjacent * page_size) (drop (cursor - adjacent * page_size) contents);
      } in
      elim (Bool-cases (leb (begin + cursor - adjacent * page_size) a && ltb a (begin + cursor))) [
        | inl here ↦
            (let spot : cursor - adjacent * page_size + (a - added.guest_addr) ≡ a - begin =
                ground (arith, here, fits) in
              ground (
                arith,
                here,
                fits,
                fresh,
                content_byte-append s.content_regions added a,
                nth-take (adjacent * page_size) (a - added.guest_addr)
                      (drop (cursor - adjacent * page_size) contents) (ground (arith, here, fits))
                    ∙ nth-drop (cursor - adjacent * page_size) (a - added.guest_addr) contents
                    ∙ ap (nth contents) spot,
              ))
        | inr elsewhere ↦
            ground (arith, elsewhere, fits, content_byte-append s.content_regions added a)
      ]

  cut_pages-saved_byte :
      (k : ℕ) (contents : List ℕ) (begin cursor adjacent : ℕ) (prev : Bool)
      (s : NativeHooksState Ctx) (a : ℕ)
      → adjacent * page_size ≤ cursor
      → (prev ≡ true
          → (j : ℕ) → cursor - adjacent * page_size ≤ j
          → j < cursor
          → nth contents j ≡ 0)
      → (begin + cursor - adjacent * page_size ≤ a
          → a < begin + cursor + k * page_size
          → saved_byte s a ≡ none)
      → saved_byte (cut_pages k contents begin cursor adjacent (some prev) s) a ≡ (
          if leb (begin + cursor - adjacent * page_size) a && ltb a (begin + cursor + k * page_size)
          then some (nth contents (a - begin))
          else saved_byte s a)
  unfolding cut_pages
  cut_pages-saved_byte zero contents begin cursor adjacent prev s a fits zeroes fresh = ground (
    arith,
    saved_byte-run_added contents begin cursor adjacent prev s a fits zeroes
        (λ low high. fresh low (omega (arith, high))),
  )
  cut_pages-saved_byte (suc k) contents begin cursor adjacent prev s a fits zeroes fresh =
      elim (Bool-cases (same prev (all_zero (take page_size (drop cursor contents))))) [
        | inl alike ↦
            (let is_null = all_zero (take page_size (drop cursor contents)) in
              let still : is_null ≡ true
                  → (j : ℕ) → cursor + page_size - suc adjacent * page_size ≤ j
                  → j < cursor + page_size
                  → nth contents j ≡ 0 =
                λ h j low high. elim (Bool-cases (ltb j cursor)) [
                  | inl before ↦
                      zeroes (ground (arith, alike, h)) j (omega (arith, low))
                        (ground (arith, before))
                  | inr after ↦ zero_page contents cursor j h (ground (arith, after)) high
                ] in
              rw (cut_pages, alike)
                (ground (
                  arith,
                  cut_pages-saved_byte k contents begin (cursor + page_size) (suc adjacent) is_null
                      s a (omega (arith, fits)) still
                      (λ low high. fresh (omega (arith, low)) (omega (arith, high))),
                )))
        | inr other ↦
            (let is_null = all_zero (take page_size (drop cursor contents)) in
              let run =
                saved_byte-run_added contents begin cursor adjacent prev s a fits zeroes
                  (λ low high. fresh low (omega (arith, high))) in
              rw (cut_pages, other)
                (ground (
                  arith,
                  fits,
                  run,
                  cut_pages-saved_byte k contents begin (cursor + page_size) 1 is_null
                      (run_added contents begin cursor adjacent prev s) a (omega arith)
                      (λ h j low high. zero_page contents cursor j h (omega (arith, low)) high)
                      (λ low high.
                        ground
                          (arith, fits, run, fresh (omega (arith, low)) (omega (arith, high)))),
                )))
      ]

  -- Cutting a region of one or more whole pages into runs records every byte of the region with
  -- its value, if none of these bytes was recorded before, and changes the record of no other
  -- address.
  pub cut_pages-records :
      (k : ℕ) (contents : List ℕ) (begin : ℕ) (s : NativeHooksState Ctx) (a : ℕ)
      → 0 < k
      → (begin ≤ a → a < begin + k * page_size → saved_byte s a ≡ none)
      → saved_byte (cut_pages k contents begin 0 1 none s) a ≡ (
          if leb begin a && ltb a (begin + k * page_size)
          then some (nth contents (a - begin))
          else saved_byte s a)
  unfolding cut_pages
  cut_pages-records zero contents begin s a pages fresh = absurd (omega arith)
  cut_pages-records (suc k) contents begin s a pages fresh = ground (
    arith,
    cut_pages-saved_byte k contents begin page_size 1 (all_zero (take page_size (drop 0 contents)))
        s a (omega arith)
        (λ h j low high. zero_page contents 0 j h (omega arith) (omega (arith, high)))
        (λ low high. fresh (omega (arith, low)) (omega (arith, high))),
  )
