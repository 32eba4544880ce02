-- ===== src/UcSnapshot/Taken/Fits.antt =====
-- The `int` arithmetic of native_hooks_take_snapshot of uc_snapshot.c does not overflow for a region
-- below 2 GiB.
use fuzzware_emulator.Prelude.{
  ℕ, zero, suc, ◌+◌, ◌-◌, ◌*◌, ◌≤◌, ◌<◌, ◌≡◌, refl, Bool, true, false, List, Option, none, some, ok,
  arith, inl, inr, Bool-cases,
}
use fuzzware_emulator.Input.{take, drop}
use fuzzware_emulator.UcSnapshot.{NativeHooksState, page_size}
use fuzzware_emulator.UcSnapshot.Taken.{
  all_zero, same, add_staterestore_region, add_run, cut_region, int_limit,
}

module _ {Ctx : Type 0} where
  -- The same run of pages in unbounded numbers.
  abbrev pub run_added :
      (contents : List ℕ) (begin cursor adjacent : ℕ) (is_null : Bool)
      → NativeHooksState Ctx
      → NativeHooksState Ctx
  run_added contents begin cursor adjacent is_null s =
      add_staterestore_region (drop (cursor - adjacent * page_size) contents)
        (begin + cursor - adjacent * page_size) (adjacent * page_size) is_null s

  -- The same cutting in unbounded numbers.
  unfoldable pub cut_pages :
      (pages_left : ℕ) (contents : List ℕ) (begin cursor adjacent : ℕ) (prev : Option Bool)
      → NativeHooksState Ctx
      → NativeHooksState Ctx
  cut_pages zero contents begin cursor adjacent none s = s
  cut_pages zero contents begin cursor adjacent (some prev) s =
      run_added contents begin cursor adjacent prev s
  cut_pages (suc k) contents begin cursor adjacent none s =
      cut_pages k contents begin (cursor + page_size) adjacent
        (some (all_zero (take page_size (drop cursor contents)))) s
  cut_pages (suc k) contents begin cursor adjacent (some prev) s =
      let is_null = all_zero (take page_size (drop cursor contents)) in
      elim (same prev is_null) [
        | true ↦ cut_pages k contents begin (cursor + page_size) (suc adjacent) (some is_null) s
        | false ↦
            cut_pages k contents begin (cursor + page_size) 1 (some is_null)
              (run_added contents begin cursor adjacent prev s)
      ]

  add_run-fits :
      (contents : List ℕ) (begin cursor adjacent : ℕ) (prev : Bool) (s : NativeHooksState Ctx)
      → adjacent * page_size < int_limit
      → add_run contents begin cursor adjacent prev s
        ≡ ok (run_added contents begin cursor adjacent prev s)
  add_run-fits contents begin cursor adjacent prev s fits = ground (arith, fits)

  cut_region-fits_behind :
      (k : ℕ) (contents : List ℕ) (begin cursor adjacent : ℕ) (prev : Bool)
      (s : NativeHooksState Ctx)
      → adjacent * page_size ≤ cursor
      → cursor + k * page_size < int_limit
      → cut_region k contents begin cursor adjacent (some prev) s
        ≡ ok (cut_pages k contents begin cursor adjacent (some prev) s)
  unfolding cut_region cut_pages
  cut_region-fits_behind zero contents begin cursor adjacent prev s within fits =
      add_run-fits contents begin cursor adjacent prev s (omega (arith, within, fits))
  cut_region-fits_behind (suc k) contents begin cursor adjacent prev s within fits =
      let is_null = all_zero (take page_size (drop cursor contents)) in
      elim (Bool-cases (same prev is_null)) [
        | inl alike ↦
            rw (cut_region, cut_pages, alike)
              (ground (
                arith,
                fits,
                cut_region-fits_behind k contents begin (cursor + page_size) (suc adjacent) is_null
                    s (omega (arith, within)) (omega (arith, fits)),
              ))
        | inr other ↦
            (let s' = run_added contents begin cursor adjacent prev s in
              rw (cut_region, cut_pages, other)
                (rw
                  (add_run-fits contents begin cursor adjacent prev s (omega (arith, within, fits)))
                  (ground (
                    arith,
                    fits,
                    cut_region-fits_behind k contents begin (cursor + page_size) 1 is_null s'
                        (omega arith) (omega (arith, fits)),
                  ))))
      ]

  pub cut_region-fits :
      (k : ℕ) (contents : List ℕ) (begin : ℕ) (s : NativeHooksState Ctx)
      → k * page_size < int_limit
      → cut_region k contents begin 0 1 none s ≡ ok (cut_pages k contents begin 0 1 none s)
  unfolding cut_region cut_pages
  cut_region-fits zero contents begin s fits = refl
  cut_region-fits (suc k) contents begin s fits = ground (
    arith,
    fits,
    cut_region-fits_behind k contents begin page_size 1
        (all_zero (take page_size (drop 0 contents))) s (omega arith) (omega (arith, fits)),
  )
