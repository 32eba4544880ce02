-- ===== src/UcSnapshot/Taken/Pages.antt =====
-- The loop of native_hooks_take_snapshot of uc_snapshot.c over the pages of a region records runs
-- that are laid out as the restore asks.
use fuzzware_emulator.Prelude.{
  ℕ, zero, suc, ◌+◌, ◌-◌, ◌*◌, ◌≤◌, ◌<◌, ◌≡◌, refl, sym, subst, ap, ◌∙◌, Bool, true, false, List,
  none, some, arith, inl, inr, Bool-cases, ltb, length,
}
use fuzzware_emulator.Engine.{Engine}
use fuzzware_emulator.Input.{take, drop}
use fuzzware_emulator.UcSnapshot.{NativeHooksState, page_size}
use fuzzware_emulator.UcSnapshot.Memory.{MemEngine, IsMemory, nth}
use fuzzware_emulator.UcSnapshot.Layout.{IsPaged}
use fuzzware_emulator.UcSnapshot.Restored.{length-take-drop, nth-take, nth-drop}
use fuzzware_emulator.UcSnapshot.Taken.{all_zero, same}
use fuzzware_emulator.UcSnapshot.Taken.Fits.{run_added, cut_pages}
use fuzzware_emulator.UcSnapshot.Taken.Cut.{saved_byte, saved_byte-run_added, zero_page}
use fuzzware_emulator.UcSnapshot.Taken.Saved.{IsSaved, null-IsSaved, content-IsSaved}

module _ {Uc Ctx : Type 0} (e : Engine Uc) (me : MemEngine Uc Ctx) (mem : IsMemory e me)
    (saved : ℕ → ℕ) where
  -- The bytes that were read from a range of whole pages are those of the memory.
  pub record IsRead (contents : List ℕ) (begin : ℕ) : Type 0 where
    pub paged : IsPaged begin (length contents)
    pub byte :
        (j : ℕ)
        → j < length contents
        → (nth contents j ≡ saved (begin + j)) × (mem.mapped (begin + j) ≡ true)

  module _ (contents : List ℕ) (begin : ℕ) (read : IsRead contents begin) where
    -- The run of `adjacent` pages before page number `n`.
    run_added-IsSaved :
        (n adjacent : ℕ) (prev : Bool) (s : NativeHooksState Ctx)
        → IsSaved e me mem saved s
        → adjacent ≤ n
        → page_size * n ≤ length contents
        → (prev ≡ true
            → (j : ℕ) → page_size * n - adjacent * page_size ≤ j
            → j < page_size * n
            → nth contents j ≡ 0)
        → ((a : ℕ)
            → begin + page_size * n - adjacent * page_size ≤ a
            → a < begin + page_size * n
            → saved_byte s a ≡ none)
        → IsSaved e me mem saved (run_added contents begin (page_size * n) adjacent prev s)
    run_added-IsSaved n adjacent true s v fits long zeroes fresh =
        let (p, m, start, size, low) = read.paged in
        null-IsSaved e me mem saved (begin + page_size * n - adjacent * page_size)
          (adjacent * page_size) (drop (page_size * n - adjacent * page_size) contents) s v
          (
            p + n - adjacent,
            adjacent,
            omega (arith, start, fits),
            omega arith,
            omega (arith, low, fits, long),
          )
          (λ a inside.
            let spot : begin + (a - begin) ≡ a = omega (arith, inside, fits) in
            let (same_byte, on) = read.byte (a - begin) (omega (arith, inside, fits, long)) in
            (
              ap saved (sym spot)
                  ∙ sym same_byte
                  ∙ zeroes refl (a - begin) (omega (arith, inside, fits))
                      (omega (arith, inside, fits)),
              subst (λ x. mem.mapped x ≡ true) spot on,
            ))
    run_added-IsSaved n adjacent false s v fits long zeroes fresh =
        let (p, m, start, size, low) = read.paged in
        let skipped = page_size * n - adjacent * page_size in
        content-IsSaved e me mem saved (begin + page_size * n - adjacent * page_size)
          (adjacent * page_size) (drop skipped contents) s v
          (
            p + n - adjacent,
            adjacent,
            omega (arith, start, fits),
            omega arith,
            omega (arith, low, fits, long),
          )
          (λ a inside.
            ground (arith, fresh a (omega (arith, inside)) (omega (arith, inside, fits))))
          (length-take-drop (adjacent * page_size) skipped contents (omega (arith, fits, long)))
          (λ k low_k.
            let spot : begin + (skipped + k) ≡ begin + page_size * n - adjacent * page_size + k =
              omega (arith, fits) in
            let (same_byte, on) = read.byte (skipped + k) (omega (arith, low_k, fits, long)) in
            (
              nth-take (adjacent * page_size) k (drop skipped contents) low_k
                  ∙ nth-drop skipped k contents
                  ∙ same_byte
                  ∙ ap saved spot,
              subst (λ x. mem.mapped x ≡ true) spot on,
            ))

    cut_rest-IsSaved :
        (k n adjacent : ℕ) (prev : Bool) (s : NativeHooksState Ctx)
        → IsSaved e me mem saved s
        → adjacent ≤ n
        → page_size * (n + k) ≤ length contents
        → (prev ≡ true
            → (j : ℕ) → page_size * n - adjacent * page_size ≤ j
            → j < page_size * n
            → nth contents j ≡ 0)
        → ((a : ℕ)
            → begin + page_size * n - adjacent * page_size ≤ a
            → a < begin + page_size * (n + k)
            → saved_byte s a ≡ none)
        → IsSaved e me mem saved (cut_pages k contents begin (page_size * n) adjacent (some prev) s)
    unfolding cut_pages
    cut_rest-IsSaved zero n adjacent prev s v fits long zeroes fresh =
        run_added-IsSaved n adjacent prev s v fits (omega (arith, long)) zeroes
          (λ a low high. fresh a low (omega (arith, high)))
    cut_rest-IsSaved (suc k) n adjacent prev s v fits long zeroes fresh =
        let is_null = all_zero (take page_size (drop (page_size * n) contents)) in
        let next : page_size * suc n ≡ page_size * n + page_size = omega arith in
        elim (Bool-cases (same prev is_null)) [
          | inl alike ↦
              rw (cut_pages, alike)
                (subst
                  (λ c.
                    IsSaved e me mem saved
                      (cut_pages k contents begin c (suc adjacent) (some is_null) s))
                  next
                  (cut_rest-IsSaved k (suc n) (suc adjacent) is_null s v (omega (arith, fits))
                    (omega (arith, long))
                    (λ h j low high. elim (Bool-cases (ltb j (page_size * n))) [
                      | inl before ↦
                          zeroes (ground (arith, alike, h)) j (omega (arith, low))
                            (ground (arith, before))
                      | inr after ↦
                          zero_page contents (page_size * n) j h (ground (arith, after))
                            (omega (arith, high))
                    ])
                    (λ a low high. fresh a (omega (arith, low)) (omega (arith, high)))))
          | inr other ↦
              rw (cut_pages, other)
                (subst
                  (λ c. IsSaved e me mem saved (
                    cut_pages k contents begin c 1 (some is_null)
                      (run_added contents begin (page_size * n) adjacent prev s)))
                  next
                  (cut_rest-IsSaved k (suc n) 1 is_null
                    (run_added contents begin (page_size * n) adjacent prev s)
                    (run_added-IsSaved n adjacent prev s v fits (omega (arith, long)) zeroes
                      (λ a low high. fresh a low (omega (arith, high))))
                    (omega arith) (omega (arith, long))
                    (λ h j low high.
                      zero_page contents (page_size * n) j h (omega (arith, low))
                        (omega (arith, high)))
                    (λ a low high. ground (
                      arith,
                      saved_byte-run_added contents begin (page_size * n) adjacent prev s a
                          (omega (arith, fits)) zeroes
                          (λ below above. fresh a below (omega (arith, above))),
                      fresh a (omega (arith, low, fits)) (omega (arith, high)),
                    ))))
        ]

    -- A whole region that is cut up.
    pub cut_pages-IsSaved :
        (k : ℕ) (s : NativeHooksState Ctx)
        → IsSaved e me mem saved s
        → 0 < k
        → length contents ≡ page_size * k
        → ((a : ℕ) → begin ≤ a → a < begin + page_size * k → saved_byte s a ≡ none)
        → IsSaved e me mem saved (cut_pages k contents begin 0 1 none s)
    unfolding cut_pages
    cut_pages-IsSaved zero s v pages long fresh = absurd (omega arith)
    cut_pages-IsSaved (suc k) s v pages long fresh =
        cut_rest-IsSaved k 1 1 (all_zero (take page_size (drop 0 contents))) s v (omega arith)
          (omega (arith, long))
          (λ h j low high. zero_page contents 0 j h (omega arith) (omega (arith, high)))
          (λ a low high. fresh a (omega (arith, low)) (omega (arith, high)))
