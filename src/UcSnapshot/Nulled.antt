-- ===== src/UcSnapshot/Nulled.antt =====
-- The regions that uc_snapshot.c fills with zeroes lie in regions that were all zeroes, and the
-- activation of a page adds that page to them.
use fuzzware_emulator.Prelude.{
  ℕ, zero, suc, ◌+◌, ◌*◌, ◌≤◌, ◌<◌, ◌≡◌, refl, Bool, true, false, not, ◌&&◌, ◌||◌, List, [], ◌∷◌,
  ◌++◌, some, All, arith, inl, inr, Bool-cases, get_elem?, ltb, leb, ◌==◌, add64, sub64, u32_mod,
}
use fuzzware_emulator.UcSnapshot.{
  NullRegion, Joined, overlapping, extended, not_joined, past, page_size, in_range, join_null,
}
use fuzzware_emulator.UcSnapshot.Layout.{IsPaged, Within, in_range-Within}
use fuzzware_emulator.UcSnapshot.Backed.{on_page}

abbrev pub covered_null : List NullRegion → ℕ → Bool
covered_null [] a = false
covered_null (r ∷ rs) a = (leb r.start a && ltb a (r.start + r.size)) || covered_null rs a

pub covered_null-append :
    (rs qs : List NullRegion) (a : ℕ)
    → covered_null (rs ++ qs) a ≡ (covered_null rs a || covered_null qs a)
covered_null-append [] qs a = refl
covered_null-append (r ∷ rs) qs a = ground (arith, covered_null-append rs qs a)

pub covered_null-at :
    (ns : List NullRegion) (i a : ℕ) (r : NullRegion)
    → get_elem? ns i ≡ some r
    → Within r.start r.size a
    → covered_null ns a ≡ true
covered_null-at [] i a r at_i inside = absurd (ground (arith, at_i))
covered_null-at (n ∷ ns) zero a r at_i inside = ground (arith, at_i, inside.0, inside.1)
covered_null-at (n ∷ ns) (suc i) a r at_i inside =
    ground (arith, covered_null-at ns i a r at_i inside)

-- A range of whole pages within regions that were all zeroes.
pub record IsNulled (ns : List NullRegion) (r : NullRegion) : Type 0 where
  pub some_bytes : 0 < r.size
  pub paged : IsPaged r.start r.size
  pub nulls : (a : ℕ) → Within r.start r.size a → covered_null ns a ≡ true

module _ (ns : List NullRegion) where
  abbrev pub NullOutcome : (page : ℕ) → List NullRegion → Joined NullRegion → Type 0
  NullOutcome page rs overlapping = (a : ℕ) → on_page page a ≡ true → covered_null rs a ≡ true
  NullOutcome page rs (extended rs') =
      All (IsNulled ns) rs' × ((a : ℕ) → covered_null rs' a ≡ (covered_null rs a || on_page page a))
  NullOutcome page rs not_joined = Unit {0}

  NullOutcome-past :
      (page : ℕ) (r : NullRegion) (rs : List NullRegion) (j : Joined NullRegion)
      → IsNulled ns r
      → NullOutcome page rs j
      → NullOutcome page (r ∷ rs) (past r j)
  NullOutcome-past page r rs overlapping b o = λ a on. ground (arith, o a on)
  NullOutcome-past page r rs (extended rs') b o = ((b, o.0), λ a. ground (arith, o.1 a))
  NullOutcome-past page r rs not_joined b o = tt

  -- The page number `q` with the range that the page is to be joined to.
  append_page :
      (q : ℕ) (r : NullRegion)
      → page_size * q + page_size ≤ u32_mod
      → ((a : ℕ) → Within (page_size * q) page_size a → covered_null ns a ≡ true)
      → (add64 r.start r.size == page_size * q) ≡ true
      → IsNulled ns r
      → IsNulled ns (record r { size = add64 r.size page_size })
        × (r.start + r.size ≡ page_size * q)
        × (add64 r.size page_size ≡ r.size + page_size)
  append_page q r small page_null meets b =
      let (first, count, starts, counts, low) = b.paged in
      let ends : r.start + r.size ≡ page_size * q = ground (arith, meets, low) in
      let grown : add64 r.size page_size ≡ r.size + page_size = ground (arith, low) in
      (
        record {
          some_bytes = ground (arith, grown);
          paged = (
            first,
            suc count,
            starts,
            omega (arith, grown, counts),
            omega (arith, grown, ends, small),
          );
          nulls = λ a inside. elim (Bool-cases (ltb a (page_size * q))) [
            | inl old ↦ b.nulls a (inside.0, ground (arith, old, ends))
            | inr new ↦ page_null a (ground (arith, new), omega (arith, inside.1, grown, ends))
          ];
        },
        ends,
        grown,
      )

  prepend_page :
      (q : ℕ) (r : NullRegion)
      → page_size * q + page_size ≤ u32_mod
      → ((a : ℕ) → Within (page_size * q) page_size a → covered_null ns a ≡ true)
      → (add64 (page_size * q) page_size == r.start) ≡ true
      → IsNulled ns r
      → IsNulled ns (record r { start = sub64 r.start page_size; size = add64 r.size page_size })
        × (sub64 r.start page_size ≡ page_size * q)
        × (r.start ≡ page_size * q + page_size)
        × (add64 r.size page_size ≡ r.size + page_size)
  prepend_page q r small page_null meets b =
      let (first, count, starts, counts, low) = b.paged in
      let next : r.start ≡ page_size * q + page_size = ground (arith, meets, small) in
      let grown : add64 r.size page_size ≡ r.size + page_size = ground (arith, low) in
      let moved : sub64 r.start page_size ≡ page_size * q = ground (arith, next, small) in
      (
        record {
          some_bytes = ground (arith, grown);
          paged = (
            q,
            suc count,
            moved,
            omega (arith, grown, counts),
            omega (arith, moved, grown, next, low),
          );
          nulls = λ a inside. elim (Bool-cases (ltb a r.start)) [
            | inl new ↦ page_null a (omega (arith, inside.0, moved), ground (arith, new, next))
            | inr old ↦ b.nulls a (ground (arith, old), omega (arith, inside.1, moved, grown, next))
          ];
        },
        moved,
        next,
        grown,
      )

  pub join_null-Outcome :
      (q : ℕ) (is_first is_last : Bool) (rs : List NullRegion)
      → page_size * q + page_size ≤ u32_mod
      → ((a : ℕ) → Within (page_size * q) page_size a → covered_null ns a ≡ true)
      → All (IsNulled ns) rs
      → NullOutcome (page_size * q) rs (join_null (page_size * q) is_first is_last rs)
  unfolding join_null
  join_null-Outcome q is_first is_last [] small page_null nulled = tt
  join_null-Outcome q is_first is_last (r ∷ rs) small page_null nulled =
      let b = nulled.0 in
      elim (Bool-cases (in_range r.start r.size (page_size * q))) [
        | inl here ↦
            (let (first, count, starts, counts, low) = b.paged in
              let inside : Within r.start r.size (page_size * q) =
                in_range-Within r.start r.size (page_size * q) low here in
              let all : page_size * q + page_size ≤ r.start + r.size =
                omega (arith, starts, counts, inside.1) in
              rw here (λ a on. ground (arith, on, inside.0, all)))
        | inr elsewhere ↦
            elim (Bool-cases (not is_first && (add64 r.start r.size == page_size * q))) [
              | inl after ↦
                  (let (b', ends, grown) =
                      append_page q r small page_null (ground (arith, after)) b in
                    rw (elsewhere, after) ((b', nulled.1), λ a. ground (arith, ends, grown)))
              | inr not_after ↦
                  elim (Bool-cases (not is_last && (add64 (page_size * q) page_size == r.start))) [
                    | inl before ↦
                        (let (b', moved, next, grown) =
                            prepend_page q r small page_null (ground (arith, before)) b in
                          rw (elsewhere, not_after, before)
                            ((b', nulled.1), λ a. ground (arith, moved, next, grown)))
                    | inr not_before ↦
                        rw (elsewhere, not_after, not_before)
                          (NullOutcome-past (page_size * q) r rs _ b
                            (join_null-Outcome q is_first is_last rs small page_null nulled.1))
                  ]
            ]
      ]
