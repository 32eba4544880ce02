-- ===== src/UcSnapshot/Backed.antt =====
-- The regions to be written back by uc_snapshot.c stay within the contents that were saved, and the
-- activation of a page adds that page to them.
use fuzzware_emulator.Prelude.{
  ℕ, suc, ◌+◌, ◌-◌, ◌*◌, ◌≤◌, ◌<◌, ◌≡◌, refl, Bool, true, false, not, ◌&&◌, ◌||◌, List, [], ◌∷◌,
  ◌++◌, some, All, arith, inl, inr, Bool-cases, get_elem?, ltb, leb, ◌==◌, add64, sub64,
}
use fuzzware_emulator.UcSnapshot.{
  ContentRegion, RestoreRegion, Joined, overlapping, extended, not_joined, past, page_size,
  in_range, join_content,
}
use fuzzware_emulator.UcSnapshot.Layout.{Within, IsLaidOut, in_range-Within}

-- A region to be written back lies in the saved region of its buffer, at its offset.
pub record IsBacked (cs : List ContentRegion) (r : RestoreRegion) : Type 0 where
  pub region : ContentRegion
  pub at : get_elem? cs r.buffer ≡ some region
  pub some_bytes : 0 < r.size
  pub pages : (p n : ℕ) × (r.guest_addr ≡ page_size * p) × (r.size ≡ page_size * n)
  pub low : region.guest_addr ≤ r.guest_addr
  pub high : r.guest_addr + r.size ≤ region.guest_addr + region.size
  pub offset : r.offset + region.guest_addr ≡ r.guest_addr

abbrev pub on_page : (page a : ℕ) → Bool
on_page page a = leb page a && ltb a (page + page_size)

-- Whether one of the regions holds an address.
abbrev pub covered : List RestoreRegion → ℕ → Bool
covered [] a = false
covered (r ∷ rs) a = (leb r.guest_addr a && ltb a (r.guest_addr + r.size)) || covered rs a

pub covered-append :
    (rs qs : List RestoreRegion) (a : ℕ) → covered (rs ++ qs) a ≡ (covered rs a || covered qs a)
covered-append [] qs a = refl
covered-append (r ∷ rs) qs a = ground (arith, covered-append rs qs a)

module _ (cs : List ContentRegion) (laid_out : IsLaidOut cs) where
  -- A page of a content region, which is in the regions already, or is added to one of them, or is
  -- next to none.
  abbrev pub Outcome : (page : ℕ) → List RestoreRegion → Joined RestoreRegion → Type 0
  Outcome page rs overlapping = (a : ℕ) → on_page page a ≡ true → covered rs a ≡ true
  Outcome page rs (extended rs') =
      All (IsBacked cs) rs' × ((a : ℕ) → covered rs' a ≡ (covered rs a || on_page page a))
  Outcome page rs not_joined = Unit {0}

  Outcome-past :
      (page : ℕ) (r : RestoreRegion) (rs : List RestoreRegion) (j : Joined RestoreRegion)
      → IsBacked cs r
      → Outcome page rs j
      → Outcome page (r ∷ rs) (past r j)
  Outcome-past page r rs overlapping b o = λ a on. ground (arith, o a on)
  Outcome-past page r rs (extended rs') b o = ((b, o.0), λ a. ground (arith, o.1 a))
  Outcome-past page r rs not_joined b o = tt

  same_region :
      (i a : ℕ) (c : ContentRegion) (r : RestoreRegion) (b : IsBacked cs r)
      → get_elem? cs i ≡ some c
      → Within c.guest_addr c.size a
      → Within b.region.guest_addr b.region.size a
      → b.region ≡ c
  same_region i a c r b at_i inside inside' =
      ground (arith, at_i, b.at, laid_out.apart i r.buffer a c b.region at_i b.at inside inside')

  -- A region whose neighbouring page is in the same content region can be extended by that page.
  append_page :
      (i q : ℕ) (c : ContentRegion) (r : RestoreRegion)
      → get_elem? cs i ≡ some c
      → Within c.guest_addr c.size (page_size * q)
      → (page_size * q == c.guest_addr) ≡ false
      → (add64 r.guest_addr r.size == page_size * q) ≡ true
      → IsBacked cs r
      → IsBacked cs (record r { size = add64 r.size page_size })
        × (r.guest_addr + r.size ≡ page_size * q)
        × (add64 r.size page_size ≡ r.size + page_size)
  append_page i q c r at_i inside inner meets b =
      let (p, n, start, size, low) = laid_out.paged i c at_i in
      let (p', n', start', size', low') = laid_out.paged r.buffer b.region b.at in
      let ends : r.guest_addr + r.size ≡ page_size * q = ground (arith, meets, b.high, low') in
      let same : b.region ≡ c =
        same_region i (page_size * q - 1) c r b at_i (ground (arith, inside.0, inside.1, inner))
          (ground (arith, ends, b.some_bytes, b.low, b.high)) in
      let room : page_size * q + page_size ≤ c.guest_addr + c.size =
        omega (arith, start, size, inside.1) in
      let grown : add64 r.size page_size ≡ r.size + page_size = ground (arith, room, low, ends) in
      (
        record {
          region = c;
          at = rw⁻¹ same b.at;
          some_bytes = ground (arith, grown);
          pages =
              let (first, count, starts, counts) = b.pages in
              (first, suc count, starts, omega (arith, grown, counts));
          low = rw⁻¹ same b.low;
          high = omega (arith, grown, ends, room);
          offset = rw⁻¹ same b.offset;
        },
        ends,
        grown,
      )

  prepend_page :
      (i q : ℕ) (c : ContentRegion) (r : RestoreRegion)
      → get_elem? cs i ≡ some c
      → Within c.guest_addr c.size (page_size * q)
      → (add64 (page_size * q) page_size == add64 c.guest_addr c.size) ≡ false
      → (add64 (page_size * q) page_size == r.guest_addr) ≡ true
      → IsBacked cs r
      → IsBacked cs (record r {
        guest_addr = sub64 r.guest_addr page_size;
        offset = r.offset - page_size;
        size = add64 r.size page_size;
      })
        × (sub64 r.guest_addr page_size ≡ page_size * q)
        × (r.guest_addr ≡ page_size * q + page_size)
        × (add64 r.size page_size ≡ r.size + page_size)
  prepend_page i q c r at_i inside inner meets b =
      let (p, n, start, size, low) = laid_out.paged i c at_i in
      let (p', n', start', size', low') = laid_out.paged r.buffer b.region b.at in
      let next : r.guest_addr ≡ page_size * q + page_size = ground (arith, meets, inside.1, low) in
      let room : page_size * q + page_size < c.guest_addr + c.size =
        ground (arith, start, size, inside.1, inner, low) in
      let same : b.region ≡ c =
        same_region i (page_size * q + page_size) c r b at_i (omega (arith, inside.0), room)
          (ground (arith, next, b.some_bytes, b.low, b.high)) in
      let grown : add64 r.size page_size ≡ r.size + page_size = ground (arith, low', b.high) in
      let moved : sub64 r.guest_addr page_size ≡ page_size * q = ground (arith, next, room, low) in
      let offset : r.offset + c.guest_addr ≡ r.guest_addr = rw⁻¹ same b.offset in
      (
        record {
          region = c;
          at = rw⁻¹ same b.at;
          some_bytes = ground (arith, grown);
          pages =
              let (first, count, starts, counts) = b.pages in
              (q, suc count, moved, omega (arith, grown, counts));
          low = omega (arith, moved, inside.0);
          high =
              let high : r.guest_addr + r.size ≤ c.guest_addr + c.size = rw⁻¹ same b.high in
              omega (arith, moved, grown, next, high);
          offset = omega (arith, moved, next, offset, inside.0);
        },
        moved,
        next,
        grown,
      )

  pub join_content-Outcome :
      (i q : ℕ) (c : ContentRegion) (rs : List RestoreRegion)
      → get_elem? cs i ≡ some c
      → Within c.guest_addr c.size (page_size * q)
      → All (IsBacked cs) rs
      → Outcome (page_size * q) rs (
          join_content
            (page_size * q)
            (page_size * q == c.guest_addr)
            (add64 (page_size * q) page_size == add64 c.guest_addr c.size)
            rs)
  unfolding join_content
  join_content-Outcome i q c [] at_i inside backed = tt
  join_content-Outcome i q c (r ∷ rs) at_i inside backed =
      let b = backed.0 in
      let (p', n', start', size', low') = laid_out.paged r.buffer b.region b.at in
      elim (Bool-cases (in_range r.guest_addr r.size (page_size * q))) [
        | inl here ↦
            (let (first, count, starts, counts) = b.pages in
              let inside' : Within r.guest_addr r.size (page_size * q) =
                in_range-Within r.guest_addr r.size (page_size * q) (omega (arith, low', b.high))
                  here in
              let all : page_size * q + page_size ≤ r.guest_addr + r.size =
                omega (arith, starts, counts, inside'.1) in
              rw here (λ a on. ground (arith, on, inside'.0, all)))
        | inr elsewhere ↦
            elim (Bool-cases (
              not (page_size * q == c.guest_addr)
              && (add64 r.guest_addr r.size == page_size * q))) [
                | inl after ↦
                    (let (b', ends, grown) =
                        append_page i q c r at_i inside (ground (arith, after))
                          (ground (arith, after)) b in
                      rw (elsewhere, after) ((b', backed.1), λ a. ground (arith, ends, grown)))
                | inr not_after ↦
                    elim (Bool-cases (
                      not (add64 (page_size * q) page_size == add64 c.guest_addr c.size)
                      && (add64 (page_size * q) page_size == r.guest_addr))) [
                        | inl before ↦
                            (let (b', moved, next, grown) =
                                prepend_page i q c r at_i inside (ground (arith, before))
                                  (ground (arith, before)) b in
                              rw (elsewhere, not_after, before)
                                ((b', backed.1), λ a. ground (arith, moved, next, grown)))
                        | inr not_before ↦
                            rw (elsewhere, not_after, not_before)
                              (Outcome-past (page_size * q) r rs _ b
                                (join_content-Outcome i q c rs at_i inside backed.1))
                      ]
              ]
      ]
