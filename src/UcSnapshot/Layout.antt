-- ===== src/UcSnapshot/Layout.antt =====
-- How the regions of a snapshot in uc_snapshot.c lie in memory, and what the searches find.
use fuzzware_emulator.Prelude.{
  ℕ, suc, ◌+◌, ◌*◌, ◌≤◌, ◌<◌, ◌≡◌, refl, true, List, [], ◌∷◌, none, some, arith, inl, inr, ◌⊎◌,
  Bool-cases, get_elem?, u32_mod,
}
use fuzzware_emulator.UcSnapshot.{
  ContentRegion, NullRegion, page_size, in_range, find_content, find_null,
}

-- A range of whole pages below 2^32.
abbrev pub IsPaged : (start size : ℕ) → Type 0
IsPaged start size =
    (p n : ℕ) × (start ≡ page_size * p) × (size ≡ page_size * n) × (start + size ≤ u32_mod)

abbrev pub Within : (start size a : ℕ) → Type 0
Within start size a = (start ≤ a) × (a < start + size)

-- Content regions are ranges of whole pages, of which no two share an address.
pub record IsLaidOut (cs : List ContentRegion) : Type 0 where
  pub paged : (i : ℕ) (c : ContentRegion) → get_elem? cs i ≡ some c → IsPaged c.guest_addr c.size
  pub apart :
      (i j a : ℕ) (c d : ContentRegion)
      → get_elem? cs i ≡ some c
      → get_elem? cs j ≡ some d
      → Within c.guest_addr c.size a
      → Within d.guest_addr d.size a
      → i ≡ j

pub in_range-Within :
    (start size a : ℕ) → start + size ≤ u32_mod → in_range start size a ≡ true → Within start size a
in_range-Within start size a low h = ground (arith, h)

pub in_range_true :
    (start size a : ℕ) → start + size ≤ u32_mod → Within start size a → in_range start size a ≡ true
in_range_true start size a low h = ground (arith, h.0, h.1)

pub find_content-cases :
    (cs : List ContentRegion) (a : ℕ)
    → (find_content cs a ≡ none)
      ⊎ ((i : ℕ) × (c : ContentRegion) × (find_content cs a ≡ some (i, c))
          × (get_elem? cs i ≡ some c)
          × (in_range c.guest_addr c.size a ≡ true))
unfolding find_content
find_content-cases [] a = inl refl
find_content-cases (d ∷ ds) a = elim (Bool-cases (in_range d.guest_addr d.size a)) [
  | inl here ↦ inr (0, d, rw here refl, refl, here)
  | inr elsewhere ↦ elim (find_content-cases ds a) [
    | inl missing ↦ inl (rw (elsewhere, missing) refl)
    | inr (i, c, found, at, holds) ↦ inr (suc i, c, rw (elsewhere, found) refl, at, holds)
  ]
]

pub find_null-cases :
    (rs : List NullRegion) (a : ℕ)
    → (find_null rs a ≡ none)
      ⊎ ((i : ℕ) × (r : NullRegion) × (find_null rs a ≡ some r)
          × (get_elem? rs i ≡ some r)
          × (in_range r.start r.size a ≡ true))
unfolding find_null
find_null-cases [] a = inl refl
find_null-cases (d ∷ ds) a = elim (Bool-cases (in_range d.start d.size a)) [
  | inl here ↦ inr (0, d, rw here refl, refl, here)
  | inr elsewhere ↦ elim (find_null-cases ds a) [
    | inl missing ↦ inl (rw (elsewhere, missing) refl)
    | inr (i, r, found, at, holds) ↦ inr (suc i, r, rw (elsewhere, found) refl, at, holds)
  ]
]
