-- ===== src/Hooks/Blocks/Removal.antt =====
-- What remove_function_handler_hook_address leaves of the array of addresses.
use fuzzware_emulator.Prelude.{
  ℕ, zero, suc, ◌+◌, ◌-◌, ◌≤◌, ◌<◌, ◌≡◌, refl, some, ok, arith, ltb, ◌==◌, Bool-cases, inl, inr,
  if◌then◌else◌,
}
use fuzzware_emulator.Hooks.Blocks.{
  BlockHandlers, close_gap, find_loc, remove_function_handler_hook_address,
}
use fuzzware_emulator.Hooks.Blocks.Sorted.{IsAscending, count}

-- The array without its cell `i`.
abbrev skipping : (i : ℕ) → (ℕ → ℕ) → ℕ → ℕ
skipping i a j = if ltb j i then a j else a (suc j)

count-skipping_below : (i n v : ℕ) (a : ℕ → ℕ) → n ≤ i → count n v (skipping i a) ≡ count n v a
count-skipping_below i zero v a low = refl
count-skipping_below i (suc n) v a low = ground (arith, count-skipping_below i n v a)

count-skipping :
    (i n v : ℕ) (a : ℕ → ℕ)
    → i ≤ n
    → count n v (skipping i a) + (if a i == v then 1 else 0) ≡ count (suc n) v a
count-skipping i zero v a le = ground arith
count-skipping i (suc n) v a le =
    ground (arith, count-skipping i n v a, count-skipping_below i (suc n) v a)

count_cong : (n v : ℕ) (a b : ℕ → ℕ) → ((j : ℕ) → j < n → a j ≡ b j) → count n v a ≡ count n v b
count_cong zero v a b same = refl
count_cong (suc n) v a b same =
    ground (arith, same n, count_cong n v a b (λ j low. same j (omega (arith, low))))

count-close_gap :
    (i n v : ℕ) (a : ℕ → ℕ)
    → i < n
    → count (n - 1) v (close_gap i n a) + (if a i == v then 1 else 0) ≡ count n v a
count-close_gap i zero v a low = absurd (omega arith)
count-close_gap i (suc n) v a low = ground (
  arith,
  count_cong n v (close_gap i (suc n) a) (skipping i a) (λ j below. ground (arith, below)),
  count-skipping i n v a (omega (arith, low)),
)

IsAscending-close_gap :
    (i n : ℕ) (a : ℕ → ℕ) → i < n → IsAscending n a → IsAscending (n - 1) (close_gap i n a)
IsAscending-close_gap i n a low ascends p q pq qn =
    ground
      (arith, pq, qn, ascends p q, ascends p (suc q), ascends (suc p) (suc q), ascends (suc p) q)

find_loc-found :
    (k i address : ℕ) (a : ℕ → ℕ)
    → count i address a < count (k + i) address a
    → (j : ℕ) × (find_loc k i address a ≡ some j) × (j < k + i) × (a j ≡ address)
unfolding find_loc
find_loc-found zero i address a more = absurd (ground (arith, more))
find_loc-found (suc k) i address a more = elim (Bool-cases (a i == address)) [
  | inl hit ↦ (i, ground (arith, hit), omega arith, ground (arith, hit))
  | inr miss ↦
      (let shift : k + suc i ≡ suc k + i = omega arith in
        let (j, found, low, same) =
          find_loc-found k (suc i) address a (rw shift (ground (arith, miss, more))) in
        (j, ground (arith, miss, found), omega (arith, low), same))
]

module _ {S : Type 0} where
  pub remove_address-IsAscending :
      (address : ℕ) (b : BlockHandlers S)
      → IsAscending b.num_handlers b.bb_handler_locs
      → 0 < count b.num_handlers address b.bb_handler_locs
      → (b' : BlockHandlers S) × (remove_function_handler_hook_address address b ≡ ok b')
        × IsAscending b'.num_handlers b'.bb_handler_locs
        × ((v : ℕ)
            → count b'.num_handlers v b'.bb_handler_locs + (if address == v then 1 else 0)
              ≡ count b.num_handlers v b.bb_handler_locs)
  unfolding remove_function_handler_hook_address
  remove_address-IsAscending address b ascends present =
      let (j, found, low, same) =
        find_loc-found b.num_handlers 0 address b.bb_handler_locs (ground (arith, present)) in
      let below : j < b.num_handlers = omega (arith, low) in
      (
        record b {
          num_handlers = b.num_handlers - 1;
          bb_handler_locs = close_gap j b.num_handlers b.bb_handler_locs;
          num_attached = if b.num_handlers - 1 == 0 then b.num_attached - 1 else b.num_attached;
        },
        rw (remove_function_handler_hook_address, found) refl,
        IsAscending-close_gap j b.num_handlers b.bb_handler_locs below ascends,
        λ v. ground (arith, same, count-close_gap j b.num_handlers v b.bb_handler_locs below),
      )
