-- ===== src/Hooks/Blocks/Sorted.antt =====
-- The sort of register_cond_py_handler_hook.
use fuzzware_emulator.Prelude.{
  ℕ, zero, suc, ◌+◌, ◌-◌, ◌≤◌, ◌<◌, ◌≡◌, refl, sym, subst, ◌∙◌, arith, ◌==◌, if◌then◌else◌, update,
}
use fuzzware_emulator.Hooks.Blocks.{swap_if_greater, sort_row, sort_rows}

-- The first `n` cells ascend.
abbrev pub IsAscending : (n : ℕ) → (ℕ → ℕ) → Type 0
IsAscending n a = (p q : ℕ) → p ≤ q → q < n → a p ≤ a q

-- No cell below `n` holds more than `top`.
abbrev IsTop : (n : ℕ) → (ℕ → ℕ) → ℕ → Type 0
IsTop n a top = (p : ℕ) → p < n → a p ≤ top

-- How often a value stands below `n`.
abbrev pub count : (n v : ℕ) → (ℕ → ℕ) → ℕ
count zero v a = 0
count (suc n) v a = (if a n == v then 1 else 0) + count n v a

count-update_above : (n i v x : ℕ) (a : ℕ → ℕ) → n ≤ i → count n v (update a i x) ≡ count n v a
count-update_above zero i v x a above = refl
count-update_above (suc n) i v x a above = ground (arith, count-update_above n i v x a)

count-update :
    (n i v x : ℕ) (a : ℕ → ℕ)
    → i < n
    → count n v (update a i x) + (if a i == v then 1 else 0)
      ≡ count n v a + (if x == v then 1 else 0)
count-update zero i v x a low = absurd (omega arith)
count-update (suc n) i v x a low =
    ground (arith, count-update n i v x a, count-update_above n i v x a)

count-swap_if_greater :
    (n i j v : ℕ) (a : ℕ → ℕ) → i < n → j < n → count n v (swap_if_greater i j a) ≡ count n v a
unfolding swap_if_greater
count-swap_if_greater n i j v a below_i below_j =
    ground (
      arith,
      count-update n i v (a j) a below_i,
      count-update n j v (a i) (update a i (a j)) below_j,
    )

count-sort_row :
    (n i k v : ℕ) (a : ℕ → ℕ) → i < n → k ≤ n → count n v (sort_row i k a) ≡ count n v a
unfolding sort_row
count-sort_row n i zero v a low bounded = refl
count-sort_row n i (suc j) v a low bounded =
    count-swap_if_greater n i j v (sort_row i j a) low (omega arith)
    ∙ count-sort_row n i j v a low (omega arith)

pub count-sort_rows : (n k v : ℕ) (a : ℕ → ℕ) → k ≤ n → count n v (sort_rows n k a) ≡ count n v a
unfolding sort_rows
count-sort_rows n zero v a bounded = refl
count-sort_rows n (suc i) v a bounded =
    count-sort_row n i n v (sort_rows n i a) (omega arith) (omega arith)
    ∙ count-sort_rows n i v a (omega arith)

-- The first round brings a greatest value to the front.
first_row-IsTop :
    (n k : ℕ) (a : ℕ → ℕ) → 0 < n → k ≤ n → IsTop k (sort_row 0 k a) (sort_row 0 k a 0)
unfolding sort_row swap_if_greater
first_row-IsTop n zero a some bounded p low = absurd (omega arith)
first_row-IsTop n (suc j) a some bounded p low =
    ground (arith, first_row-IsTop n j a some (omega arith) p)

-- Before the last of its steps among the cells below, a round keeps these in order and the cell
-- before its own greatest.
record Inserting (n i j : ℕ) (b : ℕ → ℕ) : Type 0 where
  ascends : IsAscending i b
  passed : IsTop j b (b i)
  top : IsTop n b (b (i - 1))

insert_step :
    (n i j : ℕ) (b : ℕ → ℕ)
    → suc j < i
    → i < n
    → Inserting n i j b
    → Inserting n i (suc j) (swap_if_greater i j b)
unfolding swap_if_greater
insert_step n i j b low bounded inv = record {
  ascends = λ p q le lt.
      ground (arith, inv.ascends p q, inv.ascends p j, inv.ascends j q, inv.passed p, inv.passed q);
  passed = λ p lt. ground (arith, inv.passed p);
  top = λ p lt.
      ground (arith, inv.top p lt, inv.top i bounded, inv.top j (omega (arith, low, bounded)));
}

sort_row-Inserting :
    (n i j : ℕ) (a : ℕ → ℕ) → j < i → i < n → Inserting n i 0 a → Inserting n i j (sort_row i j a)
unfolding sort_row
sort_row-Inserting n i zero a low bounded start = start
sort_row-Inserting n i (suc j) a low bounded start =
    insert_step n i j (sort_row i j a) low bounded
      (sort_row-Inserting n i j a (omega arith) bounded start)

-- After its steps among the cells below, a round has the cells up to its own in order, the last of
-- them greatest.
record Settled (n i : ℕ) (b : ℕ → ℕ) : Type 0 where
  ascends : IsAscending (suc i) b
  top : IsTop n b (b i)

last_step :
    (n i : ℕ) (b : ℕ → ℕ)
    → suc i < n
    → Inserting n (suc i) i b
    → Settled n (suc i) (swap_if_greater (suc i) i b)
unfolding swap_if_greater
last_step n i b bounded inv = record {
  ascends = λ p q le lt. ground (
    arith,
    inv.ascends p q,
    inv.ascends p i,
    inv.passed p,
    inv.passed q,
    inv.top (suc i) bounded,
  );
  top = λ p lt. ground (arith, inv.top p lt, inv.top (suc i) bounded);
}

swap_if_greater_done : (n i j : ℕ) (b : ℕ → ℕ) → j < n → Settled n i b → swap_if_greater i j b ≡ b
unfolding swap_if_greater
swap_if_greater_done n i j b low settled = ground (arith, settled.top j low)

sort_row_done :
    (n i d : ℕ) (a : ℕ → ℕ)
    → d + i ≤ n
    → Settled n i (sort_row i i a)
    → Settled n i (sort_row i (d + i) a)
unfolding sort_row
sort_row_done n i zero a bounded settled =
    let same : i ≡ 0 + i = omega arith in subst (λ k. Settled n i (sort_row i k a)) same settled
sort_row_done n i (suc d) a bounded settled =
    let rest = sort_row_done n i d a (omega arith) settled in
    let next : suc (d + i) ≡ suc d + i = omega arith in
    subst (λ k. Settled n i (sort_row i k a)) next
      (subst (Settled n i)
        (sym (swap_if_greater_done n i (d + i) (sort_row i (d + i) a) (omega arith) rest)) rest)

sort_row-Settled :
    (n i : ℕ) (a : ℕ → ℕ) → suc i < n → Settled n i a → Settled n (suc i) (sort_row (suc i) n a)
unfolding sort_row
sort_row-Settled n i a bounded settled =
    subst (λ k. Settled n (suc i) (sort_row (suc i) k a)) (omega (arith, bounded))
      (sort_row_done n (suc i) (n - suc i) a (omega arith) (
        last_step n i (sort_row (suc i) i a) bounded (
          sort_row-Inserting n (suc i) i a (omega arith) bounded (record {
            ascends = settled.ascends;
            passed = λ p lt. absurd (omega arith);
            top = λ p lt. ground (arith, settled.top p lt);
          }))))

sort_rows-Settled : (n i : ℕ) (a : ℕ → ℕ) → suc i ≤ n → Settled n i (sort_rows n (suc i) a)
unfolding sort_rows
sort_rows-Settled n zero a bounded = record {
  ascends = λ p q le lt. let same : p ≡ q = omega arith in rw same (omega arith);
  top = first_row-IsTop n n a (omega (arith, bounded)) (omega arith);
}
sort_rows-Settled n (suc i) a bounded =
    sort_row-Settled n i (sort_rows n (suc i) a) bounded (sort_rows-Settled n i a (omega arith))

pub sort_rows-IsAscending : (n : ℕ) (a : ℕ → ℕ) → IsAscending n (sort_rows n n a)
sort_rows-IsAscending zero a = λ p q le lt. absurd (omega arith)
sort_rows-IsAscending (suc i) a = (sort_rows-Settled (suc i) i a (omega arith)).ascends
