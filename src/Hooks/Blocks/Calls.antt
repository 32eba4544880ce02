-- ===== src/Hooks/Blocks/Calls.antt =====
-- How often the hook at basic blocks calls the handler.
use fuzzware_emulator.Prelude.{
  ℕ, zero, suc, ◌+◌, ◌-◌, ◌≤◌, ◌<◌, ◌≡◌, refl, ap, ◌∙◌, ok, arith, ltb, ◌==◌, leb, Bool-cases, inl,
  inr,
}
use fuzzware_emulator.Engine.{UcErr}
use fuzzware_emulator.Hooks.Blocks.{
  BlockHandlers, register_cond_py_handler_hook, call_handlers, hook_block_cond_py_handlers,
  sort_rows,
}
use fuzzware_emulator.Hooks.Blocks.Sorted.{
  IsAscending, count, count-sort_rows, sort_rows-IsAscending,
}

abbrev pub repeat {ℓ} : {A : Type ℓ} → ℕ → (A → A) → A → A
repeat zero f a = a
repeat (suc n) f a = repeat n f (f a)

-- A handler that leaves the array of addresses alone.
pub record Keeps {S : Type 0} (python : ℕ → BlockHandlers S → BlockHandlers S) : Type 0 where
  pub num : (address : ℕ) (b : BlockHandlers S) → (python address b).num_handlers ≡ b.num_handlers
  pub locs :
      (address : ℕ) (b : BlockHandlers S) → (python address b).bb_handler_locs ≡ b.bb_handler_locs

count_mono : (i n v : ℕ) (a : ℕ → ℕ) → i ≤ n → count i v a ≤ count n v a
count_mono zero zero v a le = omega arith
count_mono (suc i) zero v a le = absurd (omega arith)
count_mono i (suc n) v a le = elim (Bool-cases (leb i n)) [
  | inl below ↦ ground (arith, below, count_mono i n v a)
  | inr top ↦ let same : i ≡ suc n = ground (arith, top) in rw same (omega arith)
]

count_above :
    (i n v : ℕ) (a : ℕ → ℕ) → i ≤ n → IsAscending n a → v < a i → count n v a ≡ count i v a
count_above i zero v a le ascends above = ground (arith, le)
count_above i (suc n) v a le ascends above = elim (Bool-cases (leb i n)) [
  | inl below ↦ ground (
    arith,
    below,
    ascends i n,
    count_above i n v a (ground (arith, below)) (λ p q pq qn. ascends p q pq (omega (arith, qn)))
        above,
  )
  | inr top ↦ let same : i ≡ suc n = ground (arith, top) in rw same refl
]

module _ {S : Type 0} (python : ℕ → BlockHandlers S → BlockHandlers S) (keeps : Keeps python) where
  call_handlers-repeat :
      (k i address : ℕ) (b : BlockHandlers S)
      → IsAscending b.num_handlers b.bb_handler_locs
      → i ≤ b.num_handlers
      → b.num_handlers < k + i
      → call_handlers python k i address b
        ≡ ok (
            repeat
              (count b.num_handlers address b.bb_handler_locs - count i address b.bb_handler_locs)
              (python address)
              b)
  unfolding call_handlers
  call_handlers-repeat zero i address b ascends le enough = absurd (omega arith)
  call_handlers-repeat (suc k) i address b ascends le enough =
      elim (Bool-cases (ltb i b.num_handlers)) [
        | inr over ↦
            (let same : i ≡ b.num_handlers = ground (arith, over) in ground (arith, over, same))
        | inl low ↦ elim (Bool-cases (ltb address (b.bb_handler_locs i))) [
          | inl above ↦
              ground (
                arith,
                low,
                above,
                count_above i b.num_handlers address b.bb_handler_locs le ascends,
              )
          | inr reached ↦ elim (Bool-cases (b.bb_handler_locs i == address)) [
            | inl hit ↦
                (let more : count b.num_handlers address b.bb_handler_locs
                        - count i address b.bb_handler_locs
                      ≡ suc (
                          count b.num_handlers address b.bb_handler_locs
                          - count (suc i) address b.bb_handler_locs) =
                    ground (
                      arith,
                      hit,
                      count_mono (suc i) b.num_handlers address b.bb_handler_locs
                          (ground (arith, low)),
                    ) in
                  rw more (
                    ground (
                      arith,
                      low,
                      reached,
                      hit,
                      keeps.num address b,
                      keeps.locs address b,
                      call_handlers-repeat k (suc i) address (python address b)
                          (rw (keeps.num address b, keeps.locs address b) ascends)
                          (rw (keeps.num address b) (ground (arith, low)))
                          (rw (keeps.num address b) (omega (arith, enough))),
                    )))
            | inr miss ↦ ground (
              arith,
              low,
              reached,
              miss,
              call_handlers-repeat k (suc i) address b ascends (ground (arith, low))
                  (omega (arith, enough)),
            )
          ]
        ]
      ]

  -- After the registration of any list of addresses, the hook at a basic block ends after at
  -- most one round more than there are addresses, and calls the handler as often as the block
  -- stands in the list, if the handler leaves the array of addresses alone.
  pub registered_hook-calls :
      (hook_added : UcErr) (addrs : ℕ → ℕ) (num_addrs address : ℕ) (b : BlockHandlers S)
      → hook_block_cond_py_handlers python
          (suc num_addrs)
          address
          (register_cond_py_handler_hook hook_added addrs num_addrs b).1
        ≡ ok (
            repeat
              (count num_addrs address addrs)
              (python address)
              (register_cond_py_handler_hook hook_added addrs num_addrs b).1)
  unfolding hook_block_cond_py_handlers register_cond_py_handler_hook
  registered_hook-calls hook_added addrs num_addrs address b =
      call_handlers-repeat (suc num_addrs) 0 address
        (register_cond_py_handler_hook hook_added addrs num_addrs b).1
        (sort_rows-IsAscending num_addrs addrs) (omega arith) (omega arith)
      ∙ ap
          (λ c. ok (
            repeat c (python address)
              (register_cond_py_handler_hook hook_added addrs num_addrs b).1))
          {x = count num_addrs address (sort_rows num_addrs num_addrs addrs) - 0}
          {y = count num_addrs address addrs}
          (omega (arith, count-sort_rows num_addrs num_addrs address addrs (omega arith)))
