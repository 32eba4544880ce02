-- ===== src/Hooks/Blocks.antt =====
-- The handlers at basic blocks in native_hooks.c: the sorted array of their addresses, the hook that
-- looks a block up in it, and the removal of an address.
--
-- `rest` is the remaining state of the emulation, which the Python handler changes; it may also
-- change the array. The allocation of the array succeeds.
pub mod Sorted
pub mod Calls
pub mod Removal
use fuzzware_emulator.Prelude.{
  ℕ, zero, suc, ◌-◌, Bool, true, false, Option, none, some, Run, ok, halt, Halt, ltb, ◌==◌,
  if◌then◌else◌, update,
}
use fuzzware_emulator.Engine.{UcErr, err_ok, is_ok}

-- `num_attached` counts the block hooks that are attached.
pub record BlockHandlers (S : Type 0) : Type 0 where
  pub num_handlers : ℕ
  pub bb_handler_locs : ℕ → ℕ
  pub num_attached : ℕ
  pub rest : S

-- The body of the inner loop.
unfoldable pub swap_if_greater : (i j : ℕ) → (ℕ → ℕ) → ℕ → ℕ
swap_if_greater i j a = if ltb (a i) (a j) then update (update a i (a j)) j (a i) else a

-- The first `k` rounds of the inner loop.
unfoldable pub sort_row : (i k : ℕ) → (ℕ → ℕ) → ℕ → ℕ
sort_row i zero a = a
sort_row i (suc j) a = swap_if_greater i j (sort_row i j a)

-- The first `k` rounds of the outer loop, on an array of `n`.
unfoldable pub sort_rows : (n k : ℕ) → (ℕ → ℕ) → ℕ → ℕ
sort_rows n zero a = a
sort_rows n (suc i) a = sort_row i n (sort_rows n i a)

-- The first of the `k` indices from `i` on that holds an address.
unfoldable pub find_loc : (k i address : ℕ) → (ℕ → ℕ) → Option ℕ
find_loc zero i address a = none
find_loc (suc k) i address a =
    let rest = find_loc k (suc i) address a in if a i == address then some i else rest

-- `for(int j = i; j < n - 1; ++j) a[j] = a[j + 1];`
abbrev pub close_gap : (i n : ℕ) → (ℕ → ℕ) → ℕ → ℕ
close_gap i n a j = if ltb j i then a j else if ltb j (n - 1) then a (suc j) else a j

module _ {S : Type 0} where
  -- `hook_added` is the result of `uc_hook_add`.
  unfoldable pub register_cond_py_handler_hook :
      (hook_added : UcErr) (addrs : ℕ → ℕ) (num_addrs : ℕ)
      → BlockHandlers S
      → UcErr × BlockHandlers S
  register_cond_py_handler_hook hook_added addrs num_addrs b = (
    hook_added,
    record b {
      num_handlers = num_addrs;
      bb_handler_locs = sort_rows num_addrs num_addrs addrs;
      num_attached = if is_ok hook_added then suc b.num_attached else b.num_attached;
    },
  )

  unfoldable pub remove_function_handler_hook_address : ℕ → BlockHandlers S → Run (BlockHandlers S)
  remove_function_handler_hook_address address b =
      elim (find_loc b.num_handlers 0 address b.bb_handler_locs) [
        | none ↦ halt Halt.exit_error
        | some i ↦ ok (record b {
          num_handlers = b.num_handlers - 1;
          bb_handler_locs = close_gap i b.num_handlers b.bb_handler_locs;
          num_attached = if b.num_handlers - 1 == 0 then b.num_attached - 1 else b.num_attached;
        })
      ]

  -- The loop of the hook from index `i` on, with the array as it is in each round.
  unfoldable pub call_handlers :
      (python : ℕ → BlockHandlers S → BlockHandlers S) (fuel i address : ℕ)
      → BlockHandlers S
      → Run (BlockHandlers S)
  call_handlers python zero i address b = halt Halt.out_of_fuel
  call_handlers python (suc k) i address b = elim (ltb i b.num_handlers) [
    | false ↦ ok b
    | true ↦ elim (ltb address (b.bb_handler_locs i)) [
      | true ↦ ok b
      | false ↦ elim (b.bb_handler_locs i == address) [
        | true ↦ call_handlers python k (suc i) address (python address b)
        | false ↦ call_handlers python k (suc i) address b
      ]
    ]
  ]

  unfoldable pub hook_block_cond_py_handlers :
      (python : ℕ → BlockHandlers S → BlockHandlers S) (fuel address : ℕ)
      → BlockHandlers S
      → Run (BlockHandlers S)
  hook_block_cond_py_handlers python fuel address b = call_handlers python fuel 0 address b
