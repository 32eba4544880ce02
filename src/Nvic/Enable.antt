-- ===== src/Nvic/Enable.antt =====
-- Enabling and disabling of exceptions in cortexm_nvic.c, their priorities, and the sorted array of
-- the enabled external ones that the fuzzer chooses from.
pub mod Fuzzable
use fuzzware_emulator.Prelude.{
  ℕ, zero, suc, ◌+◌, ◌%◌, ◌^◌, Bool, true, false, not, ◌&&◌, ◌||◌, List, [], ◌∷◌, Option, none,
  some, Run, ok, halt, Halt, ◌>>=◌, ◌>>◌, check, ℤ, pos, ltb_int, to_u32, ltb, ◌==◌, if◌then◌else◌,
  update, length, get_elem?, has, without,
}
use fuzzware_emulator.Nvic.State.{Nvic, NvicConfig, num_supported, exception_no_external_start}
use fuzzware_emulator.Nvic.Prio.{is_disabled_by_config}

-- The loop that finds the first larger entry, with the `memmove` and the write that follow it.
unfoldable pub insert_irq : ℕ → List ℕ → List ℕ
insert_irq i [] = i ∷ []
insert_irq i (j ∷ js) = if ltb i j then i ∷ j ∷ js else j ∷ insert_irq i js

-- The number is compared with the whole array's: an index outside is undefined behaviour in C.
unfoldable pub enable_irq : NvicConfig → ℕ → Nvic → Run (Bool × Nvic)
enable_irq c i n = do
  check (ltb i num_supported) Halt.out_of_bounds
  if not (n.exception_enabled i) && not (is_disabled_by_config c i)
      then ok (
        n.exception_pending i && ltb_int (n.exception_priority i) (pos n.pending_irq),
        record n {
          exception_enabled = update n.exception_enabled i true;
          highest_ever_enabled_exception_no =
              if ltb n.highest_ever_enabled_exception_no i
              then i
              else n.highest_ever_enabled_exception_no;
          enabled_irqs =
              if ltb i exception_no_external_start
              then n.enabled_irqs
              else insert_irq i n.enabled_irqs;
        },
      )
      else ok (false, n)

-- The first entry with the number is taken out; its absence is an assertion failure.
unfoldable pub remove_fuzzable_interrupt_no : ℕ → List ℕ → Run (List ℕ)
remove_fuzzable_interrupt_no i js = check (has i js) Halt.assertion >> ok (without i js)

unfoldable pub disable_irq : ℕ → Nvic → Run (Bool × Nvic)
disable_irq i n = do
  check (ltb i num_supported) Halt.out_of_bounds
  if n.exception_enabled i
      then (do
        js ← remove_fuzzable_interrupt_no i n.enabled_irqs
        ok (
          i == n.pending_irq,
          record n { exception_enabled = update n.exception_enabled i false; enabled_irqs = js },
        ))
      else ok (false, n)

-- `new_prio` is a byte of the written value.
unfoldable pub set_prio : NvicConfig → ℕ → ℕ → Nvic → Bool × Nvic
set_prio c i new_prio n =
    if not (new_prio == to_u32 (n.exception_priority i)) && not (is_disabled_by_config c i)
    then (true, record n { exception_priority = update n.exception_priority i (pos new_prio) })
    else (false, n)

-- `uint16_t`
unfoldable pub get_num_enabled : Nvic → ℕ
get_num_enabled n = length n.enabled_irqs % 2 ^ 16

unfoldable pub nth_enabled_irq_num : ℕ → Nvic → Run ℕ
nth_enabled_irq_num k n = do
  check (not (length n.enabled_irqs == 0)) Halt.div_by_zero
  elim (get_elem? n.enabled_irqs (k % length n.enabled_irqs)) [
    | none ↦ halt Halt.out_of_bounds
    | some i ↦ ok i
  ]
