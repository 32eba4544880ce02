-- ===== src/Prelude/Outcome.antt =====
-- The outcome of C code that may end the process or leave the defined behaviour of C.
use mathlib.Core.Path.{◌≡◌, refl}
use mathlib.Core.Bool.{Bool}
use fuzzware_emulator.Prelude.Tests.{if◌then◌else◌}

pub data Halt : Type 0 where
  -- `exit(-1)` or `_exit(-1)`
  exit_error : Halt
  -- `_exit(0)`
  exit_normal : Halt
  -- `assert` of a false condition
  assertion : Halt
  -- an array index outside the array
  out_of_bounds : Halt
  -- a read through `NULL`
  null_deref : Halt
  -- a division by zero
  div_by_zero : Halt
  -- a result of `int` arithmetic past the range of `int`
  int_overflow : Halt
  -- the fuel given to a loop ran out
  out_of_fuel : Halt

pub data Run {ℓ} (A : Type ℓ) : Type ℓ where
  ok : A → Run A
  halt : Halt → Run A

-- A condition that the code asks for, with what happens if it does not hold.
abbrev pub check : Bool → Halt → Run (Unit {0})
check holds why = if holds then ok tt else halt why

-- Sequencing: a halt ends the whole.
infixl 5 ◌>>=◌
abbrev pub ◌>>=◌ {ℓ κ} :
    {A : Type ℓ} {B : Type κ} (run : Run A) (next : (result : A) → Run B) → Run B
halt why >>= next = halt why
ok result >>= next = next result

infixl 5 ◌>>◌
abbrev pub ◌>>◌ {κ} : {B : Type κ} (first : Run (Unit {0})) (next : Run B) → Run B
first >> next = first >>= λ unused. next

-- If two steps succeed, the first one does, and the second one behind its result.
pub both_succeed {ℓ κ} :
    {B : Type κ} {A : Type ℓ} (first : Run A) (second : (middle : A) → Run B) {result : B}
    → (first >>= second) ≡ ok result
    → (middle : A) × (first ≡ ok middle) × (second middle ≡ ok result)
both_succeed (halt reason) second success = cc
both_succeed (ok middle) second success = (middle, refl, success)
