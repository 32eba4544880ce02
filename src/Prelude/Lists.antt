-- ===== src/Prelude/Lists.antt =====
-- Lists measured and indexed by native numbers, under the library's names.
use Prim.Native.Nat.{ℕ, zero, suc, ◌≤◌, ◌<◌}
use mathlib.Core.Path.{◌≡◌, refl}
use mathlib.Core.Bool.{Bool, false, ◌||◌}
use mathlib.Core.List.{List, [], ◌∷◌, ◌++◌}
use mathlib.Core.Logic.{◌⊎◌, inl, inr}
use mathlib.Core.Option.{Option, none, some}
use native.Mathlib.Omega.{arith}
use fuzzware_emulator.Prelude.Tests.{◌==◌, if◌then◌else◌}

module _ {ℓ} {A : Type ℓ} where
  abbrev pub length : List A → ℕ
  length [] = 0
  length (x ∷ xs) = suc (length xs)

  abbrev pub get_elem? : List A → ℕ → Option A
  get_elem? [] i = none
  get_elem? (x ∷ xs) zero = some x
  get_elem? (x ∷ xs) (suc i) = get_elem? xs i

  abbrev pub All {κ} : (A → Type κ) → List A → Type κ
  All P [] = Unit
  All P (x ∷ xs) = P x × All P xs

abbrev pub has : ℕ → List ℕ → Bool
has i [] = false
has i (j ∷ js) = (i == j) || has i js

abbrev pub Distinct : List ℕ → Type 0
Distinct [] = Unit {0}
Distinct (i ∷ is) = (has i is ≡ false) × Distinct is

abbrev pub AllBelow : ℕ → List ℕ → Type 0
AllBelow n [] = Unit {0}
AllBelow n (i ∷ is) = (i < n) × AllBelow n is

-- The list without its entry `n`.
abbrev pub without : ℕ → List ℕ → List ℕ
without n [] = []
without n (i ∷ is) = if n == i then is else i ∷ without n is

pub has-without_other : (i n : ℕ) (is : List ℕ) → has i is ≡ false → has i (without n is) ≡ false
has-without_other i n [] h = refl
has-without_other i n (j ∷ js) h = ground (arith, has-without_other i n js)

pub Distinct-without : (n : ℕ) (is : List ℕ) → Distinct is → Distinct (without n is)
Distinct-without n [] d = tt
Distinct-without n (i ∷ is) d =
    ground (arith, Distinct-without n is d.1, has-without_other i n is d.0)

AllBelow-of_absent : (n : ℕ) (is : List ℕ) → has n is ≡ false → AllBelow (suc n) is → AllBelow n is
AllBelow-of_absent n [] h b = tt
AllBelow-of_absent n (i ∷ is) h b = ground (arith, AllBelow-of_absent n is)

AllBelow-without :
    (n : ℕ) (is : List ℕ) → Distinct is → AllBelow (suc n) is → AllBelow n (without n is)
AllBelow-without n [] d b = tt
AllBelow-without n (i ∷ is) d b =
    ground (arith, AllBelow-without n is d.1 b.1, AllBelow-of_absent n is)

length-without : (n : ℕ) (is : List ℕ) → length is ≤ suc (length (without n is))
length-without n [] = omega arith
length-without n (i ∷ is) = ground (arith, length-without n is)

-- Distinct indices of an array of `n` cells are at most `n`.
pub length-le_of_Distinct : (n : ℕ) (is : List ℕ) → Distinct is → AllBelow n is → length is ≤ n
length-le_of_Distinct zero [] d b = omega arith
length-le_of_Distinct zero (i ∷ is) d b = absurd (omega arith)
length-le_of_Distinct (suc n) is d b = omega (
  arith,
  length-without n is,
  length-le_of_Distinct n (without n is) (Distinct-without n is d) (AllBelow-without n is d b),
)

pub has-without_self : (i : ℕ) (is : List ℕ) → Distinct is → has i (without i is) ≡ false
has-without_self i [] d = refl
has-without_self i (j ∷ js) d = ground (arith, has-without_self i js d.1)

pub has-without_ne : (i j : ℕ) (is : List ℕ) → (j == i) ≡ false → has j (without i is) ≡ has j is
has-without_ne i j [] e = refl
has-without_ne i j (k ∷ ks) e = ground (arith, has-without_ne i j ks e)

pub get_elem?-snoc {ℓ} :
    {A : Type ℓ} (xs : List A) (y z : A) (i : ℕ)
    → get_elem? (xs ++ y ∷ []) i ≡ some z
    → (get_elem? xs i ≡ some z) ⊎ ((i ≡ length xs) × (z ≡ y))
get_elem?-snoc [] y z zero h = inr (refl, ground (arith, h))
get_elem?-snoc [] y z (suc i) h = absurd (ground (arith, h))
get_elem?-snoc (x ∷ xs) y z zero h = inl h
get_elem?-snoc (x ∷ xs) y z (suc i) h = elim (get_elem?-snoc xs y z i h) [
  | inl before ↦ inl before
  | inr last ↦ inr (ground (arith, last.0), last.1)
]
