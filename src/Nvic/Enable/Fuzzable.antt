-- ===== src/Nvic/Enable/Fuzzable.antt =====
-- The array of enabled external exceptions of cortexm_nvic.c, and a flaw of `enable_irq`.
use fuzzware_emulator.Prelude.{
  ℕ, zero, suc, ◌%◌, ◌≤◌, ◌<◌, ◌≢◌, ◌≡◌, refl, ◌∙◌, inl, inr, Bool, true, false, ◌||◌, ◌&&◌, not,
  arith, ltb, ◌==◌, update, Bool-cases, if◌then◌else◌, List, [], ◌∷◌, some, ok, has, without,
  length, get_elem?, pos, ltb_int,
}
use fuzzware_emulator.Nvic.State.{
  Nvic, NvicConfig, num_supported, exception_no_svc, nvic_lowest_prio, exception_no_external_start,
}
use fuzzware_emulator.Nvic.Prio.Pending.{scan_end}
use fuzzware_emulator.Nvic.Prio.Cached.{IsCached}
use fuzzware_emulator.Nvic.Prio.{is_disabled_by_config}
use fuzzware_emulator.Nvic.Enable.{
  insert_irq, enable_irq, disable_irq, remove_fuzzable_interrupt_no, nth_enabled_irq_num,
}

-- Strictly rising from above a bound.
abbrev pub Above : ℕ → List ℕ → Type 0
Above m [] = Unit {0}
Above m (i ∷ is) = (m ≤ i) × Above (suc i) is

-- The array is sorted without repetition, and holds exactly the enabled external exceptions.
pub record IsFuzzable (n : Nvic) : Type 0 where
  pub sorted : Above exception_no_external_start n.enabled_irqs
  pub exact :
      (i : ℕ) → exception_no_external_start ≤ i → n.exception_enabled i ≡ has i n.enabled_irqs
  pub below : (i : ℕ) → n.exception_enabled i ≡ true → i < num_supported

Above-insert_irq :
    (m i : ℕ) (is : List ℕ) → m ≤ i → has i is ≡ false → Above m is → Above m (insert_irq i is)
unfolding insert_irq
Above-insert_irq m i [] le out a = (le, tt)
Above-insert_irq m i (j ∷ js) le out a = elim (Bool-cases (ltb i j)) [
  | inl lt ↦ rw lt (le, (ground arith, a.1))
  | inr ge ↦ rw ge (a.0, Above-insert_irq (suc j) i js (ground arith) (ground arith) a.1)
]

has-insert_irq : (i j : ℕ) (is : List ℕ) → has j (insert_irq i is) ≡ ((j == i) || has j is)
unfolding insert_irq
has-insert_irq i j [] = refl
has-insert_irq i j (k ∷ ks) = ground (arith, has-insert_irq i j ks)

Above-mono : (m k : ℕ) (is : List ℕ) → m ≤ k → Above k is → Above m is
Above-mono m k [] le a = tt
Above-mono m k (i ∷ is) le a = (omega arith, a.1)

Above-without : (m i : ℕ) (is : List ℕ) → Above m is → Above m (without i is)
Above-without m i [] a = tt
Above-without m i (j ∷ js) a =
    ground (arith, Above-without (suc j) i js a.1, Above-mono m (suc j) js (omega arith) a.1)

has_below : (m i : ℕ) (is : List ℕ) → i < m → Above m is → has i is ≡ false
has_below m i [] lt a = refl
has_below m i (j ∷ js) lt a = ground (arith, has_below (suc j) i js (omega arith) a.1)

has-without :
    (m i j : ℕ) (is : List ℕ)
    → Above m is
    → has j (without i is) ≡ (if j == i then false else has j is)
has-without m i j [] a = ground arith
has-without m i j (k ∷ ks) a =
    ground (arith, has-without (suc k) i j ks a.1, has_below (suc k) k ks (omega arith) a.1)

-- Enabling an exception within the arrays succeeds, if the fuzzer's array is sorted and exact. If
-- the configuration does not disable it, it is enabled, and no other exception changes; the
-- fuzzer's array stays sorted and exact.
pub enable_irq-IsFuzzable :
    (c : NvicConfig) (i : ℕ) (n : Nvic)
    → i < num_supported
    → IsFuzzable n
    → (b : Bool) × (n' : Nvic) × (enable_irq c i n ≡ ok (b, n'))
      × IsFuzzable n'
      × ((j : ℕ)
          → n'.exception_enabled j
            ≡ (if (j == i) && not (is_disabled_by_config c i) then true else n.exception_enabled j))
unfolding enable_irq
enable_irq-IsFuzzable c i n lt f = elim (Bool-cases (n.exception_enabled i)) [
  | inl on ↦ (false, n, ground arith, f, λ j. ground (arith, on))
  | inr off ↦ elim (Bool-cases (is_disabled_by_config c i)) [
    | inl dis ↦ (false, n, ground arith, f, λ j. ground arith)
    | inr free ↦ elim (Bool-cases (ltb i exception_no_external_start)) [
      | inl core ↦ (
        n.exception_pending i && ltb_int (n.exception_priority i) (pos n.pending_irq),
        record n {
          exception_enabled = update n.exception_enabled i true;
          highest_ever_enabled_exception_no =
              if ltb n.highest_ever_enabled_exception_no i
              then i
              else n.highest_ever_enabled_exception_no;
        },
        ground arith,
        record {
          sorted = f.sorted;
          exact = λ j h. ground (arith, f.exact j h);
          below = λ j e. ground (arith, f.below j);
        },
        λ j. ground arith,
      )
      | inr ext ↦ (
        n.exception_pending i && ltb_int (n.exception_priority i) (pos n.pending_irq),
        record n {
          exception_enabled = update n.exception_enabled i true;
          highest_ever_enabled_exception_no =
              if ltb n.highest_ever_enabled_exception_no i
              then i
              else n.highest_ever_enabled_exception_no;
          enabled_irqs = insert_irq i n.enabled_irqs;
        },
        ground arith,
        record {
          sorted =
              Above-insert_irq 16 i n.enabled_irqs (ground arith) (ground (arith, f.exact i))
                f.sorted;
          exact = λ j h. ground (arith, f.exact j h, has-insert_irq i j n.enabled_irqs);
          below = λ j e. ground (arith, f.below j);
        },
        λ j. ground arith,
      )
    ]
  ]
]

-- Disabling an external exception within the arrays succeeds, with no assertion failure: it is
-- disabled, no other exception changes, and the fuzzer's array stays sorted and exact. Its result
-- asks for a recalculation exactly if the exception was enabled and is the cached pending one.
pub disable_irq-IsFuzzable :
    (i : ℕ) (n : Nvic)
    → exception_no_external_start ≤ i
    → i < num_supported
    → IsFuzzable n
    → (n' : Nvic) × (disable_irq i n ≡ ok (n.exception_enabled i && (i == n.pending_irq), n'))
      × IsFuzzable n'
      × ((j : ℕ) → n'.exception_enabled j ≡ (if j == i then false else n.exception_enabled j))
unfolding disable_irq remove_fuzzable_interrupt_no
disable_irq-IsFuzzable i n ge lt f = elim (Bool-cases (n.exception_enabled i)) [
  | inr off ↦ (n, ground arith, f, λ j. ground arith)
  | inl on ↦ (
    record n {
      exception_enabled = update n.exception_enabled i false;
      enabled_irqs = without i n.enabled_irqs;
    },
    ground (arith, f.exact i ge),
    record {
      sorted = Above-without 16 i n.enabled_irqs f.sorted;
      exact = λ j h. ground (arith, f.exact j h, has-without 16 i j n.enabled_irqs f.sorted);
      below = λ j e. ground (arith, f.below j);
    },
    λ j. ground arith,
  )
]

has-get_elem? :
    (is : List ℕ) (k : ℕ) → k < length is → (i : ℕ) × (get_elem? is k ≡ some i) × (has i is ≡ true)
has-get_elem? [] k lt = absurd (omega arith)
has-get_elem? (i ∷ is) zero lt = (i, refl, ground arith)
has-get_elem? (i ∷ is) (suc k) lt =
    let (j, e, h) = has-get_elem? is k (omega arith) in (j, e, ground arith)

external_of_has : (m i : ℕ) (is : List ℕ) → Above m is → has i is ≡ true → m ≤ i
external_of_has m i [] a h = cc
external_of_has m i (j ∷ js) a h = ground (arith, external_of_has (suc j) i js a.1)

-- Whatever number the fuzzer chooses from the sorted and exact array, it gets an enabled external
-- exception, unless the array is empty.
pub nth_enabled_irq_num-enabled :
    (k : ℕ) (n : Nvic)
    → IsFuzzable n
    → n.enabled_irqs ≢ []
    → (i : ℕ) × (nth_enabled_irq_num k n ≡ ok i)
      × (n.exception_enabled i ≡ true)
      × (exception_no_external_start ≤ i)
unfolding nth_enabled_irq_num
nth_enabled_irq_num-enabled k n f ne =
    let (i, e, h) =
      has-get_elem? n.enabled_irqs (k % length n.enabled_irqs)
        (omega (arith, positive n.enabled_irqs ne)) in
    let ext = external_of_has 16 i n.enabled_irqs f.sorted h in
    (
      i,
      rw (e, nth_enabled_irq_num) (ground (arith, positive n.enabled_irqs ne)),
      f.exact i ext ∙ h,
      ext,
    )
  where
    positive : (is : List ℕ) → is ≢ [] → 0 < length is
    positive [] ne = absurd (ne refl)
    positive (i ∷ is) ne = omega arith

-- A flaw of `enable_irq`: it compares the priority with the cached number, not with the cached
-- priority. If the cache knows of no pending exception, and one that was pended before is enabled,
-- it asks for no recalculation, whatever the priority, and the cache is wrong.
pub enable_irq_misses_pending :
    (c : NvicConfig) (i p : ℕ) (n : Nvic)
    → exception_no_svc ≤ i
    → i < num_supported
    → n.exception_enabled i ≡ false
    → is_disabled_by_config c i ≡ false
    → n.exception_pending i ≡ true
    → n.exception_priority i ≡ pos p
    → p < nvic_lowest_prio
    → n.pending_irq ≡ 0
    → (n' : Nvic) × (enable_irq c i n ≡ ok (false, n')) × ¬ IsCached n'
unfolding enable_irq
enable_irq_misses_pending c i p n ge lt off free pend prio small none_pending =
    (n', ground arith, wrong)
  where
    n' : Nvic
    n' = record n {
      exception_enabled = update n.exception_enabled i true;
      highest_ever_enabled_exception_no =
          if ltb n.highest_ever_enabled_exception_no i
          then i
          else n.highest_ever_enabled_exception_no;
      enabled_irqs =
          if ltb i exception_no_external_start then n.enabled_irqs else insert_irq i n.enabled_irqs;
    }

    in_scan : i < scan_end n'
    in_scan = ground arith

    wrong : ¬ IsCached n'
    wrong (inl a) = ground (arith, a.absent i ge in_scan pend)
    wrong (inr f) = ground (arith, f.from)
