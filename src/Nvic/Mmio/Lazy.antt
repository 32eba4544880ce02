-- ===== src/Nvic/Mmio/Lazy.antt =====
-- The writes of hook_nvic_mmio_write in cortexm_nvic.c after which the cached pending exception is
-- right.
use fuzzware_emulator.Prelude.{
  ◌-◌, sub32, ℕ, zero, suc, ◌+◌, ◌*◌, ◌/◌, ◌%◌, ◌^◌, ◌≡◌, ◌≢◌, refl, subst, ◌∙◌, Bool, true, false,
  ◌||◌, Run, ok, ◌==◌, arith, Bool-cases, inl, inr, leb, both_succeed, without, update,
}
use fuzzware_emulator.Nvic.State.{Nvic, NvicConfig, num_supported}
use fuzzware_emulator.Nvic.Prio.{
  recalc_prios, pend_interrupt, clear_pend_interrupt, is_disabled_by_config,
}
use fuzzware_emulator.Nvic.Prio.Cached.{
  IsCached, HasScan, recalc_prios-IsCached, pend_interrupt-IsCached, clear_pend_interrupt-IsCached,
}
use fuzzware_emulator.Nvic.Enable.{disable_irq, set_prio, remove_fuzzable_interrupt_no}
use fuzzware_emulator.Nvic.Mmio.{
  for_bits, disable_step, pend_step, clear_pend_step, set_prios, recalc_if, register_at, nvic_base,
  hook_nvic_mmio_write, write_register, Register, prio_base, bit_base,
}

-- What every step keeps, the loop keeps.
for_bits-keeps :
    {S : Type 0} (P : S → Type 0) (f : ℕ → S → Run S) (left i value : ℕ) (s s' : S)
    → ((j : ℕ) (t t' : S) → P t → f j t ≡ ok t' → P t')
    → P s
    → for_bits f left i value s ≡ ok s'
    → P s'
unfolding for_bits
for_bits-keeps P f zero i value s s' keep p e = subst P (ground (arith, e)) p
for_bits-keeps P f (suc left) i value s s' keep p e = elim (Bool-cases (value % 2 == 1)) [
  | inr unset ↦ for_bits-keeps P f left (i + 1) (value / 2) s s' keep p (ground (arith, unset, e))
  | inl is_set ↦
      (let (t, step, rest) =
          both_succeed (f i s) (for_bits f left (i + 1) (value / 2)) (ground (arith, is_set, e)) in
        for_bits-keeps P f left (i + 1) (value / 2) t s' keep (keep i s t p step) rest)
]

-- The cached pending exception is right, and the scan has a range.
pub record IsScanned (n : Nvic) : Type 0 where
  pub cached : IsCached n
  pub has_scan : HasScan n

disable_irq-IsScanned :
    (i : ℕ) (n n' : Nvic) (b : Bool) → IsScanned n → disable_irq i n ≡ ok (b, n') → IsScanned n'
unfolding disable_irq remove_fuzzable_interrupt_no
disable_irq-IsScanned i n n' b s e = elim (Bool-cases (n.exception_enabled i)) [
  | inl on ↦
      (let m : Nvic = record n {
        exception_enabled = update n.exception_enabled i false;
        enabled_irqs = without i n.enabled_irqs;
      } in
        let same : m ≡ n' = ground (arith, on, e) in
        subst IsScanned same (record { cached = s.cached; has_scan = s.has_scan }))
  | inr off ↦ (let same : n ≡ n' = ground (arith, off, e) in subst IsScanned same s)
]

disable_step-IsScanned :
    (i : ℕ) (r r' : Bool × Nvic) → IsScanned r.1 → disable_step i r ≡ ok r' → IsScanned r'.1
unfolding disable_step
disable_step-IsScanned i r r' s e =
    let (d, step, result) =
      both_succeed (disable_irq i r.1) (λ (d : Bool × Nvic). ok (r.0 || d.0, d.1)) e in
    let same : d.1 ≡ r'.1 = ground (arith, result) in
    subst IsScanned same (disable_irq-IsScanned i r.1 d.1 d.0 s step)

pend_interrupt-IsScanned : (i : ℕ) (n : Nvic) → IsScanned n → IsScanned (pend_interrupt i n)
pend_interrupt-IsScanned i n s = record {
  cached = (pend_interrupt-IsCached n i s.has_scan s.cached).0;
  has_scan = unfold pend_interrupt in unfold recalc_prios in ground (arith, s.has_scan);
}

clear_pend_interrupt-IsScanned :
    (i : ℕ) (n : Nvic) → IsScanned n → IsScanned (clear_pend_interrupt i n)
clear_pend_interrupt-IsScanned i n s = record {
  cached = (clear_pend_interrupt-IsCached n i s.has_scan s.cached).0;
  has_scan = unfold clear_pend_interrupt in unfold recalc_prios in ground (arith, s.has_scan);
}

pend_step-IsScanned :
    (config : NvicConfig) (i : ℕ) (n n' : Nvic)
    → IsScanned n
    → pend_step config i n ≡ ok n'
    → IsScanned n'
unfolding pend_step
pend_step-IsScanned config i n n' s e = elim (Bool-cases (is_disabled_by_config config i)) [
  | inl off ↦ (let same : n ≡ n' = ground (arith, off, e) in subst IsScanned same s)
  | inr on ↦
      (let same : pend_interrupt i n ≡ n' = ground (arith, on, e) in
        subst IsScanned same (pend_interrupt-IsScanned i n s))
]

clear_pend_step-IsScanned :
    (i : ℕ) (n n' : Nvic) → IsScanned n → clear_pend_step i n ≡ ok n' → IsScanned n'
unfolding clear_pend_step
clear_pend_step-IsScanned i n n' s e =
    let same : clear_pend_interrupt i n ≡ n' = ground (arith, e) in
    subst IsScanned same (clear_pend_interrupt-IsScanned i n s)

recalc_prios-IsScanned : (n : Nvic) → HasScan n → IsScanned (recalc_prios n).1
recalc_prios-IsScanned n h = record {
  cached = recalc_prios-IsCached n h;
  has_scan = unfold recalc_prios in h;
}

set_prio-unchanged :
    (config : NvicConfig) (i prio : ℕ) (n : Nvic)
    → HasScan n
    → HasScan (set_prio config i prio n).1
      × ((set_prio config i prio n).0 ≡ false → (set_prio config i prio n).1 ≡ n)
unfolding set_prio
set_prio-unchanged config i prio n h = (ground (arith, h), λ e. ground (arith, e))

-- A loop that reports no change has made none.
set_prios-unchanged :
    (config : NvicConfig) (left i value : ℕ) (b : Bool) (n : Nvic)
    → HasScan n
    → HasScan (set_prios config left i value (b, n)).1
      × ((set_prios config left i value (b, n)).0 ≡ false
          → (b ≡ false) × ((set_prios config left i value (b, n)).1 ≡ n))
unfolding set_prios
set_prios-unchanged config zero i value b n h = (h, λ e. (e, refl))
set_prios-unchanged config (suc left) i value b n h =
    let r = set_prio config (i % 2 ^ 8) (value % 2 ^ 8) n in
    let (h1, same) = set_prio-unchanged config (i % 2 ^ 8) (value % 2 ^ 8) n h in
    let (h2, later) = set_prios-unchanged config left (i + 1) (value / 2 ^ 8) (b || r.0) r.1 h1 in
    (
      h2,
      λ e. let (none, rest) = later e in (ground (arith, none), rest ∙ same (ground (arith, none))),
    )

set_prios-IsScanned :
    (config : NvicConfig) (left i value : ℕ) (n : Nvic)
    → IsScanned n
    → IsScanned (recalc_if (set_prios config left i value (false, n)))
set_prios-IsScanned config left i value n s =
    let (h, unchanged) = set_prios-unchanged config left i value false n s.has_scan in
    elim (Bool-cases (set_prios config left i value (false, n)).0) [
      | inl changed ↦
          rw changed (recalc_prios-IsScanned (set_prios config left i value (false, n)).1 h)
      | inr quiet ↦ rw (quiet, (unchanged quiet).1) s
    ]

recalc_if-IsScanned : (b : Bool) (n : Nvic) → IsScanned n → IsScanned (recalc_if (b, n))
recalc_if-IsScanned true n s = recalc_prios-IsScanned n s.has_scan
recalc_if-IsScanned false n s = s

-- The registers, one by one.
write_register-IsScanned :
    (config : NvicConfig) (reg : Register) (off size value : ℕ) (n n' : Nvic)
    → reg ≢ Register.iser
    → IsScanned n
    → write_register config reg off size value n ≡ ok n'
    → IsScanned n'
unfolding write_register
write_register-IsScanned config Register.iser off size value n n' other s e = absurd (other refl)
write_register-IsScanned config Register.icer off size value n n' other s e =
    let (r, loop, result) =
      both_succeed (for_bits disable_step (size * 8) (bit_base off) value (false, n))
        (λ (r : Bool × Nvic). ok (recalc_if r)) e in
    let kept : IsScanned r.1 =
      for_bits-keeps (λ (r : Bool × Nvic). IsScanned r.1) disable_step (size * 8) (bit_base off)
        value (false, n) r (λ j t t' p step. disable_step-IsScanned j t t' p step) s loop in
    let same : recalc_if r ≡ n' = ground (arith, result) in
    subst IsScanned same (recalc_if-IsScanned r.0 r.1 kept)
write_register-IsScanned config Register.ispr off size value n n' other s e =
    for_bits-keeps IsScanned (pend_step config) (size * 8) (bit_base off) value n n'
      (λ j t t' p step. pend_step-IsScanned config j t t' p step) s e
write_register-IsScanned config Register.icpr off size value n n' other s e =
    for_bits-keeps IsScanned clear_pend_step (size * 8) (bit_base off) value n n'
      (λ j t t' p step. clear_pend_step-IsScanned j t t' p step) s e
write_register-IsScanned config Register.ipr off size value n n' other s e =
    elim (Bool-cases (leb (prio_base off) (num_supported - 4))) [
      | inl inside ↦
          (let same : recalc_if (set_prios config size (prio_base off) value (false, n)) ≡ n' =
              ground (arith, inside, e) in
            subst IsScanned same (set_prios-IsScanned config size (prio_base off) value n s))
      | inr outside ↦ (let same : n ≡ n' = ground (arith, outside, e) in subst IsScanned same s)
    ]
write_register-IsScanned config Register.iabr off size value n n' other s e =
    let same : n ≡ n' = ground (arith, e) in subst IsScanned same s
write_register-IsScanned config Register.other off size value n n' other s e =
    let same : n ≡ n' = ground (arith, e) in subst IsScanned same s

-- The cached pending exception stays right, although not every write recalculates it, in every write
-- to the NVIC's registers that succeeds and is not to a set-enable register: to those that clear
-- enable bits, set or clear pending bits or set priorities, and to the registers that ignore it.
-- The highest exception ever enabled has to be SVC or higher, and stays so.
pub hook_nvic_mmio_write-IsScanned :
    (config : NvicConfig) (addr size value : ℕ) (n n' : Nvic)
    → register_at (sub32 addr nvic_base) ≢ Register.iser
    → IsScanned n
    → hook_nvic_mmio_write config addr size value n ≡ ok n'
    → IsScanned n'
unfolding hook_nvic_mmio_write
hook_nvic_mmio_write-IsScanned config addr size value n n' other s e =
    write_register-IsScanned config (register_at (sub32 addr nvic_base)) (sub32 addr nvic_base) size
      value n n' other s e
