-- ===== src/Hooks/Register/Placed.antt =====
-- What the registrations of native_hooks.c add.
use fuzzware_emulator.Prelude.{
  ℕ, zero, suc, ◌+◌, ◌/◌, ◌%◌, ◌^◌, ◌≤◌, ◌<◌, ◌≡◌, refl, ap, map, ◌∙◌, true, false, List, [], ◌∷◌,
  ◌++◌, Option, none, some, Run, ok, arith, length, leb, bit, Bool-cases, inl, inr, sym,
}
use mathlib.Core.List.{append-nil, append_assoc}
use native.Mathlib.Nat.{div-div-eq-div-mul}
use fuzzware_emulator.Engine.{Engine, Reg, UcErr, err_ok, err_exception, value_bytes}
use fuzzware_emulator.Hooks.State.{
  Hooks, Mmio, MmioCallback, Region, Handler, constant_model, max_mmio_callbacks,
}
use fuzzware_emulator.Hooks.Models.{put_bytes, constant_mmio_model_handler}
use fuzzware_emulator.Hooks.Access.{
  is_site, is_ignored, find_callback, call_handler, hook_mmio_access,
}
use fuzzware_emulator.Hooks.Access.Served.{find_callback-first, hook_mmio_access-handled}
use fuzzware_emulator.Hooks.Register.{
  Placement, hamming_weight, add_mmio_region, add_mmio_subregion_handler, register_all,
  register_constant_mmio_models,
}

-- The number of bits set among the `n` lowest.
abbrev pub bits_set : (n mask : ℕ) → ℕ
bits_set zero mask = 0
bits_set (suc n) mask = bits_set n mask + bit mask n

bits_set-shift : (n mask : ℕ) → bits_set (suc n) mask ≡ mask % 2 + bits_set n (mask / 2)
bits_set-shift zero mask = ground arith
bits_set-shift (suc n) mask =
    ground (arith, bits_set-shift n mask, div-div-eq-div-mul mask 2 (2 ^ n))

bits_set_zero : (n : ℕ) → bits_set n 0 ≡ 0
bits_set_zero zero = refl
bits_set_zero (suc n) = ground (arith, bits_set_zero n)

pub hamming_weight-bits_set :
    (n mask weight : ℕ)
    → mask < 2 ^ n
    → hamming_weight (suc n) mask weight ≡ ok (weight + bits_set n mask)
unfolding hamming_weight
hamming_weight-bits_set zero mask weight small = ground arith
hamming_weight-bits_set (suc n) mask weight small = ground (
  arith,
  hamming_weight-bits_set n (mask / 2) (weight + mask % 2),
  bits_set-shift n mask,
  bits_set_zero n,
)

abbrev pub placed_callback : Placement × Handler → MmioCallback
placed_callback p = record { start = p.0.start; end = p.0.end; pc = p.0.pc; handler = p.1 }

length-append_one :
    (cs : List MmioCallback) (c : MmioCallback) → length (cs ++ c ∷ []) ≡ suc (length cs)
length-append_one [] c = refl
length-append_one (d ∷ cs) c = ap suc (length-append_one cs c)

module _ (hook_add : Region → UcErr) where
  add_mmio_subregion_handler-adds :
      (p : Placement × Handler) (m : Mmio)
      → 0 < length m.mmio_regions
      → length m.mmio_callbacks < max_mmio_callbacks
      → (m' : Mmio) × (add_mmio_subregion_handler hook_add p.1 p.0.start p.0.end p.0.pc m
          ≡ (err_ok, m'))
        × (m'.mmio_callbacks ≡ m.mmio_callbacks ++ placed_callback p ∷ [])
        × (m'.mmio_regions ≡ m.mmio_regions)
        × (m'.ignored_addresses ≡ m.ignored_addresses)
        × (length m'.mmio_callbacks ≡ suc (length m.mmio_callbacks))
  unfolding add_mmio_subregion_handler add_mmio_region
  add_mmio_subregion_handler-adds p m some_regions room = (
    (add_mmio_subregion_handler hook_add p.1 p.0.start p.0.end p.0.pc m).1,
    ground arith,
    ground arith,
    ground arith,
    ground arith,
    ground (arith, length-append_one m.mmio_callbacks (placed_callback p)),
  )

  pub register_all-full :
      (ps : List (Placement × Handler)) (m : Mmio)
      → 0 < length m.mmio_regions
      → length m.mmio_callbacks ≤ max_mmio_callbacks
      → max_mmio_callbacks < length m.mmio_callbacks + length ps
      → ((register_all hook_add ps m).0 ≡ err_exception)
        × (length (register_all hook_add ps m).1.mmio_callbacks ≡ max_mmio_callbacks)
  unfolding register_all add_mmio_subregion_handler
  register_all-full [] m some_regions bounded many = absurd (omega arith)
  register_all-full (p ∷ ps) m some_regions bounded many =
      elim (Bool-cases (leb max_mmio_callbacks (length m.mmio_callbacks))) [
        | inl full ↦ ground (arith, full)
        | inr room ↦
            (let (m', added, cbs, regions, ignored, len) =
                add_mmio_subregion_handler-adds p m some_regions (ground (arith, room)) in
              rw added (
                register_all-full ps m' (rw regions some_regions) (ground (arith, room, len))
                  (ground (arith, len, many))))
      ]

  pub register_all-placed :
      (ps : List (Placement × Handler)) (m : Mmio)
      → 0 < length m.mmio_regions
      → length m.mmio_callbacks + length ps ≤ max_mmio_callbacks
      → (m' : Mmio) × (register_all hook_add ps m ≡ (err_ok, m'))
        × (m'.mmio_callbacks ≡ m.mmio_callbacks ++ map placed_callback ps)
        × (m'.ignored_addresses ≡ m.ignored_addresses)
  unfolding register_all
  register_all-placed [] m some_regions room = (m, refl, sym (append-nil m.mmio_callbacks), refl)
  register_all-placed (p ∷ ps) m some_regions room =
      let (m', added, cbs, regions, ignored, len) =
        add_mmio_subregion_handler-adds p m some_regions (omega arith) in
      let (m'', all, cbs', ignored') =
        register_all-placed ps m' (rw regions some_regions) (omega (arith, len)) in
      (
        m'',
        rw (added, all) refl,
        cbs'
            ∙ ap (λ cs. cs ++ map placed_callback ps) cbs
            ∙ append_assoc m.mmio_callbacks (placed_callback p ∷ []) (map placed_callback ps),
        ignored' ∙ ignored,
      )

  module _ {Uc : Type 0} (e : Engine Uc) (file : Option (List ℕ))
      (python_callback : (addr size value : ℕ) → Hooks Uc → Run (Hooks Uc)) where
    -- With a region configured and room for a callback, the registration of a constant model
    -- succeeds, and an access in its range and from its program counter then reads its value
    -- and uses up no input, unless the address is passed through or an earlier callback handles
    -- it.
    pub register_constant-serves :
        (p : Placement) (val addr size value : ℕ) (h : Hooks Uc)
        → 0 < length h.mmio.mmio_regions
        → length h.mmio.mmio_callbacks < max_mmio_callbacks
        → is_ignored h.mmio.ignored_addresses addr (e.reg_read Reg.pc h.machine.cpu.uc) ≡ false
        → find_callback h.mmio.mmio_callbacks addr (e.reg_read Reg.pc h.machine.cpu.uc) ≡ none
        → p.start ≤ addr
        → addr ≤ p.end
        → is_site p.pc (e.reg_read Reg.pc h.machine.cpu.uc) ≡ true
        → (m : Mmio) × (register_constant_mmio_models hook_add ((p, val) ∷ []) h.mmio ≡ (err_ok, m))
          × (hook_mmio_access e file python_callback addr size value (record h { mmio = m })
              ≡ ok (record {
                machine = put_bytes e addr (value_bytes size val) h.machine;
                mmio = record m {
                  latest_mmio_fuzz_access_index = h.machine.input.fuzz_cursor;
                  latest_mmio_fuzz_access_size = 0;
                };
              }))
    unfolding register_constant_mmio_models call_handler constant_mmio_model_handler find_callback
    register_constant-serves p val addr size value h some_regions room listened unhandled low high
          site =
        let (m, all, cbs, ignored) =
          register_all-placed ((p, constant_model val) ∷ []) h.mmio some_regions
            (omega (arith, room)) in
        let found : find_callback m.mmio_callbacks addr (e.reg_read Reg.pc h.machine.cpu.uc)
            ≡ some (constant_model val) =
          rw
            (
              cbs,
              find_callback-first h.mmio.mmio_callbacks
                  (placed_callback (p, constant_model val) ∷ []) addr
                  (e.reg_read Reg.pc h.machine.cpu.uc),
              unhandled,
            )
            (ground (arith, low, high, site)) in
        (
          m,
          all,
          hook_mmio_access-handled e file python_callback addr size value (constant_model val)
                (record h { mmio = m }) (rw ignored listened) found
              ∙ ground arith,
        )
