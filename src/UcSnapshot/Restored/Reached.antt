-- ===== src/UcSnapshot/Restored/Reached.antt =====
-- Runs from a snapshot in uc_snapshot.c, and the restore after them.
use fuzzware_emulator.Prelude.{
  ℕ, ◌+◌, ◌-◌, ◌≤◌, ◌<◌, ◌≡◌, refl, subst, ◌∙◌, true, false, ◌&&◌, List, [], ◌∷◌, All, arith, inl,
  inr, Bool-cases, length, ltb, leb,
}
use fuzzware_emulator.Engine.{Engine, value_bytes}
use fuzzware_emulator.UcSnapshot.{
  RestoreRegion, NullRegion, NativeHooksState, page_size, page_of, activate_page_staterestore,
  native_hooks_restore_snapshot,
}
use fuzzware_emulator.UcSnapshot.Memory.{MemEngine, IsMemory}
use fuzzware_emulator.UcSnapshot.Backed.{IsBacked, covered}
use fuzzware_emulator.UcSnapshot.Nulled.{IsNulled, covered_null}
use fuzzware_emulator.UcSnapshot.Activated.{
  IsTracking, SameSaved, restores, activate_page-Activates,
}
use fuzzware_emulator.UcSnapshot.Restored.{IsCopy, restore-peek}
use fuzzware_emulator.UcSnapshot.Restored.Steps.{
  Step, fault, refused, restored, store, Steps, start, next, length-value_bytes, activated_is_saved,
  hook_handled, hook_refused,
}

module _ {Uc Ctx : Type 0} (e : Engine Uc) (me : MemEngine Uc Ctx) where
  module _ (mem : IsMemory e me) (saved : ℕ → ℕ) where
    covered-mapped :
        (a : ℕ) (s : NativeHooksState Ctx) (rs : List RestoreRegion)
        → IsCopy e me mem saved s
        → All (IsBacked s.content_regions) rs
        → covered rs a ≡ true
        → mem.mapped a ≡ true
    covered-mapped a s [] copy backed on = absurd (ground (arith, on))
    covered-mapped a s (r ∷ rs) copy backed on =
        elim (Bool-cases (leb r.guest_addr a && ltb a (r.guest_addr + r.size))) [
          | inr past ↦ covered-mapped a s rs copy backed.1 (ground (arith, on, past))
          | inl here ↦
              (let b = backed.0 in
                let low : b.region.guest_addr ≤ a = ground (arith, here, b.low) in
                let spot : b.region.guest_addr + (a - b.region.guest_addr) ≡ a =
                  omega (arith, low) in
                subst (λ x. mem.mapped x ≡ true) spot
                  (copy.content_mapped r.buffer (a - b.region.guest_addr) b.region b.at
                    (ground (arith, here, low, b.high))))
        ]

    covered_null-mapped :
        (a : ℕ) (s : NativeHooksState Ctx) (rs : List NullRegion)
        → IsCopy e me mem saved s
        → All (IsNulled s.nullregions) rs
        → covered_null rs a ≡ true
        → mem.mapped a ≡ true
    covered_null-mapped a s [] copy nulled on = absurd (ground (arith, on))
    covered_null-mapped a s (r ∷ rs) copy nulled on =
        elim (Bool-cases (leb r.start a && ltb a (r.start + r.size))) [
          | inr past ↦ covered_null-mapped a s rs copy nulled.1 (ground (arith, on, past))
          | inl here ↦
              copy.null_mapped a (nulled.0.nulls a (ground (arith, here), ground (arith, here)))
        ]

    restores-mapped :
        (a : ℕ) (s : NativeHooksState Ctx)
        → IsTracking s
        → IsCopy e me mem saved s
        → restores s a ≡ true
        → mem.mapped a ≡ true
    restores-mapped a s t copy on = elim (Bool-cases (covered s.restore_content_regions a)) [
      | inl content ↦ covered-mapped a s s.restore_content_regions copy t.backed content
      | inr elsewhere ↦
          covered_null-mapped a s s.restore_nullregions copy t.nulled
            (ground (arith, on, elsewhere))
    ]

    -- Memory is as it was saved, but for what a restore gives back.
    pub record IsRestorable (s : NativeHooksState Ctx) (u : Uc) : Type 0 where
      pub tracking : IsTracking s
      pub copy : IsCopy e me mem saved s
      pub clean : (a : ℕ) → restores s a ≡ false → mem.peek a u ≡ saved a

    store-IsRestorable :
        (address : ℕ) (bs : List ℕ) (s : NativeHooksState Ctx) (u : Uc)
        → ((k : ℕ) → k < length bs → restores s (address + k) ≡ true)
        → IsRestorable s u
        → IsRestorable s (e.mem_write address bs u).1
    store-IsRestorable address bs s u within inv = record {
      tracking = inv.tracking;
      copy = inv.copy;
      clean = λ a out. elim (Bool-cases (leb address a && ltb a (address + length bs))) [
        | inl written ↦
            (let spot : address + (a - address) ≡ a = ground (arith, written) in
              let on : restores s a ≡ true =
                subst (λ x. restores s x ≡ true) spot
                  (within (a - address) (ground (arith, written))) in
              absurd (ground (arith, on, out)))
        | inr untouched ↦ ground (
          arith,
          untouched,
          mem.peek_written a address bs u
              (λ k low. restores-mapped (address + k) s inv.tracking inv.copy (within k low)),
          inv.clean a out,
        )
      ];
    }

    IsCopy-same :
        (s s' : NativeHooksState Ctx)
        → SameSaved s s'
        → IsCopy e me mem saved s
        → IsCopy e me mem saved s'
    IsCopy-same s s' same copy = record {
      long = λ i c at_i. copy.long i c (rw⁻¹ same.content at_i);
      bytes = λ i k c at_i. copy.bytes i k c (rw⁻¹ same.content at_i);
      nulls = λ a on. copy.nulls a (rw⁻¹ same.null on);
      content_mapped = λ i k c at_i. copy.content_mapped i k c (rw⁻¹ same.content at_i);
      null_mapped = λ a on. copy.null_mapped a (rw⁻¹ same.null on);
    }

    -- The activation of a page only widens what a restore gives back.
    activated-IsRestorable :
        (address : ℕ) (s : NativeHooksState Ctx) (u u' : Uc)
        → ((a : ℕ) → mem.peek a u' ≡ mem.peek a u)
        → IsRestorable s u
        → IsRestorable (activate_page_staterestore address s).1 u'
    activated-IsRestorable address s u u' unchanged inv =
        let (t, same, all) = activate_page-Activates address s inv.tracking in
        record {
          tracking = t;
          copy = IsCopy-same s (activate_page_staterestore address s).1 same inv.copy;
          clean = λ a out. unchanged a ∙ inv.clean a (ground (arith, all a, out));
        }

    -- The bytes of a write within the activated page will be restored.
    activated_page :
        (address size value : ℕ) (s : NativeHooksState Ctx)
        → address + size ≤ page_of address + page_size
        → IsTracking s
        → (activate_page_staterestore (page_of address) s).0 ≡ true
        → (k : ℕ) → k < length (value_bytes size value)
        → restores (activate_page_staterestore (page_of address) s).1 (address + k) ≡ true
    activated_page address size value s near t activated k low =
        let (t', same, all) = activate_page-Activates (page_of address) s t in
        let page : page_of (page_of address) ≡ page_of address = omega arith in
        ground (
          arith,
          all (address + k),
          activated_is_saved (page_of address) s activated,
          page,
          near,
          low,
          length-value_bytes size value,
        )

    Step-IsRestorable :
        (s s' : NativeHooksState Ctx) (u u' : Uc)
        → Step e me s u s' u'
        → IsRestorable s u
        → IsRestorable s' u'
    Step-IsRestorable s _ u _ (store address bs _ _ within) inv =
        store-IsRestorable address bs s u within inv
    Step-IsRestorable s _ u _ (restored _ _) inv = record {
      tracking = inv.tracking;
      copy = inv.copy;
      clean = λ a out.
          ground
            (arith, restore-peek e me mem saved a s u inv.tracking inv.copy, out, inv.clean a out);
    }
    Step-IsRestorable s s' u u' (refused address size value _ _ _ _ refusal) inv =
        let (state, engine) = hook_refused e me address size value s s' u u' refusal in
        rw (state, engine) (activated-IsRestorable (page_of address) s u u (λ a. refl) inv)
    Step-IsRestorable s s' u u' (fault address size value _ _ _ _ near handled) inv =
        let (activated, state, perms, engine) =
          hook_handled e me address size value s s' u u' handled in
        rw (state, engine)
          (store-IsRestorable address (value_bytes size value)
            (activate_page_staterestore (page_of address) s).1
            (me.mem_protect (page_of address) page_size perms u).1
            (activated_page address size value s near inv.tracking activated)
            (activated-IsRestorable (page_of address) s u
              (me.mem_protect (page_of address) page_size perms u).1
              (λ a. mem.peek_protected a (page_of address) page_size perms u) inv))

    Steps-IsRestorable :
        (s s' : NativeHooksState Ctx) (u u' : Uc)
        → Steps e me s u s' u'
        → IsRestorable s u
        → IsRestorable s' u'
    Steps-IsRestorable s _ u _ (start _ _) inv = inv
    Steps-IsRestorable s s'' u u'' (next _ s' _ _ u' _ before step) inv =
        Step-IsRestorable s' s'' u' u'' step (Steps-IsRestorable s s' u u' before inv)

    -- After any sequence of handled page faults within a page, refused faults, stores to pages
    -- that will be restored and earlier restores, a restore gives every byte of memory its
    -- value at the snapshot, if the regions of the snapshot are mapped whole pages without
    -- overlap that hold the bytes that memory had then, the regions to be restored at the start
    -- lie within them, and the memory of the engine behaves as documented.
    pub restored_after-Steps :
        (s s' : NativeHooksState Ctx) (u u' : Uc) (a : ℕ)
        → IsTracking s
        → IsCopy e me mem saved s
        → ((b : ℕ) → mem.peek b u ≡ saved b)
        → Steps e me s u s' u'
        → mem.peek a (native_hooks_restore_snapshot e me s' u').1 ≡ saved a
    restored_after-Steps s s' u u' a t copy whole steps =
        let inv =
          Steps-IsRestorable s s' u u' steps
            (record { tracking = t; copy = copy; clean = λ b out. whole b }) in
        ground (arith, restore-peek e me mem saved a s' u' inv.tracking inv.copy, inv.clean a)
