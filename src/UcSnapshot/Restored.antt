-- ===== src/UcSnapshot/Restored.antt =====
-- What native_hooks_restore_snapshot of uc_snapshot.c leaves in memory.
pub mod Steps
pub mod Reached
use fuzzware_emulator.Prelude.{
  ℕ, zero, suc, ◌+◌, ◌-◌, ◌≤◌, ◌<◌, ◌≡◌, refl, sym, subst, ap, ◌∙◌, Bool, true, false, ◌&&◌, ◌||◌,
  List, [], ◌∷◌, some, All, arith, inl, inr, Bool-cases, get_elem?, length, ltb, leb, if◌then◌else◌,
}
use fuzzware_emulator.Engine.{Engine}
use fuzzware_emulator.Input.{take, drop}
use fuzzware_emulator.UcSnapshot.{
  ContentRegion, NullRegion, RestoreRegion, NativeHooksState, pointed, write_back, zero_back,
  native_hooks_restore_snapshot,
}
use fuzzware_emulator.UcSnapshot.Memory.{MemEngine, IsMemory, nth}
use fuzzware_emulator.UcSnapshot.Layout.{Within}
use fuzzware_emulator.UcSnapshot.Backed.{IsBacked, covered}
use fuzzware_emulator.UcSnapshot.Nulled.{IsNulled, covered_null}
use fuzzware_emulator.UcSnapshot.Activated.{IsTracking, restores}

pub length-take-drop : (n m : ℕ) (xs : List ℕ) → m + n ≤ length xs → length (take n (drop m xs)) ≡ n
length-take-drop zero m xs long = refl
length-take-drop (suc n) zero [] long = absurd (omega (arith, long))
length-take-drop (suc n) zero (x ∷ xs) long = ap suc (length-take-drop n 0 xs (omega (arith, long)))
length-take-drop (suc n) (suc m) [] long = absurd (omega (arith, long))
length-take-drop (suc n) (suc m) (x ∷ xs) long = length-take-drop (suc n) m xs (omega (arith, long))

pub nth-take : (n k : ℕ) (xs : List ℕ) → k < n → nth (take n xs) k ≡ nth xs k
nth-take zero k xs low = absurd (omega arith)
nth-take (suc n) k [] low = refl
nth-take (suc n) zero (x ∷ xs) low = refl
nth-take (suc n) (suc k) (x ∷ xs) low = nth-take n k xs (omega arith)

pub nth-drop : (m k : ℕ) (xs : List ℕ) → nth (drop m xs) k ≡ nth xs (m + k)
nth-drop zero k xs = ap (nth xs) (omega arith)
nth-drop (suc m) k [] = refl
nth-drop (suc m) k (x ∷ xs) =
    let next : suc (m + k) ≡ suc m + k = omega arith in rw⁻¹ next (nth-drop m k xs)

pointed-at :
    (cs : List ContentRegion) (i offset size : ℕ) (c : ContentRegion)
    → get_elem? cs i ≡ some c
    → pointed cs i offset size ≡ take size (drop offset c.contents)
pointed-at [] i offset size c at_i = absurd (ground (arith, at_i))
pointed-at (d ∷ ds) zero offset size c at_i = ground (arith, at_i)
pointed-at (d ∷ ds) (suc i) offset size c at_i = pointed-at ds i offset size c at_i

module _ {Uc Ctx : Type 0} (e : Engine Uc) (me : MemEngine Uc Ctx) (mem : IsMemory e me)
    (saved : ℕ → ℕ) where
  -- The regions of a snapshot hold the bytes of a memory, and are mapped.
  pub record IsCopy (s : NativeHooksState Ctx) : Type 0 where
    pub long :
        (i : ℕ) (c : ContentRegion)
        → get_elem? s.content_regions i ≡ some c
        → length c.contents ≡ c.size
    pub bytes :
        (i k : ℕ) (c : ContentRegion)
        → get_elem? s.content_regions i ≡ some c
        → k < c.size
        → nth c.contents k ≡ saved (c.guest_addr + k)
    pub nulls : (a : ℕ) → covered_null s.nullregions a ≡ true → saved a ≡ 0
    pub content_mapped :
        (i k : ℕ) (c : ContentRegion)
        → get_elem? s.content_regions i ≡ some c
        → k < c.size
        → mem.mapped (c.guest_addr + k) ≡ true
    pub null_mapped : (a : ℕ) → covered_null s.nullregions a ≡ true → mem.mapped a ≡ true

  written_region :
      (a : ℕ) (s : NativeHooksState Ctx) (r : RestoreRegion) (u : Uc)
      → IsCopy s
      → IsBacked s.content_regions r
      → mem.peek a
          (e.mem_write r.guest_addr (pointed s.content_regions r.buffer r.offset r.size) u).1
        ≡ (if leb r.guest_addr a && ltb a (r.guest_addr + r.size) then saved a else mem.peek a u)
  written_region a s r u copy b =
      let c = b.region in
      let inside : r.offset + r.size ≤ length c.contents =
        omega (arith, b.high, b.offset, copy.long r.buffer c b.at) in
      let len : length (take r.size (drop r.offset c.contents)) ≡ r.size =
        length-take-drop r.size r.offset c.contents inside in
      let here : (k : ℕ) → c.guest_addr + (r.offset + k) ≡ r.guest_addr + k =
        λ k. omega (arith, b.offset) in
      let byte : (k : ℕ)
          → k < r.size
          → nth (take r.size (drop r.offset c.contents)) k ≡ saved (r.guest_addr + k) =
        λ k low.
          nth-take r.size k (drop r.offset c.contents) low
          ∙ nth-drop r.offset k c.contents
          ∙ copy.bytes r.buffer (r.offset + k) c b.at (omega (arith, low, b.high, b.offset))
          ∙ ap saved (here k) in
      rw (pointed-at s.content_regions r.buffer r.offset r.size c b.at) (
        ground (
          arith,
          len,
          byte (a - r.guest_addr),
          mem.peek_written a r.guest_addr (take r.size (drop r.offset c.contents)) u (λ k low.
              subst (λ x. mem.mapped x ≡ true) (here k)
                (copy.content_mapped r.buffer (r.offset + k) c b.at
                  (omega (arith, low, len, b.high, b.offset)))),
        ))

  write_back-saved :
      (a : ℕ) (s : NativeHooksState Ctx) (rs : List RestoreRegion) (u : Uc)
      → IsCopy s
      → All (IsBacked s.content_regions) rs
      → mem.peek a (write_back e me s.content_regions rs u)
        ≡ (if covered rs a then saved a else mem.peek a u)
  unfolding write_back
  write_back-saved a s [] u copy backed = refl
  write_back-saved a s (r ∷ rs) u copy backed = ground (
    arith,
    write_back-saved a s rs
        (e.mem_write r.guest_addr (pointed s.content_regions r.buffer r.offset r.size) u).1 copy
        backed.1,
    written_region a s r u copy backed.0,
  )

  zero_back-saved :
      (a : ℕ) (s : NativeHooksState Ctx) (rs : List NullRegion) (u : Uc)
      → IsCopy s
      → All (IsNulled s.nullregions) rs
      → mem.peek a (zero_back e me rs u) ≡ (if covered_null rs a then saved a else mem.peek a u)
  unfolding zero_back
  zero_back-saved a s [] u copy nulled = refl
  zero_back-saved a s (r ∷ rs) u copy nulled = ground (
    arith,
    zero_back-saved a s rs (me.mem_set r.start 0 r.size u).1 copy nulled.1,
    mem.peek_set a r.start 0 r.size u (λ k low.
        copy.null_mapped (r.start + k)
          (nulled.0.nulls (r.start + k) (omega arith, omega (arith, low)))),
    nulled.0.nulls a,
    copy.nulls a,
  )

  -- The bytes of the regions to be restored are those of the snapshot, and no other byte changes.
  pub restore-peek :
      (a : ℕ) (s : NativeHooksState Ctx) (u : Uc)
      → IsTracking s
      → IsCopy s
      → mem.peek a (native_hooks_restore_snapshot e me s u).1
        ≡ (if restores s a then saved a else mem.peek a u)
  unfolding native_hooks_restore_snapshot
  restore-peek a s u t copy = ground (
    arith,
    zero_back-saved a s s.restore_nullregions
        (write_back e me s.content_regions s.restore_content_regions
          (me.context_restore s.uc_saved_context u))
        copy t.nulled,
    write_back-saved a s s.restore_content_regions (me.context_restore s.uc_saved_context u) copy
        t.backed,
    mem.peek_context a s.uc_saved_context u,
  )
