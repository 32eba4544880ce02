-- ===== src/UcSnapshot/Taken/Saved.antt =====
-- The regions into which native_hooks_take_snapshot of uc_snapshot.c cuts memory have the layout
-- and the contents that the restore asks of them.
use fuzzware_emulator.Prelude.{
  ℕ, zero, suc, ◌+◌, ◌<◌, ◌≡◌, ◌≢◌, sym, subst, ◌∙◌, true, false, List, [], ◌∷◌, ◌++◌, none, some,
  arith, inl, inr, Bool-cases, ◌⊎◌, length, get_elem?, get_elem?-snoc,
}
use fuzzware_emulator.Engine.{Engine}
use fuzzware_emulator.Input.{take}
use fuzzware_emulator.UcSnapshot.{NativeHooksState, ContentRegion, NullRegion}
use fuzzware_emulator.UcSnapshot.Memory.{MemEngine, IsMemory, nth}
use fuzzware_emulator.UcSnapshot.Layout.{IsPaged, Within, IsLaidOut}
use fuzzware_emulator.UcSnapshot.Nulled.{covered_null, covered_null-append}
use fuzzware_emulator.UcSnapshot.Restored.{IsCopy}
use fuzzware_emulator.UcSnapshot.Taken.{add_staterestore_region}
use fuzzware_emulator.UcSnapshot.Taken.Cut.{content_byte}

-- An address for which no byte is recorded lies in no region.
content_byte-none :
    (cs : List ContentRegion) (i a : ℕ) (c : ContentRegion)
    → get_elem? cs i ≡ some c
    → Within c.guest_addr c.size a
    → content_byte cs a ≢ none
content_byte-none [] i a c at_i inside none_at = absurd (ground (arith, at_i))
content_byte-none (d ∷ ds) zero a c at_i inside none_at =
    ground (arith, at_i, inside.0, inside.1, none_at)
content_byte-none (d ∷ ds) (suc i) a c at_i inside none_at =
    ground (arith, none_at, content_byte-none ds i a c at_i inside)

-- A region of whole pages that shares no address with those before it.
IsLaidOut-snoc :
    (cs : List ContentRegion) (c : ContentRegion)
    → IsLaidOut cs
    → IsPaged c.guest_addr c.size
    → ((a : ℕ) → Within c.guest_addr c.size a → content_byte cs a ≡ none)
    → IsLaidOut (cs ++ c ∷ [])
IsLaidOut-snoc cs c l paged fresh = record {
  paged = λ i d at_i. elim (get_elem?-snoc cs c d i at_i) [
    | inl before ↦ l.paged i d before
    | inr last ↦ subst (λ (x : ContentRegion). IsPaged x.guest_addr x.size) (sym last.1) paged
  ];
  apart = λ i j a d f at_i at_j in_d in_f. elim (get_elem?-snoc cs c d i at_i) [
    | inl d_before ↦ elim (get_elem?-snoc cs c f j at_j) [
      | inl f_before ↦ l.apart i j a d f d_before f_before in_d in_f
      | inr f_last ↦ absurd (
          content_byte-none cs i a d d_before in_d
            (fresh a (subst (λ (x : ContentRegion). Within x.guest_addr x.size a) f_last.1 in_f)))
    ]
    | inr d_last ↦ elim (get_elem?-snoc cs c f j at_j) [
      | inl f_before ↦ absurd (
          content_byte-none cs j a f f_before in_f
            (fresh a (subst (λ (x : ContentRegion). Within x.guest_addr x.size a) d_last.1 in_d)))
      | inr f_last ↦ d_last.0 ∙ sym f_last.0
    ]
  ];
}

module _ {Uc Ctx : Type 0} (e : Engine Uc) (me : MemEngine Uc Ctx) (mem : IsMemory e me)
    (saved : ℕ → ℕ) where
  -- A snapshot in the making: its regions are whole pages without overlap that are mapped and hold
  -- the bytes of the memory, and nothing is to be restored yet.
  pub record IsSaved (s : NativeHooksState Ctx) : Type 0 where
    pub laid_out : IsLaidOut s.content_regions
    pub null_paged :
        (i : ℕ) (r : NullRegion) → get_elem? s.nullregions i ≡ some r → IsPaged r.start r.size
    pub copy : IsCopy e me mem saved s
    pub no_content : s.restore_content_regions ≡ []
    pub no_null : s.restore_nullregions ≡ []

  pub null-IsSaved :
      (start size : ℕ) (bytes : List ℕ) (s : NativeHooksState Ctx)
      → IsSaved s
      → IsPaged start size
      → ((a : ℕ) → Within start size a → (saved a ≡ 0) × (mem.mapped a ≡ true))
      → IsSaved (add_staterestore_region bytes start size true s)
  unfolding add_staterestore_region
  null-IsSaved start size bytes s v paged zeroes =
      let r : NullRegion = record { start = start; size = size } in
      let on : (a : ℕ)
          → covered_null (s.nullregions ++ r ∷ []) a ≡ true
          → (covered_null s.nullregions a ≡ true) ⊎ Within start size a =
        λ a h. elim (Bool-cases (covered_null s.nullregions a)) [
          | inl before ↦ inl before
          | inr new ↦ inr (
            ground (arith, h, new, covered_null-append s.nullregions (r ∷ []) a),
            ground (arith, h, new, covered_null-append s.nullregions (r ∷ []) a),
          )
        ] in
      record {
        laid_out = v.laid_out;
        null_paged = λ i q at_i. elim (get_elem?-snoc s.nullregions r q i at_i) [
          | inl before ↦ v.null_paged i q before
          | inr last ↦ subst (λ (x : NullRegion). IsPaged x.start x.size) (sym last.1) paged
        ];
        copy = record {
          long = v.copy.long;
          bytes = v.copy.bytes;
          nulls = λ a h. elim (on a h) [
            | inl before ↦ v.copy.nulls a before
            | inr new ↦ (zeroes a new).0
          ];
          content_mapped = v.copy.content_mapped;
          null_mapped = λ a h. elim (on a h) [
            | inl before ↦ v.copy.null_mapped a before
            | inr new ↦ (zeroes a new).1
          ];
        };
        no_content = v.no_content;
        no_null = v.no_null;
      }

  pub content-IsSaved :
      (start size : ℕ) (bytes : List ℕ) (s : NativeHooksState Ctx)
      → IsSaved s
      → IsPaged start size
      → ((a : ℕ) → Within start size a → content_byte s.content_regions a ≡ none)
      → length (take size bytes) ≡ size
      → ((k : ℕ)
          → k < size
          → (nth (take size bytes) k ≡ saved (start + k)) × (mem.mapped (start + k) ≡ true))
      → IsSaved (add_staterestore_region bytes start size false s)
  unfolding add_staterestore_region
  content-IsSaved start size bytes s v paged fresh long byte =
      let c : ContentRegion = record {
        guest_addr = start;
        size = size;
        contents = take size bytes;
      } in
      record {
        laid_out = IsLaidOut-snoc s.content_regions c v.laid_out paged fresh;
        null_paged = v.null_paged;
        copy = record {
          long = λ i d at_i. elim (get_elem?-snoc s.content_regions c d i at_i) [
            | inl before ↦ v.copy.long i d before
            | inr last ↦ subst (λ (x : ContentRegion). length x.contents ≡ x.size) (sym last.1) long
          ];
          bytes = λ i k d at_i. elim (get_elem?-snoc s.content_regions c d i at_i) [
            | inl before ↦ v.copy.bytes i k d before
            | inr last ↦
                subst
                  (λ (x : ContentRegion). k < x.size → nth x.contents k ≡ saved (x.guest_addr + k))
                  (sym last.1) (λ low. (byte k low).0)
          ];
          nulls = v.copy.nulls;
          content_mapped = λ i k d at_i. elim (get_elem?-snoc s.content_regions c d i at_i) [
            | inl before ↦ v.copy.content_mapped i k d before
            | inr last ↦
                subst (λ (x : ContentRegion). k < x.size → mem.mapped (x.guest_addr + k) ≡ true)
                  (sym last.1) (λ low. (byte k low).1)
          ];
          null_mapped = v.copy.null_mapped;
        };
        no_content = v.no_content;
        no_null = v.no_null;
      }
