-- ===== src/UcSnapshot/Memory.antt =====
-- The part of the CPU emulator that uc_snapshot.c uses beside the one of module Engine: contexts,
-- the map of the memory, its permissions, and the filling of memory.
use fuzzware_emulator.Prelude.{
  ℕ, ◌+◌, ◌-◌, ◌<◌, ◌≡◌, Bool, true, List, [], ◌∷◌, zero, suc, ◌&&◌, ltb, leb, if◌then◌else◌,
  length, has_bit, clear_bit,
}
use fuzzware_emulator.Engine.{Engine, UcErr, err_ok}

-- `uc_mem_region`; `end` is the last address.
pub record MemRegion : Type 0 where
  pub begin : ℕ
  pub end : ℕ
  pub perms : ℕ

-- UC_PROT_WRITE is bit 1.
abbrev pub has_write : ℕ → Bool
has_write perms = has_bit perms 1

abbrev pub without_write : ℕ → ℕ
without_write perms = clear_bit perms 1

pub record MemEngine (Uc Ctx : Type 0) : Type 0 where
  pub context_save : Uc → Ctx
  pub context_restore : Ctx → Uc → Uc
  pub mem_regions : Uc → List MemRegion
  pub mem_protect : (addr size perms : ℕ) → Uc → UcErr × Uc
  pub mem_set : (addr value size : ℕ) → Uc → UcErr × Uc

abbrev pub nth : List ℕ → ℕ → ℕ
nth [] i = 0
nth (b ∷ bs) zero = b
nth (b ∷ bs) (suc i) = nth bs i

-- What the API documents of memory, as far as the theorems use it: `peek` gives the byte at an
-- address, and `mapped` tells which addresses are mapped.
pub record IsMemory {Uc Ctx : Type 0} (e : Engine Uc) (me : MemEngine Uc Ctx) : Type 0 where
  pub peek : ℕ → Uc → ℕ
  pub mapped : ℕ → Bool
  pub peek_written :
      (a b : ℕ) (bs : List ℕ) (u : Uc)
      → ((k : ℕ) → k < length bs → mapped (b + k) ≡ true)
      → peek a (e.mem_write b bs u).1
        ≡ (if leb b a && ltb a (b + length bs) then nth bs (a - b) else peek a u)
  pub peek_set :
      (a b v size : ℕ) (u : Uc)
      → ((k : ℕ) → k < size → mapped (b + k) ≡ true)
      → peek a (me.mem_set b v size u).1 ≡ (if leb b a && ltb a (b + size) then v else peek a u)
  pub peek_protected :
      (a addr size perms : ℕ) (u : Uc) → peek a (me.mem_protect addr size perms u).1 ≡ peek a u
  pub peek_context : (a : ℕ) (c : Ctx) (u : Uc) → peek a (me.context_restore c u) ≡ peek a u

-- What the API documents of reading mapped memory and of changing its permissions.
pub record IsReadable {Uc Ctx : Type 0} {e : Engine Uc} {me : MemEngine Uc Ctx}
    (mem : IsMemory e me) : Type 0 where
  pub length_read :
      (a : ℕ) (buf : List ℕ) (u : Uc)
      → ((k : ℕ) → k < length buf → mem.mapped (a + k) ≡ true)
      → length (e.mem_read a buf u).1 ≡ length buf
  pub nth_read :
      (a k : ℕ) (buf : List ℕ) (u : Uc)
      → ((k : ℕ) → k < length buf → mem.mapped (a + k) ≡ true)
      → k < length buf
      → nth (e.mem_read a buf u).1 k ≡ mem.peek (a + k) u
  pub protect_mapped :
      (addr size perms : ℕ) (u : Uc)
      → ((k : ℕ) → k < size → mem.mapped (addr + k) ≡ true)
      → (me.mem_protect addr size perms u).0 ≡ err_ok
