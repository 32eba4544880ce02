-- ===== src/Tracing.antt =====
-- harness/fuzzware_harness/native/native_tracing.c and .h: the sets of the basic blocks and of the
-- memory-mapped accesses that were seen, the hash over the basic blocks, and the files written on
-- exit. A file is the list of its lines, a line the numbers and the letter in it.
--
-- The sets (khash.h) are an interface; memory for them can be had. A pointer that may be `NULL` is an
-- option.
pub mod Sets
pub mod Setup
pub mod Context
pub mod Tracked
pub mod Refined
pub mod Written
mod Tests
use fuzzware_emulator.Prelude.{
  ℕ, zero, suc, ◌+◌, ◌-◌, ◌*◌, ◌/◌, ◌%◌, ◌^◌, Bool, true, false, ◌&&◌, ◌||◌, List, [], ◌∷◌, ◌++◌,
  map, Option, none, some, Run, ok, halt, Halt, ◌>>=◌, if◌then◌else◌, u32_mod, u64_mod,
}
use fuzzware_emulator.Engine.{Engine, Reg}
use fuzzware_emulator.Tracing.Sets.{HashSet}

unfoldable pub dw_sdbm_hash : (state value : ℕ) → ℕ
dw_sdbm_hash state value =
    (value + state * 2 ^ 6 % u64_mod + state * 2 ^ 16 % u64_mod + u64_mod - state) % u64_mod

-- The bits set in one of two numbers of `n` bits.
unfoldable pub or_bits : (n a b : ℕ) → ℕ
or_bits zero a b = 0
or_bits (suc n) a b = (a % 2 + b % 2 + 1) / 2 + 2 * or_bits n (a / 2) (b / 2)

-- The address may have more than 32 bits.
unfoldable pub encode_mmio_access_context : (pc addr : ℕ) → ℕ
encode_mmio_access_context pc addr =
    addr % u32_mod + u32_mod * or_bits 32 (pc % u32_mod) (addr / u32_mod % u32_mod)

unfoldable pub decode_mmio_access_context_pc : ℕ → ℕ
decode_mmio_access_context_pc encoded = encoded / u32_mod % u32_mod

unfoldable pub decode_mmio_access_context_addr : ℕ → ℕ
decode_mmio_access_context_addr encoded = encoded % u32_mod

-- A base set and its scratch set.
pub record Pair (S : Type 0) : Type 0 where
  pub base : Option S
  pub scratch : Option S

-- `struct TraceState`
pub record TraceState (S : Type 0) : Type 0 where
  pub bb_hash_base : ℕ
  pub bb_hash : ℕ
  pub basic_blocks : Pair S
  pub writes : Pair S
  pub reads : Pair S

-- The state before `init_tracing`.
abbrev pub initial_trace_state : {S : Type 0} → TraceState S
initial_trace_state = record {
  bb_hash_base = 0;
  bb_hash = 0;
  basic_blocks = record { base = none; scratch = none };
  writes = record { base = none; scratch = none };
  reads = record { base = none; scratch = none };
}

-- Whether the paths of the files are given.
pub record TracePaths : Type 0 where
  pub bbl_set : Bool
  pub bbl_hash : Bool
  pub mmio_set : Bool

pub data TraceLine : Type 0 where
  block_line : ℕ → TraceLine
  hash_line : ℕ → TraceLine
  read_line : (pc addr : ℕ) → TraceLine
  write_line : (pc addr : ℕ) → TraceLine

-- The files of the basic blocks, of the hash and of the accesses.
pub record TraceFiles : Type 0 where
  pub blocks_file : Option (List TraceLine)
  pub hash_file : Option (List TraceLine)
  pub accesses_file : Option (List TraceLine)

abbrev pub access_line : (ℕ → ℕ → TraceLine) → ℕ → TraceLine
access_line line context =
    line (decode_mmio_access_context_pc context) (decode_mmio_access_context_addr context)

-- Whether a pointer is not `NULL`.
abbrev pub is_set {ℓ} : {A : Type ℓ} → Option A → Bool
is_set none = false
is_set (some s) = true

module _ {S : Type 0} (sets : HashSet S) where
  -- A key that the base set does not hold goes into the scratch set.
  unfoldable pub note_key : ℕ → Pair S → Run (Pair S)
  note_key k p = elim p.base [
    | none ↦ halt Halt.null_deref
    | some base ↦ elim (sets.kh_has k base) [
      | true ↦ ok p
      | false ↦ elim p.scratch [
        | none ↦ halt Halt.null_deref
        | some scratch ↦ ok (record p { scratch = some (sets.kh_put k scratch) })
      ]
    ]
  ]

  unfoldable pub hook_block_trace_set : (address : ℕ) → TraceState S → Run (TraceState S)
  hook_block_trace_set address t = do
    p ← note_key (address % u32_mod) t.basic_blocks
    ok (record t { basic_blocks = p })

  unfoldable pub hook_block_trace_hash_bbs : (address : ℕ) → TraceState S → TraceState S
  hook_block_trace_hash_bbs address t = record t {
    bb_hash = dw_sdbm_hash t.bb_hash (address % u32_mod);
  }

  unfoldable pub hook_mem_trace_mmio_access :
      {Uc : Type 0}
      → Engine Uc
      → (is_write : Bool) (addr : ℕ) → Uc
      → TraceState S
      → Run (TraceState S)
  hook_mem_trace_mmio_access e is_write addr u t =
      let context = encode_mmio_access_context (e.reg_read Reg.pc u) addr in
      elim is_write [
        | true ↦ (do p ← note_key context t.writes; ok (record t { writes = p }))
        | false ↦ (do p ← note_key context t.reads; ok (record t { reads = p }))
      ]

  abbrev pub keys_of : Option S → Run (List ℕ)
  keys_of none = halt Halt.null_deref
  keys_of (some s) = ok (sets.kh_keys s)

  -- The base set comes before the scratch set.
  unfoldable pub pair_keys : Pair S → Run (List ℕ)
  pair_keys p = do base ← keys_of p.base; scratch ← keys_of p.scratch; ok (base ++ scratch)

  unfoldable pub write_bbl_set : TracePaths → TraceState S → Run (Option (List TraceLine))
  write_bbl_set paths t = elim paths.bbl_set [
    | false ↦ ok none
    | true ↦ (do keys ← pair_keys t.basic_blocks; ok (some (map block_line keys)))
  ]

  unfoldable pub write_mmio_set : TracePaths → TraceState S → Run (Option (List TraceLine))
  write_mmio_set paths t = elim paths.mmio_set [
    | false ↦ ok none
    | true ↦ (do
      reads ← pair_keys t.reads
      writes ← pair_keys t.writes
      ok (some (map (access_line read_line) reads ++ map (access_line write_line) writes)))
  ]

  unfoldable pub exit_hook_write_trace_sets : TracePaths → TraceState S → Run TraceFiles
  exit_hook_write_trace_sets paths t = do
    bbls ← write_bbl_set paths t
    accesses ← write_mmio_set paths t
    ok (record {
      blocks_file = bbls;
      hash_file = if paths.bbl_hash then some (hash_line t.bb_hash ∷ []) else none;
      accesses_file = accesses;
    })

  abbrev pub put_all : List ℕ → S → S
  put_all [] s = s
  put_all (k ∷ ks) s = put_all ks (sets.kh_put k s)

  -- The scratch set is moved into the base set.
  unfoldable pub merge : Pair S → Run (Pair S)
  merge p = elim p.base [
    | none ↦ halt Halt.null_deref
    | some base ↦ elim p.scratch [
      | none ↦ halt Halt.null_deref
      | some scratch ↦ ok (record {
        base = some (put_all (sets.kh_keys scratch) base);
        scratch = some (sets.kh_clear scratch);
      })
    ]
  ]

  unfoldable pub tracing_take_snapshot : TracePaths → TraceState S → Run (TraceState S)
  tracing_take_snapshot paths t = do
    blocks ← if is_set t.basic_blocks.base then merge t.basic_blocks else ok t.basic_blocks
    let both = is_set t.reads.base && is_set t.writes.base
    reads ← if both then merge t.reads else ok t.reads
    writes ← if both then merge t.writes else ok t.writes
    ok (record {
      bb_hash_base = if paths.bbl_hash then t.bb_hash else t.bb_hash_base;
      bb_hash = t.bb_hash;
      basic_blocks = blocks;
      writes = writes;
      reads = reads;
    })

  -- `kh_clear` does nothing with `NULL`.
  abbrev pub clear_scratch : Pair S → Pair S
  clear_scratch p = elim p.scratch [
    | none ↦ p
    | some scratch ↦
        if is_set p.base then record p { scratch = some (sets.kh_clear scratch) } else p
  ]

  unfoldable pub tracing_restore_snapshot : TracePaths → TraceState S → TraceState S
  tracing_restore_snapshot paths t = record {
    bb_hash_base = t.bb_hash_base;
    bb_hash = if paths.bbl_hash then t.bb_hash_base else t.bb_hash;
    basic_blocks = clear_scratch t.basic_blocks;
    writes = clear_scratch t.writes;
    reads = clear_scratch t.reads;
  }
