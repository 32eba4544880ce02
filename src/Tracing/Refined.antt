-- ===== src/Tracing/Refined.antt =====
-- The traces of native_tracing.c as the sets of what has been seen since the start, but for what a
-- restored snapshot takes back.
use fuzzware_emulator.Prelude.{
  ℕ, ◌%◌, ◌≡◌, refl, Bool, true, false, List, [], ◌∷◌, none, Run, ok, ◌>>=◌, arith, if◌then◌else◌,
  u32_mod,
}
use fuzzware_emulator.Engine.{Engine, Reg}
use fuzzware_emulator.Tracing.{
  Pair, TraceState, TracePaths, dw_sdbm_hash, encode_mmio_access_context, note_key, merge, is_set,
  clear_scratch, hook_block_trace_set, hook_block_trace_hash_bbs, hook_mem_trace_mmio_access,
  tracing_take_snapshot, tracing_restore_snapshot,
}
use fuzzware_emulator.Tracing.Sets.{HashSet, IsHashSet}
use fuzzware_emulator.Tracing.Tracked.{
  insert, Tracks, note_key-Tracks, merge-Tracks, clear_scratch-Tracks,
}

-- What has been seen: blocks, the contexts of reads and of writes, and the hash.
pub record Seen : Type 0 where
  pub blocks : ℕ → Bool
  pub reads : ℕ → Bool
  pub writes : ℕ → Bool
  pub hash : ℕ

-- What had been seen at the snapshot, and what has been seen now.
pub record History : Type 0 where
  pub saved : Seen
  pub now : Seen

pub data TraceEvent (Uc : Type 0) : Type 0 where
  block : ℕ → TraceEvent Uc
  access : (is_write : Bool) (addr : ℕ) (u : Uc) → TraceEvent Uc
  snapshot restore : TraceEvent Uc

module _ {Uc : Type 0} (e : Engine Uc) where
  abbrev pub see : TraceEvent Uc → History → History
  see (block a) h = record h {
    now = record h.now {
      blocks = insert (a % u32_mod) h.now.blocks;
      hash = dw_sdbm_hash h.now.hash (a % u32_mod);
    };
  }
  see (access true addr u) h = record h {
    now = record h.now {
      writes = insert (encode_mmio_access_context (e.reg_read Reg.pc u) addr) h.now.writes;
    };
  }
  see (access false addr u) h = record h {
    now = record h.now {
      reads = insert (encode_mmio_access_context (e.reg_read Reg.pc u) addr) h.now.reads;
    };
  }
  see snapshot h = record h { saved = h.now }
  see restore h = record h { now = h.saved }

  abbrev pub see_all : List (TraceEvent Uc) → History → History
  see_all [] h = h
  see_all (x ∷ xs) h = see_all xs (see x h)

  module _ {S : Type 0} (sets : HashSet S) (paths : TracePaths) where
    -- The hooks that `start_traces` has added for the paths.
    abbrev pub run_event : TraceEvent Uc → TraceState S → Run (TraceState S)
    run_event (block a) t = do
      t' ← if paths.bbl_set then hook_block_trace_set sets a t else ok t
      ok (if paths.bbl_hash then hook_block_trace_hash_bbs sets a t' else t')
    run_event (access is_write addr u) t =
        if paths.mmio_set then hook_mem_trace_mmio_access sets e is_write addr u t else ok t
    run_event snapshot t = tracing_take_snapshot sets paths t
    run_event restore t = ok (tracing_restore_snapshot sets paths t)

    abbrev pub run_events : List (TraceEvent Uc) → TraceState S → Run (TraceState S)
    run_events [] t = ok t
    run_events (x ∷ xs) t = run_event x t >>= run_events xs

module _ {S : Type 0} (sets : HashSet S) (faithful : IsHashSet sets) where
  -- A pair that is in use tracks a set; one that is not has no base set.
  abbrev pub Follows : (in_use : Bool) → Pair S → (saved now : ℕ → Bool) → Type 0
  Follows true p saved now = Tracks sets faithful p saved now
  Follows false p saved now = p.base ≡ none

  pub record Refines (paths : TracePaths) (t : TraceState S) (h : History) : Type 0 where
    pub blocks : Follows paths.bbl_set t.basic_blocks h.saved.blocks h.now.blocks
    pub reads : Follows paths.mmio_set t.reads h.saved.reads h.now.reads
    pub writes : Follows paths.mmio_set t.writes h.saved.writes h.now.writes
    pub hash : paths.bbl_hash ≡ true → (t.bb_hash ≡ h.now.hash) × (t.bb_hash_base ≡ h.saved.hash)

  is_set-Follows :
      (in_use : Bool) (p : Pair S) (saved now : ℕ → Bool)
      → Follows in_use p saved now
      → is_set p.base ≡ in_use
  is_set-Follows true p saved now f = ground (arith, f.has_base)
  is_set-Follows false p saved now f = ground (arith, f)

  note-Follows :
      (in_use : Bool) (k : ℕ) (p : Pair S) (saved now : ℕ → Bool)
      → Follows in_use p saved now
      → (p' : Pair S) × ((if in_use then note_key sets k p else ok p) ≡ ok p')
        × Follows in_use p' saved (insert k now)
  note-Follows true k p saved now f = note_key-Tracks sets faithful k p saved now f
  note-Follows false k p saved now f = (p, refl, f)

  merge-Follows :
      (in_use : Bool) (p : Pair S) (saved now : ℕ → Bool)
      → Follows in_use p saved now
      → (p' : Pair S) × ((if in_use then merge sets p else ok p) ≡ ok p')
        × Follows in_use p' now now
  merge-Follows true p saved now f = merge-Tracks sets faithful p saved now f
  merge-Follows false p saved now f = (p, refl, f)

  clear-Follows :
      (in_use : Bool) (p : Pair S) (saved now : ℕ → Bool)
      → Follows in_use p saved now
      → Follows in_use (clear_scratch sets p) saved saved
  clear-Follows true p saved now f = clear_scratch-Tracks sets faithful p saved now f
  clear-Follows false p saved now f = ground (arith, f)

  module _ {Uc : Type 0} (e : Engine Uc) (paths : TracePaths) where
    run_event-Refines :
        (x : TraceEvent Uc) (t : TraceState S) (h : History)
        → Refines paths t h
        → (t' : TraceState S) × (run_event e sets paths x t ≡ ok t') × Refines paths t' (see e x h)
    unfolding hook_block_trace_set hook_block_trace_hash_bbs hook_mem_trace_mmio_access
        tracing_take_snapshot tracing_restore_snapshot
    run_event-Refines (block a) t h r =
        let (p, noted, f) =
          note-Follows paths.bbl_set (a % u32_mod) t.basic_blocks h.saved.blocks h.now.blocks
            r.blocks in
        (
          record t {
            basic_blocks = p;
            bb_hash = if paths.bbl_hash then dw_sdbm_hash t.bb_hash (a % u32_mod) else t.bb_hash;
          },
          ground (arith, noted),
          record {
            blocks = f;
            reads = r.reads;
            writes = r.writes;
            hash = λ on. ground (arith, on, r.hash on);
          },
        )
    run_event-Refines (access true addr u) t h r =
        let (p, noted, f) =
          note-Follows paths.mmio_set (encode_mmio_access_context (e.reg_read Reg.pc u) addr)
            t.writes h.saved.writes h.now.writes r.writes in
        (
          record t { writes = p },
          ground (arith, noted),
          record { blocks = r.blocks; reads = r.reads; writes = f; hash = r.hash },
        )
    run_event-Refines (access false addr u) t h r =
        let (p, noted, f) =
          note-Follows paths.mmio_set (encode_mmio_access_context (e.reg_read Reg.pc u) addr)
            t.reads h.saved.reads h.now.reads r.reads in
        (
          record t { reads = p },
          ground (arith, noted),
          record { blocks = r.blocks; reads = f; writes = r.writes; hash = r.hash },
        )
    run_event-Refines snapshot t h r =
        let (b, merged_b, fb) =
          merge-Follows paths.bbl_set t.basic_blocks h.saved.blocks h.now.blocks r.blocks in
        let (m, merged_m, fm) =
          merge-Follows paths.mmio_set t.reads h.saved.reads h.now.reads r.reads in
        let (w, merged_w, fw) =
          merge-Follows paths.mmio_set t.writes h.saved.writes h.now.writes r.writes in
        (
          record {
            bb_hash_base = if paths.bbl_hash then t.bb_hash else t.bb_hash_base;
            bb_hash = t.bb_hash;
            basic_blocks = b;
            writes = w;
            reads = m;
          },
          ground (
            arith,
            merged_b,
            merged_m,
            merged_w,
            is_set-Follows paths.bbl_set t.basic_blocks h.saved.blocks h.now.blocks r.blocks,
            is_set-Follows paths.mmio_set t.reads h.saved.reads h.now.reads r.reads,
            is_set-Follows paths.mmio_set t.writes h.saved.writes h.now.writes r.writes,
          ),
          record {
            blocks = fb;
            reads = fm;
            writes = fw;
            hash = λ on. ground (arith, on, r.hash on);
          },
        )
    run_event-Refines restore t h r = (
      tracing_restore_snapshot sets paths t,
      refl,
      record {
        blocks = clear-Follows paths.bbl_set t.basic_blocks h.saved.blocks h.now.blocks r.blocks;
        reads = clear-Follows paths.mmio_set t.reads h.saved.reads h.now.reads r.reads;
        writes = clear-Follows paths.mmio_set t.writes h.saved.writes h.now.writes r.writes;
        hash = λ on. ground (arith, on, r.hash on);
      },
    )

    pub run_events-Refines :
        (xs : List (TraceEvent Uc)) (t : TraceState S) (h : History)
        → Refines paths t h
        → (t' : TraceState S) × (run_events e sets paths xs t ≡ ok t')
          × Refines paths t' (see_all e xs h)
    run_events-Refines [] t h r = (t, refl, r)
    run_events-Refines (x ∷ xs) t h r =
        let (t', ran, r') = run_event-Refines x t h r in
        let (t'', rest, r'') = run_events-Refines xs t' (see e x h) r' in
        (t'', ground (arith, ran, rest), r'')
