-- ===== src/Tracing/Written.antt =====
-- What native_tracing.c writes on exit.
use fuzzware_emulator.Prelude.{
  ℕ, ◌≡◌, refl, Bool, true, false, List, [], ◌∷◌, ◌++◌, map, none, some, ok, arith, Distinct, has,
  if◌then◌else◌,
}
use fuzzware_emulator.Engine.{Engine}
use fuzzware_emulator.Tracing.{
  Pair, TraceState, TracePaths, block_line, hash_line, read_line, write_line, initial_trace_state,
  access_line, pair_keys, exit_hook_write_trace_sets, write_bbl_set, write_mmio_set,
}
use fuzzware_emulator.Tracing.Setup.{fresh_pair, start_traces}
use fuzzware_emulator.Tracing.Sets.{HashSet, IsHashSet}
use fuzzware_emulator.Tracing.Tracked.{fresh_pair-Tracks, pair_keys-Tracks}
use fuzzware_emulator.Tracing.Refined.{
  Seen, History, TraceEvent, see_all, run_events, Follows, Refines, run_events-Refines,
}

-- The keys of a set, each once.
abbrev pub Enumerates : List ℕ → (ℕ → Bool) → Type 0
Enumerates ks f = Distinct ks × ((k : ℕ) → has k ks ≡ f k)

abbrev pub nothing_seen : Seen
nothing_seen = record { blocks = λ k. false; reads = λ k. false; writes = λ k. false; hash = 0 }

abbrev pub no_history : History
no_history = record { saved = nothing_seen; now = nothing_seen }

module _ {S : Type 0} (sets : HashSet S) (faithful : IsHashSet sets) where
  pair_keys-Follows :
      (in_use : Bool) (p : Pair S) (saved now : ℕ → Bool)
      → Follows sets faithful in_use p saved now
      → (ks : List ℕ) × (in_use ≡ true → (pair_keys sets p ≡ ok ks) × Enumerates ks now)
  pair_keys-Follows true p saved now f =
      let (ks, keys, distinct, all) = pair_keys-Tracks sets faithful p saved now f in
      (ks, λ on. (keys, (distinct, all)))
  pair_keys-Follows false p saved now f = ([], λ on. absurd (ground (arith, on)))

  fresh_pair-Follows :
      (in_use : Bool)
      → Follows sets faithful in_use
          (fresh_pair sets in_use (record { base = none; scratch = none }))
          (λ k. false)
          (λ k. false)
  fresh_pair-Follows true = fresh_pair-Tracks sets faithful (record { base = none; scratch = none })
  fresh_pair-Follows false = refl

  start_traces-Refines :
      (paths : TracePaths) (ranges : List (ℕ × ℕ))
      → Refines sets faithful paths
          (start_traces sets paths ranges initial_trace_state).1
          no_history
  unfolding start_traces
  start_traces-Refines paths ranges = record {
    blocks = fresh_pair-Follows paths.bbl_set;
    reads = fresh_pair-Follows paths.mmio_set;
    writes = fresh_pair-Follows paths.mmio_set;
    hash = λ on. (refl, refl);
  }

  module _ {Uc : Type 0} (e : Engine Uc) (paths : TracePaths) where
    -- After the traces are started with any choice of files, every sequence of basic blocks,
    -- accesses, snapshots and restores runs without a fault, and each chosen file then holds
    -- what an abstract history says: each block and each context of an access once that has
    -- been seen and not been taken back by a restore, and the hash over these blocks. The hash
    -- sets have to behave as documented.
    pub exit_hook-writes :
        (ranges : List (ℕ × ℕ)) (events : List (TraceEvent Uc))
        → (t : TraceState S) × (blocks reads writes : List ℕ) × (run_events e sets paths events
              (start_traces sets paths ranges initial_trace_state).1
            ≡ ok t)
          × (exit_hook_write_trace_sets sets paths t
              ≡ ok (record {
                blocks_file = if paths.bbl_set then some (map block_line blocks) else none;
                hash_file =
                    if paths.bbl_hash
                    then some (hash_line (see_all e events no_history).now.hash ∷ [])
                    else none;
                accesses_file =
                    if paths.mmio_set
                    then some
                        (map (access_line read_line) reads ++ map (access_line write_line) writes)
                    else none;
              }))
          × (paths.bbl_set ≡ true → Enumerates blocks (see_all e events no_history).now.blocks)
          × (paths.mmio_set ≡ true
              → Enumerates reads (see_all e events no_history).now.reads
                × Enumerates writes (see_all e events no_history).now.writes)
    unfolding exit_hook_write_trace_sets write_bbl_set write_mmio_set
    exit_hook-writes ranges events =
        let (t, ran, r) =
          run_events-Refines sets faithful e paths events
            (start_traces sets paths ranges initial_trace_state).1 no_history
            (start_traces-Refines paths ranges) in
        let h : History = see_all e events no_history in
        let (bs, blocks) =
          pair_keys-Follows paths.bbl_set t.basic_blocks h.saved.blocks h.now.blocks r.blocks in
        let (rs, reads) =
          pair_keys-Follows paths.mmio_set t.reads h.saved.reads h.now.reads r.reads in
        let (ws, writes) =
          pair_keys-Follows paths.mmio_set t.writes h.saved.writes h.now.writes r.writes in
        (
          t,
          bs,
          rs,
          ws,
          ran,
          ground (
            arith,
            λ (on : paths.bbl_set ≡ true). (blocks on).0,
            λ (on : paths.mmio_set ≡ true). (reads on).0,
            λ (on : paths.mmio_set ≡ true). (writes on).0,
            λ (on : paths.bbl_hash ≡ true). (r.hash on).0,
          ),
          λ on. (blocks on).1,
          λ on. ((reads on).1, (writes on).1),
        )
