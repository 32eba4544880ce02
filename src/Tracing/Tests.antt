-- ===== src/Tracing/Tests.antt =====
-- A concrete set of keys, and a run with it that is traced.
use fuzzware_emulator.Prelude.{
  ℕ, ◌≡◌, refl, true, false, ◌||◌, List, [], ◌∷◌, ◌++◌, map, some, ok, Distinct, has, inl, inr, ◌⊎◌,
  Bool-cases, arith, ◌==◌,
}
use fuzzware_emulator.Chip.{Chip, zero_chip, chip_engine}
use fuzzware_emulator.Tracing.{
  TraceState, TracePaths, block_line, hash_line, read_line, write_line, initial_trace_state,
  access_line, exit_hook_write_trace_sets,
}
use fuzzware_emulator.Tracing.Setup.{start_traces}
use fuzzware_emulator.Tracing.Sets.{HashSet, IsHashSet}
use fuzzware_emulator.Tracing.Refined.{
  TraceEvent, block, access, snapshot, restore, see_all, run_events,
}
use fuzzware_emulator.Tracing.Written.{Enumerates, no_history, exit_hook-writes}

-- A list without repetitions.
abbrev KeyList : Type 0
KeyList = (ks : List ℕ) × Distinct ks

abbrev put_known : (k : ℕ) (s : KeyList) → (has k s.0 ≡ true) ⊎ (has k s.0 ≡ false) → KeyList
put_known k s (inl known) = s
put_known k s (inr fresh) = (k ∷ s.0, (fresh, s.1))

abbrev key_lists : HashSet KeyList
key_lists = record {
  kh_init = ([], tt);
  kh_has = λ k s. has k s.0;
  kh_put = λ k s. put_known k s (Bool-cases (has k s.0));
  kh_clear = λ s. ([], tt);
  kh_keys = λ s. s.0;
}

has-put_known :
    (k j : ℕ) (s : KeyList) (c : (has j s.0 ≡ true) ⊎ (has j s.0 ≡ false))
    → has k (put_known j s c).0 ≡ ((k == j) || has k s.0)
has-put_known k j s (inl known) = ground (arith, known)
has-put_known k j s (inr fresh) = refl

key_lists-IsHashSet : IsHashSet key_lists
key_lists-IsHashSet = record {
  has_init = λ k. refl;
  has_put = λ k j s. has-put_known k j s (Bool-cases (has j s.0));
  has_clear = λ k s. refl;
  has_keys = λ k s. refl;
  distinct_keys = λ s. s.1;
}

abbrev all_paths : TracePaths
all_paths = record { bbl_set = true; bbl_hash = true; mmio_set = true }

-- A block before the snapshot, one after it that is taken back, and the first again.
abbrev traced : List (TraceEvent Chip)
traced =
    block 0x100
    ∷ access false 0x4000_0000 zero_chip
    ∷ snapshot
    ∷ block 0x200
    ∷ access true 0x4000_0004 zero_chip
    ∷ restore
    ∷ block 0x100
    ∷ []

exit_hook_writes_example :
    (t : TraceState KeyList) × (blocks reads writes : List ℕ) × (run_events chip_engine key_lists
        all_paths traced
        (start_traces key_lists all_paths ((0x4000_0000, 0x4000_ffff) ∷ []) initial_trace_state).1
      ≡ ok t)
    × (exit_hook_write_trace_sets key_lists all_paths t
        ≡ ok (record {
          blocks_file = some (map block_line blocks);
          hash_file = some (hash_line (see_all chip_engine traced no_history).now.hash ∷ []);
          accesses_file =
              some (map (access_line read_line) reads ++ map (access_line write_line) writes);
        }))
    × (true ≡ true → Enumerates blocks (see_all chip_engine traced no_history).now.blocks)
    × (true ≡ true
        → Enumerates reads (see_all chip_engine traced no_history).now.reads
          × Enumerates writes (see_all chip_engine traced no_history).now.writes)
exit_hook_writes_example =
    exit_hook-writes key_lists key_lists-IsHashSet chip_engine all_paths
      ((0x4000_0000, 0x4000_ffff) ∷ []) traced
