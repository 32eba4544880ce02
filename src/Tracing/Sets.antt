-- ===== src/Tracing/Sets.antt =====
-- The sets of khash.h, which native_tracing.c uses and which the repository copies, as an interface
-- with the behaviour that they document.
use fuzzware_emulator.Prelude.{ℕ, ◌≡◌, Bool, false, ◌||◌, List, Distinct, has, ◌==◌}

pub record HashSet (S : Type 0) : Type 0 where
  pub kh_init : S
  -- whether `kh_get` finds the key
  pub kh_has : ℕ → S → Bool
  pub kh_put : ℕ → S → S
  pub kh_clear : S → S
  -- the keys that `kh_foreach_key` goes through
  pub kh_keys : S → List ℕ

pub record IsHashSet {S : Type 0} (sets : HashSet S) : Type 0 where
  pub has_init : (k : ℕ) → sets.kh_has k sets.kh_init ≡ false
  pub has_put : (k j : ℕ) (s : S) → sets.kh_has k (sets.kh_put j s) ≡ ((k == j) || sets.kh_has k s)
  pub has_clear : (k : ℕ) (s : S) → sets.kh_has k (sets.kh_clear s) ≡ false
  pub has_keys : (k : ℕ) (s : S) → has k (sets.kh_keys s) ≡ sets.kh_has k s
  pub distinct_keys : (s : S) → Distinct (sets.kh_keys s)
