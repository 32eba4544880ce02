-- ===== src/Tracing/Tracked.antt =====
-- The pair of a base set and a scratch set of native_tracing.c as one set that remembers what it was
-- at the snapshot.
use fuzzware_emulator.Prelude.{
  ℕ, ◌≡◌, refl, Bool, true, false, ◌||◌, List, [], ◌∷◌, ◌++◌, some, ok, arith, Distinct, has, ◌==◌,
  inl, inr, Bool-cases,
}
use fuzzware_emulator.Tracing.{Pair, note_key, pair_keys, put_all, merge, clear_scratch}
use fuzzware_emulator.Tracing.Setup.{fresh_pair}
use fuzzware_emulator.Tracing.Sets.{HashSet, IsHashSet}

abbrev pub insert : ℕ → (ℕ → Bool) → ℕ → Bool
insert k f j = (j == k) || f j

has-append : (k : ℕ) (xs ys : List ℕ) → has k (xs ++ ys) ≡ (has k xs || has k ys)
has-append k [] ys = refl
has-append k (x ∷ xs) ys = ground (arith, has-append k xs ys)

Distinct-append :
    (xs ys : List ℕ)
    → Distinct xs
    → Distinct ys
    → ((k : ℕ) → has k xs ≡ true → has k ys ≡ false)
    → Distinct (xs ++ ys)
Distinct-append [] ys dx dy apart = dy
Distinct-append (x ∷ xs) ys dx dy apart = ground (
  arith,
  has-append x xs ys,
  apart x,
  Distinct-append xs ys dx.1 dy (λ k h. apart k (ground (arith, h))),
)

module _ {S : Type 0} (sets : HashSet S) (faithful : IsHashSet sets) where
  -- `saved` are the keys at the snapshot, `now` the ones of the present.
  pub record Tracks (p : Pair S) (saved now : ℕ → Bool) : Type 0 where
    pub base : S
    pub scratch : S
    pub has_base : p.base ≡ some base
    pub has_scratch : p.scratch ≡ some scratch
    pub in_base : (k : ℕ) → sets.kh_has k base ≡ saved k
    pub in_either : (k : ℕ) → (sets.kh_has k base || sets.kh_has k scratch) ≡ now k
    pub apart : (k : ℕ) → sets.kh_has k base ≡ true → sets.kh_has k scratch ≡ false

  pub note_key-Tracks :
      (k : ℕ) (p : Pair S) (saved now : ℕ → Bool)
      → Tracks p saved now
      → (p' : Pair S) × (note_key sets k p ≡ ok p') × Tracks p' saved (insert k now)
  unfolding note_key
  note_key-Tracks k p saved now t = elim (Bool-cases (sets.kh_has k t.base)) [
    | inl known ↦ (
      p,
      ground (arith, t.has_base, known),
      record {
        base = t.base;
        scratch = t.scratch;
        has_base = t.has_base;
        has_scratch = t.has_scratch;
        in_base = t.in_base;
        in_either = λ j. ground (arith, t.in_either j, t.in_either k, known);
        apart = t.apart;
      },
    )
    | inr fresh ↦ (
      record p { scratch = some (sets.kh_put k t.scratch) },
      ground (arith, t.has_base, fresh, t.has_scratch),
      record {
        base = t.base;
        scratch = sets.kh_put k t.scratch;
        has_base = t.has_base;
        has_scratch = refl;
        in_base = t.in_base;
        in_either = λ j. ground (arith, t.in_either j, faithful.has_put j k t.scratch);
        apart = λ j h. ground (arith, t.apart j h, faithful.has_put j k t.scratch, fresh, h);
      },
    )
  ]

  has-put_all :
      (k : ℕ) (ks : List ℕ) (s : S)
      → sets.kh_has k (put_all sets ks s) ≡ (has k ks || sets.kh_has k s)
  has-put_all k [] s = refl
  has-put_all k (j ∷ ks) s =
      ground (arith, has-put_all k ks (sets.kh_put j s), faithful.has_put k j s)

  has-merged :
      (p : Pair S) (saved now : ℕ → Bool) (t : Tracks p saved now) (k : ℕ)
      → sets.kh_has k (put_all sets (sets.kh_keys t.scratch) t.base) ≡ now k
  has-merged p saved now t k = ground (
    arith,
    has-put_all k (sets.kh_keys t.scratch) t.base,
    faithful.has_keys k t.scratch,
    t.in_either k,
  )

  pub merge-Tracks :
      (p : Pair S) (saved now : ℕ → Bool)
      → Tracks p saved now
      → (p' : Pair S) × (merge sets p ≡ ok p') × Tracks p' now now
  unfolding merge
  merge-Tracks p saved now t = (
    record {
      base = some (put_all sets (sets.kh_keys t.scratch) t.base);
      scratch = some (sets.kh_clear t.scratch);
    },
    rw (t.has_base, t.has_scratch) refl,
    record {
      base = put_all sets (sets.kh_keys t.scratch) t.base;
      scratch = sets.kh_clear t.scratch;
      has_base = refl;
      has_scratch = refl;
      in_base = has-merged p saved now t;
      in_either = λ k. ground (arith, has-merged p saved now t k, faithful.has_clear k t.scratch);
      apart = λ k h. faithful.has_clear k t.scratch;
    },
  )

  pub clear_scratch-Tracks :
      (p : Pair S) (saved now : ℕ → Bool)
      → Tracks p saved now
      → Tracks (clear_scratch sets p) saved saved
  clear_scratch-Tracks p saved now t = record {
    base = t.base;
    scratch = sets.kh_clear t.scratch;
    has_base = ground (arith, t.has_base, t.has_scratch);
    has_scratch = ground (arith, t.has_base, t.has_scratch);
    in_base = t.in_base;
    in_either = λ k. ground (arith, t.in_base k, faithful.has_clear k t.scratch);
    apart = λ k h. faithful.has_clear k t.scratch;
  }

  pub fresh_pair-Tracks : (p : Pair S) → Tracks (fresh_pair sets true p) (λ k. false) (λ k. false)
  fresh_pair-Tracks p = record {
    base = sets.kh_init;
    scratch = sets.kh_init;
    has_base = refl;
    has_scratch = refl;
    in_base = faithful.has_init;
    in_either = λ k. ground (arith, faithful.has_init k);
    apart = λ k h. faithful.has_init k;
  }

  pub pair_keys-Tracks :
      (p : Pair S) (saved now : ℕ → Bool)
      → Tracks p saved now
      → (ks : List ℕ) × (pair_keys sets p ≡ ok ks) × Distinct ks × ((k : ℕ) → has k ks ≡ now k)
  unfolding pair_keys
  pair_keys-Tracks p saved now t = (
    sets.kh_keys t.base ++ sets.kh_keys t.scratch,
    rw (t.has_base, t.has_scratch) refl,
    Distinct-append (sets.kh_keys t.base) (sets.kh_keys t.scratch) (faithful.distinct_keys t.base)
        (faithful.distinct_keys t.scratch)
        (λ k h.
          ground (arith, h, t.apart k, faithful.has_keys k t.base, faithful.has_keys k t.scratch)),
    λ k. ground (
      arith,
      has-append k (sets.kh_keys t.base) (sets.kh_keys t.scratch),
      faithful.has_keys k t.base,
      faithful.has_keys k t.scratch,
      t.in_either k,
    ),
  )
