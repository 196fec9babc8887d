-- ===== src/FastMap/Make.antt =====
-- The constructor of include/fast_map.hpp as a whole, from `try_build` up.
use roshanfer_sidecar.Base.{
  ℕ, zero, suc, ◌+◌, ◌*◌, ◌^◌, ◌<◌, ◌≤◌, ◌≡◌, some_inj, none, bytes_eq, bytes_eq_refl, ℕ_discrete,
  refl, ap, sym, ◌∙◌, ◌⊎◌, inl, inr, List, [], ◌∷◌, true, false, some, Bytes, length, get_elem?,
  replicate, if◌then◌else◌, fatal, undefined, invalid_argument, ◌>>=◌, ok, err, arith, Option-cases,
}
use roshanfer_sidecar.FastMap.{
  Slot, LocalMap, is_pow2, occupied, probe, find_ptr, get, try_build, first_trial, trials, grow_cap,
  mem_key, has_duplicate, no_slots, make,
}
use roshanfer_sidecar.FastMap.Bits.{is_pow2_of_IsPow2, one-IsPow2, grow_cap_lem}
use roshanfer_sidecar.FastMap.Lookup.{Finds}
use roshanfer_sidecar.FastMap.Built.{
  AreKeys, mem_key-AreKeys, equals_key, free_slot, probe-slot_index, try_build-slots, get-try_build,
}
use roshanfer_sidecar.FastMap.Collide.{Collides, get_elem?-replicate, try_build-Collides}
use roshanfer_sidecar.FastMap.Build.{fill_only}

-- A key of the list is found in it.
mem_key_complete :
    (k : Bytes) (ks : List Bytes) (i : ℕ) → get_elem? ks i ≡ some k → mem_key k ks ≡ true
unfolding mem_key
mem_key_complete k [] i h = cc
mem_key_complete k (j ∷ ks) zero h =
    let same : j ≡ k = some_inj h in
    let e : bytes_eq j k ≡ true = ap (λ x. bytes_eq x k) same ∙ bytes_eq_refl k in rw e refl
mem_key_complete k (j ∷ ks) (suc i) h = ground (arith, mem_key_complete k ks i h)

has_duplicate_complete :
    (ks : List Bytes) (i j : ℕ) (k : Bytes)
    → i < j
    → get_elem? ks i ≡ some k
    → get_elem? ks j ≡ some k
    → has_duplicate ks ≡ true
unfolding has_duplicate
has_duplicate_complete [] i j k lt at_i at_j = cc
has_duplicate_complete (x ∷ ks) i zero k lt at_i at_j = absurd (omega arith)
has_duplicate_complete (x ∷ ks) zero (suc j) k lt at_i at_j =
    let same : x ≡ k = some_inj at_i in
    let e : mem_key x ks ≡ true = ap (λ y. mem_key y ks) same ∙ mem_key_complete k ks j at_j in
    rw e refl
has_duplicate_complete (x ∷ ks) (suc i) (suc j) k lt at_i at_j =
    ground (arith, has_duplicate_complete ks i j k (omega arith) at_i at_j)

module _ {T : Type 0} where
  module _ (dflt : T) (keys : List Bytes) (n cap : ℕ) where
    first_trial_found :
        (rounds trial : ℕ) (m : LocalMap T)
        → first_trial rounds dflt keys n cap trial ≡ some m
        → (seed : ℕ) × (try_build dflt keys n cap seed ≡ some m)
    unfolding first_trial
    first_trial_found zero trial m h = cc
    first_trial_found (suc rounds) trial m h =
        elim (Option-cases (try_build dflt keys n cap trial)) [
          | inl e ↦ first_trial_found rounds (trial + 1) m (ground arith)
          | inr (m', e) ↦ (trial, ground arith)
        ]

    -- No map is found only if no seed of the range gives one.
    first_trial-none :
        (rounds trial seed : ℕ)
        → first_trial rounds dflt keys n cap trial ≡ none
        → trial ≤ seed
        → seed < trial + rounds
        → try_build dflt keys n cap seed ≡ none
    unfolding first_trial
    first_trial-none zero trial seed h lo hi = absurd (omega arith)
    first_trial-none (suc rounds) trial seed h lo hi =
        elim (Option-cases (try_build dflt keys n cap trial)) [
          | inr (m, e) ↦ absurd (ground (arith, h, e))
          | inl e ↦ elim (ℕ_discrete trial seed) [
            | yes same ↦ ap (try_build dflt keys n cap) (sym same) ∙ e
            | no other ↦
                first_trial-none rounds (trial + 1) seed (ground (arith, h, e)) (omega arith)
                  (omega arith)
          ]
        ]

  -- Each slot that is taken is where a lookup of its key goes: the iterator and the lookups see
  -- the same entries, and no key stands in two slots.
  abbrev pub IsPlaced : LocalMap T → Type 0
  IsPlaced m =
      (i : ℕ) (s : Slot T) → get_elem? m.slots i ≡ some s → occupied s ≡ true → Finds m s.key i s

  -- After a successful build, each slot that is taken is where a lookup of its key goes, if the
  -- keys are not empty and the capacity is a power of two or the number of the keys.
  pub try_build-IsPlaced :
      (dflt : T) (keys : List Bytes) (n cap seed : ℕ) (m : LocalMap T)
      → AreKeys keys
      → try_build dflt keys n cap seed ≡ some m
      → 0 < cap
      → cap < 2 ^ 64
      → (is_pow2 cap ≡ true) ⊎ (cap ≡ n)
      → IsPlaced m
  unfolding occupied
  try_build-IsPlaced dflt keys n cap seed m are h pos small fit i s at o =
      let filling = try_build-slots dflt keys n cap seed m h in
      let empty : List (Slot T) = replicate cap (free_slot dflt) in
      elim (fill_only cap seed keys empty m.slots i s filling at o) [
        | inl old ↦
            let free = get_elem?-replicate cap i (free_slot dflt) s old in
            absurd (ground (arith, free, o))
        | inr (m', l, p) ↦
            let b = mem_key-AreKeys s.key keys are m' in
            record {
              index = probe-slot_index dflt keys n cap seed m s.key h pos small fit ∙ ap ok (sym p);
              slot = at;
              same = equals_key s s.key refl l b.0 b.1;
            }
      ]

  -- What a built map answers.
  abbrev pub Answers : T → List Bytes → LocalMap T → Type 0
  Answers dflt keys m =
      (k : Bytes) → length k < 2 ^ 32 → get m k ≡ (if mem_key k keys then ok dflt else err fatal)

  first_trial-Answers :
      (dflt : T) (keys : List Bytes) (n cap rounds : ℕ) (m : LocalMap T)
      → AreKeys keys
      → first_trial rounds dflt keys n cap 0 ≡ some m
      → 0 < cap
      → cap < 2 ^ 64
      → (is_pow2 cap ≡ true) ⊎ (cap ≡ n)
      → Answers dflt keys m
  first_trial-Answers dflt keys n cap rounds m are h pos small fit k lk =
      let (seed, built) = first_trial_found dflt keys n cap rounds 0 m h in
      get-try_build dflt keys n cap seed m k are built pos small fit lk

  -- Distinct keys of one byte at least give a map that answers to each of them and to nothing else,
  -- or one without slots. The second happens only if, for every seed below 100000, two of the keys
  -- have the same slot, both with one slot for each key and with another capacity, of two slots or
  -- more for each.
  pub make-Answers :
      (dflt : T) (k₀ : Bytes) (ks : List Bytes)
      → AreKeys (k₀ ∷ ks)
      → has_duplicate (k₀ ∷ ks) ≡ false
      → length (k₀ ∷ ks) < 2 ^ 62
      → (m : LocalMap T) × (make dflt (k₀ ∷ ks) ≡ ok m)
        × (Answers dflt (k₀ ∷ ks) m
            ⊎ ((m ≡ no_slots 0)
                × ((cap : ℕ) × (2 * length (k₀ ∷ ks) ≤ cap)
                    × ((seed : ℕ)
                        → seed < 100000
                        → Collides (length (k₀ ∷ ks)) seed (k₀ ∷ ks)
                          × Collides cap seed (k₀ ∷ ks)))))
  unfolding make
  make-Answers dflt k₀ ks are distinct few =
      let keys : List Bytes = k₀ ∷ ks in
      let n : ℕ = length keys in
      let cap : ℕ = grow_cap (2 * n) (2 * n) 1 in
      let grown =
        grow_cap_lem (2 * n) (2 * n) 1 (omega arith) (omega arith) (omega arith) one-IsPow2 in
      elim (Option-cases (first_trial trials dflt keys n n 0)) [
        | inr (m, e) ↦ (
          m,
          rw (distinct, e),
          inl (
              first_trial-Answers dflt keys n n trials m are e (omega arith) (omega arith)
                (inr refl)),
        )
        | inl e ↦ elim (Option-cases (first_trial trials dflt keys n cap 0)) [
          | inr (m, e') ↦ (
            m,
            rw (distinct, e, e'),
            inl (
                first_trial-Answers dflt keys n cap trials m are e' (omega (arith, grown))
                  (omega (arith, grown)) (inl (is_pow2_of_IsPow2 cap grown.0))),
          )
          | inl e' ↦ (
            no_slots 0,
            rw (distinct, e, e'),
            inr (
              refl,
              (
                cap,
                omega (arith, grown),
                λ seed small. (
                  try_build-Collides n seed dflt keys n
                      (first_trial-none dflt keys n n trials 0 seed e (omega arith) (omega arith))
                      (omega arith),
                  try_build-Collides cap seed dflt keys n
                      (first_trial-none dflt keys n cap trials 0 seed e' (omega arith)
                        (omega arith))
                      (omega (arith, grown)),
                ),
              ),
            ),
          )
        ]
      ]

  -- The same key at two places of the list is refused.
  pub make-duplicate :
      (dflt : T) (keys : List Bytes) (i j : ℕ) (k : Bytes)
      → i < j
      → get_elem? keys i ≡ some k
      → get_elem? keys j ≡ some k
      → make dflt keys ≡ err invalid_argument
  unfolding make
  make-duplicate dflt [] i j k lt at_i at_j = cc
  make-duplicate dflt (k₀ ∷ ks) i j k lt at_i at_j =
      rw (has_duplicate_complete (k₀ ∷ ks) i j k lt at_i at_j)

  -- On the map without keys every lookup divides by zero, before it comes to LOG(FATAL).
  get-make_nil : (dflt : T) (k : Bytes) → (make dflt [] >>= λ m. get m k) ≡ err undefined
  unfolding make get find_ptr probe
  get-make_nil dflt k = refl
