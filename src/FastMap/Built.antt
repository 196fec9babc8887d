-- ===== src/FastMap/Built.antt =====
-- The lookups in a map that `try_build` of include/fast_map.hpp made.
use roshanfer_sidecar.Base.{
  ℕ, zero, suc, ◌^◌, ◌<◌, ◌%◌, ◌≡◌, refl, ap, ◌∙◌, ◌⊎◌, inl, inr, List, [], ◌∷◌, true, false, some,
  Bytes, length, get_elem?, replicate, if◌then◌else◌, fatal, ok, err, arith, Bool-cases,
  length-replicate, bytes_eq_sound,
}
use roshanfer_sidecar.FastMap.{
  Slot, LocalMap, memcmp_eq, is_pow2, slot_index, occupied, equals, probe, slot_at, find_ptr, get,
  fill, try_build, mem_key,
}
use roshanfer_sidecar.FastMap.Hash.{fnv1a64}
use roshanfer_sidecar.FastMap.Bits.{slot_index-lt}
use roshanfer_sidecar.FastMap.Lookup.{Finds, Finds-get}
use roshanfer_sidecar.FastMap.Collide.{get_elem?-replicate}
use roshanfer_sidecar.FastMap.Build.{fill_has, fill_only, fill-length}

-- Keys that a 32-bit length tells apart from a free slot.
abbrev pub AreKeys : List Bytes → Type 0
AreKeys [] = Unit {0}
AreKeys (k ∷ ks) = (0 < length k) × (length k < 2 ^ 32) × AreKeys ks

pub mem_key-AreKeys :
    (k : Bytes) (ks : List Bytes)
    → AreKeys ks
    → mem_key k ks ≡ true
    → (0 < length k) × (length k < 2 ^ 32)
unfolding mem_key
mem_key-AreKeys k [] a m = absurd (ground arith)
mem_key-AreKeys k (j ∷ ks) a m = ground (arith, bytes_eq_sound j k, mem_key-AreKeys k ks a.2)

memcmp_eq_sound : (xs ys : Bytes) → length xs ≡ length ys → memcmp_eq xs ys ≡ true → xs ≡ ys
unfolding memcmp_eq
memcmp_eq_sound [] [] l h = refl
memcmp_eq_sound [] (y ∷ ys) l h = absurd (omega arith)
memcmp_eq_sound (x ∷ xs) [] l h = cc
memcmp_eq_sound (x ∷ xs) (y ∷ ys) l h = ground (arith, memcmp_eq_sound xs ys)

memcmp_eq_refl : (xs : Bytes) → memcmp_eq xs xs ≡ true
unfolding memcmp_eq
memcmp_eq_refl [] = refl
memcmp_eq_refl (x ∷ xs) = ground (arith, memcmp_eq_refl xs)

pub get_elem?_of_lt {ℓ} :
    {A : Type ℓ} (xs : List A) (i : ℕ) → i < length xs → (a : A) × (get_elem? xs i ≡ some a)
get_elem?_of_lt [] i h = absurd (omega arith)
get_elem?_of_lt (x ∷ xs) zero h = (x, refl)
get_elem?_of_lt (x ∷ xs) (suc i) h = get_elem?_of_lt xs i (omega arith)

module _ {T : Type 0} where
  abbrev pub free_slot : T → Slot T
  free_slot dflt = record { key = []; len = 0; fp = 0; value = dflt }

  pub equals_key :
      (s : Slot T) (k : Bytes)
      → s.key ≡ k
      → s.len ≡ length k % 2 ^ 32
      → 0 < length k
      → length k < 2 ^ 32
      → equals s k ≡ true
  unfolding equals
  equals_key s k e l pos small = ground (arith, memcmp_eq_refl k)

  equals_sound :
      (s : Slot T) (k : Bytes)
      → equals s k ≡ true
      → (occupied s ≡ true) × (s.len ≡ length k) × (memcmp_eq k s.key ≡ true)
  unfolding equals
  equals_sound s k h = ground arith

  -- A slot that is free, or that another key has, does not answer to `k`.
  not_equals :
      (keys : List Bytes) (s : Slot T) (k : Bytes)
      → AreKeys keys
      → mem_key k keys ≡ false
      → (occupied s ≡ true → (mem_key s.key keys ≡ true) × (s.len ≡ length s.key % 2 ^ 32))
      → equals s k ≡ false
  not_equals keys s k are absent only = elim (Bool-cases (equals s k)) [
    | inl e ↦
        let (o, l, same) = equals_sound s k e in
        let (m, l') = only o in
        let bounds = mem_key-AreKeys s.key keys are m in
        let kk : k ≡ s.key = memcmp_eq_sound k s.key (omega arith) same in
        absurd (ground (arith, absent, m, kk))
    | inr e ↦ e
  ]

  get_absent :
      (m : LocalMap T) (k : Bytes) (i : ℕ) (s : Slot T)
      → probe m k ≡ ok i
      → get_elem? m.slots i ≡ some s
      → equals s k ≡ false
      → get m k ≡ err fatal
  unfolding get find_ptr slot_at
  get_absent m k i s at slot ne = ground arith

  module _ (dflt : T) (keys : List Bytes) (n cap seed : ℕ) where
    -- A lookup goes to the slot that the build chose.
    pub probe-slot_index :
        (m : LocalMap T) (k : Bytes)
        → try_build dflt keys n cap seed ≡ some m
        → 0 < cap
        → cap < 2 ^ 64
        → (is_pow2 cap ≡ true) ⊎ (cap ≡ n)
        → probe m k ≡ ok (slot_index cap (fnv1a64 k seed))
    unfolding try_build probe slot_index
    probe-slot_index m k h pos small (inl p) = ground arith
    probe-slot_index m k h pos small (inr e) = ground arith

    pub try_build-slots :
        (m : LocalMap T)
        → try_build dflt keys n cap seed ≡ some m
        → fill cap seed keys (replicate cap (free_slot dflt)) ≡ some m.slots
    unfolding try_build
    try_build-slots m h = ground arith

    -- After a successful build each key reads as the default value, and every other string is
    -- fatal.
    pub get-try_build :
        (m : LocalMap T) (k : Bytes)
        → AreKeys keys
        → try_build dflt keys n cap seed ≡ some m
        → 0 < cap
        → cap < 2 ^ 64
        → (is_pow2 cap ≡ true) ⊎ (cap ≡ n)
        → length k < 2 ^ 32
        → get m k ≡ (if mem_key k keys then ok dflt else err fatal)
    unfolding occupied
    get-try_build m k are h pos small fit lk =
        let i : ℕ = slot_index cap (fnv1a64 k seed) in
        let at : probe m k ≡ ok i = probe-slot_index m k h pos small fit in
        let filling = try_build-slots m h in
        let empty : List (Slot T) = replicate cap (free_slot dflt) in
        elim (Bool-cases (mem_key k keys)) [
          | inl e ↦
              let kk = mem_key-AreKeys k keys are e in
              let (s, slot, key, len, value) =
                fill_has cap seed dflt keys empty m.slots k filling
                  (λ j s' at'.
                    ap (λ (x : Slot T). x.value)
                      (get_elem?-replicate cap j (free_slot dflt) s' at'))
                  e (omega (arith, kk)) in
              let finds : Finds m k i s = record {
                index = at;
                slot = slot;
                same = equals_key s k key len kk.0 kk.1;
              } in
              rw e (Finds-get m k i s finds ∙ ap ok value)
          | inr e ↦
              let sizes : length m.slots ≡ cap =
                fill-length cap seed keys empty m.slots filling ∙ length-replicate cap _ in
              let (s, slot) =
                get_elem?_of_lt m.slots i
                  (omega (arith, sizes, slot_index-lt cap (fnv1a64 k seed) pos)) in
              rw e (
                get_absent m k i s at slot (
                  not_equals keys s k are e (λ o.
                    elim (fill_only cap seed keys empty m.slots i s filling slot o) [
                      | inl old ↦
                          let free = get_elem?-replicate cap i (free_slot dflt) s old in
                          absurd (ground (arith, free, o))
                      | inr (m', l, _) ↦ (m', l)
                    ])))
        ]
