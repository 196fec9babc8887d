-- ===== src/FastMap/Collide.antt =====
-- About the seeds with which the constructor of include/fast_map.hpp does not succeed.
use roshanfer_sidecar.Base.{
  ℕ, zero, suc, ◌%◌, ◌^◌, ◌<◌, ◌≡◌, refl, ap, sym, ◌∙◌, ◌⊎◌, inl, inr, List, [], ◌∷◌, true, false,
  none, some, Bytes, length, get_elem?, set, replicate, arith, Bool-cases, Option-cases,
  get_elem?-set_ne, length-set, length-replicate, ℕ_discrete,
}
use roshanfer_sidecar.FastMap.{Slot, slot_index, occupied, fill, try_build}
use roshanfer_sidecar.FastMap.Hash.{fnv1a64}
use roshanfer_sidecar.FastMap.Bits.{slot_index-lt}

-- Two keys at different places of the list have the same slot.
abbrev pub Collides : ℕ → ℕ → List Bytes → Type 0
Collides cap seed ks =
    (i j : ℕ) × (a b : Bytes) × (i < j)
    × (get_elem? ks i ≡ some a)
    × (get_elem? ks j ≡ some b)
    × (slot_index cap (fnv1a64 a seed) ≡ slot_index cap (fnv1a64 b seed))

-- The slot of one of the keys is taken before.
abbrev IsTaken : {T : Type 0} → ℕ → ℕ → List Bytes → List (Slot T) → Type 0
IsTaken {T} cap seed ks tmp =
    (j : ℕ) × (b : Bytes) × (s : Slot T) × (get_elem? ks j ≡ some b)
    × (get_elem? tmp (slot_index cap (fnv1a64 b seed)) ≡ some s)
    × (occupied s ≡ true)

get_elem?-none-lt {ℓ} :
    {A : Type ℓ} (xs : List A) (i : ℕ) → get_elem? xs i ≡ none → i < length xs → ⊥
get_elem?-none-lt [] i h lt = omega arith
get_elem?-none-lt (x ∷ xs) zero h lt = cc
get_elem?-none-lt (x ∷ xs) (suc i) h lt = get_elem?-none-lt xs i h (omega arith)

free-occupied :
    {T : Type 0} (v : T) → occupied (record { key = []; len = 0; fp = 0; value = v }) ≡ false
unfolding occupied
free-occupied v = refl

pub get_elem?-replicate {ℓ} :
    {A : Type ℓ} (n i : ℕ) (a b : A) → get_elem? (replicate n a) i ≡ some b → b ≡ a
get_elem?-replicate zero i a b h = cc
get_elem?-replicate (suc n) zero a b h = cc
get_elem?-replicate (suc n) (suc i) a b h = get_elem?-replicate n i a b h

module _ {T : Type 0} (cap seed : ℕ) where
  fill-none :
      (ks : List Bytes) (tmp : List (Slot T))
      → fill cap seed ks tmp ≡ none
      → 0 < cap
      → length tmp ≡ cap
      → IsTaken cap seed ks tmp ⊎ Collides cap seed ks
  unfolding fill
  fill-none [] tmp h pos long = absurd (ground (arith, h))
  fill-none (k ∷ ks) tmp h pos long =
      let x : ℕ = slot_index cap (fnv1a64 k seed) in
      elim (Option-cases (get_elem? tmp x)) [
        | inl e ↦ absurd (
            get_elem?-none-lt tmp x e (omega (arith, slot_index-lt cap (fnv1a64 k seed) pos, long)))
        | inr (s, e) ↦ elim (Bool-cases (occupied s)) [
          | inl taken ↦ inl (0, k, s, refl, e, taken)
          | inr free ↦
              let new : Slot T = record s {
                key = k;
                len = length k % 2 ^ 32;
                fp = fnv1a64 k seed;
              } in
              let rest : fill cap seed ks (set tmp x new) ≡ none = ground (arith, h, e, free) in
              elim (fill-none ks (set tmp x new) rest pos (length-set tmp x new ∙ long)) [
                | inr (i, j, a, b, lt, at_i, at_j, same) ↦
                    inr (suc i, suc j, a, b, omega (arith, lt), at_i, at_j, same)
                | inl (j, b, s', at, there, taken) ↦
                    elim (ℕ_discrete x (slot_index cap (fnv1a64 b seed))) [
                      | yes same ↦ inr (0, suc j, k, b, omega arith, refl, at, same)
                      | no other ↦ inl (
                        suc j,
                        b,
                        s',
                        at,
                        sym (get_elem?-set_ne tmp x (slot_index cap (fnv1a64 b seed)) new other)
                            ∙ there,
                        taken,
                      )
                    ]
              ]
        ]
      ]

  -- A build that fails has two keys that collide.
  pub try_build-Collides :
      (dflt : T) (keys : List Bytes) (n : ℕ)
      → try_build dflt keys n cap seed ≡ none
      → 0 < cap
      → Collides cap seed keys
  unfolding try_build
  try_build-Collides dflt keys n h pos =
      let free : Slot T = record { key = []; len = 0; fp = 0; value = dflt } in
      let tmp : List (Slot T) = replicate cap free in
      elim (Option-cases (fill cap seed keys tmp)) [
        | inr (out, e) ↦ absurd (ground (arith, h, e))
        | inl e ↦ elim (fill-none keys tmp e pos (length-replicate cap free)) [
          | inr c ↦ c
          | inl (j, b, s, at, there, taken) ↦
              let is : s ≡ free = get_elem?-replicate cap _ free s there in
              absurd (ground (arith, free-occupied dflt, ap (λ x. occupied x) is, taken))
        ]
      ]
