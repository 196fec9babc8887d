-- ===== src/FastMap/Tests.antt =====
-- Tests of include/fast_map.hpp, and the theorems about it at concrete maps.
use roshanfer_sidecar.Base.{
  ◌≤◌, ◌<◌, ℕ, ◌+◌, ◌≡◌, ◌⊎◌, inr, refl, [], ◌∷◌, true, false, some, Bytes, invalid_argument, ok,
  err, arith, bytes_eq, if◌then◌else◌,
}
use roshanfer_sidecar.FastMap.{
  Slot, LocalMap, get, update, make, try_build, has_duplicate, no_slots, grow_cap, occupied, npos,
}
use roshanfer_sidecar.FastMap.Hash.{fnv1a64}
use roshanfer_sidecar.FastMap.Lookup.{get-update}
use roshanfer_sidecar.FastMap.Collide.{Collides}
use roshanfer_sidecar.FastMap.Make.{
  Answers, IsPlaced, make-Answers, make-duplicate, try_build-IsPlaced,
}
use roshanfer_sidecar.FastMap.Iterator.{occupied_at, next_of, Advances, next_of-Advances}

abbrev key_a : Bytes
key_a = 97 ∷ []

abbrev key_b : Bytes
key_b = 98 ∷ []

-- The hash of "a" with seed 0 is the published FNV-1a value, folded.
abbrev built : ℕ → LocalMap ℕ
built v = record {
  slots = record { key = key_a; len = 1; fp = fnv1a64 key_a 0; value = v } ∷ [];
  seed = 0;
  size = 1;
  mask = 0;
}

build_a : try_build 5 (key_a ∷ []) 1 1 0 ≡ some (built 5)
unfolding try_build roshanfer_sidecar.FastMap.fill roshanfer_sidecar.FastMap.slot_index
    roshanfer_sidecar.FastMap.is_pow2 fnv1a64 occupied
build_a = refl

update_a : update (built 5) key_a (λ n. n + 1) ≡ ok (built 6)
unfolding update roshanfer_sidecar.FastMap.find_ptr roshanfer_sidecar.FastMap.probe
    roshanfer_sidecar.FastMap.slot_at fnv1a64 roshanfer_sidecar.FastMap.equals
    roshanfer_sidecar.FastMap.store
update_a = refl

get-update_example :
    (v : ℕ) × (get (built 5) key_a ≡ ok v)
    × (get (built 6) key_b ≡ (if bytes_eq key_a key_b then ok (v + 1) else get (built 5) key_b))
get-update_example = get-update (built 5) (built 6) key_a key_b (λ n. n + 1) update_a

distinct : has_duplicate (key_a ∷ key_b ∷ []) ≡ false
unfolding has_duplicate
distinct = refl

make-Answers_example :
    (m : LocalMap ℕ) × (make 0 (key_a ∷ key_b ∷ []) ≡ ok m)
    × (Answers 0 (key_a ∷ key_b ∷ []) m
        ⊎ ((m ≡ no_slots 0)
            × ((cap : ℕ) × (4 ≤ cap)
                × ((seed : ℕ)
                    → seed < 100000
                    → Collides 2 seed (key_a ∷ key_b ∷ [])
                      × Collides cap seed (key_a ∷ key_b ∷ [])))))
make-Answers_example =
    make-Answers 0 key_a (key_b ∷ []) (omega arith, omega arith, (omega arith, omega arith, tt))
      distinct (omega arith)

make-duplicate_example : make tt (key_a ∷ key_a ∷ []) ≡ err invalid_argument
make-duplicate_example = make-duplicate tt (key_a ∷ key_a ∷ []) 0 1 key_a (omega arith) refl refl

try_build-IsPlaced_example : IsPlaced (built 5)
try_build-IsPlaced_example =
    try_build-IsPlaced 5 (key_a ∷ []) 1 1 0 (built 5) (omega arith, omega arith, tt) build_a
      (omega arith) (omega arith) (inr refl)

-- Two of three slots taken.
abbrev sparse : LocalMap ℕ
sparse = record {
  slots =
      record { key = key_a; len = 1; fp = 0; value = 1 }
      ∷ record { key = []; len = 0; fp = 0; value = 0 }
      ∷ record { key = key_b; len = 1; fp = 0; value = 2 }
      ∷ [];
  seed = 0;
  size = 3;
  mask = npos;
}

taken_first : occupied_at sparse.slots 0 ≡ true
unfolding occupied_at occupied
taken_first = refl

next_of-Advances_example : Advances sparse.slots 0 (next_of sparse 0)
next_of-Advances_example = next_of-Advances sparse 0 (omega arith) taken_first

skips_a_free_slot : next_of sparse 0 ≡ 2
unfolding next_of roshanfer_sidecar.FastMap.Iterator.skip_empty
    roshanfer_sidecar.FastMap.Iterator.skip_loop occupied_at occupied
skips_a_free_slot = refl
