-- ===== src/FastMap.antt =====
-- include/fast_map.hpp: the maps over a fixed set of keys. A seed is searched under which a hash
-- puts every key into a slot of its own, and a lookup reads that one slot. `LocalMap` is the
-- version for one thread, which is the one the program uses.
pub mod Hash
mod Bits
pub mod Lookup
pub mod Build
pub mod Collide
pub mod Built
pub mod Make
pub mod Iterator
mod Tests
use Prim.Native.Nat.{bit_and}
use roshanfer_sidecar.Base.{
  ℕ, zero, suc, ◌+◌, ◌-◌, ◌*◌, ◌%◌, ◌^◌, List, [], ◌∷◌, Bool, true, false, ◌&&◌, ◌||◌, not, Option,
  none, some, Bytes, length, get_elem?, set, replicate, bytes_eq, ltb, leb, ◌==◌, if◌then◌else◌,
  Fault, fatal, invalid_argument, undefined, no_fuel, Result, ok, err, ◌>>=◌, ◌>>◌, require,
  or_fault,
}
use Hash.{fnv1a64}

-- `LocalSlot`. The 32-bit length of the key is 0 in a free slot.
pub record Slot (T : Type 0) : Type 0 where
  pub key : Bytes
  pub len : ℕ
  pub fp : ℕ
  pub value : T

pub record LocalMap (T : Type 0) : Type 0 where
  pub slots : List (Slot T)
  pub seed : ℕ
  pub size : ℕ
  pub mask : ℕ

-- `size_t(-1)`
abbrev pub npos : ℕ
npos = 2 ^ 64 - 1

-- `memcmp(k, key, k.size()) == 0`
unfoldable pub memcmp_eq : Bytes → Bytes → Bool
memcmp_eq [] ys = true
memcmp_eq (x ∷ xs) [] = false
memcmp_eq (x ∷ xs) (y ∷ ys) = x == y && memcmp_eq xs ys

unfoldable pub is_pow2 : ℕ → Bool
is_pow2 cap = bit_and cap (cap - 1) == 0

-- Where `try_build` puts a key with hash `h`.
unfoldable pub slot_index : ℕ → ℕ → ℕ
slot_index cap h = if is_pow2 cap then bit_and h (cap - 1) else h % cap

module _ {T : Type 0} where
  unfoldable pub occupied : Slot T → Bool
  occupied s = not (s.len == 0)

  unfoldable pub equals : Slot T → Bytes → Bool
  unfolding occupied memcmp_eq
  equals s k =
      if not (s.len == length k)
      then false
      else if not (occupied s)
      then false
      else memcmp_eq k s.key

  -- The index that `probe` computes. `h % size_` with `size_ == 0` divides by zero.
  unfoldable pub probe : LocalMap T → Bytes → Result ℕ
  probe m k =
      let h = fnv1a64 k m.seed in
      if not (m.mask == npos)
      then ok (bit_and h m.mask)
      else if m.size == 0
      then err undefined
      else ok (h % m.size)

  -- `slots_[idx]`, undefined out of range.
  unfoldable pub slot_at : LocalMap T → ℕ → Result (Slot T)
  slot_at m i = or_fault (get_elem? m.slots i) undefined

  -- The slot of the key, if it is there. `find_ptr` returns a pointer to its value.
  unfoldable pub find_ptr : LocalMap T → Bytes → Result (Option ℕ)
  find_ptr m k = do i ← probe m k; s ← slot_at m i; ok (if equals s k then some i else none)

  -- `index_of` says `npos` for a key that is not there.
  unfoldable pub index_of : LocalMap T → Bytes → Result ℕ
  index_of m k = do i ← probe m k; s ← slot_at m i; ok (if equals s k then i else npos)

  unfoldable pub get : LocalMap T → Bytes → Result T
  get m k = do p ← find_ptr m k; i ← or_fault p fatal; s ← slot_at m i; ok s.value

  -- A write through the pointer that `find_ptr` or `get` gave.
  unfoldable pub store : LocalMap T → ℕ → (T → T) → Result (LocalMap T)
  store m i f = do
    s ← slot_at m i
    ok (record m { slots = set m.slots i (record s { value = f s.value }) })

  unfoldable pub update : LocalMap T → Bytes → (T → T) → Result (LocalMap T)
  update m k f = do p ← find_ptr m k; i ← or_fault p fatal; store m i f

  unfoldable pub set_value : LocalMap T → Bytes → T → Result (LocalMap T)
  set_value m k v = update m k (λ _. v)

  -- `get_key`: the stored key, which is the one that was looked up.
  unfoldable pub get_key : LocalMap T → Bytes → Result Bytes
  get_key m k = do p ← find_ptr m k; i ← or_fault p fatal; s ← slot_at m i; ok s.key

  -- `get_all_keys`, in the order of the slots.
  unfoldable pub all_keys : List (Slot T) → List Bytes
  all_keys [] = []
  all_keys (s ∷ ss) = let rest = all_keys ss in if occupied s then s.key ∷ rest else rest

  -- `get_all_indices`, for the slots from index `i` on.
  unfoldable pub all_indices : ℕ → List (Slot T) → List ℕ
  all_indices i [] = []
  all_indices i (s ∷ ss) =
      let rest = all_indices (i + 1) ss in if occupied s then i ∷ rest else rest

  -- The loop of `try_build` over the keys; `none` is a collision.
  unfoldable pub fill : ℕ → ℕ → List Bytes → List (Slot T) → Option (List (Slot T))
  fill cap seed [] tmp = some tmp
  fill cap seed (k ∷ ks) tmp =
      let h = fnv1a64 k seed in
      let i = slot_index cap h in
      elim (get_elem? tmp i) [
        | none ↦ none
        | some s ↦
            let rest =
              fill cap seed ks
                (set tmp i (record s { key = k; len = length k % 2 ^ 32; fp = h })) in
            if occupied s then none else rest
      ]

  -- `try_build`, with the default value `T{}` of a fresh slot.
  unfoldable pub try_build : T → List Bytes → ℕ → ℕ → ℕ → Option (LocalMap T)
  try_build dflt keys k cap seed =
      elim (fill cap seed keys
        (replicate cap (record { key = []; len = 0; fp = 0; value = dflt }))) [
          | none ↦ none
          | some slots ↦ some (record {
            slots = slots;
            seed = seed;
            size = k;
            mask = if is_pow2 cap then cap - 1 else npos;
          })
        ]

  -- `for (trial = 0; trial < 100000; ++trial)`: the first seed that works.
  unfoldable pub first_trial : ℕ → T → List Bytes → ℕ → ℕ → ℕ → Option (LocalMap T)
  first_trial zero dflt keys k cap trial = none
  first_trial (suc n) dflt keys k cap trial = elim (try_build dflt keys k cap trial) [
    | some m ↦ some m
    | none ↦ first_trial n dflt keys k cap (trial + 1)
  ]

abbrev pub trials : ℕ
trials = 100000

-- `while (cap < 2 * K) cap <<= 1`
unfoldable pub grow_cap : ℕ → ℕ → ℕ → ℕ
grow_cap zero bound cap = cap
grow_cap (suc n) bound cap = elim (ltb cap bound) [
  | true ↦ grow_cap n bound (cap * 2)
  | false ↦ cap
]

unfoldable pub mem_key : Bytes → List Bytes → Bool
mem_key k [] = false
mem_key k (j ∷ ks) = bytes_eq j k || mem_key k ks

-- What sorting the keys and looking for equal neighbours finds.
unfoldable pub has_duplicate : List Bytes → Bool
unfolding mem_key
has_duplicate [] = false
has_duplicate (k ∷ ks) = mem_key k ks || has_duplicate ks

module _ {T : Type 0} where
  -- The map without slots. Its mask tells how it came about: no keys, or no seed.
  abbrev pub no_slots : ℕ → LocalMap T
  no_slots mask = record { slots = []; seed = 0; size = 0; mask = mask }

  -- The constructor.
  unfoldable pub make : T → List Bytes → Result (LocalMap T)
  make dflt [] = ok (no_slots npos)
  make dflt (k ∷ ks) =
      let keys = k ∷ ks in
      let n = length keys in
      if has_duplicate keys
      then err invalid_argument
      else elim (first_trial trials dflt keys n n 0) [
        | some m ↦ ok m
        | none ↦ elim (first_trial trials dflt keys n (grow_cap (2 * n) (2 * n) 1) 0) [
          | some m ↦ ok m
          | none ↦ ok (no_slots 0)
        ]
      ]
