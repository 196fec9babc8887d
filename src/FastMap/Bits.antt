-- ===== src/FastMap/Bits.antt =====
-- What `h & (cap - 1)` and the test `(cap & (cap - 1)) == 0` of include/fast_map.hpp compute.
use Prim.Native.Nat.{bit_and, digits, bit_and-bitwise}
use roshanfer_sidecar.Base.{
  ℕ, zero, suc, ◌+◌, ◌-◌, ◌*◌, ◌/◌, ◌≤◌, ◌<◌, min, ◌≡◌, refl, arith, true, ltb, ==_iff, Bool-cases,
  inl, inr, ltb→lt,
}
use roshanfer_sidecar.FastMap.{is_pow2, slot_index, grow_cap}

abbrev and_digits : ℕ → ℕ → ℕ → ℕ
and_digits n a b = digits (λ b. zero) min n a b

and_digits-le : (n a b : ℕ) → and_digits n a b ≤ b
and_digits-le zero a b = omega arith
and_digits-le (suc n) zero b = omega arith
and_digits-le (suc n) (suc a) b = omega (arith, and_digits-le n (suc a / 2) (b / 2))

pub bit_and-le : (a b : ℕ) → bit_and a b ≤ b
bit_and-le a b = omega (arith, bit_and-bitwise a b, and_digits-le a a b)

and_digits-zero : (n : ℕ) → and_digits n 0 0 ≡ 0
and_digits-zero zero = refl
and_digits-zero (suc n) = refl

and_digits-one : (n : ℕ) → and_digits n 1 0 ≡ 0
and_digits-one zero = refl
and_digits-one (suc n) = omega (arith, and_digits-zero n)

-- A number with no digit in common with its predecessor, in whatever number of steps.
abbrev IsPow2 : ℕ → Type 0
IsPow2 c = (n : ℕ) → and_digits n c (c - 1) ≡ 0

double_suc : (n c : ℕ) → IsPow2 (suc c) → and_digits n (suc (c * 2 + 1)) (c * 2 + 1) ≡ 0
double_suc zero c h = refl
double_suc (suc n) c h =
    let a : suc (c * 2 + 1) / 2 ≡ suc c = omega arith in
    let b : (c * 2 + 1) / 2 ≡ suc c - 1 = omega arith in rw (a, b) (omega (arith, h n))

double-IsPow2 : (c : ℕ) → 0 < c → IsPow2 c → IsPow2 (c * 2)
double-IsPow2 zero h p n = absurd (omega arith)
double-IsPow2 (suc c) h p n =
    let a : suc c * 2 ≡ suc (c * 2 + 1) = omega arith in
    let b : suc (c * 2 + 1) - 1 ≡ c * 2 + 1 = omega arith in rw (a, b) (double_suc n c p)

-- The loop that doubles the capacity ends at a power of two, at least the bound and less than
-- twice as much, if it has as many rounds as the bound.
pub grow_cap_lem :
    (n bound cap : ℕ)
    → 0 < cap
    → cap < 2 * bound
    → bound ≤ n + cap
    → IsPow2 cap
    → IsPow2 (grow_cap n bound cap)
      × (bound ≤ grow_cap n bound cap)
      × (grow_cap n bound cap < 2 * bound)
unfolding grow_cap
grow_cap_lem zero bound cap pos small enough p = (p, omega arith, omega arith)
grow_cap_lem (suc n) bound cap pos small enough p = elim (Bool-cases (ltb cap bound)) [
  | inl more ↦
      rw (more, grow_cap)
        (grow_cap_lem n bound (cap * 2) (omega arith) (omega (arith, ltb→lt cap bound more))
          (omega arith) (double-IsPow2 cap pos p))
  | inr done ↦ rw (done, grow_cap) (p, ground arith, omega arith)
]

pub one-IsPow2 : IsPow2 1
one-IsPow2 n = and_digits-one n

-- The code's test accepts such a capacity.
pub is_pow2_of_IsPow2 : (c : ℕ) → IsPow2 c → is_pow2 c ≡ true
unfolding is_pow2
is_pow2_of_IsPow2 c p = (==_iff _ 0).1 (omega (arith, bit_and-bitwise c (c - 1), p c))

-- The slot of a key lies within the capacity.
pub slot_index-lt : (cap h : ℕ) → 0 < cap → slot_index cap h < cap
unfolding slot_index
slot_index-lt cap h pos = ground (arith, bit_and-le h (cap - 1))
