-- ===== src/FastMap/Hash.antt =====
-- `fnv1a64` of include/fast_map.hpp, on 64-bit words.
use Prim.Native.Nat.{bit_xor}
use roshanfer_sidecar.Base.{ℕ, ◌*◌, ◌/◌, ◌%◌, ◌^◌, [], ◌∷◌, Bytes}

unfoldable pub fnv_bytes : ℕ → Bytes → ℕ
fnv_bytes h [] = h
fnv_bytes h (c ∷ cs) = fnv_bytes (bit_xor h (c % 256) * 1099511628211 % 2 ^ 64) cs

-- `h ^= h >> 33`
unfoldable pub fold_down : ℕ → ℕ
fold_down h = bit_xor h (h / 2 ^ 33)

unfoldable pub fnv1a64 : Bytes → ℕ → ℕ
unfolding fnv_bytes fold_down
fnv1a64 s seed =
    let h = fnv_bytes (bit_xor 1469598103934665603 seed) s in
    fold_down (fold_down (fold_down h * 0xff51afd7ed558ccd % 2 ^ 64) * 0xc4ceb9fe1a85ec53 % 2 ^ 64)
