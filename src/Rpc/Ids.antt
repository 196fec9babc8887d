-- ===== src/Rpc/Ids.antt =====
-- The identities of src/rpc_message.cc: a call that a service makes while it handles another one
-- carries the identity of that one in its high half.
use roshanfer_sidecar.Base.{ℕ, ◌+◌, ◌*◌, ◌/◌, ◌%◌, ◌^◌, ◌<◌, ◌≡◌, ap, ◌∙◌, arith}
use roshanfer_sidecar.Base.Int.{ℤ, pos, negsuc, pattern32, pattern64, signed64}
use roshanfer_sidecar.Rpc.{get_new_local_id}

-- The pattern of a word that is read as signed is the word.
pattern64-signed64 : (w : ℕ) → w < 2 ^ 64 → pattern64 (signed64 w) ≡ w
pattern64-signed64 w h = ground arith

pattern32-lt : (z : ℤ) → pattern32 z < 2 ^ 32
pattern32-lt (pos n) = omega arith
pattern32-lt (negsuc n) = omega arith

-- The two halves of a new identity: the parent's low 32 bits, and those of the counter.
pub get_new_local_id-halves :
    (counter : ℕ) (parent : ℤ)
    → (pattern64 (get_new_local_id counter parent).1 / 2 ^ 32 ≡ pattern32 parent)
      × (pattern64 (get_new_local_id counter parent).1 % 2 ^ 32
          ≡ (get_new_local_id counter parent).0 % 2 ^ 32)
unfolding get_new_local_id
get_new_local_id-halves counter parent =
    let branch : ℕ = (counter + 1) % 2 ^ 64 % 2 ^ 32 in
    let small = pattern32-lt parent in
    let whole : ℕ = pattern32 parent * 2 ^ 32 + branch in
    let e = pattern64-signed64 whole (omega arith) in
    (ap (λ w. w / 2 ^ 32) e ∙ omega arith, ap (λ w. w % 2 ^ 32) e ∙ omega arith)
