-- ===== src/Rlp/Return.antt =====
-- `State::prepare_credit_return`: a grant goes back to the server that gave it.
use roshanfer_sidecar.Base.{
  ℕ, ◌+◌, ◌-◌, ◌≤◌, ◌<◌, ◌≡◌, refl, ap, ◌∙◌, Bool, false, ltb, if◌then◌else◌, ok, arith, inr,
}
use roshanfer_sidecar.Rlp.{
  Datagram, capacity, header_size, put, take_bytes, prepare_credit_return, set_filled,
  extract_service, dispatch_rlp_recv, protocol_server,
}
use roshanfer_sidecar.Rlp.Wire.{extract-take_bytes, take_bytes-cong}

dispatch-return :
    (is_ingress : Bool) (d : Datagram)
    → 26 ≤ d.bytes 0
    → d.bytes 0 ≤ d.filled
    → d.bytes 1 ≡ 2
    → dispatch_rlp_recv is_ingress d ≡ ok protocol_server
unfolding dispatch_rlp_recv
dispatch-return is_ingress d lo hi two = ground arith

-- A grant that fills its buffer with the header and a name of fewer than 102 bytes is returned to
-- the address that it came from. The server takes the return for what it is, and reads the name
-- that the grant has.
pub prepare_credit_return-lem :
    (grant ret : Datagram) (n : ℕ)
    → grant.bytes 0 ≡ header_size + n
    → grant.filled ≡ header_size + n
    → n < 102
    → ret.filled ≡ 0
    → (d : Datagram) × (prepare_credit_return grant ret ≡ ok d)
      × ((is_ingress : Bool) → dispatch_rlp_recv is_ingress d ≡ ok protocol_server)
      × (d.bytes 1 ≡ 2)
      × (extract_service d ≡ ok (take_bytes (grant.bytes) header_size n))
      × (d.addr ≡ grant.addr)
unfolding prepare_credit_return set_filled
prepare_credit_return-lem grant ret n declared whole short fresh =
    let room : ltb (capacity - 1 - ret.filled) grant.filled ≡ false = ground arith in
    let room' : ltb (capacity - 1) grant.filled ≡ false = ground arith in
    let copied : ℕ → ℕ = λ j. if ltb j grant.filled then grant.bytes j else ret.bytes j in
    let d : Datagram = record ret {
      bytes = put copied 1 2;
      filled = grant.filled;
      addr = grant.addr;
    } in
    let b₀ : d.bytes 0 ≡ header_size + n = ground arith in
    (
      d,
      rw (room, room'),
      (λ b. dispatch-return b d (omega (arith, b₀)) (omega (arith, b₀)) refl),
      refl,
      extract-take_bytes d n b₀ short (inr refl)
          ∙ ap ok (take_bytes-cong (d.bytes) (grant.bytes) header_size n (λ j lo hi. ground arith)),
      refl,
    )
