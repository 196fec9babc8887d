-- ===== src/Rlp/Long.antt =====
-- `State::send_credit_request` for names that the signed length byte cannot count.
use roshanfer_sidecar.Base.{
  ℕ, ◌+◌, ◌-◌, ◌≤◌, ◌<◌, ◌≡◌, true, false, Bytes, length, ltb, ok, err, undefined, arith,
}
use roshanfer_sidecar.Base.Int.{ℤ}
use roshanfer_sidecar.Rlp.{
  Datagram, capacity, header_size, put_bytes, request_header, send_credit_request, extract_service,
  size_of_char, set_filled, dispatch_rlp_recv, protocol_server,
}
use roshanfer_sidecar.Rlp.Wire.{put_bytes-below, dispatch-request}

size_of_char-large :
    (b : ℕ) → 128 ≤ b → b < 256 → (256 < size_of_char b) × (header_size < size_of_char b)
unfolding size_of_char
size_of_char-large b lo hi = ground arith

extract-large :
    (d : Datagram)
    → d.bytes 1 ≡ 1
    → 128 ≤ d.bytes 0
    → d.bytes 0 < 256
    → extract_service d ≡ err undefined
unfolding extract_service
extract-large d one lo hi =
    let (big, head) = size_of_char-large (d.bytes 0) lo hi in
    let past : ltb capacity (size_of_char (d.bytes 0)) ≡ true = ground arith in
    let more : ltb (size_of_char (d.bytes 0)) header_size ≡ false = ground arith in
    rw (one, more, past)

-- A request for a service whose name has 102 to 229 bytes is sent, and the server accepts its
-- length, which it reads as unsigned; but the code that reads the name takes the length as signed,
-- and then reads beyond the buffer.
pub send-long :
    (d : Datagram) (last_rtt now : ℤ) (addr : ℕ) (service : Bytes) (id : ℤ) (priority : ℕ)
    → 102 ≤ length service
    → length service < 230
    → (d' : Datagram) × (send_credit_request d last_rtt now addr service 1 id priority ≡ ok d')
      × (dispatch_rlp_recv false d' ≡ ok protocol_server)
      × (extract_service d' ≡ err undefined)
unfolding send_credit_request set_filled
send-long d last_rtt now addr service id priority long fit =
    let fits : ltb capacity (header_size + length service) ≡ false = ground arith in
    let fits' : ltb (capacity - 1) (header_size + length service) ≡ false = ground arith in
    let len : ℕ = header_size + length service in
    let h : ℕ → ℕ = request_header (d.bytes) len 1 id priority now last_rtt in
    let d' : Datagram = record d {
      bytes = put_bytes h header_size service;
      filled = len;
      addr = addr;
    } in
    let at = λ (j : ℕ) (lt : j < 26). put_bytes-below h header_size j service lt in
    (
      d',
      rw (fits, fits'),
      dispatch-request false d' (omega (arith, at 0)) (omega (arith, at 0)) (at 1 (omega arith))
          (at 2 (omega arith)),
      extract-large d' (at 1 (omega arith)) (omega (arith, at 0)) (omega (arith, at 0)),
    )
