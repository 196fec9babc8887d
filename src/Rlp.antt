-- ===== src/Rlp.antt =====
-- The RLP datagrams of src/state.cc: how a Credit Request, a Credit Grant and a Credit Return are
-- written, checked and read, in the buffers of src/buffer.cc.
pub mod Wire
pub mod Cycle
pub mod Long
pub mod Return
mod Tests
use roshanfer_sidecar.Base.{
  ℕ, zero, suc, ◌+◌, ◌-◌, ◌*◌, ◌/◌, ◌%◌, ◌^◌, List, [], ◌∷◌, ◌++◌, Bool, true, false, ◌&&◌, ◌||◌,
  not, Bytes, length, ltb, leb, ◌==◌, if◌then◌else◌, bytes_eq, Fault, fatal, undefined, Result, ok,
  err, ◌>>=◌, ◌>>◌, require,
}
use roshanfer_sidecar.Base.Int.{
  ℤ, pos, ◌-ℤ◌, ltb_ℤ, signed8, signed32, signed64, pattern32, pattern64,
}

-- A `Buffer` of the UDP group: 256 bytes, of which at most 255 may be filled. A byte is a
-- number below 256; `char` reads it as a signed one.
pub record Datagram : Type 0 where
  pub bytes : ℕ → ℕ
  pub filled : ℕ
  pub addr : ℕ
  pub enter_queue_ts : ℤ

abbrev pub capacity : ℕ
capacity = 256

abbrev pub header_size : ℕ
header_size = 26

-- `data.at(i) = v`
abbrev pub put : (ℕ → ℕ) → ℕ → ℕ → ℕ → ℕ
put f i v j = if j == i then v else f j

-- `std::copy_n` of a string to `data.begin() + i`.
unfoldable pub put_bytes : (ℕ → ℕ) → ℕ → Bytes → ℕ → ℕ
put_bytes f i [] = f
put_bytes f i (b ∷ bs) = put_bytes (put f i b) (i + 1) bs

-- The `n` bytes from `i` on.
unfoldable pub take_bytes : (ℕ → ℕ) → ℕ → ℕ → Bytes
take_bytes f i zero = []
take_bytes f i (suc n) = f i ∷ take_bytes f (i + 1) n

-- The stores of a 64-bit word at `i`, most significant byte first.
abbrev pub put64 : (ℕ → ℕ) → ℕ → ℕ → ℕ → ℕ
put64 f i w =
    put
      (put
        (put
          (put
            (put
              (put (put (put f i (w / 2 ^ 56 % 256)) (i + 1) (w / 2 ^ 48 % 256)) (i + 2)
                (w / 2 ^ 40 % 256))
              (i + 3) (w / 2 ^ 32 % 256))
            (i + 4) (w / 2 ^ 24 % 256))
          (i + 5) (w / 2 ^ 16 % 256))
        (i + 6) (w / 2 ^ 8 % 256))
      (i + 7) (w % 256)

abbrev pub put32 : (ℕ → ℕ) → ℕ → ℕ → ℕ → ℕ
put32 f i w =
    put
      (put (put (put f i (w / 2 ^ 24 % 256)) (i + 1) (w / 2 ^ 16 % 256)) (i + 2) (w / 2 ^ 8 % 256))
      (i + 3) (w % 256)

-- The words that the shifts and `|` put together.
abbrev pub get64 : (ℕ → ℕ) → ℕ → ℕ
get64 f i =
    f i * 2 ^ 56
    + f (i + 1) * 2 ^ 48
    + f (i + 2) * 2 ^ 40
    + f (i + 3) * 2 ^ 32
    + f (i + 4) * 2 ^ 24
    + f (i + 5) * 2 ^ 16
    + f (i + 6) * 2 ^ 8
    + f (i + 7)

abbrev pub get32 : (ℕ → ℕ) → ℕ → ℕ
get32 f i = f i * 2 ^ 24 + f (i + 1) * 2 ^ 16 + f (i + 2) * 2 ^ 8 + f (i + 3)

-- `Buffer::set_filled`
unfoldable pub set_filled : Datagram → ℕ → Result Datagram
set_filled d n = if ltb (capacity - 1) n then err fatal else ok (record d { filled = n })

-- The 26 bytes that `State::send_credit_request` writes before the name of the service. Byte 4
-- keeps what the buffer held.
abbrev pub request_header : (ℕ → ℕ) → ℕ → ℕ → ℤ → ℕ → ℤ → ℤ → ℕ → ℕ
request_header f len num_credits id priority now last_rtt =
    let f₁ = put (put (put (put f 0 (len % 256)) 1 1) 2 0) 3 (num_credits % 256) in
    let f₂ = put (put64 f₁ 5 (pattern64 id)) 13 (priority % 256) in
    put32 (put64 f₂ 14 (pattern64 now)) 22 (pattern32 last_rtt)

-- `State::send_credit_request` up to the hand-over to the ring, on the buffer `d` that the buffer
-- manager gave. `last_rtt` is the value of `last_rtt_us` for the service, and `now` the clock.
unfoldable pub send_credit_request : Datagram → ℤ → ℤ → ℕ → Bytes → ℕ → ℤ → ℕ → Result Datagram
send_credit_request d last_rtt now addr service num_credits id priority =
    let len = header_size + length service in
    let header = request_header (d.bytes) len num_credits id priority now last_rtt in
    if ltb capacity len
    then err fatal
    else (set_filled (record d { bytes = put_bytes header header_size service }) len >>= λ d'.
        ok (record d' { addr = addr }))

-- The conversion of a `char` to `size_t`.
unfoldable pub size_of_char : ℕ → ℕ
size_of_char b = if ltb b 128 then b else 2 ^ 64 - 256 + b

-- `extract_service_from_rlp_req`. A view that reaches beyond the buffer may not be read.
unfoldable pub extract_service : Datagram → Result Bytes
extract_service d =
    let n = size_of_char (d.bytes 0) in
    if not (d.bytes 1 == 1) && not (d.bytes 1 == 2)
    then err fatal
    else if ltb n header_size
    then err fatal
    else if ltb capacity n
    then err undefined
    else ok (take_bytes (d.bytes) header_size (n - header_size))

-- `write_credit_grant`
unfoldable pub write_credit_grant : ℕ → Datagram → Datagram → Result Datagram
write_credit_grant granted req grant =
    let copied = λ (j : ℕ). if ltb j req.filled then req.bytes j else grant.bytes j in
    if ltb (capacity - grant.filled) req.filled
    then err fatal
    else set_filled (record grant { bytes = put (put copied 2 1) 4 (granted % 256) }) req.filled

-- `write_failed_dn_response`
unfoldable pub write_failed_dn_response : Datagram → Datagram → Result Datagram
write_failed_dn_response req resp =
    write_credit_grant 1 req resp >>= λ d. ok (record d { addr = req.addr })

-- The time in the queue that `State::check_credit_transmission` writes into a grant.
unfoldable pub stamp_queuing_time : ℤ → Datagram → Datagram
stamp_queuing_time now d = record d {
  bytes = put32 (d.bytes) 22 (pattern32 (now -ℤ d.enter_queue_ts));
}

-- `State::prepare_credit_return`, into the buffer `ret`.
unfoldable pub prepare_credit_return : Datagram → Datagram → Result Datagram
prepare_credit_return grant ret =
    let copied = λ (j : ℕ). if ltb j grant.filled then grant.bytes j else ret.bytes j in
    if ltb (capacity - 1 - ret.filled) grant.filled
    then err fatal
    else (set_filled (record ret { bytes = put copied 1 2 }) grant.filled >>= λ d.
        ok (record d { addr = grant.addr }))

-- Where `State::dispatch_rlp_recv` sends a datagram.
pub data Handler : Type 0 where
  protocol_server protocol_client ingress_post_credit : Handler

unfoldable pub dispatch_rlp_recv : Bool → Datagram → Result Handler
dispatch_rlp_recv is_ingress d =
    let declared = d.bytes 0 in
    if ltb d.filled 3
    then err fatal
    else if ltb declared header_size || ltb d.filled declared
    then err fatal
    else if d.bytes 1 == 2
    then ok protocol_server
    else if d.bytes 1 == 1 && d.bytes 2 == 0
    then ok protocol_server
    else if d.bytes 1 == 1 && d.bytes 2 == 1
    then (if is_ingress then ok ingress_post_credit else ok protocol_client)
    else err fatal

-- What `State::credit_post_process` takes from a grant: the service, the number of credits, the
-- identity of the call, and the round-trip time that it stores.
pub record Credit : Type 0 where
  pub service : Bytes
  pub num_credits : ℕ
  pub id : ℤ
  pub rtt : ℤ

-- `State::credit_post_process`. `known` is `ppm_queue.check`: it returns the key, or stops.
-- The conversions to int32_t keep the low 32 bits. The difference of two of them is taken as an
-- integer.
unfoldable pub credit_post_process :
    (Bytes → Result Bytes) → Bool → Bytes → ℤ → Datagram → Result Credit
credit_post_process known is_ingress ingress_service now d = do
  key ← extract_service d
  service ← (if is_ingress then ok ingress_service else known key)
  let f = d.bytes
  let id = signed64 (get64 f 5)
  let timestamp = signed64 (get64 f 14)
  let queueing_time = signed32 (get32 f 22)
  let total = signed32 (pattern32 (now -ℤ timestamp))
  let rtt = total -ℤ queueing_time
  require (ltb_ℤ (pos 0) rtt) fatal
  require (f 3 == f 4) fatal
  require (not (f 4 == 0)) fatal
  require (not (is_ingress && not (bytes_eq ingress_service key))) fatal
  ok (record { service = service; num_credits = size_of_char (f 4); id = id; rtt = rtt })
