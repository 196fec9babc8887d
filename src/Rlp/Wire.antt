-- ===== src/Rlp/Wire.antt =====
-- About the writers and readers of the RLP datagrams of src/state.cc taken together.
use roshanfer_sidecar.Base.{
  ℕ, zero, suc, ◌+◌, ◌-◌, ◌^◌, ◌≤◌, ◌<◌, ◌≡◌, refl, ap, ◌∙◌, [], ◌∷◌, Bool, false, Bytes, length,
  ltb, ◌==◌, ok, arith, not, ◌&&◌, ◌⊎◌, inl, inr,
}
use roshanfer_sidecar.Base.Int.{ℤ, pos, negsuc, signed64, pattern64, signed32, pattern32}
use roshanfer_sidecar.Rlp.{
  Datagram, capacity, header_size, put, put_bytes, take_bytes, put64, get64, put32, get32,
  send_credit_request, extract_service, size_of_char, request_header, set_filled, dispatch_rlp_recv,
  protocol_server,
}

pub get64-put64 : (f : ℕ → ℕ) (w : ℕ) → w < 2 ^ 64 → get64 (put64 f 5 w) 5 ≡ w
get64-put64 f w h = omega arith

pub get32-put32 : (f : ℕ → ℕ) (w : ℕ) → w < 2 ^ 32 → get32 (put32 f 22 w) 22 ≡ w
get32-put32 f w h = omega arith

pub pattern64-lt : (z : ℤ) → pattern64 z < 2 ^ 64
pattern64-lt (pos n) = omega arith
pattern64-lt (negsuc n) = omega arith

pub pattern32-lt : (z : ℤ) → pattern32 z < 2 ^ 32
pattern32-lt (pos n) = omega arith
pattern32-lt (negsuc n) = omega arith

-- An integer within the range of its word survives the conversion there and back.
abbrev pub Fits64 : ℤ → Type 0
Fits64 (pos n) = n < 2 ^ 63
Fits64 (negsuc n) = n < 2 ^ 63

abbrev pub Fits32 : ℤ → Type 0
Fits32 (pos n) = n < 2 ^ 31
Fits32 (negsuc n) = n < 2 ^ 31

pub signed64-pattern64 : (z : ℤ) → Fits64 z → signed64 (pattern64 z) ≡ z
signed64-pattern64 (pos n) h = ground arith
signed64-pattern64 (negsuc n) h = ground arith

pub signed32-pattern32 : (z : ℤ) → Fits32 z → signed32 (pattern32 z) ≡ z
signed32-pattern32 (pos n) h = ground arith
signed32-pattern32 (negsuc n) h = ground arith

-- A string that is written at `i` leaves the bytes below `i` alone, and is read from there.
pub put_bytes-below : (f : ℕ → ℕ) (i j : ℕ) (bs : Bytes) → j < i → put_bytes f i bs j ≡ f j
unfolding put_bytes
put_bytes-below f i j [] h = refl
put_bytes-below f i j (b ∷ bs) h =
    put_bytes-below (put f i b) (i + 1) j bs (omega arith) ∙ ground arith

pub take_bytes-put_bytes :
    (f : ℕ → ℕ) (i : ℕ) (bs : Bytes) → take_bytes (put_bytes f i bs) i (length bs) ≡ bs
unfolding put_bytes take_bytes
take_bytes-put_bytes f i [] = refl
take_bytes-put_bytes f i (b ∷ bs) =
    rw (take_bytes-put_bytes (put f i b) (i + 1) bs)
      (ap (λ x. x ∷ bs) (put_bytes-below (put f i b) (i + 1) i bs (omega arith) ∙ ground arith))

pub get64-cong :
    (f g : ℕ → ℕ) (i : ℕ) → ((j : ℕ) → i ≤ j → j < i + 8 → f j ≡ g j) → get64 f i ≡ get64 g i
get64-cong f g i e = omega (
  arith,
  e i (omega arith) (omega arith),
  e (i + 1) (omega arith) (omega arith),
  e (i + 2) (omega arith) (omega arith),
  e (i + 3) (omega arith) (omega arith),
  e (i + 4) (omega arith) (omega arith),
  e (i + 5) (omega arith) (omega arith),
  e (i + 6) (omega arith) (omega arith),
  e (i + 7) (omega arith) (omega arith),
)

pub get32-cong :
    (f g : ℕ → ℕ) (i : ℕ) → ((j : ℕ) → i ≤ j → j < i + 4 → f j ≡ g j) → get32 f i ≡ get32 g i
get32-cong f g i e = omega (
  arith,
  e i (omega arith) (omega arith),
  e (i + 1) (omega arith) (omega arith),
  e (i + 2) (omega arith) (omega arith),
  e (i + 3) (omega arith) (omega arith),
)

pub take_bytes-cong :
    (f g : ℕ → ℕ) (i n : ℕ)
    → ((j : ℕ) → i ≤ j → j < i + n → f j ≡ g j)
    → take_bytes f i n ≡ take_bytes g i n
unfolding take_bytes
take_bytes-cong f g i zero e = refl
take_bytes-cong f g i (suc n) e = rw (e i (omega arith) (omega arith)) (
    ap (λ xs. g i ∷ xs)
      (take_bytes-cong f g (i + 1) n (λ j lo hi. e j (omega arith) (omega arith))))

-- The parts of the header that route a datagram and find the name in it.
pub dispatch-request :
    (is_ingress : Bool) (d : Datagram)
    → 26 ≤ d.bytes 0
    → d.bytes 0 ≤ d.filled
    → d.bytes 1 ≡ 1
    → d.bytes 2 ≡ 0
    → dispatch_rlp_recv is_ingress d ≡ ok protocol_server
unfolding dispatch_rlp_recv
dispatch-request is_ingress d lo hi one flag = ground arith

pub size_of_char_lem : (b : ℕ) → b < 128 → size_of_char b ≡ b
unfolding size_of_char
size_of_char_lem b h = ground arith

pub extract-take_bytes :
    (d : Datagram) (n : ℕ)
    → d.bytes 0 ≡ 26 + n
    → n < 102
    → (d.bytes 1 ≡ 1) ⊎ (d.bytes 1 ≡ 2)
    → extract_service d ≡ ok (take_bytes (d.bytes) 26 n)
unfolding extract_service
extract-take_bytes d n len short kind =
    let size : size_of_char (d.bytes 0) ≡ 26 + n =
      size_of_char_lem (d.bytes 0) (omega arith) ∙ len in
    let known : not (d.bytes 1 == 1) && not (d.bytes 1 == 2) ≡ false = elim kind [
      | inl one ↦ rw one
      | inr two ↦ rw two
    ] in
    let lo : ltb (26 + n) header_size ≡ false = ground arith in
    let hi : ltb capacity (26 + n) ≡ false = ground arith in
    let rest : 26 + n - header_size ≡ n = omega arith in rw (known, size, lo, hi, rest)

-- What a receiver reads from a request.
pub record Reads (d : Datagram) (last_rtt now : ℤ) (addr : ℕ) (service : Bytes) (id : ℤ)
    (priority : ℕ) : Type 0 where
  pub routed : (is_ingress : Bool) → dispatch_rlp_recv is_ingress d ≡ ok protocol_server
  pub declared : d.bytes 0 ≡ header_size + length service
  pub kind : d.bytes 1 ≡ 1
  pub service_read : extract_service d ≡ ok service
  pub one_credit : d.bytes 3 ≡ 1
  pub id_read : get64 (d.bytes) 5 ≡ pattern64 id
  pub priority_read : d.bytes 13 ≡ priority
  pub time_read : get64 (d.bytes) 14 ≡ pattern64 now
  pub rtt_read : get32 (d.bytes) 22 ≡ pattern32 last_rtt
  pub length_read : d.filled ≡ header_size + length service
  pub addr_read : d.addr ≡ addr

-- A request for a service whose name has fewer than 102 bytes, at a priority of one byte, is sent,
-- and a receiver reads from it what the client wrote.
pub send-Reads :
    (d : Datagram) (last_rtt now : ℤ) (addr : ℕ) (service : Bytes) (id : ℤ) (priority : ℕ)
    → length service < 102
    → priority < 256
    → (d' : Datagram) × (send_credit_request d last_rtt now addr service 1 id priority ≡ ok d')
      × Reads d' last_rtt now addr service id priority
unfolding send_credit_request set_filled
send-Reads d last_rtt now addr service id priority short small =
    let b₁ = pattern64-lt id in
    let b₂ = pattern64-lt now in
    let b₃ = pattern32-lt last_rtt in
    let fits : ltb capacity (header_size + length service) ≡ false = ground arith in
    let fits' : ltb (capacity - 1) (header_size + length service) ≡ false = ground arith in
    let len : ℕ = header_size + length service in
    let h : ℕ → ℕ = request_header (d.bytes) len 1 id priority now last_rtt in
    let d' : Datagram = record d {
      bytes = put_bytes h header_size service;
      filled = len;
      addr = addr;
    } in
    let at = λ (j : ℕ) (lt : j < 26). put_bytes-below h header_size j service lt in
    (
      d',
      rw (fits, fits'),
      record {
        routed = λ b.
            dispatch-request b d' (omega (arith, at 0)) (omega (arith, at 0)) (at 1 (omega arith))
              (at 2 (omega arith));
        declared = omega (arith, at 0);
        kind = at 1 (omega arith);
        service_read =
            extract-take_bytes d' (length service) (omega (arith, at 0)) short
              (inl (at 1 (omega arith)))
            ∙ ap ok (take_bytes-put_bytes h 26 service);
        one_credit = at 3 (omega arith);
        id_read = get64-cong (d'.bytes) h 5 (λ j lo hi. at j (omega arith)) ∙ omega arith;
        priority_read = at 13 (omega arith) ∙ omega arith;
        time_read = get64-cong (d'.bytes) h 14 (λ j lo hi. at j (omega arith)) ∙ omega arith;
        rtt_read = get32-cong (d'.bytes) h 22 (λ j lo hi. at j (omega arith)) ∙ omega arith;
        length_read = refl;
        addr_read = refl;
      },
    )
