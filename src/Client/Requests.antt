-- ===== src/Client/Requests.antt =====
-- About a Credit Request that `protocol_client` of src/state.cc sends for a call.
use roshanfer_sidecar.Base.{
  ℕ, ◌+◌, ◌-◌, ◌<◌, ◌≡◌, refl, sym, ◌∙◌, List, [], ◌∷◌, ◌++◌, Bytes, length, ltb, ok, err, fatal,
  ok_inj, ok_ne_err, arith, Bool-cases, inl, inr, subst,
}
use roshanfer_sidecar.Base.Int.{ℤ, pattern64}
use roshanfer_sidecar.Rlp.{
  Datagram, capacity, header_size, put_bytes, take_bytes, get64, request_header, set_filled,
  send_credit_request,
}
use roshanfer_sidecar.Rlp.Wire.{put_bytes-below, take_bytes-put_bytes, get64-cong, pattern64-lt}
use roshanfer_sidecar.Client.Pool.{ConnectionPool, get_addr}
use roshanfer_sidecar.Client.{get_pool}

-- A service that is asked for a credit, for the call of the identity, and the call's priority.
pub record Wanted : Type 0 where
  pub service : Bytes
  pub id : ℤ
  pub priority : ℕ

-- The services that are asked for one call.
unfoldable pub for_call : ℤ → ℕ → List Bytes → List Wanted
for_call id priority [] = []
for_call id priority (s ∷ ss) =
    record { service = s; id = id; priority = priority } ∷ for_call id priority ss

-- A datagram that asks for one credit of the service for the call, as `send_credit_request` writes it
-- in a free buffer, to the address of the service's pool.
pub record IsRequest (blank : Datagram) (last_rtt : Bytes → ℤ) (now : ℤ)
    (pools : List (Bytes × ConnectionPool)) (w : Wanted) (d : Datagram) : Type 0 where
  pub pool : Bytes × ConnectionPool
  pub known : get_pool pools w.service ≡ ok pool
  pub addressed : get_addr (pool.1) ≡ ok (d.addr)
  pub written :
      send_credit_request blank (last_rtt w.service) now (d.addr) w.service 1 w.id w.priority ≡ ok d
  pub kind : d.bytes 1 ≡ 1
  pub one_credit : d.bytes 3 ≡ 1
  pub identity : get64 (d.bytes) 5 ≡ pattern64 w.id
  pub named : take_bytes (d.bytes) 26 (length w.service) ≡ w.service
  pub long : d.filled ≡ 26 + length w.service

-- The bytes of a request that was written.
pub send-IsRequest :
    (blank : Datagram) (last_rtt : Bytes → ℤ) (now : ℤ) (pools : List (Bytes × ConnectionPool))
    (w : Wanted) (pool : Bytes × ConnectionPool) (addr : ℕ) (d : Datagram)
    → get_pool pools w.service ≡ ok pool
    → get_addr (pool.1) ≡ ok addr
    → send_credit_request blank (last_rtt w.service) now addr w.service 1 w.id w.priority ≡ ok d
    → IsRequest blank last_rtt now pools w d
unfolding send_credit_request set_filled
send-IsRequest blank last_rtt now pools w pool addr d known addressed h =
    let len : ℕ = header_size + length w.service in
    let header : ℕ → ℕ =
      request_header (blank.bytes) len 1 w.id w.priority now (last_rtt w.service) in
    let bytes : ℕ → ℕ = put_bytes header header_size w.service in
    let made : Datagram = record blank { bytes = bytes; filled = len; addr = addr } in
    let at = λ (j : ℕ) (lt : j < 26). put_bytes-below header header_size j w.service lt in
    let b = pattern64-lt w.id in
    elim (Bool-cases (ltb capacity len)) [
      | inl much ↦
          let refused : ok d ≡ err fatal = sym h ∙ rw much refl in absurd (ok_ne_err refused)
      | inr fits ↦ elim (Bool-cases (ltb (capacity - 1) len)) [
        | inl full ↦
            let refused : ok d ≡ err fatal = sym h ∙ rw (fits, full) refl in
            absurd (ok_ne_err refused)
        | inr room ↦
            let e : made ≡ d = ok_inj (sym (rw (fits, room) refl) ∙ h) in
            subst (IsRequest blank last_rtt now pools w) e (record {
              pool = pool;
              known = known;
              addressed = addressed;
              written = rw (fits, room) refl;
              kind = at 1 (omega arith);
              one_credit = at 3 (omega arith);
              identity = get64-cong bytes header 5 (λ j lo hi. at j (omega arith)) ∙ omega arith;
              named = take_bytes-put_bytes header 26 w.service;
              long = refl;
            })
      ]
    ]

-- The datagrams are one request for each of the services wanted, in their order.
abbrev pub AreRequests :
    Datagram
    → (Bytes → ℤ)
    → ℤ
    → List (Bytes × ConnectionPool)
    → List Wanted
    → List Datagram
    → Type 0
AreRequests blank last_rtt now pools [] [] = Unit {0}
AreRequests blank last_rtt now pools [] (d ∷ ds) = ⊥
AreRequests blank last_rtt now pools (w ∷ ws) [] = ⊥
AreRequests blank last_rtt now pools (w ∷ ws) (d ∷ ds) =
    IsRequest blank last_rtt now pools w d × AreRequests blank last_rtt now pools ws ds

pub AreRequests-append :
    (blank : Datagram) (last_rtt : Bytes → ℤ) (now : ℤ) (pools : List (Bytes × ConnectionPool))
    (ws vs : List Wanted) (ds es : List Datagram)
    → AreRequests blank last_rtt now pools ws ds
    → AreRequests blank last_rtt now pools vs es
    → AreRequests blank last_rtt now pools (ws ++ vs) (ds ++ es)
AreRequests-append blank last_rtt now pools [] vs [] es p q = q
AreRequests-append blank last_rtt now pools [] vs (d ∷ ds) es p q = absurd p
AreRequests-append blank last_rtt now pools (w ∷ ws) vs [] es p q = absurd p
AreRequests-append blank last_rtt now pools (w ∷ ws) vs (d ∷ ds) es (one, more) q =
    (one, AreRequests-append blank last_rtt now pools ws vs ds es more q)
