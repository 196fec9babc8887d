-- ===== src/Rlp/Cycle.antt =====
-- The way of a credit: a request, the grant that answers it, and the return of the grant.
use roshanfer_sidecar.Base.{
  ℕ, ◌+◌, ◌-◌, ◌≤◌, ◌<◌, ◌≡◌, ◌⊎◌, inl, inr, refl, ap, sym, ◌∙◌, Bool, true, false, Bytes, length,
  ltb, if◌then◌else◌, bytes_eq_refl, Result, ok, arith, ok_inj,
}
use roshanfer_sidecar.Base.Int.{ℤ, pos, ◌-ℤ◌, ltb_ℤ, signed64, pattern64, signed32, pattern32}
use roshanfer_sidecar.Rlp.{
  Datagram, capacity, put, take_bytes, get64, get32, send_credit_request, extract_service,
  set_filled, dispatch_rlp_recv, protocol_server, protocol_client, ingress_post_credit,
  write_credit_grant, write_failed_dn_response, stamp_queuing_time, credit_post_process,
}
use roshanfer_sidecar.Rlp.Wire.{
  Reads, send-Reads, get64-cong, extract-take_bytes, size_of_char_lem, Fits64, signed64-pattern64,
  take_bytes-cong, pattern32-lt, get32-put32,
}

-- What the grant that answers `req` holds.
pub record Grants (req g : Datagram) : Type 0 where
  pub same : (j : ℕ) → j < req.filled → (j ≡ 2 → ⊥) → (j ≡ 4 → ⊥) → g.bytes j ≡ req.bytes j
  pub flag : g.bytes 2 ≡ 1
  pub granted : g.bytes 4 ≡ 1
  pub filled : g.filled ≡ req.filled
  pub addr : g.addr ≡ req.addr

write_failed_dn_response-Grants :
    (req resp : Datagram)
    → resp.filled ≡ 0
    → req.filled < capacity
    → (g : Datagram) × (write_failed_dn_response req resp ≡ ok g) × Grants req g
unfolding write_failed_dn_response write_credit_grant set_filled
write_failed_dn_response-Grants req resp fresh fits =
    let room : ltb (capacity - resp.filled) req.filled ≡ false = ground arith in
    let room' : ltb (capacity - 1) req.filled ≡ false = ground arith in
    let copied : ℕ → ℕ = λ j. if ltb j req.filled then req.bytes j else resp.bytes j in
    (
      record resp { bytes = put (put copied 2 1) 4 1; filled = req.filled; addr = req.addr },
      rw (room, room'),
      record {
        same = λ j h two four. ground arith;
        flag = refl;
        granted = refl;
        filled = refl;
        addr = refl;
      },
    )

-- The round-trip time that the client computes: what has passed since the request, less the time
-- that the grant waited at the server.
abbrev pub round_trip : ℤ → ℤ → ℤ → ℤ
round_trip sent waited now =
    signed32 (pattern32 (now -ℤ signed64 (pattern64 sent))) -ℤ signed32 (pattern32 waited)

credit_post_process-ok :
    (known : Bytes → Result Bytes) (is_ingress : Bool) (ingress_service : Bytes) (now : ℤ)
    (d : Datagram) (service : Bytes) (id sent waited : ℤ)
    → extract_service d ≡ ok service
    → known service ≡ ok service
    → (is_ingress ≡ true → ingress_service ≡ service)
    → d.bytes 3 ≡ 1
    → d.bytes 4 ≡ 1
    → get64 (d.bytes) 5 ≡ pattern64 id
    → get64 (d.bytes) 14 ≡ pattern64 sent
    → get32 (d.bytes) 22 ≡ pattern32 waited
    → ltb_ℤ (pos 0) (round_trip sent waited now) ≡ true
    → credit_post_process known is_ingress ingress_service now d
      ≡ ok (record {
        service = service;
        num_credits = 1;
        id = signed64 (pattern64 id);
        rtt = round_trip sent waited now;
      })
unfolding credit_post_process
credit_post_process-ok known true own now d service id sent waited e k mine c3 c4 i t w r =
    rw (e, mine refl, i, t, w, r, c3, c4, bytes_eq_refl service, size_of_char_lem 1 (omega arith))
credit_post_process-ok known false own now d service id sent waited e k mine c3 c4 i t w r =
    rw (e, k, i, t, w, r, c3, c4, size_of_char_lem 1 (omega arith))

dispatch-grant :
    (is_ingress : Bool) (d : Datagram)
    → 26 ≤ d.bytes 0
    → d.bytes 0 ≤ d.filled
    → d.bytes 1 ≡ 1
    → d.bytes 2 ≡ 1
    → dispatch_rlp_recv is_ingress d
      ≡ ok (if is_ingress then ingress_post_credit else protocol_client)
unfolding dispatch_rlp_recv
dispatch-grant true d lo hi one flag = ground arith
dispatch-grant false d lo hi one flag = ground arith

-- The bytes of the grant with the time stamped, for what stands before and after the stamp.
stamped-same :
    (req g : Datagram) (t : ℤ) (j : ℕ)
    → Grants req g
    → j < req.filled
    → (j ≡ 2 → ⊥)
    → (j ≡ 4 → ⊥)
    → (j < 22) ⊎ (26 ≤ j)
    → (stamp_queuing_time t g).bytes j ≡ req.bytes j
unfolding stamp_queuing_time
stamped-same req g t j gs h two four (inl below) = ground (arith, gs.same j h two four)
stamped-same req g t j gs h two four (inr above) = ground (arith, gs.same j h two four)

stamped-time :
    (g : Datagram) (t : ℤ)
    → get32 ((stamp_queuing_time t g).bytes) 22 ≡ pattern32 (t -ℤ g.enter_queue_ts)
unfolding stamp_queuing_time
stamped-time g t =
    get32-put32 (g.bytes) (pattern32 (t -ℤ g.enter_queue_ts)) (pattern32-lt (t -ℤ g.enter_queue_ts))

stamped-fields :
    (g : Datagram) (t : ℤ)
    → ((stamp_queuing_time t g).filled ≡ g.filled)
      × ((stamp_queuing_time t g).bytes 2 ≡ g.bytes 2)
      × ((stamp_queuing_time t g).bytes 4 ≡ g.bytes 4)
unfolding stamp_queuing_time
stamped-fields g t = (refl, refl, refl)

-- The grant, with the time stamped that it waited: it goes to the client side, and has kept the
-- name, the identity and the time of the request.
stamped-Credit :
    (req g : Datagram) (last_rtt sent : ℤ) (from : ℕ) (service : Bytes) (id : ℤ) (priority : ℕ)
    (waited now : ℤ) (known : Bytes → Result Bytes) (is_ingress : Bool) (own : Bytes)
    → Reads req last_rtt sent from service id priority
    → length service < 102
    → Grants req g
    → known service ≡ ok service
    → (is_ingress ≡ true → own ≡ service)
    → ltb_ℤ (pos 0) (round_trip sent (waited -ℤ g.enter_queue_ts) now) ≡ true
    → (dispatch_rlp_recv is_ingress (stamp_queuing_time waited g)
        ≡ ok (if is_ingress then ingress_post_credit else protocol_client))
      × (credit_post_process known is_ingress own now (stamp_queuing_time waited g)
          ≡ ok (record {
            service = service;
            num_credits = 1;
            id = signed64 (pattern64 id);
            rtt = round_trip sent (waited -ℤ g.enter_queue_ts) now;
          }))
stamped-Credit req g last_rtt sent from service id priority waited now known is_ingress own r short
      gs k mine pos_rtt =
    let d = stamp_queuing_time waited g in
    let at =
      λ (j : ℕ) (h : j < req.filled) (two : j ≡ 2 → ⊥) (four : j ≡ 4 → ⊥) (w : (j < 22) ⊎ (26 ≤ j)).
        stamped-same req g waited j gs h two four w in
    let (e, b₂, b₄) = stamped-fields g waited in
    let b₀ : d.bytes 0 ≡ 26 + length service =
      at 0 (omega (arith, r.length_read)) (λ h. omega arith) (λ h. omega arith) (inl (omega arith))
      ∙ r.declared in
    let b₁ : d.bytes 1 ≡ 1 =
      at 1 (omega (arith, r.length_read)) (λ h. omega arith) (λ h. omega arith) (inl (omega arith))
      ∙ r.kind in
    let b₃ : d.bytes 3 ≡ 1 =
      at 3 (omega (arith, r.length_read)) (λ h. omega arith) (λ h. omega arith) (inl (omega arith))
      ∙ r.one_credit in
    let name : take_bytes (d.bytes) 26 (length service) ≡ service =
      take_bytes-cong (d.bytes) (req.bytes) 26 (length service) (λ j lo hi.
        at j (omega (arith, r.length_read)) (λ h. omega arith) (λ h. omega arith) (inr lo))
      ∙ ok_inj (
          sym (extract-take_bytes req (length service) r.declared short (inl r.kind))
          ∙ r.service_read) in
    (
      dispatch-grant is_ingress d (omega arith) (omega (arith, gs.filled, r.length_read)) b₁
          (b₂ ∙ gs.flag),
      credit_post_process-ok known is_ingress own now d service id sent (waited -ℤ g.enter_queue_ts)
          (extract-take_bytes d (length service) b₀ short (inl b₁) ∙ ap ok name) k mine b₃
          (b₄ ∙ gs.granted)
          (get64-cong (d.bytes) (req.bytes) 5 (λ j lo hi.
              at j (omega (arith, r.length_read)) (λ h. omega arith) (λ h. omega arith)
                (inl (omega arith)))
            ∙ r.id_read)
          (get64-cong (d.bytes) (req.bytes) 14 (λ j lo hi.
              at j (omega (arith, r.length_read)) (λ h. omega arith) (λ h. omega arith)
                (inl (omega arith)))
            ∙ r.time_read)
          (stamped-time g waited) pos_rtt,
    )

-- The whole way of a credit for a call to `service`: the request is accepted by the server, the
-- grant for it by the client, and the client takes from the grant one credit, for the service and
-- the call that it asked for, and as the round-trip time what passed since the request less the
-- time in the queue. The name has fewer than 102 bytes, and the time computed is positive.
pub credit_cycle :
    (blank resp : Datagram) (last_rtt sent : ℤ) (addr : ℕ) (service : Bytes) (id : ℤ) (priority : ℕ)
    (arrived granted now : ℤ) (known : Bytes → Result Bytes) (is_ingress : Bool) (own : Bytes)
    → length service < 102
    → priority < 256
    → resp.filled ≡ 0
    → Fits64 id
    → Fits64 sent
    → known service ≡ ok service
    → (is_ingress ≡ true → own ≡ service)
    → ltb_ℤ
        (pos 0)
        (signed32 (pattern32 (now -ℤ sent)) -ℤ signed32 (pattern32 (granted -ℤ arrived)))
      ≡ true
    → (req g : Datagram) × (send_credit_request blank last_rtt sent addr service 1 id priority
        ≡ ok req)
      × (dispatch_rlp_recv false req ≡ ok protocol_server)
      × (write_failed_dn_response req resp ≡ ok g)
      × (dispatch_rlp_recv is_ingress
            (stamp_queuing_time granted (record g { enter_queue_ts = arrived }))
          ≡ ok (if is_ingress then ingress_post_credit else protocol_client))
      × (credit_post_process known is_ingress own now
            (stamp_queuing_time granted (record g { enter_queue_ts = arrived }))
          ≡ ok (record {
            service = service;
            num_credits = 1;
            id = id;
            rtt = signed32 (pattern32 (now -ℤ sent)) -ℤ signed32 (pattern32 (granted -ℤ arrived));
          }))
credit_cycle blank resp last_rtt sent addr service id priority arrived granted now known is_ingress
      own short small fresh fits fits' k mine positive =
    let (req, e, r) = send-Reads blank last_rtt sent addr service id priority short small in
    let (g, e', gs) =
      write_failed_dn_response-Grants req resp fresh (omega (arith, r.length_read)) in
    let waiting : Datagram = record g { enter_queue_ts = arrived } in
    let sent_back : signed64 (pattern64 sent) ≡ sent = signed64-pattern64 sent fits' in
    let (to, got) =
      stamped-Credit req waiting last_rtt sent addr service id priority granted now known is_ingress
        own r short
        (record {
          same = gs.same;
          flag = gs.flag;
          granted = gs.granted;
          filled = gs.filled;
          addr = gs.addr;
        })
        k mine (rw sent_back positive) in
    (req, g, e, r.routed false, e', to, got ∙ rw (signed64-pattern64 id fits, sent_back) refl)
