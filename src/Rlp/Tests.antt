-- ===== src/Rlp/Tests.antt =====
-- Tests of the RLP datagrams, and the theorems about them at concrete datagrams.
use roshanfer_sidecar.Base.{
  ℕ, ◌<◌, ◌≡◌, ◌==◌, ◌^◌, refl, [], ◌∷◌, Bool, true, false, Bytes, replicate, if◌then◌else◌, ok,
  err, undefined, arith,
}
use roshanfer_sidecar.Base.Int.{pos, ◌-ℤ◌, signed32, pattern32, ltb_ℤ}
use roshanfer_sidecar.Rlp.{
  Datagram, header_size, take_bytes, send_credit_request, extract_service, dispatch_rlp_recv,
  protocol_server, protocol_client, write_failed_dn_response, prepare_credit_return,
  stamp_queuing_time, credit_post_process,
}
use roshanfer_sidecar.Rlp.Wire.{Reads, send-Reads, Fits64}
use roshanfer_sidecar.Rlp.Cycle.{credit_cycle}
use roshanfer_sidecar.Rlp.Long.{send-long}
use roshanfer_sidecar.Rlp.Return.{prepare_credit_return-lem}

abbrev key_a : Bytes
key_a = 97 ∷ []

-- A buffer that holds zeros.
abbrev blank : Datagram
blank = record { bytes = λ j. 0; filled = 0; addr = 0; enter_queue_ts = pos 0 }

fits : (n : ℕ) → n < 2 ^ 63 → Fits64 (pos n)
fits n h = h

-- The request leaves at time 1000, waits from 1100 to 1300, and the grant arrives at 1500.
positive :
    ltb_ℤ
      (pos 0)
      (signed32 (pattern32 (pos 1500 -ℤ pos 1000)) -ℤ signed32 (pattern32 (pos 1300 -ℤ pos 1100)))
    ≡ true
unfolding ◌-ℤ◌
positive = refl

credit_cycle_example :
    (req g : Datagram) × (send_credit_request blank (pos 0) (pos 1000) 7 key_a 1 (pos 5) 1 ≡ ok req)
    × (dispatch_rlp_recv false req ≡ ok protocol_server)
    × (write_failed_dn_response req blank ≡ ok g)
    × (dispatch_rlp_recv false
          (stamp_queuing_time (pos 1300) (record g { enter_queue_ts = pos 1100 }))
        ≡ ok protocol_client)
    × (credit_post_process
          (λ k. ok k)
          false
          []
          (pos 1500)
          (stamp_queuing_time (pos 1300) (record g { enter_queue_ts = pos 1100 }))
        ≡ ok (record {
          service = key_a;
          num_credits = 1;
          id = pos 5;
          rtt =
              signed32 (pattern32 (pos 1500 -ℤ pos 1000))
              -ℤ signed32 (pattern32 (pos 1300 -ℤ pos 1100));
        }))
credit_cycle_example =
    credit_cycle blank blank (pos 0) (pos 1000) 7 key_a (pos 5) 1 (pos 1100) (pos 1300) (pos 1500)
      (λ k. ok k) false [] (omega arith) (omega arith) refl (fits 5 (omega arith))
      (fits 1000 (omega arith)) refl (λ h. absurd (ground arith)) positive

send-Reads_example :
    (d' : Datagram) × (send_credit_request blank (pos 0) (pos 1000) 7 key_a 1 (pos 5) 1 ≡ ok d')
    × Reads d' (pos 0) (pos 1000) 7 key_a (pos 5) 1
send-Reads_example =
    send-Reads blank (pos 0) (pos 1000) 7 key_a (pos 5) 1 (omega arith) (omega arith)

abbrev long_name : Bytes
long_name = replicate 110 97

send-long_example :
    (d' : Datagram) × (send_credit_request blank (pos 0) (pos 1000) 7 long_name 1 (pos 5) 1 ≡ ok d')
    × (dispatch_rlp_recv false d' ≡ ok protocol_server)
    × (extract_service d' ≡ err undefined)
send-long_example =
    send-long blank (pos 0) (pos 1000) 7 long_name (pos 5) 1 (omega arith) (omega arith)

-- A grant for "a".
abbrev grant_a : Datagram
grant_a = record {
  bytes = λ j. if j == 0 then 27 else if j == 26 then 97 else 1;
  filled = 27;
  addr = 9;
  enter_queue_ts = pos 0;
}

prepare_credit_return-lem_example :
    (d : Datagram) × (prepare_credit_return grant_a blank ≡ ok d)
    × ((is_ingress : Bool) → dispatch_rlp_recv is_ingress d ≡ ok protocol_server)
    × (d.bytes 1 ≡ 2)
    × (extract_service d ≡ ok (take_bytes (grant_a.bytes) header_size 1))
    × (d.addr ≡ 9)
prepare_credit_return-lem_example =
    prepare_credit_return-lem grant_a blank 1 refl refl (omega arith) refl
