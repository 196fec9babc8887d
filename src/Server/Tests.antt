-- ===== src/Server/Tests.antt =====
-- Tests of the server side of src/state.cc, and the theorems about it at a concrete server.
use roshanfer_sidecar.Base.{
  ℕ, ◌+◌, ◌≤◌, ◌≡◌, ◌⊎◌, ◌==◌, refl, [], ◌∷◌, true, false, Bytes, length, ltb, if◌then◌else◌, ok,
  arith,
}
use roshanfer_sidecar.Base.Int.{pos, ◌+ℤ◌, ◌-ℤ◌}
use roshanfer_sidecar.Credit.{CreditQueue, decrement_in_flight}
use roshanfer_sidecar.Credit.Serve.{IsCreditQueue}
use roshanfer_sidecar.Credit.Push.{Pushed}
use roshanfer_sidecar.Credit.Example.{
  one_slot, inner_of, counters, queue_of, queue_of-IsCreditQueue,
}
use roshanfer_sidecar.Rlp.{
  Datagram, extract_service, write_failed_dn_response, stamp_queuing_time, put, size_of_char,
}
use roshanfer_sidecar.Server.{
  Server, Limits, Measured, protocol_server, handle_request, handle_return,
  check_credit_transmission,
}
use roshanfer_sidecar.Server.Step.{
  Transmits, Keeps, check_credit_transmission-Transmits, handle_request-Transmits,
}
use roshanfer_sidecar.Server.Balance.{protocol_server-in_flight}

abbrev limits : Limits
limits = record {
  mapping = [];
  leaf = true;
  cpu_count = pos 2;
  extra_limit = pos 0;
  scale = λ z. z;
  tracked = λ k. true;
}

abbrev quiet : Measured
quiet = record { due = false; ratio = pos 1 }

abbrev blank : Datagram
blank = record { bytes = λ j. 0; filled = 0; addr = 0; enter_queue_ts = pos 0 }

-- A Credit Request for one call to "a", at priority 1.
abbrev request_a : Datagram
request_a = record {
  bytes = λ j.
      if j == 0
      then 27
      else if j == 26
      then 97
      else if j == 1
      then 1
      else if j == 3
      then 1
      else if j == 13
      then 1
      else 0;
  filled = 27;
  addr = 9;
  enter_queue_ts = pos 0;
}

abbrev return_a : Datagram
return_a = record request_a { bytes = put (request_a.bytes) 1 2 }

abbrev idle : Server
idle = record { credit_queue = queue_of []; sent = [] }

idle-IsCreditQueue : IsCreditQueue (idle.credit_queue)
idle-IsCreditQueue = queue_of-IsCreditQueue [] (omega arith)

-- The grant that answers the request.
abbrev grant_a : Datagram
grant_a = record {
  bytes = put (put (λ (j : ℕ). if ltb j 27 then request_a.bytes j else blank.bytes j) 2 1) 4 1;
  filled = 27;
  addr = 9;
  enter_queue_ts = pos 100;
}

-- After the request the grant is on its way, and the call is counted.
abbrev busy : Server
busy = record {
  credit_queue = record {
    credit_queue = inner_of [] 0 ∷ inner_of [] 0 ∷ inner_of [] 0 ∷ [];
    it = 1;
    remaining_rounds = 3;
    size = 0;
    counters = record counters { in_flight = pos 1; in_flight_per_endpoint = one_slot (pos 1) };
  };
  sent = stamp_queuing_time (pos 130) grant_a ∷ [];
}

request_served : protocol_server limits quiet blank (pos 100) (pos 130) request_a idle ≡ ok busy
unfolding protocol_server handle_request check_credit_transmission extract_service size_of_char
    write_failed_dn_response stamp_queuing_time ◌+ℤ◌ roshanfer_sidecar.Server.update_limits
    roshanfer_sidecar.Rlp.write_credit_grant roshanfer_sidecar.Rlp.set_filled
    roshanfer_sidecar.Credit.push roshanfer_sidecar.Credit.inner_push
    roshanfer_sidecar.FastMap.update roshanfer_sidecar.FastMap.find_ptr
    roshanfer_sidecar.FastMap.probe roshanfer_sidecar.FastMap.slot_at
    roshanfer_sidecar.FastMap.Hash.fnv1a64 roshanfer_sidecar.Rlp.take_bytes
    roshanfer_sidecar.FastMap.equals roshanfer_sidecar.FastMap.store
    roshanfer_sidecar.Credit.has_room roshanfer_sidecar.Credit.inner_pop
    roshanfer_sidecar.Credit.inner_pop_loop roshanfer_sidecar.Credit.next_priority
    roshanfer_sidecar.Credit.pop roshanfer_sidecar.Credit.pop_loop roshanfer_sidecar.Credit.served
    roshanfer_sidecar.Credit.take_front roshanfer_sidecar.Credit.try_priority
    roshanfer_sidecar.FastMap.Iterator.next_of roshanfer_sidecar.FastMap.Iterator.occupied_at
    roshanfer_sidecar.FastMap.Iterator.skip_empty roshanfer_sidecar.FastMap.Iterator.skip_loop
    roshanfer_sidecar.FastMap.get roshanfer_sidecar.FastMap.memcmp_eq
    roshanfer_sidecar.FastMap.occupied
request_served = refl

protocol_server-in_flight_example :
    IsCreditQueue (busy.credit_queue)
    × (n : ℕ) × (n ≤ 1)
    × (length (busy.sent) ≡ length (idle.sent) + n)
    × (((request_a.bytes 1 ≡ 1) × (pos 1 ≡ pos 0 +ℤ pos n))
        ⊎ ((request_a.bytes 1 ≡ 2) × (pos 1 ≡ pos 0 -ℤ pos 1 +ℤ pos n)))
protocol_server-in_flight_example =
    protocol_server-in_flight limits quiet blank (pos 100) (pos 130) request_a idle busy
      idle-IsCreditQueue (omega arith) request_served

request_handled : handle_request limits quiet blank (pos 100) (pos 130) request_a idle ≡ ok busy
unfolding protocol_server
request_handled = request_served

handle_request-Transmits_example :
    (service : Bytes) × (resp : Datagram) × (q₁ q₂ : CreditQueue Datagram) × (extract_service
        request_a
      ≡ ok service)
    × (write_failed_dn_response request_a blank ≡ ok resp)
    × Keeps idle.credit_queue q₁
    × Pushed q₁
        (record resp { enter_queue_ts = pos 100 })
        service
        (size_of_char (request_a.bytes 13))
        q₂
    × IsCreditQueue (busy.credit_queue)
    × Transmits (pos 130) (record idle { credit_queue = q₂ }) busy
handle_request-Transmits_example =
    handle_request-Transmits limits quiet blank (pos 100) (pos 130) request_a idle busy
      idle-IsCreditQueue (omega arith) request_handled

check_credit_transmission-Transmits_example :
    (s' : Server) × (check_credit_transmission (pos 130) idle ≡ ok s')
    × IsCreditQueue s'.credit_queue
    × Transmits (pos 130) idle s'
check_credit_transmission-Transmits_example =
    check_credit_transmission-Transmits (pos 130) idle idle-IsCreditQueue
