-- ===== src/Client/Tests.antt =====
-- Tests of the client side of src/state.cc and of the connection pool, and the theorems about
-- them at a concrete client.
use roshanfer_sidecar.Base.{
  ℕ, ◌+◌, ◌*◌, ◌^◌, ◌≤◌, ◌<◌, ◌≡◌, ◌⊎◌, ◌==◌, refl, List, [], ◌∷◌, ◌++◌, Bool, true, false, Option,
  none, some, Bytes, length, if◌then◌else◌, Result, ok, err, arith, get_elem?,
}
use roshanfer_sidecar.Base.Int.{ℤ, pos, negsuc}
use roshanfer_sidecar.Rlp.{Datagram}
use roshanfer_sidecar.Rpc.{Message, egress}
use roshanfer_sidecar.Mapper.{Maps, get_ds_rpc, get_ingress_rpc}
use roshanfer_sidecar.Queues.{RpcQueue}
use roshanfer_sidecar.Server.{MappingEntry, Server}
use roshanfer_sidecar.Client.Pool.{
  ConnectionStatus, up, down, teardown, Connection, ConnectionPool, available, get_any_connection,
}
use roshanfer_sidecar.Client.{Client, update_message, maps_of, route_request}
use roshanfer_sidecar.Client.Parallel.{Leaves, Grant, run_grants, HasHad, run_grants-Leaves}
use roshanfer_sidecar.Client.Responses.{run_responses, Enters, HasGot, run_responses-Enters}
use roshanfer_sidecar.Client.Returns.{returns_of, Flushes}
use roshanfer_sidecar.Client.Dynamic.{HasStored, run_grants-Flushes}
use roshanfer_sidecar.Queues.{queue_at}
use roshanfer_sidecar.Client.Protocol.{Asking, request_for_all}
use roshanfer_sidecar.Client.Admitted.{calls_at, Admits, request_for_all-Admits}
use roshanfer_sidecar.Client.Fanout.{fanout_res_credit_management}
use roshanfer_sidecar.Client.Scan.{Scans, get_any_connection-Scans}
use roshanfer_sidecar.Client.Routing.{route_request-up}
use roshanfer_sidecar.Client.Example.{
  a_calls, messages, free, pool, client, blank, id_of, grant_of, value, client-IsCreditQueue,
}

abbrev submit : Connection → Message Datagram → Result ℤ
submit conn m = ok (m.ds_stream_id)

abbrev grants : MappingEntry → List Grant → Result Client
grants entry gs =
    run_grants submit (λ b. ok (pos 5)) (λ z. []) (λ z. z) false (entry ∷ []) gs client

-- A parallel fan-out: each call has its own grant.
abbrev both : List Grant
both = grant_of (id_of 1) (120 ∷ []) ∷ grant_of (id_of 2) (121 ∷ []) ∷ []

abbrev sent_both : Client
sent_both = value (grants (a_calls true false) both) client

runs_parallel :
    (grants (a_calls true false) both ≡ ok sent_both)
    × (sent_both.server.credit_queue.counters.in_flight ≡ negsuc 0)
unfolding run_grants roshanfer_sidecar.Client.Fanout.fanout_req_management
    roshanfer_sidecar.Mapper.get_ingress_rpc roshanfer_sidecar.Mapper.ingress_side_id
    roshanfer_sidecar.Base.Assoc.find roshanfer_sidecar.Base.Assoc.assign
    roshanfer_sidecar.Base.Assoc.erase roshanfer_sidecar.Base.Int.ℤ_discrete
    roshanfer_sidecar.Base.ℕ_discrete roshanfer_sidecar.Server.find_entry
    roshanfer_sidecar.Client.Fanout.parallel_grant roshanfer_sidecar.Client.Fanout.pop_and_send
    roshanfer_sidecar.Queues.pop_call roshanfer_sidecar.Queues.calls_of
    roshanfer_sidecar.Queues.set_calls roshanfer_sidecar.Client.send_sub_request
    roshanfer_sidecar.Client.route_request roshanfer_sidecar.Mapper.get_ds_rpc
    roshanfer_sidecar.Mapper.at_stream roshanfer_sidecar.Client.maps_of
    roshanfer_sidecar.Client.pick roshanfer_sidecar.Client.get_pool
    roshanfer_sidecar.Base.Assoc.Bytes_discrete roshanfer_sidecar.Client.Pool.get_any_connection
    roshanfer_sidecar.Client.Pool.scan roshanfer_sidecar.Client.Pool.available
    roshanfer_sidecar.Client.Pool.is_up roshanfer_sidecar.Client.use_connection
    roshanfer_sidecar.Client.Pool.get_connection roshanfer_sidecar.Client.Pool.find_connection
    roshanfer_sidecar.Client.forward_request roshanfer_sidecar.Client.is_given
    roshanfer_sidecar.Mapper.route roshanfer_sidecar.Mapper.emplace
    roshanfer_sidecar.Mapper.streams_of roshanfer_sidecar.Client.with_maps
    roshanfer_sidecar.Client.leave roshanfer_sidecar.Credit.decrement_in_flight
    roshanfer_sidecar.Server.check_credit_transmission roshanfer_sidecar.Credit.pop
    roshanfer_sidecar.FastMap.update roshanfer_sidecar.FastMap.find_ptr
    roshanfer_sidecar.FastMap.probe roshanfer_sidecar.FastMap.slot_at
    roshanfer_sidecar.FastMap.Hash.fnv1a64 roshanfer_sidecar.FastMap.equals
    roshanfer_sidecar.FastMap.store roshanfer_sidecar.Base.Int.◌-ℤ◌
runs_parallel = (refl, refl)

abbrev WasGranted : ℕ → Client → Type 0
WasGranted =
    HasHad submit (λ b. ok (pos 5)) (λ z. []) (λ z. z) false (a_calls true false ∷ []) (id_of 0) 0
      (a_calls true false)

run_grants-Leaves_example :
    WasGranted (length both) sent_both
    × (((sent_both.server ≡ client.server) × (length both < 2))
        ⊎ (Leaves client.server sent_both.server × (length both ≡ 2)))
unfolding roshanfer_sidecar.Mapper.get_ingress_rpc roshanfer_sidecar.Mapper.ingress_side_id
    roshanfer_sidecar.Base.Assoc.find roshanfer_sidecar.Base.Int.ℤ_discrete
    roshanfer_sidecar.Base.ℕ_discrete roshanfer_sidecar.Server.find_entry
run_grants-Leaves_example =
    run_grants-Leaves submit (λ b. ok (pos 5)) (λ z. []) (λ z. z) false (a_calls true false ∷ [])
      (id_of 0) 0 (a_calls true false) both 0 client (refl, (refl, tt)) refl (omega arith)
      (omega arith) (omega arith) (record { known = refl; named = refl; had = refl })
      client-IsCreditQueue (runs_parallel.0)

-- The two responses.
abbrev answers : List ℤ
answers = id_of 2 ∷ id_of 1 ∷ []

abbrev answered : Client
answered = value (run_responses (a_calls true false ∷ []) answers client) client

runs_responses :
    (run_responses (a_calls true false ∷ []) answers client ≡ ok answered)
    × (answered.server.credit_queue.counters.in_flight ≡ pos 1)
unfolding run_responses roshanfer_sidecar.Client.Fanout.fanout_res_credit_management
    roshanfer_sidecar.Mapper.get_ingress_rpc roshanfer_sidecar.Mapper.ingress_side_id
    roshanfer_sidecar.Base.Assoc.find roshanfer_sidecar.Base.Int.ℤ_discrete
    roshanfer_sidecar.Base.ℕ_discrete roshanfer_sidecar.Server.find_entry
    roshanfer_sidecar.Client.Fanout.enter roshanfer_sidecar.Credit.increment_in_flight
    roshanfer_sidecar.FastMap.update roshanfer_sidecar.FastMap.find_ptr
    roshanfer_sidecar.FastMap.probe roshanfer_sidecar.FastMap.slot_at
    roshanfer_sidecar.FastMap.Hash.fnv1a64 roshanfer_sidecar.FastMap.equals
    roshanfer_sidecar.FastMap.store roshanfer_sidecar.Base.Int.◌+ℤ◌
runs_responses = (refl, refl)

run_responses-Enters_example :
    HasGot (a_calls true false ∷ []) (id_of 0) 0 (a_calls true false) 2 answered
    × (c₁ : Client) × (fanout_res_credit_management (a_calls true false ∷ []) (id_of 2) client
        ≡ ok c₁)
    × Enters ((client.messages 0).service) client.server c₁.server
    × (answered.server ≡ c₁.server)
unfolding roshanfer_sidecar.Mapper.get_ingress_rpc roshanfer_sidecar.Mapper.ingress_side_id
    roshanfer_sidecar.Base.Assoc.find roshanfer_sidecar.Base.Int.ℤ_discrete
    roshanfer_sidecar.Base.ℕ_discrete roshanfer_sidecar.Server.find_entry
run_responses-Enters_example =
    run_responses-Enters (a_calls true false ∷ []) (id_of 0) 0 (a_calls true false) (id_of 2)
      (id_of 1 ∷ []) client (refl, (refl, tt)) refl
      (record { known = refl; named = refl; got = refl }) (omega arith) client-IsCreditQueue
      (runs_responses.0)

-- A dynamic fan-out: the credit of "y" is not needed.
abbrev either : List Grant
either = grant_of (id_of 1) (121 ∷ []) ∷ grant_of (id_of 1) (120 ∷ []) ∷ []

abbrev sent_one : Client
sent_one = value (grants (a_calls false true) either) client

runs_dynamic :
    (grants (a_calls false true) either ≡ ok sent_one) × (length sent_one.server.sent ≡ 1)
unfolding run_grants roshanfer_sidecar.Client.Fanout.fanout_req_management
    roshanfer_sidecar.Mapper.get_ingress_rpc roshanfer_sidecar.Mapper.ingress_side_id
    roshanfer_sidecar.Base.Assoc.find roshanfer_sidecar.Base.Assoc.assign
    roshanfer_sidecar.Base.Assoc.erase roshanfer_sidecar.Base.Int.ℤ_discrete
    roshanfer_sidecar.Base.ℕ_discrete roshanfer_sidecar.Server.find_entry
    roshanfer_sidecar.Client.Fanout.dynamic_grant roshanfer_sidecar.Client.Fanout.store_return
    roshanfer_sidecar.Client.Fanout.flush_returns roshanfer_sidecar.Rlp.prepare_credit_return
    roshanfer_sidecar.Rlp.set_filled roshanfer_sidecar.Client.Fanout.pop_and_send
    roshanfer_sidecar.Queues.pop_call roshanfer_sidecar.Queues.calls_of
    roshanfer_sidecar.Queues.set_calls roshanfer_sidecar.Client.send_sub_request
    roshanfer_sidecar.Client.route_request roshanfer_sidecar.Mapper.get_ds_rpc
    roshanfer_sidecar.Mapper.at_stream roshanfer_sidecar.Client.maps_of
    roshanfer_sidecar.Client.pick roshanfer_sidecar.Client.get_pool
    roshanfer_sidecar.Base.Assoc.Bytes_discrete roshanfer_sidecar.Client.Pool.get_any_connection
    roshanfer_sidecar.Client.Pool.scan roshanfer_sidecar.Client.Pool.available
    roshanfer_sidecar.Client.Pool.is_up roshanfer_sidecar.Client.use_connection
    roshanfer_sidecar.Client.Pool.get_connection roshanfer_sidecar.Client.Pool.find_connection
    roshanfer_sidecar.Client.forward_request roshanfer_sidecar.Client.is_given
    roshanfer_sidecar.Mapper.route roshanfer_sidecar.Mapper.emplace
    roshanfer_sidecar.Mapper.streams_of roshanfer_sidecar.Client.with_maps
    roshanfer_sidecar.Client.leave roshanfer_sidecar.Credit.decrement_in_flight
    roshanfer_sidecar.Server.check_credit_transmission roshanfer_sidecar.Credit.pop
    roshanfer_sidecar.FastMap.update roshanfer_sidecar.FastMap.find_ptr
    roshanfer_sidecar.FastMap.probe roshanfer_sidecar.FastMap.slot_at
    roshanfer_sidecar.FastMap.Hash.fnv1a64 roshanfer_sidecar.FastMap.equals
    roshanfer_sidecar.FastMap.store roshanfer_sidecar.Base.Int.◌-ℤ◌
runs_dynamic = (refl, refl)

abbrev WasStored : ℕ → List Datagram → Client → Type 0
WasStored =
    HasStored submit (λ b. ok (pos 5)) (λ z. []) (λ z. z) false (a_calls false true ∷ []) (id_of 0)
      0 (a_calls false true) (120 ∷ [])

run_grants-Flushes_example :
    (more : List Datagram) × (returns_of (120 ∷ []) either ≡ ok more)
    × ((WasStored (length either) more sent_one
          × (sent_one.server ≡ client.server)
          × (length either < 2))
        ⊎ (WasStored (length either) [] sent_one
            × Flushes client.server more sent_one.server
            × (length either ≡ 2)))
unfolding roshanfer_sidecar.Mapper.get_ingress_rpc roshanfer_sidecar.Mapper.ingress_side_id
    roshanfer_sidecar.Base.Assoc.find roshanfer_sidecar.Base.Int.ℤ_discrete
    roshanfer_sidecar.Base.ℕ_discrete roshanfer_sidecar.Server.find_entry
run_grants-Flushes_example =
    run_grants-Flushes submit (λ b. ok (pos 5)) (λ z. []) (λ z. z) false (a_calls false true ∷ [])
      (id_of 0) 0 (a_calls false true) (120 ∷ []) either 0 [] client (refl, (refl, tt)) refl refl
      (omega arith) (omega arith) (omega arith)
      (record { known = refl; named = refl; had = refl; calls = refl; waiting = refl })
      client-IsCreditQueue (runs_dynamic.0)

-- The first connection that is looked at is busy, and the search goes on from the beginning.
found_free : get_any_connection pool ≡ ok (some free, record pool { next_conn = 0 })
unfolding get_any_connection roshanfer_sidecar.Client.Pool.scan available
    roshanfer_sidecar.Client.Pool.is_up
found_free = refl

get_any_connection-Scans_example :
    (o : Option Connection) × (p' : ConnectionPool) × (get_any_connection pool ≡ ok (o, p'))
    × (p'.connections ≡ pool.connections)
    × (p'.addr ≡ some 9)
    × Scans pool.connections 1 o p'
get_any_connection-Scans_example = get_any_connection-Scans pool (omega arith)

abbrev with_free : Client
with_free = record client {
  messages = update_message messages 1 (record (messages 1) { us_fd = pos 20 });
  pools = (42 ∷ [], record pool { next_conn = 0 }) ∷ [];
}

routed : route_request egress (pos 1) (pos 3) client ≡ ok (some free, with_free)
unfolding route_request get_ds_rpc roshanfer_sidecar.Mapper.at_stream
    roshanfer_sidecar.Base.Assoc.find maps_of roshanfer_sidecar.Base.Int.ℤ_discrete
    roshanfer_sidecar.Base.ℕ_discrete roshanfer_sidecar.Client.pick
    roshanfer_sidecar.Client.get_pool roshanfer_sidecar.Base.Assoc.Bytes_discrete get_any_connection
    roshanfer_sidecar.Client.Pool.scan available roshanfer_sidecar.Client.Pool.is_up
    roshanfer_sidecar.Client.use_connection roshanfer_sidecar.Base.Assoc.assign
routed = refl

route_request-up_example :
    (conn : Connection) × (r : ℕ) × (some free ≡ some conn)
    × (conn.status ≡ up)
    × (get_ds_rpc (maps_of egress client) (pos 1) (pos 3) ≡ ok r)
    × (with_free.messages ≡ update_message messages r (record (messages r) { us_fd = conn.fd }))
    × (with_free.rpc_queue ≡ client.rpc_queue)
route_request-up_example =
    route_request-up egress (pos 1) (pos 3) client with_free (some free) routed

-- Two calls come from the service, which asks "x" and "y" for a credit for each.
abbrev calling : Client
calling = record client {
  rpc_queue = record (client.rpc_queue) {
    egress_downstream = (pos 3, pos 1) ∷ (pos 3, pos 2) ∷ [];
  };
  ppm_queue =
      record { service = 120 ∷ []; calls = [] } ∷ record { service = 121 ∷ []; calls = [] } ∷ [];
}

abbrev asking : Asking
asking = record {
  is_ingress = false;
  mapping = a_calls false true ∷ [];
  blank = blank;
  last_rtt = λ s. pos 7;
  now = pos 100;
}

abbrev admitted : Client
admitted = value (request_for_all asking calling) calling

runs_requests :
    (request_for_all asking calling ≡ ok admitted)
    × (length admitted.server.sent ≡ 4)
    × (admitted.ppm_queue ≡ client.ppm_queue)
unfolding request_for_all roshanfer_sidecar.Queues.dequeue_stream
    roshanfer_sidecar.Queues.take_stream roshanfer_sidecar.Queues.queue_at
    roshanfer_sidecar.Queues.with_queue roshanfer_sidecar.Client.Protocol.admit_loop
    roshanfer_sidecar.Client.Protocol.admit_one roshanfer_sidecar.Client.Protocol.admit_stream
    roshanfer_sidecar.Client.Protocol.services_of roshanfer_sidecar.Client.Protocol.choose_services
    roshanfer_sidecar.Mapper.get_ds_rpc roshanfer_sidecar.Mapper.at_stream
    roshanfer_sidecar.Base.Assoc.find roshanfer_sidecar.Base.Assoc.assign
    roshanfer_sidecar.Base.Int.ℤ_discrete roshanfer_sidecar.Base.ℕ_discrete
    roshanfer_sidecar.Queues.push_call roshanfer_sidecar.Queues.calls_of
    roshanfer_sidecar.Queues.set_calls roshanfer_sidecar.Mapper.get_ingress_rpc
    roshanfer_sidecar.Mapper.ingress_side_id roshanfer_sidecar.Server.find_entry
    roshanfer_sidecar.Client.Fanout.request_credits roshanfer_sidecar.Client.get_pool
    roshanfer_sidecar.Base.Assoc.Bytes_discrete roshanfer_sidecar.Client.Pool.get_addr
    roshanfer_sidecar.Rlp.send_credit_request roshanfer_sidecar.Rlp.set_filled
runs_requests = (refl, refl, refl)

request_for_all-Admits_example :
    (rs : List ℕ) × (calls_at calling.egress_maps ((pos 3, pos 1) ∷ (pos 3, pos 2) ∷ []) ≡ ok rs)
    × Admits asking calling admitted rs []
unfolding roshanfer_sidecar.Queues.queue_at
request_for_all-Admits_example = request_for_all-Admits asking calling admitted (runs_requests.0)
