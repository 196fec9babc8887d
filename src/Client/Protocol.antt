-- ===== src/Client/Protocol.antt =====
-- `protocol_client` and `ingress_pre_credit` of src/state.cc: what is done with a Credit Grant, and
-- the Credit Requests for the calls that came from the service, or for the first call of the
-- ingress queue.
use roshanfer_sidecar.Base.{
  ℕ, zero, suc, List, [], ◌∷◌, Bool, false, Option, none, some, Bytes, length, if◌then◌else◌,
  out_of_range, Result, ok, ◌>>=◌, or_fault,
}
use roshanfer_sidecar.Base.Int.{ℤ, pattern64}
use roshanfer_sidecar.Rpc.{Message, egress}
use roshanfer_sidecar.Mapper.{get_ingress_rpc, get_ds_rpc}
use roshanfer_sidecar.Queues.{Stream, downstream, queue_at, dequeue_stream, push_call, check}
use roshanfer_sidecar.Rlp.{Datagram, Credit, credit_post_process}
use roshanfer_sidecar.Ingress.{
  Ingress, Verdict, update_ingress_cap, send_credit_request_checker, get_tail,
}
use roshanfer_sidecar.Server.{MappingEntry, find_entry}
use roshanfer_sidecar.Client.Pool.{Connection}
use roshanfer_sidecar.Client.{Client, update_message}
use roshanfer_sidecar.Client.Fanout.{request_credits, use_credits}

-- What the requests of a sidecar depend on: its role, its services, a free buffer, the round-trip
-- time that is known of a service, and the clock.
pub record Asking : Type 0 where
  pub is_ingress : Bool
  pub mapping : List MappingEntry
  pub blank : Datagram
  pub last_rtt : Bytes → ℤ
  pub now : ℤ

-- The services that a sidecar asks for a credit for the call `r`: the one that it is for, unless the
-- call is one of a dynamic fan-out. Then it asks all, and the call of the service keeps the one.
unfoldable pub choose_services : Asking → ℕ → Client → Result (List Bytes × Client)
choose_services a r c = do
  let m = c.messages r
  parent ← get_ingress_rpc c.ingress_maps m.local_id
  let p = c.messages parent
  entry ← or_fault (find_entry a.mapping p.service) out_of_range
  let chosen = record p { dfanout_service = some (m.service) }
  ok (
      if entry.dfanout
      then (entry.downstreams, record c { messages = update_message c.messages parent chosen })
      else (m.service ∷ [], c))

-- The ingress asks the service that the call is for.
unfoldable pub services_of : Asking → ℕ → Client → Result (List Bytes × Client)
services_of a r c =
    if a.is_ingress then ok ((c.messages r).service ∷ [], c) else choose_services a r c

-- What `protocol_client` does with a call that came out of the queue.
unfoldable pub admit_stream : Asking → Stream → Client → Result Client
admit_stream a (fd, stream) c = do
  r ← get_ds_rpc c.egress_maps stream fd
  let m = c.messages r
  ppm ← push_call c.ppm_queue m.service m.local_id r
  (services, c') ← services_of a r (record c { ppm_queue = ppm })
  request_credits a.blank a.last_rtt a.now m.local_id (pattern64 m.priority) services c'

-- One round of its loop over the calls in the queue.
unfoldable pub admit_one : Asking → Client → Result Client
admit_one a c = do
  (s, rpc_queue) ← dequeue_stream c.rpc_queue egress downstream
  admit_stream a s (record c { rpc_queue = rpc_queue })

unfoldable pub admit_loop : Asking → ℕ → Client → Result Client
admit_loop a zero c = ok c
admit_loop a (suc n) c = admit_one a c >>= λ c'. admit_loop a n c'

-- `protocol_client(false, …)`: as many rounds as calls were in the queue.
unfoldable pub request_for_all : Asking → Client → Result Client
request_for_all a c = admit_loop a (length (queue_at c.rpc_queue egress downstream)) c

-- `verdict` says how the cap changes, if there are new measurements.
unfoldable pub with_verdict : Option Verdict → Ingress Datagram → Ingress Datagram
with_verdict none q = q
with_verdict (some v) q = update_ingress_cap q v

-- `ingress_pre_credit`
unfoldable pub ingress_pre_credit :
    Asking → Option Verdict → Ingress Datagram → Client → Result (Ingress Datagram × Client)
ingress_pre_credit a verdict q₀ c = do
  let (check, q) = send_credit_request_checker (with_verdict verdict q₀)
  let send = get_tail q >>= λ (id, priority).
      request_credits a.blank a.last_rtt a.now id (pattern64 priority) (q.ingress_service ∷ []) c
      >>= λ c'. ok (q, c')
  if check then send else ok (q, c)

module _ (submit : Connection → Message Datagram → Result ℤ) (stoll : Bytes → Result ℤ)
    (snprintf : ℤ → Bytes) (to_int32 : ℤ → ℤ) (is_plain_frontend : Bool)
    (mapping : List MappingEntry) where
  -- `protocol_client(true, …)` of a sidecar that is no ingress. `blank` is the buffer for a Credit
  -- Return. The stored round-trip time is in `Credit`.
  unfoldable pub on_grant : ℤ → Datagram → Datagram → Client → Result (Credit × Client)
  on_grant now grant blank c = do
    credit ← credit_post_process (check c.ppm_queue) false [] now grant
    c' ←
        use_credits submit stoll snprintf to_int32 is_plain_frontend mapping credit.num_credits
          credit.id credit.service grant blank now c
    ok (credit, c')
