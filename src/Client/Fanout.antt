-- ===== src/Client/Fanout.antt =====
-- The handling of a Credit Grant for a call of the service, of a response to one, and of the calls
-- that ask for a credit: `fanout_req_management`, `fanout_res_credit_management` and
-- `protocol_client` of src/state.cc.
use roshanfer_sidecar.Base.{
  ℕ, zero, suc, ◌+◌, ◌%◌, ◌^◌, List, [], ◌∷◌, ◌++◌, Bool, Bytes, length, ltb, ◌==◌, if◌then◌else◌,
  bytes_eq, out_of_range, undefined, Result, ok, ◌>>=◌, or_fault,
}
use roshanfer_sidecar.Base.Int.{ℤ}
use roshanfer_sidecar.Rpc.{Message}
use roshanfer_sidecar.Mapper.{get_ingress_rpc}
use roshanfer_sidecar.Queues.{pop_call}
use roshanfer_sidecar.Rlp.{Datagram, send_credit_request, prepare_credit_return}
use roshanfer_sidecar.Credit.{increment_in_flight}
use roshanfer_sidecar.Server.{MappingEntry, find_entry}
use roshanfer_sidecar.Client.Pool.{Connection, get_addr}
use roshanfer_sidecar.Client.{Client, update_message, get_pool, send_sub_request, leave}

-- The queue of credits to return, once a grant for `service` is there: one that is not for the
-- service that the call is to is put into a Credit Return. The pointer to the name of that
-- service must not be null.
unfoldable pub store_return :
    Message Datagram → Bytes → Datagram → Datagram → Result (List Datagram)
store_return m service grant blank = do
  chosen ← or_fault m.dfanout_service undefined
  (if bytes_eq chosen service
      then ok m.credit_return_queue
      else (prepare_credit_return grant blank >>= λ ret. ok (m.credit_return_queue ++ ret ∷ [])))

-- The end of a dynamic fan-out: the call is sent to the one service, and the credits of the
-- others go back.
unfoldable pub flush_returns : ℕ → Client → Client
flush_returns r c =
    let m = c.messages r in
    record c {
      messages = update_message c.messages r (record m { credit_return_queue = [] });
      server = record (c.server) { sent = c.server.sent ++ m.credit_return_queue };
    }

-- The count of a call of the service that waits for others no more, on a response to one.
unfoldable pub enter : Bytes → Client → Result Client
enter service c = increment_in_flight c.server.credit_queue service >>= λ q.
    ok (record c { server = record (c.server) { credit_queue = q } })

-- `State::fanout_res_credit_management`
unfoldable pub fanout_res_credit_management : List MappingEntry → ℤ → Client → Result Client
fanout_res_credit_management mapping id c = do
  r ← get_ingress_rpc c.ingress_maps id
  let m = c.messages r
  entry ← or_fault (find_entry mapping m.service) out_of_range
  let n = (m.pfanout_res + 1) % 2 ^ 8
  let counted = record c { messages = update_message c.messages r (record m { pfanout_res = n }) }
  (if entry.pfanout
      then (if ltb 1 n then ok counted else enter m.service counted)
      else enter m.service c)

-- The requests that `protocol_client` sends for one call, one for each service. `blank` is a
-- buffer, `last_rtt` the round-trip time that is known of a service.
unfoldable pub request_credits :
    Datagram → (Bytes → ℤ) → ℤ → ℤ → ℕ → List Bytes → Client → Result Client
request_credits blank last_rtt now id priority [] c = ok c
request_credits blank last_rtt now id priority (service ∷ services) c = do
  (_, pool) ← get_pool c.pools service
  addr ← get_addr pool
  d ← send_credit_request blank (last_rtt service) now addr service 1 id priority
  request_credits blank last_rtt now id priority services
      (record c { server = record (c.server) { sent = c.server.sent ++ d ∷ [] } })

module _ (submit : Connection → Message Datagram → Result ℤ) (stoll : Bytes → Result ℤ)
    (snprintf : ℤ → Bytes) (to_int32 : ℤ → ℤ) (is_plain_frontend : Bool)
    (mapping : List MappingEntry) where
  -- `ppm_queue.pop(service, id)` and `send_sub_request`.
  unfoldable pub pop_and_send : Bytes → ℤ → Client → Result Client
  pop_and_send service id c = do
    (r, ppm) ← pop_call c.ppm_queue service id
    send_sub_request submit stoll snprintf to_int32 is_plain_frontend mapping r
        (record c { ppm_queue = ppm })

  -- The branch for a parallel fan-out. The counter is a uint8_t.
  unfoldable pub parallel_grant : ℕ → MappingEntry → ℤ → Bytes → ℤ → Client → Result Client
  parallel_grant r entry id service now c = do
    let m = c.messages r
    let n = (m.pfanout_req + 1) % 2 ^ 8
    let counted = record c { messages = update_message c.messages r (record m { pfanout_req = n }) }
    c' ← pop_and_send service id counted
    let last = leave now ((c'.messages r).service) c'
    if n == length entry.downstreams then last else ok c'

  -- The branch for a dynamic fan-out.
  unfoldable pub dynamic_grant :
      ℕ → MappingEntry → ℤ → Bytes → Datagram → Datagram → ℤ → Client → Result Client
  dynamic_grant r entry id service grant blank now c = do
    let m = c.messages r
    let n = (m.pfanout_req + 1) % 2 ^ 8
    returns ← store_return m service grant blank
    let m' = record m { pfanout_req = n; credit_return_queue = returns }
    let stored = record c { messages = update_message c.messages r m' }
    let last = or_fault m.dfanout_service undefined >>= λ chosen.
        pop_and_send chosen id stored >>= λ c'.
        leave now (((flush_returns r c').messages r).service) (flush_returns r c')
    if n == length entry.downstreams then last else ok stored

  -- `State::fanout_req_management`. `blank` is the buffer for a Credit Return, `now` the clock.
  unfoldable pub fanout_req_management :
      ℤ → Bytes → Datagram → Datagram → ℤ → Client → Result Client
  fanout_req_management id service grant blank now c = do
    r ← get_ingress_rpc c.ingress_maps id
    entry ← or_fault (find_entry mapping ((c.messages r).service)) out_of_range
    let sequential = pop_and_send service id c >>= λ c'. leave now ((c'.messages r).service) c'
    (if entry.pfanout
        then parallel_grant r entry id service now c
        else if entry.dfanout
        then dynamic_grant r entry id service grant blank now c
        else sequential)

  -- `protocol_client` for a grant: as often as it has credits.
  unfoldable pub use_credits : ℕ → ℤ → Bytes → Datagram → Datagram → ℤ → Client → Result Client
  use_credits zero id service grant blank now c = ok c
  use_credits (suc n) id service grant blank now c =
      fanout_req_management id service grant blank now c >>= λ c'.
      use_credits n id service grant blank now c'
