-- ===== src/Client.antt =====
-- The client side of src/state.cc: what a sidecar does for the calls of its service to others. A
-- call asks for a credit, waits in the queue of its service, and is sent when its grant comes; a
-- call to several services at once counts as one.
pub mod Pool
pub mod Fanout
pub mod Protocol
pub mod Requests
pub mod Admit
pub mod Admitted
pub mod Send
pub mod Parallel
pub mod Responses
pub mod Returns
pub mod Dynamic
pub mod Scan
pub mod Routing
pub mod Example
mod Tests
use roshanfer_sidecar.Base.{
  ℕ, zero, suc, ◌+◌, ◌%◌, List, [], ◌∷◌, ◌++◌, Bool, true, false, ◌&&◌, not, Option, none, some,
  Bytes, length, ltb, ◌==◌, if◌then◌else◌, bytes_eq, Fault, fatal, out_of_range, undefined, Result,
  ok, err, ◌>>=◌, ◌>>◌, require, or_fault, ite, ℕ_discrete,
}
use roshanfer_sidecar.Base.Int.{ℤ, pos, negsuc, ℤ_discrete}
use roshanfer_sidecar.Base.Assoc.{Bytes_discrete, find, assign}
use roshanfer_sidecar.Rpc.{Message, ConnectionType, ingress, egress, add_header_field, rpc_local_id}
use roshanfer_sidecar.Mapper.{Maps, Ends, route, get_ingress_rpc, get_ds_rpc}
use roshanfer_sidecar.Queues.{
  RpcQueue, PpmQueue, Stream, ConnectionDirection, downstream, queue_at, enqueue_stream,
  dequeue_stream, push_call, pop_call, check,
}
use roshanfer_sidecar.Rlp.{
  Datagram, Credit, send_credit_request, prepare_credit_return, credit_post_process,
}
use roshanfer_sidecar.Credit.{increment_in_flight, decrement_in_flight}
use roshanfer_sidecar.Server.{MappingEntry, find_entry, Server, check_credit_transmission}
use roshanfer_sidecar.Client.Pool.{
  ConnectionStatus, up, down, teardown, Connection, ConnectionPool, get_any_connection,
  get_connection, get_addr,
}

-- The parts of `State` that the client side uses. A message is a reference to `messages`; the
-- datagrams handed to the ring are in the server's list.
pub record Client : Type 0 where
  pub messages : ℕ → Message Datagram
  pub ingress_maps : Maps
  pub egress_maps : Maps
  pub rpc_queue : RpcQueue
  pub ppm_queue : PpmQueue
  pub ingress_pool : ConnectionPool
  pub pools : List (Bytes × ConnectionPool)
  pub server : Server

-- A change of one message.
abbrev pub update_message : (ℕ → Message Datagram) → ℕ → Message Datagram → ℕ → Message Datagram
update_message f r m j = ite (ℕ_discrete r j) m (f j)

-- What the mapper reads of a message.
abbrev pub ends_of : (ℕ → Message Datagram) → ℕ → Ends
ends_of f r = record {
  ds_stream_id = (f r).ds_stream_id;
  ds_fd = (f r).ds_fd;
  us_stream_id = (f r).us_stream_id;
  us_fd = (f r).us_fd;
  local_id = (f r).local_id;
}

-- "*"
abbrev pub any_service : Bytes
any_service = 42 ∷ []

-- `UpstreamRouteMapper::get_pool`: the key under which the pool is, and the pool.
unfoldable pub get_pool : List (Bytes × ConnectionPool) → Bytes → Result (Bytes × ConnectionPool)
get_pool pools service = elim (find Bytes_discrete service pools) [
  | some p ↦ ok (service, p)
  | none ↦ or_fault (find Bytes_discrete any_service pools) fatal >>= λ p. ok (any_service, p)
]

unfoldable pub maps_of : ConnectionType → Client → Maps
maps_of ingress c = c.ingress_maps
maps_of egress c = c.egress_maps

unfoldable pub with_maps : ConnectionType → Maps → Client → Client
with_maps ingress m c = record c { ingress_maps = m }
with_maps egress m c = record c { egress_maps = m }

-- A connection of the pool for a type and a service, and the pool put back.
unfoldable pub pick : ConnectionType → Bytes → Client → Result (Option Connection × Client)
pick ingress service c = do
  (found, p) ← get_any_connection c.ingress_pool
  ok (found, record c { ingress_pool = p })
pick egress service c = do
  (key, pool) ← get_pool c.pools service
  (found, p) ← get_any_connection pool
  ok (found, record c { pools = assign Bytes_discrete key p c.pools })

-- What `route_request` does with the connection that it has got. One that is down leaves the
-- message in the queue, and there is no connection.
unfoldable pub use_connection :
    ConnectionType
    → ℕ
    → Connection
    → Client
    → ConnectionStatus
    → Result (Option Connection × Client)
use_connection side r conn c teardown = err fatal
use_connection side r conn c down =
    let m = c.messages r in
    ok (
      none,
      record c { rpc_queue = enqueue_stream c.rpc_queue side downstream (m.ds_fd, m.ds_stream_id) },
    )
use_connection side r conn c up = ok (
  some conn,
  record c { messages = update_message c.messages r (record (c.messages r) { us_fd = conn.fd }) },
)

-- `State::route_request`. No connection at all stops the process.
unfoldable pub route_request : ConnectionType → ℤ → ℤ → Client → Result (Option Connection × Client)
route_request side stream fd c = do
  r ← get_ds_rpc (maps_of side c) stream fd
  (found, c') ← pick side ((c.messages r).service) c
  conn ← or_fault found fatal
  use_connection side r conn c' conn.status

-- The end of `fanout_req_management`: the call waits for others, and counts as in flight no more.
unfoldable pub leave : ℤ → Bytes → Client → Result Client
leave now service c = do
  q ← decrement_in_flight c.server.credit_queue service
  s ← check_credit_transmission now (record (c.server) { credit_queue = q })
  ok (record c { server = s })

-- An identity or a priority that the service gave, or one that it need not give.
unfoldable pub is_given : Bool → ℤ → Bool
is_given is_plain_frontend z =
    not (ite (ℤ_discrete z (negsuc 0)) true false && not is_plain_frontend)

-- `submit` says what `submit_request` of the connection returns: the stream, from nghttp2 or
-- counted. `stoll`, `snprintf` and `to_int32` are those of the header fields, and
-- `is_plain_frontend` and `mapping` are in the configuration.
module _ (submit : Connection → Message Datagram → Result ℤ) (stoll : Bytes → Result ℤ)
    (snprintf : ℤ → Bytes) (to_int32 : ℤ → ℤ) (is_plain_frontend : Bool)
    (mapping : List MappingEntry) where
  -- `set_local_id_header` of both classes. It uses no new identity.
  unfoldable pub set_local_id_header : Message Datagram → Result (Message Datagram)
  set_local_id_header m =
      add_header_field stoll false to_int32 0 m rpc_local_id (snprintf m.local_id) true false
      >>= λ (_, m'). ok m'

  -- `State::forward_request`, up to the hand-over of the bytes to the ring.
  unfoldable pub forward_request : ConnectionType → Connection → ℕ → Client → Result Client
  forward_request side conn r c = do
    let m₀ = c.messages r
    m₁ ← elim side [ ingress ↦ set_local_id_header m₀ | egress ↦ ok m₀ ]
    stream ← submit conn m₁
    let m = record m₁ { us_stream_id = stream }
    require (is_given is_plain_frontend m.local_id) fatal
    require (is_given is_plain_frontend m.priority) fatal
    let messages = update_message c.messages r m
    maps ← route (ends_of messages) (maps_of side c) m.ds_stream_id m.ds_fd stream conn.fd
    ok (with_maps side maps (record c { messages = messages }))

  -- `State::send_sub_request`, without its statistics.
  unfoldable pub send_sub_request : ℕ → Client → Result Client
  send_sub_request r c = do
    let m = c.messages r
    (_, c') ← route_request egress m.ds_stream_id m.ds_fd c
    (_, pool) ← get_pool c'.pools m.service
    conn ← get_connection pool ((c'.messages r).us_fd)
    forward_request egress conn r c'
