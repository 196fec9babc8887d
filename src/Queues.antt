-- ===== src/Queues.antt =====
-- src/rpc_queue.cc and src/ppm_queue.cc: the streams that wait to be forwarded, in order of
-- arrival, and the calls that wait for a credit, by service and identity.
pub mod Pending
pub mod Waits
mod Tests
use roshanfer_sidecar.Base.{
  ℕ, ◌+◌, ℕ_discrete, List, [], ◌∷◌, ◌++◌, Bool, true, false, not, Option, none, some, Bytes,
  length, ◌==◌, if◌then◌else◌, bytes_eq, Fault, fatal, Result, ok, err, ◌>>=◌, or_fault,
}
use roshanfer_sidecar.Base.Int.{ℤ, ℤ_discrete}
use roshanfer_sidecar.Base.Assoc.{find, assign, erase}
use roshanfer_sidecar.Rpc.{ConnectionType, ingress, egress}

pub data ConnectionDirection : Type 0 where
  upstream downstream : ConnectionDirection

-- A descriptor and a stream.
abbrev pub Stream : Type 0
Stream = ℤ × ℤ

-- `queue_map`: a queue for each type and direction.
pub record RpcQueue : Type 0 where
  pub ingress_upstream : List Stream
  pub ingress_downstream : List Stream
  pub egress_upstream : List Stream
  pub egress_downstream : List Stream

-- `queue_map.at(type).at(direction)`
unfoldable pub queue_at : RpcQueue → ConnectionType → ConnectionDirection → List Stream
queue_at q ingress upstream = q.ingress_upstream
queue_at q ingress downstream = q.ingress_downstream
queue_at q egress upstream = q.egress_upstream
queue_at q egress downstream = q.egress_downstream

unfoldable pub with_queue : RpcQueue → ConnectionType → ConnectionDirection → List Stream → RpcQueue
with_queue q ingress upstream xs = record q { ingress_upstream = xs }
with_queue q ingress downstream xs = record q { ingress_downstream = xs }
with_queue q egress upstream xs = record q { egress_upstream = xs }
with_queue q egress downstream xs = record q { egress_downstream = xs }

-- `RPCQueue::enqueue`
unfoldable pub enqueue_stream : RpcQueue → ConnectionType → ConnectionDirection → Stream → RpcQueue
enqueue_stream q t d s = with_queue q t d (queue_at q t d ++ s ∷ [])

unfoldable pub take_stream :
    RpcQueue → ConnectionType → ConnectionDirection → List Stream → Result (Stream × RpcQueue)
take_stream q t d [] = err fatal
take_stream q t d (s ∷ ss) = ok (s, with_queue q t d ss)

-- `RPCQueue::dequeue`
unfoldable pub dequeue_stream :
    RpcQueue → ConnectionType → ConnectionDirection → Result (Stream × RpcQueue)
dequeue_stream q t d = take_stream q t d (queue_at q t d)

-- A queue of `PPMQueue` for one service: from identities to messages, which are references.
pub record Waiting : Type 0 where
  pub service : Bytes
  pub calls : List (ℤ × ℕ)

-- `PPMQueue`: an entry for each route.
abbrev pub PpmQueue : Type 0
PpmQueue = List Waiting

-- `ppm_queue.at(service)`
unfoldable pub calls_of : PpmQueue → Bytes → Option (List (ℤ × ℕ))
calls_of [] k = none
calls_of (w ∷ ws) k =
    let rest = calls_of ws k in if bytes_eq w.service k then some w.calls else rest

unfoldable pub set_calls : PpmQueue → Bytes → List (ℤ × ℕ) → PpmQueue
set_calls [] k c = []
set_calls (w ∷ ws) k c =
    let rest = set_calls ws k c in
    if bytes_eq w.service k then record w { calls = c } ∷ ws else w ∷ rest

-- `PPMQueue::push` of message `rpc`, for `service`, with its identity.
unfoldable pub push_call : PpmQueue → Bytes → ℤ → ℕ → Result PpmQueue
push_call q service id rpc = or_fault (calls_of q service) fatal >>= λ calls.
    elim (find ℤ_discrete id calls) [
      | none ↦ ok (set_calls q service (assign ℤ_discrete id rpc calls))
      | some old ↦ err fatal
    ]

-- `PPMQueue::pop`. An empty queue stops the process as a missing identity does.
unfoldable pub pop_call : PpmQueue → Bytes → ℤ → Result (ℕ × PpmQueue)
pop_call q service id = or_fault (calls_of q service) fatal >>= λ calls.
    or_fault (find ℤ_discrete id calls) fatal >>= λ rpc.
    ok (rpc, set_calls q service (erase ℤ_discrete id calls))

-- `PPMQueue::check`
unfoldable pub check : PpmQueue → Bytes → Result Bytes
check q service = or_fault (calls_of q service) fatal >>= λ calls. ok service
