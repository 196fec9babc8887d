-- ===== src/Queues/Tests.antt =====
-- Tests of src/rpc_queue.cc and src/ppm_queue.cc, and the theorems about them.
use roshanfer_sidecar.Base.{
  ℕ, ℕ_discrete, ◌≡◌, ◌⊎◌, refl, List, [], ◌∷◌, Bytes, Fault, fatal, Result, ok, err, arith,
}
use roshanfer_sidecar.Base.Int.{ℤ, pos}
use roshanfer_sidecar.Rpc.{egress}
use roshanfer_sidecar.Queues.{
  PpmQueue, Waiting, push_call, pop_call, RpcQueue, Stream, downstream, queue_at, enqueue_stream,
  dequeue_stream,
}
use roshanfer_sidecar.Queues.Pending.{call_of, push_call-pop_call, enqueue_stream-dequeue_stream}

abbrev key_a : Bytes
key_a = 97 ∷ []

abbrev no_calls : PpmQueue
no_calls = record { service = key_a; calls = [] } ∷ []

abbrev one_call : PpmQueue
one_call = record { service = key_a; calls = (pos 5, 7) ∷ [] } ∷ []

push_7 : push_call no_calls key_a (pos 5) 7 ≡ ok one_call
unfolding push_call roshanfer_sidecar.Queues.calls_of roshanfer_sidecar.Base.Assoc.find
    roshanfer_sidecar.Queues.set_calls roshanfer_sidecar.Base.Assoc.assign
push_7 = refl

push_call-pop_call_example :
    ((q'' : PpmQueue) × (pop_call one_call key_a (pos 5) ≡ ok (7, q''))
      × ((s : Bytes) (i : ℤ) → call_of q'' s i ≡ call_of no_calls s i)
      × (pop_call q'' key_a (pos 5) ≡ err fatal))
    × ((other : ℕ) → push_call one_call key_a (pos 5) other ≡ err fatal)
push_call-pop_call_example = push_call-pop_call no_calls one_call key_a (pos 5) 7 push_7

abbrev streams : RpcQueue
streams = record {
  ingress_upstream = [];
  ingress_downstream = [];
  egress_upstream = [];
  egress_downstream = (pos 3, pos 1) ∷ [];
}

enqueue_stream-dequeue_stream_example :
    ((queue_at streams egress downstream ≡ [])
      × (dequeue_stream (enqueue_stream streams egress downstream (pos 3, pos 2)) egress downstream
          ≡ ok ((pos 3, pos 2), streams)))
    ⊎ ((s : Stream) × (q' : RpcQueue) × (dequeue_stream streams egress downstream ≡ ok (s, q'))
        × (dequeue_stream
              (enqueue_stream streams egress downstream (pos 3, pos 2))
              egress
              downstream
            ≡ ok (s, enqueue_stream q' egress downstream (pos 3, pos 2))))
enqueue_stream-dequeue_stream_example =
    enqueue_stream-dequeue_stream streams egress downstream (pos 3, pos 2)
