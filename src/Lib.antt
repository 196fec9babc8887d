-- ===== src/Lib.antt =====
-- A model of the sidecar: a proxy beside each service that lets a remote procedure call go on
-- only when the service that it is for has granted a credit for it.
--
-- A client asks for a credit by a UDP datagram, a Credit Request. The server (the sidecar of the
-- service that is called) queues it as the Credit Grant that will answer it, and sends the grant
-- once a slot is free: by endpoint and in all, no more calls than the limits may be in flight.
-- The client sends the call when the grant arrives, or returns the credit.
--
-- The files, and the code that they are about:
--   FastMap: `LocalMap` of include/fast_map.hpp, with the hash, the search for a seed, the lookups
--     and the circular iterator. A slot is a record, `slots_` a list of them. FastMap/Make has the
--     constructor, FastMap/Collide the seeds with which it does not succeed.
--   Credit: `InnerCreditQueue` and `CreditQueue` of src/credit_queue.cc and
--     include/credit_queue.hpp. Credit/Serve has the invariant, Credit/Whole what `pop` does.
--   Rlp: the datagrams of src/state.cc (`send_credit_request`, `extract_service_from_rlp_req`,
--     `write_credit_grant`, `prepare_credit_return`, `dispatch_rlp_recv`, `credit_post_process`).
--     A buffer is a function from indices to bytes, with the number of bytes filled.
--   Server: `protocol_server`, `update_limits` and `check_credit_transmission` of src/state.cc. The
--     state is the credit queue and the list of the datagrams handed to the ring.
--   Rpc: `RPCMessage` with its two classes, `HeaderField` and `RPCMessagePool` of
--     src/rpc_message.cc and include/rpc_message.h. `std::stoll` is a parameter.
--   Mapper: `RPCMapper` of src/rpc_mapper.cc. The maps hold references to messages, and a function
--     from references to the fields that the mapper reads stands for the messages.
--   Ingress: `Ingress` of src/ingress.cc. Ingress/Start has its constructor, Ingress/Cycle its runs
--     as a relation. The outcome of the arithmetic over floats that sets the cap is an argument.
--   Queues: `RPCQueue` of src/rpc_queue.cc and `PPMQueue` of src/ppm_queue.cc.
--   Buffers: `BufferManager` and `UserData` of src/buffer_manager.cc, `Buffer` of src/buffer.cc.
--     Buffers/Defs has the buffers of one kind, Buffers/Run the manager with all who take buffers
--     and give them back, as a relation. The kernel picks any buffer of a ring.
--   Client: the calls of a service to others in src/state.cc. Client/Pool is `ConnectionPool` of
--     src/connection.cc, Client/Fanout `fanout_req_management` and `fanout_res_credit_management`,
--     Client/Protocol `protocol_client` and `ingress_pre_credit`; Client itself has `route_request`,
--     `forward_request` and `send_sub_request`. Client/Requests has what a Credit Request is. A
--     message is a reference to a store. What `submit_request` of a connection returns is a
--     parameter.
--   Config: `load_config` of src/config.cc. yaml-cpp and the floats are parameters.
--   Stats: `SmoothedQuantileEstimator` of include/quantile_estimator.hpp. The samples are of a
--     parameter type with an order; std::sort and std::partial_sort are parameters.
--
-- LOG(FATAL), an exception that nobody catches and undefined behaviour are the errors of
-- Base/Outcome. A loop is recursion on a number of rounds: `skip_empty` has a round for each slot,
-- the `pop` of one priority a round for each slot, that of the credit queue a round for each
-- priority, the growing of the capacity a round for each key, the search of a connection two rounds
-- for each connection; the loops need no more rounds than that. Spin locks make each operation of
-- the credit queue one step.
--
-- Not modelled: the `FastMap` for several threads, which the program does not use; HTTP parsing
-- (picohttpparser, nghttp2) with the connections that use it, the quantile sketch (tdigest),
-- io_uring, sockets, listeners, logging, the event loop, `ingress_post_credit`, `forward` and
-- `write_http` of src/state.cc, and the counters and averages of src/stats.cc. Clock
-- readings, free buffers and results of floating-point arithmetic are arguments.
pub mod Base
pub mod FastMap
pub mod Credit
pub mod Rlp
pub mod Server
pub mod Rpc
pub mod Mapper
pub mod Ingress
pub mod Queues
pub mod Buffers
pub mod Client
pub mod Config
pub mod Stats
