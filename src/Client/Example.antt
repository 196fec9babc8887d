-- ===== src/Client/Example.antt =====
-- A small client, for the tests.
use roshanfer_sidecar.Base.{
  ℕ, ◌+◌, ◌*◌, ◌^◌, ◌==◌, [], ◌∷◌, Bool, true, false, none, some, Bytes, if◌then◌else◌, Result, ok,
  err, arith,
}
use roshanfer_sidecar.Base.Int.{ℤ, pos}
use roshanfer_sidecar.Credit.Serve.{IsCreditQueue}
use roshanfer_sidecar.Credit.Example.{queue_of, queue_of-IsCreditQueue}
use roshanfer_sidecar.Rlp.{Datagram}
use roshanfer_sidecar.Rpc.{Message, ingress, egress}
use roshanfer_sidecar.Server.{MappingEntry}
use roshanfer_sidecar.Client.Pool.{up, Connection, ConnectionPool}
use roshanfer_sidecar.Client.{Client}
use roshanfer_sidecar.Client.Parallel.{Grant}

-- A service "a" that calls "x" and "y".
abbrev pub a_calls : Bool → Bool → MappingEntry
a_calls pfanout dfanout = record {
  name = 97 ∷ [];
  downstreams = (120 ∷ []) ∷ (121 ∷ []) ∷ [];
  pfanout = pfanout;
  dfanout = dfanout;
}

-- Message 0 is a call of "a"; message 1 is its call of "x", and message 2 its call of "y".
abbrev pub service_of : ℕ → Bytes
service_of j = if j == 0 then 97 ∷ [] else if j == 1 then 120 ∷ [] else 121 ∷ []

abbrev pub messages : ℕ → Message Datagram
messages j = record {
  http1 = false;
  side = if j == 0 then ingress else egress;
  ds_stream_id = pos j;
  ds_fd = pos 3;
  us_stream_id = pos 0;
  us_fd = pos 0;
  local_id = if j == 0 then pos 5 else pos (5 * 2 ^ 32 + j);
  global_id = pos 5;
  priority = pos 1;
  pfanout_req = 0;
  pfanout_res = 0;
  credit_return_queue = [];
  dfanout_service = if j == 0 then some (120 ∷ []) else none;
  service = service_of j;
  method = [];
  error = false;
  req_headers = [];
  res_headers = [];
  res_trailers = [];
  req_data = [];
  res_data = [];
}

abbrev pub free : Connection
free = record { fd = pos 20; http1 = false; idle = true; status = up }

abbrev pub busy : Connection
busy = record { fd = pos 21; http1 = true; idle = false; status = up }

abbrev pub pool : ConnectionPool
pool = record { connections = free ∷ busy ∷ []; next_conn = 1; addr = some 9 }

abbrev pub client : Client
client = record {
  messages = messages;
  ingress_maps = record { ds_map = []; us_map = []; id_map = (pos 5, 0) ∷ [] };
  egress_maps = record {
    ds_map = (pos 3, (pos 1, 1) ∷ (pos 2, 2) ∷ []) ∷ [];
    us_map = [];
    id_map = [];
  };
  rpc_queue = record {
    ingress_upstream = [];
    ingress_downstream = [];
    egress_upstream = [];
    egress_downstream = [];
  };
  ppm_queue =
      record { service = 120 ∷ []; calls = (pos (5 * 2 ^ 32 + 1), 1) ∷ [] }
      ∷ record { service = 121 ∷ []; calls = (pos (5 * 2 ^ 32 + 2), 2) ∷ [] }
      ∷ [];
  ingress_pool = pool;
  pools = (42 ∷ [], pool) ∷ [];
  server = record { credit_queue = queue_of []; sent = [] };
}

pub client-IsCreditQueue : IsCreditQueue client.server.credit_queue
client-IsCreditQueue = queue_of-IsCreditQueue [] (omega arith)

abbrev pub blank : Datagram
blank = record { bytes = λ j. 0; filled = 0; addr = 0; enter_queue_ts = pos 0 }

-- The identities of the calls, which have that of message 0 in their high half.
abbrev pub id_of : ℕ → ℤ
id_of j = pos (5 * 2 ^ 32 + j)

abbrev pub grant_of : ℤ → Bytes → Grant
grant_of id service = record {
  id = id;
  service = service;
  grant = record blank { filled = 27; addr = 9 };
  blank = blank;
  now = pos 100;
}

-- The result of a run that does not stop.
abbrev pub value : {A : Type 0} → Result A → A → A
value (ok a) b = a
value (err e) b = b
