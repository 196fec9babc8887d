-- ===== src/Ingress/Tests.antt =====
-- Tests of src/ingress.cc, and the theorems about it at a concrete ingress.
use roshanfer_sidecar.Base.{
  ℕ, ◌+◌, ◌≤◌, ◌<◌, ◌≡◌, ◌⊎◌, refl, [], ◌∷◌, true, false, none, some, Fault, err, Bytes, length,
  Result, ok,
}
use roshanfer_sidecar.Base.Int.{ℤ, pos, ◌+ℤ◌}
use roshanfer_sidecar.Rpc.{Message, HeaderField, egress}
use roshanfer_sidecar.Ingress.{
  rpc_id_header_name, priority_header_name, Ingress, enqueue, dequeue, send_credit_request_checker,
}
use roshanfer_sidecar.Config.{Config}
use roshanfer_sidecar.Ingress.Start.{construct, IsRouted, construct-IsRouted}
use roshanfer_sidecar.Ingress.Cycle.{
  Reaches, enqueued, requested, start, step, enqueue-keeps, Reaches-dequeue,
}

abbrev key_a : Bytes
key_a = 97 ∷ []

-- A reader and a printer of numbers that know the number 5 only.
abbrev five : Bytes → Result ℤ
five s = ok (pos 5)

abbrev print_five : ℤ → Bytes
print_five z = 53 ∷ []

abbrev call_a : Message ℕ
call_a = record {
  http1 = true;
  side = egress;
  ds_stream_id = pos 1;
  ds_fd = pos 3;
  us_stream_id = pos 0;
  us_fd = pos 0;
  local_id = pos 0;
  global_id = pos 0;
  priority = pos 0;
  pfanout_req = 0;
  pfanout_res = 0;
  credit_return_queue = [];
  dfanout_service = none;
  service = key_a;
  method = [];
  error = false;
  req_headers = [];
  res_headers = [];
  res_trailers = [];
  req_data = [];
  res_data = [];
}

abbrev idle : Ingress ℕ
idle = record {
  ingress_service = key_a;
  ingress_size_cap = 10;
  queue = [];
  has_credit_request_on_fly = false;
  priority = pos 1;
  drop_id = pos 0;
  drop_fd = pos 0;
  last_rpc_id = pos 0;
  ups = [];
  dropped = [];
}

abbrev admitted_a : Message ℕ
admitted_a = record call_a {
  global_id = pos 5;
  local_id = pos 10;
  priority = pos 5;
  req_headers =
      record { name = rpc_id_header_name; value = 53 ∷ [] }
      ∷ record { name = priority_header_name; value = 53 ∷ [] }
      ∷ [];
}

abbrev waiting : Ingress ℕ
waiting = record idle { queue = admitted_a ∷ []; last_rpc_id = pos 1; ups = 1 ∷ [] }

abbrev asking : Ingress ℕ
asking = record waiting { has_credit_request_on_fly = true }

enqueue_a : enqueue five print_five (λ z. z) 9 idle call_a ≡ ok (10, waiting)
unfolding enqueue roshanfer_sidecar.Ingress.add_headers roshanfer_sidecar.Rpc.add_header_field
    roshanfer_sidecar.Rpc.read_path roshanfer_sidecar.Rpc.read_request
    roshanfer_sidecar.Rpc.read_global_id roshanfer_sidecar.Rpc.starts_with
    roshanfer_sidecar.Rpc.read_local_id roshanfer_sidecar.Rpc.read_priority
    roshanfer_sidecar.Rpc.store_field roshanfer_sidecar.Rpc.set_field
    roshanfer_sidecar.Rpc.get_new_local_id ◌+ℤ◌
enqueue_a = refl

ask_a : send_credit_request_checker waiting ≡ (true, asking)
unfolding send_credit_request_checker
ask_a = refl

enqueue-keeps_example :
    (waiting.has_credit_request_on_fly ≡ idle.has_credit_request_on_fly)
    × (length (idle.queue) ≤ length (waiting.queue))
    × (((length (waiting.queue) ≡ length (idle.queue))
          × (idle.ingress_size_cap ≤ length (idle.queue)))
        ⊎ ((length (waiting.queue) ≡ length (idle.queue) + 1)
            × (length (idle.queue) < idle.ingress_size_cap)))
enqueue-keeps_example = enqueue-keeps five print_five (λ z. z) idle waiting 9 10 call_a enqueue_a

reaches : Reaches five print_five (λ z. z) idle asking 1
reaches =
    step waiting asking 0 1 (step idle waiting 0 0 start (enqueued waiting 9 10 call_a enqueue_a))
      (requested asking ask_a)

abbrev one : ℕ
one = 1

Reaches-dequeue_example :
    (one ≤ 1)
    × (one ≡ 1
        → (rpc : Message ℕ) × (q' : Ingress ℕ) × (dequeue asking ≡ ok (rpc, q'))
          × (asking.queue ≡ rpc ∷ q'.queue))
Reaches-dequeue_example = Reaches-dequeue five print_five (λ z. z) idle asking one refl reaches

-- An ingress for the service "a", with a route for it.
abbrev config : Config ℕ
config = record {
  sizes = record {
    ring_size = 64;
    buffer_count = 10;
    buffer_size = 4096;
    num_threads = pos 1;
    egress_listener_port = 80;
    ingress_listener_port = 81;
    ingress_upstream_host = key_a;
    ingress_upstream_port = 82;
    name = key_a;
  };
  routing =
      (key_a, record { host = key_a; port = pos 80; slo = some (pos 9); priority = some (pos 2) })
      ∷ [];
  mapping = [];
  is_ingress = true;
  is_frontend = false;
  is_plain_frontend = false;
  ingress_pool_connections = some (pos 2);
  frontend_pool_connections = none;
  cpu_count = none;
  over_commitment = none;
  extra_limit = pos 0;
  aimd = record { err_d = 0; err_i = 0; adj_d = 0; adj_i = 0; multiply = 2 };
}

constructs : construct {B = ℕ} config (pos 7) 0 key_a ≡ ok (record idle { priority = pos 2 })
unfolding construct roshanfer_sidecar.Ingress.Start.priority_of roshanfer_sidecar.Base.Assoc.find
    roshanfer_sidecar.Base.Assoc.Bytes_discrete roshanfer_sidecar.Base.ℕ_discrete
    roshanfer_sidecar.Base.Int.◌-ℤ◌
constructs = refl

construct-IsRouted_example :
    ((q : Ingress ℕ) × (construct config (pos 7) 0 key_a ≡ ok q)
      × (q.queue ≡ [])
      × (q.has_credit_request_on_fly ≡ false)
      × ((config.is_ingress ≡ false) ⊎ IsRouted config key_a q.priority))
    ⊎ ((f : Fault) × (construct {B = ℕ} config (pos 7) 0 key_a ≡ err f)
        × (config.is_ingress ≡ true)
        × ((p : ℤ) → ¬ (IsRouted config key_a p)))
construct-IsRouted_example = construct-IsRouted config (pos 7) 0 key_a
