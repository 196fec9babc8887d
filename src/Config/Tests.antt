-- ===== src/Config/Tests.antt =====
-- Tests of src/config.cc, and the theorem about it at a concrete file.
use roshanfer_sidecar.Base.{
  ℕ, zero, suc, ◌≡◌, refl, List, [], ◌∷◌, Bool, true, false, Option, none, some, Bytes, length, ltb,
  ◌==◌, if◌then◌else◌, fatal, Result, ok, err,
}
use roshanfer_sidecar.Base.Int.{ℤ, pos}
use roshanfer_sidecar.Config.{
  Key, ring_size_key, buffer_count_key, buffer_size_key, num_threads_key, egress_listener_port_key,
  ingress_listener_port_key, ingress_upstream_host_key, ingress_upstream_port_key, name_key,
  is_ingress_key, over_commitment_key, cpu_count_key, mapping_key, downstreams_key, pfanout_key,
  ingress_pool_connections_key, Config, Yaml, Floats, Aimd, Sizes, load_config,
}
use roshanfer_sidecar.Config.Valid.{IsValid, load_config-IsValid}

-- A file: node 0 is the whole, 700 is its mapping, with the service "a" that calls "x" and "y" at
-- once. Other nodes are scalars.
abbrev child : ℕ → ℕ → Key → Option ℕ
child threads zero ring_size_key = some 64
child threads zero buffer_count_key = some 10
child threads zero buffer_size_key = some 4096
child threads zero num_threads_key = some threads
child threads zero egress_listener_port_key = some 80
child threads zero ingress_listener_port_key = some 81
child threads zero ingress_upstream_host_key = some 104
child threads zero ingress_upstream_port_key = some 82
child threads zero name_key = some 110
child threads zero over_commitment_key = some 1
child threads zero cpu_count_key = some 4
child threads zero mapping_key = some 700
child threads zero k = none
child threads (suc n) downstreams_key = if n == 700 then some 702 else none
child threads (suc n) pfanout_key = if n == 700 then some 1 else none
child threads (suc n) k = none

abbrev yaml : ℕ → Yaml ℕ ℕ
yaml threads = record {
  child = child threads;
  as_size = λ n. ok n;
  as_port = λ n. ok n;
  as_int = λ n. ok (pos n);
  as_bool = λ n. ok (n == 1);
  as_float = λ n. ok n;
  as_string = λ n. ok (n ∷ []);
  is_map = λ n. n == 700;
  is_sequence = λ n. n == 702;
  entries = λ n. (97, 701) ∷ [];
  items = λ n. 120 ∷ 121 ∷ [];
}

abbrev initial : Aimd ℕ
initial = record { err_d = 0; err_i = 0; adj_d = 0; adj_i = 0; multiply = 2 }

abbrev floats : Floats ℕ
floats = record { is_outside = λ n. ltb 1 n; initial = initial }

abbrev loaded : Config ℕ
loaded = record {
  sizes = record {
    ring_size = 64;
    buffer_count = 10;
    buffer_size = 4096;
    num_threads = pos 1;
    egress_listener_port = 80;
    ingress_listener_port = 81;
    ingress_upstream_host = 104 ∷ [];
    ingress_upstream_port = 82;
    name = 110 ∷ [];
  };
  routing = [];
  mapping =
      (
        97 ∷ [],
        record {
          downstreams = (120 ∷ []) ∷ (121 ∷ []) ∷ [];
          listen_port = none;
          pfanout = some true;
          dfanout = none;
        },
      )
      ∷ [];
  is_ingress = false;
  is_frontend = false;
  is_plain_frontend = false;
  ingress_pool_connections = none;
  frontend_pool_connections = none;
  cpu_count = some (pos 4);
  over_commitment = some 1;
  extra_limit = pos 0;
  aimd = initial;
}

loads : load_config (yaml 1) floats false 0 ≡ ok loaded
unfolding load_config roshanfer_sidecar.Config.load_sizes roshanfer_sidecar.Config.load_aimd
    roshanfer_sidecar.Config.required roshanfer_sidecar.Config.optional
    roshanfer_sidecar.Config.or_else roshanfer_sidecar.Config.load_over_commitment
    roshanfer_sidecar.Config.load_cpu_count roshanfer_sidecar.Config.load_connections
    roshanfer_sidecar.Config.load_routing roshanfer_sidecar.Config.load_mapping
    roshanfer_sidecar.Config.load_infos roshanfer_sidecar.Config.load_info
    roshanfer_sidecar.Config.load_downstreams roshanfer_sidecar.Config.load_strings
    roshanfer_sidecar.Config.check_threads roshanfer_sidecar.Config.is_set
    roshanfer_sidecar.Config.has_value roshanfer_sidecar.Base.Assoc.assign
    roshanfer_sidecar.Base.Assoc.Bytes_discrete roshanfer_sidecar.Base.Int.ℤ_discrete
    roshanfer_sidecar.Base.ℕ_discrete
loads = refl

-- Two threads are refused.
two_threads : load_config (yaml 2) floats false 0 ≡ err fatal
unfolding load_config roshanfer_sidecar.Config.load_sizes roshanfer_sidecar.Config.load_aimd
    roshanfer_sidecar.Config.required roshanfer_sidecar.Config.optional
    roshanfer_sidecar.Config.or_else roshanfer_sidecar.Config.load_over_commitment
    roshanfer_sidecar.Config.load_cpu_count roshanfer_sidecar.Config.load_connections
    roshanfer_sidecar.Config.load_routing roshanfer_sidecar.Config.load_mapping
    roshanfer_sidecar.Config.load_infos roshanfer_sidecar.Config.load_info
    roshanfer_sidecar.Config.load_downstreams roshanfer_sidecar.Config.load_strings
    roshanfer_sidecar.Config.check_threads roshanfer_sidecar.Config.is_set
    roshanfer_sidecar.Config.has_value roshanfer_sidecar.Base.Assoc.assign
    roshanfer_sidecar.Base.Assoc.Bytes_discrete roshanfer_sidecar.Base.Int.ℤ_discrete
    roshanfer_sidecar.Base.ℕ_discrete
two_threads = refl

load_config-IsValid_example : IsValid (λ n. ltb 1 n) loaded
load_config-IsValid_example = load_config-IsValid (yaml 1) floats false 0 loads
