-- ===== src/Config.antt =====
-- `load_config` of src/config.cc: the checks that a configuration passes. yaml-cpp is not part of
-- the repository: a node, the look-up of a key in it, and the conversions are parameters.
pub mod Entries
pub mod Valid
mod Tests
use roshanfer_sidecar.Base.{
  ℕ, List, [], ◌∷◌, Bool, true, false, ◌&&◌, ◌||◌, not, Option, none, some, Bytes, length, ltb,
  ◌==◌, if◌then◌else◌, Fault, fatal, invalid_argument, Result, ok, err, ◌>>=◌, ◌>>◌, require,
  or_fault, ite,
}
use roshanfer_sidecar.Base.Int.{ℤ, pos, ltb_ℤ, ℤ_discrete, pattern32, signed32}
use roshanfer_sidecar.Base.Assoc.{assign, Bytes_discrete}

-- The keys of the file.
pub data Key : Type 0 where
  ring_size_key buffer_count_key buffer_size_key num_threads_key egress_listener_port_key : Key
  ingress_listener_port_key ingress_upstream_host_key ingress_upstream_port_key name_key : Key
  is_ingress_key is_plain_frontend_key is_frontend_key over_commitment_key cpu_count_key : Key
  extra_limit_key aimd_err_d_key aimd_err_i_key aimd_adj_d_key aimd_adj_i_key safe_multiply_key :
      Key
  ingress_pool_connections_key frontend_pool_connections_key routing_key mapping_key : Key
  upstream_key host_key port_key slo_key priority_key : Key
  downstreams_key listen_port_key pfanout_key dfanout_key : Key

pub record RoutingEntry : Type 0 where
  pub host : Bytes
  pub port : ℤ
  pub slo : Option ℤ
  pub priority : Option ℤ

pub record MappingInfo : Type 0 where
  pub downstreams : List Bytes
  pub listen_port : Option ℕ
  pub pfanout : Option Bool
  pub dfanout : Option Bool

-- The fields of `Config` that every file gives.
pub record Sizes : Type 0 where
  pub ring_size : ℕ
  pub buffer_count : ℕ
  pub buffer_size : ℕ
  pub num_threads : ℤ
  pub egress_listener_port : ℕ
  pub ingress_listener_port : ℕ
  pub ingress_upstream_host : Bytes
  pub ingress_upstream_port : ℕ
  pub name : Bytes

-- The five float fields `aimd_err_d` to `safe_multiply`; `F` are the floats.
pub record Aimd (F : Type 0) : Type 0 where
  pub err_d : F
  pub err_i : F
  pub adj_d : F
  pub adj_i : F
  pub multiply : F

pub record Config (F : Type 0) : Type 0 where
  pub sizes : Sizes
  pub routing : List (Bytes × RoutingEntry)
  pub mapping : List (Bytes × MappingInfo)
  pub is_ingress : Bool
  pub is_frontend : Bool
  pub is_plain_frontend : Bool
  pub ingress_pool_connections : Option ℤ
  pub frontend_pool_connections : Option ℤ
  pub cpu_count : Option ℤ
  pub over_commitment : Option F
  pub extra_limit : ℤ
  pub aimd : Aimd F

-- `value_or(false)`
unfoldable pub is_set : Option Bool → Bool
is_set none = false
is_set (some b) = b

-- An optional flag that has a value, be it true or false.
unfoldable pub has_value : {A : Type 0} → Option A → Bool
has_value none = false
has_value (some a) = true

-- What is read of yaml-cpp: `node[key]` where there is a value, the conversions, which throw, and
-- the entries of a map or a sequence. A scalar that is no container has none.
pub record Yaml (Node F : Type 0) : Type 0 where
  pub child : Node → Key → Option Node
  pub as_size : Node → Result ℕ
  pub as_port : Node → Result ℕ
  pub as_int : Node → Result ℤ
  pub as_bool : Node → Result Bool
  pub as_float : Node → Result F
  pub as_string : Node → Result Bytes
  pub is_map : Node → Bool
  pub is_sequence : Node → Bool
  pub entries : Node → List (Node × Node)
  pub items : Node → List Node

-- `over_commitment > 1 || over_commitment < 0`, and the values that the float fields have at first.
pub record Floats (F : Type 0) : Type 0 where
  pub is_outside : F → Bool
  pub initial : Aimd F

module _ {Node F : Type 0} (y : Yaml Node F) where
  -- `node[key].as<A>()`
  unfoldable pub required : {A : Type 0} → (Node → Result A) → Node → Key → Result A
  required convert node key = or_fault (y.child node key) invalid_argument >>= convert

  -- `if (node[key]) … else …`
  unfoldable pub optional : {A : Type 0} → (Node → Result A) → Node → Key → Result (Option A)
  optional convert node key = elim (y.child node key) [
    | none ↦ ok none
    | some n ↦ convert n >>= λ a. ok (some a)
  ]

  unfoldable pub or_else : {A : Type 0} → (Node → Result A) → A → Node → Key → Result A
  or_else convert a node key = elim (y.child node key) [ none ↦ ok a | some n ↦ convert n ]

  unfoldable pub load_over_commitment : Floats F → Bool → Node → Result (Option F)
  load_over_commitment fl true node = ok none
  load_over_commitment fl false node = do
    n ← or_fault (y.child node over_commitment_key) fatal
    v ← y.as_float n
    require (not (fl.is_outside v)) fatal
    ok (some v)

  unfoldable pub load_cpu_count : Bool → Node → Result (Option ℤ)
  load_cpu_count true node = ok none
  load_cpu_count false node = do
    n ← or_fault (y.child node cpu_count_key) fatal
    v ← y.as_int n
    require (not (ltb_ℤ v (pos 1))) fatal
    ok (some v)

  -- The two numbers of connections, each of which is needed in one role.
  unfoldable pub load_connections : Key → Bool → Node → Result (Option ℤ)
  load_connections key needed node = do
    v ← optional y.as_int node key
    require (has_value v || not needed) fatal
    ok v

  unfoldable pub load_route : Node → Result RoutingEntry
  load_route node = do
    upstream ← or_fault (y.child node upstream_key) fatal
    host ← or_fault (y.child upstream host_key) fatal
    port ← or_fault (y.child upstream port_key) fatal
    h ← y.as_string host
    p ← y.as_int port
    slo ← optional y.as_int node slo_key
    priority ← optional y.as_int node priority_key
    ok (record { host = h; port = p; slo = slo; priority = priority })

  unfoldable pub load_routes :
      List (Node × Node) → List (Bytes × RoutingEntry) → Result (List (Bytes × RoutingEntry))
  load_routes [] routing = ok routing
  load_routes ((key, node) ∷ rest) routing = do
    service ← y.as_string key
    entry ← load_route node
    load_routes rest (assign Bytes_discrete service entry routing)

  unfoldable pub load_routing : Option Node → Result (List (Bytes × RoutingEntry))
  load_routing none = ok []
  load_routing (some node) = require (y.is_map node) fatal >> load_routes (y.entries node) []

  unfoldable pub load_strings : List Node → Result (List Bytes)
  load_strings [] = ok []
  load_strings (n ∷ ns) = do s ← y.as_string n; rest ← load_strings ns; ok (s ∷ rest)

  unfoldable pub load_downstreams : Option Node → Result (List Bytes)
  load_downstreams none = ok []
  load_downstreams (some node) = do
    require (y.is_sequence node) fatal
    names ← load_strings (y.items node)
    require (not (ltb 255 (length names))) fatal
    ok names

  unfoldable pub load_info : Bool → Node → Result MappingInfo
  load_info ingress_role node = do
    downstreams ← load_downstreams (y.child node downstreams_key)
    listen_port ← optional y.as_port node listen_port_key
    pfanout ← optional y.as_bool node pfanout_key
    dfanout ← optional y.as_bool node dfanout_key
    require (not (ltb 10 (length downstreams) && is_set dfanout)) fatal
    require (not ingress_role || (length downstreams == 1)) fatal
    require (not (ingress_role && (has_value dfanout || has_value pfanout))) fatal
    ok (record {
      downstreams = downstreams;
      listen_port = listen_port;
      pfanout = pfanout;
      dfanout = dfanout;
    })

  unfoldable pub load_infos :
      Bool → List (Node × Node) → List (Bytes × MappingInfo) → Result (List (Bytes × MappingInfo))
  load_infos ingress_role [] mapping = ok mapping
  load_infos ingress_role ((key, node) ∷ rest) mapping = do
    upstream ← y.as_string key
    info ← load_info ingress_role node
    load_infos ingress_role rest (assign Bytes_discrete upstream info mapping)

  unfoldable pub load_mapping : Bool → Option Node → Result (List (Bytes × MappingInfo))
  load_mapping ingress_role none = ok []
  load_mapping ingress_role (some node) =
      require (y.is_map node) fatal >> load_infos ingress_role (y.entries node) []

  -- The two checks of the number of threads. The first reads `global`, the flag of the configuration
  -- that was loaded before.
  unfoldable pub check_threads : Bool → Bool → ℤ → ℕ → Result (Unit {0})
  check_threads global ingress_role threads hosted = do
    require
        (not
          (global && not (ite (ℤ_discrete threads (signed32 (pattern32 (pos hosted)))) true false)))
        fatal
    require (not (ltb_ℤ (pos 1) threads && not ingress_role)) fatal

  unfoldable pub load_sizes : Node → Result Sizes
  load_sizes node = do
    ring_size ← required y.as_size node ring_size_key
    buffer_count ← required y.as_size node buffer_count_key
    buffer_size ← required y.as_size node buffer_size_key
    num_threads ← required y.as_int node num_threads_key
    egress_listener_port ← required y.as_port node egress_listener_port_key
    ingress_listener_port ← required y.as_port node ingress_listener_port_key
    ingress_upstream_host ← required y.as_string node ingress_upstream_host_key
    ingress_upstream_port ← required y.as_port node ingress_upstream_port_key
    name ← required y.as_string node name_key
    ok (record {
      ring_size = ring_size;
      buffer_count = buffer_count;
      buffer_size = buffer_size;
      num_threads = num_threads;
      egress_listener_port = egress_listener_port;
      ingress_listener_port = ingress_listener_port;
      ingress_upstream_host = ingress_upstream_host;
      ingress_upstream_port = ingress_upstream_port;
      name = name;
    })

  unfoldable pub load_aimd : Aimd F → Node → Result (Aimd F)
  load_aimd initial node = do
    err_d ← or_else y.as_float initial.err_d node aimd_err_d_key
    err_i ← or_else y.as_float initial.err_i node aimd_err_i_key
    adj_d ← or_else y.as_float initial.adj_d node aimd_adj_d_key
    adj_i ← or_else y.as_float initial.adj_i node aimd_adj_i_key
    multiply ← or_else y.as_float initial.multiply node safe_multiply_key
    ok (record { err_d = err_d; err_i = err_i; adj_d = adj_d; adj_i = adj_i; multiply = multiply })

  -- `load_config` of a file that was parsed.
  unfoldable pub load_config : Floats F → Bool → Node → Result (Config F)
  load_config fl global node = do
    sizes ← load_sizes node
    is_ingress ← or_else y.as_bool false node is_ingress_key
    is_plain_frontend ← or_else y.as_bool false node is_plain_frontend_key
    over_commitment ← load_over_commitment fl is_ingress node
    cpu_count ← load_cpu_count is_ingress node
    extra_limit ← or_else y.as_int (pos 0) node extra_limit_key
    aimd ← load_aimd fl.initial node
    is_frontend ← or_else y.as_bool false node is_frontend_key
    ingress_pool ← load_connections ingress_pool_connections_key is_ingress node
    frontend_pool ← load_connections frontend_pool_connections_key is_frontend node
    routing ← load_routing (y.child node routing_key)
    mapping ← load_mapping is_ingress (y.child node mapping_key)
    check_threads global is_ingress sizes.num_threads (length mapping)
    ok (record {
      sizes = sizes;
      routing = routing;
      mapping = mapping;
      is_ingress = is_ingress;
      is_frontend = is_frontend;
      is_plain_frontend = is_plain_frontend;
      ingress_pool_connections = ingress_pool;
      frontend_pool_connections = frontend_pool;
      cpu_count = cpu_count;
      over_commitment = over_commitment;
      extra_limit = extra_limit;
      aimd = aimd;
    })
