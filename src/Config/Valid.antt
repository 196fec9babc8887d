-- ===== src/Config/Valid.antt =====
-- About the configurations that `load_config` of src/config.cc returns.
use roshanfer_sidecar.Base.{
  ℕ, ◌≡◌, ◌⊎◌, inl, inr, refl, sym, Bool, true, false, ◌&&◌, ◌||◌, not, Option, some, length, fatal,
  ok, ok_inj, >>=-eq-ok, require-ok, require-true, >>=-eq-ok, or_fault, arith, subst, ite,
}
use roshanfer_sidecar.Base.Int.{ℤ, pos, ℤ_discrete, ltb_ℤ, ◌≤ℤ◌, pattern32, signed32}
use roshanfer_sidecar.Config.{
  Key, Config, Yaml, Floats, has_value, optional, or_else, load_over_commitment, load_cpu_count,
  load_connections, load_routing, load_mapping, check_threads, load_config, load_sizes, load_aimd,
  over_commitment_key, cpu_count_key, extra_limit_key, frontend_pool_connections_key,
  ingress_pool_connections_key, is_frontend_key, is_ingress_key, is_plain_frontend_key, mapping_key,
  routing_key,
}
use roshanfer_sidecar.Config.Entries.{AllInfo, not_both, load_mapping-AllInfo}

-- What `load_config` makes sure of.
pub record IsValid {F : Type 0} (is_outside : F → Bool) (c : Config F) : Type 0 where
  pub threads : (c.is_ingress ≡ true) ⊎ (c.sizes.num_threads ≤ℤ pos 1)
  pub over_commitment :
      (c.is_ingress ≡ true) ⊎ ((v : F) × (c.over_commitment ≡ some v) × (is_outside v ≡ false))
  pub cpu_count : (c.is_ingress ≡ true) ⊎ ((n : ℤ) × (c.cpu_count ≡ some n) × (pos 1 ≤ℤ n))
  pub ingress_pool : (c.is_ingress ≡ false) ⊎ (has_value c.ingress_pool_connections ≡ true)
  pub frontend_pool : (c.is_frontend ≡ false) ⊎ (has_value c.frontend_pool_connections ≡ true)
  pub mapping : AllInfo c.is_ingress c.mapping

module _ {Node F : Type 0} (y : Yaml Node F) where
  load_over_commitment-inside :
      (fl : Floats F) (role : Bool) (node : Node) {o : Option F}
      → load_over_commitment y fl role node ≡ ok o
      → (role ≡ true) ⊎ ((v : F) × (o ≡ some v) × (fl.is_outside v ≡ false))
  unfolding load_over_commitment
  load_over_commitment-inside fl true node h = inl refl
  load_over_commitment-inside fl false node h =
      let (n, _, h₁) = >>=-eq-ok (or_fault (y.child node over_commitment_key) fatal) _ h in
      let (v, _, h₂) = >>=-eq-ok (y.as_float n) _ h₁ in
      let (inside, h₃) = require-ok (not (fl.is_outside v)) fatal _ h₂ in
      inr (v, sym (ok_inj h₃), ground (arith, inside))

  load_cpu_count-positive :
      (role : Bool) (node : Node) {o : Option ℤ}
      → load_cpu_count y role node ≡ ok o
      → (role ≡ true) ⊎ ((n : ℤ) × (o ≡ some n) × (pos 1 ≤ℤ n))
  unfolding load_cpu_count
  load_cpu_count-positive true node h = inl refl
  load_cpu_count-positive false node h =
      let (n, _, h₁) = >>=-eq-ok (or_fault (y.child node cpu_count_key) fatal) _ h in
      let (v, _, h₂) = >>=-eq-ok (y.as_int n) _ h₁ in
      let (some_cpu, h₃) = require-ok (not (ltb_ℤ v (pos 1))) fatal _ h₂ in
      inr (v, sym (ok_inj h₃), ground (arith, some_cpu))

  load_connections-needed :
      (key : Key) (needed : Bool) (node : Node) {o : Option ℤ}
      → load_connections y key needed node ≡ ok o
      → (needed ≡ false) ⊎ (has_value o ≡ true)
  unfolding load_connections
  load_connections-needed key needed node h =
      let (v, _, h₁) = >>=-eq-ok (optional y y.as_int node key) _ h in
      let (there, h₂) = require-ok (has_value v || not needed) fatal _ h₁ in
      subst (λ o. (needed ≡ false) ⊎ (has_value o ≡ true)) (ok_inj h₂)
        (one_of (has_value v) needed there)
    where
      one_of : (a b : Bool) → (a || not b) ≡ true → (b ≡ false) ⊎ (a ≡ true)
      one_of true b e = inr refl
      one_of false b e = inl (ground (arith, e))

  check_threads-one :
      (global role : Bool) (threads : ℤ) (hosted : ℕ) {u : Unit {0}}
      → check_threads y global role threads hosted ≡ ok u
      → (role ≡ true) ⊎ (threads ≤ℤ pos 1)
  unfolding check_threads
  check_threads-one global role threads hosted h =
      let (_, h₁) =
        require-ok
          (not (
            global
            && not (ite (ℤ_discrete threads (signed32 (pattern32 (pos hosted)))) true false)))
          fatal _ h in
      let few = require-true (not (ltb_ℤ (pos 1) threads && not role)) fatal h₁ in
      elim (not_both (ltb_ℤ (pos 1) threads) (not role) few) [
        | inl one ↦ inr (ground (arith, one))
        | inr ingress_role ↦ inl (ground (arith, ingress_role))
      ]

  -- What a configuration that `load_config` returns has. Without the role of an ingress the
  -- over-commitment is there and not outside its range, there is at least one processor, and at most
  -- one thread. An ingress has its number of ingress connections, and a front end its number of
  -- front-end connections; each service of an ingress has exactly one downstream and no flag for a
  -- fan-out. No service has more than 255 downstreams, or more than 10 with a dynamic fan-out. That is
  -- not all that an ingress needs: nothing is said of the routes, whose `slo` and `priority` the
  -- constructor of `Ingress` looks at.
  pub load_config-IsValid :
      (fl : Floats F) (global : Bool) (node : Node) {c : Config F}
      → load_config y fl global node ≡ ok c
      → IsValid fl.is_outside c
  unfolding load_config check_threads
  load_config-IsValid fl global node h =
      let (sizes, _, h0) = >>=-eq-ok (load_sizes y node) _ h in
      let (role, _, h1) = >>=-eq-ok (or_else y y.as_bool false node is_ingress_key) _ h0 in
      let (plain, _, h2) = >>=-eq-ok (or_else y y.as_bool false node is_plain_frontend_key) _ h1 in
      let (over, e_over, h3) = >>=-eq-ok (load_over_commitment y fl role node) _ h2 in
      let (cpus, e_cpu, h4) = >>=-eq-ok (load_cpu_count y role node) _ h3 in
      let (extra, _, h5) = >>=-eq-ok (or_else y y.as_int (pos 0) node extra_limit_key) _ h4 in
      let (aimd, _, h6) = >>=-eq-ok (load_aimd y fl.initial node) _ h5 in
      let (front, _, h7) = >>=-eq-ok (or_else y y.as_bool false node is_frontend_key) _ h6 in
      let (pool, e_pool, h8) =
        >>=-eq-ok (load_connections y ingress_pool_connections_key role node) _ h7 in
      let (pool', e_front, h9) =
        >>=-eq-ok (load_connections y frontend_pool_connections_key front node) _ h8 in
      let (routing, _, h10) = >>=-eq-ok (load_routing y (y.child node routing_key)) _ h9 in
      let (mapping, e_map, h11) =
        >>=-eq-ok (load_mapping y role (y.child node mapping_key)) _ h10 in
      let (_, checked, end) =
        >>=-eq-ok (check_threads y global role sizes.num_threads (length mapping)) _ h11 in
      subst (IsValid fl.is_outside) (ok_inj end) (record {
        threads = check_threads-one global role sizes.num_threads (length mapping) checked;
        over_commitment = load_over_commitment-inside fl role node e_over;
        cpu_count = load_cpu_count-positive role node e_cpu;
        ingress_pool = load_connections-needed ingress_pool_connections_key role node e_pool;
        frontend_pool = load_connections-needed frontend_pool_connections_key front node e_front;
        mapping = load_mapping-AllInfo y role (y.child node mapping_key) e_map;
      })
