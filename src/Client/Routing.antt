-- ===== src/Client/Routing.antt =====
-- About `State::route_request` and the connection that it gives.
use roshanfer_sidecar.Base.{
  ℕ, zero, suc, ◌+◌, ◌≡◌, refl, ◌*◌, sym, ap, ◌∙◌, Bool, true, false, ◌||◌, ◌&&◌, Option, some,
  Bytes, length, get_elem?, ◌==◌, if◌then◌else◌, ok, fatal, or_fault, or_fault-some, >>=-eq-ok,
  ok_inj, arith, Bool-cases, Option-cases, inl, inr,
}
use roshanfer_sidecar.Base.Int.{ℤ}
use roshanfer_sidecar.Rlp.{Datagram}
use roshanfer_sidecar.Rpc.{Message, ConnectionType, ingress, egress}
use roshanfer_sidecar.Mapper.{get_ds_rpc}
use roshanfer_sidecar.Client.Pool.{
  ConnectionStatus, up, down, teardown, Connection, ConnectionPool, is_up, available, scan,
  get_any_connection,
}
use roshanfer_sidecar.Client.{
  Client, update_message, get_pool, maps_of, pick, use_connection, route_request,
}

is_up-up : (s : ConnectionStatus) → is_up s ≡ true → s ≡ up
unfolding is_up
is_up-up up h = refl
is_up-up down h = cc
is_up-up teardown h = cc

available-up : (c : Connection) → available c ≡ true → c.status ≡ up
unfolding available
available-up c h = is_up-up c.status (ground arith)

scan-available :
    (fuel : ℕ) (wrap : Bool) (p : ConnectionPool) {c : Connection} {p' : ConnectionPool}
    → scan fuel wrap p ≡ ok (some c, p')
    → available c ≡ true
unfolding scan
scan-available zero wrap p h = cc
scan-available (suc fuel) wrap p {c} {p'} h =
    elim (Option-cases (get_elem? p.connections p.next_conn)) [
      | inl nothing ↦ absurd (ground (arith, h, nothing))
      | inr (d, at) ↦ elim (Bool-cases (available d)) [
        | inl free ↦ ground (arith, h, at, free)
        | inr busy ↦ elim (Bool-cases (wrap && (p.next_conn + 1 == length p.connections))) [
          | inl end ↦ absurd (ground (arith, h, at, busy, end))
          | inr on ↦
              let next : ConnectionPool = record p {
                next_conn = if p.next_conn + 1 == length p.connections then 0 else p.next_conn + 1;
              } in
              let turn = wrap || (p.next_conn + 1 == length p.connections) in
              let step : scan (suc fuel) wrap p ≡ scan fuel turn next =
                rw (scan, at, busy, on) refl in
              scan-available fuel turn next (sym step ∙ h)
        ]
      ]
    ]

get_any_connection-up :
    (p : ConnectionPool) {c : Connection} {p' : ConnectionPool}
    → get_any_connection p ≡ ok (some c, p')
    → c.status ≡ up
unfolding get_any_connection
get_any_connection-up p h = elim (Bool-cases (length p.connections == 0)) [
  | inl nothing ↦ absurd (ground (arith, h, nothing))
  | inr used ↦
      available-up _ (scan-available (2 * length p.connections) false p (sym (rw used refl) ∙ h))
]

-- A pick leaves the messages and the queues alone.
pick-up :
    (side : ConnectionType) (service : Bytes) (c : Client) {conn : Connection} {c' : Client}
    → pick side service c ≡ ok (some conn, c')
    → (conn.status ≡ up) × (c'.messages ≡ c.messages) × (c'.rpc_queue ≡ c.rpc_queue)
unfolding pick
pick-up ingress service c h =
    let ((found, p), got, h₁) = >>=-eq-ok (get_any_connection c.ingress_pool) _ h in
    let e = ok_inj h₁ in
    let found_it = ap (λ (x : Option Connection × Client). x.0) e in
    (
      get_any_connection-up c.ingress_pool (got ∙ ap (λ o. ok (o, p)) found_it),
      ap (λ (x : Option Connection × Client). x.1.messages) (sym e),
      ap (λ (x : Option Connection × Client). x.1.rpc_queue) (sym e),
    )
pick-up egress service c h =
    let ((key, pool), _, h₀) = >>=-eq-ok (get_pool c.pools service) _ h in
    let ((found, p), got, h₁) = >>=-eq-ok (get_any_connection pool) _ h₀ in
    let e = ok_inj h₁ in
    let found_it = ap (λ (x : Option Connection × Client). x.0) e in
    (
      get_any_connection-up pool (got ∙ ap (λ o. ok (o, p)) found_it),
      ap (λ (x : Option Connection × Client). x.1.messages) (sym e),
      ap (λ (x : Option Connection × Client). x.1.rpc_queue) (sym e),
    )

use_connection-up :
    (side : ConnectionType) (r : ℕ) (conn : Connection) (c : Client) (status : ConnectionStatus)
    {o : Option Connection} {c' : Client}
    → status ≡ up
    → use_connection side r conn c status ≡ ok (o, c')
    → (o ≡ some conn)
      × (c'.messages ≡ update_message c.messages r (record (c.messages r) { us_fd = conn.fd }))
      × (c'.rpc_queue ≡ c.rpc_queue)
unfolding use_connection
use_connection-up side r conn c teardown s h = cc
use_connection-up side r conn c down s h = cc
use_connection-up side r conn c up s h =
    let e = ok_inj h in
    (
      ap (λ (x : Option Connection × Client). x.0) (sym e),
      ap (λ (x : Option Connection × Client). x.1.messages) (sym e),
      ap (λ (x : Option Connection × Client). x.1.rpc_queue) (sym e),
    )

-- A message that is routed, and does not stop the process, has a connection, which is up, and is
-- marked with its descriptor. Nothing is put back into the queue, whatever the states of the
-- connections are.
pub route_request-up :
    (side : ConnectionType) (stream fd : ℤ) (c c' : Client) (o : Option Connection)
    → route_request side stream fd c ≡ ok (o, c')
    → (conn : Connection) × (r : ℕ) × (o ≡ some conn)
      × (conn.status ≡ up)
      × (get_ds_rpc (maps_of side c) stream fd ≡ ok r)
      × (c'.messages ≡ update_message c.messages r (record (c.messages r) { us_fd = conn.fd }))
      × (c'.rpc_queue ≡ c.rpc_queue)
unfolding route_request
route_request-up side stream fd c c' o h =
    let (r, at, h₁) = >>=-eq-ok (get_ds_rpc (maps_of side c) stream fd) _ h in
    let ((found, c₁), picked, h₂) = >>=-eq-ok (pick side ((c.messages r).service) c) _ h₁ in
    let (conn, there, h₃) = >>=-eq-ok (or_fault found fatal) _ h₂ in
    let is : found ≡ some conn = or_fault-some found fatal there in
    let (is_up, messages, queue) =
      pick-up side ((c.messages r).service) c
        (picked ∙ ap (λ (x : Option Connection). ok (x, c₁)) is) in
    let (it, marked, still) = use_connection-up side r conn c₁ conn.status is_up h₃ in
    (
      conn,
      r,
      it,
      is_up,
      at,
      marked
          ∙ ap (λ (f : ℕ → Message Datagram). update_message f r (record (f r) { us_fd = conn.fd }))
              messages,
      still ∙ queue,
    )
