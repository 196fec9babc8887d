-- ===== src/Client/Send.antt =====
-- About what the sending of a call leaves as it is.
use roshanfer_sidecar.Base.{
  ℕ, List, [], ◌∷◌, Bool, Option, Bytes, ◌≡◌, ◌≢◌, refl, ap, ◌∙◌, fatal, ok, ok_inj, or_fault,
  ℕ_discrete, >>=-eq-ok, subst, Result, require-ok, if_pos, if_neg,
}
use roshanfer_sidecar.Base.Int.{ℤ}
use roshanfer_sidecar.Rpc.{Message, egress}
use roshanfer_sidecar.Mapper.{Maps, route, get_ds_rpc, get_ingress_rpc, ingress_side_id}
use roshanfer_sidecar.Queues.{pop_call}
use roshanfer_sidecar.Rlp.{Datagram}
use roshanfer_sidecar.Server.{MappingEntry}
use roshanfer_sidecar.Client.Pool.{
  ConnectionStatus, up, down, teardown, Connection, get_any_connection, get_connection,
}
use roshanfer_sidecar.Client.{
  Client, update_message, ends_of, get_pool, maps_of, with_maps, pick, use_connection,
  route_request, is_given, forward_request, send_sub_request,
}
use roshanfer_sidecar.Client.Fanout.{pop_and_send}

-- The identities have the high half of `id`: they are those of the calls that one call leads to.
abbrev pub Belong : ℤ → List ℤ → Type 0
Belong id [] = Unit {0}
Belong id (i ∷ is) = (ingress_side_id i ≡ ingress_side_id id) × Belong id is

pub get_ingress_rpc-Belong :
    (m : Maps) (i id : ℤ)
    → ingress_side_id i ≡ ingress_side_id id
    → get_ingress_rpc m i ≡ get_ingress_rpc m id
unfolding get_ingress_rpc
get_ingress_rpc-Belong m i id same = rw same refl

-- What a message says of the calls that it leads to.
abbrev pub Fan : Type 0
Fan = Bytes × ℕ × ℕ × Option Bytes × List Datagram

abbrev pub fan_of : Message Datagram → Fan
fan_of m = (m.service, m.pfanout_req, m.pfanout_res, m.dfanout_service, m.credit_return_queue)

-- The server, the calls that the service handles, and what they lead to are the same.
pub record Sends (c c' : Client) : Type 0 where
  pub server : c'.server ≡ c.server
  pub maps : c'.ingress_maps ≡ c.ingress_maps
  pub kept : (j : ℕ) → fan_of (c'.messages j) ≡ fan_of (c.messages j)

pub Sends-trans : {a b c : Client} → Sends a b → Sends b c → Sends a c
Sends-trans p q = record {
  server = q.server ∙ p.server;
  maps = q.maps ∙ p.maps;
  kept = λ j. q.kept j ∙ p.kept j;
}

pub update_message-eq :
    (f : ℕ → Message Datagram) (r : ℕ) (m : Message Datagram) (j : ℕ)
    → r ≡ j
    → update_message f r m j ≡ m
update_message-eq f r m j p = if_pos (ℕ_discrete r j) p m (f j)

pub update_message-ne :
    (f : ℕ → Message Datagram) (r : ℕ) (m : Message Datagram) (j : ℕ)
    → r ≢ j
    → update_message f r m j ≡ f j
update_message-ne f r m j p = if_neg (ℕ_discrete r j) p m (f j)

-- A change of one message that leaves what it says.
fan_of-same :
    (f : ℕ → Message Datagram) (r : ℕ) (m : Message Datagram) (j : ℕ)
    → fan_of m ≡ fan_of (f r)
    → fan_of (update_message f r m j) ≡ fan_of (f j)
fan_of-same f r m j same = elim (ℕ_discrete r j) [
  | yes p ↦ ap fan_of (update_message-eq f r m j p) ∙ same ∙ ap (λ k. fan_of (f k)) p
  | no p ↦ ap fan_of (update_message-ne f r m j p)
]

use_connection-Sends :
    (r : ℕ) (conn : Connection) (c : Client) (status : ConnectionStatus) {o : Option Connection}
    {c' : Client}
    → use_connection egress r conn c status ≡ ok (o, c')
    → Sends c c'
unfolding use_connection
use_connection-Sends r conn c teardown h = cc
use_connection-Sends r conn c down h =
    subst (λ (x : Option Connection × Client). Sends c x.1) (ok_inj h)
      (record { server = refl; maps = refl; kept = λ j. refl })
use_connection-Sends r conn c up h =
    subst (λ (x : Option Connection × Client). Sends c x.1) (ok_inj h)
      (record {
        server = refl;
        maps = refl;
        kept = λ j. fan_of-same c.messages r (record (c.messages r) { us_fd = conn.fd }) j refl;
      })

pick-Sends :
    (service : Bytes) (c : Client) {o : Option Connection} {c' : Client}
    → pick egress service c ≡ ok (o, c')
    → Sends c c'
unfolding pick
pick-Sends service c h =
    let ((key, pool), _, h₁) = >>=-eq-ok (get_pool c.pools service) _ h in
    let ((found, p), _, h₂) = >>=-eq-ok (get_any_connection pool) _ h₁ in
    subst (λ (x : Option Connection × Client). Sends c x.1) (ok_inj h₂)
      (record { server = refl; maps = refl; kept = λ j. refl })

route_request-Sends :
    (stream fd : ℤ) (c : Client) {o : Option Connection} {c' : Client}
    → route_request egress stream fd c ≡ ok (o, c')
    → Sends c c'
unfolding route_request
route_request-Sends stream fd c h =
    let (r, _, h₁) = >>=-eq-ok (get_ds_rpc (maps_of egress c) stream fd) _ h in
    let ((found, c₁), picked, h₂) = >>=-eq-ok (pick egress ((c.messages r).service) c) _ h₁ in
    let (conn, _, h₃) = >>=-eq-ok (or_fault found fatal) _ h₂ in
    Sends-trans (pick-Sends _ c picked) (use_connection-Sends r conn c₁ conn.status h₃)

module _ (submit : Connection → Message Datagram → Result ℤ) (stoll : Bytes → Result ℤ)
    (snprintf : ℤ → Bytes) (to_int32 : ℤ → ℤ) (is_plain_frontend : Bool)
    (mapping : List MappingEntry) where
  forward_request-Sends :
      (conn : Connection) (r : ℕ) (c : Client) {c' : Client}
      → forward_request submit stoll snprintf to_int32 is_plain_frontend mapping egress conn r c
        ≡ ok c'
      → Sends c c'
  unfolding forward_request with_maps
  forward_request-Sends conn r c h =
      let (stream, _, h₁) = >>=-eq-ok (submit conn (c.messages r)) _ h in
      let m : Message Datagram = record (c.messages r) { us_stream_id = stream } in
      let (_, h₂) = require-ok (is_given is_plain_frontend m.local_id) fatal _ h₁ in
      let (_, h₃) = require-ok (is_given is_plain_frontend m.priority) fatal _ h₂ in
      let (maps, _, h₄) =
        >>=-eq-ok
          (route (ends_of (update_message c.messages r m)) (maps_of egress c) m.ds_stream_id m.ds_fd
            stream conn.fd)
          _ h₃ in
      subst (Sends c) (ok_inj h₄)
        (record { server = refl; maps = refl; kept = λ j. fan_of-same c.messages r m j refl })

  pub send_sub_request-Sends :
      (r : ℕ) (c : Client) {c' : Client}
      → send_sub_request submit stoll snprintf to_int32 is_plain_frontend mapping r c ≡ ok c'
      → Sends c c'
  unfolding send_sub_request
  send_sub_request-Sends r c h =
      let m = c.messages r in
      let ((o, c₁), routed, h₁) = >>=-eq-ok (route_request egress m.ds_stream_id m.ds_fd c) _ h in
      let ((_, pool), _, h₂) = >>=-eq-ok (get_pool c₁.pools m.service) _ h₁ in
      let (conn, _, h₃) = >>=-eq-ok (get_connection pool ((c₁.messages r).us_fd)) _ h₂ in
      Sends-trans (route_request-Sends m.ds_stream_id m.ds_fd c routed)
        (forward_request-Sends conn r c₁ h₃)

  pub pop_and_send-Sends :
      (service : Bytes) (id : ℤ) (c : Client) {c' : Client}
      → pop_and_send submit stoll snprintf to_int32 is_plain_frontend mapping service id c ≡ ok c'
      → Sends c c'
  unfolding pop_and_send
  pop_and_send-Sends service id c h =
      let ((r, ppm), _, h₁) = >>=-eq-ok (pop_call c.ppm_queue service id) _ h in
      let s = send_sub_request-Sends r (record c { ppm_queue = ppm }) h₁ in
      record { server = s.server; maps = s.maps; kept = s.kept }
