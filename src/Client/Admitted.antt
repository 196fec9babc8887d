-- ===== src/Client/Admitted.antt =====
-- About the whole loop of `protocol_client` over the calls in the queue.
use roshanfer_sidecar.Base.{
  ℕ, ◌≡◌, refl, ap, sym, ◌∙◌, List, [], ◌∷◌, ◌++◌, Bytes, length, Result, ok, ok_inj, ◌>>=◌,
  >>=-eq-ok, subst,
}
use roshanfer_sidecar.Base.Int.{ℤ, pattern64}
use mathlib.Core.List.{append_assoc, append-nil}
use roshanfer_sidecar.Rpc.{Message, egress}
use roshanfer_sidecar.Mapper.{Maps, get_ds_rpc}
use roshanfer_sidecar.Queues.{
  RpcQueue, PpmQueue, Stream, downstream, queue_at, with_queue, dequeue_stream, take_stream,
  push_call,
}
use roshanfer_sidecar.Queues.Pending.{
  queue_at-with_queue, with_queue-with_queue, with_queue-queue_at,
}
use roshanfer_sidecar.Queues.Waits.{Waits, push_call-Waits}
use roshanfer_sidecar.Rlp.{Datagram}
use roshanfer_sidecar.Server.{Server}
use roshanfer_sidecar.Client.{Client}
use roshanfer_sidecar.Client.Protocol.{
  Asking, services_of, admit_stream, admit_one, admit_loop, request_for_all,
}
use roshanfer_sidecar.Client.Requests.{Wanted, for_call, AreRequests, AreRequests-append}
use roshanfer_sidecar.Client.Admit.{
  with_sent, request_credits-with_sent, asks, IsKept, asks-IsKept, same-IsKept, services_of-IsKept,
}

-- The calls of the streams.
unfoldable pub calls_at : Maps → List Stream → Result (List ℕ)
calls_at m [] = ok []
calls_at m ((fd, stream) ∷ ss) = do r ← get_ds_rpc m stream fd; rs ← calls_at m ss; ok (r ∷ rs)

-- What is asked for the call `r`: each of its services, with its identity and its priority.
unfoldable pub wanted : Asking → Client → ℕ → List Wanted
wanted a c r = for_call ((c.messages r).local_id) (pattern64 ((c.messages r).priority)) (asks a c r)

-- What is asked for all of them.
unfoldable pub asks_all : Asking → Client → List ℕ → List Wanted
asks_all a c [] = []
asks_all a c (r ∷ rs) = wanted a c r ++ asks_all a c rs

-- Each of the calls waits for a credit of its service, under its identity.
abbrev pub AllWait : (ℕ → Message Datagram) → PpmQueue → List ℕ → Type 0
AllWait f q [] = Unit {0}
AllWait f q (r ∷ rs) = Waits q ((f r).service) ((f r).local_id) r × AllWait f q rs

-- The calls `rs` were taken from the queue, in which `left` is then, and wait for credits that were
-- asked for.
pub record Admits (a : Asking) (c c' : Client) (rs : List ℕ) (left : List Stream) : Type 0 where
  pub queue : c'.rpc_queue ≡ with_queue c.rpc_queue egress downstream left
  pub waits : AllWait c.messages c'.ppm_queue rs
  pub still : (s : Bytes) (i : ℤ) (r : ℕ) → Waits c.ppm_queue s i r → Waits c'.ppm_queue s i r
  pub requests : List Datagram
  pub asked : AreRequests a.blank a.last_rtt a.now c.pools (asks_all a c rs) requests
  pub server : c'.server ≡ record (c.server) { sent = c.server.sent ++ requests }
  pub kept : IsKept c.messages c'.messages
  pub ingress_maps : c'.ingress_maps ≡ c.ingress_maps
  pub egress_maps : c'.egress_maps ≡ c.egress_maps
  pub pools : c'.pools ≡ c.pools

wanted-IsKept :
    (a : Asking) (c c' : Client) (r : ℕ)
    → c'.ingress_maps ≡ c.ingress_maps
    → IsKept c.messages c'.messages
    → wanted a c' r ≡ wanted a c r
unfolding wanted
wanted-IsKept a c c' r maps kept =
    ap (λ i. for_call i (pattern64 ((c'.messages r).priority)) (asks a c' r)) (kept.local_id r)
    ∙ ap (λ p. for_call ((c.messages r).local_id) (pattern64 p) (asks a c' r)) (kept.priority r)
    ∙ ap (for_call ((c.messages r).local_id) (pattern64 ((c.messages r).priority)))
        (asks-IsKept a c c' r maps kept)

asks_all-IsKept :
    (a : Asking) (c c' : Client) (rs : List ℕ)
    → c'.ingress_maps ≡ c.ingress_maps
    → IsKept c.messages c'.messages
    → asks_all a c' rs ≡ asks_all a c rs
unfolding asks_all
asks_all-IsKept a c c' [] maps kept = refl
asks_all-IsKept a c c' (r ∷ rs) maps kept =
    ap (λ ws. ws ++ asks_all a c' rs) (wanted-IsKept a c c' r maps kept)
    ∙ ap (λ ws. wanted a c r ++ ws) (asks_all-IsKept a c c' rs maps kept)

AllWait-IsKept :
    {f g : ℕ → Message Datagram} (q : PpmQueue) (rs : List ℕ)
    → IsKept f g
    → AllWait g q rs
    → AllWait f q rs
AllWait-IsKept {f} {g} q [] kept w = tt
AllWait-IsKept {f} {g} q (r ∷ rs) kept (one, more) = (
  subst (λ s. Waits q s ((f r).local_id) r) (kept.service r)
      (subst (λ i. Waits q ((g r).service) i r) (kept.local_id r) one),
  AllWait-IsKept q rs kept more,
)

Admits-none :
    (a : Asking) (c : Client) → queue_at c.rpc_queue egress downstream ≡ [] → Admits a c c [] []
unfolding asks_all
Admits-none a c none_left = record {
  queue =
      sym (with_queue-queue_at c.rpc_queue egress downstream)
      ∙ ap (with_queue c.rpc_queue egress downstream) none_left;
  waits = tt;
  still = λ s i r w. w;
  requests = [];
  asked = tt;
  server = ap (λ l. record (c.server) { sent = l }) (sym (append-nil c.server.sent));
  kept = same-IsKept c.messages;
  ingress_maps = refl;
  egress_maps = refl;
  pools = refl;
}

-- One call, and the others after it.
Admits-more :
    (a : Asking) (c c₁ c₂ : Client) (r : ℕ) (rs : List ℕ) (left₁ left₂ : List Stream)
    → Admits a c c₁ (r ∷ []) left₁
    → Admits a c₁ c₂ rs left₂
    → Admits a c c₂ (r ∷ rs) left₂
unfolding asks_all
Admits-more a c c₁ c₂ r rs left₁ left₂ p q = record {
  queue =
      q.queue
      ∙ ap (λ x. with_queue x egress downstream left₂) p.queue
      ∙ with_queue-with_queue c.rpc_queue egress downstream left₁ left₂;
  waits = (q.still _ _ r p.waits.0, AllWait-IsKept c₂.ppm_queue rs p.kept q.waits);
  still = λ s i j w. q.still s i j (p.still s i j w);
  requests = p.requests ++ q.requests;
  asked =
      subst (λ ws. AreRequests a.blank a.last_rtt a.now c.pools ws (p.requests ++ q.requests))
        (ap (λ ws. ws ++ asks_all a c rs) (append-nil (wanted a c r)))
        (AreRequests-append a.blank a.last_rtt a.now c.pools (wanted a c r ++ []) (asks_all a c rs)
          p.requests q.requests p.asked
          (subst (λ ws. AreRequests a.blank a.last_rtt a.now c.pools ws q.requests)
            (asks_all-IsKept a c c₁ rs p.ingress_maps p.kept)
            (subst
              (λ pools. AreRequests a.blank a.last_rtt a.now pools (asks_all a c₁ rs) q.requests)
              p.pools q.asked)));
  server =
      q.server
      ∙ ap (λ (s : Server). record s { sent = s.sent ++ q.requests }) p.server
      ∙ ap (λ l. record (c.server) { sent = l }) (append_assoc c.server.sent p.requests q.requests);
  kept = record {
    service = λ j. q.kept.service j ∙ p.kept.service j;
    local_id = λ j. q.kept.local_id j ∙ p.kept.local_id j;
    priority = λ j. q.kept.priority j ∙ p.kept.priority j;
  };
  ingress_maps = q.ingress_maps ∙ p.ingress_maps;
  egress_maps = q.egress_maps ∙ p.egress_maps;
  pools = q.pools ∙ p.pools;
}

dequeue_stream-first :
    (q : RpcQueue) (s : Stream) (ss : List Stream)
    → queue_at q egress downstream ≡ s ∷ ss
    → dequeue_stream q egress downstream ≡ ok (s, with_queue q egress downstream ss)
unfolding dequeue_stream take_stream
dequeue_stream-first q s ss at = rw (at, take_stream) refl

admit_one-Admits :
    (a : Asking) (c : Client) (fd stream : ℤ) (ss : List Stream) {c' : Client}
    → queue_at c.rpc_queue egress downstream ≡ (fd, stream) ∷ ss
    → admit_one a c ≡ ok c'
    → (r : ℕ) × (get_ds_rpc c.egress_maps stream fd ≡ ok r) × Admits a c c' (r ∷ []) ss
unfolding admit_one admit_stream asks_all wanted
admit_one-Admits a c fd stream ss {c'} at h =
    let rest : RpcQueue = with_queue c.rpc_queue egress downstream ss in
    let taken = dequeue_stream-first c.rpc_queue (fd, stream) ss at in
    let h₀ : admit_stream a (fd, stream) (record c { rpc_queue = rest }) ≡ ok c' =
      sym (rw taken refl) ∙ h in
    let (r, found, h₁) = >>=-eq-ok (get_ds_rpc c.egress_maps stream fd) _ h₀ in
    let m : Message Datagram = c.messages r in
    let (ppm, pushed, h₂) = >>=-eq-ok (push_call c.ppm_queue m.service m.local_id r) _ h₁ in
    let c₁ : Client = record c { rpc_queue = rest; ppm_queue = ppm } in
    let ((services, c₂), chosen, h₃) = >>=-eq-ok (services_of a r c₁) _ h₂ in
    let (which, f, is, kept) = services_of-IsKept a r c₁ chosen in
    let (ds, sent, done) =
      request_credits-with_sent a.blank a.last_rtt a.now m.local_id (pattern64 m.priority) services
        c₂ h₃ in
    let whole : c' ≡ with_sent (record c₁ { messages = f }) ds =
      done ∙ ap (λ x. with_sent x ds) is in
    let id : ℤ = m.local_id in
    let priority : ℕ = pattern64 m.priority in
    let asked : AreRequests a.blank a.last_rtt a.now c.pools (asks_all a c (r ∷ [])) ds =
      subst (λ ws. AreRequests a.blank a.last_rtt a.now c.pools ws ds)
        (ap (for_call id priority) (which ∙ asks-IsKept a c c₁ r refl (same-IsKept c.messages))
          ∙ sym (append-nil (wanted a c r)))
        (subst
          (λ pools. AreRequests a.blank a.last_rtt a.now pools (for_call id priority services) ds)
          (ap (λ (x : Client). x.pools) is) sent) in
    let (mine, others) = push_call-Waits c.ppm_queue ppm m.service m.local_id r pushed in
    (
      r,
      found,
      subst (λ x. Admits a c x (r ∷ []) ss) (sym whole)
          (record {
            queue = refl;
            waits = (mine, tt);
            still = others;
            requests = ds;
            asked = asked;
            server = refl;
            kept = kept;
            ingress_maps = refl;
            egress_maps = refl;
            pools = refl;
          }),
    )

admit_loop-Admits :
    (a : Asking) (ss : List Stream) (c : Client) {c' : Client}
    → queue_at c.rpc_queue egress downstream ≡ ss
    → admit_loop a (length ss) c ≡ ok c'
    → (rs : List ℕ) × (calls_at c.egress_maps ss ≡ ok rs) × Admits a c c' rs []
unfolding admit_loop calls_at
admit_loop-Admits a [] c at h =
    ([], refl, subst (λ x. Admits a c x [] []) (ok_inj h) (Admits-none a c at))
admit_loop-Admits a ((fd, stream) ∷ ss) c {c'} at h =
    let (c₁, first, h₁) = >>=-eq-ok (admit_one a c) _ h in
    let (r, found, one) = admit_one-Admits a c fd stream ss at first in
    let at₁ : queue_at c₁.rpc_queue egress downstream ≡ ss =
      ap (λ q. queue_at q egress downstream) one.queue
      ∙ queue_at-with_queue c.rpc_queue egress downstream ss in
    let (rs, calls, more) = admit_loop-Admits a ss c₁ at₁ h₁ in
    let calls₀ : calls_at c.egress_maps ss ≡ ok rs =
      ap (λ m. calls_at m ss) (sym one.egress_maps) ∙ calls in
    (r ∷ rs, rw found (rw calls₀ refl), Admits-more a c c₁ c' r rs ss [] one more)

-- When the requests for the calls in the queue are made, and nothing stops the process, the queue is
-- empty, and the other queues of streams are as they were. Each call that was in the queue waits for
-- a credit of its service under its identity, and so do all the calls that waited before. For the
-- server nothing changes but the datagrams that are sent, which are one Credit Request, in the order
-- of the calls, for each of the services that a call asks: its own in the ingress, and in another
-- sidecar its own too, or all those of the caller in a dynamic fan-out. A request goes to the address
-- of the pool of the service, and it has the type of a request, one credit, the identity of the call
-- and the name of the service in its bytes, as `send_credit_request` writes them.
pub request_for_all-Admits :
    (a : Asking) (c c' : Client)
    → request_for_all a c ≡ ok c'
    → (rs : List ℕ) × (calls_at c.egress_maps (queue_at c.rpc_queue egress downstream) ≡ ok rs)
      × Admits a c c' rs []
unfolding request_for_all
request_for_all-Admits a c c' h =
    admit_loop-Admits a (queue_at c.rpc_queue egress downstream) c refl h
