-- ===== src/Client/Admit.antt =====
-- About the Credit Requests that `protocol_client` sends for the calls in the queue.
use roshanfer_sidecar.Base.{
  ℕ, ◌≡◌, refl, ap, sym, ◌∙◌, inl, inr, List, [], ◌∷◌, ◌++◌, Option, none, some, Bytes,
  out_of_range, Result, ok, err, ok_inj, >>=-eq-ok, or_fault, or_fault-some, Bool-cases,
  if◌then◌else◌, ℕ_discrete,
}
use roshanfer_sidecar.Base.Int.{ℤ}
use mathlib.Core.List.{append_assoc, append-nil}
use roshanfer_sidecar.Rpc.{Message}
use roshanfer_sidecar.Mapper.{get_ingress_rpc}
use roshanfer_sidecar.Rlp.{Datagram, send_credit_request}
use roshanfer_sidecar.Server.{MappingEntry, find_entry}
use roshanfer_sidecar.Client.Pool.{get_addr}
use roshanfer_sidecar.Client.{Client, update_message, get_pool}
use roshanfer_sidecar.Client.Fanout.{request_credits}
use roshanfer_sidecar.Client.Protocol.{Asking, choose_services, services_of}
use roshanfer_sidecar.Client.Requests.{AreRequests, for_call, send-IsRequest}
use roshanfer_sidecar.Client.Send.{update_message-eq, update_message-ne}

-- More datagrams are handed to the ring.
abbrev pub with_sent : Client → List Datagram → Client
with_sent c ds = record c { server = record (c.server) { sent = c.server.sent ++ ds } }

pub request_credits-with_sent :
    (blank : Datagram) (last_rtt : Bytes → ℤ) (now id : ℤ) (priority : ℕ) (services : List Bytes)
    (c : Client) {c' : Client}
    → request_credits blank last_rtt now id priority services c ≡ ok c'
    → (ds : List Datagram) × AreRequests blank last_rtt now c.pools
        (for_call id priority services)
        ds
      × (c' ≡ with_sent c ds)
unfolding request_credits for_call
request_credits-with_sent blank last_rtt now id priority [] c h = (
  [],
  tt,
  sym (ok_inj h)
      ∙ ap (λ l. record c { server = record (c.server) { sent = l } })
          (sym (append-nil c.server.sent)),
)
request_credits-with_sent blank last_rtt now id priority (service ∷ services) c h =
    let (pool, known, h₁) = >>=-eq-ok (get_pool c.pools service) _ h in
    let (addr, addressed, h₂) = >>=-eq-ok (get_addr (pool.1)) _ h₁ in
    let (d, written, h₃) =
      >>=-eq-ok (send_credit_request blank (last_rtt service) now addr service 1 id priority) _
        h₂ in
    let (ds, rest, is) =
      request_credits-with_sent blank last_rtt now id priority services (with_sent c (d ∷ [])) h₃ in
    (
      d ∷ ds,
      (
        send-IsRequest blank last_rtt now c.pools
            (record { service = service; id = id; priority = priority }) pool addr d known addressed
            written,
        rest,
      ),
      is
          ∙ ap (λ l. record c { server = record (c.server) { sent = l } })
              (append_assoc c.server.sent (d ∷ []) ds),
    )

-- The services that are asked for a credit for a call, which is for `own`.
unfoldable pub asks_for : Asking → (ℕ → Message Datagram) → Bytes → Result ℕ → List Bytes
asks_for a f own (err e) = []
asks_for a f own (ok parent) = elim (find_entry a.mapping ((f parent).service)) [
  | none ↦ []
  | some entry ↦ if entry.dfanout then entry.downstreams else own ∷ []
]

-- The services that are asked for the call `r`: its own in the ingress; in another sidecar all those
-- of the caller, if it has a dynamic fan-out, and otherwise its own.
unfoldable pub asks : Asking → Client → ℕ → List Bytes
asks a c r =
    let own = (c.messages r).service in
    let several =
      asks_for a c.messages own (get_ingress_rpc c.ingress_maps ((c.messages r).local_id)) in
    if a.is_ingress then own ∷ [] else several

-- The messages say the same of their services, identities and priorities.
pub record IsKept (f g : ℕ → Message Datagram) : Type 0 where
  pub service : (j : ℕ) → (g j).service ≡ (f j).service
  pub local_id : (j : ℕ) → (g j).local_id ≡ (f j).local_id
  pub priority : (j : ℕ) → (g j).priority ≡ (f j).priority

pub asks-IsKept :
    (a : Asking) (c c' : Client) (r : ℕ)
    → c'.ingress_maps ≡ c.ingress_maps
    → IsKept c.messages c'.messages
    → asks a c' r ≡ asks a c r
unfolding asks asks_for
asks-IsKept a c c' r maps kept =
    ap
      (λ own.
        if a.is_ingress
        then own ∷ []
        else asks_for a c'.messages own
            (get_ingress_rpc c'.ingress_maps ((c'.messages r).local_id)))
      (kept.service r)
    ∙ ap (λ n. if a.is_ingress then (c.messages r).service ∷ [] else n)
        (ap (λ x. asks_for a c'.messages ((c.messages r).service) x)
            (ap (λ m. get_ingress_rpc m ((c'.messages r).local_id)) maps
              ∙ ap (get_ingress_rpc c.ingress_maps) (kept.local_id r))
          ∙ by_parent (get_ingress_rpc c.ingress_maps ((c.messages r).local_id)))
  where
    by_parent :
        (x : Result ℕ)
        → asks_for a c'.messages ((c.messages r).service) x
          ≡ asks_for a c.messages ((c.messages r).service) x
    by_parent (err e) = refl
    by_parent (ok p) = rw (asks_for, kept.service p) refl

choice-IsKept :
    (f : ℕ → Message Datagram) (p : ℕ) (chosen : Option Bytes)
    → IsKept f (update_message f p (record (f p) { dfanout_service = chosen }))
choice-IsKept f p chosen = record {
  service = λ j. elim (ℕ_discrete p j) [
    | yes e ↦
        ap (λ (m : Message Datagram). m.service) (update_message-eq f p m' j e)
        ∙ ap (λ i. (f i).service) e
    | no n ↦ ap (λ (m : Message Datagram). m.service) (update_message-ne f p m' j n)
  ];
  local_id = λ j. elim (ℕ_discrete p j) [
    | yes e ↦
        ap (λ (m : Message Datagram). m.local_id) (update_message-eq f p m' j e)
        ∙ ap (λ i. (f i).local_id) e
    | no n ↦ ap (λ (m : Message Datagram). m.local_id) (update_message-ne f p m' j n)
  ];
  priority = λ j. elim (ℕ_discrete p j) [
    | yes e ↦
        ap (λ (m : Message Datagram). m.priority) (update_message-eq f p m' j e)
        ∙ ap (λ i. (f i).priority) e
    | no n ↦ ap (λ (m : Message Datagram). m.priority) (update_message-ne f p m' j n)
  ];
}
  where
    m' : Message Datagram
    m' = record (f p) { dfanout_service = chosen }

pub same-IsKept : (f : ℕ → Message Datagram) → IsKept f f
same-IsKept f = record { service = λ j. refl; local_id = λ j. refl; priority = λ j. refl }

asks_for-known :
    (a : Asking) (f : ℕ → Message Datagram) (own : Bytes) (x : Result ℕ) (parent : ℕ)
    (entry : MappingEntry)
    → x ≡ ok parent
    → find_entry a.mapping ((f parent).service) ≡ some entry
    → asks_for a f own x ≡ (if entry.dfanout then entry.downstreams else own ∷ [])
unfolding asks_for
asks_for-known a f own x parent entry at named = rw at (rw (asks_for, named) refl)

-- What a choice of the services changes.
choose_services-IsKept :
    (a : Asking) (r : ℕ) (c : Client) {services : List Bytes} {c' : Client}
    → choose_services a r c ≡ ok (services, c')
    → (services
        ≡ asks_for a c.messages
            ((c.messages r).service)
            (get_ingress_rpc c.ingress_maps ((c.messages r).local_id)))
      × (f : ℕ → Message Datagram) × (c' ≡ record c { messages = f })
      × IsKept c.messages f
unfolding choose_services asks_for
choose_services-IsKept a r c {services} {c'} h =
    let (parent, at, h₁) =
      >>=-eq-ok (get_ingress_rpc c.ingress_maps ((c.messages r).local_id)) _ h in
    let (entry, found, h₂) =
      >>=-eq-ok (or_fault (find_entry a.mapping ((c.messages parent).service)) out_of_range) _ h₁ in
    let named =
      or_fault-some (find_entry a.mapping ((c.messages parent).service)) out_of_range found in
    let known = asks_for-known a c.messages ((c.messages r).service) _ parent entry at named in
    let chosen : Option Bytes = some ((c.messages r).service) in
    let f : ℕ → Message Datagram =
      update_message c.messages parent (record (c.messages parent) { dfanout_service = chosen }) in
    elim (Bool-cases entry.dfanout) [
      | inl dynamic ↦
          let choice : List Bytes × Client = (entry.downstreams, record c { messages = f }) in
          let e : choice ≡ (services, c') = sym (rw dynamic refl) ∙ ok_inj h₂ in
          (
            ap (λ (x : List Bytes × Client). x.0) (sym e) ∙ sym (known ∙ rw dynamic refl),
            f,
            ap (λ (x : List Bytes × Client). x.1) (sym e),
            choice-IsKept c.messages parent chosen,
          )
      | inr plain ↦
          let choice : List Bytes × Client = ((c.messages r).service ∷ [], c) in
          let e : choice ≡ (services, c') = sym (rw plain refl) ∙ ok_inj h₂ in
          (
            ap (λ (x : List Bytes × Client). x.0) (sym e) ∙ sym (known ∙ rw plain refl),
            c.messages,
            ap (λ (x : List Bytes × Client). x.1) (sym e),
            same-IsKept c.messages,
          )
    ]

pub services_of-IsKept :
    (a : Asking) (r : ℕ) (c : Client) {services : List Bytes} {c' : Client}
    → services_of a r c ≡ ok (services, c')
    → (services ≡ asks a c r)
      × (f : ℕ → Message Datagram) × (c' ≡ record c { messages = f })
      × IsKept c.messages f
unfolding services_of asks
services_of-IsKept a r c {services} {c'} h = elim (Bool-cases a.is_ingress) [
  | inl role ↦
      let choice : List Bytes × Client = ((c.messages r).service ∷ [], c) in
      let e : choice ≡ (services, c') = ok_inj (sym (rw role refl) ∙ h) in
      (
        ap (λ (x : List Bytes × Client). x.0) (sym e) ∙ sym (rw role refl),
        c.messages,
        ap (λ (x : List Bytes × Client). x.1) (sym e),
        same-IsKept c.messages,
      )
  | inr role ↦
      let chosen : choose_services a r c ≡ ok (services, c') = sym (rw role refl) ∙ h in
      let (long, f, is, kept) = choose_services-IsKept a r c chosen in
      (long ∙ sym (rw role refl), f, is, kept)
]
