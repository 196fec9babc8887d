-- ===== src/Client/Responses.antt =====
-- About the responses to the calls that one call leads to, when its service calls all of its services
-- at once.
use roshanfer_sidecar.Base.{
  ℕ, ◌+◌, ◌%◌, ◌^◌, ◌<◌, ◌≡◌, refl, sym, ap, ◌∙◌, ◌⊎◌, inl, inr, List, [], ◌∷◌, true, some, Bytes,
  bytes_eq, if◌then◌else◌, length, ltb, Result, ok, ◌>>=◌, or_fault, ok_inj, arith, subst,
  >>=-eq-ok, Bool-cases,
}
use roshanfer_sidecar.Base.Int.{ℤ, pos, ◌+ℤ◌}
use roshanfer_sidecar.FastMap.{LocalMap, get, update}
use roshanfer_sidecar.FastMap.Lookup.{get-update}
use roshanfer_sidecar.Rpc.{Message}
use roshanfer_sidecar.Mapper.{get_ingress_rpc, ingress_side_id}
use roshanfer_sidecar.Rlp.{Datagram}
use roshanfer_sidecar.Credit.{CreditQueue, increment_in_flight}
use roshanfer_sidecar.Credit.Serve.{IsCreditQueue}
use roshanfer_sidecar.Server.{MappingEntry, find_entry, Server}
use roshanfer_sidecar.Server.Counters.{increment_in_flight-IsCreditQueue}
use roshanfer_sidecar.Client.{Client, update_message}
use roshanfer_sidecar.Client.Fanout.{fanout_res_credit_management, enter}
use roshanfer_sidecar.Client.Send.{Belong, get_ingress_rpc-Belong, update_message-eq}

-- The responses to a call's calls, one after the other.
unfoldable pub run_responses : List MappingEntry → List ℤ → Client → Result Client
run_responses mapping [] c = ok c
run_responses mapping (i ∷ is) c =
    fanout_res_credit_management mapping i c >>= λ c'. run_responses mapping is c'

-- The server has one call of the service more in flight, and is as it was but for the two counters.
abbrev pub Enters : Bytes → Server → Server → Type 0
Enters service s s' =
    let c = s.credit_queue.counters in
    IsCreditQueue s'.credit_queue
    × (n : ℤ) × (get c.in_flight_per_endpoint service ≡ ok n)
    × (m : LocalMap ℤ) × ((k : Bytes)
        → get m k
          ≡ (if bytes_eq service k then ok (n +ℤ pos 1) else get c.in_flight_per_endpoint k))
    × (s' ≡ record s {
      credit_queue = record (s.credit_queue) {
        counters = record (s.credit_queue.counters) {
          in_flight = s.credit_queue.counters.in_flight +ℤ pos 1;
          in_flight_per_endpoint = m;
        };
      };
    })

increment_in_flight-eq :
    (s : Server) (service : Bytes) {q : CreditQueue Datagram}
    → IsCreditQueue q
    → increment_in_flight s.credit_queue service ≡ ok q
    → Enters service s (record s { credit_queue = q })
unfolding increment_in_flight
increment_in_flight-eq s service v h =
    let c = s.credit_queue.counters in
    let more : ℤ → ℤ = λ i. i +ℤ pos 1 in
    let (m, u, e) = >>=-eq-ok (update c.in_flight_per_endpoint service more) _ h in
    let (n, there, _) = get-update c.in_flight_per_endpoint m service service more u in
    (
      v,
      n,
      there,
      m,
      (λ k.
          let (n', there', after) = get-update c.in_flight_per_endpoint m service k more u in
          let same : n' ≡ n = ok_inj (sym there' ∙ there) in
          after
          ∙ ap (λ x. if bytes_eq service k then ok (x +ℤ pos 1) else get c.in_flight_per_endpoint k)
              same),
      ap (λ (x : CreditQueue Datagram). record s { credit_queue = x }) (sym (ok_inj e)),
    )

enter-Enters :
    (service : Bytes) (c : Client) {c' : Client}
    → IsCreditQueue c.server.credit_queue
    → enter service c ≡ ok c'
    → Enters service c.server c'.server
      × (c'.ingress_maps ≡ c.ingress_maps)
      × (c'.messages ≡ c.messages)
unfolding enter
enter-Enters service c v h =
    let (q, more, h₁) = >>=-eq-ok (increment_in_flight c.server.credit_queue service) _ h in
    let (v', count) = increment_in_flight-IsCreditQueue c.server.credit_queue q service v more in
    subst
      (λ (x : Client).
        Enters service c.server x.server
        × (x.ingress_maps ≡ c.ingress_maps)
        × (x.messages ≡ c.messages))
      (ok_inj h₁) (increment_in_flight-eq c.server service v' more, refl, refl)

module _ (mapping : List MappingEntry) (id : ℤ) (r : ℕ) (entry : MappingEntry) where
  -- The call `r` of the identity `id` has had `k` responses, and its service is that of `entry`.
  pub record HasGot (k : ℕ) (c : Client) : Type 0 where
    pub known : get_ingress_rpc c.ingress_maps id ≡ ok r
    pub named : find_entry mapping ((c.messages r).service) ≡ some entry
    pub got : (c.messages r).pfanout_res ≡ k

  known :
      (i : ℤ) {k : ℕ} (c : Client)
      → ingress_side_id i ≡ ingress_side_id id
      → HasGot k c
      → get_ingress_rpc c.ingress_maps i ≡ ok r
  known i c of w = get_ingress_rpc-Belong c.ingress_maps i id of ∙ w.known

  response_step :
      (i : ℤ) (k : ℕ) (c : Client) {c' : Client}
      → ingress_side_id i ≡ ingress_side_id id
      → entry.pfanout ≡ true
      → HasGot k c
      → k + 1 < 2 ^ 8
      → IsCreditQueue c.server.credit_queue
      → fanout_res_credit_management mapping i c ≡ ok c'
      → HasGot (k + 1) c'
        × (((k ≡ 0) × Enters ((c.messages r).service) c.server c'.server)
            ⊎ ((0 < k) × (c'.server ≡ c.server)))
  unfolding fanout_res_credit_management
  response_step i k c {c'} of parallel w small v h =
      let m = c.messages r in
      let n = (m.pfanout_res + 1) % 2 ^ 8 in
      let count : n ≡ k + 1 = omega (arith, w.got) in
      let m' : Message Datagram = record m { pfanout_res = n } in
      let counted : Client = record c { messages = update_message c.messages r m' } in
      let now_has : counted.messages r ≡ m' = update_message-eq c.messages r m' r refl in
      let w' : HasGot (k + 1) counted = record {
        known = w.known;
        named = ap (λ (x : Message Datagram). find_entry mapping x.service) now_has ∙ w.named;
        got = ap (λ (x : Message Datagram). x.pfanout_res) now_has ∙ count;
      } in
      elim (Bool-cases (ltb 1 n)) [
        | inl later ↦
            let same : counted ≡ c' = ok_inj (
              sym (rw (known i c of w) (rw (w.named, or_fault) (rw (parallel, later) refl))) ∙ h) in
            (
              subst (HasGot (k + 1)) same w',
              inr (ground (arith, later, count), ap (λ (x : Client). x.server) (sym same)),
            )
        | inr first ↦
            let entered : enter m.service counted ≡ ok c' =
              sym (rw (known i c of w) (rw (w.named, or_fault) (rw (parallel, first) refl))) ∙ h in
            let (enters, maps, messages) = enter-Enters m.service counted v entered in
            (
              record {
                known = ap (λ x. get_ingress_rpc x id) maps ∙ w'.known;
                named = ap (λ f. find_entry mapping ((f r).service)) messages ∙ w'.named;
                got = ap (λ (f : ℕ → Message Datagram). (f r).pfanout_res) messages ∙ w'.got;
              },
              inl (ground (arith, first, count), enters),
            )
      ]

  later_responses :
      (is : List ℤ) (k : ℕ) (c : Client) {c' : Client}
      → Belong id is
      → entry.pfanout ≡ true
      → 0 < k
      → HasGot k c
      → k + length is < 2 ^ 8
      → IsCreditQueue c.server.credit_queue
      → run_responses mapping is c ≡ ok c'
      → HasGot (k + length is) c' × (c'.server ≡ c.server)
  unfolding run_responses
  later_responses [] k c of parallel some_had w small v h =
      subst (λ (x : Client). HasGot (k + 0) x × (x.server ≡ c.server)) (ok_inj h)
        (record { known = w.known; named = w.named; got = omega (arith, w.got) }, refl)
  later_responses (i ∷ is) k c {c'} of parallel some_had w small v h =
      let (c₁, first, h₁) = >>=-eq-ok (fanout_res_credit_management mapping i c) _ h in
      let (w₁, step) = response_step i k c of.0 parallel w (omega arith) v first in
      elim step [
        | inl (nothing, _) ↦ absurd (omega (arith, nothing))
        | inr (_, still) ↦
            let (w', rest) =
              later_responses is (k + 1) c₁ of.1 parallel (omega arith) w₁ (omega arith)
                (subst (λ (x : Server). IsCreditQueue x.credit_queue) (sym still) v) h₁ in
            (subst (λ i. HasGot i c') (omega arith) w', rest ∙ still)
      ]

  -- The responses to the calls that one call leads to, when its service calls all of its services at
  -- once, at most 255: with the first of them one call of the service counts as in flight again, and
  -- this is the only change for the server, which is as it is then after the others too. The call
  -- counts the responses.
  pub run_responses-Enters :
      (i : ℤ) (is : List ℤ) (c : Client) {c' : Client}
      → Belong id (i ∷ is)
      → entry.pfanout ≡ true
      → HasGot 0 c
      → length is + 1 < 2 ^ 8
      → IsCreditQueue c.server.credit_queue
      → run_responses mapping (i ∷ is) c ≡ ok c'
      → HasGot (length is + 1) c'
        × (c₁ : Client) × (fanout_res_credit_management mapping i c ≡ ok c₁)
        × Enters ((c.messages r).service) c.server c₁.server
        × (c'.server ≡ c₁.server)
  unfolding run_responses
  run_responses-Enters i is c {c'} of parallel w small v h =
      let (c₁, first, h₁) = >>=-eq-ok (fanout_res_credit_management mapping i c) _ h in
      let (w₁, step) = response_step i 0 c of.0 parallel w (omega arith) v first in
      elim step [
        | inr (some_had, _) ↦ absurd (omega (arith, some_had))
        | inl (_, enters) ↦
            let (w', still) =
              later_responses is 1 c₁ of.1 parallel (omega arith)
                (subst (λ i. HasGot i c₁) (omega arith) w₁) (omega arith) enters.0 h₁ in
            (subst (λ i. HasGot i c') (omega arith) w', c₁, first, enters, still)
      ]
