-- ===== src/Client/Parallel.antt =====
-- About the grants and the responses for a call whose service calls all of its services at once.
use roshanfer_sidecar.Base.{
  ℕ, ◌+◌, ◌%◌, ◌^◌, ◌≤◌, ◌<◌, ◌≡◌, ◌≢◌, refl, sym, ap, ◌∙◌, ◌⊎◌, inl, inr, List, [], ◌∷◌, ◌++◌,
  Bool, true, some, Bytes, length, ◌==◌, Result, ok, ◌>>=◌, or_fault, ok_inj, arith, subst,
  >>=-eq-ok, Bool-cases,
}
use roshanfer_sidecar.Base.Int.{ℤ, pos, ◌+ℤ◌, ◌-ℤ◌}
use roshanfer_sidecar.Rpc.{Message}
use roshanfer_sidecar.Mapper.{get_ingress_rpc, ingress_side_id}
use roshanfer_sidecar.Rlp.{Datagram}
use roshanfer_sidecar.Credit.{decrement_in_flight}
use roshanfer_sidecar.Credit.Serve.{IsCreditQueue}
use roshanfer_sidecar.Server.{MappingEntry, find_entry, Server, check_credit_transmission}
use roshanfer_sidecar.Server.Counters.{decrement_in_flight-IsCreditQueue}
use roshanfer_sidecar.Server.Step.{check_credit_transmission-Transmits}
use roshanfer_sidecar.Server.Balance.{Transmits-sent}
use roshanfer_sidecar.Client.Pool.{Connection}
use roshanfer_sidecar.Client.{Client, update_message, leave}
use roshanfer_sidecar.Client.Fanout.{pop_and_send, parallel_grant, fanout_req_management}
use roshanfer_sidecar.Client.Send.{
  Belong, get_ingress_rpc-Belong, Fan, fan_of, update_message-eq, pop_and_send-Sends,
}

-- The server has one call less in flight, but for the grants that it sent then, one at most.
abbrev pub Leaves : Server → Server → Type 0
Leaves s s' =
    IsCreditQueue s'.credit_queue
    × (grants : List Datagram) × (length grants ≤ 1)
    × (s'.sent ≡ s.sent ++ grants)
    × (s'.credit_queue.counters.in_flight
        ≡ s.credit_queue.counters.in_flight -ℤ pos 1 +ℤ pos (length grants))

pub leave-Leaves :
    (now : ℤ) (service : Bytes) (c : Client) {c' : Client}
    → IsCreditQueue c.server.credit_queue
    → leave now service c ≡ ok c'
    → Leaves c.server c'.server × (c'.ingress_maps ≡ c.ingress_maps) × (c'.messages ≡ c.messages)
unfolding leave
leave-Leaves now service c v h =
    let (q, less, h₁) = >>=-eq-ok (decrement_in_flight c.server.credit_queue service) _ h in
    let (s, sent, h₂) =
      >>=-eq-ok (check_credit_transmission now (record (c.server) { credit_queue = q })) _ h₁ in
    let (v₁, fewer) = decrement_in_flight-IsCreditQueue c.server.credit_queue q service v less in
    let (s', e, v', t) =
      check_credit_transmission-Transmits now (record (c.server) { credit_queue = q }) v₁ in
    let same : s' ≡ s = ok_inj (sym e ∙ sent) in
    let (grants, few, more, count) =
      Transmits-sent now (record (c.server) { credit_queue = q }) s' t in
    subst
      (λ (x : Client).
        Leaves c.server x.server × (x.ingress_maps ≡ c.ingress_maps) × (x.messages ≡ c.messages))
      (ok_inj h₂)
      (
        subst (Leaves c.server) same
            (v', grants, few, more, count ∙ ap (λ z. z +ℤ pos (length grants)) fewer),
        refl,
        refl,
      )

-- A grant as it comes: the service that it is from, the datagram, a buffer for a Credit Return, and
-- the time.
pub record Grant : Type 0 where
  pub id : ℤ
  pub service : Bytes
  pub grant : Datagram
  pub blank : Datagram
  pub now : ℤ

abbrev pub ids_of : List Grant → List ℤ
ids_of [] = []
ids_of (g ∷ gs) = g.id ∷ ids_of gs

module _ (submit : Connection → Message Datagram → Result ℤ) (stoll : Bytes → Result ℤ)
    (snprintf : ℤ → Bytes) (to_int32 : ℤ → ℤ) (is_plain_frontend : Bool)
    (mapping : List MappingEntry) where
  -- The grants for a call, one after the other.
  unfoldable pub run_grants : List Grant → Client → Result Client
  run_grants [] c = ok c
  run_grants (g ∷ gs) c =
      fanout_req_management submit stoll snprintf to_int32 is_plain_frontend mapping g.id g.service
        g.grant g.blank g.now c
      >>= λ c'. run_grants gs c'

  module _ (id : ℤ) (r : ℕ) (entry : MappingEntry) where
    -- The call `r` of the identity `id` has had `k` grants, and its service is that of `entry`.
    pub record HasHad (k : ℕ) (c : Client) : Type 0 where
      pub known : get_ingress_rpc c.ingress_maps id ≡ ok r
      pub named : find_entry mapping ((c.messages r).service) ≡ some entry
      pub had : (c.messages r).pfanout_req ≡ k

    HasHad-next :
        (k : ℕ) (c c' : Client) (fan : Fan)
        → HasHad k c
        → c'.ingress_maps ≡ c.ingress_maps
        → fan_of (c'.messages r) ≡ fan
        → fan.0 ≡ (c.messages r).service
        → fan.1 ≡ k + 1
        → HasHad (k + 1) c'
    HasHad-next k c c' fan w maps is service count = record {
      known = ap (λ m. get_ingress_rpc m id) maps ∙ w.known;
      named =
          ap (λ (f : Fan). find_entry mapping f.0) is ∙ ap (find_entry mapping) service ∙ w.named;
      had = ap (λ (f : Fan). f.1) is ∙ count;
    }

    -- Which branch a grant takes.
    opens :
        (k : ℕ) (g : Grant) (c : Client)
        → ingress_side_id g.id ≡ ingress_side_id id
        → entry.pfanout ≡ true
        → HasHad k c
        → fanout_req_management submit stoll snprintf to_int32 is_plain_frontend mapping g.id
            g.service g.grant g.blank g.now c
          ≡ parallel_grant submit stoll snprintf to_int32 is_plain_frontend mapping r entry g.id
              g.service g.now c
    unfolding fanout_req_management
    opens k g c of parallel w =
        rw (get_ingress_rpc-Belong c.ingress_maps g.id id of ∙ w.known)
          (rw (w.named, or_fault) (rw parallel refl))

    -- One grant. The server changes on the last one only.
    grant_step :
        (k : ℕ) (g : Grant) (c : Client) {c' : Client}
        → ingress_side_id g.id ≡ ingress_side_id id
        → entry.pfanout ≡ true
        → HasHad k c
        → k + 1 < 2 ^ 8
        → IsCreditQueue c.server.credit_queue
        → fanout_req_management submit stoll snprintf to_int32 is_plain_frontend mapping g.id
            g.service g.grant g.blank g.now c
          ≡ ok c'
        → HasHad (k + 1) c'
          × ((c'.server ≡ c.server) × (k + 1 ≢ length entry.downstreams)
              ⊎ (Leaves c.server c'.server × (k + 1 ≡ length entry.downstreams)))
    unfolding parallel_grant
    grant_step k g c {c'} of parallel w small v h =
        let m = c.messages r in
        let n = (m.pfanout_req + 1) % 2 ^ 8 in
        let count : n ≡ k + 1 = omega (arith, w.had) in
        let m' : Message Datagram = record m { pfanout_req = n } in
        let counted : Client = record c { messages = update_message c.messages r m' } in
        let now_has : fan_of (counted.messages r) ≡ fan_of m' =
          ap fan_of (update_message-eq c.messages r m' r refl) in
        let opened = sym (opens k g c of parallel w) ∙ h in
        let (c₁, sent, h₁) =
          >>=-eq-ok
            (pop_and_send submit stoll snprintf to_int32 is_plain_frontend mapping g.service g.id
              counted)
            _ opened in
        let s =
          pop_and_send-Sends submit stoll snprintf to_int32 is_plain_frontend mapping g.service g.id
            counted sent in
        let had = HasHad-next k c c₁ (fan_of m') w s.maps (s.kept r ∙ now_has) refl count in
        elim (Bool-cases (n == length entry.downstreams)) [
          | inl last ↦
              let left : leave g.now ((c₁.messages r).service) c₁ ≡ ok c' = sym (rw last) ∙ h₁ in
              let (leaves, maps, messages) =
                leave-Leaves g.now ((c₁.messages r).service) c₁
                  (subst (λ (x : Server). IsCreditQueue x.credit_queue) (sym s.server) v) left in
              (
                record {
                  known = ap (λ x. get_ingress_rpc x id) maps ∙ had.known;
                  named = ap (λ f. find_entry mapping ((f r).service)) messages ∙ had.named;
                  had = ap (λ (f : ℕ → Message Datagram). (f r).pfanout_req) messages ∙ had.had;
                },
                inr (subst (λ x. Leaves x c'.server) s.server leaves, ground (arith, last, count)),
              )
          | inr more ↦
              let same : c₁ ≡ c' = ok_inj (sym (rw more) ∙ h₁) in
              (
                subst (HasHad (k + 1)) same had,
                inl (
                  ap (λ (x : Client). x.server) (sym same) ∙ s.server,
                  ground (arith, more, count),
                ),
              )
        ]

    -- The grants for the calls that one call leads to, when its service calls all of its services at
    -- once, none more than there are services, and at most 255: as long as one is missing nothing
    -- changes for the server. With the last one the call waits, and counts as in flight no more; one
    -- waiting grant at most takes its place. The call counts the grants.
    pub run_grants-Leaves :
        (gs : List Grant) (k : ℕ) (c : Client) {c' : Client}
        → Belong id (ids_of gs)
        → entry.pfanout ≡ true
        → length entry.downstreams < 2 ^ 8
        → k < length entry.downstreams
        → k + length gs ≤ length entry.downstreams
        → HasHad k c
        → IsCreditQueue c.server.credit_queue
        → run_grants gs c ≡ ok c'
        → HasHad (k + length gs) c'
          × (((c'.server ≡ c.server) × (k + length gs < length entry.downstreams))
              ⊎ (Leaves c.server c'.server × (k + length gs ≡ length entry.downstreams)))
    unfolding run_grants
    run_grants-Leaves [] k c {c'} of parallel small more room w v h =
        subst
          (λ (x : Client).
            HasHad (k + 0) x
            × (((x.server ≡ c.server) × (k + 0 < length entry.downstreams))
                ⊎ (Leaves c.server x.server × (k + 0 ≡ length entry.downstreams))))
          (ok_inj h)
          (
            record { known = w.known; named = w.named; had = omega (arith, w.had) },
            inl (refl, omega arith),
          )
    run_grants-Leaves (g ∷ gs) k c {c'} of parallel small more room w v h =
        let (c₁, first, h₁) =
          >>=-eq-ok
            (fanout_req_management submit stoll snprintf to_int32 is_plain_frontend mapping g.id
              g.service g.grant g.blank g.now c)
            _ h in
        let (w₁, step) = grant_step k g c of.0 parallel w (omega arith) v first in
        let same_count : k + length (g ∷ gs) ≡ k + 1 + length gs = omega arith in
        elim step [
          | inl (still, not_last) ↦
              let (w', rest) =
                run_grants-Leaves gs (k + 1) c₁ of.1 parallel small (omega (arith, not_last))
                  (omega arith) w₁
                  (subst (λ (x : Server). IsCreditQueue x.credit_queue) (sym still) v) h₁ in
              (
                subst (λ n. HasHad n c') (sym same_count) w',
                elim rest [
                  | inl (same, missing) ↦ inl (same ∙ still, omega (arith, missing))
                  | inr (leaves, all) ↦
                      inr (subst (λ x. Leaves x c'.server) still leaves, same_count ∙ all)
                ],
              )
          | inr (leaves, last) ↦
              let none_left : length gs ≡ 0 = omega (arith, last) in
              let end : c₁ ≡ c' = ended gs none_left c₁ c' h₁ in
              (
                subst (λ n. HasHad n c') (sym (same_count ∙ omega (arith, none_left)))
                    (subst (HasHad (k + 1)) end w₁),
                inr (
                  subst (λ (x : Client). Leaves c.server x.server) end leaves,
                  omega (arith, none_left, last),
                ),
              )
        ]
      where
        ended : (gs : List Grant) → length gs ≡ 0 → (a b : Client) → run_grants gs a ≡ ok b → a ≡ b
        ended [] e a b h = ok_inj h
        ended (g ∷ gs) e a b h = absurd (omega arith)
