-- ===== src/Client/Dynamic.antt =====
-- About the grants for a call whose service calls one of its services, which is known late: all of
-- them were asked for a credit.
use roshanfer_sidecar.Base.{
  ℕ, ◌+◌, ◌%◌, ◌^◌, ◌≤◌, ◌<◌, ◌≡◌, ◌≢◌, refl, sym, ap, ◌∙◌, ◌⊎◌, inl, inr, List, [], ◌∷◌, ◌++◌,
  Bool, true, false, some, Bytes, length, ◌==◌, Result, ok, ◌>>=◌, or_fault, ok_inj, arith, subst,
  >>=-eq-ok, Bool-cases,
}
use roshanfer_sidecar.Base.Int.{ℤ}
use mathlib.Core.List.{append_assoc, append-nil}
use roshanfer_sidecar.Rpc.{Message}
use roshanfer_sidecar.Mapper.{get_ingress_rpc, ingress_side_id}
use roshanfer_sidecar.Rlp.{Datagram}
use roshanfer_sidecar.Credit.Serve.{IsCreditQueue}
use roshanfer_sidecar.Server.{MappingEntry, find_entry, Server}
use roshanfer_sidecar.Client.Pool.{Connection}
use roshanfer_sidecar.Client.{Client, update_message, leave}
use roshanfer_sidecar.Client.Fanout.{
  pop_and_send, store_return, flush_returns, dynamic_grant, fanout_req_management,
}
use roshanfer_sidecar.Client.Send.{
  Belong, get_ingress_rpc-Belong, Fan, Sends, update_message-eq, pop_and_send-Sends,
}
use roshanfer_sidecar.Client.Parallel.{leave-Leaves, Grant, ids_of, run_grants}
use roshanfer_sidecar.Client.Returns.{returns_of, store_return-eq, Flushes}

module _ (submit : Connection → Message Datagram → Result ℤ) (stoll : Bytes → Result ℤ)
    (snprintf : ℤ → Bytes) (to_int32 : ℤ → ℤ) (is_plain_frontend : Bool)
    (mapping : List MappingEntry) (id : ℤ) (r : ℕ) (entry : MappingEntry) (chosen : Bytes) where
  -- The call `r` of the identity `id` has had `k` grants, it calls `chosen`, and the credits
  -- `returns` wait to go back.
  pub record HasStored (k : ℕ) (returns : List Datagram) (c : Client) : Type 0 where
    pub known : get_ingress_rpc c.ingress_maps id ≡ ok r
    pub named : find_entry mapping ((c.messages r).service) ≡ some entry
    pub had : (c.messages r).pfanout_req ≡ k
    pub calls : (c.messages r).dfanout_service ≡ some chosen
    pub waiting : (c.messages r).credit_return_queue ≡ returns

  opens :
      (k : ℕ) (returns : List Datagram) (g : Grant) (c : Client)
      → ingress_side_id g.id ≡ ingress_side_id id
      → entry.pfanout ≡ false
      → entry.dfanout ≡ true
      → HasStored k returns c
      → fanout_req_management submit stoll snprintf to_int32 is_plain_frontend mapping g.id
          g.service g.grant g.blank g.now c
        ≡ dynamic_grant submit stoll snprintf to_int32 is_plain_frontend mapping r entry g.id
            g.service g.grant g.blank g.now c
  unfolding fanout_req_management
  opens k returns g c of one_way dynamic w =
      rw (get_ingress_rpc-Belong c.ingress_maps g.id id of ∙ w.known)
        (rw (w.named, or_fault) (rw (one_way, dynamic) refl))

  -- What is done on the last grant, once the call was sent.
  last_step :
      (k : ℕ) (waiting : List Datagram) (g : Grant) (c c₁ : Client) {c' : Client}
      → HasStored (k + 1) waiting c
      → Sends c c₁
      → IsCreditQueue c.server.credit_queue
      → leave g.now (((flush_returns r c₁).messages r).service) (flush_returns r c₁) ≡ ok c'
      → HasStored (k + 1) [] c' × Flushes c.server waiting c'.server
  unfolding flush_returns
  last_step k waiting g c c₁ {c'} w s v h =
      let m : Message Datagram = c₁.messages r in
      let q : m.credit_return_queue ≡ waiting = ap (λ (f : Fan). f.4) (s.kept r) ∙ w.waiting in
      let emptied : Message Datagram = record m { credit_return_queue = [] } in
      let now_has : (flush_returns r c₁).messages r ≡ emptied =
        update_message-eq c₁.messages r emptied r refl in
      let (leaves, maps, messages) =
        leave-Leaves g.now (((flush_returns r c₁).messages r).service) (flush_returns r c₁)
          (subst (λ (x : Server). IsCreditQueue x.credit_queue) (sym s.server) v) h in
      let at_r : c'.messages r ≡ emptied =
        ap (λ (f : ℕ → Message Datagram). f r) messages ∙ now_has in
      (
        record {
          known = ap (λ x. get_ingress_rpc x id) (maps ∙ s.maps) ∙ w.known;
          named =
              ap (λ (x : Message Datagram). find_entry mapping x.service) at_r
              ∙ ap (λ (f : Fan). find_entry mapping f.0) (s.kept r)
              ∙ w.named;
          had =
              ap (λ (x : Message Datagram). x.pfanout_req) at_r
              ∙ ap (λ (f : Fan). f.1) (s.kept r)
              ∙ w.had;
          calls =
              ap (λ (x : Message Datagram). x.dfanout_service) at_r
              ∙ ap (λ (f : Fan). f.3) (s.kept r)
              ∙ w.calls;
          waiting = ap (λ (x : Message Datagram). x.credit_return_queue) at_r;
        },
        subst (λ x. Flushes c.server x c'.server) q
            (subst (λ x. Flushes x m.credit_return_queue c'.server) s.server leaves),
      )

  -- One grant. All is stored in the call until the last one comes.
  grant_step :
      (k : ℕ) (returns : List Datagram) (g : Grant) (c : Client) {c' : Client}
      → ingress_side_id g.id ≡ ingress_side_id id
      → entry.pfanout ≡ false
      → entry.dfanout ≡ true
      → HasStored k returns c
      → k + 1 < 2 ^ 8
      → IsCreditQueue c.server.credit_queue
      → fanout_req_management submit stoll snprintf to_int32 is_plain_frontend mapping g.id
          g.service g.grant g.blank g.now c
        ≡ ok c'
      → (one : List Datagram) × ((gs : List Grant) (rest : List Datagram)
          → returns_of chosen gs ≡ ok rest
          → returns_of chosen (g ∷ gs) ≡ ok (one ++ rest))
        × ((HasStored (k + 1) (returns ++ one) c'
              × (c'.server ≡ c.server)
              × (k + 1 ≢ length entry.downstreams))
            ⊎ (HasStored (k + 1) [] c'
                × Flushes c.server (returns ++ one) c'.server
                × (k + 1 ≡ length entry.downstreams)))
  unfolding dynamic_grant flush_returns
  grant_step k returns g c {c'} of one_way dynamic w small v h =
      let m = c.messages r in
      let n = (m.pfanout_req + 1) % 2 ^ 8 in
      let count : n ≡ k + 1 = omega (arith, w.had) in
      let opened = sym (opens k returns g c of one_way dynamic w) ∙ h in
      let (returns', stored, h₁) = >>=-eq-ok (store_return m g.service g.grant g.blank) _ opened in
      let (one, more, spec) = store_return-eq chosen m g (w.calls) stored in
      let m' : Message Datagram = record m { pfanout_req = n; credit_return_queue = returns' } in
      let with_it : Client = record c { messages = update_message c.messages r m' } in
      let now_has : with_it.messages r ≡ m' = update_message-eq c.messages r m' r refl in
      let w' : HasStored (k + 1) (returns ++ one) with_it = record {
        known = w.known;
        named = ap (λ (x : Message Datagram). find_entry mapping x.service) now_has ∙ w.named;
        had = ap (λ (x : Message Datagram). x.pfanout_req) now_has ∙ count;
        calls = ap (λ (x : Message Datagram). x.dfanout_service) now_has ∙ w.calls;
        waiting =
            ap (λ (x : Message Datagram). x.credit_return_queue) now_has
            ∙ more
            ∙ ap (λ x. x ++ one) w.waiting;
      } in
      (
        one,
        spec,
        elim (Bool-cases (n == length entry.downstreams)) [
          | inr missing ↦
              let same : with_it ≡ c' = ok_inj (sym (rw missing) ∙ h₁) in
              inl (
                subst (HasStored (k + 1) (returns ++ one)) same w',
                ap (λ (x : Client). x.server) (sym same),
                ground (arith, missing, count),
              )
          | inl last ↦
              let done : (pop_and_send submit stoll snprintf to_int32 is_plain_frontend mapping
                      chosen g.id with_it
                    >>= λ x.
                        leave g.now (((flush_returns r x).messages r).service) (flush_returns r x))
                  ≡ ok c' =
                sym (rw last (rw (w.calls, or_fault) refl)) ∙ h₁ in
              let (c₁, sent, h₂) =
                >>=-eq-ok
                  (pop_and_send submit stoll snprintf to_int32 is_plain_frontend mapping chosen g.id
                    with_it)
                  _ done in
              let s =
                pop_and_send-Sends submit stoll snprintf to_int32 is_plain_frontend mapping chosen
                  g.id with_it sent in
              (let (a, b) = last_step k (returns ++ one) g with_it c₁ w' s v h₂ in
                inr (a, b, ground (arith, last, count)))
        ],
      )

  -- The grants for a call whose service has asked all its services for a credit and calls one,
  -- `chosen`; none more than there are services, and at most 255. As long as one is missing nothing
  -- changes for the server, and the credits that are not from `chosen` wait. With the last one they
  -- all go back, each once and in their order, and the call counts as in flight no more; one waiting
  -- grant at most takes its place.
  pub run_grants-Flushes :
      (gs : List Grant) (k : ℕ) (returns : List Datagram) (c : Client) {c' : Client}
      → Belong id (ids_of gs)
      → entry.pfanout ≡ false
      → entry.dfanout ≡ true
      → length entry.downstreams < 2 ^ 8
      → k < length entry.downstreams
      → k + length gs ≤ length entry.downstreams
      → HasStored k returns c
      → IsCreditQueue c.server.credit_queue
      → run_grants submit stoll snprintf to_int32 is_plain_frontend mapping gs c ≡ ok c'
      → (more : List Datagram) × (returns_of chosen gs ≡ ok more)
        × ((HasStored (k + length gs) (returns ++ more) c'
              × (c'.server ≡ c.server)
              × (k + length gs < length entry.downstreams))
            ⊎ (HasStored (k + length gs) [] c'
                × Flushes c.server (returns ++ more) c'.server
                × (k + length gs ≡ length entry.downstreams)))
  unfolding run_grants returns_of
  run_grants-Flushes [] k returns c {c'} of one_way dynamic small fewer room w v h =
      let w' : HasStored (k + 0) (returns ++ []) c = record {
        known = w.known;
        named = w.named;
        had = omega (arith, w.had);
        calls = w.calls;
        waiting = w.waiting ∙ sym (append-nil returns);
      } in
      let same = ok_inj h in
      (
        [],
        refl,
        inl (
          subst (HasStored (k + 0) (returns ++ [])) same w',
          ap (λ (x : Client). x.server) (sym same),
          omega arith,
        ),
      )
  run_grants-Flushes (g ∷ gs) k returns c {c'} of one_way dynamic small fewer room w v h =
      let (c₁, first, h₁) =
        >>=-eq-ok
          (fanout_req_management submit stoll snprintf to_int32 is_plain_frontend mapping g.id
            g.service g.grant g.blank g.now c)
          _ h in
      let (one, spec, step) =
        grant_step k returns g c of.0 one_way dynamic w (omega arith) v first in
      let same_count : k + 1 + length gs ≡ k + length (g ∷ gs) = omega arith in
      elim step [
        | inl (w₁, still, not_last) ↦
            let (more, made, rest) =
              run_grants-Flushes gs (k + 1) (returns ++ one) c₁ of.1 one_way dynamic small
                (omega (arith, not_last)) (omega arith) w₁
                (subst (λ (x : Server). IsCreditQueue x.credit_queue) (sym still) v) h₁ in
            let all : (returns ++ one) ++ more ≡ returns ++ (one ++ more) =
              append_assoc returns one more in
            (
              one ++ more,
              spec gs more made,
              elim rest [
                | inl (w', same, missing) ↦ inl (
                  subst (λ n. HasStored n (returns ++ (one ++ more)) c') same_count
                      (subst (λ l. HasStored (k + 1 + length gs) l c') all w'),
                  same ∙ still,
                  omega (arith, missing),
                )
                | inr (w', flushes, complete) ↦ inr (
                  subst (λ n. HasStored n [] c') same_count w',
                  subst (λ l. Flushes c.server l c'.server) all
                      (subst (λ x. Flushes x ((returns ++ one) ++ more) c'.server) still flushes),
                  omega (arith, complete),
                )
              ],
            )
        | inr (w₁, flushes, last) ↦ ended g one gs (omega (arith, last)) c₁ w₁ flushes last spec h₁
      ]
    where
      ended :
          (g : Grant) (one : List Datagram) (gs : List Grant)
          → length gs ≡ 0
          → (c₁ : Client) → HasStored (k + 1) [] c₁
          → Flushes c.server (returns ++ one) c₁.server
          → k + 1 ≡ length entry.downstreams
          → ((gs : List Grant) (rest : List Datagram)
              → returns_of chosen gs ≡ ok rest
              → returns_of chosen (g ∷ gs) ≡ ok (one ++ rest))
          → run_grants submit stoll snprintf to_int32 is_plain_frontend mapping gs c₁ ≡ ok c'
          → (more : List Datagram) × (returns_of chosen (g ∷ gs) ≡ ok more)
            × ((HasStored (k + length (g ∷ gs)) (returns ++ more) c'
                  × (c'.server ≡ c.server)
                  × (k + length (g ∷ gs) < length entry.downstreams))
                ⊎ (HasStored (k + length (g ∷ gs)) [] c'
                    × Flushes c.server (returns ++ more) c'.server
                    × (k + length (g ∷ gs) ≡ length entry.downstreams)))
      ended g one (x ∷ xs) e c₁ w₁ flushes last spec h = absurd (omega arith)
      ended g one [] e c₁ w₁ flushes last spec h =
          let same : c₁ ≡ c' = ok_inj h in
          (
            one,
            spec [] [] refl ∙ ap (λ l. ok l) (append-nil one),
            inr (
              subst (λ (x : Client). HasStored (k + 1) [] x) same w₁,
              subst (λ (x : Client). Flushes c.server (returns ++ one) x.server) same flushes,
              omega (arith, last),
            ),
          )
