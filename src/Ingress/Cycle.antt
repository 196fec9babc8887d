-- ===== src/Ingress/Cycle.antt =====
-- About the steps of src/ingress.cc taken in sequence, from the queue of calls to grants.
use roshanfer_sidecar.Base.{
  ℕ, suc, ◌+◌, ◌≤◌, ◌<◌, ◌≡◌, refl, ap, sym, ◌∙◌, ◌⊎◌, inl, inr, List, [], ◌∷◌, Bool, true, false,
  ◌&&◌, not, Bytes, length, length-append, ltb, leb, if◌then◌else◌, bytes_eq, Result, ok, >>=-eq-ok,
  ok_inj, ok_ne_err, arith, Bool-cases,
}
use roshanfer_sidecar.Base.Int.{ℤ, pos, ◌+ℤ◌}
use roshanfer_sidecar.Rpc.{Message, add_header_field}
use roshanfer_sidecar.Ingress.{
  rpc_id_header_name, priority_header_name, Ingress, enqueue, dequeue, pop_front, drop_rpc,
  add_headers, send_credit_request_checker, Verdict, update_ingress_cap,
}

module _ {B : Type 0} (stoll : Bytes → Result ℤ) (snprintf : ℤ → Bytes) (to_int32 : ℤ → ℤ) where
  -- What happens to the ingress, with the number of the Credit Requests that were sent and not yet
  -- answered by a grant. A grant comes only for a request.
  pub data Step (q : Ingress B) (n : ℕ) : Ingress B → ℕ → Type 0 where
    enqueued :
        (q' : Ingress B) (counter counter' : ℕ) (rpc : Message B)
        → enqueue stoll snprintf to_int32 counter q rpc ≡ ok (counter', q')
        → Step q n q' n
    requested : (q' : Ingress B) → send_credit_request_checker q ≡ (true, q') → Step q n q' (suc n)
    refrained : (q' : Ingress B) → send_credit_request_checker q ≡ (false, q') → Step q n q' n
    granted :
        (q' : Ingress B) (m : ℕ) (rpc : Message B)
        → n ≡ suc m
        → dequeue q ≡ ok (rpc, q')
        → Step q n q' m
    recapped : (v : Verdict) → Step q n (update_ingress_cap q v) n

  pub data Reaches (q₀ : Ingress B) : Ingress B → ℕ → Type 0 where
    start : Reaches q₀ q₀ 0
    step : (q q' : Ingress B) (n n' : ℕ) → Reaches q₀ q n → Step q n q' n' → Reaches q₀ q' n'

  -- The flag says whether a request is on its way, and then a call waits.
  pub record IsCycle (q : Ingress B) (n : ℕ) : Type 0 where
    pub one_at_most : n ≤ 1
    pub flag : q.has_credit_request_on_fly ≡ ltb 0 n
    pub waiting : 0 < n → 0 < length q.queue

  drop_rpc-keeps :
      (q q' : Ingress B) (rpc : Message B)
      → drop_rpc q rpc ≡ ok q'
      → (q'.has_credit_request_on_fly ≡ q.has_credit_request_on_fly) × (q'.queue ≡ q.queue)
  unfolding drop_rpc
  drop_rpc-keeps q q' rpc h = elim (Bool-cases rpc.http1) [
    | inr other ↦ absurd (ok_ne_err (sym (rw other at h)))
    | inl http ↦ elim (Bool-cases (bytes_eq rpc.service q.ingress_service)) [
      | inr wrong ↦ absurd (ok_ne_err (sym (rw (http, wrong) at h)))
      | inl right ↦
          let e = ok_inj (rw (http, right) at h) in
          (
            sym (ap (λ (x : Ingress B). x.has_credit_request_on_fly) e),
            sym (ap (λ (x : Ingress B). x.queue) e),
          )
    ]
  ]

  add_headers-keeps :
      (counter counter' : ℕ) (q q' : Ingress B) (rpc rpc' : Message B)
      → add_headers stoll snprintf to_int32 counter q rpc ≡ ok (counter', q', rpc')
      → (q'.has_credit_request_on_fly ≡ q.has_credit_request_on_fly) × (q'.queue ≡ q.queue)
  unfolding add_headers
  add_headers-keeps counter counter' q q' rpc rpc' h =
      let ((c₁, r₁), _, h₁) =
        >>=-eq-ok
          (add_header_field stoll true to_int32 counter rpc rpc_id_header_name
            (snprintf (q.last_rpc_id +ℤ pos 1)) true false)
          _ h in
      let ((c₂, r₂), _, h₂) =
        >>=-eq-ok
          (add_header_field stoll true to_int32 c₁ r₁ priority_header_name (snprintf q.priority)
            true false)
          _ h₁ in
      let e = ok_inj h₂ in
      (
        sym (ap (λ (x : ℕ × Ingress B × Message B). x.1.has_credit_request_on_fly) e),
        sym (ap (λ (x : ℕ × Ingress B × Message B). x.1.queue) e),
      )

  -- A call that comes leaves the flag, and the queue grows by one at most, and only below the cap.
  pub enqueue-keeps :
      (q q' : Ingress B) (counter counter' : ℕ) (rpc : Message B)
      → enqueue stoll snprintf to_int32 counter q rpc ≡ ok (counter', q')
      → (q'.has_credit_request_on_fly ≡ q.has_credit_request_on_fly)
        × (length q.queue ≤ length q'.queue)
        × (((length q'.queue ≡ length q.queue) × (q.ingress_size_cap ≤ length q.queue))
            ⊎ ((length q'.queue ≡ length q.queue + 1) × (length q.queue < q.ingress_size_cap)))
  unfolding enqueue
  enqueue-keeps q q' counter counter' rpc h =
      elim (Bool-cases (bytes_eq rpc.service q.ingress_service)) [
        | inr wrong ↦ absurd (ok_ne_err (sym (rw wrong at h)))
        | inl right ↦ elim (Bool-cases (leb q.ingress_size_cap (length q.queue))) [
          | inl full ↦
              let opened = rw (right, full) at h in
              let (q₁, e₁, h₁) = >>=-eq-ok (drop_rpc q rpc) _ opened in
              let (f, l) = drop_rpc-keeps q q₁ rpc e₁ in
              let e = ap (λ (x : ℕ × Ingress B). x.1) (ok_inj h₁) in
              let n = ap length (sym (ap (λ (x : Ingress B). x.queue) e) ∙ l) in
              (
                sym (ap (λ (x : Ingress B). x.has_credit_request_on_fly) e) ∙ f,
                omega arith,
                inl (n, ground arith),
              )
          | inr room ↦
              let opened = rw (right, room) at h in
              let ((c₁, q₁, r₁), e₁, h₁) =
                >>=-eq-ok (add_headers stoll snprintf to_int32 counter q rpc) _ opened in
              let (f, l) = add_headers-keeps counter c₁ q q₁ rpc r₁ e₁ in
              let e = ap (λ (x : ℕ × Ingress B). x.1) (ok_inj h₁) in
              let n : length q'.queue ≡ length q.queue + 1 = omega (
                arith,
                ap length (ap (λ (x : Ingress B). x.queue) e),
                length-append q₁.queue (r₁ ∷ []),
                ap length l,
              ) in
              (
                sym (ap (λ (x : Ingress B). x.has_credit_request_on_fly) e) ∙ f,
                omega arith,
                inr (n, ground arith),
              )
        ]
      ]

  pop_front-keeps :
      (q q' : Ingress B) (calls : List (Message B)) (rpc : Message B)
      → pop_front q calls ≡ ok (rpc, q')
      → q'.has_credit_request_on_fly ≡ false
  unfolding pop_front
  pop_front-keeps q q' [] rpc h = absurd (ok_ne_err (sym h))
  pop_front-keeps q q' (c ∷ cs) rpc h =
      sym (ap (λ (x : Message B × Ingress B). x.1.has_credit_request_on_fly) (ok_inj h))

  checker-keeps :
      (q q' : Ingress B) (b : Bool)
      → send_credit_request_checker q ≡ (b, q')
      → (q'.queue ≡ q.queue)
        × (b ≡ ltb 0 (length q.queue) && not q.has_credit_request_on_fly)
        × (q'.has_credit_request_on_fly ≡ (if b then true else q.has_credit_request_on_fly))
  unfolding send_credit_request_checker
  checker-keeps q q' b h =
      let e = ap (λ (x : Bool × Ingress B). x.1) h in
      let sent = ap (λ (x : Bool × Ingress B). x.0) h in
      (
        sym (ap (λ (x : Ingress B). x.queue) e),
        sym sent,
        sym (ap (λ (x : Ingress B). x.has_credit_request_on_fly) e)
            ∙ ap (λ c. if c then true else q.has_credit_request_on_fly) sent,
      )

  IsCycle-Step : (q q' : Ingress B) (n n' : ℕ) → IsCycle q n → Step q n q' n' → IsCycle q' n'
  unfolding dequeue update_ingress_cap
  IsCycle-Step q q' n n' c (enqueued _ counter counter' rpc h) =
      let (f, l, _) = enqueue-keeps q q' counter counter' rpc h in
      record {
        one_at_most = c.one_at_most;
        flag = f ∙ c.flag;
        waiting = λ lt. omega (arith, c.waiting lt);
      }
  IsCycle-Step q q' n n' c (requested _ h) =
      let (l, sent, f) = checker-keeps q q' true h in
      let n = ap length l in
      record {
        one_at_most = ground (arith, c.flag, sent);
        flag = ground (arith, f);
        waiting = λ lt. ground (arith, sent, n);
      }
  IsCycle-Step q q' n n' c (refrained _ h) =
      let (l, sent, f) = checker-keeps q q' false h in
      let n = ap length l in
      record {
        one_at_most = c.one_at_most;
        flag = f ∙ c.flag;
        waiting = λ lt. omega (arith, n, c.waiting lt);
      }
  IsCycle-Step q q' n n' c (granted _ m rpc e h) =
      let none : n' ≡ 0 = omega (arith, c.one_at_most) in
      record {
        one_at_most = omega arith;
        flag = pop_front-keeps q q' q.queue rpc h ∙ ground (arith, none);
        waiting = λ lt. absurd (omega arith);
      }
  IsCycle-Step q q' n n' c (recapped v) = record {
    one_at_most = c.one_at_most;
    flag = c.flag;
    waiting = c.waiting;
  }

  Reaches-IsCycle :
      (q₀ q : Ingress B) (n : ℕ)
      → q₀.has_credit_request_on_fly ≡ false
      → Reaches q₀ q n
      → IsCycle q n
  Reaches-IsCycle q₀ q n off start = record {
    one_at_most = omega arith;
    flag = off;
    waiting = λ lt. absurd (omega arith);
  }
  Reaches-IsCycle q₀ q n off (step p _ m _ r s) =
      IsCycle-Step p q m n (Reaches-IsCycle q₀ p m off r) s

  pop_front-ok :
      (q : Ingress B) (calls : List (Message B))
      → 0 < length calls
      → (rpc : Message B) × (q' : Ingress B) × (pop_front q calls ≡ ok (rpc, q'))
        × (calls ≡ rpc ∷ q'.queue)
  unfolding pop_front
  pop_front-ok q [] h = absurd (omega arith)
  pop_front-ok q (c ∷ cs) h = (c, _, refl, refl)

  -- From an ingress without a request on its way, whatever calls come, whatever requests are sent
  -- and granted and however the cap changes: one request at most is on its way, and when it is
  -- granted, the call at the front of the queue is there to be sent.
  pub Reaches-dequeue :
      (q₀ q : Ingress B) (n : ℕ)
      → q₀.has_credit_request_on_fly ≡ false
      → Reaches q₀ q n
      → (n ≤ 1)
        × (n ≡ 1
            → (rpc : Message B) × (q' : Ingress B) × (dequeue q ≡ ok (rpc, q'))
              × (q.queue ≡ rpc ∷ q'.queue))
  unfolding dequeue
  Reaches-dequeue q₀ q n off r =
      let c = Reaches-IsCycle q₀ q n off r in
      (c.one_at_most, λ one. pop_front-ok q q.queue (c.waiting (omega arith)))
