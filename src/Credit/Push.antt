-- ===== src/Credit/Push.antt =====
-- About `CreditQueue::push`, the operations on the counters, and the invariant of the queue.
use roshanfer_sidecar.Base.{
  ℕ, ◌+◌, ◌%◌, ◌^◌, ◌<◌, ◌≡◌, ◌≢◌, refl, ap, sym, ◌∙◌, List, [], ◌∷◌, ◌++◌, some, Bytes, bytes_eq,
  if◌then◌else◌, get_elem?, set, ok, arith, subst, ℕ_discrete, length-set, get_elem?-lt,
  get_elem?-set_self, get_elem?-set_ne, some_inj, ok_inj, >>=-eq-ok, out_of_range, or_fault,
  or_fault-some,
}
use roshanfer_sidecar.FastMap.{get, update}
use roshanfer_sidecar.FastMap.Lookup.{update-Finds, get-update}
use roshanfer_sidecar.Credit.{InnerCreditQueue, Counters, CreditQueue, inner_push, push}
use roshanfer_sidecar.Credit.Inner.{Covers}
use roshanfer_sidecar.Credit.Keep.{inner_push-IsQueue, Covers-set}
use roshanfer_sidecar.Credit.Serve.{IsReady, IsCreditQueue, total-set, total-le}

module _ {B : Type 0} where
  inner_push-IsReady :
      (q q' : InnerCreditQueue B) (c : Counters) (b : B) (endpoint : Bytes)
      → IsReady q c
      → q.size + 1 < 2 ^ 64
      → inner_push q b endpoint ≡ ok q'
      → IsReady q' c × (q'.size ≡ q.size + 1)
  unfolding inner_push
  inner_push-IsReady q q' c b endpoint r small h =
      let (v, more) = inner_push-IsQueue q q' b endpoint r.queue h in
      let (m, u, e) = >>=-eq-ok (update q.queue endpoint (λ bs. bs ++ b ∷ [])) _ h in
      let (i, s, f, e') = update-Finds q.queue m endpoint (λ bs. bs ++ b ∷ []) u in
      let covers = Covers-set q.queue c i s (s.value ++ b ∷ []) f.slot r.covers in
      let new : m ≡ q'.queue = ap (λ (x : InnerCreditQueue B). x.queue) (ok_inj e) in
      let counted = ap (λ (x : InnerCreditQueue B). x.size) (ok_inj e) in
      (
        record {
          queue = v;
          covers = subst (λ x. Covers x c) (sym e' ∙ new) covers;
          bounded = omega (arith, r.queue.counted, r.bounded, more);
        },
        omega (arith, r.queue.counted),
      )

  -- The buffer `b` is the last of those of the endpoint, and the other endpoints have theirs.
  abbrev pub IsLast : InnerCreditQueue B → B → Bytes → InnerCreditQueue B → Type 0
  IsLast q b endpoint q' =
      (bs : List B) × (get q.queue endpoint ≡ ok bs)
      × ((k : Bytes)
          → get q'.queue k ≡ (if bytes_eq endpoint k then ok (bs ++ b ∷ []) else get q.queue k))

  inner_push-IsLast :
      (q q' : InnerCreditQueue B) (b : B) (endpoint : Bytes)
      → inner_push q b endpoint ≡ ok q'
      → IsLast q b endpoint q'
  unfolding inner_push
  inner_push-IsLast q q' b endpoint h =
      let push_back : List B → List B = λ bs. bs ++ b ∷ [] in
      let (m, u, e) = >>=-eq-ok (update q.queue endpoint push_back) _ h in
      let new : m ≡ q'.queue = ap (λ (x : InnerCreditQueue B). x.queue) (ok_inj e) in
      let (bs, there, _) = get-update q.queue m endpoint endpoint push_back u in
      (
        bs,
        there,
        λ k.
            let (bs', there', after) = get-update q.queue m endpoint k push_back u in
            let same : bs' ≡ bs = ok_inj (sym there' ∙ there) in
            ap (λ x. get x k) (sym new)
            ∙ after
            ∙ ap (λ x. if bytes_eq endpoint k then ok (x ++ b ∷ []) else get q.queue k) same,
      )

  -- What a push of `b` to `priority` did to the queues.
  abbrev pub Pushed : CreditQueue B → B → Bytes → ℕ → CreditQueue B → Type 0
  Pushed q b endpoint priority q' =
      (q'.size ≡ q.size + 1)
      × (q'.counters ≡ q.counters)
      × ((p : ℕ) → p ≢ priority → get_elem? q'.credit_queue p ≡ get_elem? q.credit_queue p)
      × (inner inner' : InnerCreditQueue B) × (get_elem? q.credit_queue priority ≡ some inner)
      × (get_elem? q'.credit_queue priority ≡ some inner')
      × (inner_push inner b endpoint ≡ ok inner')
      × IsLast inner b endpoint inner'

  push_found :
      (q q' : CreditQueue B) (b : B) (endpoint : Bytes) (priority : ℕ)
      → push q b endpoint priority ≡ ok q'
      → (inner inner' : InnerCreditQueue B) × (get_elem? q.credit_queue priority ≡ some inner)
        × (inner_push inner b endpoint ≡ ok inner')
        × (record q {
          credit_queue = set q.credit_queue priority inner';
          size = (q.size + 1) % 2 ^ 64;
        }
            ≡ q')
  unfolding push
  push_found q q' b endpoint priority h =
      let (inner, at, h₁) =
        >>=-eq-ok (or_fault (get_elem? q.credit_queue priority) out_of_range) _ h in
      let (inner', e, h₂) = >>=-eq-ok (inner_push inner b endpoint) _ h₁ in
      (
        inner,
        inner',
        or_fault-some (get_elem? q.credit_queue priority) out_of_range at,
        e,
        ok_inj h₂,
      )

  -- A push of a grant to a priority that exists keeps the invariant, as long as the count fits
  -- its word. It changes the queue of that priority only.
  pub push-IsCreditQueue :
      (q q' : CreditQueue B) (b : B) (endpoint : Bytes) (priority : ℕ)
      → IsCreditQueue q
      → q.size + 1 < 2 ^ 64
      → push q b endpoint priority ≡ ok q'
      → IsCreditQueue q' × Pushed q b endpoint priority q'
  push-IsCreditQueue q q' b endpoint priority v small h =
      let (inner, inner', at, e, eq) = push_found q q' b endpoint priority h in
      let le = total-le q.credit_queue priority inner at in
      let (r, more) =
        inner_push-IsReady inner inner' q.counters b endpoint (v.ready priority inner at)
          (omega (arith, v.counted)) e in
      let self =
        get_elem?-set_self q.credit_queue priority inner'
          (get_elem?-lt q.credit_queue priority inner at) in
      let other = get_elem?-set_ne q.credit_queue priority in
      let sum = total-set q.credit_queue priority inner inner' at in
      subst (λ x. IsCreditQueue x × Pushed q b endpoint priority x) eq
        (
          record {
            priorities = length-set q.credit_queue priority inner' ∙ v.priorities;
            in_range = v.in_range;
            ready = λ p x at'. elim (ℕ_discrete priority p) [
              | yes here ↦
                  subst (λ y. IsReady y q.counters)
                    (some_inj
                      (sym self ∙ ap (get_elem? (set q.credit_queue priority inner')) here ∙ at'))
                    r
              | no ne ↦ v.ready p x (sym (other p inner' ne) ∙ at')
            ];
            weight = v.weight;
            weighted = v.weighted;
            some_rounds = v.some_rounds;
            few_rounds = v.few_rounds;
            counted = omega (arith, v.counted);
            bounded = omega (arith, v.counted);
          },
          (
            omega arith,
            refl,
            (λ p ne. other p inner' (λ x. ne (sym x))),
            inner,
            inner',
            at,
            self,
            e,
            inner_push-IsLast inner inner' b endpoint e,
          ),
        )
