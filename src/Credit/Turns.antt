-- ===== src/Credit/Turns.antt =====
-- The loop of `CreditQueue::pop` over the priorities.
use roshanfer_sidecar.Base.{
  ℕ, ◌+◌, ◌-◌, ◌%◌, ◌^◌, ◌<◌, ◌≡◌, ◌≢◌, ap, sym, ◌∙◌, ◌⊎◌, List, Option, none, some, length,
  get_elem?, set, subst, ℕ_discrete, get_elem?-lt, get_elem?-set_self, get_elem?-set_ne, some_inj,
}
use roshanfer_sidecar.FastMap.{LocalMap}
use roshanfer_sidecar.Credit.{InnerCreditQueue, Counters, CreditQueue, priority_count, weights}
use roshanfer_sidecar.Credit.Inner.{NoRoom, Took, Popped}
use roshanfer_sidecar.Credit.Serve.{IsReady, IsCreditQueue, Idle, Turn, Popped-IsReady}

module _ {B : Type 0} where
  -- Each queue of `q` holds what the queue of `q₀` at that priority holds.
  abbrev pub SameQueues : CreditQueue B → CreditQueue B → Type 0
  SameQueues q₀ q =
      (r : ℕ) (x : InnerCreditQueue B)
      → get_elem? q.credit_queue r ≡ some x
      → (y : InnerCreditQueue B) × (get_elem? q₀.credit_queue r ≡ some y)
        × (x.queue ≡ y.queue)
        × (x.size ≡ y.size)

  -- The rounds that the priority `d` places on has when its turn comes.
  abbrev pub Fresh : CreditQueue B → ℕ → ℕ → Type 0
  Fresh q₀ d rounds =
      ((d ≡ 0) × (rounds ≡ q₀.remaining_rounds))
      ⊎ ((0 < d) × (get_elem? weights ((q₀.it + d) % 3) ≡ some rounds))

  abbrev pub AllReady : CreditQueue B → Type 0
  AllReady q =
      (p : ℕ) (inner : InnerCreditQueue B)
      → get_elem? q.credit_queue p ≡ some inner
      → IsReady inner q.counters

  -- A buffer was served: from the first priority, in the order from `q₀.it` on, that has an
  -- endpoint with room.
  pub record Serves (q₀ : CreditQueue B) (b : B) (q : CreditQueue B) : Type 0 where
    pub places : ℕ
    pub inner : InnerCreditQueue B
    pub inner' : InnerCreditQueue B
    pub rounds : ℕ
    pub few_places : places < priority_count
    pub at : get_elem? q₀.credit_queue ((q₀.it + places) % 3) ≡ some inner
    pub took : Took inner q₀.counters b inner' q.counters
    pub now : get_elem? q.credit_queue ((q₀.it + places) % 3) ≡ some inner'
    pub others :
        (r : ℕ) (x : InnerCreditQueue B)
        → r ≢ (q₀.it + places) % 3
        → get_elem? q.credit_queue r ≡ some x
        → (y : InnerCreditQueue B) × (get_elem? q₀.credit_queue r ≡ some y)
          × (x.queue ≡ y.queue)
          × (x.size ≡ y.size)
    pub size : q.size ≡ (q₀.size + 2 ^ 64 - 1) % 2 ^ 64
    pub idle_before : (e : ℕ) → e < places → Idle q₀ ((q₀.it + e) % 3)
    pub fresh : Fresh q₀ places rounds
    pub turn : Turn ((q₀.it + places) % 3) rounds q

  -- No buffer could go, at any priority.
  pub record Rests (q₀ q : CreditQueue B) : Type 0 where
    pub counters : q.counters ≡ q₀.counters
    pub size : q.size ≡ q₀.size
    pub same : SameQueues q₀ q
    pub idle : (p : ℕ) → p < priority_count → Idle q₀ p

  abbrev pub Outcome : CreditQueue B → Option B × CreditQueue B → Type 0
  Outcome q₀ (none, q) = Rests q₀ q
  Outcome q₀ (some b, q) = Serves q₀ b q

  -- Where the loop is after `d` priorities without room.
  pub record Loop (q₀ : CreditQueue B) (d : ℕ) (q : CreditQueue B) : Type 0 where
    pub at : q.it ≡ (q₀.it + d) % 3
    pub counters : q.counters ≡ q₀.counters
    pub size : q.size ≡ q₀.size
    pub now : IsCreditQueue q
    pub same : SameQueues q₀ q
    pub idle : (e : ℕ) → e < d → Idle q₀ ((q₀.it + e) % 3)
    pub fresh : Fresh q₀ d q.remaining_rounds

  -- The queues after one was tried.
  pub AllReady-set :
      (q : CreditQueue B) (b : Option B) (inner inner' : InnerCreditQueue B) (c' : Counters)
      → AllReady q
      → get_elem? q.credit_queue q.it ≡ some inner
      → Popped inner q.counters (b, inner', c')
      → IsReady inner' c'
      → AllReady (record q { credit_queue = set q.credit_queue q.it inner'; counters = c' })
  AllReady-set q b inner inner' c' ready at popped r p x e = elim (ℕ_discrete q.it p) [
    | yes eq ↦
        let self =
          get_elem?-set_self q.credit_queue q.it inner'
            (get_elem?-lt q.credit_queue q.it inner at) in
        let same : inner' ≡ x =
          some_inj (sym self ∙ ap (get_elem? (set q.credit_queue q.it inner')) eq ∙ e) in
        subst (λ y. IsReady y c') same r
    | no ne ↦
        Popped-IsReady inner q.counters b inner' c' x popped
          (ready p x (sym (get_elem?-set_ne q.credit_queue q.it p inner' ne) ∙ e))
  ]

  pub SameQueues-set :
      (q₀ q : CreditQueue B) (inner inner' : InnerCreditQueue B)
      → SameQueues q₀ q
      → get_elem? q.credit_queue q.it ≡ some inner
      → inner'.queue ≡ inner.queue
      → inner'.size ≡ inner.size
      → SameQueues q₀ (record q { credit_queue = set q.credit_queue q.it inner' })
  SameQueues-set q₀ q inner inner' same at eq es r x e = elim (ℕ_discrete q.it r) [
    | yes here ↦
        let self =
          get_elem?-set_self q.credit_queue q.it inner'
            (get_elem?-lt q.credit_queue q.it inner at) in
        let new : inner' ≡ x =
          some_inj (sym self ∙ ap (get_elem? (set q.credit_queue q.it inner')) here ∙ e) in
        let (y, old, ey, sy) = same q.it inner at in
        (
          y,
          ap (get_elem? q₀.credit_queue) (sym here) ∙ old,
          ap (λ (z : InnerCreditQueue B). z.queue) (sym new) ∙ eq ∙ ey,
          ap (λ (z : InnerCreditQueue B). z.size) (sym new) ∙ es ∙ sy,
        )
    | no ne ↦ same r x (sym (get_elem?-set_ne q.credit_queue q.it r inner' ne) ∙ e)
  ]

  -- A priority without room is idle in the queue that the loop began with.
  pub Popped-Idle :
      (q₀ q : CreditQueue B) (inner inner' : InnerCreditQueue B) (c' : Counters)
      → SameQueues q₀ q
      → q.counters ≡ q₀.counters
      → get_elem? q.credit_queue q.it ≡ some inner
      → Popped inner q.counters (none, inner', c')
      → Idle q₀ q.it
  Popped-Idle q₀ q inner inner' c' same ec at (_, _, _, no_room) x ex i hi =
      let (y, ey, eq, _) = same q.it inner at in
      let xy : y ≡ x = some_inj (sym ey ∙ ex) in
      let qs : inner.queue ≡ x.queue = eq ∙ ap (λ (z : InnerCreditQueue B). z.queue) xy in
      subst (λ c. NoRoom x.queue c i) ec
        (subst (λ (m : LocalMap (List B)). i < length m.slots → NoRoom m q.counters i) qs
          (no_room i) hi)
