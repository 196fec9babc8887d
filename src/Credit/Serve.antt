-- ===== src/Credit/Serve.antt =====
-- `CreditQueue::pop`: which priority is served.
use roshanfer_sidecar.Base.{
  ℕ, zero, suc, ◌+◌, ◌-◌, ◌%◌, ◌^◌, ◌≤◌, ◌<◌, ◌≡◌, refl, ap, sym, ◌∙◌, ◌⊎◌, inl, inr, List, [], ◌∷◌,
  true, false, Option, none, some, Bytes, length, get_elem?, set, bytes_eq, ok, arith, Bool-cases,
  subst, ℕ_discrete, ◌==◌, some_inj,
}
use roshanfer_sidecar.Base.Int.{ℤ, pos, ◌+ℤ◌}
use roshanfer_sidecar.FastMap.{Slot, LocalMap, update}
use roshanfer_sidecar.FastMap.Lookup.{get-update}
use roshanfer_sidecar.FastMap.Built.{get_elem?_of_lt}
use roshanfer_sidecar.FastMap.Iterator.{occupied_at}
use roshanfer_sidecar.Credit.{
  InnerCreditQueue, Counters, CreditQueue, priority_count, weights, next_priority, served,
  try_priority,
}
use roshanfer_sidecar.Credit.Inner.{Covers, NoRoom, Popped}
use roshanfer_sidecar.Credit.Pop.{IsQueue, queued, queued-set, inner_pop-Pops}
use roshanfer_sidecar.Credit.Keep.{Pops-IsQueue, Covers-set}

pub weights_at : (p : ℕ) → p < 3 → (w : ℕ) × (get_elem? weights p ≡ some w) × (0 < w) × (w ≤ 16)
weights_at zero h = (16, refl, omega arith, omega arith)
weights_at (suc zero) h = (4, refl, omega arith, omega arith)
weights_at (suc (suc zero)) h = (1, refl, omega arith, omega arith)
weights_at (suc (suc (suc p))) h = absurd (omega arith)

module _ {B : Type 0} where
  -- A counter of an endpoint is still there after it has changed.
  Covers-update :
      (m : LocalMap (List B)) (c : Counters) (key : Bytes) (used : LocalMap ℤ) (n : ℤ)
      → Covers m c
      → update c.in_flight_per_endpoint key (λ x. x +ℤ pos 1) ≡ ok used
      → Covers m (record c { in_flight_per_endpoint = used; in_flight = n })
  Covers-update m c key used n covers u i s at o =
      let ((v, known), limit) = covers i s at o in
      let (w, _, e) = get-update c.in_flight_per_endpoint used key s.key (λ x. x +ℤ pos 1) u in
      (
        elim (Bool-cases (bytes_eq key s.key)) [
          | inl same ↦ (w +ℤ pos 1, e ∙ rw same)
          | inr other ↦ (v, e ∙ rw other known)
        ],
        limit,
      )

  -- One priority's queue, with its counters.
  pub record IsReady (inner : InnerCreditQueue B) (c : Counters) : Type 0 where
    pub queue : IsQueue inner
    pub covers : Covers inner.queue c
    pub bounded : queued inner.queue.slots < 2 ^ 64

  -- How many buffers wait in the queues together.
  abbrev pub total : List (InnerCreditQueue B) → ℕ
  total [] = 0
  total (q ∷ qs) = q.size + total qs

  pub total-set :
      (qs : List (InnerCreditQueue B)) (p : ℕ) (q q' : InnerCreditQueue B)
      → get_elem? qs p ≡ some q
      → total (set qs p q') + q.size ≡ total qs + q'.size
  total-set [] p q q' e = cc
  total-set (x ∷ xs) zero q q' e =
      let same : x.size ≡ q.size = ap (λ (y : InnerCreditQueue B). y.size) (some_inj e) in
      omega arith
  total-set (x ∷ xs) (suc p) q q' e = omega (arith, total-set xs p q q' e)

  pub total-le :
      (qs : List (InnerCreditQueue B)) (p : ℕ) (q : InnerCreditQueue B)
      → get_elem? qs p ≡ some q
      → q.size ≤ total qs
  total-le [] p q e = cc
  total-le (x ∷ xs) zero q e =
      let same : x.size ≡ q.size = ap (λ (y : InnerCreditQueue B). y.size) (some_inj e) in
      omega arith
  total-le (x ∷ xs) (suc p) q e = omega (arith, total-le xs p q e)

  -- There is a queue for each priority, `_size` counts what they hold, and the rounds left are within the weight of the priority
  -- that is being served.
  pub record IsCreditQueue (q : CreditQueue B) : Type 0 where
    pub priorities : length q.credit_queue ≡ priority_count
    pub in_range : q.it < priority_count
    pub ready :
        (p : ℕ) (inner : InnerCreditQueue B)
        → get_elem? q.credit_queue p ≡ some inner
        → IsReady inner q.counters
    pub weight : ℕ
    pub weighted : get_elem? weights q.it ≡ some weight
    pub some_rounds : 0 < q.remaining_rounds
    pub few_rounds : q.remaining_rounds ≤ weight
    pub counted : q.size ≡ total q.credit_queue
    pub bounded : total q.credit_queue < 2 ^ 64

  -- No endpoint of this priority has a buffer that could go.
  abbrev pub Idle : CreditQueue B → ℕ → Type 0
  Idle q p =
      (inner : InnerCreditQueue B)
      → get_elem? q.credit_queue p ≡ some inner
      → (i : ℕ) → i < length inner.queue.slots
      → NoRoom inner.queue q.counters i

  -- The turn after a buffer of priority `p`, which had `rounds` left, was served.
  abbrev pub Turn : ℕ → ℕ → CreditQueue B → Type 0
  Turn p rounds q =
      ((1 < rounds) × (q.it ≡ p) × (q.remaining_rounds + 1 ≡ rounds))
      ⊎ ((rounds ≡ 1)
          × (q.it ≡ (p + 1) % priority_count)
          × (get_elem? weights q.it ≡ some q.remaining_rounds))

  pub next_priority_lem :
      (q : CreditQueue B)
      → (w : ℕ) × (get_elem? weights ((q.it + 1) % 3) ≡ some w)
        × (0 < w)
        × (w ≤ 16)
        × (next_priority q ≡ ok (record q { it = (q.it + 1) % 3; remaining_rounds = w }))
  unfolding next_priority
  next_priority_lem q =
      let (w, e, lo, hi) = weights_at ((q.it + 1) % 3) (omega arith) in (w, e, lo, hi, rw e)

  -- Serving takes one off the count and one off the rounds, and changes nothing else.
  pub served_lem :
      (q : CreditQueue B) (b : B)
      → 0 < q.remaining_rounds
      → q.remaining_rounds ≤ 16
      → (q' : CreditQueue B) × (served q b ≡ ok (some b, q'))
        × (q'.credit_queue ≡ q.credit_queue)
        × (q'.counters ≡ q.counters)
        × (q'.size ≡ (q.size + 2 ^ 64 - 1) % 2 ^ 64)
        × Turn q.it q.remaining_rounds q'
  unfolding served
  served_lem q b some_rounds few =
      let q₁ : CreditQueue B = record q {
        remaining_rounds = (q.remaining_rounds + 2 ^ 64 - 1) % 2 ^ 64;
        size = (q.size + 2 ^ 64 - 1) % 2 ^ 64;
      } in
      let (w, e, _, _, step) = next_priority_lem q₁ in
      elim (ℕ_discrete q.remaining_rounds 1) [
        | yes one ↦
            let zero_left : (q₁.remaining_rounds == 0) ≡ true = ground arith in
            (
              record q₁ { it = (q.it + 1) % 3; remaining_rounds = w },
              rw (zero_left, step),
              refl,
              refl,
              refl,
              inr (one, refl, e),
            )
        | no more ↦
            let some_left : (q₁.remaining_rounds == 0) ≡ false = ground arith in
            (q₁, rw some_left, refl, refl, refl, inl (omega arith, refl, omega arith))
      ]

  -- One look at a priority.
  abbrev pub Tried : CreditQueue B → Type 0
  Tried q =
      (b : Option B) × (inner inner' : InnerCreditQueue B) × (c' : Counters) × (get_elem?
          q.credit_queue q.it
        ≡ some inner)
      × Popped inner q.counters (b, inner', c')
      × IsReady inner' c'
      × (try_priority q
          ≡ ok (b, record q { credit_queue = set q.credit_queue q.it inner'; counters = c' }))

  Took-IsReady :
      (inner : InnerCreditQueue B) (c : Counters) (b : Option B) (inner' : InnerCreditQueue B)
      (c' : Counters)
      → IsReady inner c
      → Popped inner c (b, inner', c')
      → inner'.it < length inner.queue.slots
      → occupied_at inner.queue.slots inner'.it ≡ true
      → IsReady inner' c'
  Took-IsReady inner c none inner' c' r (e, es, ec, no_room) hit o = record {
    queue = Pops-IsQueue inner c none inner' c' r.queue (e, es, ec, no_room) hit o r.bounded;
    covers = subst (λ m. Covers m c') (sym e) (subst (Covers inner.queue) (sym ec) r.covers);
    bounded = subst (λ (m : LocalMap (List B)). queued m.slots < 2 ^ 64) (sym e) r.bounded;
  }
  Took-IsReady inner c (some b) inner' c' r t hit o =
      let new : Slot (List B) = record (t.slot) { value = t.rest } in
      let m : LocalMap (List B) = record (inner.queue) {
        slots = set inner.queue.slots t.index new;
      } in
      let fewer = queued-set inner.queue.slots t.index t.slot new t.at in
      record {
        queue = Pops-IsQueue inner c (some b) inner' c' r.queue t hit o r.bounded;
        covers =
            subst (λ x. Covers x c') (sym t.queue)
              (subst (Covers m) (sym t.counters) (
                Covers-update m c t.slot.key t.used (c.in_flight +ℤ pos 1)
                  (Covers-set inner.queue c t.index t.slot t.rest t.at r.covers) t.counted));
        bounded =
            subst (λ (x : LocalMap (List B)). queued x.slots < 2 ^ 64) (sym t.queue)
              (omega (arith, fewer, ap length t.front, r.bounded));
      }

  pub try_priority-Tried :
      (q : CreditQueue B)
      → length q.credit_queue ≡ priority_count
      → q.it < priority_count
      → ((p : ℕ) (inner : InnerCreditQueue B)
          → get_elem? q.credit_queue p ≡ some inner
          → IsReady inner q.counters)
      → Tried q
  unfolding try_priority
  try_priority-Tried q three hit ready =
      let (inner, at) = get_elem?_of_lt q.credit_queue q.it (omega arith) in
      let r : IsReady inner q.counters = ready q.it inner at in
      let (b, inner', c', e, popped, hit', o) =
        inner_pop-Pops inner q.counters r.queue r.covers r.bounded in
      (
        b,
        inner,
        inner',
        c',
        at,
        popped,
        Took-IsReady inner q.counters b inner' c' r popped hit' o,
        rw (at, e),
      )

  -- What another priority's queue is after the counters have moved.
  pub Popped-IsReady :
      (inner : InnerCreditQueue B) (c : Counters) (b : Option B) (inner' : InnerCreditQueue B)
      (c' : Counters) (other : InnerCreditQueue B)
      → Popped inner c (b, inner', c')
      → IsReady other c
      → IsReady other c'
  Popped-IsReady inner c none inner' c' other (_, _, e, _) r = subst (IsReady other) (sym e) r
  Popped-IsReady inner c (some b) inner' c' other t r = record {
    queue = r.queue;
    covers =
        subst (Covers other.queue) (sym t.counters)
          (Covers-update other.queue c t.slot.key t.used (c.in_flight +ℤ pos 1) r.covers t.counted);
    bounded = r.bounded;
  }
