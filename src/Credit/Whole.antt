-- ===== src/Credit/Whole.antt =====
-- `CreditQueue::pop` as a whole: what it returns, and the invariant it keeps.
use roshanfer_sidecar.Base.{
  ℕ, zero, suc, ◌+◌, ◌-◌, ◌%◌, ◌^◌, ◌≤◌, ◌<◌, ◌≡◌, refl, ap, sym, ◌∙◌, inl, inr, List, [], ◌∷◌,
  ◌&&◌, Bool, true, false, Option, none, some, length, get_elem?, set, Result, ok, arith,
  Bool-cases, subst, ℕ_discrete, length-set, get_elem?-lt, get_elem?-set_self, get_elem?-set_ne,
  ◌==◌, ◌>>=◌, some_inj, dec_lt,
}
use roshanfer_sidecar.Base.Int.{ltb_ℤ}
use roshanfer_sidecar.FastMap.{LocalMap, get}
use roshanfer_sidecar.Credit.{
  InnerCreditQueue, Counters, CreditQueue, weights, has_room, try_priority, pop_loop, pop,
}
use roshanfer_sidecar.Credit.Inner.{Covers, NoRoom, Took, Popped}
use roshanfer_sidecar.Credit.Round.{Took-record}
use roshanfer_sidecar.Credit.Pop.{empty-NoRoom, queued-le}
use roshanfer_sidecar.Credit.Serve.{
  IsReady, IsCreditQueue, Idle, Turn, total, total-set, total-le, weights_at, served_lem,
  next_priority_lem, try_priority-Tried,
}
use roshanfer_sidecar.Credit.Turns.{
  Serves, Rests, Outcome, Loop, AllReady-set, SameQueues-set, Popped-Idle,
}

and_false : (b : Bool) → (b && false) ≡ false
and_false true = refl
and_false false = refl

module _ {B : Type 0} where
  -- The weights are at most 16.
  rounds_le : (q : CreditQueue B) → IsCreditQueue q → q.remaining_rounds ≤ 16
  rounds_le q v =
      let (w, e, _, hi) = weights_at q.it v.in_range in
      let same : w ≡ v.weight = some_inj (sym e ∙ v.weighted) in omega (arith, v.few_rounds)

  -- A queue that gave a buffer had one.
  Took-some :
      (inner : InnerCreditQueue B) (c : Counters) (b : B) (inner' : InnerCreditQueue B)
      (c' : Counters)
      → IsReady inner c
      → Took inner c b inner' c'
      → (0 < inner.size) × (inner'.size + 1 ≡ inner.size)
  Took-some inner c b inner' c' r t =
      let le = queued-le inner.queue.slots t.index t.slot t.at in
      let some_left : 0 < inner.size =
        omega (arith, r.queue.counted, r.bounded, ap length t.front) in
      (some_left, omega (arith, t.size, r.queue.counted))

  -- After a turn the rounds left are within the weight of the priority it is on.
  Turn-weight :
      (p rounds w : ℕ) (q' : CreditQueue B)
      → p < 3
      → get_elem? weights p ≡ some w
      → rounds ≤ w
      → Turn p rounds q'
      → (w' : ℕ) × (get_elem? weights q'.it ≡ some w')
        × (0 < q'.remaining_rounds)
        × (q'.remaining_rounds ≤ w')
        × (q'.it < 3)
  Turn-weight p rounds w q' range e few (inl (more, same, less)) =
      (w, ap (get_elem? weights) same ∙ e, omega arith, omega arith, omega arith)
  Turn-weight p rounds w q' range e few (inr (one, same, fresh)) =
      let here : q'.it < 3 = omega arith in
      let (w', ew, lo, hi) = weights_at q'.it here in
      let eq : q'.remaining_rounds ≡ w' = some_inj (sym fresh ∙ ew) in
      (w', ew, omega arith, omega arith, here)

  IsCreditQueue-served :
      (q : CreditQueue B) (b : B) (inner inner' : InnerCreditQueue B) (c' : Counters)
      (q' : CreditQueue B)
      → IsCreditQueue q
      → get_elem? q.credit_queue q.it ≡ some inner
      → Took inner q.counters b inner' c'
      → IsReady inner' c'
      → q'.credit_queue ≡ set q.credit_queue q.it inner'
      → q'.counters ≡ c'
      → q'.size ≡ (q.size + 2 ^ 64 - 1) % 2 ^ 64
      → Turn q.it q.remaining_rounds q'
      → IsCreditQueue q'
  IsCreditQueue-served q b inner inner' c' q' v at t r eq ec es turn =
      let (some_left, less) = Took-some inner q.counters b inner' c' (v.ready q.it inner at) t in
      let le = total-le q.credit_queue q.it inner at in
      let sum = total-set q.credit_queue q.it inner inner' at in
      let all = ap total eq in
      let (w, ew, lo, hi, range) =
        Turn-weight q.it q.remaining_rounds v.weight q' v.in_range v.weighted v.few_rounds turn in
      record {
        priorities = ap length eq ∙ length-set q.credit_queue q.it inner' ∙ v.priorities;
        in_range = range;
        ready = λ p x e. subst (IsReady x) (sym ec) (
            AllReady-set q (some b) inner inner' c' v.ready at t r p x
              (ap (λ qs. get_elem? qs p) (sym eq) ∙ e));
        weight = w;
        weighted = ew;
        some_rounds = lo;
        few_rounds = hi;
        counted = omega (arith, v.counted, v.bounded);
        bounded = omega (arith, v.counted, v.bounded);
      }

  Loop-next :
      (q₀ q : CreditQueue B) (d : ℕ) (inner inner' : InnerCreditQueue B) (c' : Counters) (w : ℕ)
      → q₀.it < 3
      → Loop q₀ d q
      → get_elem? q.credit_queue q.it ≡ some inner
      → Popped inner q.counters (none, inner', c')
      → IsReady inner' c'
      → get_elem? weights ((q.it + 1) % 3) ≡ some w
      → 0 < w
      → Loop q₀ (d + 1) (record q {
        credit_queue = set q.credit_queue q.it inner';
        counters = c';
        it = (q.it + 1) % 3;
        remaining_rounds = w;
      })
  Loop-next q₀ q d inner inner' c' w lo l at popped r e some_rounds =
      let (mq, ms, mc, no_room) = popped in
      let v = l.now in
      let range = v.in_range in
      let (w', ew, lo', hi) = weights_at ((q.it + 1) % 3) (omega arith) in
      let ww : w ≡ w' = some_inj (sym e ∙ ew) in
      let sum = total-set q.credit_queue q.it inner inner' at in
      let here : (q.it + 1) % 3 ≡ (q₀.it + (d + 1)) % 3 = omega (arith, l.at) in
      record {
        at = here;
        counters = mc ∙ l.counters;
        size = l.size;
        now = record {
          priorities = length-set q.credit_queue q.it inner' ∙ v.priorities;
          in_range = omega arith;
          ready = AllReady-set q none inner inner' c' v.ready at popped r;
          weight = w;
          weighted = e;
          some_rounds = some_rounds;
          few_rounds = omega arith;
          counted = omega (arith, v.counted);
          bounded = omega (arith, v.bounded);
        };
        same = SameQueues-set q₀ q inner inner' l.same at mq ms;
        idle = λ x hx. elim (dec_lt x d) [
          | yes lt ↦ l.idle x lt
          | no ge ↦
              subst (Idle q₀) (l.at ∙ ap (λ y. (q₀.it + y) % 3) (omega arith))
                (Popped-Idle q₀ q inner inner' c' l.same l.counters at popped)
        ];
        fresh = inr (omega arith, ap (get_elem? weights) (sym here) ∙ e);
      }

  served-Serves :
      (q₀ q : CreditQueue B) (d : ℕ) (b : B) (inner inner' : InnerCreditQueue B) (c' : Counters)
      (q' : CreditQueue B)
      → d < 3
      → Loop q₀ d q
      → get_elem? q.credit_queue q.it ≡ some inner
      → Took inner q.counters b inner' c'
      → q'.credit_queue ≡ set q.credit_queue q.it inner'
      → q'.counters ≡ c'
      → q'.size ≡ (q.size + 2 ^ 64 - 1) % 2 ^ 64
      → Turn q.it q.remaining_rounds q'
      → Serves q₀ b q'
  served-Serves q₀ q d b inner inner' c' q' few l at t eq ec es turn =
      let (y, ey, mq, ms) = l.same q.it inner at in
      let self =
        get_elem?-set_self q.credit_queue q.it inner' (get_elem?-lt q.credit_queue q.it inner at) in
      let t' : Took y q₀.counters b inner' q'.counters =
        subst (λ c. Took y c b inner' q'.counters) l.counters
          (subst (Took y q.counters b inner') (sym ec)
            (Took-record inner y q.counters b inner' c' mq ms t)) in
      record {
        places = d;
        inner = y;
        inner' = inner';
        rounds = q.remaining_rounds;
        few_places = few;
        at = ap (get_elem? q₀.credit_queue) (sym l.at) ∙ ey;
        took = t';
        now = ap (get_elem? q'.credit_queue) (sym l.at) ∙ ap (λ qs. get_elem? qs q.it) eq ∙ self;
        others = λ r x ne e. l.same r x (
            sym (get_elem?-set_ne q.credit_queue q.it r inner' (λ h. ne (sym h ∙ l.at)))
            ∙ ap (λ qs. get_elem? qs r) (sym eq)
            ∙ e);
        size = es ∙ ap (λ n. (n + 2 ^ 64 - 1) % 2 ^ 64) l.size;
        idle_before = l.idle;
        fresh = l.fresh;
        turn = subst (λ p. Turn p q.remaining_rounds q') l.at turn;
      }

  -- After three priorities the loop is back where it began.
  Loop-Rests : (q₀ q : CreditQueue B) → q₀.it < 3 → Loop q₀ 3 q → Rests q₀ q
  Loop-Rests q₀ q lo l = record {
    counters = l.counters;
    size = l.size;
    same = l.same;
    idle = λ p hp. elim (dec_lt p q₀.it) [
      | yes lt ↦ subst (Idle q₀) (omega arith) (l.idle (p + 3 - q₀.it) (omega arith))
      | no ge ↦ subst (Idle q₀) (omega arith) (l.idle (p - q₀.it) (omega arith))
    ];
  }

  -- A run that returns, with its outcome, and the invariant afterwards.
  abbrev pub Returns : CreditQueue B → Result (Option B × CreditQueue B) → Type 0
  Returns q₀ r =
      (b : Option B) × (q' : CreditQueue B) × (r ≡ ok (b, q'))
      × Outcome q₀ (b, q')
      × IsCreditQueue q'

  -- One round of the loop, given what the rounds after it do.
  loop_step :
      (q₀ q : CreditQueue B) (n d : ℕ)
      → q₀.it < 3
      → d + suc n ≡ 3
      → Loop q₀ d q
      → ((q'' : CreditQueue B)
          → d + 1 < 3
          → Loop q₀ (d + 1) q''
          → Returns q₀ (pop_loop n q₀.it q''))
      → (b : Option B) (inner inner' : InnerCreditQueue B) (c' : Counters)
      → get_elem? q.credit_queue q.it ≡ some inner
      → Popped inner q.counters (b, inner', c')
      → IsReady inner' c'
      → try_priority q
        ≡ ok (b, record q { credit_queue = set q.credit_queue q.it inner'; counters = c' })
      → Returns q₀ (pop_loop (suc n) q₀.it q)
  unfolding pop_loop
  loop_step q₀ q n d lo sum l rec (some b) inner inner' c' at t r e =
      let v = l.now in
      let q₁ : CreditQueue B = record q {
        credit_queue = set q.credit_queue q.it inner';
        counters = c';
      } in
      let (q', e', eq, ec, es, turn) = served_lem q₁ b v.some_rounds (rounds_le q v) in
      (
        some b,
        q',
        rw (e, e'),
        served-Serves q₀ q d b inner inner' c' q' (omega arith) l at t eq ec es turn,
        IsCreditQueue-served q b inner inner' c' q' v at t r eq ec es turn,
      )
  loop_step q₀ q n d lo sum l rec none inner inner' c' at popped r e =
      let q₁ : CreditQueue B = record q {
        credit_queue = set q.credit_queue q.it inner';
        counters = c';
      } in
      let (w, ew, some_rounds, _, e') = next_priority_lem q₁ in
      let q₂ : CreditQueue B = record q₁ { it = (q.it + 1) % 3; remaining_rounds = w } in
      let l' : Loop q₀ (d + 1) q₂ =
        Loop-next q₀ q d inner inner' c' w lo l at popped r ew some_rounds in
      elim (ℕ_discrete (d + 1) 3) [
        | yes last ↦
            let back : (q₂.it == q₀.it) ≡ true = ground (arith, l'.at) in
            (
              none,
              q₂,
              rw (e, e', back),
              Loop-Rests q₀ q₂ lo (subst (λ x. Loop q₀ x q₂) last l'),
              l'.now,
            )
        | no more ↦
            let away : (q₂.it == q₀.it) ≡ false = ground (arith, l'.at) in
            rw (e, e', away) (rec q₂ (omega arith) l')
      ]

  loop-Returns :
      (q₀ q : CreditQueue B) (n d : ℕ)
      → q₀.it < 3
      → d + n ≡ 3
      → d < 3
      → Loop q₀ d q
      → Returns q₀ (pop_loop n q₀.it q)
  loop-Returns q₀ q zero d lo sum few l = absurd (omega arith)
  loop-Returns q₀ q (suc n) d lo sum few l =
      let v = l.now in
      let (b, inner, inner', c', at, popped, r, e) =
        try_priority-Tried q v.priorities v.in_range v.ready in
      loop_step q₀ q n d lo sum l
        (λ q'' more l'. loop-Returns q₀ q'' n (d + 1) lo (omega arith) more l') b inner inner' c' at
        popped r e

  start : (q : CreditQueue B) → IsCreditQueue q → Loop q 0 q
  start q v = record {
    at = omega (arith, v.in_range);
    counters = refl;
    size = refl;
    now = v;
    same = λ r x e. (x, e, refl, refl);
    idle = λ e he. absurd (omega arith);
    fresh = inl (refl, refl);
  }

  rests : (q : CreditQueue B) → ((p : ℕ) → p < 3 → Idle q p) → Rests q q
  rests q idle = record {
    counters = refl;
    size = refl;
    same = λ r x e. (x, e, refl, refl);
    idle = idle;
  }

  -- No buffer can go when the calls in flight have reached the global limit.
  full-NoRoom :
      (m : LocalMap (List B)) (c : Counters) (i : ℕ)
      → Covers m c
      → ltb_ℤ c.in_flight c.global_limit ≡ false
      → NoRoom m c i
  unfolding has_room
  full-NoRoom m c i covers full s at o =
      let ((used, eu), (limit, el)) = covers i s at o in
      elim s.value
        as (λ bs.
          elim bs as (λ _. Result Bool) [
            | [] ↦ ok false
            | b ∷ rest ↦ get c.in_flight_per_endpoint s.key >>= λ x.
                get c.per_endpoint_limit s.key >>= λ y.
                ok (ltb_ℤ x y && ltb_ℤ c.in_flight c.global_limit)
          ]
          ≡ ok false) [ [] ↦ refl | b ∷ bs ↦ rw (eu, el, full, and_false (ltb_ℤ used limit)) ]

  -- Nor when no buffer waits.
  empty-Idle :
      (q : CreditQueue B)
      → IsCreditQueue q
      → (q.size == 0) ≡ true
      → (p : ℕ) (inner : InnerCreditQueue B) → get_elem? q.credit_queue p ≡ some inner
      → (i : ℕ) → NoRoom inner.queue q.counters i
  empty-Idle q v e p inner at i =
      let le = total-le q.credit_queue p inner at in
      let r = v.ready p inner at in
      let nothing : q.size ≡ 0 = ground arith in
      empty-NoRoom inner q.counters (omega (arith, v.counted, r.queue.counted, r.bounded)) i

  -- `pop` always returns, and keeps the invariant. It returns a buffer if and only if some
  -- priority has an endpoint with a buffer and a free slot. The buffer is then the oldest of such
  -- an endpoint at the first such priority, in the cyclic order that begins with the priority whose
  -- turn it is; the call is counted, and the turn passes on once the priority has used up its
  -- weight. Otherwise the queues hold what they held, and no counter has changed.
  pub pop-Returns : (q : CreditQueue B) → IsCreditQueue q → Returns q (pop q)
  unfolding pop
  pop-Returns q v = elim (Bool-cases (q.size == 0)) [
    | inl e ↦ (none, q, rw e, rests q (λ p hp inner at i hi. empty-Idle q v e p inner at i), v)
    | inr e ↦ elim (Bool-cases (ltb_ℤ q.counters.in_flight q.counters.global_limit)) [
      | inl room ↦ rw (e, room) (loop-Returns q q 3 0 v.in_range refl (omega arith) (start q v))
      | inr full ↦ (
        none,
        q,
        rw (e, full),
        rests q (λ p hp inner at i hi.
            full-NoRoom inner.queue q.counters i (v.ready p inner at).covers full),
        v,
      )
    ]
  ]
