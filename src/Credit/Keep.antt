-- ===== src/Credit/Keep.antt =====
-- About `InnerCreditQueue::push` and `pop` and the invariant of the queue.
use roshanfer_sidecar.Base.{
  ℕ, ◌+◌, ◌%◌, ◌^◌, ◌<◌, ◌≡◌, ap, sym, ◌∙◌, List, [], ◌∷◌, ◌++◌, true, Option, none, some, Bytes,
  length, get_elem?, set, ok, arith, subst, ℕ_discrete, length-append, length-set, get_elem?-lt,
  get_elem?-set_self, get_elem?-set_ne, >>=-eq-ok, ok_inj, some_inj,
}
use roshanfer_sidecar.Base.Int.{ℤ}
use roshanfer_sidecar.FastMap.{Slot, LocalMap, occupied, get, update, probe}
use roshanfer_sidecar.FastMap.Lookup.{Finds, equals_value, update-Finds}
use roshanfer_sidecar.FastMap.Make.{IsPlaced}
use roshanfer_sidecar.FastMap.Iterator.{occupied_at}
use roshanfer_sidecar.Credit.{InnerCreditQueue, Counters, inner_push}
use roshanfer_sidecar.Credit.Inner.{Covers, Popped}
use roshanfer_sidecar.Credit.Pop.{IsQueue, queued, queued-set}

module _ {B : Type 0} where
  occupied_new :
      (s s' : Slot (List B)) (v : List B)
      → record s { value = v } ≡ s'
      → occupied s' ≡ true
      → occupied s ≡ true
  unfolding occupied
  occupied_new s s' v e o = ap (λ (x : Slot (List B)). occupied x) e ∙ o

  -- A write to a value leaves every key in its place.
  IsPlaced-set :
      (m : LocalMap (List B)) (i : ℕ) (s : Slot (List B)) (v : List B)
      → get_elem? m.slots i ≡ some s
      → IsPlaced m
      → IsPlaced (record m { slots = set m.slots i (record s { value = v }) })
  unfolding probe occupied
  IsPlaced-set m i s v at placed j s' at' o =
      let new : Slot (List B) = record s { value = v } in
      elim (ℕ_discrete i j) [
        | yes eq ↦
            let self = get_elem?-set_self m.slots i new (get_elem?-lt m.slots i s at) in
            let same : new ≡ s' =
              some_inj (sym self ∙ ap (get_elem? (set m.slots i new)) eq ∙ at') in
            let f : Finds m s.key i s = placed i s at (occupied_new s s' v same o) in
            subst (λ x. Finds (record m { slots = set m.slots i new }) x.key j x) same
              (record {
                index = f.index ∙ ap ok eq;
                slot = at' ∙ ap some (sym same);
                same = equals_value s v s.key ∙ f.same;
              })
        | no ne ↦
            let f : Finds m s'.key j s' =
              placed j s' (sym (get_elem?-set_ne m.slots i j new ne) ∙ at') o in
            record { index = f.index; slot = at'; same = f.same }
      ]

  occupied_at-set :
      (slots : List (Slot (List B))) (i j : ℕ) (s : Slot (List B)) (v : List B)
      → get_elem? slots i ≡ some s
      → occupied_at (set slots i (record s { value = v })) j ≡ occupied_at slots j
  unfolding occupied_at occupied
  occupied_at-set slots i j s v at = elim (ℕ_discrete i j) [
    | yes eq ↦
        ground
          (arith, get_elem?-lt slots i s at, get_elem?-set_self slots i (record s { value = v }))
    | no ne ↦ rw (get_elem?-set_ne slots i j (record s { value = v }) ne, occupied_at)
  ]

  -- Nor does it change which endpoints there are.
  pub Covers-set :
      (m : LocalMap (List B)) (c : Counters) (i : ℕ) (s : Slot (List B)) (v : List B)
      → get_elem? m.slots i ≡ some s
      → Covers m c
      → Covers (record m { slots = set m.slots i (record s { value = v }) }) c
  Covers-set m c i s v at covers j s' at' o =
      let new : Slot (List B) = record s { value = v } in
      elim (ℕ_discrete i j) [
        | yes eq ↦
            let self = get_elem?-set_self m.slots i new (get_elem?-lt m.slots i s at) in
            let same : new ≡ s' =
              some_inj (sym self ∙ ap (get_elem? (set m.slots i new)) eq ∙ at') in
            subst
              (λ (k : Bytes).
                ((used : ℤ) × (get c.in_flight_per_endpoint k ≡ ok used))
                × ((limit : ℤ) × (get c.per_endpoint_limit k ≡ ok limit)))
              (ap (λ (x : Slot (List B)). x.key) same) (covers i s at (occupied_new s s' v same o))
        | no ne ↦ covers j s' (sym (get_elem?-set_ne m.slots i j new ne) ∙ at') o
      ]

  IsQueue-set :
      (q q' : InnerCreditQueue B) (i : ℕ) (s : Slot (List B)) (v : List B)
      → IsQueue q
      → get_elem? q.queue.slots i ≡ some s
      → q'.queue ≡ record (q.queue) { slots = set q.queue.slots i (record s { value = v }) }
      → q'.it < length q.queue.slots
      → occupied_at q.queue.slots q'.it ≡ true
      → q'.size ≡ queued q'.queue.slots % 2 ^ 64
      → IsQueue q'
  IsQueue-set q q' i s v w at e it o n =
      let new : LocalMap (List B) = record (q.queue) {
        slots = set q.queue.slots i (record s { value = v });
      } in
      record {
        placed = subst IsPlaced (sym e) (IsPlaced-set q.queue i s v at w.placed);
        in_range =
            subst (λ (m : LocalMap (List B)). q'.it < length m.slots) (sym e)
              (omega (arith, length-set q.queue.slots i (record s { value = v })));
        at_endpoint =
            subst (λ (m : LocalMap (List B)). occupied_at m.slots q'.it ≡ true) (sym e)
              (occupied_at-set q.queue.slots i q'.it s v at ∙ o);
        counted = n;
      }

  -- `pop` keeps the invariant.
  pub Pops-IsQueue :
      (q : InnerCreditQueue B) (c : Counters) (b : Option B) (q' : InnerCreditQueue B)
      (c' : Counters)
      → IsQueue q
      → Popped q c (b, q', c')
      → q'.it < length q.queue.slots
      → occupied_at q.queue.slots q'.it ≡ true
      → queued q.queue.slots < 2 ^ 64
      → IsQueue q'
  Pops-IsQueue q c none q' c' v (e, es, _, _) it o small = record {
    placed = subst IsPlaced (sym e) v.placed;
    in_range = subst (λ (m : LocalMap (List B)). q'.it < length m.slots) (sym e) it;
    at_endpoint = subst (λ (m : LocalMap (List B)). occupied_at m.slots q'.it ≡ true) (sym e) o;
    counted = es ∙ v.counted ∙ ap (λ (m : LocalMap (List B)). queued m.slots % 2 ^ 64) (sym e);
  }
  Pops-IsQueue q c (some b) q' c' v t it o small =
      IsQueue-set q q' t.index t.slot t.rest v t.at t.queue it o (
        omega (
          arith,
          t.size,
          v.counted,
          ap (λ (m : LocalMap (List B)). queued m.slots) t.queue,
          queued-set q.queue.slots t.index t.slot (record (t.slot) { value = t.rest }) t.at,
          ap length t.front,
        ))

  -- `push` keeps it too, and puts the buffer at the back of its endpoint.
  pub inner_push-IsQueue :
      (q q' : InnerCreditQueue B) (b : B) (endpoint : Bytes)
      → IsQueue q
      → inner_push q b endpoint ≡ ok q'
      → IsQueue q' × (queued q'.queue.slots ≡ queued q.queue.slots + 1)
  unfolding inner_push
  inner_push-IsQueue q q' b endpoint v h =
      let (m, u, e) = >>=-eq-ok (update q.queue endpoint (λ bs. bs ++ b ∷ [])) _ h in
      let (i, s, f, e') = update-Finds q.queue m endpoint (λ bs. bs ++ b ∷ []) u in
      let new : List B = s.value ++ b ∷ [] in
      let more : queued m.slots ≡ queued q.queue.slots + 1 = omega (
        arith,
        ap (λ (x : LocalMap (List B)). queued x.slots) e',
        queued-set q.queue.slots i s (record s { value = new }) f.slot,
        length-append s.value (b ∷ []),
      ) in
      let pushed : InnerCreditQueue B = record q { queue = m; size = (q.size + 1) % 2 ^ 64 } in
      subst (λ x. IsQueue x × (queued x.queue.slots ≡ queued q.queue.slots + 1)) (ok_inj e)
        (
          IsQueue-set q pushed i s new v f.slot e' v.in_range v.at_endpoint
              (omega (arith, v.counted, more)),
          more,
        )
