-- ===== src/Credit/Pop.antt =====
-- The operations of `InnerCreditQueue` as a whole: its invariant, and what `push` and `pop` do.
use roshanfer_sidecar.Base.{
  ℕ, zero, suc, ◌+◌, ◌%◌, ◌^◌, ◌≤◌, ◌<◌, ◌≡◌, refl, ap, sym, inl, inr, List, [], ◌∷◌, true, Option,
  none, some, length, get_elem?, set, arith, Bool-cases, subst, ◌==◌,
}
use roshanfer_sidecar.FastMap.{Slot, slot_at}
use roshanfer_sidecar.FastMap.Built.{get_elem?_of_lt}
use roshanfer_sidecar.FastMap.Make.{IsPlaced}
use roshanfer_sidecar.FastMap.Iterator.{occupied_at, rot, rot-zero}
use roshanfer_sidecar.Credit.{InnerCreditQueue, Counters, has_room, inner_pop, inner_pop_loop}
use roshanfer_sidecar.Credit.Inner.{Covers, NoRoom, occupied_at-some}
use roshanfer_sidecar.Credit.Round.{Pops, loop-Pops}

module _ {B : Type 0} where
  -- How many buffers wait in the slots.
  abbrev pub queued : List (Slot (List B)) → ℕ
  queued [] = 0
  queued (s ∷ ss) = length s.value + queued ss

  pub queued-set :
      (slots : List (Slot (List B))) (i : ℕ) (s s' : Slot (List B))
      → get_elem? slots i ≡ some s
      → queued (set slots i s') + length s.value ≡ queued slots + length s'.value
  queued-set [] i s s' e = cc
  queued-set (x ∷ xs) zero s s' e =
      let same : length x.value ≡ length s.value =
        ground (arith, ap (λ (o : Option (Slot (List B))). o) e) in
      omega arith
  queued-set (x ∷ xs) (suc i) s s' e = omega (arith, queued-set xs i s s' e)

  pub queued-le :
      (slots : List (Slot (List B))) (i : ℕ) (s : Slot (List B))
      → get_elem? slots i ≡ some s
      → length s.value ≤ queued slots
  queued-le [] i s e = cc
  queued-le (x ∷ xs) zero s e =
      let same : length x.value ≡ length s.value =
        ground (arith, ap (λ (o : Option (Slot (List B))). o) e) in
      omega arith
  queued-le (x ∷ xs) (suc i) s e = omega (arith, queued-le xs i s e)

  -- The iterator stands at an endpoint, and `_size` counts the buffers (modulo the word).
  pub record IsQueue (q : InnerCreditQueue B) : Type 0 where
    pub placed : IsPlaced q.queue
    pub in_range : q.it < length q.queue.slots
    pub at_endpoint : occupied_at q.queue.slots q.it ≡ true
    pub counted : q.size ≡ queued q.queue.slots % 2 ^ 64

  pub empty-NoRoom :
      (q : InnerCreditQueue B) (c : Counters)
      → queued q.queue.slots ≡ 0
      → (i : ℕ) → NoRoom q.queue c i
  unfolding has_room
  empty-NoRoom q c e i s at o =
      let le = queued-le q.queue.slots i s at in
      let none_left : length s.value ≡ 0 = omega arith in ground arith

  -- `pop` always returns. It returns a buffer whenever some endpoint has one and a slot to spare,
  -- and a null pointer otherwise; then only the iterator has moved.
  pub inner_pop-Pops :
      (q : InnerCreditQueue B) (c : Counters)
      → IsQueue q
      → Covers q.queue c
      → queued q.queue.slots < 2 ^ 64
      → Pops q c (inner_pop q c)
  unfolding inner_pop slot_at
  inner_pop-Pops q c v covers small = elim (Bool-cases (q.size == 0)) [
    | inl e ↦
        let nothing : queued q.queue.slots ≡ 0 = ground (arith, v.counted) in
        (
          none,
          q,
          c,
          rw e,
          (refl, refl, refl, λ i hi. empty-NoRoom q c nothing i),
          v.in_range,
          v.at_endpoint,
        )
    | inr e ↦
        let n : ℕ = length q.queue.slots in
        let (s, at) = get_elem?_of_lt q.queue.slots q.it v.in_range in
        let taken = occupied_at-some q.queue.slots q.it s at v.at_endpoint in
        let start : rot n q.it 0 ≡ q.it = rot-zero n q.it v.in_range in
        rw (e, at)
          (subst (λ x. Pops q c (inner_pop_loop n s.key (record q { it = x }) c)) start
            (loop-Pops q.queue c v.placed covers q.size q.it s at taken n 0 (omega arith)
              (omega arith) (λ d hd. absurd (omega arith))
              (subst (λ x. occupied_at q.queue.slots x ≡ true) (sym start) v.at_endpoint)))
  ]
