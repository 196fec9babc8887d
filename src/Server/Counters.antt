-- ===== src/Server/Counters.antt =====
-- About the changes of the counters and limits, and the invariant of the credit queue.
use roshanfer_sidecar.Base.{
  ◌≡◌, refl, ◌∙◌, inl, inr, List, Bytes, bytes_eq, ok, Bool-cases, >>=-eq-ok, ok_inj, subst,
}
use roshanfer_sidecar.Base.Int.{ℤ, pos, ◌+ℤ◌, ◌-ℤ◌}
use roshanfer_sidecar.FastMap.{LocalMap, get, update, set_value}
use roshanfer_sidecar.FastMap.Lookup.{get-update}
use roshanfer_sidecar.Credit.{
  CreditQueue, Counters, update_endpoint_limit, update_global_limit, decrement_in_flight,
  increment_in_flight,
}
use roshanfer_sidecar.Credit.Inner.{Covers}
use roshanfer_sidecar.Credit.Serve.{IsCreditQueue}

-- Every key that reads still reads after a write.
get-stays :
    (m m' : LocalMap ℤ) (k j : Bytes) (f : ℤ → ℤ) (v : ℤ)
    → update m k f ≡ ok m'
    → get m j ≡ ok v
    → (w : ℤ) × (get m' j ≡ ok w)
get-stays m m' k j f v u known =
    let (x, _, e) = get-update m m' k j f u in
    elim (Bool-cases (bytes_eq k j)) [
      | inl same ↦ (f x, e ∙ rw same)
      | inr other ↦ (v, e ∙ rw other known)
    ]

module _ {B : Type 0} where
  -- Counters that still know every endpoint keep the invariant.
  pub counters-IsCreditQueue :
      (q : CreditQueue B) (c : Counters)
      → IsCreditQueue q
      → ((m : LocalMap (List B)) → Covers m q.counters → Covers m c)
      → IsCreditQueue (record q { counters = c })
  counters-IsCreditQueue q c v keep = record {
    priorities = v.priorities;
    in_range = v.in_range;
    ready = λ p inner e. record {
      queue = (v.ready p inner e).queue;
      covers = keep inner.queue (v.ready p inner e).covers;
      bounded = (v.ready p inner e).bounded;
    };
    weight = v.weight;
    weighted = v.weighted;
    some_rounds = v.some_rounds;
    few_rounds = v.few_rounds;
    counted = v.counted;
    bounded = v.bounded;
  }

  pub update_global_limit-IsCreditQueue :
      (q : CreditQueue B) (n : ℤ) → IsCreditQueue q → IsCreditQueue (update_global_limit q n)
  unfolding update_global_limit
  update_global_limit-IsCreditQueue q n v =
      counters-IsCreditQueue q (record (q.counters) { global_limit = n }) v (λ m c. c)

  pub update_endpoint_limit-IsCreditQueue :
      (q q' : CreditQueue B) (n : ℤ) (api : Bytes)
      → IsCreditQueue q
      → update_endpoint_limit q n api ≡ ok q'
      → IsCreditQueue q'
        × (q'.counters.in_flight ≡ q.counters.in_flight)
        × (q'.size ≡ q.size)
        × (q'.credit_queue ≡ q.credit_queue)
  unfolding update_endpoint_limit set_value
  update_endpoint_limit-IsCreditQueue q q' n api v h =
      let c = q.counters in
      let (m, u, e) = >>=-eq-ok (update c.per_endpoint_limit api (λ _. n)) _ h in
      subst
        (λ (x : CreditQueue B).
          IsCreditQueue x
          × (x.counters.in_flight ≡ c.in_flight)
          × (x.size ≡ q.size)
          × (x.credit_queue ≡ q.credit_queue))
        (ok_inj e)
        (
          counters-IsCreditQueue q (record c { per_endpoint_limit = m }) v
              (λ x covers i s at o.
                let (used, (limit, known)) = covers i s at o in
                (used, get-stays c.per_endpoint_limit m api s.key (λ _. n) limit u known)),
          refl,
          refl,
          refl,
        )

  -- A change of the count of one endpoint, and of that of all.
  recount-IsCreditQueue :
      (q : CreditQueue B) (m : LocalMap ℤ) (api : Bytes) (f : ℤ → ℤ) (n : ℤ)
      → IsCreditQueue q
      → update q.counters.in_flight_per_endpoint api f ≡ ok m
      → IsCreditQueue (record q {
        counters = record (q.counters) { in_flight_per_endpoint = m; in_flight = n };
      })
  recount-IsCreditQueue q m api f n v u =
      let c = q.counters in
      counters-IsCreditQueue q (record c { in_flight_per_endpoint = m; in_flight = n }) v
        (λ x covers i s at o.
          let ((used, known), limit) = covers i s at o in
          (get-stays c.in_flight_per_endpoint m api s.key f used u known, limit))

  pub decrement_in_flight-IsCreditQueue :
      (q q' : CreditQueue B) (api : Bytes)
      → IsCreditQueue q
      → decrement_in_flight q api ≡ ok q'
      → IsCreditQueue q' × (q'.counters.in_flight ≡ q.counters.in_flight -ℤ pos 1)
  unfolding decrement_in_flight
  decrement_in_flight-IsCreditQueue q q' api v h =
      let c = q.counters in
      let (m, u, e) = >>=-eq-ok (update c.in_flight_per_endpoint api (λ n. n -ℤ pos 1)) _ h in
      subst
        (λ (x : CreditQueue B).
          IsCreditQueue x × (x.counters.in_flight ≡ q.counters.in_flight -ℤ pos 1))
        (ok_inj e)
        (recount-IsCreditQueue q m api (λ n. n -ℤ pos 1) (c.in_flight -ℤ pos 1) v u, refl)

  pub increment_in_flight-IsCreditQueue :
      (q q' : CreditQueue B) (api : Bytes)
      → IsCreditQueue q
      → increment_in_flight q api ≡ ok q'
      → IsCreditQueue q' × (q'.counters.in_flight ≡ q.counters.in_flight +ℤ pos 1)
  unfolding increment_in_flight
  increment_in_flight-IsCreditQueue q q' api v h =
      let c = q.counters in
      let (m, u, e) = >>=-eq-ok (update c.in_flight_per_endpoint api (λ n. n +ℤ pos 1)) _ h in
      subst
        (λ (x : CreditQueue B).
          IsCreditQueue x × (x.counters.in_flight ≡ q.counters.in_flight +ℤ pos 1))
        (ok_inj e)
        (recount-IsCreditQueue q m api (λ n. n +ℤ pos 1) (c.in_flight +ℤ pos 1) v u, refl)
