-- ===== src/Credit/Example.antt =====
-- Small credit queues of one endpoint, for the tests.
use roshanfer_sidecar.Base.{
  ℕ, zero, suc, ◌^◌, ◌<◌, ◌≡◌, refl, List, [], ◌∷◌, some, Bytes, get_elem?, ok, arith, some_inj,
  subst, length,
}
use roshanfer_sidecar.Base.Int.{ℤ, pos}
use roshanfer_sidecar.FastMap.{Slot, LocalMap, find_ptr, occupied, get, probe}
use roshanfer_sidecar.FastMap.Lookup.{Finds}
use roshanfer_sidecar.FastMap.Iterator.{occupied_at}
use roshanfer_sidecar.FastMap.Make.{IsPlaced}
use roshanfer_sidecar.Credit.{InnerCreditQueue, Counters, CreditQueue}
use roshanfer_sidecar.Credit.Inner.{Covers}
use roshanfer_sidecar.Credit.Serve.{IsReady, IsCreditQueue}

-- The map of one endpoint, "a".
abbrev pub key_a : Bytes
key_a = 97 ∷ []

abbrev pub one_slot : {T : Type 0} → T → LocalMap T
one_slot v = record {
  slots = record { key = key_a; len = 1; fp = 0; value = v } ∷ [];
  seed = 0;
  size = 1;
  mask = 0;
}

one_slot-IsPlaced : {T : Type 0} (v : T) → IsPlaced (one_slot v)
unfolding probe roshanfer_sidecar.FastMap.Hash.fnv1a64 roshanfer_sidecar.FastMap.equals
one_slot-IsPlaced v zero s at o =
    subst (λ x. Finds (one_slot v) x.key 0 x) (some_inj at)
      (record { index = refl; slot = refl; same = refl })
one_slot-IsPlaced v (suc i) s at o = cc

-- The queue of one priority, with `bs` waiting.
abbrev pub inner_of : {B : Type 0} → List B → ℕ → InnerCreditQueue B
inner_of bs n = record { queue = one_slot bs; it = 0; size = n }

abbrev pub counters : Counters
counters = record {
  in_flight = pos 0;
  global_limit = pos 4;
  in_flight_per_endpoint = one_slot (pos 0);
  per_endpoint_limit = one_slot (pos 2);
}

-- A credit queue in which `bs` wait at priority 1, and none of them is in flight.
abbrev pub queue_of : {B : Type 0} → List B → CreditQueue B
queue_of bs = record {
  credit_queue = inner_of [] 0 ∷ inner_of bs (length bs) ∷ inner_of [] 0 ∷ [];
  it = 0;
  remaining_rounds = 16;
  size = length bs;
  counters = counters;
}

get_a : {T : Type 0} (v : T) → get (one_slot v) key_a ≡ ok v
unfolding get find_ptr probe roshanfer_sidecar.FastMap.slot_at
    roshanfer_sidecar.FastMap.Hash.fnv1a64 roshanfer_sidecar.FastMap.equals
get_a v = refl

pub one_slot-Covers : {B : Type 0} (bs : List B) → Covers (one_slot bs) counters
one_slot-Covers {B = B} bs zero s at o =
    subst
      (λ (x : Slot (List B)).
        ((used : ℤ) × (get counters.in_flight_per_endpoint x.key ≡ ok used))
        × ((limit : ℤ) × (get counters.per_endpoint_limit x.key ≡ ok limit)))
      (some_inj at) ((pos 0, get_a (pos 0)), (pos 2, get_a (pos 2)))
one_slot-Covers bs (suc i) s at o = cc

pub inner_of-IsReady :
    {B : Type 0} (bs : List B) (n : ℕ)
    → n ≡ length bs
    → n < 2 ^ 64
    → IsReady (inner_of bs n) counters
unfolding occupied_at occupied
inner_of-IsReady bs n e small = record {
  queue = record {
    placed = one_slot-IsPlaced bs;
    in_range = omega arith;
    at_endpoint = refl;
    counted = omega arith;
  };
  covers = one_slot-Covers bs;
  bounded = omega arith;
}

queue_of-IsReady :
    {B : Type 0} (bs : List B)
    → length bs < 2 ^ 64
    → (p : ℕ) (inner : InnerCreditQueue B) → get_elem? (queue_of bs).credit_queue p ≡ some inner
    → IsReady inner counters
queue_of-IsReady bs h zero inner e =
    subst (λ x. IsReady x counters) (some_inj e) (inner_of-IsReady [] 0 refl (omega arith))
queue_of-IsReady bs h (suc zero) inner e =
    subst (λ x. IsReady x counters) (some_inj e) (inner_of-IsReady bs (length bs) refl h)
queue_of-IsReady bs h (suc (suc zero)) inner e =
    subst (λ x. IsReady x counters) (some_inj e) (inner_of-IsReady [] 0 refl (omega arith))
queue_of-IsReady bs h (suc (suc (suc p))) inner e = cc

pub queue_of-IsCreditQueue :
    {B : Type 0} (bs : List B) → length bs < 2 ^ 64 → IsCreditQueue (queue_of bs)
queue_of-IsCreditQueue bs h = record {
  priorities = refl;
  in_range = omega arith;
  ready = queue_of-IsReady bs h;
  weight = 16;
  weighted = refl;
  some_rounds = omega arith;
  few_rounds = omega arith;
  counted = omega arith;
  bounded = omega arith;
}
