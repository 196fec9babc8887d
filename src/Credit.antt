-- ===== src/Credit.antt =====
-- src/credit_queue.cc and include/credit_queue.hpp: the Credit Grants that wait for a slot, one
-- queue for each priority and endpoint, and the counters that say when a slot is free.
-- The spin lock makes each operation one step; `_size` is atomic beside it.
pub mod Inner
pub mod Round
pub mod Pop
pub mod Keep
pub mod Serve
pub mod Turns
pub mod Whole
pub mod Push
pub mod Example
mod Tests
use roshanfer_sidecar.Base.{
  ℕ, zero, suc, ◌+◌, ◌-◌, ◌*◌, ◌%◌, ◌^◌, List, [], ◌∷◌, ◌++◌, Bool, true, false, ◌&&◌, not, Option,
  none, some, Bytes, length, get_elem?, set, ltb, ◌==◌, if◌then◌else◌, bytes_eq, Fault,
  out_of_range, no_fuel, undefined, Result, ok, err, ◌>>=◌, ◌>>◌, or_fault,
}
use roshanfer_sidecar.Base.Int.{ℤ, pos, ◌+ℤ◌, ◌-ℤ◌, ltb_ℤ}
use roshanfer_sidecar.FastMap.{LocalMap, Slot, get, update, set_value, make, slot_at}
use roshanfer_sidecar.FastMap.Iterator.{begin_of, next_of}

-- `InnerCreditQueue`. A grant buffer is only moved, so it may be of any type.
pub record InnerCreditQueue (B : Type 0) : Type 0 where
  pub queue : LocalMap (List B)
  pub it : ℕ
  pub size : ℕ

-- The counters that `pop` takes by reference. An int32_t that would overflow is undefined in the
-- source; here it is an integer.
pub record Counters : Type 0 where
  pub in_flight : ℤ
  pub global_limit : ℤ
  pub in_flight_per_endpoint : LocalMap ℤ
  pub per_endpoint_limit : LocalMap ℤ

module _ {B : Type 0} where
  -- The constructor of `InnerCreditQueue`.
  unfoldable pub inner_init : List Bytes → Result (InnerCreditQueue B)
  inner_init endpoints = do
    m ← make [] endpoints
    ok (record { queue = m; it = begin_of m; size = 0 })

  unfoldable pub inner_push : InnerCreditQueue B → B → Bytes → Result (InnerCreditQueue B)
  inner_push q b endpoint = do
    m ← update q.queue endpoint (λ bs. bs ++ b ∷ [])
    ok (record q { queue = m; size = (q.size + 1) % 2 ^ 64 })

  -- The test in the loop of `InnerCreditQueue::pop`. It looks at the counters only if the
  -- endpoint has a buffer.
  unfoldable pub has_room : Counters → Slot (List B) → Result Bool
  has_room c s = elim s.value [
    | [] ↦ ok false
    | b ∷ bs ↦ do
      used ← get c.in_flight_per_endpoint s.key
      limit ← get c.per_endpoint_limit s.key
      ok (ltb_ℤ used limit && ltb_ℤ c.in_flight c.global_limit)
  ]

  -- The body of that test: the counters go up, and the oldest buffer of slot `q.it` leaves.
  unfoldable pub take_front :
      InnerCreditQueue B
      → Counters
      → Slot (List B)
      → Result (Option B × InnerCreditQueue B × Counters)
  take_front q c s = elim s.value [
    | [] ↦ err undefined
    | b ∷ bs ↦ do
      used ← update c.in_flight_per_endpoint s.key (λ n. n +ℤ pos 1)
      let m = record (q.queue) { slots = set q.queue.slots q.it (record s { value = bs }) }
      ok (
        some b,
        record { queue = m; it = next_of q.queue q.it; size = (q.size + 2 ^ 64 - 1) % 2 ^ 64 },
        record c { in_flight_per_endpoint = used; in_flight = c.in_flight +ℤ pos 1 },
      )
  ]

  -- The loop of `InnerCreditQueue::pop`. It ends when the iterator is back at the endpoint it
  -- began with.
  unfoldable pub inner_pop_loop :
      ℕ → Bytes → InnerCreditQueue B → Counters → Result (Option B × InnerCreditQueue B × Counters)
  inner_pop_loop zero init_endpoint q c = err no_fuel
  inner_pop_loop (suc n) init_endpoint q c =
      let q' = record q { it = next_of q.queue q.it } in
      let rest = inner_pop_loop n init_endpoint q' c in
      slot_at q.queue q.it >>= λ s. has_room c s >>= λ room.
      if room
      then take_front q c s
      else (slot_at q'.queue q'.it >>= λ s'.
          if bytes_eq s'.key init_endpoint then ok (none, q', c) else rest)

  -- `InnerCreditQueue::pop`, with a round for each slot.
  unfoldable pub inner_pop :
      InnerCreditQueue B → Counters → Result (Option B × InnerCreditQueue B × Counters)
  inner_pop q c =
      if q.size == 0
      then ok (none, q, c)
      else (slot_at q.queue q.it >>= λ s. inner_pop_loop (length q.queue.slots) s.key q c)

-- `PriorityCount`
abbrev pub priority_count : ℕ
priority_count = 3

abbrev pub weights : List ℕ
weights = 16 ∷ 4 ∷ 1 ∷ []

pub record CreditQueue (B : Type 0) : Type 0 where
  pub credit_queue : List (InnerCreditQueue B)
  pub it : ℕ
  pub remaining_rounds : ℕ
  pub size : ℕ
  pub counters : Counters

-- The map of endpoints with `v` at each of them: what the loops of the constructor set.
unfoldable pub set_all : List Bytes → ℤ → LocalMap ℤ → Result (LocalMap ℤ)
set_all [] v m = ok m
set_all (k ∷ ks) v m = set_value m k v >>= set_all ks v

-- `INT_MAX`
abbrev pub int_max : ℤ
int_max = pos (2 ^ 31 - 1)

module _ {B : Type 0} where
  -- The constructor of `CreditQueue`. `leaf` is `config.routing.size() == 0`, `max_limit` is
  -- `cpu_count * 2 + config.extra_limit`, and `leaf_limit` the value of the expression over floats
  -- that gives a leaf its global limit.
  unfoldable pub init : List Bytes → Bool → ℤ → ℤ → Result (CreditQueue B)
  init endpoints leaf max_limit leaf_limit = do
    high ← inner_init endpoints
    middle ← inner_init endpoints
    low ← inner_init endpoints
    used ← make (pos 0) endpoints
    limits ← make (pos 0) endpoints
    used' ← set_all endpoints (pos 0) used
    limits' ← set_all endpoints max_limit limits
    ok (record {
      credit_queue = high ∷ middle ∷ low ∷ [];
      it = 0;
      remaining_rounds = 16;
      size = 0;
      counters = record {
        in_flight = pos 0;
        global_limit = if leaf then leaf_limit else int_max;
        in_flight_per_endpoint = used';
        per_endpoint_limit = limits';
      };
    })

  -- `credit_queue.at((size_t)priority)` throws for a priority that has no queue.
  unfoldable pub push : CreditQueue B → B → Bytes → ℕ → Result (CreditQueue B)
  push q b endpoint priority = do
    inner ← or_fault (get_elem? q.credit_queue priority) out_of_range
    inner' ← inner_push inner b endpoint
    ok (record q {
      credit_queue = set q.credit_queue priority inner';
      size = (q.size + 1) % 2 ^ 64;
    })

  unfoldable pub update_endpoint_limit : CreditQueue B → ℤ → Bytes → Result (CreditQueue B)
  update_endpoint_limit q limit api = do
    limits ← set_value q.counters.per_endpoint_limit api limit
    ok (record q { counters = record (q.counters) { per_endpoint_limit = limits } })

  unfoldable pub update_global_limit : CreditQueue B → ℤ → CreditQueue B
  update_global_limit q limit = record q { counters = record (q.counters) { global_limit = limit } }

  -- `it = (it + 1) % PriorityCount; remaining_rounds = weights.at(it)`
  unfoldable pub next_priority : CreditQueue B → Result (CreditQueue B)
  next_priority q = do
    let it' = (q.it + 1) % priority_count
    w ← or_fault (get_elem? weights it') out_of_range
    ok (record q { it = it'; remaining_rounds = w })

  -- A buffer was found at priority `q.it`.
  unfoldable pub served : CreditQueue B → B → Result (Option B × CreditQueue B)
  served q b = do
    let q' = record q {
      remaining_rounds = (q.remaining_rounds + 2 ^ 64 - 1) % 2 ^ 64;
      size = (q.size + 2 ^ 64 - 1) % 2 ^ 64;
    }
    q'' ← (if q'.remaining_rounds == 0 then next_priority q' else ok q')
    ok (some b, q'')

  -- One look at the queue of priority `q.it`.
  unfoldable pub try_priority : CreditQueue B → Result (Option B × CreditQueue B)
  try_priority q = do
    inner ← or_fault (get_elem? q.credit_queue q.it) out_of_range
    (b, inner', c) ← inner_pop inner q.counters
    ok (b, record q { credit_queue = set q.credit_queue q.it inner'; counters = c })

  -- The loop of `CreditQueue::pop`.
  unfoldable pub pop_loop : ℕ → ℕ → CreditQueue B → Result (Option B × CreditQueue B)
  pop_loop zero init_index q = err no_fuel
  pop_loop (suc n) init_index q = try_priority q >>= λ (found, q'). elim found [
    | some b ↦ served q' b
    | none ↦ next_priority q' >>= λ q''.
        let rest = pop_loop n init_index q'' in
        if q''.it == init_index then ok (none, q'') else rest
  ]

  -- `CreditQueue::pop`, with a round for each priority.
  unfoldable pub pop : CreditQueue B → Result (Option B × CreditQueue B)
  pop q =
      if q.size == 0
      then ok (none, q)
      else if not (ltb_ℤ q.counters.in_flight q.counters.global_limit)
      then ok (none, q)
      else pop_loop priority_count q.it q

  unfoldable pub increment_in_flight : CreditQueue B → Bytes → Result (CreditQueue B)
  increment_in_flight q api = do
    used ← update q.counters.in_flight_per_endpoint api (λ n. n +ℤ pos 1)
    ok (record q {
      counters = record (q.counters) {
        in_flight_per_endpoint = used;
        in_flight = q.counters.in_flight +ℤ pos 1;
      };
    })

  unfoldable pub decrement_in_flight : CreditQueue B → Bytes → Result (CreditQueue B)
  decrement_in_flight q api = do
    used ← update q.counters.in_flight_per_endpoint api (λ n. n -ℤ pos 1)
    ok (record q {
      counters = record (q.counters) {
        in_flight_per_endpoint = used;
        in_flight = q.counters.in_flight -ℤ pos 1;
      };
    })
