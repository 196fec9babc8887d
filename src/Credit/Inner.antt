-- ===== src/Credit/Inner.antt =====
-- About the scan of the endpoints in `InnerCreditQueue::pop`.
use roshanfer_sidecar.Base.{
  ℕ, ◌+◌, ◌-◌, ◌%◌, ◌^◌, ◌<◌, ◌≡◌, refl, ◌⊎◌, List, ◌∷◌, true, false, Option, none, some, length,
  get_elem?, set, ok, arith,
}
use roshanfer_sidecar.Base.Int.{ℤ, pos, ◌+ℤ◌}
use roshanfer_sidecar.FastMap.{Slot, LocalMap, occupied, get, update}
use roshanfer_sidecar.FastMap.Lookup.{update_of_get}
use roshanfer_sidecar.FastMap.Iterator.{occupied_at, next_of}
use roshanfer_sidecar.Credit.{InnerCreditQueue, Counters, has_room, take_front}

module _ {B : Type 0} where
  -- Every endpoint of the queue has its two counters.
  abbrev pub Covers : LocalMap (List B) → Counters → Type 0
  Covers m c =
      (i : ℕ) (s : Slot (List B))
      → get_elem? m.slots i ≡ some s
      → occupied s ≡ true
      → ((used : ℤ) × (get c.in_flight_per_endpoint s.key ≡ ok used))
        × ((limit : ℤ) × (get c.per_endpoint_limit s.key ≡ ok limit))

  -- No endpoint at this index has a buffer that could go.
  abbrev pub NoRoom : LocalMap (List B) → Counters → ℕ → Type 0
  NoRoom m c i =
      (s : Slot (List B))
      → get_elem? m.slots i ≡ some s
      → occupied s ≡ true
      → has_room c s ≡ ok false

  -- What a successful `pop` did: the front buffer of an endpoint with room left, and the counters
  -- of that endpoint and of all went up by one.
  pub record Took (q : InnerCreditQueue B) (c : Counters) (b : B) (q' : InnerCreditQueue B)
      (c' : Counters) : Type 0 where
    pub index : ℕ
    pub slot : Slot (List B)
    pub rest : List B
    pub used : LocalMap ℤ
    pub at : get_elem? q.queue.slots index ≡ some slot
    pub taken : occupied slot ≡ true
    pub front : slot.value ≡ b ∷ rest
    pub room : has_room c slot ≡ ok true
    pub counted : update c.in_flight_per_endpoint slot.key (λ n. n +ℤ pos 1) ≡ ok used
    pub queue :
        q'.queue
        ≡ record (q.queue) { slots = set q.queue.slots index (record slot { value = rest }) }
    pub size : q'.size ≡ (q.size + 2 ^ 64 - 1) % 2 ^ 64
    pub counters : c' ≡ record c { in_flight_per_endpoint = used; in_flight = c.in_flight +ℤ pos 1 }

  -- The two outcomes of `pop`. Nothing but the iterator moves when it finds no buffer.
  abbrev pub Popped :
      InnerCreditQueue B → Counters → Option B × InnerCreditQueue B × Counters → Type 0
  Popped q c (none, q', c') =
      (q'.queue ≡ q.queue)
      × (q'.size ≡ q.size)
      × (c' ≡ c)
      × ((i : ℕ) → i < length q.queue.slots → NoRoom q.queue c i)
  Popped q c (some b, q', c') = Took q c b q' c'

  pub occupied_at-some :
      (slots : List (Slot (List B))) (i : ℕ) (s : Slot (List B))
      → get_elem? slots i ≡ some s
      → occupied_at slots i ≡ true
      → occupied s ≡ true
  unfolding occupied_at
  occupied_at-some slots i s at o = ground arith

  pub occupied_at-of :
      (slots : List (Slot (List B))) (i : ℕ) (s : Slot (List B))
      → get_elem? slots i ≡ some s
      → occupied s ≡ true
      → occupied_at slots i ≡ true
  unfolding occupied_at
  occupied_at-of slots i s at o = ground arith

  -- With its counters at hand, the test of the loop has an answer.
  pub has_room_total :
      (m : LocalMap (List B)) (c : Counters) (i : ℕ) (s : Slot (List B))
      → Covers m c
      → get_elem? m.slots i ≡ some s
      → occupied s ≡ true
      → (has_room c s ≡ ok true) ⊎ (has_room c s ≡ ok false)
  unfolding has_room
  has_room_total m c i s covers at o = ground (arith, covers i s at o)

  has_room_nonempty :
      (c : Counters) (s : Slot (List B))
      → has_room c s ≡ ok true
      → (b : B) × (bs : List B) × (s.value ≡ b ∷ bs)
  unfolding has_room
  has_room_nonempty c s h = ground arith

  pub take_front-Took :
      (q : InnerCreditQueue B) (c : Counters) (s : Slot (List B))
      → Covers q.queue c
      → get_elem? q.queue.slots q.it ≡ some s
      → occupied s ≡ true
      → has_room c s ≡ ok true
      → (b : B) × (q' : InnerCreditQueue B) × (c' : Counters) × (take_front q c s
          ≡ ok (some b, q', c'))
        × Took q c b q' c'
        × (q'.it ≡ next_of q.queue q.it)
  unfolding take_front
  take_front-Took q c s covers at o room =
      let (b, bs, e) = has_room_nonempty c s room in
      let ((v, known), _) = covers q.it s at o in
      let (used, u) = update_of_get c.in_flight_per_endpoint s.key v (λ n. n +ℤ pos 1) known in
      (
        b,
        _,
        _,
        rw (e, u),
        record {
          index = q.it;
          slot = s;
          rest = bs;
          used = used;
          at = at;
          taken = o;
          front = e;
          room = room;
          counted = u;
          queue = refl;
          size = refl;
          counters = refl;
        },
        refl,
      )
