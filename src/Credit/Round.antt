-- ===== src/Credit/Round.antt =====
-- The loop of `InnerCreditQueue::pop`: one round of the endpoints, from the one it stands at.
use roshanfer_sidecar.Base.{
  ℕ, zero, suc, ◌+◌, ◌-◌, ◌≤◌, ◌<◌, ◌≡◌, refl, ap, sym, ◌∙◌, inl, inr, List, true, false, Option,
  none, some, Bytes, length, get_elem?, bytes_eq, bytes_eq_sound, bytes_eq_refl, if◌then◌else◌,
  Result, ok, arith, Bool-cases, Option-cases, subst, ℕ_discrete, dec_lt, dec_le, ok_inj,
  get_elem?-lt,
}
use roshanfer_sidecar.FastMap.{Slot, LocalMap, occupied, slot_at, probe}
use roshanfer_sidecar.FastMap.Lookup.{Finds}
use roshanfer_sidecar.FastMap.Built.{get_elem?_of_lt}
use roshanfer_sidecar.FastMap.Make.{IsPlaced}
use roshanfer_sidecar.FastMap.Iterator.{
  occupied_at, next_of, rot, rot-rot, rot-full, rot_to, Advances, next_of-Advances,
}
use roshanfer_sidecar.Credit.{InnerCreditQueue, Counters, has_room, take_front, inner_pop_loop}
use roshanfer_sidecar.Credit.Inner.{
  Covers, NoRoom, Took, Popped, occupied_at-some, occupied_at-of, has_room_total, take_front-Took,
}

rot_back : (n i e : ℕ) → i < n → e ≤ n → 0 < e → rot n i e ≡ i → e ≡ n
rot_back n i e hi he pos back = ground arith

module _ {B : Type 0} where
  slot_at-some :
      (m : LocalMap (List B)) (i : ℕ) (s : Slot (List B))
      → get_elem? m.slots i ≡ some s
      → slot_at m i ≡ ok s
  unfolding slot_at
  slot_at-some m i s e = rw e

  -- Two taken slots with one key are one slot.
  placed_unique :
      (m : LocalMap (List B)) (i j : ℕ) (s s' : Slot (List B))
      → IsPlaced m
      → get_elem? m.slots i ≡ some s
      → get_elem? m.slots j ≡ some s'
      → occupied s ≡ true
      → occupied s' ≡ true
      → s'.key ≡ s.key
      → j ≡ i
  placed_unique m i j s s' placed at at' o o' e =
      let f : Finds m s.key i s = placed i s at o in
      let f' : Finds m s'.key j s' = placed j s' at' o' in
      ok_inj (sym f'.index ∙ ap (probe m) e ∙ f.index)

  -- One round of the loop where slot `q.it` has no room.
  loop_step :
      (fuel : ℕ) (key : Bytes) (q : InnerCreditQueue B) (c : Counters) (s s' : Slot (List B))
      → get_elem? q.queue.slots q.it ≡ some s
      → has_room c s ≡ ok false
      → get_elem? q.queue.slots (next_of q.queue q.it) ≡ some s'
      → let q' = record q { it = next_of q.queue q.it } in
        inner_pop_loop (suc fuel) key q c
        ≡ (if bytes_eq s'.key key then ok (none, q', c) else inner_pop_loop fuel key q' c)
  unfolding inner_pop_loop slot_at
  loop_step fuel key q c s s' at no_room at' = rw (at, no_room, at')

  loop_take :
      (fuel : ℕ) (key : Bytes) (q : InnerCreditQueue B) (c : Counters) (s : Slot (List B))
      → get_elem? q.queue.slots q.it ≡ some s
      → has_room c s ≡ ok true
      → inner_pop_loop (suc fuel) key q c ≡ take_front q c s
  unfolding inner_pop_loop slot_at
  loop_take fuel key q c s at room = rw (at, room)

  -- The result of a call, where the iterator stands afterwards included.
  abbrev pub Pops :
      InnerCreditQueue B → Counters → Result (Option B × InnerCreditQueue B × Counters) → Type 0
  Pops q c r =
      (b : Option B) × (q' : InnerCreditQueue B) × (c' : Counters) × (r ≡ ok (b, q', c'))
      × Popped q c (b, q', c')
      × (q'.it < length q.queue.slots)
      × (occupied_at q.queue.slots q'.it ≡ true)

  advance :
      (m : LocalMap (List B)) (i : ℕ)
      → i < length m.slots
      → occupied_at m.slots i ≡ true
      → let j = next_of m i in
        (s : Slot (List B)) × (get_elem? m.slots j ≡ some s)
        × (occupied s ≡ true)
        × (j < length m.slots)
  unfolding occupied_at
  advance m i hi o =
      let j : ℕ = next_of m i in
      let adv : Advances m.slots i j = next_of-Advances m i hi o in
      elim (Option-cases (get_elem? m.slots j)) [
        | inl e ↦ absurd (ground (arith, e, adv.taken))
        | inr (s, e) ↦ (s, e, ground (arith, e, adv.taken), get_elem?-lt m.slots j s e)
      ]

  -- A free slot has no room, whatever the counters.
  free-NoRoom :
      (m : LocalMap (List B)) (c : Counters) (i : ℕ) → occupied_at m.slots i ≡ false → NoRoom m c i
  free-NoRoom m c i free s at o =
      let taken = occupied_at-of m.slots i s at o in ground (arith, free, taken)

  -- Going on leaves the places between without room.
  NoRoom-advance :
      (m : LocalMap (List B)) (c : Counters) (i₀ d : ℕ) (s : Slot (List B)) (p : ℕ)
      → i₀ < length m.slots
      → d + p ≤ length m.slots
      → let n = length m.slots in
        ((e : ℕ) → e < d → NoRoom m c (rot n i₀ e))
        → get_elem? m.slots (rot n i₀ d) ≡ some s
        → has_room c s ≡ ok false
        → ((e : ℕ) → 0 < e → e < p → occupied_at m.slots (rot n (rot n i₀ d) e) ≡ false)
        → (e : ℕ) → e < d + p
        → NoRoom m c (rot n i₀ e)
  NoRoom-advance m c i₀ d s p hi le before at no_room skipped e he =
      let n : ℕ = length m.slots in
      elim (dec_lt e d) [
        | yes lt ↦ before e lt
        | no ge ↦ elim (ℕ_discrete e d) [
          | yes eq ↦ λ s' at' o.
              let same : get_elem? m.slots (rot n i₀ e) ≡ get_elem? m.slots (rot n i₀ d) =
                ap (λ x. get_elem? m.slots (rot n i₀ x)) eq in
              ground (arith, same, at, at', no_room)
          | no ne ↦ free-NoRoom m c (rot n i₀ e) (
              ap (occupied_at m.slots)
                (ap (rot n i₀) (omega arith) ∙ sym (rot-rot n i₀ d (e - d) hi (omega arith)))
              ∙ skipped (e - d) (omega arith) (omega arith))
        ]
      ]

  pub Took-record :
      (q q₀ : InnerCreditQueue B) (c : Counters) (b : B) (q' : InnerCreditQueue B) (c' : Counters)
      → q.queue ≡ q₀.queue
      → q.size ≡ q₀.size
      → Took q c b q' c'
      → Took q₀ c b q' c'
  Took-record q q₀ c b q' c' e e' t =
      subst (λ x. Took x c b q' c') (λ i. record { queue = e i; it = q₀.it; size = e' i })
        (record {
          index = t.index;
          slot = t.slot;
          rest = t.rest;
          used = t.used;
          at = t.at;
          taken = t.taken;
          front = t.front;
          room = t.room;
          counted = t.counted;
          queue = t.queue;
          size = t.size;
          counters = t.counters;
        })

  module _ (m : LocalMap (List B)) (c : Counters) (placed : IsPlaced m) (covers : Covers m c)
      (size i₀ : ℕ) (s₀ : Slot (List B)) (at₀ : get_elem? m.slots i₀ ≡ some s₀)
      (taken₀ : occupied s₀ ≡ true) where
    abbrev pub at_index : ℕ → InnerCreditQueue B
    at_index i = record { queue = m; it = i; size = size }

    places_within :
        (d p : ℕ)
        → i₀ < length m.slots
        → d < length m.slots
        → ((e : ℕ)
            → 0 < e
            → e < p
            → occupied_at m.slots (rot (length m.slots) (rot (length m.slots) i₀ d) e) ≡ false)
        → d + p ≤ length m.slots
    places_within d p hi hd skipped =
        let n : ℕ = length m.slots in
        elim (dec_le (d + p) n) [
          | yes le ↦ le
          | no gt ↦
              let to : rot n (rot n i₀ d) (n - d) ≡ i₀ =
                rot-rot n i₀ d (n - d) hi (omega arith)
                ∙ ap (rot n i₀) (omega arith)
                ∙ rot-full n i₀ hi in
              absurd (
                ground (
                  arith,
                  occupied_at-of m.slots i₀ s₀ at₀ taken₀,
                  ap (occupied_at m.slots) to,
                  skipped (n - d) (omega arith) (omega arith),
                ))
        ]

    not_back :
        (e n i j : ℕ) (s' : Slot (List B))
        → e ≤ length m.slots
        → j ≡ rot (length m.slots) i₀ e
        → get_elem? m.slots j ≡ some s'
        → bytes_eq s'.key s₀.key ≡ false
        → e < length m.slots
    not_back e n i j s' le here at' other = elim (ℕ_discrete e (length m.slots)) [
      | yes all ↦
          let back : j ≡ i₀ =
            here
            ∙ ap (rot (length m.slots) i₀) all
            ∙ rot-full (length m.slots) i₀ (get_elem?-lt m.slots i₀ s₀ at₀) in
          absurd
            (ground (arith, ap (get_elem? m.slots) back, at₀, at', other, bytes_eq_refl s₀.key))
      | no ne ↦ omega arith
    ]

    -- From `d` places on, with no room at any place before.
    pub loop-Pops :
        (fuel d : ℕ)
        → d < length m.slots
        → length m.slots ≤ fuel + d
        → ((e : ℕ) → e < d → NoRoom m c (rot (length m.slots) i₀ e))
        → occupied_at m.slots (rot (length m.slots) i₀ d) ≡ true
        → Pops (at_index i₀) c (inner_pop_loop fuel s₀.key (at_index (rot (length m.slots) i₀ d)) c)
    loop-Pops zero d hd hf before o = absurd (omega arith)
    loop-Pops (suc fuel) d hd hf before o =
        let n : ℕ = length m.slots in
        let hi₀ : i₀ < n = get_elem?-lt m.slots i₀ s₀ at₀ in
        let i : ℕ = rot n i₀ d in
        let hi : i < n = ground arith in
        let (s, at) = get_elem?_of_lt m.slots i hi in
        let taken : occupied s ≡ true = occupied_at-some m.slots i s at o in
        elim (has_room_total m c i s covers at taken) [
          | inl room ↦
              let (b, q', c', e, took, it) =
                take_front-Took (at_index i) c s covers at taken room in
              let (s', at', taken', hj) = advance m i hi o in
              (
                some b,
                q',
                c',
                loop_take fuel s₀.key (at_index i) c s at room ∙ e,
                Took-record (at_index i) (at_index i₀) c b q' c' refl refl took,
                subst (λ x. x < n) (sym it) hj,
                subst (λ x. occupied_at m.slots x ≡ true) (sym it)
                    (occupied_at-of m.slots (next_of m i) s' at' taken'),
              )
          | inr no_room ↦
              let j : ℕ = next_of m i in
              let adv : Advances m.slots i j = next_of-Advances m i hi o in
              let (s', at', taken', hj) = advance m i hi o in
              let p : ℕ = adv.places in
              let le : d + p ≤ n = places_within d p hi₀ hd adv.skipped in
              let here : j ≡ rot n i₀ (d + p) = adv.reaches ∙ rot-rot n i₀ d p hi₀ le in
              let before' = NoRoom-advance m c i₀ d s p hi₀ le before at no_room adv.skipped in
              let step = loop_step fuel s₀.key (at_index i) c s s' at no_room at' in
              elim (Bool-cases (bytes_eq s'.key s₀.key)) [
                | inl same ↦
                    let back : j ≡ i₀ =
                      placed_unique m i₀ j s₀ s' placed at₀ at' taken₀ taken'
                        (bytes_eq_sound s'.key s₀.key same) in
                    let all : d + p ≡ n =
                      rot_back n i₀ (d + p) hi₀ le (omega (arith, adv.some_places))
                        (sym here ∙ back) in
                    (
                      none,
                      at_index j,
                      c,
                      step ∙ rw same,
                      (
                        refl,
                        refl,
                        refl,
                        λ k hk.
                            let (e, he, to) = rot_to n i₀ k hi₀ hk in
                            subst (NoRoom m c) to (before' e (omega (arith, all))),
                      ),
                      hj,
                      adv.taken,
                    )
                | inr other ↦
                    let lt : d + p < n = not_back (d + p) n i₀ j s' le here at' other in
                    subst (Pops (at_index i₀) c) (sym (step ∙ rw (other, here))) (
                      loop-Pops fuel (d + p) lt (omega (arith, adv.some_places)) before'
                        (subst (λ x. occupied_at m.slots x ≡ true) here adv.taken))
              ]
        ]
