-- ===== src/Queues/Pending.antt =====
-- About `push_call` and `pop_call` of src/rpc_queue.cc and the streams of
-- src/ppm_queue.cc.
use roshanfer_sidecar.Base.{
  ℕ, ◌≡◌, refl, ap, sym, ◌∙◌, ◌⊎◌, inl, inr, List, [], ◌∷◌, ◌++◌, some, Bytes, bytes_eq,
  bytes_eq_sound, true, false, none, Option, if◌then◌else◌, fatal, ok, err, or_fault, or_fault-some,
  >>=-eq-ok, arith, Bool-cases, Option-cases,
}
use roshanfer_sidecar.Base.Int.{ℤ, ℤ_discrete}
use roshanfer_sidecar.Base.Assoc.{find, assign, erase, find-assign, find-erase}
use roshanfer_sidecar.Queues.{
  PpmQueue, calls_of, set_calls, push_call, pop_call, RpcQueue, Stream, ConnectionDirection,
  upstream, downstream, queue_at, with_queue, enqueue_stream, dequeue_stream, take_stream,
}
use roshanfer_sidecar.Rpc.{ConnectionType, ingress, egress}

pub calls_of-set_calls :
    (q : PpmQueue) (k : Bytes) (c c' : List (ℤ × ℕ))
    → calls_of q k ≡ some c
    → calls_of (set_calls q k c') k ≡ some c'
unfolding calls_of set_calls
calls_of-set_calls [] k c c' h = cc
calls_of-set_calls (w ∷ ws) k c c' h = elim (Bool-cases (bytes_eq w.service k)) [
  | inl same ↦ rw (same) (rw (same) refl)
  | inr other ↦ rw (other) (rw (other) (calls_of-set_calls ws k c c' (sym (rw other) ∙ h)))
]

pub calls_of-set_calls-other :
    (q : PpmQueue) (k j : Bytes) (c : List (ℤ × ℕ))
    → bytes_eq k j ≡ false
    → calls_of (set_calls q k c) j ≡ calls_of q j
unfolding calls_of set_calls
calls_of-set_calls-other [] k j c differ = refl
calls_of-set_calls-other (w ∷ ws) k j c differ = elim (Bool-cases (bytes_eq w.service k)) [
  | inl same ↦
      let is : w.service ≡ k = bytes_eq_sound w.service k same in
      let not_j : bytes_eq w.service j ≡ false = ap (λ x. bytes_eq x j) is ∙ differ in
      rw same (rw not_j refl)
  | inr other ↦ rw other (rw (calls_of-set_calls-other ws k j c differ) refl)
]

-- What a push for a service changes.
pub push_call-set_calls :
    (q q' : PpmQueue) (service : Bytes) (id : ℤ) (rpc : ℕ)
    → push_call q service id rpc ≡ ok q'
    → (calls : List (ℤ × ℕ)) × (calls_of q service ≡ some calls)
      × (find ℤ_discrete id calls ≡ none)
      × (set_calls q service (assign ℤ_discrete id rpc calls) ≡ q')
unfolding push_call
push_call-set_calls q q' service id rpc h =
    let (calls, e, h₁) = >>=-eq-ok (or_fault (calls_of q service) fatal) _ h in
    let known = or_fault-some (calls_of q service) fatal e in
    elim (Option-cases (find ℤ_discrete id calls)) [
      | inl free ↦ (calls, known, free, ground (arith, h, known, free))
      | inr (old, taken) ↦ absurd (ground (arith, h, known, taken))
    ]

-- The call under an identity, if there are calls.
unfoldable pub call_in : Option (List (ℤ × ℕ)) → ℤ → Option ℕ
call_in none id = none
call_in (some calls) id = find ℤ_discrete id calls

-- The call that waits for a service under an identity.
unfoldable pub call_of : PpmQueue → Bytes → ℤ → Option ℕ
call_of q service id = call_in (calls_of q service) id

-- The calls of one service are written: each identity of it, and the other services.
call_of-set_calls :
    (q : PpmQueue) (k j : Bytes) (c c' : List (ℤ × ℕ)) (i : ℤ)
    → calls_of q k ≡ some c
    → call_of (set_calls q k c') j i
      ≡ (if bytes_eq k j then find ℤ_discrete i c' else call_of q j i)
unfolding call_of call_in
call_of-set_calls q k j c c' i h = elim (Bool-cases (bytes_eq k j)) [
  | inl same ↦
      let is : calls_of (set_calls q k c') j ≡ some c' =
        ap (calls_of (set_calls q k c')) (sym (bytes_eq_sound k j same))
        ∙ calls_of-set_calls q k c c' h in
      rw same (ap (λ o. call_in o i) is)
  | inr other ↦ rw other (ap (λ o. call_in o i) (calls_of-set_calls-other q k j c' other))
]

call_of-calls_of :
    (q : PpmQueue) (k j : Bytes) (c : List (ℤ × ℕ)) (i : ℤ)
    → calls_of q k ≡ some c
    → bytes_eq k j ≡ true
    → call_of q j i ≡ find ℤ_discrete i c
unfolding call_of call_in
call_of-calls_of q k j c i h same =
    let is : calls_of q j ≡ some c = ap (calls_of q) (sym (bytes_eq_sound k j same)) ∙ h in
    ap (λ o. call_in o i) is

-- An entry is added and removed again.
find-erase-assign :
    (id i : ℤ) (rpc : ℕ) (c : List (ℤ × ℕ))
    → find ℤ_discrete id c ≡ none
    → find ℤ_discrete i (erase ℤ_discrete id (assign ℤ_discrete id rpc c)) ≡ find ℤ_discrete i c
find-erase-assign id i rpc c free = elim (ℤ_discrete id i) [
  | yes e ↦ ground (
    arith,
    e,
    find-erase ℤ_discrete id i (assign ℤ_discrete id rpc c),
    free,
    ap (λ x. find ℤ_discrete x c) e,
  )
  | no n ↦ ground (
    arith,
    n,
    find-erase ℤ_discrete id i (assign ℤ_discrete id rpc c),
    find-assign ℤ_discrete id i rpc c,
  )
]

-- The call that is pushed and popped again leaves no trace.
call_of-pop :
    (q : PpmQueue) (service : Bytes) (id : ℤ) (rpc : ℕ) (c : List (ℤ × ℕ)) (s : Bytes) (i : ℤ)
    → calls_of q service ≡ some c
    → find ℤ_discrete id c ≡ none
    → (let new : List (ℤ × ℕ) = assign ℤ_discrete id rpc c in
        call_of (set_calls (set_calls q service new) service (erase ℤ_discrete id new)) s i)
      ≡ call_of q s i
call_of-pop q service id rpc c s i known free =
    let new : List (ℤ × ℕ) = assign ℤ_discrete id rpc c in
    let old : List (ℤ × ℕ) = erase ℤ_discrete id new in
    let there = calls_of-set_calls q service c new known in
    let second = call_of-set_calls (set_calls q service new) service s new old i there in
    let first = call_of-set_calls q service s c new i known in
    elim (Bool-cases (bytes_eq service s)) [
      | inl same ↦
          let a = rw same at second in
          a ∙ find-erase-assign id i rpc c free ∙ sym (call_of-calls_of q service s c i known same)
      | inr other ↦ let a = rw other at second in let b = rw other at first in a ∙ b
    ]

-- What is pushed for a service is popped by its identity, after which each call that waited before
-- the push waits again and no other, so the identity is not popped a second time; until then a push
-- under the identity stops the process.
pub push_call-pop_call :
    (q q' : PpmQueue) (service : Bytes) (id : ℤ) (rpc : ℕ)
    → push_call q service id rpc ≡ ok q'
    → ((q'' : PpmQueue) × (pop_call q' service id ≡ ok (rpc, q''))
        × ((s : Bytes) (i : ℤ) → call_of q'' s i ≡ call_of q s i)
        × (pop_call q'' service id ≡ err fatal))
      × ((other : ℕ) → push_call q' service id other ≡ err fatal)
unfolding push_call pop_call
push_call-pop_call q q' service id rpc h =
    let (calls, known, free, e) = push_call-set_calls q q' service id rpc h in
    let new : List (ℤ × ℕ) = assign ℤ_discrete id rpc calls in
    let there : calls_of q' service ≡ some new =
      ap (λ x. calls_of x service) (sym e) ∙ calls_of-set_calls q service calls new known in
    let found : find ℤ_discrete id new ≡ some rpc =
      find-assign ℤ_discrete id id rpc calls ∙ ground arith in
    let old : List (ℤ × ℕ) = erase ℤ_discrete id new in
    let gone : find ℤ_discrete id old ≡ none = find-erase ℤ_discrete id id new ∙ ground arith in
    let now : calls_of (set_calls q' service old) service ≡ some old =
      calls_of-set_calls q' service new old there in
    (
      (
        set_calls q' service old,
        rw (there, found) refl,
        λ s i.
            ap (λ x. call_of (set_calls x service old) s i) (sym e)
            ∙ call_of-pop q service id rpc calls s i known free,
        rw (now, gone) refl,
      ),
      λ other. ground (arith, there, found),
    )

pub queue_at-with_queue :
    (q : RpcQueue) (t : ConnectionType) (d : ConnectionDirection) (xs : List Stream)
    → queue_at (with_queue q t d xs) t d ≡ xs
unfolding with_queue queue_at
queue_at-with_queue q ingress upstream xs = refl
queue_at-with_queue q ingress downstream xs = refl
queue_at-with_queue q egress upstream xs = refl
queue_at-with_queue q egress downstream xs = refl

pub with_queue-with_queue :
    (q : RpcQueue) (t : ConnectionType) (d : ConnectionDirection) (xs ys : List Stream)
    → with_queue (with_queue q t d xs) t d ys ≡ with_queue q t d ys
unfolding with_queue
with_queue-with_queue q ingress upstream xs ys = refl
with_queue-with_queue q ingress downstream xs ys = refl
with_queue-with_queue q egress upstream xs ys = refl
with_queue-with_queue q egress downstream xs ys = refl

pub with_queue-queue_at :
    (q : RpcQueue) (t : ConnectionType) (d : ConnectionDirection)
    → with_queue q t d (queue_at q t d) ≡ q
unfolding with_queue queue_at
with_queue-queue_at q ingress upstream = refl
with_queue-queue_at q ingress downstream = refl
with_queue-queue_at q egress upstream = refl
with_queue-queue_at q egress downstream = refl

-- A stream that is enqueued comes after those that were there: if there was none it is the next to
-- be dequeued, and the queue is empty again after that; otherwise the next one is the one that was
-- next before.
pub enqueue_stream-dequeue_stream :
    (q : RpcQueue) (t : ConnectionType) (d : ConnectionDirection) (x : Stream)
    → ((queue_at q t d ≡ []) × (dequeue_stream (enqueue_stream q t d x) t d ≡ ok (x, q)))
      ⊎ ((s : Stream) × (q' : RpcQueue) × (dequeue_stream q t d ≡ ok (s, q'))
          × (dequeue_stream (enqueue_stream q t d x) t d ≡ ok (s, enqueue_stream q' t d x)))
unfolding enqueue_stream dequeue_stream take_stream
enqueue_stream-dequeue_stream q t d x = by_queue (queue_at q t d) refl
  where
    by_queue :
        (xs : List Stream)
        → queue_at q t d ≡ xs
        → ((queue_at q t d ≡ []) × (dequeue_stream (enqueue_stream q t d x) t d ≡ ok (x, q)))
          ⊎ ((s : Stream) × (q' : RpcQueue) × (dequeue_stream q t d ≡ ok (s, q'))
              × (dequeue_stream (enqueue_stream q t d x) t d ≡ ok (s, enqueue_stream q' t d x)))
    by_queue [] e = inl (
      e,
      ap (take_stream (enqueue_stream q t d x) t d)
            (queue_at-with_queue q t d (queue_at q t d ++ x ∷ []) ∙ ap (λ xs. xs ++ x ∷ []) e)
          ∙ ap (λ y. ok (x, y))
              (with_queue-with_queue q t d (queue_at q t d ++ x ∷ []) []
                ∙ ap (with_queue q t d) (sym e)
                ∙ with_queue-queue_at q t d),
    )
    by_queue (s ∷ ss) e = inr (
      s,
      with_queue q t d ss,
      ap (take_stream q t d) e,
      ap (take_stream (enqueue_stream q t d x) t d)
            (queue_at-with_queue q t d (queue_at q t d ++ x ∷ []) ∙ ap (λ xs. xs ++ x ∷ []) e)
          ∙ ap (λ y. ok (s, y))
              (with_queue-with_queue q t d (queue_at q t d ++ x ∷ []) (ss ++ x ∷ [])
                ∙ sym (
                    with_queue-with_queue q t d ss (queue_at (with_queue q t d ss) t d ++ x ∷ [])
                    ∙ ap (λ xs. with_queue q t d (xs ++ x ∷ [])) (queue_at-with_queue q t d ss))),
    )
