-- ===== src/Credit/Tests.antt =====
-- Tests of src/credit_queue.cc, and the theorems about it at concrete queues.
use roshanfer_sidecar.Base.{ℕ, ◌≡◌, refl, [], ◌∷◌, Option, none, some, Result, ok, err, arith}
use roshanfer_sidecar.FastMap.{Slot, LocalMap, find_ptr, occupied, get, probe}
use roshanfer_sidecar.Credit.{
  InnerCreditQueue, Counters, CreditQueue, inner_push, inner_pop, push, pop, served,
}
use roshanfer_sidecar.Credit.Round.{Pops}
use roshanfer_sidecar.Credit.Pop.{inner_pop-Pops}
use roshanfer_sidecar.Credit.Serve.{IsCreditQueue}
use roshanfer_sidecar.Credit.Whole.{Returns, pop-Returns}
use roshanfer_sidecar.Credit.Push.{Pushed, push-IsCreditQueue}
use roshanfer_sidecar.Credit.Example.{
  key_a, inner_of, counters, queue_of, one_slot-Covers, inner_of-IsReady, queue_of-IsCreditQueue,
}

-- Two grants wait at priority 1.
abbrev waiting : CreditQueue ℕ
waiting = queue_of (7 ∷ 8 ∷ [])

waiting-IsCreditQueue : IsCreditQueue waiting
waiting-IsCreditQueue = queue_of-IsCreditQueue (7 ∷ 8 ∷ []) (omega arith)

pop-Returns_example : Returns waiting (pop waiting)
pop-Returns_example = pop-Returns waiting waiting-IsCreditQueue

abbrev popped_b : Result (Option ℕ × CreditQueue ℕ) → Option ℕ
popped_b (ok (b, q)) = b
popped_b (err e) = none

pop_oldest : popped_b (pop waiting) ≡ some 7
unfolding pop roshanfer_sidecar.Credit.pop_loop roshanfer_sidecar.Credit.try_priority inner_pop
    roshanfer_sidecar.Credit.next_priority roshanfer_sidecar.FastMap.slot_at
    roshanfer_sidecar.Credit.inner_pop_loop roshanfer_sidecar.Credit.has_room get find_ptr probe
    roshanfer_sidecar.FastMap.Hash.fnv1a64 roshanfer_sidecar.FastMap.equals
    roshanfer_sidecar.Credit.take_front roshanfer_sidecar.FastMap.update
    roshanfer_sidecar.FastMap.store served
pop_oldest = refl

abbrev two : InnerCreditQueue ℕ
two = inner_of (7 ∷ 8 ∷ []) 2

inner_pop-Pops_example : Pops two counters (inner_pop two counters)
inner_pop-Pops_example =
    inner_pop-Pops two counters (inner_of-IsReady (7 ∷ 8 ∷ []) 2 refl (omega arith)).queue
      (one_slot-Covers (7 ∷ 8 ∷ [])) (omega arith)

abbrev pushed : CreditQueue ℕ
pushed = record waiting {
  credit_queue = inner_of [] 0 ∷ inner_of (7 ∷ 8 ∷ []) 2 ∷ inner_of (9 ∷ []) 1 ∷ [];
  size = 3;
}

push_low : push waiting 9 key_a 2 ≡ ok pushed
unfolding push inner_push roshanfer_sidecar.FastMap.update find_ptr probe
    roshanfer_sidecar.FastMap.slot_at roshanfer_sidecar.FastMap.Hash.fnv1a64
    roshanfer_sidecar.FastMap.equals roshanfer_sidecar.FastMap.store
push_low = refl

push-IsCreditQueue_example : IsCreditQueue pushed × Pushed waiting 9 key_a 2 pushed
push-IsCreditQueue_example =
    push-IsCreditQueue waiting pushed 9 key_a 2 waiting-IsCreditQueue (omega arith) push_low
