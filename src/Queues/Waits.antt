-- ===== src/Queues/Waits.antt =====
-- About the calls that wait in `PPMQueue` while others are pushed.
use roshanfer_sidecar.Base.{
  ℕ, ◌≡◌, refl, ap, sym, ◌∙◌, inl, inr, List, none, some, Bytes, bytes_eq, bytes_eq_sound, ok,
  Bool-cases, some_inj, if_neg, if_pos,
}
use roshanfer_sidecar.Base.Int.{ℤ, ℤ_discrete}
use roshanfer_sidecar.Base.Assoc.{find, assign, find-assign}
use roshanfer_sidecar.Queues.{PpmQueue, calls_of, push_call}
use roshanfer_sidecar.Queues.Pending.{
  calls_of-set_calls, calls_of-set_calls-other, push_call-set_calls,
}

-- The call `rpc` waits for a credit of the service, under the identity.
pub record Waits (q : PpmQueue) (service : Bytes) (id : ℤ) (rpc : ℕ) : Type 0 where
  pub calls : List (ℤ × ℕ)
  pub known : calls_of q service ≡ some calls
  pub found : find ℤ_discrete id calls ≡ some rpc

-- A push does not disturb those that wait.
pub push_call-Waits :
    (q q' : PpmQueue) (service : Bytes) (id : ℤ) (rpc : ℕ)
    → push_call q service id rpc ≡ ok q'
    → Waits q' service id rpc × ((s : Bytes) (i : ℤ) (r : ℕ) → Waits q s i r → Waits q' s i r)
unfolding push_call
push_call-Waits q q' service id rpc h =
    let (calls, known, free, is) = push_call-set_calls q q' service id rpc h in
    let new : List (ℤ × ℕ) = assign ℤ_discrete id rpc calls in
    let there : calls_of q' service ≡ some new =
      ap (λ x. calls_of x service) (sym is) ∙ calls_of-set_calls q service calls new known in
    (
      record {
        calls = new;
        known = there;
        found =
            find-assign ℤ_discrete id id rpc calls
            ∙ if_pos (ℤ_discrete id id) refl (some rpc) (find ℤ_discrete id calls);
      },
      λ s i r w. elim (Bool-cases (bytes_eq service s)) [
        | inl same ↦
            let same_service : service ≡ s = bytes_eq_sound service s same in
            let same_calls : w.calls ≡ calls =
              some_inj (sym w.known ∙ ap (calls_of q) (sym same_service) ∙ known) in
            let at_i : find ℤ_discrete i calls ≡ some r =
              ap (find ℤ_discrete i) (sym same_calls) ∙ w.found in
            record {
              calls = new;
              known = ap (calls_of q') (sym same_service) ∙ there;
              found = elim (ℤ_discrete id i) [
                | yes e ↦ absurd (taken (sym free ∙ ap (λ x. find ℤ_discrete x calls) e ∙ at_i))
                | no n ↦
                    find-assign ℤ_discrete id i rpc calls
                    ∙ if_neg (ℤ_discrete id i) n (some rpc) (find ℤ_discrete i calls)
                    ∙ at_i
              ];
            }
        | inr other ↦ record {
          calls = w.calls;
          known =
              ap (λ x. calls_of x s) (sym is)
              ∙ calls_of-set_calls-other q service s (assign ℤ_discrete id rpc calls) other
              ∙ w.known;
          found = w.found;
        }
      ],
    )
  where
    taken : {r : ℕ} → none ≡ some r → ⊥
    taken e = cc
