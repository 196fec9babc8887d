-- ===== src/Ingress.antt =====
-- src/ingress.cc: the calls that wait at the edge for a credit, at most one Credit Request for the
-- first of them on its way, and the cap on their number.
pub mod Cycle
pub mod Start
mod Tests
use roshanfer_sidecar.Base.{
  ℕ, ◌+◌, ◌-◌, ◌^◌, ◌%◌, List, [], ◌∷◌, ◌++◌, Bool, true, false, ◌&&◌, not, Option, none, some,
  Bytes, length, ltb, leb, ◌==◌, if◌then◌else◌, bytes_eq, max, Fault, fatal, undefined, Result, ok,
  err, ◌>>=◌, ◌>>◌, require,
}
use roshanfer_sidecar.Base.Int.{ℤ, pos, ◌+ℤ◌, ◌-ℤ◌}
use roshanfer_sidecar.Rpc.{Message, ConnectionType, egress, add_header_field, rpc_id, priority_name}

-- The names of the two header fields, which are passed with the 0 at their end.
abbrev pub rpc_id_header_name : Bytes
rpc_id_header_name = rpc_id ++ 0 ∷ []

abbrev pub priority_header_name : Bytes
priority_header_name = priority_name ++ 0 ∷ []

-- `Ingress`. `last_rpc_id` starts at the index of the thread times 2 ^ 48, `drop_fd` at its
-- negative. `ups` are the values given to `ingress_mean.update`, and `dropped` the messages that
-- were routed to `drop_fd` to be answered with 503.
pub record Ingress (B : Type 0) : Type 0 where
  pub ingress_service : Bytes
  pub ingress_size_cap : ℕ
  pub queue : List (Message B)
  pub has_credit_request_on_fly : Bool
  pub priority : ℤ
  pub drop_id : ℤ
  pub drop_fd : ℤ
  pub last_rpc_id : ℤ
  pub ups : List ℕ
  pub dropped : List (Message B)

module _ {B : Type 0} where
  -- `drop_rpc`. Only an HTTP/1 message can be dropped.
  unfoldable pub drop_rpc : Ingress B → Message B → Result (Ingress B)
  drop_rpc q rpc =
      if not rpc.http1
      then err fatal
      else if not (bytes_eq rpc.service q.ingress_service)
      then err fatal
      else (let id = q.drop_id +ℤ pos 1 in
          ok (record q {
            drop_id = id;
            dropped =
                q.dropped
                ++ record rpc {
                  error = true;
                  local_id = pos 0 -ℤ (id +ℤ pos 1);
                  us_fd = q.drop_fd;
                  us_stream_id = id;
                }
                  ∷ [];
          }))

  -- The parameters are `std::stoll`, the 32 bytes that `snprintf` of a number leaves, and the conversion to
  -- an int32_t.
  module _ (stoll : Bytes → Result ℤ) (snprintf : ℤ → Bytes) (to_int32 : ℤ → ℤ) where
    -- `add_rpc_id_header` and `add_priority_header`, with the counter of local identities.
    unfoldable pub add_headers : ℕ → Ingress B → Message B → Result (ℕ × Ingress B × Message B)
    add_headers counter q rpc = do
      let id = q.last_rpc_id +ℤ pos 1
      (counter₁, rpc₁) ←
          add_header_field stoll true to_int32 counter rpc rpc_id_header_name (snprintf id) true
            false
      (counter₂, rpc₂) ←
          add_header_field stoll true to_int32 counter₁ rpc₁ priority_header_name
            (snprintf q.priority) true false
      ok (counter₂, record q { last_rpc_id = id }, rpc₂)

    unfoldable pub enqueue : ℕ → Ingress B → Message B → Result (ℕ × Ingress B)
    enqueue counter q rpc =
        if not (bytes_eq rpc.service q.ingress_service)
        then err fatal
        else if leb q.ingress_size_cap (length q.queue)
        then (drop_rpc q rpc >>= λ q'. ok (counter, q'))
        else (add_headers counter q rpc >>= λ (counter', q', rpc').
            let queue' = q'.queue ++ rpc' ∷ [] in
            ok (counter', record q' { queue = queue'; ups = q'.ups ++ length queue' ∷ [] }))

  -- `dequeue`, for the calls that wait.
  unfoldable pub pop_front : Ingress B → List (Message B) → Result (Message B × Ingress B)
  pop_front q [] = err fatal
  pop_front q (rpc ∷ rest) = ok (
    rpc,
    record q { queue = rest; has_credit_request_on_fly = false; ups = q.ups ++ length rest ∷ [] },
  )

  unfoldable pub dequeue : Ingress B → Result (Message B × Ingress B)
  dequeue q = pop_front q q.queue

  unfoldable pub send_credit_request_checker : Ingress B → Bool × Ingress B
  send_credit_request_checker q =
      let check = ltb 0 (length q.queue) && not q.has_credit_request_on_fly in
      (
        check,
        record q {
          has_credit_request_on_fly = if check then true else q.has_credit_request_on_fly;
        },
      )

  -- `get_tail_id` and `get_tail_priority` read the front of the queue, which is undefined if it
  -- is empty.
  unfoldable pub get_tail : Ingress B → Result (ℤ × ℤ)
  get_tail q = elim q.queue [ [] ↦ err undefined | rpc ∷ rest ↦ ok (rpc.local_id, rpc.priority) ]

-- What the arithmetic of `update_ingress_cap` over floats says: the error is above the upper
-- threshold; or it is below the lower one, and the queue is long, or the cap is larger than the
-- calls in flight call for; or none of these. The results are numbers.
pub data Verdict : Type 0 where
  slow : ℕ → Verdict
  fast_long : ℕ → Verdict
  fast_large : ℕ → ℕ → Verdict
  steady : Verdict

-- `update_ingress_cap`
unfoldable pub new_cap : ℕ → Verdict → ℕ
new_cap cap (slow lowered) = max 1 lowered
new_cap cap (fast_long more) = max 1 (cap + more)
new_cap cap (fast_large safe lowered) = max 1 (max safe lowered)
new_cap cap steady = max 1 cap

module _ {B : Type 0} where
  unfoldable pub update_ingress_cap : Ingress B → Verdict → Ingress B
  update_ingress_cap q v = record q { ingress_size_cap = new_cap q.ingress_size_cap v }
