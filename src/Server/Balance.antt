-- ===== src/Server/Balance.antt =====
-- The calls in flight that the server counts: one more for each grant sent, one less for each
-- return.
use roshanfer_sidecar.Base.{
  ℕ, ◌+◌, ◌^◌, ◌≤◌, ◌<◌, ◌≡◌, ◌⊎◌, List, [], ◌∷◌, ◌++◌, inl, inr, ap, sym, ◌∙◌, length,
  length-append, ◌==◌, ok, arith, Bool-cases,
}
use roshanfer_sidecar.Base.Int.{ℤ, pos, negsuc, ◌+ℤ◌, ◌-ℤ◌}
use mathlib.Core.List.{append-nil}
use roshanfer_sidecar.Credit.{Counters}
use roshanfer_sidecar.Credit.Serve.{IsCreditQueue}
use roshanfer_sidecar.Rlp.{Datagram, stamp_queuing_time}
use roshanfer_sidecar.Server.{Server, Limits, Measured, protocol_server}
use roshanfer_sidecar.Server.Step.{Transmits, handle_request-Transmits, handle_return-Transmits}

+ℤ_zero : (a : ℤ) → a +ℤ pos 0 ≡ a
unfolding ◌+ℤ◌
+ℤ_zero (pos n) = ground arith
+ℤ_zero (negsuc n) = ground arith

-- The grants that a try to transmit sends are the calls that it counts.
pub Transmits-in_flight :
    (now : ℤ) (s s' : Server)
    → Transmits now s s'
    → (n : ℕ) × (n ≤ 1)
      × (length s'.sent ≡ length s.sent + n)
      × (s'.credit_queue.counters.in_flight ≡ s.credit_queue.counters.in_flight +ℤ pos n)
Transmits-in_flight now s s' (inl (rests, same)) = (
  0,
  omega arith,
  omega (arith, ap length same),
  ap (λ (c : Counters). c.in_flight) rests.counters ∙ sym (+ℤ_zero _),
)
Transmits-in_flight now s s' (inr (d, serves, more)) = (
  1,
  omega arith,
  ap length more ∙ length-append s.sent _,
  ap (λ (c : Counters). c.in_flight) serves.took.counters,
)

-- The grants themselves, behind what was sent before.
pub Transmits-sent :
    (now : ℤ) (s s' : Server)
    → Transmits now s s'
    → (gs : List Datagram) × (length gs ≤ 1)
      × (s'.sent ≡ s.sent ++ gs)
      × (s'.credit_queue.counters.in_flight ≡ s.credit_queue.counters.in_flight +ℤ pos (length gs))
Transmits-sent now s s' (inl (rests, same)) = (
  [],
  omega arith,
  same ∙ sym (append-nil s.sent),
  ap (λ (c : Counters). c.in_flight) rests.counters ∙ sym (+ℤ_zero _),
)
Transmits-sent now s s' (inr (d, serves, more)) = (
  stamp_queuing_time now d ∷ [],
  omega arith,
  more,
  ap (λ (c : Counters). c.in_flight) serves.took.counters,
)

-- A datagram that the server handles keeps the invariant of its queue and sends one grant at
-- most. The calls in flight go up by the number of grants sent; a return takes one off before.
-- The number of the waiting grants, one more included, fits its word.
pub protocol_server-in_flight :
    (cfg : Limits) (m : Measured) (blank : Datagram) (arrived now : ℤ) (req : Datagram)
    (s s' : Server)
    → IsCreditQueue s.credit_queue
    → s.credit_queue.size + 1 < 2 ^ 64
    → protocol_server cfg m blank arrived now req s ≡ ok s'
    → IsCreditQueue s'.credit_queue
      × (n : ℕ) × (n ≤ 1)
      × (length s'.sent ≡ length s.sent + n)
      × (((req.bytes 1 ≡ 1)
            × (s'.credit_queue.counters.in_flight ≡ s.credit_queue.counters.in_flight +ℤ pos n))
          ⊎ ((req.bytes 1 ≡ 2)
              × (s'.credit_queue.counters.in_flight
                  ≡ s.credit_queue.counters.in_flight -ℤ pos 1 +ℤ pos n)))
unfolding protocol_server
protocol_server-in_flight cfg m blank arrived now req s s' v small h =
    elim (Bool-cases (req.bytes 1 == 1)) [
      | inl request ↦
          let (_, _, q₁, q₂, _, _, kept, pushed, v', t) =
            handle_request-Transmits cfg m blank arrived now req s s' v small
              (sym (rw request) ∙ h) in
          let (n, few, sent, count) =
            Transmits-in_flight now (record s { credit_queue = q₂ }) s' t in
          let before : q₂.counters.in_flight ≡ s.credit_queue.counters.in_flight =
            ap (λ (c : Counters). c.in_flight) pushed.1 ∙ kept.1 in
          (v', n, few, sent, inl (ground arith, count ∙ ap (λ z. z +ℤ pos n) before))
      | inr other ↦ elim (Bool-cases (req.bytes 1 == 2)) [
        | inl return ↦
            let (_, q, _, _, less, v', t) =
              handle_return-Transmits now req s s' v (sym (rw (other, return)) ∙ h) in
            let (n, few, sent, count) =
              Transmits-in_flight now (record s { credit_queue = q }) s' t in
            (v', n, few, sent, inr (ground arith, count ∙ ap (λ z. z +ℤ pos n) less))
        | inr unknown ↦ absurd (ground arith)
      ]
    ]
