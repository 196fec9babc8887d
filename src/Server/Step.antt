-- ===== src/Server/Step.antt =====
-- What one datagram does to the server: `State::check_credit_transmission` and
-- `State::protocol_server`.
use roshanfer_sidecar.Base.{
  ℕ, ◌+◌, ◌^◌, ◌<◌, ◌≡◌, ◌⊎◌, inl, inr, refl, sym, ◌∙◌, [], ◌∷◌, ◌++◌, not, Option, none, some,
  Bytes, ◌==◌, fatal, ok, >>=-eq-ok, ok_inj, arith, subst, Bool-cases, require, or_fault,
}
use roshanfer_sidecar.Base.Int.{ℤ, pos, ◌+ℤ◌, ◌-ℤ◌, ltb_ℤ, signed32}
use roshanfer_sidecar.Credit.{
  CreditQueue, pop, push, update_endpoint_limit, update_global_limit, decrement_in_flight,
}
use roshanfer_sidecar.Credit.Serve.{IsCreditQueue}
use roshanfer_sidecar.Credit.Turns.{Serves, Rests, Outcome}
use roshanfer_sidecar.Credit.Whole.{pop-Returns}
use roshanfer_sidecar.Credit.Push.{Pushed, push-IsCreditQueue}
use roshanfer_sidecar.Rlp.{
  Datagram, extract_service, write_failed_dn_response, stamp_queuing_time, get32, size_of_char,
}
use roshanfer_sidecar.Server.{
  Server, Limits, Measured, check_credit_transmission, update_limits, find_entry, new_limit,
  refresh_global, refresh_limits, sum_and_max, handle_request, handle_return,
}
use roshanfer_sidecar.Server.Counters.{
  update_endpoint_limit-IsCreditQueue, update_global_limit-IsCreditQueue,
  decrement_in_flight-IsCreditQueue,
}

-- After a try to transmit: a grant that may go has gone, with its time stamped, or none may go.
abbrev pub Transmits : ℤ → Server → Server → Type 0
Transmits now s s' =
    (Rests s.credit_queue s'.credit_queue × (s'.sent ≡ s.sent))
    ⊎ ((d : Datagram) × Serves s.credit_queue d s'.credit_queue
        × (s'.sent ≡ s.sent ++ stamp_queuing_time now d ∷ []))

-- A try to transmit always returns, keeps the invariant, and sends a grant if and only if one of
-- those that wait may go: the one that the queue serves.
pub check_credit_transmission-Transmits :
    (now : ℤ) (s : Server)
    → IsCreditQueue s.credit_queue
    → (s' : Server) × (check_credit_transmission now s ≡ ok s')
      × IsCreditQueue s'.credit_queue
      × Transmits now s s'
unfolding check_credit_transmission
check_credit_transmission-Transmits now s v =
    let (b, q, e, out, v') = pop-Returns s.credit_queue v in by_outcome b q e out v'
  where
    by_outcome :
        (b : Option Datagram) (q : CreditQueue Datagram)
        → pop s.credit_queue ≡ ok (b, q)
        → Outcome s.credit_queue (b, q)
        → IsCreditQueue q
        → (s' : Server) × (check_credit_transmission now s ≡ ok s')
          × IsCreditQueue s'.credit_queue
          × Transmits now s s'
    by_outcome none q e out v' = (record s { credit_queue = q }, rw e, v', inl (out, refl))
    by_outcome (some d) q e out v' = (
      record { credit_queue = q; sent = s.sent ++ stamp_queuing_time now d ∷ [] },
      rw e,
      v',
      inr (d, out, refl),
    )

-- The invariant, with the count of the calls in flight and the grants that wait.
abbrev pub Keeps : CreditQueue Datagram → CreditQueue Datagram → Type 0
Keeps q q' =
    IsCreditQueue q'
    × (q'.counters.in_flight ≡ q.counters.in_flight)
    × (q'.size ≡ q.size)
    × (q'.credit_queue ≡ q.credit_queue)

refresh_global-Keeps :
    (cfg : Limits) (q₀ q q' : CreditQueue Datagram)
    → Keeps q₀ q
    → refresh_global cfg q ≡ ok q'
    → Keeps q₀ q'
unfolding refresh_global update_global_limit
refresh_global-Keeps cfg q₀ q q' (v, f, n, w) h =
    let ((sum, most), _, e) =
      >>=-eq-ok (sum_and_max q.counters.per_endpoint_limit cfg.mapping (pos 0) (pos 0)) _ h in
    subst (Keeps q₀) (ok_inj e)
      (update_global_limit-IsCreditQueue q (most +ℤ cfg.scale (sum -ℤ most)) v, f, n, w)

refresh_limits-Keeps :
    (cfg : Limits) (ratio : ℤ) (service : Bytes) (q q' : CreditQueue Datagram)
    → IsCreditQueue q
    → refresh_limits cfg ratio service q ≡ ok q'
    → Keeps q q'
unfolding refresh_limits
refresh_limits-Keeps cfg ratio service q q' v h =
    let (entry, _, h₁) = >>=-eq-ok (or_fault (find_entry cfg.mapping service) fatal) _ h in
    let (q₁, e, h₂) =
      >>=-eq-ok (update_endpoint_limit q (new_limit cfg entry ratio) service) _ h₁ in
    let kept = update_endpoint_limit-IsCreditQueue q q₁ (new_limit cfg entry ratio) service v e in
    elim (Bool-cases cfg.leaf) [
      | inl leaf ↦ refresh_global-Keeps cfg q q₁ q' kept (sym (rw leaf) ∙ h₂)
      | inr inner ↦ subst (Keeps q) (ok_inj (sym (rw inner) ∙ h₂)) kept
    ]

-- New limits touch neither the queues nor the counts.
update_limits-Keeps :
    (cfg : Limits) (m : Measured) (service : Bytes) (q q' : CreditQueue Datagram)
    → IsCreditQueue q
    → update_limits cfg m service q ≡ ok q'
    → Keeps q q'
unfolding update_limits
update_limits-Keeps cfg m service q q' v h = elim (Bool-cases (cfg.tracked service)) [
  | inr unknown ↦ absurd (ground arith)
  | inl known ↦ elim (Bool-cases m.due) [
    | inr early ↦ subst (Keeps q) (ok_inj (sym (rw (known, early)) ∙ h)) (v, refl, refl, refl)
    | inl due ↦ refresh_limits-Keeps cfg m.ratio service q q' v (sym (rw (known, due)) ∙ h)
  ]
]

-- A Credit Request that is handled leaves the grant that answers it, for the service that it
-- names, in the queue of its priority, behind the other grants for that service; those for the other
-- services and priorities wait as before. One grant that may go is sent after that. The limits may
-- change before.
pub handle_request-Transmits :
    (cfg : Limits) (m : Measured) (blank : Datagram) (arrived now : ℤ) (req : Datagram)
    (s s' : Server)
    → IsCreditQueue s.credit_queue
    → s.credit_queue.size + 1 < 2 ^ 64
    → handle_request cfg m blank arrived now req s ≡ ok s'
    → (service : Bytes) × (resp : Datagram) × (q₁ q₂ : CreditQueue Datagram) × (extract_service req
        ≡ ok service)
      × (write_failed_dn_response req blank ≡ ok resp)
      × Keeps s.credit_queue q₁
      × Pushed q₁
          (record resp { enter_queue_ts = arrived })
          service
          (size_of_char (req.bytes 13))
          q₂
      × IsCreditQueue s'.credit_queue
      × Transmits now (record s { credit_queue = q₂ }) s'
unfolding handle_request
handle_request-Transmits cfg m blank arrived now req s s' v small h =
    let (_, _, h₁) = >>=-eq-ok (require (req.bytes 2 == 0) fatal) _ h in
    let (_, _, h₂) = >>=-eq-ok (require (req.bytes 3 == 1) fatal) _ h₁ in
    let (service, named, h₃) = >>=-eq-ok (extract_service req) _ h₂ in
    let (_, _, h₄) =
      >>=-eq-ok (require (not (ltb_ℤ (signed32 (get32 (req.bytes) 22)) (pos 0))) fatal) _ h₃ in
    let (q₁, e₁, h₅) = >>=-eq-ok (update_limits cfg m service s.credit_queue) _ h₄ in
    let (resp, e₂, h₆) = >>=-eq-ok (write_failed_dn_response req blank) _ h₅ in
    let waiting : Datagram = record resp { enter_queue_ts = arrived } in
    let priority : ℕ = size_of_char (req.bytes 13) in
    let (q₂, e₃, h₇) = >>=-eq-ok (push q₁ waiting service priority) _ h₆ in
    let kept = update_limits-Keeps cfg m service s.credit_queue q₁ v e₁ in
    let (v₂, pushed) =
      push-IsCreditQueue q₁ q₂ waiting service priority kept.0 (omega (arith, kept.2)) e₃ in
    let (s'', done, v', t) =
      check_credit_transmission-Transmits now (record s { credit_queue = q₂ }) v₂ in
    let same : s'' ≡ s' = ok_inj (sym done ∙ h₇) in
    (
      service,
      resp,
      q₁,
      q₂,
      named,
      e₂,
      kept,
      pushed,
      subst (λ (x : Server). IsCreditQueue x.credit_queue) same v',
      subst (Transmits now (record s { credit_queue = q₂ })) same t,
    )

-- A Credit Return that is handled frees the slot of a call to the service that it names, and one
-- grant that may go is sent after that.
pub handle_return-Transmits :
    (now : ℤ) (req : Datagram) (s s' : Server)
    → IsCreditQueue s.credit_queue
    → handle_return now req s ≡ ok s'
    → (service : Bytes) × (q : CreditQueue Datagram) × (extract_service req ≡ ok service)
      × (decrement_in_flight s.credit_queue service ≡ ok q)
      × (q.counters.in_flight ≡ s.credit_queue.counters.in_flight -ℤ pos 1)
      × IsCreditQueue s'.credit_queue
      × Transmits now (record s { credit_queue = q }) s'
unfolding handle_return
handle_return-Transmits now req s s' v h =
    let (service, named, h₁) = >>=-eq-ok (extract_service req) _ h in
    let (q, e, h₂) = >>=-eq-ok (decrement_in_flight s.credit_queue service) _ h₁ in
    let (v₁, less) = decrement_in_flight-IsCreditQueue s.credit_queue q service v e in
    let (s'', done, v', t) =
      check_credit_transmission-Transmits now (record s { credit_queue = q }) v₁ in
    let same : s'' ≡ s' = ok_inj (sym done ∙ h₂) in
    (
      service,
      q,
      named,
      e,
      less,
      subst (λ (x : Server). IsCreditQueue x.credit_queue) same v',
      subst (Transmits now (record s { credit_queue = q })) same t,
    )
