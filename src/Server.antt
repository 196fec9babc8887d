-- ===== src/Server.antt =====
-- The server side of RLP in src/state.cc: a Credit Request is queued as the grant that will answer
-- it, a Credit Return frees a slot, and after each of them one grant is sent if there is room.
pub mod Counters
pub mod Step
pub mod Balance
mod Tests
use roshanfer_sidecar.Base.{
  ℕ, ◌+◌, ◌*◌, List, [], ◌∷◌, ◌++◌, Bool, true, false, not, Option, none, some, Bytes, length, ltb,
  ◌==◌, if◌then◌else◌, bytes_eq, Fault, fatal, Result, ok, err, ◌>>=◌, ◌>>◌, require, or_fault,
}
use roshanfer_sidecar.Base.Int.{ℤ, pos, pos_part, neg_part, sub_ℕ, ◌+ℤ◌, ◌-ℤ◌, ltb_ℤ, signed32}
use roshanfer_sidecar.FastMap.{LocalMap, get}
use roshanfer_sidecar.Credit.{
  CreditQueue, push, pop, update_endpoint_limit, update_global_limit, decrement_in_flight,
}
use roshanfer_sidecar.Rlp.{
  Datagram, get32, extract_service, size_of_char, write_failed_dn_response, stamp_queuing_time,
}

-- An entry of `config.mapping`: a service that this sidecar hosts, and what it calls.
pub record MappingEntry : Type 0 where
  pub name : Bytes
  pub downstreams : List Bytes
  pub pfanout : Bool
  pub dfanout : Bool

-- The configuration that the limits depend on. `leaf` is `config.routing.size() == 0`, `scale` the
-- product with `over_commitment` over floats, cut to an int32_t, and `tracked` says for which
-- services there is an estimate of the round-trip time.
pub record Limits : Type 0 where
  pub mapping : List MappingEntry
  pub leaf : Bool
  pub cpu_count : ℤ
  pub extra_limit : ℤ
  pub scale : ℤ → ℤ
  pub tracked : Bytes → Bool

-- What the statistics say when a request is handled: whether its estimate has had a multiple of
-- 2000 updates, and `(int32_t)std::ceil(theo_term / local_rt)`.
pub record Measured : Type 0 where
  pub due : Bool
  pub ratio : ℤ

unfoldable pub find_entry : List MappingEntry → Bytes → Option MappingEntry
find_entry [] k = none
find_entry (e ∷ es) k = let rest = find_entry es k in if bytes_eq e.name k then some e else rest

-- `n * z`
unfoldable pub times : ℕ → ℤ → ℤ
times n z = sub_ℕ (n * pos_part z) (n * neg_part z)

-- The new limit of an endpoint. An int32_t that would overflow is an integer here.
unfoldable pub new_limit : Limits → MappingEntry → ℤ → ℤ
new_limit cfg entry ratio =
    let least = if ltb_ℤ ratio (pos 1) then pos 1 else ratio in
    let base = times (pos_part least + 1) cfg.cpu_count in
    let more = if not entry.dfanout then base +ℤ pos (length entry.downstreams) else base in
    more +ℤ cfg.extra_limit

-- The loop over the limits of the hosted services: their sum, and the largest one above 0.
unfoldable pub sum_and_max : LocalMap ℤ → List MappingEntry → ℤ → ℤ → Result (ℤ × ℤ)
sum_and_max limits [] sum most = ok (sum, most)
sum_and_max limits (e ∷ es) sum most = get limits e.name >>= λ limit.
    sum_and_max limits es (sum +ℤ limit) (if ltb_ℤ most limit then limit else most)

module _ {B : Type 0} where
  -- The global limit of a leaf: the largest limit, and a share of the others.
  unfoldable pub refresh_global : Limits → CreditQueue B → Result (CreditQueue B)
  refresh_global cfg q = do
    (sum, most) ← sum_and_max q.counters.per_endpoint_limit cfg.mapping (pos 0) (pos 0)
    ok (update_global_limit q (most +ℤ cfg.scale (sum -ℤ most)))

  -- The part of `State::update_limits` that computes new limits.
  unfoldable pub refresh_limits : Limits → ℤ → Bytes → CreditQueue B → Result (CreditQueue B)
  refresh_limits cfg ratio service q = do
    entry ← or_fault (find_entry cfg.mapping service) fatal
    q' ← update_endpoint_limit q (new_limit cfg entry ratio) service
    if cfg.leaf then refresh_global cfg q' else ok q'

  -- `State::update_limits`
  unfoldable pub update_limits : Limits → Measured → Bytes → CreditQueue B → Result (CreditQueue B)
  update_limits cfg m service q =
      if not (cfg.tracked service)
      then err fatal
      else if m.due
      then refresh_limits cfg m.ratio service q
      else ok q

-- The server with what it has handed to the ring.
pub record Server : Type 0 where
  pub credit_queue : CreditQueue Datagram
  pub sent : List Datagram

-- `State::check_credit_transmission`
unfoldable pub check_credit_transmission : ℤ → Server → Result Server
check_credit_transmission now s = pop s.credit_queue >>= λ (found, q). elim found [
  | none ↦ ok (record s { credit_queue = q })
  | some d ↦ ok (record { credit_queue = q; sent = s.sent ++ stamp_queuing_time now d ∷ [] })
]

-- A Credit Request. `blank` is the buffer for the grant, `arrived` and `now` two readings of the
-- clock.
unfoldable pub handle_request :
    Limits → Measured → Datagram → ℤ → ℤ → Datagram → Server → Result Server
handle_request cfg m blank arrived now req s = do
  require (req.bytes 2 == 0) fatal
  require (req.bytes 3 == 1) fatal
  service ← extract_service req
  require (not (ltb_ℤ (signed32 (get32 (req.bytes) 22)) (pos 0))) fatal
  q₁ ← update_limits cfg m service s.credit_queue
  resp ← write_failed_dn_response req blank
  q₂ ← push q₁ (record resp { enter_queue_ts = arrived }) service (size_of_char (req.bytes 13))
  check_credit_transmission now (record s { credit_queue = q₂ })

-- A Credit Return.
unfoldable pub handle_return : ℤ → Datagram → Server → Result Server
handle_return now req s = do
  service ← extract_service req
  q ← decrement_in_flight s.credit_queue service
  check_credit_transmission now (record s { credit_queue = q })

-- `State::protocol_server`
unfoldable pub protocol_server :
    Limits → Measured → Datagram → ℤ → ℤ → Datagram → Server → Result Server
protocol_server cfg m blank arrived now req s =
    if req.bytes 1 == 1
    then handle_request cfg m blank arrived now req s
    else if req.bytes 1 == 2
    then handle_return now req s
    else err fatal
