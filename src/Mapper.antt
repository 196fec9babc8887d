-- ===== src/Mapper.antt =====
-- src/rpc_mapper.cc: the maps that find a message by its stream at the downstream side, by its
-- stream at the upstream side, and by its identity. The maps share the messages, which are
-- references to a store; one side of the connections has one map of each kind.
pub mod Routes
mod Tests
use roshanfer_sidecar.Base.{
  ℕ, ◌+◌, ◌/◌, ◌^◌, List, [], ◌∷◌, Bool, true, false, not, Option, none, some, length, ltb, ◌==◌,
  if◌then◌else◌, Fault, fatal, out_of_range, Result, ok, err, ◌>>=◌, or_fault,
}
use roshanfer_sidecar.Base.Int.{ℤ, pos, ℤ_discrete, pattern64}
use roshanfer_sidecar.Base.Assoc.{find, assign, erase}

-- From a file descriptor and a stream to a message.
abbrev pub Streams : Type 0
Streams = List (ℤ × List (ℤ × ℕ))

-- The maps of one `ConnectionType`.
pub record Maps : Type 0 where
  pub ds_map : Streams
  pub us_map : Streams
  pub id_map : List (ℤ × ℕ)

-- What the mapper reads of a message.
pub record Ends : Type 0 where
  pub ds_stream_id : ℤ
  pub ds_fd : ℤ
  pub us_stream_id : ℤ
  pub us_fd : ℤ
  pub local_id : ℤ

-- `map.at(fd).at(stream)`
unfoldable pub at_stream : Streams → ℤ → ℤ → Option ℕ
at_stream m fd stream = elim (find ℤ_discrete fd m) [
  | none ↦ none
  | some streams ↦ find ℤ_discrete stream streams
]

-- The streams of a descriptor, none if it is new.
unfoldable pub streams_of : Streams → ℤ → List (ℤ × ℕ)
streams_of m fd = elim (find ℤ_discrete fd m) [ none ↦ [] | some streams ↦ streams ]

-- `emplace` does nothing to a key that is there, and says so.
unfoldable pub emplace : List (ℤ × ℕ) → ℤ → ℕ → Bool × List (ℤ × ℕ)
emplace m k v = elim (find ℤ_discrete k m) [
  | none ↦ (true, assign ℤ_discrete k v m)
  | some w ↦ (false, m)
]

-- `allocate_rpc`, for a message that the pool gave.
unfoldable pub allocate_rpc : Maps → ℤ → ℤ → ℕ → Result Maps
allocate_rpc m stream fd rpc =
    let (fresh, streams) = emplace (streams_of m.ds_map fd) stream rpc in
    if fresh then ok (record m { ds_map = assign ℤ_discrete fd streams m.ds_map }) else err fatal

-- `route`; `ends` reads the store.
unfoldable pub route : (ℕ → Ends) → Maps → ℤ → ℤ → ℤ → ℤ → Result Maps
route ends m ds_stream ds_fd us_stream us_fd =
    or_fault (at_stream m.ds_map ds_fd ds_stream) out_of_range >>= λ rpc.
    let (fresh, ids) = emplace m.id_map (ends rpc).local_id rpc in
    let (_, streams) = emplace (streams_of m.us_map us_fd) us_stream rpc in
    if fresh
    then ok (record m { id_map = ids; us_map = assign ℤ_discrete us_fd streams m.us_map })
    else err fatal

-- The high half of an identity.
unfoldable pub ingress_side_id : ℤ → ℕ
ingress_side_id id = pattern64 id / 2 ^ 32

-- `get_ingress_rpc`, on the maps of the ingress side.
unfoldable pub get_ingress_rpc : Maps → ℤ → Result ℕ
get_ingress_rpc m id =
    if ingress_side_id id == 0
    then err fatal
    else or_fault (find ℤ_discrete (pos (ingress_side_id id)) m.id_map) fatal

unfoldable pub get_us_rpc : Maps → ℤ → ℤ → Result ℕ
get_us_rpc m us_stream us_fd = or_fault (at_stream m.us_map us_fd us_stream) fatal

unfoldable pub get_ds_rpc : Maps → ℤ → ℤ → Result ℕ
get_ds_rpc m ds_stream ds_fd = or_fault (at_stream m.ds_map ds_fd ds_stream) fatal

-- `map.at(fd).erase(stream)`
unfoldable pub erase_stream : Streams → ℤ → ℤ → Result Streams
erase_stream m fd stream = or_fault (find ℤ_discrete fd m) out_of_range >>= λ streams.
    ok (assign ℤ_discrete fd (erase ℤ_discrete stream streams) m)

-- `remove_rpc`, up to the return of the message to the pool.
unfoldable pub remove_rpc : Maps → Ends → Result Maps
remove_rpc m e = do
  us ← erase_stream m.us_map e.us_fd e.us_stream_id
  ds ← erase_stream m.ds_map e.ds_fd e.ds_stream_id
  ok (record { ds_map = ds; us_map = us; id_map = erase ℤ_discrete e.local_id m.id_map })

-- `get_fd_concurrency`
unfoldable pub get_fd_concurrency : Maps → ℤ → Bool → Result ℕ
get_fd_concurrency m fd is_us =
    or_fault (find ℤ_discrete fd (if is_us then m.us_map else m.ds_map)) out_of_range >>= λ streams.
    ok (length streams)

-- `check_fd_exists`
unfoldable pub check_fd_exists : Maps → ℤ → Bool → Bool
check_fd_exists m fd is_us = ltb 0 (length (streams_of (if is_us then m.us_map else m.ds_map) fd))
