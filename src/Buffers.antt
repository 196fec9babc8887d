-- ===== src/Buffers.antt =====
-- src/buffer_manager.cc and src/buffer.cc: the buffers for TCP and for UDP, each of which is in its
-- vector, or with who took it; those that the kernel may pick are in one of the rings of
-- src/ring_wrapper.cc besides, the others in a queue while they are free.
pub mod Defs
pub mod Owned
pub mod Keep
pub mod Return
pub mod Make
pub mod Run
pub mod Reach
mod Tests
use roshanfer_sidecar.Base.{
  ℕ, zero, suc, ◌+◌, List, [], ◌∷◌, ◌++◌, Bool, true, false, ◌||◌, not, Option, none, some, length,
  ltb, leb, if◌then◌else◌, Fault, fatal, Result, ok, err, ◌>>=◌, ◌>>◌, require, or_fault,
}
use roshanfer_sidecar.Buffers.Defs.{Buffer, Half, empty, provide, keep, get_free, get_at, give_back}

-- `Operation`
pub data Operation : Type 0 where
  accept read write connect cancel rcvmsg sendmsg cleared : Operation

-- `UserData`: `conn` and `listener` are references.
pub record UserData : Type 0 where
  pub index : ℕ
  pub buffer : Option Buffer
  pub in_ring : Bool
  pub listener : Option ℕ
  pub conn : Option ℕ
  pub op : Operation

-- `UserData::get_buffer`
unfoldable pub take_buffer : UserData → Result (Buffer × UserData)
take_buffer ud = or_fault ud.buffer fatal >>= λ b. ok (b, record ud { buffer = none })

-- `UserData::set_buffer`. A buffer that is replaced is destroyed, which stops the process.
unfoldable pub set_buffer : Option Buffer → UserData → Result UserData
set_buffer buffer ud = do
  b ← or_fault buffer fatal
  elim ud.buffer [ none ↦ ok (record ud { buffer = some b }) | some old ↦ err fatal ]

-- `UserData::clear`
unfoldable pub clear_user_data : UserData → Result UserData
clear_user_data ud = elim ud.buffer [
  | some b ↦ err fatal
  | none ↦ ok (record {
    index = ud.index;
    buffer = none;
    in_ring = false;
    listener = none;
    conn = none;
    op = cleared;
  })
]

pub record BufferManager : Type 0 where
  pub count : ℕ
  pub tcp : Half
  pub udp : Half
  pub user_data_queue : List UserData

-- `UserData(i)`
abbrev pub new_user_data : ℕ → UserData
new_user_data i = record {
  index = i;
  buffer = none;
  in_ring = false;
  listener = none;
  conn = none;
  op = accept;
}

-- What the loop of the constructor has made after its first rounds; `provided i` is the outcome of
-- the comparison `i < 0.8 * count` of floats.
unfoldable pub make_half : (ℕ → Bool) → ℕ → ℕ → ℕ → Half
make_half provided base size zero = empty
make_half provided base size (suc i) =
    let rest = make_half provided base size i in
    if provided i then provide base size i rest else keep base size i rest

unfoldable pub make_user_data : ℕ → List UserData
make_user_data zero = []
make_user_data (suc i) = make_user_data i ++ new_user_data i ∷ []

-- The constructor. A buffer's last byte is not used.
unfoldable pub make_manager : (ℕ → Bool) → ℕ → ℕ → BufferManager
make_manager provided count buffer_size = record {
  count = count;
  tcp = make_half provided 0 buffer_size count;
  udp = make_half provided count 256 count;
  user_data_queue = make_user_data count;
}

unfoldable pub get_buffer : BufferManager → Result (Buffer × BufferManager)
get_buffer m = get_free 0 m.tcp >>= λ (b, h). ok (b, record m { tcp = h })

unfoldable pub get_udp_buffer : BufferManager → Result (Buffer × BufferManager)
get_udp_buffer m = get_free m.count m.udp >>= λ (b, h). ok (b, record m { udp = h })

unfoldable pub get_buffer_by_index : ℕ → BufferManager → Result (Buffer × BufferManager)
get_buffer_by_index index m = do
  require (ltb index m.count) fatal
  (b, h) ← get_at 0 index m.tcp
  ok (b, record m { tcp = h })

unfoldable pub get_udp_buffer_by_index : ℕ → BufferManager → Result (Buffer × BufferManager)
get_udp_buffer_by_index index m = do
  require (not (ltb index m.count || leb (m.count + length m.udp.vector) index)) fatal
  (b, h) ← get_at m.count index m.udp
  ok (b, record m { udp = h })

-- A null pointer stops the process.
unfoldable pub free_buffer : Option Buffer → BufferManager → Result BufferManager
free_buffer buffer m = do
  b ← or_fault buffer fatal
  h ← give_back 0 b m.tcp
  ok (record m { tcp = h })

unfoldable pub free_udp_buffer : Option Buffer → BufferManager → Result BufferManager
free_udp_buffer buffer m = do
  b ← or_fault buffer fatal
  h ← give_back m.count b m.udp
  ok (record m { udp = h })

unfoldable pub first_user_data : BufferManager → List UserData → Result (UserData × BufferManager)
first_user_data m [] = err fatal
first_user_data m (ud ∷ uds) = ok (ud, record m { user_data_queue = uds })

unfoldable pub get_user_data : BufferManager → Result (UserData × BufferManager)
get_user_data m = first_user_data m m.user_data_queue

unfoldable pub free_user_data : UserData → BufferManager → Result BufferManager
free_user_data ud m = do
  require (not ud.in_ring) fatal
  fresh ← clear_user_data ud
  ok (record m { user_data_queue = m.user_data_queue ++ fresh ∷ [] })
