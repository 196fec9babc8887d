-- ===== src/Buffers/Defs.antt =====
-- The buffers of one kind in src/buffer_manager.cc. A buffer at `i` in the vector has index
-- `base + i`: 0 is the base for TCP, the number of the buffers for TCP that for UDP.
use roshanfer_sidecar.Base.{
  ℕ, ◌+◌, ◌-◌, List, [], ◌∷◌, ◌++◌, Bool, true, false, Option, none, some, get_elem?, set, ltb,
  if◌then◌else◌, Fault, fatal, undefined, out_of_range, Result, ok, err, ◌>>=◌, or_fault,
}
use roshanfer_sidecar.Base.Int.{ℤ, pos}

-- `Buffer`, without its bytes and its address.
pub record Buffer : Type 0 where
  pub index : ℕ
  pub size : ℕ
  pub filled : ℕ
  pub is_free : Bool
  pub is_provided : Bool
  pub enter_queue_ts : ℤ

-- A null pointer in `vector` is the place of a buffer that someone took. `ring` has the buffers
-- that were added to the ring, up to the one that the kernel picks next.
pub record Half : Type 0 where
  pub vector : List (Option Buffer)
  pub free_queue : List ℕ
  pub ring : List ℕ

-- `Buffer(length, id)`
abbrev pub new_buffer : ℕ → ℕ → Buffer
new_buffer len id = record {
  index = id;
  size = len - 1;
  filled = 0;
  is_free = true;
  is_provided = false;
  enter_queue_ts = pos 0;
}

-- `Buffer::clear`
unfoldable pub clear_buffer : Buffer → Buffer
clear_buffer b = record b { filled = 0; is_free = true; enter_queue_ts = pos 0 }

-- `Buffer::set_filled`
unfoldable pub set_filled : ℕ → Buffer → Result Buffer
set_filled f b = if ltb b.size f then err fatal else ok (record b { filled = f })

abbrev pub empty : Half
empty = record { vector = []; free_queue = []; ring = [] }

-- A round of the constructor for a buffer that goes to the ring.
unfoldable pub provide : ℕ → ℕ → ℕ → Half → Half
provide base len i h = record h {
  vector = h.vector ++ some (record (new_buffer len (base + i)) { is_provided = true }) ∷ [];
  ring = h.ring ++ (base + i) ∷ [];
}

-- A round of the constructor for a buffer that goes to the queue.
unfoldable pub keep : ℕ → ℕ → ℕ → Half → Half
keep base len i h = record h {
  vector = h.vector ++ some (new_buffer len (base + i)) ∷ [];
  free_queue = h.free_queue ++ (base + i) ∷ [];
}

-- `index - base` as the argument of `at`. Below the base it wraps around, beyond every vector.
unfoldable pub offset : ℕ → ℕ → Result ℕ
offset base index = if ltb index base then err out_of_range else ok (index - base)

-- What `get_buffer` and its like do once they have the place; `missing` is what a null pointer
-- there leads to.
unfoldable pub check_out : Fault → ℕ → List (Option Buffer) → Result (Buffer × List (Option Buffer))
check_out missing i v = do
  slot ← or_fault (get_elem? v i) out_of_range
  b ← or_fault slot missing
  if b.is_free then ok (record b { is_free = false }, set v i none) else err fatal

-- `get_buffer`, `get_udp_buffer`: nothing checks that the pointer is not null.
unfoldable pub get_first : ℕ → Half → List ℕ → Result (Buffer × Half)
get_first base h [] = err fatal
get_first base h (index ∷ rest) = do
  i ← offset base index
  (b, v) ← check_out undefined i h.vector
  ok (b, record h { vector = v; free_queue = rest })

unfoldable pub get_free : ℕ → Half → Result (Buffer × Half)
get_free base h = get_first base h h.free_queue

-- `get_buffer_by_index`, `get_udp_buffer_by_index`, after the check of the range.
unfoldable pub get_at : ℕ → ℕ → Half → Result (Buffer × Half)
get_at base index h = do
  i ← offset base index
  (b, v) ← check_out fatal i h.vector
  ok (b, record h { vector = v })

-- `vector.at(i) = std::move(buffer)`: a buffer that is there is destroyed, which stops the process.
unfoldable pub put_back : ℕ → Buffer → List (Option Buffer) → Result (List (Option Buffer))
put_back i b v = or_fault (get_elem? v i) out_of_range >>= λ slot. elim slot [
  | none ↦ ok (set v i (some b))
  | some old ↦ err fatal
]

-- `free_buffer`, `free_udp_buffer` of a pointer that is not null.
unfoldable pub give_back : ℕ → Buffer → Half → Result Half
give_back base b h = if b.is_free then err fatal else (do
  i ← offset base b.index
  v ← put_back i (clear_buffer b) h.vector
  ok (
      if b.is_provided
      then record h { vector = v; ring = h.ring ++ b.index ∷ [] }
      else record h { vector = v; free_queue = h.free_queue ++ b.index ∷ [] }))
