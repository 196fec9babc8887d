-- ===== src/Buffers/Tests.antt =====
-- Runs of the buffer manager with three buffers of each kind, of which two go to the kernel.
use roshanfer_sidecar.Base.{
  ℕ, ◌≡◌, refl, [], ◌∷◌, Bool, true, false, none, some, err, fatal, ok, arith, ltb,
}
use roshanfer_sidecar.Buffers.Defs.{
  Buffer, new_buffer, provide, keep, offset, check_out, get_first, get_free, get_at,
}
use roshanfer_sidecar.Buffers.Owned.{held}
use roshanfer_sidecar.Buffers.Run.{World, gets_udp, reads, Reaches, begin, next, start, IsManaged}
use roshanfer_sidecar.Buffers.Reach.{Reaches-IsManaged, Reaches-get_buffer, Reaches-free_buffer}
use roshanfer_sidecar.Buffers.{
  BufferManager, make_half, make_user_data, make_manager, get_buffer, get_udp_buffer,
  get_buffer_by_index, free_buffer, free_udp_buffer,
}

abbrev two_given : ℕ → Bool
two_given i = ltb i 2

abbrev begun : World
begun = record {
  manager = record {
    count = 3;
    tcp = record {
      vector =
          some (record (new_buffer 65 0) { is_provided = true })
          ∷ some (record (new_buffer 65 1) { is_provided = true })
          ∷ some (new_buffer 65 2)
          ∷ [];
      free_queue = 2 ∷ [];
      ring = 0 ∷ 1 ∷ [];
    };
    udp = record {
      vector =
          some (record (new_buffer 256 3) { is_provided = true })
          ∷ some (record (new_buffer 256 4) { is_provided = true })
          ∷ some (new_buffer 256 5)
          ∷ [];
      free_queue = 5 ∷ [];
      ring = 3 ∷ 4 ∷ [];
    };
    user_data_queue = make_user_data 3;
  };
  tcp_out = [];
  udp_out = [];
}

-- The kernel has picked the second buffer for TCP, and the program has taken it.
abbrev picked : Buffer
picked = record (new_buffer 65 1) { is_free = false; is_provided = true }

abbrev after_read : World
after_read = record begun {
  manager = record (begun.manager) {
    tcp = record {
      vector =
          some (record (new_buffer 65 0) { is_provided = true })
          ∷ none
          ∷ some (new_buffer 65 2)
          ∷ [];
      free_queue = 2 ∷ [];
      ring = 0 ∷ [];
    };
  };
  tcp_out = picked ∷ [];
}

-- The program has taken the one buffer for UDP that is in the queue.
abbrev after_get : World
after_get = record after_read {
  manager = record (after_read.manager) {
    udp = record {
      vector =
          some (record (new_buffer 256 3) { is_provided = true })
          ∷ some (record (new_buffer 256 4) { is_provided = true })
          ∷ none
          ∷ [];
      free_queue = [];
      ring = 3 ∷ 4 ∷ [];
    };
  };
  udp_out = record (new_buffer 256 5) { is_free = false } ∷ [];
}

start_run : start two_given 3 65 ≡ begun
unfolding start make_manager make_half provide keep
start_run = refl

read_run : Reaches (start two_given 3 65) after_read
unfolding start make_manager make_half provide keep get_buffer_by_index get_at offset check_out
read_run = next begin (reads 1 (0 ∷ []) [] picked (after_read.manager) refl refl refl)

get_run : Reaches (start two_given 3 65) after_get
unfolding get_udp_buffer get_free get_first offset check_out
get_run =
    next read_run
      (gets_udp (record (new_buffer 256 5) { is_free = false }) (after_get.manager) refl refl)

-- A second buffer for UDP that the kernel may not use is not there.
get_none : get_udp_buffer (after_get.manager) ≡ err fatal
unfolding get_udp_buffer get_free get_first
get_none = refl

Reaches-IsManaged_example : IsManaged two_given 3 after_get
Reaches-IsManaged_example = Reaches-IsManaged two_given 3 65 get_run

Reaches-get_buffer_example :
    ((b : Buffer) × (m : BufferManager) × (get_buffer (after_read.manager) ≡ ok (b, m))
      × (held b.index (picked ∷ []) ≡ 0))
    × ((b : Buffer) × (m : BufferManager) × (get_udp_buffer (after_read.manager) ≡ ok (b, m))
        × (held b.index [] ≡ 0))
unfolding held
Reaches-get_buffer_example =
    Reaches-get_buffer two_given 3 65 after_read read_run 2 2 (omega arith) (omega arith) refl refl
      refl refl

Reaches-free_buffer_example :
    ((m : BufferManager) × (free_buffer (some (record picked { filled = 60 })) (after_get.manager)
        ≡ ok m))
    × ((m : BufferManager) × (free_udp_buffer
            (some (record (new_buffer 256 5) { is_free = false; filled = 30 }))
            (after_get.manager)
          ≡ ok m))
Reaches-free_buffer_example =
    Reaches-free_buffer two_given 3 65 after_get get_run [] [] [] [] picked
      (record (new_buffer 256 5) { is_free = false }) (record picked { filled = 60 })
      (record (new_buffer 256 5) { is_free = false; filled = 30 }) refl
      (record { index = refl; flag = refl; kind = refl }) refl
      (record { index = refl; flag = refl; kind = refl })
