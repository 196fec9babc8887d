-- ===== src/Buffers/Run.antt =====
-- About the manager of the buffers with all who take buffers and give them back, the kernel too.
use roshanfer_sidecar.Base.{
  ℕ, ◌+◌, ◌-◌, ◌≡◌, refl, ap, sym, ◌∙◌, List, [], ◌∷◌, ◌++◌, Bool, false, some, ok, arith, subst,
  ltb, leb, lt→ltb, length,
}
use roshanfer_sidecar.Buffers.Defs.{Buffer, Half, get_free, get_at, give_back}
use roshanfer_sidecar.Buffers.Owned.{All, All-split, InRange, IsHeld, IsOwned}
use roshanfer_sidecar.Buffers.Keep.{get_free-IsOwned, get_at-IsOwned}
use roshanfer_sidecar.Buffers.Return.{give_back-IsOwned}
use roshanfer_sidecar.Buffers.{
  BufferManager, make_manager, get_buffer, get_udp_buffer, get_buffer_by_index,
  get_udp_buffer_by_index, free_buffer, free_udp_buffer,
}

-- The manager, and the buffers that were taken from it.
pub record World : Type 0 where
  pub manager : BufferManager
  pub tcp_out : List Buffer
  pub udp_out : List Buffer

-- Who gives a buffer back may have filled it, but it is the one that was taken.
pub record IsSame (d b : Buffer) : Type 0 where
  pub index : d.index ≡ b.index
  pub flag : d.is_free ≡ b.is_free
  pub kind : d.is_provided ≡ b.is_provided

-- A call that succeeds. The kernel picks any of the buffers in a ring, and its index comes with the
-- completion event, on which the program takes the buffer.
pub data Step (w w' : World) : Type 0 where
  gets :
      (b : Buffer) (m : BufferManager)
      → get_buffer w.manager ≡ ok (b, m)
      → w' ≡ record w { manager = m; tcp_out = b ∷ w.tcp_out }
      → Step w w'
  gets_udp :
      (b : Buffer) (m : BufferManager)
      → get_udp_buffer w.manager ≡ ok (b, m)
      → w' ≡ record w { manager = m; udp_out = b ∷ w.udp_out }
      → Step w w'
  reads :
      (i : ℕ) (xs ys : List ℕ) (b : Buffer) (m : BufferManager)
      → w.manager.tcp.ring ≡ xs ++ i ∷ ys
      → get_buffer_by_index i
          (record (w.manager) { tcp = record (w.manager.tcp) { ring = xs ++ ys } })
        ≡ ok (b, m)
      → w' ≡ record w { manager = m; tcp_out = b ∷ w.tcp_out }
      → Step w w'
  receives :
      (i : ℕ) (xs ys : List ℕ) (b : Buffer) (m : BufferManager)
      → w.manager.udp.ring ≡ xs ++ i ∷ ys
      → get_udp_buffer_by_index i
          (record (w.manager) { udp = record (w.manager.udp) { ring = xs ++ ys } })
        ≡ ok (b, m)
      → w' ≡ record w { manager = m; udp_out = b ∷ w.udp_out }
      → Step w w'
  frees :
      (xs ys : List Buffer) (b d : Buffer) (m : BufferManager)
      → w.tcp_out ≡ xs ++ b ∷ ys
      → IsSame d b
      → free_buffer (some d) w.manager ≡ ok m
      → w' ≡ record w { manager = m; tcp_out = xs ++ ys }
      → Step w w'
  frees_udp :
      (xs ys : List Buffer) (b d : Buffer) (m : BufferManager)
      → w.udp_out ≡ xs ++ b ∷ ys
      → IsSame d b
      → free_udp_buffer (some d) w.manager ≡ ok m
      → w' ≡ record w { manager = m; udp_out = xs ++ ys }
      → Step w w'

pub data Reaches (s : World) : World → Type 0 where
  begin : Reaches s s
  next : {t u : World} → Reaches s t → Step t u → Reaches s u

-- After the constructor, when nobody has a buffer.
unfoldable pub start : (ℕ → Bool) → ℕ → ℕ → World
start provided n size = record {
  manager = make_manager provided n size;
  tcp_out = [];
  udp_out = [];
}

pub record IsManaged (provided : ℕ → Bool) (n : ℕ) (w : World) : Type 0 where
  pub counted : w.manager.count ≡ n
  pub tcp : IsOwned 0 n provided w.manager.tcp w.tcp_out
  pub udp : IsOwned n n provided w.manager.udp w.udp_out

module _ (provided : ℕ → Bool) (n : ℕ) where
  module _ (base : ℕ) (h : Half) (out : List Buffer) (inv : IsOwned base n provided h out) where
    -- One that is in the queue can be taken; the place is given.
    taken :
        (index : ℕ) (rest : List ℕ)
        → h.free_queue ≡ index ∷ rest
        → (b : Buffer) × (h' : Half) × (get_free base h ≡ ok (b, h'))
          × IsOwned base n provided h' (b ∷ out)
    taken index rest q =
        let range : All (InRange base n) (index ∷ rest) =
          subst (All (InRange base n)) q inv.queue_range in
        let whole : base + (index - base) ≡ index = omega arith in
        let (b, h', e, _, owned) =
          get_free-IsOwned base n provided h out inv (index - base) rest (rw whole q)
            (omega arith) in
        (b, h', e, owned)

    picked :
        (i : ℕ) (xs ys : List ℕ)
        → h.ring ≡ xs ++ i ∷ ys
        → InRange base n i
          × (b : Buffer) × (h' : Half) × (get_at base i (record h { ring = xs ++ ys }) ≡ ok (b, h'))
          × IsOwned base n provided h' (b ∷ out)
    picked i xs ys q =
        let ranges =
          All-split (InRange base n) xs i ys (subst (All (InRange base n)) q inv.ring_range) in
        let range = ranges.1 in
        let whole : base + (i - base) ≡ i = omega arith in
        let (b, h', e, _, owned) =
          get_at-IsOwned base n provided h out inv (i - base) xs ys (rw whole q) (omega arith) in
        (
          range,
          b,
          h',
          ap (λ k. get_at base k (record h { ring = xs ++ ys })) (sym whole) ∙ e,
          owned,
        )

    back :
        (xs ys : List Buffer) (b d : Buffer)
        → out ≡ xs ++ b ∷ ys
        → IsSame d b
        → (h' : Half) × (give_back base d h ≡ ok h') × IsOwned base n provided h' (xs ++ ys)
    back xs ys b d q same =
        let inv' = subst (IsOwned base n provided h) q inv in
        let (_, it, _) = All-split (IsHeld base n provided) xs b ys inv'.held_lem in
        give_back-IsOwned base n provided h xs b ys inv' (b.index - base) (omega (arith, it.above))
          (omega (arith, it.above, it.below)) d same.index same.kind same.flag

  module _ (w : World) (inv : IsManaged provided n w) where
    pub get_buffer-IsManaged :
        (index : ℕ) (rest : List ℕ)
        → w.manager.tcp.free_queue ≡ index ∷ rest
        → (b : Buffer) × (m : BufferManager) × (get_buffer w.manager ≡ ok (b, m))
          × IsManaged provided n (record w { manager = m; tcp_out = b ∷ w.tcp_out })
    unfolding get_buffer
    get_buffer-IsManaged index rest q =
        let (b, h, e, owned) = taken 0 w.manager.tcp w.tcp_out inv.tcp index rest q in
        (
          b,
          record (w.manager) { tcp = h },
          rw e refl,
          record { counted = inv.counted; tcp = owned; udp = inv.udp },
        )

    pub get_udp_buffer-IsManaged :
        (index : ℕ) (rest : List ℕ)
        → w.manager.udp.free_queue ≡ index ∷ rest
        → (b : Buffer) × (m : BufferManager) × (get_udp_buffer w.manager ≡ ok (b, m))
          × IsManaged provided n (record w { manager = m; udp_out = b ∷ w.udp_out })
    unfolding get_udp_buffer
    get_udp_buffer-IsManaged index rest q =
        let (b, h, e, owned) = taken n w.manager.udp w.udp_out inv.udp index rest q in
        (
          b,
          record (w.manager) { udp = h },
          rw (inv.counted) (rw e refl),
          record { counted = inv.counted; tcp = inv.tcp; udp = owned },
        )

    pub get_buffer_by_index-IsManaged :
        (i : ℕ) (xs ys : List ℕ)
        → w.manager.tcp.ring ≡ xs ++ i ∷ ys
        → (b : Buffer) × (m : BufferManager) × (get_buffer_by_index i
              (record (w.manager) { tcp = record (w.manager.tcp) { ring = xs ++ ys } })
            ≡ ok (b, m))
          × IsManaged provided n (record w { manager = m; tcp_out = b ∷ w.tcp_out })
    unfolding get_buffer_by_index
    get_buffer_by_index-IsManaged i xs ys q =
        let (range, b, h, e, owned) = picked 0 w.manager.tcp w.tcp_out inv.tcp i xs ys q in
        (
          b,
          record (w.manager) { tcp = h },
          rw (lt→ltb i w.manager.count (omega (arith, inv.counted, range.1))) (rw e refl),
          record { counted = inv.counted; tcp = owned; udp = inv.udp },
        )

    pub get_udp_buffer_by_index-IsManaged :
        (i : ℕ) (xs ys : List ℕ)
        → w.manager.udp.ring ≡ xs ++ i ∷ ys
        → (b : Buffer) × (m : BufferManager) × (get_udp_buffer_by_index i
              (record (w.manager) { udp = record (w.manager.udp) { ring = xs ++ ys } })
            ≡ ok (b, m))
          × IsManaged provided n (record w { manager = m; udp_out = b ∷ w.udp_out })
    unfolding get_udp_buffer_by_index
    get_udp_buffer_by_index-IsManaged i xs ys q =
        let (range, b, h, e, owned) = picked n w.manager.udp w.udp_out inv.udp i xs ys q in
        let low : ltb i w.manager.count ≡ false = ground (arith, inv.counted, range.0) in
        let high : leb (w.manager.count + length w.manager.udp.vector) i ≡ false =
          ground (arith, inv.counted, range.1, inv.udp.sized) in
        (
          b,
          record (w.manager) { udp = h },
          rw (low, high) (rw (inv.counted) (rw e refl)),
          record { counted = inv.counted; tcp = inv.tcp; udp = owned },
        )

    pub free_buffer-IsManaged :
        (xs ys : List Buffer) (b d : Buffer)
        → w.tcp_out ≡ xs ++ b ∷ ys
        → IsSame d b
        → (m : BufferManager) × (free_buffer (some d) w.manager ≡ ok m)
          × IsManaged provided n (record w { manager = m; tcp_out = xs ++ ys })
    unfolding free_buffer
    free_buffer-IsManaged xs ys b d q same =
        let (h, e, owned) = back 0 w.manager.tcp w.tcp_out inv.tcp xs ys b d q same in
        (
          record (w.manager) { tcp = h },
          rw e refl,
          record { counted = inv.counted; tcp = owned; udp = inv.udp },
        )

    pub free_udp_buffer-IsManaged :
        (xs ys : List Buffer) (b d : Buffer)
        → w.udp_out ≡ xs ++ b ∷ ys
        → IsSame d b
        → (m : BufferManager) × (free_udp_buffer (some d) w.manager ≡ ok m)
          × IsManaged provided n (record w { manager = m; udp_out = xs ++ ys })
    unfolding free_udp_buffer
    free_udp_buffer-IsManaged xs ys b d q same =
        let (h, e, owned) = back n w.manager.udp w.udp_out inv.udp xs ys b d q same in
        (
          record (w.manager) { udp = h },
          rw (inv.counted) (rw e refl),
          record { counted = inv.counted; tcp = inv.tcp; udp = owned },
        )
