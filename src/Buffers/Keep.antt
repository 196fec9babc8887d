-- ===== src/Buffers/Keep.antt =====
-- About the calls that take a buffer and give it back, for the buffers of one kind.
use roshanfer_sidecar.Base.{
  ℕ, ◌+◌, ◌<◌, ◌≡◌, ◌≢◌, refl, ap, sym, ◌∙◌, List, ◌∷◌, ◌++◌, Bool, true, false, Option, none, some,
  get_elem?, set, ◌==◌, if◌then◌else◌, undefined, fatal, subst, ok, arith, length-set,
  get_elem?-set_self, get_elem?-set_ne, get_elem?-lt, ℕ_discrete,
}
use roshanfer_sidecar.Buffers.Defs.{Buffer, Half, offset, get_first, get_free, get_at}
use roshanfer_sidecar.Buffers.Owned.{
  count, count-append, one_if, here, held, All, All-append, All-split, InRange, IsOwned,
  here-set-none, ChecksOut, here-one, check_out_lem,
}

pub offset-add : (base i : ℕ) → offset base (base + i) ≡ ok i
unfolding offset
offset-add base i = ground arith

module _ (base size : ℕ) (provided : ℕ → Bool) where
  module _ (h : Half) (out : List Buffer) (inv : IsOwned base size provided h out) (i : ℕ)
      (b : Buffer) (v' : List (Option Buffer)) (c : ChecksOut i h.vector b v') where
    -- The buffer that was checked out.
    out-lem :
        (i < size)
        × (b.index ≡ base + i)
        × (b.is_free ≡ false)
        × (b.is_provided ≡ provided i)
        × (here h.vector i ≡ 1)
    unfolding here one_if
    out-lem =
        let (old, at, e) = c.was in
        let (index, free, kind) = inv.placed i old at in
        let lt = get_elem?-lt h.vector i _ at in
        (
          omega (arith, lt, inv.sized),
          ground (arith, e, index),
          ground (arith, e),
          ground (arith, e, kind),
          ground (arith, at),
        )

    here-out : (j : ℕ) → here v' j ≡ (if i == j then 0 else here h.vector j)
    here-out j = rw (c.now) (here-set-none h.vector i j)

    placed-out :
        (j : ℕ) (d : Buffer)
        → get_elem? v' j ≡ some (some d)
        → (d.index ≡ base + j) × (d.is_free ≡ true) × (d.is_provided ≡ provided j)
    placed-out j d e = elim (ℕ_discrete i j) [
      | yes same ↦
          let self = get_elem?-set_self h.vector i none (omega (arith, inv.sized, out-lem.0)) in
          absurd (ground (arith, c.now, same, self, e))
      | no differ ↦
          inv.placed j d
            (sym (get_elem?-set_ne h.vector i j none differ) ∙ ground (arith, c.now, e))
    ]

    pub take-IsOwned :
        (queue ring : List ℕ)
        → ((j : ℕ) → j < size → count (base + j) queue ≡ (if provided j then 0 else here v' j))
        → ((j : ℕ) → j < size → count (base + j) ring ≡ (if provided j then here v' j else 0))
        → All (InRange base size) queue
        → All (InRange base size) ring
        → IsOwned base size provided
            (record { vector = v'; free_queue = queue; ring = ring })
            (b ∷ out)
    unfolding held
    take-IsOwned queue ring hq hr rq rr =
        let (lt, index, free, kind, was) = out-lem in
        record {
          sized = rw (c.now) (length-set h.vector i none ∙ inv.sized);
          placed = placed-out;
          owned = λ j hj. ground (arith, here-out j, inv.owned j hj, was, index);
          held_lem = (
            record {
              taken = free;
              above = omega arith;
              below = omega arith;
              kind = kind ∙ ap provided (omega arith);
            },
            inv.held_lem,
          );
          queued = hq;
          ringed = hr;
          queue_range = rq;
          ring_range = rr;
        }

  -- Where a buffer that is in the vector stands.
  module _ (h : Half) (out : List Buffer) (inv : IsOwned base size provided h out) where
    found :
        (i : ℕ)
        → i < size
        → count (base + i) h.free_queue + count (base + i) h.ring ≢ 0
        → (b : Buffer) × (get_elem? h.vector i ≡ some (some b))
    unfolding here one_if
    found i lt some_where =
        here-one h.vector i
          (ground (arith, inv.queued i lt, inv.ringed i lt, some_where, inv.owned i lt))

    in_queue :
        (i : ℕ) (rest : List ℕ)
        → h.free_queue ≡ (base + i) ∷ rest
        → i < size
        → (provided i ≡ false)
          × ((j : ℕ)
              → j < size
              → count (base + j) rest
                ≡ (if provided j then 0 else if i == j then 0 else here h.vector j))
    unfolding count
    in_queue i rest q lt = (
      ground (arith, q, inv.queued i lt),
      λ j hj. ground (arith, q, inv.queued j hj, inv.queued i lt, inv.owned i lt),
    )

    -- A buffer is taken from the queue as long as the queue has one.
    pub get_free-IsOwned :
        (i : ℕ) (rest : List ℕ)
        → h.free_queue ≡ (base + i) ∷ rest
        → i < size
        → (b : Buffer) × (h' : Half) × (get_free base h ≡ ok (b, h'))
          × (b.index ≡ base + i)
          × IsOwned base size provided h' (b ∷ out)
    unfolding get_free get_first count
    get_free-IsOwned i rest q lt =
        let (kind, counts) = in_queue i rest q lt in
        let (b, at) = found i lt (ground (arith, q)) in
        let (index, free, _) = inv.placed i b at in
        let v' = set h.vector i none in
        let taken : Buffer = record b { is_free = false } in
        let c : ChecksOut i h.vector taken v' = record { was = (b, at, refl); now = refl } in
        let ranges : All (InRange base size) ((base + i) ∷ rest) =
          subst (All (InRange base size)) q inv.queue_range in
        (
          taken,
          record { vector = v'; free_queue = rest; ring = h.ring },
          rw (q, get_first)
              (rw (offset-add base i) (rw (check_out_lem undefined i h.vector b at free) refl)),
          index,
          take-IsOwned h out inv i taken v' c rest h.ring
              (λ j hj. rw (here-set-none h.vector i j) (counts j hj))
              (λ j hj. ground (arith, here-set-none h.vector i j, inv.ringed j hj, kind)) ranges.1
              (inv.ring_range),
        )

    in_ring :
        (i : ℕ) (xs ys : List ℕ)
        → h.ring ≡ xs ++ (base + i) ∷ ys
        → i < size
        → (provided i ≡ true)
          × ((j : ℕ)
              → j < size
              → count (base + j) (xs ++ ys)
                ≡ (if provided j then (if i == j then 0 else here h.vector j) else 0))
    unfolding count
    in_ring i xs ys q lt =
        let split = λ (k : ℕ). count-append k xs ((base + i) ∷ ys) in
        let join = λ (k : ℕ). count-append k xs ys in
        (
          ground (arith, q, inv.ringed i lt, split (base + i)),
          λ j hj. ground (
            arith,
            q,
            inv.ringed j hj,
            inv.ringed i lt,
            inv.owned i lt,
            split (base + j),
            split (base + i),
            join (base + j),
          ),
        )

    -- A buffer that the kernel picked from the ring is taken by its index.
    pub get_at-IsOwned :
        (i : ℕ) (xs ys : List ℕ)
        → h.ring ≡ xs ++ (base + i) ∷ ys
        → i < size
        → (b : Buffer) × (h' : Half) × (get_at base (base + i) (record h { ring = xs ++ ys })
            ≡ ok (b, h'))
          × (b.index ≡ base + i)
          × IsOwned base size provided h' (b ∷ out)
    unfolding get_at count
    get_at-IsOwned i xs ys q lt =
        let (kind, counts) = in_ring i xs ys q lt in
        let (b, at) =
          found i lt (ground (arith, q, count-append (base + i) xs ((base + i) ∷ ys))) in
        let (index, free, _) = inv.placed i b at in
        let v' = set h.vector i none in
        let taken : Buffer = record b { is_free = false } in
        let c : ChecksOut i h.vector taken v' = record { was = (b, at, refl); now = refl } in
        let ranges =
          All-split (InRange base size) xs (base + i) ys
            (subst (All (InRange base size)) q inv.ring_range) in
        (
          taken,
          record { vector = v'; free_queue = h.free_queue; ring = xs ++ ys },
          rw (offset-add base i) (rw (check_out_lem fatal i h.vector b at free) refl),
          index,
          take-IsOwned h out inv i taken v' c h.free_queue (xs ++ ys)
              (λ j hj. ground (arith, here-set-none h.vector i j, inv.queued j hj, kind))
              (λ j hj. rw (here-set-none h.vector i j) (counts j hj)) (inv.queue_range)
              (All-append (InRange base size) xs ys ranges.0 ranges.2),
        )
