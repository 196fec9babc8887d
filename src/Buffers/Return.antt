-- ===== src/Buffers/Return.antt =====
-- About a buffer of one kind that its holder gives back.
use roshanfer_sidecar.Base.{
  ℕ, ◌+◌, ◌<◌, ◌≡◌, ◌≢◌, refl, ap, sym, ◌∙◌, List, [], ◌∷◌, ◌++◌, Bool, true, Option, some,
  get_elem?, set, ◌==◌, if◌then◌else◌, ok, or_fault, arith, Bool-cases, length-set, inl, inr,
  get_elem?-set_self, get_elem?-set_ne, ℕ_discrete,
}
use roshanfer_sidecar.Buffers.Defs.{Buffer, Half, clear_buffer, offset, put_back, give_back}
use roshanfer_sidecar.Buffers.Owned.{
  count, count-append, here, held, held-append, IsHeld, All, All-append, All-split, InRange,
  IsOwned, here-set-some, here-zero,
}
use roshanfer_sidecar.Buffers.Keep.{offset-add}

module _ (base size : ℕ) (provided : ℕ → Bool) (h : Half) (xs : List Buffer) (b : Buffer)
    (ys : List Buffer) (inv : IsOwned base size provided h (xs ++ b ∷ ys)) (i : ℕ)
    (index : b.index ≡ base + i) (lt : i < size) where
  -- The holder of a buffer has it alone.
  returned :
      (here h.vector i ≡ 0)
      × (held (base + i) (xs ++ ys) ≡ 0)
      × ((j : ℕ) → i ≢ j → held (base + j) (xs ++ ys) ≡ held (base + j) (xs ++ b ∷ ys))
  unfolding held
  returned =
      let split = λ (k : ℕ). held-append k xs (b ∷ ys) in
      let join = λ (k : ℕ). held-append k xs ys in
      let owned = inv.owned i lt in
      (
        ground (arith, owned, split (base + i), index),
        ground (arith, owned, split (base + i), join (base + i), index),
        λ j differ. ground (arith, split (base + j), join (base + j), index, differ),
      )

  module _ (d : Buffer) (d_index : d.index ≡ b.index) (d_kind : d.is_provided ≡ b.is_provided) where
    vector' : List (Option Buffer)
    vector' = set h.vector i (some (clear_buffer d))

    here-back : (j : ℕ) → here vector' j ≡ (if i == j then 1 else here h.vector j)
    unfolding vector'
    here-back j = here-set-some h.vector i j (clear_buffer d) (omega (arith, inv.sized))

    kind-back : d.is_provided ≡ provided i
    kind-back =
        let (_, it, _) = All-split (IsHeld base size provided) xs b ys inv.held_lem in
        d_kind ∙ it.kind ∙ ap provided (omega (arith, index))

    placed-back :
        (j : ℕ) (e : Buffer)
        → get_elem? vector' j ≡ some (some e)
        → (e.index ≡ base + j) × (e.is_free ≡ true) × (e.is_provided ≡ provided j)
    unfolding vector' clear_buffer
    placed-back j e at = elim (ℕ_discrete i j) [
      | yes same ↦
          let self =
            get_elem?-set_self h.vector i (some (clear_buffer d)) (omega (arith, inv.sized)) in
          ground (arith, same, self, at, kind-back, d_index, index)
      | no differ ↦ inv.placed j e (sym (get_elem?-set_ne h.vector i j _ differ) ∙ at)
    ]

    owned-back : (j : ℕ) → j < size → here vector' j + held (base + j) (xs ++ ys) ≡ 1
    owned-back j hj = elim (ℕ_discrete i j) [
      | yes same ↦ ground (arith, here-back j, returned.1, same)
      | no differ ↦ ground (arith, here-back j, returned.2 j differ, inv.owned j hj, differ)
    ]

    back-IsOwned :
        (queue ring : List ℕ)
        → ((j : ℕ) → j < size → count (base + j) queue ≡ (if provided j then 0 else here vector' j))
        → ((j : ℕ) → j < size → count (base + j) ring ≡ (if provided j then here vector' j else 0))
        → All (InRange base size) queue
        → All (InRange base size) ring
        → IsOwned base size provided
            (record { vector = vector'; free_queue = queue; ring = ring })
            (xs ++ ys)
    unfolding vector'
    back-IsOwned queue ring hq hr rq rr =
        let (before, _, after) = All-split (IsHeld base size provided) xs b ys inv.held_lem in
        record {
          sized = length-set h.vector i _ ∙ inv.sized;
          placed = placed-back;
          owned = owned-back;
          held_lem = All-append (IsHeld base size provided) xs ys before after;
          queued = hq;
          ringed = hr;
          queue_range = rq;
          ring_range = rr;
        }

    in_range : InRange base size d.index
    in_range = omega (arith, index, d_index)

    -- A buffer that is held can be given back, and its holder has it no more.
    pub give_back-IsOwned :
        d.is_free ≡ b.is_free
        → (h' : Half) × (give_back base d h ≡ ok h') × IsOwned base size provided h' (xs ++ ys)
    unfolding give_back put_back vector' count clear_buffer
    give_back-IsOwned d_free =
        let (_, it, _) = All-split (IsHeld base size provided) xs b ys inv.held_lem in
        let hole = here-zero h.vector i returned.0 (omega (arith, inv.sized)) in
        let place : offset base d.index ≡ ok i = rw (d_index, index) (offset-add base i) in
        let taken = d_free ∙ it.taken in
        let more = λ (j : ℕ) (l : List ℕ). count-append (base + j) l (d.index ∷ []) in
        elim (Bool-cases d.is_provided) [
          | inl given ↦ (
            record { vector = vector'; free_queue = h.free_queue; ring = h.ring ++ d.index ∷ [] },
            rw (taken, place) (rw (hole, or_fault) (rw given refl)),
            back-IsOwned h.free_queue (h.ring ++ d.index ∷ [])
                (λ j hj. ground (arith, here-back j, inv.queued j hj, kind-back, given))
                (λ j hj. ground (
                  arith,
                  more j h.ring,
                  here-back j,
                  inv.ringed j hj,
                  kind-back,
                  given,
                  d_index,
                  index,
                  returned.0,
                ))
                inv.queue_range
                (All-append (InRange base size) h.ring _ inv.ring_range (in_range, tt)),
          )
          | inr queued ↦ (
            record { vector = vector'; free_queue = h.free_queue ++ d.index ∷ []; ring = h.ring },
            rw (taken, place) (rw (hole, or_fault) (rw queued refl)),
            back-IsOwned (h.free_queue ++ d.index ∷ []) h.ring
                (λ j hj. ground (
                  arith,
                  more j h.free_queue,
                  here-back j,
                  inv.queued j hj,
                  kind-back,
                  queued,
                  d_index,
                  index,
                  returned.0,
                ))
                (λ j hj. ground (arith, here-back j, inv.ringed j hj, kind-back, queued))
                (All-append (InRange base size) h.free_queue _ inv.queue_range (in_range, tt))
                inv.ring_range,
          )
        ]
