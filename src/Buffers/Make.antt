-- ===== src/Buffers/Make.antt =====
-- About the buffers of one kind that the constructor of src/buffer_manager.cc makes.
use roshanfer_sidecar.Base.{
  ℕ, zero, suc, ◌+◌, ◌<◌, ◌≡◌, refl, sym, ◌∙◌, List, [], ◌∷◌, ◌++◌, Bool, true, false, Option, some,
  length, get_elem?, ◌==◌, if◌then◌else◌, arith, Bool-cases, inl, inr, length-append, ℕ_discrete,
}
use roshanfer_sidecar.Buffers.Defs.{Buffer, Half, new_buffer, provide, keep}
use roshanfer_sidecar.Buffers.Owned.{
  count, count-append, one_if, here, held, All, All-append, InRange, IsOwned, get_elem?-append,
}
use roshanfer_sidecar.Buffers.{make_half}

All-map {ℓ κ} :
    {A : Type ℓ} (P Q : A → Type κ) (xs : List A) → ((x : A) → P x → Q x) → All P xs → All Q xs
All-map P Q [] f p = tt
All-map P Q (x ∷ xs) f p = (f x p.0, All-map P Q xs f p.1)

here-append :
    (v : List (Option Buffer)) (b : Buffer) (j : ℕ)
    → here (v ++ some b ∷ []) j ≡ (if j == length v then 1 else here v j)
unfolding here one_if
here-append v b j = ground (arith, get_elem?-append v (some b) j)

-- A list of numbers below `base + k` does not have `base + k`.
count-beyond : (base k : ℕ) (xs : List ℕ) → All (InRange base k) xs → count (base + k) xs ≡ 0
unfolding count
count-beyond base k [] a = refl
count-beyond base k (x ∷ xs) a = ground (arith, count-beyond base k xs a.1)

module _ (base len k : ℕ) (provided : ℕ → Bool) (h : Half)
    (inv : IsOwned base k provided h []) where
  wider : (xs : List ℕ) → All (InRange base k) xs → All (InRange base (suc k)) xs
  wider xs = All-map (InRange base k) (InRange base (suc k)) xs (λ x r. (r.0, omega (arith, r.1)))

  module _ (b : Buffer) (index : b.index ≡ base + k) (free : b.is_free ≡ true)
      (kind : b.is_provided ≡ provided k) where
    placed-more :
        (i : ℕ) (d : Buffer)
        → get_elem? (h.vector ++ some b ∷ []) i ≡ some (some d)
        → (d.index ≡ base + i) × (d.is_free ≡ true) × (d.is_provided ≡ provided i)
    placed-more i d at = elim (ℕ_discrete i k) [
      | yes same ↦
          ground
            (arith, same, at, inv.sized, get_elem?-append h.vector (some b) i, index, free, kind)
      | no differ ↦
          inv.placed i d
            (sym (get_elem?-append h.vector (some b) i ∙ ground (arith, differ, inv.sized)) ∙ at)
    ]

    here-more : (i : ℕ) → here (h.vector ++ some b ∷ []) i ≡ (if i == k then 1 else here h.vector i)
    here-more i = ground (arith, inv.sized, here-append h.vector b i)

    more-IsOwned :
        (queue ring : List ℕ)
        → ((i : ℕ)
            → i < suc k
            → count (base + i) queue
              ≡ (if provided i then 0 else if i == k then 1 else here h.vector i))
        → ((i : ℕ)
            → i < suc k
            → count (base + i) ring
              ≡ (if provided i then (if i == k then 1 else here h.vector i) else 0))
        → All (InRange base (suc k)) queue
        → All (InRange base (suc k)) ring
        → IsOwned base
            (suc k)
            provided
            (record { vector = h.vector ++ some b ∷ []; free_queue = queue; ring = ring })
            []
    unfolding held
    more-IsOwned queue ring hq hr rq rr = record {
      sized = omega (arith, length-append h.vector (some b ∷ []), inv.sized);
      placed = placed-more;
      owned = λ i hi. elim (ℕ_discrete i k) [
        | yes same ↦ ground (arith, here-more i, same)
        | no differ ↦ ground (arith, here-more i, inv.owned i (omega arith), differ)
      ];
      held_lem = tt;
      queued = λ i hi. rw (here-more i) (hq i hi);
      ringed = λ i hi. rw (here-more i) (hr i hi);
      queue_range = rq;
      ring_range = rr;
    }

  -- How a queue of the invariant goes on when `base + k` is added.
  added :
      (xs : List ℕ) (f : ℕ → ℕ)
      → All (InRange base k) xs
      → ((i : ℕ) → i < k → count (base + i) xs ≡ f i)
      → (i : ℕ) → i < suc k
      → count (base + i) (xs ++ (base + k) ∷ []) ≡ (if i == k then 1 else f i)
  unfolding count
  added xs f r was i hi = elim (ℕ_discrete i k) [
    | yes same ↦
        ground (arith, same, count-append (base + k) xs ((base + k) ∷ []), count-beyond base k xs r)
    | no differ ↦
        ground (arith, differ, count-append (base + i) xs ((base + k) ∷ []), was i (omega arith))
  ]

  same :
      (xs : List ℕ) (f : ℕ → ℕ)
      → All (InRange base k) xs
      → ((i : ℕ) → i < k → count (base + i) xs ≡ f i)
      → (i : ℕ) → i < suc k
      → count (base + i) xs ≡ (if i == k then 0 else f i)
  same xs f r was i hi = elim (ℕ_discrete i k) [
    | yes it ↦ ground (arith, it, count-beyond base k xs r)
    | no differ ↦ ground (arith, differ, was i (omega arith))
  ]

  last_range : InRange base (suc k) (base + k)
  last_range = omega arith

  provide-IsOwned : provided k ≡ true → IsOwned base (suc k) provided (provide base len k h) []
  unfolding provide
  provide-IsOwned e =
      more-IsOwned (record (new_buffer len (base + k)) { is_provided = true }) refl refl (sym e)
        h.free_queue (h.ring ++ (base + k) ∷ [])
        (λ i hi. ground (arith, e, same h.free_queue _ inv.queue_range inv.queued i hi))
        (λ i hi. ground (arith, e, added h.ring _ inv.ring_range inv.ringed i hi))
        (wider _ inv.queue_range)
        (All-append (InRange base (suc k)) h.ring _ (wider _ inv.ring_range) (last_range, tt))

  keep-IsOwned : provided k ≡ false → IsOwned base (suc k) provided (keep base len k h) []
  unfolding keep
  keep-IsOwned e =
      more-IsOwned (new_buffer len (base + k)) refl refl (sym e) (h.free_queue ++ (base + k) ∷ [])
        h.ring (λ i hi. ground (arith, e, added h.free_queue _ inv.queue_range inv.queued i hi))
        (λ i hi. ground (arith, e, same h.ring _ inv.ring_range inv.ringed i hi))
        (All-append (InRange base (suc k)) h.free_queue _ (wider _ inv.queue_range)
          (last_range, tt))
        (wider _ inv.ring_range)

pub make_half-IsOwned :
    (provided : ℕ → Bool) (base len k : ℕ)
    → IsOwned base k provided (make_half provided base len k) []
unfolding make_half
make_half-IsOwned provided base len zero = record {
  sized = refl;
  placed = λ i b e. cc;
  owned = λ i lt. absurd (omega arith);
  held_lem = tt;
  queued = λ i lt. absurd (omega arith);
  ringed = λ i lt. absurd (omega arith);
  queue_range = tt;
  ring_range = tt;
}
make_half-IsOwned provided base len (suc k) = elim (Bool-cases (provided k)) [
  | inl e ↦ rw e (provide-IsOwned base len k provided _ (make_half-IsOwned provided base len k) e)
  | inr e ↦ rw e (keep-IsOwned base len k provided _ (make_half-IsOwned provided base len k) e)
]
