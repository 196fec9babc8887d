-- ===== src/Buffers/Owned.antt =====
-- About the buffers of one kind: the places where a buffer can be.
use roshanfer_sidecar.Base.{
  ℕ, zero, suc, ◌+◌, ◌-◌, ◌≤◌, ◌<◌, ◌≡◌, refl, List, [], ◌∷◌, ◌++◌, Bool, true, false, Option, none,
  some, length, get_elem?, set, ◌==◌, if◌then◌else◌, Fault, ok, or_fault, arith,
}
use roshanfer_sidecar.Buffers.Defs.{Buffer, Half, check_out}

-- How often a number is in a list.
unfoldable pub count : ℕ → List ℕ → ℕ
count k [] = 0
count k (x ∷ xs) = (if x == k then 1 else 0) + count k xs

pub count-append : (k : ℕ) (xs ys : List ℕ) → count k (xs ++ ys) ≡ count k xs + count k ys
unfolding count
count-append k [] ys = omega arith
count-append k (x ∷ xs) ys = ground (arith, count-append k xs ys)

-- 1 for a buffer, 0 for a null pointer.
unfoldable pub one_if : Option (Option Buffer) → ℕ
one_if none = 0
one_if (some none) = 0
one_if (some (some b)) = 1

-- Whether the buffer of place `i` is in the vector.
unfoldable pub here : List (Option Buffer) → ℕ → ℕ
here v i = one_if (get_elem? v i)

-- How many of the buffers in a list have an index.
unfoldable pub held : ℕ → List Buffer → ℕ
held k [] = 0
held k (b ∷ bs) = (if b.index == k then 1 else 0) + held k bs

pub held-append : (k : ℕ) (xs ys : List Buffer) → held k (xs ++ ys) ≡ held k xs + held k ys
unfolding held
held-append k [] ys = omega arith
held-append k (x ∷ xs) ys = ground (arith, held-append k xs ys)

-- A buffer that someone holds, of a half with `size` buffers.
pub record IsHeld (base size : ℕ) (provided : ℕ → Bool) (b : Buffer) : Type 0 where
  pub taken : b.is_free ≡ false
  pub above : base ≤ b.index
  pub below : b.index < base + size
  pub kind : b.is_provided ≡ provided (b.index - base)

abbrev pub All {ℓ κ} : {A : Type ℓ} → (A → Type κ) → List A → Type κ
All P [] = Unit
All P (x ∷ xs) = P x × All P xs

pub All-append {ℓ κ} :
    {A : Type ℓ} (P : A → Type κ) (xs ys : List A) → All P xs → All P ys → All P (xs ++ ys)
All-append P [] ys p q = q
All-append P (x ∷ xs) ys p q = (p.0, All-append P xs ys p.1 q)

-- The part of an `All` before, at and after a member.
pub All-split {ℓ κ} :
    {A : Type ℓ} (P : A → Type κ) (xs : List A) (x : A) (ys : List A)
    → All P (xs ++ x ∷ ys)
    → All P xs × P x × All P ys
All-split P [] x ys p = (tt, p.0, p.1)
All-split P (z ∷ xs) x ys p =
    let (before, it, after) = All-split P xs x ys p.1 in ((p.0, before), it, after)

abbrev pub InRange : ℕ → ℕ → ℕ → Type 0
InRange base size j = base ≤ j × j < base + size

-- Each of the `size` buffers is in the vector or with one of those who hold `out`; one that is in
-- the vector is free, and in the ring once or in the queue once, as its kind is.
pub record IsOwned (base size : ℕ) (provided : ℕ → Bool) (h : Half) (out : List Buffer)
    : Type 0 where
  pub sized : length h.vector ≡ size
  pub placed :
      (i : ℕ) (b : Buffer)
      → get_elem? h.vector i ≡ some (some b)
      → (b.index ≡ base + i) × (b.is_free ≡ true) × (b.is_provided ≡ provided i)
  pub owned : (i : ℕ) → i < size → here h.vector i + held (base + i) out ≡ 1
  pub held_lem : All (IsHeld base size provided) out
  pub queued :
      (i : ℕ)
      → i < size
      → count (base + i) h.free_queue ≡ (if provided i then 0 else here h.vector i)
  pub ringed :
      (i : ℕ) → i < size → count (base + i) h.ring ≡ (if provided i then here h.vector i else 0)
  pub queue_range : All (InRange base size) h.free_queue
  pub ring_range : All (InRange base size) h.ring

-- A vector after a write.
pub here-set-none :
    (v : List (Option Buffer)) (i j : ℕ) → here (set v i none) j ≡ (if i == j then 0 else here v j)
unfolding here one_if
here-set-none [] i j = ground arith
here-set-none (x ∷ v) zero zero = refl
here-set-none (x ∷ v) zero (suc j) = ground arith
here-set-none (x ∷ v) (suc i) zero = ground arith
here-set-none (x ∷ v) (suc i) (suc j) = ground (arith, here-set-none v i j)

pub here-set-some :
    (v : List (Option Buffer)) (i j : ℕ) (b : Buffer)
    → i < length v
    → here (set v i (some b)) j ≡ (if i == j then 1 else here v j)
unfolding here one_if
here-set-some [] i j b h = absurd (omega arith)
here-set-some (x ∷ v) zero zero b h = refl
here-set-some (x ∷ v) zero (suc j) b h = ground arith
here-set-some (x ∷ v) (suc i) zero b h = ground arith
here-set-some (x ∷ v) (suc i) (suc j) b h = ground (arith, here-set-some v i j b)

pub get_elem?-append :
    (v : List (Option Buffer)) (x : Option Buffer) (j : ℕ)
    → get_elem? (v ++ x ∷ []) j ≡ (if j == length v then some x else get_elem? v j)
get_elem?-append [] x zero = refl
get_elem?-append [] x (suc j) = ground arith
get_elem?-append (y ∷ v) x zero = ground arith
get_elem?-append (y ∷ v) x (suc j) = ground (arith, get_elem?-append v x j)

-- What a check-out gives: the buffer of a place, which is null after that.
pub record ChecksOut (i : ℕ) (v : List (Option Buffer)) (b : Buffer) (v' : List (Option Buffer))
    : Type 0 where
  pub was :
      (old : Buffer) × (get_elem? v i ≡ some (some old)) × (b ≡ record old { is_free = false })
  pub now : v' ≡ set v i none

-- What a place has, by the count.
pub here-one :
    (v : List (Option Buffer)) (i : ℕ)
    → here v i ≡ 1
    → (b : Buffer) × (get_elem? v i ≡ some (some b))
unfolding here one_if
here-one [] i h = absurd (omega arith)
here-one (none ∷ v) zero h = absurd (omega arith)
here-one (some b ∷ v) zero h = (b, refl)
here-one (x ∷ v) (suc i) h = here-one v i h

pub here-zero :
    (v : List (Option Buffer)) (i : ℕ) → here v i ≡ 0 → i < length v → get_elem? v i ≡ some none
unfolding here one_if
here-zero [] i h lt = absurd (omega arith)
here-zero (none ∷ v) zero h lt = refl
here-zero (some b ∷ v) zero h lt = absurd (omega arith)
here-zero (x ∷ v) (suc i) h lt = here-zero v i h (omega arith)

pub check_out_lem :
    (missing : Fault) (i : ℕ) (v : List (Option Buffer)) (b : Buffer)
    → get_elem? v i ≡ some (some b)
    → b.is_free ≡ true
    → check_out missing i v ≡ ok (record b { is_free = false }, set v i none)
unfolding check_out
check_out_lem missing i v b at free = rw (at, or_fault) (rw free)
