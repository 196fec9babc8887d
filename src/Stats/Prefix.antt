-- ===== src/Stats/Prefix.antt =====
-- About the sorting of so many samples xs a quantile needs.
use roshanfer_sidecar.Base.{
  ℕ, zero, suc, ◌-◌, ◌≤◌, ◌<◌, ◌≡◌, max, refl, sym, ap, ◌∙◌, inl, inr, List, [], ◌∷◌, Bool, true,
  ◌||◌, Option, some, length, get_elem?, leb, ◌==◌, Result, ok, ite, arith, subst, Bool-cases,
  if_pos, if_neg,
}
use roshanfer_sidecar.Stats.{Target, Sorting, max_quantile_sorted_index, quantile_of}

module _ {F : Type 0} (d : Discrete F) (le : F → F → Bool) where
  unfoldable pub count : F → List F → ℕ
  count x [] = 0
  count x (a ∷ xs) = ite (d a x) (suc (count x xs)) (count x xs)

  -- The same samples, in another order.
  pub record IsSame (v w : List F) : Type 0 where
    pub long : length v ≡ length w
    pub counts : (x : F) → count x v ≡ count x w

  abbrev pub AllAbove : F → List F → Type 0
  AllAbove m [] = Unit {0}
  AllAbove m (x ∷ xs) = (le m x ≡ true) × AllAbove m xs

  -- The first `k` samples are in order, and none of the others is below them.
  abbrev pub Least : ℕ → List F → Type 0
  Least zero v = Unit {0}
  Least (suc k) [] = Unit {0}
  Least (suc k) (x ∷ xs) = AllAbove x xs × Least k xs

  pub record IsOrder : Type 0 where
    pub reflexive : (a : F) → le a a ≡ true
    pub antisymmetric : (a b : F) → le a b ≡ true → le b a ≡ true → a ≡ b

  -- What the standard says of std::sort and std::partial_sort.
  pub record Sorts (s : Sorting F) : Type 0 where
    pub sort_same : (v : List F) → IsSame (s.sort v) v
    pub sort_least : (v : List F) → Least (length v) (s.sort v)
    pub partial_same : (k : ℕ) (v : List F) → IsSame (s.partial_sort k v) v
    pub partial_least : (k : ℕ) (v : List F) → Least k (s.partial_sort k v)

  AllAbove-count : (m x : F) (v : List F) → AllAbove m v → 0 < count x v → le m x ≡ true
  unfolding count
  AllAbove-count m x [] above some_x = absurd (omega (arith, some_x))
  AllAbove-count m x (a ∷ xs) (here, more) some_x = elim (d a x) [
    | yes e ↦ subst (λ b. le m b ≡ true) e here
    | no n ↦
        AllAbove-count m x xs more
          (subst (λ c. 0 < c) (if_neg (d a x) n (suc (count x xs)) (count x xs)) some_x)
  ]

  count-first : (a : F) (xs : List F) → 0 < count a (a ∷ xs)
  unfolding count
  count-first a xs =
      subst (λ c. 0 < c) (sym (if_pos (d a a) refl (suc (count a xs)) (count a xs))) (omega arith)

  count-rest : (x a : F) (v w : List F) → count x (a ∷ v) ≡ count x (a ∷ w) → count x v ≡ count x w
  unfolding count
  count-rest x a v w e = elim (d a x) [
    | yes p ↦
        let e' : suc (count x v) ≡ suc (count x w) =
          sym (if_pos (d a x) p (suc (count x v)) (count x v))
          ∙ e
          ∙ if_pos (d a x) p (suc (count x w)) (count x w) in
        omega (arith, e')
    | no n ↦
        sym (if_neg (d a x) n (suc (count x v)) (count x v))
        ∙ e
        ∙ if_neg (d a x) n (suc (count x w)) (count x w)
  ]

  -- The first sample of each is below all samples of both.
  first-above :
      (o : IsOrder) (m a : F) (xs : List F) → AllAbove a xs → 0 < count m (a ∷ xs) → le a m ≡ true
  first-above o m a xs above there = AllAbove-count a m (a ∷ xs) (o.reflexive a, above) there

  pub Least-get_elem? :
      (o : IsOrder) (k i : ℕ) (v w : List F)
      → IsSame v w
      → Least k v
      → Least k w
      → i < k
      → get_elem? v i ≡ get_elem? w i
  Least-get_elem? o zero i v w same p q lt = absurd (omega arith)
  Least-get_elem? o (suc k) i [] [] same p q lt = refl
  Least-get_elem? o (suc k) i [] (b ∷ ys) same p q lt = absurd (omega (arith, same.long))
  Least-get_elem? o (suc k) i (a ∷ xs) [] same p q lt = absurd (omega (arith, same.long))
  Least-get_elem? o (suc k) i (a ∷ xs) (b ∷ ys) same (p, ps) (q, qs) lt =
      let below : le a b ≡ true =
        first-above o b a xs p (subst (λ c. 0 < c) (sym (same.counts b)) (count-first b ys)) in
      let above : le b a ≡ true =
        first-above o a b ys q (subst (λ c. 0 < c) (same.counts a) (count-first a xs)) in
      let e : a ≡ b = o.antisymmetric a b below above in
      let rest : IsSame xs ys = record {
        long = omega (arith, same.long);
        counts = λ x. count-rest x a xs ys (same.counts x ∙ ap (λ c. count x (c ∷ ys)) (sym e));
      } in
      at_place i lt e (λ j l. Least-get_elem? o k j xs ys rest ps qs l)
    where
      at_place :
          (i : ℕ)
          → i < suc k
          → a ≡ b
          → ((j : ℕ) → j < k → get_elem? xs j ≡ get_elem? ys j)
          → get_elem? (a ∷ xs) i ≡ get_elem? (b ∷ ys) i
      at_place zero lt e later = ap (λ c. some c) e
      at_place (suc j) lt e later = later j (omega arith)

module _ {F : Type 0} (t : Target F) where
  -- The floor and the ceiling of `(n - 1) * q`, for a `q` between 0 and 1.
  abbrev pub IsBetween : Type 0
  IsBetween = (n : ℕ) → 1 < n → (t.lo n ≤ t.hi n) × (t.hi n < n)

  -- The samples up to the largest index are all that is read.
  pub quantile_of-agree :
      (n : ℕ) (f g : ℕ → Result F)
      → 0 < n
      → ((i : ℕ) → i ≤ max_quantile_sorted_index t n → f i ≡ g i)
      → quantile_of t n f ≡ quantile_of t n g
  unfolding quantile_of max_quantile_sorted_index
  quantile_of-agree n f g some_n agree = elim (Bool-cases (n == 1 || t.is_low)) [
    | inl low ↦ rw low (rw (agree 0 (omega arith)) refl)
    | inr above ↦ elim (Bool-cases t.is_high) [
      | inl high ↦
          let last : n - 1 ≤ max_quantile_sorted_index t n = ground (arith, above, high) in
          rw above (rw high (rw (agree (n - 1) last) refl))
      | inr inside ↦
          let index : max_quantile_sorted_index t n ≡ max (t.lo n) (t.hi n) =
            ground (arith, above, inside, some_n) in
          let lo = agree (t.lo n) (omega (arith, index)) in
          let hi = agree (t.hi n) (omega (arith, index)) in rw above (rw inside (rw (lo, hi) refl))
    ]
  ]

  pub quantile_of-ok :
      (n : ℕ) (f : ℕ → Result F)
      → 0 < n
      → IsBetween
      → ((i : ℕ) → i < n → (a : F) × (f i ≡ ok a))
      → (q : Option F) × (quantile_of t n f ≡ ok q)
  unfolding quantile_of
  quantile_of-ok n f some_n between read = elim (Bool-cases (n == 1 || t.is_low)) [
    | inl low ↦ let (a, e) = read 0 some_n in (some a, rw low (rw e refl))
    | inr above ↦ elim (Bool-cases t.is_high) [
      | inl high ↦
          let (a, e) = read (n - 1) (omega arith) in (some a, rw above (rw high (rw e refl)))
      | inr inside ↦
          let (le, lt) = between n (ground (arith, above, some_n)) in
          let (a, e) = read (t.lo n) (omega arith) in
          let (b, e') = read (t.hi n) lt in
          elim (Bool-cases (leb (t.hi n) (t.lo n))) [
            | inl single ↦ (some a, rw above (rw inside (rw single (rw e refl))))
            | inr pair ↦ (some (t.between n a b), rw above (rw inside (rw pair (rw (e, e') refl))))
          ]
    ]
  ]
