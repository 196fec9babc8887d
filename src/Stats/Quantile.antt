-- ===== src/Stats/Quantile.antt =====
-- About `flush_at`, which sorts only as many samples as the quantile needs.
use roshanfer_sidecar.Base.{
  ℕ, zero, suc, ◌+◌, ◌≤◌, ◌<◌, ◌≡◌, refl, sym, ap, ◌∙◌, inl, inr, List, [], ◌∷◌, Bool, false,
  Option, none, some, length, get_elem?, leb, undefined, ok, or_fault, arith, Bool-cases,
}
use roshanfer_sidecar.Stats.{
  Target, Sorting, max_quantile_sorted_index, partial_sort_for_quantile, sample_at, quantile_of,
  quantile_sorted,
}
use roshanfer_sidecar.Stats.Prefix.{
  IsSame, Least, IsOrder, Sorts, Least-get_elem?, IsBetween, quantile_of-agree, quantile_of-ok,
}

get_elem?-below :
    {F : Type 0} (v : List F) (i : ℕ) → i < length v → (a : F) × (get_elem? v i ≡ some a)
get_elem?-below [] i lt = absurd (omega arith)
get_elem?-below (x ∷ xs) zero lt = (x, refl)
get_elem?-below (x ∷ xs) (suc i) lt = get_elem?-below xs i (omega arith)

get_elem?-empty :
    {F : Type 0} (w : List F) → length w ≡ 0 → (i : ℕ) → get_elem? {A = F} [] i ≡ get_elem? w i
get_elem?-empty [] long i = refl
get_elem?-empty (x ∷ xs) long i = absurd (omega (arith, long))

module _ {F : Type 0} (t : Target F) where
  quantile_sorted-agree :
      (v w : List F)
      → length v ≡ length w
      → ((i : ℕ) → i ≤ max_quantile_sorted_index t (length v) → get_elem? v i ≡ get_elem? w i)
      → quantile_sorted t v ≡ quantile_sorted t w
  unfolding quantile_sorted sample_at
  quantile_sorted-agree [] [] long agree = refl
  quantile_sorted-agree [] (y ∷ ys) long agree = absurd (omega (arith, long))
  quantile_sorted-agree (x ∷ xs) [] long agree = absurd (omega (arith, long))
  quantile_sorted-agree (x ∷ xs) (y ∷ ys) long agree =
      quantile_of-agree t (length (x ∷ xs)) (sample_at t (x ∷ xs)) (sample_at t (y ∷ ys))
        (omega arith) (λ i le. ap (λ o. or_fault o undefined) (agree i le))
      ∙ ap (λ n. quantile_of t n (sample_at t (y ∷ ys))) long

  pub quantile_sorted-ok :
      IsBetween t → (v : List F) → (q : Option F) × (quantile_sorted t v ≡ ok q)
  unfolding quantile_sorted sample_at
  quantile_sorted-ok between [] = (none, refl)
  quantile_sorted-ok between (x ∷ xs) =
      quantile_of-ok t (length (x ∷ xs)) (sample_at t (x ∷ xs)) (omega arith) between (λ i lt.
        let (a, e) = get_elem?-below (x ∷ xs) i lt in (a, ap (λ o. or_fault o undefined) e))

  module _ (d : Discrete F) (le : F → F → Bool) where
    IsSame-sym : (v w : List F) → IsSame d le v w → IsSame d le w v
    IsSame-sym v w p = record { long = sym p.long; counts = λ x. sym (p.counts x) }

    IsSame-trans : (u v w : List F) → IsSame d le u v → IsSame d le v w → IsSame d le u w
    IsSame-trans u v w p q = record {
      long = p.long ∙ q.long;
      counts = λ x. p.counts x ∙ q.counts x;
    }

    Least-fewer : (k m : ℕ) (v : List F) → k ≤ m → Least d le m v → Least d le k v
    Least-fewer zero m v h p = tt
    Least-fewer (suc k) m [] h p = tt
    Least-fewer (suc k) zero (x ∷ xs) h p = absurd (omega arith)
    Least-fewer (suc k) (suc m) (x ∷ xs) h (p, ps) = (p, Least-fewer k m xs (omega arith) ps)

    module _ (o : IsOrder d le) (s : Sorting F) (laws : Sorts d le s) where
      -- The samples that are read are the same after a whole sort.
      agrees :
          (k : ℕ) (v w : List F)
          → IsSame d le w v
          → Least d le k w
          → k ≤ length v
          → max_quantile_sorted_index t (length w) < k
          → quantile_sorted t w ≡ quantile_sorted t (s.sort v)
      agrees k v w same least le_n few =
          let same_w : IsSame d le w (s.sort v) =
            IsSame-trans w v (s.sort v) same (IsSame-sym (s.sort v) v (laws.sort_same v)) in
          quantile_sorted-agree w (s.sort v) same_w.long (λ i h.
            Least-get_elem? d le o k i w (s.sort v) same_w least
              (Least-fewer k (length v) (s.sort v) le_n (laws.sort_least v))
              (omega (arith, h, few)))

      refl-IsSame : (v : List F) → IsSame d le v v
      refl-IsSame v = record { long = refl; counts = λ x. refl }

      several :
          (v : List F)
          → leb (length v) 1 ≡ false
          → quantile_sorted t (partial_sort_for_quantile t s v) ≡ quantile_sorted t (s.sort v)
      unfolding partial_sort_for_quantile
      several v many =
          let need = max_quantile_sorted_index t (length v) + 1 in
          elim (Bool-cases (leb (length v) need)) [
            | inl whole ↦ rw many (rw whole refl)
            | inr part ↦
                let w = s.partial_sort need v in
                let same = laws.partial_same need v in
                let few : max_quantile_sorted_index t (length w) < need =
                  omega (arith, ap (max_quantile_sorted_index t) same.long) in
                rw many (
                  rw part
                    (agrees need v w same (laws.partial_least need v) (ground (arith, part)) few))
          ]

      partial-sort :
          (v : List F)
          → quantile_sorted t (partial_sort_for_quantile t s v) ≡ quantile_sorted t (s.sort v)
      unfolding partial_sort_for_quantile max_quantile_sorted_index
      partial-sort [] =
          quantile_sorted-agree [] (s.sort []) (sym (laws.sort_same []).long)
            (λ i h. get_elem?-empty (s.sort []) (laws.sort_same []).long i)
      partial-sort (x ∷ []) =
          agrees 1 (x ∷ []) (x ∷ []) (refl-IsSame (x ∷ [])) (tt, tt) (omega arith) (omega arith)
      partial-sort (x ∷ y ∷ zs) = several (x ∷ y ∷ zs) (ground arith)

      -- For any samples, with a quantile between 0 and 1: `quantile_sorted` finds the same in the
      -- samples that `partial_sort_for_quantile` leaves, of which as many are in order as are
      -- needed, as in all the samples in order, and it never reads beyond them.
      pub partial_sort_for_quantile-quantile_sorted :
          IsBetween t
          → (v : List F)
          → (q : Option F) × (quantile_sorted t (partial_sort_for_quantile t s v) ≡ ok q)
            × (quantile_sorted t (s.sort v) ≡ ok q)
      partial_sort_for_quantile-quantile_sorted between v =
          let (q, e) = quantile_sorted-ok between (s.sort v) in (q, partial-sort v ∙ e, e)
