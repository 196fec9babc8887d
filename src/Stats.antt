-- ===== src/Stats.antt =====
-- include/quantile_estimator.hpp: the tail of the latencies of the calls, which sets the cap of the
-- ingress queue. Floats are a parameter type, and so are std::sort and std::partial_sort.
pub mod Prefix
pub mod Quantile
pub mod Batch
pub mod Example
mod Tests
use roshanfer_sidecar.Base.{
  ℕ, zero, suc, ◌+◌, ◌-◌, max, List, [], ◌∷◌, ◌++◌, Bool, true, false, ◌||◌, ◌==◌, Option, none,
  some, length, get_elem?, leb, ltb, if◌then◌else◌, undefined, Result, ok, err, ◌>>=◌, or_fault,
  not,
}
use roshanfer_sidecar.Base.Int.{ℤ, ltb_ℤ, ◌+ℤ◌}

-- What the code computes from `target_q_`: whether it is 0 or less, whether it is 1 or more, the
-- floor and the ceiling of `(n - 1) * q`, and the interpolation between two samples of `n`.
pub record Target (F : Type 0) : Type 0 where
  pub is_low : Bool
  pub is_high : Bool
  pub lo : ℕ → ℕ
  pub hi : ℕ → ℕ
  pub between : ℕ → F → F → F

-- std::sort, and std::partial_sort of so many samples.
pub record Sorting (F : Type 0) : Type 0 where
  pub sort : List F → List F
  pub partial_sort : ℕ → List F → List F

module _ {F : Type 0} (t : Target F) where
  unfoldable pub max_quantile_sorted_index : ℕ → ℕ
  max_quantile_sorted_index n =
      if leb n 1
      then n - 1
      else if t.is_low
      then 0
      else if t.is_high
      then n - 1
      else max (t.lo n) (t.hi n)

  unfoldable pub partial_sort_for_quantile : Sorting F → List F → List F
  partial_sort_for_quantile s v =
      let n = length v in
      let need = max_quantile_sorted_index n + 1 in
      if leb n 1 then v else if leb n need then s.sort v else s.partial_sort need v

  -- `s[i]`
  unfoldable pub sample_at : List F → ℕ → Result F
  sample_at s i = or_fault (get_elem? s i) undefined

  -- The quantile of `n` samples, which `at` reads.
  unfoldable pub quantile_of : ℕ → (ℕ → Result F) → Result (Option F)
  quantile_of n at =
      let one = λ (i : ℕ). at i >>= λ a. ok (some a) in
      let two = at (t.lo n) >>= λ a. at (t.hi n) >>= λ b. ok (some (t.between n a b)) in
      if n == 1 || t.is_low
      then one 0
      else if t.is_high
      then one (n - 1)
      else if leb (t.hi n) (t.lo n)
      then one (t.lo n)
      else two

  -- The quantile of samples in order; `none` is the NaN for no samples.
  unfoldable pub quantile_sorted : List F → Result (Option F)
  quantile_sorted [] = ok none
  quantile_sorted (x ∷ xs) = quantile_of (length (x ∷ xs)) (sample_at (x ∷ xs))

-- `SmoothedQuantileEstimator`: a `smoothed` that is not finite is `none`.
pub record Estimator (F : Type 0) : Type 0 where
  pub buf : List F
  pub next_flush : Option ℤ
  pub smoothed : Option F
  pub flush_updated : Bool

-- The parameters of the estimator, and the smoothing of a quantile into the value.
pub record Smoothing (F : Type 0) : Type 0 where
  pub sample_period : ℕ
  pub time_period : ℤ
  pub is_finite : F → Bool
  pub smooth : F → F → F

module _ {F : Type 0} (t : Target F) (s : Sorting F) (p : Smoothing F) where
  -- The value after a flush whose quantile is a number.
  unfoldable pub smoothed_by : Option F → F → F
  smoothed_by none q = q
  smoothed_by (some old) q = p.smooth q old

  -- A value that is not finite is lost.
  unfoldable pub finite : F → Option F
  finite v = if p.is_finite v then some v else none

  unfoldable pub store_quantile : Estimator F → Option F → Estimator F
  store_quantile e none = e
  store_quantile e (some q) =
      if p.is_finite q
      then record e { smoothed = finite (smoothed_by e.smoothed q); flush_updated = true }
      else e

  unfoldable pub flush_at : ℤ → Estimator F → Result (Estimator F)
  flush_at now e =
      let next = some (now +ℤ p.time_period) in
      elim e.buf [
        | [] ↦ ok (record e { next_flush = next })
        | x ∷ xs ↦ quantile_sorted t (partial_sort_for_quantile t s (x ∷ xs)) >>= λ q.
            ok (store_quantile (record e { buf = []; next_flush = next }) q)
      ]

  unfoldable pub or_now : ℤ → Option ℤ → ℤ
  or_now now none = now +ℤ p.time_period
  or_now now (some at) = at

  unfoldable pub update : F → ℤ → Estimator F → Result (Estimator F)
  update sample now e =
      let at = or_now now e.next_flush in
      let filled = record e { buf = e.buf ++ sample ∷ []; next_flush = some at } in
      if leb p.sample_period (length filled.buf) || not (ltb_ℤ now at)
      then flush_at now filled
      else ok filled

  unfoldable pub flush_pending : ℤ → Estimator F → Result (Estimator F)
  flush_pending now e = elim e.buf [ [] ↦ ok e | x ∷ xs ↦ flush_at now e ]

module _ {F : Type 0} where
  unfoldable pub consume_flush_updated : Estimator F → Bool × Estimator F
  consume_flush_updated e = (e.flush_updated, record e { flush_updated = false })

  -- `value()`; `nought` is 0.0.
  unfoldable pub value_of : F → Option F → F
  value_of nought none = nought
  value_of nought (some v) = v
