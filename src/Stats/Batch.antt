-- ===== src/Stats/Batch.antt =====
-- About `update` of `SmoothedQuantileEstimator`.
use roshanfer_sidecar.Base.{
  ◌<◌, ◌≤◌, true, false, ◌≡◌, refl, sym, ap, ◌∙◌, ◌⊎◌, inl, inr, List, [], ◌∷◌, ◌++◌, ◌||◌, not,
  Option, none, some, length, length-append, leb, ok, arith, Bool-cases,
}
use roshanfer_sidecar.Base.Int.{ℤ, ltb_ℤ, ◌+ℤ◌, ◌<ℤ◌}
use roshanfer_sidecar.Stats.{
  Target, Sorting, Smoothing, Estimator, partial_sort_for_quantile, store_quantile, flush_at,
  or_now, update, quantile_sorted, finite, smoothed_by,
}
use roshanfer_sidecar.Stats.Prefix.{IsBetween}
use roshanfer_sidecar.Stats.Quantile.{quantile_sorted-ok}

module _ {F : Type 0} (t : Target F) (s : Sorting F) (p : Smoothing F) where
  store_quantile-buf :
      (e : Estimator F) (q : Option F)
      → ((store_quantile t s p e q).buf ≡ e.buf)
        × ((store_quantile t s p e q).next_flush ≡ e.next_flush)
  unfolding store_quantile
  store_quantile-buf e none = (refl, refl)
  store_quantile-buf e (some q) = elim (Bool-cases (p.is_finite q)) [
    | inl finite ↦ (rw finite refl, rw finite refl)
    | inr lost ↦ (rw lost refl, rw lost refl)
  ]

  -- What a flush at `now` of the samples `v` makes of the value: a quantile that is a number is
  -- smoothed into it, any other leaves it as it was.
  abbrev pub Smooths : Option F → Estimator F → Estimator F → Type 0
  Smooths q e e' =
      (((q ≡ none) ⊎ ((x : F) × (q ≡ some x) × (p.is_finite x ≡ false)))
        × (e'.smoothed ≡ e.smoothed)
        × (e'.flush_updated ≡ e.flush_updated))
      ⊎ ((x : F) × (q ≡ some x)
          × (p.is_finite x ≡ true)
          × (e'.smoothed ≡ finite t s p (smoothed_by t s p e.smoothed x))
          × (e'.flush_updated ≡ true))

  store_quantile-Smooths : (e : Estimator F) (q : Option F) → Smooths q e (store_quantile t s p e q)
  unfolding store_quantile
  store_quantile-Smooths e none = inl (inl refl, refl, refl)
  store_quantile-Smooths e (some q) = elim (Bool-cases (p.is_finite q)) [
    | inl number ↦ inr (q, refl, number, rw number refl, rw number refl)
    | inr lost ↦ inl (inr (q, refl, lost), rw lost refl, rw lost refl)
  ]

  -- The samples `v` were flushed at `now`: the buffer is empty, the next flush is a period later, and
  -- their quantile went into the value.
  abbrev pub Flushed : ℤ → List F → Estimator F → Estimator F → Type 0
  Flushed now v e e' =
      (e'.buf ≡ [])
      × (e'.next_flush ≡ some (now +ℤ p.time_period))
      × (q : Option F) × (quantile_sorted t (partial_sort_for_quantile t s v) ≡ ok q)
      × Smooths q e e'

  flush_at-Flushed :
      IsBetween t
      → (now : ℤ) (e : Estimator F) (sample : F) (older : List F) → e.buf ≡ older ++ sample ∷ []
      → (e' : Estimator F) × (flush_at t s p now e ≡ ok e') × Flushed now e.buf e e'
  unfolding flush_at
  flush_at-Flushed between now e sample older is = by_buf e.buf refl
    where
      by_buf :
          (b : List F)
          → e.buf ≡ b
          → (e' : Estimator F) × (flush_at t s p now e ≡ ok e') × Flushed now e.buf e e'
      by_buf [] q =
          absurd (omega (arith, ap length (sym q ∙ is), length-append older (sample ∷ [])))
      by_buf (x ∷ xs) q =
          let (v, found) = quantile_sorted-ok t between (partial_sort_for_quantile t s (x ∷ xs)) in
          let emptied : Estimator F = record e {
            buf = [];
            next_flush = some (now +ℤ p.time_period);
          } in
          let stored = store_quantile-buf emptied v in
          (
            store_quantile t s p emptied v,
            rw (flush_at, q) (rw found refl),
            (
              stored.0,
              stored.1,
              v,
              ap (λ b. quantile_sorted t (partial_sort_for_quantile t s b)) q ∙ found,
              store_quantile-Smooths emptied v,
            ),
          )

  -- With a quantile between 0 and 1 `update` always returns. If the samples with the new one are as
  -- many as a flush takes, or it is time, they are all flushed: their quantile is computed and, if it
  -- is a finite number, smoothed into the value, and the next flush is a period later. Otherwise the
  -- sample is in the buffer behind those that were there, it is before the time of the next flush,
  -- which is a period from now if there was none, and the value is as it was.
  pub update-Batches :
      IsBetween t
      → (sample : F) (now : ℤ) (e : Estimator F)
      → (e' : Estimator F) × (update t s p sample now e ≡ ok e')
        × ((((p.sample_period ≤ length (e.buf ++ sample ∷ []))
                ⊎ (ltb_ℤ now (or_now t s p now e.next_flush) ≡ false))
              × Flushed now (e.buf ++ sample ∷ []) e e')
            ⊎ ((e'.buf ≡ e.buf ++ sample ∷ [])
                × (length e'.buf < p.sample_period)
                × (at : ℤ) × (e'.next_flush ≡ some at)
                × (at ≡ or_now t s p now e.next_flush)
                × (now <ℤ at)
                × (e'.smoothed ≡ e.smoothed)
                × (e'.flush_updated ≡ e.flush_updated)))
  unfolding update
  update-Batches between sample now e =
      let at = or_now t s p now e.next_flush in
      let filled : Estimator F = record e { buf = e.buf ++ sample ∷ []; next_flush = some at } in
      elim (Bool-cases (leb p.sample_period (length filled.buf) || not (ltb_ℤ now at))) [
        | inl full ↦
            let (e', run, flushed) = flush_at-Flushed between now filled sample e.buf refl in
            let due : (p.sample_period ≤ length filled.buf) ⊎ (ltb_ℤ now at ≡ false) =
              elim (Bool-cases (leb p.sample_period (length filled.buf))) [
                | inl many ↦ inl (ground (arith, many))
                | inr few ↦ inr (ground (arith, full, few))
              ] in
            (e', rw full run, inl (due, flushed))
        | inr more ↦ (
          filled,
          rw more refl,
          inr (refl, ground (arith, more), at, refl, refl, ground (arith, more), refl, refl),
        )
      ]
