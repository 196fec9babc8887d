-- ===== src/Stats/Tests.antt =====
-- Tests of include/quantile_estimator.hpp, and the theorem about it at concrete samples.
use roshanfer_sidecar.Base.{
  ℕ, ◌+◌, ◌-◌, ◌<◌, ◌≤◌, ◌≡◌, ◌⊎◌, length, refl, List, [], ◌∷◌, true, false, Option, none, some,
  leb, ok, arith, ℕ_discrete,
}
use roshanfer_sidecar.Base.Int.{ℤ, pos, ◌<ℤ◌, ltb_ℤ}
use roshanfer_sidecar.Stats.{
  Target, Smoothing, Estimator, partial_sort_for_quantile, quantile_sorted, update, or_now,
}
use roshanfer_sidecar.Stats.Example.{sorting, leb-IsOrder, sorting-Sorts}
use roshanfer_sidecar.Stats.Batch.{Flushed, update-Batches}
use roshanfer_sidecar.Stats.Quantile.{partial_sort_for_quantile-quantile_sorted}

-- A quantile between the last but one of the samples and the last.
abbrev target : Target ℕ
target = record {
  is_low = false;
  is_high = false;
  lo = λ n. n - 2;
  hi = λ n. n - 1;
  between = λ n a b. b;
}

abbrev samples : List ℕ
samples = 3 ∷ 9 ∷ 4 ∷ []

partial_sort_for_quantile-quantile_sorted_example :
    (q : Option ℕ) × (quantile_sorted target (partial_sort_for_quantile target sorting samples)
      ≡ ok q)
    × (quantile_sorted target (sorting.sort samples) ≡ ok q)
partial_sort_for_quantile-quantile_sorted_example =
    partial_sort_for_quantile-quantile_sorted target ℕ_discrete leb leb-IsOrder sorting
      sorting-Sorts (λ n h. (omega arith, omega arith)) samples

abbrev smoothing : Smoothing ℕ
smoothing = record {
  sample_period = 2;
  time_period = pos 200;
  is_finite = λ n. true;
  smooth = λ q old. q + old;
}

-- The second sample flushes both.
second_flushes :
    update target sorting smoothing 5
      (pos 10)
      (record { buf = 8 ∷ []; next_flush = some (pos 200); smoothed = none; flush_updated = false })
    ≡ ok (record { buf = []; next_flush = some (pos 210); smoothed = some 8; flush_updated = true })
unfolding update roshanfer_sidecar.Stats.flush_at quantile_sorted partial_sort_for_quantile
    roshanfer_sidecar.Stats.max_quantile_sorted_index roshanfer_sidecar.Stats.Example.insertion_sort
    roshanfer_sidecar.Stats.Example.insert roshanfer_sidecar.Stats.quantile_of
    roshanfer_sidecar.Stats.sample_at roshanfer_sidecar.Stats.store_quantile
    roshanfer_sidecar.Base.Int.◌+ℤ◌ roshanfer_sidecar.Stats.finite
    roshanfer_sidecar.Stats.smoothed_by
second_flushes = refl

abbrev fresh : Estimator ℕ
fresh = record { buf = []; next_flush = none; smoothed = none; flush_updated = false }

update-Batches_example :
    (e' : Estimator ℕ) × (update target sorting smoothing 8 (pos 10) fresh ≡ ok e')
    × ((((2 ≤ length {A = ℕ} (8 ∷ []))
            ⊎ (ltb_ℤ (pos 10) (or_now target sorting smoothing (pos 10) none) ≡ false))
          × Flushed target sorting smoothing (pos 10) (8 ∷ []) fresh e')
        ⊎ ((e'.buf ≡ 8 ∷ [])
            × (length e'.buf < 2)
            × (at : ℤ) × (e'.next_flush ≡ some at)
            × (at ≡ or_now target sorting smoothing (pos 10) none)
            × (pos 10 <ℤ at)
            × (e'.smoothed ≡ none)
            × (e'.flush_updated ≡ false)))
update-Batches_example =
    update-Batches target sorting smoothing (λ n h. (omega arith, omega arith)) 8 (pos 10) fresh
