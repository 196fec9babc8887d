-- ===== src/Base/Assoc.antt =====
-- std::map and std::unordered_map as association lists. A key is `Discrete`.
use mathlib.Core.Path.{◌≡◌, refl}
use mathlib.Core.Logic.{ite}
use mathlib.Core.List.{List, [], ◌∷◌}
use mathlib.Core.Option.{Option, none, some}
use native.Mathlib.Omega.{arith}
use native.Mathlib.Decide.{ℕ_discrete}
use roshanfer_sidecar.Base.Lists.{Bytes}

unfoldable pub Bytes_discrete : Discrete Bytes
Bytes_discrete = hlevel ℕ_discrete

module _ {ℓ} {K V : Type ℓ} (d : Discrete K) where
  unfoldable pub find : K → List (K × V) → Option V
  find k [] = none
  find k ((j, v) ∷ m) = ite (d j k) (some v) (find k m)

  -- `m[k] = v`
  unfoldable pub assign : K → V → List (K × V) → List (K × V)
  assign k v [] = (k, v) ∷ []
  assign k v ((j, w) ∷ m) = ite (d j k) ((k, v) ∷ m) ((j, w) ∷ assign k v m)

  unfoldable pub erase : K → List (K × V) → List (K × V)
  erase k [] = []
  erase k ((j, w) ∷ m) = ite (d j k) (erase k m) ((j, w) ∷ erase k m)

  pub find-assign :
      (k j : K) (v : V) (m : List (K × V)) → find j (assign k v m) ≡ ite (d k j) (some v) (find j m)
  unfolding find assign
  find-assign k j v [] = refl
  find-assign k j v ((i, w) ∷ m) = ground (arith, find-assign k j v m)

  pub find-erase : (k j : K) (m : List (K × V)) → find j (erase k m) ≡ ite (d k j) none (find j m)
  unfolding find erase
  find-erase k j [] = ground arith
  find-erase k j ((i, w) ∷ m) = ground (arith, find-erase k j m)
