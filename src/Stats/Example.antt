-- ===== src/Stats/Example.antt =====
-- A sorting of numbers, for the tests.
use roshanfer_sidecar.Base.{
  ℕ, zero, suc, ◌≡◌, refl, ap, ◌∙◌, inl, inr, List, [], ◌∷◌, true, length, leb, if◌then◌else◌,
  arith, Bool-cases, ℕ_discrete, ite,
}
use roshanfer_sidecar.Stats.{Sorting}
use roshanfer_sidecar.Stats.Prefix.{count, IsSame, AllAbove, Least, IsOrder, Sorts}

unfoldable pub insert : ℕ → List ℕ → List ℕ
insert x [] = x ∷ []
insert x (y ∷ ys) = let rest = insert x ys in if leb x y then x ∷ y ∷ ys else y ∷ rest

unfoldable pub insertion_sort : List ℕ → List ℕ
insertion_sort [] = []
insertion_sort (x ∷ xs) = insert x (insertion_sort xs)

abbrev pub sorting : Sorting ℕ
sorting = record { sort = insertion_sort; partial_sort = λ k. insertion_sort }

pub leb-IsOrder : IsOrder ℕ_discrete leb
leb-IsOrder = record {
  reflexive = λ a. ground arith;
  antisymmetric = λ a b p q. ground (arith, p, q);
}

length-insert : (x : ℕ) (v : List ℕ) → length (insert x v) ≡ suc (length v)
unfolding insert
length-insert x [] = refl
length-insert x (y ∷ ys) = ground (arith, length-insert x ys)

count-insert :
    (z x : ℕ) (v : List ℕ) → count ℕ_discrete leb z (insert x v) ≡ count ℕ_discrete leb z (x ∷ v)
unfolding insert count
count-insert z x [] = refl
count-insert z x (y ∷ ys) = ground (arith, count-insert z x ys)

insert-AllAbove :
    (m x : ℕ) (v : List ℕ)
    → leb m x ≡ true
    → AllAbove ℕ_discrete leb m v
    → AllAbove ℕ_discrete leb m (insert x v)
unfolding insert
insert-AllAbove m x [] h all = (h, tt)
insert-AllAbove m x (y ∷ ys) h (here, more) = elim (Bool-cases (leb x y)) [
  | inl below ↦ rw below (h, (here, more))
  | inr above ↦ rw above (here, insert-AllAbove m x ys h more)
]

AllAbove-below :
    (x y : ℕ) (v : List ℕ)
    → leb x y ≡ true
    → AllAbove ℕ_discrete leb y v
    → AllAbove ℕ_discrete leb x v
AllAbove-below x y [] h all = tt
AllAbove-below x y (z ∷ zs) h (here, more) = (ground (arith, h, here), AllAbove-below x y zs h more)

insert-Least :
    (k x : ℕ) (v : List ℕ)
    → ((j : ℕ) → Least ℕ_discrete leb j v)
    → Least ℕ_discrete leb k (insert x v)
unfolding insert
insert-Least zero x v all = tt
insert-Least (suc k) x [] all = (tt, all k)
insert-Least (suc k) x (y ∷ ys) all = elim (Bool-cases (leb x y)) [
  | inl below ↦ rw below ((below, AllAbove-below x y ys below (all 1).0), all k)
  | inr above ↦ rw above (
    insert-AllAbove y x ys (ground (arith, above)) (all 1).0,
    insert-Least k x ys (λ j. (all (suc j)).1),
  )
]

insertion_sort-IsSame : (v : List ℕ) → IsSame ℕ_discrete leb (insertion_sort v) v
unfolding insertion_sort count
insertion_sort-IsSame [] = record { long = refl; counts = λ x. refl }
insertion_sort-IsSame (x ∷ xs) =
    let rest = insertion_sort-IsSame xs in
    record {
      long = length-insert x (insertion_sort xs) ∙ ap suc rest.long;
      counts = λ z.
          count-insert z x (insertion_sort xs)
          ∙ ap (λ n. ite (ℕ_discrete x z) (suc n) n) (rest.counts z);
    }

insertion_sort-Least : (v : List ℕ) (k : ℕ) → Least ℕ_discrete leb k (insertion_sort v)
unfolding insertion_sort
insertion_sort-Least [] zero = tt
insertion_sort-Least [] (suc k) = tt
insertion_sort-Least (x ∷ xs) k = insert-Least k x (insertion_sort xs) (insertion_sort-Least xs)

pub sorting-Sorts : Sorts ℕ_discrete leb sorting
sorting-Sorts = record {
  sort_same = insertion_sort-IsSame;
  sort_least = λ v. insertion_sort-Least v (length v);
  partial_same = λ k. insertion_sort-IsSame;
  partial_least = λ k v. insertion_sort-Least v k;
}
