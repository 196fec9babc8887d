-- ===== src/FastMap/Build.antt =====
-- About the constructor of the map and the lookups in the map that it makes.
use roshanfer_sidecar.Base.{
  ℕ, ◌%◌, ◌^◌, ◌≡◌, ◌≢◌, ap, sym, ◌∙◌, ◌⊎◌, inl, inr, List, [], ◌∷◌, true, false, some, Bytes,
  length, get_elem?, set, bytes_eq, bytes_eq_sound, bytes_eq_refl, arith, Bool-cases, Option-cases,
  get_elem?-set_self, get_elem?-set_ne, get_elem?-lt, length-set, ℕ_discrete,
}
use roshanfer_sidecar.FastMap.{Slot, slot_index, occupied, fill, mem_key}
use roshanfer_sidecar.FastMap.Hash.{fnv1a64}

module _ {T : Type 0} where
  -- A slot for a key.
  abbrev filled : Slot T → Bytes → ℕ → Slot T
  filled s k h = record s { key = k; len = length k % 2 ^ 32; fp = h }

  module _ (cap seed : ℕ) where
    -- One round of the loop: the slot is free, and the rest is filled after it.
    fill_step :
        (k : Bytes) (ks : List Bytes) (tmp out : List (Slot T))
        → fill cap seed (k ∷ ks) tmp ≡ some out
        → let i = slot_index cap (fnv1a64 k seed) in
          (s : Slot T) × (get_elem? tmp i ≡ some s)
          × (occupied s ≡ false)
          × (fill cap seed ks (set tmp i (filled s k (fnv1a64 k seed))) ≡ some out)
    unfolding fill
    fill_step k ks tmp out h =
        elim (Option-cases (get_elem? tmp (slot_index cap (fnv1a64 k seed)))) [
          | inl e ↦ absurd (ground arith)
          | inr (s, e) ↦ (s, e, ground arith, ground arith)
        ]

    -- What is taken stays as it is.
    fill_keeps :
        (ks : List Bytes) (tmp out : List (Slot T)) (i : ℕ) (s : Slot T)
        → fill cap seed ks tmp ≡ some out
        → get_elem? tmp i ≡ some s
        → occupied s ≡ true
        → get_elem? out i ≡ some s
    unfolding fill
    fill_keeps [] tmp out i s h at o = ground arith
    fill_keeps (k ∷ ks) tmp out i s h at o =
        let j : ℕ = slot_index cap (fnv1a64 k seed) in
        let (s', at', free, rest) = fill_step k ks tmp out h in
        let ne : j ≢ i = λ e. ground (arith, at, at', o, free, ap (get_elem? tmp) e) in
        fill_keeps ks _ out i s rest
          (get_elem?-set_ne tmp j i (filled s' k (fnv1a64 k seed)) ne ∙ at) o

    -- Every slot holds the default value.
    abbrev pub Fresh : T → List (Slot T) → Type 0
    Fresh v tmp = (i : ℕ) (s : Slot T) → get_elem? tmp i ≡ some s → s.value ≡ v

    Fresh-set :
        (v : T) (tmp : List (Slot T)) (i : ℕ) (s : Slot T) (k : Bytes) (h : ℕ)
        → get_elem? tmp i ≡ some s
        → Fresh v tmp
        → Fresh v (set tmp i (filled s k h))
    Fresh-set v tmp i s k h at fresh j s' e = elim (ℕ_discrete i j) [
      | yes eq ↦
          ground
            (arith, fresh i s at, get_elem?-lt tmp i s at, get_elem?-set_self tmp i (filled s k h))
      | no ne ↦ fresh j s' (sym (get_elem?-set_ne tmp i j (filled s k h) ne) ∙ e)
    ]

    -- Every key of the list has its slot in the end.
    pub fill_has :
        (v : T) (ks : List Bytes) (tmp out : List (Slot T)) (k : Bytes)
        → fill cap seed ks tmp ≡ some out
        → Fresh v tmp
        → mem_key k ks ≡ true
        → length k % 2 ^ 32 ≢ 0
        → (s : Slot T) × (get_elem? out (slot_index cap (fnv1a64 k seed)) ≡ some s)
          × (s.key ≡ k)
          × (s.len ≡ length k % 2 ^ 32)
          × (s.value ≡ v)
    unfolding mem_key occupied
    fill_has v [] tmp out k h fresh m ne = absurd (ground arith)
    fill_has v (j ∷ ks) tmp out k h fresh m ne =
        let i : ℕ = slot_index cap (fnv1a64 j seed) in
        let (s, at, free, rest) = fill_step j ks tmp out h in
        let s' : Slot T = filled s j (fnv1a64 j seed) in
        elim (Bool-cases (bytes_eq j k)) [
          | inl e ↦
              let jk : j ≡ k = bytes_eq_sound j k e in
              let here =
                fill_keeps ks (set tmp i s') out i s' rest
                  (get_elem?-set_self tmp i s' (get_elem?-lt tmp i s at)) (ground (arith, jk)) in
              (
                s',
                ap (λ x. get_elem? out (slot_index cap (fnv1a64 x seed))) (sym jk) ∙ here,
                jk,
                ap (λ x. length x % 2 ^ 32) jk,
                fresh i s at,
              )
          | inr e ↦
              fill_has v ks (set tmp i s') out k rest
                (Fresh-set v tmp i s j (fnv1a64 j seed) at fresh) (ground arith) ne
        ]

    -- Only keys of the list are in the slots.
    pub fill_only :
        (ks : List Bytes) (tmp out : List (Slot T)) (i : ℕ) (s : Slot T)
        → fill cap seed ks tmp ≡ some out
        → get_elem? out i ≡ some s
        → occupied s ≡ true
        → (get_elem? tmp i ≡ some s)
          ⊎ ((mem_key s.key ks ≡ true)
              × (s.len ≡ length s.key % 2 ^ 32)
              × (i ≡ slot_index cap (fnv1a64 s.key seed)))
    unfolding fill mem_key
    fill_only [] tmp out i s h at o = inl (ground arith)
    fill_only (k ∷ ks) tmp out i s h at o =
        let j : ℕ = slot_index cap (fnv1a64 k seed) in
        let (s', at', free, rest) = fill_step k ks tmp out h in
        let new : Slot T = filled s' k (fnv1a64 k seed) in
        elim (fill_only ks (set tmp j new) out i s rest at o) [
          | inl e ↦ elim (ℕ_discrete j i) [
            | yes eq ↦ inr (
              ground
                  (arith, get_elem?-lt tmp j s' at', get_elem?-set_self tmp j new, bytes_eq_refl k),
              ground (arith, get_elem?-lt tmp j s' at', get_elem?-set_self tmp j new),
              ground (arith, get_elem?-lt tmp j s' at', get_elem?-set_self tmp j new),
            )
            | no ne ↦ inl (sym (get_elem?-set_ne tmp j i new ne) ∙ e)
          ]
          | inr (m, l, p) ↦ inr (ground arith, l, p)
        ]

    pub fill-length :
        (ks : List Bytes) (tmp out : List (Slot T))
        → fill cap seed ks tmp ≡ some out
        → length out ≡ length tmp
    unfolding fill
    fill-length [] tmp out h = ground arith
    fill-length (k ∷ ks) tmp out h =
        let (s, at, free, rest) = fill_step k ks tmp out h in
        fill-length ks _ out rest ∙ length-set tmp _ _
