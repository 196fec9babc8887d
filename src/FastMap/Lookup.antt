-- ===== src/FastMap/Lookup.antt =====
-- About reads and writes of a map by key, whatever its slots hold.
use roshanfer_sidecar.Base.{
  ℕ, ◌≡◌, refl, ap, sym, ◌∙◌, inl, inr, List, [], ◌∷◌, true, some, Bytes, length, get_elem?, set,
  bytes_eq, bytes_eq_iff, bytes_eq_sound, if◌then◌else◌, fatal, undefined, Result, ok, err, ◌>>=◌,
  or_fault, arith, Bool-cases, Result-cases, >>=-eq-ok, get_elem?-set_self, get_elem?-set_ne,
  get_elem?-lt, ℕ_discrete, ok_inj, ok_ne_err,
}
use roshanfer_sidecar.FastMap.{
  Slot, LocalMap, memcmp_eq, equals, probe, slot_at, find_ptr, get, store, update,
}

memcmp_eq_unique :
    (xs ys key : Bytes)
    → length xs ≡ length ys
    → memcmp_eq xs key ≡ true
    → memcmp_eq ys key ≡ true
    → xs ≡ ys
unfolding memcmp_eq
memcmp_eq_unique [] [] key l p q = refl
memcmp_eq_unique [] (y ∷ ys) key l p q = absurd (omega arith)
memcmp_eq_unique (x ∷ xs) [] key l p q = absurd (omega arith)
memcmp_eq_unique (x ∷ xs) (y ∷ ys) [] l p q = cc
memcmp_eq_unique (x ∷ xs) (y ∷ ys) (z ∷ key) l p q = ground (arith, memcmp_eq_unique xs ys key)

module _ {T : Type 0} where
  -- A slot answers to one key at most.
  pub equals_unique : (s : Slot T) (k j : Bytes) → equals s k ≡ true → equals s j ≡ true → k ≡ j
  unfolding equals
  equals_unique s k j p q = ground (arith, memcmp_eq_unique k j s.key)

  -- A slot answers to the same keys after a write to its value.
  pub equals_value :
      (s : Slot T) (v : T) (k : Bytes) → equals (record s { value = v }) k ≡ equals s k
  unfolding equals
  equals_value s v k = refl

  -- Where a key is found.
  pub record Finds (m : LocalMap T) (k : Bytes) (i : ℕ) (s : Slot T) : Type 0 where
    pub index : probe m k ≡ ok i
    pub slot : get_elem? m.slots i ≡ some s
    pub same : equals s k ≡ true

  pub find_ptr-Finds :
      (m : LocalMap T) (k : Bytes) (i : ℕ)
      → find_ptr m k ≡ ok (some i)
      → (s : Slot T) × Finds m k i s
  unfolding find_ptr slot_at
  find_ptr-Finds m k i h =
      let (j, pj, h1) = >>=-eq-ok (probe m k) _ h in
      let (s, ps, h2) = >>=-eq-ok (or_fault (get_elem? m.slots j) undefined) _ h1 in
      elim (Bool-cases (equals s k)) [
        | inl e ↦ (s, record { index = ground arith; slot = ground arith; same = e })
        | inr e ↦ absurd (ground arith)
      ]

  pub Finds-find_ptr :
      (m : LocalMap T) (k : Bytes) (i : ℕ) (s : Slot T) → Finds m k i s → find_ptr m k ≡ ok (some i)
  unfolding find_ptr slot_at
  Finds-find_ptr m k i s f = rw (f.index) (rw (f.slot) (rw (f.same)))

  get-find_ptr :
      (m : LocalMap T) (k : Bytes) (v : T) → get m k ≡ ok v → (i : ℕ) × (find_ptr m k ≡ ok (some i))
  unfolding get
  get-find_ptr m k v h =
      let (p, e, h1) = >>=-eq-ok (find_ptr m k) _ h in
      let (i, e1, h2) = >>=-eq-ok (or_fault p fatal) _ h1 in (i, ground arith)

  pub get-Finds :
      (m : LocalMap T) (k : Bytes) (v : T)
      → get m k ≡ ok v
      → (i : ℕ) × (s : Slot T) × Finds m k i s × (s.value ≡ v)
  unfolding get slot_at
  get-Finds m k v h =
      let (i, found) = get-find_ptr m k v h in
      let (s, f) = find_ptr-Finds m k i found in (i, s, f, ground (arith, h, f.slot, found))

  pub Finds-get :
      (m : LocalMap T) (k : Bytes) (i : ℕ) (s : Slot T) → Finds m k i s → get m k ≡ ok s.value
  unfolding get slot_at
  Finds-get m k i s f = rw (Finds-find_ptr m k i s f) (rw (f.slot))

  pub Finds-update :
      (m : LocalMap T) (k : Bytes) (i : ℕ) (s : Slot T) (f : T → T)
      → Finds m k i s
      → update m k f ≡ ok (record m { slots = set m.slots i (record s { value = f s.value }) })
  unfolding update store slot_at
  Finds-update m k i s f g = rw (Finds-find_ptr m k i s g) (rw (g.slot))

  pub update-Finds :
      (m m' : LocalMap T) (k : Bytes) (f : T → T)
      → update m k f ≡ ok m'
      → (i : ℕ) × (s : Slot T) × Finds m k i s
        × (m' ≡ record m { slots = set m.slots i (record s { value = f s.value }) })
  unfolding update
  update-Finds m m' k f h =
      let (p, e, h1) = >>=-eq-ok (find_ptr m k) _ h in
      let (i, e1, h2) = >>=-eq-ok (or_fault p fatal) _ h1 in
      let (s, g) = find_ptr-Finds m k i (ground arith) in
      (i, s, g, ground (arith, Finds-update m k i s f g))

  read : List (Slot T) → Bytes → ℕ → Result T
  read slots k i = do
    s ← or_fault (get_elem? slots i) undefined
    if equals s k then ok s.value else err fatal

  get-read : (m : LocalMap T) (k : Bytes) → get m k ≡ (probe m k >>= read m.slots k)
  unfolding get find_ptr slot_at read
  get-read m k = ground arith

  read-set :
      (slots : List (Slot T)) (k j : Bytes) (i i' : ℕ) (s : Slot T) (v : T)
      → get_elem? slots i ≡ some s
      → equals s k ≡ true
      → (k ≡ j → i ≡ i')
      → read (set slots i (record s { value = v })) j i'
        ≡ (if bytes_eq k j then ok v else read slots j i')
  unfolding read
  read-set slots k j i i' s v at same here = elim (Bool-cases (bytes_eq k j)) [
    | inl e ↦ ground (
      arith,
      e,
      bytes_eq_sound k j e,
      equals_value s v j,
      get_elem?-lt slots i s at,
      get_elem?-set_self slots i (record s { value = v }),
    )
    | inr e ↦ elim (ℕ_discrete i i') [
      | yes eq ↦ ground (
        arith,
        bytes_eq_iff k j,
        equals_value s v j,
        equals_unique s k j same,
        get_elem?-lt slots i s at,
        get_elem?-set_self slots i (record s { value = v }),
      )
      | no ne ↦ ground (arith, e, get_elem?-set_ne slots i i' (record s { value = v }) ne)
    ]
  ]

  -- After a write through slot `i`, every key is read as before, but for the key of that slot.
  pub get-set_slot :
      (m : LocalMap T) (k j : Bytes) (i : ℕ) (s : Slot T) (v : T)
      → Finds m k i s
      → get (record m { slots = set m.slots i (record s { value = v }) }) j
        ≡ (if bytes_eq k j then ok v else get m j)
  unfolding probe
  get-set_slot m k j i s v f =
      let m' : LocalMap T = record m { slots = set m.slots i (record s { value = v }) } in
      let same_index : probe m' j ≡ probe m j = refl in
      elim (Result-cases (probe m j)) [
        | inl (i', e) ↦
            rw (get-read m' j, get-read m j, same_index, e)
              (read-set m.slots k j i i' s v f.slot f.same
                (λ kj. ok_inj (sym f.index ∙ ap (probe m) kj ∙ e)))
        | inr (x, e) ↦ elim (Bool-cases (bytes_eq k j)) [
          | inl kj ↦ absurd (ok_ne_err (sym f.index ∙ ap (probe m) (bytes_eq_sound k j kj) ∙ e))
          | inr kj ↦ rw (get-read m' j, get-read m j, same_index, e, kj)
        ]
      ]

  -- Adding through a key: the value under that key changes, and no other.
  pub get-update :
      (m m' : LocalMap T) (k j : Bytes) (f : T → T)
      → update m k f ≡ ok m'
      → (v : T) × (get m k ≡ ok v) × (get m' j ≡ (if bytes_eq k j then ok (f v) else get m j))
  get-update m m' k j f h =
      let (i, s, found, e) = update-Finds m m' k f h in
      (s.value, Finds-get m k i s found, rw e (get-set_slot m k j i s (f s.value) found))

  -- A key that can be read can be written.
  pub update_of_get :
      (m : LocalMap T) (k : Bytes) (v : T) (f : T → T)
      → get m k ≡ ok v
      → (m' : LocalMap T) × (update m k f ≡ ok m')
  update_of_get m k v f h =
      let (i, s, found, e) = get-Finds m k v h in (_, Finds-update m k i s f found)
