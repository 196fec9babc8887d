-- ===== src/FastMap/Iterator.antt =====
-- `LocalMap::iterator`: it goes round the slots and stops at those that are taken.
use roshanfer_sidecar.Base.{
  ℕ, zero, suc, ◌+◌, ◌-◌, ◌≤◌, ◌<◌, ◌≡◌, ◌⊎◌, List, Bool, true, false, ◌&&◌, not, none, some,
  length, get_elem?, ltb, leb, ◌==◌, if◌then◌else◌, arith, Bool-cases, inl, inr, ℕ_discrete, ap,
  ◌∙◌, subst, lt→ltb, ◌≢◌, dec_le, suc,
}
use roshanfer_sidecar.FastMap.{Slot, LocalMap, occupied}

-- `if (idx_ >= slots_->size()) idx_ = 0;`
abbrev pub wrap : ℕ → ℕ → ℕ
wrap n i = if leb n i then 0 else i

-- The index `d` places after `i`, going round.
abbrev pub rot : ℕ → ℕ → ℕ → ℕ
rot n i d = if ltb (i + d) n then i + d else i + d - n

rot-lt : (n i d : ℕ) → i < n → d < n → rot n i d < n
rot-lt n i d hi hd = ground arith

rot-suc : (n i d : ℕ) → i < n → d < n → wrap n (rot n i d + 1) ≡ rot n i (suc d)
rot-suc n i d hi hd = ground arith

rot-ne : (n i d : ℕ) → i < n → d < n → suc d ≢ n → (rot n i (suc d) == i) ≡ false
rot-ne n i d hi hd ne = ground arith

pub rot-zero : (n i : ℕ) → i < n → rot n i 0 ≡ i
rot-zero n i hi = ground arith

-- Going on from a place that was reached by going round.
pub rot-rot : (n i d e : ℕ) → i < n → d + e ≤ n → rot n (rot n i d) e ≡ rot n i (d + e)
rot-rot n i d e hi he = ground arith

pub rot-full : (n i : ℕ) → i < n → rot n i n ≡ i
rot-full n i hi = ground arith

-- Every index is some number of places on.
pub rot_to : (n i j : ℕ) → i < n → j < n → (d : ℕ) × (d < n) × (rot n i d ≡ j)
rot_to n i j hi hj = elim (dec_le i j) [
  | yes le ↦ (j - i, omega arith, ground arith)
  | no lt ↦ (n + j - i, omega arith, ground arith)
]

module _ {T : Type 0} where
  -- `slots_[i].occupied()`, for an index in range.
  unfoldable pub occupied_at : List (Slot T) → ℕ → Bool
  occupied_at slots i = elim (get_elem? slots i) [ none ↦ false | some s ↦ occupied s ]

  -- The loop of `skip_empty`. As many rounds as there are slots are enough.
  unfoldable pub skip_loop : ℕ → List (Slot T) → ℕ → ℕ → ℕ
  skip_loop zero slots start i = i
  skip_loop (suc n) slots start i =
      let i' = wrap (length slots) (i + 1) in
      let rest = skip_loop n slots start i' in
      if ltb i (length slots) && not (occupied_at slots i)
      then (if i' == start then i' else rest)
      else i

  unfoldable pub skip_empty : List (Slot T) → ℕ → ℕ
  skip_empty slots i =
      if length slots == 0
      then i
      else (let i' = wrap (length slots) i in skip_loop (length slots) slots i' i')

  unfoldable pub begin_of : LocalMap T → ℕ
  begin_of m = skip_empty m.slots 0

  -- `operator++`
  unfoldable pub next_of : LocalMap T → ℕ → ℕ
  next_of m i = if length m.slots == 0 then i else skip_empty m.slots (i + 1)

  -- The first taken slot at or after `start`, `e` places on; or there is none at all.
  abbrev pub Skips : List (Slot T) → ℕ → ℕ → Type 0
  Skips slots start j =
      ((e : ℕ) × (j ≡ rot (length slots) start e)
        × (e < length slots)
        × (occupied_at slots j ≡ true)
        × ((d : ℕ) → d < e → occupied_at slots (rot (length slots) start d) ≡ false))
      ⊎ ((d : ℕ) → d < length slots → occupied_at slots (rot (length slots) start d) ≡ false)

  skip_loop_step :
      (fuel : ℕ) (slots : List (Slot T)) (start d : ℕ)
      → start < length slots
      → d < length slots
      → occupied_at slots (rot (length slots) start d) ≡ false
      → suc d ≢ length slots
      → skip_loop fuel slots start (rot (length slots) start (suc d))
        ≡ skip_loop (suc fuel) slots start (rot (length slots) start d)
  unfolding skip_loop
  skip_loop_step fuel slots start d hs hd empty more =
      let n : ℕ = length slots in
      let i : ℕ = rot n start d in
      let j : ℕ = rot n start (suc d) in
      let wrapped : wrap n (i + 1) ≡ j = rot-suc n start d hs hd in
      let inside : ltb i n ≡ true = lt→ltb i n (rot-lt n start d hs hd) in
      let other : (j == start) ≡ false = rot-ne n start d hs hd more in
      rw (wrapped, inside, empty, other)

  skip_loop-Skips :
      (fuel : ℕ) (slots : List (Slot T)) (start d : ℕ)
      → start < length slots
      → d < length slots
      → length slots ≤ fuel + d
      → ((e : ℕ) → e < d → occupied_at slots (rot (length slots) start e) ≡ false)
      → Skips slots start (skip_loop fuel slots start (rot (length slots) start d))
  unfolding skip_loop
  skip_loop-Skips zero slots start d hs hd hf free = absurd (omega arith)
  skip_loop-Skips (suc fuel) slots start d hs hd hf free =
      let n : ℕ = length slots in
      let i : ℕ = rot n start d in
      elim (Bool-cases (occupied_at slots i)) [
        | inl taken ↦ inl (d, ground (arith, taken), hd, ground (arith, taken), free)
        | inr empty ↦
            let free' : (e : ℕ) → e < suc d → occupied_at slots (rot n start e) ≡ false = λ e he.
              elim (ℕ_discrete e d) [
                | yes eq ↦ ap (λ x. occupied_at slots (rot n start x)) eq ∙ empty
                | no ne ↦ free e (omega arith)
              ] in
            elim (ℕ_discrete (suc d) n) [
              | yes all ↦ inr (λ e he. free' e (omega arith))
              | no more ↦
                  subst (Skips slots start) (skip_loop_step fuel slots start d hs hd empty more)
                    (skip_loop-Skips fuel slots start (suc d) hs (omega arith) (omega arith) free')
            ]
      ]

  -- `skip_empty` finds the first taken slot at or after the index, if there is one.
  skip_empty-Skips :
      (slots : List (Slot T)) (i : ℕ)
      → 0 < length slots
      → i ≤ length slots
      → Skips slots (wrap (length slots) i) (skip_empty slots i)
  unfolding skip_empty
  skip_empty-Skips slots i pos hi =
      let n : ℕ = length slots in
      let start : ℕ = wrap n i in
      let from : start < n = ground arith in
      let some_slot : (n == 0) ≡ false = ground arith in
      subst (Skips slots start) (rw (rot-zero n start from, some_slot))
        (skip_loop-Skips n slots start 0 from pos (omega arith) (λ e he. absurd (omega arith)))

  -- From a taken slot, `++` goes to the next taken slot: `e` places on, round to itself at most.
  pub record Advances (slots : List (Slot T)) (i j : ℕ) : Type 0 where
    pub places : ℕ
    pub some_places : 0 < places
    pub round_at_most : places ≤ length slots
    pub reaches : j ≡ rot (length slots) i places
    pub taken : occupied_at slots j ≡ true
    pub skipped : (d : ℕ) → 0 < d → d < places → occupied_at slots (rot (length slots) i d) ≡ false

  -- `++` from a taken slot goes to the next taken slot, at most once round, and passes over free
  -- slots only.
  pub next_of-Advances :
      (m : LocalMap T) (i : ℕ)
      → i < length m.slots
      → occupied_at m.slots i ≡ true
      → Advances m.slots i (next_of m i)
  unfolding next_of
  next_of-Advances m i hi here =
      let n : ℕ = length m.slots in
      let start : wrap n (i + 1) ≡ rot n i 1 = ground arith in
      let some_slot : (n == 0) ≡ false = ground arith in
      elim (subst (λ x. Skips m.slots x (skip_empty m.slots (i + 1))) start
        (skip_empty-Skips m.slots (i + 1) (omega arith) (omega arith))) [
          | inl (e, at, he, occ, free) ↦ record {
            places = 1 + e;
            some_places = omega arith;
            round_at_most = omega arith;
            reaches = rw some_slot (at ∙ rot-rot n i 1 e hi (omega arith));
            taken = rw some_slot occ;
            skipped = λ d pos hd.
                ap (λ x. occupied_at m.slots x) (ground (arith, rot-rot n i 1 (d - 1)))
                ∙ free (d - 1) (omega arith);
          }
          | inr free ↦ absurd (
              ground (
                arith,
                here,
                free (n - 1) (omega arith),
                ap (occupied_at m.slots) (rot-rot n i 1 (n - 1) hi (omega arith)),
                ap (occupied_at m.slots) (rot-full n i hi),
              ))
        ]
