-- ===== src/Client/Scan.antt =====
-- About the loop of `ConnectionPool::get_any_connection`.
use roshanfer_sidecar.Base.{
  ℕ, zero, suc, ◌+◌, ◌*◌, ◌≤◌, ◌<◌, ◌≡◌, refl, sym, ap, ◌∙◌, ◌⊎◌, inl, inr, List, [], ◌∷◌, true,
  false, Option, none, some, length, get_elem?, ◌==◌, ok, arith, Bool-cases, ℕ_discrete, dec_lt,
  get_elem?-lt, some_inj,
}
use roshanfer_sidecar.Client.Pool.{Connection, ConnectionPool, available, scan, get_any_connection}

-- No connection at place `i` is available.
abbrev pub IsBusy : List Connection → ℕ → Type 0
IsBusy cs i = (c : Connection) → get_elem? cs i ≡ some c → available c ≡ false

-- The connection at place `j` is the first available one, from place `k` on and once around.
abbrev pub IsFirst : List Connection → ℕ → ℕ → Type 0
IsFirst cs k j =
    ((k ≤ j) × ((i : ℕ) → k ≤ i → i < j → IsBusy cs i))
    ⊎ ((j < k) × ((i : ℕ) → k ≤ i → IsBusy cs i) × ((i : ℕ) → i < j → IsBusy cs i))

-- The outcome of the loop that begins at place `k`.
abbrev pub Scans : List Connection → ℕ → Option Connection → ConnectionPool → Type 0
Scans cs k o p =
    ((c : Connection) × (o ≡ some c)
      × (get_elem? cs p.next_conn ≡ some c)
      × (available c ≡ true)
      × IsFirst cs k p.next_conn)
    ⊎ ((o ≡ none) × (p.next_conn ≡ length cs) × ((i : ℕ) → IsBusy cs i))

get_elem?-below :
    {A : Type 0} (xs : List A) (i : ℕ) → i < length xs → (a : A) × (get_elem? xs i ≡ some a)
get_elem?-below [] i h = absurd (omega arith)
get_elem?-below (x ∷ xs) zero h = (x, refl)
get_elem?-below (x ∷ xs) (suc i) h = get_elem?-below xs i (omega arith)

module _ (cs : List Connection) (addr : Option ℕ) where
  abbrev pool : ℕ → ConnectionPool
  pool k = record { connections = cs; next_conn = k; addr = addr }

  -- One more place is known to be busy.
  IsBusy-more :
      (s k : ℕ) (c : Connection)
      → get_elem? cs k ≡ some c
      → available c ≡ false
      → ((i : ℕ) → s ≤ i → i < k → IsBusy cs i)
      → (i : ℕ) → s ≤ i
      → i < k + 1
      → IsBusy cs i
  IsBusy-more s k c at busy before i hi lt d e = elim (ℕ_discrete i k) [
    | yes same ↦ ap available (some_inj (sym e ∙ ap (get_elem? cs) same ∙ at)) ∙ busy
    | no differ ↦ before i hi (omega (arith, differ)) d e
  ]

  -- No place is beyond the last.
  IsBusy-all :
      (s : ℕ) → ((i : ℕ) → s ≤ i → i < length cs → IsBusy cs i) → (i : ℕ) → s ≤ i → IsBusy cs i
  IsBusy-all s before i hi d e = before i hi (get_elem?-lt cs i d e) d e

  -- The second time through the map.
  second :
      (fuel k : ℕ)
      → k < length cs
      → length cs ≤ fuel + k
      → ((i : ℕ) → 0 ≤ i → i < k → IsBusy cs i)
      → (o : Option Connection) × (p : ConnectionPool) × (scan fuel true (pool k) ≡ ok (o, p))
        × (p.connections ≡ cs)
        × (p.addr ≡ addr)
        × (((c : Connection) × (o ≡ some c)
              × (get_elem? cs p.next_conn ≡ some c)
              × (available c ≡ true)
              × ((i : ℕ) → 0 ≤ i → i < p.next_conn → IsBusy cs i))
            ⊎ ((o ≡ none) × (p.next_conn ≡ length cs) × ((i : ℕ) → IsBusy cs i)))
  unfolding scan
  second zero k lt enough before = absurd (omega arith)
  second (suc fuel) k lt enough before =
      let (c, at) = get_elem?-below cs k lt in
      elim (Bool-cases (available c)) [
        | inl free ↦
            (some c, pool k, rw at (rw free refl), refl, refl, inl (c, refl, at, free, before))
        | inr busy ↦
            let more = IsBusy-more 0 k c at busy before in
            elim (Bool-cases (k + 1 == length cs)) [
              | inl end ↦
                  let all = λ (i : ℕ).
                    IsBusy-all 0 (λ i h l. more i h (ground (arith, end, l))) i (omega arith) in
                  (
                    none,
                    pool (k + 1),
                    rw at (rw (busy, end) refl),
                    refl,
                    refl,
                    inr (refl, ground (arith, end), all),
                  )
              | inr on ↦
                  let (o, p, e, same, kept, rest) =
                    second fuel (k + 1) (ground (arith, on)) (omega arith) more in
                  (o, p, rw at (rw (busy, on) e), same, kept, rest)
            ]
      ]

  -- The first time, which began at place `s`.
  first :
      (fuel s k : ℕ)
      → s ≤ k
      → k < length cs
      → length cs + length cs ≤ fuel + k
      → ((i : ℕ) → s ≤ i → i < k → IsBusy cs i)
      → (o : Option Connection) × (p : ConnectionPool) × (scan fuel false (pool k) ≡ ok (o, p))
        × (p.connections ≡ cs)
        × (p.addr ≡ addr)
        × Scans cs s o p
  unfolding scan
  first zero s k le lt enough before = absurd (omega arith)
  first (suc fuel) s k le lt enough before =
      let (c, at) = get_elem?-below cs k lt in
      elim (Bool-cases (available c)) [
        | inl free ↦ (
          some c,
          pool k,
          rw at (rw free refl),
          refl,
          refl,
          inl (c, refl, at, free, inl (le, before)),
        )
        | inr busy ↦
            let more = IsBusy-more s k c at busy before in
            elim (Bool-cases (k + 1 == length cs)) [
              | inl end ↦
                  let (o, p, e, same, kept, out) =
                    second fuel 0 (omega arith) (ground (arith, end))
                      (λ i h l. absurd (omega arith)) in
                  let upper = IsBusy-all s (λ i h l. more i h (ground (arith, end, l))) in
                  (o, p, rw at (rw (busy, end) e), same, kept, turned s o p upper out)
              | inr on ↦
                  let (o, p, e, same, kept, rest) =
                    first fuel s (k + 1) (omega arith) (ground (arith, on)) (omega arith) more in
                  (o, p, rw at (rw (busy, on) e), same, kept, rest)
            ]
      ]
    where
      turned :
          (s : ℕ) (o : Option Connection) (p : ConnectionPool)
          → ((i : ℕ) → s ≤ i → IsBusy cs i)
          → (((c : Connection) × (o ≡ some c)
                × (get_elem? cs p.next_conn ≡ some c)
                × (available c ≡ true)
                × ((i : ℕ) → 0 ≤ i → i < p.next_conn → IsBusy cs i))
              ⊎ ((o ≡ none) × (p.next_conn ≡ length cs) × ((i : ℕ) → IsBusy cs i)))
          → Scans cs s o p
      turned s o p upper (inr none_free) = inr none_free
      turned s o p upper (inl (c, is, at, free, lower)) = elim (dec_lt p.next_conn s) [
        | yes below ↦ inl (c, is, at, free, inr (below, upper, λ i l. lower i (omega arith) l))
        | no above ↦
            inl (c, is, at, free, inl (omega (arith, above), λ i h l. lower i (omega arith) l))
      ]

-- With an iterator that points at a connection, the search always ends. It returns the first
-- connection that is available, from the iterator on and once around, and the iterator points at
-- that connection then; or none is available, and the iterator has come to the end.
pub get_any_connection-Scans :
    (p : ConnectionPool)
    → p.next_conn < length p.connections
    → (o : Option Connection) × (p' : ConnectionPool) × (get_any_connection p ≡ ok (o, p'))
      × (p'.connections ≡ p.connections)
      × (p'.addr ≡ p.addr)
      × Scans p.connections p.next_conn o p'
unfolding get_any_connection
get_any_connection-Scans p lt =
    let (o, p', e, same, kept, rest) =
      first p.connections p.addr (2 * length p.connections) p.next_conn p.next_conn (omega arith) lt
        (omega arith) (λ i h l. absurd (omega arith)) in
    let used : (length p.connections == 0) ≡ false = ground arith in
    (o, p', rw used e, same, kept, rest)
