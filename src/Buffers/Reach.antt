-- ===== src/Buffers/Reach.antt =====
-- About every state that the manager of the buffers comes to from the constructor.
use roshanfer_sidecar.Base.{
  ℕ, ◌+◌, ◌-◌, ◌<◌, ◌≡◌, refl, sym, ◌∙◌, List, [], ◌∷◌, ◌++◌, ◌⊎◌, inl, inr, Bool, false, some, ok,
  arith, subst, ok_inj, Result, ok_ne_err, err, fatal,
}
use roshanfer_sidecar.Buffers.Defs.{Buffer, Half, get_free, get_first}
use roshanfer_sidecar.Buffers.Owned.{count, held, IsOwned}
use roshanfer_sidecar.Buffers.Make.{make_half-IsOwned}
use roshanfer_sidecar.Buffers.Run.{
  World, IsSame, Step, gets, gets_udp, reads, receives, frees, frees_udp, Reaches, begin, next,
  start, IsManaged, get_buffer-IsManaged, get_udp_buffer-IsManaged, get_buffer_by_index-IsManaged,
  get_udp_buffer_by_index-IsManaged, free_buffer-IsManaged, free_udp_buffer-IsManaged,
}
use roshanfer_sidecar.Buffers.{
  BufferManager, make_manager, get_buffer, get_udp_buffer, free_buffer, free_udp_buffer,
}

List-cases : (xs : List ℕ) → (xs ≡ []) ⊎ ((x : ℕ) × (rest : List ℕ) × (xs ≡ x ∷ rest))
List-cases [] = inl refl
List-cases (x ∷ xs) = inr (x, xs, refl)

-- A call that gives `ok` found its queue in use.
get_buffer-none : (m : BufferManager) → m.tcp.free_queue ≡ [] → get_buffer m ≡ err fatal
unfolding get_buffer get_free get_first
get_buffer-none m q = rw (q, get_first) refl

get_udp_buffer-none : (m : BufferManager) → m.udp.free_queue ≡ [] → get_udp_buffer m ≡ err fatal
unfolding get_udp_buffer get_free get_first
get_udp_buffer-none m q = rw (q, get_first) refl

module _ (provided : ℕ → Bool) (n : ℕ) where
  -- The result of a call is the one that the lemma about the call speaks of.
  same_result :
      {A : Type 0} (P : A → Type 0) (r : Result A) (a b : A) → r ≡ ok a → r ≡ ok b → P a → P b
  same_result P r a b p q = subst P (ok_inj (sym p ∙ q))

  start-IsManaged : (size : ℕ) → IsManaged provided n (start provided n size)
  unfolding start make_manager
  start-IsManaged size = record {
    counted = refl;
    tcp = make_half-IsOwned provided 0 size n;
    udp = make_half-IsOwned provided n 256 n;
  }

  Step-IsManaged : (w w' : World) → Step w w' → IsManaged provided n w → IsManaged provided n w'
  Step-IsManaged w w' (gets b m e is) inv = elim (List-cases w.manager.tcp.free_queue) [
    | inl q ↦ absurd (ok_ne_err (sym e ∙ get_buffer-none w.manager q))
    | inr (x, rest, q) ↦
        let (b₁, m₁, e₁, inv₁) = get_buffer-IsManaged provided n w inv x rest q in
        rw is (
          same_result
            (λ r. IsManaged provided n (record w { manager = r.1; tcp_out = r.0 ∷ w.tcp_out })) _
            (b₁, m₁) (b, m) e₁ e inv₁)
  ]
  Step-IsManaged w w' (gets_udp b m e is) inv = elim (List-cases w.manager.udp.free_queue) [
    | inl q ↦ absurd (ok_ne_err (sym e ∙ get_udp_buffer-none w.manager q))
    | inr (x, rest, q) ↦
        let (b₁, m₁, e₁, inv₁) = get_udp_buffer-IsManaged provided n w inv x rest q in
        rw is (
          same_result
            (λ r. IsManaged provided n (record w { manager = r.1; udp_out = r.0 ∷ w.udp_out })) _
            (b₁, m₁) (b, m) e₁ e inv₁)
  ]
  Step-IsManaged w w' (reads i xs ys b m q e is) inv =
      let (b₁, m₁, e₁, inv₁) = get_buffer_by_index-IsManaged provided n w inv i xs ys q in
      rw is (
        same_result
          (λ r. IsManaged provided n (record w { manager = r.1; tcp_out = r.0 ∷ w.tcp_out })) _
          (b₁, m₁) (b, m) e₁ e inv₁)
  Step-IsManaged w w' (receives i xs ys b m q e is) inv =
      let (b₁, m₁, e₁, inv₁) = get_udp_buffer_by_index-IsManaged provided n w inv i xs ys q in
      rw is (
        same_result
          (λ r. IsManaged provided n (record w { manager = r.1; udp_out = r.0 ∷ w.udp_out })) _
          (b₁, m₁) (b, m) e₁ e inv₁)
  Step-IsManaged w w' (frees xs ys b d m q same e is) inv =
      let (m₁, e₁, inv₁) = free_buffer-IsManaged provided n w inv xs ys b d q same in
      rw is (
        same_result (λ r. IsManaged provided n (record w { manager = r; tcp_out = xs ++ ys })) _ m₁
          m e₁ e inv₁)
  Step-IsManaged w w' (frees_udp xs ys b d m q same e is) inv =
      let (m₁, e₁, inv₁) = free_udp_buffer-IsManaged provided n w inv xs ys b d q same in
      rw is (
        same_result (λ r. IsManaged provided n (record w { manager = r; udp_out = xs ++ ys })) _ m₁
          m e₁ e inv₁)

-- From the constructor on, whatever buffers are taken, by the program or for the kernel, and given
-- back: each buffer is either in its vector or with one holder, never with two. One that is in its
-- vector is free, and can be got in one way, once: from the ring of the kernel or from the queue.
pub Reaches-IsManaged :
    (provided : ℕ → Bool) (n size : ℕ) {w : World}
    → Reaches (start provided n size) w
    → IsManaged provided n w
Reaches-IsManaged provided n size begin = start-IsManaged provided n size
Reaches-IsManaged provided n size (next {t} {u} r s) =
    Step-IsManaged provided n t u s (Reaches-IsManaged provided n size r)

module _ (provided : ℕ → Bool) (n size : ℕ) (w : World)
    (r : Reaches (start provided n size) w) where
  -- The queue has a number, if a buffer that the kernel may not use is with nobody.
  waits :
      (base : ℕ) (h : Half) (out : List Buffer)
      → IsOwned base n provided h out
      → (i : ℕ) → i < n
      → provided i ≡ false
      → held (base + i) out ≡ 0
      → (x : ℕ) × (rest : List ℕ) × (h.free_queue ≡ x ∷ rest)
  unfolding count
  waits base h out inv i lt kind none_has = elim (List-cases h.free_queue) [
    | inl q ↦ absurd (ground (arith, q, inv.queued i lt, inv.owned i lt, kind, none_has))
    | inr found ↦ found
  ]

  -- A buffer that was just taken was with nobody else.
  alone :
      (base : ℕ) (h : Half) (b : Buffer) (out : List Buffer)
      → IsOwned base n provided h (b ∷ out)
      → held b.index out ≡ 0
  unfolding held
  alone base h b out inv =
      let it = inv.held_lem.0 in
      let whole : base + (b.index - base) ≡ b.index = omega (arith, it.above) in
      ground (arith, whole, inv.owned (b.index - base) (omega (arith, it.below, it.above)))

  -- No buffer is lost, and no call for one stops the process while there is one: where some buffer
  -- `i` for TCP that the kernel may not use, and some buffer `j` for UDP, are with nobody, both
  -- `get_buffer` and `get_udp_buffer` return a buffer that was with nobody.
  pub Reaches-get_buffer :
      (i j : ℕ)
      → i < n
      → j < n
      → provided i ≡ false
      → provided j ≡ false
      → held i w.tcp_out ≡ 0
      → held (n + j) w.udp_out ≡ 0
      → ((b : Buffer) × (m : BufferManager) × (get_buffer w.manager ≡ ok (b, m))
          × (held b.index w.tcp_out ≡ 0))
        × ((b : Buffer) × (m : BufferManager) × (get_udp_buffer w.manager ≡ ok (b, m))
            × (held b.index w.udp_out ≡ 0))
  Reaches-get_buffer i j hi hj pi pj ti uj =
      let inv = Reaches-IsManaged provided n size r in
      let (x, xs, q) = waits 0 w.manager.tcp w.tcp_out inv.tcp i hi pi (ground (arith, ti)) in
      let (y, ys, q') = waits n w.manager.udp w.udp_out inv.udp j hj pj uj in
      let (b, m, e, after) = get_buffer-IsManaged provided n w inv x xs q in
      let (b', m', e', after') = get_udp_buffer-IsManaged provided n w inv y ys q' in
      (
        (b, m, e, alone 0 m.tcp b w.tcp_out after.tcp),
        (b', m', e', alone n m'.udp b' w.udp_out after'.udp),
      )

  -- A holder can always give a buffer back, filled or not: neither `free_buffer` nor
  -- `free_udp_buffer` stops the process.
  pub Reaches-free_buffer :
      (xs ys us vs : List Buffer) (b c d e : Buffer)
      → w.tcp_out ≡ xs ++ b ∷ ys
      → IsSame d b
      → w.udp_out ≡ us ++ c ∷ vs
      → IsSame e c
      → ((m : BufferManager) × (free_buffer (some d) w.manager ≡ ok m))
        × ((m : BufferManager) × (free_udp_buffer (some e) w.manager ≡ ok m))
  Reaches-free_buffer xs ys us vs b c d e p s q t =
      let inv = Reaches-IsManaged provided n size r in
      let (m, done, _) = free_buffer-IsManaged provided n w inv xs ys b d p s in
      let (m', done', _) = free_udp_buffer-IsManaged provided n w inv us vs c e q t in
      ((m, done), (m', done'))
