-- ===== src/Ingress/Start.antt =====
-- The constructor of `Ingress` in src/ingress.cc, and the configuration that it takes.
use roshanfer_sidecar.Base.{
  ℕ, ◌*◌, ◌^◌, ◌≡◌, ◌⊎◌, inl, inr, refl, ap, sym, ◌∙◌, [], true, false, none, some, Bytes,
  if◌then◌else◌, Fault, fatal, out_of_range, Result, ok, err, ◌>>=◌, or_fault, some_inj, arith,
  Bool-cases, Option-cases, ◌||◌,
}
use roshanfer_sidecar.Base.Int.{ℤ, pos, ltb_ℤ, ◌≤ℤ◌, ◌-ℤ◌}
use roshanfer_sidecar.Base.Assoc.{Bytes_discrete, find}
use roshanfer_sidecar.Config.{Config, RoutingEntry}
use roshanfer_sidecar.Ingress.{Ingress}

-- The priority of the service, with the checks of its route.
unfoldable pub priority_of : RoutingEntry → Result ℤ
priority_of r = elim r.slo [
  | none ↦ err fatal
  | some slo ↦ elim r.priority [
    | none ↦ err fatal
    | some p ↦ if ltb_ℤ p (pos 0) || ltb_ℤ (pos 3) p then err fatal else ok p
  ]
]

-- The route of the service has an objective, and the priority `p`, which is from 0 to 3.
abbrev pub IsRouted : {F : Type 0} → Config F → Bytes → ℤ → Type 0
IsRouted c service p =
    (r : RoutingEntry) × (find Bytes_discrete service c.routing ≡ some r)
    × (slo : ℤ) × (r.slo ≡ some slo)
    × (r.priority ≡ some p)
    × (pos 0 ≤ℤ p)
    × (p ≤ℤ pos 3)

priority_of-cases :
    (r : RoutingEntry)
    → ((p : ℤ) × (priority_of r ≡ ok p)
        × (slo : ℤ) × (r.slo ≡ some slo)
        × (r.priority ≡ some p)
        × (pos 0 ≤ℤ p)
        × (p ≤ℤ pos 3))
      ⊎ ((priority_of r ≡ err fatal)
          × ((p slo : ℤ) → r.slo ≡ some slo → r.priority ≡ some p → pos 0 ≤ℤ p → p ≤ℤ pos 3 → ⊥))
unfolding priority_of
priority_of-cases r = elim (Option-cases r.slo) [
  | inl e ↦ inr (rw e refl, λ p slo s. absurd (ground (arith, e, s)))
  | inr (slo, e) ↦ elim (Option-cases r.priority) [
    | inl e' ↦ inr (rw (e, e') refl, λ p s _ at. absurd (ground (arith, e', at)))
    | inr (p, e') ↦ elim (Bool-cases (ltb_ℤ p (pos 0) || ltb_ℤ (pos 3) p)) [
      | inl outside ↦ inr (
        rw (e, e', outside) refl,
        λ p' s _ at lo hi.
            let same : p ≡ p' = some_inj (sym e' ∙ at) in
            let out : ltb_ℤ p' (pos 0) || ltb_ℤ (pos 3) p' ≡ true =
              ap (λ x. ltb_ℤ x (pos 0) || ltb_ℤ (pos 3) x) (sym same) ∙ outside in
            ground (arith, out, lo, hi),
      )
      | inr inside ↦
          inl
            (p, rw (e, e', inside) refl, slo, e, e', ground (arith, inside), ground (arith, inside))
    ]
  ]
]

-- What the constructor gives the members, the priority being known.
abbrev pub started : {B : Type 0} → ℕ → Bytes → ℤ → Ingress B
started index service p = record {
  ingress_service = service;
  ingress_size_cap = 10;
  queue = [];
  has_credit_request_on_fly = false;
  priority = p;
  drop_id = pos 0;
  drop_fd = pos 0 -ℤ pos index;
  last_rpc_id = pos (index * 2 ^ 48);
  ups = [];
  dropped = [];
}

module _ {F B : Type 0} where
  -- `Ingress::Ingress`, for the thread of the index. The priority is left as it is, `junk`, in a
  -- sidecar that is no ingress.
  unfoldable pub construct : Config F → ℤ → ℕ → Bytes → Result (Ingress B)
  construct c junk index service =
      let routed =
        or_fault (find Bytes_discrete service c.routing) out_of_range >>= λ r. priority_of r in
      (if c.is_ingress then routed else ok junk) >>= λ p. ok (started index service p)

  -- The constructor of the ingress either returns, with an empty queue and no request on its way,
  -- or it stops the process or throws. It returns in every sidecar that is no ingress; in an ingress
  -- it returns if and only if the service has a route with an objective and with a priority from 0
  -- to 3, and takes this priority.
  pub construct-IsRouted :
      (c : Config F) (junk : ℤ) (index : ℕ) (service : Bytes)
      → ((q : Ingress B) × (construct c junk index service ≡ ok q)
          × (q.queue ≡ [])
          × (q.has_credit_request_on_fly ≡ false)
          × ((c.is_ingress ≡ false) ⊎ IsRouted c service q.priority))
        ⊎ ((f : Fault) × (construct c junk index service ≡ err f)
            × (c.is_ingress ≡ true)
            × ((p : ℤ) → ¬ (IsRouted c service p)))
  unfolding construct
  construct-IsRouted c junk index service = elim (Bool-cases c.is_ingress) [
    | inr other ↦ inl (started index service junk, rw other refl, refl, refl, inl other)
    | inl role ↦ elim (Option-cases (find Bytes_discrete service c.routing)) [
      | inl e ↦ inr (
        out_of_range,
        rw (role, e) refl,
        role,
        λ p (r, at, slo, s, at', lo, hi). absurd (ground (arith, e, at)),
      )
      | inr (r, e) ↦ elim (priority_of-cases r) [
        | inl (p, made, slo, s, at, lo, hi) ↦ inl (
          started index service p,
          rw (role, e) (rw (or_fault, made) refl),
          refl,
          refl,
          inr (r, e, slo, s, at, lo, hi),
        )
        | inr (refused, not_so) ↦ inr (
          fatal,
          rw (role, e) (rw (or_fault, refused) refl),
          role,
          λ p (r', at, slo, s, at', lo, hi).
              let same : r' ≡ r = some_inj (sym at ∙ e) in
              not_so p slo (ap (λ (x : RoutingEntry). x.slo) (sym same) ∙ s)
                (ap (λ (x : RoutingEntry). x.priority) (sym same) ∙ at') lo hi,
        )
      ]
    ]
  ]
