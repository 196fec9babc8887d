-- ===== src/Mapper/Routes.antt =====
-- About the three maps of src/rpc_mapper.cc together: the names that a message is filed under.
use roshanfer_sidecar.Base.{
  ℕ, ◌≡◌, ◌≢◌, refl, ap, sym, ◌∙◌, List, true, false, none, some, ite, fatal, out_of_range, ok, err,
  or_fault, or_fault-some, >>=-eq-ok, ok_inj, ok_ne_err, ◌<◌, ok_ne_err, ◌<◌, arith, Option-cases,
  inl, inr, ◌⊎◌, subst, ◌==◌,
}
use roshanfer_sidecar.Base.Int.{ℤ, pos, ℤ_discrete}
use roshanfer_sidecar.Base.Assoc.{find, assign, erase, find-assign, find-erase}
use roshanfer_sidecar.Mapper.{
  Streams, Maps, Ends, at_stream, streams_of, emplace, allocate_rpc, route, ingress_side_id,
  get_ingress_rpc, get_us_rpc, get_ds_rpc, erase_stream, remove_rpc,
}

-- A write to one stream is seen at that stream and at no other.
at_stream-assign :
    (m : Streams) (fd : ℤ) (streams : List (ℤ × ℕ)) (fd' stream' : ℤ)
    → at_stream (assign ℤ_discrete fd streams m) fd' stream'
      ≡ ite (ℤ_discrete fd fd') (find ℤ_discrete stream' streams) (at_stream m fd' stream')
unfolding at_stream
at_stream-assign m fd streams fd' stream' = ground (arith, find-assign ℤ_discrete fd fd' streams m)

find-streams_of :
    (m : Streams) (fd stream : ℤ) → find ℤ_discrete stream (streams_of m fd) ≡ at_stream m fd stream
unfolding at_stream streams_of find
find-streams_of m fd stream = elim (Option-cases (find ℤ_discrete fd m)) [
  | inl e ↦ ground arith
  | inr (x, e) ↦ ground arith
]

at_stream-put :
    (m : Streams) (fd stream : ℤ) (v : ℕ) (fd' stream' : ℤ)
    → at_stream (assign ℤ_discrete fd (assign ℤ_discrete stream v (streams_of m fd)) m) fd' stream'
      ≡ ite
          (ℤ_discrete fd fd')
          (ite (ℤ_discrete stream stream') (some v) (at_stream m fd' stream'))
          (at_stream m fd' stream')
at_stream-put m fd stream v fd' stream' =
    at_stream-assign m fd (assign ℤ_discrete stream v (streams_of m fd)) fd' stream'
    ∙ elim (ℤ_discrete fd fd') [
      | yes same ↦ ground (
        arith,
        same,
        find-assign ℤ_discrete stream stream' v (streams_of m fd),
        find-streams_of m fd stream',
        ap (λ x. at_stream m x stream') same,
      )
      | no other ↦ ground (arith, other)
    ]

-- `emplace` of a key that is not there adds it.
emplace-new :
    (m : List (ℤ × ℕ)) (k : ℤ) (v : ℕ)
    → find ℤ_discrete k m ≡ none
    → emplace m k v ≡ (true, assign ℤ_discrete k v m)
unfolding emplace
emplace-new m k v h = ground arith

emplace-old :
    (m : List (ℤ × ℕ)) (k : ℤ) (v w : ℕ) → find ℤ_discrete k m ≡ some w → emplace m k v ≡ (false, m)
unfolding emplace
emplace-old m k v w h = ground arith

-- A downstream stream that is free can be allocated. The message is then found there, what the other
-- downstream streams find is as before, and so are the two other maps. A stream that is taken stops
-- the process, and these are all cases.
pub allocate_rpc-get_ds_rpc :
    (m : Maps) (stream fd : ℤ) (rpc : ℕ)
    → ((at_stream m.ds_map fd stream ≡ none)
        × ((m' : Maps) × (allocate_rpc m stream fd rpc ≡ ok m')
            × (get_ds_rpc m' stream fd ≡ ok rpc)
            × ((stream' fd' : ℤ)
                → ((fd ≢ fd') ⊎ (stream ≢ stream'))
                → get_ds_rpc m' stream' fd' ≡ get_ds_rpc m stream' fd')
            × (m'.us_map ≡ m.us_map)
            × (m'.id_map ≡ m.id_map)))
      ⊎ ((old : ℕ) × (at_stream m.ds_map fd stream ≡ some old)
          × (allocate_rpc m stream fd rpc ≡ err fatal))
unfolding allocate_rpc get_ds_rpc
allocate_rpc-get_ds_rpc m stream fd rpc = elim (Option-cases (at_stream m.ds_map fd stream)) [
  | inr (old, e) ↦ inr (
    old,
    e,
    rw
        (emplace-old (streams_of m.ds_map fd) stream rpc old
          (find-streams_of m.ds_map fd stream ∙ e))
        refl,
  )
  | inl e ↦
      let free = find-streams_of m.ds_map fd stream ∙ e in
      let streams : List (ℤ × ℕ) = assign ℤ_discrete stream rpc (streams_of m.ds_map fd) in
      let new = emplace-new (streams_of m.ds_map fd) stream rpc free in
      let self : ite (ℤ_discrete fd fd)
            (ite (ℤ_discrete stream stream) (some rpc) (at_stream m.ds_map fd stream))
            (at_stream m.ds_map fd stream)
          ≡ some rpc =
        ground arith in
      inl (
        e,
        (
          record m { ds_map = assign ℤ_discrete fd streams m.ds_map },
          rw new refl,
          ap (λ o. or_fault o fatal) (at_stream-put m.ds_map fd stream rpc fd stream ∙ self),
          λ stream' fd' other.
              ap (λ o. or_fault o fatal)
                (at_stream-put m.ds_map fd stream rpc fd' stream' ∙ ground (arith, other)),
          refl,
          refl,
        ),
      )
]

-- The message `rpc` is found by its upstream stream, and by the identity of every call that has its
-- own identity in the high half; the downstream streams are as before.
pub record Routed (ends : ℕ → Ends) (m : Maps) (us_stream us_fd : ℤ) (rpc : ℕ) (m' : Maps)
    : Type 0 where
  pub found_us : get_us_rpc m' us_stream us_fd ≡ ok rpc
  pub same_ds : m'.ds_map ≡ m.ds_map
  pub found_id :
      (child : ℤ)
      → 0 < ingress_side_id child
      → (ends rpc).local_id ≡ pos (ingress_side_id child)
      → get_ingress_rpc m' child ≡ ok rpc

assigned-Routed :
    (ends : ℕ → Ends) (m : Maps) (us_stream us_fd : ℤ) (rpc : ℕ)
    → Routed ends m us_stream us_fd rpc (record m {
      id_map = assign ℤ_discrete (ends rpc).local_id rpc m.id_map;
      us_map =
          assign ℤ_discrete us_fd
            (assign ℤ_discrete us_stream rpc (streams_of m.us_map us_fd))
            m.us_map;
    })
unfolding get_us_rpc get_ingress_rpc
assigned-Routed ends m us_stream us_fd rpc = record {
  found_us =
      ap (λ o. or_fault o fatal)
        (at_stream-put m.us_map us_fd us_stream rpc us_fd us_stream ∙ itself);
  same_ds = refl;
  found_id = λ child some_half same.
      let half : (ingress_side_id child == 0) ≡ false = ground arith in
      let found : find ℤ_discrete (pos (ingress_side_id child))
            (assign ℤ_discrete (ends rpc).local_id rpc m.id_map)
          ≡ some rpc =
        find-assign ℤ_discrete (ends rpc).local_id (pos (ingress_side_id child)) rpc m.id_map
        ∙ ground (arith, same) in
      rw half (ap (λ o. or_fault o fatal) found);
}
  where
    itself :
        ite
          (ℤ_discrete us_fd us_fd)
          (ite (ℤ_discrete us_stream us_stream) (some rpc) (at_stream m.us_map us_fd us_stream))
          (at_stream m.us_map us_fd us_stream)
        ≡ some rpc
    itself = ground arith

-- A message that is routed was found by its downstream stream, and is found after that by its
-- upstream stream, which was free, and by the identity of every call that has the message's own
-- identity, which was free too, in its high half.
pub route-Routed :
    (ends : ℕ → Ends) (m m' : Maps) (ds_stream ds_fd us_stream us_fd : ℤ)
    → route ends m ds_stream ds_fd us_stream us_fd ≡ ok m'
    → at_stream m.us_map us_fd us_stream ≡ none
    → (rpc : ℕ) × (at_stream m.ds_map ds_fd ds_stream ≡ some rpc)
      × (find ℤ_discrete (ends rpc).local_id m.id_map ≡ none)
      × Routed ends m us_stream us_fd rpc m'
unfolding route
route-Routed ends m m' ds_stream ds_fd us_stream us_fd h free =
    let (rpc, e₁, h₁) =
      >>=-eq-ok (or_fault (at_stream m.ds_map ds_fd ds_stream) out_of_range) _ h in
    let id : ℤ = (ends rpc).local_id in
    let us_new =
      emplace-new (streams_of m.us_map us_fd) us_stream rpc
        (find-streams_of m.us_map us_fd us_stream ∙ free) in
    elim (Option-cases (find ℤ_discrete id m.id_map)) [
      | inr (old, e) ↦
          let refused = rw (emplace-old m.id_map id rpc old e) at h₁ in
          absurd (ok_ne_err (sym refused))
      | inl e ↦
          let made = rw (emplace-new m.id_map id rpc e, us_new) at h₁ in
          (
            rpc,
            or_fault-some _ out_of_range e₁,
            e,
            subst (Routed ends m us_stream us_fd rpc) (ok_inj made)
                (assigned-Routed ends m us_stream us_fd rpc),
          )
    ]

at_stream-erase_stream :
    (m m' : Streams) (fd stream : ℤ)
    → erase_stream m fd stream ≡ ok m'
    → at_stream m' fd stream ≡ none
unfolding erase_stream
at_stream-erase_stream m m' fd stream h =
    let (streams, _, e) = >>=-eq-ok (or_fault (find ℤ_discrete fd m) out_of_range) _ h in
    subst (λ x. at_stream x fd stream ≡ none) (ok_inj e)
      (at_stream-assign m fd (erase ℤ_discrete stream streams) fd stream
        ∙ ground (arith, find-erase ℤ_discrete stream stream streams))

-- A message that was removed is not found any more, by any of its names.
pub remove_rpc-none :
    (m m' : Maps) (e : Ends)
    → remove_rpc m e ≡ ok m'
    → (get_us_rpc m' e.us_stream_id e.us_fd ≡ err fatal)
      × (get_ds_rpc m' e.ds_stream_id e.ds_fd ≡ err fatal)
      × (find ℤ_discrete e.local_id m'.id_map ≡ none)
unfolding remove_rpc get_us_rpc get_ds_rpc
remove_rpc-none m m' e h =
    let (us, e₁, h₁) = >>=-eq-ok (erase_stream m.us_map e.us_fd e.us_stream_id) _ h in
    let (ds, e₂, h₂) = >>=-eq-ok (erase_stream m.ds_map e.ds_fd e.ds_stream_id) _ h₁ in
    subst
      (λ (x : Maps).
        (or_fault (at_stream x.us_map e.us_fd e.us_stream_id) fatal ≡ err fatal)
        × (or_fault (at_stream x.ds_map e.ds_fd e.ds_stream_id) fatal ≡ err fatal)
        × (find ℤ_discrete e.local_id x.id_map ≡ none))
      (ok_inj h₂)
      (
        ap (λ o. or_fault o fatal) (at_stream-erase_stream m.us_map us e.us_fd e.us_stream_id e₁),
        ap (λ o. or_fault o fatal) (at_stream-erase_stream m.ds_map ds e.ds_fd e.ds_stream_id e₂),
        find-erase ℤ_discrete e.local_id e.local_id m.id_map ∙ ground arith,
      )
