-- ===== src/Mapper/Tests.antt =====
-- Tests of src/rpc_mapper.cc, and the theorems about it at concrete maps.
use roshanfer_sidecar.Base.{
  ℕ, ◌+◌, ◌≡◌, ◌≢◌, ◌⊎◌, ◌<◌, refl, List, [], ◌∷◌, none, some, Fault, fatal, Result, ok, err, arith,
}
use roshanfer_sidecar.Base.Int.{ℤ, pos, ℤ_discrete}
use roshanfer_sidecar.Base.{ℕ_discrete, or_fault, ◌>>=◌}
use roshanfer_sidecar.Base.Assoc.{find}
use roshanfer_sidecar.Mapper.{
  Maps, Ends, at_stream, allocate_rpc, route, get_us_rpc, get_ds_rpc, remove_rpc,
}
use roshanfer_sidecar.Mapper.Routes.{Routed, allocate_rpc-get_ds_rpc, route-Routed, remove_rpc-none}

abbrev empty : Maps
empty = record { ds_map = []; us_map = []; id_map = [] }

-- Message 7, on stream 1 of descriptor 3, with the identity 5; upstream it has stream 2 of 4.
abbrev ends_7 : Ends
ends_7 = record {
  ds_stream_id = pos 1;
  ds_fd = pos 3;
  us_stream_id = pos 2;
  us_fd = pos 4;
  local_id = pos 5;
}

abbrev allocated : Maps
allocated = record empty { ds_map = (pos 3, (pos 1, 7) ∷ []) ∷ [] }

abbrev routed : Maps
routed = record allocated { us_map = (pos 4, (pos 2, 7) ∷ []) ∷ []; id_map = (pos 5, 7) ∷ [] }

abbrev removed : Maps
removed = record { ds_map = (pos 3, []) ∷ []; us_map = (pos 4, []) ∷ []; id_map = [] }

route_7 : route (λ r. ends_7) allocated (pos 1) (pos 3) (pos 2) (pos 4) ≡ ok routed
unfolding route at_stream find ℤ_discrete ℕ_discrete roshanfer_sidecar.Mapper.emplace
    roshanfer_sidecar.Mapper.streams_of roshanfer_sidecar.Base.Assoc.assign
route_7 = refl

remove_7 : remove_rpc routed ends_7 ≡ ok removed
unfolding remove_rpc roshanfer_sidecar.Mapper.erase_stream find ℤ_discrete ℕ_discrete
    roshanfer_sidecar.Base.Assoc.assign roshanfer_sidecar.Base.Assoc.erase
remove_7 = refl

free_stream : at_stream allocated.us_map (pos 4) (pos 2) ≡ none
unfolding at_stream find
free_stream = refl

allocate_rpc-get_ds_rpc_example :
    ((at_stream empty.ds_map (pos 3) (pos 1) ≡ none)
      × ((m' : Maps) × (allocate_rpc empty (pos 1) (pos 3) 7 ≡ ok m')
          × (get_ds_rpc m' (pos 1) (pos 3) ≡ ok 7)
          × ((stream' fd' : ℤ)
              → ((pos 3 ≢ fd') ⊎ (pos 1 ≢ stream'))
              → get_ds_rpc m' stream' fd' ≡ get_ds_rpc empty stream' fd')
          × (m'.us_map ≡ empty.us_map)
          × (m'.id_map ≡ empty.id_map)))
    ⊎ ((old : ℕ) × (at_stream empty.ds_map (pos 3) (pos 1) ≡ some old)
        × (allocate_rpc empty (pos 1) (pos 3) 7 ≡ err fatal))
allocate_rpc-get_ds_rpc_example = allocate_rpc-get_ds_rpc empty (pos 1) (pos 3) 7

route-Routed_example :
    (rpc : ℕ) × (at_stream allocated.ds_map (pos 3) (pos 1) ≡ some rpc)
    × (find ℤ_discrete (pos 5) allocated.id_map ≡ none)
    × Routed (λ r. ends_7) allocated (pos 2) (pos 4) rpc routed
route-Routed_example =
    route-Routed (λ r. ends_7) allocated routed (pos 1) (pos 3) (pos 2) (pos 4) route_7 free_stream

remove_rpc-none_example :
    (get_us_rpc removed (pos 2) (pos 4) ≡ err fatal)
    × (get_ds_rpc removed (pos 1) (pos 3) ≡ err fatal)
    × (find ℤ_discrete (pos 5) removed.id_map ≡ none)
remove_rpc-none_example = remove_rpc-none routed removed ends_7 remove_7
