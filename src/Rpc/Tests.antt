-- ===== src/Rpc/Tests.antt =====
-- Tests of src/rpc_message.cc, and the theorems about it at concrete messages.
use roshanfer_sidecar.Base.{
  ℕ, ◌/◌, ◌%◌, ◌^◌, ◌≡◌, refl, [], ◌∷◌, ◌++◌, true, false, none, some, Bytes, if◌then◌else◌, Result,
  ok, arith,
}
use roshanfer_sidecar.Base.Int.{ℤ, pos, pattern64}
use roshanfer_sidecar.Rpc.{
  Message, HeaderField, ConnectionType, ingress, egress, get_new_local_id, add_header_field,
  rpc_local_id, rpc_id, store_field, add_data, find_byte, scheme, parse_service,
}
use roshanfer_sidecar.Rpc.Headers.{
  Stores, IsBounded, add_header_field-rpc_local_id, add_data-IsBounded, store_field-IsBounded,
}
use roshanfer_sidecar.Rpc.Target.{parse_service-query}

abbrev fresh : ConnectionType → Message ℕ
fresh side = record {
  http1 = false;
  side = side;
  ds_stream_id = pos 1;
  ds_fd = pos 3;
  us_stream_id = pos 0;
  us_fd = pos 0;
  local_id = pos 0;
  global_id = pos 0;
  priority = pos 0;
  pfanout_req = 0;
  pfanout_res = 0;
  credit_return_queue = [];
  dfanout_service = none;
  service = [];
  method = [];
  error = false;
  req_headers = [];
  res_headers = [];
  res_trailers = [];
  req_data = [];
  res_data = [];
}

fresh-IsBounded : (side : ConnectionType) → IsBounded (fresh side)
fresh-IsBounded side = record {
  req_fields = omega arith;
  res_fields = omega arith;
  trailers = omega arith;
  req_payload = omega arith;
  res_payload = omega arith;
}

-- A reader of numbers that knows the number 5 only.
abbrev five : Bytes → Result ℤ
five s = ok (pos 5)

add_header_field-rpc_local_id_example :
    (id : ℤ) × (add_header_field five false
        (λ z. z)
        9
        (fresh egress)
        rpc_local_id
        (53 ∷ [])
        true
        false
      ≡ ok ((get_new_local_id 9 (pos 5)).0, record (fresh egress) { local_id = id }))
    × (pattern64 id / 2 ^ 32 ≡ 5)
    × (pattern64 id % 2 ^ 32 ≡ (get_new_local_id 9 (pos 5)).0 % 2 ^ 32)
add_header_field-rpc_local_id_example =
    add_header_field-rpc_local_id five false (λ z. z) 9 (fresh egress) (53 ∷ []) 5 refl refl
      (omega arith) (omega arith)

abbrev one_two : Bytes
one_two = 1 ∷ 2 ∷ []

abbrev with_data : Message ℕ
with_data = record (fresh ingress) { req_data = one_two }

add_two : add_data (fresh ingress) one_two true ≡ ok with_data
unfolding add_data
add_two = refl

add_data-IsBounded_example :
    IsBounded with_data
    × (with_data.req_data ≡ (if true then [] ++ one_two else []))
    × (with_data.res_data ≡ (if true then [] else [] ++ one_two))
add_data-IsBounded_example =
    add_data-IsBounded (fresh ingress) with_data one_two true (fresh-IsBounded ingress) add_two

abbrev with_header : Message ℕ
with_header = record (fresh ingress) {
  req_headers = record { name = rpc_id; value = 53 ∷ [] } ∷ [];
}

store_one : store_field (fresh ingress) rpc_id (53 ∷ []) true false ≡ ok with_header
unfolding store_field roshanfer_sidecar.Rpc.set_field
store_one = refl

store_field-IsBounded_example :
    IsBounded with_header
    × Stores (fresh ingress) (record { name = rpc_id; value = 53 ∷ [] }) true false with_header
store_field-IsBounded_example =
    store_field-IsBounded (fresh ingress) with_header rpc_id (53 ∷ []) true false
      (fresh-IsBounded ingress) store_one

-- "http://h/ab?x" asks for "ab".
no_slash : find_byte 47 (104 ∷ []) ≡ none
unfolding find_byte
no_slash = refl

no_mark : find_byte 63 (97 ∷ 98 ∷ []) ≡ none
unfolding find_byte
no_mark = refl

parse_service-query_example :
    parse_service (scheme ++ ((104 ∷ []) ++ (47 ∷ ((97 ∷ 98 ∷ []) ++ (63 ∷ (120 ∷ []))))))
    ≡ some (97 ∷ 98 ∷ [])
parse_service-query_example =
    parse_service-query (104 ∷ []) (120 ∷ []) 97 (98 ∷ []) no_slash no_mark
