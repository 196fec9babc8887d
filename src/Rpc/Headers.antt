-- ===== src/Rpc/Headers.antt =====
-- About the header fields of a message in src/rpc_message.cc.
use roshanfer_sidecar.Base.{
  ℕ, ◌-◌, ◌/◌, ◌%◌, ◌^◌, ◌≤◌, ◌<◌, ◌≡◌, refl, ap, sym, ◌∙◌, inl, inr, [], ◌∷◌, ◌++◌, Bool, true,
  false, ◌&&◌, ◌||◌, not, Bytes, length, length-append, ltb, leb, if◌then◌else◌, Result, ok, arith,
  Bool-cases, >>=-eq-ok, ok_inj, subst,
}
use roshanfer_sidecar.Base.Int.{ℤ, pos, ltb_ℤ, pattern64}
use roshanfer_sidecar.Rpc.{
  HeaderField, Message, egress, get_new_local_id, set_field, store_field, add_header_field,
  read_request, read_path, read_global_id, read_local_id, starts_with, rpc_local_id,
  is_ingress_side, max_header_field_number, max_payload_size, add_data,
}
use roshanfer_sidecar.Rpc.Ids.{get_new_local_id-halves}

module _ {B : Type 0} where
  read_path-rpc_local_id :
      (msg : Message B) (value : Bytes) → read_path msg rpc_local_id value ≡ ok msg
  unfolding read_path
  read_path-rpc_local_id msg value = elim (Bool-cases msg.http1) [
    | inl one ↦ rw one refl
    | inr two ↦ rw two refl
  ]

module _ {B : Type 0} (stoll : Bytes → Result ℤ) (ingress_role : Bool) where
  read_local_id-egress :
      (counter : ℕ) (msg : Message B) (value : Bytes) (call : ℕ)
      → msg.side ≡ egress
      → stoll value ≡ ok (pos call)
      → 0 < call
      → call < 2 ^ 32
      → read_local_id stoll ingress_role counter msg rpc_local_id value
        ≡ ok (
          true,
          (get_new_local_id counter (pos call)).0,
          record msg { local_id = (get_new_local_id counter (pos call)).1 },
        )
  unfolding read_local_id starts_with is_ingress_side
  read_local_id-egress counter msg value call side known lo hi =
      let low : ltb_ℤ (pos 0) (pos call) ≡ true = ground arith in
      let high : ltb_ℤ (pos call) (pos (2 ^ 32)) ≡ true = ground arith in
      rw (known, side, low, high) refl

  -- A request of the service to a downstream service carries the identity of the call that it is
  -- part of, below 2 ^ 32. It gets a new identity with that call in its high half, and the header
  -- field is not passed on.
  pub add_header_field-rpc_local_id :
      (to_int32 : ℤ → ℤ) (counter : ℕ) (msg : Message B) (value : Bytes) (call : ℕ)
      → msg.side ≡ egress
      → stoll value ≡ ok (pos call)
      → 0 < call
      → call < 2 ^ 32
      → (id : ℤ) × (add_header_field stoll ingress_role to_int32 counter msg rpc_local_id value true
            false
          ≡ ok ((get_new_local_id counter (pos call)).0, record msg { local_id = id }))
        × (pattern64 id / 2 ^ 32 ≡ call)
        × (pattern64 id % 2 ^ 32 ≡ (get_new_local_id counter (pos call)).0 % 2 ^ 32)
  unfolding add_header_field read_request read_global_id starts_with
  add_header_field-rpc_local_id to_int32 counter msg value call side known lo hi =
      let path = read_path-rpc_local_id msg value in
      let local = read_local_id-egress counter msg value call side known lo hi in
      let one : msg.http1 && false ≡ false = elim (Bool-cases msg.http1) [
        | inl t ↦ rw t
        | inr f ↦ rw f
      ] in
      let halves = get_new_local_id-halves counter (pos call) in
      (
        (get_new_local_id counter (pos call)).1,
        rw (path, one, local) refl,
        halves.0 ∙ omega arith,
        halves.1,
      )

-- What `set_field` makes.
set_field-eq :
    (name value : Bytes) {field : HeaderField}
    → set_field name value ≡ ok field
    → field ≡ record { name = name; value = value }
unfolding set_field
set_field-eq name value h = ground (arith, h)

-- The arrays of a message have room for what is in them.
pub record IsBounded {B : Type 0} (msg : Message B) : Type 0 where
  pub req_fields : length msg.req_headers ≤ max_header_field_number
  pub res_fields : length msg.res_headers ≤ max_header_field_number
  pub trailers : length msg.res_trailers ≤ max_header_field_number
  pub req_payload : length msg.req_data ≤ max_payload_size
  pub res_payload : length msg.res_data ≤ max_payload_size

module _ {B : Type 0} where
  -- A payload that `add_data` accepts fits the array, and is what was there with the new bytes
  -- behind it; the message stays within its bounds.
  pub add_data-IsBounded :
      (msg msg' : Message B) (bytes : Bytes) (request : Bool)
      → IsBounded msg
      → add_data msg bytes request ≡ ok msg'
      → IsBounded msg'
        × (msg'.req_data ≡ (if request then msg.req_data ++ bytes else msg.req_data))
        × (msg'.res_data ≡ (if request then msg.res_data else msg.res_data ++ bytes))
  unfolding add_data
  add_data-IsBounded msg msg' bytes true b h = elim (Bool-cases msg.http1) [
    | inl one ↦ absurd (ground arith)
    | inr two ↦ elim (Bool-cases (ltb (max_payload_size - length msg.req_data) (length bytes))) [
      | inl much ↦ absurd (ground arith)
      | inr fits ↦
          let new : Message B = record msg { req_data = msg.req_data ++ bytes } in
          let small = length-append msg.req_data bytes in
          let e : add_data msg bytes true ≡ ok new = rw (two, fits) refl in
          subst
            (λ (x : Message B).
              IsBounded x
              × (x.req_data ≡ (if true then msg.req_data ++ bytes else msg.req_data))
              × (x.res_data ≡ (if true then msg.res_data else msg.res_data ++ bytes)))
            (ok_inj (sym e ∙ h))
            (
              record {
                req_fields = b.req_fields;
                res_fields = b.res_fields;
                trailers = b.trailers;
                req_payload = ground (arith, fits);
                res_payload = b.res_payload;
              },
              refl,
              refl,
            )
    ]
  ]
  add_data-IsBounded msg msg' bytes false b h =
      let none : msg.http1 && false ≡ false = elim (Bool-cases msg.http1) [
        | inl t ↦ rw t
        | inr f ↦ rw f
      ] in
      elim (Bool-cases (ltb (max_payload_size - length msg.res_data) (length bytes))) [
        | inl much ↦ absurd (ground arith)
        | inr fits ↦
            let new : Message B = record msg { res_data = msg.res_data ++ bytes } in
            let small = length-append msg.res_data bytes in
            let e : add_data msg bytes false ≡ ok new = rw (none, fits) refl in
            subst
              (λ (x : Message B).
                IsBounded x
                × (x.req_data ≡ (if false then msg.req_data ++ bytes else msg.req_data))
                × (x.res_data ≡ (if false then msg.res_data else msg.res_data ++ bytes)))
              (ok_inj (sym e ∙ h))
              (
                record {
                  req_fields = b.req_fields;
                  res_fields = b.res_fields;
                  trailers = b.trailers;
                  req_payload = b.req_payload;
                  res_payload = ground (arith, fits);
                },
                refl,
                refl,
              )
      ]

  -- The arrays of a message after a field was stored.
  abbrev pub Stores : Message B → HeaderField → Bool → Bool → Message B → Type 0
  Stores msg field request trailer msg' =
      (msg'.req_headers ≡ (if request then msg.req_headers ++ field ∷ [] else msg.req_headers))
      × (msg'.res_headers
          ≡ (if request || trailer then msg.res_headers else msg.res_headers ++ field ∷ []))
      × (msg'.res_trailers
          ≡ (if not request && trailer then msg.res_trailers ++ field ∷ [] else msg.res_trailers))

  -- A header field that is stored is one more at the end of its array, which is that of the request,
  -- of the response or of the trailers, and had room for it; the two other arrays are as before, and
  -- the message stays within its bounds. The field has the name and the value that were given.
  pub store_field-IsBounded :
      (msg msg' : Message B) (name value : Bytes) (request trailer : Bool)
      → IsBounded msg
      → store_field msg name value request trailer ≡ ok msg'
      → IsBounded msg' × Stores msg (record { name = name; value = value }) request trailer msg'
  unfolding store_field set_field
  store_field-IsBounded msg msg' name value true true b h = absurd (ground arith)
  store_field-IsBounded msg msg' name value true false b h =
      elim (Bool-cases (leb max_header_field_number (length msg.req_headers))) [
        | inl full ↦ absurd (ground arith)
        | inr room ↦
            let opened = rw (room) at h in
            let (field, made, e) = >>=-eq-ok (set_field name value) _ opened in
            let is : field ≡ record { name = name; value = value } = set_field-eq name value made in
            let one = length-append msg.req_headers (field ∷ []) in
            subst
              (λ (x : Message B).
                IsBounded x × Stores msg (record { name = name; value = value }) true false x)
              (ok_inj e)
              (
                record {
                  req_fields = ground (arith, room, one);
                  res_fields = b.res_fields;
                  trailers = b.trailers;
                  req_payload = b.req_payload;
                  res_payload = b.res_payload;
                },
                (ap (λ f. msg.req_headers ++ f ∷ []) is, refl, refl),
              )
      ]
  store_field-IsBounded msg msg' name value false true b h = elim (Bool-cases msg.http1) [
    | inl one ↦ absurd (ground arith)
    | inr two ↦ elim (Bool-cases (leb max_header_field_number (length msg.res_trailers))) [
      | inl full ↦ absurd (ground arith)
      | inr room ↦
          let opened = rw (two, room) at h in
          let (field, made, e) = >>=-eq-ok (set_field name value) _ opened in
          let is : field ≡ record { name = name; value = value } = set_field-eq name value made in
          let one = length-append msg.res_trailers (field ∷ []) in
          subst
            (λ (x : Message B).
              IsBounded x × Stores msg (record { name = name; value = value }) false true x)
            (ok_inj e)
            (
              record {
                req_fields = b.req_fields;
                res_fields = b.res_fields;
                trailers = ground (arith, room, one);
                req_payload = b.req_payload;
                res_payload = b.res_payload;
              },
              (refl, refl, ap (λ f. msg.res_trailers ++ f ∷ []) is),
            )
    ]
  ]
  store_field-IsBounded msg msg' name value false false b h =
      elim (Bool-cases (leb max_header_field_number (length msg.res_headers))) [
        | inl full ↦ absurd (ground arith)
        | inr room ↦
            let opened = rw (room) at h in
            let (field, made, e) = >>=-eq-ok (set_field name value) _ opened in
            let is : field ≡ record { name = name; value = value } = set_field-eq name value made in
            let one = length-append msg.res_headers (field ∷ []) in
            subst
              (λ (x : Message B).
                IsBounded x × Stores msg (record { name = name; value = value }) false false x)
              (ok_inj e)
              (
                record {
                  req_fields = b.req_fields;
                  res_fields = ground (arith, room, one);
                  trailers = b.trailers;
                  req_payload = b.req_payload;
                  res_payload = b.res_payload;
                },
                (refl, ap (λ f. msg.res_headers ++ f ∷ []) is, refl),
              )
      ]
