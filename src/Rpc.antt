-- ===== src/Rpc.antt =====
-- src/rpc_message.cc and include/rpc_message.h: the messages, with their identities and header
-- fields. The classes for gRPC and for HTTP/1 are one record here; `http1` tells them apart.
pub mod Ids
pub mod Headers
pub mod Target
mod Tests
use roshanfer_sidecar.Base.{
  ℕ, zero, suc, ◌+◌, ◌-◌, ◌*◌, ◌/◌, ◌%◌, ◌^◌, List, [], ◌∷◌, ◌++◌, Bool, true, false, ◌&&◌, ◌||◌,
  not, Option, none, some, Bytes, length, ltb, leb, ◌==◌, if◌then◌else◌, bytes_eq, Fault, fatal,
  out_of_range, Result, ok, err, ◌>>=◌, ◌>>◌, require,
}
use roshanfer_sidecar.Base.Int.{ℤ, pos, negsuc, ltb_ℤ, pattern32, pattern64, signed64}

pub data ConnectionType : Type 0 where
  ingress egress : ConnectionType

unfoldable pub is_ingress_side : ConnectionType → Bool
is_ingress_side ingress = true
is_ingress_side egress = false

-- `HeaderField`: the bytes of the name and of the value, without the NUL that ends them.
pub record HeaderField : Type 0 where
  pub name : Bytes
  pub value : Bytes

abbrev pub max_header_field_size : ℕ
max_header_field_size = 60

abbrev pub max_payload_size : ℕ
max_payload_size = 20000

abbrev pub max_header_field_number : ℕ
max_header_field_number = 13

-- `RPCMessage` with what its two classes add. The arrays of header fields are the lists of those
-- that are in use, and the payloads the bytes up to their offset. `B` is a grant that waits to be
-- returned.
pub record Message (B : Type 0) : Type 0 where
  pub http1 : Bool
  pub side : ConnectionType
  pub ds_stream_id : ℤ
  pub ds_fd : ℤ
  pub us_stream_id : ℤ
  pub us_fd : ℤ
  pub local_id : ℤ
  pub global_id : ℤ
  pub priority : ℤ
  pub pfanout_req : ℕ
  pub pfanout_res : ℕ
  pub credit_return_queue : List B
  pub dfanout_service : Option Bytes
  pub service : Bytes
  pub method : Bytes
  pub error : Bool
  pub req_headers : List HeaderField
  pub res_headers : List HeaderField
  pub res_trailers : List HeaderField
  pub req_data : Bytes
  pub res_data : Bytes

-- `get_new_local_id`: the counter goes up, and the identity has the parent in its high half.
unfoldable pub get_new_local_id : ℕ → ℤ → ℕ × ℤ
get_new_local_id counter parent =
    let counter' = (counter + 1) % 2 ^ 64 in
    (counter', signed64 (pattern32 parent * 2 ^ 32 + counter' % 2 ^ 32))

-- `HeaderField::set`. The terminator of a name or value that fills the array has no place.
unfoldable pub set_field : Bytes → Bytes → Result HeaderField
set_field name value =
    if ltb max_header_field_size (length name)
    then err fatal
    else if ltb max_header_field_size (length value)
    then err fatal
    else if length name == max_header_field_size
    then err out_of_range
    else if length value == max_header_field_size
    then err out_of_range
    else ok (record { name = name; value = value })

-- `std::memcmp(name, prefix, n) == 0` on a name that ends in a NUL byte.
unfoldable pub starts_with : Bytes → Bytes → Bool
starts_with [] name = true
starts_with (p ∷ ps) [] = false
starts_with (p ∷ ps) (c ∷ cs) = p == c && starts_with ps cs

-- "rpc-id", "rpc-local-id", "priority" and ":path".
abbrev pub rpc_id : Bytes
rpc_id = 114 ∷ 112 ∷ 99 ∷ 45 ∷ 105 ∷ 100 ∷ []

abbrev pub rpc_local_id : Bytes
rpc_local_id = 114 ∷ 112 ∷ 99 ∷ 45 ∷ 108 ∷ 111 ∷ 99 ∷ 97 ∷ 108 ∷ 45 ∷ 105 ∷ 100 ∷ []

abbrev pub priority_name : Bytes
priority_name = 112 ∷ 114 ∷ 105 ∷ 111 ∷ 114 ∷ 105 ∷ 116 ∷ 121 ∷ []

abbrev pub path_name : Bytes
path_name = 58 ∷ 112 ∷ 97 ∷ 116 ∷ 104 ∷ []

-- `data() + 1` of a value; of an empty one, `value_len - 1` wraps around.
unfoldable pub after_slash : Bytes → Result Bytes
after_slash [] = err out_of_range
after_slash (c ∷ cs) = ok cs

module _ {B : Type 0} where
  -- Where a header field goes, with the limit on their number.
  unfoldable pub store_field : Message B → Bytes → Bytes → Bool → Bool → Result (Message B)
  store_field msg name value request trailer =
      if trailer && (request || msg.http1)
      then err fatal
      else (let fields =
            if trailer
            then msg.res_trailers
            else if request
            then msg.req_headers
            else msg.res_headers in
          if leb max_header_field_number (length fields)
          then err fatal
          else (set_field name value >>= λ field.
              let fields' = fields ++ field ∷ [] in
              ok (
                if trailer
                then record msg { res_trailers = fields' }
                else if request
                then record msg { req_headers = fields' }
                else record msg { res_headers = fields' })))

  -- The branch for ":path", which only the class for gRPC has.
  unfoldable pub read_path : Message B → Bytes → Bytes → Result (Message B)
  read_path msg name value =
      if not msg.http1 && bytes_eq name path_name
      then (after_slash value >>= λ s. ok (record msg { service = s; method = [] }))
      else ok msg

  module _ (stoll : Bytes → Result ℤ) (ingress_role : Bool) where
    -- The branch for "rpc-id".
    unfoldable pub read_global_id : ℕ → Message B → Bytes → Bytes → Result (ℕ × Message B)
    read_global_id counter msg name value =
        if starts_with rpc_id name
        then (stoll value >>= λ id.
            let (counter', fresh) = get_new_local_id counter (pos 0) in
            ok (
              if ingress_role || is_ingress_side msg.side
              then (counter', record msg { global_id = id; local_id = fresh })
              else (counter, record msg { global_id = id })))
        else ok (counter, msg)

    -- The branch for "rpc-local-id"; `true` says that the header field is not passed on.
    unfoldable pub read_local_id : ℕ → Message B → Bytes → Bytes → Result (Bool × ℕ × Message B)
    read_local_id counter msg name value =
        if starts_with rpc_local_id name
        then (stoll value >>= λ id.
            if is_ingress_side msg.side
            then (require (not (ltb_ℤ id (pos 0) && ltb_ℤ (negsuc 1) id)) fatal
                >> ok (false, counter, msg))
            else (require (ltb_ℤ (pos 0) id && ltb_ℤ id (pos (2 ^ 32))) fatal
                >> (let (counter', fresh) = get_new_local_id counter id in
                    ok (true, counter', record msg { local_id = fresh }))))
        else ok (false, counter, msg)

    -- The branch for "priority": an int64_t that is cut to an int32_t.
    unfoldable pub read_priority : (ℤ → ℤ) → Message B → Bytes → Bytes → Result (Message B)
    read_priority to_int32 msg name value =
        if starts_with priority_name name
        then (stoll value >>= λ p. ok (record msg { priority = to_int32 p }))
        else ok msg

    -- The three branches for a request, one after the other; `true` says that the header field is
    -- not passed on.
    unfoldable pub read_request :
        (ℤ → ℤ) → ℕ → Message B → Bytes → Bytes → Result (Bool × ℕ × Message B)
    read_request to_int32 counter msg name value = do
      (counter₁, msg₁) ← read_global_id counter msg name value
      (stop, counter₂, msg₂) ← read_local_id counter₁ msg₁ name value
      msg₃ ← (if stop then ok msg₂ else read_priority to_int32 msg₂ name value)
      ok (stop, counter₂, msg₃)

    -- `add_header_field` of both classes.
    unfoldable pub add_header_field :
        (ℤ → ℤ) → ℕ → Message B → Bytes → Bytes → Bool → Bool → Result (ℕ × Message B)
    add_header_field to_int32 counter msg name value request trailer = do
      msg₁ ← read_path msg name value
      require (not (msg.http1 && trailer)) fatal
      let unread = ok (false, counter, msg₁)
      (stop, counter₂, msg₂) ←
          (if request then read_request to_int32 counter msg₁ name value else unread)
      msg₃ ← (if stop then ok msg₂ else store_field msg₂ name value request trailer)
      ok (counter₂, msg₃)

  -- `add_data` of both classes.
  unfoldable pub add_data : Message B → Bytes → Bool → Result (Message B)
  add_data msg bytes request =
      if msg.http1 && request
      then err fatal
      else (let payload = if request then msg.req_data else msg.res_data in
          if ltb (max_payload_size - length payload) (length bytes)
          then err fatal
          else ok (
              if request
              then record msg { req_data = payload ++ bytes }
              else record msg { res_data = payload ++ bytes }))

  -- `clear` of both classes. The priority stays as it was.
  unfoldable pub clear : Message B → Result (Message B)
  clear msg =
      if not (length msg.credit_return_queue == 0)
      then err fatal
      else ok (record msg {
        ds_stream_id = negsuc 0;
        ds_fd = negsuc 0;
        us_stream_id = negsuc 0;
        us_fd = negsuc 0;
        local_id = negsuc 0;
        global_id = negsuc 0;
        pfanout_req = 0;
        pfanout_res = 0;
        dfanout_service = none;
        service = [];
        method = [];
        error = false;
        req_headers = [];
        res_headers = [];
        res_trailers = [];
        req_data = [];
        res_data = [];
      })

-- `RPCMessagePool`
pub record RpcMessagePool (B : Type 0) : Type 0 where
  pub grpc_pool : List (Message B)
  pub http_pool : List (Message B)

module _ {B : Type 0} where
  -- `free_rpc` of a message that nobody else holds; `holders` is its `use_count`.
  unfoldable pub free_rpc : RpcMessagePool B → ℕ → Message B → Result (RpcMessagePool B)
  free_rpc pool holders msg =
      if ltb 1 holders
      then err fatal
      else (clear msg >>= λ fresh. ok (
          if msg.http1
          then record pool { http_pool = pool.http_pool ++ fresh ∷ [] }
          else record pool { grpc_pool = pool.grpc_pool ++ fresh ∷ [] }))

  unfoldable pub take_message :
      ℤ → ℤ → ConnectionType → List (Message B) → Result (Message B × List (Message B))
  take_message stream fd side [] = err fatal
  take_message stream fd side (m ∷ ms) =
      ok (record m { ds_fd = fd; ds_stream_id = stream; side = side }, ms)

  unfoldable pub get_rpc :
      RpcMessagePool B → ℤ → ℤ → Bool → ConnectionType → Result (Message B × RpcMessagePool B)
  get_rpc pool stream fd http1 side =
      take_message stream fd side (if http1 then pool.http_pool else pool.grpc_pool)
      >>= λ (m, rest).
          ok (
            m,
            if http1 then record pool { http_pool = rest } else record pool { grpc_pool = rest },
          )

-- The bytes from the first `c` on, that one included.
unfoldable pub find_byte : ℕ → Bytes → Option Bytes
find_byte c [] = none
find_byte c (b ∷ bs) = let rest = find_byte c bs in if b == c then some (b ∷ bs) else rest

-- The bytes before the first `c`, or all.
unfoldable pub up_to : ℕ → Bytes → Bytes
up_to c [] = []
up_to c (b ∷ bs) = let rest = up_to c bs in if b == c then [] else b ∷ rest

-- "http://"
abbrev pub scheme : Bytes
scheme = 104 ∷ 116 ∷ 116 ∷ 112 ∷ 58 ∷ 47 ∷ 47 ∷ []

unfoldable pub drop : ℕ → Bytes → Bytes
drop zero bs = bs
drop (suc n) [] = []
drop (suc n) (b ∷ bs) = drop n bs

-- The name between the slash and the question mark; there must be a byte after the slash.
unfoldable pub service_after : Option Bytes → Option Bytes
service_after none = none
service_after (some []) = none
service_after (some (slash ∷ [])) = none
service_after (some (slash ∷ c ∷ cs)) = some (up_to 63 (c ∷ cs))

-- `parse_service_from_request_target`; `none` is its `false`.
unfoldable pub parse_service : Bytes → Option Bytes
parse_service s = service_after (find_byte 47 (if starts_with scheme s then drop 7 s else s))
