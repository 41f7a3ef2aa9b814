-- ===== src/Nat/Stun/RoundTrip.antt =====
-- The client's request, the server's response, and what the client reads in it.
use cypher.Prelude.{
  ℕ, suc, ◌/◌, ◌+◌, ◌-◌, ◌%◌, ◌^◌, ◌≤◌, ◌<◌, ◌≡◌, refl, sym, ap, ◌∙◌, none, some, [], ◌++◌,
  append-nil, length, take, drop, slice, take-append, drop-append, drop_past, take_all,
  length-append, le→ltb, ok, arith,
}
use cypher.Prelude.Bytes.{Bytes, to_be, from_be, length-to_be, from_be-to_be, bytes_eq_refl}
use cypher.Nat.Stun.{
  stun_magic_cookie, binding_request, binding_response, attr_xor_mapped_address, SocketAddr,
  build_binding_request, take_attribute, parse_attributes, prefer, address_found,
  parse_binding_response, attribute_value, build_binding_response, respond,
}
use cypher.Nat.Stun.Address.{IsSocketAddr, parse-attribute_value, length-attribute_value}
use cypher.Nat.Stun.Attributes.{attribute, length-attribute, parse_attributes-attribute}

-- A message of either direction: type, length of the attributes, cookie, transaction id, attributes.
abbrev message : ℕ → ℕ → Bytes → Bytes → Bytes
message kind count transaction_id attributes =
    to_be 2 kind ++ (to_be 2 count ++ (to_be 4 stun_magic_cookie ++ (transaction_id ++ attributes)))

module _ (kind count : ℕ) (transaction_id attributes : Bytes)
    (id_length : length transaction_id ≡ 12) where
  length-message : length (message kind count transaction_id attributes) ≡ 20 + length attributes
  length-message = omega (
    arith,
    length-append (to_be 2 kind)
        (to_be 2 count ++ (to_be 4 stun_magic_cookie ++ (transaction_id ++ attributes))),
    length-append (to_be 2 count) (to_be 4 stun_magic_cookie ++ (transaction_id ++ attributes)),
    length-append (to_be 4 stun_magic_cookie) (transaction_id ++ attributes),
    length-append transaction_id attributes,
    length-to_be 2 kind,
    length-to_be 2 count,
    length-to_be 4 stun_magic_cookie,
    id_length,
  )

  message_kind :
      kind < 2 ^ 16 → from_be (take 2 (message kind count transaction_id attributes)) ≡ kind
  message_kind range =
      rw (take-append 2 (to_be 2 kind) _ (length-to_be 2 kind)) (from_be-to_be 2 kind range)

  behind_2 :
      drop 2 (message kind count transaction_id attributes)
      ≡ to_be 2 count ++ (to_be 4 stun_magic_cookie ++ (transaction_id ++ attributes))
  behind_2 = drop-append 2 (to_be 2 kind) _ (length-to_be 2 kind)

  behind_4 :
      drop 4 (message kind count transaction_id attributes)
      ≡ to_be 4 stun_magic_cookie ++ (transaction_id ++ attributes)
  behind_4 =
      drop_past 2 2 (to_be 2 kind) _ (length-to_be 2 kind)
      ∙ drop-append 2 (to_be 2 count) _ (length-to_be 2 count)

  behind_8 : drop 8 (message kind count transaction_id attributes) ≡ transaction_id ++ attributes
  behind_8 =
      drop_past 2 6 (to_be 2 kind) _ (length-to_be 2 kind)
      ∙ drop_past 2 4 (to_be 2 count) _ (length-to_be 2 count)
      ∙ drop-append 4 (to_be 4 stun_magic_cookie) _ (length-to_be 4 stun_magic_cookie)

  behind_20 : drop 20 (message kind count transaction_id attributes) ≡ attributes
  behind_20 =
      drop_past 2 18 (to_be 2 kind) _ (length-to_be 2 kind)
      ∙ drop_past 2 16 (to_be 2 count) _ (length-to_be 2 count)
      ∙ drop_past 4 12 (to_be 4 stun_magic_cookie) _ (length-to_be 4 stun_magic_cookie)
      ∙ drop-append 12 transaction_id attributes id_length

  message_count :
      count < 2 ^ 16 → from_be (slice 2 4 (message kind count transaction_id attributes)) ≡ count
  message_count range =
      rw
        (
          behind_2,
          take-append (4 - 2) (to_be 2 count)
              (to_be 4 stun_magic_cookie ++ (transaction_id ++ attributes))
              (length-to_be 2 count ∙ omega arith),
        )
        (from_be-to_be 2 count range)

  message_cookie :
      from_be (slice 4 8 (message kind count transaction_id attributes)) ≡ stun_magic_cookie
  message_cookie =
      rw
        (
          behind_4,
          take-append (8 - 4) (to_be 4 stun_magic_cookie) (transaction_id ++ attributes)
              (length-to_be 4 stun_magic_cookie ∙ omega arith),
        )
        (from_be-to_be 4 stun_magic_cookie (omega arith))

  message_id : slice 8 20 (message kind count transaction_id attributes) ≡ transaction_id
  message_id =
      rw behind_8 (take-append (20 - 8) transaction_id attributes (id_length ∙ omega arith))

request_message :
    (transaction_id : Bytes)
    → build_binding_request transaction_id ≡ message binding_request 0 transaction_id []
unfolding build_binding_request
request_message transaction_id =
    ap (λ (t : Bytes). to_be 2 binding_request ++ (to_be 2 0 ++ (to_be 4 stun_magic_cookie ++ t)))
      (sym (append-nil transaction_id))

module _ (transaction_id : Bytes) (peer : SocketAddr) (id_length : length transaction_id ≡ 12)
    (range : IsSocketAddr peer) where
  abbrev value : Bytes
  value = attribute_value transaction_id peer

  respond-request :
      respond (build_binding_request transaction_id) peer
      ≡ some (build_binding_response transaction_id peer)
  unfolding respond
  respond-request =
      rw
        (
          request_message transaction_id,
          message_kind binding_request 0 transaction_id [] id_length (omega arith),
          message_cookie binding_request 0 transaction_id [] id_length,
          message_id binding_request 0 transaction_id [] id_length,
        )
        (ground (arith, length-message binding_request 0 transaction_id [] id_length))

  response_message :
      build_binding_response transaction_id peer
      ≡ message binding_response
          ((4 + length value) % 2 ^ 16)
          transaction_id
          (attribute attr_xor_mapped_address value)
  unfolding build_binding_response
  response_message = refl

  small : (8 ≤ length value) × (length value ≤ 20)
  small = length-attribute_value transaction_id id_length peer range

  found_value :
      (rounds : ℕ)
      → parse_attributes
          (suc (suc rounds))
          (attribute attr_xor_mapped_address value)
          transaction_id
          (record { xor_result = none; mapped_result = none })
        ≡ some (ok (record { xor_result = some peer; mapped_result = none }))
  unfolding take_attribute
  found_value rounds =
      parse_attributes-attribute attr_xor_mapped_address value (omega arith) (omega (arith, small))
        rounds transaction_id (record { xor_result = none; mapped_result = none }) _
        (rw (parse-attribute_value transaction_id id_length peer range) refl)

  abbrev attributes : Bytes
  attributes = attribute attr_xor_mapped_address value

  length-attributes : length attributes ≡ suc (3 + length value)
  length-attributes =
      length-attribute attr_xor_mapped_address value (omega arith) (omega (arith, small))
      ∙ omega arith

  parse-response :
      parse_binding_response (build_binding_response transaction_id peer) transaction_id
      ≡ some (ok peer)
  unfolding parse_binding_response address_found prefer
  parse-response =
      let count = (4 + length value) % 2 ^ 16 in
      let whole : take count attributes ≡ attributes =
        take_all count attributes (omega (arith, length-attributes, small)) in
      let rounds_left : suc (length attributes / 4) ≡ suc (suc (length value / 4)) =
        omega (arith, length-attributes) in
      rw (
        response_message,
        le→ltb (length (message binding_response count transaction_id attributes)) 20 (
            omega
              (arith, length-message binding_response count transaction_id attributes id_length)),
        message_kind binding_response count transaction_id attributes id_length (omega arith),
        message_cookie binding_response count transaction_id attributes id_length,
        message_id binding_response count transaction_id attributes id_length,
        bytes_eq_refl transaction_id,
        message_count binding_response count transaction_id attributes id_length (omega arith),
        behind_20 binding_response count transaction_id attributes id_length,
        whole,
        le→ltb (length attributes) count (omega (arith, length-attributes, small)),
        rounds_left,
        found_value (length value / 4),
      )

-- The server answers the request that `build_binding_request` makes for a transaction id of twelve
-- bytes, and `parse_binding_response` reads in its answer the address that the request came from, of
-- either family.
pub parse_binding_response-respond :
    (transaction_id : Bytes) (peer : SocketAddr)
    → length transaction_id ≡ 12
    → IsSocketAddr peer
    → (response : Bytes) × (respond (build_binding_request transaction_id) peer ≡ some response)
      × (parse_binding_response response transaction_id ≡ some (ok peer))
parse_binding_response-respond transaction_id peer id_length range = (
  build_binding_response transaction_id peer,
  respond-request transaction_id peer id_length range,
  parse-response transaction_id peer id_length range,
)
