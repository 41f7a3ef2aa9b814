-- ===== src/Nat/Stun.antt =====
-- The STUN client of crates/cypher-nat/src/stun.rs and the STUN server of services/signaling/src/stun.rs.
-- The constants that both declare are declared once.
pub mod Address
pub mod Attributes
pub mod RoundTrip
use Prim.Native.Nat.{bit_xor}
use cypher.Prelude.{
  ℕ, zero, suc, ◌+◌, ◌*◌, ◌/◌, ◌%◌, ◌^◌, ◌<◌, ◌≡◌, Bool, true, false, not, ◌||◌, Option, none, some,
  List, [], ◌∷◌, ◌++◌, length, take, drop, get_or, slice, ltb, ◌==◌, if◌then◌else◌, Error, Result,
  ok, err, ◌>>=◌, ok_or, nat,
}
use cypher.Prelude.Bytes.{Bytes, to_be, from_be, bytes_eq}

abbrev pub stun_magic_cookie : ℕ
stun_magic_cookie = 0x2112_A442

abbrev pub binding_request : ℕ
binding_request = 0x0001

abbrev pub binding_response : ℕ
binding_response = 0x0101

abbrev pub attr_mapped_address : ℕ
attr_mapped_address = 0x0001

abbrev pub attr_xor_mapped_address : ℕ
attr_xor_mapped_address = 0x0020

abbrev pub stun_header_size : ℕ
stun_header_size = 20

-- An IPv4 address as its `u32`, an IPv6 address as its 16 bytes; the flow label and the scope of an
-- IPv6 socket address are not in the messages and are left out.
pub data SocketAddr : Type 0 where
  v4 : (ip port : ℕ) → SocketAddr
  v6 : (ip : Bytes) → (port : ℕ) → SocketAddr

unfoldable pub build_binding_request : (transaction_id : Bytes) → Bytes
build_binding_request transaction_id =
    to_be 2 binding_request ++ (to_be 2 0 ++ (to_be 4 stun_magic_cookie ++ transaction_id))

-- The loops that combine two arrays byte by byte.
unfoldable pub xor_bytes : Bytes → Bytes → Bytes
xor_bytes (x ∷ xs) (y ∷ ys) = bit_xor x y ∷ xor_bytes xs ys
xor_bytes _ _ = []

-- The magic cookie and the transaction id.
unfoldable pub xor_key : (transaction_id : Bytes) → Bytes
xor_key transaction_id = to_be 4 stun_magic_cookie ++ transaction_id

-- `(STUN_MAGIC_COOKIE >> 16) as u16`
abbrev pub port_key : ℕ
port_key = 0x2112

unfoldable pub parse_xor_mapped_address : (value transaction_id : Bytes) → Result Error SocketAddr
parse_xor_mapped_address value transaction_id =
    if ltb (length value) 8
    then err (nat "XOR-MAPPED-ADDRESS too short")
    else let family = get_or value 1 0 in
      let port = bit_xor (from_be (slice 2 4 value)) port_key in
      if family == 0x01
      then ok (v4 (bit_xor (from_be (slice 4 8 value)) stun_magic_cookie) port)
      else if family == 0x02
      then if ltb (length value) 20
        then err (nat "XOR-MAPPED-ADDRESS IPv6 too short")
        else ok (v6 (xor_bytes (slice 4 20 value) (xor_key transaction_id)) port)
      else err (nat "unknown address family")

unfoldable pub parse_mapped_address : (value : Bytes) → Result Error SocketAddr
parse_mapped_address value =
    if ltb (length value) 8
    then err (nat "MAPPED-ADDRESS too short")
    else let family = get_or value 1 0 in
      let port = from_be (slice 2 4 value) in
      if family == 0x01
      then ok (v4 (from_be (slice 4 8 value)) port)
      else if family == 0x02
      then if ltb (length value) 20
        then err (nat "MAPPED-ADDRESS IPv6 too short")
        else ok (v6 (slice 4 20 value) port)
      else err (nat "unknown address family")

-- What the attribute loop has found.
pub record Found : Type 0 where
  pub xor_result : Option SocketAddr
  pub mapped_result : Option SocketAddr

-- The `match` on one attribute.
unfoldable pub take_attribute :
    (attr_type : ℕ) → (value transaction_id : Bytes) → Found → Result Error Found
take_attribute attr_type value transaction_id found =
    if attr_type == attr_xor_mapped_address
    then (parse_xor_mapped_address value transaction_id >>= λ a.
        ok (record { xor_result = some a; mapped_result = found.mapped_result }))
    else if attr_type == attr_mapped_address
    then (parse_mapped_address value >>= λ a.
        ok (record { xor_result = found.xor_result; mapped_result = some a }))
    else ok found

-- The loop on the attributes from `offset` on, which are `rest`; none when the rounds are used up.
unfoldable pub parse_attributes :
    (rounds : ℕ) → (rest transaction_id : Bytes) → Found → Option (Result Error Found)
parse_attributes zero rest transaction_id found = none
parse_attributes (suc rounds) rest transaction_id found =
    let attr_type = from_be (take 2 rest) in
    let attr_len = from_be (slice 2 4 rest) in
    let padded_len = (attr_len + 3) / 4 * 4 in
    let value = take attr_len (drop 4 rest) in
    if ltb (length rest) 4
    then some (ok found)
    else if ltb (length rest) (4 + attr_len)
    then some (ok found)
    else elim (take_attribute attr_type value transaction_id found) [
      | err e ↦ some (err e)
      | ok found' ↦ parse_attributes rounds (drop padded_len (drop 4 rest)) transaction_id found'
    ]

-- `xor_result.or(mapped_result)`
unfoldable pub prefer : Found → Option SocketAddr
prefer found = elim found.xor_result [ some a ↦ some a | none ↦ found.mapped_result ]

-- The address in what the loop has found.
unfoldable pub address_found : Result Error Found → Result Error SocketAddr
address_found result =
    result >>= λ found. ok_or (prefer found) (nat "no MAPPED-ADDRESS in STUN response")

-- None when the attribute loop does not end in a round for each four bytes and one more.
unfoldable pub parse_binding_response :
    (packet transaction_id : Bytes) → Option (Result Error SocketAddr)
parse_binding_response packet transaction_id =
    if ltb (length packet) stun_header_size
    then some (err (nat "STUN response too short"))
    else if not (from_be (take 2 packet) == binding_response)
    then some (err (nat "expected Binding Response"))
    else if not (from_be (slice 4 8 packet) == stun_magic_cookie)
    then some (err (nat "invalid STUN magic cookie"))
    else if not (bytes_eq (slice 8 20 packet) transaction_id)
    then some (err (nat "STUN transaction ID mismatch"))
    else let msg_len = from_be (slice 2 4 packet) in
      let attr_data = drop stun_header_size packet in
      if ltb (length attr_data) msg_len
      then some (err (nat "STUN response truncated"))
      else elim (parse_attributes (suc (length attr_data / 4)) (take msg_len attr_data)
          transaction_id (record { xor_result = none; mapped_result = none })) [
            | none ↦ none
            | some result ↦ some (address_found result)
          ]

-- The server.
unfoldable pub attribute_value : (transaction_id : Bytes) → (peer : SocketAddr) → Bytes
attribute_value transaction_id (v4 ip port) =
    0x00 ∷ 0x01 ∷ (to_be 2 (bit_xor port port_key) ++ to_be 4 (bit_xor ip stun_magic_cookie))
attribute_value transaction_id (v6 ip port) =
    0x00 ∷ 0x02 ∷ (to_be 2 (bit_xor port port_key) ++ xor_bytes ip (xor_key transaction_id))

unfoldable pub build_binding_response : (transaction_id : Bytes) → (peer : SocketAddr) → Bytes
build_binding_response transaction_id peer =
    let attr_value = attribute_value transaction_id peer in
    to_be 2 binding_response
    ++ (to_be 2 ((4 + length attr_value) % 2 ^ 16)
        ++ (to_be 4 stun_magic_cookie
            ++ (transaction_id
                ++ (to_be 2 attr_xor_mapped_address
                    ++ (to_be 2 (length attr_value % 2 ^ 16) ++ attr_value)))))

-- One turn of the server's loop: the datagram that it sends back, if any.
unfoldable pub respond : (packet : Bytes) → (from : SocketAddr) → Option Bytes
respond packet from =
    if ltb (length packet) stun_header_size
    then none
    else if not (from_be (take 2 packet) == binding_request)
        || not (from_be (slice 4 8 packet) == stun_magic_cookie)
    then none
    else some (build_binding_response (slice 8 20 packet) from)
