-- ===== src/Nat/Stun/Address.antt =====
-- An address in an XOR-MAPPED-ADDRESS attribute, written and read.
use cypher.Prelude.{
  ℕ, suc, ◌+◌, ◌-◌, ◌^◌, ◌≤◌, ◌<◌, ◌≡◌, refl, ap, ap₂, ◌∙◌, [], ◌∷◌, ◌++◌, length, take, drop,
  take-append, drop-append, take_all, length-append, ok, arith,
}
use cypher.Prelude.Bytes.{Bytes, IsU32, to_be, from_be, length-to_be, from_be-to_be}
use cypher.Prelude.Bits.{bit_xor_twice, bit_xor_bound}
use Prim.Native.Nat.{bit_xor}
use cypher.Nat.Stun.{
  stun_magic_cookie, port_key, SocketAddr, v4, v6, xor_bytes, xor_key, parse_xor_mapped_address,
  attribute_value,
}

-- The ranges of the fields.
abbrev pub IsSocketAddr : SocketAddr → Type 0
IsSocketAddr (v4 ip port) = IsU32 ip × (port < 2 ^ 16)
IsSocketAddr (v6 ip port) = (length ip ≡ 16) × (port < 2 ^ 16)

xor_bytes_twice : (xs ks : Bytes) → length xs ≤ length ks → xor_bytes (xor_bytes xs ks) ks ≡ xs
unfolding xor_bytes
xor_bytes_twice [] ks h = refl
xor_bytes_twice (x ∷ xs) [] h = absurd (omega arith)
xor_bytes_twice (x ∷ xs) (k ∷ ks) h =
    ap₂ (λ (y : ℕ) (ys : Bytes). y ∷ ys) (bit_xor_twice x k) (xor_bytes_twice xs ks (omega arith))

length-xor_bytes : (xs ks : Bytes) → length xs ≤ length ks → length (xor_bytes xs ks) ≡ length xs
unfolding xor_bytes
length-xor_bytes [] ks h = refl
length-xor_bytes (x ∷ xs) [] h = absurd (omega arith)
length-xor_bytes (x ∷ xs) (k ∷ ks) h = ap suc (length-xor_bytes xs ks (omega arith))

module _ (transaction_id : Bytes) (id_length : length transaction_id ≡ 12) where
  length-xor_key : length (xor_key transaction_id) ≡ 16
  unfolding xor_key
  length-xor_key = omega (
    arith,
    length-append (to_be 4 stun_magic_cookie) transaction_id,
    length-to_be 4 stun_magic_cookie,
    id_length,
  )

  -- The port and the address behind the two bytes in front.
  module _ (port : ℕ) (range : port < 2 ^ 16) (address : Bytes) where
    port_back :
        bit_xor (from_be (take (4 - 2) (to_be 2 (bit_xor port port_key) ++ address))) port_key
        ≡ port
    port_back =
        rw
          (take-append (4 - 2) (to_be 2 (bit_xor port port_key)) address
            (length-to_be 2 (bit_xor port port_key) ∙ omega arith))
          (rw
            (from_be-to_be 2 (bit_xor port port_key)
              (bit_xor_bound 16 port port_key range (omega arith)))
            (bit_xor_twice port port_key))

    address_back : drop 2 (to_be 2 (bit_xor port port_key) ++ address) ≡ address
    address_back = drop-append 2 (to_be 2 (bit_xor port port_key)) address (length-to_be 2 _)

    length-address : length (to_be 2 (bit_xor port port_key) ++ address) ≡ 2 + length address
    length-address = omega (
      arith,
      length-append (to_be 2 (bit_xor port port_key)) address,
      length-to_be 2 (bit_xor port port_key),
    )

  pub parse-attribute_value :
      (peer : SocketAddr)
      → IsSocketAddr peer
      → parse_xor_mapped_address (attribute_value transaction_id peer) transaction_id ≡ ok peer
  unfolding parse_xor_mapped_address attribute_value
  parse-attribute_value (v4 ip port) (ip_range, range) =
      let x_addr = to_be 4 (bit_xor ip stun_magic_cookie) in
      let ip_back : bit_xor (from_be (take (8 - 4) x_addr)) stun_magic_cookie ≡ ip =
        rw (take_all (8 - 4) x_addr (omega (arith, length-to_be 4 (bit_xor ip stun_magic_cookie))))
          (rw
            (from_be-to_be 4 (bit_xor ip stun_magic_cookie)
              (bit_xor_bound 32 ip stun_magic_cookie ip_range (omega arith)))
            (bit_xor_twice ip stun_magic_cookie)) in
      rw (port_back port range x_addr, address_back port range x_addr, ip_back)
        (ground
          (arith, length-address port range x_addr, length-to_be 4 (bit_xor ip stun_magic_cookie)))
  parse-attribute_value (v6 ip port) (ip_length, range) =
      let key = xor_key transaction_id in
      let covers : length ip ≤ length key = omega (arith, length-xor_key, ip_length) in
      let x_addr = xor_bytes ip key in
      let x_length : length x_addr ≡ 16 = length-xor_bytes ip key covers ∙ ip_length in
      let ip_back : xor_bytes (take (20 - 4) x_addr) key ≡ ip =
        rw (take_all (20 - 4) x_addr (omega (arith, x_length))) (xor_bytes_twice ip key covers) in
      rw (port_back port range x_addr, address_back port range x_addr, ip_back)
        (ground (arith, length-address port range x_addr, x_length))

  pub length-attribute_value :
      (peer : SocketAddr)
      → IsSocketAddr peer
      → (8 ≤ length (attribute_value transaction_id peer))
        × (length (attribute_value transaction_id peer) ≤ 20)
  unfolding attribute_value
  length-attribute_value (v4 ip port) (ip_range, range) =
      let x_addr = to_be 4 (bit_xor ip stun_magic_cookie) in
      let n = length-address port range x_addr in
      let a = length-to_be 4 (bit_xor ip stun_magic_cookie) in
      (omega (arith, n, a), omega (arith, n, a))
  length-attribute_value (v6 ip port) (ip_length, range) =
      let key = xor_key transaction_id in
      let covers : length ip ≤ length key = omega (arith, length-xor_key, ip_length) in
      let n = length-address port range (xor_bytes ip key) in
      let a = length-xor_bytes ip key covers in
      (omega (arith, n, a, ip_length), omega (arith, n, a, ip_length))
