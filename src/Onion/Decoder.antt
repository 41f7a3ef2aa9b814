-- ===== src/Onion/Decoder.antt =====
-- crates/cypher-client-core/src/onion/decoder.rs.
use cypher.Prelude.{
  ℕ, ◌+◌, not, ◌||◌, Option, none, some, length, drop, get_or, slice, ltb, ◌==◌, if◌then◌else◌,
  Error, protocol, Result, ok, ◌>>=◌, ◌>>◌, refuse_if, ok_or,
}
use cypher.Prelude.Bytes.{Bytes, from_le, bytes_eq}
use cypher.Crypto.Primitives.{Primitives}
use cypher.Crypto.Aead.{aead_decrypt}
use cypher.Onion.Circuit.{nonce_material}
use cypher.Onion.Encoder.{
  onion_prefix, subtype_relay_request, subtype_relay_response, response_nonce_material,
}

unfoldable pub extract_request_header : Bytes → Result Error (Bytes × Bytes × ℕ)
extract_request_header packet = do
  refuse_if (ltb (length packet) 57) (protocol "onion request too short for header")
  refuse_if (not (get_or packet 0 0 == onion_prefix)) (protocol "missing onion prefix")
  ok (slice 1 33 packet, slice 33 49 packet, from_le (slice 49 57 packet))

-- The payload that follows its `u32` length in an inner plaintext; `none` when it is cut short.
unfoldable pub inner_payload : Bytes → Option Bytes
inner_payload inner =
    let payload_len = from_le (slice 17 21 inner) in
    if ltb (length inner) (21 + payload_len) then none else some (slice 21 (21 + payload_len) inner)

module _ (p : Primitives) where
  unfoldable pub decode_relay_request :
      (circuit_key circuit_id : Bytes) → (seq_no : ℕ) → Bytes → Result Error Bytes
  decode_relay_request circuit_key circuit_id seq_no packet = do
    refuse_if (ltb (length packet) 57) (protocol "onion request too short")
    refuse_if (not (get_or packet 0 0 == onion_prefix)) (protocol "missing onion prefix")
    let ciphertext = drop 57 packet
    inner ← aead_decrypt p circuit_key (nonce_material circuit_id seq_no) ciphertext circuit_id
    refuse_if (ltb (length inner) 1 || not (get_or inner 0 0 == subtype_relay_request))
        (protocol "unexpected onion subtype")
    refuse_if (ltb (length inner) 21) (protocol "onion inner too short")
    refuse_if (not (bytes_eq (slice 1 17 inner) circuit_id))
        (protocol "circuit_id mismatch in onion")
    ok_or (inner_payload inner) (protocol "onion payload length exceeds inner")

  unfoldable pub decode_relay_response :
      (circuit_key circuit_id packet : Bytes) → Result Error Bytes
  decode_relay_response circuit_key circuit_id packet = do
    refuse_if (ltb (length packet) 9 || not (get_or packet 0 0 == onion_prefix))
        (protocol "missing onion prefix in response")
    let seq_no = from_le (slice 1 9 packet)
    let ciphertext = drop 9 packet
    inner ←
        aead_decrypt p circuit_key (response_nonce_material circuit_id seq_no) ciphertext circuit_id
    refuse_if (ltb (length inner) 1 || not (get_or inner 0 0 == subtype_relay_response))
        (protocol "unexpected onion response subtype")
    refuse_if (ltb (length inner) 21) (protocol "onion response inner too short")
    ok_or (inner_payload inner) (protocol "onion response payload length invalid")
