-- ===== src/Onion/RoundTrip.antt =====
-- What one side of a circuit encodes, the other decodes.
use cypher.Prelude.{
  ◌+◌, ◌-◌, ℕ, ◌^◌, ◌<◌, ◌≡◌, ◌∙◌, ◌∷◌, ◌++◌, length, slice, take-append, drop-append, take_all,
  length-append, arith, ok,
}
use cypher.Prelude.Bytes.{Bytes, to_le, length-to_le, from_le-to_le, bytes_eq_refl}
use cypher.Crypto.Primitives.{Primitives, IsAead}
use cypher.Crypto.Aead.{
  aead_decrypt, aead_decrypt-aead_encrypt, aead_encrypt_total, length-aead_encrypt,
}
use cypher.Onion.Circuit.{Circuit, IsCircuit, nonce_material, next_nonce_material}
use cypher.Onion.Encoder.{
  onion_prefix, subtype_relay_request, subtype_relay_response, response_nonce_material,
  inner_message, encode_relay_request, encode_relay_response,
}
use cypher.Onion.Decoder.{extract_request_header, decode_relay_request, decode_relay_response}
use cypher.Onion.Wire.{
  inner_subtype, length-inner_message, inner_circuit_id, inner_payload-inner_message, request_wire,
  length-request_wire, behind_header, extract_request_header-request_wire,
}

-- The circuit after one more message.
abbrev pub moved : Circuit → Circuit
moved c = (next_nonce_material c).1

module _ (p : Primitives) (laws : IsAead p) where
  -- A sealed request: what the wire carries, and what opening it gives.
  pub encode_relay_request_ok :
      (c : Circuit)
      → IsCircuit c
      → (payload : Bytes) → length payload < 2 ^ 32
      → (ciphertext : Bytes) × (encode_relay_request p c payload
          ≡ (ok (request_wire c.ephemeral_public c.circuit_id ciphertext c.seq), moved c))
        × (aead_decrypt p c.circuit_key (nonce_material c.circuit_id c.seq) ciphertext c.circuit_id
            ≡ ok (inner_message subtype_relay_request c.circuit_id payload))
        × (length ciphertext
            ≡ length (inner_message subtype_relay_request c.circuit_id payload) + 16)
  unfolding encode_relay_request next_nonce_material nonce_material
  encode_relay_request_ok c h payload small =
      let inner = inner_message subtype_relay_request c.circuit_id payload in
      let (ciphertext, sealed) =
        aead_encrypt_total p laws c.circuit_key (nonce_material c.circuit_id c.seq) inner
          c.circuit_id
          (omega (
            arith,
            length-inner_message subtype_relay_request c.circuit_id payload h.length-circuit_id,
          )) in
      let seq_bytes : slice 16 24 (c.circuit_id ++ to_le 8 c.seq) ≡ to_le 8 c.seq =
        rw (drop-append 16 c.circuit_id (to_le 8 c.seq) h.length-circuit_id)
          (take_all (24 - 16) (to_le 8 c.seq) (omega (arith, length-to_le 8 c.seq))) in
      (
        ciphertext,
        rw (sealed, seq_bytes),
        aead_decrypt-aead_encrypt p laws _ _ _ _ sealed,
        length-aead_encrypt p laws _ _ _ _ sealed,
      )

  pub decode_relay_request_sealed :
      (key pk circuit_id ciphertext payload : Bytes) (seq_no : ℕ)
      → length pk ≡ 32
      → length circuit_id ≡ 16
      → length payload < 2 ^ 32
      → aead_decrypt p key (nonce_material circuit_id seq_no) ciphertext circuit_id
        ≡ ok (inner_message subtype_relay_request circuit_id payload)
      → decode_relay_request p key circuit_id seq_no (request_wire pk circuit_id ciphertext seq_no)
        ≡ ok payload
  unfolding decode_relay_request
  decode_relay_request_sealed key pk circuit_id ciphertext payload seq_no hp hi small opened =
      rw
        (
          behind_header pk circuit_id ciphertext seq_no hp hi,
          opened,
          inner_circuit_id subtype_relay_request circuit_id payload hi,
          inner_payload-inner_message subtype_relay_request circuit_id payload hi small,
          bytes_eq_refl circuit_id,
          inner_subtype subtype_relay_request circuit_id payload hi,
        )
        (ground (
          arith,
          length-request_wire pk circuit_id ciphertext seq_no hp hi,
          length-inner_message subtype_relay_request circuit_id payload hi,
        ))

  -- What `encode_relay_request` makes for a payload shorter than 2 ^ 32 bytes, `extract_request_header`
  -- and `decode_relay_request` take apart again: the circuit's key, id and number, and the payload. The
  -- circuit's counter has moved to the next number.
  pub decode_relay_request-encode_relay_request :
      (c : Circuit)
      → IsCircuit c
      → (payload : Bytes) → length payload < 2 ^ 32
      → (out : Bytes) × (encode_relay_request p c payload ≡ (ok out, moved c))
        × (extract_request_header out ≡ ok (c.ephemeral_public, c.circuit_id, c.seq))
        × (decode_relay_request p c.circuit_key c.circuit_id c.seq out ≡ ok payload)
  decode_relay_request-encode_relay_request c h payload small =
      let (ciphertext, encoded, opened, _) = encode_relay_request_ok c h payload small in
      let hp = h.length-ephemeral_public in
      let hi = h.length-circuit_id in
      (
        request_wire c.ephemeral_public c.circuit_id ciphertext c.seq,
        encoded,
        extract_request_header-request_wire c.ephemeral_public c.circuit_id ciphertext c.seq hp hi
            h.seq_range,
        decode_relay_request_sealed c.circuit_key c.ephemeral_public c.circuit_id ciphertext payload
            c.seq hp hi small opened,
      )

  pub decode_relay_response_sealed :
      (key circuit_id ciphertext payload : Bytes) (seq_no : ℕ)
      → length circuit_id ≡ 16
      → length payload < 2 ^ 32
      → seq_no < 2 ^ 64
      → aead_decrypt p key (response_nonce_material circuit_id seq_no) ciphertext circuit_id
        ≡ ok (inner_message subtype_relay_response circuit_id payload)
      → decode_relay_response p key circuit_id (onion_prefix ∷ (to_le 8 seq_no ++ ciphertext))
        ≡ ok payload
  unfolding decode_relay_response
  decode_relay_response_sealed key circuit_id ciphertext payload seq_no hi small range opened =
      rw
        (
          take-append (9 - 1) (to_le 8 seq_no) ciphertext (length-to_le 8 seq_no ∙ omega arith),
          drop-append 8 (to_le 8 seq_no) ciphertext (length-to_le 8 seq_no),
          from_le-to_le 8 seq_no range,
          opened,
          inner_payload-inner_message subtype_relay_response circuit_id payload hi small,
          inner_subtype subtype_relay_response circuit_id payload hi,
        )
        (ground (
          arith,
          length-append (to_le 8 seq_no) ciphertext,
          length-to_le 8 seq_no,
          length-inner_message subtype_relay_response circuit_id payload hi,
        ))

  -- A response that `encode_relay_response` makes under a circuit's key, `decode_relay_response` opens
  -- under the same key, for a payload shorter than 2 ^ 32 bytes and any 64-bit number.
  pub decode_relay_response-encode_relay_response :
      (key circuit_id : Bytes) (seq_no : ℕ) (payload : Bytes)
      → length circuit_id ≡ 16
      → length payload < 2 ^ 32
      → seq_no < 2 ^ 64
      → (out : Bytes) × (encode_relay_response p key circuit_id seq_no payload ≡ ok out)
        × (decode_relay_response p key circuit_id out ≡ ok payload)
  unfolding encode_relay_response
  decode_relay_response-encode_relay_response key circuit_id seq_no payload hi small range =
      let inner = inner_message subtype_relay_response circuit_id payload in
      let (ciphertext, sealed) =
        aead_encrypt_total p laws key (response_nonce_material circuit_id seq_no) inner circuit_id
          (omega (arith, length-inner_message subtype_relay_response circuit_id payload hi)) in
      (
        onion_prefix ∷ (to_le 8 seq_no ++ ciphertext),
        rw sealed,
        decode_relay_response_sealed key circuit_id ciphertext payload seq_no hi small range
            (aead_decrypt-aead_encrypt p laws _ _ _ _ sealed),
      )
