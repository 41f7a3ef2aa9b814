-- ===== src/Relay/Circuits/EndToEnd.antt =====
-- A request from the client's encoder through the relay, and the answer back to the client's decoder.
use cypher.Prelude.{
  Error, bind_ok, ℕ, ◌^◌, ◌≤◌, ◌<◌, ◌≡◌, ◌∙◌, ◌⊎◌, inl, inr, none, some, String, length, drop,
  arith, Result, ok, le→ltb,
}
use cypher.Prelude.Bytes.{Bytes}
use cypher.Prelude.Assoc.{lookup, bytes_Eq, pair_Eq}
use cypher.Crypto.Primitives.{Primitives, IsAead}
use cypher.Crypto.Aead.{aead_encrypt, aead_decrypt}
use cypher.Onion.Circuit.{Circuit, IsCircuit, nonce_material}
use cypher.Onion.Encoder.{
  response_nonce_material, subtype_relay_response, subtype_relay_request, inner_message,
  encode_relay_request, encode_relay_response,
}
use cypher.Onion.Decoder.{decode_relay_response}
use cypher.Onion.Wire.{
  request_wire, length-request_wire, behind_header, wire_pk, wire_circuit, wire_seq_no,
  length-inner_message, inner_subtype, inner_payload-inner_message,
}
use cypher.Onion.RoundTrip.{
  moved, encode_relay_request_ok, decode_relay_response-encode_relay_response,
}
use cypher.Relay.Circuits.{
  max_circuits, CacheKey, CircuitCache, Signaling, derive_circuit_key, circuit_key_for,
  open_request, forward, seal_response, process_onion_request,
}
use cypher.Relay.Circuits.Invariant.{IsCache}
use cypher.Relay.Circuits.Replay.{circuit_of, seq_no_of}

-- The cache takes number `n` of circuit `k`: it is a new circuit and there is room, or the last number
-- was smaller.
abbrev pub Accepts : CacheKey → ℕ → CircuitCache → Type 0
Accepts k n circuits =
    ((lookup k circuits ≡ none) × (length circuits < max_circuits))
    ⊎ ((key : Bytes) × (last : ℕ) × (lookup k circuits ≡ some (key, last)) × (last < n))

ok_ok :
    {a b : Bytes}
    → ◌≡◌ {A = Result Error Bytes} (ok a) (ok b)
    → ◌≡◌ {A = Result String Bytes} (ok a) (ok b)
ok_ok h = cc

module _ (p : Primitives) (relay_secret : Bytes) where
  circuit_key_for-Accepts :
      (k : CacheKey) (n : ℕ) (circuits : CircuitCache)
      → IsCache p relay_secret circuits
      → Accepts k n circuits
      → (circuit_key_for p relay_secret k n circuits).0 ≡ ok (derive_circuit_key p relay_secret k.0)
  unfolding circuit_key_for
  circuit_key_for-Accepts k n circuits h (inl (absent, room)) =
      rw (absent, circuit_key_for) (ground arith)
  circuit_key_for-Accepts k n circuits h (inr (key, last, present, old)) =
      rw (present, circuit_key_for) (ground (arith, h.derived k present))

  open_request_sealed :
      (key circuit_id ciphertext payload : Bytes) (n : ℕ)
      → length circuit_id ≡ 16
      → length payload < 2 ^ 32
      → aead_decrypt p key (nonce_material circuit_id n) ciphertext circuit_id
        ≡ ok (inner_message subtype_relay_request circuit_id payload)
      → open_request p relay_secret key circuit_id n ciphertext ≡ ok payload
  unfolding open_request
  open_request_sealed key circuit_id ciphertext payload n hi small opened =
      rw
        (
          opened,
          inner_subtype subtype_relay_request circuit_id payload hi,
          inner_payload-inner_message subtype_relay_request circuit_id payload hi small,
        )
        (ground (arith, length-inner_message subtype_relay_request circuit_id payload hi))

  seal_response_lem :
      (key circuit_id payload : Bytes) (n : ℕ) {out : Bytes}
      → encode_relay_response p key circuit_id n payload ≡ ok out
      → seal_response p relay_secret key circuit_id n payload ≡ ok out
  unfolding seal_response encode_relay_response
  seal_response_lem key circuit_id payload n h =
      let (ciphertext, sealed, same) =
        bind_ok
          (aead_encrypt p key (response_nonce_material circuit_id n)
            (inner_message subtype_relay_response circuit_id payload) circuit_id)
          _ h in
      rw sealed (ok_ok same)

  process_long :
      (signaling : Signaling) (packet : Bytes) (circuits : CircuitCache)
      {key request response : Bytes}
      → 58 ≤ length packet
      → (circuit_key_for p relay_secret (circuit_of packet) (seq_no_of packet) circuits).0 ≡ ok key
      → open_request p relay_secret key (circuit_of packet).1 (seq_no_of packet) (drop 57 packet)
        ≡ ok request
      → forward p relay_secret signaling request ≡ ok response
      → (process_onion_request p relay_secret signaling packet circuits).0
        ≡ seal_response p relay_secret key (circuit_of packet).1 (seq_no_of packet) response
  unfolding process_onion_request
  process_long signaling packet circuits long given opened answered =
      rw (le→ltb (length packet) 58 long, given, opened, answered)

  -- A request that the client encodes on a circuit whose key the relay derives is answered: when the
  -- cache takes the circuit and the number, and signaling answers the request, the relay's reply is one
  -- that the client decodes to signaling's answer. Request and answer are shorter than 2 ^ 32 bytes.
  pub process_onion_request-encode_relay_request :
      IsAead p
      → (signaling : Signaling) (c : Circuit) (circuits : CircuitCache) (request response : Bytes)
      → IsCircuit c
      → c.circuit_key ≡ derive_circuit_key p relay_secret c.ephemeral_public
      → IsCache p relay_secret circuits
      → Accepts (c.ephemeral_public, c.circuit_id) c.seq circuits
      → length request < 2 ^ 32
      → length response < 2 ^ 32
      → forward p relay_secret signaling request ≡ ok response
      → (packet : Bytes) × (reply : Bytes) × (encode_relay_request p c request
          ≡ (ok packet, moved c))
        × ((process_onion_request p relay_secret signaling packet circuits).0 ≡ ok reply)
        × (decode_relay_response p c.circuit_key c.circuit_id reply ≡ ok response)
  process_onion_request-encode_relay_request laws signaling c circuits request response h key_eq
        cache accepts request_small response_small answered =
      let hp = h.length-ephemeral_public in
      let hi = h.length-circuit_id in
      let (ciphertext, encoded, opened, tagged) =
        encode_relay_request_ok p laws c h request request_small in
      let (reply, sealed, decoded) =
        decode_relay_response-encode_relay_response p laws c.circuit_key c.circuit_id c.seq response
          hi response_small h.seq_range in
      let packet = request_wire c.ephemeral_public c.circuit_id ciphertext c.seq in
      let long : 58 ≤ length packet = omega (
        arith,
        length-request_wire c.ephemeral_public c.circuit_id ciphertext c.seq hp hi,
        tagged,
      ) in
      let pk_eq = wire_pk c.ephemeral_public c.circuit_id ciphertext c.seq hp hi in
      let id_eq = wire_circuit c.ephemeral_public c.circuit_id ciphertext c.seq hp hi in
      let seq_eq = wire_seq_no c.ephemeral_public c.circuit_id ciphertext c.seq hp hi h.seq_range in
      (
        packet,
        reply,
        encoded,
        process_long signaling packet circuits {key = c.circuit_key} {request = request} long
              (rw (pk_eq, id_eq, seq_eq, key_eq)
                (circuit_key_for-Accepts (c.ephemeral_public, c.circuit_id) c.seq circuits cache
                  accepts))
              (rw
                (
                  id_eq,
                  seq_eq,
                  behind_header c.ephemeral_public c.circuit_id ciphertext c.seq hp hi,
                )
                (open_request_sealed c.circuit_key c.circuit_id ciphertext request c.seq hi
                  request_small opened))
              answered
            ∙ (rw (id_eq, seq_eq)
                (seal_response_lem c.circuit_key c.circuit_id response c.seq sealed)),
        decoded,
      )
