-- ===== src/Onion/Encoder.antt =====
-- crates/cypher-client-core/src/onion/encoder.rs.
use Prim.Native.Nat.{bit_or}
use cypher.Prelude.{
  ℕ, ◌%◌, ◌^◌, ◌<◌, ◌≡◌, ◌≢◌, refl, ap, sym, ◌∙◌, ◌∷◌, ◌++◌, length, drop, drop-append, slice,
  Error, Result, ok, ◌>>=◌, arith,
}
use cypher.Prelude.Bytes.{Bytes, to_le, from_le, from_le-to_le}
use cypher.Prelude.Bits.{bit_or_bound, bit_or_above}
use cypher.Crypto.Primitives.{Primitives}
use cypher.Crypto.Aead.{aead_encrypt}
use cypher.Onion.Circuit.{Circuit, nonce_material, next_nonce_material}

abbrev pub onion_prefix : ℕ
onion_prefix = 0x02

abbrev pub subtype_relay_request : ℕ
subtype_relay_request = 0x02

abbrev pub subtype_relay_response : ℕ
subtype_relay_response = 0x03

unfoldable pub response_seq : ℕ → ℕ
response_seq seq_no = bit_or seq_no (2 ^ 63)

unfoldable pub response_nonce_material : (circuit_id : Bytes) → (seq_no : ℕ) → Bytes
response_nonce_material circuit_id seq_no = circuit_id ++ to_le 8 (response_seq seq_no)

-- The inner plaintext of both directions: subtype, circuit, `u32` length, payload.
unfoldable pub inner_message : (subtype : ℕ) → (circuit_id payload : Bytes) → Bytes
inner_message subtype circuit_id payload =
    subtype ∷ (circuit_id ++ (to_le 4 (length payload % 2 ^ 32) ++ payload))

module _ (p : Primitives) where
  -- The counter has moved on also when the encryption fails.
  unfoldable pub encode_relay_request : Circuit → Bytes → Result Error Bytes × Circuit
  encode_relay_request circuit request_payload =
      let (material, moved) = next_nonce_material circuit in
      let seq_no = slice 16 24 material in
      let inner = inner_message subtype_relay_request circuit.circuit_id request_payload in
      (
        aead_encrypt p circuit.circuit_key material inner circuit.circuit_id >>= λ ciphertext. ok (
            onion_prefix
            ∷ (circuit.ephemeral_public ++ (circuit.circuit_id ++ (seq_no ++ ciphertext)))),
        moved,
      )

  unfoldable pub encode_relay_response :
      (circuit_key circuit_id : Bytes) → (seq_no : ℕ) → Bytes → Result Error Bytes
  encode_relay_response circuit_key circuit_id seq_no response_payload = do
    let material = response_nonce_material circuit_id seq_no
    let inner = inner_message subtype_relay_response circuit_id response_payload
    ciphertext ← aead_encrypt p circuit_key material inner circuit_id
    ok (onion_prefix ∷ (to_le 8 seq_no ++ ciphertext))

-- The number behind a circuit id of nonce material.
same_number :
    (circuit_id : Bytes) (i j : ℕ)
    → i < 2 ^ 64
    → j < 2 ^ 64
    → circuit_id ++ to_le 8 i ≡ circuit_id ++ to_le 8 j
    → i ≡ j
same_number circuit_id i j hi hj e =
    let n = length circuit_id in
    let tails : to_le 8 i ≡ to_le 8 j =
      sym (drop-append n circuit_id (to_le 8 i) refl)
      ∙ (ap (drop n) e ∙ drop-append n circuit_id (to_le 8 j) refl) in
    sym (from_le-to_le 8 i hi) ∙ (ap from_le tails ∙ from_le-to_le 8 j hj)

-- Two requests of one circuit with one nonce material have one sequence number.
pub nonce_material_injective :
    (circuit_id : Bytes) (i j : ℕ)
    → i < 2 ^ 64
    → j < 2 ^ 64
    → nonce_material circuit_id i ≡ nonce_material circuit_id j
    → i ≡ j
unfolding nonce_material
nonce_material_injective = same_number

-- On one circuit, no response has the nonce material of a request whose number is below 2 ^ 63.
pub response_nonce_material-nonce_material :
    (circuit_id : Bytes) (response request : ℕ)
    → response < 2 ^ 64
    → request < 2 ^ 63
    → response_nonce_material circuit_id response ≢ nonce_material circuit_id request
unfolding response_nonce_material nonce_material response_seq
response_nonce_material-nonce_material circuit_id response request range low e =
    let same : bit_or response (2 ^ 63) ≡ request =
      same_number circuit_id (bit_or response (2 ^ 63)) request
        (bit_or_bound 64 response (2 ^ 63) range (omega arith)) (omega arith) e in
    omega (arith, same, bit_or_above 63 response)
