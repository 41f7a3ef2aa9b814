-- ===== src/Onion/Wire.antt =====
-- Lemmas on the layout of requests and inner plaintexts.
use cypher.Prelude.{
  get_or, refl, ℕ, ◌+◌, ◌-◌, ◌%◌, ◌^◌, ◌<◌, ◌≡◌, ◌∙◌, ◌∷◌, ◌++◌, append_assoc, some, length, drop,
  slice, take-append, drop-append, take_all, length-append, arith, ok,
}
use cypher.Prelude.Bytes.{Bytes, to_le, from_le, length-to_le, from_le-to_le}
use cypher.Onion.Encoder.{onion_prefix, inner_message}
use cypher.Onion.Decoder.{extract_request_header, inner_payload}

module _ (subtype : ℕ) (circuit_id payload : Bytes) (id_length : length circuit_id ≡ 16) where
  pub length-inner_message : length (inner_message subtype circuit_id payload) ≡ 21 + length payload
  unfolding inner_message
  length-inner_message = omega (
    arith,
    length-append circuit_id (to_le 4 (length payload % 2 ^ 32) ++ payload),
    length-append (to_le 4 (length payload % 2 ^ 32)) payload,
    length-to_le 4 (length payload % 2 ^ 32),
    id_length,
  )

  pub inner_subtype : get_or (inner_message subtype circuit_id payload) 0 0 ≡ subtype
  unfolding inner_message
  inner_subtype = refl

  pub inner_circuit_id : slice 1 17 (inner_message subtype circuit_id payload) ≡ circuit_id
  unfolding inner_message
  inner_circuit_id = take-append 16 circuit_id _ id_length

  behind_id :
      drop 16 (circuit_id ++ (to_le 4 (length payload % 2 ^ 32) ++ payload))
      ≡ to_le 4 (length payload % 2 ^ 32) ++ payload
  behind_id = drop-append 16 circuit_id _ id_length

  behind_length : drop 20 (circuit_id ++ (to_le 4 (length payload % 2 ^ 32) ++ payload)) ≡ payload
  behind_length = rw (← append_assoc circuit_id (to_le 4 (length payload % 2 ^ 32)) payload) (
      drop-append 20 (circuit_id ++ to_le 4 (length payload % 2 ^ 32)) payload (
        omega (
          arith,
          length-append circuit_id (to_le 4 (length payload % 2 ^ 32)),
          length-to_le 4 (length payload % 2 ^ 32),
          id_length,
        )))

  inner_length :
      length payload < 2 ^ 32
      → from_le (slice 17 21 (inner_message subtype circuit_id payload)) ≡ length payload
  unfolding inner_message
  inner_length small =
      rw (behind_id, take-append 4 (to_le 4 (length payload % 2 ^ 32)) payload (length-to_le 4 _))
        (from_le-to_le 4 (length payload % 2 ^ 32) (omega arith) ∙ omega arith)

  inner_body : slice 21 (21 + length payload) (inner_message subtype circuit_id payload) ≡ payload
  unfolding inner_message
  inner_body = rw behind_length (take_all (21 + length payload - 21) payload (omega arith))

  -- The payload comes back whole when its length is a `u32`.
  pub inner_payload-inner_message :
      length payload < 2 ^ 32
      → inner_payload (inner_message subtype circuit_id payload) ≡ some payload
  unfolding inner_payload
  inner_payload-inner_message small =
      rw (inner_length small) (ground (arith, length-inner_message, inner_body))

-- A request on the wire.
abbrev pub request_wire : (pk circuit_id ciphertext : Bytes) → (seq_no : ℕ) → Bytes
request_wire pk circuit_id ciphertext seq_no =
    onion_prefix ∷ (pk ++ (circuit_id ++ (to_le 8 seq_no ++ ciphertext)))

-- A request cut into its parts.
module _ (pk circuit_id ciphertext : Bytes) (seq_no : ℕ) (pk_length : length pk ≡ 32)
    (id_length : length circuit_id ≡ 16) where
  pub length-request_wire :
      length (request_wire pk circuit_id ciphertext seq_no) ≡ 57 + length ciphertext
  length-request_wire = omega (
    arith,
    length-append pk (circuit_id ++ (to_le 8 seq_no ++ ciphertext)),
    length-append circuit_id (to_le 8 seq_no ++ ciphertext),
    length-append (to_le 8 seq_no) ciphertext,
    length-to_le 8 seq_no,
    pk_length,
    id_length,
  )

  behind_pk :
      drop 33 (request_wire pk circuit_id ciphertext seq_no)
      ≡ circuit_id ++ (to_le 8 seq_no ++ ciphertext)
  behind_pk = drop-append 32 pk _ pk_length

  behind_circuit :
      drop 49 (request_wire pk circuit_id ciphertext seq_no) ≡ to_le 8 seq_no ++ ciphertext
  behind_circuit = rw (← append_assoc pk circuit_id (to_le 8 seq_no ++ ciphertext)) (
      drop-append 48 (pk ++ circuit_id) (to_le 8 seq_no ++ ciphertext)
        (omega (arith, length-append pk circuit_id, pk_length, id_length)))

  pub behind_header : drop 57 (request_wire pk circuit_id ciphertext seq_no) ≡ ciphertext
  behind_header =
      rw
        (
          ← append_assoc circuit_id (to_le 8 seq_no) ciphertext,
          ← append_assoc pk (circuit_id ++ to_le 8 seq_no) ciphertext,
        )
        (drop-append 56 (pk ++ (circuit_id ++ to_le 8 seq_no)) ciphertext (
          omega (
            arith,
            length-append pk (circuit_id ++ to_le 8 seq_no),
            length-append circuit_id (to_le 8 seq_no),
            length-to_le 8 seq_no,
            pk_length,
            id_length,
          )))

  pub wire_pk : slice 1 33 (request_wire pk circuit_id ciphertext seq_no) ≡ pk
  wire_pk = take-append 32 pk _ pk_length

  pub wire_circuit : slice 33 49 (request_wire pk circuit_id ciphertext seq_no) ≡ circuit_id
  wire_circuit = rw behind_pk (take-append 16 circuit_id _ id_length)

  pub wire_seq_no :
      seq_no < 2 ^ 64
      → from_le (slice 49 57 (request_wire pk circuit_id ciphertext seq_no)) ≡ seq_no
  wire_seq_no small =
      rw (behind_circuit, take-append 8 (to_le 8 seq_no) ciphertext (length-to_le 8 seq_no))
        (from_le-to_le 8 seq_no small)

  pub extract_request_header-request_wire :
      seq_no < 2 ^ 64
      → extract_request_header (request_wire pk circuit_id ciphertext seq_no)
        ≡ ok (pk, circuit_id, seq_no)
  unfolding extract_request_header
  extract_request_header-request_wire small =
      rw (wire_pk, wire_circuit, wire_seq_no small) (ground (arith, length-request_wire))
