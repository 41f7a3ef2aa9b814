-- ===== src/Tests/Proto.antt =====
-- The theorem on fields at a concrete input.
use cypher.Prelude.{◌%◌, ◌≡◌, [], ◌∷◌, ◌++◌, length, arith, ok}
use cypher.Prelude.Bytes.{Bytes}
use cypher.Proto.Fields.{encode_bytes, decode_bytes, decode_bytes-encode_bytes}

abbrev before : Bytes
before = 1 ∷ 2 ∷ 3 ∷ 4 ∷ []

abbrev field : Bytes
field = 7 ∷ 8 ∷ []

decode_bytes-encode_bytes_example :
    (decode_bytes (encode_bytes before field ++ (9 ∷ [])) (length before)
      ≡ ok (field, length (encode_bytes before field)))
    × (length (encode_bytes before field) % 4 ≡ length before % 4)
decode_bytes-encode_bytes_example = decode_bytes-encode_bytes before field (9 ∷ []) (omega arith)
