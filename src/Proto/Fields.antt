-- ===== src/Proto/Fields.antt =====
-- The length-prefixed, aligned fields that the generated serializers are made of.
use cypher.Prelude.{
  ℕ, ◌+◌, ◌-◌, ◌%◌, ◌^◌, ◌<◌, ◌≡◌, refl, ◌∙◌, [], ◌++◌, append_assoc, length, drop, slice,
  replicate, ltb, if◌then◌else◌, take-append, drop-append, drop_past, length-append,
  length-replicate, Error, protocol, Result, ok, err, arith,
}
use cypher.Prelude.Bytes.{Bytes, to_le, from_le, length-to_le, from_le-to_le}

-- The zero bytes that fill up to a multiple of four.
unfoldable pub padding_of : ℕ → ℕ
padding_of len = (4 - len % 4) % 4

unfoldable pub encode_bytes : (buf field : Bytes) → Bytes
encode_bytes buf field =
    buf ++ (to_le 4 (length field % 2 ^ 32) ++ (field ++ replicate (padding_of (length field)) 0))

unfoldable pub decode_bytes : (buf : Bytes) → (offset : ℕ) → Result Error (Bytes × ℕ)
decode_bytes buf offset =
    if ltb (length buf) (offset + 4)
    then err (protocol "truncated bytes length")
    else let len = from_le (slice offset (offset + 4) buf) in
      let data_start = offset + 4 in
      let data_end = data_start + len in
      if ltb (length buf) data_end
      then err (protocol "truncated bytes data")
      else ok (slice data_start data_end buf, data_end + padding_of len)

module _ (buf field rest : Bytes) where
  abbrev padding : Bytes
  padding = replicate (padding_of (length field)) 0

  abbrev prefix : Bytes
  prefix = to_le 4 (length field % 2 ^ 32)

  layout : encode_bytes buf field ++ rest ≡ buf ++ (prefix ++ (field ++ (padding ++ rest)))
  unfolding encode_bytes
  layout = simp append_assoc

  length-layout :
      length (buf ++ (prefix ++ (field ++ (padding ++ rest))))
      ≡ length buf + 4 + length field + padding_of (length field) + length rest
  length-layout = omega (
    arith,
    length-append buf (prefix ++ (field ++ (padding ++ rest))),
    length-append prefix (field ++ (padding ++ rest)),
    length-append field (padding ++ rest),
    length-append padding rest,
    length-to_le 4 (length field % 2 ^ 32),
    length-replicate {A = ℕ} (padding_of (length field)) 0,
  )

  behind_prefix :
      drop (length buf + 4) (buf ++ (prefix ++ (field ++ (padding ++ rest))))
      ≡ field ++ (padding ++ rest)
  behind_prefix = drop_past (length buf) 4 buf _ refl ∙ drop-append 4 prefix _ (length-to_le 4 _)

  prefix_back :
      length field < 2 ^ 32
      → from_le
          (slice (length buf) (length buf + 4) (buf ++ (prefix ++ (field ++ (padding ++ rest)))))
        ≡ length field
  prefix_back small =
      let four : length buf + 4 - length buf ≡ 4 = omega arith in
      rw
        (
          drop-append (length buf) buf (prefix ++ (field ++ (padding ++ rest))) refl,
          four,
          take-append 4 prefix (field ++ (padding ++ rest)) (length-to_le 4 _),
        )
        (from_le-to_le 4 (length field % 2 ^ 32) (omega arith) ∙ omega arith)

  field_back :
      slice
        (length buf + 4)
        (length buf + 4 + length field)
        (buf ++ (prefix ++ (field ++ (padding ++ rest))))
      ≡ field
  field_back = rw behind_prefix (
      take-append (length buf + 4 + length field - (length buf + 4)) field (padding ++ rest)
        (omega arith))

  decode-layout :
      length field < 2 ^ 32
      → decode_bytes (buf ++ (prefix ++ (field ++ (padding ++ rest)))) (length buf)
        ≡ ok (field, length buf + 4 + length field + padding_of (length field))
  unfolding decode_bytes
  decode-layout small = rw (prefix_back small, field_back) (ground (arith, length-layout))

length-encode_bytes :
    (buf field : Bytes)
    → length (encode_bytes buf field) ≡ length buf + 4 + length field + padding_of (length field)
unfolding encode_bytes
length-encode_bytes buf field = omega (
  arith,
  length-append buf (prefix buf field [] ++ (field ++ padding buf field [])),
  length-append (prefix buf field []) (field ++ padding buf field []),
  length-append field (padding buf field []),
  length-to_le 4 (length field % 2 ^ 32),
  length-replicate {A = ℕ} (padding_of (length field)) 0,
)

aligned : (n k : ℕ) → (n + 4 + k + padding_of k) % 4 ≡ n % 4
unfolding padding_of
aligned n k = omega arith

-- A field shorter than 2 ^ 32 bytes that `encode_bytes` appends to a buffer is decoded at the offset
-- where it began, whatever follows it. The new offset is where the field and its padding end, and the
-- field keeps the buffer's alignment to four bytes.
pub decode_bytes-encode_bytes :
    (buf field rest : Bytes)
    → length field < 2 ^ 32
    → (decode_bytes (encode_bytes buf field ++ rest) (length buf)
        ≡ ok (field, length (encode_bytes buf field)))
      × (length (encode_bytes buf field) % 4 ≡ length buf % 4)
decode_bytes-encode_bytes buf field rest small =
    rw (layout buf field rest, length-encode_bytes buf field)
      (decode-layout buf field rest small, aligned (length buf) (length field))
