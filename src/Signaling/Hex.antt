-- ===== src/Signaling/Hex.antt =====
-- services/signaling/src/main.rs: hex texts, as their ASCII codes.
use cypher.Prelude.{
  ℕ, ◌+◌, ◌-◌, ◌*◌, ◌/◌, ◌%◌, ◌≤◌, ◌≡◌, refl, ap, ◌&&◌, Option, none, some, [], ◌∷◌, All, length,
  ltb, leb, ◌==◌, if◌then◌else◌, arith,
}
use cypher.Prelude.Bytes.{Bytes, IsByte}

unfoldable pub hex_digit : ℕ → ℕ
hex_digit d = if ltb d 10 then 48 + d else 87 + d

unfoldable pub hex_encode : Bytes → Bytes
hex_encode [] = []
hex_encode (b ∷ data') = hex_digit (b / 16) ∷ hex_digit (b % 16) ∷ hex_encode data'

-- `char::to_digit(16)`
unfoldable pub to_digit : ℕ → Option ℕ
to_digit c =
    if leb 48 c && leb c 57
    then some (c - 48)
    else if leb 97 c && leb c 102
    then some (c - 87)
    else if leb 65 c && leb c 70
    then some (c - 55)
    else none

both_digits : Option ℕ → Option ℕ → Option ℕ
both_digits (some h) (some l) = some (h * 16 + l)
both_digits _ _ = none

-- `u8::from_str_radix` on two characters, which takes a sign in front of a digit.
unfoldable pub from_hex_pair : ℕ → ℕ → Option ℕ
unfolding both_digits
from_hex_pair c d = if c == 43 then to_digit d else both_digits (to_digit c) (to_digit d)

prepend : Option ℕ → Bytes → Bytes
prepend none rest = rest
prepend (some b) rest = b ∷ rest

unfoldable pub decode_pairs : Bytes → Bytes
unfolding prepend
decode_pairs [] = []
decode_pairs (c ∷ []) = []
decode_pairs (c ∷ d ∷ rest) = prepend (from_hex_pair c d) (decode_pairs rest)

-- A text of odd length gives nothing.
unfoldable pub hex_decode_bytes : Bytes → Bytes
hex_decode_bytes hex = if length hex % 2 == 0 then decode_pairs hex else []

pub from_hex_pair-digits :
    (b : ℕ) → b ≤ 255 → from_hex_pair (hex_digit (b / 16)) (hex_digit (b % 16)) ≡ some b
unfolding from_hex_pair hex_digit to_digit both_digits
from_hex_pair-digits b h = ground arith

pub length-hex_encode : (bytes : Bytes) → length (hex_encode bytes) ≡ length bytes * 2
unfolding hex_encode
length-hex_encode [] = refl
length-hex_encode (b ∷ bytes) = omega (arith, length-hex_encode bytes)

decode_pairs-hex_encode :
    (bytes : Bytes) → All IsByte bytes → decode_pairs (hex_encode bytes) ≡ bytes
unfolding decode_pairs hex_encode prepend
decode_pairs-hex_encode [] h = refl
decode_pairs-hex_encode (b ∷ bytes) h =
    rw (from_hex_pair-digits b (omega (arith, h.0)))
      (ap (◌∷◌ b) (decode_pairs-hex_encode bytes h.1))

-- Bytes come back from their hex text.
pub hex_decode_bytes-hex_encode :
    (bytes : Bytes) → All IsByte bytes → hex_decode_bytes (hex_encode bytes) ≡ bytes
unfolding hex_decode_bytes
hex_decode_bytes-hex_encode bytes h =
    let even : length (hex_encode bytes) % 2 ≡ 0 = omega (arith, length-hex_encode bytes) in
    rw even (decode_pairs-hex_encode bytes h)
