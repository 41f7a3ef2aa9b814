-- ===== src/Gateway/Hex.antt =====
-- services/gateway/src/main.rs: the hex text under which peers are known to signaling.
use cypher.Prelude.{All, ℕ, ◌/◌, ◌%◌, ◌<◌, ◌≡◌, refl, ap₂, [], ◌∷◌, arith}
use cypher.Prelude.Bytes.{Bytes, IsByte}
use cypher.Gateway.State.{hex_digit, hex_encode}

hex_digit-injective : (a b : ℕ) → a < 16 → b < 16 → hex_digit a ≡ hex_digit b → a ≡ b
unfolding hex_digit
hex_digit-injective a b ha hb h = ground arith

head_eq : {a b : ℕ} {xs ys : Bytes} → a ∷ xs ≡ b ∷ ys → a ≡ b
head_eq h = cc

tail_eq : {a b : ℕ} {xs ys : Bytes} → a ∷ xs ≡ b ∷ ys → xs ≡ ys
tail_eq h = cc

byte_eq : (a b : ℕ) → a / 16 ≡ b / 16 → a % 16 ≡ b % 16 → a ≡ b
byte_eq a b h k = omega arith

-- Two ids with one text are one id.
pub hex_encode-injective :
    (xs ys : Bytes) → All IsByte xs → All IsByte ys → hex_encode xs ≡ hex_encode ys → xs ≡ ys
unfolding hex_encode
hex_encode-injective [] [] ha hb h = refl
hex_encode-injective [] (b ∷ ys) ha hb h = cc
hex_encode-injective (a ∷ xs) [] ha hb h = cc
hex_encode-injective (a ∷ xs) (b ∷ ys) ha hb h =
    let below : (n : ℕ) → n < 256 → n / 16 < 16 = λ n l. omega arith in
    let high = hex_digit-injective (a / 16) (b / 16) (below a ha.0) (below b hb.0) (head_eq h) in
    let low =
      hex_digit-injective (a % 16) (b % 16) (omega arith) (omega arith) (head_eq (tail_eq h)) in
    ap₂ (◌∷◌) (byte_eq a b high low) (hex_encode-injective xs ys ha.1 hb.1 (tail_eq (tail_eq h)))
