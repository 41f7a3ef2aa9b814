-- ===== src/Nat/Dtls/Compare.antt =====
-- `constant_time_eq` decides equality.
use Prim.Native.Nat.{bit_or, bit_xor}
use cypher.Prelude.{ℕ, ◌≡◌, ◌↔◌, refl, ap₂, true, [], ◌∷◌, length, arith}
use cypher.Prelude.Bytes.{Bytes}
use cypher.Prelude.Bits.{bit_xor_self, bit_xor_zero, bit_or_zero, bit_or_none}
use cypher.Nat.Dtls.{differences, constant_time_eq}

differences_refl : (a : Bytes) → differences 0 a a ≡ 0
unfolding differences
differences_refl [] = refl
differences_refl (x ∷ a) = rw (bit_xor_self x, bit_or_none) (differences_refl a)

-- No difference was noted so far, and none in the rest of two lists of one length.
differences_zero :
    (diff : ℕ) (a b : Bytes) → length a ≡ length b → differences diff a b ≡ 0 → (diff ≡ 0) × (a ≡ b)
unfolding differences
differences_zero diff [] [] l h = (h, refl)
differences_zero diff [] (y ∷ b) l h = absurd (omega arith)
differences_zero diff (x ∷ a) [] l h = absurd (omega arith)
differences_zero diff (x ∷ a) (y ∷ b) l h =
    let (here, rest) = differences_zero (bit_or diff (bit_xor x y)) a b (omega arith) h in
    let (before, same) = bit_or_zero diff (bit_xor x y) here in
    (before, ap₂ (λ (z : ℕ) (c : Bytes). z ∷ c) (bit_xor_zero x y same) rest)

pub constant_time_eq_refl : (a : Bytes) → constant_time_eq a a ≡ true
unfolding constant_time_eq
constant_time_eq_refl a = ground (arith, differences_refl a)

pub constant_time_eq→eq : (a b : Bytes) → constant_time_eq a b ≡ true → a ≡ b
unfolding constant_time_eq
constant_time_eq→eq a b h = (differences_zero 0 a b (ground arith) (ground arith)).1

-- Two byte strings pass `constant_time_eq` exactly when they are equal.
pub constant_time_eq_iff : (a b : Bytes) → (constant_time_eq a b ≡ true) ↔ (a ≡ b)
constant_time_eq_iff a b = (constant_time_eq→eq a b, λ e. rw e (constant_time_eq_refl b))
