-- ===== src/Prelude/Bits.antt =====
-- Exclusive or and inclusive or of machine words, as far as comparisons use them.
use Prim.Native.Nat.{
  ℕ, zero, suc, ◌+◌, ◌*◌, ◌/◌, ◌%◌, ◌^◌, ◌≤◌, ◌<◌, bit_or, bit_xor, bit_or-bitwise, bit_xor-bitwise,
  digits, differ, max,
}
use mathlib.Core.Path.{◌≡◌, refl, sym, ap, ◌∙◌}
use native.Mathlib.Nat.{pow-suc}
use native.Mathlib.Omega.{arith}

differ_refl : (n : ℕ) → differ n n ≡ 0
differ_refl zero = refl
differ_refl (suc n) = differ_refl n

differ_zero : (a b : ℕ) → differ a b ≡ 0 → a ≡ b
differ_zero zero b h = omega arith
differ_zero (suc a) zero h = absurd (omega arith)
differ_zero (suc a) (suc b) h = ap suc (differ_zero a b h)

digits-differ_refl : (n a : ℕ) → a ≤ n → digits (λ b. b) differ n a a ≡ 0
digits-differ_refl zero a h = omega arith
digits-differ_refl (suc n) zero h = refl
digits-differ_refl (suc n) (suc a) h =
    omega (arith, digits-differ_refl n (suc a / 2) (omega arith), differ_refl (suc a % 2))

digits-differ_zero : (n a b : ℕ) → a ≤ n → digits (λ b. b) differ n a b ≡ 0 → a ≡ b
digits-differ_zero zero a b h e = omega arith
digits-differ_zero (suc n) zero b h e = omega arith
digits-differ_zero (suc n) (suc a) b h e = omega (
  arith,
  digits-differ_zero n (suc a / 2) (b / 2) (omega arith) (omega arith),
  differ_zero (suc a % 2) (b % 2) (omega arith),
)

digits-max_zero : (n a b : ℕ) → a ≤ n → digits (λ b. b) max n a b ≡ 0 → (a ≡ 0) × (b ≡ 0)
digits-max_zero zero a b h e = (omega arith, omega arith)
digits-max_zero (suc n) zero b h e = (refl, omega arith)
digits-max_zero (suc n) (suc a) b h e =
    let both = digits-max_zero n (suc a / 2) (b / 2) (omega arith) (omega arith) in
    (omega (arith, both), omega (arith, both))

-- One digit more on both sides, also when the first number has run out.
digits-differ_none : (n b : ℕ) → digits (λ b. b) differ n 0 b ≡ b
digits-differ_none zero b = refl
digits-differ_none (suc n) b = refl

digits-differ_step :
    (n a b : ℕ)
    → digits (λ b. b) differ (suc n) a b
      ≡ digits (λ b. b) differ n (a / 2) (b / 2) * 2 + differ (a % 2) (b % 2)
digits-differ_step n zero b = omega (arith, digits-differ_none n (b / 2))
digits-differ_step n (suc a) b = refl

differ_twice : (p q : ℕ) → p < 2 → q < 2 → (differ p q < 2) × (differ (differ p q) q ≡ p)
differ_twice zero zero hp hq = (omega arith, refl)
differ_twice zero (suc zero) hp hq = (omega arith, refl)
differ_twice zero (suc (suc q)) hp hq = absurd (omega arith)
differ_twice (suc zero) zero hp hq = (omega arith, refl)
differ_twice (suc zero) (suc zero) hp hq = (omega arith, refl)
differ_twice (suc zero) (suc (suc q)) hp hq = absurd (omega arith)
differ_twice (suc (suc p)) q hp hq = absurd (omega arith)

digits-differ_twice :
    (n m a b : ℕ)
    → a ≤ n
    → digits (λ b. b) differ n a b ≤ m
    → digits (λ b. b) differ m (digits (λ b. b) differ n a b) b ≡ a
digits-differ_twice zero m zero b h k = digits-differ_refl m b k
digits-differ_twice (suc n) m zero b h k = digits-differ_refl m b k
digits-differ_twice zero m (suc a) b h k = absurd (omega arith)
digits-differ_twice (suc n) zero (suc a) b h k =
    sym (digits-differ_zero (suc n) (suc a) b h (omega arith))
digits-differ_twice (suc n) (suc m) (suc a) b h k =
    let high = digits (λ b. b) differ n (suc a / 2) (b / 2) in
    let low = differ (suc a % 2) (b % 2) in
    let (small, back) = differ_twice (suc a % 2) (b % 2) (omega arith) (omega arith) in
    let half : (high * 2 + low) / 2 ≡ high = omega (arith, small) in
    let bit : (high * 2 + low) % 2 ≡ low = omega (arith, small) in
    digits-differ_step m (high * 2 + low) b
    ∙ rw (half, bit)
        (omega (
          arith,
          back,
          digits-differ_twice n m (suc a / 2) (b / 2) (omega arith) (omega (arith, small)),
        ))

digits-differ_bound :
    (k n a b : ℕ) → a ≤ n → a < 2 ^ k → b < 2 ^ k → digits (λ b. b) differ n a b < 2 ^ k
digits-differ_bound k zero a b h ha hb = hb
digits-differ_bound k (suc n) zero b h ha hb = hb
digits-differ_bound zero (suc n) (suc a) b h ha hb = absurd (omega arith)
digits-differ_bound (suc k) (suc n) (suc a) b h ha hb =
    let ha' : suc a < 2 ^ k * 2 = rw pow-suc at ha in
    let hb' : b < 2 ^ k * 2 = rw pow-suc at hb in
    rw pow-suc (
      omega (
        arith,
        digits-differ_bound k n (suc a / 2) (b / 2) (omega arith) (omega arith) (omega arith),
        differ_twice (suc a % 2) (b % 2) (omega arith) (omega arith),
      ))

-- The exclusive or with a word is undone by the same word, and stays a word.
pub bit_xor_twice : (a b : ℕ) → bit_xor (bit_xor a b) b ≡ a
bit_xor_twice a b =
    let x = digits (λ b. b) differ a a b in
    ap (λ y. bit_xor y b) (λ i. bit_xor-bitwise a b i)
    ∙ ((λ i. bit_xor-bitwise x b i) ∙ digits-differ_twice a x a b (omega arith) (omega arith))

pub bit_xor_bound : (k a b : ℕ) → a < 2 ^ k → b < 2 ^ k → bit_xor a b < 2 ^ k
bit_xor_bound k a b ha hb =
    rw (bit_xor-bitwise a b) (digits-differ_bound k a a b (omega arith) ha hb)

pub bit_xor_self : (a : ℕ) → bit_xor a a ≡ 0
bit_xor_self a = (λ i. bit_xor-bitwise a a i) ∙ digits-differ_refl a a (omega arith)

pub bit_xor_zero : (a b : ℕ) → bit_xor a b ≡ 0 → a ≡ b
bit_xor_zero a b e = digits-differ_zero a a b (omega arith) (sym (λ i. bit_xor-bitwise a b i) ∙ e)

pub bit_or_zero : (a b : ℕ) → bit_or a b ≡ 0 → (a ≡ 0) × (b ≡ 0)
bit_or_zero a b e = digits-max_zero a a b (omega arith) (sym (λ i. bit_or-bitwise a b i) ∙ e)

digits-max_bound : (k n a b : ℕ) → a ≤ n → a < 2 ^ k → b < 2 ^ k → digits (λ b. b) max n a b < 2 ^ k
digits-max_bound k zero a b h ha hb = hb
digits-max_bound k (suc n) zero b h ha hb = hb
digits-max_bound zero (suc n) (suc a) b h ha hb = absurd (omega arith)
digits-max_bound (suc k) (suc n) (suc a) b h ha hb =
    let ha' : suc a < 2 ^ k * 2 = rw pow-suc at ha in
    let hb' : b < 2 ^ k * 2 = rw pow-suc at hb in
    rw pow-suc (
      omega
        (arith, digits-max_bound k n (suc a / 2) (b / 2) (omega arith) (omega arith) (omega arith)))

digits-max_above : (k n a : ℕ) → a ≤ n → 2 ^ k ≤ digits (λ b. b) max n a (2 ^ k)
digits-max_above k zero a h = omega arith
digits-max_above k (suc n) zero h = omega arith
digits-max_above zero (suc n) (suc a) h = omega arith
digits-max_above (suc k) (suc n) (suc a) h =
    let double : 2 ^ k * 2 / 2 ≡ 2 ^ k = omega arith in
    rw (pow-suc, double) (omega (arith, digits-max_above k n (suc a / 2) (omega arith)))

-- The inclusive or of two words is a word, and setting a bit gives at least that bit.
pub bit_or_bound : (k a b : ℕ) → a < 2 ^ k → b < 2 ^ k → bit_or a b < 2 ^ k
bit_or_bound k a b ha hb = rw (bit_or-bitwise a b) (digits-max_bound k a a b (omega arith) ha hb)

pub bit_or_above : (k a : ℕ) → 2 ^ k ≤ bit_or a (2 ^ k)
bit_or_above k a = rw (bit_or-bitwise a (2 ^ k)) (digits-max_above k a a (omega arith))

pub bit_or_none : bit_or 0 0 ≡ 0
bit_or_none = refl
