-- ===== src/Crypto/Ratchet/Chain.antt =====
-- A symmetric-key chain as a function of the message number, and what `skip_messages` stores of it.
use cypher.Prelude.{
  ℕ, zero, suc, ◌+◌, ◌≤◌, ◌<◌, ◌≡◌, refl, ap, ◌∙◌, ◌≢◌, ◌⊎◌, some, List, length, arith,
}
use cypher.Prelude.Bytes.{Bytes}
use cypher.Prelude.Assoc.{
  lookup, insert, nat_eq, bytes_Eq, pair_Eq, lookup-insert_self, lookup-insert_ne, length-insert-le,
}
use native.Mathlib.Decide.{ℕ_discrete}
use cypher.Crypto.Primitives.{Primitives}
use cypher.Crypto.Ratchet.{SkippedKey, kdf_chain, skip_loop}

module _ (p : Primitives) (base : Bytes) where
  -- The chain key after `n` messages, and the key of message `n`.
  unfoldable pub chain : ℕ → Bytes
  chain zero = base
  chain (suc n) = (kdf_chain p (chain n)).0

  unfoldable pub key_at : ℕ → Bytes
  key_at n = (kdf_chain p (chain n)).1

module _ (p : Primitives) (base rk : Bytes) where
  pub skip_loop-chain :
      (rounds i j : ℕ) (m : List (SkippedKey × Bytes))
      → (skip_loop p rk rounds i (chain p base j) m).0 ≡ chain p base (j + rounds)
  unfolding skip_loop chain key_at
  skip_loop-chain zero i j m = ap (chain p base) (omega arith)
  skip_loop-chain (suc rounds) i j m =
      skip_loop-chain rounds (suc i) (suc j) (insert (rk, i) (key_at p base j) m)
      ∙ ap (chain p base) (omega arith)

  pub length-skip_loop-le :
      (rounds i : ℕ) (ck : Bytes) (m : List (SkippedKey × Bytes))
      → length (skip_loop p rk rounds i ck m).1 ≤ length m + rounds
  unfolding skip_loop
  length-skip_loop-le zero i ck m = omega arith
  length-skip_loop-le (suc rounds) i ck m = omega (
    arith,
    length-skip_loop-le rounds (suc i) (kdf_chain p ck).0 (insert (rk, i) (kdf_chain p ck).1 m),
    length-insert-le (rk, i) (kdf_chain p ck).1 m,
  )

  number_ne : (i j : ℕ) → i ≢ j → ◌≢◌ {A = SkippedKey} (rk, i) (rk, j)
  number_ne i j h e = h (ap (λ (k : SkippedKey). k.1) e)

  -- Numbers outside the skipped range keep what they had.
  pub lookup-skip_loop_other :
      (rounds i j : ℕ) (ck : Bytes) (m : List (SkippedKey × Bytes))
      → (j < i) ⊎ (i + rounds ≤ j)
      → lookup (rk, j) (skip_loop p rk rounds i ck m).1 ≡ lookup (rk, j) m
  unfolding skip_loop
  lookup-skip_loop_other zero i j ck m h = refl
  lookup-skip_loop_other (suc rounds) i j ck m h =
      lookup-skip_loop_other rounds (suc i) j (kdf_chain p ck).0
        (insert (rk, i) (kdf_chain p ck).1 m) (omega arith)
      ∙ lookup-insert_ne (rk, i) (rk, j) (kdf_chain p ck).1 m (number_ne i j (omega arith))

  -- Each skipped number gets its key.
  pub lookup-skip_loop :
      (rounds i j : ℕ) (m : List (SkippedKey × Bytes))
      → i ≤ j
      → j < i + rounds
      → lookup (rk, j) (skip_loop p rk rounds i (chain p base i) m).1 ≡ some (key_at p base j)
  unfolding skip_loop chain key_at
  lookup-skip_loop zero i j m lo hi = absurd (omega arith)
  lookup-skip_loop (suc rounds) i j m lo hi = elim (ℕ_discrete i j) [
    | yes e ↦
        lookup-skip_loop_other rounds (suc i) j (chain p base (suc i))
          (insert (rk, i) (key_at p base i) m) (omega arith)
        ∙ rw e (lookup-insert_self (rk, j) (key_at p base j) m)
    | no ne ↦
        lookup-skip_loop rounds (suc i) j (insert (rk, i) (key_at p base i) m) (omega arith)
          (omega arith)
  ]
