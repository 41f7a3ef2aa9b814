-- ===== src/Crypto/Ratchet/Limits.antt =====
-- crates/cypher-crypto/src/ratchet.rs: the limits on skipped keys.
use cypher.Prelude.{
  refl, ltb→le, ℕ, ◌+◌, ◌-◌, ◌≤◌, ◌≡◌, inl, inr, Bool, true, false, none, some, length, arith,
  Error, Result, ok, err, ltb, if◌then◌else◌, Option-cases, Bool-cases,
}
use cypher.Prelude.Bytes.{Bytes, bytes_eq, bytes_eq_iff}
use cypher.Prelude.Assoc.{lookup, nat_eq, bytes_Eq, pair_Eq, length-remove-le}
use cypher.Prelude.Maps.{true-false}
use cypher.Crypto.Primitives.{Primitives}
use cypher.Crypto.Ratchet.{
  SkippedKey, RatchetState, max_skip, max_total_skipped, skip_chain, skip_messages, need_dh_ratchet,
  dh_step, receive_next, after_skip, decrypt,
}
use cypher.Crypto.Ratchet.Chain.{length-skip_loop-le}
use cypher.Crypto.Ratchet.Receive.{skip_messages-skip_chain}

abbrev pub Limited : RatchetState → Type 0
Limited s = length s.skipped_keys ≤ max_total_skipped

module _ (p : Primitives) where
  skip_chain-Limited :
      (ck rk : Bytes) (s : RatchetState) (n : ℕ) → Limited s → Limited (skip_chain p ck rk s n).1
  unfolding skip_chain
  skip_chain-Limited ck rk s n h =
      ground (arith, length-skip_loop-le p ck rk (n - s.recv_count) s.recv_count ck s.skipped_keys)

  skip_messages-Limited : (s : RatchetState) (n : ℕ) → Limited s → Limited (skip_messages p s n).1
  unfolding skip_messages
  skip_messages-Limited s n h = elim (Option-cases s.recv_chain_key) [
    | inl e ↦ ground (arith, e)
    | inr (ck, e) ↦ elim (Option-cases s.recv_ratchet_key) [
      | inl d ↦ ground (arith, e, d)
      | inr (rk, d) ↦ ground (arith, e, d, skip_chain-Limited ck rk s n h)
    ]
  ]

  receive_next-Limited :
      (s : RatchetState) (ct rk : Bytes) (n : ℕ) → Limited s → Limited (receive_next p s ct rk n).1
  unfolding receive_next
  receive_next-Limited s ct rk n h = ground arith

  after_skip-Limited :
      (r : Result Error (Unit {0})) (s : RatchetState) (ct rk : Bytes) (n : ℕ)
      → Limited s
      → Limited (after_skip p (r, s) ct rk n).1
  unfolding after_skip
  after_skip-Limited (ok u) s ct rk n h = receive_next-Limited s ct rk n h
  after_skip-Limited (err e) s ct rk n h = h

  dh_step-Limited :
      (s : RatchetState) (rk fresh : Bytes) → Limited s → Limited (dh_step p s rk fresh)
  unfolding dh_step
  dh_step-Limited s rk fresh h = h

  stepped-Limited :
      (b : Bool) (s : RatchetState) (rk fresh : Bytes)
      → Limited s
      → Limited (if b then dh_step p s rk fresh else s)
  stepped-Limited true s rk fresh h = dh_step-Limited s rk fresh h
  stepped-Limited false s rk fresh h = h

-- Whatever packet comes in, and whether `decrypt` succeeds or fails on it, the number of stored keys
-- stays within `MAX_TOTAL_SKIPPED`.
pub decrypt-Limited :
    (p : Primitives) (s : RatchetState) (ct rk : Bytes) (n : ℕ) (fresh : Bytes)
    → Limited s
    → Limited (decrypt p s ct rk n fresh).1
unfolding decrypt
decrypt-Limited p s ct rk n fresh h = elim (Option-cases (lookup (rk, n) s.skipped_keys)) [
  | inl e ↦
      rw (e, decrypt)
        (after_skip-Limited p _ _ ct rk n
          (skip_messages-Limited p _ n (stepped-Limited p (need_dh_ratchet s rk) s rk fresh h)))
  | inr (mk, e) ↦
      rw (e, decrypt) (omega (arith, length-remove-le {K = SkippedKey} (rk, n) s.skipped_keys))
]

on_ratchet :
    (s : RatchetState) (rk : Bytes) → need_dh_ratchet s rk ≡ false → s.recv_ratchet_key ≡ some rk
unfolding need_dh_ratchet
on_ratchet s rk same = elim (Option-cases s.recv_ratchet_key) [
  | inl absent ↦ absurd (true-false refl (rw absent at same))
  | inr (k, held) ↦ elim (Bool-cases (bytes_eq k rk)) [
    | inl equal ↦ rw (held, (bytes_eq_iff k rk).0 equal) refl
    | inr other ↦ absurd (true-false refl (rw (held, other) at same))
  ]
]

ok-err : {e : Error} {m : Bytes} → err e ≡ ok m → ⊥
ok-err h = cc

Within : (n counter stored : ℕ) → Type 0
Within n counter stored = (n - counter ≤ max_skip) × (stored + (n - counter) ≤ max_total_skipped)

module _ (p : Primitives) (ct rk : Bytes) (n : ℕ) {m : Bytes} where
  after_skip-Within :
      (s : RatchetState)
      → s.recv_ratchet_key ≡ some rk
      → (after_skip p (skip_messages p s n) ct rk n).0 ≡ ok m
      → Within n s.recv_count (length s.skipped_keys)
  unfolding Within after_skip skip_chain skip_messages receive_next
  after_skip-Within s hr done = elim (Option-cases s.recv_chain_key) [
    | inl absent ↦ absurd (ok-err (rw absent at done))
    | inr (ck, hc) ↦
        let run = rw (skip_messages-skip_chain p s rk ck hc hr n) at done in
        elim (Bool-cases (ltb max_skip (n - s.recv_count))) [
          | inl over ↦ absurd (ok-err (rw over at run))
          | inr under ↦
              elim (Bool-cases
                (ltb max_total_skipped (length s.skipped_keys + (n - s.recv_count)))) [
                  | inl full ↦ absurd (ok-err (rw (under, full) at run))
                  | inr room ↦ (ltb→le _ _ under, ltb→le _ _ room)
                ]
        ]
  ]

  -- A packet without a stored key decrypts only if its number is at most `MAX_SKIP` ahead and the keys
  -- to skip fit into the store with those that are there. It is counted from the receiving counter,
  -- or from 0 when the packet comes with a new ratchet key.
  pub decrypt_within :
      (s : RatchetState) (fresh : Bytes)
      → lookup (rk, n) s.skipped_keys ≡ none
      → (decrypt p s ct rk n fresh).0 ≡ ok m
      → let counter = if need_dh_ratchet s rk then 0 else s.recv_count in
        (n - counter ≤ max_skip) × (length s.skipped_keys + (n - counter) ≤ max_total_skipped)
  unfolding Within decrypt dh_step
  decrypt_within s fresh miss done =
      let run = rw (miss, decrypt) at done in
      elim (Bool-cases (need_dh_ratchet s rk)) [
        | inl new ↦ rw new (after_skip-Within (dh_step p s rk fresh) refl (rw new at run))
        | inr same ↦ rw same (after_skip-Within s (on_ratchet s rk same) (rw same at run))
      ]
