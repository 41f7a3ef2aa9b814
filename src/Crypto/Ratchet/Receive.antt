-- ===== src/Crypto/Ratchet/Receive.antt =====
-- What a receiver knows of one receiving chain, and a delivery of any one of its messages.
use cypher.Prelude.{
  ℕ, suc, ◌+◌, ◌-◌, ◌%◌, ◌^◌, ◌≤◌, ◌<◌, ◌≡◌, refl, ap, ◌∙◌, ◌≢◌, inl, inr, Bool, true, false, none,
  some, List, length, arith, ok, le→ltb, if◌then◌else◌, ◌==◌, ==_refl,
}
use cypher.Prelude.Bytes.{Bytes, bytes_eq_refl}
use cypher.Prelude.Assoc.{lookup, remove, nat_eq, bytes_Eq, pair_Eq, lookup-remove_ne}
use native.Mathlib.Decide.{dec_lt}
use cypher.Crypto.Primitives.{Primitives}
use cypher.Crypto.Aead.{aead_decrypt}
use cypher.Crypto.Ratchet.{
  SkippedKey, RatchetState, max_skip, max_total_skipped, nonce_material, skip_loop, skip_chain,
  skip_messages, need_dh_ratchet, receive_next, after_skip, decrypt,
}
use cypher.Crypto.Ratchet.Chain.{
  chain, key_at, skip_loop-chain, length-skip_loop-le, lookup-skip_loop, lookup-skip_loop_other,
}

-- The receiver is on the chain that starts at `base` under the ratchet key `rk`; `got` are the
-- numbers that were delivered.
pub record Receives (p : Primitives) (base rk : Bytes) (got : ℕ → Bool) (s : RatchetState)
    : Type 0 where
  pub on_chain : s.recv_chain_key ≡ some (chain p base s.recv_count)
  pub on_ratchet : s.recv_ratchet_key ≡ some rk
  -- a number that was passed over is stored with its key
  pub stored :
      (i : ℕ)
      → i < s.recv_count
      → got i ≡ false
      → lookup (rk, i) s.skipped_keys ≡ some (key_at p base i)
  -- nothing is stored for the numbers to come
  pub ahead : (i : ℕ) → s.recv_count ≤ i → lookup (rk, i) s.skipped_keys ≡ none

pub number_ne : (rk : Bytes) (i j : ℕ) → i ≢ j → ◌≢◌ {A = SkippedKey} (rk, i) (rk, j)
number_ne rk i j h e = h (ap (λ (k : SkippedKey). k.1) e)

unmark : (b c : Bool) → (if b then true else c) ≡ false → c ≡ false
unmark true c e = cc
unmark false c e = e

-- The numbers that were delivered, with one more.
unfoldable pub mark : ℕ → (ℕ → Bool) → ℕ → Bool
mark n got i = if i == n then true else got i

-- The branches of the methods, for a state whose chain and ratchet keys are known.
module _ (p : Primitives) (s : RatchetState) (rk : Bytes) where
  pub skip_messages-skip_chain :
      (ck : Bytes)
      → s.recv_chain_key ≡ some ck
      → s.recv_ratchet_key ≡ some rk
      → (n : ℕ) → skip_messages p s n ≡ skip_chain p ck rk s n
  unfolding skip_messages
  skip_messages-skip_chain ck hc hr n = ground arith

  pub need_dh_ratchet_same : s.recv_ratchet_key ≡ some rk → need_dh_ratchet s rk ≡ false
  unfolding need_dh_ratchet
  need_dh_ratchet_same hr = ground (arith, bytes_eq_refl rk)

  pub decrypt_hit :
      (n : ℕ) (ct secret : Bytes) {mk : Bytes}
      → lookup (rk, n) s.skipped_keys ≡ some mk
      → decrypt p s ct rk n secret ≡ (
        aead_decrypt p mk (nonce_material mk n) ct rk,
        record s { skipped_keys = remove (rk, n) s.skipped_keys },
      )
  unfolding decrypt
  decrypt_hit n ct secret h = ground arith

  pub decrypt_miss :
      (n : ℕ) (ct secret : Bytes)
      → lookup (rk, n) s.skipped_keys ≡ none
      → need_dh_ratchet s rk ≡ false
      → decrypt p s ct rk n secret ≡ after_skip p (skip_messages p s n) ct rk n
  unfolding decrypt
  decrypt_miss n ct secret h same = ground arith

-- The state after the skipped key of message `n` was used, and after `n` came by the chain.
module _ (p : Primitives) (base rk : Bytes) (s : RatchetState) (n : ℕ) where
  unfoldable pub after_stored : RatchetState
  after_stored = record s { skipped_keys = remove (rk, n) s.skipped_keys }

  unfoldable pub skipped : List (SkippedKey × Bytes)
  skipped =
      (skip_loop p rk (n - s.recv_count) s.recv_count (chain p base s.recv_count) s.skipped_keys).1

  unfoldable pub after_next : RatchetState
  after_next = record s {
    recv_chain_key = some (chain p base (suc n));
    recv_count = suc n;
    skipped_keys = skipped;
  }

module _ (p : Primitives) (base rk : Bytes) (got : ℕ → Bool) (s : RatchetState)
    (r : Receives p base rk got s) (n : ℕ) where
  -- A number that was skipped before: the stored key is used up.
  module _ (passed : n < s.recv_count) (fresh : got n ≡ false) where
    pub decrypt_stored :
        (ct secret : Bytes)
        → decrypt p s ct rk n secret ≡ (
          aead_decrypt p (key_at p base n) (nonce_material (key_at p base n) n) ct rk,
          after_stored p base rk s n,
        )
    unfolding after_stored
    decrypt_stored ct secret = decrypt_hit p s rk n ct secret (r.stored n passed fresh)

    pub Receives-stored : Receives p base rk (mark n got) (after_stored p base rk s n)
    unfolding after_stored mark
    Receives-stored = record {
      on_chain = r.on_chain;
      on_ratchet = r.on_ratchet;
      stored = λ i h e.
          let ne : n ≢ i = λ q. cc (rw (q, ==_refl i) at e) in
          lookup-remove_ne (rk, n) (rk, i) s.skipped_keys (number_ne rk n i ne)
          ∙ r.stored i h (unmark (i == n) (got i) e);
      ahead = λ i h.
          lookup-remove_ne (rk, n) (rk, i) s.skipped_keys (number_ne rk n i (omega arith))
          ∙ r.ahead i h;
    }

  -- A number that is not below the counter: those between are skipped.
  module _ (later : s.recv_count ≤ n) (near : n - s.recv_count ≤ max_skip)
      (room : length s.skipped_keys + (n - s.recv_count) ≤ max_total_skipped)
      (no_wrap : n + 1 < 2 ^ 32) where
    skip_chain_next : skip_chain p (chain p base s.recv_count) rk s n ≡ (
      ok tt,
      record s {
        recv_chain_key = some (chain p base n);
        recv_count = n;
        skipped_keys = skipped p base rk s n;
      },
    )
    unfolding skip_chain skipped
    skip_chain_next =
        let back : s.recv_count + (n - s.recv_count) ≡ n = omega arith in
        rw (
          le→ltb max_skip (n - s.recv_count) near,
          le→ltb max_total_skipped (length s.skipped_keys + (n - s.recv_count)) room,
          skip_loop-chain p base rk (n - s.recv_count) s.recv_count s.recv_count s.skipped_keys,
          back,
        )

    receives :
        (ct : Bytes)
        → after_skip p
            (
              ok tt,
              record s {
                recv_chain_key = some (chain p base n);
                recv_count = n;
                skipped_keys = skipped p base rk s n;
              },
            )
            ct
            rk
            n
          ≡ (
            aead_decrypt p (key_at p base n) (nonce_material (key_at p base n) n) ct rk,
            after_next p base rk s n,
          )
    unfolding after_skip receive_next after_next chain key_at
    receives ct = let wraps : (n + 1) % 2 ^ 32 ≡ suc n = omega arith in rw wraps

    pub decrypt_next :
        (ct secret : Bytes)
        → decrypt p s ct rk n secret ≡ (
          aead_decrypt p (key_at p base n) (nonce_material (key_at p base n) n) ct rk,
          after_next p base rk s n,
        )
    decrypt_next ct secret =
        decrypt_miss p s rk n ct secret (r.ahead n later) (need_dh_ratchet_same p s rk r.on_ratchet)
        ∙ ap (λ t. after_skip p t ct rk n)
            (skip_messages-skip_chain p s rk (chain p base s.recv_count) r.on_chain r.on_ratchet n
              ∙ skip_chain_next)
        ∙ receives ct

    passed_over :
        (i : ℕ)
        → i < suc n
        → mark n got i ≡ false
        → lookup (rk, i) (skipped p base rk s n) ≡ some (key_at p base i)
    unfolding skipped mark
    passed_over i h e =
        let ne : i ≢ n = λ q. cc (rw (q, ==_refl n) at e) in
        elim (dec_lt i s.recv_count) [
          | yes old ↦
              lookup-skip_loop_other p base rk (n - s.recv_count) s.recv_count i
                (chain p base s.recv_count) s.skipped_keys (inl old)
              ∙ r.stored i old (unmark (i == n) (got i) e)
          | no new ↦
              lookup-skip_loop p base rk (n - s.recv_count) s.recv_count i s.skipped_keys
                (omega arith) (omega arith)
        ]

    pub Receives-next : Receives p base rk (mark n got) (after_next p base rk s n)
    unfolding after_next
    Receives-next = record {
      on_chain = refl;
      on_ratchet = r.on_ratchet;
      stored = passed_over;
      ahead = λ i h.
          unfold skipped in
          (lookup-skip_loop_other p base rk (n - s.recv_count) s.recv_count i
              (chain p base s.recv_count) s.skipped_keys (inr (omega arith))
            ∙ r.ahead i (omega arith));
    }

    pub length-after_next-le :
        length (after_next p base rk s n).skipped_keys ≤ length s.skipped_keys + (n - s.recv_count)
    unfolding after_next skipped
    length-after_next-le =
        length-skip_loop-le p base rk (n - s.recv_count) s.recv_count (chain p base s.recv_count)
          s.skipped_keys
