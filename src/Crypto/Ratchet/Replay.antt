-- ===== src/Crypto/Ratchet/Replay.antt =====
-- A packet that is delivered a second time.
use cypher.Prelude.{
  ℕ, suc, ◌+◌, ◌-◌, ◌%◌, ◌^◌, ◌≤◌, ◌<◌, ◌≡◌, refl, ap, ◌∙◌, none, some, length, arith, Error,
  Result, le→ltb,
}
use cypher.Prelude.Bytes.{Bytes}
use cypher.Prelude.Assoc.{lookup, nat_eq, bytes_Eq, pair_Eq}
use cypher.Crypto.Primitives.{Primitives}
use cypher.Crypto.Aead.{aead_decrypt}
use cypher.Crypto.Ratchet.{
  RatchetState, max_skip, max_total_skipped, nonce_material, skip_loop, skip_chain, receive_next,
  after_skip, decrypt, skip_loop,
}
use cypher.Crypto.Ratchet.Chain.{chain, key_at, skip_loop-chain}
use cypher.Crypto.Ratchet.Receive.{need_dh_ratchet_same, decrypt_miss, skip_messages-skip_chain}

-- A packet of the current ratchet key whose number is below the counter and whose key is no longer
-- stored, as when it is delivered again: whatever its ciphertext, `decrypt` sets the counter back to
-- the number behind the packet's, moves the chain one key on, and opens the packet with a key of a
-- later number. The counter and the chain no longer belong together.
pub decrypt_again :
    (p : Primitives) (base rk ct fresh : Bytes) (s : RatchetState) (n : ℕ)
    → s.recv_chain_key ≡ some (chain p base s.recv_count)
    → s.recv_ratchet_key ≡ some rk
    → lookup (rk, n) s.skipped_keys ≡ none
    → n < s.recv_count
    → s.recv_count < 2 ^ 32
    → length s.skipped_keys ≤ max_total_skipped
    → decrypt p s ct rk n fresh ≡ (
      aead_decrypt p
          (key_at p base s.recv_count)
          (nonce_material (key_at p base s.recv_count) n)
          ct
          rk,
      record s { recv_chain_key = some (chain p base (suc s.recv_count)); recv_count = suc n },
    )
unfolding skip_chain skip_loop after_skip receive_next key_at chain
decrypt_again p base rk ct fresh s n hc hr miss old range room =
    let none_left : n - s.recv_count ≡ 0 = omega arith in
    let wraps : (n + 1) % 2 ^ 32 ≡ suc n = omega arith in
    decrypt_miss p s rk n ct fresh miss (need_dh_ratchet_same p s rk hr)
    ∙ ap (λ t. after_skip p t ct rk n)
        (skip_messages-skip_chain p s rk (chain p base s.recv_count) hc hr n)
    ∙ rw (none_left, le→ltb max_total_skipped (length s.skipped_keys + 0) (omega arith), wraps)

-- After a packet `n` of the current ratchet key came a second time, as above, the next genuine packet,
-- whose number is the counter from before, is opened with the key of another number, further on by
-- `s.recv_count - n` keys.
pub decrypt_after_again :
    (p : Primitives) (base rk ct ct' fresh : Bytes) (s : RatchetState) (n : ℕ)
    → s.recv_chain_key ≡ some (chain p base s.recv_count)
    → s.recv_ratchet_key ≡ some rk
    → lookup (rk, n) s.skipped_keys ≡ none
    → lookup (rk, s.recv_count) s.skipped_keys ≡ none
    → n < s.recv_count
    → s.recv_count < 2 ^ 32
    → s.recv_count - n ≤ max_skip
    → length s.skipped_keys + (s.recv_count - n) ≤ max_total_skipped
    → (decrypt p (decrypt p s ct rk n fresh).1 ct' rk s.recv_count fresh).0
      ≡ aead_decrypt p
          (key_at p base (s.recv_count + (s.recv_count - n)))
          (nonce_material (key_at p base (s.recv_count + (s.recv_count - n))) s.recv_count)
          ct'
          rk
unfolding skip_chain after_skip receive_next key_at
decrypt_after_again p base rk ct ct' fresh s n hc hr miss miss' old range near room =
    let s' = record s {
      recv_chain_key = some (chain p base (suc s.recv_count));
      recv_count = suc n;
    } in
    let index : suc s.recv_count + (s.recv_count - suc n) ≡ s.recv_count + (s.recv_count - n) =
      omega arith in
    ap (λ (t : Result Error Bytes × RatchetState). (decrypt p t.1 ct' rk s.recv_count fresh).0)
      (decrypt_again p base rk ct fresh s n hc hr miss old range (omega arith))
    ∙ ap (λ (t : Result Error Bytes × RatchetState). t.0)
        (decrypt_miss p s' rk s.recv_count ct' fresh miss' (need_dh_ratchet_same p s' rk hr)
          ∙ ap (λ t. after_skip p t ct' rk s.recv_count)
              (skip_messages-skip_chain p s' rk (chain p base (suc s.recv_count)) refl hr
                s.recv_count))
    ∙ rw (
      le→ltb max_skip (s.recv_count - suc n) (omega arith),
      le→ltb max_total_skipped (length s.skipped_keys + (s.recv_count - suc n)) (omega arith),
      skip_loop-chain p base rk (s.recv_count - suc n) (suc n) (suc s.recv_count) s.skipped_keys,
      index,
    )
