-- ===== src/Tests/Crypto.antt =====
-- The theorems on the key exchange and the ratchet at concrete inputs.
use cypher.Prelude.{
  ◌+◌, ◌-◌, ◌≤◌, if◌then◌else◌, ℕ, ◌≡◌, refl, none, some, List, [], ◌∷◌, map, replicate, get_or,
  arith, ok,
}
use cypher.Prelude.Bytes.{Bytes, bytes_eq}
use cypher.Prelude.Assoc.{lookup}
use cypher.Crypto.Aead.{aead_encrypt, aead_decrypt, derive_nonce}
use cypher.Crypto.X3dh.{
  x3dh_initiator, x3dh_responder, x3dh_mutual, x3dh_initiator-x3dh_responder, x3dh_mutual_symm,
}
use cypher.Crypto.Ratchet.{
  RatchetState, encrypt, encrypt_with, decrypt, need_dh_ratchet, skip_messages, skip_chain,
  skip_loop, after_skip, receive_next, max_skip, max_total_skipped, kdf_chain, nonce_material,
  init_sender, init_receiver,
}
use cypher.Crypto.Ratchet.Chain.{chain, key_at}
use cypher.Crypto.Ratchet.Receive.{mark}
use cypher.Crypto.Ratchet.OutOfOrder.{deliver-send_all}
use cypher.Crypto.Ratchet.Sending.{Packet, send_all, deliver}
use cypher.Crypto.Ratchet.PingPong.{converse, converse-init}
use cypher.Crypto.Ratchet.Limits.{decrypt-Limited, decrypt_within, Limited}
use cypher.Crypto.Ratchet.Replay.{decrypt_after_again}
use cypher.Tests.Toy.{toy, toy-IsDh, toy-IsAead}

abbrev key_a : Bytes
key_a = 3 ∷ 5 ∷ []

abbrev key_b : Bytes
key_b = 8 ∷ []

x3dh_initiator-x3dh_responder_example :
    x3dh_initiator toy (record { dh_secret = key_a }) (record { secret = 1 ∷ [] }) key_b (2 ∷ [])
    ≡ x3dh_responder toy (record { dh_secret = key_b }) (record { secret = 2 ∷ [] }) key_a (1 ∷ [])
x3dh_initiator-x3dh_responder_example =
    x3dh_initiator-x3dh_responder toy toy-IsDh (record { dh_secret = key_a })
      (record { dh_secret = key_b }) (record { secret = 1 ∷ [] }) (record { secret = 2 ∷ [] })

x3dh_mutual_symm_example :
    x3dh_mutual toy (record { dh_secret = key_a }) (1 ∷ []) key_b (2 ∷ [])
    ≡ x3dh_mutual toy (record { dh_secret = key_b }) (2 ∷ []) key_a (1 ∷ [])
x3dh_mutual_symm_example =
    x3dh_mutual_symm toy toy-IsDh (record { dh_secret = key_a }) (record { dh_secret = key_b })
      (1 ∷ []) (2 ∷ [])

-- A sender at the start of its chain, and a receiver that has counted `n` messages of it.
abbrev alice : RatchetState
alice = record {
  root_key = 9 ∷ [];
  send_chain_key = some key_a;
  recv_chain_key = none;
  send_ratchet_secret = 7 ∷ [];
  send_ratchet_key = 7 ∷ [];
  recv_ratchet_key = none;
  send_count = 0;
  recv_count = 0;
  prev_send_count = 0;
  skipped_keys = [];
}

abbrev bob : ℕ → RatchetState
bob n = record {
  root_key = 9 ∷ [];
  send_chain_key = none;
  recv_chain_key = some (chain toy key_a n);
  send_ratchet_secret = 4 ∷ [];
  send_ratchet_key = 4 ∷ [];
  recv_ratchet_key = some (7 ∷ []);
  send_count = 0;
  recv_count = n;
  prev_send_count = 0;
  skipped_keys = [];
}

abbrev messages : List Bytes
messages = (1 ∷ 2 ∷ []) ∷ (6 ∷ []) ∷ []

abbrev packets : List Packet
packets = (1 ∷ 2 ∷ replicate 16 0, 7 ∷ [], 0) ∷ (6 ∷ replicate 16 0, 7 ∷ [], 1) ∷ []

messages_sent : send_all toy alice messages ≡ ok packets
unfolding send_all encrypt encrypt_with kdf_chain aead_encrypt derive_nonce
messages_sent = refl

-- The second packet comes first.
deliver-send_all_example :
    deliver toy [] (bob 0) (map (λ i. get_or packets i ([], [], 0)) (1 ∷ 0 ∷ []))
    ≡ map (λ i. ok (get_or messages i [])) (1 ∷ 0 ∷ [])
deliver-send_all_example =
    deliver-send_all toy toy-IsAead alice (bob 0) key_a [] messages packets (1 ∷ 0 ∷ []) refl refl
      (unfold chain in refl) refl refl refl (omega arith) messages_sent
      (refl, (unfold mark in refl, tt)) (omega arith, (omega arith, tt))

-- Three turns.
abbrev rounds : List (Bytes × Bytes)
rounds = (1 ∷ [], 11 ∷ []) ∷ ([], 12 ∷ []) ∷ (5 ∷ 6 ∷ [], 13 ∷ []) ∷ []

converse-init_example :
    converse toy (init_sender toy key_a key_b (10 ∷ [])) (init_receiver toy key_a key_b) rounds
    ≡ ok (map (λ r. r.0) rounds)
converse-init_example =
    converse-init toy toy-IsAead toy-IsDh key_a key_b (10 ∷ []) rounds
      (unfold bytes_eq in (refl, (refl, (refl, tt))))
      (omega arith, (omega arith, (omega arith, tt)))

decrypt-Limited_example : Limited (decrypt toy (bob 0) (6 ∷ []) (7 ∷ []) 1 []).1
decrypt-Limited_example = decrypt-Limited toy (bob 0) (6 ∷ []) (7 ∷ []) 1 [] (omega arith)

decrypted : (decrypt toy (bob 0) (6 ∷ []) (7 ∷ []) 2 []).0 ≡ ok []
unfolding decrypt lookup need_dh_ratchet bytes_eq skip_messages skip_chain skip_loop after_skip
    receive_next aead_decrypt kdf_chain
decrypted = refl

decrypt_within_example :
    let counter : ℕ = if need_dh_ratchet (bob 0) (7 ∷ []) then 0 else 0 in
    (2 - counter ≤ max_skip) × (0 + (2 - counter) ≤ max_total_skipped)
decrypt_within_example =
    decrypt_within toy (6 ∷ []) (7 ∷ []) 2 (bob 0) [] (unfold lookup in refl) decrypted

-- Two messages were received; the first packet comes again, and then the third.
decrypt_after_again_example :
    (decrypt toy (decrypt toy (bob 2) (6 ∷ []) (7 ∷ []) 0 []).1 (5 ∷ []) (7 ∷ []) 2 []).0
    ≡ aead_decrypt toy
        (key_at toy key_a 4)
        (nonce_material (key_at toy key_a 4) 2)
        (5 ∷ [])
        (7 ∷ [])
decrypt_after_again_example =
    decrypt_after_again toy key_a (7 ∷ []) (6 ∷ []) (5 ∷ []) [] (bob 2) 0 refl refl
      (unfold lookup in refl) (unfold lookup in refl) (omega arith) (omega arith) (omega arith)
      (omega arith)
