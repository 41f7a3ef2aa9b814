-- ===== src/Crypto/Ratchet.antt =====
-- crates/cypher-crypto/src/ratchet.rs: the Double Ratchet. A method returns its result and the new
-- state. A u32 counter wraps at 2 ^ 32, as the release profile compiles it; the secret that the
-- random generator gives to a new key pair is an argument.
pub mod Chain
pub mod Receive
pub mod Sending
pub mod OutOfOrder
pub mod Conversation
pub mod PingPong
pub mod Limits
pub mod Replay
use cypher.Prelude.{
  ℕ, zero, suc, ◌+◌, ◌-◌, ◌%◌, ◌^◌, Bool, true, not, Option, none, some, List, [], ◌∷◌, ◌++◌, Error,
  crypto, Result, ok, err, ltb, if◌then◌else◌, length,
}
use cypher.Prelude.Bytes.{Bytes, bytes_eq, ascii, to_be}
use cypher.Prelude.Assoc.{lookup, insert, remove, nat_eq, bytes_Eq, pair_Eq}
use cypher.Crypto.Primitives.{Primitives}
use cypher.Crypto.Aead.{aead_encrypt, aead_decrypt}

-- (ratchet public key, message number)
abbrev pub SkippedKey : Type 0
SkippedKey = Bytes × ℕ

abbrev pub max_skip : ℕ
max_skip = 256

abbrev pub max_total_skipped : ℕ
max_total_skipped = 2048

pub record RatchetState : Type 0 where
  pub root_key : Bytes
  pub send_chain_key : Option Bytes
  pub recv_chain_key : Option Bytes
  pub send_ratchet_secret : Bytes
  pub send_ratchet_key : Bytes
  pub recv_ratchet_key : Option Bytes
  pub send_count : ℕ
  pub recv_count : ℕ
  pub prev_send_count : ℕ
  pub skipped_keys : List (SkippedKey × Bytes)

-- `message_key || msg_no.to_be_bytes()`
abbrev pub nonce_material : Bytes → ℕ → Bytes
nonce_material message_key msg_no = message_key ++ to_be 4 msg_no

unfoldable pub need_dh_ratchet : RatchetState → Bytes → Bool
need_dh_ratchet s ratchet_pubkey = elim s.recv_ratchet_key [
  | none ↦ true
  | some existing ↦ not (bytes_eq existing ratchet_pubkey)
]

module _ (p : Primitives) where
  unfoldable pub kdf_chain : Bytes → Bytes × Bytes
  kdf_chain chain_key = (
    p.hkdf chain_key (0x01 ∷ []) (ascii "chain-key") 32,
    p.hkdf chain_key (0x02 ∷ []) (ascii "message-key") 32,
  )

  unfoldable pub dh_ratchet : (root_key dh_output : Bytes) → Bytes × Bytes
  dh_ratchet root_key dh_output = (
    p.hkdf root_key dh_output (ascii "dh-ratchet-root") 32,
    p.hkdf root_key dh_output (ascii "dh-ratchet-chain") 32,
  )

  unfoldable pub init_sender : (shared_secret peer_ratchet_pubkey fresh : Bytes) → RatchetState
  init_sender shared_secret peer_ratchet_pubkey fresh =
      let (root, chain) = dh_ratchet shared_secret (p.diffie_hellman fresh peer_ratchet_pubkey) in
      record {
        root_key = root;
        send_chain_key = some chain;
        recv_chain_key = none;
        send_ratchet_secret = fresh;
        send_ratchet_key = p.public_key fresh;
        recv_ratchet_key = some peer_ratchet_pubkey;
        send_count = 0;
        recv_count = 0;
        prev_send_count = 0;
        skipped_keys = [];
      }

  unfoldable pub init_receiver : (shared_secret our_ratchet_secret : Bytes) → RatchetState
  init_receiver shared_secret our_ratchet_secret = record {
    root_key = shared_secret;
    send_chain_key = none;
    recv_chain_key = none;
    send_ratchet_secret = our_ratchet_secret;
    send_ratchet_key = p.public_key our_ratchet_secret;
    recv_ratchet_key = none;
    send_count = 0;
    recv_count = 0;
    prev_send_count = 0;
    skipped_keys = [];
  }

  -- `encrypt` below its check, with the sending chain key at hand.
  unfoldable pub encrypt_with :
      Bytes → RatchetState → Bytes → Result Error (Bytes × Bytes × ℕ) × RatchetState
  encrypt_with send_chain_key s plaintext =
      let (new_chain_key, message_key) = kdf_chain send_chain_key in
      let msg_no = s.send_count in
      let s' = record s {
        send_chain_key = some new_chain_key;
        send_count = (s.send_count + 1) % 2 ^ 32;
      } in
      (
        elim (aead_encrypt p message_key (nonce_material message_key msg_no) plaintext
            s.send_ratchet_key) [
              | ok ciphertext ↦ ok (ciphertext, s.send_ratchet_key, msg_no)
              | err e ↦ err e
            ],
        s',
      )

  unfoldable pub encrypt : RatchetState → Bytes → Result Error (Bytes × Bytes × ℕ) × RatchetState
  encrypt s plaintext = elim s.send_chain_key [
    | none ↦ (err (crypto "send_chain_key must be initialized before encrypting"), s)
    | some send_chain_key ↦ encrypt_with send_chain_key s plaintext
  ]

  -- The loop of `skip_messages`: `rounds` message numbers from `i` on.
  unfoldable pub skip_loop :
      Bytes → (rounds i : ℕ) → Bytes → List (SkippedKey × Bytes) → Bytes × List (SkippedKey × Bytes)
  skip_loop ratchet_key zero i chain_key skipped = (chain_key, skipped)
  skip_loop ratchet_key (suc rounds) i chain_key skipped =
      let (new_chain_key, message_key) = kdf_chain chain_key in
      skip_loop ratchet_key rounds (suc i) new_chain_key
        (insert (ratchet_key, i) message_key skipped)

  -- The body of the `if let` in `skip_messages`.
  unfoldable pub skip_chain :
      (recv_chain_key recv_ratchet_key : Bytes)
      → RatchetState
      → ℕ
      → Result Error (Unit {0}) × RatchetState
  skip_chain recv_chain_key recv_ratchet_key s until =
      let to_skip = until - s.recv_count in
      if ltb max_skip to_skip
      then (err (crypto "Too many skipped messages"), s)
      else if ltb max_total_skipped (length s.skipped_keys + to_skip)
      then (err (crypto "Global skipped key limit reached"), s)
      else let (chain_key, skipped) =
          skip_loop recv_ratchet_key to_skip s.recv_count recv_chain_key s.skipped_keys in
        (
          ok tt,
          record s { recv_chain_key = some chain_key; recv_count = until; skipped_keys = skipped },
        )

  unfoldable pub skip_messages : RatchetState → ℕ → Result Error (Unit {0}) × RatchetState
  skip_messages s until = elim s.recv_chain_key [
    | none ↦ (ok tt, s)
    | some recv_chain_key ↦ elim s.recv_ratchet_key [
      | none ↦ (ok tt, s)
      | some recv_ratchet_key ↦ skip_chain recv_chain_key recv_ratchet_key s until
    ]
  ]

  -- The DH ratchet step of `decrypt`.
  unfoldable pub dh_step : RatchetState → (ratchet_pubkey fresh : Bytes) → RatchetState
  dh_step s ratchet_pubkey fresh =
      let (root, recv_chain) =
        dh_ratchet s.root_key (p.diffie_hellman s.send_ratchet_secret ratchet_pubkey) in
      let (root', send_chain) = dh_ratchet root (p.diffie_hellman fresh ratchet_pubkey) in
      record s {
        prev_send_count = s.send_count;
        send_count = 0;
        recv_count = 0;
        recv_ratchet_key = some ratchet_pubkey;
        recv_chain_key = some recv_chain;
        send_ratchet_secret = fresh;
        send_ratchet_key = p.public_key fresh;
        root_key = root';
        send_chain_key = some send_chain;
      }

  -- The KDF chain step at the end of `decrypt`.
  unfoldable pub receive_next :
      RatchetState → (ciphertext ratchet_pubkey : Bytes) → ℕ → Result Error Bytes × RatchetState
  receive_next s ciphertext ratchet_pubkey msg_no = elim s.recv_chain_key [
    | none ↦ (err (crypto "recv_chain_key not initialized"), s)
    | some recv_chain_key ↦
        let (new_chain_key, message_key) = kdf_chain recv_chain_key in
        (
          aead_decrypt p message_key (nonce_material message_key msg_no) ciphertext ratchet_pubkey,
          record s {
            recv_chain_key = some new_chain_key;
            recv_count = (s.recv_count + 1) % 2 ^ 32;
          },
        )
  ]

  -- `?` after `skip_messages`: an error leaves the state as it is at that point.
  unfoldable pub after_skip :
      Result Error (Unit {0}) × RatchetState
      → (ciphertext ratchet_pubkey : Bytes) → ℕ
      → Result Error Bytes × RatchetState
  after_skip (err e, s) ciphertext ratchet_pubkey msg_no = (err e, s)
  after_skip (ok _, s) ciphertext ratchet_pubkey msg_no =
      receive_next s ciphertext ratchet_pubkey msg_no

  unfoldable pub decrypt :
      RatchetState
      → (ciphertext ratchet_pubkey : Bytes) → ℕ
      → (fresh : Bytes) → Result Error Bytes × RatchetState
  decrypt s ciphertext ratchet_pubkey msg_no fresh =
      elim (lookup (ratchet_pubkey, msg_no) s.skipped_keys) [
        | some message_key ↦ (
          aead_decrypt p message_key (nonce_material message_key msg_no) ciphertext ratchet_pubkey,
          record s { skipped_keys = remove (ratchet_pubkey, msg_no) s.skipped_keys },
        )
        | none ↦
            let s' =
              if need_dh_ratchet s ratchet_pubkey then dh_step s ratchet_pubkey fresh else s in
            after_skip (skip_messages s' msg_no) ciphertext ratchet_pubkey msg_no
      ]
