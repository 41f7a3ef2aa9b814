-- ===== src/Crypto/Primitives.antt =====
-- The cryptographic libraries that the workspace calls (hkdf, sha2, hmac, x25519-dalek, aes-gcm), as a
-- parameter, and what their documentation promises.
use cypher.Prelude.{ℕ, ◌+◌, ◌^◌, ◌≤◌, ◌≡◌, Option, some, length}
use cypher.Prelude.Bytes.{Bytes}

pub record Primitives : Type 0 where
  -- `Hkdf::<Sha256>::new(Some(salt), ikm).expand(info, &mut [0; len])`
  pub hkdf : (salt ikm info : Bytes) → (len : ℕ) → Bytes
  -- HMAC-SHA256 of a message under a key
  pub hmac : (key message : Bytes) → Bytes
  -- `X25519PublicKey::from(&secret)`
  pub public_key : Bytes → Bytes
  -- `secret.diffie_hellman(&public)`
  pub diffie_hellman : (secret public : Bytes) → Bytes
  -- `Aes256Gcm::new(key).encrypt(nonce, Payload { msg, aad })`; `none` is the library's error
  pub aes_gcm_encrypt : (key nonce msg aad : Bytes) → Option Bytes
  pub aes_gcm_decrypt : (key nonce msg aad : Bytes) → Option Bytes

-- X25519 is commutative: both sides of an exchange compute one secret.
pub record IsDh (p : Primitives) : Type 0 where
  pub dh_comm :
      (a b : Bytes) → p.diffie_hellman a (p.public_key b) ≡ p.diffie_hellman b (p.public_key a)

-- AES-GCM seals every message of at most 2 ^ 36 bytes (the `P_MAX` of the crate), and opens what it
-- sealed under the same key, nonce and associated data; the tag adds 16 bytes.
pub record IsAead (p : Primitives) : Type 0 where
  pub seals :
      (key nonce msg aad : Bytes)
      → length msg ≤ 2 ^ 36
      → (c : Bytes) × (p.aes_gcm_encrypt key nonce msg aad ≡ some c)
  pub opens :
      (key nonce msg aad : Bytes) {c : Bytes}
      → p.aes_gcm_encrypt key nonce msg aad ≡ some c
      → p.aes_gcm_decrypt key nonce c aad ≡ some msg
  pub length-sealed :
      (key nonce msg aad : Bytes) {c : Bytes}
      → p.aes_gcm_encrypt key nonce msg aad ≡ some c
      → length c ≡ length msg + 16

-- HMAC-SHA256 has 32 bytes.
pub record IsHmac (p : Primitives) : Type 0 where
  pub length-hmac : (key message : Bytes) → length (p.hmac key message) ≡ 32
