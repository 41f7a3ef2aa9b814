-- ===== src/Crypto/Aead.antt =====
-- crates/cypher-crypto/src/aead.rs.
use cypher.Prelude.{
  ◌+◌, ◌^◌, ◌≤◌, length, ◌≡◌, Option, none, some, Error, crypto, Result, ok, ok_or,
}
use cypher.Prelude.Bytes.{Bytes, ascii}
use cypher.Crypto.Primitives.{Primitives, IsAead}

module _ (p : Primitives) where
  unfoldable pub derive_nonce : Bytes → Bytes
  derive_nonce nonce_material =
      p.hkdf (ascii "cypher-aead-nonce") nonce_material (ascii "aes-gcm-nonce") 12

  unfoldable pub aead_encrypt : (key nonce_material plaintext aad : Bytes) → Result Error Bytes
  aead_encrypt key nonce_material plaintext aad =
      ok_or (p.aes_gcm_encrypt key (derive_nonce nonce_material) plaintext aad)
        (crypto "AES-GCM encryption failed")

  unfoldable pub aead_decrypt : (key nonce_material ciphertext aad : Bytes) → Result Error Bytes
  aead_decrypt key nonce_material ciphertext aad =
      ok_or (p.aes_gcm_decrypt key (derive_nonce nonce_material) ciphertext aad)
        (crypto "AES-GCM decryption failed")

  sealed :
      (r : Option Bytes) {c : Bytes}
      → ok_or r (crypto "AES-GCM encryption failed") ≡ ok c
      → r ≡ some c
  sealed none e = cc
  sealed (some d) e = cc

  pub length-aead_encrypt :
      IsAead p
      → (key nonce_material plaintext aad : Bytes) {c : Bytes}
      → aead_encrypt key nonce_material plaintext aad ≡ ok c
      → length c ≡ length plaintext + 16
  unfolding aead_encrypt
  length-aead_encrypt laws key nm m aad h =
      laws.length-sealed key (derive_nonce nm) m aad
        (sealed (p.aes_gcm_encrypt key (derive_nonce nm) m aad) h)

  -- What was encrypted under a key, nonce material and associated data is decrypted under the same.
  pub aead_decrypt-aead_encrypt :
      IsAead p
      → (key nonce_material plaintext aad : Bytes) {c : Bytes}
      → aead_encrypt key nonce_material plaintext aad ≡ ok c
      → aead_decrypt key nonce_material c aad ≡ ok plaintext
  unfolding aead_encrypt aead_decrypt
  aead_decrypt-aead_encrypt laws key nm m aad {c} h =
      let nonce = derive_nonce nm in
      rw (laws.opens key nonce m aad (sealed (p.aes_gcm_encrypt key nonce m aad) h))

  pub aead_encrypt_total :
      IsAead p
      → (key nonce_material plaintext aad : Bytes) → length plaintext ≤ 2 ^ 36
      → (c : Bytes) × (aead_encrypt key nonce_material plaintext aad ≡ ok c)
  unfolding aead_encrypt
  aead_encrypt_total laws key nm m aad h =
      let (c, e) = laws.seals key (derive_nonce nm) m aad h in (c, rw e)
