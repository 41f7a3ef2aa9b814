-- ===== src/Crypto.antt =====
-- crates/cypher-crypto: authenticated encryption, X3DH and the Double Ratchet.
pub mod Primitives
pub mod Aead
pub mod X3dh
pub mod Ratchet
