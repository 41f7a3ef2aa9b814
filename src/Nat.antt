-- ===== src/Nat.antt =====
-- crates/cypher-nat: direct connections between peers.
pub mod Dtls
pub mod Stun
