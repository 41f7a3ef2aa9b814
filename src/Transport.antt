-- ===== src/Transport.antt =====
-- crates/cypher-transport: frames, their codec and the session over it.
pub mod Frame
pub mod Codec
pub mod Session
