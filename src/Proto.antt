-- ===== src/Proto.antt =====
-- crates/cypher-proto/src/lib.rs: the messages' variable-length fields.
pub mod Fields
