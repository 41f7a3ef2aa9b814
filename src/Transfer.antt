-- ===== src/Transfer.antt =====
-- crates/cypher-transfer: files in chunks.
pub mod Sender
pub mod Chunker
pub mod Assembler
pub mod Bytewise
pub mod Counting
pub mod Assembly
pub mod Delivery
pub mod Selective
