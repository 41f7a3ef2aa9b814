-- ===== src/Onion.antt =====
-- crates/cypher-client-core/src/onion: the client's side of the onion transport.
pub mod Padding
pub mod Circuit
pub mod Encoder
pub mod Decoder
pub mod Wire
pub mod RoundTrip
