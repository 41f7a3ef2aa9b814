-- ===== src/Tests.antt =====
-- Concrete runs of the theorems, and the instances they run on.
pub mod Toy
pub mod Relay
pub mod Signaling
pub mod Links
pub mod Gateway
pub mod Crypto
pub mod Transport
pub mod Onion
pub mod Nat
pub mod Stun
pub mod Transfer
pub mod Handshake
pub mod Proto
