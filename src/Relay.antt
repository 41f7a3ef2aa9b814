-- ===== src/Relay.antt =====
-- services/relay: the server that carries the traffic of clients that cannot reach each other.
pub mod Circuits
pub mod Pairing
