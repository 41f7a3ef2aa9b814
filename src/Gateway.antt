-- ===== src/Gateway.antt =====
-- services/gateway/src/main.rs: the server that holds the clients' connections and routes their frames.
pub mod State
pub mod Routing
pub mod Session
pub mod Registry
pub mod Invariant
pub mod Runs
pub mod Delivery
pub mod Removal
pub mod Hex
pub mod Conversation
