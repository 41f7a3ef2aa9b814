-- ===== src/Signaling.antt =====
-- services/signaling: who is online, and the inboxes of those who are not.
pub mod State
pub mod Hex
pub mod Peers
pub mod Signing
pub mod Inbox
pub mod Claims
pub mod Sessions
pub mod Reports
pub mod History
pub mod Bounds
pub mod Meanwhile
pub mod Recovery
