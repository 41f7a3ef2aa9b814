-- ===== src/Client.antt =====
-- crates/cypher-client-core: what a client does with the services' answers.
pub mod Inbox
pub mod FetchReply
pub mod Signaling
pub mod Answers
pub mod Links
