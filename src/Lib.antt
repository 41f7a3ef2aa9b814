-- ===== src/Lib.antt =====
-- Cypher: the verified core of an end-to-end encrypted messenger.
--
-- Two peers agree on a secret by X3DH (crates/cypher-crypto/src/x3dh.rs) and talk through a Double
-- Ratchet (ratchet.rs) over AES-GCM (aead.rs). Their messages travel in length-prefixed frames
-- (crates/cypher-transport/src/codec.rs), numbered by a session (session.rs), to the services, or in
-- authenticated datagrams (crates/cypher-nat/src/dtls.rs) from peer to peer. The gateway
-- (services/gateway/src/main.rs) holds the clients' sessions and gives a frame to a session of its own
-- or publishes it; signaling (services/signaling/src) keeps who is online and the inboxes of those who
-- are not; the relay (services/relay/src/main.rs) joins two clients that cannot reach each other. To
-- fetch its inbox a client wraps requests in a one-hop onion (crates/cypher-client-core/src/onion),
-- which the relay (services/relay/src/onion.rs) opens, forwards to signaling and answers. Files go in
-- chunks (crates/cypher-transfer/src).
--
-- Files and the code they model:
--   Prelude      what all parts share: results and the error enum of crates/cypher-common/src/error.rs,
--                lists, little- and big-endian numbers, maps as association lists (Assoc, Maps), bits of
--                words
--   Transport    frame.rs (Frame), codec.rs (Codec): decode and encode return their result and the
--                buffer that they leave; session.rs (Session): the codec on two buffers
--   Crypto       the libraries as a parameter (Primitives), aead.rs (Aead), x3dh.rs (X3dh), ratchet.rs
--                (Ratchet): a method of RatchetState returns its result and the new state
--   Onion        padding.rs, circuit.rs, encoder.rs, decoder.rs, one file each; layout lemmas in Wire
--   Relay        services/relay/src/onion.rs (Circuits): process_onion_request on the circuit cache, and
--                the loop of a connection on the turns that it meets; services/relay/src/main.rs
--                (Pairing): who meets under a key, and the two loops that forward for both sides, round by
--                round in any order, on one count
--   Nat          dtls.rs (Dtls): sessions as records, a socket as the events that it gives; stun.rs of
--                the client and services/signaling/src/stun.rs of the server (Stun)
--   Proto        crates/cypher-proto/src/lib.rs (Fields): the length-prefixed fields of the messages
--   Transfer     crates/cypher-transfer/src: the two runs of sender.rs (Sender, Selective), the acks as
--                a list, chunks sent by a parameter; chunker.rs (Chunker); assembler.rs and receiver.rs
--                (Assembler), a file as its bytes
--   Gateway      services/gateway/src/main.rs: the maps, the removal and the heartbeat (State), where a
--                frame goes (Routing), the read loop of a session (Session); two sessions that write to
--                each other in Conversation
--   Signaling    services/signaling/src: the keys in Redis (State), the handlers of peer.rs and
--                delivery.rs (Peers), inbox.rs (Inbox), signing.rs (Signing), the hex texts of main.rs
--                (Hex); a Lua script is one function on the keys
--   Client       crates/cypher-client-core/src: the signed reply to a fetch, onion/bootstrap.rs, and the
--                messages in it, api/runtime.rs (Inbox); the answers on share links, signaling.rs
--                (Signaling, Answers), from the peer that makes a link to the one that follows it
--                (Links)
--   Tests        the theorems at concrete inputs, on a transparent instance of the primitives (Toy)
--
-- Numbers are natural numbers; the counters that the code keeps in a u32, a u64 or an AtomicU64 wrap,
-- `% 2 ^ 32` or `% 2 ^ 64`, as the release profile compiles it. The metrics, which belong to a
-- library, are numbers without a bound. Times of a monotonic clock are nanoseconds, times of day are
-- seconds. Byte buffers are lists of numbers; where a theorem needs them below 256 it says so. The
-- loops go by recursion on what they consume: the bytes or events of a list, or the rounds to skip,
-- which the limit of 256 bounds. Some loops run on fuel: the STUN attribute loop, with a round for
-- each four bytes and one more, and no result when they are used up; the messages of an inbox and the
-- indices of a state file, as many rounds as there are bytes, where a round takes at least four; and
-- the loops that fill a transfer's window, as many rounds as there are chunks, where a round sends
-- one.
--
-- The services' state is passed along. A handler of the gateway or of signaling is one step: what it
-- sends, publishes and changes happens at once, and the steps of different sessions come in any order.
-- Frames sent and messages published are kept in lists, the latest first. A JSON object that the services
-- send is the fields that its reader looks for.
--
-- Parameters: HKDF, HMAC, X25519 and AES-GCM are a record of functions (Crypto/Primitives). Theorems
-- that need them assume that X25519 is commutative, that AES-GCM opens what it sealed and adds a tag of
-- 16 bytes, or that HMAC-SHA256 has 32 bytes. Random keys and link ids are arguments, and so are the
-- clock, SHA-256, the rate limiter's answer, and which messages NATS takes. The generated parser and
-- serializers of the messages, Ed25519 and JSON are records of functions (Relay/Circuits,
-- Gateway/Routing, Signaling/Peers, Client/Inbox); a theorem on both sides assumes that the parser reads
-- what the serializer wrote and that a signature of the server verifies under its key.
--
-- Not modelled: confidentiality (the laws of the primitives say nothing on what an adversary learns),
-- sockets, timers and tasks, failures of Redis and the expiry of its keys, failures of files,
-- serialization by postcard, TLS, databases, the user interfaces, the delays of the bandwidth limit, and
-- for now the rest of the client's runtime.
pub mod Prelude
pub mod Transport
pub mod Crypto
pub mod Onion
pub mod Relay
pub mod Nat
pub mod Transfer
pub mod Gateway
pub mod Signaling
pub mod Client
pub mod Proto
pub mod Tests
