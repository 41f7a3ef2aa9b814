-- ===== src/Gateway/State.antt =====
-- services/gateway/src/main.rs: the shared state, and how connections come and go. The methods that
-- take `&self` take the gateway and return the new one. A JSON object is the fields put into it.
use cypher.Prelude.{
  ℕ, ◌+◌, ◌-◌, ◌*◌, ◌/◌, ◌%◌, ◌^◌, Bool, true, false, String, none, some, List, [], ◌∷◌, ltb, ◌==◌,
  if◌then◌else◌,
}
use cypher.Prelude.Bytes.{Bytes}
use cypher.Prelude.Lists.{length}
use cypher.Prelude.Assoc.{lookup, insert, remove, nat_eq, bytes_Eq}
use cypher.Transport.Frame.{FrameFlags, ping}

-- `addr` is only logged; `writer` is the session id under which the frames sent to it are kept.
pub record ConnectionState : Type 0 where
  pub session_id : ℕ
  pub peer_id : Bytes
  pub last_activity : ℕ

pub data Envelope : Type 0 where
  of_session : (session_id : ℕ) → Envelope
  of_peer : (session_id : ℕ) → (peer_id : Bytes) → Envelope
  of_payload : (session_id : ℕ) → (payload : Bytes) → Envelope

-- A frame put into the channel of a session.
pub record Outbound : Type 0 where
  pub session_id : ℕ
  pub payload : Bytes
  pub flags : FrameFlags

-- The maps, the counter, the metrics, and what was sent and published so far, the last one first.
pub record Gateway : Type 0 where
  pub connections : List (ℕ × ConnectionState)
  pub peers : List (Bytes × ℕ)
  pub next_session_id : ℕ
  pub active_connections : ℕ
  pub messages_routed : ℕ
  pub bytes_relayed : ℕ
  pub sent : List Outbound
  pub published : List (String × Envelope)

-- What a turn finds outside: the clock, which sessions still take a frame from their channel, which
-- have room at once, and the subjects that NATS takes a message for.
pub record Outside : Type 0 where
  pub now : ℕ
  pub writer_open : ℕ → Bool
  pub writer_room : ℕ → Bool
  pub nats : String → Bool

unfoldable pub new : Gateway
new = record {
  connections = [];
  peers = [];
  next_session_id = 1;
  active_connections = 0;
  messages_routed = 0;
  bytes_relayed = 0;
  sent = [];
  published = [];
}

-- `fetch_add` on an `AtomicU64`.
unfoldable pub allocate_session_id : Gateway → ℕ × Gateway
allocate_session_id g =
    (g.next_session_id, record g { next_session_id = (g.next_session_id + 1) % 2 ^ 64 })

-- How both kinds of session begin.
unfoldable pub open_session : (now : ℕ) → Gateway → ℕ × Gateway
open_session now g =
    let (session_id, g') = allocate_session_id g in
    (
      session_id,
      record g' {
        active_connections = g'.active_connections + 1;
        connections =
            insert session_id
              (record { session_id = session_id; peer_id = []; last_activity = now })
              g'.connections;
      },
    )

-- `writer.send(...)`, whose error is ignored.
unfoldable pub enqueue : Outside → ℕ → Bytes → FrameFlags → Gateway → Gateway
enqueue o session_id payload flags g =
    if o.writer_open session_id
    then record g {
      sent = record { session_id = session_id; payload = payload; flags = flags } ∷ g.sent;
    }
    else g

-- `nats.publish(...)`: whether it succeeded.
unfoldable pub publish : Outside → String → Envelope → Gateway → Bool × Gateway
publish o subject envelope g =
    if o.nats subject
    then (true, record g { published = (subject, envelope) ∷ g.published })
    else (false, g)

unfoldable pub remove_if_session : Bytes → ℕ → List (Bytes × ℕ) → List (Bytes × ℕ)
remove_if_session peer_id session_id peers = elim (lookup peer_id peers) [
  | none ↦ peers
  | some sid ↦ if sid == session_id then remove peer_id peers else peers
]

-- The failure of the last call is only logged.
unfoldable pub forget_peer : Outside → ℕ → Bytes → Gateway → Gateway
forget_peer o session_id peer_id g =
    if length peer_id == 0
    then g
    else (publish o "signaling.session.deregister" (of_session session_id)
        (record g { peers = remove_if_session peer_id session_id g.peers })).1

unfoldable pub remove_connection : Outside → ℕ → Gateway → Gateway
remove_connection o session_id g = elim (lookup session_id g.connections) [
  | none ↦ g
  | some conn ↦ forget_peer o session_id conn.peer_id (record g {
    connections = remove session_id g.connections;
    active_connections = g.active_connections - 1;
  })
]

-- Seconds, as in crates/cypher-common/src/types.rs.
abbrev pub heartbeat_interval_secs : ℕ
heartbeat_interval_secs = 30

abbrev pub max_missed_heartbeats : ℕ
max_missed_heartbeats = 3

-- `Duration::from_secs(HEARTBEAT_INTERVAL_SECS)` in nanoseconds, as the times of the clock are.
abbrev pub heartbeat_interval : ℕ
heartbeat_interval = heartbeat_interval_secs * 1_000_000_000

abbrev pub heartbeat_timeout : ℕ
heartbeat_timeout = heartbeat_interval * max_missed_heartbeats

-- `try_send`, which drops the frame when there is no room.
unfoldable pub probe : Outside → ℕ → Gateway → Gateway
probe o session_id g =
    if o.writer_room session_id
    then record g { sent = record { session_id = session_id; payload = []; flags = ping } ∷ g.sent }
    else g

-- The pass over the connections: the stale ones, and the gateway after the probes.
unfoldable pub scan : Outside → List (ℕ × ConnectionState) → Gateway → List ℕ × Gateway
scan o [] g = ([], g)
scan o ((_, conn) ∷ rest) g =
    let elapsed = o.now - conn.last_activity in
    let is_stale = ltb heartbeat_timeout elapsed in
    let is_idle = ltb heartbeat_interval elapsed in
    let after = if is_stale then g else if is_idle then probe o conn.session_id g else g in
    let (stale, probed) = scan o rest after in
    (if is_stale then conn.session_id ∷ stale else stale, probed)

unfoldable pub remove_all : Outside → List ℕ → Gateway → Gateway
remove_all o [] g = g
remove_all o (session_id ∷ rest) g = remove_all o rest (remove_connection o session_id g)

-- One round of `heartbeat_task`.
unfoldable pub heartbeat : Outside → Gateway → Gateway
heartbeat o g = let (stale, probed) = scan o g.connections g in remove_all o stale probed

-- The digits of `{:02x}`.
unfoldable pub hex_digit : ℕ → ℕ
hex_digit d = if ltb d 10 then 48 + d else 87 + d

-- The text as its ASCII codes.
unfoldable pub hex_encode : Bytes → Bytes
hex_encode [] = []
hex_encode (b ∷ data') = hex_digit (b / 16) ∷ hex_digit (b % 16) ∷ hex_encode data'
