-- ===== src/Signaling/State.antt =====
-- services/signaling: the keys in Redis, one map for each kind of key, the metrics, and what was
-- published. Texts are their ASCII codes; the values that pass through JSON are kept as they are.
use cypher.Prelude.{ℕ, Bool, true, false, Option, List, ◌∷◌, if◌then◌else◌}
use cypher.Prelude.Bytes.{Bytes}

pub record GatewayEnvelope : Type 0 where
  pub session_id : ℕ
  pub payload : Bytes

pub record PeerSession : Type 0 where
  pub gateway_node : Bytes
  pub session_id : ℕ

pub record PrekeyBundle : Type 0 where
  pub identity_key : Bytes
  pub signed_prekey : Bytes
  pub inbox_id : Option Bytes

-- What is sent to a session: a payload, or a JSON object by its fields.
pub data Reply : Type 0 where
  raw : Bytes → Reply
  peer_found : (peer_id : Bytes) → (session : Option PeerSession) → Reply
  peer_joined : (peer_id : Bytes) → Reply
  link_missing : Reply
  prekeys_found : PrekeyBundle → Reply
  prekeys_missing : Reply
  link_made : (link_id : Bytes) → Reply

-- Where a reply goes: `gateway.session.{id}`, or the reply subject of a request.
pub data Subject : Type 0 where
  session : ℕ → Subject
  request : Bytes → Subject

-- A claim: the inbox and the messages taken from it.
pub record Claim : Type 0 where
  pub inbox_id : Bytes
  pub messages : List Bytes

pub record Service : Type 0 where
  pub sessions : List (Bytes × PeerSession)  -- peer:{peer_id}:session
  pub reverse : List (ℕ × Bytes)  -- session:{session_id}:peer
  pub prekeys : List (Bytes × PrekeyBundle)  -- peer:{peer_id}:prekeys
  pub links : List (Bytes × Bytes)  -- link:{link_id}
  pub ice : List ((Bytes × Bytes) × List Bytes)  -- ice:{source}:{target}
  pub inboxes : List (Bytes × List Bytes)  -- inbox:{inbox_id}
  pub claims : List (Bytes × Claim)  -- inbox:claim:{token}
  pub claim_index : List (Bytes × ℕ)  -- inbox:claims
  pub peer_sessions : ℕ
  pub links_created : ℕ
  pub published : List (Subject × Reply)

-- `nats.publish(...)`, on the subjects that NATS takes a message for: whether it succeeded.
unfoldable pub publish : (Subject → Bool) → Subject → Reply → Service → Bool × Service
publish nats subject reply s =
    if nats subject
    then (true, record s { published = (subject, reply) ∷ s.published })
    else (false, s)

-- `?` after a call: what it has done stays done.
abbrev pub and_then : Bool × Service → (Service → Bool × Service) → Bool × Service
and_then (true, s) next = next s
and_then (false, s) next = (false, s)
