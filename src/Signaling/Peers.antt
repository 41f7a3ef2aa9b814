-- ===== src/Signaling/Peers.antt =====
-- services/signaling/src/peer.rs and delivery.rs: sessions, links, prekeys and forwarding. A handler
-- takes the message after its JSON envelope was read.
use cypher.Prelude.{
  ℕ, ◌+◌, ◌-◌, Bool, true, false, Option, none, some, List, [], ◌∷◌, ◌++◌, length, ◌==◌,
  if◌then◌else◌,
}
use cypher.Prelude.Bytes.{Bytes}
use cypher.Prelude.Assoc.{lookup, insert, remove, nat_eq, bytes_Eq, pair_Eq}
use cypher.Signaling.Hex.{hex_encode}
use cypher.Signaling.State.{
  GatewayEnvelope, PeerSession, PrekeyBundle, Reply, raw, peer_found, peer_joined, link_missing,
  prekeys_found, prekeys_missing, link_made, Subject, session, Service, publish, and_then,
}

pub record ChatSend : Type 0 where
  pub peer_id : Bytes
  pub ciphertext : Bytes
  pub ratchet_key : Bytes
  pub msg_no : ℕ

-- What the handlers read of the messages.
pub data Message : Type 0 where
  signal_request_peer : (link_id : Bytes) → Message
  signal_ice_candidate : (peer_id candidate : Bytes) → Message
  signal_offer signal_answer : (peer_id : Bytes) → Message
  keys_upload_prekeys : (identity_key signed_prekey inbox_id : Bytes) → Message
  keys_get_prekeys : (peer_id : Bytes) → Message
  chat_send : ChatSend → Message
  file_offer file_accept file_chunk file_complete : (peer_id : Bytes) → Message
  file_chunk_ack file_resume : (peer_id : Bytes) → Message
  inbox_store : (inbox_id ciphertext : Bytes) → Message
  inbox_fetch : (inbox_id : Bytes) → Message
  inbox_ack : (inbox_id claim_token : Bytes) → Message
  other : Message

-- The generated parser and serializers, and NATS.
pub record Outside : Type 0 where
  pub dispatch : Bytes → Option Message
  pub serialize_chat_send : ChatSend → Bytes
  pub serialize_inbox_messages : (messages : Bytes) → (count : ℕ) → Bytes
  pub nats : Subject → Bool

unfoldable pub set_session :
    (peer_id : Bytes) → PeerSession → (reverse : List (ℕ × Bytes)) → Service → Service
set_session peer_id new reverse s = record s {
  sessions = insert peer_id new s.sessions;
  reverse = insert new.session_id peer_id reverse;
}

-- The Lua script, and its result: 0 for a new session, 1 for a refreshed, 2 for a replaced one.
unfoldable pub register_script : (peer_id : Bytes) → PeerSession → Service → ℕ × Service
register_script peer_id new s = elim (lookup peer_id s.sessions) [
  | none ↦ (0, set_session peer_id new s.reverse s)
  | some old ↦
      if old.session_id == new.session_id
      then (1, set_session peer_id new s.reverse s)
      else (2, set_session peer_id new (remove old.session_id s.reverse) s)
]

unfoldable pub handle_session_register :
    (node_id : Bytes) → (session_id : ℕ) → (peer_id : Bytes) → Service → Service
handle_session_register node_id session_id peer_id s =
    let new : PeerSession = record { gateway_node = node_id; session_id = session_id } in
    let (result, s') = register_script peer_id new s in
    if result == 0 then record s' { peer_sessions = s'.peer_sessions + 1 } else s'

-- The Lua script, and whether it deleted the session.
unfoldable pub deregister_script : (peer_id : Bytes) → (session_id : ℕ) → Service → Bool × Service
deregister_script peer_id session_id s = elim (lookup peer_id s.sessions) [
  | none ↦ (false, record s { reverse = remove session_id s.reverse })
  | some old ↦
      if old.session_id == session_id
      then (
        true,
        record s { sessions = remove peer_id s.sessions; reverse = remove session_id s.reverse },
      )
      else (false, record s { reverse = remove session_id s.reverse })
]

unfoldable pub handle_session_deregister : (session_id : ℕ) → Service → Service
handle_session_deregister session_id s = elim (lookup session_id s.reverse) [
  | none ↦ s
  | some peer_id ↦
      let (deleted, s') = deregister_script peer_id session_id s in
      if deleted then record s' { peer_sessions = s'.peer_sessions - 1 } else s'
]

module _ (o : Outside) where
  -- A peer without a session is only logged.
  unfoldable pub forward_to_peer : (peer_id_hex : Bytes) → Reply → Service → Bool × Service
  forward_to_peer peer_id_hex payload s = elim (lookup peer_id_hex s.sessions) [
    | none ↦ (true, s)
    | some to ↦ publish o.nats (session to.session_id) payload s
  ]

  unfoldable pub peer_reply : (session_id : ℕ) → (creator : Option Bytes) → Service → Bool × Service
  peer_reply session_id none s = publish o.nats (session session_id) link_missing s
  peer_reply session_id (some peer_id_hex) s =
      and_then
        (publish o.nats (session session_id)
          (peer_found peer_id_hex (lookup peer_id_hex s.sessions)) s)
        (λ s'. elim (lookup session_id s'.reverse) [
          | none ↦ (true, s')
          | some joiner ↦ (true, (forward_to_peer peer_id_hex (peer_joined joiner) s').1)
        ])

  unfoldable pub on_request_peer : GatewayEnvelope → Message → Service → Bool × Service
  on_request_peer envelope (signal_request_peer link_id) s =
      peer_reply envelope.session_id (lookup link_id s.links) s
  on_request_peer envelope _ s = (true, s)

  -- The lookups that fail with `?` leave the state as it is.
  unfoldable pub store_candidate : (source target candidate : Bytes) → Service → Service
  store_candidate source target candidate s =
      let before : List Bytes = elim (lookup (source, target) s.ice) [
        | none ↦ []
        | some queue ↦ queue
      ] in
      record s { ice = insert (source, target) (before ++ (candidate ∷ [])) s.ice }

  unfoldable pub on_ice_candidate : GatewayEnvelope → Message → Service → Bool × Service
  on_ice_candidate envelope (signal_ice_candidate peer_id candidate) s =
      elim (lookup envelope.session_id s.reverse) [
        | none ↦ (false, s)
        | some source ↦
            forward_to_peer (hex_encode peer_id) (raw envelope.payload)
              (store_candidate source (hex_encode peer_id) candidate s)
      ]
  on_ice_candidate envelope _ s = (true, s)

  unfoldable pub on_offer : GatewayEnvelope → Message → Service → Bool × Service
  on_offer envelope (signal_offer peer_id) s =
      forward_to_peer (hex_encode peer_id) (raw envelope.payload) s
  on_offer envelope _ s = (true, s)

  unfoldable pub on_answer : GatewayEnvelope → Message → Service → Bool × Service
  on_answer envelope (signal_answer peer_id) s =
      forward_to_peer (hex_encode peer_id) (raw envelope.payload) s
  on_answer envelope _ s = (true, s)

  unfoldable pub on_upload_prekeys : GatewayEnvelope → Message → Service → Bool × Service
  on_upload_prekeys envelope (keys_upload_prekeys identity_key signed_prekey inbox_id) s =
      elim (lookup envelope.session_id s.reverse) [
        | none ↦ (false, s)
        | some peer_hex ↦
            let bundle : PrekeyBundle = record {
              identity_key = identity_key;
              signed_prekey = signed_prekey;
              inbox_id = if length inbox_id == 0 then none else some (hex_encode inbox_id);
            } in
            (true, record s { prekeys = insert peer_hex bundle s.prekeys })
      ]
  on_upload_prekeys envelope _ s = (true, s)

  unfoldable pub on_get_prekeys : GatewayEnvelope → Message → Service → Bool × Service
  on_get_prekeys envelope (keys_get_prekeys peer_id) s =
      publish o.nats (session envelope.session_id)
        (elim (lookup (hex_encode peer_id) s.prekeys) [
          | none ↦ prekeys_missing
          | some bundle ↦ prekeys_found bundle
        ])
        s
  on_get_prekeys envelope _ s = (true, s)

  unfoldable pub on_file_forward : GatewayEnvelope → Message → Service → Bool × Service
  on_file_forward envelope (file_offer peer_id) s =
      forward_to_peer (hex_encode peer_id) (raw envelope.payload) s
  on_file_forward envelope (file_accept peer_id) s =
      forward_to_peer (hex_encode peer_id) (raw envelope.payload) s
  on_file_forward envelope (file_chunk peer_id) s =
      forward_to_peer (hex_encode peer_id) (raw envelope.payload) s
  on_file_forward envelope (file_complete peer_id) s =
      forward_to_peer (hex_encode peer_id) (raw envelope.payload) s
  on_file_forward envelope (file_chunk_ack peer_id) s =
      forward_to_peer (hex_encode peer_id) (raw envelope.payload) s
  on_file_forward envelope (file_resume peer_id) s =
      forward_to_peer (hex_encode peer_id) (raw envelope.payload) s
  on_file_forward envelope _ s = (true, s)

  -- A handler on its message; one that cannot be parsed is an error.
  unfoldable pub dispatched :
      (GatewayEnvelope → Message → Service → Bool × Service)
      → GatewayEnvelope
      → Service
      → Bool × Service
  dispatched handler envelope s = elim (o.dispatch envelope.payload) [
    | none ↦ (false, s)
    | some message ↦ handler envelope message s
  ]

  -- The link id is drawn at random.
  unfoldable pub handle_create_link :
      (link_id : Bytes) → (session_id : ℕ) → (peer_id : Bytes) → Service → Bool × Service
  handle_create_link link_id session_id peer_id s =
      and_then
        (publish o.nats (session session_id) (link_made link_id)
          (record s { links = insert link_id peer_id s.links }))
        (λ s'. (true, record s' { links_created = s'.links_created + 1 }))
