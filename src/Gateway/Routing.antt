-- ===== src/Gateway/Routing.antt =====
-- services/gateway/src/main.rs: where a data frame goes.
use cypher.Prelude.{
  ℕ, ◌+◌, Bool, true, false, String, Option, none, some, [], length, get_or, ◌==◌, if◌then◌else◌,
}
use cypher.Prelude.Bytes.{Bytes}
use cypher.Prelude.Assoc.{lookup, nat_eq, bytes_Eq, string_eq}
use cypher.Transport.Frame.{Frame, none_flags}
use cypher.Gateway.State.{Gateway, Outside, enqueue, publish, hex_encode, of_peer, of_payload}

pub record ChatSend : Type 0 where
  pub peer_id : Bytes
  pub ciphertext : Bytes
  pub ratchet_key : Bytes
  pub msg_no : ℕ

-- The kinds of message that the gateway tells apart, with the fields that it reads.
pub data Message : Type 0 where
  session_init : (client_id : Bytes) → Message
  signal_request_peer : Message
  signal_ice_candidate signal_offer signal_answer : (peer_id : Bytes) → Message
  keys_upload_prekeys keys_get_prekeys transport_bootstrap : Message
  inbox_store inbox_fetch inbox_ack : Message
  chat_send : ChatSend → Message
  file_offer file_accept file_chunk file_complete : (peer_id : Bytes) → Message
  file_chunk_ack file_resume : (peer_id : Bytes) → Message
  other : Message

-- The generated parser and serializers, and the JSON library: the `action` of a text that parses,
-- empty where it has none.
pub record Proto : Type 0 where
  pub dispatch : Bytes → Option Message
  pub serialize_chat_send : ChatSend → Bytes
  pub serialize_session_ack : (server_nonce : Bytes) → (timestamp : ℕ) → Bytes
  pub json_action : Bytes → Option String

-- The session of a peer that has a connection here.
unfoldable pub local_session : Bytes → Gateway → Option ℕ
local_session peer_id g = elim (lookup peer_id g.peers) [
  | none ↦ none
  | some session_id ↦ elim (lookup session_id g.connections) [
    | none ↦ none
    | some _ ↦ some session_id
  ]
]

-- The peer id of a session, empty when it has no connection.
unfoldable pub peer_id_of : ℕ → Gateway → Bytes
peer_id_of session_id g = elim (lookup session_id g.connections) [
  | none ↦ []
  | some conn ↦ conn.peer_id
]

-- The empty subject says that the frame was delivered.
unfoldable pub try_direct_or_subject :
    Outside → (peer_id payload : Bytes) → String → Gateway → (String × Option Bytes) × Gateway
try_direct_or_subject o peer_id payload subject g = elim (local_session peer_id g) [
  | some target ↦ (("", none), enqueue o target payload none_flags g)
  | none ↦ ((subject, some peer_id), g)
]

abbrev pub count_routed : Bool × Gateway → Bool × Gateway
count_routed (false, g) = (false, g)
count_routed (true, g) = (true, record g { messages_routed = g.messages_routed + 1 })

module _ (o : Outside) where
  -- After a publish that succeeded: the target also gets the frame when it is connected here.
  unfoldable pub also_direct : Option Bytes → (payload : Bytes) → Bool × Gateway → Bool × Gateway
  also_direct target payload (false, g) = (false, g)
  also_direct none payload (true, g) = (true, g)
  also_direct (some peer_id) payload (true, g) = elim (local_session peer_id g) [
    | none ↦ (true, g)
    | some target ↦ (true, enqueue o target payload none_flags g)
  ]

  unfoldable pub send_on :
      ℕ → (payload : Bytes) → (String × Option Bytes) × Gateway → Bool × Gateway
  send_on session_id payload ((subject, target), g) =
      if string_eq.beq subject ""
      then (true, g)
      else also_direct target payload (publish o subject (of_payload session_id payload) g)

module _ (proto : Proto) (o : Outside) where
  -- The arm of `ChatSend`: the message under its sender's id, to the local session or to signaling.
  unfoldable pub route_chat : ℕ → ChatSend → Gateway → (String × Option Bytes) × Gateway
  route_chat session_id chat g =
      let rewritten =
        proto.serialize_chat_send (record chat { peer_id = peer_id_of session_id g }) in
      elim (local_session chat.peer_id g) [
        | some target ↦ (("", none), enqueue o target rewritten none_flags g)
        | none ↦ (("signaling.chat_send", some chat.peer_id), g)
      ]

  -- The subject and the target of a message. The early return after a direct delivery of a chat
  -- message is the empty subject, as it is for files.
  unfoldable pub subject_and_target :
      ℕ → (payload : Bytes) → Message → Gateway → (String × Option Bytes) × Gateway
  subject_and_target sid payload signal_request_peer g = (("signaling.request_peer", none), g)
  subject_and_target sid payload (signal_ice_candidate peer_id) g =
      (("signaling.ice_candidate", some peer_id), g)
  subject_and_target sid payload (signal_offer peer_id) g = (("signaling.offer", some peer_id), g)
  subject_and_target sid payload (signal_answer peer_id) g = (("signaling.answer", some peer_id), g)
  subject_and_target sid payload keys_upload_prekeys g = (("signaling.upload_prekeys", none), g)
  subject_and_target sid payload keys_get_prekeys g = (("signaling.get_prekeys", none), g)
  subject_and_target sid payload transport_bootstrap g =
      (("signaling.transport_bootstrap", none), g)
  subject_and_target sid payload inbox_store g = (("signaling.inbox_store", none), g)
  subject_and_target sid payload inbox_fetch g = (("signaling.inbox_fetch", none), g)
  subject_and_target sid payload inbox_ack g = (("signaling.inbox_ack", none), g)
  subject_and_target sid payload (chat_send chat) g = route_chat sid chat g
  subject_and_target sid payload (file_offer peer_id) g =
      try_direct_or_subject o peer_id payload "signaling.file_offer" g
  subject_and_target sid payload (file_accept peer_id) g =
      try_direct_or_subject o peer_id payload "signaling.file_accept" g
  subject_and_target sid payload (file_chunk peer_id) g =
      try_direct_or_subject o peer_id payload "signaling.file_chunk" g
  subject_and_target sid payload (file_complete peer_id) g =
      try_direct_or_subject o peer_id payload "signaling.file_complete" g
  subject_and_target sid payload (file_chunk_ack peer_id) g =
      try_direct_or_subject o peer_id payload "signaling.file_chunk_ack" g
  subject_and_target sid payload (file_resume peer_id) g =
      try_direct_or_subject o peer_id payload "signaling.file_resume" g
  subject_and_target sid payload (session_init _) g = (("signaling.data", none), g)
  subject_and_target sid payload other g = (("signaling.data", none), g)

  unfoldable pub route_proto : ℕ → (payload : Bytes) → Gateway → Bool × Gateway
  route_proto session_id payload g = elim (proto.dispatch payload) [
    | some message ↦ send_on o session_id payload (subject_and_target session_id payload message g)
    | none ↦ publish o "signaling.raw" (of_payload session_id payload) g
  ]

  unfoldable pub route_json : ℕ → (action : String) → Gateway → Bool × Gateway
  route_json session_id action g =
      let subject =
        if string_eq.beq action "create_link" then "signaling.create_link" else "signaling.raw" in
      count_routed (publish o subject (of_peer session_id (hex_encode (peer_id_of session_id g))) g)

  -- Whether the call returned `Ok`. The code of `{` is 123.
  unfoldable pub route_frame : ℕ → Frame → Gateway → Bool × Gateway
  route_frame session_id frame g =
      if length frame.payload == 0
      then (true, g)
      else if get_or frame.payload 0 0 == 123
      then elim (proto.json_action frame.payload) [
        | some action ↦ route_json session_id action g
        | none ↦ route_proto session_id frame.payload g
      ]
      else route_proto session_id frame.payload g
