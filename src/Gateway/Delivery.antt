-- ===== src/Gateway/Delivery.antt =====
-- services/gateway/src/main.rs: where a frame for a peer arrives.
use cypher.Prelude.{
  ℕ, ◌≡◌, refl, ap, ◌∙◌, inl, inr, Bool, true, false, String, none, some, ◌∷◌, length, get_or, ◌==◌,
  Bool-cases, Option-cases,
}
use cypher.Prelude.Bytes.{Bytes}
use cypher.Prelude.Assoc.{lookup, insert, nat_eq, bytes_Eq, string_eq, lookup-insert_self}
use cypher.Transport.Frame.{Frame, none_flags}
use cypher.Gateway.State.{ConnectionState, Gateway, Outside, Envelope, enqueue, publish, of_payload}
use cypher.Gateway.Routing.{
  Proto, ChatSend, chat_send, local_session, peer_id_of, route_chat, subject_and_target, send_on,
  also_direct, route_proto, route_frame,
}
use cypher.Gateway.Session.{Turn, modify_connection, init_as, acknowledge}
use cypher.Gateway.Registry.{registry, registry-enqueue, registry-publish}

pub local_session-registry :
    (pid : Bytes) (g h : Gateway)
    → registry h ≡ registry g
    → local_session pid h ≡ local_session pid g
unfolding local_session
local_session-registry pid g h e =
    let same_connections : h.connections ≡ g.connections = ap (λ r. r.0) e in
    let same_peers : h.peers ≡ g.peers = ap (λ r. r.1) e in rw (same_connections, same_peers) refl

acknowledge-registry :
    (proto : Proto) (t : Turn) (sid : ℕ) (r : Bool × Gateway)
    → registry (acknowledge proto t sid r).1 ≡ registry r.1
acknowledge-registry proto t sid (false, g) = refl
acknowledge-registry proto t sid (true, g) = registry-enqueue t.outside sid _ _ g

pub registry-init_as :
    (proto : Proto) (t : Turn) (sid : ℕ) (client_id : Bytes) (g : Gateway) {c : ConnectionState}
    → lookup sid g.connections ≡ some c
    → registry (init_as proto t sid client_id g).1
      ≡ registry (record g {
        connections = insert sid (record c { peer_id = client_id }) g.connections;
        peers = insert client_id sid g.peers;
      })
unfolding init_as modify_connection
registry-init_as proto t sid client_id g found =
    acknowledge-registry proto t sid _
    ∙ registry-publish t.outside _ _ _
    ∙ rw (found, modify_connection) refl

-- A connected session that names itself is the one that frames for this name go to, whether or not
-- the notice to signaling gets through.
pub local_session-init_as :
    (proto : Proto) (t : Turn) (sid : ℕ) (client_id : Bytes) (g : Gateway) {c : ConnectionState}
    → lookup sid g.connections ≡ some c
    → (local_session client_id (init_as proto t sid client_id g).1 ≡ some sid)
      × (peer_id_of sid (init_as proto t sid client_id g).1 ≡ client_id)
unfolding local_session peer_id_of
local_session-init_as proto t sid client_id g {c} found =
    let after = (init_as proto t sid client_id g).1 in
    let whole = registry-init_as proto t sid client_id g found in
    let filed : after.connections ≡ insert sid (record c { peer_id = client_id }) g.connections =
      ap (λ r. r.0) whole in
    let named : after.peers ≡ insert client_id sid g.peers = ap (λ r. r.1) whole in
    let there : lookup sid after.connections ≡ some (record c { peer_id = client_id }) =
      rw filed (lookup-insert_self sid _ g.connections) in
    let owned : lookup client_id after.peers ≡ some sid =
      rw named (lookup-insert_self client_id sid g.peers) in
    (rw (owned, there, local_session) refl, rw (there, peer_id_of) refl)

also_direct-absent :
    (o : Outside) (pid payload : Bytes) (subject : String) (envelope : Envelope) (g : Gateway)
    → local_session pid g ≡ none
    → also_direct o (some pid) payload (publish o subject envelope g) ≡ publish o subject envelope g
unfolding also_direct publish
also_direct-absent o pid payload subject envelope g absent = elim (Bool-cases (o.nats subject)) [
  | inr down ↦ rw down refl
  | inl up ↦
      let after = record g { published = (subject, envelope) ∷ g.published } in
      let still : local_session pid after ≡ none =
        local_session-registry pid g after refl ∙ absent in
      rw (up, still, also_direct) refl
]

module _ (proto : Proto) (o : Outside) (sid : ℕ) where
  -- After the test for JSON.
  route_frame-proto :
      (frame : Frame) (g : Gateway)
      → (length frame.payload == 0) ≡ false
      → (get_or frame.payload 0 0 == 123) ≡ false
      → route_frame proto o sid frame g ≡ route_proto proto o sid frame.payload g
  unfolding route_frame
  route_frame-proto frame g full binary = rw (full, binary) refl

  send_on-route_chat :
      (payload : Bytes) (chat : ChatSend) (g : Gateway)
      → send_on o sid payload (route_chat proto o sid chat g)
        ≡ elim (local_session chat.peer_id g) [
          | some target ↦ (
            true,
            enqueue o target
                (proto.serialize_chat_send (record chat { peer_id = peer_id_of sid g }))
                none_flags
                g,
          )
          | none ↦ publish o "signaling.chat_send" (of_payload sid payload) g
        ]
  unfolding send_on route_chat also_direct
  send_on-route_chat payload chat g = elim (Option-cases (local_session chat.peer_id g)) [
    | inr (target, found) ↦ rw (found, route_chat) refl
    | inl absent ↦ rw (absent, route_chat) (also_direct-absent o chat.peer_id payload _ _ g absent)
  ]

  -- What the arm of a chat message comes to: it is handed to the channel of a local session, or
  -- published.
  pub route_frame-chat_send :
      (frame : Frame) (chat : ChatSend) (g : Gateway)
      → (length frame.payload == 0) ≡ false
      → (get_or frame.payload 0 0 == 123) ≡ false
      → proto.dispatch frame.payload ≡ some (chat_send chat)
      → route_frame proto o sid frame g ≡ elim (local_session chat.peer_id g) [
        | some target ↦ (
          true,
          enqueue o target
              (proto.serialize_chat_send (record chat { peer_id = peer_id_of sid g }))
              none_flags
              g,
        )
        | none ↦ publish o "signaling.chat_send" (of_payload sid frame.payload) g
      ]
  unfolding route_proto subject_and_target
  route_frame-chat_send frame chat g full binary parsed =
      route_frame-proto frame g full binary
      ∙ rw (parsed, route_proto) (send_on-route_chat frame.payload chat g)
