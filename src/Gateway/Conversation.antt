-- ===== src/Gateway/Conversation.antt =====
-- services/gateway/src/main.rs: two sessions that have named themselves, and a message between them.
use cypher.Prelude.{
  List, Bool-cases, ◌⊎◌, ℕ, ◌≡◌, ◌≢◌, refl, sym, ap, ◌∙◌, inl, inr, true, false, none, some, ◌∷◌,
  length, get_or, ◌==◌, Option-cases,
}
use cypher.Prelude.Bytes.{Bytes}
use cypher.Prelude.Assoc.{
  key_cases, lookup-remove_ne, lookup, nat_eq, bytes_Eq, string_eq, lookup-insert_self,
  lookup-insert_ne, lookup-remove_self,
}
use cypher.Transport.Frame.{Frame, none_flags}
use cypher.Gateway.State.{
  forget_peer, remove_if_session, ConnectionState, Gateway, Outside, enqueue, publish, of_payload,
  remove_connection,
}
use cypher.Gateway.Routing.{Proto, ChatSend, chat_send, local_session, peer_id_of, route_frame}
use cypher.Gateway.Session.{Turn, init_as}
use cypher.Gateway.Delivery.{registry-init_as, local_session-init_as, route_frame-chat_send}
use cypher.Gateway.Removal.{lookup-remove_connection, peers-forget_peer}

module _ (proto : Proto) (t : Turn) (sid : ℕ) (client_id : Bytes) (g : Gateway) where
  -- The connections of other sessions stay as they are.
  lookup-init_as :
      (other : ℕ) {c : ConnectionState}
      → lookup sid g.connections ≡ some c
      → sid ≢ other
      → lookup other (init_as proto t sid client_id g).1.connections ≡ lookup other g.connections
  lookup-init_as other found apart =
      ap (λ r. lookup other r.0) (registry-init_as proto t sid client_id g found)
      ∙ lookup-insert_ne sid other _ g.connections apart

  owner-init_as :
      {c : ConnectionState}
      → lookup sid g.connections ≡ some c
      → lookup client_id (init_as proto t sid client_id g).1.peers ≡ some sid
  owner-init_as found =
      ap (λ r. lookup client_id r.1) (registry-init_as proto t sid client_id g found)
      ∙ lookup-insert_self client_id sid g.peers

module _ (o : Outside) (sid : ℕ) where
  remove_if_session-cases :
      (pid p : Bytes) (m : List (Bytes × ℕ))
      → (lookup p (remove_if_session pid sid m) ≡ none)
        ⊎ (lookup p (remove_if_session pid sid m) ≡ lookup p m)
  unfolding remove_if_session
  remove_if_session-cases pid p m = elim (Option-cases (lookup pid m)) [
    | inl absent ↦ rw (absent, remove_if_session) (inr refl)
    | inr (owner, found) ↦ elim (Bool-cases (owner == sid)) [
      | inr newer ↦ rw (found, newer, remove_if_session) (inr refl)
      | inl own ↦
          rw (found, own, remove_if_session)
            (elim (key_cases pid p) [
              | inl same ↦ inl (rw (← same) (lookup-remove_self pid m))
              | inr apart ↦ inr (lookup-remove_ne pid p m apart)
            ])
    ]
  ]

  -- The removal of a connection takes away the entry of a peer or leaves it as it is.
  peers-remove_connection :
      (p : Bytes) (g : Gateway)
      → (lookup p (remove_connection o sid g).peers ≡ none)
        ⊎ (lookup p (remove_connection o sid g).peers ≡ lookup p g.peers)
  unfolding remove_connection forget_peer
  peers-remove_connection p g = elim (Option-cases (lookup sid g.connections)) [
    | inl absent ↦ rw (absent, remove_connection) (inr refl)
    | inr (conn, found) ↦ elim (Bool-cases (length conn.peer_id == 0)) [
      | inl empty ↦ rw (found, remove_connection, empty) (inr refl)
      | inr named ↦
          rw (found, remove_connection, peers-forget_peer o sid conn.peer_id _ named)
            (remove_if_session-cases conn.peer_id p g.peers)
    ]
  ]

-- Nobody reaches a peer here whose entry names a session without a connection.
local_session-remove_connection :
    (o : Outside) (sid : ℕ) (pid : Bytes) (g : Gateway)
    → lookup pid g.peers ≡ some sid
    → local_session pid (remove_connection o sid g) ≡ none
unfolding local_session
local_session-remove_connection o sid pid g owner = elim (peers-remove_connection o sid pid g) [
  | inl gone ↦ rw (gone, local_session) refl
  | inr kept ↦
      let silent = lookup-remove_connection o sid g sid ∙ lookup-remove_self sid g.connections in
      rw (kept, owner, silent, local_session) refl
]

module _ (proto : Proto) (here there : Turn) (o : Outside) (a b : ℕ) (alice bob : Bytes)
    (g : Gateway) where
  -- After both have named themselves.
  abbrev pub named : Gateway
  named = (init_as proto there b bob (init_as proto here a alice g).1).1

  -- Sessions a and b have named themselves, whether or not their notices to signaling got through.
  -- Then a chat message of a to the name of b is sent to b alone, if its writer takes frames, with the
  -- name of a in it and the rest kept, and is not published. When the connection of b has been removed
  -- instead, the same frame is sent to nobody and published once for signaling, as long as NATS takes
  -- it.
  pub route_frame-init_as :
      (frame : Frame) (chat : ChatSend) {ca cb : ConnectionState}
      → lookup a g.connections ≡ some ca
      → lookup b g.connections ≡ some cb
      → a ≢ b
      → (length frame.payload == 0) ≡ false
      → (get_or frame.payload 0 0 == 123) ≡ false
      → proto.dispatch frame.payload ≡ some (chat_send (record chat { peer_id = bob }))
      → o.writer_open b ≡ true
      → o.nats "signaling.chat_send" ≡ true
      → let met = route_frame proto o a frame named in
        let left = remove_connection o b named in
        let missed = route_frame proto o a frame left in
        (met ≡ (
          true,
          record named {
            sent =
                record {
                  session_id = b;
                  payload = proto.serialize_chat_send (record chat { peer_id = alice });
                  flags = none_flags;
                }
                ∷ named.sent;
          },
        ))
        × (missed ≡ (
          true,
          record left {
            published = ("signaling.chat_send", of_payload a frame.payload) ∷ left.published;
          },
        ))
  unfolding peer_id_of enqueue publish
  route_frame-init_as frame chat found_a found_b apart full binary parsed open_b up =
      let g' = (init_as proto here a alice g).1 in
      let found_b' = lookup-init_as proto here a alice g b found_a apart ∙ found_b in
      let reach = (local_session-init_as proto there b bob g' found_b').0 in
      let named_a : peer_id_of a named ≡ alice =
        rw (lookup-init_as proto there b bob g' a found_b' (λ same. apart (sym same)), peer_id_of)
          (local_session-init_as proto here a alice g found_a).1 in
      let silent =
        local_session-remove_connection o b bob named
          (owner-init_as proto there b bob g' found_b') in
      (
        route_frame-chat_send proto o a frame (record chat { peer_id = bob }) named full binary
              parsed
            ∙ rw (reach, named_a, open_b) refl,
        route_frame-chat_send proto o a frame (record chat { peer_id = bob })
              (remove_connection o b named) full binary parsed
            ∙ rw (silent, up) refl,
      )
