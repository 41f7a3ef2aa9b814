-- ===== src/Tests/Gateway.antt =====
-- The gateway's theorems on two connected sessions.
use cypher.Prelude.{
  ℕ, ◌≡◌, ◌≢◌, refl, true, Option, none, some, [], ◌∷◌, ◌++◌, ◌==◌, arith, if◌then◌else◌,
}
use cypher.Prelude.Bytes.{Bytes}
use cypher.Prelude.Assoc.{lookup, insert, nat_eq, bytes_Eq}
use cypher.Transport.Frame.{Frame, none_flags}
use cypher.Gateway.State.{
  ConnectionState, Gateway, Outside, new, open_session, allocate_session_id, remove_connection,
  heartbeat, of_payload,
}
use cypher.Gateway.Routing.{Proto, Message, ChatSend, session_init, chat_send, other, route_frame}
use cypher.Gateway.Session.{Turn, on_frame}
use cypher.Gateway.Invariant.{IsConsistent}
use cypher.Gateway.Runs.{Reach, here, next, opened, received, checked, Reach-IsConsistent}
use cypher.Gateway.Removal.{remove_connection_exact, lookup-heartbeat}
use cypher.Gateway.Conversation.{named, route_frame-init_as}

-- A parser for one-byte tags: 1 is an introduction, 2 a chat message to a peer of one byte.
abbrev toy_parse : Bytes → Option Message
toy_parse [] = none
toy_parse (tag ∷ rest) = elim rest [
  | [] ↦ some other
  | b ∷ more ↦
      if tag == 1
      then some (session_init (b ∷ more))
      else if tag == 2
      then some
          (chat_send (record { peer_id = b ∷ []; ciphertext = more; ratchet_key = []; msg_no = 0 }))
      else some other
]

abbrev proto : Proto
proto = record {
  dispatch = toy_parse;
  serialize_chat_send = λ chat. 2 ∷ (chat.peer_id ++ chat.ciphertext);
  serialize_session_ack = λ nonce timestamp. timestamp ∷ nonce;
  json_action = λ text. none;
}

abbrev outside : Outside
outside = record {
  now = 100_000_000_000;
  writer_open = λ s. true;
  writer_room = λ s. true;
  nats = λ subject. true;
}

abbrev turn : Turn
turn = record { outside = outside; within_rate = true; server_nonce = 9 ∷ []; timestamp = 5 }

-- Session 1 is peer 7 and was active at 90 s; session 2 is peer 8 and was active at 5 s.
abbrev seven : ConnectionState
seven = record { session_id = 1; peer_id = 7 ∷ []; last_activity = 90_000_000_000 }

abbrev eight : ConnectionState
eight = record { session_id = 2; peer_id = 8 ∷ []; last_activity = 5_000_000_000 }

abbrev gateway : Gateway
gateway = record {
  connections = (1, seven) ∷ (2, eight) ∷ [];
  peers = (7 ∷ [], 1) ∷ (8 ∷ [], 2) ∷ [];
  next_session_id = 3;
  active_connections = 2;
  messages_routed = 0;
  bytes_relayed = 0;
  sent = [];
  published = [];
}

abbrev frame_of : Bytes → Frame
frame_of payload = record { seq_no = 1; ack = 0; flags = none_flags; payload = payload }

-- A message to peer 8.
abbrev letter : ChatSend
letter = record { peer_id = 8 ∷ []; ciphertext = 42 ∷ []; ratchet_key = []; msg_no = 0 }

-- Sessions 1 and 2 take the names 3 and 4, and session 1 writes to 4.
abbrev renamed : Gateway
renamed = named proto turn turn outside 1 2 (3 ∷ []) (4 ∷ []) gateway

route_frame-init_as_example :
    let met = route_frame proto outside 1 (frame_of (2 ∷ 4 ∷ 42 ∷ [])) renamed in
    let left = remove_connection outside 2 renamed in
    let missed = route_frame proto outside 1 (frame_of (2 ∷ 4 ∷ 42 ∷ [])) left in
    (met ≡ (
      true,
      record renamed {
        sent =
            record { session_id = 2; payload = 2 ∷ 3 ∷ 42 ∷ []; flags = none_flags } ∷ renamed.sent;
      },
    ))
    × (missed ≡ (
      true,
      record left {
        published = ("signaling.chat_send", of_payload 1 (2 ∷ 4 ∷ 42 ∷ [])) ∷ left.published;
      },
    ))
unfolding lookup
route_frame-init_as_example =
    route_frame-init_as proto turn turn outside 1 2 (3 ∷ []) (4 ∷ []) gateway
      (frame_of (2 ∷ 4 ∷ 42 ∷ [])) letter {ca = seven} {cb = eight} refl refl
      (λ same. absurd (omega arith)) refl refl refl refl refl

remove_connection_exact_example :
    (lookup 2 (remove_connection outside 2 gateway).connections ≡ none)
    × ((s : ℕ)
        → 2 ≢ s
        → lookup s (remove_connection outside 2 gateway).connections ≡ lookup s gateway.connections)
    × (lookup (8 ∷ []) (remove_connection outside 2 gateway).peers ≢ some 2)
    × ((p : Bytes)
        → lookup p gateway.peers ≢ some 2
        → lookup p (remove_connection outside 2 gateway).peers ≡ lookup p gateway.peers)
unfolding lookup
remove_connection_exact_example = remove_connection_exact outside 2 gateway {c = eight} refl refl

abbrev id_bytes : Bytes
id_bytes = 7 ∷ 200 ∷ []

session_run :
    Reach proto new
      (heartbeat outside (on_frame proto turn 1 (frame_of (1 ∷ 6 ∷ [])) (open_session 0 new).1).1)
unfolding new open_session allocate_session_id
session_run =
    next
      (next (next here (opened 0 new (omega arith)))
        (received turn 1 (frame_of (1 ∷ 6 ∷ [])) (open_session 0 new).1 (omega arith)))
      (checked outside (on_frame proto turn 1 (frame_of (1 ∷ 6 ∷ [])) (open_session 0 new).1).1)

Reach-IsConsistent_example :
    IsConsistent
      (heartbeat outside (on_frame proto turn 1 (frame_of (1 ∷ 6 ∷ [])) (open_session 0 new).1).1)
Reach-IsConsistent_example = Reach-IsConsistent {proto = proto} session_run

-- At 100 s the session opened at 0 is silent for longer than 90 s.
lookup-heartbeat_example : lookup 1 (heartbeat outside (open_session 0 new).1).connections ≡ none
unfolding lookup new open_session allocate_session_id insert
lookup-heartbeat_example =
    lookup-heartbeat outside (open_session 0 new).1
      (Reach-IsConsistent {proto = proto} (next here (opened 0 new (omega arith)))) 1
