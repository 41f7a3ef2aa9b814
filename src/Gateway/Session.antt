-- ===== src/Gateway/Session.antt =====
-- services/gateway/src/main.rs: the read loop of a session, from its first frame to its clean-up.
use cypher.Prelude.{
  Option, ℕ, ◌+◌, Bool, true, false, Option, none, some, List, [], ◌∷◌, length, leb, slice, ◌==◌,
  if◌then◌else◌, ◌&&◌,
}
use cypher.Prelude.Bytes.{Bytes, from_le}
use cypher.Prelude.Assoc.{lookup, insert, nat_eq, bytes_Eq}
use cypher.Transport.Frame.{
  Frame, contains, none_flags, ping, pong, session_init as init_flag, session_close,
}
use cypher.Gateway.State.{
  ConnectionState, Gateway, Outside, enqueue, publish, hex_encode, of_peer, open_session,
  remove_connection,
}
use cypher.Gateway.Routing.{Proto, Message, session_init, route_frame}

-- One turn of a session: the world outside, the answer of the rate limiter, the nonce and the time
-- of day for an acknowledgement.
pub record Turn : Type 0 where
  pub outside : Outside
  pub within_rate : Bool
  pub server_nonce : Bytes
  pub timestamp : ℕ

-- How the loop goes on after a frame.
pub data Flow : Type 0 where
  continues returned failed : Flow

-- `connections.get_mut(&session_id)` and a change to what it finds.
unfoldable pub modify_connection : ℕ → (ConnectionState → ConnectionState) → Gateway → Gateway
modify_connection session_id change g = elim (lookup session_id g.connections) [
  | none ↦ g
  | some conn ↦ record g { connections = insert session_id (change conn) g.connections }
]

abbrev pub flow_of : Bool × Gateway → Flow × Gateway
flow_of (true, g) = (continues, g)
flow_of (false, g) = (failed, g)

module _ (proto : Proto) (t : Turn) (session_id : ℕ) where
  unfoldable pub touch : Gateway → Gateway
  touch = modify_connection session_id (λ conn. record conn { last_activity = t.outside.now })

  abbrev pub acknowledge : Bool × Gateway → Bool × Gateway
  acknowledge (false, g) = (false, g)
  acknowledge (true, g) = (
    true,
    enqueue t.outside session_id (proto.serialize_session_ack t.server_nonce t.timestamp) init_flag
        g,
  )

  -- The arm of a valid payload.
  unfoldable pub init_as : (client_id : Bytes) → Gateway → Bool × Gateway
  init_as client_id g =
      let named = modify_connection session_id (λ conn. record conn { peer_id = client_id }) g in
      acknowledge (
        publish t.outside "signaling.session.register" (of_peer session_id (hex_encode client_id))
          (record named { peers = insert client_id session_id named.peers }))

  unfoldable pub init_message : Option Message → Gateway → Bool × Gateway
  init_message (some (session_init client_id)) g = init_as client_id g
  init_message _ g = (true, g)

  unfoldable pub handle_session_init : (payload : Bytes) → Gateway → Bool × Gateway
  handle_session_init payload g = init_message (proto.dispatch payload) g

  -- The metrics, and the routing.
  unfoldable pub route_data : Frame → Gateway → Flow × Gateway
  route_data frame g = flow_of (
      route_frame proto t.outside session_id frame (record g {
        messages_routed = g.messages_routed + 1;
        bytes_relayed = g.bytes_relayed + length frame.payload;
      }))

  -- The body of the loop.
  unfoldable pub on_frame : Frame → Gateway → Flow × Gateway
  on_frame frame g =
      let touched = touch g in
      if contains frame.flags ping
      then (continues, enqueue t.outside session_id [] pong touched)
      else if contains frame.flags pong
      then (continues, touched)
      else if contains frame.flags session_close
      then (returned, touched)
      else if contains frame.flags init_flag
      then flow_of (handle_session_init frame.payload touched)
      else if t.within_rate
      then route_data frame touched
      else (continues, touched)

-- The loop on the frames that the session gives it, with the turns on which they come.
unfoldable pub read_loop : Proto → ℕ → List (Turn × Frame) → Gateway → Gateway
read_loop proto session_id [] g = g
read_loop proto session_id ((t, frame) ∷ rest) g =
    let (flow, g') = on_frame proto t session_id frame g in
    let after = read_loop proto session_id rest g' in
    elim flow [ continues ↦ after | returned ↦ g' | failed ↦ g' ]

-- `handle_session` and `handle_ws_session` on the frames of the session, the subscription made.
unfoldable pub handle_session :
    Proto → (now : ℕ) → List (Turn × Frame) → (at_end : Outside) → Gateway → Gateway
handle_session proto now frames at_end g =
    let (session_id, g') = open_session now g in
    remove_connection at_end session_id (read_loop proto session_id frames g')

-- The frame that a binary WebSocket message becomes.
unfoldable pub ws_frame : (message : Bytes) → Frame
ws_frame message = record {
  seq_no = 0;
  ack = 0;
  flags =
      if leb 4 (length message) && (from_le (slice 0 4 message) == 0xA1000001)
      then init_flag
      else none_flags;
  payload = message;
}
