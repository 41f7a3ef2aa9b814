-- ===== src/Gateway/Runs.antt =====
-- services/gateway/src/main.rs: sessions that open, send frames and end in any order, and the heartbeat.
use cypher.Prelude.{
  ℕ, ◌+◌, ◌^◌, ◌<◌, refl, inl, inr, Bool, true, false, Option, none, some, Bool-cases,
}
use cypher.Prelude.Bytes.{Bytes}
use cypher.Transport.Frame.{
  Frame, contains, ping, pong, session_close, session_init as init_flag, none_flags,
}
use cypher.Gateway.State.{
  new, Gateway, Outside, heartbeat, remove_connection, open_session, enqueue,
}
use cypher.Gateway.Routing.{Proto, Message, session_init}
use cypher.Gateway.Session.{
  Turn, flow_of, init_message, on_frame, touch, init_as, handle_session_init, acknowledge,
  route_data,
}
use cypher.Gateway.Registry.{registry-enqueue, registry-publish, registry-route_frame}
use cypher.Gateway.Invariant.{
  IsConsistent, registry-IsConsistent, new-IsConsistent, open_session-IsConsistent,
  modify_connection-IsConsistent, next-modify_connection, insert_peer-IsConsistent,
  remove_connection-IsConsistent, heartbeat-IsConsistent,
}

module _ (proto : Proto) (t : Turn) (sid : ℕ) where
  touch-IsConsistent : (g : Gateway) → IsConsistent g → IsConsistent (touch proto t sid g)
  unfolding touch
  touch-IsConsistent g h = modify_connection-IsConsistent sid _ g (λ c. refl) h

  acknowledge-IsConsistent :
      (r : Bool × Gateway) → IsConsistent r.1 → IsConsistent (acknowledge proto t sid r).1
  acknowledge-IsConsistent (false, g) h = h
  acknowledge-IsConsistent (true, g) h =
      registry-IsConsistent (registry-enqueue t.outside sid _ _ g) h

  init_as-IsConsistent :
      (client_id : Bytes) (g : Gateway)
      → sid < g.next_session_id
      → IsConsistent g
      → IsConsistent (init_as proto t sid client_id g).1
  unfolding init_as
  init_as-IsConsistent client_id g allocated h = acknowledge-IsConsistent _ (
      registry-IsConsistent (registry-publish t.outside _ _ _) (
        insert_peer-IsConsistent client_id sid _ (rw (next-modify_connection sid _ g) allocated)
          (modify_connection-IsConsistent sid _ g (λ c. refl) h)))

  init_message-IsConsistent :
      (message : Option Message) (g : Gateway)
      → sid < g.next_session_id
      → IsConsistent g
      → IsConsistent (init_message proto t sid message g).1
  unfolding init_message
  init_message-IsConsistent none g allocated h = h
  init_message-IsConsistent (some (session_init client_id)) g allocated h =
      init_as-IsConsistent client_id g allocated h
  init_message-IsConsistent (some message) g allocated h = h

  flow-IsConsistent : (r : Bool × Gateway) → IsConsistent r.1 → IsConsistent (flow_of r).1
  flow-IsConsistent (true, g) h = h
  flow-IsConsistent (false, g) h = h

  on_frame-IsConsistent :
      (frame : Frame) (g : Gateway)
      → sid < g.next_session_id
      → IsConsistent g
      → IsConsistent (on_frame proto t sid frame g).1
  unfolding on_frame handle_session_init route_data touch
  on_frame-IsConsistent frame g allocated h =
      let touched = touch-IsConsistent g h in
      elim (Bool-cases (contains frame.flags ping)) [
        | inl is_ping ↦
            rw (is_ping, on_frame)
              (registry-IsConsistent (registry-enqueue t.outside sid _ _ _) touched)
        | inr not_ping ↦ elim (Bool-cases (contains frame.flags pong)) [
          | inl is_pong ↦ rw (not_ping, is_pong, on_frame) touched
          | inr not_pong ↦ elim (Bool-cases (contains frame.flags session_close)) [
            | inl closes ↦ rw (not_ping, not_pong, closes, on_frame) touched
            | inr stays ↦ elim (Bool-cases (contains frame.flags init_flag)) [
              | inl init ↦
                  rw (not_ping, not_pong, stays, init, on_frame)
                    (flow-IsConsistent _ (
                      init_message-IsConsistent _ _ (rw (next-modify_connection sid _ g) allocated)
                        touched))
              | inr is_data ↦ elim (Bool-cases t.within_rate) [
                | inr over ↦ rw (not_ping, not_pong, stays, is_data, over, on_frame) touched
                | inl within ↦
                    rw (not_ping, not_pong, stays, is_data, within, on_frame)
                      (flow-IsConsistent _ (
                        registry-IsConsistent (registry-route_frame proto t.outside sid frame _)
                          touched))
              ]
            ]
          ]
        ]
      ]

-- What happens to the gateway, one handler at a time: a session opens, its loop takes a frame, the
-- end of its loop or a fault removes it, a message for it comes from NATS, or the heartbeat goes round.
pub data Step (proto : Proto) : Gateway → Gateway → Type 0 where
  opened :
      (now : ℕ) (g : Gateway) → g.next_session_id + 1 < 2 ^ 64 → Step proto g (open_session now g).1
  received :
      (t : Turn) (sid : ℕ) (frame : Frame) (g : Gateway)
      → sid < g.next_session_id
      → Step proto g (on_frame proto t sid frame g).1
  ended : (o : Outside) (sid : ℕ) (g : Gateway) → Step proto g (remove_connection o sid g)
  forwarded :
      (o : Outside) (sid : ℕ) (payload : Bytes) (g : Gateway)
      → Step proto g (enqueue o sid payload none_flags g)
  checked : (o : Outside) (g : Gateway) → Step proto g (heartbeat o g)

pub data Reach (proto : Proto) (g : Gateway) : Gateway → Type 0 where
  here : Reach proto g g
  next : {h k : Gateway} → Reach proto g h → Step proto h k → Reach proto g k

Step-IsConsistent :
    {proto : Proto} {g h : Gateway} → Step proto g h → IsConsistent g → IsConsistent h
Step-IsConsistent (opened now g room) c = open_session-IsConsistent now g room c
Step-IsConsistent {proto} (received t sid frame g allocated) c =
    on_frame-IsConsistent proto t sid frame g allocated c
Step-IsConsistent (ended o sid g) c = remove_connection-IsConsistent o sid g c
Step-IsConsistent (forwarded o sid payload g) c =
    registry-IsConsistent (registry-enqueue o sid payload none_flags g) c
Step-IsConsistent (checked o g) c = heartbeat-IsConsistent o g c

-- However sessions interleave, each connection is filed once under its own id, every id in the maps
-- has been given out, and the gauge of active connections counts the connections.
pub Reach-IsConsistent : {proto : Proto} {g : Gateway} → Reach proto new g → IsConsistent g
Reach-IsConsistent here = new-IsConsistent
Reach-IsConsistent (next r s) = Step-IsConsistent s (Reach-IsConsistent r)
