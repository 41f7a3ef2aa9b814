-- ===== src/Gateway/Registry.antt =====
-- services/gateway/src/main.rs: what routing a frame leaves alone, the maps and the counter.
use cypher.Prelude.{
  ℕ, ◌≡◌, refl, ◌∙◌, inl, inr, Bool, true, false, String, Option, none, some, List, [], ◌∷◌, length,
  get_or, ◌==◌, Bool-cases, Option-cases, arith,
}
use cypher.Prelude.Bytes.{Bytes}
use cypher.Prelude.Assoc.{string_eq}
use cypher.Transport.Frame.{Frame, FrameFlags}
use cypher.Gateway.State.{
  ConnectionState, Gateway, Outside, Envelope, enqueue, publish, probe, scan, of_payload,
}
use cypher.Gateway.Routing.{
  Proto, Message, ChatSend, chat_send, file_offer, file_accept, file_chunk, file_complete,
  file_chunk_ack, file_resume, session_init, signal_request_peer, signal_ice_candidate,
  signal_offer, signal_answer, keys_upload_prekeys, keys_get_prekeys, transport_bootstrap,
  inbox_store, inbox_fetch, inbox_ack, other, local_session, also_direct, try_direct_or_subject,
  route_chat, subject_and_target, send_on, route_proto, count_routed, route_json, route_frame,
}

-- The parts that the invariant reads.
abbrev pub registry : Gateway → List (ℕ × ConnectionState) × List (Bytes × ℕ) × ℕ × ℕ
registry g = (g.connections, g.peers, g.next_session_id, g.active_connections)

pub registry-enqueue :
    (o : Outside) (sid : ℕ) (payload : Bytes) (flags : FrameFlags) (g : Gateway)
    → registry (enqueue o sid payload flags g) ≡ registry g
unfolding enqueue
registry-enqueue o sid payload flags g = ground arith

pub registry-publish :
    (o : Outside) (subject : String) (envelope : Envelope) (g : Gateway)
    → registry (publish o subject envelope g).1 ≡ registry g
unfolding publish
registry-publish o subject envelope g = ground arith

registry-probe : (o : Outside) (sid : ℕ) (g : Gateway) → registry (probe o sid g) ≡ registry g
unfolding probe
registry-probe o sid g = ground arith

pub registry-scan :
    (o : Outside) (m : List (ℕ × ConnectionState)) (g : Gateway)
    → registry (scan o m g).1 ≡ registry g
unfolding scan
registry-scan o [] g = refl
registry-scan o ((_, conn) ∷ rest) g =
    registry-scan o rest _ ∙ ground (arith, registry-probe o conn.session_id g)

registry-also_direct :
    (o : Outside) (target : Option Bytes) (payload : Bytes) (r : Bool × Gateway)
    → registry (also_direct o target payload r).1 ≡ registry r.1
unfolding also_direct
registry-also_direct o target payload (false, g) = refl
registry-also_direct o none payload (true, g) = refl
registry-also_direct o (some pid) payload (true, g) = elim (Option-cases (local_session pid g)) [
  | inl absent ↦ rw (absent, also_direct) refl
  | inr (target, found) ↦ rw (found, also_direct) (registry-enqueue o target payload 0 g)
]

registry-try_direct_or_subject :
    (o : Outside) (pid payload : Bytes) (subject : String) (g : Gateway)
    → registry (try_direct_or_subject o pid payload subject g).1 ≡ registry g
unfolding try_direct_or_subject
registry-try_direct_or_subject o pid payload subject g = elim (Option-cases (local_session pid g)) [
  | inl absent ↦ rw (absent, try_direct_or_subject) refl
  | inr (target, found) ↦ rw (found, try_direct_or_subject) (registry-enqueue o target payload 0 g)
]

module _ (proto : Proto) (o : Outside) (sid : ℕ) where
  registry-route_chat :
      (chat : ChatSend) (g : Gateway) → registry (route_chat proto o sid chat g).1 ≡ registry g
  unfolding route_chat
  registry-route_chat chat g = elim (Option-cases (local_session chat.peer_id g)) [
    | inl absent ↦ rw (absent, route_chat) refl
    | inr (target, found) ↦ rw (found, route_chat) (registry-enqueue o target _ 0 g)
  ]

  registry-subject_and_target :
      (payload : Bytes) (message : Message) (g : Gateway)
      → registry (subject_and_target proto o sid payload message g).1 ≡ registry g
  unfolding subject_and_target
  registry-subject_and_target payload (chat_send chat) g = registry-route_chat chat g
  registry-subject_and_target payload (file_offer pid) g =
      registry-try_direct_or_subject o pid payload _ g
  registry-subject_and_target payload (file_accept pid) g =
      registry-try_direct_or_subject o pid payload _ g
  registry-subject_and_target payload (file_chunk pid) g =
      registry-try_direct_or_subject o pid payload _ g
  registry-subject_and_target payload (file_complete pid) g =
      registry-try_direct_or_subject o pid payload _ g
  registry-subject_and_target payload (file_chunk_ack pid) g =
      registry-try_direct_or_subject o pid payload _ g
  registry-subject_and_target payload (file_resume pid) g =
      registry-try_direct_or_subject o pid payload _ g
  registry-subject_and_target payload (session_init _) g = refl
  registry-subject_and_target payload signal_request_peer g = refl
  registry-subject_and_target payload (signal_ice_candidate _) g = refl
  registry-subject_and_target payload (signal_offer _) g = refl
  registry-subject_and_target payload (signal_answer _) g = refl
  registry-subject_and_target payload keys_upload_prekeys g = refl
  registry-subject_and_target payload keys_get_prekeys g = refl
  registry-subject_and_target payload transport_bootstrap g = refl
  registry-subject_and_target payload inbox_store g = refl
  registry-subject_and_target payload inbox_fetch g = refl
  registry-subject_and_target payload inbox_ack g = refl
  registry-subject_and_target payload other g = refl

  registry-send_on :
      (payload : Bytes) (r : (String × Option Bytes) × Gateway)
      → registry (send_on o sid payload r).1 ≡ registry r.1
  unfolding send_on
  registry-send_on payload ((subject, target), g) = elim (Bool-cases (string_eq.beq subject "")) [
    | inl empty ↦ rw empty refl
    | inr full ↦ rw full (
        registry-also_direct o target payload (publish o subject (of_payload sid payload) g)
        ∙ registry-publish o subject (of_payload sid payload) g)
  ]

  registry-route_proto :
      (payload : Bytes) (g : Gateway) → registry (route_proto proto o sid payload g).1 ≡ registry g
  unfolding route_proto
  registry-route_proto payload g = elim (Option-cases (proto.dispatch payload)) [
    | inl refused ↦ rw (refused, route_proto) (registry-publish o _ _ g)
    | inr (message, parsed) ↦
        rw (parsed, route_proto)
          (registry-send_on payload (subject_and_target proto o sid payload message g)
            ∙ registry-subject_and_target payload message g)
  ]

  registry-count_routed : (r : Bool × Gateway) → registry (count_routed r).1 ≡ registry r.1
  registry-count_routed (false, g) = refl
  registry-count_routed (true, g) = refl

  pub registry-route_frame :
      (frame : Frame) (g : Gateway) → registry (route_frame proto o sid frame g).1 ≡ registry g
  unfolding route_frame route_json
  registry-route_frame frame g = elim (Bool-cases (length frame.payload == 0)) [
    | inl empty ↦ rw empty refl
    | inr full ↦ rw full (elim (Bool-cases (get_or frame.payload 0 0 == 123)) [
      | inr binary ↦ rw binary (registry-route_proto frame.payload g)
      | inl brace ↦ rw brace (elim (Option-cases (proto.json_action frame.payload)) [
        | inl refused ↦ rw refused (registry-route_proto frame.payload g)
        | inr (action, parsed) ↦
            rw parsed (registry-count_routed (publish o _ _ g) ∙ registry-publish o _ _ g)
      ])
    ])
  ]
