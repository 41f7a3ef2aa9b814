-- ===== src/Tests/Relay.antt =====
-- The theorems on sessions, their forwarding and their pairing, on a few frames and clients.
use cypher.Prelude.{ap, get_or, ◌+◌, ◌%◌, ◌^◌, ◌≡◌, refl, true, none, some, List, [], ◌∷◌, arith}
use cypher.Prelude.Bytes.{bytes_eq}
use cypher.Prelude.Assoc.{lookup, bytes_Eq}
use cypher.Transport.Frame.{Frame, none_flags, ping}
use cypher.Transport.Session.{TransportSession}
use cypher.Transport.Session.Channel.{Outgoing, send_all, recv_all, numbered, recv_all-send_all}
use cypher.Relay.Pairing.{
  RelaySession, RelayService, waiting, paired, handle_connection, Side, side_a, side_b, new_loops,
  forward_both,
}
use cypher.Relay.Pairing.Forwarding.{
  all_passed, before_close, data_bytes, turns_of, of_side_a, of_side_b, forward_both_lem,
}
use cypher.Relay.Pairing.Meeting.{arrivals, handle_connection-arrivals}

abbrev letters : List Outgoing
letters = (1 ∷ 2 ∷ [], none_flags) ∷ (3 ∷ [], none_flags) ∷ []

abbrev sender : TransportSession
sender = record { outgoing = []; incoming = []; send_seq = 5; recv_ack = 2 }

abbrev frames : List Frame
frames =
    record { seq_no = 6; ack = 2; flags = none_flags; payload = 1 ∷ 2 ∷ [] }
    ∷ record { seq_no = 7; ack = 2; flags = none_flags; payload = 3 ∷ [] }
    ∷ []

recv_all-send_all_example :
    ((send_all letters sender).0 ≡ true)
    × ((recv_all 2 (record {
      outgoing = [];
      incoming = (send_all letters sender).1.outgoing;
      send_seq = 0;
      recv_ack = 0;
    })).0
        ≡ frames)
unfolding numbered
recv_all-send_all_example =
    recv_all-send_all letters sender
      (record {
        outgoing = [];
        incoming = (send_all letters sender).1.outgoing;
        send_seq = 0;
        recv_ack = 0;
      })
      ((omega arith, omega arith), ((omega arith, omega arith), tt)) (omega arith) refl refl

-- Two frames of side a, with a PING and a frame of side b between them.
abbrev both_sides : List (Side × Frame)
both_sides =
    (side_a, record { seq_no = 6; ack = 2; flags = none_flags; payload = 1 ∷ 2 ∷ [] })
    ∷ (side_b, record { seq_no = 1; ack = 6; flags = ping; payload = [] })
    ∷ (side_b, record { seq_no = 2; ack = 6; flags = none_flags; payload = 9 ∷ [] })
    ∷ (side_a, record { seq_no = 7; ack = 2; flags = none_flags; payload = 3 ∷ [] })
    ∷ []

forward_both_lem_example :
    let f = forward_both (turns_of both_sides) new_loops in
    (f.a_to_b.sent ≡ all_passed (before_close (of_side_a both_sides)))
    × (f.b_to_a.sent ≡ all_passed (before_close (of_side_b both_sides)))
    × (f.bytes_relayed
        ≡ (data_bytes (before_close (of_side_a both_sides))
            + data_bytes (before_close (of_side_b both_sides)))
          % 2 ^ 64)
forward_both_lem_example = forward_both_lem both_sides

abbrev service : RelayService
service = record { sessions = []; pending = []; relay_sessions = 0; relay_bytes = 0 }

-- Clients 1 and 3 meet under the key 7; client 2 comes with another key.
handle_connection-arrivals_example :
    let met =
      handle_connection 20
        (7 ∷ [])
        3
        (arrivals 10 ((8 ∷ [], 2) ∷ []) (handle_connection 10 (7 ∷ []) 1 service).1) in
    let relay : RelaySession = record { peer_a = 1; peer_b = 3; created_at = 20 } in
    ((handle_connection 10 (7 ∷ []) 1 service).0 ≡ waiting)
    × (met.0 ≡ paired relay)
    × (lookup (7 ∷ []) met.1.pending ≡ none)
    × (lookup (7 ∷ []) met.1.sessions ≡ some relay)
unfolding bytes_eq lookup
handle_connection-arrivals_example =
    handle_connection-arrivals 10 20 (7 ∷ []) 1 3 ((8 ∷ [], 2) ∷ []) service (refl, refl)
      (λ same. omega (arith, ap (λ xs. get_or xs 0 0) same), tt) refl
