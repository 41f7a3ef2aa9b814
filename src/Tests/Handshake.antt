-- ===== src/Tests/Handshake.antt =====
-- The theorem on the handshakes at a concrete input.
use cypher.Prelude.{◌≡◌, refl, true, [], ◌∷◌, ok}
use cypher.Prelude.Bytes.{Bytes}
use cypher.Nat.Dtls.{datagram, elapsed}
use cypher.Nat.Dtls.Handshake.{
  connect_as_client, accept_as_server, joined, connect_as_client-accept_as_server,
}
use cypher.Tests.Toy.{toy, toy-IsHmac}

-- The client is at address 1, the server at 2; a stranger at 9 sends to the server.
connect_as_client-accept_as_server_example :
    (hello : Bytes) × (ack : Bytes) × (connect_as_client toy true 2
        (5 ∷ [])
        (datagram 2 ack ∷ elapsed ∷ [])
      ≡ (hello ∷ [], ok (joined toy 2 (5 ∷ []))))
    × (accept_as_server toy true 1 (5 ∷ []) (datagram 9 (7 ∷ []) ∷ datagram 1 hello ∷ elapsed ∷ [])
        ≡ (ack ∷ [], ok (joined toy 1 (5 ∷ []))))
connect_as_client-accept_as_server_example =
    connect_as_client-accept_as_server toy toy-IsHmac 1 2 (5 ∷ []) [] ((9, 7 ∷ []) ∷ [])
      (elapsed ∷ []) (elapsed ∷ []) tt (refl, tt)
