-- ===== src/Nat/Dtls/Handshake.antt =====
-- The two handshakes of crates/cypher-nat/src/dtls.rs. A call gives the datagrams that it sent, and its
-- result; `taken` is whether the socket takes a datagram.
use cypher.Prelude.{
  ℕ, ◌≡◌, refl, ap, ◌∙◌, Bool, true, false, not, Option, none, some, List, [], ◌∷◌, ◌==◌, ==_refl,
  if◌then◌else◌, Error, transport, Result, ok, err, arith,
}
use cypher.Prelude.Bytes.{Bytes, bytes_eq, bytes_eq_refl}
use cypher.Crypto.Primitives.{Primitives, IsHmac}
use cypher.Nat.Dtls.{
  DtlsSession, new_session, handshake_magic, handshake_ack, seal, send_authenticated,
  verify_and_strip, Event, datagram, recv_failed, elapsed,
}
use cypher.Nat.Dtls.Replay.{verify_and_strip_accepted}
use cypher.Nat.Dtls.Channel.{verify_and_strip-seal}

abbrev pub Handshake : Type 0
Handshake = List Bytes × Result Error DtlsSession

-- Whether what was stripped is the expected message.
unfoldable pub is_message : Bytes → Option Bytes → Bool
is_message expected (some payload) = bytes_eq payload expected
is_message expected none = false

module _ (p : Primitives) where
  -- The loop of the client; the deadline has passed when no event is left.
  unfoldable pub await_ack : DtlsSession → List Event → Result Error DtlsSession
  await_ack s [] = err (transport "DTLS handshake timeout")
  await_ack s (recv_failed ∷ events) = err (transport "DTLS handshake recv")
  await_ack s (elapsed ∷ events) = err (transport "DTLS handshake timeout")
  await_ack s (datagram from packet ∷ events) =
      let (stripped, s') = verify_and_strip p s packet in
      let other = await_ack s events in
      let refused = await_ack s' events in
      if not (from == s.remote)
      then other
      else if is_message handshake_ack stripped
      then ok s'
      else refused

  unfoldable pub connect_as_client :
      (taken : Bool) → (remote : ℕ) → (session_key : Bytes) → List Event → Handshake
  connect_as_client taken remote session_key events =
      let (sent, s) = send_authenticated p taken (new_session remote session_key) handshake_magic in
      elim sent [ ok packet ↦ (packet ∷ [], await_ack s events) | err e ↦ ([], err e) ]

  -- `send_authenticated(HANDSHAKE_ACK).await?` and the return.
  unfoldable pub send_ack : (taken : Bool) → DtlsSession → Handshake
  send_ack taken s =
      let (sent, s') = send_authenticated p taken s handshake_ack in
      elim sent [ ok packet ↦ (packet ∷ [], ok s') | err e ↦ ([], err e) ]

  -- The loop of the server.
  unfoldable pub await_hello : (taken : Bool) → DtlsSession → List Event → Handshake
  await_hello taken s [] = ([], err (transport "DTLS handshake timeout"))
  await_hello taken s (recv_failed ∷ events) = ([], err (transport "DTLS handshake recv"))
  await_hello taken s (elapsed ∷ events) = ([], err (transport "DTLS handshake timeout"))
  await_hello taken s (datagram from packet ∷ events) =
      let (stripped, s') = verify_and_strip p s packet in
      let other = await_hello taken s events in
      let refused = await_hello taken s' events in
      if not (from == s.remote)
      then other
      else if is_message handshake_magic stripped
      then send_ack taken s'
      else refused

  unfoldable pub accept_as_server :
      (taken : Bool) → (remote : ℕ) → (session_key : Bytes) → List Event → Handshake
  accept_as_server taken remote session_key events =
      await_hello taken (new_session remote session_key) events

-- Datagrams from elsewhere.
abbrev pub IsNoise : (remote : ℕ) → List (ℕ × Bytes) → Type 0
IsNoise remote [] = Unit {0}
IsNoise remote ((from, packet) ∷ rest) = ((from == remote) ≡ false) × IsNoise remote rest

abbrev pub arrivals : List (ℕ × Bytes) → List Event → List Event
arrivals [] events = events
arrivals ((from, packet) ∷ rest) events = datagram from packet ∷ arrivals rest events

module _ (p : Primitives) where
  await_ack-noise :
      (s : DtlsSession) (noise : List (ℕ × Bytes)) (events : List Event)
      → IsNoise s.remote noise
      → await_ack p s (arrivals noise events) ≡ await_ack p s events
  unfolding await_ack
  await_ack-noise s [] events h = refl
  await_ack-noise s ((from, packet) ∷ rest) events (other, others) =
      rw other (await_ack-noise s rest events others)

  await_hello-noise :
      (taken : Bool) (s : DtlsSession) (noise : List (ℕ × Bytes)) (events : List Event)
      → IsNoise s.remote noise
      → await_hello p taken s (arrivals noise events) ≡ await_hello p taken s events
  unfolding await_hello
  await_hello-noise taken s [] events h = refl
  await_hello-noise taken s ((from, packet) ∷ rest) events (other, others) =
      rw other (await_hello-noise taken s rest events others)

  -- The session of either side behind the handshake.
  abbrev pub joined : (remote : ℕ) → (session_key : Bytes) → DtlsSession
  joined remote session_key = record {
    remote = remote;
    send_seq = 2;
    recv_seq = 1;
    hmac_key = session_key;
  }

module _ (p : Primitives) (laws : IsHmac p) where
  -- The peer's first datagram.
  first_taken :
      (remote send_seq : ℕ) (session_key payload : Bytes)
      → verify_and_strip p
          (record { remote = remote; send_seq = send_seq; recv_seq = 0; hmac_key = session_key })
          (seal p session_key 1 payload)
        ≡ (
          some payload,
          record { remote = remote; send_seq = send_seq; recv_seq = 1; hmac_key = session_key },
        )
  first_taken remote send_seq session_key payload =
      let s : DtlsSession = record {
        remote = remote;
        send_seq = send_seq;
        recv_seq = 0;
        hmac_key = session_key;
      } in
      let (accepted, number) =
        verify_and_strip-seal p laws s 1 payload (omega arith) (omega arith) in
      verify_and_strip_accepted p s (seal p session_key 1 payload) payload accepted
      ∙ ap
          (λ (n : ℕ). (
            some payload,
            record { remote = remote; send_seq = send_seq; recv_seq = n; hmac_key = session_key },
          ))
          number

  client_joins :
      (server : ℕ) (session_key : Bytes) (after : List Event)
      → await_ack p
          (record { remote = server; send_seq = 2; recv_seq = 0; hmac_key = session_key })
          (datagram server (seal p session_key 1 handshake_ack) ∷ after)
        ≡ ok (joined p server session_key)
  unfolding await_ack is_message
  client_joins server session_key after =
      rw (
        first_taken server 2 session_key handshake_ack,
        ==_refl server,
        bytes_eq_refl handshake_ack,
      )

  server_joins :
      (client : ℕ) (session_key : Bytes) (after : List Event)
      → await_hello p true
          (record { remote = client; send_seq = 1; recv_seq = 0; hmac_key = session_key })
          (datagram client (seal p session_key 1 handshake_magic) ∷ after)
        ≡ (seal p session_key 1 handshake_ack ∷ [], ok (joined p client session_key))
  unfolding await_hello is_message send_ack send_authenticated
  server_joins client session_key after = rw (
    first_taken client 1 session_key handshake_magic,
    ==_refl client,
    bytes_eq_refl handshake_magic,
  )

-- A client and a server with one session key, each with the other's address, and a network that brings
-- the client's first datagram to the server and the server's to the client, among any datagrams from
-- elsewhere: both handshakes succeed, each has sent one datagram, and each session is ready to take
-- what the other sends next.
pub connect_as_client-accept_as_server :
    (p : Primitives)
    → IsHmac p
    → (client server : ℕ) (session_key : Bytes) (to_client to_server : List (ℕ × Bytes))
      (after after' : List Event)
    → IsNoise server to_client
    → IsNoise client to_server
    → (hello : Bytes) × (ack : Bytes) × (connect_as_client p true server session_key
          (arrivals to_client (datagram server ack ∷ after))
        ≡ (hello ∷ [], ok (joined p server session_key)))
      × (accept_as_server p true client session_key
            (arrivals to_server (datagram client hello ∷ after'))
          ≡ (ack ∷ [], ok (joined p client session_key)))
unfolding connect_as_client accept_as_server send_authenticated new_session
connect_as_client-accept_as_server p laws client server session_key to_client to_server after after'
      noise noise' =
    (
      seal p session_key 1 handshake_magic,
      seal p session_key 1 handshake_ack,
      ap (λ (r : Result Error DtlsSession). (seal p session_key 1 handshake_magic ∷ [], r))
          (await_ack-noise p _ to_client _ noise ∙ client_joins p laws server session_key after),
      await_hello-noise p true _ to_server _ noise' ∙ server_joins p laws client session_key after',
    )
