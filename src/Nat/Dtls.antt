-- ===== src/Nat/Dtls.antt =====
-- crates/cypher-nat/src/dtls.rs: authenticated datagrams. A method returns its result and the new
-- session; the socket is what it is given and what it takes.
pub mod Compare
pub mod Replay
pub mod Channel
pub mod Handshake
use Prim.Native.Nat.{bit_or, bit_xor}
use cypher.Prelude.{
  ℕ, ◌+◌, ◌%◌, ◌^◌, ◌<◌, ◌≡◌, Bool, true, false, not, Option, none, some, List, [], ◌∷◌, ◌++◌,
  length, take, drop, slice, ltb, leb, ◌==◌, if◌then◌else◌, Error, transport, Result, ok, err,
}
use cypher.Prelude.Bytes.{Bytes, to_le, from_le, ascii}
use cypher.Crypto.Primitives.{Primitives}

abbrev pub max_payload : ℕ
max_payload = 65_000

abbrev pub header_len : ℕ
header_len = 8 + 32

abbrev pub handshake_magic : Bytes
handshake_magic = ascii "P2P-DTLS"

abbrev pub handshake_ack : Bytes
handshake_ack = ascii "P2P-DACK"

-- An address is a number here; only its equality is used.
pub record DtlsSession : Type 0 where
  pub remote : ℕ
  pub send_seq : ℕ
  pub recv_seq : ℕ
  pub hmac_key : Bytes

-- The session that both handshakes start from.
unfoldable pub new_session : (remote : ℕ) → (session_key : Bytes) → DtlsSession
new_session remote session_key = record {
  remote = remote;
  send_seq = 1;
  recv_seq = 0;
  hmac_key = session_key;
}

unfoldable pub differences : ℕ → Bytes → Bytes → ℕ
differences diff (x ∷ a) (y ∷ b) = differences (bit_or diff (bit_xor x y)) a b
differences diff _ _ = diff

unfoldable pub constant_time_eq : Bytes → Bytes → Bool
constant_time_eq a b = if not (length a == length b) then false else differences 0 a b == 0

-- What the socket does when the session waits for a datagram; the bytes are what `recv_from` puts into
-- the buffer.
pub data Event : Type 0 where
  datagram : (from : ℕ) → Bytes → Event
  recv_failed elapsed : Event

module _ (p : Primitives) where
  -- The buffer that `send_authenticated` builds.
  unfoldable pub seal : (hmac_key : Bytes) → (seq : ℕ) → (payload : Bytes) → Bytes
  seal hmac_key seq payload = to_le 8 seq ++ (p.hmac hmac_key (to_le 8 seq ++ payload) ++ payload)

  -- The result holds the datagram that the socket took; `taken` is whether it did.
  unfoldable pub send_authenticated :
      (taken : Bool) → DtlsSession → Bytes → Result Error Bytes × DtlsSession
  send_authenticated taken s payload = (
    if taken then ok (seal s.hmac_key s.send_seq payload) else err (transport "DTLS send"),
    record {
      remote = s.remote;
      send_seq = (s.send_seq + 1) % 2 ^ 64;
      recv_seq = s.recv_seq;
      hmac_key = s.hmac_key;
    },
  )

  unfoldable pub send : (taken : Bool) → DtlsSession → Bytes → Result Error Bytes × DtlsSession
  send taken s payload =
      if ltb max_payload (length payload)
      then (err (transport "payload too large for UDP"), s)
      else send_authenticated taken s payload

  unfoldable pub verify_and_strip : DtlsSession → Bytes → Option Bytes × DtlsSession
  verify_and_strip s packet =
      if ltb (length packet) header_len
      then (none, s)
      else let seq = from_le (take 8 packet) in
        let received_hmac = slice 8 40 packet in
        let payload = drop header_len packet in
        let expected = p.hmac s.hmac_key (take 8 packet ++ payload) in
        if not (constant_time_eq received_hmac expected)
        then (none, s)
        else if leb seq s.recv_seq
        then (none, s)
        else (
          some payload,
          record {
            remote = s.remote;
            send_seq = s.send_seq;
            recv_seq = seq;
            hmac_key = s.hmac_key;
          },
        )

  -- The loop of `recv`. When no event is left, nothing comes within the timeout.
  unfoldable pub recv :
      DtlsSession → List Event → Result Error (Option Bytes) × DtlsSession × List Event
  recv s [] = (ok none, s, [])
  recv s (recv_failed ∷ events) = (err (transport "DTLS recv"), s, events)
  recv s (elapsed ∷ events) = (ok none, s, events)
  recv s (datagram from packet ∷ events) =
      let (stripped, s') = verify_and_strip s packet in
      let other = recv s events in
      let refused = recv s' events in
      if not (from == s.remote)
      then other
      else elim stripped [ some payload ↦ (ok (some payload), s', events) | none ↦ refused ]
