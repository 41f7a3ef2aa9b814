-- ===== src/Nat/Dtls/Replay.antt =====
-- What `verify_and_strip` and `recv` accept.
use cypher.Prelude.{
  ℕ, ◌≤◌, ◌<◌, ◌≡◌, ◌↔◌, sym, ap, true, false, Option, none, some, List, [], ◌∷◌, ◌++◌, length,
  take, drop, slice, ltb, leb, arith, ltb→le,
}
use cypher.Prelude.Bytes.{Bytes, from_le}
use cypher.Crypto.Primitives.{Primitives}
use cypher.Nat.Dtls.{DtlsSession, header_len, constant_time_eq, verify_and_strip}
use cypher.Nat.Dtls.Compare.{constant_time_eq→eq, constant_time_eq_refl}

abbrev pub seq_of : Bytes → ℕ
seq_of packet = from_le (take 8 packet)

-- The packet has a header, its number is new, its tag is the HMAC of its number and its payload under
-- the session's key, and the payload is the rest.
pub record IsAccepted (p : Primitives) (s : DtlsSession) (packet payload : Bytes) : Type 0 where
  pub has_header : header_len ≤ length packet
  pub authentic : slice 8 40 packet ≡ p.hmac s.hmac_key (take 8 packet ++ payload)
  pub fresh : s.recv_seq < seq_of packet
  pub stripped : payload ≡ drop header_len packet

module _ (p : Primitives) where
  -- The three guards, and the answer behind them.
  guards :
      (s : DtlsSession) (packet payload : Bytes)
      → (verify_and_strip p s packet).0 ≡ some payload
      → (ltb (length packet) header_len ≡ false)
        × (constant_time_eq
              (slice 8 40 packet)
              (p.hmac s.hmac_key (take 8 packet ++ drop header_len packet))
            ≡ true)
        × (leb (seq_of packet) s.recv_seq ≡ false)
        × (drop header_len packet ≡ payload)
  unfolding verify_and_strip
  guards s packet payload h = (ground arith, ground arith, ground arith, ground arith)

  accept_IsAccepted :
      (s : DtlsSession) (packet payload : Bytes)
      → (verify_and_strip p s packet).0 ≡ some payload
      → IsAccepted p s packet payload
  accept_IsAccepted s packet payload h =
      let (long, tag, new, rest) = guards s packet payload h in
      record {
        has_header = ltb→le (length packet) header_len long;
        authentic = rw (← rest) (constant_time_eq→eq _ _ tag);
        fresh = ground (arith, new);
        stripped = sym rest;
      }

  -- The session after an accepted packet.
  abbrev pub advanced : DtlsSession → Bytes → DtlsSession
  advanced s packet = record {
    remote = s.remote;
    send_seq = s.send_seq;
    recv_seq = seq_of packet;
    hmac_key = s.hmac_key;
  }

  pub verify_and_strip_accepted :
      (s : DtlsSession) (packet payload : Bytes)
      → IsAccepted p s packet payload
      → verify_and_strip p s packet ≡ (some payload, advanced s packet)
  unfolding verify_and_strip
  verify_and_strip_accepted s packet payload h =
      let tag : slice 8 40 packet ≡ p.hmac s.hmac_key (take 8 packet ++ drop header_len packet) =
        rw (← h.stripped) h.authentic in
      rw (tag, constant_time_eq_refl (p.hmac s.hmac_key (take 8 packet ++ drop header_len packet)))
        (ground (arith, h.has_header, h.fresh, h.stripped))

  -- `verify_and_strip` gives a payload for a packet exactly when the packet has a header, a number above
  -- the last one, the HMAC under the session's key of its number and payload, and that payload.
  pub verify_and_strip_iff :
      (s : DtlsSession) (packet payload : Bytes)
      → ((verify_and_strip p s packet).0 ≡ some payload) ↔ IsAccepted p s packet payload
  verify_and_strip_iff s packet payload = (
    accept_IsAccepted s packet payload,
    λ h.
        ap (λ (r : Option Bytes × DtlsSession). r.0) (verify_and_strip_accepted s packet payload h),
  )

  -- A packet that is refused changes nothing.
  pub verify_and_strip_refused :
      (s : DtlsSession) (packet : Bytes)
      → (verify_and_strip p s packet).0 ≡ none
      → verify_and_strip p s packet ≡ (none, s)
  unfolding verify_and_strip
  verify_and_strip_refused s packet h = ground arith

  seq-verify-le :
      (s : DtlsSession) (packet : Bytes) → s.recv_seq ≤ (verify_and_strip p s packet).1.recv_seq
  unfolding verify_and_strip
  seq-verify-le s packet = ground arith

  -- The session after a row of packets.
  unfoldable pub verify_all : DtlsSession → List Bytes → DtlsSession
  verify_all s [] = s
  verify_all s (packet ∷ packets) = verify_all (verify_and_strip p s packet).1 packets

  seq-verify_all-le :
      (packets : List Bytes) (s : DtlsSession) → s.recv_seq ≤ (verify_all s packets).recv_seq
  unfolding verify_all
  seq-verify_all-le [] s = omega arith
  seq-verify_all-le (packet ∷ packets) s =
      omega
        (arith, seq-verify-le s packet, seq-verify_all-le packets (verify_and_strip p s packet).1)

  old_refused :
      (s : DtlsSession) (packet : Bytes)
      → seq_of packet ≤ s.recv_seq
      → verify_and_strip p s packet ≡ (none, s)
  unfolding verify_and_strip
  old_refused s packet old = ground arith

  -- A packet that was accepted once is refused ever after, and so is any packet with its number or a
  -- smaller one, whatever comes in between.
  pub verify_and_strip_replayed :
      (s : DtlsSession) (first second payload : Bytes) (later : List Bytes)
      → (verify_and_strip p s first).0 ≡ some payload
      → seq_of second ≤ seq_of first
      → verify_and_strip p (verify_all (verify_and_strip p s first).1 later) second
        ≡ (none, verify_all (verify_and_strip p s first).1 later)
  verify_and_strip_replayed s first second payload later h old =
      let moved =
        ap (λ (r : Option Bytes × DtlsSession). r.1.recv_seq)
          (verify_and_strip_accepted s first payload (accept_IsAccepted s first payload h)) in
      old_refused (verify_all (verify_and_strip p s first).1 later) second
        (omega (arith, moved, seq-verify_all-le later (verify_and_strip p s first).1))
