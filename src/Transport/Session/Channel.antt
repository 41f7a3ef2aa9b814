-- ===== src/Transport/Session/Channel.antt =====
-- A session's frames on the session at the other end of the stream.
use cypher.Prelude.{
  ℕ, zero, suc, ◌+◌, ◌%◌, ◌^◌, ◌≤◌, ◌<◌, ◌≡◌, refl, sym, ap, ◌∙◌, Bool, true, false, Option, some,
  List, [], ◌∷◌, ◌++◌, append-nil, append_assoc, All, length, le→ltb, Error, Result, ok, err, arith,
}
use cypher.Prelude.Bytes.{Bytes, IsByte}
use cypher.Transport.Frame.{Frame, FrameFlags, IsFrame}
use cypher.Transport.Codec.{max_frame_size, header_size, encode, wire}
use cypher.Transport.Codec.RoundTrip.{decode-wire}
use cypher.Transport.Session.{TransportSession, written, received, send_frame, recv_frame}

abbrev pub Outgoing : Type 0
Outgoing = Bytes × FrameFlags

-- What fits into a frame.
abbrev pub Fits : Outgoing → Type 0
Fits m = (length m.0 + header_size ≤ max_frame_size) × IsByte m.1

-- Frames sent one after the other: whether all were, and the session then.
unfoldable pub send_all : List Outgoing → TransportSession → Bool × TransportSession
send_all [] s = (true, s)
send_all (m ∷ ms) s =
    let (result, s') = send_frame m.0 m.1 s in
    let rest = send_all ms s' in elim result [ ok _ ↦ rest | err e ↦ (false, s') ]

add_frame : Option (Result Error Frame) → List Frame → List Frame
add_frame (some (ok frame)) frames = frame ∷ frames
add_frame _ frames = []

-- The frames received by this many calls, up to the first one that gives none.
unfoldable pub recv_all : ℕ → TransportSession → List Frame × TransportSession
unfolding add_frame
recv_all zero s = ([], s)
recv_all (suc n) s =
    let (result, s') = recv_frame false s in
    let (frames, last) = recv_all n s' in (add_frame result frames, last)

-- The frames of a session that has sent this many: numbered one after the other, modulo 2 ^ 32, with
-- one acknowledgement.
unfoldable pub numbered : (send_seq recv_ack : ℕ) → List Outgoing → List Frame
numbered seq ack [] = []
numbered seq ack (m ∷ ms) =
    let next = (seq + 1) % 2 ^ 32 in
    record { seq_no = next; ack = ack; flags = m.1; payload = m.0 } ∷ numbered next ack ms

unfoldable wires : List Frame → Bytes
wires [] = []
wires (f ∷ fs) = wire f ++ wires fs

send_frame-wire :
    (payload : Bytes) (flags : FrameFlags) (s : TransportSession)
    → length payload + header_size ≤ max_frame_size
    → send_frame payload flags s ≡ (
      ok tt,
      record s {
        outgoing =
            s.outgoing
            ++ wire (record {
              seq_no = (s.send_seq + 1) % 2 ^ 32;
              ack = s.recv_ack;
              flags = flags;
              payload = payload;
            });
        send_seq = (s.send_seq + 1) % 2 ^ 32;
      },
    )
unfolding send_frame written encode
send_frame-wire payload flags s fits =
    rw (le→ltb max_frame_size (header_size + length payload) (omega (arith, fits))) refl

send_all-wires :
    (ms : List Outgoing) (s : TransportSession)
    → All Fits ms
    → ((send_all ms s).0 ≡ true)
      × ((send_all ms s).1.outgoing ≡ s.outgoing ++ wires (numbered s.send_seq s.recv_ack ms))
unfolding send_all wires numbered
send_all-wires [] s h = (refl, sym (append-nil s.outgoing))
send_all-wires (m ∷ ms) s ((fits, byte), h) =
    rw
      (
        ap (λ r. r.0) (send_frame-wire m.0 m.1 s fits),
        ap (λ r. r.1) (send_frame-wire m.0 m.1 s fits),
        send_all,
      )
      (let (all, bytes) = send_all-wires ms _ h in (all, bytes ∙ append_assoc s.outgoing _ _))

recv_all-wires :
    (ms : List Outgoing) (seq ack : ℕ) (s : TransportSession)
    → All Fits ms
    → ack < 2 ^ 32
    → s.incoming ≡ wires (numbered seq ack ms)
    → (recv_all (length ms) s).0 ≡ numbered seq ack ms
unfolding recv_all wires numbered recv_frame received add_frame
recv_all-wires [] seq ack s h small there = refl
recv_all-wires (m ∷ ms) seq ack s ((fits, byte), h) small there =
    let f : Frame = record { seq_no = (seq + 1) % 2 ^ 32; ack = ack; flags = m.1; payload = m.0 } in
    let range : IsFrame f = record {
      seq_no_range = omega arith;
      ack_range = small;
      flags_range = byte;
    } in
    let one = decode-wire f (wires (numbered ((seq + 1) % 2 ^ 32) ack ms)) range fits in
    rw (there, one) (ap (◌∷◌ f) (recv_all-wires ms ((seq + 1) % 2 ^ 32) ack _ h small refl))

-- What one session sends is what the session at the other end receives: every payload that fits in a
-- frame, in order, under consecutive sequence numbers.
pub recv_all-send_all :
    (ms : List Outgoing) (a b : TransportSession)
    → All Fits ms
    → a.recv_ack < 2 ^ 32
    → a.outgoing ≡ []
    → b.incoming ≡ (send_all ms a).1.outgoing
    → ((send_all ms a).0 ≡ true) × ((recv_all (length ms) b).0 ≡ numbered a.send_seq a.recv_ack ms)
recv_all-send_all ms a b h small unsent carried =
    let (all, bytes) = send_all-wires ms a h in
    (
      all,
      recv_all-wires ms a.send_seq a.recv_ack b h small
          (carried ∙ bytes ∙ ap (λ sent. sent ++ wires (numbered a.send_seq a.recv_ack ms)) unsent),
    )
