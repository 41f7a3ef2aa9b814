-- ===== src/Transport/Session.antt =====
-- crates/cypher-transport/src/session.rs: a framed session over a stream. `Framed` is the codec on two
-- buffers: the bytes written so far, and the bytes that have come and are not read yet.
pub mod Channel
use cypher.Prelude.{
  ℕ, ◌+◌, ◌%◌, ◌^◌, Bool, true, false, Option, none, some, List, [], ◌∷◌, length, Error, Result, ok,
  err, ◌==◌, if◌then◌else◌,
}
use cypher.Prelude.Errors.{transport, connection_closed}
use cypher.Prelude.Bytes.{Bytes}
use cypher.Transport.Frame.{Frame, FrameFlags, ping, pong, session_close}
use cypher.Transport.Codec.{encode, decode}

pub record TransportSession : Type 0 where
  pub outgoing : Bytes
  pub incoming : Bytes
  pub send_seq : ℕ
  pub recv_ack : ℕ

unfoldable pub from_stream : TransportSession
from_stream = record { outgoing = []; incoming = []; send_seq = 0; recv_ack = 0 }

-- `inner.send(frame)` on what the codec answers.
unfoldable pub written :
    Result Error (Unit {0}) × Bytes → TransportSession → Result Error (Unit {0}) × TransportSession
written (ok _, outgoing) self = (ok tt, record self { outgoing = outgoing })
written (err e, outgoing) self = (err (transport "send error"), record self { outgoing = outgoing })

unfoldable pub send_frame :
    (payload : Bytes) → FrameFlags → TransportSession → Result Error (Unit {0}) × TransportSession
send_frame payload flags self =
    let seq = (self.send_seq + 1) % 2 ^ 32 in
    written
      (encode (record { seq_no = seq; ack = self.recv_ack; flags = flags; payload = payload })
        self.outgoing)
      (record self { send_seq = seq })

-- What `inner.next()` gives when no whole frame is there: nothing yet, or, on a stream that has ended,
-- the end or the error about the bytes that are left.
unfoldable pub at_end : (ended : Bool) → (left : Bytes) → Option (Result Error Frame)
at_end false left = none
at_end true left =
    if length left == 0 then some (err connection_closed) else some (err (transport "recv error"))

unfoldable pub received :
    (ended : Bool)
    → Result Error (Option Frame) × Bytes
    → TransportSession
    → Option (Result Error Frame) × TransportSession
received ended (ok (some frame), rest) self =
    (some (ok frame), record self { incoming = rest; recv_ack = frame.seq_no })
received ended (ok none, rest) self = (at_end ended rest, record self { incoming = rest })
received ended (err e, rest) self =
    (some (err (transport "recv error")), record self { incoming = rest })

unfoldable pub recv_frame :
    (ended : Bool) → TransportSession → Option (Result Error Frame) × TransportSession
recv_frame ended self = received ended (decode self.incoming) self

unfoldable pub send_ping : TransportSession → Result Error (Unit {0}) × TransportSession
send_ping = send_frame [] ping

unfoldable pub send_pong : TransportSession → Result Error (Unit {0}) × TransportSession
send_pong = send_frame [] pong

-- Closing the stream itself is left out.
unfoldable pub close : TransportSession → Result Error (Unit {0}) × TransportSession
close = send_frame [] session_close
