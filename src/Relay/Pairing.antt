-- ===== src/Relay/Pairing.antt =====
-- services/relay/src/main.rs: clients that meet under a session key, and the frames between them. A
-- connection is its number, which stands for its reader and for the channel of its writer; the key is
-- the one that the first frame carries, trimmed.
pub mod Forwarding
pub mod Meeting
use cypher.Prelude.{
  ℕ, ◌+◌, ◌-◌, ◌*◌, ◌%◌, ◌^◌, Bool, true, false, Option, none, some, List, [], ◌∷◌, ◌++◌, length,
  ltb, ◌==◌, if◌then◌else◌, Error, Result, ok, err,
}
use cypher.Prelude.Bytes.{Bytes, bytes_eq, ascii}
use cypher.Prelude.Assoc.{lookup, insert, remove, bytes_Eq}
use cypher.Transport.Frame.{Frame, contains, ping, pong, session_close}

abbrev pub max_session_lifetime_secs : ℕ
max_session_lifetime_secs = 60 * 60

-- `Duration::from_secs(MAX_SESSION_LIFETIME_SECS)` in nanoseconds, as the times of the clock are.
abbrev pub max_lifetime : ℕ
max_lifetime = max_session_lifetime_secs * 1_000_000_000

pub record RelaySession : Type 0 where
  pub peer_a : ℕ
  pub peer_b : ℕ
  pub created_at : ℕ

pub record RelayService : Type 0 where
  pub sessions : List (Bytes × RelaySession)
  pub pending : List (Bytes × ℕ)
  pub relay_sessions : ℕ
  pub relay_bytes : ℕ

-- What a connection becomes: it is refused, it speaks the onion protocol, it waits, or it is paired.
pub data Admission : Type 0 where
  refused onion waiting : Admission
  paired : RelaySession → Admission

unfoldable pub pair_with :
    (now : ℕ)
    → (session_key : Bytes) → (partner connection : ℕ) → RelayService
    → Admission × RelayService
pair_with now session_key partner connection s =
    let relay : RelaySession = record { peer_a = partner; peer_b = connection; created_at = now } in
    (
      paired relay,
      record s {
        pending = remove session_key s.pending;
        sessions = insert session_key relay s.sessions;
        relay_sessions = s.relay_sessions + 1;
      },
    )

unfoldable pub wait_for_partner :
    (session_key : Bytes) → (connection : ℕ) → RelayService → Admission × RelayService
wait_for_partner session_key connection s =
    (waiting, record s { pending = insert session_key connection s.pending })

unfoldable pub admit_key :
    (now : ℕ) → (session_key : Bytes) → (connection : ℕ) → RelayService → Admission × RelayService
admit_key now session_key connection s = elim (lookup session_key s.pending) [
  | some partner ↦ pair_with now session_key partner connection s
  | none ↦ wait_for_partner session_key connection s
]

-- `handle_connection` up to the start of the forwarding.
unfoldable pub handle_connection :
    (now : ℕ) → (session_key : Bytes) → (connection : ℕ) → RelayService → Admission × RelayService
handle_connection now session_key connection s =
    if length session_key == 0
    then (refused, s)
    else if bytes_eq session_key (ascii "ONION")
    then (onion, s)
    else admit_key now session_key connection s

-- One side's reader has come to its end.
unfoldable pub side_ended : (session_key : Bytes) → RelayService → RelayService
side_ended session_key s = record s { sessions = remove session_key s.sessions }

-- Both sides have, with the bytes that they relayed.
unfoldable pub session_ended : (bytes_relayed : ℕ) → RelayService → RelayService
session_ended bytes_relayed s = record s {
  relay_sessions = s.relay_sessions - 1;
  relay_bytes = s.relay_bytes + bytes_relayed;
}

unfoldable pub expired_keys : (now : ℕ) → List (Bytes × RelaySession) → List Bytes
expired_keys now [] = []
expired_keys now ((key, relay) ∷ rest) =
    let more = expired_keys now rest in
    if ltb max_lifetime (now - relay.created_at) then key ∷ more else more

unfoldable pub remove_keys : List Bytes → RelayService → RelayService
remove_keys [] s = s
remove_keys (key ∷ keys) s = remove_keys keys (side_ended key s)

-- One round of `cleanup_task`.
unfoldable pub cleanup : (now : ℕ) → RelayService → RelayService
cleanup now s = remove_keys (expired_keys now s.sessions) s

-- A turn of the loop: what the reader gives, and whether the other side's writer still takes a frame.
pub record Turn : Type 0 where
  pub received : Result Error Frame
  pub writer_open : Bool

-- One direction: whether its loop still runs, and the frames that it has sent to the other side.
pub record Direction : Type 0 where
  pub running : Bool
  pub sent : List Frame

unfoldable pub stop : Direction → Direction
stop d = record d { running = false }

unfoldable pub send : Bool → Frame → Direction → Direction
send true frame d = record d { sent = d.sent ++ (frame ∷ []) }
send false frame d = stop d

-- The body on a frame, with the session's `bytes_relayed`, an `AtomicU64`. The delays of the bandwidth
-- limit change only when frames go on, and are left out.
unfoldable pub relay_frame : (writer_open : Bool) → Frame → Direction × ℕ → Direction × ℕ
relay_frame writer_open frame (d, bytes_relayed) =
    if contains frame.flags ping
    then (
      send writer_open (record { seq_no = 0; ack = frame.seq_no; flags = pong; payload = [] }) d,
      bytes_relayed,
    )
    else if contains frame.flags pong
    then (d, bytes_relayed)
    else if contains frame.flags session_close
    then (stop d, bytes_relayed)
    else (send writer_open frame d, (bytes_relayed + length frame.payload) % 2 ^ 64)

-- A round of `forward_loop`.
unfoldable pub forward_turn : Turn → Direction × ℕ → Direction × ℕ
forward_turn t (d, bytes_relayed) =
    if d.running
    then elim t.received [
      | err e ↦ (stop d, bytes_relayed)
      | ok frame ↦ relay_frame t.writer_open frame (d, bytes_relayed)
    ]
    else (d, bytes_relayed)

-- The two loops of a session, which run side by side and share the count.
pub record Loops : Type 0 where
  pub a_to_b : Direction
  pub b_to_a : Direction
  pub bytes_relayed : ℕ

pub data Side : Type 0 where
  side_a side_b : Side

unfoldable pub new_loops : Loops
new_loops = record {
  a_to_b = record { running = true; sent = [] };
  b_to_a = record { running = true; sent = [] };
  bytes_relayed = 0;
}

unfoldable pub forward_from : Side → Turn → Loops → Loops
forward_from side_a t f =
    let (d, bytes) = forward_turn t (f.a_to_b, f.bytes_relayed) in
    record f { a_to_b = d; bytes_relayed = bytes }
forward_from side_b t f =
    let (d, bytes) = forward_turn t (f.b_to_a, f.bytes_relayed) in
    record f { b_to_a = d; bytes_relayed = bytes }

-- The rounds of both loops, in the order in which they come.
unfoldable pub forward_both : List (Side × Turn) → Loops → Loops
forward_both [] f = f
forward_both ((side, t) ∷ rest) f = forward_both rest (forward_from side t f)
