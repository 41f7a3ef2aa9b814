-- ===== src/Relay/Pairing/Forwarding.antt =====
-- services/relay/src/main.rs: what the relay passes on between the two sides of a session.
use cypher.Prelude.{
  ℕ, ◌+◌, ◌%◌, ◌^◌, ◌<◌, ◌≡◌, refl, sym, ◌∙◌, inl, inr, Bool, true, false, not, ◌&&◌, List, [], ◌∷◌,
  ◌++◌, append-nil, append_assoc, length, if◌then◌else◌, Bool-cases, ok, arith,
}
use cypher.Transport.Frame.{Frame, contains, ping, pong, session_close}
use cypher.Relay.Pairing.{
  Turn, Direction, stop, send, relay_frame, forward_turn, Loops, Side, side_a, side_b, new_loops,
  forward_from, forward_both,
}

-- What the other side is to get of a frame.
unfoldable pub passed_on : Frame → List Frame
passed_on f =
    if contains f.flags ping
    then record { seq_no = 0; ack = f.seq_no; flags = pong; payload = [] } ∷ []
    else if contains f.flags pong
    then []
    else f ∷ []

-- The frames before the first one that closes the session.
unfoldable pub before_close : List Frame → List Frame
before_close [] = []
before_close (f ∷ fs) =
    let rest = before_close fs in
    if not (contains f.flags ping)
      && (not (contains f.flags pong) && contains f.flags session_close)
    then []
    else f ∷ rest

unfoldable pub all_passed : List Frame → List Frame
all_passed [] = []
all_passed (f ∷ fs) = passed_on f ++ all_passed fs

-- The payload bytes of the data frames.
unfoldable pub data_bytes : List Frame → ℕ
data_bytes [] = 0
data_bytes (f ∷ fs) =
    let rest = data_bytes fs in
    if contains f.flags ping
    then rest
    else if contains f.flags pong
    then rest
    else length f.payload + rest

-- What comes from the sides, in any order.
abbrev pub turns_of : List (Side × Frame) → List (Side × Turn)
turns_of [] = []
turns_of ((side, f) ∷ fs) = (side, record { received = ok f; writer_open = true }) ∷ turns_of fs

abbrev pub of_side_a : List (Side × Frame) → List Frame
of_side_a [] = []
of_side_a ((side_a, f) ∷ fs) = f ∷ of_side_a fs
of_side_a ((side_b, f) ∷ fs) = of_side_a fs

abbrev pub of_side_b : List (Side × Frame) → List Frame
of_side_b [] = []
of_side_b ((side_a, f) ∷ fs) = of_side_b fs
of_side_b ((side_b, f) ∷ fs) = f ∷ of_side_b fs

-- What a loop still takes of these.
taken : Bool → List Frame → List Frame
taken true fs = before_close fs
taken false fs = []

abbrev turn_of : Frame → Turn
turn_of f = record { received = ok f; writer_open = true }

-- A round keeps what is sent in the end, and what is counted in the end.
forward_turn-taken :
    (f : Frame) (fs : List Frame) (d : Direction) (bytes : ℕ)
    → let (d', bytes') = forward_turn (turn_of f) (d, bytes) in
      (d'.sent ++ all_passed (taken d'.running fs)
        ≡ d.sent ++ all_passed (taken d.running (f ∷ fs)))
      × ((bytes' + data_bytes (taken d'.running fs)) % 2 ^ 64
          ≡ (bytes + data_bytes (taken d.running (f ∷ fs))) % 2 ^ 64)
      × (bytes < 2 ^ 64 → bytes' < 2 ^ 64)
unfolding forward_turn relay_frame send stop before_close all_passed passed_on data_bytes taken
forward_turn-taken f fs d bytes = elim (Bool-cases d.running) [
  | inr done ↦ rw (done, taken) (refl, refl, λ h. h)
  | inl runs ↦ elim (Bool-cases (contains f.flags ping)) [
    | inl is_ping ↦
        rw (runs, is_ping, taken) (rw is_ping (append_assoc d.sent _ _), rw is_ping refl, λ h. h)
    | inr no_ping ↦ elim (Bool-cases (contains f.flags pong)) [
      | inl is_pong ↦
          rw (runs, no_ping, is_pong, taken)
            (rw (no_ping, is_pong) refl, rw (no_ping, is_pong) refl, λ h. h)
      | inr no_pong ↦ elim (Bool-cases (contains f.flags session_close)) [
        | inl closes ↦ rw (runs, no_ping, no_pong, closes, taken) (refl, refl, λ h. h)
        | inr stays ↦
            rw (runs, no_ping, no_pong, stays, taken)
              (
                rw (no_ping, no_pong) (append_assoc d.sent _ _),
                rw (no_ping, no_pong) (omega arith),
                λ h. omega arith,
              )
      ]
    ]
  ]
]

taken-nil : (running : Bool) → taken running [] ≡ []
unfolding taken before_close
taken-nil true = refl
taken-nil false = refl

ended : (d : Direction) → d.sent ≡ d.sent ++ all_passed (taken d.running [])
unfolding all_passed
ended d = rw (taken-nil d.running) (sym (append-nil d.sent))

-- All that the two loops send and count from some point on.
Forwards : List (Side × Frame) → Loops → Loops → Type 0
Forwards fs f f' =
    (f'.a_to_b.sent ≡ f.a_to_b.sent ++ all_passed (taken f.a_to_b.running (of_side_a fs)))
    × (f'.b_to_a.sent ≡ f.b_to_a.sent ++ all_passed (taken f.b_to_a.running (of_side_b fs)))
    × (f'.bytes_relayed % 2 ^ 64
        ≡ (f.bytes_relayed
            + data_bytes (taken f.a_to_b.running (of_side_a fs))
            + data_bytes (taken f.b_to_a.running (of_side_b fs)))
          % 2 ^ 64)
    × (f.bytes_relayed < 2 ^ 64 → f'.bytes_relayed < 2 ^ 64)

forward_both-Forwards :
    (fs : List (Side × Frame)) (f : Loops) → Forwards fs f (forward_both (turns_of fs) f)
unfolding Forwards forward_both forward_from data_bytes
forward_both-Forwards [] f = (
  ended f.a_to_b,
  ended f.b_to_a,
  rw (taken-nil f.a_to_b.running, taken-nil f.b_to_a.running) (omega arith),
  λ h. h,
)
forward_both-Forwards ((side_a, x) ∷ fs) f =
    let (sent, counted, small) = forward_turn-taken x (of_side_a fs) f.a_to_b f.bytes_relayed in
    let (a, b, bytes, fits) = forward_both-Forwards fs (forward_from side_a (turn_of x) f) in
    (a ∙ sent, b, omega (arith, counted, bytes), λ h. fits (small h))
forward_both-Forwards ((side_b, x) ∷ fs) f =
    let (sent, counted, small) = forward_turn-taken x (of_side_b fs) f.b_to_a f.bytes_relayed in
    let (a, b, bytes, fits) = forward_both-Forwards fs (forward_from side_b (turn_of x) f) in
    (a, b ∙ sent, omega (arith, counted, bytes), λ h. fits (small h))

-- In whatever order the frames of the two sides come, and as long as both sides take frames: each side
-- gets what the other sent before its own close, the data frames unchanged and in order, a PONG in the
-- place of each PING and nothing for a PONG; and the count that the two loops share is the payload
-- bytes passed on both ways, modulo 2^64.
pub forward_both_lem :
    (fs : List (Side × Frame))
    → let f = forward_both (turns_of fs) new_loops in
      (f.a_to_b.sent ≡ all_passed (before_close (of_side_a fs)))
      × (f.b_to_a.sent ≡ all_passed (before_close (of_side_b fs)))
      × (f.bytes_relayed
          ≡ (data_bytes (before_close (of_side_a fs)) + data_bytes (before_close (of_side_b fs)))
            % 2 ^ 64)
unfolding Forwards new_loops taken
forward_both_lem fs =
    let (a, b, bytes, fits) = forward_both-Forwards fs new_loops in
    (a, b, omega (arith, bytes, fits (omega arith)))
