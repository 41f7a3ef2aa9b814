-- ===== src/Relay/Circuits.antt =====
-- services/relay/src/onion.rs: one client's onion connection. The errors are `anyhow` texts.
pub mod Invariant
pub mod Replay
pub mod EndToEnd
use cypher.Prelude.{
  ℕ, ◌+◌, ◌%◌, ◌^◌, Bool, true, false, not, ◌||◌, String, Option, none, some, List, [], ◌∷◌, ◌++◌,
  length, drop, get_or, slice, ltb, leb, ◌==◌, if◌then◌else◌, Error, Result, ok, err, ◌>>=◌, ◌>>◌,
  refuse_if, ok_or, map_err,
}
use cypher.Prelude.Bytes.{Bytes, ascii, to_le, from_le}
use cypher.Prelude.Assoc.{lookup, insert, bytes_Eq, pair_Eq}
use cypher.Crypto.Primitives.{Primitives}
use cypher.Crypto.Aead.{aead_encrypt, aead_decrypt}
use cypher.Onion.Circuit.{nonce_material}
use cypher.Onion.Encoder.{
  onion_prefix, subtype_relay_request, subtype_relay_response, response_nonce_material,
  inner_message,
}
use cypher.Onion.Decoder.{inner_payload}
use cypher.Transport.Frame.{Frame, contains, none_flags, ping, pong, session_close}

abbrev pub max_circuits : ℕ
max_circuits = 16

abbrev pub CacheKey : Type 0
CacheKey = Bytes × Bytes

abbrev pub CircuitCache : Type 0
CircuitCache = List (CacheKey × (Bytes × ℕ))

-- What the generated `dispatch` can answer, as far as this file looks at it.
pub data Message : Type 0 where
  inbox_fetch inbox_ack other : Message

-- The code outside the repository that one request meets: the generated parser, and the NATS client
-- with the JSON envelope (subject, session id, payload); `none` is a failure or the timeout.
pub record Signaling : Type 0 where
  pub dispatch : Bytes → Option Message
  pub request : (subject : String) → (session_id : ℕ) → (payload : Bytes) → Option Bytes

module _ (p : Primitives) (relay_secret : Bytes) where
  unfoldable pub derive_circuit_key : Bytes → Bytes
  derive_circuit_key client_ek =
      p.hkdf (ascii "cypher-circuit-v1") (p.diffie_hellman relay_secret client_ek)
        (ascii "circuit-key") 32

  -- The cache lookup of `process_onion_request`, its replay and limit checks included.
  unfoldable pub circuit_key_for :
      CacheKey → (seq_no : ℕ) → CircuitCache → Result String Bytes × CircuitCache
  circuit_key_for cache_key seq_no circuits = elim (lookup cache_key circuits) [
    | some (key, last) ↦
        if leb seq_no last
        then (err "replayed or out-of-order seq_no", circuits)
        else (ok key, insert cache_key (key, seq_no) circuits)
    | none ↦
        if leb max_circuits (length circuits)
        then (err "circuit limit reached", circuits)
        else let key = derive_circuit_key cache_key.0 in
          (ok key, insert cache_key (key, seq_no) circuits)
  ]

  -- Decryption and the parsing of the inner plaintext.
  unfoldable pub open_request :
      (circuit_key circuit_id : Bytes) → (seq_no : ℕ) → (ciphertext : Bytes) → Result String Bytes
  open_request circuit_key circuit_id seq_no ciphertext = do
    inner ←
        map_err "AEAD decrypt failed"
          (aead_decrypt p circuit_key (nonce_material circuit_id seq_no) ciphertext circuit_id)
    refuse_if (ltb (length inner) 21) "onion inner too short"
    refuse_if (not (get_or inner 0 0 == subtype_relay_request)) "unexpected subtype"
    ok_or (inner_payload inner) "inner payload length exceeds data"

  -- The subject that a parsed request goes to.
  unfoldable pub subject_of : Message → Result String String
  subject_of inbox_fetch = ok "signaling.inbox_fetch"
  subject_of inbox_ack = ok "signaling.inbox_ack"
  subject_of other = err "unsupported onion request payload"

  unfoldable pub forward : Signaling → Bytes → Result String Bytes
  forward signaling request_payload = do
    message ← ok_or (signaling.dispatch request_payload) "unknown message"
    subject ← subject_of message
    ok_or (signaling.request subject 0 request_payload) "NATS request failed"

  unfoldable pub seal_response :
      (circuit_key circuit_id : Bytes)
      → (seq_no : ℕ) → (response_payload : Bytes) → Result String Bytes
  seal_response circuit_key circuit_id seq_no response_payload = do
    let resp_nonce = response_nonce_material circuit_id seq_no
    let resp_inner = inner_message subtype_relay_response circuit_id response_payload
    resp_ciphertext ←
        map_err "AEAD encrypt response failed"
          (aead_encrypt p circuit_key resp_nonce resp_inner circuit_id)
    ok (onion_prefix ∷ (to_le 8 seq_no ++ resp_ciphertext))

  unfoldable pub process_onion_request :
      Signaling → (packet : Bytes) → CircuitCache → Result String Bytes × CircuitCache
  process_onion_request signaling packet circuits =
      if ltb (length packet) 58
      then (err "onion request too short", circuits)
      else let pk_bytes = slice 1 33 packet in
        let circuit_id = slice 33 49 packet in
        let seq_no = from_le (slice 49 57 packet) in
        let ciphertext = drop 57 packet in
        let (key, circuits') = circuit_key_for (pk_bytes, circuit_id) seq_no circuits in
        (
          key >>= λ circuit_key.
              open_request circuit_key circuit_id seq_no ciphertext >>= λ request_payload.
              forward signaling request_payload >>= λ response_payload.
              seal_response circuit_key circuit_id seq_no response_payload,
          circuits',
        )

-- One turn of the loop: what the reader gives, whether the writer still takes a frame, and the answers
-- of signaling at that time.
pub record Input : Type 0 where
  pub received : Result Error Frame
  pub writer_open : Bool
  pub signaling : Signaling

-- The loop's variables, and the frames sent so far, the last one first.
pub record Connection : Type 0 where
  pub circuits : CircuitCache
  pub seq_counter : ℕ
  pub sent : List Frame

-- `writer.send(...)`: whether the loop goes on, and the frame sent or dropped.
unfoldable pub send : Bool → Frame → Connection → Bool × Connection
send true frame c =
    (true, record { circuits = c.circuits; seq_counter = c.seq_counter; sent = frame ∷ c.sent })
send false frame c = (false, c)

module _ (p : Primitives) (relay_secret : Bytes) where
  unfoldable pub answer_with :
      Frame → Bool → Result String Bytes × CircuitCache → Connection → Bool × Connection
  answer_with frame writer_open (ok response, circuits) c =
      let counter = (c.seq_counter + 1) % 2 ^ 32 in
      send writer_open
        (record { seq_no = counter; ack = frame.seq_no; flags = none_flags; payload = response })
        (record { circuits = circuits; seq_counter = counter; sent = c.sent })
  answer_with frame writer_open (err e, circuits) c =
      (true, record { circuits = circuits; seq_counter = c.seq_counter; sent = c.sent })

  unfoldable pub on_frame : Input → Frame → Connection → Bool × Connection
  on_frame i frame c =
      if contains frame.flags ping
      then send i.writer_open
          (record { seq_no = 0; ack = frame.seq_no; flags = pong; payload = [] }) c
      else if contains frame.flags session_close
      then (false, c)
      else if ltb (length frame.payload) 1 || not (get_or frame.payload 0 0 == onion_prefix)
      then (true, c)
      else answer_with frame i.writer_open
          (process_onion_request p relay_secret i.signaling frame.payload c.circuits) c

  -- The `while let` loop, on the turns that the connection gives it.
  unfoldable pub handle_onion_connection : List Input → Connection → Connection
  handle_onion_connection [] c = c
  handle_onion_connection (i ∷ is) c = elim i.received [
    | err e ↦ c
    | ok frame ↦
        let (goes_on, c') = on_frame i frame c in
        let rest = handle_onion_connection is c' in if goes_on then rest else c'
  ]
