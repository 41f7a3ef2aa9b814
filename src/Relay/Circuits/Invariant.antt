-- ===== src/Relay/Circuits/Invariant.antt =====
-- What holds of the circuit cache at every moment of a connection.
use cypher.Prelude.{
  String, ℕ, ◌≤◌, ◌≡◌, refl, sym, ap, ◌∙◌, inl, inr, Bool, true, false, ◌||◌, not, some, List, [],
  ◌∷◌, length, arith, Result, ok, err, Bool-cases, Option-cases, Result-cases, leb, ltb, ◌==◌,
  get_or, slice,
}
use cypher.Prelude.Bytes.{Bytes, from_le}
use cypher.Prelude.Assoc.{
  lookup, insert, bytes_Eq, pair_Eq, length-insert-le, length-insert_known, lookup-insert,
}
use cypher.Crypto.Primitives.{Primitives}
use cypher.Relay.Circuits.{
  max_circuits, CacheKey, CircuitCache, Signaling, derive_circuit_key, circuit_key_for,
  process_onion_request, Input, Connection, send, answer_with, on_frame, handle_onion_connection,
}
use cypher.Onion.Encoder.{onion_prefix}
use cypher.Transport.Frame.{Frame, contains, ping, session_close}

-- At most `MAX_CIRCUITS` circuits are cached, and each with the key that the relay derives for it.
pub record IsCache (p : Primitives) (relay_secret : Bytes) (circuits : CircuitCache) : Type 0 where
  pub bounded : length circuits ≤ max_circuits
  pub derived :
      (k : CacheKey) {key : Bytes} {seq_no : ℕ}
      → lookup k circuits ≡ some (key, seq_no)
      → key ≡ derive_circuit_key p relay_secret k.0

module _ (p : Primitives) (relay_secret : Bytes) where
  -- An entry with the circuit's own key put into the cache, when there is room for it.
  insert-IsCache :
      (circuits : CircuitCache) (k : CacheKey) (key : Bytes) (n : ℕ)
      → IsCache p relay_secret circuits
      → key ≡ derive_circuit_key p relay_secret k.0
      → length (insert k (key, n) circuits) ≤ max_circuits
      → IsCache p relay_secret (insert k (key, n) circuits)
  insert-IsCache circuits k key n h own room = record {
    bounded = room;
    derived = λ j e. elim (lookup-insert k j (key, n) circuits e) [
      | inl (same, new) ↦
          sym (ap (λ v. v.0) new)
          ∙ (own ∙ ap (λ (c : CacheKey). derive_circuit_key p relay_secret c.0) same)
      | inr old ↦ h.derived j old
    ];
  }

  pub circuit_key_for-IsCache :
      (k : CacheKey) (n : ℕ) (circuits : CircuitCache)
      → IsCache p relay_secret circuits
      → IsCache p relay_secret (circuit_key_for p relay_secret k n circuits).1
  unfolding circuit_key_for
  circuit_key_for-IsCache k n circuits h = elim (Option-cases (lookup k circuits)) [
    | inl absent ↦ (elim (Bool-cases (leb max_circuits (length circuits))) [
      | inl full ↦ rw (absent, full, circuit_key_for) h
      | inr room ↦
          rw (absent, room, circuit_key_for)
            (insert-IsCache circuits k (derive_circuit_key p relay_secret k.0) n h refl (
              ground
                (arith, length-insert-le k (derive_circuit_key p relay_secret k.0, n) circuits)))
    ])
    | inr ((key, last), present) ↦ (elim (Bool-cases (leb n last)) [
      | inl old ↦ rw (present, old, circuit_key_for) h
      | inr new ↦
          rw (present, new, circuit_key_for)
            (insert-IsCache circuits k key n h (h.derived k present)
              (omega (arith, length-insert_known k (key, n) circuits present, h.bounded)))
    ])
  ]

  pub process-IsCache :
      (signaling : Signaling) (packet : Bytes) (circuits : CircuitCache)
      → IsCache p relay_secret circuits
      → IsCache p relay_secret (process_onion_request p relay_secret signaling packet circuits).1
  unfolding process_onion_request
  process-IsCache signaling packet circuits h = elim (Bool-cases (ltb (length packet) 58)) [
    | inl short ↦ rw short h
    | inr long ↦ rw long (
        circuit_key_for-IsCache (slice 1 33 packet, slice 33 49 packet)
          (from_le (slice 49 57 packet)) circuits h)
  ]

  send-circuits : (w : Bool) (f : Frame) (c : Connection) → (send w f c).1.circuits ≡ c.circuits
  unfolding send
  send-circuits true f c = refl
  send-circuits false f c = refl

  answer_with-circuits :
      (f : Frame) (w : Bool) (r : Result String Bytes × CircuitCache) (c : Connection)
      → (answer_with p relay_secret f w r c).1.circuits ≡ r.1
  unfolding answer_with
  answer_with-circuits f w (ok response, circuits) c = send-circuits w _ _
  answer_with-circuits f w (err e, circuits) c = refl

  pub on_frame-IsCache :
      (i : Input) (f : Frame) (c : Connection)
      → IsCache p relay_secret c.circuits
      → IsCache p relay_secret (on_frame p relay_secret i f c).1.circuits
  unfolding on_frame
  on_frame-IsCache i f c h = elim (Bool-cases (contains f.flags ping)) [
    | inl is_ping ↦ rw (is_ping, send-circuits i.writer_open _ c) h
    | inr not_ping ↦ (elim (Bool-cases (contains f.flags session_close)) [
      | inl close ↦ rw (not_ping, close) h
      | inr going ↦
          (elim (Bool-cases
            (ltb (length f.payload) 1 || not (get_or f.payload 0 0 == onion_prefix))) [
              | inl ignored ↦ rw (not_ping, going, ignored) h
              | inr request ↦
                  rw
                    (
                      not_ping,
                      going,
                      request,
                      answer_with-circuits f i.writer_open
                          (process_onion_request p relay_secret i.signaling f.payload c.circuits) c,
                    )
                    (process-IsCache i.signaling f.payload c.circuits h)
            ])
    ])
  ]

  -- Whatever frames, writer states and signaling answers a connection meets, and however it ends: it
  -- caches at most sixteen circuits, each with the key that the relay derives for the client's
  -- ephemeral key.
  pub handle_onion_connection-IsCache :
      (is : List Input) (c : Connection)
      → IsCache p relay_secret c.circuits
      → IsCache p relay_secret (handle_onion_connection p relay_secret is c).circuits
  unfolding handle_onion_connection on_frame
  handle_onion_connection-IsCache [] c h = h
  handle_onion_connection-IsCache (i ∷ is) c h = elim (Result-cases i.received) [
    | inl (f, got) ↦
        let next = on_frame-IsCache i f c h in
        (elim (Bool-cases (on_frame p relay_secret i f c).0) [
          | inl goes_on ↦
              rw (got, goes_on)
                (handle_onion_connection-IsCache is (on_frame p relay_secret i f c).1 next)
          | inr stops ↦ rw (got, stops) next
        ])
    | inr (e, failed) ↦ rw failed h
  ]
