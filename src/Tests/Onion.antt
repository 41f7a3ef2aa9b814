-- ===== src/Tests/Onion.antt =====
-- The theorems on the onion circuits and the relay at concrete inputs.
use cypher.Prelude.{
  ◌≡◌, ◌≢◌, refl, inl, true, some, [], ◌∷◌, ◌++◌, List, replicate, arith, io, ok, err,
}
use cypher.Prelude.Bytes.{Bytes, to_le, from_le}
use cypher.Prelude.Assoc.{lookup, insert}
use cypher.Crypto.Aead.{aead_encrypt, aead_decrypt, derive_nonce}
use cypher.Onion.Circuit.{Circuit, IsCircuit, nonce_material}
use cypher.Onion.Encoder.{
  response_nonce_material, encode_relay_request, inner_message,
  response_nonce_material-nonce_material, response_seq,
}
use cypher.Onion.Decoder.{decode_relay_response, inner_payload}
use cypher.Onion.RoundTrip.{moved}
use cypher.Relay.Circuits.{
  inbox_fetch, Signaling, CircuitCache, derive_circuit_key, process_onion_request, forward,
  subject_of, circuit_key_for, open_request, seal_response, Input, handle_onion_connection,
}
use cypher.Relay.Circuits.Invariant.{IsCache, handle_onion_connection-IsCache}
use cypher.Relay.Circuits.Replay.{process_all, process_answered-process_replayed}
use cypher.Relay.Circuits.EndToEnd.{process_onion_request-encode_relay_request}
use cypher.Tests.Toy.{toy, toy-IsAead}

response_nonce_material-nonce_material_example :
    response_nonce_material (1 ∷ []) 5 ≢ nonce_material (1 ∷ []) 5
response_nonce_material-nonce_material_example =
    response_nonce_material-nonce_material (1 ∷ []) 5 5 (omega arith) (omega arith)

-- The relay's secret, a client's circuit with it, and a signaling service that answers fetches.
abbrev relay_secret : Bytes
relay_secret = 9 ∷ []

abbrev circuit : Circuit
circuit = record {
  circuit_id = replicate 16 1;
  circuit_key = derive_circuit_key toy relay_secret (replicate 32 4);
  ephemeral_public = replicate 32 4;
  seq = 3;
}

circuit-IsCircuit : IsCircuit circuit
circuit-IsCircuit = record {
  length-circuit_id = refl;
  length-ephemeral_public = refl;
  seq_range = omega arith;
}

abbrev request : Bytes
request = 77 ∷ 78 ∷ []

abbrev answer : Bytes
answer = 5 ∷ []

abbrev signaling : Signaling
signaling = record {
  dispatch = λ payload. some inbox_fetch;
  request = λ subject session_id payload. some answer;
}

empty-IsCache : IsCache toy relay_secret []
unfolding lookup
empty-IsCache = record { bounded = omega arith; derived = λ k e. absurd (ground arith) }

process_onion_request-encode_relay_request_example :
    (packet : Bytes) × (reply : Bytes) × (encode_relay_request toy circuit request
      ≡ (ok packet, moved circuit))
    × ((process_onion_request toy relay_secret signaling packet []).0 ≡ ok reply)
    × (decode_relay_response toy circuit.circuit_key (replicate 16 1) reply ≡ ok answer)
process_onion_request-encode_relay_request_example =
    process_onion_request-encode_relay_request toy relay_secret toy-IsAead signaling circuit []
      request answer circuit-IsCircuit refl empty-IsCache (inl (unfold lookup in refl, omega arith))
      (omega arith) (omega arith) (unfold forward subject_of in refl)

-- The request above on the wire, and the relay's reply.
abbrev packet : Bytes
packet =
    2
    ∷ (replicate 32 4
        ++ (replicate 16 1
            ++ (3
                ∷ (replicate 7 0
                    ++ (2 ∷ (replicate 16 1 ++ (2 ∷ 0 ∷ 0 ∷ 0 ∷ 77 ∷ 78 ∷ replicate 16 0)))))))

abbrev reply : Bytes
reply = 2 ∷ 3 ∷ (replicate 7 0 ++ (3 ∷ (replicate 16 1 ++ (1 ∷ 0 ∷ 0 ∷ 0 ∷ 5 ∷ replicate 16 0))))

packet_answered : (process_onion_request toy relay_secret signaling packet []).0 ≡ ok reply
unfolding process_onion_request circuit_key_for lookup insert derive_circuit_key open_request
    aead_decrypt derive_nonce nonce_material inner_payload forward subject_of seal_response
    response_nonce_material response_seq inner_message aead_encrypt from_le to_le
packet_answered = refl

abbrev answered : CircuitCache
answered =
    process_all toy relay_secret ((signaling, 2 ∷ []) ∷ [])
      ((process_onion_request toy relay_secret signaling packet []).1)

process_answered-process_replayed_example :
    process_onion_request toy relay_secret signaling packet answered
    ≡ (err "replayed or out-of-order seq_no", answered)
process_answered-process_replayed_example =
    process_answered-process_replayed toy relay_secret signaling signaling packet packet
      ((signaling, 2 ∷ []) ∷ []) [] reply packet_answered (omega arith) refl (omega arith)

abbrev inputs : List Input
inputs =
    record {
      received = ok (record { seq_no = 1; ack = 0; flags = 0; payload = packet });
      writer_open = true;
      signaling = signaling;
    }
    ∷ record { received = err (io "closed"); writer_open = true; signaling = signaling }
    ∷ []

handle_onion_connection-IsCache_example :
    IsCache toy relay_secret
      (handle_onion_connection toy relay_secret inputs
        (record { circuits = []; seq_counter = 0; sent = [] })).circuits
handle_onion_connection-IsCache_example =
    handle_onion_connection-IsCache toy relay_secret inputs
      (record { circuits = []; seq_counter = 0; sent = [] }) empty-IsCache
