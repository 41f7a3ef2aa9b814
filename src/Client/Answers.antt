-- ===== src/Client/Answers.antt =====
-- crates/cypher-client-core/src/signaling.rs: what the client reads in the answers of
-- services/signaling/src/peer.rs.
use cypher.Prelude.{
  ◌%◌, ◌≡◌, refl, true, false, Option, none, some, [], ◌∷◌, All, length, ok, arith,
}
use cypher.Prelude.Bytes.{Bytes, IsByte}
use cypher.Prelude.Assoc.{nat_eq, bytes_Eq}
use cypher.Signaling.Hex.{hex_encode, from_hex_pair-digits, length-hex_encode}
use cypher.Signaling.State.{
  PeerSession, Reply, raw, peer_found, peer_joined, link_missing, prekeys_found, prekeys_missing,
  link_made,
}
use cypher.Client.Signaling.{
  ServerFrame, signaling, proto, expect_json_response, decode_pairs, hex_decode, peer_id_from_bytes,
  joined_link, found_peer,
}

-- The reply as the client receives it.
unfoldable pub server_frame : Reply → ServerFrame
server_frame (raw payload) = proto payload
server_frame (peer_found peer_id s) =
    signaling (record { found = some true; peer_id = some peer_id; link_id = none; error = none })
server_frame (peer_joined peer_id) =
    signaling (record { found = none; peer_id = some peer_id; link_id = none; error = none })
server_frame link_missing = signaling (record {
  found = some false;
  peer_id = none;
  link_id = none;
  error = some "link not found or expired";
})
server_frame (prekeys_found bundle) =
    signaling (record { found = some true; peer_id = none; link_id = none; error = none })
server_frame prekeys_missing = signaling (record {
  found = some false;
  peer_id = none;
  link_id = none;
  error = some "prekeys not found for peer";
})
server_frame (link_made link_id) =
    signaling (record { found = none; peer_id = none; link_id = some link_id; error = none })

decode_pairs-hex_encode :
    (bytes : Bytes) → All IsByte bytes → decode_pairs (hex_encode bytes) ≡ ok bytes
unfolding decode_pairs hex_encode
decode_pairs-hex_encode [] h = refl
decode_pairs-hex_encode (b ∷ bytes) (hb, h) =
    rw (from_hex_pair-digits b (omega (arith, hb)), decode_pairs-hex_encode bytes h) refl

hex_decode-hex_encode :
    (bytes : Bytes) → All IsByte bytes → hex_decode (hex_encode bytes) ≡ ok bytes
unfolding hex_decode
hex_decode-hex_encode bytes h =
    let even : length (hex_encode bytes) % 2 ≡ 0 = omega (arith, length-hex_encode bytes) in
    rw even (decode_pairs-hex_encode bytes h)

pub joined_link-peer_found :
    (creator : Bytes) (s : Option PeerSession)
    → All IsByte creator
    → length creator ≡ 32
    → joined_link (server_frame (peer_found (hex_encode creator) s)) ≡ ok creator
unfolding joined_link server_frame expect_json_response found_peer peer_id_from_bytes
joined_link-peer_found creator s bytes long = rw (hex_decode-hex_encode creator bytes, long) refl
