-- ===== src/Client/Signaling.antt =====
-- crates/cypher-client-core/src/signaling.rs: what the client makes of the replies of signaling. A JSON object is the fields that the client looks for; a hex text is its
-- ASCII codes.
use cypher.Prelude.{
  String, ◌%◌, Bool, false, Option, none, some, [], ◌∷◌, length, ◌==◌, if◌then◌else◌, Error, Result,
  ok, err, ◌>>=◌, ok_or,
}
use cypher.Prelude.Errors.{protocol}
use cypher.Prelude.Bytes.{Bytes}
use cypher.Signaling.Hex.{from_hex_pair}

pub record Json : Type 0 where
  pub found : Option Bool
  pub peer_id : Option Bytes
  pub link_id : Option Bytes
  pub error : Option String

pub data ServerFrame : Type 0 where
  signaling : Json → ServerFrame
  proto : Bytes → ServerFrame

unfoldable pub expect_json_response : ServerFrame → Result Error Json
expect_json_response (signaling v) = ok v
expect_json_response (proto payload) = err (protocol "expected JSON response but got proto binary")

unfoldable pub decode_pairs : Bytes → Result Error Bytes
decode_pairs [] = ok []
decode_pairs (c ∷ []) = err (protocol "invalid hex")
decode_pairs (c ∷ d ∷ rest) = do
  b ← ok_or (from_hex_pair c d) (protocol "invalid hex")
  more ← decode_pairs rest
  ok (b ∷ more)

unfoldable pub hex_decode : Bytes → Result Error Bytes
hex_decode hex =
    if length hex % 2 == 0 then decode_pairs hex else err (protocol "odd-length hex string")

-- `PeerId::from_bytes`
unfoldable pub peer_id_from_bytes : Bytes → Option Bytes
peer_id_from_bytes b = if length b == 32 then some b else none

-- The end of `create_link`.
unfoldable pub created_link : ServerFrame → Result Error Bytes
created_link frame = do
  resp ← expect_json_response frame
  ok_or resp.link_id (protocol "missing link_id in create_link response")

unfoldable pub found_peer : Json → Result Error Bytes
found_peer resp = do
  peer_id_hex ← ok_or resp.peer_id (protocol "missing peer_id in join_link response")
  peer_id_bytes ← hex_decode peer_id_hex
  ok_or (peer_id_from_bytes peer_id_bytes) (protocol "invalid peer_id bytes")

unfoldable pub link_error : Json → Error
link_error resp = elim resp.error [ none ↦ protocol "link not found" | some text ↦ protocol text ]

is_true : Option Bool → Bool
is_true none = false
is_true (some b) = b

-- The end of `join_link`.
unfoldable pub joined_link : ServerFrame → Result Error Bytes
unfolding is_true
joined_link frame = expect_json_response frame >>= λ resp.
    if is_true resp.found then found_peer resp else err (link_error resp)
