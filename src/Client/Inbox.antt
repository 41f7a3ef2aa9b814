-- ===== src/Client/Inbox.antt =====
-- crates/cypher-client-core/src: the answer to an inbox fetch, onion/bootstrap.rs, and the messages in
-- it, api/runtime.rs. The generated parser and Ed25519 are parameters.
use cypher.Prelude.{
  ℕ, zero, suc, ◌+◌, ◌-◌, Bool, true, false, not, Option, none, some, List, [], ◌∷◌, ◌++◌, length,
  take, drop, slice, ltb, leb, ◌==◌, if◌then◌else◌, Error, Result, ok, err, ◌>>=◌, refuse_if,
}
use cypher.Prelude.Errors.{protocol}
use cypher.Prelude.Bytes.{Bytes, to_le, from_le}

pub record InboxMessages : Type 0 where
  pub messages : Bytes
  pub count : ℕ

-- `dispatch` as far as it looks for `InboxMessages`: an error, another message, or that one.
pub record Library : Type 0 where
  pub dispatch : Bytes → Result Error (Option InboxMessages)
  pub verify : (verifying_key message signature : Bytes) → Bool

pub record SignedInboxResponse : Type 0 where
  pub proto_payload : Bytes
  pub claim_token : Option Bytes
  pub server_sig : Option Bytes

abbrev pub claim_token_len : ℕ
claim_token_len = 40

abbrev pub server_sig_len : ℕ
server_sig_len = 64

abbrev pub trailer_len : ℕ
trailer_len = claim_token_len + server_sig_len

-- `matches!(dispatch(...), Ok(Message::InboxMessages(_)))`
unfoldable pub is_inbox : Result Error (Option InboxMessages) → Bool
is_inbox (ok (some inbox)) = true
is_inbox (ok none) = false
is_inbox (err e) = false

unfoldable pub claim_token_timestamp : (token : Bytes) → Result Error ℕ
claim_token_timestamp token =
    if not (length token == claim_token_len)
    then err (protocol "invalid claim token length")
    else ok (from_le (take 8 token))

module _ (lib : Library) where
  unfoldable pub parse_unsigned : (raw : Bytes) → Result Error SignedInboxResponse
  parse_unsigned raw =
      if is_inbox (lib.dispatch raw)
      then ok (record { proto_payload = raw; claim_token = none; server_sig = none })
      else err (protocol "invalid inbox response payload")

  unfoldable pub parse_signed : (proto_len : ℕ) → (raw : Bytes) → Result Error SignedInboxResponse
  parse_signed proto_len raw =
      if is_inbox (lib.dispatch (take proto_len raw))
      then ok (record {
        proto_payload = take proto_len raw;
        claim_token = some (slice proto_len (proto_len + claim_token_len) raw);
        server_sig = some (drop (proto_len + claim_token_len) raw);
      })
      else parse_unsigned raw

  unfoldable pub parse : (raw : Bytes) → Result Error SignedInboxResponse
  parse raw =
      if ltb trailer_len (length raw)
      then parse_signed (length raw - trailer_len) raw
      else parse_unsigned raw

  unfoldable pub inbox_of_payload : Option InboxMessages → Result Error InboxMessages
  inbox_of_payload none = err (protocol "signed inbox response did not contain InboxMessages")
  inbox_of_payload (some inbox) = ok inbox

  unfoldable pub signed_data : InboxMessages → (inbox_id : Bytes) → (timestamp : ℕ) → Bytes
  signed_data inbox inbox_id timestamp =
      inbox.messages ++ (to_le 4 inbox.count ++ (inbox_id ++ to_le 8 timestamp))

  unfoldable pub verify_signed :
      (token server_sig verifying_key inbox_id payload : Bytes) → Result Error (Unit {0})
  verify_signed token server_sig verifying_key inbox_id payload = do
    timestamp ← claim_token_timestamp token
    message ← lib.dispatch payload
    inbox ← inbox_of_payload message
    refuse_if (not (lib.verify verifying_key (signed_data inbox inbox_id timestamp) server_sig))
        (protocol "invalid inbox response signature")

  unfoldable pub verify :
      SignedInboxResponse → (verifying_key inbox_id : Bytes) → Result Error (Unit {0})
  verify self verifying_key inbox_id = elim self.claim_token [
    | none ↦ ok tt
    | some token ↦ elim self.server_sig [
      | none ↦ err (protocol "missing inbox response signature")
      | some server_sig ↦ verify_signed token server_sig verifying_key inbox_id self.proto_payload
    ]
  ]

-- The loop of `handle_inbox_messages` on the bytes that are left: the messages that it hands on. Each
-- round takes four bytes at least, so as many rounds as there are bytes are enough.
unfoldable pub split_messages : (fuel : ℕ) → Bytes → List Bytes
split_messages zero bytes = []
split_messages (suc fuel) bytes =
    let len = from_le (take 4 bytes) in
    let rest = drop 4 bytes in
    let more = split_messages fuel (drop len rest) in
    if not (leb 4 (length bytes))
    then []
    else if ltb (length rest) len
    then []
    else take len rest ∷ more

unfoldable pub handle_inbox_messages : InboxMessages → List Bytes
handle_inbox_messages inbox = split_messages (length inbox.messages) inbox.messages
