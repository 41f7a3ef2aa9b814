-- ===== src/Signaling/Inbox.antt =====
-- services/signaling/src/inbox.rs: the blind inboxes, and the claims of a fetch in two phases; and the
-- delivery of a chat message, peer.rs and delivery.rs.
use cypher.Prelude.{
  ℕ, ◌+◌, ◌%◌, ◌^◌, Bool, true, false, Option, none, some, List, [], ◌∷◌, ◌++◌, length, take, leb,
  ◌==◌, if◌then◌else◌,
}
use cypher.Prelude.Bytes.{Bytes, to_le}
use cypher.Prelude.Assoc.{lookup, insert, remove, bytes_Eq, nat_eq}
use cypher.Signaling.Hex.{hex_encode, hex_decode_bytes}
use cypher.Signaling.State.{GatewayEnvelope, raw, Subject, session, request, Service, publish}
use cypher.Signaling.Peers.{Outside, Message, chat_send, inbox_store, inbox_fetch, inbox_ack}
use cypher.Signaling.Signing.{
  ServerSigner, generate_claim_token, verify_claim_token, sign_inbox_response,
}

abbrev pub inbox_max_messages : ℕ
inbox_max_messages = 100

abbrev pub inbox_claim_ttl_secs : ℕ
inbox_claim_ttl_secs = 300

abbrev pub or_empty : Option (List Bytes) → List Bytes
or_empty none = []
or_empty (some messages) = messages

-- `LRANGE key 0 -1`: an absent list is an empty one.
unfoldable pub inbox_of : (inbox_hex : Bytes) → Service → List Bytes
inbox_of inbox_hex s = or_empty (lookup inbox_hex s.inboxes)

-- `LPUSH`, then `LTRIM 0 99`.
unfoldable pub store_inbox_payload : (inbox_hex payload : Bytes) → Service → Service
store_inbox_payload inbox_hex payload s = record s {
  inboxes =
      insert inbox_hex (take inbox_max_messages (hex_encode payload ∷ inbox_of inbox_hex s))
        s.inboxes;
}

-- Whether the message went to an online peer, or the error of NATS.
unfoldable pub try_forward_or_inbox :
    Outside → (peer_id_hex payload : Bytes) → Service → Option Bool × Service
try_forward_or_inbox o peer_id_hex payload s = elim (lookup peer_id_hex s.sessions) [
  | some to ↦
      let (sent, s') = publish o.nats (session to.session_id) (raw payload) s in
      (if sent then some true else none, s')
  | none ↦ elim (lookup peer_id_hex s.prekeys) [
    | none ↦ (some false, s)
    | some bundle ↦ elim bundle.inbox_id [
      | none ↦ (some false, s)
      | some inbox_hex ↦ (some false, store_inbox_payload inbox_hex payload s)
    ]
  ]
]

unfoldable pub succeeded : Option Bool × Service → Bool × Service
succeeded (none, s) = (false, s)
succeeded (some _, s) = (true, s)

unfoldable pub on_chat_send : Outside → GatewayEnvelope → Message → Service → Bool × Service
on_chat_send o envelope (chat_send chat) s = elim (lookup envelope.session_id s.reverse) [
  | none ↦ (false, s)
  | some sender_hex ↦ succeeded (
      try_forward_or_inbox o (hex_encode chat.peer_id)
        (o.serialize_chat_send (record chat { peer_id = hex_decode_bytes sender_hex })) s)
]
on_chat_send o envelope _ s = (true, s)

unfoldable pub on_inbox_store : GatewayEnvelope → Message → Service → Bool × Service
on_inbox_store envelope (inbox_store inbox_id ciphertext) s =
    (true, store_inbox_payload (hex_encode inbox_id) ciphertext s)
on_inbox_store envelope _ s = (true, s)

-- The Lua script of a fetch.
unfoldable pub fetch_script :
    (inbox_hex claim_key : Bytes) → (claim_deadline : ℕ) → Service → List Bytes × Service
fetch_script inbox_hex claim_key claim_deadline s =
    let msgs = inbox_of inbox_hex s in
    let claimed =
      if leb 1 (length msgs)
      then record s {
        claims = insert claim_key (record { inbox_id = inbox_hex; messages = msgs }) s.claims;
        claim_index = insert claim_key claim_deadline s.claim_index;
      }
      else s in
    (msgs, record claimed { inboxes = remove inbox_hex claimed.inboxes })

-- The messages with their lengths; an empty one is left out.
unfoldable pub blob_of : List Bytes → Bytes
blob_of [] = []
blob_of (encoded ∷ rest) =
    let raw_message = hex_decode_bytes encoded in
    let after = blob_of rest in
    if length raw_message == 0
    then after
    else to_le 4 (length raw_message) ++ (raw_message ++ after)

unfoldable pub reply_subject : Option Bytes → (session_id : ℕ) → Subject
reply_subject none session_id = session session_id
reply_subject (some reply) session_id = request reply

-- The key of the claim that a fetch makes.
unfoldable pub claim_key_of : ServerSigner → (now : ℕ) → (inbox_id : Bytes) → Bytes
claim_key_of signer now inbox_id = hex_encode (generate_claim_token signer inbox_id now)

-- The reply: the messages, the claim token and the signature.
unfoldable pub fetch_reply :
    ServerSigner → Outside → (now : ℕ) → (inbox_id : Bytes) → (messages : List Bytes) → Bytes
fetch_reply signer o now inbox_id messages =
    let blob = blob_of messages in
    let count = length messages % 2 ^ 32 in
    o.serialize_inbox_messages blob count
    ++ (generate_claim_token signer inbox_id now
        ++ sign_inbox_response signer blob count inbox_id now)

-- The Lua script of an acknowledgement.
unfoldable pub delete_claim : (claim_key : Bytes) → Service → Service
delete_claim claim_key s = record s {
  claims = remove claim_key s.claims;
  claim_index = remove claim_key s.claim_index;
}

module _ (signer : ServerSigner) (o : Outside) (now : ℕ) (reply : Option Bytes) where
  unfoldable pub fetch : (session_id : ℕ) → (inbox_id : Bytes) → Service → Bool × Service
  fetch session_id inbox_id s =
      let (messages, s') =
        fetch_script (hex_encode inbox_id) (claim_key_of signer now inbox_id)
          (now + inbox_claim_ttl_secs) s in
      publish o.nats (reply_subject reply session_id)
        (raw (fetch_reply signer o now inbox_id messages)) s'

  unfoldable pub on_inbox_fetch : GatewayEnvelope → Message → Service → Bool × Service
  on_inbox_fetch envelope (inbox_fetch inbox_id) s = fetch envelope.session_id inbox_id s
  on_inbox_fetch envelope _ s = (true, s)

  unfoldable pub acknowledge :
      (session_id : ℕ) → (inbox_id claim_token : Bytes) → Service → Bool × Service
  acknowledge session_id inbox_id claim_token s =
      if verify_claim_token signer now inbox_id claim_token inbox_claim_ttl_secs
      then publish o.nats (reply_subject reply session_id) (raw (o.serialize_inbox_messages [] 0))
          (delete_claim (hex_encode claim_token) s)
      else (true, s)

  unfoldable pub on_inbox_ack : GatewayEnvelope → Message → Service → Bool × Service
  on_inbox_ack envelope (inbox_ack inbox_id claim_token) s =
      acknowledge envelope.session_id inbox_id claim_token s
  on_inbox_ack envelope _ s = (true, s)

-- The Lua script of a recovery. Pushing the messages from the last to the first puts them in front of
-- the list in their order.
unfoldable pub recover_script : (claim_key : Bytes) → Service → Service
recover_script claim_key s = elim (lookup claim_key s.claims) [
  | none ↦ record s { claim_index = remove claim_key s.claim_index }
  | some claim ↦ record s {
    inboxes =
        insert claim.inbox_id
          (take inbox_max_messages (claim.messages ++ inbox_of claim.inbox_id s)) s.inboxes;
    claims = remove claim_key s.claims;
    claim_index = remove claim_key s.claim_index;
  }
]

-- `ZRANGEBYSCORE key -inf now`
unfoldable pub due_claims : (now : ℕ) → List (Bytes × ℕ) → List Bytes
due_claims now [] = []
due_claims now ((key, deadline) ∷ rest) =
    let after = due_claims now rest in if leb deadline now then key ∷ after else after

unfoldable pub recover_all : List Bytes → Service → Service
recover_all [] s = s
recover_all (key ∷ keys) s = recover_all keys (recover_script key s)

-- One round of `recover_claims`.
unfoldable pub recover_claims : (now : ℕ) → Service → Service
recover_claims now s = recover_all (due_claims now s.claim_index) s
