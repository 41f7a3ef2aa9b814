-- ===== src/Client/FetchReply.antt =====
-- The reply that signaling makes to a fetch, services/signaling/src/inbox.rs and signing.rs, as the
-- client reads it, crates/cypher-client-core/src/onion/bootstrap.rs and api/runtime.rs.
use cypher.Prelude.{
  ℕ, zero, suc, ◌+◌, ◌-◌, ◌%◌, ◌^◌, ◌≤◌, ◌<◌, ◌≡◌, refl, ap, ◌∙◌, true, false, some, List, [], ◌∷◌,
  ◌++◌, map, All, length, length-append, take, take-append, drop-append, drop_past, ltb, lt→ltb,
  leb, ◌==◌, arith, ok,
}
use cypher.Prelude.Bytes.{Bytes, IsByte, to_le, from_le, length-to_le, from_le-to_le}
use cypher.Crypto.Primitives.{IsHmac}
use cypher.Signaling.Hex.{hex_encode, hex_decode_bytes-hex_encode}
use cypher.Signaling.Signing.{ServerSigner, generate_claim_token, sign_inbox_response}
use cypher.Signaling.Claims.{token_time, length-generate_claim_token}
use cypher.Signaling.Peers.{Outside}
use cypher.Signaling.Inbox.{blob_of, fetch_reply}
use cypher.Client.Inbox.{
  InboxMessages, Library, SignedInboxResponse, is_inbox, parse, parse_signed, verify, verify_signed,
  signed_data, inbox_of_payload, claim_token_timestamp, split_messages, handle_inbox_messages,
}

-- A message that fits its length field and is not empty.
abbrev pub IsMessage : Bytes → Type 0
IsMessage m = (1 ≤ length m) × (length m < 2 ^ 32) × All IsByte m

-- The wire form of the messages.
unfoldable framed : List Bytes → Bytes
framed [] = []
framed (m ∷ ms) = to_le 4 (length m) ++ (m ++ framed ms)

blob_of-hex_encode : (ms : List Bytes) → All IsMessage ms → blob_of (map hex_encode ms) ≡ framed ms
unfolding blob_of framed
blob_of-hex_encode [] h = refl
blob_of-hex_encode (m ∷ ms) ((some_bytes, short, bytes), h) =
    let full : (length m == 0) ≡ false = ground arith in
    rw (hex_decode_bytes-hex_encode m bytes, full)
      (ap (λ rest. to_le 4 (length m) ++ (m ++ rest)) (blob_of-hex_encode ms h))

split_messages-framed :
    (fuel : ℕ) (ms : List Bytes)
    → All IsMessage ms
    → length (framed ms) ≤ fuel
    → split_messages fuel (framed ms) ≡ ms
unfolding split_messages framed
split_messages-framed zero [] h enough = refl
split_messages-framed (suc fuel) [] h enough = refl
split_messages-framed zero (m ∷ ms) h enough =
    absurd (
      omega (arith, length-append (to_le 4 (length m)) (m ++ framed ms), length-to_le 4 (length m)))
split_messages-framed (suc fuel) (m ∷ ms) ((some_bytes, short, bytes), h) enough =
    let n = length m in
    let four = length-to_le 4 n in
    let read : from_le (take 4 (to_le 4 n ++ (m ++ framed ms))) ≡ n =
      ap from_le (take-append 4 (to_le 4 n) (m ++ framed ms) four)
      ∙ from_le-to_le 4 n (omega arith) in
    let whole = length-append (to_le 4 n) (m ++ framed ms) in
    let inner = length-append m (framed ms) in
    let long : leb 4 (length (to_le 4 n ++ (m ++ framed ms))) ≡ true =
      ground (arith, whole, four) in
    let room : ltb (length (m ++ framed ms)) n ≡ false = ground (arith, inner) in
    rw
      (
        long,
        drop-append 4 (to_le 4 n) (m ++ framed ms) four,
        read,
        room,
        take-append n m (framed ms) refl,
        drop-append n m (framed ms) refl,
      )
      (ap (◌∷◌ m) (split_messages-framed fuel ms h (omega (arith, whole, inner, four))))

-- What the client relies on: the parser reads what the serializer wrote, in more than no bytes, and the
-- key of the client is the one of the server's signatures, which have 64 bytes.
pub record Understands (signer : ServerSigner) (o : Outside) (lib : Library) (verifying_key : Bytes)
    : Type 0 where
  pub reads :
      (messages : Bytes) (count : ℕ)
      → count < 2 ^ 32
      → lib.dispatch (o.serialize_inbox_messages messages count)
        ≡ ok (some (record { messages = messages; count = count }))
  pub written :
      (messages : Bytes) (count : ℕ) → 1 ≤ length (o.serialize_inbox_messages messages count)
  pub verifies : (message : Bytes) → lib.verify verifying_key message (signer.sign message) ≡ true
  pub length-signature : (message : Bytes) → length (signer.sign message) ≡ 64

module _ (signer : ServerSigner) (o : Outside) (lib : Library) (key : Bytes)
    (u : Understands signer o lib key) (mac : IsHmac signer.primitives) (now : ℕ)
    (small : now < 2 ^ 64) (inbox_id : Bytes) (payloads : List Bytes)
    (fine : All IsMessage payloads) where
  abbrev count : ℕ
  count = length (map hex_encode payloads) % 2 ^ 32

  abbrev payload : Bytes
  payload = o.serialize_inbox_messages (framed payloads) count

  reply_layout :
      fetch_reply signer o now inbox_id (map hex_encode payloads)
      ≡ payload
        ++ (generate_claim_token signer inbox_id now
            ++ sign_inbox_response signer (framed payloads) count inbox_id now)
  unfolding fetch_reply
  reply_layout = rw (blob_of-hex_encode payloads fine) refl

  length-sign_inbox_response :
      length (sign_inbox_response signer (framed payloads) count inbox_id now) ≡ 64
  unfolding sign_inbox_response
  length-sign_inbox_response = u.length-signature _

  abbrev response : SignedInboxResponse
  response = record {
    proto_payload = payload;
    claim_token = some (generate_claim_token signer inbox_id now);
    server_sig = some (sign_inbox_response signer (framed payloads) count inbox_id now);
  }

  read_payload :
      lib.dispatch payload ≡ ok (some (record { messages = framed payloads; count = count }))
  read_payload = u.reads (framed payloads) count (omega arith)

  parse-reply :
      parse lib (
        payload
        ++ (generate_claim_token signer inbox_id now
            ++ sign_inbox_response signer (framed payloads) count inbox_id now))
      ≡ ok response
  unfolding parse parse_signed is_inbox
  parse-reply =
      let token = generate_claim_token signer inbox_id now in
      let signature = sign_inbox_response signer (framed payloads) count inbox_id now in
      let n = length payload in
      let forty = length-generate_claim_token signer inbox_id now mac in
      let tail : length (token ++ signature) ≡ 104 =
        length-append token signature ∙ omega (arith, forty, length-sign_inbox_response) in
      let whole : length (payload ++ (token ++ signature)) ≡ n + 104 =
        length-append payload (token ++ signature) ∙ omega (arith, tail) in
      let long : ltb 104 (n + 104) ≡ true =
        lt→ltb 104 (n + 104) (omega (arith, u.written (framed payloads) count)) in
      let cut : n + 104 - 104 ≡ n = omega arith in
      let wide : n + 40 - n ≡ 40 = omega arith in
      rw
        (
          whole,
          long,
          cut,
          take-append n payload (token ++ signature) refl,
          read_payload,
          wide,
          drop-append n payload (token ++ signature) refl,
          take-append 40 token signature forty,
          drop_past n 40 payload (token ++ signature) refl,
          drop-append 40 token signature forty,
        )
        refl

  verify-response : verify lib response key inbox_id ≡ ok tt
  unfolding verify verify_signed claim_token_timestamp inbox_of_payload signed_data
      sign_inbox_response
  verify-response =
      rw
        (
          length-generate_claim_token signer inbox_id now mac,
          token_time signer inbox_id now small,
          read_payload,
          u.verifies (framed payloads ++ (to_le 4 count ++ (inbox_id ++ to_le 8 now))),
        )
        refl

  -- The reply to a fetch of non-empty messages is taken apart by the client into the claim token that
  -- the server made and a payload whose signature verifies, and the messages handed on are those that
  -- the inbox held, in their order.
  pub fetch_reply_understood :
      (r : SignedInboxResponse) × (parse lib
          (fetch_reply signer o now inbox_id (map hex_encode payloads))
        ≡ ok r)
      × (verify lib r key inbox_id ≡ ok tt)
      × (r.claim_token ≡ some (generate_claim_token signer inbox_id now))
      × ((inbox : InboxMessages) × (lib.dispatch r.proto_payload ≡ ok (some inbox))
          × (handle_inbox_messages inbox ≡ payloads))
  unfolding handle_inbox_messages
  fetch_reply_understood = (
    response,
    ap (parse lib) reply_layout ∙ parse-reply,
    verify-response,
    refl,
    (
      record { messages = framed payloads; count = count },
      read_payload,
      split_messages-framed (length (framed payloads)) payloads fine (omega arith),
    ),
  )
