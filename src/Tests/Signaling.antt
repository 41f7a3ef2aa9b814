-- ===== src/Tests/Signaling.antt =====
-- The theorems on signaling and on the client's side of a fetch, on small states.
use cypher.Prelude.{
  ap, get_or, length-take, Bool-cases, sym, ℕ, ◌+◌, ◌^◌, ◌≤◌, ◌<◌, ◌≡◌, ◌≢◌, ◌↔◌, refl, inl, inr,
  true, none, some, List, [], ◌∷◌, ◌++◌, map, replicate, length-append, length-replicate, take,
  take-append, drop, drop-append, ok, arith,
}
use cypher.Prelude.Bytes.{
  Bytes, to_le, from_le, length-to_le, from_le-to_le, bytes_eq, bytes_eq_refl,
}
use cypher.Prelude.Assoc.{some_injective, lookup, nat_eq, bytes_Eq}
use cypher.Prelude.Maps.{some-none}
use cypher.Signaling.Hex.{hex_encode, hex_digit}
use cypher.Signaling.State.{Service}
use cypher.Signaling.Peers.{Outside}
use cypher.Signaling.Signing.{ServerSigner, generate_claim_token, verify_claim_token}
use cypher.Signaling.Claims.{verify_claim_token_iff}
use cypher.Signaling.Sessions.{Report, registered, deregistered, session_of}
use cypher.Signaling.History.{run_reports, replay, IsHistory, run_reports-replay}
use cypher.Signaling.Inbox.{
  inbox_of, store_inbox_payload, fetch, claim_key_of, acknowledge, recover_script, recover_claims,
  fetch_reply,
}
use cypher.Signaling.Bounds.{
  IsBounded, Inboxes, here, next, stored, fetched, recovered, Inboxes-IsBounded,
}
use cypher.Signaling.Meanwhile.{
  fetched as another_fetched, stored as another_stored, here as at_once,
}
use cypher.Signaling.Recovery.{recover_script-fetch, acknowledge_own_token, refetch_replaces_claim}
use cypher.Client.Inbox.{
  InboxMessages, Library, SignedInboxResponse, parse, verify, handle_inbox_messages,
}
use cypher.Client.FetchReply.{Understands, fetch_reply_understood}
use cypher.Tests.Toy.{toy, toy-IsHmac}

-- Peer 7 registers session 1, comes back as session 2, and session 1 ends after that.
abbrev reports : List Report
reports = deregistered 1 ∷ registered 2 (7 ∷ []) ∷ registered 1 (7 ∷ []) ∷ []

reports-IsHistory : IsHistory reports
unfolding IsHistory replay
reports-IsHistory = (
  (tt, λ q held. absurd (some-none (sym held))),
  λ q held. elim (Bool-cases (bytes_eq (7 ∷ []) q)) [
    | inl same ↦ absurd (omega (arith, some_injective {a = 1} {b = 2} (rw same at held)))
    | inr apart ↦ absurd (some-none (sym (rw apart at held)))
  ],
)

run_reports-replay_example :
    ((q : Bytes) → session_of q (run_reports [] reports) ≡ replay reports q)
    × ((n : ℕ) (q : Bytes)
        → (lookup n (run_reports [] reports).reverse ≡ some q) ↔ (replay reports q ≡ some n))
run_reports-replay_example = run_reports-replay [] reports reports-IsHistory

-- A signature of 64 bytes, and a message as its count before its bytes.
abbrev signer : ServerSigner
signer = record {
  primitives = toy;
  sign = λ message. take 64 (message ++ replicate 64 0);
  hmac_secret = 3 ∷ [];
}

abbrev outside : Outside
outside = record {
  dispatch = λ payload. none;
  serialize_chat_send = λ chat. chat.ciphertext;
  serialize_inbox_messages = λ messages count. to_le 4 count ++ messages;
  nats = λ subject. true;
}

abbrev library : Library
library = record {
  dispatch =
      λ payload. ok (some (record { messages = drop 4 payload; count = from_le (take 4 payload) }));
  verify = λ key message signature. bytes_eq signature (take 64 (message ++ replicate 64 0));
}

understands : Understands signer outside library []
understands = record {
  reads = λ messages count small.
      let four = length-to_le 4 count in
      rw
        (
          take-append 4 (to_le 4 count) messages four,
          drop-append 4 (to_le 4 count) messages four,
          from_le-to_le 4 count (omega arith),
        )
        refl;
  written =
      λ messages count. omega (arith, length-append (to_le 4 count) messages, length-to_le 4 count);
  verifies = λ message. bytes_eq_refl (take 64 (message ++ replicate 64 0));
  length-signature = λ message. omega (
    arith,
    length-take 64 (message ++ replicate 64 0),
    length-append message (replicate 64 0),
    length-replicate {A = ℕ} 64 0,
  );
}

abbrev letters : List Bytes
letters = (1 ∷ 2 ∷ []) ∷ (255 ∷ []) ∷ []

fetch_reply_understood_example :
    (r : SignedInboxResponse) × (parse library
        (fetch_reply signer outside 100 (5 ∷ []) (map hex_encode letters))
      ≡ ok r)
    × (verify library r [] (5 ∷ []) ≡ ok tt)
    × (r.claim_token ≡ some (generate_claim_token signer (5 ∷ []) 100))
    × ((inbox : InboxMessages) × (library.dispatch r.proto_payload ≡ ok (some inbox))
        × (handle_inbox_messages inbox ≡ letters))
fetch_reply_understood_example =
    fetch_reply_understood signer outside library [] understands toy-IsHmac 100 (omega arith)
      (5 ∷ []) letters
      (
        (omega arith, omega arith, (omega arith, (omega arith, tt))),
        ((omega arith, omega arith, (omega arith, tt)), tt),
      )

-- The inbox 5 holds one message.
abbrev service : Service
service = record {
  sessions = [];
  reverse = [];
  prekeys = [];
  links = [];
  ice = [];
  inboxes = (48 ∷ 53 ∷ [], (48 ∷ 49 ∷ []) ∷ []) ∷ [];
  claims = [];
  claim_index = [];
  peer_sessions = 0;
  links_created = 0;
  published = [];
}

abbrev inbox : Bytes
inbox = 48 ∷ 53 ∷ []

service-IsBounded : IsBounded service
unfolding lookup
service-IsBounded = record {
  inbox_bound = λ i messages found. elim (Bool-cases (bytes_eq inbox i)) [
    | inl same ↦ rw (← some_injective (rw same at found)) (omega arith)
    | inr apart ↦ absurd (some-none (sym (rw apart at found)))
  ];
  claim_bound = λ k c found. absurd (some-none (sym found));
}

-- A fetch at 100, a message that comes meanwhile, and a recovery at 400.
steps : Inboxes signer outside service (
    recover_claims 400
      (store_inbox_payload inbox (9 ∷ []) (fetch signer outside 100 none 1 (5 ∷ []) service).1))
steps =
    next
      (next (next here (fetched 100 none 1 (5 ∷ []) service))
        (stored inbox (9 ∷ []) (fetch signer outside 100 none 1 (5 ∷ []) service).1))
      (recovered 400
        (store_inbox_payload inbox (9 ∷ []) (fetch signer outside 100 none 1 (5 ∷ []) service).1))

Inboxes-IsBounded_example : IsBounded (
    recover_claims 400
      (store_inbox_payload inbox (9 ∷ []) (fetch signer outside 100 none 1 (5 ∷ []) service).1))
Inboxes-IsBounded_example = Inboxes-IsBounded steps service-IsBounded

-- A message comes to the inbox after the fetch, and another inbox is fetched.
abbrev after_fetch : Service
after_fetch =
    (fetch signer outside 130 none 2 (6 ∷ [])
      (store_inbox_payload inbox (9 ∷ []) (fetch signer outside 100 none 1 (5 ∷ []) service).1)).1

other_key : claim_key_of signer 130 (6 ∷ []) ≢ claim_key_of signer 100 (5 ∷ [])
unfolding claim_key_of generate_claim_token to_le hex_encode hex_digit
other_key same = omega (arith, ap (λ xs. get_or xs 0 0) same)

recover_script-fetch_example :
    let k = claim_key_of signer 100 (5 ∷ []) in
    (inbox_of inbox (recover_script k after_fetch)
      ≡ take 100 (inbox_of inbox service ++ inbox_of inbox after_fetch))
    × ((other : Bytes)
        → inbox ≢ other
        → inbox_of other (recover_script k after_fetch) ≡ inbox_of other after_fetch)
    × (lookup k (recover_script k after_fetch).claims ≡ none)
unfolding inbox_of lookup hex_encode hex_digit bytes_eq
recover_script-fetch_example =
    recover_script-fetch signer outside 100 none 1 (5 ∷ []) service refl
      (another_fetched 130 none 2 (6 ∷ []) other_key (another_stored inbox (9 ∷ []) at_once))

acknowledge_own_token_example :
    let s' =
      (acknowledge signer outside 200 none 1
        (5 ∷ [])
        (generate_claim_token signer (5 ∷ []) 100)
        service).1 in
    (lookup (claim_key_of signer 100 (5 ∷ [])) s'.claims ≡ none)
    × ((k : Bytes)
        → claim_key_of signer 100 (5 ∷ []) ≢ k
        → lookup k s'.claims ≡ lookup k service.claims)
    × ((recover_script (claim_key_of signer 100 (5 ∷ [])) s').inboxes ≡ service.inboxes)
acknowledge_own_token_example =
    acknowledge_own_token signer outside 100 none 1 (5 ∷ []) 200 service toy-IsHmac (omega arith)
      (omega arith) (omega arith)

refetch_replaces_claim_example :
    let s' =
      store_inbox_payload
        (hex_encode (5 ∷ []))
        (9 ∷ [])
        (fetch signer outside 100 none 1 (5 ∷ []) service).1 in
    lookup (claim_key_of signer 100 (5 ∷ [])) (fetch signer outside 100 none 1 (5 ∷ []) s').1.claims
    ≡ some (record { inbox_id = hex_encode (5 ∷ []); messages = hex_encode (9 ∷ []) ∷ [] })
unfolding inbox_of lookup hex_encode hex_digit bytes_eq
refetch_replaces_claim_example =
    refetch_replaces_claim signer outside 100 none 1 (5 ∷ []) service (9 ∷ []) refl

verify_claim_token_iff_example :
    (verify_claim_token signer 200 (5 ∷ []) (generate_claim_token signer (5 ∷ []) 100) 300 ≡ true)
    ↔ ((timestamp : ℕ) × (timestamp < 2 ^ 64)
        × (generate_claim_token signer (5 ∷ []) 100
            ≡ generate_claim_token signer (5 ∷ []) timestamp)
        × (200 ≤ timestamp + 300)
        × (timestamp ≤ 200 + 60))
unfolding generate_claim_token to_le
verify_claim_token_iff_example =
    verify_claim_token_iff signer (5 ∷ []) 200 (generate_claim_token signer (5 ∷ []) 100) 300
      toy-IsHmac (ground arith)
