-- ===== src/Signaling/Meanwhile.antt =====
-- services/signaling/src/inbox.rs: what the handlers do to the claim of a fetch that they do not mean.
use cypher.Prelude.{
  ℕ, ◌≡◌, ◌≢◌, refl, ap, ◌∙◌, inl, inr, Bool, Option, none, some, length, leb, Bool-cases,
  Option-cases, arith,
}
use cypher.Prelude.Bytes.{Bytes}
use cypher.Prelude.Assoc.{lookup, nat_eq, bytes_Eq, lookup-insert_ne, lookup-remove_ne}
use cypher.Signaling.Hex.{hex_encode}
use cypher.Signaling.State.{GatewayEnvelope, Service, Subject, Reply, publish}
use cypher.Signaling.Peers.{Outside, ChatSend, chat_send}
use cypher.Signaling.Signing.{ServerSigner, verify_claim_token}
use cypher.Signaling.Inbox.{
  inbox_claim_ttl_secs, inbox_of, store_inbox_payload, fetch_script, fetch, claim_key_of,
  delete_claim, acknowledge, recover_script, try_forward_or_inbox, succeeded, on_chat_send,
}

module _ (nats : Subject → Bool) (subject : Subject) (reply : Reply) (s : Service) where
  pub claims-publish : (publish nats subject reply s).1.claims ≡ s.claims
  unfolding publish
  claims-publish = ground arith

  pub inboxes-publish : (publish nats subject reply s).1.inboxes ≡ s.inboxes
  unfolding publish
  inboxes-publish = ground arith

claims-try_forward_or_inbox :
    (o : Outside) (to payload : Bytes) (s : Service)
    → (try_forward_or_inbox o to payload s).1.claims ≡ s.claims
unfolding try_forward_or_inbox store_inbox_payload
claims-try_forward_or_inbox o to payload s = elim (Option-cases (lookup to s.sessions)) [
  | inr (peer, online) ↦ rw (online, try_forward_or_inbox) (claims-publish o.nats _ _ s)
  | inl offline ↦ elim (Option-cases (lookup to s.prekeys)) [
    | inl unknown ↦ rw (offline, unknown, try_forward_or_inbox) refl
    | inr (bundle, found) ↦ elim (Option-cases bundle.inbox_id) [
      | inl closed ↦ rw (offline, found, closed, try_forward_or_inbox) refl
      | inr (inbox, given) ↦ rw (offline, found, given, try_forward_or_inbox) refl
    ]
  ]
]

claims-succeeded : (r : Option Bool × Service) → (succeeded r).1.claims ≡ r.1.claims
unfolding succeeded
claims-succeeded (none, s) = refl
claims-succeeded (some b, s) = refl

claims-on_chat_send :
    (o : Outside) (envelope : GatewayEnvelope) (chat : ChatSend) (s : Service)
    → (on_chat_send o envelope (chat_send chat) s).1.claims ≡ s.claims
unfolding on_chat_send
claims-on_chat_send o envelope chat s = elim (Option-cases (lookup envelope.session_id s.reverse)) [
  | inl unknown ↦ rw (unknown, on_chat_send) refl
  | inr (sender, found) ↦
      rw (found, on_chat_send)
        (claims-succeeded (try_forward_or_inbox o (hex_encode chat.peer_id) _ s)
          ∙ claims-try_forward_or_inbox o _ _ s)
]

claim-recover_script :
    (key k : Bytes) (s : Service)
    → key ≢ k
    → lookup k (recover_script key s).claims ≡ lookup k s.claims
unfolding recover_script
claim-recover_script key k s apart = elim (Option-cases (lookup key s.claims)) [
  | inl absent ↦ rw (absent, recover_script) refl
  | inr (claim, found) ↦ rw (found, recover_script) (lookup-remove_ne key k s.claims apart)
]

module _ (signer : ServerSigner) (o : Outside) (now : ℕ) (reply : Option Bytes) (session_id : ℕ)
    (inbox_id : Bytes) where
  claim-fetch :
      (k : Bytes) (s : Service)
      → claim_key_of signer now inbox_id ≢ k
      → lookup k (fetch signer o now reply session_id inbox_id s).1.claims ≡ lookup k s.claims
  unfolding fetch fetch_script
  claim-fetch k s apart =
      ap (lookup k) (claims-publish o.nats _ _ _)
      ∙ elim (Bool-cases (leb 1 (length (inbox_of (hex_encode inbox_id) s)))) [
        | inl full ↦ rw full (lookup-insert_ne _ k _ s.claims apart)
        | inr empty ↦ rw empty refl
      ]

  claim-acknowledge :
      (token k : Bytes) (s : Service)
      → hex_encode token ≢ k
      → lookup k (acknowledge signer o now reply session_id inbox_id token s).1.claims
        ≡ lookup k s.claims
  unfolding acknowledge delete_claim
  claim-acknowledge token k s apart =
      elim (Bool-cases (verify_claim_token signer now inbox_id token inbox_claim_ttl_secs)) [
        | inr refused ↦ rw refused refl
        | inl valid ↦ rw valid (
            ap (lookup k) (claims-publish o.nats _ _ _)
            ∙ lookup-remove_ne (hex_encode token) k s.claims apart)
      ]

module _ (signer : ServerSigner) (o : Outside) (now : ℕ) (inbox_id : Bytes) where
  -- What can happen to the inboxes between a fetch and the recovery of its claim: chat messages and
  -- stores, fetches and acknowledgements whose claim has another key, recoveries of other claims, and what else
  -- leaves the claims alone, as the registrations and links of peers do.
  pub data Meanwhile : Service → Service → Type 0 where
    here : {s : Service} → Meanwhile s s
    chat :
        {s t : Service} (envelope : GatewayEnvelope) (message : ChatSend)
        → Meanwhile s t
        → Meanwhile s (on_chat_send o envelope (chat_send message) t).1
    stored :
        {s t : Service} (inbox_hex payload : Bytes)
        → Meanwhile s t
        → Meanwhile s (store_inbox_payload inbox_hex payload t)
    fetched :
        {s t : Service} (time : ℕ) (to : Option Bytes) (by : ℕ) (inbox : Bytes)
        → claim_key_of signer time inbox ≢ claim_key_of signer now inbox_id
        → Meanwhile s t
        → Meanwhile s (fetch signer o time to by inbox t).1
    acked :
        {s t : Service} (time : ℕ) (to : Option Bytes) (by : ℕ) (inbox token : Bytes)
        → hex_encode token ≢ claim_key_of signer now inbox_id
        → Meanwhile s t
        → Meanwhile s (acknowledge signer o time to by inbox token t).1
    elsewhere : {s t u : Service} → u.claims ≡ t.claims → Meanwhile s t → Meanwhile s u
    recovered :
        {s t : Service} (key : Bytes)
        → key ≢ claim_key_of signer now inbox_id
        → Meanwhile s t
        → Meanwhile s (recover_script key t)

  pub claim-Meanwhile :
      {s t : Service}
      → Meanwhile s t
      → lookup (claim_key_of signer now inbox_id) t.claims
        ≡ lookup (claim_key_of signer now inbox_id) s.claims
  unfolding store_inbox_payload
  claim-Meanwhile here = refl
  claim-Meanwhile (chat {t = t} envelope message m) =
      ap (lookup (claim_key_of signer now inbox_id)) (claims-on_chat_send o envelope message t)
      ∙ claim-Meanwhile m
  claim-Meanwhile (stored inbox_hex payload m) = claim-Meanwhile m
  claim-Meanwhile (fetched {t = t} time to by inbox apart m) =
      claim-fetch signer o time to by inbox (claim_key_of signer now inbox_id) t apart
      ∙ claim-Meanwhile m
  claim-Meanwhile (acked {t = t} time to by inbox token apart m) =
      claim-acknowledge signer o time to by inbox token (claim_key_of signer now inbox_id) t apart
      ∙ claim-Meanwhile m
  claim-Meanwhile (elsewhere same m) =
      ap (lookup (claim_key_of signer now inbox_id)) same ∙ claim-Meanwhile m
  claim-Meanwhile (recovered {t = t} key apart m) =
      claim-recover_script key (claim_key_of signer now inbox_id) t apart ∙ claim-Meanwhile m
