-- ===== src/Signaling/Bounds.antt =====
-- services/signaling/src/inbox.rs: how long inboxes and claims can grow.
use cypher.Prelude.{
  ℕ, ◌≤◌, ◌≡◌, inl, inr, Bool, Option, none, some, List, [], ◌∷◌, ◌++◌, length, length-take, take,
  leb, Bool-cases, Option-cases, arith,
}
use cypher.Prelude.Bytes.{Bytes}
use cypher.Prelude.Assoc.{lookup, insert, nat_eq, bytes_Eq, lookup-insert}
use cypher.Prelude.Maps.{lookup-remove}
use cypher.Signaling.Hex.{hex_encode}
use cypher.Signaling.State.{GatewayEnvelope, Claim, Service, publish, Reply, Subject}
use cypher.Signaling.Peers.{Outside, ChatSend, chat_send}
use cypher.Signaling.Signing.{ServerSigner, verify_claim_token}
use cypher.Signaling.Inbox.{
  inbox_max_messages, inbox_claim_ttl_secs, inbox_of, store_inbox_payload, fetch_script, fetch,
  delete_claim, acknowledge, recover_script, recover_all, recover_claims, try_forward_or_inbox,
  succeeded, on_chat_send,
}

pub record IsBounded (s : Service) : Type 0 where
  pub inbox_bound :
      (i : Bytes) (messages : List Bytes)
      → lookup i s.inboxes ≡ some messages
      → length messages ≤ inbox_max_messages
  pub claim_bound :
      (k : Bytes) (c : Claim) → lookup k s.claims ≡ some c → length c.messages ≤ inbox_max_messages

length-inbox_of :
    (i : Bytes) (s : Service) → IsBounded s → length (inbox_of i s) ≤ inbox_max_messages
unfolding inbox_of
length-inbox_of i s h = elim (Option-cases (lookup i s.inboxes)) [
  | inl absent ↦ rw (absent, inbox_of) (omega arith)
  | inr (messages, found) ↦ rw (found, inbox_of) (h.inbox_bound i messages found)
]

trimmed : (messages : List Bytes) → length (take inbox_max_messages messages) ≤ inbox_max_messages
trimmed messages = rw (length-take inbox_max_messages messages) (omega arith)

-- A trimmed list is filed.
insert-IsBounded :
    (i : Bytes) (messages : List Bytes) (s : Service)
    → IsBounded s
    → IsBounded (record s { inboxes = insert i (take inbox_max_messages messages) s.inboxes })
insert-IsBounded i messages s h = record {
  inbox_bound = λ j found there. elim (lookup-insert i j _ s.inboxes there) [
    | inl (same, made) ↦ rw (← made) (trimmed messages)
    | inr before ↦ h.inbox_bound j found before
  ];
  claim_bound = h.claim_bound;
}

store_inbox_payload-IsBounded :
    (i payload : Bytes) (s : Service) → IsBounded s → IsBounded (store_inbox_payload i payload s)
unfolding store_inbox_payload
store_inbox_payload-IsBounded i payload s h =
    insert-IsBounded i (hex_encode payload ∷ inbox_of i s) s h

fetch_script-IsBounded :
    (i key : Bytes) (deadline : ℕ) (s : Service)
    → IsBounded s
    → IsBounded (fetch_script i key deadline s).1
unfolding fetch_script
fetch_script-IsBounded i key deadline s h = elim (Bool-cases (leb 1 (length (inbox_of i s)))) [
  | inl some_there ↦ rw some_there (record {
    inbox_bound = λ j found there. h.inbox_bound j found (lookup-remove i j s.inboxes there);
    claim_bound = λ k c there. elim (lookup-insert key k _ s.claims there) [
      | inl (same, made) ↦ rw (← made) (length-inbox_of i s h)
      | inr before ↦ h.claim_bound k c before
    ];
  })
  | inr empty ↦ rw empty (record {
    inbox_bound = λ j found there. h.inbox_bound j found (lookup-remove i j s.inboxes there);
    claim_bound = h.claim_bound;
  })
]

recover_script-IsBounded :
    (key : Bytes) (s : Service) → IsBounded s → IsBounded (recover_script key s)
unfolding recover_script
recover_script-IsBounded key s h = elim (Option-cases (lookup key s.claims)) [
  | inl absent ↦
      rw (absent, recover_script)
        (record { inbox_bound = h.inbox_bound; claim_bound = h.claim_bound })
  | inr (claim, found) ↦
      let filed =
        insert-IsBounded claim.inbox_id (claim.messages ++ inbox_of claim.inbox_id s) s h in
      rw (found, recover_script)
        (record {
          inbox_bound = filed.inbox_bound;
          claim_bound = λ k c there. h.claim_bound k c (lookup-remove key k s.claims there);
        })
]

recover_all-IsBounded :
    (keys : List Bytes) (s : Service) → IsBounded s → IsBounded (recover_all keys s)
unfolding recover_all
recover_all-IsBounded [] s h = h
recover_all-IsBounded (key ∷ keys) s h =
    recover_all-IsBounded keys (recover_script key s) (recover_script-IsBounded key s h)

publish-IsBounded :
    (nats : Subject → Bool) (subject : Subject) (reply : Reply) (s : Service)
    → IsBounded s
    → IsBounded (publish nats subject reply s).1
unfolding publish
publish-IsBounded nats subject reply s h = elim (Bool-cases (nats subject)) [
  | inl up ↦ rw up (record { inbox_bound = h.inbox_bound; claim_bound = h.claim_bound })
  | inr down ↦ rw down h
]

try_forward_or_inbox-IsBounded :
    (o : Outside) (to payload : Bytes) (s : Service)
    → IsBounded s
    → IsBounded (try_forward_or_inbox o to payload s).1
unfolding try_forward_or_inbox
try_forward_or_inbox-IsBounded o to payload s h = elim (Option-cases (lookup to s.sessions)) [
  | inr (peer, online) ↦ rw (online, try_forward_or_inbox) (publish-IsBounded o.nats _ _ s h)
  | inl offline ↦ elim (Option-cases (lookup to s.prekeys)) [
    | inl unknown ↦ rw (offline, unknown, try_forward_or_inbox) h
    | inr (bundle, found) ↦ elim (Option-cases bundle.inbox_id) [
      | inl closed ↦ rw (offline, found, closed, try_forward_or_inbox) h
      | inr (inbox, given) ↦
          rw (offline, found, given, try_forward_or_inbox)
            (store_inbox_payload-IsBounded inbox payload s h)
    ]
  ]
]

succeeded-IsBounded : (r : Option Bool × Service) → IsBounded r.1 → IsBounded (succeeded r).1
unfolding succeeded
succeeded-IsBounded (none, s) h = h
succeeded-IsBounded (some b, s) h = h

on_chat_send-IsBounded :
    (o : Outside) (envelope : GatewayEnvelope) (chat : ChatSend) (s : Service)
    → IsBounded s
    → IsBounded (on_chat_send o envelope (chat_send chat) s).1
unfolding on_chat_send
on_chat_send-IsBounded o envelope chat s h =
    elim (Option-cases (lookup envelope.session_id s.reverse)) [
      | inl unknown ↦ rw (unknown, on_chat_send) h
      | inr (sender, found) ↦
          rw (found, on_chat_send)
            (succeeded-IsBounded _ (try_forward_or_inbox-IsBounded o _ _ s h))
    ]

-- What happens to the inboxes and claims, in any order and at any times.
pub data InboxStep (signer : ServerSigner) (o : Outside) : Service → Service → Type 0 where
  chat :
      (envelope : GatewayEnvelope) (message : ChatSend) (s : Service)
      → InboxStep signer o s (on_chat_send o envelope (chat_send message) s).1
  stored :
      (inbox_hex payload : Bytes) (s : Service)
      → InboxStep signer o s (store_inbox_payload inbox_hex payload s)
  fetched :
      (now : ℕ) (reply : Option Bytes) (session_id : ℕ) (inbox_id : Bytes) (s : Service)
      → InboxStep signer o s (fetch signer o now reply session_id inbox_id s).1
  acked :
      (now : ℕ) (reply : Option Bytes) (session_id : ℕ) (inbox_id claim_token : Bytes) (s : Service)
      → InboxStep signer o s (acknowledge signer o now reply session_id inbox_id claim_token s).1
  recovered : (now : ℕ) (s : Service) → InboxStep signer o s (recover_claims now s)

pub data Inboxes (signer : ServerSigner) (o : Outside) (s : Service) : Service → Type 0 where
  here : Inboxes signer o s s
  next : {t u : Service} → Inboxes signer o s t → InboxStep signer o t u → Inboxes signer o s u

module _ {signer : ServerSigner} {o : Outside} where
  InboxStep-IsBounded : {s t : Service} → InboxStep signer o s t → IsBounded s → IsBounded t
  unfolding fetch acknowledge delete_claim recover_claims
  InboxStep-IsBounded (chat envelope message s) h = on_chat_send-IsBounded o envelope message s h
  InboxStep-IsBounded (stored i payload s) h = store_inbox_payload-IsBounded i payload s h
  InboxStep-IsBounded (fetched now reply session_id inbox_id s) h =
      publish-IsBounded o.nats _ _ _ (fetch_script-IsBounded _ _ _ s h)
  InboxStep-IsBounded (acked now reply session_id inbox_id claim_token s) h =
      elim (Bool-cases (verify_claim_token signer now inbox_id claim_token inbox_claim_ttl_secs)) [
        | inr refused ↦ rw refused h
        | inl valid ↦ rw valid (
            publish-IsBounded o.nats _ _ _ (record {
              inbox_bound = h.inbox_bound;
              claim_bound = λ k c there. h.claim_bound k c (lookup-remove _ k s.claims there);
            }))
      ]
  InboxStep-IsBounded (recovered now s) h = recover_all-IsBounded _ s h

  -- From a state in which every inbox and every claim has at most a hundred messages, no order of chat
  -- messages, stores, fetches, acknowledgements and recoveries leads to a longer one.
  pub Inboxes-IsBounded : {s t : Service} → Inboxes signer o s t → IsBounded s → IsBounded t
  Inboxes-IsBounded here h = h
  Inboxes-IsBounded (next r step) h = InboxStep-IsBounded step (Inboxes-IsBounded r h)
