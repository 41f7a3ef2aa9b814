-- ===== src/Signaling/Recovery.antt =====
-- services/signaling/src/inbox.rs: what becomes of the messages that a fetch has taken.
use cypher.Prelude.{
  ℕ, ◌+◌, ◌≤◌, ◌<◌, ◌^◌, ◌≡◌, ◌≢◌, refl, ap, ◌∙◌, true, Option, none, some, [], ◌∷◌, ◌++◌, length,
  take, leb,
}
use cypher.Prelude.Bytes.{Bytes}
use cypher.Prelude.Assoc.{
  lookup, remove, nat_eq, bytes_Eq, lookup-insert_self, lookup-insert_ne, lookup-remove_self,
  lookup-remove_ne,
}
use cypher.Crypto.Primitives.{IsHmac}
use cypher.Signaling.Hex.{hex_encode}
use cypher.Signaling.State.{Service}
use cypher.Signaling.Peers.{Outside}
use cypher.Signaling.Signing.{ServerSigner, generate_claim_token}
use cypher.Signaling.Claims.{accepted}
use cypher.Signaling.Meanwhile.{Meanwhile, claim-Meanwhile, claims-publish, inboxes-publish}
use cypher.Signaling.Inbox.{
  inbox_max_messages, inbox_claim_ttl_secs, inbox_of, or_empty, store_inbox_payload, fetch_script,
  fetch, claim_key_of, delete_claim, acknowledge, recover_script,
}

recover_absent :
    (k : Bytes) (t : Service) → lookup k t.claims ≡ none → (recover_script k t).inboxes ≡ t.inboxes
unfolding recover_script
recover_absent k t absent = rw (absent, recover_script) refl

module _ (signer : ServerSigner) (o : Outside) (now : ℕ) (reply : Option Bytes) (session_id : ℕ)
    (inbox_id : Bytes) where
  claimed :
      (s : Service)
      → leb 1 (length (inbox_of (hex_encode inbox_id) s)) ≡ true
      → lookup
          (claim_key_of signer now inbox_id)
          (fetch signer o now reply session_id inbox_id s).1.claims
        ≡ some
            (record { inbox_id = hex_encode inbox_id; messages = inbox_of (hex_encode inbox_id) s })
  unfolding fetch fetch_script
  claimed s full =
      ap (lookup (claim_key_of signer now inbox_id)) (claims-publish o.nats _ _ _)
      ∙ rw full (lookup-insert_self (claim_key_of signer now inbox_id) _ s.claims)

  inbox-fetch :
      (s : Service)
      → inbox_of (hex_encode inbox_id) (fetch signer o now reply session_id inbox_id s).1 ≡ []
  unfolding inbox_of fetch fetch_script
  inbox-fetch s = ap or_empty (
      ap (lookup (hex_encode inbox_id)) (inboxes-publish o.nats _ _ _)
      ∙ lookup-remove_self (hex_encode inbox_id) _)

  -- A fetch that is not acknowledged, also because its reply did not get through, and whose claim no
  -- other fetch replaces: whatever else happens meanwhile, the recovery of its claim puts the messages
  -- back in their order, in front of what the inbox holds by then, and keeps a hundred of them all,
  -- the first ones; the other inboxes stay as they are, and the claim is gone.
  pub recover_script-fetch :
      {t : Service} (s : Service)
      → leb 1 (length (inbox_of (hex_encode inbox_id) s)) ≡ true
      → Meanwhile signer o now inbox_id (fetch signer o now reply session_id inbox_id s).1 t
      → let k = claim_key_of signer now inbox_id in
        (inbox_of (hex_encode inbox_id) (recover_script k t)
          ≡ take inbox_max_messages
              (inbox_of (hex_encode inbox_id) s ++ inbox_of (hex_encode inbox_id) t))
        × ((other : Bytes)
            → hex_encode inbox_id ≢ other
            → inbox_of other (recover_script k t) ≡ inbox_of other t)
        × (lookup k (recover_script k t).claims ≡ none)
  unfolding recover_script inbox_of
  recover_script-fetch {t} s full meanwhile =
      let k = claim_key_of signer now inbox_id in
      let filed : lookup k t.claims
          ≡ some (record {
            inbox_id = hex_encode inbox_id;
            messages = inbox_of (hex_encode inbox_id) s;
          }) =
        claim-Meanwhile signer o now inbox_id meanwhile ∙ claimed s full in
      rw (filed, recover_script)
        (
          ap or_empty (lookup-insert_self (hex_encode inbox_id) _ t.inboxes),
          λ other apart.
              ap or_empty (lookup-insert_ne (hex_encode inbox_id) other _ t.inboxes apart),
          lookup-remove_self k t.claims,
        )

  -- A fetch acknowledged in time with its own token: its claim is gone and no other, and the recovery
  -- of the claim brings nothing back.
  pub acknowledge_own_token :
      (time : ℕ) (s : Service)
      → IsHmac signer.primitives
      → now < 2 ^ 64
      → time ≤ now + inbox_claim_ttl_secs
      → now ≤ time + 60
      → let s' =
          (acknowledge signer o time reply session_id inbox_id
            (generate_claim_token signer inbox_id now)
            s).1 in
        (lookup (claim_key_of signer now inbox_id) s'.claims ≡ none)
        × ((k : Bytes)
            → claim_key_of signer now inbox_id ≢ k
            → lookup k s'.claims ≡ lookup k s.claims)
        × ((recover_script (claim_key_of signer now inbox_id) s').inboxes ≡ s.inboxes)
  unfolding acknowledge claim_key_of delete_claim recover_script
  acknowledge_own_token time s mac small fresh near =
      let valid = accepted signer inbox_id time now inbox_claim_ttl_secs mac small fresh near in
      let k = claim_key_of signer now inbox_id in
      let gone : lookup k (remove k s.claims) ≡ none = lookup-remove_self k s.claims in
      rw valid (
        ap (lookup k) (claims-publish o.nats _ _ _) ∙ gone,
        λ j other.
            ap (lookup j) (claims-publish o.nats _ _ _) ∙ lookup-remove_ne k j s.claims other,
        recover_absent k _ (ap (lookup k) (claims-publish o.nats _ _ _) ∙ gone)
            ∙ inboxes-publish o.nats _ _ _,
      )

  -- Two fetches within one second share a key: after a message has come in between, the second claim
  -- replaces the first one, and what the first had taken is in no claim of this key any more.
  pub refetch_replaces_claim :
      (s : Service) (payload : Bytes)
      → leb 1 (length (inbox_of (hex_encode inbox_id) s)) ≡ true
      → let s' =
          store_inbox_payload
            (hex_encode inbox_id)
            payload
            (fetch signer o now reply session_id inbox_id s).1 in
        lookup
          (claim_key_of signer now inbox_id)
          (fetch signer o now reply session_id inbox_id s').1.claims
        ≡ some (record { inbox_id = hex_encode inbox_id; messages = hex_encode payload ∷ [] })
  unfolding store_inbox_payload inbox_of
  refetch_replaces_claim s payload full =
      let emptied = inbox-fetch s in
      let t =
        store_inbox_payload (hex_encode inbox_id) payload
          (fetch signer o now reply session_id inbox_id s).1 in
      let one : inbox_of (hex_encode inbox_id) t ≡ hex_encode payload ∷ [] =
        ap or_empty (lookup-insert_self (hex_encode inbox_id) _ _) ∙ rw emptied refl in
      rw one at (claimed t (rw one refl))
