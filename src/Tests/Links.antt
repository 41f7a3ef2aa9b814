-- ===== src/Tests/Links.antt =====
-- The theorems on share links, on two peers.
use cypher.Prelude.{
  ap, get_or, zero, suc, All, ℕ, ◌≡◌, refl, true, none, List, [], ◌∷◌, ◌++◌, replicate, ok, arith,
}
use cypher.Prelude.Bytes.{IsByte, Bytes, to_le, bytes_eq_refl}
use cypher.Prelude.Assoc.{lookup, nat_eq, bytes_Eq}
use cypher.Signaling.Hex.{hex_encode}
use cypher.Signaling.State.{Service, PeerSession, Reply, session, peer_joined, link_made}
use cypher.Signaling.Peers.{Outside, signal_request_peer, on_request_peer, handle_create_link}
use cypher.Client.Signaling.{joined_link}
use cypher.Client.Answers.{server_frame}
use cypher.Client.Links.{Made, create_all, on_request_peer-handle_create_link}

abbrev outside : Outside
outside = record {
  dispatch = λ payload. none;
  serialize_chat_send = λ chat. chat.ciphertext;
  serialize_inbox_messages = λ messages count. to_le 4 count ++ messages;
  nats = λ subject. true;
}

abbrev service : Service
service = record {
  sessions = [];
  reverse = [];
  prekeys = [];
  links = [];
  ice = [];
  inboxes = [];
  claims = [];
  claim_index = [];
  peer_sessions = 0;
  links_created = 0;
  published = [];
}

abbrev creator : Bytes
creator = replicate 32 5

creator-All : (n : ℕ) → All IsByte (replicate n 5)
creator-All zero = tt
creator-All (suc n) = (omega arith, creator-All n)

abbrev creator_online : PeerSession
creator_online = record { gateway_node = []; session_id = 1 }

-- The creator in session 1, and the peer ab in session 2.
abbrev two_peers : Service
two_peers = record service {
  sessions = (hex_encode creator, creator_online) ∷ [];
  reverse = (2, 97 ∷ 98 ∷ []) ∷ (1, hex_encode creator) ∷ [];
}

-- Another link that is made meanwhile.
abbrev another : List Made
another = record { link_id = 77 ∷ []; session_id = 9; peer_id = 99 ∷ [] } ∷ []

on_request_peer-handle_create_link_example :
    let made = (handle_create_link outside (76 ∷ []) 1 (hex_encode creator) two_peers).1 in
    let later = create_all outside another made in
    let asked =
      on_request_peer outside
        (record { session_id = 2; payload = [] })
        (signal_request_peer (76 ∷ []))
        later in
    (made.published ≡ (session 1, link_made (76 ∷ [])) ∷ [])
    × ((answer : Reply) × (asked ≡ (
      true,
      record later {
        published = (session 1, peer_joined (97 ∷ 98 ∷ [])) ∷ (session 2, answer) ∷ later.published;
      },
    ))
        × (joined_link (server_frame answer) ≡ ok creator))
unfolding lookup
on_request_peer-handle_create_link_example =
    on_request_peer-handle_create_link outside two_peers (76 ∷ []) creator (97 ∷ 98 ∷ []) [] 1 2
      another creator_online (λ subject. refl) (creator-All 32) refl
      (λ same. omega (arith, ap (λ xs. get_or xs 0 0) same), tt)
      (rw (bytes_eq_refl (hex_encode creator)) refl) refl
