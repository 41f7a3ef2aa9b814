-- ===== src/Client/Links.antt =====
-- A share link, from the peer that makes it to the one that follows it: services/signaling/src/peer.rs
-- and crates/cypher-client-core/src/signaling.rs.
use cypher.Prelude.{
  List, ◌≢◌, ◌∙◌, ap, err, ℕ, ◌+◌, ◌≡◌, refl, Bool, true, Option, none, some, [], ◌∷◌, All, length,
  ok,
}
use cypher.Prelude.Bytes.{Bytes, IsByte}
use cypher.Prelude.Assoc.{lookup, insert, nat_eq, bytes_Eq, lookup-insert_self, lookup-insert_ne}
use cypher.Signaling.Hex.{hex_encode}
use cypher.Signaling.State.{
  PeerSession, Reply, peer_found, peer_joined, link_missing, link_made, Subject, session, Service,
  publish, and_then,
}
use cypher.Signaling.Peers.{
  Outside, signal_request_peer, on_request_peer, peer_reply, forward_to_peer, handle_create_link,
}
use cypher.Prelude.Errors.{protocol}
use cypher.Client.Signaling.{link_error, expect_json_response, joined_link}
use cypher.Client.Answers.{server_frame, joined_link-peer_found}

publish_up :
    (nats : Subject → Bool) (subject : Subject) (reply : Reply) (s : Service)
    → nats subject ≡ true
    → publish nats subject reply s ≡ (true, record s { published = (subject, reply) ∷ s.published })
unfolding publish
publish_up nats subject reply s up = rw up refl

linked : (link_id peer_id : Bytes) → (session_id : ℕ) → Service → Service
linked link_id peer_id session_id s = record s {
  links = insert link_id peer_id s.links;
  links_created = s.links_created + 1;
  published = (session session_id, link_made link_id) ∷ s.published;
}

handle_create_link_up :
    (o : Outside) (s : Service) (link_id peer_id : Bytes) (a : ℕ)
    → ((subject : Subject) → o.nats subject ≡ true)
    → handle_create_link o link_id a peer_id s ≡ (true, linked link_id peer_id a s)
unfolding handle_create_link linked
handle_create_link_up o s link_id peer_id a up =
    rw
      (publish_up o.nats (session a) (link_made link_id)
        (record s { links = insert link_id peer_id s.links }) (up (session a)))
      refl

peer_reply_up :
    (o : Outside) (s : Service) (creator joiner : Bytes) (b : ℕ) (online : PeerSession)
    → ((subject : Subject) → o.nats subject ≡ true)
    → lookup creator s.sessions ≡ some online
    → lookup b s.reverse ≡ some joiner
    → peer_reply o b (some creator) s ≡ (
      true,
      record s {
        published =
            (session online.session_id, peer_joined joiner)
            ∷ (session b, peer_found creator (some online))
            ∷ s.published;
      },
    )
unfolding peer_reply forward_to_peer
peer_reply_up o s creator joiner b online up at_home known =
    let answered = record s {
      published = (session b, peer_found creator (some online)) ∷ s.published;
    } in
    rw
      (
        at_home,
        publish_up o.nats (session b) (peer_found creator (some online)) s (up (session b)),
        and_then,
        known,
        forward_to_peer,
        at_home,
        publish_up o.nats (session online.session_id) (peer_joined joiner) answered
            (up (session online.session_id)),
      )
      refl

-- Links that other peers make: the id, the session and the peer of each.
pub record Made : Type 0 where
  pub link_id : Bytes
  pub session_id : ℕ
  pub peer_id : Bytes

unfoldable pub create_all : Outside → List Made → Service → Service
create_all o [] s = s
create_all o (m ∷ ms) s =
    create_all o ms (handle_create_link o m.link_id m.session_id m.peer_id s).1

abbrev pub Others : Bytes → List Made → Type 0
Others link_id [] = Unit {0}
Others link_id (m ∷ ms) = (m.link_id ≢ link_id) × Others link_id ms

-- What following a link reads of the state.
followed : Bytes → Service → Option Bytes × List (Bytes × PeerSession) × List (ℕ × Bytes)
followed link_id s = (lookup link_id s.links, s.sessions, s.reverse)

followed-create_all :
    (o : Outside) (link_id : Bytes) (ms : List Made) (s : Service)
    → ((subject : Subject) → o.nats subject ≡ true)
    → Others link_id ms
    → followed link_id (create_all o ms s) ≡ followed link_id s
unfolding create_all followed linked
followed-create_all o link_id [] s up others = refl
followed-create_all o link_id (m ∷ ms) s up (apart, others) =
    followed-create_all o link_id ms _ up others
    ∙ rw
        (
          handle_create_link_up o s m.link_id m.peer_id m.session_id up,
          lookup-insert_ne m.link_id link_id m.peer_id s.links apart,
        )
        refl

-- A peer that is online makes a link in session a; other peers make links with other ids; then a
-- registered peer follows the first link in session b. With NATS up all that time, the first one is
-- told the link, the second one an answer in which its client reads the id of the first, and after
-- that the first one, where it is online, the id of the second.
pub on_request_peer-handle_create_link :
    (o : Outside) (s : Service) (link_id creator joiner_hex payload : Bytes) (a b : ℕ)
    (ms : List Made) (online : PeerSession)
    → ((subject : Subject) → o.nats subject ≡ true)
    → All IsByte creator
    → length creator ≡ 32
    → Others link_id ms
    → lookup (hex_encode creator) s.sessions ≡ some online
    → lookup b s.reverse ≡ some joiner_hex
    → let made = (handle_create_link o link_id a (hex_encode creator) s).1 in
      let later = create_all o ms made in
      let asked =
        on_request_peer o
          (record { session_id = b; payload = payload })
          (signal_request_peer link_id)
          later in
      (made.published ≡ (session a, link_made link_id) ∷ s.published)
      × ((answer : Reply) × (asked ≡ (
        true,
        record later {
          published =
              (session online.session_id, peer_joined joiner_hex)
              ∷ (session b, answer)
              ∷ later.published;
        },
      ))
          × (joined_link (server_frame answer) ≡ ok creator))
unfolding on_request_peer linked followed
on_request_peer-handle_create_link o s link_id creator joiner_hex payload a b ms online up bytes
      long others at_home known =
    let creator_hex = hex_encode creator in
    let made = (handle_create_link o link_id a creator_hex s).1 in
    let later = create_all o ms made in
    let whole = ap (λ r. r.1) (handle_create_link_up o s link_id creator_hex a up) in
    let same = followed-create_all o link_id ms made up others ∙ ap (followed link_id) whole in
    let found : lookup link_id later.links ≡ some creator_hex =
      ap (λ r. r.0) same ∙ lookup-insert_self link_id creator_hex s.links in
    let online_there : lookup creator_hex later.sessions ≡ some online =
      ap (λ r. lookup creator_hex r.1) same ∙ at_home in
    let known_there : lookup b later.reverse ≡ some joiner_hex =
      ap (λ r. lookup b r.2) same ∙ known in
    (
      ap (λ (t : Service). t.published) whole,
      (
        peer_found creator_hex (some online),
        rw found
            (peer_reply_up o later creator_hex joiner_hex b online up online_there known_there),
        joined_link-peer_found creator (some online) bytes long,
      ),
    )

-- A link that nobody made: while NATS is up, the peer that follows it is told so, and that is the error of its client.
pub on_request_peer_missing :
    (o : Outside) (s : Service) (link_id payload : Bytes) (b : ℕ)
    → ((subject : Subject) → o.nats subject ≡ true)
    → lookup link_id s.links ≡ none
    → (on_request_peer o
          (record { session_id = b; payload = payload })
          (signal_request_peer link_id)
          s
        ≡ (true, record s { published = (session b, link_missing) ∷ s.published }))
      × (joined_link (server_frame link_missing) ≡ err (protocol "link not found or expired"))
unfolding on_request_peer peer_reply joined_link server_frame expect_json_response link_error
on_request_peer_missing o s link_id payload b up missing =
    (rw missing (publish_up o.nats (session b) link_missing s (up (session b))), refl)
