-- ===== src/Signaling/History.antt =====
-- services/signaling/src/peer.rs: what Redis holds of sessions and peers after a history of reports in
-- which no session is reported for two peers.
use cypher.Prelude.{
  ℕ, ◌≡◌, ◌↔◌, refl, sym, ap, ◌∙◌, inl, inr, Option, none, some, List, [], ◌∷◌, if◌then◌else◌,
}
use cypher.Prelude.Bytes.{Bytes}
use cypher.Prelude.Assoc.{lookup, nat_eq, bytes_Eq, beq_refl, beq_ne, key_cases}
use cypher.Prelude.Maps.{some-none}
use cypher.Signaling.State.{Service, PeerSession}
use cypher.Signaling.Sessions.{
  Report, registered, deregistered, handle, session_of, IsPaired, IsOwn, session_of_self,
  session_of_other,
}
use cypher.Signaling.Reports.{unless_ended, register-IsPaired, sessions_registered, ended}

unfoldable pub empty : Service
empty = record {
  sessions = [];
  reverse = [];
  prekeys = [];
  links = [];
  ice = [];
  inboxes = [];
  claims = [];
  claim_index = [];
  peer_sessions = 0;
  links_created = 0;
  published = [];
}

-- The reports, the latest one first.
unfoldable pub run_reports : (node_id : Bytes) → List Report → Service
run_reports node_id [] = empty
run_reports node_id (report ∷ before) = handle node_id report (run_reports node_id before)

-- The latest word on a peer: the session that it last registered, unless that has ended since.
unfoldable pub replay : List Report → Bytes → Option ℕ
replay [] q = none
replay (registered n p ∷ before) q = if bytes_Eq.beq p q then some n else replay before q
replay (deregistered n ∷ before) q = unless_ended n (replay before q)

-- A session registers under one peer id, as long as it has not ended.
unfoldable pub IsHistory : List Report → Type 0
IsHistory [] = Unit {0}
IsHistory (registered n p ∷ before) =
    IsHistory before × ((q : Bytes) → replay before q ≡ some n → q ≡ p)
IsHistory (deregistered n ∷ before) = IsHistory before

record Agrees (s : Service) (word : Bytes → Option ℕ) : Type 0 where
  paired : IsPaired s
  view : (q : Bytes) → session_of q s ≡ word q

module _ (node_id : Bytes) where
  agrees :
      (reports : List Report)
      → IsHistory reports
      → Agrees (run_reports node_id reports) (replay reports)
  unfolding run_reports replay IsHistory handle empty lookup
  agrees [] h = record {
    paired = record {
      forth = λ p n held. absurd (some-none (sym held));
      back = λ p n held. absurd (some-none (sym held));
      sessions_once = tt;
      gauge = refl;
    };
    view = λ q. refl;
  }
  agrees (registered n p ∷ before) h =
      let a = agrees before h.0 in
      let s = run_reports node_id before in
      let own : IsOwn n p s = λ q held. h.1 q (sym (a.view q) ∙ a.paired.back q n held) in
      let new : PeerSession = record { gateway_node = node_id; session_id = n } in
      let set = sessions_registered node_id n p s a.paired own in
      record {
        paired = register-IsPaired node_id n p s a.paired own;
        view = λ q. rw set (elim (key_cases p q) [
          | inl same ↦ rw (← same, beq_refl bytes_Eq p) (session_of_self new p s)
          | inr apart ↦ rw (beq_ne bytes_Eq p q apart) (session_of_other new p s q apart ∙ a.view q)
        ]);
      }
  agrees (deregistered n ∷ before) h =
      let a = agrees before h in
      let e = ended n (run_reports node_id before) a.paired in
      record { paired = e.paired'; view = λ q. e.view q ∙ ap (unless_ended n) (a.view q) }

  -- After any history of reports in which a session keeps to one peer id until it ends, the session
  -- that signaling finds for a peer is the latest word on the peer, and the peer that it finds for a
  -- session is the one whose latest word is that session.
  pub run_reports-replay :
      (reports : List Report)
      → IsHistory reports
      → ((q : Bytes) → session_of q (run_reports node_id reports) ≡ replay reports q)
        × ((n : ℕ) (q : Bytes)
            → (lookup n (run_reports node_id reports).reverse ≡ some q)
              ↔ (replay reports q ≡ some n))
  run_reports-replay reports h =
      let a = agrees reports h in
      (
        a.view,
        λ n q. (
          λ held. sym (a.view q) ∙ a.paired.back q n held,
          λ word. a.paired.forth q n (a.view q ∙ word),
        ),
      )

  -- The gauge of peer sessions counts the peers with a session.
  pub run_reports-IsPaired :
      (reports : List Report) → IsHistory reports → IsPaired (run_reports node_id reports)
  run_reports-IsPaired reports h = (agrees reports h).paired
