-- ===== src/Signaling/Sessions.antt =====
-- services/signaling/src/peer.rs: the sessions that registrations and their ends leave, against the
-- latest word on each peer.
use cypher.Prelude.{
  ℕ, ◌≡◌, ◌≢◌, refl, sym, ap, ◌∙◌, ◌⊎◌, inl, inr, Option, none, some, List, length,
}
use cypher.Prelude.Bytes.{Bytes}
use cypher.Prelude.Assoc.{
  lookup, insert, remove, nat_eq, bytes_Eq, key_cases, lookup-insert, lookup-insert_self,
  lookup-insert_ne, lookup-remove_self, lookup-remove_ne, some_injective,
}
use cypher.Prelude.Maps.{IsMap, lookup-remove, some-none}
use cypher.Signaling.State.{Service, PeerSession}
use cypher.Signaling.Peers.{handle_session_register, handle_session_deregister}

-- What the gateways report.
pub data Report : Type 0 where
  registered : (session_id : ℕ) → (peer_id : Bytes) → Report
  deregistered : (session_id : ℕ) → Report

unfoldable pub handle : (node_id : Bytes) → Report → Service → Service
handle node_id (registered session_id peer_id) s =
    handle_session_register node_id session_id peer_id s
handle node_id (deregistered session_id) s = handle_session_deregister session_id s

abbrev pub id_of : Option PeerSession → Option ℕ
id_of none = none
id_of (some session) = some session.session_id

-- The session id that Redis holds for a peer.
abbrev pub session_of : (peer_id : Bytes) → Service → Option ℕ
session_of peer_id s = id_of (lookup peer_id s.sessions)

pub id_of-some :
    (o : Option PeerSession) {n : ℕ} → id_of o ≡ some n → (x : PeerSession) × (o ≡ some x)
id_of-some none h = absurd (some-none (sym h))
id_of-some (some x) h = (x, refl)

-- The two maps are inverse to each other, and the gauge counts the sessions.
pub record IsPaired (s : Service) : Type 0 where
  pub forth : (p : Bytes) (n : ℕ) → session_of p s ≡ some n → lookup n s.reverse ≡ some p
  pub back : (p : Bytes) (n : ℕ) → lookup n s.reverse ≡ some p → session_of p s ≡ some n
  pub sessions_once : IsMap s.sessions
  pub gauge : s.peer_sessions ≡ length s.sessions

-- Only this peer, if any, has the session.
abbrev pub IsOwn : (session_id : ℕ) → (peer_id : Bytes) → Service → Type 0
IsOwn n p s = (q : Bytes) → lookup n s.reverse ≡ some q → q ≡ p

-- What is left of the map from sessions to peers when a peer's earlier session is taken out of it.
pub record IsCleared (s : Service) (n : ℕ) (p : Bytes) (r : List (ℕ × Bytes)) : Type 0 where
  pub kept : (k : ℕ) (q : Bytes) → q ≢ p → lookup k s.reverse ≡ some q → lookup k r ≡ some q
  pub there : (k : ℕ) (q : Bytes) → lookup k r ≡ some q → lookup k s.reverse ≡ some q
  pub only : (k : ℕ) → lookup k r ≡ some p → k ≡ n

module _ (s : Service) (n : ℕ) (p : Bytes) (paired : IsPaired s) where
  pub same-IsCleared : session_of p s ≡ none ⊎ session_of p s ≡ some n → IsCleared s n p s.reverse
  same-IsCleared known = record {
    kept = λ k q apart found. found;
    there = λ k q found. found;
    only = λ k found. elim known [
      | inl absent ↦ absurd (some-none (sym (paired.back p k found) ∙ absent))
      | inr own ↦ some_injective (sym (paired.back p k found) ∙ own)
    ];
  }

  pub removed-IsCleared : (m : ℕ) → session_of p s ≡ some m → IsCleared s n p (remove m s.reverse)
  removed-IsCleared m old = record {
    kept = λ k q apart found. elim (key_cases m k) [
      | inl same ↦ absurd (
          apart (
            some_injective
              (sym found ∙ ap (λ j. lookup j s.reverse) (sym same) ∙ paired.forth p m old)))
      | inr other ↦ lookup-remove_ne m k s.reverse other ∙ found
    ];
    there = λ k q found. lookup-remove m k s.reverse found;
    only = λ k found.
        let is_old : k ≡ m =
          some_injective (sym (paired.back p k (lookup-remove m k s.reverse found)) ∙ old) in
        absurd (
          some-none (
            sym found
            ∙ ap (λ j. lookup j (remove m s.reverse)) is_old
            ∙ lookup-remove_self m s.reverse));
  }

module _ (new : PeerSession) (p : Bytes) (s : Service) where
  pub session_of_self : id_of (lookup p (insert p new s.sessions)) ≡ some new.session_id
  session_of_self = ap id_of (lookup-insert_self p new s.sessions)

  pub session_of_other :
      (q : Bytes) → p ≢ q → id_of (lookup q (insert p new s.sessions)) ≡ session_of q s
  session_of_other q apart = ap id_of (lookup-insert_ne p q new s.sessions apart)

  module _ (r : List (ℕ × Bytes)) (paired : IsPaired s) (own : IsOwn new.session_id p s)
      (cleared : IsCleared s new.session_id p r) where
    pub forth_after :
        (q : Bytes) (k : ℕ)
        → id_of (lookup q (insert p new s.sessions)) ≡ some k
        → lookup k (insert new.session_id p r) ≡ some q
    forth_after q k found = elim (key_cases p q) [
      | inl same ↦
          let ids : new.session_id ≡ k = some_injective (
            sym session_of_self
            ∙ ap (λ x. id_of (lookup x (insert p new s.sessions))) same
            ∙ found) in
          rw (← ids, ← same) (lookup-insert_self new.session_id p r)
      | inr apart ↦
          let before = paired.forth q k (sym (session_of_other q apart) ∙ found) in
          let other : new.session_id ≢ k =
            λ same. apart (sym (own q (ap (λ j. lookup j s.reverse) same ∙ before))) in
          lookup-insert_ne new.session_id k p r other
          ∙ cleared.kept k q (λ eq. apart (sym eq)) before
    ]

    pub back_after :
        (q : Bytes) (k : ℕ)
        → lookup k (insert new.session_id p r) ≡ some q
        → id_of (lookup q (insert p new s.sessions)) ≡ some k
    back_after q k found = elim (lookup-insert new.session_id k p r found) [
      | inl (same, is_p) ↦ rw (← same, ← is_p) session_of_self
      | inr before ↦ elim (key_cases p q) [
        | inl is_p ↦
            let ids : k ≡ new.session_id =
              cleared.only k (before ∙ ap (λ (x : Bytes). some x) (sym is_p)) in
            rw (ids, ← is_p) session_of_self
        | inr apart ↦ session_of_other q apart ∙ paired.back q k (cleared.there k q before)
      ]
    ]
