-- ===== src/Gateway/Removal.antt =====
-- services/gateway/src/main.rs: what the removal of connections takes away, and what the heartbeat finds.
use cypher.Prelude.{
  ℕ, ◌-◌, ◌≡◌, ◌≢◌, refl, sym, ap, ◌∙◌, inl, inr, Bool, true, false, ◌||◌, ◌&&◌, Option, none, some,
  List, [], ◌∷◌, length, ltb, ◌==◌, if◌then◌else◌, Bool-cases, Option-cases, ==_iff, arith,
}
use cypher.Prelude.Bytes.{Bytes}
use cypher.Prelude.Assoc.{
  lookup, remove, nat_eq, bytes_Eq, lookup-remove_self, lookup-remove_ne, some_injective, beq_refl,
}
use cypher.Prelude.Maps.{IsMap, some-none, remove_absent}
use cypher.Gateway.State.{
  ConnectionState, Gateway, Outside, heartbeat_timeout, forget_peer, remove_if_session,
  remove_connection, remove_all, scan, heartbeat,
}
use cypher.Gateway.Registry.{registry-publish, registry-scan}
use cypher.Gateway.Invariant.{IsConsistent}

ne_of_test : (a b : ℕ) → (a == b) ≡ false → a ≢ b
ne_of_test a b h = ground arith

-- The entries that do not name the session are not touched.
remove_if_session_other :
    (pid : Bytes) (sid : ℕ) (p : Bytes) (m : List (Bytes × ℕ))
    → lookup p m ≢ some sid
    → lookup p (remove_if_session pid sid m) ≡ lookup p m
unfolding remove_if_session
remove_if_session_other pid sid p m apart = elim (Option-cases (lookup pid m)) [
  | inl absent ↦ rw (absent, remove_if_session) refl
  | inr (owner, found) ↦ elim (Bool-cases (owner == sid)) [
    | inr newer ↦ rw (found, newer, remove_if_session) refl
    | inl own ↦
        let named : owner ≡ sid = (==_iff owner sid).0 own in
        rw (found, own, remove_if_session)
          (lookup-remove_ne pid p m (λ same. apart (rw (← same, ← named) found)))
  ]
]

remove_if_session_own :
    (pid : Bytes) (sid : ℕ) (m : List (Bytes × ℕ))
    → lookup pid (remove_if_session pid sid m) ≢ some sid
unfolding remove_if_session
remove_if_session_own pid sid m = elim (Option-cases (lookup pid m)) [
  | inl absent ↦ rw (absent, remove_if_session) (λ h. some-none (sym h ∙ absent))
  | inr (owner, found) ↦ elim (Bool-cases (owner == sid)) [
    | inl own ↦
        rw (found, own, remove_if_session) (λ h. some-none (sym h ∙ lookup-remove_self pid m))
    | inr newer ↦
        rw (found, newer, remove_if_session)
          (λ h. absurd (ne_of_test owner sid newer (some_injective (sym found ∙ h))))
  ]
]

module _ (o : Outside) (sid : ℕ) where
  connections-forget_peer :
      (pid : Bytes) (g : Gateway) → (forget_peer o sid pid g).connections ≡ g.connections
  unfolding forget_peer
  connections-forget_peer pid g = elim (Bool-cases (length pid == 0)) [
    | inl empty ↦ rw empty refl
    | inr named ↦ rw named (ap (λ r. r.0) (registry-publish o _ _ _))
  ]

  pub peers-forget_peer :
      (pid : Bytes) (g : Gateway)
      → (length pid == 0) ≡ false
      → (forget_peer o sid pid g).peers ≡ remove_if_session pid sid g.peers
  unfolding forget_peer
  peers-forget_peer pid g named = rw named (ap (λ r. r.1) (registry-publish o _ _ _))

  lookup-forget_peer :
      (pid p : Bytes) (g : Gateway)
      → lookup p g.peers ≢ some sid
      → lookup p (forget_peer o sid pid g).peers ≡ lookup p g.peers
  unfolding forget_peer
  lookup-forget_peer pid p g apart = elim (Bool-cases (length pid == 0)) [
    | inl empty ↦ rw empty refl
    | inr named ↦
        ap (lookup p) (peers-forget_peer pid g named)
        ∙ remove_if_session_other pid sid p g.peers apart
  ]

  pub lookup-remove_connection :
      (g : Gateway) (s : ℕ)
      → lookup s (remove_connection o sid g).connections ≡ lookup s (remove sid g.connections)
  unfolding remove_connection
  lookup-remove_connection g s = elim (Option-cases (lookup sid g.connections)) [
    | inl absent ↦
        rw (absent, remove_connection)
          (sym (ap (lookup s) (remove_absent sid g.connections absent)))
    | inr (conn, found) ↦
        rw (found, remove_connection) (ap (lookup s) (connections-forget_peer conn.peer_id _))
  ]

  -- Removing the connection of a session that has named itself takes that connection away and the
  -- entry of its peer where it still points to this session; every other connection stays, and so
  -- does every entry that points elsewhere, also the one of the same peer that has come back.
  pub remove_connection_exact :
      (g : Gateway) {c : ConnectionState}
      → lookup sid g.connections ≡ some c
      → (length c.peer_id == 0) ≡ false
      → (lookup sid (remove_connection o sid g).connections ≡ none)
        × ((s : ℕ)
            → sid ≢ s
            → lookup s (remove_connection o sid g).connections ≡ lookup s g.connections)
        × (lookup c.peer_id (remove_connection o sid g).peers ≢ some sid)
        × ((p : Bytes)
            → lookup p g.peers ≢ some sid
            → lookup p (remove_connection o sid g).peers ≡ lookup p g.peers)
  unfolding remove_connection
  remove_connection_exact g {c} found named = (
    lookup-remove_connection g sid ∙ lookup-remove_self sid g.connections,
    λ s apart. lookup-remove_connection g s ∙ lookup-remove_ne sid s g.connections apart,
    rw (found, remove_connection, peers-forget_peer c.peer_id _ named)
        (remove_if_session_own c.peer_id sid g.peers),
    λ p apart. rw (found, remove_connection) (lookup-forget_peer c.peer_id p _ apart),
  )

abbrev pub member : ℕ → List ℕ → Bool
member n [] = false
member n (m ∷ ms) = m == n || member n ms

lookup-remove_all :
    (o : Outside) (stale : List ℕ) (s : ℕ) (g : Gateway)
    → lookup s (remove_all o stale g).connections
      ≡ (if member s stale then none else lookup s g.connections)
unfolding remove_all
lookup-remove_all o [] s g = refl
lookup-remove_all o (sid ∷ rest) s g = elim (Bool-cases (sid == s)) [
  | inl same ↦
      let eq : sid ≡ s = (==_iff sid s).0 same in
      lookup-remove_all o rest s (remove_connection o sid g)
      ∙ rw (same, lookup-remove_connection o sid g s, eq, lookup-remove_self s g.connections)
          (both none (member s rest))
  | inr other ↦
      lookup-remove_all o rest s (remove_connection o sid g)
      ∙ rw
          (
            other,
            lookup-remove_connection o sid g s,
            lookup-remove_ne sid s g.connections (ne_of_test sid s other),
          )
          refl
]
  where
    both : (a : Option ConnectionState) (b : Bool) → (if b then a else a) ≡ a
    both a true = refl
    both a false = refl

-- Whether the heartbeat gives a connection up.
abbrev pub is_stale : Outside → Option ConnectionState → Bool
is_stale o none = false
is_stale o (some c) = ltb heartbeat_timeout (o.now - c.last_activity)

abbrev pub IdsKept : List (ℕ × ConnectionState) → Type 0
IdsKept [] = Unit {0}
IdsKept ((k, c) ∷ m) = (c.session_id ≡ k) × IdsKept m

member_if :
    (t : Bool) (n s : ℕ) (xs : List ℕ)
    → member s (if t then n ∷ xs else xs) ≡ (t && (n == s) || member s xs)
member_if true n s xs = refl
member_if false n s xs = refl

scan_stale :
    (o : Outside) (m : List (ℕ × ConnectionState)) (g : Gateway) (s : ℕ)
    → IsMap m
    → IdsKept m
    → member s (scan o m g).0 ≡ is_stale o (lookup s m)
unfolding scan lookup
scan_stale o [] g s h k = refl
scan_stale o ((j, c) ∷ m) g s h k =
    member_if (ltb heartbeat_timeout (o.now - c.last_activity)) c.session_id s _
    ∙ ap (λ b. ltb heartbeat_timeout (o.now - c.last_activity) && (c.session_id == s) || b)
        (scan_stale o m _ s h.1 k.1)
    ∙ elim (Bool-cases (j == s)) [
      | inl same ↦
          let absent : lookup s m ≡ none = rw (← (==_iff j s).0 same) h.0 in
          rw (k.0, same, absent) (at_end (ltb heartbeat_timeout (o.now - c.last_activity)))
      | inr other ↦ rw (k.0, other) (not_here (ltb heartbeat_timeout (o.now - c.last_activity)) _)
    ]
  where
    at_end : (b : Bool) → (b && true || false) ≡ b
    at_end true = refl
    at_end false = refl

    not_here : (b d : Bool) → (b && false || d) ≡ d
    not_here true d = refl
    not_here false d = refl

IsConsistent-IdsKept :
    (m : List (ℕ × ConnectionState))
    → IsMap m
    → ((s : ℕ) (c : ConnectionState) → lookup s m ≡ some c → c.session_id ≡ s)
    → IdsKept m
unfolding lookup
IsConsistent-IdsKept [] h k = tt
IsConsistent-IdsKept ((j, c) ∷ m) h k = (
  k j c (rw (beq_refl nat_eq j) refl),
  IsConsistent-IdsKept m h.1 (λ s d found. k s d (elim (Bool-cases (j == s)) [
    | inl same ↦ absurd (some-none (sym found ∙ rw (← (==_iff j s).0 same) h.0))
    | inr other ↦ rw other found
  ])),
)

abbrev pub unless_stale : Outside → Option ConnectionState → Option ConnectionState
unless_stale o c = if is_stale o c then none else c

-- A round of the heartbeat removes the connections that no frame has come from for longer than the
-- timeout, and no other.
pub lookup-heartbeat :
    (o : Outside) (g : Gateway)
    → IsConsistent g
    → (s : ℕ) → lookup s (heartbeat o g).connections ≡ unless_stale o (lookup s g.connections)
unfolding heartbeat
lookup-heartbeat o g h s =
    let kept =
      IsConsistent-IdsKept g.connections h.connections_once
        (λ s c found. (h.ids_kept s c found).0) in
    lookup-remove_all o _ s _
    ∙ rw
        (
          scan_stale o g.connections g s h.connections_once kept,
          ap (λ r. r.0) (registry-scan o g.connections g),
        )
        refl
