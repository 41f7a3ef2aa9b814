-- ===== src/Gateway/Invariant.antt =====
-- services/gateway/src/main.rs: what holds of the maps and the counter whatever the sessions do.
use cypher.Prelude.{
  ℕ, ◌+◌, ◌-◌, ◌%◌, ◌^◌, ◌<◌, ◌≡◌, refl, sym, ap, ◌∙◌, inl, inr, none, some, List, [], ◌∷◌, length,
  ◌==◌, Bool-cases, Option-cases, arith,
}
use cypher.Prelude.Bytes.{Bytes}
use cypher.Prelude.Assoc.{
  lookup, insert, remove, nat_eq, bytes_Eq, lookup-insert, length-insert_known,
}
use cypher.Prelude.Maps.{
  IsMap, insert-IsMap, remove-IsMap, lookup-remove, length-insert_new, length-remove_known,
  some-none,
}
use cypher.Gateway.State.{
  new, ConnectionState, Gateway, Outside, remove_all, heartbeat, forget_peer, remove_if_session,
  remove_connection, open_session, allocate_session_id,
}
use cypher.Gateway.Session.{modify_connection}
use cypher.Gateway.Registry.{registry, registry-publish, registry-scan}

pub record IsConsistent (g : Gateway) : Type 0 where
  pub connections_once : IsMap g.connections
  pub ids_kept :
      (sid : ℕ) (c : ConnectionState)
      → lookup sid g.connections ≡ some c
      → (c.session_id ≡ sid) × (sid < g.next_session_id)
  pub peers_allocated :
      (pid : Bytes) (sid : ℕ) → lookup pid g.peers ≡ some sid → sid < g.next_session_id
  pub gauge : g.active_connections ≡ length g.connections

pub registry-IsConsistent :
    {g g' : Gateway} → registry g' ≡ registry g → IsConsistent g → IsConsistent g'
registry-IsConsistent {g} {g'} e h =
    let same_connections : g'.connections ≡ g.connections = ap (λ r. r.0) e in
    let same_peers : g'.peers ≡ g.peers = ap (λ r. r.1) e in
    let same_next : g'.next_session_id ≡ g.next_session_id = ap (λ r. r.2) e in
    let same_gauge : g'.active_connections ≡ g.active_connections = ap (λ r. r.3) e in
    record {
      connections_once = rw same_connections h.connections_once;
      ids_kept = λ sid c found. rw same_next (h.ids_kept sid c (rw same_connections at found));
      peers_allocated =
          λ pid sid found. rw same_next (h.peers_allocated pid sid (rw same_peers at found));
      gauge = rw (same_gauge, same_connections) h.gauge;
    }

pub new-IsConsistent : IsConsistent new
unfolding new lookup
new-IsConsistent = record {
  connections_once = tt;
  ids_kept = λ sid c found. absurd (some-none (sym found));
  peers_allocated = λ pid sid found. absurd (some-none (sym found));
  gauge = refl;
}

-- The id that comes next belongs to no connection.
next_is_fresh : (g : Gateway) → IsConsistent g → lookup g.next_session_id g.connections ≡ none
next_is_fresh g h = elim (Option-cases (lookup g.next_session_id g.connections)) [
  | inl absent ↦ absent
  | inr (c, found) ↦ absurd (omega (arith, (h.ids_kept _ c found).1))
]

pub open_session-IsConsistent :
    (now : ℕ) (g : Gateway)
    → g.next_session_id + 1 < 2 ^ 64
    → IsConsistent g
    → IsConsistent (open_session now g).1
unfolding open_session allocate_session_id
open_session-IsConsistent now g room h =
    let next : (g.next_session_id + 1) % 2 ^ 64 ≡ g.next_session_id + 1 = omega arith in
    record {
      connections_once = insert-IsMap g.next_session_id _ g.connections h.connections_once;
      ids_kept = λ sid c found. rw next (elim (lookup-insert g.next_session_id sid _ _ found) [
        | inl (same, made) ↦
            (ap (λ (x : ConnectionState). x.session_id) (sym made) ∙ same, omega (arith, same))
        | inr before ↦ ((h.ids_kept sid c before).0, omega (arith, (h.ids_kept sid c before).1))
      ]);
      peers_allocated = λ pid sid found. rw next (omega (arith, h.peers_allocated pid sid found));
      gauge =
          rw (length-insert_new g.next_session_id _ g.connections (next_is_fresh g h))
            (omega (arith, h.gauge));
    }

pub modify_connection-IsConsistent :
    (sid : ℕ) (change : ConnectionState → ConnectionState) (g : Gateway)
    → ((c : ConnectionState) → (change c).session_id ≡ c.session_id)
    → IsConsistent g
    → IsConsistent (modify_connection sid change g)
unfolding modify_connection
modify_connection-IsConsistent sid change g keeps h =
    elim (Option-cases (lookup sid g.connections)) [
      | inl absent ↦ rw (absent, modify_connection) h
      | inr (conn, found) ↦
          rw (found, modify_connection)
            (record {
              connections_once = insert-IsMap sid _ g.connections h.connections_once;
              ids_kept = λ s c looked. elim (lookup-insert sid s _ _ looked) [
                | inl (same, made) ↦ (
                  ap (λ (x : ConnectionState). x.session_id) (sym made)
                      ∙ keeps conn
                      ∙ (h.ids_kept sid conn found).0
                      ∙ same,
                  rw (← same) (h.ids_kept sid conn found).1,
                )
                | inr before ↦ h.ids_kept s c before
              ];
              peers_allocated = h.peers_allocated;
              gauge = rw (length-insert_known sid (change conn) g.connections found) h.gauge;
            })
    ]

pub next-modify_connection :
    (sid : ℕ) (change : ConnectionState → ConnectionState) (g : Gateway)
    → (modify_connection sid change g).next_session_id ≡ g.next_session_id
unfolding modify_connection
next-modify_connection sid change g = elim (Option-cases (lookup sid g.connections)) [
  | inl absent ↦ rw (absent, modify_connection) refl
  | inr (conn, found) ↦ rw (found, modify_connection) refl
]

pub insert_peer-IsConsistent :
    (pid : Bytes) (sid : ℕ) (g : Gateway)
    → sid < g.next_session_id
    → IsConsistent g
    → IsConsistent (record g { peers = insert pid sid g.peers })
insert_peer-IsConsistent pid sid g allocated h = record {
  connections_once = h.connections_once;
  ids_kept = h.ids_kept;
  peers_allocated = λ p s looked. elim (lookup-insert pid p sid g.peers looked) [
    | inl (same, made) ↦ rw (← made) allocated
    | inr before ↦ h.peers_allocated p s before
  ];
  gauge = h.gauge;
}

remove_entries :
    (sid : ℕ) (g : Gateway) {c : ConnectionState}
    → lookup sid g.connections ≡ some c
    → IsConsistent g
    → IsConsistent (record g {
      connections = remove sid g.connections;
      active_connections = g.active_connections - 1;
    })
remove_entries sid g found h = record {
  connections_once = remove-IsMap sid g.connections h.connections_once;
  ids_kept = λ s c looked. h.ids_kept s c (lookup-remove sid s g.connections looked);
  peers_allocated = h.peers_allocated;
  gauge = omega (arith, h.gauge, length-remove_known sid g.connections h.connections_once found);
}

lookup-remove_if_session :
    (pid : Bytes) (sid : ℕ) (p : Bytes) (m : List (Bytes × ℕ)) {s : ℕ}
    → lookup p (remove_if_session pid sid m) ≡ some s
    → lookup p m ≡ some s
unfolding remove_if_session
lookup-remove_if_session pid sid p m looked = elim (Option-cases (lookup pid m)) [
  | inl absent ↦ (rw (absent, remove_if_session) at looked)
  | inr (owner, found) ↦ elim (Bool-cases (owner == sid)) [
    | inl own ↦ lookup-remove pid p m (rw (found, own, remove_if_session) at looked)
    | inr newer ↦ (rw (found, newer, remove_if_session) at looked)
  ]
]

remove_peers-IsConsistent :
    (pid : Bytes) (sid : ℕ) (g : Gateway)
    → IsConsistent g
    → IsConsistent (record g { peers = remove_if_session pid sid g.peers })
remove_peers-IsConsistent pid sid g h = record {
  connections_once = h.connections_once;
  ids_kept = h.ids_kept;
  peers_allocated =
      λ p s looked. h.peers_allocated p s (lookup-remove_if_session pid sid p g.peers looked);
  gauge = h.gauge;
}

forget_peer-IsConsistent :
    (o : Outside) (sid : ℕ) (pid : Bytes) (g : Gateway)
    → IsConsistent g
    → IsConsistent (forget_peer o sid pid g)
unfolding forget_peer
forget_peer-IsConsistent o sid pid g h = elim (Bool-cases (length pid == 0)) [
  | inl empty ↦ rw empty h
  | inr named ↦
      rw named
        (registry-IsConsistent (registry-publish o _ _ _) (remove_peers-IsConsistent pid sid g h))
]

pub remove_connection-IsConsistent :
    (o : Outside) (sid : ℕ) (g : Gateway)
    → IsConsistent g
    → IsConsistent (remove_connection o sid g)
unfolding remove_connection
remove_connection-IsConsistent o sid g h = elim (Option-cases (lookup sid g.connections)) [
  | inl absent ↦ rw (absent, remove_connection) h
  | inr (conn, found) ↦
      rw (found, remove_connection)
        (forget_peer-IsConsistent o sid conn.peer_id _ (remove_entries sid g found h))
]

remove_all-IsConsistent :
    (o : Outside) (stale : List ℕ) (g : Gateway)
    → IsConsistent g
    → IsConsistent (remove_all o stale g)
unfolding remove_all
remove_all-IsConsistent o [] g h = h
remove_all-IsConsistent o (sid ∷ rest) g h =
    remove_all-IsConsistent o rest _ (remove_connection-IsConsistent o sid g h)

pub heartbeat-IsConsistent :
    (o : Outside) (g : Gateway) → IsConsistent g → IsConsistent (heartbeat o g)
unfolding heartbeat
heartbeat-IsConsistent o g h =
    remove_all-IsConsistent o _ _ (registry-IsConsistent (registry-scan o g.connections g) h)
