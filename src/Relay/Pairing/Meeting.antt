-- ===== src/Relay/Pairing/Meeting.antt =====
-- Who meets whom under a session key.
use cypher.Prelude.{
  ℕ, ◌≡◌, ◌≢◌, refl, ◌∙◌, inl, inr, false, none, some, List, [], ◌∷◌, length, ◌==◌, Bool-cases,
  Option-cases,
}
use cypher.Prelude.Bytes.{Bytes, bytes_eq, ascii}
use cypher.Prelude.Assoc.{
  lookup, bytes_Eq, lookup-insert_self, lookup-insert_ne, lookup-remove_self, lookup-remove_ne,
}
use cypher.Relay.Pairing.{
  RelaySession, RelayService, waiting, paired, pair_with, wait_for_partner, admit_key,
  handle_connection,
}

-- A key under which clients can meet.
abbrev pub IsKey : Bytes → Type 0
IsKey key = ((length key == 0) ≡ false) × (bytes_eq key (ascii "ONION") ≡ false)

handle_connection-admit_key :
    (now : ℕ) (key : Bytes) (c : ℕ) (s : RelayService)
    → IsKey key
    → handle_connection now key c s ≡ admit_key now key c s
unfolding handle_connection
handle_connection-admit_key now key c s (full, plain) = rw (full, plain) refl

-- Clients that come one after the other, each with its key.
unfoldable pub arrivals : (now : ℕ) → List (Bytes × ℕ) → RelayService → RelayService
arrivals now [] s = s
arrivals now ((key, c) ∷ rest) s = arrivals now rest (handle_connection now key c s).1

-- The key of none of these is the given one.
abbrev pub Others : Bytes → List (Bytes × ℕ) → Type 0
Others key [] = Unit {0}
Others key ((k, c) ∷ rest) = (k ≢ key) × Others key rest

pending-other :
    (now : ℕ) (k key : Bytes) (c : ℕ) (s : RelayService)
    → k ≢ key
    → lookup key (handle_connection now k c s).1.pending ≡ lookup key s.pending
unfolding handle_connection admit_key pair_with wait_for_partner
pending-other now k key c s apart = elim (Bool-cases (length k == 0)) [
  | inl empty ↦ rw empty refl
  | inr full ↦ elim (Bool-cases (bytes_eq k (ascii "ONION"))) [
    | inl is_onion ↦ rw (full, is_onion, handle_connection) refl
    | inr plain ↦ elim (Option-cases (lookup k s.pending)) [
      | inl absent ↦
          rw (full, plain, absent, handle_connection, admit_key, wait_for_partner)
            (lookup-insert_ne k key c s.pending apart)
      | inr (partner, found) ↦
          rw (full, plain, found, handle_connection, admit_key, pair_with)
            (lookup-remove_ne k key s.pending apart)
    ]
  ]
]

pending-arrivals :
    (now : ℕ) (key : Bytes) (between : List (Bytes × ℕ)) (s : RelayService)
    → Others key between
    → lookup key (arrivals now between s).pending ≡ lookup key s.pending
unfolding arrivals
pending-arrivals now key [] s h = refl
pending-arrivals now key ((k, c) ∷ rest) s (apart, h) =
    pending-arrivals now key rest _ h ∙ pending-other now k key c s apart

-- Under a key that nobody waits with, a first client waits and the second is paired with the first,
-- however many clients with other keys come in between; then nobody waits with the key, and the
-- session is filed under it.
pub handle_connection-arrivals :
    (now later : ℕ) (key : Bytes) (first second : ℕ) (between : List (Bytes × ℕ)) (s : RelayService)
    → IsKey key
    → Others key between
    → lookup key s.pending ≡ none
    → let met =
        handle_connection later key second
          (arrivals now between (handle_connection now key first s).1) in
      let relay : RelaySession = record { peer_a = first; peer_b = second; created_at = later } in
      ((handle_connection now key first s).0 ≡ waiting)
      × (met.0 ≡ paired relay)
      × (lookup key met.1.pending ≡ none)
      × (lookup key met.1.sessions ≡ some relay)
unfolding admit_key pair_with wait_for_partner
handle_connection-arrivals now later key first second between s fine others free =
    let one = handle_connection-admit_key now key first s fine in
    let t = arrivals now between (handle_connection now key first s).1 in
    let waits : lookup key (handle_connection now key first s).1.pending ≡ some first =
      rw (one, free, admit_key, wait_for_partner) (lookup-insert_self key first s.pending) in
    let still : lookup key t.pending ≡ some first =
      pending-arrivals now key between _ others ∙ waits in
    let two = handle_connection-admit_key later key second t fine in
    (
      rw (one, free, admit_key, wait_for_partner) refl,
      rw (two, still, admit_key, pair_with) refl,
      rw (two, still, admit_key, pair_with) (lookup-remove_self key t.pending),
      rw (two, still, admit_key, pair_with) (lookup-insert_self key _ t.sessions),
    )
