-- ===== src/Relay/Circuits/Replay.antt =====
-- The replay protection of `process_onion_request`.
use cypher.Prelude.{
  bind_ok, subst, ℕ, ◌≤◌, ◌≡◌, sym, ap, ◌∙◌, inl, inr, String, none, some, List, [], ◌∷◌, length,
  arith, Result, ok, err, Bool-cases, Option-cases, leb, ltb, slice, le→ltb,
}
use cypher.Prelude.Bytes.{Bytes, from_le}
use cypher.Prelude.Assoc.{
  lookup, insert, bytes_Eq, pair_Eq, lookup-insert_self, lookup-insert_ne, key_cases,
  some_injective,
}
use cypher.Crypto.Primitives.{Primitives}
use cypher.Relay.Circuits.{
  max_circuits, CacheKey, CircuitCache, Signaling, circuit_key_for, process_onion_request,
}

-- The circuit that a packet names, and its number.
abbrev pub circuit_of : Bytes → CacheKey
circuit_of packet = (slice 1 33 packet, slice 33 49 packet)

abbrev pub seq_no_of : Bytes → ℕ
seq_no_of packet = from_le (slice 49 57 packet)

-- The cache knows the circuit, and a number of at least `n` was used on it.
abbrev pub Seen : CacheKey → ℕ → CircuitCache → Type 0
Seen k n circuits = (key : Bytes) × (last : ℕ) × (lookup k circuits ≡ some (key, last)) × (n ≤ last)

-- The packets of a connection, one after the other, each with signaling's answers at its time.
unfoldable pub process_all :
    Primitives → (relay_secret : Bytes) → List (Signaling × Bytes) → CircuitCache → CircuitCache
process_all p relay_secret [] circuits = circuits
process_all p relay_secret ((signaling, packet) ∷ rest) circuits =
    process_all p relay_secret rest
      (process_onion_request p relay_secret signaling packet circuits).1

none-some : {v : Bytes × ℕ} → none ≡ some v → ⊥
none-some h = cc

err_ok : {e : String} {a : Bytes} → ◌≡◌ {A = Result String Bytes} (err e) (ok a) → ⊥
err_ok h = cc

-- An entry that is overwritten only by larger numbers keeps what was seen.
insert-Seen :
    (j k : CacheKey) (n m last : ℕ) (key : Bytes) (circuits : CircuitCache)
    → (lookup k circuits ≡ some (key, last)) × (last ≤ m)
    → Seen j n circuits
    → Seen j n (insert k (key, m) circuits)
insert-Seen j k n m last key circuits (present, up) (key', last', known, le) =
    elim (key_cases k j) [
      | inl same ↦
          let one : (key, last) ≡ (key', last') =
            some_injective (sym present ∙ (rw (← same) at known)) in
          (
            key,
            m,
            subst (λ (i : CacheKey). lookup i (insert k (key, m) circuits) ≡ some (key, m)) same
                (lookup-insert_self k (key, m) circuits),
            omega (arith, ap (λ (v : Bytes × ℕ). v.1) one),
          )
      | inr apart ↦ (key', last', lookup-insert_ne k j (key, m) circuits apart ∙ known, le)
    ]

module _ (p : Primitives) (relay_secret : Bytes) where
  -- A new circuit does not touch the entries of the others.
  circuit_key_for-Seen :
      (j k : CacheKey) (n m : ℕ) (circuits : CircuitCache)
      → Seen j n circuits
      → Seen j n (circuit_key_for p relay_secret k m circuits).1
  unfolding circuit_key_for
  circuit_key_for-Seen j k n m circuits seen = elim (Option-cases (lookup k circuits)) [
    | inl absent ↦ (elim (Bool-cases (leb max_circuits (length circuits))) [
      | inl full ↦ rw (absent, full, circuit_key_for) seen
      | inr room ↦
          let (key, last, known, le) = seen in
          rw (absent, room, circuit_key_for)
            (
              key,
              last,
              lookup-insert_ne k j _ circuits
                    (λ same. none-some (sym absent ∙ (rw (← same) at known)))
                  ∙ known,
              le,
            )
    ])
    | inr ((key, last), present) ↦ (elim (Bool-cases (leb m last)) [
      | inl old ↦ rw (present, old, circuit_key_for) seen
      | inr new ↦
          rw (present, new, circuit_key_for)
            (insert-Seen j k n m last key circuits (present, ground arith) seen)
    ])
  ]

  process-Seen :
      (j : CacheKey) (n : ℕ) (signaling : Signaling) (packet : Bytes) (circuits : CircuitCache)
      → Seen j n circuits
      → Seen j n (process_onion_request p relay_secret signaling packet circuits).1
  unfolding process_onion_request
  process-Seen j n signaling packet circuits seen = elim (Bool-cases (ltb (length packet) 58)) [
    | inl short ↦ rw short seen
    | inr long ↦
        rw long (circuit_key_for-Seen j (circuit_of packet) n (seq_no_of packet) circuits seen)
  ]

  process_all-Seen :
      (j : CacheKey) (n : ℕ) (packets : List (Signaling × Bytes)) (circuits : CircuitCache)
      → Seen j n circuits
      → Seen j n (process_all p relay_secret packets circuits)
  unfolding process_all
  process_all-Seen j n [] circuits seen = seen
  process_all-Seen j n ((signaling, packet) ∷ rest) circuits seen =
      process_all-Seen j n rest _ (process-Seen j n signaling packet circuits seen)

  -- A key was given out: its circuit is cached, with the number.
  circuit_key_for_ok :
      (k : CacheKey) (n : ℕ) (circuits : CircuitCache) (key : Bytes)
      → (circuit_key_for p relay_secret k n circuits).0 ≡ ok key
      → Seen k n (circuit_key_for p relay_secret k n circuits).1
  unfolding circuit_key_for
  circuit_key_for_ok k n circuits key h = elim (Option-cases (lookup k circuits)) [
    | inl absent ↦ (elim (Bool-cases (leb max_circuits (length circuits))) [
      | inl full ↦ absurd (err_ok (rw (absent, full, circuit_key_for) at h))
      | inr room ↦
          rw (absent, room, circuit_key_for) (_, n, lookup-insert_self k _ circuits, omega arith)
    ])
    | inr ((key', last), present) ↦ (elim (Bool-cases (leb n last)) [
      | inl old ↦ absurd (err_ok (rw (present, old, circuit_key_for) at h))
      | inr new ↦
          rw (present, new, circuit_key_for)
            (key', n, lookup-insert_self k (key', n) circuits, omega arith)
    ])
  ]

  circuit_key_for_known :
      (k : CacheKey) (m n : ℕ) (circuits : CircuitCache)
      → m ≤ n
      → Seen k n circuits
      → circuit_key_for p relay_secret k m circuits
        ≡ (err "replayed or out-of-order seq_no", circuits)
  unfolding circuit_key_for
  circuit_key_for_known k m n circuits old (key, last, present, le) =
      rw (present, circuit_key_for) (ground arith)

  -- A packet whose circuit and number were seen is refused.
  process_known :
      (signaling : Signaling) (packet : Bytes) (n : ℕ) (circuits : CircuitCache)
      → 58 ≤ length packet
      → seq_no_of packet ≤ n
      → Seen (circuit_of packet) n circuits
      → process_onion_request p relay_secret signaling packet circuits
        ≡ (err "replayed or out-of-order seq_no", circuits)
  unfolding process_onion_request
  process_known signaling packet n circuits long old seen = rw (
    le→ltb (length packet) 58 long,
    circuit_key_for_known (circuit_of packet) (seq_no_of packet) n circuits old seen,
  )

  process_ok-Seen :
      (signaling : Signaling) (packet : Bytes) (circuits : CircuitCache) {response : Bytes}
      → (process_onion_request p relay_secret signaling packet circuits).0 ≡ ok response
      → Seen
          (circuit_of packet)
          (seq_no_of packet)
          (process_onion_request p relay_secret signaling packet circuits).1
  unfolding process_onion_request
  process_ok-Seen signaling packet circuits h = elim (Bool-cases (ltb (length packet) 58)) [
    | inl short ↦ absurd (err_ok (rw short at h))
    | inr long ↦
        let (key, given, _) = bind_ok _ _ (rw long at h) in
        rw long (circuit_key_for_ok (circuit_of packet) (seq_no_of packet) circuits key given)
  ]

  -- Once a request was answered, a packet for the same circuit with the same or a smaller number is
  -- refused ever after: whatever packets the connection carries in between, the error is the replay
  -- error and the cache stays as it is.
  pub process_answered-process_replayed :
      (signaling signaling' : Signaling) (first second : Bytes) (later : List (Signaling × Bytes))
      (circuits : CircuitCache) (response : Bytes)
      → (process_onion_request p relay_secret signaling first circuits).0 ≡ ok response
      → 58 ≤ length second
      → circuit_of second ≡ circuit_of first
      → seq_no_of second ≤ seq_no_of first
      → process_onion_request p relay_secret signaling' second (
          process_all p relay_secret later
            (process_onion_request p relay_secret signaling first circuits).1)
        ≡ (
          err "replayed or out-of-order seq_no",
          process_all p relay_secret later
              (process_onion_request p relay_secret signaling first circuits).1,
        )
  process_answered-process_replayed signaling signaling' first second later circuits response done
        long same old =
      process_known signaling' second (seq_no_of first) _ long old (
        rw same (
          process_all-Seen (circuit_of first) (seq_no_of first) later _
            (process_ok-Seen signaling first circuits done)))
