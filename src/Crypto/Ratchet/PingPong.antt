-- ===== src/Crypto/Ratchet/PingPong.antt =====
-- A whole conversation in which the peers take turns.
use cypher.Prelude.{
  ◌+◌, ◌^◌, ◌≤◌, ◌≡◌, refl, sym, ap, ap₂, ◌∙◌, false, some, List, [], ◌∷◌, map, length, arith,
  Error, Result, ok, ◌>>=◌,
}
use cypher.Prelude.Bytes.{Bytes, bytes_eq}
use cypher.Prelude.Assoc.{lookup}
use cypher.Crypto.Primitives.{Primitives, IsAead, IsDh}
use cypher.Crypto.Aead.{aead_encrypt_total, aead_decrypt-aead_encrypt}
use cypher.Crypto.Ratchet.{
  RatchetState, max_skip, max_total_skipped, nonce_material, init_sender, init_receiver, encrypt,
  encrypt_with, decrypt, skip_loop, dh_step, kdf_chain,
}
use cypher.Crypto.Ratchet.Receive.{skipped, after_next}
use cypher.Crypto.Ratchet.Sending.{Packet, Carries, encrypt-encrypt_with}
use cypher.Crypto.Ratchet.Conversation.{
  Turn, Keeps, init-Turn, encrypt-Keeps, encrypt-Turn, stepped, next_base, heard, decrypt-heard,
  heard-Turn,
}

-- The speaker has sent nothing in this turn, and nobody stores a skipped key.
record Speaking (p : Primitives) (base : Bytes) (a b : RatchetState) : Type 0 where
  turn : Turn p base a b
  count : a.send_count ≡ 0
  a_empty : a.skipped_keys ≡ []
  b_empty : b.skipped_keys ≡ []

module _ (p : Primitives) where
  -- One message and the secret that the listener draws for its answer, in each turn.
  unfoldable pub converse :
      RatchetState → RatchetState → List (Bytes × Bytes) → Result Error (List Bytes)
  converse a b [] = ok []
  converse a b ((m, fresh) ∷ rest) =
      let (sent, a') = encrypt p a m in
      sent >>= λ packet.
      let (heard, b') = decrypt p b packet.0 packet.1 packet.2 fresh in
      heard >>= λ plain. converse b' a' rest >>= λ plains. ok (plain ∷ plains)

  -- Each new public key differs from the one that the listener had.
  abbrev pub FreshKeys : (speaker listener : Bytes) → List (Bytes × Bytes) → Type 0
  FreshKeys speaker listener [] = Unit {0}
  FreshKeys speaker listener ((m, fresh) ∷ rest) =
      (bytes_eq listener (p.public_key fresh) ≡ false) × FreshKeys (p.public_key fresh) speaker rest

  abbrev pub Fits : List (Bytes × Bytes) → Type 0
  Fits [] = Unit {0}
  Fits ((m, fresh) ∷ rest) = (length m ≤ 2 ^ 36) × Fits rest

  encrypt_total :
      IsAead p
      → (a : RatchetState) (m ck : Bytes) → a.send_chain_key ≡ some ck
      → length m ≤ 2 ^ 36
      → (packet : Packet) × ((encrypt p a m).0 ≡ ok packet)
  unfolding encrypt_with
  encrypt_total laws a m ck h fits =
      let key = (kdf_chain p ck).1 in
      let (c, e) =
        aead_encrypt_total p laws key (nonce_material key a.send_count) m a.send_ratchet_key fits in
      (
        (c, a.send_ratchet_key, a.send_count),
        rw (encrypt-encrypt_with p a m ck h) (rw (e, encrypt_with)),
      )

module _ (p : Primitives) (laws : IsAead p) (dh : IsDh p) (base : Bytes) (a b : RatchetState)
    (sp : Speaking p base a b) (m fresh : Bytes) (packet : Packet)
    (sent : (encrypt p a m).0 ≡ ok packet)
    (new : bytes_eq b.send_ratchet_key (p.public_key fresh) ≡ false) where
  a' : RatchetState
  a' = (encrypt p a m).1

  spoken : Carries p base a.send_ratchet_key a.send_count m packet × Turn p base a' b
  unfolding a'
  spoken = encrypt-Turn p base a b m sp.turn (omega (arith, sp.count)) sent

  keeps : Keeps p a a'
  unfolding a'
  keeps = encrypt-Keeps p a m

  near0 : 0 ≤ max_skip
  near0 = omega arith

  room0 : length b.skipped_keys + 0 ≤ max_total_skipped
  room0 = omega (arith, ap length sp.b_empty)

  b' : RatchetState
  b' = heard p dh base a' b spoken.1 fresh 0 near0 room0

  hears : decrypt p b packet.0 packet.1 packet.2 fresh ≡ (ok m, b')
  unfolding b'
  hears =
      let (on, number, sealed) = spoken.0 in
      ap₂ (λ k n. decrypt p b packet.0 k n fresh) (on ∙ sym keeps.public) (number ∙ sp.count)
      ∙ decrypt-heard p dh base a' b spoken.1 fresh 0 near0 room0 packet.0
      ∙ ap (λ (r : Result Error Bytes). (r, b'))
          (rw keeps.public (rw sp.count at (aead_decrypt-aead_encrypt p laws _ _ _ _ sealed)))

  b'-keys :
      (b'.send_ratchet_key ≡ p.public_key fresh) × (b'.skipped_keys ≡ []) × (b'.send_count ≡ 0)
  unfolding b' heard after_next skipped stepped dh_step skip_loop
  b'-keys = (refl, sp.b_empty, refl)

  next : Speaking p (next_base p dh base a' b spoken.1 fresh) b' a'
  next = record {
    turn =
        unfold b' in
        (heard-Turn p dh base a' b spoken.1 fresh 0 near0 room0 new
          (λ i. rw (keeps.keys, sp.a_empty) (unfold lookup in refl)));
    count = b'-keys.2;
    a_empty = b'-keys.1;
    b_empty = keeps.keys ∙ sp.a_empty;
  }

  converse_step :
      (rest : List (Bytes × Bytes))
      → converse p a b ((m, fresh) ∷ rest) ≡ (converse p b' a' rest >>= λ plains. ok (m ∷ plains))
  unfolding converse a'
  converse_step rest = rw (sent, hears)

module _ (p : Primitives) (laws : IsAead p) (dh : IsDh p) where
  converse_turns :
      (rounds : List (Bytes × Bytes)) (base : Bytes) (a b : RatchetState)
      → Speaking p base a b
      → FreshKeys p a.send_ratchet_key b.send_ratchet_key rounds
      → Fits p rounds
      → converse p a b rounds ≡ ok (map (λ r. r.0) rounds)
  unfolding converse
  converse_turns [] base a b sp new fits = refl
  converse_turns ((m, fresh) ∷ rest) base a b sp (new, news) (fit, fits) =
      let (packet, sent) = encrypt_total p laws a m _ sp.turn.sends fit in
      let k = keeps p laws dh base a b sp m fresh packet sent new in
      let keys = b'-keys p laws dh base a b sp m fresh packet sent new in
      converse_step p laws dh base a b sp m fresh packet sent new rest
      ∙ ap (λ (r : Result Error (List Bytes)). r >>= λ plains. ok (m ∷ plains))
          (converse_turns rest _ _ _ (next p laws dh base a b sp m fresh packet sent new)
            (rw (keys.0, k.public) news) fits)

-- Alice starts by `init_sender` with Bob's ratchet public key, Bob by `init_receiver` with its secret,
-- both with one shared secret. They take turns for any number of messages of at most 2 ^ 36 bytes, each
-- listener drawing a new key pair whose public key differs from the one before. Every call of
-- `encrypt` and `decrypt` succeeds, and the plaintexts are the messages, in their order.
pub converse-init :
    (p : Primitives)
    → IsAead p
    → IsDh p
    → (shared secret fresh : Bytes) (rounds : List (Bytes × Bytes))
    → FreshKeys p (p.public_key fresh) (p.public_key secret) rounds
    → Fits p rounds
    → converse p
        (init_sender p shared (p.public_key secret) fresh)
        (init_receiver p shared secret)
        rounds
      ≡ ok (map (λ r. r.0) rounds)
converse-init p laws dh shared secret fresh rounds new fits =
    unfold init_sender init_receiver in
    converse_turns p laws dh rounds _ _ _
      (record {
        turn = unfold init_sender init_receiver in init-Turn p dh shared secret fresh;
        count = refl;
        a_empty = refl;
        b_empty = refl;
      })
      new fits
